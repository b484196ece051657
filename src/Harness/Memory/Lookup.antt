-- ===== src/Harness/Memory/Lookup.antt =====
-- What `remember` and `forget` do to each fact, and to all others.
use sitewalk.Base.{
  ℕ, ◌≤◌, ◌≡◌, refl, Bool, true, false, ◌&&◌, Option, none, some, List, [], ◌∷◌, arith, ltb,
  if◌then◌else◌, length, keep, Bool-cases, inl, inr,
}
use sitewalk.Base.Text.{Text, text_eq, text_eq_iff}
use sitewalk.Base.TextMap.{TextMap, get, get-insert, get-remove}
use sitewalk.Harness.Memory.{
  FactSource, inferred, stated, corrected, rank, MemoryEntry, Memory, entries, refresh, touch,
  remember_from, put_entries, other_text, forget_in, forget,
}

-- The fact with this text in a list of entries.
unfoldable pub find_text : Text → List MemoryEntry → Option MemoryEntry
find_text text [] = none
find_text text (e ∷ es) =
    let rest = find_text text es in if text_eq e.text text then some e else rest

unfoldable pub find : Memory → Text → Text → Option MemoryEntry
unfolding find_text entries
find m section text = find_text text (entries m section)

abbrev pub is_some : {A : Type 0} → Option A → Bool
is_some none = false
is_some (some a) = true

-- A correction outranks all but a correction, and a statement outranks a guess.
abbrev pub outranks : FactSource → FactSource → Bool
outranks corrected inferred = true
outranks corrected stated = true
outranks stated inferred = true
outranks _ _ = false

-- The entry that a mention leaves, by the entry that was there.
abbrev pub mentioned : Text → ℕ → FactSource → Option Text → Option MemoryEntry → MemoryEntry
mentioned text now source session none = record {
  text = text;
  last_touched = now;
  source = source;
  session = session;
}
mentioned text now source session (some e) = record {
  text = e.text;
  last_touched = now;
  source = if outranks source e.source then source else e.source;
  session = if outranks source e.source then session else e.session;
}

rank-outranks : (old new : FactSource) → ltb (rank old) (rank new) ≡ outranks new old
unfolding rank
rank-outranks inferred inferred = refl
rank-outranks inferred stated = refl
rank-outranks inferred corrected = refl
rank-outranks stated inferred = refl
rank-outranks stated stated = refl
rank-outranks stated corrected = refl
rank-outranks corrected inferred = refl
rank-outranks corrected stated = refl
rank-outranks corrected corrected = refl

refresh-mentioned :
    (now : ℕ) (source : FactSource) (session : Option Text) (e : MemoryEntry)
    → refresh now source session e ≡ mentioned e.text now source session (some e)
unfolding refresh
refresh-mentioned now source session e =
    rw (rank-outranks e.source source)
      (elim (Bool-cases (outranks source e.source)) [ inl h ↦ rw h refl | inr h ↦ rw h refl ])

find_text-touch :
    (text other : Text) (now : ℕ) (source : FactSource) (session : Option Text)
    (es : List MemoryEntry)
    → find_text other (touch text now source session es) ≡ (
        if text_eq text other
        then some (mentioned text now source session (find_text text es))
        else find_text other es)
unfolding find_text touch
find_text-touch text other now source session [] = ground arith
find_text-touch text other now source session (e ∷ es) = ground (
  arith,
  text_eq_iff e.text text,
  text_eq_iff e.text other,
  text_eq_iff text other,
  refresh-mentioned now source session e,
  find_text-touch text other now source session es,
)

find_text-keep :
    (text other : Text) (es : List MemoryEntry)
    → find_text other (keep (other_text text) es)
      ≡ (if text_eq text other then none else find_text other es)
unfolding find_text
find_text-keep text other [] = ground arith
find_text-keep text other (e ∷ es) = ground (
  arith,
  text_eq_iff e.text text,
  text_eq_iff e.text other,
  text_eq_iff text other,
  find_text-keep text other es,
)

pub length-keep_found :
    (text : Text) (es : List MemoryEntry)
    → (length (keep (other_text text) es) ≤ length es)
      × (ltb (length (keep (other_text text) es)) (length es) ≡ is_some (find_text text es))
unfolding find_text
length-keep_found text [] = (omega arith, refl)
length-keep_found text (e ∷ es) = ground (arith, length-keep_found text es)

entries-put :
    (section other : Text) (kept : List MemoryEntry) (m : TextMap (List MemoryEntry))
    → entries (record { sections = put_entries section kept m }) other
      ≡ (if text_eq section other then kept else entries (record { sections = m }) other)
unfolding entries put_entries
entries-put section other [] m = ground (arith, get-remove section other m)
entries-put section other (e ∷ es) m = ground (arith, get-insert section other (e ∷ es) m)

pub entries-remember_from :
    (m : Memory) (section text s : Text) (now : ℕ) (source : FactSource) (session : Option Text)
    → entries (remember_from m section text now source session) s ≡ (
        if text_eq section s
        then touch text now source session (entries m section)
        else entries m s)
unfolding entries remember_from
entries-remember_from m section text s now source session =
    ground
      (arith, get-insert section s (touch text now source session (entries m section)) m.sections)

pub entries-some :
    (m : Memory) (section : Text) (es : List MemoryEntry)
    → get section m.sections ≡ some es
    → entries m section ≡ es
unfolding entries
entries-some m section es e = rw (e, entries)

pub entries-none :
    (m : Memory) (section : Text) → get section m.sections ≡ none → entries m section ≡ []
unfolding entries
entries-none m section e = rw (e, entries)

find_text-nil : (text : Text) → find_text text [] ≡ none
unfolding find_text
find_text-nil text = refl

forget_in-entries :
    (m : Memory) (section text s : Text) (o : Option (List MemoryEntry))
    → get section m.sections ≡ o
    → ((forget_in m section text o).0 ≡ is_some (find_text text (entries m section)))
      × (entries (forget_in m section text o).1 s
          ≡ (if text_eq section s then keep (other_text text) (entries m section) else entries m s))
unfolding forget_in
forget_in-entries m section text s none e =
    ground (arith, text_eq_iff section s, entries-none m section e, find_text-nil text)
forget_in-entries m section text s (some es) e =
    rw (entries-some m section es e)
      ((length-keep_found text es).1, entries-put section s (keep (other_text text) es) m.sections)

pub entries-forget :
    (m : Memory) (section text s : Text)
    → ((forget m section text).0 ≡ is_some (find_text text (entries m section)))
      × (entries (forget m section text).1 s
          ≡ (if text_eq section s then keep (other_text text) (entries m section) else entries m s))
unfolding forget
entries-forget m section text s = forget_in-entries m section text s (get section m.sections) refl

-- After a fact is mentioned, looking up any fact in any section gives: for the section and text of
-- the mention, the fact as new, or the old one with the time of the mention and with the new source
-- and session exactly where the new source outranks the old one (a correction a statement or a
-- guess, a statement a guess); for all others, what it gave before.
pub find-remember_from :
    (m : Memory) (section text s t : Text) (now : ℕ) (source : FactSource) (session : Option Text)
    → find (remember_from m section text now source session) s t ≡ (
        if text_eq section s && text_eq text t
        then some (mentioned text now source session (find m section text))
        else find m s t)
unfolding find
find-remember_from m section text s t now source session = ground (
  arith,
  text_eq_iff section s,
  entries-remember_from m section text s now source session,
  find_text-touch text t now source session (entries m section),
)

-- Forgetting a fact says whether it was there, and afterwards it is gone; every other fact is as
-- it was.
pub find-forget :
    (m : Memory) (section text s t : Text)
    → ((forget m section text).0 ≡ is_some (find m section text))
      × (find (forget m section text).1 s t
          ≡ (if text_eq section s && text_eq text t then none else find m s t))
unfolding find
find-forget m section text s t = (
  (entries-forget m section text s).0,
  ground (
    arith,
    text_eq_iff section s,
    (entries-forget m section text s).1,
    find_text-keep text t (entries m section),
  ),
)

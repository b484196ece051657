-- ===== src/Harness/Memory/Clamp/Least.antt =====
-- crates/harness/src/memory/mod.rs: the candidate that `clamp_to_cap` takes is a least one and stands in
-- the memory.
use mathlib.Core.Path.{subst}
use sitewalk.Base.{
  ◌≡◌, refl, sym, ap, ◌⊎◌, inl, inr, true, false, some, List, [], ◌∷◌, ◌++◌, map, arith, All,
  Bool-cases,
}
use sitewalk.Base.Text.{Text, text_eq_iff, text_ltb, text_ltb_irrefl}
use sitewalk.Base.TextMap.{TextMap, get, Above, Sorted}
use sitewalk.Harness.Memory.{MemoryEntry, is_internal_section}
use sitewalk.Harness.Memory.Lookup.{find_text, is_some}
use sitewalk.Harness.Memory.Weight.{get-Above}
use sitewalk.Harness.Memory.Evict.{Candidate, candidate, key_ltb, candidates, least, min_by_key}

abbrev pub Among : Candidate → List Candidate → Type 0
Among c [] = ⊥
Among c (d ∷ ds) = (c ≡ d) ⊎ Among c ds

-- No candidate has a smaller key.
abbrev pub IsLeast : Candidate → List Candidate → Type 0
IsLeast c = All (λ d. key_ltb d c ≡ false)

pub text_nlt_trans :
    (s t u : Text) → text_ltb s t ≡ false → text_ltb t u ≡ false → text_ltb s u ≡ false
unfolding text_ltb
text_nlt_trans [] [] u h k = k
text_nlt_trans [] (d ∷ t) u h k = cc
text_nlt_trans (c ∷ s) t [] h k = refl
text_nlt_trans (c ∷ s) [] (e ∷ u) h k = cc
text_nlt_trans (c ∷ s) (d ∷ t) (e ∷ u) h k = ground (arith, text_nlt_trans s t u)

pub text_ltb_asym : (s t : Text) → text_ltb s t ≡ true → text_ltb t s ≡ false
unfolding text_ltb
text_ltb_asym [] [] h = cc
text_ltb_asym [] (d ∷ t) h = refl
text_ltb_asym (c ∷ s) [] h = cc
text_ltb_asym (c ∷ s) (d ∷ t) h = ground (arith, text_ltb_asym s t)

pub key_nlt_trans :
    (a b c : Candidate) → key_ltb a b ≡ false → key_ltb b c ≡ false → key_ltb a c ≡ false
unfolding key_ltb
key_nlt_trans a b c h k = ground (arith, text_nlt_trans a.section b.section c.section)

pub key_nlt_refl : (a : Candidate) → key_ltb a a ≡ false
unfolding key_ltb
key_nlt_refl a = ground (arith, text_ltb_irrefl a.section)

pub key_lt_asym : (a b : Candidate) → key_ltb a b ≡ true → key_ltb b a ≡ false
unfolding key_ltb
key_lt_asym a b h = ground (arith, text_ltb_asym a.section b.section)

pub Among-second :
    (x a b : Candidate) (cs : List Candidate) → Among x (a ∷ cs) → Among x (a ∷ b ∷ cs)
Among-second x a b cs (inl e) = inl e
Among-second x a b cs (inr h) = inr (inr h)

pub least-lower :
    (best c : Candidate) (cs : List Candidate)
    → key_ltb c best ≡ true
    → least best (c ∷ cs) ≡ least c cs
unfolding least
least-lower best c cs e = rw e

pub least-keep :
    (best c : Candidate) (cs : List Candidate)
    → key_ltb c best ≡ false
    → least best (c ∷ cs) ≡ least best cs
unfolding least
least-keep best c cs e = rw e

-- The least candidate is one of them, and no key is smaller.
pub least_lem :
    (best : Candidate) (cs : List Candidate)
    → Among (least best cs) (best ∷ cs) × IsLeast (least best cs) (best ∷ cs)
unfolding least
least_lem best [] = (inl refl, (key_nlt_refl best, tt))
least_lem best (c ∷ cs) = elim (Bool-cases (key_ltb c best)) [
  | inl e ↦
      let (among, bounds) = least_lem c cs in
      subst (λ x. Among x (best ∷ c ∷ cs) × IsLeast x (best ∷ c ∷ cs))
        (sym (least-lower best c cs e))
        (inr among, (key_nlt_trans best c (least c cs) (key_lt_asym c best e) bounds.0, bounds))
  | inr e ↦
      let (among, bounds) = least_lem best cs in
      subst (λ x. Among x (best ∷ c ∷ cs) × IsLeast x (best ∷ c ∷ cs))
        (sym (least-keep best c cs e))
        (
          Among-second (least best cs) best c cs among,
          (bounds.0, (key_nlt_trans c best (least best cs) e bounds.0, bounds.1)),
        )
]

pub min_by_key-IsLeast :
    (cs : List Candidate) (c : Candidate) → min_by_key cs ≡ some c → Among c cs × IsLeast c cs
unfolding min_by_key
min_by_key-IsLeast [] c h = cc
min_by_key-IsLeast (d ∷ ds) c h =
    let same : least d ds ≡ c = cc in
    subst (λ x. Among x (d ∷ ds) × IsLeast x (d ∷ ds)) same (least_lem d ds)

pub in_section :
    (c : Candidate) (name : Text) (es : List MemoryEntry) (rest : List Candidate)
    → Among c (map (candidate name) es ++ rest)
    → ((c.section ≡ name) × (is_some (find_text c.text es) ≡ true)) ⊎ Among c rest
unfolding find_text
in_section c name [] rest a = inr a
in_section c name (e ∷ es) rest (inl same) = inl (
  ap (λ (d : Candidate). d.section) same,
  ground (arith, ap (λ (d : Candidate). d.text) same, text_eq_iff e.text c.text),
)
in_section c name (e ∷ es) rest (inr a) = elim (in_section c name es rest a) [
  | inl (at, found) ↦ inl (at, ground arith)
  | inr more ↦ inr more
]

-- Where a candidate stands: in a section that is not internal, whose entries hold its text.
pub record Stands (c : Candidate) (m : TextMap (List MemoryEntry)) : Type 0 where
  pub es : List MemoryEntry
  pub at : get c.section m ≡ some es
  pub outer : is_internal_section c.section ≡ false
  pub found : is_some (find_text c.text es) ≡ true

pub Stands-later :
    (c : Candidate) (name : Text) (es : List MemoryEntry) (m : TextMap (List MemoryEntry))
    → Above name m
    → Stands c m
    → Stands c ((name, es) ∷ m)
unfolding get
Stands-later c name es m above s = record {
  es = s.es;
  at = ground (arith, s.at, text_eq_iff name c.section, get-Above name m above);
  outer = s.outer;
  found = s.found;
}

pub Among-Stands :
    (c : Candidate) (m : TextMap (List MemoryEntry))
    → Sorted m
    → Among c (candidates m)
    → Stands c m
unfolding candidates get
Among-Stands c [] s a = absurd a
Among-Stands c ((name, es) ∷ m) s a = elim (Bool-cases (is_internal_section name)) [
  | inl e ↦ Stands-later c name es m s.0 (Among-Stands c m s.1 (rw e at a))
  | inr e ↦ elim (in_section c name es (candidates m) (rw e at a)) [
    | inl (at, found) ↦ record {
      es = es;
      at = ground (arith, at, text_eq_iff name c.section);
      outer = rw at e;
      found = found;
    }
    | inr more ↦ Stands-later c name es m s.0 (Among-Stands c m s.1 more)
  ]
]

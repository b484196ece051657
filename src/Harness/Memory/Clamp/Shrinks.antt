-- ===== src/Harness/Memory/Clamp/Shrinks.antt =====
-- crates/harness/src/memory/mod.rs: each removal makes the memory lighter.
use sitewalk.Base.{
  ℕ, suc, ◌<◌, ◌≡◌, refl, ap, ◌∙◌, inl, inr, some, List, [], ◌∷◌, map, arith, length, keep,
  Bool-cases, ltb→lt, length-append,
}
use sitewalk.Base.Text.{Text}
use sitewalk.Base.TextMap.{TextMap, get}
use sitewalk.Harness.Memory.{
  MemoryEntry, Memory, is_internal_section, weigh_entries, weigh, put_entries, other_text, forget,
  forget_in,
}
use sitewalk.Harness.Memory.Lookup.{length-keep_found}
use sitewalk.Harness.Memory.Weight.{IsOrdered, weigh-put, weigh_entries-length}
use sitewalk.Harness.Memory.Evict.{Candidate, candidate, candidates}
use sitewalk.Harness.Memory.Clamp.Least.{Stands}

pub length-mapped :
    (name : Text) (es : List MemoryEntry) → length (map (candidate name) es) ≡ length es
length-mapped name [] = refl
length-mapped name (e ∷ es) = ap suc (length-mapped name es)

pub length-candidates : (m : TextMap (List MemoryEntry)) → length (candidates m) ≡ weigh (λ e. 1) m
unfolding candidates weigh
length-candidates [] = refl
length-candidates ((name, es) ∷ m) = elim (Bool-cases (is_internal_section name)) [
  | inl e ↦ rw e (length-candidates m)
  | inr e ↦ rw e (
      omega (
        arith,
        length-append (map (candidate name) es) (candidates m),
        length-mapped name es,
        weigh_entries-length es,
        length-candidates m,
      ))
]

pub weigh_entries-zero :
    (f : MemoryEntry → ℕ) (es : List MemoryEntry)
    → weigh_entries (λ e. 1) es ≡ 0
    → weigh_entries f es ≡ 0
unfolding weigh_entries
weigh_entries-zero f [] h = refl
weigh_entries-zero f (e ∷ es) h = absurd (omega arith)

pub weigh-zero :
    (f : MemoryEntry → ℕ) (m : TextMap (List MemoryEntry)) → weigh (λ e. 1) m ≡ 0 → weigh f m ≡ 0
unfolding weigh
weigh-zero f [] h = refl
weigh-zero f ((name, es) ∷ m) h = ground (arith, weigh_entries-zero f es, weigh-zero f m)

pub sections-forget :
    (m : Memory) (section text : Text) (es : List MemoryEntry)
    → get section m.sections ≡ some es
    → (forget m section text).1.sections
      ≡ put_entries section (keep (other_text text) es) m.sections
unfolding forget
sections-forget m section text es e = rw (e, forget_in)

-- A round of eviction removes an entry.
pub forget-weighs_less :
    (m : Memory) (c : Candidate)
    → Stands c m.sections
    → IsOrdered m
    → weigh (λ e. 1) (forget m c.section c.text).1.sections < weigh (λ e. 1) m.sections
forget-weighs_less m c s o =
    let kept = keep (other_text c.text) s.es in
    rw (sections-forget m c.section c.text s.es s.at) (
      omega (
        arith,
        weigh-put (λ e. 1) c.section s.outer kept s.es m.sections o s.at,
        weigh_entries-length s.es,
        weigh_entries-length kept,
        ltb→lt (length kept) (length s.es) ((length-keep_found c.text s.es).1 ∙ s.found),
      ))

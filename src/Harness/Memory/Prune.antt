-- ===== src/Harness/Memory/Prune.antt =====
-- Aging: what `prune_stale` keeps, section by section, and what it counts.
use sitewalk.Base.{
  ℕ, ◌+◌, ◌-◌, ◌≡◌, refl, inl, inr, false, none, List, [], ◌∷◌, arith, if◌then◌else◌, length, keep,
  is_empty, Bool-cases, length-keep,
}
use sitewalk.Base.Text.{Text, text_eq, text_eq_iff}
use sitewalk.Base.TextMap.{TextMap, get, Above, Sorted}
use sitewalk.Harness.Memory.{
  MemoryEntry, Memory, entries, is_internal_section, weigh, is_fresh, prune_sections, prune_stale,
}
use sitewalk.Harness.Memory.Weight.{IsOrdered, get-Above, weigh_entries-length}

-- `sections.get(name)`, with the empty list for a missing section
abbrev section_of : Text → TextMap (List MemoryEntry) → List MemoryEntry
section_of k m = entries (record { sections = m }) k

section_of-cons :
    (k name : Text) (es : List MemoryEntry) (m : TextMap (List MemoryEntry))
    → section_of k ((name, es) ∷ m) ≡ (if text_eq name k then es else section_of k m)
unfolding entries get
section_of-cons k name es m = ground arith

section_of-nil : (k : Text) → section_of k [] ≡ []
unfolding entries get
section_of-nil k = refl

section_of-absent :
    (k : Text) (m : TextMap (List MemoryEntry)) → get k m ≡ none → section_of k m ≡ []
unfolding entries
section_of-absent k m e = rw (e, entries)

abbrev aged : ℕ → Text → List MemoryEntry → List MemoryEntry
aged cutoff k es = if is_internal_section k then es else keep (is_fresh cutoff) es

put_kept :
    (k name : Text) (kept : List MemoryEntry) (m : TextMap (List MemoryEntry))
    → get name m ≡ none
    → section_of k (if is_empty kept then m else (name, kept) ∷ m)
      ≡ (if text_eq name k then kept else section_of k m)
put_kept k name [] m a = ground (arith, text_eq_iff name k, section_of-absent name m a)
put_kept k name (e ∷ kept) m a = section_of-cons k name (e ∷ kept) m

Above-prune :
    (cutoff : ℕ) (k : Text) (m : TextMap (List MemoryEntry))
    → Above k m
    → Above k (prune_sections cutoff m).1
unfolding prune_sections
Above-prune cutoff k [] a = tt
Above-prune cutoff k ((name, es) ∷ m) a = elim (Bool-cases (is_internal_section name)) [
  | inl e ↦ rw e (a.0, Above-prune cutoff k m a.1)
  | inr e ↦ elim (Bool-cases (is_empty (keep (is_fresh cutoff) es))) [
    | inl n ↦ rw (e, n) (Above-prune cutoff k m a.1)
    | inr n ↦ rw (e, n) (a.0, Above-prune cutoff k m a.1)
  ]
]

section_of-prune :
    (cutoff : ℕ) (k : Text) (m : TextMap (List MemoryEntry))
    → Sorted m
    → section_of k (prune_sections cutoff m).1 ≡ aged cutoff k (section_of k m)
unfolding prune_sections
section_of-prune cutoff k [] s = ground (arith, section_of-nil k)
section_of-prune cutoff k ((name, es) ∷ m) s = elim (Bool-cases (is_internal_section name)) [
  | inl e ↦
      rw (e, section_of-cons)
        (ground
          (arith, section_of-cons k name es m, text_eq_iff name k, section_of-prune cutoff k m s.1))
  | inr e ↦ rw e (
      ground (
        arith,
        put_kept k name (keep (is_fresh cutoff) es) (prune_sections cutoff m).1
            (get-Above name (prune_sections cutoff m).1 (Above-prune cutoff name m s.0)),
        section_of-cons k name es m,
        text_eq_iff name k,
        section_of-prune cutoff k m s.1,
      ))
]

weigh_kept :
    (name : Text) (kept : List MemoryEntry) (m : TextMap (List MemoryEntry))
    → is_internal_section name ≡ false
    → weigh (λ e. 1) (if is_empty kept then m else (name, kept) ∷ m)
      ≡ length kept + weigh (λ e. 1) m
unfolding weigh
weigh_kept name [] m e = omega arith
weigh_kept name (x ∷ kept) m e = rw e (omega (arith, weigh_entries-length (x ∷ kept)))

weigh-prune :
    (cutoff : ℕ) (m : TextMap (List MemoryEntry))
    → (prune_sections cutoff m).0 + weigh (λ e. 1) (prune_sections cutoff m).1 ≡ weigh (λ e. 1) m
unfolding prune_sections weigh
weigh-prune cutoff [] = refl
weigh-prune cutoff ((name, es) ∷ m) = elim (Bool-cases (is_internal_section name)) [
  | inl e ↦ rw (e, weigh) (rw e (weigh-prune cutoff m))
  | inr e ↦
      let kept = keep (is_fresh cutoff) es in
      rw e (
        omega (
          arith,
          weigh_kept name kept (prune_sections cutoff m).1 e,
          weigh_entries-length es,
          length-keep (is_fresh cutoff) es,
          weigh-prune cutoff m,
        ))
]

-- Pruning keeps an internal section whole, and of every other section the facts that the user
-- corrected or that were touched within `max_age` seconds before `now`, in their order; it returns
-- the number of facts that it removed.
pub prune_stale-keeps :
    (m : Memory) (now max_age : ℕ) (k : Text)
    → IsOrdered m
    → (entries (prune_stale m now max_age).1 k ≡ (
        if is_internal_section k
        then entries m k
        else keep (is_fresh (now - max_age)) (entries m k)))
      × ((prune_stale m now max_age).0 + weigh (λ e. 1) (prune_stale m now max_age).1.sections
          ≡ weigh (λ e. 1) m.sections)
unfolding prune_stale
prune_stale-keeps m now max_age k o =
    (section_of-prune (now - max_age) k m.sections o, weigh-prune (now - max_age) m.sections)

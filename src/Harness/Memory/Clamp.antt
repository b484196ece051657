-- ===== src/Harness/Memory/Clamp.antt =====
-- Eviction ends within the cap, takes a least candidate each time, and spares internal sections.
pub mod Least
pub mod Shrinks
use mathlib.Core.Path.{subst}
use sitewalk.Base.{
  ℕ, zero, suc, ◌+◌, ◌≤◌, ◌<◌, ◌≡◌, refl, sym, ap, ◌∙◌, ◌⊎◌, inl, inr, true, false, none, some,
  List, [], ◌∷◌, ◌++◌, map, arith, ltb, length, keep, All, Bool-cases, Option-cases, ltb→lt, ltb→le,
  length-append,
}
use sitewalk.Base.Text.{Text, text_eq_iff, text_ltb, text_ltb_irrefl}
use sitewalk.Base.TextMap.{TextMap, get, Above, Sorted}
use sitewalk.Harness.Memory.{
  MemoryEntry, Memory, entries, is_internal_section, weigh_entries, weigh, word_count, entry_words,
  put_entries, other_text, forget, forget_in,
}
use sitewalk.Harness.Memory.Lookup.{find_text, is_some, length-keep_found, entries-forget}
use sitewalk.Harness.Memory.Weight.{
  IsOrdered, get-Above, weigh-put, weigh_entries-length, forget-IsOrdered,
}
use sitewalk.Harness.Memory.Evict.{
  Candidate, candidate, key_ltb, candidates, least, min_by_key, clamp_from, clamp_to_cap,
}
use sitewalk.Harness.Memory.Clamp.Least.{
  Among, IsLeast, text_nlt_trans, text_ltb_asym, key_nlt_trans, key_nlt_refl, key_lt_asym,
  Among-second, least-lower, least-keep, least_lem, min_by_key-IsLeast, in_section, Stands,
  Stands-later, Among-Stands,
}
use sitewalk.Harness.Memory.Clamp.Shrinks.{
  length-mapped, length-candidates, weigh_entries-zero, weigh-zero, sections-forget,
  forget-weighs_less,
}

-- One after another, a least candidate is removed from a memory over the cap, `n` times in all.
pub data Evicts (cap : ℕ) : Memory → ℕ → Memory → Type 0 where
  stop : {m : Memory} → Evicts cap m 0 m
  evict :
      {m m' : Memory} {n : ℕ} (c : Candidate)
      → cap < word_count m
      → Among c (candidates m.sections)
      → IsLeast c (candidates m.sections)
      → Evicts cap (forget m c.section c.text).1 n m'
      → Evicts cap m (suc n) m'

-- How the loop ends: within the cap, after evictions of least candidates, which it has counted.
pub record Clamped (m : Memory) (cap removed : ℕ) (r : ℕ × Memory) : Type 0 where
  pub fits : word_count r.1 ≤ cap
  pub evicted : ℕ
  pub steps : Evicts cap m evicted r.1
  pub counted : r.0 ≡ removed + evicted

module _ (fuel : ℕ) (m : Memory) (cap removed : ℕ) where
  clamp_from-fits :
      ltb cap (word_count m) ≡ false → clamp_from (suc fuel) m cap removed ≡ (removed, m)
  unfolding clamp_from
  clamp_from-fits e = rw (e, clamp_from)

  clamp_from-evict :
      (c : Candidate)
      → ltb cap (word_count m) ≡ true
      → min_by_key (candidates m.sections) ≡ some c
      → clamp_from (suc fuel) m cap removed
        ≡ clamp_from fuel (forget m c.section c.text).1 cap (removed + 1)
  unfolding clamp_from
  clamp_from-evict c e k = rw (e, clamp_from) (rw (k, clamp_from))

min_by_key-none : (cs : List Candidate) → min_by_key cs ≡ none → length cs ≡ 0
unfolding min_by_key
min_by_key-none [] h = refl
min_by_key-none (c ∷ cs) h = cc

Clamped-stop :
    (m : Memory) (cap removed : ℕ) → word_count m ≤ cap → Clamped m cap removed (removed, m)
Clamped-stop m cap removed h = record {
  fits = h;
  evicted = 0;
  steps = Evicts.stop;
  counted = omega arith;
}

Clamped-evict :
    (m : Memory) (cap removed : ℕ) (c : Candidate) (r : ℕ × Memory)
    → cap < word_count m
    → Among c (candidates m.sections)
    → IsLeast c (candidates m.sections)
    → Clamped (forget m c.section c.text).1 cap (removed + 1) r
    → Clamped m cap removed r
Clamped-evict m cap removed c r over among least h = record {
  fits = h.fits;
  evicted = suc h.evicted;
  steps = Evicts.evict c over among least h.steps;
  counted = omega (arith, h.counted);
}

clamp_from-Clamped :
    (fuel : ℕ) (m : Memory) (cap removed : ℕ)
    → IsOrdered m
    → weigh (λ e. 1) m.sections ≤ fuel
    → Clamped m cap removed (clamp_from fuel m cap removed)
unfolding clamp_from word_count
clamp_from-Clamped zero m cap removed o h =
    Clamped-stop m cap removed (omega (arith, weigh-zero entry_words m.sections (omega arith)))
clamp_from-Clamped (suc fuel) m cap removed o h = elim (Bool-cases (ltb cap (word_count m))) [
  | inr e ↦
      rw (clamp_from-fits fuel m cap removed e)
        (Clamped-stop m cap removed (ltb→le cap (word_count m) e))
  | inl e ↦ elim (Option-cases (min_by_key (candidates m.sections))) [
    | inl k ↦
        let empty : weigh (λ e. 1) m.sections ≡ 0 =
          sym (length-candidates m.sections) ∙ min_by_key-none (candidates m.sections) k in
        absurd (omega (arith, ltb→lt cap (word_count m) e, weigh-zero entry_words m.sections empty))
    | inr (c, k) ↦
        let (among, least) = min_by_key-IsLeast (candidates m.sections) c k in
        let next = (forget m c.section c.text).1 in
        rw (clamp_from-evict fuel m cap removed c e k) (
          Clamped-evict m cap removed c _ (ltb→lt cap (word_count m) e) among least (
            clamp_from-Clamped fuel next cap (removed + 1) (forget-IsOrdered m c.section c.text o)
              (omega (arith, forget-weighs_less m c (Among-Stands c m.sections o among) o))))
  ]
]

-- Clamping a memory whose sections are in order (as a `BTreeMap` always is) leaves at most `cap`
-- words. It does so by removing, one at a time and only while over the cap, a fact whose key
-- (source rank, time, section) no other fact outside internal sections goes below; the number
-- returned counts these removals.
pub clamp_to_cap-Clamped :
    (m : Memory) (cap : ℕ) → IsOrdered m → Clamped m cap 0 (clamp_to_cap m cap)
unfolding clamp_to_cap
clamp_to_cap-Clamped m cap o =
    clamp_from-Clamped (weigh (λ e. 1) m.sections) m cap 0 o (omega arith)

Evicts-internal :
    (cap n : ℕ) {m m' : Memory} (k : Text)
    → is_internal_section k ≡ true
    → IsOrdered m
    → Evicts cap m n m'
    → entries m' k ≡ entries m k
Evicts-internal cap n k i o Evicts.stop = refl
Evicts-internal cap n {m = m} k i o (Evicts.evict c over among least rest) =
    let s = Among-Stands c m.sections o among in
    Evicts-internal cap _ k i (forget-IsOrdered m c.section c.text o) rest
    ∙ ground (arith, (entries-forget m c.section c.text k).1, text_eq_iff c.section k, s.outer, i)

-- Clamping leaves every internal section as it is.
pub entries-clamp_internal :
    (m : Memory) (cap : ℕ) (k : Text)
    → IsOrdered m
    → is_internal_section k ≡ true
    → entries (clamp_to_cap m cap).1 k ≡ entries m k
entries-clamp_internal m cap k o i =
    Evicts-internal cap _ k i o (clamp_to_cap-Clamped m cap o).steps

-- ===== src/Harness/Memory/Evict.antt =====
-- `clamp_to_cap` of crates/harness/src/memory/mod.rs: eviction until the words fit.
use sitewalk.Base.{
  ℕ, zero, suc, ◌+◌, Bool, true, false, Option, none, some, List, [], ◌∷◌, ◌++◌, map, ltb,
  if◌then◌else◌,
}
use sitewalk.Base.Text.{Text, text_ltb}
use sitewalk.Base.TextMap.{TextMap}
use sitewalk.Harness.Memory.{
  MemoryEntry, Memory, rank, is_internal_section, word_count, weigh, forget,
}

-- An entry with its eviction key.
pub record Candidate : Type 0 where
  pub level : ℕ
  pub touched : ℕ
  pub section : Text
  pub text : Text

-- The order of the key `(source rank, last_touched, section name)`.
unfoldable pub key_ltb : Candidate → Candidate → Bool
key_ltb a b =
    if ltb a.level b.level
    then true
    else if ltb b.level a.level
    then false
    else if ltb a.touched b.touched
    then true
    else if ltb b.touched a.touched
    then false
    else text_ltb a.section b.section

abbrev pub candidate : Text → MemoryEntry → Candidate
candidate name e = record {
  level = rank e.source;
  touched = e.last_touched;
  section = name;
  text = e.text;
}

unfoldable pub candidates : TextMap (List MemoryEntry) → List Candidate
unfolding is_internal_section rank
candidates [] = []
candidates ((name, es) ∷ m) =
    let rest = candidates m in
    if is_internal_section name then rest else map (candidate name) es ++ rest

-- `min_by`: the first of the least ones.
unfoldable pub least : Candidate → List Candidate → Candidate
unfolding key_ltb
least best [] = best
least best (c ∷ cs) = least (if key_ltb c best then c else best) cs

unfoldable pub min_by_key : List Candidate → Option Candidate
unfolding least
min_by_key [] = none
min_by_key (c ∷ cs) = some (least c cs)

-- The loop, for at most `fuel` rounds; `removed` counts the rounds.
unfoldable pub clamp_from : ℕ → Memory → ℕ → ℕ → ℕ × Memory
clamp_from zero m cap removed = (removed, m)
clamp_from (suc fuel) m cap removed = elim (ltb cap (word_count m)) [
  | false ↦ (removed, m)
  | true ↦ elim (min_by_key (candidates m.sections)) [
    | none ↦ (removed, m)
    | some c ↦ clamp_from fuel (forget m c.section c.text).1 cap (removed + 1)
  ]
]

-- Each round removes an entry, so as many rounds as there are entries are enough.
unfoldable pub clamp_to_cap : Memory → ℕ → ℕ × Memory
unfolding clamp_from min_by_key candidates word_count forget
clamp_to_cap m cap = clamp_from (weigh (λ e. 1) m.sections) m cap 0

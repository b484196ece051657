-- ===== src/Harness/Memory/Vocabulary.antt =====
-- The vocabulary terms and the seed markers of crates/harness/src/memory/mod.rs.
pub mod Cap
use sitewalk.Base.{
  ℕ, suc, Bool, true, false, Option, none, some, List, [], ◌∷◌, ltb, leb, if◌then◌else◌, length,
  is_empty, any,
}
use sitewalk.Base.Text.{Text, text_eq, eq_ignore_ascii_case}
use sitewalk.Base.Text.Split.{split_whitespace}
use sitewalk.Harness.Memory.{
  VocabAdd, FactSource, Memory, added, duplicate, full, empty, too_long, stated, vocabulary_section,
  max_vocabulary_terms, seed_marker_section, max_vocabulary_term_words, normalize_term,
  remember_from, forget, section_texts,
}

unfoldable pub vocabulary_terms : Memory → List Text
unfolding section_texts
vocabulary_terms m = section_texts m vocabulary_section

abbrev pub matches_term : Text → Text → Bool
matches_term normalized t = eq_ignore_ascii_case (normalize_term t) normalized

unfoldable pub first_match : Text → List Text → Option Text
first_match normalized [] = none
first_match normalized (t ∷ ts) =
    let rest = first_match normalized ts in if matches_term normalized t then some t else rest

unfoldable pub matching_vocabulary_term : Memory → Text → Option Text
unfolding first_match vocabulary_terms
matching_vocabulary_term m normalized = first_match normalized (vocabulary_terms m)

-- The end of `add_vocabulary_term`, by the stored term that matches.
add_matched : Memory → Text → ℕ → FactSource → Option Text → VocabAdd × Memory
add_matched m normalized now source (some stored) =
    (duplicate, remember_from m vocabulary_section stored now source none)
add_matched m normalized now source none =
    if leb max_vocabulary_terms (length (vocabulary_terms m))
    then (full, m)
    else (added, remember_from m vocabulary_section normalized now source none)

unfoldable pub add_vocabulary_term : Memory → Text → ℕ → FactSource → VocabAdd × Memory
unfolding add_matched
add_vocabulary_term m term now source =
    let normalized = normalize_term term in
    if is_empty normalized
    then (empty, m)
    else if ltb max_vocabulary_term_words (length (split_whitespace normalized))
    then (too_long, m)
    else add_matched m normalized now source (matching_vocabulary_term m normalized)

remove_matched : Memory → Option Text → Bool × Memory
remove_matched m none = (false, m)
remove_matched m (some stored) = forget m vocabulary_section stored

unfoldable pub remove_vocabulary_term : Memory → Text → Bool × Memory
unfolding remove_matched
remove_vocabulary_term m term = remove_matched m (matching_vocabulary_term m (normalize_term term))

unfoldable pub mark_pack_seeded : Memory → Text → Memory
mark_pack_seeded m key = remember_from m seed_marker_section key 0 stated none

unfoldable pub is_pack_seeded : Memory → Text → Bool
unfolding section_texts
is_pack_seeded m key = any (λ t. text_eq t key) (section_texts m seed_marker_section)

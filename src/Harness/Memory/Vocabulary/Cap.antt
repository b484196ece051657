-- ===== src/Harness/Memory/Vocabulary/Cap.antt =====
-- The vocabulary: at most 100 terms, no term twice, and what each outcome of an addition means.
use mathlib.Core.Path.{subst}
use sitewalk.Base.{
  ℕ, ◌≤◌, ◌<◌, ◌≡◌, refl, ap, ◌∙◌, inl, inr, Bool, true, false, Option, none, some, List, [], ◌∷◌,
  ◌++◌, map, arith, ltb, leb, if◌then◌else◌, length, is_empty, any, All, Bool-cases, length-append,
  leb→lt,
}
use sitewalk.Base.Text.{Text, text_eq, text_eq_iff, text_eq_refl, eq_ignore_ascii_case_refl}
use sitewalk.Base.Text.Split.{split_whitespace, join, split_whitespace-IsWord, split-join}
use sitewalk.Harness.Memory.{
  VocabAdd, FactSource, MemoryEntry, Memory, stated, added, duplicate, full, empty, too_long,
  vocabulary_section, max_vocabulary_terms, seed_marker_section, max_vocabulary_term_words, entries,
  normalize_term, refresh, touch, remember_from, section_texts,
}
use sitewalk.Harness.Memory.Lookup.{entries-remember_from}
use sitewalk.Harness.Memory.Vocabulary.{
  vocabulary_terms, matches_term, first_match, matching_vocabulary_term, add_matched,
  add_vocabulary_term, mark_pack_seeded, is_pack_seeded,
}

-- Normalizing a term again changes nothing.
pub normalize_term_idem : (t : Text) → normalize_term (normalize_term t) ≡ normalize_term t
unfolding normalize_term
normalize_term_idem t =
    ap (join (32 ∷ [])) (split-join (split_whitespace t) (split_whitespace-IsWord t))

abbrev texts : List MemoryEntry → List Text
texts = map (λ (e : MemoryEntry). e.text)

abbrev holds : Text → List Text → Bool
holds t = any (λ u. text_eq u t)

texts-touch :
    (t : Text) (now : ℕ) (source : FactSource) (session : Option Text) (es : List MemoryEntry)
    → texts (touch t now source session es)
      ≡ (if holds t (texts es) then texts es else texts es ++ t ∷ [])
unfolding touch refresh
texts-touch t now source session [] = refl
texts-touch t now source session (e ∷ es) = ground (arith, texts-touch t now source session es)

section_texts-remember_from :
    (m : Memory) (section t s : Text) (now : ℕ) (source : FactSource) (session : Option Text)
    → section_texts (remember_from m section t now source session) s ≡ (
        if text_eq section s
        then if holds t (section_texts m s) then section_texts m s else section_texts m s ++ t ∷ []
        else section_texts m s)
unfolding section_texts
section_texts-remember_from m section t s now source session = ground (
  arith,
  text_eq_iff section s,
  ap texts (entries-remember_from m section t s now source session),
  texts-touch t now source session (entries m section),
)

terms-remember_from :
    (m : Memory) (t : Text) (now : ℕ) (source : FactSource)
    → vocabulary_terms (remember_from m vocabulary_section t now source none)
      ≡ (if holds t (vocabulary_terms m) then vocabulary_terms m else vocabulary_terms m ++ t ∷ [])
unfolding vocabulary_terms
terms-remember_from m t now source =
    section_texts-remember_from m vocabulary_section t vocabulary_section now source none
    ∙ ground (arith, text_eq_refl vocabulary_section)

first_match-some :
    (n t : Text) (ts : List Text)
    → first_match n ts ≡ some t
    → (holds t ts ≡ true) × (matches_term n t ≡ true)
unfolding first_match
first_match-some n t [] h = cc
first_match-some n t (u ∷ ts) h = elim (Bool-cases (matches_term n u)) [
  | inl e ↦ ground (arith, text_eq_iff u t, e)
  | inr e ↦ ground (arith, first_match-some n t ts, e)
]

first_match-none :
    (n : Text) (ts : List Text) → first_match n ts ≡ none → All (λ t. matches_term n t ≡ false) ts
unfolding first_match
first_match-none n [] h = tt
first_match-none n (u ∷ ts) h = elim (Bool-cases (matches_term n u)) [
  | inl e ↦ ground (arith, e)
  | inr e ↦ (e, first_match-none n ts (ground (arith, e)))
]

-- A normalized term matches itself, so where nothing matches it is not among the terms.
matches_self : (t : Text) → matches_term (normalize_term t) (normalize_term t) ≡ true
matches_self t = rw normalize_term_idem (eq_ignore_ascii_case_refl (normalize_term t))

not_held :
    (n : Text) (ts : List Text)
    → matches_term n n ≡ true
    → All (λ t. matches_term n t ≡ false) ts
    → holds n ts ≡ false
not_held n [] self h = refl
not_held n (u ∷ ts) self h = elim (Bool-cases (text_eq u n)) [
  | inl e ↦
      let same : u ≡ n = (text_eq_iff u n).0 e in
      let clash : matches_term n n ≡ false = subst (λ x. matches_term n x ≡ false) same h.0 in cc
  | inr e ↦ rw e (not_held n ts self h.1)
]

-- What an outcome says of the terms before and after, where `n` is the normalized term.
pub AddMeans : Text → Memory → Memory → VocabAdd → Type 0
AddMeans n m m' added =
    (vocabulary_terms m' ≡ vocabulary_terms m ++ n ∷ [])
    × All (λ t. matches_term n t ≡ false) (vocabulary_terms m)
    × (length (vocabulary_terms m) < max_vocabulary_terms)
AddMeans n m m' duplicate =
    (vocabulary_terms m' ≡ vocabulary_terms m) × (any (matches_term n) (vocabulary_terms m) ≡ true)
AddMeans n m m' full =
    (m' ≡ m)
    × All (λ t. matches_term n t ≡ false) (vocabulary_terms m)
    × (max_vocabulary_terms ≤ length (vocabulary_terms m))
AddMeans n m m' empty = (m' ≡ m) × (is_empty n ≡ true)
AddMeans n m m' too_long = (m' ≡ m) × (max_vocabulary_term_words < length (split_whitespace n))

any-match :
    (n t : Text) (ts : List Text) → first_match n ts ≡ some t → any (matches_term n) ts ≡ true
unfolding first_match
any-match n t [] h = cc
any-match n t (u ∷ ts) h = elim (Bool-cases (matches_term n u)) [
  | inl e ↦ rw e
  | inr e ↦ rw e (any-match n t ts (ground (arith, e)))
]

add_matched-means :
    (m : Memory) (n : Text) (now : ℕ) (source : FactSource) (o : Option Text)
    → matches_term n n ≡ true
    → matching_vocabulary_term m n ≡ o
    → AddMeans n m (add_matched m n now source o).1 (add_matched m n now source o).0
unfolding add_matched AddMeans matching_vocabulary_term
add_matched-means m n now source (some stored) self found = (
  terms-remember_from m stored now source
      ∙ rw (first_match-some n stored (vocabulary_terms m) found).0,
  any-match n stored (vocabulary_terms m) found,
)
add_matched-means m n now source none self found =
    let fresh = first_match-none n (vocabulary_terms m) found in
    elim (Bool-cases (leb max_vocabulary_terms (length (vocabulary_terms m)))) [
      | inl e ↦ rw e (refl, fresh, ground arith)
      | inr e ↦ rw e (
        terms-remember_from m n now source ∙ rw (not_held n (vocabulary_terms m) self fresh),
        fresh,
        leb→lt _ _ e,
      )
    ]

-- Adding a term has one of five outcomes, and each means what it says. Added: the normalized term
-- stands at the end of the terms, nothing matched it and there was room. Duplicate: a stored term
-- matches it up to case and spacing, and the terms are as they were. Full: nothing matches and 100
-- terms are there already. Empty: nothing is left of the term. TooLong: it has more than six
-- words. In the last three cases the memory is unchanged.
pub add_vocabulary_term-means :
    (m : Memory) (term : Text) (now : ℕ) (source : FactSource)
    → AddMeans
        (normalize_term term)
        m
        (add_vocabulary_term m term now source).1
        (add_vocabulary_term m term now source).0
unfolding add_vocabulary_term
add_vocabulary_term-means m term now source =
    let n = normalize_term term in
    elim (Bool-cases (is_empty n)) [
      | inl e ↦ rw e (unfold AddMeans in (refl, e))
      | inr e ↦ elim (Bool-cases (ltb max_vocabulary_term_words (length (split_whitespace n)))) [
        | inl long ↦ rw (e, long) (unfold AddMeans in (refl, ground arith))
        | inr short ↦
            rw (e, short)
              (add_matched-means m n now source (matching_vocabulary_term m n) (matches_self term)
                refl)
      ]
    ]

AddMeans-cap :
    (n : Text) (m m' : Memory) (r : VocabAdd)
    → AddMeans n m m' r
    → length (vocabulary_terms m) ≤ max_vocabulary_terms
    → length (vocabulary_terms m') ≤ max_vocabulary_terms
unfolding AddMeans
AddMeans-cap n m m' added a h =
    omega (arith, ap length a.0, length-append (vocabulary_terms m) (n ∷ []), a.2)
AddMeans-cap n m m' duplicate a h = rw a.0 h
AddMeans-cap n m m' _ a h = rw a.0 h

-- Adding a term never takes the vocabulary past 100 terms.
pub add_vocabulary_term-cap :
    (m : Memory) (term : Text) (now : ℕ) (source : FactSource)
    → length (vocabulary_terms m) ≤ max_vocabulary_terms
    → length (vocabulary_terms (add_vocabulary_term m term now source).1) ≤ max_vocabulary_terms
add_vocabulary_term-cap m term now source =
    AddMeans-cap (normalize_term term) m _ _ (add_vocabulary_term-means m term now source)

holds-append : (t : Text) (ts : List Text) → holds t (ts ++ t ∷ []) ≡ true
holds-append t [] = ground (arith, text_eq_refl t)
holds-append t (u ∷ ts) = ground (arith, holds-append t ts)

seeds-mark :
    (m : Memory) (key : Text)
    → section_texts (mark_pack_seeded m key) seed_marker_section ≡ (
        if holds key (section_texts m seed_marker_section)
        then section_texts m seed_marker_section
        else section_texts m seed_marker_section ++ key ∷ [])
unfolding mark_pack_seeded
seeds-mark m key =
    section_texts-remember_from m seed_marker_section key seed_marker_section 0 stated none
    ∙ ground (arith, text_eq_refl seed_marker_section)

holds-mark :
    (m : Memory) (key : Text)
    → holds key (section_texts (mark_pack_seeded m key) seed_marker_section) ≡ true
holds-mark m key = elim (Bool-cases (holds key (section_texts m seed_marker_section))) [
  | inl e ↦ rw seeds-mark (rw e e)
  | inr e ↦ rw seeds-mark (rw e (holds-append key (section_texts m seed_marker_section)))
]

-- A seed pack that is marked counts as applied, and marking adds its key once: a second mark leaves
-- the list of keys as the first left it.
pub mark_pack_seeded-once :
    (m : Memory) (key : Text)
    → (is_pack_seeded (mark_pack_seeded m key) key ≡ true)
      × (section_texts (mark_pack_seeded (mark_pack_seeded m key) key) seed_marker_section
          ≡ section_texts (mark_pack_seeded m key) seed_marker_section)
unfolding is_pack_seeded
mark_pack_seeded-once m key =
    (holds-mark m key, seeds-mark (mark_pack_seeded m key) key ∙ rw (holds-mark m key))

-- ===== src/Stt/Finalizer/Seam.antt =====
-- Where two windows overlap: the text seam takes the longest match, and the time seam, which is
-- used only where no text matches, keeps nothing that the held audio covers.
use sitewalk.Base.{
  ℕ, zero, suc, ◌≤◌, ◌<◌, min, max, ◌≡◌, refl, sym, ap, ◌⊎◌, All, inl, inr, true, false, List, [],
  ◌∷◌, ◌++◌, arith, ltb, leb, if◌then◌else◌, length, take, drop, drop_while, map, Bool-cases,
  lt→ltb, ltb→lt,
}
use mathlib.Core.Path.{subst}
use sitewalk.Base.Text.{Text, text_eq_iff}
use sitewalk.Stt.Finalizer.{Word, same_texts, suffix, best_overlap, max_end, covered, merge_words}

abbrev pub texts : List Word → List Text
texts = map (λ (w : Word). w.text)

same_texts→eq : (vs ws : List Word) → same_texts vs ws ≡ true → texts vs ≡ texts ws
unfolding same_texts
same_texts→eq [] [] h = refl
same_texts→eq [] (w ∷ ws) h = cc
same_texts→eq (v ∷ vs) [] h = cc
same_texts→eq (v ∷ vs) (w ∷ ws) h = ground (arith, text_eq_iff v.text w.text, same_texts→eq vs ws)

eq→same_texts : (vs ws : List Word) → texts vs ≡ texts ws → same_texts vs ws ≡ true
unfolding same_texts
eq→same_texts [] [] h = refl
eq→same_texts [] (w ∷ ws) h = cc
eq→same_texts (v ∷ vs) [] h = cc
eq→same_texts (v ∷ vs) (w ∷ ws) h = ground (arith, text_eq_iff v.text w.text, eq→same_texts vs ws)

-- The seam of length `k` fits: the last `k` pending texts are the first `k` new ones.
abbrev pub Fits : ℕ → List Word → List Word → Type 0
Fits k ps ns = texts (suffix k ps) ≡ texts (take k ns)

best_overlap-Fits :
    (k : ℕ) (ps ns : List Word) → 0 < best_overlap k ps ns → Fits (best_overlap k ps ns) ps ns
unfolding best_overlap
best_overlap-Fits zero ps ns h = absurd (omega arith)
best_overlap-Fits (suc k) ps ns h =
    elim (Bool-cases (same_texts (suffix (suc k) ps) (take (suc k) ns))) [
      | inl e ↦ rw e (same_texts→eq _ _ e)
      | inr e ↦ rw e (best_overlap-Fits k ps ns (rw e at h))
    ]

best_overlap-le : (k : ℕ) (ps ns : List Word) → best_overlap k ps ns ≤ k
unfolding best_overlap
best_overlap-le zero ps ns = omega arith
best_overlap-le (suc k) ps ns = ground (arith, best_overlap-le k ps ns)

best_overlap-max :
    (k j : ℕ) (ps ns : List Word) → 0 < j → j ≤ k → Fits j ps ns → j ≤ best_overlap k ps ns
unfolding best_overlap
best_overlap-max zero j ps ns p h f = absurd (omega arith)
best_overlap-max (suc k) j ps ns p h f = elim (Bool-cases (leb j k)) [
  | inl le ↦ ground (arith, best_overlap-max k j ps ns p (ground arith) f)
  | inr gt ↦
      let e : j ≡ suc k = ground arith in
      let fits : Fits (suc k) ps ns = rw e at f in
      rw (eq→same_texts (suffix (suc k) ps) (take (suc k) ns) fits) h
]

-- The most that the text seam looks at.
abbrev pub reach : List Word → List Word → ℕ
reach ps ns = min (min (length ps) (length ns)) 40

-- A word with its own timing is judged by its start, and an interpolated one by its end.
abbrev pub IsCovered : ℕ → Word → Type 0
IsCovered held w = (if w.time_precise then w.start_ms else w.end_ms) ≤ held

abbrev pub FirstUncovered : ℕ → List Word → Type 0
FirstUncovered held [] = Unit
FirstUncovered held (w ∷ ws) = ¬ (IsCovered held w)

-- One of the words ends at this time.
abbrev pub Ends : ℕ → List Word → Type 0
Ends t [] = ⊥
Ends t (w ∷ ws) = (t ≡ w.end_ms) ⊎ Ends t ws

covered-IsCovered : (held : ℕ) (w : Word) → covered held w ≡ true → IsCovered held w
unfolding covered
covered-IsCovered held w h = ground arith

covered-not_IsCovered : (held : ℕ) (w : Word) → covered held w ≡ false → ¬ (IsCovered held w)
unfolding covered
covered-not_IsCovered held w h = ground arith

drop_while-first : (held : ℕ) (ws : List Word) → FirstUncovered held (drop_while (covered held) ws)
drop_while-first held [] = tt
drop_while-first held (w ∷ ws) = elim (Bool-cases (covered held w)) [
  | inl e ↦ rw e (drop_while-first held ws)
  | inr e ↦ rw e (covered-not_IsCovered held w e)
]

drop_while-front :
    (held : ℕ) (ws : List Word)
    → (front : List Word) × (ws ≡ front ++ drop_while (covered held) ws)
      × All (IsCovered held) front
drop_while-front held [] = ([], refl, tt)
drop_while-front held (w ∷ ws) = elim (Bool-cases (covered held w)) [
  | inl e ↦
      let (front, split, all) = drop_while-front held ws in
      rw e (w ∷ front, ap (λ vs. w ∷ vs) split, (covered-IsCovered held w e, all))
  | inr e ↦ rw e ([], refl, tt)
]

All-max_end : (t : ℕ) (ws : List Word) → max_end ws ≤ t → All (λ (w : Word). w.end_ms ≤ t) ws
unfolding max_end
All-max_end t [] h = tt
All-max_end t (w ∷ ws) h = (omega (arith, h), All-max_end t ws (omega (arith, h)))

max_end-Ends : (w : Word) (ws : List Word) → Ends (max_end (w ∷ ws)) (w ∷ ws)
unfolding max_end
max_end-Ends w [] = inl (omega arith)
max_end-Ends w (v ∷ ws) = elim (Bool-cases (leb (max_end (v ∷ ws)) w.end_ms)) [
  | inl e ↦ inl (ground arith)
  | inr e ↦
      let last : max w.end_ms (max_end (v ∷ ws)) ≡ max_end (v ∷ ws) = ground arith in
      inr (subst (λ t. Ends t (v ∷ ws)) (sym last) (max_end-Ends v ws))
]

pending-Ends : (ps : List Word) → 0 < length ps → Ends (max_end ps) ps
pending-Ends [] h = absurd (omega (arith, h))
pending-Ends (p ∷ ps) h = max_end-Ends p ps

merge_words-eq :
    (ps ns : List Word)
    → 0 < length ps
    → merge_words ps ns ≡ (
        if ltb 0 (best_overlap (reach ps ns) ps ns)
        then ps ++ drop (best_overlap (reach ps ns) ps ns) ns
        else ps ++ drop_while (covered (max_end ps)) ns)
unfolding merge_words
merge_words-eq [] ns h = absurd (omega arith)
merge_words-eq (p ∷ ps) ns h = refl

module _ (ps ns : List Word) (some_pending : 0 < length ps) where
  -- If the last `j` pending texts are the first `j` new texts for some j from 1 to the reach (the
  -- shorter length, at most 40), then the merge appends the new words after a match of length k,
  -- where k is at least j and within the reach, and the match of length k is exact too.
  pub merge_words-text_seam :
      (j : ℕ)
      → 0 < j
      → j ≤ reach ps ns
      → Fits j ps ns
      → (k : ℕ) × (j ≤ k) × (k ≤ reach ps ns) × Fits k ps ns × (merge_words ps ns ≡ ps ++ drop k ns)
  merge_words-text_seam j p h f =
      let k = best_overlap (reach ps ns) ps ns in
      let far : j ≤ k = best_overlap-max (reach ps ns) j ps ns p h f in
      (
        k,
        far,
        best_overlap-le (reach ps ns) ps ns,
        best_overlap-Fits (reach ps ns) ps ns (omega (arith, far)),
        rw (merge_words-eq ps ns some_pending, lt→ltb 0 k (omega (arith, far))),
      )

  -- If no text matches within the reach, the new words are split in two: the words in front all lie
  -- in the audio that is held (they start, or where their timing is interpolated end, no later than
  -- the latest end of a pending word), and the first of the rest does not. The merge drops those in
  -- front and appends exactly the rest to the pending words.
  pub merge_words-time_seam :
      ((j : ℕ) → 0 < j → j ≤ reach ps ns → ¬ (Fits j ps ns))
      → (held : ℕ) × (front : List Word) × (rest : List Word) × (All
          (λ (w : Word). w.end_ms ≤ held)
          ps)
        × Ends held ps
        × (ns ≡ front ++ rest)
        × All (IsCovered held) front
        × FirstUncovered held rest
        × (merge_words ps ns ≡ ps ++ rest)
  merge_words-time_seam none_fits =
      let k = best_overlap (reach ps ns) ps ns in
      let held = max_end ps in
      let (front, split, all) = drop_while-front held ns in
      elim (Bool-cases (ltb 0 k)) [
        | inl e ↦ absurd (
            none_fits k (ltb→lt 0 k e) (best_overlap-le (reach ps ns) ps ns)
              (best_overlap-Fits (reach ps ns) ps ns (ltb→lt 0 k e)))
        | inr e ↦ (
          held,
          front,
          drop_while (covered held) ns,
          All-max_end held ps (omega arith),
          pending-Ends ps some_pending,
          split,
          all,
          drop_while-first held ns,
          rw (merge_words-eq ps ns some_pending, e),
        )
      ]

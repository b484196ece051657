-- ===== src/Stt/Finalizer/Append.antt =====
-- The transcript only grows: what is committed or pending is never revised.
use sitewalk.Base.{
  ℕ, zero, suc, ◌≤◌, ◌<◌, min, ◌≡◌, refl, ap, ◌∙◌, inl, inr, Bool, false, List, [], ◌∷◌, ◌++◌,
  arith, ltb, length, take, drop, drop_while, All, take-append-drop, Bool-cases, drop-all,
}
use sitewalk.Base.Words.{u64_max}
use sitewalk.Base.Float.{Floats}
use sitewalk.Stt.Finalizer.{
  Word, RawSegment, Finalizer, words_from_segments, best_overlap, max_end, covered, merge_words,
  cut_at, merge, finalize_before, ingest, flush,
}

drop_while-drop :
    (p : Word → Bool) (ws : List Word) → (n : ℕ) × (n ≤ length ws) × (drop_while p ws ≡ drop n ws)
drop_while-drop p [] = (0, omega arith, refl)
drop_while-drop p (w ∷ ws) =
    let (n, fits, e) = drop_while-drop p ws in
    elim (Bool-cases (p w)) [
      | inl h ↦ (suc n, omega arith, rw h e)
      | inr h ↦ (0, omega arith, rw h)
    ]

best_overlap-le : (k : ℕ) (ps ns : List Word) → best_overlap k ps ns ≤ k
unfolding best_overlap
best_overlap-le zero ps ns = omega arith
best_overlap-le (suc k) ps ns = ground (arith, best_overlap-le k ps ns)

pub merge_words-drop :
    (ps ns : List Word) → (n : ℕ) × (n ≤ length ns) × (merge_words ps ns ≡ ps ++ drop n ns)
unfolding merge_words
merge_words-drop [] ns = (0, omega arith, refl)
merge_words-drop (p ∷ ps) ns =
    let pending = p ∷ ps in
    let maxk = min (min (length pending) (length ns)) 40 in
    let (n, fits, e) = drop_while-drop (covered (max_end pending)) ns in
    elim (Bool-cases (ltb 0 (best_overlap maxk pending ns))) [
      | inl h ↦ (best_overlap maxk pending ns, omega (arith, best_overlap-le maxk pending ns), rw h)
      | inr h ↦ (n, fits, rw h (ap (λ r. pending ++ r) e))
    ]

-- The words before the cut end by the horizon, and the first one after it does not.
abbrev pub StartsAfter : ℕ → List Word → Type 0
StartsAfter horizon [] = Unit
StartsAfter horizon (w ∷ ws) = horizon < w.end_ms

cut_at-bounds :
    (horizon : ℕ) (ws : List Word)
    → All (λ (w : Word). w.end_ms ≤ horizon) (take (cut_at horizon ws) ws)
      × StartsAfter horizon (drop (cut_at horizon ws) ws)
unfolding cut_at
cut_at-bounds horizon [] = (tt, tt)
cut_at-bounds horizon (w ∷ ws) =
    let (before, after) = cut_at-bounds horizon ws in
    elim (Bool-cases (ltb horizon w.end_ms)) [
      | inl h ↦ rw h (tt, ground arith)
      | inr h ↦ rw h ((ground arith, before), after)
    ]

pub cut_at-All :
    (horizon : ℕ) (ws : List Word)
    → All (λ (w : Word). w.end_ms ≤ horizon) ws
    → cut_at horizon ws ≡ length ws
unfolding cut_at
cut_at-All horizon [] h = refl
cut_at-All horizon (w ∷ ws) h = ground (arith, h.0, cut_at-All horizon ws h.1)

take-length : (ws : List Word) → take (length ws) ws ≡ ws
take-length [] = refl
take-length (w ∷ ws) = ap (λ r. w ∷ r) (take-length ws)

module _ (fl : Floats) (f : Finalizer fl) where
  -- `finalize_before` splits the pending words at the horizon: what it returns, followed by what
  -- stays pending, is what was pending; every returned word ends by the horizon, and the first
  -- word that stays ends after it.
  pub finalize_before-splits :
      (horizon : ℕ)
      → ((finalize_before fl f horizon).0 ++ (finalize_before fl f horizon).1.pending ≡ f.pending)
        × All (λ (w : Word). w.end_ms ≤ horizon) (finalize_before fl f horizon).0
        × StartsAfter horizon (finalize_before fl f horizon).1.pending
  unfolding finalize_before
  finalize_before-splits horizon =
      let (before, after) = cut_at-bounds horizon f.pending in
      (take-append-drop (cut_at horizon f.pending) f.pending, before, after)

  -- Ingesting a window commits and keeps exactly the words that were pending followed by a suffix
  -- of the window's own words: no pending word is lost, changed or moved, and what is dropped is a
  -- prefix of the new words.
  pub ingest-append_only :
      (window_start : ℕ) (segs : List (RawSegment fl)) (horizon : ℕ)
      → let new = words_from_segments fl window_start segs f.no_speech_threshold in
        let (out, f') = ingest fl f window_start segs horizon in
        (n : ℕ) × (n ≤ length new) × (out ++ f'.pending ≡ f.pending ++ drop n new)
  unfolding ingest merge
  ingest-append_only window_start segs horizon =
      let new = words_from_segments fl window_start segs f.no_speech_threshold in
      let (n, fits, e) = merge_words-drop f.pending new in
      (
        n,
        fits,
        take-append-drop (cut_at horizon (merge_words f.pending new)) (merge_words f.pending new)
            ∙ e,
      )

  -- The first flush commits every pending word and leaves none, if the words end in 64 bits.
  pub flush_commits-All :
      f.flushed ≡ false
      → All (λ (w : Word). w.end_ms ≤ u64_max) f.pending
      → ((flush fl f).0 ≡ f.pending) × ((flush fl f).1.pending ≡ [])
  unfolding flush finalize_before
  flush_commits-All h small =
      rw (h, cut_at-All u64_max f.pending small)
        (take-length f.pending, drop-all (length f.pending) f.pending (omega arith))

  -- A second flush returns nothing and changes nothing.
  pub flush-flush : flush fl (flush fl f).1 ≡ ([], (flush fl f).1)
  unfolding flush finalize_before
  flush-flush = ground arith

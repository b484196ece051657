-- ===== src/Stt/Finalizer/Range.antt =====
-- Word times fit in 64 bits, so that the last flush, whose horizon is the greatest such number,
-- leaves nothing behind.
use sitewalk.Base.{
  ℕ, zero, suc, ◌≤◌, max, ◌≡◌, refl, inl, inr, List, [], ◌∷◌, arith, length, drop, All, All-append,
  drop-all, Bool-cases, is_empty, not, ◌&&◌, ◌==◌,
}
use sitewalk.Base.Text.{Text}
use sitewalk.Base.Text.Split.{split_whitespace}
use sitewalk.Base.Words.{u64_max}
use sitewalk.Base.Int.{ℤ}
use sitewalk.Base.Float.{Floats}
use sitewalk.Stt.Finalizer.{
  Word, WordTiming, RawSegment, Finalizer, to_ms, precise_words, coarse_words, segment_words,
  words_from_segments, merge_words, cut_at, ingest,
}
use sitewalk.Stt.Finalizer.Append.{merge_words-drop, cut_at-All}

abbrev pub InRange : List Word → Type 0
InRange ws = All (λ (w : Word). w.end_ms ≤ u64_max) ws

to_ms-le : (w : ℕ) (cs : ℤ) → to_ms w cs ≤ u64_max
unfolding to_ms
to_ms-le w cs = omega arith

precise_words-InRange :
    (w last : ℕ) (toks : List Text) (ws : List WordTiming)
    → last ≤ u64_max
    → InRange (precise_words w last toks ws)
unfolding precise_words
precise_words-InRange w last [] ws h = tt
precise_words-InRange w last (tok ∷ toks) [] h = tt
precise_words-InRange w last (tok ∷ toks) (t ∷ ws) h =
    let fits : max (to_ms w t.end_cs) (max (to_ms w t.start_cs) last) ≤ u64_max =
      omega (arith, to_ms-le w t.start_cs, to_ms-le w t.end_cs) in
    (
      fits,
      precise_words-InRange w (max (to_ms w t.end_cs) (max (to_ms w t.start_cs) last)) toks ws fits,
    )

coarse_words-InRange : (a b : ℕ) (toks : List Text) → b ≤ u64_max → InRange (coarse_words a b toks)
unfolding coarse_words
coarse_words-InRange a b [] h = tt
coarse_words-InRange a b (tok ∷ toks) h = (h, coarse_words-InRange a b toks h)

All-drop : (P : Word → Type 0) (n : ℕ) (ws : List Word) → All P ws → All P (drop n ws)
All-drop P zero ws h = h
All-drop P (suc n) [] h = tt
All-drop P (suc n) (w ∷ ws) h = All-drop P n ws h.1

module _ (fl : Floats) where
  segment_words-InRange : (w : ℕ) (s : RawSegment fl) → InRange (segment_words fl w s)
  unfolding segment_words
  segment_words-InRange w s =
      elim (Bool-cases
        (not (is_empty s.words) && length s.words == length (split_whitespace s.text))) [
          | inl e ↦ rw e (
              precise_words-InRange w (to_ms w s.start_cs) (split_whitespace s.text) s.words
                (to_ms-le w s.start_cs))
          | inr e ↦ rw e (
              coarse_words-InRange (to_ms w s.start_cs) (to_ms w s.end_cs) (split_whitespace s.text)
                (to_ms-le w s.end_cs))
        ]

  words_from_segments-InRange :
      (w : ℕ) (segs : List (RawSegment fl)) (thr : fl.F32)
      → InRange (words_from_segments fl w segs thr)
  unfolding words_from_segments
  words_from_segments-InRange w [] thr = tt
  words_from_segments-InRange w (s ∷ segs) thr =
      elim (Bool-cases (fl.lt_f32 thr s.no_speech_prob)) [
        | inl e ↦ rw e (words_from_segments-InRange w segs thr)
        | inr e ↦ rw e (
            All-append _ (segment_words fl w s) _ (segment_words-InRange w s)
              (words_from_segments-InRange w segs thr))
      ]

  merge_words-InRange : (ps ns : List Word) → InRange ps → InRange ns → InRange (merge_words ps ns)
  merge_words-InRange ps ns h k =
      let (n, fits, e) = merge_words-drop ps ns in rw e (All-append _ ps _ h (All-drop _ n ns k))

  pub ingest-InRange :
      (f : Finalizer fl) (w : ℕ) (segs : List (RawSegment fl)) (horizon : ℕ)
      → InRange f.pending
      → InRange (ingest fl f w segs horizon).1.pending
  unfolding ingest
  ingest-InRange f w segs horizon h =
      let new = words_from_segments fl w segs f.no_speech_threshold in
      All-drop _ (cut_at horizon (merge_words f.pending new)) (merge_words f.pending new) (
        merge_words-InRange f.pending new h
          (words_from_segments-InRange w segs f.no_speech_threshold))

  pub flushed-ingest :
      (f : Finalizer fl) (w : ℕ) (segs : List (RawSegment fl)) (horizon : ℕ)
      → (ingest fl f w segs horizon).1.flushed ≡ f.flushed
  unfolding ingest
  flushed-ingest f w segs horizon = refl

  -- A window ingested with the greatest horizon leaves no word waiting, if the words that waited
  -- end in 64 bits.
  pub ingest-u64_max_empties :
      (f : Finalizer fl) (w : ℕ) (segs : List (RawSegment fl))
      → InRange f.pending
      → (ingest fl f w segs u64_max).1.pending ≡ []
  unfolding ingest
  ingest-u64_max_empties f w segs h =
      let new = words_from_segments fl w segs f.no_speech_threshold in
      let all =
        merge_words-InRange f.pending new h
          (words_from_segments-InRange w segs f.no_speech_threshold) in
      rw (cut_at-All u64_max (merge_words f.pending new) all)
        (drop-all (length (merge_words f.pending new)) (merge_words f.pending new) (omega arith))

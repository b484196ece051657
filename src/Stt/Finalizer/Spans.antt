-- ===== src/Stt/Finalizer/Spans.antt =====
-- What a decoded window contributes: whole words of the segments that are speech, in order, with
-- time spans that never run backwards inside a segment.
use sitewalk.Base.{
  ℕ, ◌≤◌, max, ◌≡◌, refl, ap, inl, inr, List, [], ◌∷◌, ◌++◌, arith, ◌==◌, if◌then◌else◌, length,
  Bool-cases, is_empty, not, ◌&&◌,
}
use mathlib.Core.List.{map-append}
use sitewalk.Base.Text.{Text}
use sitewalk.Base.Text.Split.{split_whitespace}
use sitewalk.Base.Float.{Floats}
use sitewalk.Stt.Finalizer.{
  Word, WordTiming, RawSegment, to_ms, precise_words, coarse_words, segment_words,
  words_from_segments,
}
use sitewalk.Stt.Finalizer.Seam.{texts}

texts-precise :
    (w last : ℕ) (toks : List Text) (ws : List WordTiming)
    → length ws ≡ length toks
    → texts (precise_words w last toks ws) ≡ toks
unfolding precise_words
texts-precise w last [] ws h = refl
texts-precise w last (tok ∷ toks) [] h = absurd (omega arith)
texts-precise w last (tok ∷ toks) (t ∷ ws) h =
    ap (λ r. tok ∷ r)
      (texts-precise w (max (to_ms w t.end_cs) (max (to_ms w t.start_cs) last)) toks ws
        (omega arith))

texts-coarse : (a b : ℕ) (toks : List Text) → texts (coarse_words a b toks) ≡ toks
unfolding coarse_words
texts-coarse a b [] = refl
texts-coarse a b (tok ∷ toks) = ap (λ r. tok ∷ r) (texts-coarse a b toks)

-- Each word starts no earlier than the one before it ends, and ends no earlier than it starts.
abbrev pub Ordered : ℕ → List Word → Type 0
Ordered last [] = Unit
Ordered last (w ∷ ws) = (last ≤ w.start_ms) × (w.start_ms ≤ w.end_ms) × Ordered w.end_ms ws

-- The words of a segment with word timings follow one another in time from the segment's start:
-- no word starts before the one in front of it has ended.
pub precise_words-Ordered :
    (w last : ℕ) (toks : List Text) (ws : List WordTiming)
    → Ordered last (precise_words w last toks ws)
unfolding precise_words
precise_words-Ordered w last [] ws = tt
precise_words-Ordered w last (tok ∷ toks) [] = tt
precise_words-Ordered w last (tok ∷ toks) (t ∷ ws) = (
  omega arith,
  omega arith,
  precise_words-Ordered w (max (to_ms w t.end_cs) (max (to_ms w t.start_cs) last)) toks ws,
)

module _ (fl : Floats) where
  open fl use {F32, lt_f32}

  texts-segment :
      (w : ℕ) (s : RawSegment fl) → texts (segment_words fl w s) ≡ split_whitespace s.text
  unfolding segment_words
  texts-segment w s =
      elim (Bool-cases
        (not (is_empty s.words) && length s.words == length (split_whitespace s.text))) [
          | inl e ↦ rw e (
              texts-precise w (to_ms w s.start_cs) (split_whitespace s.text) s.words (ground arith))
          | inr e ↦
              rw e (texts-coarse (to_ms w s.start_cs) (to_ms w s.end_cs) (split_whitespace s.text))
        ]

  -- The words of the segments that are not flagged as silence.
  abbrev pub spoken : List (RawSegment fl) → F32 → List Text
  spoken [] thr = []
  spoken (s ∷ segs) thr =
      let rest = spoken segs thr in
      if lt_f32 thr s.no_speech_prob then rest else split_whitespace s.text ++ rest

  -- The texts of a window's words are the white-space split of the texts of its segments whose
  -- no-speech probability is not above the threshold, in order. Word timings, present, absent or
  -- of the wrong number, never change, drop or repeat a text.
  pub words_from_segments-spoken :
      (w : ℕ) (segs : List (RawSegment fl)) (thr : F32)
      → texts (words_from_segments fl w segs thr) ≡ spoken segs thr
  unfolding words_from_segments
  words_from_segments-spoken w [] thr = refl
  words_from_segments-spoken w (s ∷ segs) thr = elim (Bool-cases (lt_f32 thr s.no_speech_prob)) [
    | inl e ↦ rw e (words_from_segments-spoken w segs thr)
    | inr e ↦ rw (e, map-append) (rw (texts-segment w s, words_from_segments-spoken w segs thr))
  ]

-- ===== src/Stt/Finalizer.antt =====
-- crates/stt/src/finalize.rs, with the segment types of crates/stt/src/decoder.rs: merging decoded
-- windows into an append-only transcript.
pub mod Append
pub mod Seam
pub mod Spans
pub mod Range
use sitewalk.Base.{
  ℕ, zero, suc, ◌-◌, min, max, Bool, true, false, ◌&&◌, Option, none, some, List, [], ◌∷◌, ◌++◌,
  map, ltb, leb, ◌==◌, if◌then◌else◌, length, take, drop, drop_while, is_empty, not,
}
use sitewalk.Base.Text.{Text, text_eq}
use sitewalk.Base.Text.Split.{split_whitespace, join}
use sitewalk.Base.Words.{add_u64, mul_u64, u64_max}
use sitewalk.Base.Float.{Floats}
use sitewalk.Base.Int.{ℤ, pos_part}

pub record WordTiming : Type 0 where
  pub text : Text
  pub start_cs : ℤ
  pub end_cs : ℤ

pub record Word : Type 0 where
  pub text : Text
  pub start_ms : ℕ
  pub end_ms : ℕ
  pub time_precise : Bool

module _ (fl : Floats) where
  open fl use {F32, decimal_f32, lt_f32}

  pub record RawSegment : Type 0 where
    pub start_cs : ℤ
    pub end_cs : ℤ
    pub text : Text
    pub no_speech_prob : F32
    pub words : List WordTiming

  pub record Finalizer : Type 0 where
    pub pending : List Word
    pub flushed : Bool
    pub no_speech_threshold : F32

unfoldable pub to_ms : ℕ → ℤ → ℕ
unfolding add_u64 mul_u64
to_ms window_start_ms cs = add_u64 window_start_ms (mul_u64 (pos_part cs) 10)

-- The words of a segment with a timing for each word; the loop carries `last_end`.
unfoldable pub precise_words : ℕ → ℕ → List Text → List WordTiming → List Word
unfolding to_ms
precise_words window_start_ms last_end [] ws = []
precise_words window_start_ms last_end (tok ∷ toks) [] = []
precise_words window_start_ms last_end (tok ∷ toks) (w ∷ ws) =
    let start = max (to_ms window_start_ms w.start_cs) last_end in
    let end = max (to_ms window_start_ms w.end_cs) start in
    record { text = tok; start_ms = start; end_ms = end; time_precise = true }
    ∷ precise_words window_start_ms end toks ws

unfoldable pub coarse_words : ℕ → ℕ → List Text → List Word
coarse_words seg_start seg_end =
    map (λ tok. record { text = tok; start_ms = seg_start; end_ms = seg_end; time_precise = false })

module _ (fl : Floats) where
  open fl use {F32, decimal_f32, lt_f32}

  unfoldable pub segment_words : ℕ → RawSegment fl → List Word
  unfolding precise_words coarse_words
  segment_words window_start_ms s =
      let seg_start = to_ms window_start_ms s.start_cs in
      let seg_end = to_ms window_start_ms s.end_cs in
      let split = split_whitespace s.text in
      if not (is_empty s.words) && length s.words == length split
      then precise_words window_start_ms seg_start split s.words
      else coarse_words seg_start seg_end split

  unfoldable pub words_from_segments : ℕ → List (RawSegment fl) → F32 → List Word
  unfolding segment_words
  words_from_segments window_start_ms [] thr = []
  words_from_segments window_start_ms (s ∷ segs) thr =
      let rest = words_from_segments window_start_ms segs thr in
      if lt_f32 thr s.no_speech_prob then rest else segment_words window_start_ms s ++ rest

unfoldable pub same_texts : List Word → List Word → Bool
same_texts [] [] = true
same_texts [] (w ∷ ws) = false
same_texts (v ∷ vs) [] = false
same_texts (v ∷ vs) (w ∷ ws) =
    let rest = same_texts vs ws in if text_eq v.text w.text then rest else false

-- The last `k` of the first list.
abbrev pub suffix : ℕ → List Word → List Word
suffix k ws = drop (length ws - k) ws

-- `for k in (1..=maxk).rev()`: the largest `k` at which the seam fits, or 0.
unfoldable pub best_overlap : ℕ → List Word → List Word → ℕ
unfolding same_texts
best_overlap zero pending new = 0
best_overlap (suc k) pending new =
    let rest = best_overlap k pending new in
    if same_texts (suffix (suc k) pending) (take (suc k) new) then suc k else rest

unfoldable pub max_end : List Word → ℕ
max_end [] = 0
max_end (w ∷ ws) = max w.end_ms (max_end ws)

-- A word that the held audio covers already.
unfoldable pub covered : ℕ → Word → Bool
covered pending_max_end w =
    if w.time_precise then leb w.start_ms pending_max_end else leb w.end_ms pending_max_end

unfoldable pub merge_words : List Word → List Word → List Word
unfolding best_overlap max_end covered
merge_words [] new = new
merge_words (p ∷ ps) new =
    let pending = p ∷ ps in
    let maxk = min (min (length pending) (length new)) 40 in
    let best = best_overlap maxk pending new in
    if ltb 0 best
    then pending ++ drop best new
    else pending ++ drop_while (covered (max_end pending)) new

-- `position(|w| w.end_ms > horizon)`, or the length
unfoldable pub cut_at : ℕ → List Word → ℕ
cut_at horizon_ms [] = 0
cut_at horizon_ms (w ∷ ws) =
    let rest = cut_at horizon_ms ws in if ltb horizon_ms w.end_ms then 0 else suc rest

module _ (fl : Floats) where
  open fl use {F32, decimal_f32, lt_f32}

  unfoldable pub default : Finalizer fl
  default = record { pending = []; flushed = false; no_speech_threshold = decimal_f32 6 1 }

  unfoldable pub with_no_speech_threshold : F32 → Finalizer fl
  unfolding default
  with_no_speech_threshold t = record default { no_speech_threshold = t }

  unfoldable pub merge : Finalizer fl → List Word → Finalizer fl
  unfolding merge_words
  merge f new = record f { pending = merge_words f.pending new }

  unfoldable pub finalize_before : Finalizer fl → ℕ → List Word × Finalizer fl
  unfolding cut_at
  finalize_before f horizon_ms =
      let cut = cut_at horizon_ms f.pending in
      (take cut f.pending, record f { pending = drop cut f.pending })

  unfoldable pub ingest : Finalizer fl → ℕ → List (RawSegment fl) → ℕ → List Word × Finalizer fl
  unfolding merge finalize_before words_from_segments
  ingest f window_start_ms segs horizon_ms =
      let new_words = words_from_segments fl window_start_ms segs f.no_speech_threshold in
      finalize_before (merge f new_words) horizon_ms

  unfoldable pub flush : Finalizer fl → List Word × Finalizer fl
  unfolding finalize_before
  flush f = if f.flushed then ([], f) else finalize_before (record f { flushed = true }) u64_max

  unfoldable pub preview : Finalizer fl → Text
  preview f = join (32 ∷ []) (map (λ (w : Word). w.text) f.pending)

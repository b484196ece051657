-- ===== src/Stt/Chunker.antt =====
-- crates/stt/src/chunk.rs: PCM in, fixed overlapping windows out. A method that mutates the
-- chunker returns its result and the new chunker. The samples are of any type.
pub mod Windows
pub mod Cover
use sitewalk.Base.{
  ℕ, suc, ◌+◌, ◌-◌, min, Bool, true, false, Option, none, some, List, [], ◌++◌, ltb, leb,
  if◌then◌else◌, length, take, drop,
}
use sitewalk.Base.Words.{add_u64}
use sitewalk.Base.Float.{Floats}

pub record Window (A : Type 0) : Type 0 where
  pub start_sample : ℕ
  pub samples : List A
  pub is_final : Bool

pub record Chunker (A : Type 0) : Type 0 where
  pub chunk_len : ℕ
  pub step : ℕ
  pub buf : List A
  pub buf_start : ℕ
  pub next_start : ℕ
  pub done : Bool

module _ (fl : Floats) (A : Type 0) where
  open fl use {F64, decimal, of_int, to_int, mul, sub, max_f64}

  unfoldable pub new : ℕ → F64 → F64 → Chunker A
  new sample_rate chunk_secs overlap_secs =
      let sr = of_int sample_rate in
      record {
        chunk_len = to_int (mul chunk_secs sr);
        step = to_int (mul (max_f64 (sub chunk_secs overlap_secs) (decimal 1 1)) sr);
        buf = [];
        buf_start = 0;
        next_start = 0;
        done = false;
      }

module _ {A : Type 0} where
  unfoldable pub push : List A → Chunker A → Chunker A
  push pcm c = record c { buf = c.buf ++ pcm }

  -- The subtractions are exact where `buf_start ≤ next_start`, which `Represents` keeps.
  unfoldable pub free_consumed : Chunker A → Chunker A
  free_consumed c =
      let keep_from = min c.next_start (c.buf_start + length c.buf) in
      let drop_n = keep_from - c.buf_start in
      if ltb 0 drop_n then record c { buf = drop drop_n c.buf; buf_start = keep_from } else c

  unfoldable pub take_ready_window : Chunker A → Option (Window A) × Chunker A
  unfolding free_consumed add_u64
  take_ready_window c =
      let rel_start = c.next_start - c.buf_start in
      let rel_end = rel_start + c.chunk_len in
      if ltb (length c.buf) rel_end then (none, c) else (
        some (record {
          start_sample = c.next_start;
          samples = take c.chunk_len (drop rel_start c.buf);
          is_final = false;
        }),
        free_consumed (record c { next_start = add_u64 c.next_start c.step }),
      )

  unfoldable pub flush : Chunker A → Option (Window A) × Chunker A
  flush c =
      let rel_start = c.next_start - c.buf_start in
      if c.done
      then (none, c)
      else if leb (length c.buf) rel_start
      then (none, record c { done = true })
      else (
        some (record {
          start_sample = c.next_start;
          samples = drop rel_start c.buf;
          is_final = true;
        }),
        record c { done = true },
      )

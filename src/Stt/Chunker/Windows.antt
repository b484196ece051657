-- ===== src/Stt/Chunker/Windows.antt =====
-- Each window is the stretch of the pushed audio that its start and length name.
use sitewalk.Base.{
  ℕ, ◌+◌, ◌-◌, ◌^◌, ◌≤◌, ◌<◌, min, ◌≡◌, ap, ◌∙◌, inl, inr, true, false, Option, none, some, List,
  ◌++◌, arith, ltb, leb, if◌then◌else◌, length, take, drop, length-append, length-drop, drop-drop,
  drop-append, Bool-cases, ltb→le,
}
use sitewalk.Base.Words.{add_u64}
use sitewalk.Stt.Chunker.{Window, Chunker, push, free_consumed, take_ready_window, flush}

-- The stretch of `pcm` from `start`, `len` samples long.
abbrev pub slice : {A : Type 0} → List A → ℕ → ℕ → List A
slice pcm start len = take len (drop start pcm)

module _ {A : Type 0} where
  -- The chunker holds all of `pcm`, the audio pushed so far, from `buf_start` on.
  pub record Represents (pcm : List A) (c : Chunker A) : Type 0 where
    pub behind : c.buf_start ≤ c.next_start
    pub within : c.buf_start ≤ length pcm
    pub holds : c.buf ≡ drop c.buf_start pcm

module _ {A : Type 0} (pcm : List A) where
  pub Represents-push :
      (more : List A) (c : Chunker A) → Represents pcm c → Represents (pcm ++ more) (push more c)
  unfolding push
  Represents-push more c r = record {
    behind = r.behind;
    within = omega (arith, length-append pcm more, r.within);
    holds = rw (drop-append c.buf_start pcm more r.within) (ap (λ b. b ++ more) r.holds);
  }

  pub buf-length : (c : Chunker A) → Represents pcm c → c.buf_start + length c.buf ≡ length pcm
  buf-length c r = omega (arith, ap length r.holds, length-drop c.buf_start pcm, r.within)

  drop-buf : (c : Chunker A) (n : ℕ) → Represents pcm c → drop n c.buf ≡ drop (c.buf_start + n) pcm
  drop-buf c n r = ap (drop n) r.holds ∙ drop-drop n c.buf_start pcm

  drop-buf_to :
      (c : Chunker A) (n m : ℕ) → Represents pcm c → c.buf_start + n ≡ m → drop n c.buf ≡ drop m pcm
  drop-buf_to c n m r e = drop-buf c n r ∙ ap (λ k. drop k pcm) e

  Represents-free : (c : Chunker A) → Represents pcm c → Represents pcm (free_consumed c)
  unfolding free_consumed
  Represents-free c r =
      elim (Bool-cases (ltb 0 (min c.next_start (c.buf_start + length c.buf) - c.buf_start))) [
        | inl e ↦ rw e (record {
          behind = omega (arith, r.behind);
          within = omega (arith, buf-length c r);
          holds =
              drop-buf_to c (min c.next_start (c.buf_start + length c.buf) - c.buf_start)
                (min c.next_start (c.buf_start + length c.buf)) r (omega (arith, r.behind));
        })
        | inr e ↦ rw e r
      ]

  -- What `take_ready_window` returns, by the audio pushed and the cursor alone.
  abbrev pub ready_window : ℕ → ℕ → Option (Window A)
  ready_window start len =
      if ltb (length pcm) (start + len)
      then none
      else some (record { start_sample = start; samples = slice pcm start len; is_final = false })

  module _ (c : Chunker A) (r : Represents pcm c) where
    ready_test :
        ltb (length c.buf) (c.next_start - c.buf_start + c.chunk_len)
        ≡ ltb (length pcm) (c.next_start + c.chunk_len)
    ready_test = ground (arith, buf-length c r, r.behind)

    flush_test : leb (length c.buf) (c.next_start - c.buf_start) ≡ leb (length pcm) c.next_start
    flush_test = ground (arith, buf-length c r, r.behind, r.within)

    pub take_ready-slice : (take_ready_window c).0 ≡ ready_window c.next_start c.chunk_len
    unfolding take_ready_window
    take_ready-slice = elim (Bool-cases (ltb (length pcm) (c.next_start + c.chunk_len))) [
      | inl e ↦ rw (ready_test, e)
      | inr e ↦ rw (
        ready_test,
        e,
        drop-buf_to c (c.next_start - c.buf_start) c.next_start r (omega (arith, r.behind)),
      )
    ]

    pub Represents-take_ready :
        length pcm + c.step < 2 ^ 64 → Represents pcm (take_ready_window c).1
    unfolding take_ready_window
    Represents-take_ready h = elim (Bool-cases (ltb (length pcm) (c.next_start + c.chunk_len))) [
      | inl e ↦ rw (ready_test, e) r
      | inr e ↦
          rw (ready_test, e)
            (Represents-free (record c { next_start = add_u64 c.next_start c.step })
              (record {
                behind = omega (arith, r.behind, ltb→le _ _ e);
                within = r.within;
                holds = r.holds;
              }))
    ]

    pub next_start-take_ready :
        length pcm + c.step < 2 ^ 64
        → (take_ready_window c).1.next_start ≡ (
            if ltb (length pcm) (c.next_start + c.chunk_len)
            then c.next_start
            else c.next_start + c.step)
    unfolding take_ready_window
    next_start-take_ready h = ground (arith, ready_test)

    -- A window is given only where the audio holds it, and moves the cursor by one step.
    pub take_ready_some :
        (w : Window A)
        → length pcm + c.step < 2 ^ 64
        → (take_ready_window c).0 ≡ some w
        → (c.next_start + c.chunk_len ≤ length pcm)
          × ((take_ready_window c).1.next_start ≡ c.next_start + c.step)
    take_ready_some w h got = ground (arith, take_ready-slice, next_start-take_ready h)

    pub flush-slice :
        c.done ≡ false
        → (flush c).0 ≡ (
            if leb (length pcm) c.next_start
            then none
            else some (record {
              start_sample = c.next_start;
              samples = drop c.next_start pcm;
              is_final = true;
            }))
    unfolding flush
    flush-slice h = elim (Bool-cases (leb (length pcm) c.next_start)) [
      | inl e ↦ rw (h, flush_test, e)
      | inr e ↦ rw (
        h,
        flush_test,
        e,
        drop-buf_to c (c.next_start - c.buf_start) c.next_start r (omega (arith, r.behind)),
      )
    ]

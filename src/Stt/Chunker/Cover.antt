-- ===== src/Stt/Chunker/Cover.antt =====
-- The windows of one stream, put side by side, are the audio: no sample is lost or repeated.
use sitewalk.Base.{
  ℕ, zero, suc, ◌+◌, ◌^◌, ◌≤◌, ◌<◌, ◌≡◌, refl, sym, ap, ◌∙◌, inl, inr, false, Option, none, some,
  List, [], ◌∷◌, ◌++◌, arith, ltb, leb, length, take, drop, drop-drop, drop-all, Bool-cases, ltb→lt,
  ltb→le, leb→le, take-append-drop, append_assoc,
}
use sitewalk.Stt.Chunker.{Window, Chunker, take_ready_window, flush}
use sitewalk.Stt.Chunker.Windows.{
  Represents, slice, take_ready-slice, Represents-take_ready, next_start-take_ready, flush-slice,
}

module _ {A : Type 0} where
  -- The loop `while let Some(w) = take_ready_window()` with its windows kept. The second part is
  -- none when the fuel runs out.
  unfoldable pub ready_windows : ℕ → Chunker A → List (Window A) × Option (Chunker A)
  ready_windows zero c = ([], none)
  ready_windows (suc fuel) c =
      let rest = ready_windows fuel (take_ready_window c).1 in
      elim (take_ready_window c).0 [ none ↦ ([], some c) | some w ↦ (w ∷ rest.0, rest.1) ]

  -- The part of each window that no later window repeats.
  abbrev pub stitch : ℕ → List (Window A) → List A
  stitch step [] = []
  stitch step (w ∷ ws) = take step w.samples ++ stitch step ws

  abbrev pub tail : Option (Window A) → List A
  tail none = []
  tail (some w) = w.samples

  take-take : (m n : ℕ) (xs : List A) → m ≤ n → take m (take n xs) ≡ take m xs
  take-take zero n xs h = refl
  take-take (suc m) zero xs h = absurd (omega arith)
  take-take (suc m) (suc n) [] h = refl
  take-take (suc m) (suc n) (x ∷ xs) h = ap (λ r. x ∷ r) (take-take m n xs (omega arith))

  slice-step :
      (pcm : List A) (start len step : ℕ)
      → step ≤ len
      → take step (slice pcm start len) ++ drop (start + step) pcm ≡ drop start pcm
  slice-step pcm start len step h =
      rw (take-take step len (drop start pcm) h, ← drop-drop step start pcm)
        (take-append-drop step (drop start pcm))

  -- What every reachable chunker of the stream satisfies, besides `Represents`.
  pub record Sized (step chunk_len : ℕ) (c : Chunker A) : Type 0 where
    pub step_is : c.step ≡ step
    pub len_is : c.chunk_len ≡ chunk_len

  pub Sized-take_ready :
      {step chunk_len : ℕ} (c : Chunker A)
      → Sized step chunk_len c
      → Sized step chunk_len (take_ready_window c).1
  unfolding take_ready_window
  Sized-take_ready c z = ground (arith, z.step_is, z.len_is)

  pub done-take_ready : (c : Chunker A) → (take_ready_window c).1.done ≡ c.done
  unfolding take_ready_window
  done-take_ready c = ground arith

module _ {A : Type 0} (fuel : ℕ) (c : Chunker A) where
  pub ready_windows-none :
      (take_ready_window c).0 ≡ none → ready_windows (suc fuel) c ≡ ([], some c)
  unfolding ready_windows
  ready_windows-none e = rw (e, ready_windows)

  pub ready_windows-some :
      (w : Window A)
      → (take_ready_window c).0 ≡ some w
      → ready_windows (suc fuel) c ≡ (
        w ∷ (ready_windows fuel (take_ready_window c).1).0,
        (ready_windows fuel (take_ready_window c).1).1,
      )
  unfolding ready_windows
  ready_windows-some w e = rw (e, ready_windows)

module _ {A : Type 0} (pcm : List A) where
  -- What a drain from the cursor `start` leaves: the rest of the audio, and no full window.
  pub record Drained (start step chunk_len : ℕ) (ws : List (Window A)) (c : Chunker A)
      : Type 0 where
    pub represents : Represents pcm c
    pub stitched : stitch step ws ++ drop c.next_start pcm ≡ drop start pcm
    pub exhausted : length pcm < c.next_start + chunk_len
    pub sized : Sized step chunk_len c

  module _ (step chunk_len : ℕ) (pos : 0 < step) (fits : step ≤ chunk_len)
      (small : length pcm + step < 2 ^ 64) where
    drain_ready :
        (start next : ℕ) (w : Window A) (ws : List (Window A)) (c : Chunker A)
        → w.samples ≡ slice pcm start chunk_len
        → next ≡ start + step
        → Drained next step chunk_len ws c
        → Drained start step chunk_len (w ∷ ws) c
    drain_ready start next w ws c e n d = record {
      represents = d.represents;
      stitched = rw e (
          append_assoc (take step (slice pcm start chunk_len)) (stitch step ws)
            (drop c.next_start pcm)
          ∙ ap (λ r. take step (slice pcm start chunk_len) ++ r)
              (d.stitched ∙ ap (λ k. drop k pcm) n)
          ∙ slice-step pcm start chunk_len step fits);
      exhausted = d.exhausted;
      sized = d.sized;
    }

    -- The loop ends, and what it leaves is as above.
    pub ready_windows-Drained :
        (fuel : ℕ) (c : Chunker A)
        → Represents pcm c
        → Sized step chunk_len c
        → 0 < fuel
        → length pcm < c.next_start + fuel
        → (c' : Chunker A) × ((ready_windows fuel c).1 ≡ some c')
          × Drained c.next_start step chunk_len (ready_windows fuel c).0 c'
          × (c'.done ≡ c.done)
    ready_windows-Drained zero c r z f h = absurd (omega arith)
    ready_windows-Drained (suc fuel) c r z f h =
        elim (Bool-cases (ltb (length pcm) (c.next_start + c.chunk_len))) [
          | inl e ↦ rw (ready_windows-none fuel c (take_ready-slice pcm c r ∙ rw e)) (
            c,
            refl,
            record {
              represents = r;
              stitched = refl;
              exhausted = omega (arith, ltb→lt _ _ e, z.len_is);
              sized = z;
            },
            refl,
          )
          | inr e ↦
              let w : Window A = record {
                start_sample = c.next_start;
                samples = slice pcm c.next_start c.chunk_len;
                is_final = false;
              } in
              let next = (take_ready_window c).1 in
              let wraps : length pcm + c.step < 2 ^ 64 = omega (arith, z.step_is) in
              let moved : next.next_start ≡ c.next_start + step =
                next_start-take_ready pcm c r wraps ∙ rw e (ap (λ k. c.next_start + k) z.step_is) in
              let (c', ran, d, same) =
                ready_windows-Drained fuel next (Represents-take_ready pcm c r wraps)
                  (Sized-take_ready c z) (omega (arith, z.len_is, ltb→le _ _ e))
                  (omega (arith, moved)) in
              rw (ready_windows-some fuel c w (take_ready-slice pcm c r ∙ rw e)) (
                c',
                ran,
                drain_ready c.next_start next.next_start w (ready_windows fuel next).0 c'
                    (ap (slice pcm c.next_start) z.len_is) moved d,
                same ∙ done-take_ready c,
              )
        ]

    pub tail-flush :
        (c : Chunker A)
        → Represents pcm c
        → c.done ≡ false
        → tail (flush c).0 ≡ drop c.next_start pcm
    tail-flush c r d = elim (Bool-cases (leb (length pcm) c.next_start)) [
      | inl e ↦
          rw (flush-slice pcm c r d, e)
            (sym (drop-all c.next_start pcm (omega (arith, leb→le _ _ e))))
      | inr e ↦ rw (flush-slice pcm c r d, e)
    ]

    -- Draining a chunker that holds the audio `pcm` and flushing it yields windows whose first
    -- `step` samples, in order and followed by the final window, are exactly the audio from the
    -- cursor on: nothing is lost and nothing comes twice. One more round than the audio has
    -- samples is fuel enough. The step is positive and at most the window length, and the sample
    -- count fits in 64 bits.
    pub drain-flush_covers :
        (c : Chunker A)
        → Represents pcm c
        → Sized step chunk_len c
        → c.done ≡ false
        → (c' : Chunker A) × ((ready_windows (suc (length pcm)) c).1 ≡ some c')
          × (stitch step (ready_windows (suc (length pcm)) c).0 ++ tail (flush c').0
              ≡ drop c.next_start pcm)
          × (length pcm < c'.next_start + chunk_len)
    drain-flush_covers c r z d =
        let (c', ran, drained, same) =
          ready_windows-Drained (suc (length pcm)) c r z (omega arith) (omega arith) in
        (
          c',
          ran,
          rw (tail-flush c' drained.represents (same ∙ d)) drained.stitched,
          drained.exhausted,
        )

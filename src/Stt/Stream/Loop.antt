-- ===== src/Stt/Stream/Loop.antt =====
-- The decode loop ends, and what the stream commits is append-only.
use mathlib.Core.Path.{subst}
use sitewalk.Base.{
  ℕ, zero, suc, ◌+◌, ◌^◌, ◌≤◌, ◌<◌, ◌≡◌, refl, sym, ap, ◌∙◌, inl, inr, not, ◌&&◌, Option, none,
  some, List, [], ◌++◌, arith, length, drop, append_assoc, append-nil, Bool-cases, Prefix,
}
use mathlib.Core.List.{map-append}
use sitewalk.Base.Text.{Text}
use sitewalk.Base.Result.{Result, ok, err, ok-injective}
use sitewalk.Base.Float.{Floats}
use sitewalk.Stt.Chunker.{Chunker, Window, take_ready_window}
use sitewalk.Stt.Chunker.Windows.{Represents, Represents-take_ready, take_ready_some}
use sitewalk.Stt.Chunker.Cover.{Sized, Sized-take_ready, done-take_ready}
use sitewalk.Stt.Finalizer
use sitewalk.Stt.Finalizer.{Word, RawSegment, Finalizer, words_from_segments}
use sitewalk.Stt.Finalizer.Append.{ingest-append_only}
use sitewalk.Stt.Finalizer.Range.{InRange, ingest-InRange, flushed-ingest}
use sitewalk.Stt.Stream.{
  FinalizedSegment, SttError, SttConfig, Decoder, Engine, emit, horizon, sample_to_ms, is_speech,
  ingested, decode_window, decode_ready,
}

pub emit-append :
    (out : List FinalizedSegment) (vs ws : List Word) → emit out (vs ++ ws) ≡ emit (emit out vs) ws
unfolding emit
emit-append out vs ws = rw map-append (sym (append_assoc out _ _))

pub Prefix-refl : {A : Type 0} (xs : List A) → Prefix xs xs
Prefix-refl xs = ([], sym (append-nil xs))

pub Prefix-trans : {A : Type 0} (xs ys zs : List A) → Prefix xs ys → Prefix ys zs → Prefix xs zs
Prefix-trans xs ys zs p q = (p.0 ++ q.0, rw (q.1, p.1) (append_assoc xs p.0 q.0))

emit-from : (out : List FinalizedSegment) (ws : List Word) → emit out ws ≡ out ++ emit [] ws
unfolding emit
emit-from out ws = refl

module _ (fl : Floats) {D : Type 0} (dec : Decoder fl D) (cfg : SttConfig fl)
    (prompt : Option Text) where
  -- The segments returned so far, and then the words that still wait.
  abbrev pub transcript : List FinalizedSegment → Engine fl D → List FinalizedSegment
  transcript out eng = emit out eng.finalizer.pending

  -- What every step of the stream keeps: the transcript grows at its end, word times stay in 64
  -- bits, and only a flush sets `flushed`.
  pub record Later (out : List FinalizedSegment) (eng : Engine fl D) (out' : List FinalizedSegment)
      (eng' : Engine fl D) : Type 0 where
    pub grown : Prefix (transcript out eng) (transcript out' eng')
    pub in_range : InRange eng.finalizer.pending → InRange eng'.finalizer.pending
    pub flushed : eng'.finalizer.flushed ≡ eng.finalizer.flushed

  Later-refl : (out : List FinalizedSegment) (eng : Engine fl D) → Later out eng out eng
  Later-refl out eng = record { grown = Prefix-refl _; in_range = λ h. h; flushed = refl }

  pub Later-trans :
      (o o' o'' : List FinalizedSegment) (e e' e'' : Engine fl D)
      → Later o e o' e'
      → Later o' e' o'' e''
      → Later o e o'' e''
  Later-trans o o' o'' e e' e'' p q = record {
    grown = Prefix-trans _ _ _ p.grown q.grown;
    in_range = λ h. q.in_range (p.in_range h);
    flushed = q.flushed ∙ p.flushed;
  }

  -- `Later` looks at the finalizers only.
  pub Later-chunker :
      (out out' : List FinalizedSegment) (eng eng' : Engine fl D) (c : Chunker fl.F32)
      → Later out (record eng { chunker = c }) out' eng'
      → Later out eng out' eng'
  Later-chunker out out' eng eng' c p = record {
    grown = p.grown;
    in_range = p.in_range;
    flushed = p.flushed;
  }

  ingested-append_only :
      (eng : Engine fl D) (w : Window fl.F32) (out out' : List FinalizedSegment)
      (o : Result SttError (List (RawSegment fl)) × D)
      → (ingested fl dec cfg prompt w eng out o).0 ≡ ok out'
      → Prefix (transcript out eng) (transcript out' (ingested fl dec cfg prompt w eng out o).1)
  unfolding ingested
  ingested-append_only eng w out out' (err e, d) h = cc
  ingested-append_only eng w out out' (ok raw, d) h =
      let f = eng.finalizer in
      let start = sample_to_ms fl cfg w.start_sample in
      let new = words_from_segments fl start raw f.no_speech_threshold in
      let got = Finalizer.ingest fl f start raw (horizon fl cfg w) in
      let (n, fits, e) = ingest-append_only fl f start raw (horizon fl cfg w) in
      (
        emit [] (drop n new),
        ap (λ o'. emit o' got.1.pending) (sym (ok-injective h))
            ∙ sym (emit-append out got.0 got.1.pending)
            ∙ ap (emit out) e
            ∙ emit-append out f.pending (drop n new)
            ∙ emit-from (emit out f.pending) (drop n new),
      )

  ingested-Later :
      (eng : Engine fl D) (w : Window fl.F32) (out out' : List FinalizedSegment)
      (o : Result SttError (List (RawSegment fl)) × D)
      → (ingested fl dec cfg prompt w eng out o).0 ≡ ok out'
      → Later out eng out' (ingested fl dec cfg prompt w eng out o).1
  unfolding ingested
  ingested-Later eng w out out' (err e, d) h = cc
  ingested-Later eng w out out' (ok raw, d) h = record {
    grown = ingested-append_only eng w out out' (ok raw, d) h;
    in_range =
        ingest-InRange fl eng.finalizer (sample_to_ms fl cfg w.start_sample) raw (horizon fl cfg w);
    flushed =
        flushed-ingest fl eng.finalizer (sample_to_ms fl cfg w.start_sample) raw (horizon fl cfg w);
  }

  pub decode_window-Later :
      (eng : Engine fl D) (w : Window fl.F32) (out out' : List FinalizedSegment)
      → (decode_window fl dec cfg prompt eng w out).0 ≡ ok out'
      → Later out eng out' (decode_window fl dec cfg prompt eng w out).1
  unfolding decode_window
  decode_window-Later eng w out out' =
      elim (Bool-cases (not w.is_final && not (is_speech fl w.samples cfg.vad_rms_threshold))) [
        | inl e ↦ rw e (λ h. subst (λ o. Later out eng o eng) (ok-injective h) (Later-refl out eng))
        | inr e ↦ rw e (ingested-Later eng w out out' (dec.run eng.decoder w.samples prompt))
      ]

  chunker-ingested :
      (eng : Engine fl D) (w : Window fl.F32) (out : List FinalizedSegment)
      (o : Result SttError (List (RawSegment fl)) × D)
      → (ingested fl dec cfg prompt w eng out o).1.chunker ≡ eng.chunker
  unfolding ingested
  chunker-ingested eng w out (err e, d) = refl
  chunker-ingested eng w out (ok raw, d) = refl

  pub chunker-decode_window :
      (eng : Engine fl D) (w : Window fl.F32) (out : List FinalizedSegment)
      → (decode_window fl dec cfg prompt eng w out).1.chunker ≡ eng.chunker
  unfolding decode_window
  chunker-decode_window eng w out =
      elim (Bool-cases (not w.is_final && not (is_speech fl w.samples cfg.vad_rms_threshold))) [
        | inl e ↦ rw e
        | inr e ↦ rw e (chunker-ingested eng w out (dec.run eng.decoder w.samples prompt))
      ]

  -- One round of the loop: no window, a failed decode, or a decode and the rounds after it.
  data Round (fuel : ℕ) (eng : Engine fl D) (out : List FinalizedSegment) : Type 0 where
    idle :
        (take_ready_window eng.chunker).0 ≡ none
        → decode_ready fl dec cfg prompt (suc fuel) eng out ≡ (some (ok out), eng)
        → Round fuel eng out
    failed :
        (e : SttError) (eng' : Engine fl D)
        → decode_ready fl dec cfg prompt (suc fuel) eng out ≡ (some (err e), eng')
        → Round fuel eng out
    decoded :
        (w : Window fl.F32) (out' : List FinalizedSegment) (eng' : Engine fl D)
        → (take_ready_window eng.chunker).0 ≡ some w
        → eng'.chunker ≡ (take_ready_window eng.chunker).1
        → Later out eng out' eng'
        → decode_ready fl dec cfg prompt (suc fuel) eng out
          ≡ decode_ready fl dec cfg prompt fuel eng' out'
        → Round fuel eng out

  round : (fuel : ℕ) (eng : Engine fl D) (out : List FinalizedSegment) → Round fuel eng out
  unfolding decode_ready
  round fuel eng out = on_window (take_ready_window eng.chunker).0 refl
    where
      on_decode :
          (w : Window fl.F32)
          → (take_ready_window eng.chunker).0 ≡ some w
          → (r : Result SttError (List FinalizedSegment))
          → (decode_window fl dec cfg prompt
              (record eng { chunker = (take_ready_window eng.chunker).1 })
              w
              out).0
            ≡ r
          → Round fuel eng out
      on_decode w got (err e) h =
          Round.failed e
            (decode_window fl dec cfg prompt
              (record eng { chunker = (take_ready_window eng.chunker).1 }) w out).1
            (rw (got, decode_ready) (rw (h, decode_ready)))
      on_decode w got (ok out') h =
          let next = record eng { chunker = (take_ready_window eng.chunker).1 } in
          Round.decoded w out' (decode_window fl dec cfg prompt next w out).1 got
            (chunker-decode_window next w out)
            (Later-chunker out out' eng _ _ (decode_window-Later next w out out' h))
            (rw (got, decode_ready) (rw (h, decode_ready)))

      on_window :
          (o : Option (Window fl.F32)) → (take_ready_window eng.chunker).0 ≡ o → Round fuel eng out
      on_window none got = Round.idle got (rw (got, decode_ready))
      on_window (some w) got =
          on_decode w got
            (decode_window fl dec cfg prompt
              (record eng { chunker = (take_ready_window eng.chunker).1 }) w out).0
            refl

  -- How a drain of the ready windows may end: an error of the decoder, or every full window
  -- decoded, with the transcript grown.
  unfoldable pub Settled :
      List fl.F32
      → List FinalizedSegment
      → Engine fl D
      → Result SttError (List FinalizedSegment)
      → Engine fl D
      → Type 0
  Settled pcm out eng (err e) eng' = Unit
  Settled pcm out eng (ok out') eng' =
      Later out eng out' eng'
      × (eng'.chunker.done ≡ eng.chunker.done)
      × ((take_ready_window eng'.chunker).0 ≡ none)
      × Represents pcm eng'.chunker

  module _ (pcm : List fl.F32) (step chunk_len : ℕ) (pos : 0 < step)
      (small : length pcm + step < 2 ^ 64) where
    Settled-Later :
        (out out' : List FinalizedSegment) (eng eng' eng'' : Engine fl D)
        (r : Result SttError (List FinalizedSegment))
        → Later out eng out' eng'
        → eng'.chunker.done ≡ eng.chunker.done
        → Settled pcm out' eng' r eng''
        → Settled pcm out eng r eng''
    unfolding Settled
    Settled-Later out out' eng eng' eng'' (err e) p d s = tt
    Settled-Later out out' eng eng' eng'' (ok o) p d s =
        (Later-trans out out' o eng eng' eng'' p s.0, s.1 ∙ d, s.2, s.3)

    pub decode_ready-Settled :
        (fuel : ℕ) (eng : Engine fl D) (out : List FinalizedSegment)
        → Represents pcm eng.chunker
        → Sized step chunk_len eng.chunker
        → 0 < fuel
        → length pcm + 2 ≤ eng.chunker.next_start + fuel
        → (r : Result SttError (List FinalizedSegment)) × (eng' : Engine fl D) × (decode_ready fl
              dec cfg prompt fuel eng out
            ≡ (some r, eng'))
          × Settled pcm out eng r eng'
    unfolding Settled
    decode_ready-Settled zero eng out rep z f h = absurd (omega arith)
    decode_ready-Settled (suc fuel) eng out rep z f h = elim (round fuel eng out) [
      | Round.idle got e ↦ (ok out, eng, e, (Later-refl out eng, refl, got, rep))
      | Round.failed x eng' e ↦ (err x, eng', e, tt)
      | Round.decoded w out' eng' got same grown e ↦
          let wraps : length pcm + eng.chunker.step < 2 ^ 64 = omega (arith, z.step_is) in
          let (room, moved) = take_ready_some pcm eng.chunker rep w wraps got in
          let (r, eng'', ran, s) =
            decode_ready-Settled fuel eng' out'
              (subst (Represents pcm) (sym same) (Represents-take_ready pcm eng.chunker rep wraps))
              (subst (Sized step chunk_len) (sym same) (Sized-take_ready eng.chunker z))
              (omega (arith, rep.behind))
              (omega (arith, moved, ap (λ (c : Chunker fl.F32). c.next_start) same, z.step_is)) in
          (
            r,
            eng'',
            e ∙ ran,
            Settled-Later out out' eng eng' eng'' r grown
                (ap (λ (c : Chunker fl.F32). c.done) same ∙ done-take_ready eng.chunker) s,
          )
    ]

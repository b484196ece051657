-- ===== src/Stt/Stream/Flush.antt =====
-- crates/stt/src/lib.rs: the last step of a stream and the words that wait for it.
use mathlib.Core.Path.{subst}
use sitewalk.Base.{
  ◌≡◌, refl, ap, ◌∙◌, true, false, not, ◌&&◌, Option, none, some, List, [], arith, append-nil,
  Prefix,
}
use sitewalk.Base.Text.{Text}
use sitewalk.Base.Result.{Result, ok, err}
use sitewalk.Base.Float.{Floats}
use sitewalk.Stt.Chunker
use sitewalk.Stt.Chunker.{Chunker, Window, take_ready_window}
use sitewalk.Stt.Finalizer.{RawSegment}
use sitewalk.Stt.Finalizer.Append.{flush_commits-All}
use sitewalk.Stt.Finalizer.Range.{InRange, ingest-u64_max_empties}
use sitewalk.Stt.Stream.{
  FinalizedSegment, SttError, SttConfig, Decoder, Engine, emit, horizon, sample_to_ms, is_speech,
  ingested, decode_window, finish,
}
use sitewalk.Stt.Stream.Loop.{transcript, decode_window-Later, Prefix-refl, Prefix-trans}

pub emit-nil : (out : List FinalizedSegment) → emit out [] ≡ out
unfolding emit
emit-nil out = append-nil out

pub flush-is_final :
    {A : Type 0} (c : Chunker A) (w : Window A) → (Chunker.flush c).0 ≡ some w → w.is_final ≡ true
unfolding Chunker.flush
flush-is_final c w h = ground arith

module _ (fl : Floats) {D : Type 0} (dec : Decoder fl D) (cfg : SttConfig fl)
    (prompt : Option Text) where
  ingested-empties :
      (eng : Engine fl D) (w : Window fl.F32) (out out' : List FinalizedSegment)
      (o : Result SttError (List (RawSegment fl)) × D)
      → w.is_final ≡ true
      → InRange eng.finalizer.pending
      → (ingested fl dec cfg prompt w eng out o).0 ≡ ok out'
      → (ingested fl dec cfg prompt w eng out o).1.finalizer.pending ≡ []
  unfolding ingested horizon
  ingested-empties eng w out out' (err e, d) final fits h = cc
  ingested-empties eng w out out' (ok raw, d) final fits h =
      rw final
        (ingest-u64_max_empties fl eng.finalizer (sample_to_ms fl cfg w.start_sample) raw fits)

  pub decode_window-empties :
      (eng : Engine fl D) (w : Window fl.F32) (out out' : List FinalizedSegment)
      → w.is_final ≡ true
      → InRange eng.finalizer.pending
      → (decode_window fl dec cfg prompt eng w out).0 ≡ ok out'
      → (decode_window fl dec cfg prompt eng w out).1.finalizer.pending ≡ []
  unfolding decode_window
  decode_window-empties eng w out out' final fits =
      let open_gate : (not w.is_final && not (is_speech fl w.samples cfg.vad_rms_threshold))
          ≡ false =
        ap (λ b. not b && not (is_speech fl w.samples cfg.vad_rms_threshold)) final in
      rw open_gate
        (ingested-empties eng w out out' (dec.run eng.decoder w.samples prompt) final fits)

  -- How `finish` may end: an error, or nothing pending and the whole transcript returned.
  unfoldable pub Finished :
      List FinalizedSegment → Result SttError (List FinalizedSegment) → Engine fl D → Type 0
  Finished before (err e) eng' = Unit
  Finished before (ok out') eng' = (eng'.finalizer.pending ≡ []) × Prefix before out'

  pub Finished-later :
      (before mid : List FinalizedSegment) (r : Result SttError (List FinalizedSegment))
      (eng' : Engine fl D)
      → Prefix before mid
      → Finished mid r eng'
      → Finished before r eng'
  unfolding Finished
  Finished-later before mid (err e) eng' p f = tt
  Finished-later before mid (ok o) eng' p f = (f.0, Prefix-trans _ _ _ p f.1)

  pub finish-Finished :
      (eng : Engine fl D) (out : List FinalizedSegment)
      → eng.finalizer.flushed ≡ false
      → InRange eng.finalizer.pending
      → Finished
          (transcript fl dec cfg prompt out eng)
          (finish fl dec cfg prompt eng out).0
          (finish fl dec cfg prompt eng out).1
  unfolding finish Finished
  finish-Finished eng out fresh fits = on_window (Chunker.flush eng.chunker).0 refl
    where
      on_result :
          (w : Window fl.F32)
          → (Chunker.flush eng.chunker).0 ≡ some w
          → (r : Result SttError (List FinalizedSegment))
          → (decode_window fl dec cfg prompt
              (record eng { chunker = (Chunker.flush eng.chunker).1 })
              w
              out).0
            ≡ r
          → Finished
              (transcript fl dec cfg prompt out eng)
              r
              (decode_window fl dec cfg prompt
                (record eng { chunker = (Chunker.flush eng.chunker).1 })
                w
                out).1
      on_result w got (err e) h = tt
      on_result w got (ok out') h =
          let next = record eng { chunker = (Chunker.flush eng.chunker).1 } in
          let empty =
            decode_window-empties next w out out' (flush-is_final eng.chunker w got) fits h in
          let later = (decode_window-Later fl dec cfg prompt next w out out' h).grown in
          (
            empty,
            subst (Prefix (emit out eng.finalizer.pending)) (ap (emit out') empty ∙ emit-nil out')
                later,
          )

      on_window :
          (o : Option (Window fl.F32))
          → (Chunker.flush eng.chunker).0 ≡ o
          → Finished
              (transcript fl dec cfg prompt out eng)
              (finish fl dec cfg prompt eng out).0
              (finish fl dec cfg prompt eng out).1
      on_window none got =
          let (all, gone) = flush_commits-All fl eng.finalizer fresh fits in
          rw (got, finish) (gone, rw all (Prefix-refl (emit out eng.finalizer.pending)))
      on_window (some w) got = rw (got, finish) (on_result w got _ refl)

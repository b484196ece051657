-- ===== src/Stt/Stream/Course.antt =====
-- crates/stt/src/lib.rs: what becomes of each window of a stream, one after another.
use mathlib.Core.Path.{subst}
use sitewalk.Base.{
  ℕ, zero, suc, ◌≡◌, refl, sym, ap, ◌∙◌, ◌⊎◌, inl, inr, Bool, true, false, not, ◌&&◌, Option, none,
  some, List, [], ◌∷◌, ◌++◌, append_assoc, Bool-cases, Option-cases,
}
use sitewalk.Base.Text.{Text}
use sitewalk.Base.Result.{Result, ok, err}
use sitewalk.Base.Float.{Floats}
use sitewalk.Stt.Chunker.{Chunker, Window, take_ready_window}
use sitewalk.Stt.Chunker.Cover.{ready_windows, ready_windows-none, ready_windows-some}
use sitewalk.Stt.Finalizer
use sitewalk.Stt.Finalizer.{RawSegment, words_from_segments, merge_words}
use sitewalk.Stt.Finalizer.Append.{finalize_before-splits}
use sitewalk.Stt.Stream.{
  FinalizedSegment, SttError, SttConfig, Decoder, Engine, emit, horizon, sample_to_ms, is_speech,
  ingested, decode_window, decode_ready,
}
use sitewalk.Stt.Stream.Loop.{transcript, emit-append, chunker-decode_window}

both_false : (a b : Bool) → (not a && not b) ≡ true → (a ≡ false) × (b ≡ false)
both_false true b h = absurd (cc h)
both_false false true h = absurd (cc h)
both_false false false h = (refl, refl)

module _ (fl : Floats) {D : Type 0} (dec : Decoder fl D) (cfg : SttConfig fl)
    (prompt : Option Text) where
  -- A window that is not the last one and has no speech changes nothing.
  abbrev pub IsSilent :
      Window fl.F32
      → List FinalizedSegment
      → Engine fl D
      → List FinalizedSegment
      → Engine fl D
      → Type 0
  IsSilent w out eng out' eng' =
      (w.is_final ≡ false)
      × (is_speech fl w.samples cfg.vad_rms_threshold ≡ false)
      × (out' ≡ out)
      × (eng'.decoder ≡ eng.decoder)
      × (eng'.finalizer ≡ eng.finalizer)

  -- The decoder hears the samples of the window, and its words are merged to those that wait.
  abbrev pub IsDecoded :
      Window fl.F32
      → List FinalizedSegment
      → Engine fl D
      → List FinalizedSegment
      → Engine fl D
      → Type 0
  IsDecoded w out eng out' eng' =
      (raw : List (RawSegment fl)) × (dec.run eng.decoder w.samples prompt ≡ (ok raw, eng'.decoder))
      × (transcript fl dec cfg prompt out' eng'
          ≡ emit out (
              merge_words eng.finalizer.pending (
                words_from_segments fl (sample_to_ms fl cfg w.start_sample) raw
                  eng.finalizer.no_speech_threshold)))
      × (eng'.finalizer.no_speech_threshold ≡ eng.finalizer.no_speech_threshold)

  -- The windows one after another.
  pub data Course
      : List (Window fl.F32)
        → List FinalizedSegment
        → Engine fl D
        → List FinalizedSegment
        → Engine fl D
        → Type 0 where
    over : (out : List FinalizedSegment) (eng : Engine fl D) → Course [] out eng out eng
    hear :
        (w : Window fl.F32) (ws : List (Window fl.F32)) (out out1 out' : List FinalizedSegment)
        (eng eng1 eng' : Engine fl D)
        → IsSilent w out eng out1 eng1 ⊎ IsDecoded w out eng out1 eng1
        → Course ws out1 eng1 out' eng'
        → Course (w ∷ ws) out eng out' eng'

  -- The decoder fails on one of the windows, after a course of those before it.
  abbrev pub Fails : List (Window fl.F32) → List FinalizedSegment → Engine fl D → SttError → Type 0
  Fails ws out eng e =
      (before : List (Window fl.F32)) × (w : Window fl.F32) × (rest : List (Window fl.F32))
      × (out1 : List FinalizedSegment) × (eng1 : Engine fl D) × (ws ≡ before ++ w ∷ rest)
      × Course before out eng out1 eng1
      × ((dec.run eng1.decoder w.samples prompt).0 ≡ err e)

  -- What one window comes to.
  unfoldable pub WindowMeans :
      Window fl.F32
      → List FinalizedSegment
      → Engine fl D
      → Result SttError (List FinalizedSegment) × Engine fl D
      → Type 0
  WindowMeans w out eng (ok out', eng') =
      IsSilent w out eng out' eng' ⊎ IsDecoded w out eng out' eng'
  WindowMeans w out eng (err e, eng') = (dec.run eng.decoder w.samples prompt).0 ≡ err e

  ingested-WindowMeans :
      (eng : Engine fl D) (w : Window fl.F32) (out : List FinalizedSegment)
      (o : Result SttError (List (RawSegment fl)) × D)
      → dec.run eng.decoder w.samples prompt ≡ o
      → WindowMeans w out eng (ingested fl dec cfg prompt w eng out o)
  unfolding ingested WindowMeans Finalizer.ingest Finalizer.merge Finalizer.finalize_before
  ingested-WindowMeans eng w out (err e, d) h = ap (λ p. p.0) h
  ingested-WindowMeans eng w out (ok raw, d) h =
      let f = eng.finalizer in
      let start = sample_to_ms fl cfg w.start_sample in
      let new = words_from_segments fl start raw f.no_speech_threshold in
      let got = Finalizer.ingest fl f start raw (horizon fl cfg w) in
      inr (
        raw,
        h,
        sym (emit-append out got.0 got.1.pending)
            ∙ ap (emit out)
                (finalize_before-splits fl (Finalizer.merge fl f new) (horizon fl cfg w)).0,
        refl,
      )

  pub decode_window-WindowMeans :
      (eng : Engine fl D) (w : Window fl.F32) (out : List FinalizedSegment)
      → WindowMeans w out eng (decode_window fl dec cfg prompt eng w out)
  unfolding decode_window WindowMeans
  decode_window-WindowMeans eng w out =
      elim (Bool-cases (not w.is_final && not (is_speech fl w.samples cfg.vad_rms_threshold))) [
        | inl e ↦
            let (early, silent) =
              both_false w.is_final (is_speech fl w.samples cfg.vad_rms_threshold) e in
            rw (e, decode_window) (inl (early, silent, refl, refl, refl))
        | inr e ↦
            rw (e, decode_window)
              (ingested-WindowMeans eng w out (dec.run eng.decoder w.samples prompt) refl)
      ]

  -- What the ready windows come to, with the chunker that they leave.
  unfoldable pub DrainMeans :
      List (Window fl.F32) × Option (Chunker fl.F32)
      → List FinalizedSegment
      → Engine fl D
      → Option (Result SttError (List FinalizedSegment)) × Engine fl D
      → Type 0
  DrainMeans ready out eng (none, eng') = Unit
  DrainMeans ready out eng (some (err e), eng') = Fails ready.0 out eng e
  DrainMeans ready out eng (some (ok out'), eng') =
      Course ready.0 out eng out' eng' × (ready.1 ≡ some eng'.chunker)

  DrainMeans-hear :
      (w : Window fl.F32) (ready : List (Window fl.F32) × Option (Chunker fl.F32))
      (out out1 : List FinalizedSegment) (eng eng1 : Engine fl D)
      (a : Option (Result SttError (List FinalizedSegment)) × Engine fl D)
      → IsSilent w out eng out1 eng1 ⊎ IsDecoded w out eng out1 eng1
      → DrainMeans ready out1 eng1 a
      → DrainMeans (w ∷ ready.0, ready.1) out eng a
  unfolding DrainMeans
  DrainMeans-hear w ready out out1 eng eng1 (none, eng') h d = tt
  DrainMeans-hear w ready out out1 eng eng1 (some (err e), eng') h
        (before, v, rest, o, g, split, course, failed) =
      (
        w ∷ before,
        v,
        rest,
        o,
        g,
        ap (λ ws. w ∷ ws) split,
        hear w before out out1 o eng eng1 g h course,
        failed,
      )
  DrainMeans-hear w ready out out1 eng eng1 (some (ok out'), eng') h (course, left) =
      (hear w ready.0 out out1 out' eng eng1 eng' h course, left)

  -- The rounds after a window, whose first round has this chunker.
  abbrev rounds_after :
      ℕ
      → Result SttError (List FinalizedSegment) × Engine fl D
      → Option (Result SttError (List FinalizedSegment)) × Engine fl D
  rounds_after fuel a = elim a.0 [
    | ok out' ↦ decode_ready fl dec cfg prompt fuel a.1 out'
    | err e ↦ (some (err e), a.1)
  ]

  decode_ready-none :
      (fuel : ℕ) (eng : Engine fl D) (out : List FinalizedSegment)
      → (take_ready_window eng.chunker).0 ≡ none
      → decode_ready fl dec cfg prompt (suc fuel) eng out ≡ (some (ok out), eng)
  unfolding decode_ready
  decode_ready-none fuel eng out e = rw (e, decode_ready) refl

  abbrev next : Engine fl D → Engine fl D
  next eng = record eng { chunker = (take_ready_window eng.chunker).1 }

  decode_ready-some :
      (fuel : ℕ) (eng : Engine fl D) (out : List FinalizedSegment) (w : Window fl.F32)
      → (take_ready_window eng.chunker).0 ≡ some w
      → decode_ready fl dec cfg prompt (suc fuel) eng out
        ≡ rounds_after fuel (decode_window fl dec cfg prompt (next eng) w out)
  unfolding decode_ready
  decode_ready-some fuel eng out w e = rw (e, decode_ready) refl

  -- The windows from one that is ready on.
  abbrev with_ready :
      ℕ → Window fl.F32 → Chunker fl.F32 → List (Window fl.F32) × Option (Chunker fl.F32)
  with_ready fuel w c = (w ∷ (ready_windows fuel c).0, (ready_windows fuel c).1)

  abbrev Drains : ℕ → Type 0
  Drains fuel =
      (eng : Engine fl D) (out : List FinalizedSegment)
      → DrainMeans (ready_windows fuel eng.chunker) out eng
          (decode_ready fl dec cfg prompt fuel eng out)

  rounds_after-DrainMeans :
      (fuel : ℕ) (eng : Engine fl D) (out : List FinalizedSegment) (w : Window fl.F32)
      (c : Chunker fl.F32) (a : Result SttError (List FinalizedSegment) × Engine fl D)
      → Drains fuel
      → WindowMeans w out eng a
      → a.1.chunker ≡ c
      → DrainMeans (with_ready fuel w c) out eng (rounds_after fuel a)
  unfolding DrainMeans WindowMeans
  rounds_after-DrainMeans fuel eng out w c (err x, eng') rest h same =
      ([], w, (ready_windows fuel c).0, out, eng, refl, over out eng, h)
  rounds_after-DrainMeans fuel eng out w c (ok out', eng') rest h same =
      subst (λ k. DrainMeans (with_ready fuel w k) out eng (rounds_after fuel (ok out', eng'))) same
        (DrainMeans-hear w (ready_windows fuel eng'.chunker) out out' eng eng' _ h (rest eng' out'))

  WindowMeans-next :
      (eng : Engine fl D) (w : Window fl.F32) (out : List FinalizedSegment)
      (a : Result SttError (List FinalizedSegment) × Engine fl D)
      → WindowMeans w out (next eng) a
      → WindowMeans w out eng a
  unfolding WindowMeans
  WindowMeans-next eng w out (ok out', eng') h = h
  WindowMeans-next eng w out (err e, eng') h = h

  -- The loop over the ready windows is a course of them, or fails on one of them.
  pub decode_ready-DrainMeans : (fuel : ℕ) → Drains fuel
  unfolding DrainMeans decode_ready
  decode_ready-DrainMeans zero eng out = tt
  decode_ready-DrainMeans (suc fuel) eng out =
      elim (Option-cases (take_ready_window eng.chunker).0) [
        | inl e ↦
            rw (ready_windows-none fuel eng.chunker e, decode_ready-none fuel eng out e)
              (over out eng, refl)
        | inr (w, e) ↦
            let a = decode_window fl dec cfg prompt (next eng) w out in
            rw (ready_windows-some fuel eng.chunker w e, decode_ready-some fuel eng out w e)
              (rounds_after-DrainMeans fuel eng out w (take_ready_window eng.chunker).1 a
                (decode_ready-DrainMeans fuel)
                (WindowMeans-next eng w out a (decode_window-WindowMeans (next eng) w out))
                (chunker-decode_window fl dec cfg prompt (next eng) w out))
      ]

  pub Course-append :
      (ws vs : List (Window fl.F32)) (o o1 o2 : List FinalizedSegment) (g g1 g2 : Engine fl D)
      → Course ws o g o1 g1
      → Course vs o1 g1 o2 g2
      → Course (ws ++ vs) o g o2 g2
  Course-append _ vs o _ o2 g _ g2 (over _ _) k = k
  Course-append _ vs o o2 o3 g g2 g3 (hear w ws _ o1 _ _ g1 _ h c) k =
      hear w (ws ++ vs) o o1 o3 g g1 g3 h (Course-append ws vs o1 o2 o3 g1 g2 g3 c k)

  pub Fails-append :
      (ws vs : List (Window fl.F32)) (out : List FinalizedSegment) (eng : Engine fl D)
      (e : SttError)
      → Fails ws out eng e
      → Fails (ws ++ vs) out eng e
  Fails-append ws vs out eng e (before, w, rest, o, g, split, course, failed) = (
    before,
    w,
    rest ++ vs,
    o,
    g,
    ap (λ us. us ++ vs) split ∙ append_assoc before (w ∷ rest) vs,
    course,
    failed,
  )

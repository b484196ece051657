-- ===== src/Stt/Stream/End.antt =====
-- crates/stt/src/lib.rs: `end`, and the audio and words that it deals with.
use mathlib.Core.Path.{subst}
use sitewalk.Base.{
  true, ◌≤◌, ◌∷◌, drop, Option-cases, inl, inr, ◌≡◌, refl, sym, ap, ◌∙◌, false, Option, none, some,
  List, [], ◌++◌, arith, append-nil,
}
use sitewalk.Base.Text.{Text}
use sitewalk.Base.Result.{Result, ok, err}
use sitewalk.Base.Float.{Floats}
use sitewalk.Stt.Chunker
use sitewalk.Stt.Chunker.{Chunker, Window, take_ready_window}
use sitewalk.Stt.Chunker.Windows.{Represents-push, buf-length}
use sitewalk.Stt.Finalizer.Append.{flush_commits-All}
use sitewalk.Stt.Finalizer.Range.{InRange}
use sitewalk.Stt.Stream.{
  FinalizedSegment, SttError, SttConfig, Decoder, Engine, SttStream, emit, decode_window, finish,
  finish_if_ok, rounds, take_input, end_stream,
}
use sitewalk.Stt.Stream.Poll.{IsLive, drained}
use sitewalk.Stt.Stream.Course.{
  Course, hear, over, Fails, WindowMeans, decode_window-WindowMeans, DrainMeans,
  decode_ready-DrainMeans, Course-append, Fails-append,
}
use sitewalk.Stt.Chunker.Cover.{ready_windows, stitch, tail, tail-flush, ready_windows-Drained}
use sitewalk.Stt.Stream.Loop.{transcript, Settled}
use sitewalk.Stt.Stream.Flush.{
  emit-nil, flush-is_final, decode_window-empties, Finished, Finished-later, finish-Finished,
}

abbrev pub listed : {A : Type 0} → Option (Window A) → List (Window A)
listed none = []
listed (some w) = w ∷ []

or_else : {A : Type 0} → A → Option A → A
or_else a none = a
or_else a (some b) = b

-- The window, if there is one, is marked as the last one.
abbrev pub IsFinal : {A : Type 0} → Option (Window A) → Type 0
IsFinal none = Unit
IsFinal (some w) = w.is_final ≡ true

flush-IsFinal :
    {A : Type 0} (c : Chunker A) (o : Option (Window A)) → (Chunker.flush c).0 ≡ o → IsFinal o
flush-IsFinal c none h = tt
flush-IsFinal c (some w) h = flush-is_final c w h

some-injective : {A : Type 0} {a b : A} → some a ≡ some b → a ≡ b
unfolding or_else
some-injective {A} {a} h = ap (or_else a) h

module _ (fl : Floats) {D : Type 0} (dec : Decoder fl D) (cfg : SttConfig fl)
    (prompt : Option Text) where
  -- Courses of all the windows: the segments are those returned and then those that still waited.
  -- Or the decoder has failed on one of them.
  pub Outcome :
      List (Window fl.F32) → Engine fl D → Result SttError (List FinalizedSegment) → Type 0
  Outcome ws eng (err e) = Fails fl dec cfg prompt ws [] eng e
  Outcome ws eng (ok out') =
      (out : List FinalizedSegment) × (eng1 : Engine fl D) × Course fl dec cfg prompt ws [] eng out
        eng1
      × (out' ≡ transcript fl dec cfg prompt out eng1)

  -- The windows, each cut to the step, and then the final one are the audio from the cursor on, and
  -- the result is that of hearing them in their order.
  abbrev pub Accounts : List fl.F32 → Engine fl D → Result SttError (List FinalizedSegment) → Type 0
  Accounts audio eng r =
      (ready : List (Window fl.F32)) × (last : Option (Window fl.F32)) × IsFinal last
      × (stitch eng.chunker.step ready ++ tail last ≡ drop eng.chunker.next_start audio)
      × Outcome (ready ++ listed last) eng r

  -- The final window after the others.
  heard :
      (ready : List (Window fl.F32)) (eng0 eng : Engine fl D) (out : List FinalizedSegment)
      (w : Window fl.F32) (c : Chunker fl.F32)
      (a : Result SttError (List FinalizedSegment) × Engine fl D)
      → Course fl dec cfg prompt ready [] eng0 out eng
      → WindowMeans fl dec cfg prompt w out (record eng { chunker = c }) a
      → ((out' : List FinalizedSegment) → a.0 ≡ ok out' → a.1.finalizer.pending ≡ [])
      → Outcome (ready ++ w ∷ []) eng0 a.0
  unfolding Outcome WindowMeans
  heard ready eng0 eng out w c (err e, eng') course h empty =
      (ready, w, [], out, eng, refl, course, h)
  heard ready eng0 eng out w c (ok out', eng') course h empty = (
    out',
    eng',
    Course-append fl dec cfg prompt ready (w ∷ []) [] out out' eng0 eng eng' course
        (hear w [] out out' out' eng eng' eng' h (over out' eng')),
    sym (ap (emit out') (empty out' refl) ∙ emit-nil out'),
  )

  finish-Outcome :
      (ready : List (Window fl.F32)) (eng0 eng : Engine fl D) (out : List FinalizedSegment)
      → Course fl dec cfg prompt ready [] eng0 out eng
      → eng.finalizer.flushed ≡ false
      → InRange eng.finalizer.pending
      → Outcome
          (ready ++ listed (Chunker.flush eng.chunker).0)
          eng0
          (finish fl dec cfg prompt eng out).0
  unfolding finish Outcome
  finish-Outcome ready eng0 eng out course fresh fits =
      elim (Option-cases (Chunker.flush eng.chunker).0) [
        | inl got ↦
            rw (got, finish)
              (
                out,
                eng,
                subst (λ ws. Course fl dec cfg prompt ws [] eng0 out eng) (sym (append-nil ready))
                    course,
                ap (emit out) (flush_commits-All fl eng.finalizer fresh fits).0,
              )
        | inr (w, got) ↦
            let next : Engine fl D = record eng { chunker = (Chunker.flush eng.chunker).1 } in
            rw (got, finish)
              (heard ready eng0 eng out w next.chunker (decode_window fl dec cfg prompt next w out)
                course (decode_window-WindowMeans fl dec cfg prompt next w out)
                (λ out'.
                  decode_window-empties fl dec cfg prompt next w out out'
                    (flush-is_final eng.chunker w got) fits))
      ]

module _ (fl : Floats) {D : Type 0} (dec : Decoder fl D) (pcm : List fl.F32)
    (s : SttStream fl D) where
  ends :
      (r : Result SttError (List FinalizedSegment)) (eng' : Engine fl D)
      → s.engine.finalizer.flushed ≡ false
      → InRange s.engine.finalizer.pending
      → Settled fl dec s.cfg s.bias_prompt (pcm ++ s.input) [] (take_input fl s) r eng'
      → (r' : Result SttError (List FinalizedSegment)) × ((finish_if_ok fl dec s.cfg s.bias_prompt
            (some r, eng')).0
          ≡ some r')
        × Finished fl dec s.cfg s.bias_prompt
            (transcript fl dec s.cfg s.bias_prompt [] s.engine)
            r'
            (finish_if_ok fl dec s.cfg s.bias_prompt (some r, eng')).1
  unfolding finish_if_ok Finished Settled take_input
  ends (err e) eng' fresh fits h = (err e, refl, tt)
  ends (ok out) eng' fresh fits h = (
    (finish fl dec s.cfg s.bias_prompt eng' out).0,
    refl,
    Finished-later fl dec s.cfg s.bias_prompt _ _ _ _ h.0.grown (
        finish-Finished fl dec s.cfg s.bias_prompt eng' out (h.0.flushed ∙ fresh)
          (h.0.in_range fits)),
  )

  -- What the loop leaves, seen from its windows.
  accounted :
      (ready : List (Window fl.F32)) (c : Chunker fl.F32)
      (r : Result SttError (List FinalizedSegment)) (eng' : Engine fl D)
      → s.engine.finalizer.flushed ≡ false
      → InRange s.engine.finalizer.pending
      → Settled fl dec s.cfg s.bias_prompt (pcm ++ s.input) [] (take_input fl s) r eng'
      → DrainMeans fl dec s.cfg s.bias_prompt (ready, some c) [] (take_input fl s) (some r, eng')
      → (r' : Result SttError (List FinalizedSegment))
      → (finish_if_ok fl dec s.cfg s.bias_prompt (some r, eng')).0 ≡ some r'
      → Outcome fl dec s.cfg s.bias_prompt
          (ready ++ listed (Chunker.flush c).0)
          (take_input fl s)
          r'
  unfolding finish_if_ok Settled take_input DrainMeans Outcome
  accounted ready c (err e) eng' fresh fits h fails r' same =
      subst
        (Outcome fl dec s.cfg s.bias_prompt (ready ++ listed (Chunker.flush c).0) (take_input fl s))
        (some-injective same)
        (Fails-append fl dec s.cfg s.bias_prompt ready (listed (Chunker.flush c).0) []
          (take_input fl s) e fails)
  accounted ready c (ok out) eng' fresh fits h (course, left) r' same =
      subst
        (Outcome fl dec s.cfg s.bias_prompt (ready ++ listed (Chunker.flush c).0) (take_input fl s))
        (some-injective same)
        (subst
          (λ k.
            Outcome fl dec s.cfg s.bias_prompt (ready ++ listed (Chunker.flush k).0)
              (take_input fl s) (finish fl dec s.cfg s.bias_prompt eng' out).0)
          (sym (some-injective left))
          (finish-Outcome fl dec s.cfg s.bias_prompt ready (take_input fl s) eng' out course
            (h.0.flushed ∙ fresh) (h.0.in_range fits)))

  -- `end` on a live stream that has not ended, whose step is at most the window length and whose
  -- waiting words have times in 64 bits, never runs out of rounds. There are windows and, unless no
  -- audio is left for it, a final one that are the audio from the cursor on: the windows cut to the
  -- step and then the final one, put side by side. If it returns segments, all the windows were heard
  -- in their order: each is silent and changes nothing, which the final one never is, or the decoder
  -- hears its samples and its words are merged to the waiting ones; the segments are all that this
  -- course has returned and left waiting, they begin with all that waited before, and no word waits
  -- any more. If it returns an error, the decoder has failed with it on one of the windows, after
  -- such a course of the windows before.
  pub end-commits_all :
      IsLive fl pcm s
      → s.engine.finalizer.flushed ≡ false
      → s.engine.chunker.done ≡ false
      → s.engine.chunker.step ≤ s.engine.chunker.chunk_len
      → InRange s.engine.finalizer.pending
      → (r : Result SttError (List FinalizedSegment)) × ((end_stream fl dec s).0 ≡ some r)
        × Finished fl dec s.cfg s.bias_prompt
            (transcript fl dec s.cfg s.bias_prompt [] s.engine)
            r
            (end_stream fl dec s).1.engine
        × Accounts fl dec s.cfg s.bias_prompt (pcm ++ s.input) (take_input fl s) r
  unfolding end_stream take_input Chunker.push
  end-commits_all live fresh open_end fit fits =
      let eng = take_input fl s in
      let rep = Represents-push pcm s.input s.engine.chunker live.represents in
      let long = buf-length (pcm ++ s.input) eng.chunker rep in
      let (r, eng', ran, settled) = drained fl dec pcm s live in
      let (c, left, drain, same) =
        ready_windows-Drained (pcm ++ s.input) s.engine.chunker.step s.engine.chunker.chunk_len
          live.progress fit live.small (rounds fl eng) eng.chunker rep
          (record { step_is = refl; len_is = refl }) (omega arith)
          (omega (arith, long, live.represents.behind)) in
      let ready = (ready_windows (rounds fl eng) eng.chunker).0 in
      let means : DrainMeans fl dec s.cfg s.bias_prompt (ready, some c) [] eng (some r, eng') =
        subst (λ o. DrainMeans fl dec s.cfg s.bias_prompt (ready, o) [] eng (some r, eng')) left
          (subst
            (DrainMeans fl dec s.cfg s.bias_prompt (ready_windows (rounds fl eng) eng.chunker) []
              eng)
            ran (decode_ready-DrainMeans fl dec s.cfg s.bias_prompt (rounds fl eng) eng [])) in
      let covered : stitch s.engine.chunker.step ready ++ tail (Chunker.flush c).0
          ≡ drop s.engine.chunker.next_start (pcm ++ s.input) =
        ap (λ t. stitch s.engine.chunker.step ready ++ t)
          (tail-flush (pcm ++ s.input) s.engine.chunker.step s.engine.chunker.chunk_len
            live.progress fit live.small c drain.represents (same ∙ open_end))
        ∙ drain.stitched in
      let (r', ended, finished) = ends r eng' fresh fits settled in
      rw ran (
        r',
        ended,
        finished,
        (
          ready,
          (Chunker.flush c).0,
          flush-IsFinal c (Chunker.flush c).0 refl,
          covered,
          accounted ready c r eng' fresh fits settled means r' ended,
        ),
      )

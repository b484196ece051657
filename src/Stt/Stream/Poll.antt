-- ===== src/Stt/Stream/Poll.antt =====
-- What `poll` promises its caller.
use mathlib.Core.Path.{subst}
use sitewalk.Base.{
  ◌+◌, ◌^◌, ◌<◌, ◌≡◌, refl, sym, ap, Option, none, some, List, [], ◌++◌, arith, length, Prefix,
}
use sitewalk.Base.Text.{Text}
use sitewalk.Base.Result.{Result, ok, err}
use sitewalk.Base.Float.{Floats}
use sitewalk.Stt.Chunker
use sitewalk.Stt.Chunker.{Chunker, Window, take_ready_window}
use sitewalk.Stt.Chunker.Windows.{Represents, Represents-push, buf-length}
use sitewalk.Stt.Stream.{
  FinalizedSegment, SttError, SttConfig, Decoder, Engine, SttStream, decode_ready, rounds,
  take_input, poll,
}
use sitewalk.Stt.Stream.Loop.{transcript, Settled, decode_ready-Settled}

-- A stream whose chunker holds the audio `pcm`, with a step that makes progress and a sample count
-- that fits in 64 bits even after the input is taken over.
pub record IsLive (fl : Floats) {D : Type 0} (pcm : List fl.F32) (s : SttStream fl D) : Type 0 where
  pub represents : Represents pcm s.engine.chunker
  pub progress : 0 < s.engine.chunker.step
  pub small : length (pcm ++ s.input) + s.engine.chunker.step < 2 ^ 64

module _ (fl : Floats) {D : Type 0} (dec : Decoder fl D) (cfg : SttConfig fl)
    (prompt : Option Text) where
  -- What `poll` promises: nothing on an error, and else that the transcript has grown, that no full
  -- window is left and that the chunker holds `audio`.
  pub Returned :
      List fl.F32 → Engine fl D → Result SttError (List FinalizedSegment) → Engine fl D → Type 0
  Returned audio eng (err e) eng' = Unit
  Returned audio eng (ok out) eng' =
      Prefix (transcript fl dec cfg prompt [] eng) (transcript fl dec cfg prompt out eng')
      × ((take_ready_window eng'.chunker).0 ≡ none)
      × Represents audio eng'.chunker

module _ (fl : Floats) {D : Type 0} (dec : Decoder fl D) (pcm : List fl.F32)
    (s : SttStream fl D) where
  pub drained :
      IsLive fl pcm s
      → (r : Result SttError (List FinalizedSegment)) × (eng' : Engine fl D) × (decode_ready fl dec
            s.cfg s.bias_prompt
            (rounds fl (take_input fl s))
            (take_input fl s)
            []
          ≡ (some r, eng'))
        × Settled fl dec s.cfg s.bias_prompt (pcm ++ s.input) [] (take_input fl s) r eng'
  unfolding take_input Chunker.push
  drained live =
      let pushed = Chunker.push s.input s.engine.chunker in
      let rep = Represents-push pcm s.input s.engine.chunker live.represents in
      decode_ready-Settled fl dec s.cfg s.bias_prompt (pcm ++ s.input) s.engine.chunker.step
        s.engine.chunker.chunk_len live.progress live.small (rounds fl (take_input fl s))
        (take_input fl s) [] rep (record { step_is = refl; len_is = refl }) (omega arith)
        (omega (arith, buf-length (pcm ++ s.input) pushed rep, live.represents.behind))

  Settled-chunker :
      (audio : List fl.F32) (r : Result SttError (List FinalizedSegment)) (eng' : Engine fl D)
      → Settled fl dec s.cfg s.bias_prompt audio [] (take_input fl s) r eng'
      → Returned fl dec s.cfg s.bias_prompt audio s.engine r eng'
  unfolding take_input Chunker.push Settled Returned
  Settled-chunker audio (err e) eng' h = tt
  Settled-chunker audio (ok out) eng' h = (h.0.grown, h.2, h.3)

  -- `poll` on a live stream never runs out of rounds and takes all of the input. If it returns
  -- segments, then these followed by what still waits begin with what waited before, unchanged;
  -- no full window is left, and the chunker holds all of the audio.
  pub poll-returns :
      IsLive fl pcm s
      → (r : Result SttError (List FinalizedSegment)) × ((poll fl dec s).0 ≡ some r)
        × ((poll fl dec s).1.input ≡ [])
        × Returned fl dec s.cfg s.bias_prompt (pcm ++ s.input) s.engine r (poll fl dec s).1.engine
  unfolding poll
  poll-returns live =
      let (r, eng', ran, settled) = drained live in
      (
        r,
        ap (λ (p : Option (Result SttError (List FinalizedSegment)) × Engine fl D). p.0) ran,
        refl,
        subst (Returned fl dec s.cfg s.bias_prompt (pcm ++ s.input) s.engine r)
            (sym (
              ap (λ (p : Option (Result SttError (List FinalizedSegment)) × Engine fl D). p.1) ran))
            (Settled-chunker (pcm ++ s.input) r eng' settled),
      )

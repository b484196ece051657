-- ===== src/Stt/Stream.antt =====
-- crates/stt/src/lib.rs, with bias.rs and vad.rs: the stream that buffers audio, cuts it, decodes
-- each window and finalizes words. The decoder is a parameter. The locks make each method atomic,
-- so a method takes the stream to its result and the new stream.
pub mod Loop
pub mod Course
pub mod Poll
pub mod Flush
pub mod End
use sitewalk.Base.{
  ℕ, zero, suc, ◌+◌, ◌*◌, ◌/◌, ◌-◌, Bool, true, false, ◌&&◌, not, Option, none, some, List, [], ◌∷◌,
  ◌++◌, map, if◌then◌else◌, length, take, is_empty,
}
use sitewalk.Base.Text.{Text, codes}
use sitewalk.Base.Text.Split.{join}
use sitewalk.Base.Words.{add_u64, mul_u64, u64_max}
use sitewalk.Base.Float.{Floats}
use sitewalk.Base.Result.{Result, ok, err}
use sitewalk.Stt.Chunker
use sitewalk.Stt.Chunker.{Chunker, Window}
use sitewalk.Stt.Finalizer
use sitewalk.Stt.Finalizer.{RawSegment, Finalizer, Word}

pub record FinalizedSegment : Type 0 where
  pub start_ms : ℕ
  pub end_ms : ℕ
  pub text : Text

pub data SttError : Type 0 where
  model_load decode config : Text → SttError

-- `build_bias_prompt`
unfoldable pub build_bias_prompt : List Text → ℕ → Option Text
build_bias_prompt terms max_terms =
    let kept = take max_terms terms in
    if is_empty kept
    then none
    else some (codes "Terms used in this session: " ++ (join (codes ", ") kept ++ codes "."))

unfoldable pub emit : List FinalizedSegment → List Word → List FinalizedSegment
emit out words =
    out
    ++ map (λ (w : Word). record { start_ms = w.start_ms; end_ms = w.end_ms; text = w.text }) words

module _ (fl : Floats) where
  open fl use {
    F64, F32, decimal, decimal_f32, of_int, to_int, widen, narrow, add, mul, div, sqrt, le_f64,
    le_f32,
  }

  pub record SttConfig : Type 0 where
    pub chunk_secs : F64
    pub overlap_secs : F64
    pub sample_rate : ℕ
    pub language : Text
    pub max_bias_terms : ℕ
    pub use_gpu : Bool
    pub vad_rms_threshold : F32
    pub no_speech_prob_threshold : F32
    pub word_timestamps : Bool

  unfoldable pub default_config : SttConfig
  default_config = record {
    chunk_secs = decimal 5 0;
    overlap_secs = decimal 1 0;
    sample_rate = 16000;
    language = codes "en";
    max_bias_terms = 100;
    use_gpu = true;
    vad_rms_threshold = decimal_f32 0 0;
    no_speech_prob_threshold = decimal_f32 6 1;
    word_timestamps = true;
  }

  -- The message of the error is left out but for its constant part.
  unfoldable pub validate : SttConfig → Result SttError (Unit {0})
  validate cfg =
      if le_f64 cfg.chunk_secs cfg.overlap_secs
      then err (config (codes "overlap_secs must be < chunk_secs"))
      else ok tt

  -- `iter().map(..).sum()`: from zero, left to right
  unfoldable pub sum_squares : F64 → List F32 → F64
  sum_squares acc [] = acc
  sum_squares acc (s ∷ samples) = sum_squares (add acc (mul (widen s) (widen s))) samples

  unfoldable pub rms : List F32 → F32
  unfolding sum_squares
  rms samples =
      if is_empty samples
      then decimal_f32 0 0
      else narrow (sqrt (div (sum_squares (decimal 0 0) samples) (of_int (length samples))))

  unfoldable pub is_speech : List F32 → F32 → Bool
  unfolding rms
  is_speech samples threshold = le_f32 threshold (rms samples)

  -- The source panics on a sample rate of zero, where this division gives zero.
  unfoldable pub sample_to_ms : SttConfig → ℕ → ℕ
  unfolding mul_u64
  sample_to_ms cfg sample = mul_u64 sample 1000 / cfg.sample_rate

  unfoldable pub chunk_len_ms : SttConfig → ℕ
  chunk_len_ms cfg = to_int (mul cfg.chunk_secs (decimal 1000 0))

  unfoldable pub overlap_ms : SttConfig → ℕ
  overlap_ms cfg = to_int (mul cfg.overlap_secs (decimal 1000 0))

  -- `trait Decoder`: one window of samples and the prompt in, segments or an error out. `D` is
  -- what the decoder keeps between calls.
  pub record Decoder (D : Type 0) : Type 0 where
    pub run : D → List F32 → Option Text → Result SttError (List (RawSegment fl)) × D

  pub record Engine (D : Type 0) : Type 0 where
    pub decoder : D
    pub chunker : Chunker F32
    pub finalizer : Finalizer fl

  pub record SttStream (D : Type 0) : Type 0 where
    pub cfg : SttConfig
    pub bias_prompt : Option Text
    pub input : List F32
    pub engine : Engine D

  module _ {D : Type 0} where
    unfoldable pub with_decoder : D → SttConfig → List Text → SttStream D
    with_decoder decoder cfg vocab = record {
      cfg = cfg;
      bias_prompt = build_bias_prompt vocab cfg.max_bias_terms;
      input = [];
      engine = record {
        decoder = decoder;
        chunker = Chunker.new fl F32 cfg.sample_rate cfg.chunk_secs cfg.overlap_secs;
        finalizer = Finalizer.with_no_speech_threshold fl cfg.no_speech_prob_threshold;
      };
    }

    unfoldable pub push_pcm : List F32 → SttStream D → SttStream D
    push_pcm pcm s = record s { input = s.input ++ pcm }

    unfoldable pub preview_tail : SttStream D → Text
    preview_tail s = Finalizer.preview fl s.engine.finalizer

    -- The step that `poll` and `end` begin with: the buffered audio goes to the chunker.
    unfoldable pub take_input : SttStream D → Engine D
    take_input s = record s.engine { chunker = Chunker.push s.input s.engine.chunker }

  unfoldable pub horizon : SttConfig → Window F32 → ℕ
  unfolding add_u64 chunk_len_ms overlap_ms sample_to_ms
  horizon cfg w =
      if w.is_final
      then u64_max
      else add_u64 (sample_to_ms cfg w.start_sample) (chunk_len_ms cfg - overlap_ms cfg)

  module _ {D : Type 0} (dec : Decoder D) (cfg : SttConfig) (prompt : Option Text) where
    -- What follows a decode: an error leaves the words where they are.
    pub ingested :
        Window F32
        → Engine D
        → List FinalizedSegment
        → Result SttError (List (RawSegment fl)) × D
        → Result SttError (List FinalizedSegment) × Engine D
    ingested w eng out (err e, d) = (err e, record eng { decoder = d })
    ingested w eng out (ok raw, d) =
        let (words, f) =
          Finalizer.ingest fl eng.finalizer (sample_to_ms cfg w.start_sample) raw (horizon cfg w) in
        (ok (emit out words), record eng { decoder = d; finalizer = f })

    unfoldable pub decode_window :
        Engine D
        → Window F32
        → List FinalizedSegment
        → Result SttError (List FinalizedSegment) × Engine D
    unfolding ingested
    decode_window eng w out =
        if not w.is_final && not (is_speech w.samples cfg.vad_rms_threshold)
        then (ok out, eng)
        else ingested w eng out (dec.run eng.decoder w.samples prompt)

    -- `while let Some(w) = take_ready_window() { decode_window(..)?; }`; none when the fuel runs
    -- out.
    unfoldable pub decode_ready :
        ℕ
        → Engine D
        → List FinalizedSegment
        → Option (Result SttError (List FinalizedSegment)) × Engine D
    decode_ready zero eng out = (none, eng)
    decode_ready (suc fuel) eng out =
        let (ready, c) = Chunker.take_ready_window eng.chunker in
        elim ready [
          | none ↦ (some (ok out), eng)
          | some w ↦
              let (r, eng') = decode_window (record eng { chunker = c }) w out in
              elim r [ ok out' ↦ decode_ready fuel eng' out' | err e ↦ (some (err e), eng') ]
        ]

    -- The end of `end`: the final window, or the words that wait behind the last horizon.
    unfoldable pub finish :
        Engine D → List FinalizedSegment → Result SttError (List FinalizedSegment) × Engine D
    unfolding decode_window
    finish eng out =
        let (last, c) = Chunker.flush eng.chunker in
        let (words, f) = Finalizer.flush fl eng.finalizer in
        elim last [
          | some w ↦ decode_window (record eng { chunker = c }) w out
          | none ↦ (ok (emit out words), record eng { chunker = c; finalizer = f })
        ]

    unfoldable pub finish_if_ok :
        Option (Result SttError (List FinalizedSegment)) × Engine D
        → Option (Result SttError (List FinalizedSegment)) × Engine D
    unfolding finish
    finish_if_ok (some (ok out), eng) = let (r, eng') = finish eng out in (some r, eng')
    finish_if_ok (r, eng) = (r, eng)

  -- As many rounds as the buffer can give windows, and one to see that there is none.
  abbrev pub rounds : {D : Type 0} → Engine D → ℕ
  rounds eng = suc (suc (length eng.chunker.buf))

  module _ {D : Type 0} (dec : Decoder D) where
    unfoldable pub poll :
        SttStream D → Option (Result SttError (List FinalizedSegment)) × SttStream D
    unfolding take_input decode_ready
    poll s =
        let eng = take_input s in
        let (r, eng') = decode_ready dec s.cfg s.bias_prompt (rounds eng) eng [] in
        (r, record s { input = []; engine = eng' })

    unfoldable pub end_stream :
        SttStream D → Option (Result SttError (List FinalizedSegment)) × SttStream D
    unfolding take_input decode_ready finish_if_ok
    end_stream s =
        let eng = take_input s in
        let (r, eng') =
          finish_if_ok dec s.cfg s.bias_prompt
            (decode_ready dec s.cfg s.bias_prompt (rounds eng) eng []) in
        (r, record s { input = []; engine = eng' })

-- ===== src/Examples/Speech.antt =====
-- crates/stt: windows of three samples that overlap by one, and a decoder that hears one word.
use sitewalk.Base.{
  ℕ, zero, suc, ◌+◌, ◌≤◌, ◌<◌, Bool, true, false, Option, none, some, List, [], ◌∷◌, ◌++◌, ◌≡◌,
  refl, length, drop, All, Prefix, arith, ◌^◌,
}
use sitewalk.Base.Text.{Text, codes}
use sitewalk.Base.Words.{u64_max}
use sitewalk.Base.Int.{pos, negsuc}
use sitewalk.Base.Result.{Result, ok}
use sitewalk.Examples.{whole}
use sitewalk.Stt.Chunker
use sitewalk.Stt.Chunker.{Chunker, Window}
use sitewalk.Stt.Chunker.Windows.{Represents}
use sitewalk.Stt.Chunker.Cover.{ready_windows, stitch, tail, drain-flush_covers}
use sitewalk.Stt.Finalizer
use sitewalk.Stt.Finalizer.{
  Word, WordTiming, RawSegment, Finalizer, words_from_segments, merge_words, precise_words,
}
use sitewalk.Stt.Finalizer.Append.{
  StartsAfter, finalize_before-splits, ingest-append_only, flush_commits-All,
}
use sitewalk.Stt.Finalizer.Seam.{
  texts, Fits, reach, IsCovered, FirstUncovered, Ends, merge_words-text_seam, merge_words-time_seam,
}
use sitewalk.Stt.Finalizer.Spans.{Ordered, precise_words-Ordered, words_from_segments-spoken}
use sitewalk.Stt.Finalizer.Range.{ingest-u64_max_empties}
use sitewalk.Stt.Stream.{
  FinalizedSegment, SttError, build_bias_prompt, SttConfig, Decoder, SttStream, with_decoder,
  take_input, push_pcm, poll, end_stream,
}
use sitewalk.Stt.Stream.Loop.{transcript}
use sitewalk.Stt.Stream.Poll.{IsLive, Returned, poll-returns}
use sitewalk.Stt.Stream.Flush.{Finished}
use sitewalk.Stt.Stream.End.{Accounts, end-commits_all}

abbrev samples : List ℕ
samples = 5 ∷ 6 ∷ 7 ∷ 8 ∷ 9 ∷ 4 ∷ []

abbrev chunker : Chunker ℕ
chunker = Chunker.push samples (Chunker.new whole ℕ 1 3 1)

chunker-Represents : Represents samples chunker
unfolding Chunker.push Chunker.new
chunker-Represents = record { behind = omega arith; within = omega arith; holds = refl }

drain-flush_covers_example :
    (c' : Chunker ℕ) × ((ready_windows 7 chunker).1 ≡ some c')
    × (stitch 2 (ready_windows 7 chunker).0 ++ tail (Chunker.flush c').0 ≡ samples)
    × (6 < c'.next_start + 3)
unfolding Chunker.push Chunker.new
drain-flush_covers_example =
    drain-flush_covers samples 2 3 (omega arith) (omega arith) (omega arith) chunker
      chunker-Represents (record { step_is = refl; len_is = refl }) refl

-- A decoder that hears the word "hi" in every window, one second long.
abbrev hears_hi : Decoder whole (Unit {0})
hears_hi = record {
  run = λ d samples prompt. (
    ok (
        record {
          start_cs = pos 0;
          end_cs = pos 100;
          text = codes "hi";
          no_speech_prob = 0;
          words = [];
        }
        ∷ []),
    d,
  );
}

abbrev small_windows : SttConfig whole
small_windows = record {
  chunk_secs = 3;
  overlap_secs = 1;
  sample_rate = 1;
  language = codes "en";
  max_bias_terms = 2;
  use_gpu = false;
  vad_rms_threshold = 0;
  no_speech_prob_threshold = 1;
  word_timestamps = true;
}

abbrev stream : SttStream whole (Unit {0})
stream = push_pcm whole samples (with_decoder whole tt small_windows [])

stream-IsLive : IsLive whole [] stream
unfolding push_pcm with_decoder Chunker.new
stream-IsLive = record {
  represents = record { behind = omega arith; within = omega arith; holds = refl };
  progress = omega arith;
  small = omega arith;
}

poll-returns_example :
    (r : Result SttError (List FinalizedSegment)) × ((poll whole hears_hi stream).0 ≡ some r)
    × ((poll whole hears_hi stream).1.input ≡ [])
    × Returned whole hears_hi small_windows none samples stream.engine r
        (poll whole hears_hi stream).1.engine
unfolding push_pcm with_decoder build_bias_prompt
poll-returns_example = poll-returns whole hears_hi [] stream stream-IsLive

end-commits_all_example :
    (r : Result SttError (List FinalizedSegment)) × ((end_stream whole hears_hi stream).0 ≡ some r)
    × Finished whole hears_hi small_windows none
        (transcript whole hears_hi small_windows none [] stream.engine)
        r
        (end_stream whole hears_hi stream).1.engine
    × Accounts whole hears_hi small_windows none samples (take_input whole stream) r
unfolding push_pcm with_decoder Finalizer.with_no_speech_threshold build_bias_prompt Chunker.new
end-commits_all_example =
    end-commits_all whole hears_hi [] stream stream-IsLive refl refl (omega arith) tt

abbrev one : Word
one = record { text = codes "one"; start_ms = 0; end_ms = 400; time_precise = true }

abbrev two : Word
two = record { text = codes "two"; start_ms = 400; end_ms = 900; time_precise = true }

abbrev three : Word
three = record { text = codes "three"; start_ms = 900; end_ms = 1300; time_precise = false }

abbrev holding : Finalizer whole
holding = record { pending = one ∷ two ∷ []; flushed = false; no_speech_threshold = 1 }

abbrev heard : List (RawSegment whole)
heard =
    record {
      start_cs = pos 40;
      end_cs = pos 130;
      text = codes " two three";
      no_speech_prob = 0;
      words = [];
    }
    ∷ []

ingest-append_only_example :
    let new = words_from_segments whole 0 heard 1 in
    let r = Finalizer.ingest whole holding 0 heard 500 in
    (n : ℕ) × (n ≤ length new) × (r.0 ++ r.1.pending ≡ one ∷ two ∷ drop n new)
ingest-append_only_example = ingest-append_only whole holding 0 heard 500

finalize_before-splits_example :
    let r = Finalizer.finalize_before whole holding 500 in
    (r.0 ++ r.1.pending ≡ one ∷ two ∷ [])
    × All (λ (w : Word). w.end_ms ≤ 500) r.0
    × StartsAfter 500 r.1.pending
finalize_before-splits_example = finalize_before-splits whole holding 500

flush_commits-All_example :
    let r = Finalizer.flush whole holding in (r.0 ≡ one ∷ two ∷ []) × (r.1.pending ≡ [])
flush_commits-All_example = flush_commits-All whole holding refl (omega arith, (omega arith, tt))

merge_words-text_seam_example :
    (k : ℕ) × (1 ≤ k)
    × (k ≤ reach (one ∷ two ∷ []) (two ∷ three ∷ []))
    × Fits k (one ∷ two ∷ []) (two ∷ three ∷ [])
    × (merge_words (one ∷ two ∷ []) (two ∷ three ∷ []) ≡ one ∷ two ∷ drop k (two ∷ three ∷ []))
merge_words-text_seam_example =
    merge_words-text_seam (one ∷ two ∷ []) (two ∷ three ∷ []) (omega arith) 1 (omega arith)
      (omega arith) refl

no_match : (j : ℕ) → 0 < j → j ≤ reach (one ∷ []) (two ∷ []) → ¬ (Fits j (one ∷ []) (two ∷ []))
no_match zero p h f = absurd (omega arith)
no_match (suc zero) p h f = absurd (ground arith)
no_match (suc (suc j)) p h f = absurd (omega arith)

merge_words-time_seam_example :
    (held : ℕ) × (front : List Word) × (rest : List Word) × All
      (λ (w : Word). w.end_ms ≤ held)
      (one ∷ [])
    × Ends held (one ∷ [])
    × (two ∷ [] ≡ front ++ rest)
    × All (IsCovered held) front
    × FirstUncovered held rest
    × (merge_words (one ∷ []) (two ∷ []) ≡ one ∷ rest)
merge_words-time_seam_example = merge_words-time_seam (one ∷ []) (two ∷ []) (omega arith) no_match

precise_words-Ordered_example : Ordered 7 (
    precise_words 0 7 (codes "a" ∷ codes "b" ∷ []) (
      record { text = codes "a"; start_cs = negsuc 2; end_cs = pos 3 }
      ∷ record { text = codes "b"; start_cs = pos 1; end_cs = pos 2 }
      ∷ []))
precise_words-Ordered_example = precise_words-Ordered 0 7 (codes "a" ∷ codes "b" ∷ []) (
    record { text = codes "a"; start_cs = negsuc 2; end_cs = pos 3 }
    ∷ record { text = codes "b"; start_cs = pos 1; end_cs = pos 2 }
    ∷ [])

words_from_segments-spoken_example :
    texts (words_from_segments whole 0 heard 1) ≡ codes "two" ∷ codes "three" ∷ []
unfolding sitewalk.Base.Text.Split.split_whitespace sitewalk.Base.Text.is_whitespace
words_from_segments-spoken_example = words_from_segments-spoken whole 0 heard 1

ingest-u64_max_empties_example : (Finalizer.ingest whole holding 0 heard u64_max).1.pending ≡ []
ingest-u64_max_empties_example =
    ingest-u64_max_empties whole holding 0 heard (omega arith, (omega arith, tt))

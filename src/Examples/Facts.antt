-- ===== src/Examples/Facts.antt =====
-- crates/harness: a small memory, a policy, and an agent whose provider answers or asks for a tool.
use sitewalk.Base.{
  ℕ, zero, suc, ◌+◌, ◌≤◌, ◌<◌, ◌^◌, min, Bool, true, false, ◌&&◌, Option, none, some, List, [], ◌∷◌,
  ◌++◌, ◌≡◌, ◌↔◌, ◌⊎◌, refl, arith, keep, if◌then◌else◌, length,
}
use sitewalk.Base.Text.{Text, codes, text_ltb, text_eq}
use sitewalk.Base.Result.{ok, err}
use sitewalk.Examples.{whole}
use sitewalk.Harness.Memory.{
  stated, inferred, corrected, is_internal_section, FactSource, MemoryEntry, Memory, normalize_term,
  entries, refresh, remember_from, forget, weigh, is_fresh, prune_stale,
}
use sitewalk.Harness.Memory.Lookup.{find, find-remember_from, find-forget}
use sitewalk.Harness.Memory.Evict.{clamp_to_cap}
use sitewalk.Harness.Memory.Weight.{IsOrdered}
use sitewalk.Harness.Memory.Clamp.{Clamped, clamp_to_cap-Clamped, entries-clamp_internal}
use sitewalk.Harness.Memory.Prune.{prune_stale-keeps}
use sitewalk.Harness.Memory.Vocabulary.{vocabulary_terms, add_vocabulary_term}
use sitewalk.Harness.Memory.Vocabulary.Cap.{
  AddMeans, add_vocabulary_term-means, add_vocabulary_term-cap,
}
use sitewalk.Harness.Policy.{
  ReflectionSignals, record_reflection, ReflectionPolicy, required_interval, should_reflect,
}
use sitewalk.Harness.Policy.Cadence.{
  required_interval-power, required_interval-backoff, record_reflection-trims, should_reflect_iff,
}
use sitewalk.Harness.Llm.{
  tool_use, unknown, stop_tool_use, max_turns, user_text, no_usage, Tool, register,
}
use sitewalk.Harness.Reflection.{JsonView, ReflectionEngine, reflect, reflection_request}
use sitewalk.Harness.Reflection.Rewrite.{ReflectionMeans, reflect-keeps}
use sitewalk.Harness.MemoryTool.{MemoryStore, UpdateMemoryTool, update_memory}
use sitewalk.Harness.MemoryTool.Safety.{Keeps, Persisted, update_memory-safe}
use sitewalk.Harness.Agent.{AgentConfig, RunError, LlmProvider, drop_unknown, tool_uses, run}
use sitewalk.Harness.Agent.Conversation.{RunMeans, run-exchange, run-turn_limit}

abbrev fact : Text → ℕ → FactSource → MemoryEntry
fact t at source = record { text = t; last_touched = at; source = source; session = none }

abbrev pub memory : Memory
memory = record {
  sections =
      (codes "_seeds", fact (codes "landscape") 0 stated ∷ [])
      ∷ (
        codes "people",
        fact (codes "Maria runs crew two") 5 inferred
            ∷ fact (codes "Joe is the owner") 9 corrected
            ∷ [],
      )
      ∷ (codes "vocabulary", fact (codes "sod cutter") 3 stated ∷ [])
      ∷ [];
}

memory-IsOrdered : IsOrdered memory
unfolding text_ltb
memory-IsOrdered = ((refl, (refl, tt)), ((refl, tt), (tt, tt)))

find-remember_from_example :
    find
      (remember_from memory (codes "people") (codes "Joe is the owner") 12 inferred none)
      (codes "people")
      (codes "Joe is the owner")
    ≡ some (fact (codes "Joe is the owner") 12 corrected)
unfolding text_eq find sitewalk.Base.TextMap.get refresh
find-remember_from_example =
    find-remember_from memory (codes "people") (codes "Joe is the owner") (codes "people")
      (codes "Joe is the owner") 12 inferred none

find-forget_example :
    ((forget memory (codes "vocabulary") (codes "sod cutter")).0 ≡ true)
    × (find
          (forget memory (codes "vocabulary") (codes "sod cutter")).1
          (codes "vocabulary")
          (codes "sod cutter")
        ≡ none)
unfolding find text_eq sitewalk.Base.TextMap.get
find-forget_example =
    find-forget memory (codes "vocabulary") (codes "sod cutter") (codes "vocabulary")
      (codes "sod cutter")

clamp_to_cap-Clamped_example : Clamped memory 6 0 (clamp_to_cap memory 6)
clamp_to_cap-Clamped_example = clamp_to_cap-Clamped memory 6 memory-IsOrdered

entries-clamp_internal_example :
    entries (clamp_to_cap memory 0).1 (codes "_seeds") ≡ fact (codes "landscape") 0 stated ∷ []
unfolding is_internal_section entries sitewalk.Base.TextMap.get text_eq
entries-clamp_internal_example =
    entries-clamp_internal memory 0 (codes "_seeds") memory-IsOrdered refl

prune_stale-keeps_example :
    (entries (prune_stale memory 20 4).1 (codes "people")
      ≡ keep (is_fresh 16) (entries memory (codes "people")))
    × ((prune_stale memory 20 4).0 + weigh (λ e. 1) (prune_stale memory 20 4).1.sections
        ≡ weigh (λ e. 1) memory.sections)
unfolding entries is_internal_section
prune_stale-keeps_example = prune_stale-keeps memory 20 4 (codes "people") memory-IsOrdered

add_vocabulary_term-means_example :
    AddMeans
      (normalize_term (codes "Sod  Cutter"))
      memory
      (add_vocabulary_term memory (codes "Sod  Cutter") 30 stated).1
      (add_vocabulary_term memory (codes "Sod  Cutter") 30 stated).0
add_vocabulary_term-means_example = add_vocabulary_term-means memory (codes "Sod  Cutter") 30 stated

add_vocabulary_term-cap_example :
    length (vocabulary_terms (add_vocabulary_term memory (codes "boxwood") 30 stated).1) ≤ 100
unfolding vocabulary_terms sitewalk.Base.TextMap.get text_eq
add_vocabulary_term-cap_example =
    add_vocabulary_term-cap memory (codes "boxwood") 30 stated (omega arith)

abbrev pub policy : ReflectionPolicy whole
policy = record { warmup_reflections = 5; low_churn_threshold = 2; max_interval_sessions = 16 }

abbrev signals : ReflectionSignals whole
signals = record {
  sessions_since_reflection = 4;
  corrections_since_reflection = 0;
  completed_reflections = 9;
  recent_churn = 7 ∷ 1 ∷ 0 ∷ [];
}

required_interval-power_example : required_interval whole policy 9 (7 ∷ 1 ∷ 0 ∷ []) ≡ 4
required_interval-power_example = required_interval-power whole policy 9 (7 ∷ 1 ∷ 0 ∷ [])

required_interval-backoff_example : required_interval whole policy 9 (7 ∷ 1 ∷ 0 ∷ 1 ∷ []) ≡ 8
required_interval-backoff_example =
    required_interval-backoff whole policy 9 (7 ∷ 1 ∷ 0 ∷ []) 1 (omega arith)

record_reflection-trims_example :
    let s' = record_reflection whole signals 5 in
    (s'.sessions_since_reflection ≡ 0)
    × (s'.corrections_since_reflection ≡ 0)
    × (length s'.recent_churn ≤ 8)
    × (required_interval whole policy 9 s'.recent_churn
        ≡ required_interval whole policy 9 (7 ∷ 1 ∷ 0 ∷ 5 ∷ []))
record_reflection-trims_example = record_reflection-trims whole policy signals 5 9

should_reflect_iff_example :
    (should_reflect whole policy signals ≡ true)
    ↔ ((0 < 4) × ((0 < 0) ⊎ (required_interval whole policy 9 (7 ∷ 1 ∷ 0 ∷ []) ≤ 4)))
should_reflect_iff_example = should_reflect_iff whole policy signals

abbrev config : AgentConfig
config = record { system_prompt = codes "be brief"; turn_limit = 2; max_tokens = 100 }

abbrev clock_tool : Tool ℕ ℕ
clock_tool = record {
  spec = record { name = codes "clock"; description = codes "the time"; input_schema = 0 };
  run = λ w input. (ok (codes "noon"), suc w);
}

-- Asks for the clock, whatever it is told.
abbrev asks : LlmProvider ℕ ℕ
asks = record {
  complete = λ n req. (
    ok (record {
      content = unknown ∷ tool_use (codes "t1") (codes "clock") 0 ∷ [];
      stop_reason = stop_tool_use;
      usage = no_usage;
    }),
    suc n,
  );
}

run-exchange_example :
    RunMeans asks
      (register [] clock_tool)
      config
      2
      (user_text (codes "when?") ∷ [])
      0
      0
      (run asks (register [] clock_tool) config (user_text (codes "when?") ∷ []) 0 0)
run-exchange_example =
    run-exchange asks (register [] clock_tool) config (user_text (codes "when?") ∷ []) 0 0

run-turn_limit_example :
    (e : RunError) × ((run asks
        (register [] clock_tool)
        config
        (user_text (codes "when?") ∷ [])
        0
        0).0
      ≡ err e)
    × (e.source ≡ max_turns 2)
unfolding tool_uses drop_unknown
run-turn_limit_example =
    run-turn_limit asks (register [] clock_tool) config (user_text (codes "when?") ∷ []) 0 0
      (λ q req. (_, refl, refl))

-- A view in which every value reads as the section "people" with one fact.
abbrev pub one_fact : JsonView ℕ
one_fact = record {
  field = λ j name. some j;
  as_object = λ j. some ((codes "people", j) ∷ []);
  as_array = λ j. some (j ∷ []);
  as_str = λ j. some (codes "Joe is the owner");
  as_i64 = λ j. none;
}

abbrev pub rewrites : LlmProvider ℕ ℕ
rewrites = record {
  complete = λ n req. (
    ok (record {
      content = tool_use (codes "t1") (codes "write_memory") 0 ∷ [];
      stop_reason = stop_tool_use;
      usage = no_usage;
    }),
    suc n,
  );
}

abbrev pub engine : ReflectionEngine
engine = record { word_cap = 500; max_tokens = 2048 }

reflect-keeps_example :
    ReflectionMeans whole 500
      (codes "_seeds")
      (fact (codes "landscape") 0 stated ∷ [])
      (rewrites.complete 0
        (reflection_request 0 engine memory (codes "walked the east beds" ∷ []))).0
      (reflect whole one_fact rewrites 0 engine memory (codes "walked the east beds" ∷ []) 40 0).0
unfolding sitewalk.Base.TextMap.get text_eq is_internal_section
reflect-keeps_example =
    reflect-keeps whole engine memory (codes "_seeds") (fact (codes "landscape") 0 stated ∷ [])
      memory-IsOrdered refl refl one_fact rewrites 0 (codes "walked the east beds" ∷ []) 40 0

-- An input whose fields ask to remember one fact.
abbrev asks_to_remember : JsonView Text
asks_to_remember = record {
  field = λ j name.
      (if text_eq name (codes "op")
        then some (codes "remember")
        else (if text_eq name (codes "section")
            then some (codes "people")
            else (if text_eq name (codes "text") then some (codes "Ana prunes") else none)));
  as_object = λ j. none;
  as_array = λ j. none;
  as_str = λ j. some j;
  as_i64 = λ j. none;
}

-- A store that keeps every snapshot.
abbrev pub snapshots : MemoryStore (List Memory)
snapshots = record { save = λ p m. (ok tt, m ∷ p) }

abbrev memory_tool : UpdateMemoryTool
memory_tool = record { session = some (codes "s1"); word_cap = 500 }

update_memory-safe_example :
    Keeps
      (codes "_seeds")
      memory
      (update_memory snapshots asks_to_remember memory_tool 50 (memory, []) []).1.0
    × Persisted snapshots memory []
        (update_memory snapshots asks_to_remember memory_tool 50 (memory, []) []).0
        (update_memory snapshots asks_to_remember memory_tool 50 (memory, []) []).1.0
        (update_memory snapshots asks_to_remember memory_tool 50 (memory, []) []).1.1
unfolding is_internal_section
update_memory-safe_example =
    update_memory-safe snapshots (codes "_seeds") refl asks_to_remember memory_tool 50 memory [] []
      memory-IsOrdered

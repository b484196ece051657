-- ===== src/Harness/Reflection.antt =====
-- crates/harness/src/reflection/engine.rs: one reflection. The model rewrites the memory through a
-- forced tool call; the readings of its JSON input, the tool's schema and the provider are
-- parameters.
pub mod Rewrite
use sitewalk.Base.{
  ℕ, zero, suc, ◌+◌, Bool, true, false, not, ◌&&◌, Option, none, some, List, [], ◌∷◌, ◌++◌, map,
  ◌==◌, if◌then◌else◌, length, keep, any, is_empty,
}
use sitewalk.Base.Text.{Text, codes, text_eq}
use sitewalk.Base.Text.Split.{join}
use sitewalk.Base.TextMap.{TextMap, get, insert}
use sitewalk.Base.Int.{ℤ}
use sitewalk.Base.Float.{Floats}
use sitewalk.Base.Result.{Result, ok, err}
use sitewalk.Harness.Memory.{
  Memory, MemoryEntry, inferred, is_internal_section, entries, remember_from, render,
}
use sitewalk.Harness.Memory.Evict.{clamp_to_cap}
use sitewalk.Harness.Llm.{
  ContentBlock, tool_use, ToolSpec, CompletionRequest, CompletionResponse, Usage, no_usage,
  HarnessError, provider, show_nat, user_text,
}
use sitewalk.Harness.Agent.{RunError, LlmProvider}

-- The readings of `serde_json::Value` that the program uses; an object gives its entries in order.
pub record JsonView (Json : Type 0) : Type 0 where
  pub field : Json → Text → Option Json
  pub as_object : Json → Option (List (Text × Json))
  pub as_array : Json → Option (List Json)
  pub as_str : Json → Option Text
  pub as_i64 : Json → Option ℤ

abbrev pub write_memory : Text
write_memory = codes "write_memory"

pub record ReflectionEngine : Type 0 where
  pub word_cap : ℕ
  pub max_tokens : ℕ

unfoldable pub system_prompt : ℕ → Text
system_prompt word_cap =
    codes "You maintain a compact long-term memory about one user for a field-work assist"
    ++ (codes "ant. Rewrite the ENTIRE memory: keep what stays true, integrate what the recen"
        ++ (codes "t activity shows, drop what is stale or disproven. Prefer fewer, sharper facts"
            ++ (codes ". Hard limit: "
                ++ (show_nat word_cap
                    ++ (codes
                          " words total. Keep facts that survive VERBATIM, character for character — do n"
                        ++ (codes
                              "ot paraphrase them. When recent activity contradicts an existing fact, drop th"
                            ++ (codes
                                  "e stale fact and write the corrected one; never merge the two into a blended c"
                                ++ (codes
                                      "laim. Facts marked [corrected] are user corrections and outrank everything els"
                                    ++ (codes
                                          "e — do not drop or alter them. Typical sections: vocabulary, people, projects,"
                                        ++ (codes
                                              " preferences. Vocabulary terms are domain jargon that improve transcription ac"
                                            ++ (codes
                                                  "curacy — preserve them verbatim and drop a vocabulary term only if it is clear"
                                                ++ (codes
                                                      "ly a transcription artifact, not a real term. Call "
                                                    ++ (write_memory
                                                        ++ (codes
                                                            " exactly once with the full result."))))))))))))))

-- The schema is JSON.
unfoldable pub tool_spec : {Json : Type 0} → Json → ToolSpec Json
tool_spec schema = record {
  name = write_memory;
  description = codes "Write the complete updated memory. This REPLACES all sections.";
  input_schema = schema;
}

unfoldable pub has_content : TextMap (List MemoryEntry) → Bool
has_content [] = false
has_content ((name, es) ∷ m) =
    let rest = has_content m in
    if not (is_internal_section name) && not (is_empty es) then true else rest

unfoldable pub has_non_internal_content : Memory → Bool
unfolding has_content
has_non_internal_content m = has_content m.sections

unfoldable pub memory_block : Memory → Text
unfolding has_non_internal_content render
memory_block m = if has_non_internal_content m then render m true else codes "(empty)"

numbered : ℕ → List Text → List Text
numbered n [] = []
numbered n (a ∷ activity) = (show_nat (n + 1) ++ (codes ". " ++ a)) ∷ numbered (n + 1) activity

unfoldable pub activity_block : List Text → Text
unfolding numbered
activity_block activity =
    if is_empty activity then codes "(none)" else join (10 ∷ []) (numbered 0 activity)

-- The entry of a section with exactly this text.
find_prior : Text → List MemoryEntry → Option MemoryEntry
find_prior text [] = none
find_prior text (e ∷ es) =
    let rest = find_prior text es in if text_eq e.text text then some e else rest

remember_prior : Text → Text → ℕ → Option MemoryEntry → Memory → Memory
remember_prior section text now none m = remember_from m section text now inferred none
remember_prior section text now (some e) m =
    remember_from m section text e.last_touched e.source e.session

module _ {Json : Type 0} (view : JsonView Json) (current : Memory) (now : ℕ) where
  -- The strings of one section; a value that is no string is passed over.
  unfoldable pub write_texts : Text → List Json → Memory → Memory
  unfolding find_prior remember_prior
  write_texts section [] m = m
  write_texts section (t ∷ ts) m = write_texts section ts (elim (view.as_str t) [
    | none ↦ m
    | some text ↦ remember_prior section text now (find_prior text (entries current section)) m
  ])

  -- The sections in order; one that is no array is dropped.
  unfoldable pub write_sections : List (Text × Json) → Memory → Memory
  unfolding write_texts
  write_sections [] m = m
  write_sections ((section, texts) ∷ rest) m =
      write_sections rest
        (elim (view.as_array texts) [ none ↦ m | some ts ↦ write_texts section ts m ])

-- Internal sections come from the current memory, whole.
unfoldable pub carry_internal : TextMap (List MemoryEntry) → Memory → Memory
carry_internal [] m = m
carry_internal ((name, es) ∷ rest) m =
    carry_internal rest
      (if is_internal_section name then record { sections = insert name es m.sections } else m)

unfoldable pub find_write : {Json : Type 0} → List (ContentBlock Json) → Option Json
find_write [] = none
find_write (tool_use id name input ∷ bs) =
    let rest = find_write bs in if text_eq name write_memory then some input else rest
find_write (b ∷ bs) = find_write bs

-- The one message of the request.
unfoldable pub reflection_prompt : Memory → List Text → Text
unfolding memory_block activity_block
reflection_prompt current activity =
    codes "Current memory:\n"
    ++ (memory_block current
        ++ (codes "\n\nRecent activity since last reflection:\n" ++ activity_block activity))

unfoldable pub reflection_request :
    {Json : Type 0} → Json → ReflectionEngine → Memory → List Text → CompletionRequest Json
unfolding reflection_prompt system_prompt tool_spec
reflection_request schema engine current activity = record {
  system = system_prompt engine.word_cap;
  messages = user_text (reflection_prompt current activity) ∷ [];
  tools = tool_spec schema ∷ [];
  max_tokens = engine.max_tokens;
  tool_choice = some write_memory;
  cache_prefix = false;
}

pair_eq : Text × Text → Text × Text → Bool
pair_eq p q = text_eq p.0 q.0 && text_eq p.1 q.1

section_keys : Text → List MemoryEntry → List (Text × Text)
section_keys name [] = []
section_keys name (e ∷ es) = (name, e.text) ∷ section_keys name es

-- The facts outside internal sections, each once, as in a `BTreeSet`.
fact_keys : TextMap (List MemoryEntry) → List (Text × Text)
unfolding section_keys
fact_keys [] = []
fact_keys ((name, es) ∷ m) =
    let rest = fact_keys m in
    if is_internal_section name then rest else section_keys name es ++ rest

distinct : List (Text × Text) → List (Text × Text)
unfolding pair_eq
distinct [] = []
distinct (p ∷ ps) = let rest = distinct ps in if any (pair_eq p) rest then rest else p ∷ rest

difference : List (Text × Text) → List (Text × Text) → List (Text × Text)
unfolding pair_eq
difference ps qs = keep (λ p. not (any (pair_eq p) qs)) ps

module _ (fl : Floats) where
  open fl use {F32, decimal_f32, of_int_f32, div_f32}

  pub record ReflectionOutcome : Type 0 where
    pub memory : Memory
    pub churn : F32
    pub usage : Usage

  unfoldable pub churn_between : Memory → Memory → F32
  unfolding fact_keys distinct difference
  churn_between old new =
      let old_keys = distinct (fact_keys old.sections) in
      let new_keys = distinct (fact_keys new.sections) in
      let denominator = length old_keys + length new_keys in
      if denominator == 0
      then decimal_f32 0 0
      else div_f32
          (of_int_f32
            (length (difference new_keys old_keys) + length (difference old_keys new_keys)))
          (of_int_f32 denominator)

  refused : Usage → Text → Result RunError ReflectionOutcome
  refused usage message = err (record { source = provider message; usage = usage })

  -- What follows the model's rewrite: internal sections, the guard against a wipe, the cap.
  unfoldable pub settle :
      ReflectionEngine → Memory → Usage → Memory → Result RunError ReflectionOutcome
  unfolding carry_internal has_non_internal_content clamp_to_cap churn_between refused
  settle engine current usage written =
      let memory = carry_internal current.sections written in
      if has_non_internal_content current && not (has_non_internal_content memory)
      then refused usage (codes "reflection produced empty memory from non-empty input")
      else (let clamped = (clamp_to_cap memory engine.word_cap).1 in
          ok (record { memory = clamped; churn = churn_between current clamped; usage = usage }))

  module _ {Json : Type 0} (view : JsonView Json) where
    unfoldable pub read_response :
        ReflectionEngine → Memory → ℕ → CompletionResponse Json → Result RunError ReflectionOutcome
    unfolding find_write write_sections settle refused
    read_response engine current now response = elim (find_write response.content) [
      | none ↦ refused response.usage (codes "reflection response missing write_memory call")
      | some input ↦ elim (view.field input (codes "sections")) [
        | none ↦ refused response.usage (codes "write_memory call had malformed sections")
        | some value ↦ elim (view.as_object value) [
          | none ↦ refused response.usage (codes "write_memory call had malformed sections")
          | some sections ↦
              settle engine current response.usage
                (write_sections view current now sections (record { sections = [] }))
        ]
      ]
    ]

    module _ {P : Type 0} (p : LlmProvider Json P) (schema : Json) where
      unfoldable pub reflect :
          ReflectionEngine → Memory → List Text → ℕ → P → Result RunError ReflectionOutcome × P
      unfolding read_response reflection_request
      reflect engine current activity now s =
          let (reply, s') = p.complete s (reflection_request schema engine current activity) in
          elim reply [
            | err e ↦ (err (record { source = e; usage = no_usage }), s')
            | ok response ↦ (read_response engine current now response, s')
          ]

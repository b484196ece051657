-- ===== src/Harness/Llm.antt =====
-- crates/harness/src/llm.rs, error.rs and tool.rs: messages, token usage, errors and the registry
-- of tools. A JSON value is of a type that is a parameter. `W` is the world that tools act on.
use sitewalk.Base.{
  ℕ, zero, suc, ◌+◌, ◌/◌, ◌%◌, Bool, true, false, Option, none, some, List, [], ◌∷◌, ◌++◌, map,
  ◌==◌, ◌&&◌,
}
use sitewalk.Base.Text.{Text, codes}
use sitewalk.Base.TextMap.{TextMap, get, insert}
use sitewalk.Base.Result.{Result, err}
use sitewalk.Base.Words.{add_u64}

pub data Role : Type 0 where
  user assistant : Role

pub data ImageMediaType : Type 0 where
  jpeg png gif webp : ImageMediaType

pub data ImageSource : Type 0 where
  base64_image : ImageMediaType → Text → ImageSource

pub data DocumentMediaType : Type 0 where
  pdf : DocumentMediaType

pub data DocumentSource : Type 0 where
  base64_document : DocumentMediaType → Text → DocumentSource

pub record CitationsConfig : Type 0 where
  pub enabled : Bool

pub data ContentBlock (Json : Type 0) : Type 0 where
  -- text
  text_block : Text → ContentBlock Json
  -- id, name, input
  tool_use : Text → Text → Json → ContentBlock Json
  -- tool_use_id, content, is_error
  tool_result : Text → Text → Bool → ContentBlock Json
  image : ImageSource → ContentBlock Json
  -- source, title, context, citations
  document : DocumentSource → Option Text → Option Text → Option CitationsConfig → ContentBlock Json
  unknown : ContentBlock Json

pub record Message (Json : Type 0) : Type 0 where
  pub role : Role
  pub content : List (ContentBlock Json)

unfoldable pub user_text : {Json : Type 0} → Text → Message Json
user_text t = record { role = user; content = text_block t ∷ [] }

pub record ToolSpec (Json : Type 0) : Type 0 where
  pub name : Text
  pub description : Text
  pub input_schema : Json

pub record CompletionRequest (Json : Type 0) : Type 0 where
  pub system : Text
  pub messages : List (Message Json)
  pub tools : List (ToolSpec Json)
  pub max_tokens : ℕ
  pub tool_choice : Option Text
  pub cache_prefix : Bool

pub data StopReason : Type 0 where
  end_turn stop_tool_use stop_max_tokens stop_unknown : StopReason

pub record Usage : Type 0 where
  pub input_tokens : ℕ
  pub output_tokens : ℕ
  pub cache_creation_input_tokens : ℕ
  pub cache_read_input_tokens : ℕ

abbrev pub no_usage : Usage
no_usage = record {
  input_tokens = 0;
  output_tokens = 0;
  cache_creation_input_tokens = 0;
  cache_read_input_tokens = 0;
}

-- The derived equality.
abbrev pub usage_eq : Usage → Usage → Bool
usage_eq a b =
    a.input_tokens == b.input_tokens
    && (a.output_tokens == b.output_tokens
        && (a.cache_creation_input_tokens == b.cache_creation_input_tokens
            && a.cache_read_input_tokens == b.cache_read_input_tokens))

unfoldable pub add_usage : Usage → Usage → Usage
unfolding add_u64
add_usage a b = record {
  input_tokens = add_u64 a.input_tokens b.input_tokens;
  output_tokens = add_u64 a.output_tokens b.output_tokens;
  cache_creation_input_tokens = add_u64 a.cache_creation_input_tokens b.cache_creation_input_tokens;
  cache_read_input_tokens = add_u64 a.cache_read_input_tokens b.cache_read_input_tokens;
}

unfoldable pub total_input_tokens : Usage → ℕ
unfolding add_u64
total_input_tokens u =
    add_u64 (add_u64 u.input_tokens u.cache_creation_input_tokens) u.cache_read_input_tokens

pub record CompletionResponse (Json : Type 0) : Type 0 where
  pub content : List (ContentBlock Json)
  pub stop_reason : StopReason
  pub usage : Usage

pub data HarnessError : Type 0 where
  provider storage unknown_tool : Text → HarnessError
  -- name, message
  tool : Text → Text → HarnessError
  max_turns : ℕ → HarnessError

-- Decimal digits, in front of `acc`; as many rounds as the number are enough.
show_from : ℕ → ℕ → Text → Text
show_from zero n acc = acc
show_from (suc fuel) n acc = elim (n / 10 == 0) [
  | true ↦ (b'0' + n % 10) ∷ acc
  | false ↦ show_from fuel (n / 10) ((b'0' + n % 10) ∷ acc)
]

unfoldable pub show_nat : ℕ → Text
unfolding show_from
show_nat n = show_from (suc n) n []

-- `to_string`
unfoldable pub display : HarnessError → Text
unfolding show_nat
display (provider m) = codes "provider error: " ++ m
display (storage m) = codes "storage error: " ++ m
display (unknown_tool n) = codes "unknown tool: " ++ n
display (tool n m) = codes "tool '" ++ (n ++ (codes "' failed: " ++ m))
display (max_turns n) = codes "agent exceeded max turns (" ++ (show_nat n ++ codes ")")

-- `trait Tool`
pub record Tool (Json W : Type 0) : Type 0 where
  pub spec : ToolSpec Json
  pub run : W → Json → Result HarnessError Text × W

abbrev pub ToolRegistry : Type 0 → Type 0 → Type 0
ToolRegistry Json W = TextMap (Tool Json W)

module _ {Json W : Type 0} where
  unfoldable pub register : ToolRegistry Json W → Tool Json W → ToolRegistry Json W
  register r t = insert t.spec.name t r

  unfoldable pub specs : ToolRegistry Json W → List (ToolSpec Json)
  specs r = map (λ (e : Text × Tool Json W). e.1.spec) r

  execute_in : Option (Tool Json W) → Text → Json → W → Result HarnessError Text × W
  execute_in none name input w = (err (unknown_tool name), w)
  execute_in (some t) name input w = t.run w input

  unfoldable pub execute : ToolRegistry Json W → Text → Json → W → Result HarnessError Text × W
  unfolding execute_in
  execute r name input w = execute_in (get name r) name input w

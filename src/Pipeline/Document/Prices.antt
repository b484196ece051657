-- ===== src/Pipeline/Document/Prices.antt =====
-- crates/murmur-core/src/pipeline/document.rs: the pricing pass. A build never has a spoken total to
-- hint at, so the request has none; the tool's schema is a parameter.
pub mod Offers
pub mod Reply
use sitewalk.Base.{
  ℕ, zero, suc, Bool, true, false, not, ◌&&◌, Option, none, some, List, [], ◌∷◌, ◌++◌, map,
  if◌then◌else◌,
}
use sitewalk.Base.Text.{Text, codes, text_eq}
use sitewalk.Base.Text.Split.{join}
use sitewalk.Base.TextMap.{TextMap, get, insert}
use sitewalk.Base.Int.{ℤ, pos, negsuc}
use sitewalk.Base.Result.{Result, ok, err}
use sitewalk.Harness.Llm.{
  ContentBlock, tool_use, ToolSpec, CompletionRequest, CompletionResponse, Usage, add_usage,
  HarnessError, provider, user_text,
}
use sitewalk.Harness.Agent.{LlmProvider}
use sitewalk.Harness.Reflection.{JsonView}
use sitewalk.Store.Domain.{CapturedItem}
use sitewalk.Store.Schemas.Validate.{is_blank}
use sitewalk.Pipeline.SpokenPrice.Label.{member}
use sitewalk.Pipeline.Notes.{str_of}
use sitewalk.Pipeline.Document.Prompts.{price_system}

abbrev pub price_items_tool : Text
price_items_tool = codes "price_items"

unfoldable pub price_items_tool_spec : {Json : Type 0} → Json → ToolSpec Json
price_items_tool_spec schema = record {
  name = price_items_tool;
  description =
      codes "Attach a price to each item that should carry one. You may price only items "
      ++ codes
          "from the given list, by their exact item_id — you cannot add, rename, or drop items.";
  input_schema = schema;
}

unfoldable pub format_item : CapturedItem → Text
format_item i =
    codes "- ["
    ++ (i.kind ++ (codes "] " ++ (i.text ++ (codes " (item_id: " ++ (i.id ++ codes ")")))))

unfoldable pub format_pricing_items : List CapturedItem → Text
unfolding format_item
format_pricing_items items = join (10 ∷ []) (map format_item items)

unfoldable pub price_memory_block : Text → Text
price_memory_block memory_prompt =
    if is_blank memory_prompt
    then []
    else codes "\n\nWhat you know about this user:\n" ++ memory_prompt

unfoldable pub price_request :
    {Json : Type 0} → Json → List CapturedItem → Text → ℕ → CompletionRequest Json
unfolding price_items_tool_spec format_pricing_items price_memory_block price_system
price_request schema items memory_prompt max_tokens = record {
  system = price_system (price_memory_block memory_prompt);
  messages = user_text (codes "Price these items.\n\n" ++ format_pricing_items items) ∷ [];
  tools = price_items_tool_spec schema ∷ [];
  max_tokens = max_tokens;
  tool_choice = some price_items_tool;
  cache_prefix = false;
}

-- The input of the first call of a tool.
unfoldable pub find_call : {Json : Type 0} → Text → List (ContentBlock Json) → Option Json
find_call tool [] = none
find_call tool (tool_use id name input ∷ bs) =
    let rest = find_call tool bs in if text_eq name tool then some input else rest
find_call tool (b ∷ bs) = find_call tool bs

-- `amount > 0`
abbrev pub positive : ℤ → Option ℕ
positive (pos zero) = none
positive (pos (suc n)) = some (suc n)
positive (negsuc n) = none

pub is_priced : Text → TextMap ℕ → Bool
is_priced id prices = elim (get id prices) [ none ↦ false | some c ↦ true ]

-- An amount for a known item that has none yet.
unfoldable pub take_price : List Text → Text → Option ℕ → TextMap ℕ → TextMap ℕ
unfolding is_priced
take_price ids id none prices = prices
take_price ids id (some amount) prices =
    if member ids id && not (is_priced id prices) then insert id amount prices else prices

module _ {Json : Type 0} (view : JsonView Json) where
  unfoldable pub read_price : List Text → Json → TextMap ℕ → TextMap ℕ
  unfolding take_price
  read_price ids p prices = elim (str_of view p (codes "item_id")) [
    | none ↦ prices
    | some id ↦ elim (view.field p (codes "amount_cents")) [
      | none ↦ prices
      | some v ↦ elim (view.as_i64 v) [
        | none ↦ prices
        | some amount ↦ take_price ids id (positive amount) prices
      ]
    ]
  ]

  unfoldable pub read_prices : List Text → List Json → TextMap ℕ → TextMap ℕ
  unfolding read_price
  read_prices ids [] prices = prices
  read_prices ids (p ∷ ps) prices = read_prices ids ps (read_price ids p prices)

  unfoldable pub parse_prices : List Text → Json → TextMap ℕ
  unfolding read_prices
  parse_prices ids input = elim (view.field input (codes "prices")) [
    | none ↦ []
    | some v ↦ elim (view.as_array v) [ none ↦ [] | some ps ↦ read_prices ids ps [] ]
  ]

  unfoldable pub read_pricing :
      List CapturedItem → CompletionResponse Json → Result HarnessError (TextMap ℕ)
  unfolding find_call parse_prices
  read_pricing items response = elim (find_call price_items_tool response.content) [
    | none ↦ err (provider (codes "price_items response missing price_items call"))
    | some input ↦ ok (parse_prices (map (λ (i : CapturedItem). i.id) items) input)
  ]

  module _ {P : Type 0} (p : LlmProvider Json P) (schema : Json) where
    -- The prices, the usage with that of a reply added, and the provider.
    unfoldable pub price_items :
        List CapturedItem → Text → ℕ → Usage → P → Result HarnessError (TextMap ℕ) × Usage × P
    unfolding price_request read_pricing
    price_items items memory_prompt max_tokens usage s =
        let (reply, s') = p.complete s (price_request schema items memory_prompt max_tokens) in
        elim reply [
          | err e ↦ (err e, usage, s')
          | ok response ↦ (read_pricing items response, add_usage usage response.usage, s')
        ]

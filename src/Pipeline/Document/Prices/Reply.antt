-- ===== src/Pipeline/Document/Prices/Reply.antt =====
-- crates/murmur-core/src/pipeline/document.rs: the price that a reply of the model names for an item,
-- said directly, and the reading of a reply by the pricing pass.
use sitewalk.Base.{
  ℕ, ◌≡◌, refl, ap, ◌∙◌, Bool, true, false, Option, none, some, List, [], ◌∷◌, Bool-cases,
  Option-cases, arith, inl, inr, if◌then◌else◌, ltb, zero, suc,
}
use sitewalk.Base.Text.{Text, codes, text_eq, text_eq_iff}
use sitewalk.Base.TextMap.{TextMap, get, get-insert}
use sitewalk.Base.Int.{ℤ, pos, negsuc}
use sitewalk.Base.Result.{Result, ok, err, Result-cases}
use sitewalk.Harness.Llm.{
  ContentBlock, text_block, tool_use, tool_result, image, document, unknown, CompletionResponse,
  Usage, HarnessError,
}
use sitewalk.Harness.Agent.{LlmProvider}
use sitewalk.Harness.Reflection.{JsonView}
use sitewalk.Store.Domain.{CapturedItem}
use sitewalk.Pipeline.SpokenPrice.Label.{member}
use sitewalk.Pipeline.SpokenPrice.Kept.{item_ids}
use sitewalk.Pipeline.Notes.{str_of}
use sitewalk.Pipeline.Document.Prices.{
  positive, take_price, is_priced, read_price, read_prices, parse_prices, read_pricing, price_items,
  find_call, price_items_tool, price_request,
}

abbrev pub or_else : Option ℕ → Option ℕ → Option ℕ
or_else none b = b
or_else (some a) b = some a

abbrev pub above_zero : ℤ → Option ℕ
above_zero (pos n) = if ltb 0 n then some n else none
above_zero (negsuc n) = none

positive-above_zero : (z : ℤ) → positive z ≡ above_zero z
positive-above_zero (pos zero) = refl
positive-above_zero (pos (suc n)) = ground arith
positive-above_zero (negsuc n) = refl

-- An amount, kept only where a flag is up.
abbrev pub only_if : Bool → Option ℕ → Option ℕ
only_if true o = o
only_if false o = none

nothing : (o : Option ℕ) (f : Bool) → o ≡ or_else o (only_if f none)
nothing none true = refl
nothing none false = refl
nothing (some a) f = refl

nothing_at : (o : Option ℕ) (f g : Bool) → o ≡ or_else o (only_if f (only_if g none))
nothing_at o f true = nothing o f
nothing_at o f false = nothing o f

or_else-only_if :
    (a b c : Option ℕ) (f : Bool)
    → or_else (or_else a (only_if f b)) (only_if f c) ≡ or_else a (only_if f (or_else b c))
or_else-only_if (some a) b c f = refl
or_else-only_if none b c true = refl
or_else-only_if none b c false = refl

take_price-get :
    (ids : List Text) (id k : Text) (o : Option ℕ) (prices : TextMap ℕ)
    → get k (take_price ids id o prices)
      ≡ or_else (get k prices) (only_if (member ids k) (only_if (text_eq id k) o))
unfolding take_price
take_price-get ids id k none prices = ground (arith)
take_price-get ids id k (some a) prices =
    ground (arith, get-insert id k a prices, text_eq_iff id k, is_priced)

module _ {Json : Type 0} (view : JsonView Json) where
  -- The amount above zero that an entry of the reply names.
  unfoldable pub cents_in : Json → Option ℕ
  cents_in p = elim (view.field p (codes "amount_cents")) [
    | none ↦ none
    | some v ↦ elim (view.as_i64 v) [ none ↦ none | some z ↦ above_zero z ]
  ]

  -- What an entry offers for this item.
  unfoldable pub price_in : Text → Json → Option ℕ
  unfolding cents_in
  price_in k p = elim (str_of view p (codes "item_id")) [
    | none ↦ none
    | some id ↦ only_if (text_eq id k) (cents_in p)
  ]

  unfoldable pub first_price : Text → List Json → Option ℕ
  first_price k [] = none
  first_price k (p ∷ ps) = or_else (price_in k p) (first_price k ps)

  -- The entries of the first call of the tool, if it lists any.
  entries_in : Json → List Json
  entries_in input = elim (view.field input (codes "prices")) [
    | none ↦ []
    | some v ↦ elim (view.as_array v) [ none ↦ [] | some ps ↦ ps ]
  ]

  unfoldable pub price_list : List (ContentBlock Json) → List Json
  unfolding entries_in
  price_list [] = []
  price_list (tool_use id name input ∷ bs) =
      let rest = price_list bs in if text_eq name price_items_tool then entries_in input else rest
  price_list (b ∷ bs) = price_list bs

  unfoldable pub replied_list : Result HarnessError (CompletionResponse Json) → List Json
  unfolding price_list
  replied_list (err e) = []
  replied_list (ok response) = price_list response.content

  read_price-get :
      (ids : List Text) (p : Json) (prices : TextMap ℕ) (k : Text)
      → get k (read_price view ids p prices)
        ≡ or_else (get k prices) (only_if (member ids k) (price_in k p))
  unfolding read_price price_in cents_in
  read_price-get ids p prices k = elim (Option-cases (str_of view p (codes "item_id"))) [
    | inl e ↦ rw (e, read_price, price_in, cents_in) (nothing (get k prices) (member ids k))
    | inr (id, e) ↦ elim (Option-cases (view.field p (codes "amount_cents"))) [
      | inl f ↦
          rw (e, f, read_price, price_in, cents_in)
            (nothing_at (get k prices) (member ids k) (text_eq id k))
      | inr (v, f) ↦ elim (Option-cases (view.as_i64 v)) [
        | inl g ↦
            rw (e, f, g, read_price, price_in, cents_in)
              (nothing_at (get k prices) (member ids k) (text_eq id k))
        | inr (z, g) ↦
            rw (e, f, g, read_price, price_in, cents_in)
              (take_price-get ids id k (positive z) prices
                ∙ ap
                    (λ o.
                      or_else (get k prices) (only_if (member ids k) (only_if (text_eq id k) o)))
                    (positive-above_zero z))
      ]
    ]
  ]

  read_prices-get :
      (ids : List Text) (ps : List Json) (prices : TextMap ℕ) (k : Text)
      → get k (read_prices view ids ps prices)
        ≡ or_else (get k prices) (only_if (member ids k) (first_price k ps))
  unfolding read_prices first_price
  read_prices-get ids [] prices k = nothing (get k prices) (member ids k)
  read_prices-get ids (p ∷ ps) prices k =
      read_prices-get ids ps (read_price view ids p prices) k
      ∙ ap (λ o. or_else o (only_if (member ids k) (first_price k ps)))
          (read_price-get ids p prices k)
      ∙ or_else-only_if (get k prices) (price_in k p) (first_price k ps) (member ids k)

  -- The list behind the first call, if there is one.
  listed : Option Json → List Json
  unfolding entries_in
  listed none = []
  listed (some input) = entries_in input

  price_list-find_call :
      (bs : List (ContentBlock Json)) → price_list bs ≡ listed (find_call price_items_tool bs)
  unfolding price_list find_call listed entries_in
  price_list-find_call [] = refl
  price_list-find_call (text_block t ∷ bs) = price_list-find_call bs
  price_list-find_call (tool_use id name input ∷ bs) =
      elim (Bool-cases (text_eq name price_items_tool)) [
        | inl e ↦ rw e refl
        | inr e ↦ rw e (price_list-find_call bs)
      ]
  price_list-find_call (tool_result id content e ∷ bs) = price_list-find_call bs
  price_list-find_call (image i ∷ bs) = price_list-find_call bs
  price_list-find_call (document d t c q ∷ bs) = price_list-find_call bs
  price_list-find_call (unknown ∷ bs) = price_list-find_call bs

  parse_prices-get :
      (ids : List Text) (input : Json) (k : Text)
      → get k (parse_prices view ids input)
        ≡ only_if (member ids k) (first_price k (entries_in input))
  unfolding parse_prices entries_in first_price get
  parse_prices-get ids input k = elim (Option-cases (view.field input (codes "prices"))) [
    | inl e ↦ rw (e, parse_prices, entries_in) (nothing none (member ids k))
    | inr (v, e) ↦ elim (Option-cases (view.as_array v)) [
      | inl f ↦ rw (e, f, parse_prices, entries_in) (nothing none (member ids k))
      | inr (ps, f) ↦ rw (e, f, parse_prices, entries_in) (read_prices-get ids ps [] k)
    ]
  ]

  -- The prices that the pass is left with, without those of a failure.
  abbrev pub taken : Result HarnessError (TextMap ℕ) → TextMap ℕ
  taken (ok prices) = prices
  taken (err e) = []

  read_pricing-get :
      (items : List CapturedItem) (response : CompletionResponse Json) (k : Text)
      → get k (taken (read_pricing view items response))
        ≡ only_if (member (item_ids items) k) (first_price k (price_list response.content))
  unfolding read_pricing listed get first_price
  read_pricing-get items response k =
      elim (Option-cases (find_call price_items_tool response.content)) [
        | inl e ↦
            rw (price_list-find_call response.content, e, read_pricing, listed)
              (nothing none (member (item_ids items) k))
        | inr (input, e) ↦
            rw (price_list-find_call response.content, e, read_pricing, listed)
              (parse_prices-get (item_ids items) input k)
      ]

  pub price_items-get :
      {P : Type 0} (p : LlmProvider Json P) (schema : Json) (items : List CapturedItem)
      (memory_prompt : Text) (max_tokens : ℕ) (usage : Usage) (s : P) (k : Text)
      → get k (taken (price_items view p schema items memory_prompt max_tokens usage s).0)
        ≡ only_if (member (item_ids items) k) (
            first_price k
              (replied_list (p.complete s (price_request schema items memory_prompt max_tokens)).0))
  unfolding price_items replied_list get first_price
  price_items-get p schema items memory_prompt max_tokens usage s k =
      elim (Result-cases (p.complete s (price_request schema items memory_prompt max_tokens)).0) [
        | inl (response, e) ↦ rw (e, price_items, replied_list) (read_pricing-get items response k)
        | inr (x, e) ↦ rw (e, price_items, replied_list) (nothing none (member (item_ids items) k))
      ]

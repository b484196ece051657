-- ===== src/Pipeline/Document/Prices/Offers.antt =====
-- crates/murmur-core/src/pipeline/document.rs: what the pricing pass takes over from a reply.
use sitewalk.Base.{
  ℕ, zero, suc, ◌≤◌, ◌≡◌, refl, sym, ◌∙◌, true, some, List, [], ◌∷◌, Bool-cases, Option-cases,
  arith, inl, inr,
}
use mathlib.Core.Path.{subst}
use sitewalk.Base.Text.{Text, codes, text_eq, text_eq_iff}
use sitewalk.Base.TextMap.{TextMap, get, insert, get-insert}
use sitewalk.Base.Int.{ℤ, pos, negsuc}
use sitewalk.Base.Result.{ok, err, Result-cases, ok-injective}
use sitewalk.Harness.Llm.{provider, Usage, CompletionResponse}
use sitewalk.Harness.Agent.{LlmProvider}
use sitewalk.Harness.Reflection.{JsonView}
use sitewalk.Store.Domain.{CapturedItem}
use sitewalk.Pipeline.SpokenPrice.Label.{member}
use sitewalk.Pipeline.SpokenPrice.Kept.{item_ids}
use sitewalk.Pipeline.Notes.{str_of}
use sitewalk.Pipeline.Document.Prices.{
  positive, take_price, is_priced, read_price, read_prices, parse_prices, read_pricing, price_items,
  find_call, price_items_tool, price_request,
}

-- Prices above zero, for some of these ids.
abbrev pub IsOffer : List Text → TextMap ℕ → Type 0
IsOffer ids prices = (k : Text) (a : ℕ) → get k prices ≡ some a → (1 ≤ a) × (member ids k ≡ true)

positive-some : (z : ℤ) (a : ℕ) → positive z ≡ some a → 1 ≤ a
positive-some (pos zero) a h = absurd (ground (arith, h))
positive-some (pos (suc n)) a h = ground (arith, h)
positive-some (negsuc n) a h = absurd (ground (arith, h))

insert-IsOffer :
    (ids : List Text) (id : Text) (amount : ℕ) (prices : TextMap ℕ)
    → 1 ≤ amount
    → member ids id ≡ true
    → IsOffer ids prices
    → IsOffer ids (insert id amount prices)
insert-IsOffer ids id amount prices more known h k a e = elim (Bool-cases (text_eq id k)) [
  | inl f ↦
      let same = (text_eq_iff id k).0 f in
      let amounts = get-insert id k amount prices in
      (ground (arith, amounts, e, f, more), subst (λ j. member ids j ≡ true) same known)
  | inr f ↦ let amounts = get-insert id k amount prices in h k a (ground (arith, amounts, e, f))
]

take_price-IsOffer :
    (ids : List Text) (id : Text) (z : ℤ) (prices : TextMap ℕ)
    → IsOffer ids prices
    → IsOffer ids (take_price ids id (positive z) prices)
unfolding take_price
take_price-IsOffer ids id z prices h = elim (Option-cases (positive z)) [
  | inl e ↦ rw (e, take_price) h
  | inr (a, e) ↦ elim (Bool-cases (member ids id)) [
    | inr f ↦ rw (e, f, take_price) h
    | inl f ↦ elim (Bool-cases (is_priced id prices)) [
      | inl g ↦ rw (e, f, g, take_price) h
      | inr g ↦ rw (e, f, g, take_price) (insert-IsOffer ids id a prices (positive-some z a e) f h)
    ]
  ]
]

module _ {Json : Type 0} (view : JsonView Json) where
  read_price-IsOffer :
      (ids : List Text) (p : Json) (prices : TextMap ℕ)
      → IsOffer ids prices
      → IsOffer ids (read_price view ids p prices)
  unfolding read_price
  read_price-IsOffer ids p prices h = elim (Option-cases (str_of view p (codes "item_id"))) [
    | inl e ↦ rw (e, read_price) h
    | inr (id, e) ↦ elim (Option-cases (view.field p (codes "amount_cents"))) [
      | inl f ↦ rw (e, f, read_price) h
      | inr (v, f) ↦ elim (Option-cases (view.as_i64 v)) [
        | inl g ↦ rw (e, f, g, read_price) h
        | inr (z, g) ↦ rw (e, f, g, read_price) (take_price-IsOffer ids id z prices h)
      ]
    ]
  ]

  read_prices-IsOffer :
      (ids : List Text) (ps : List Json) (prices : TextMap ℕ)
      → IsOffer ids prices
      → IsOffer ids (read_prices view ids ps prices)
  unfolding read_prices
  read_prices-IsOffer ids [] prices h = h
  read_prices-IsOffer ids (p ∷ ps) prices h =
      read_prices-IsOffer ids ps (read_price view ids p prices) (read_price-IsOffer ids p prices h)

  pub no_prices-IsOffer : (ids : List Text) → IsOffer ids []
  unfolding get
  no_prices-IsOffer ids k a e = absurd (ground (arith, e))

  parse_prices-IsOffer :
      (ids : List Text) (input : Json) → IsOffer ids (parse_prices view ids input)
  unfolding parse_prices
  parse_prices-IsOffer ids input = elim (Option-cases (view.field input (codes "prices"))) [
    | inl e ↦ rw (e, parse_prices) (no_prices-IsOffer ids)
    | inr (v, e) ↦ elim (Option-cases (view.as_array v)) [
      | inl f ↦ rw (e, f, parse_prices) (no_prices-IsOffer ids)
      | inr (ps, f) ↦
          rw (e, f, parse_prices) (read_prices-IsOffer ids ps [] (no_prices-IsOffer ids))
    ]
  ]

  read_pricing-IsOffer :
      (items : List CapturedItem) (response : CompletionResponse Json) (prices : TextMap ℕ)
      → read_pricing view items response ≡ ok prices
      → IsOffer (item_ids items) prices
  unfolding read_pricing
  read_pricing-IsOffer items response prices h =
      elim (Option-cases (find_call price_items_tool response.content)) [
        | inl e ↦ absurd (
            let g : err (provider (codes "price_items response missing price_items call"))
                ≡ ok prices =
              sym (rw (e, read_pricing) refl) ∙ h in
            cc)
        | inr (input, e) ↦
            let g : ok (parse_prices view (item_ids items) input) ≡ ok prices =
              sym (rw (e, read_pricing) refl) ∙ h in
            subst (IsOffer (item_ids items)) (ok-injective g)
              (parse_prices-IsOffer (item_ids items) input)
      ]

  pub price_items-IsOffer :
      {P : Type 0} (p : LlmProvider Json P) (schema : Json) (items : List CapturedItem)
      (memory_prompt : Text) (max_tokens : ℕ) (usage : Usage) (s : P) (prices : TextMap ℕ)
      → (price_items view p schema items memory_prompt max_tokens usage s).0 ≡ ok prices
      → IsOffer (item_ids items) prices
  unfolding price_items
  price_items-IsOffer p schema items memory_prompt max_tokens usage s prices h =
      elim (Result-cases (p.complete s (price_request schema items memory_prompt max_tokens)).0) [
        | inl (response, e) ↦
            let run : (price_items view p schema items memory_prompt max_tokens usage s).0
                ≡ read_pricing view items response =
              rw (e, price_items) refl in
            read_pricing-IsOffer items response prices (sym run ∙ h)
        | inr (x, e) ↦
            let run : (price_items view p schema items memory_prompt max_tokens usage s).0 ≡ err x =
              rw (e, price_items) refl in
            absurd (let g : ok prices ≡ err x = sym h ∙ run in cc)
      ]

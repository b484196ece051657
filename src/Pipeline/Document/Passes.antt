-- ===== src/Pipeline/Document/Passes.antt =====
-- crates/murmur-core/src/pipeline/document.rs: the lines that both passes leave, seen from the items.
use sitewalk.Base.{
  ℕ, suc, ◌≡◌, refl, sym, ap, ◌∙◌, Bool, true, false, not, ◌&&◌, Option, none, some, List, [], ◌∷◌,
  map, keep, is_empty, Bool-cases, Option-cases, arith, inl, inr,
}
use mathlib.Core.Path.{subst}
use sitewalk.Base.Text.{Text, text_eq, text_eq_iff}
use sitewalk.Base.TextMap.{TextMap, get}
use sitewalk.Base.Result.{Result, ok, err}
use sitewalk.Base.Members.{AreDistinct}
use sitewalk.Harness.Llm.{HarnessError, Usage}
use sitewalk.Store.Domain.{CapturedItem}
use sitewalk.Store.Domain.Documents.{DocumentSchema}
use sitewalk.Pipeline.SpokenPrice.Label.{member}
use sitewalk.Pipeline.SpokenPrice.Kept.{item_ids}
use sitewalk.Pipeline.SpokenPrice.{FoldedPrices}
use sitewalk.Pipeline.Document.Lines.{DocumentLine, render_lines, per_pricing_kind}
use sitewalk.Pipeline.Document.Lines.Priced.{
  line_ids, price_line, price_line-none, price_line-some, with_amount, apply_prices-map, bare,
}
use sitewalk.Pipeline.Document.Prices.{price_items, price_request}
use sitewalk.Pipeline.Document.Prices.Offers.{IsOffer, price_items-IsOffer, no_prices-IsOffer}
use sitewalk.Pipeline.Document.Prices.Reply.{
  only_if, first_price, replied_list, taken, price_items-get,
}
use sitewalk.Pipeline.Document.{
  Work, DocumentBuilder, is_priced_schema, unpriced_items, has_amount, after_prices, price_pass,
}

abbrev pub outranking : Option ℕ → Option ℕ → Option ℕ
outranking none offered = offered
outranking (some cents) offered = some cents

abbrev pub is_missing : Option ℕ → Bool
is_missing none = true
is_missing (some cents) = false

abbrev pub amount_on : TextMap ℕ → TextMap ℕ → CapturedItem → Option ℕ
amount_on said offered i = outranking (get i.id said) (get i.id offered)

-- The line of an item: its title is the item's text, its amount what was said or else what was
-- offered, and it is a gap if amounts are due and it has none.
unfoldable pub expected_line : Text → TextMap ℕ → TextMap ℕ → Bool → CapturedItem → DocumentLine
expected_line id said offered due i = record {
  id = id;
  title = i.text;
  detail = [];
  qty = i.right;
  amount_cents = amount_on said offered i;
  is_gap = due && is_missing (amount_on said offered i);
  item_id = i.id;
  assignee = none;
}

-- One line for each item, in their order.
unfoldable pub expected_lines :
    (ℕ → Text) → ℕ → TextMap ℕ → TextMap ℕ → Bool → List CapturedItem → List DocumentLine
expected_lines fresh n said offered due [] = []
expected_lines fresh n said offered due (i ∷ items) =
    expected_line (fresh n) said offered due i ∷ expected_lines fresh (suc n) said offered due items

pub line_ids-render_lines :
    (fresh : ℕ → Text) (n : ℕ) (items : List CapturedItem) (due : Bool)
    → line_ids (render_lines fresh n items per_pricing_kind due) ≡ item_ids items
unfolding render_lines
line_ids-render_lines fresh n [] due = refl
line_ids-render_lines fresh n (i ∷ items) due =
    ap (λ ks. i.id ∷ ks) (line_ids-render_lines fresh (suc n) items due)

-- No price is offered where one was said.
abbrev pub IsApart : TextMap ℕ → TextMap ℕ → Type 0
IsApart said offered = (k : Text) (a : ℕ) → get k offered ≡ some a → get k said ≡ none

abbrev new_line : Text → Bool → CapturedItem → DocumentLine
new_line id due i = record {
  id = id;
  title = i.text;
  detail = [];
  qty = i.right;
  amount_cents = none;
  is_gap = due;
  item_id = i.id;
  assignee = none;
}

expected_line-none :
    (id : Text) (said offered : TextMap ℕ) (due : Bool) (i : CapturedItem)
    → get i.id said ≡ none
    → get i.id offered ≡ none
    → new_line id due i ≡ expected_line id said offered due i
unfolding expected_line
expected_line-none id said offered true i e f = rw (e, f) refl
expected_line-none id said offered false i e f = rw (e, f) refl

expected_line-some :
    (id : Text) (said offered : TextMap ℕ) (due : Bool) (i : CapturedItem) (a : ℕ)
    → amount_on said offered i ≡ some a
    → with_amount a (new_line id due i) ≡ expected_line id said offered due i
unfolding expected_line
expected_line-some id said offered true i a e = rw e refl
expected_line-some id said offered false i a e = rw e refl

prices-expected_line :
    (id : Text) (said offered : TextMap ℕ) (due : Bool) (i : CapturedItem)
    → IsApart said offered
    → price_line offered (price_line said (new_line id due i)) ≡ expected_line id said offered due i
prices-expected_line id said offered due i apart =
    let l = new_line id due i in
    elim (Option-cases (get i.id said)) [
      | inl e ↦ elim (Option-cases (get i.id offered)) [
        | inl f ↦
            ap (price_line offered) (price_line-none said l e)
            ∙ price_line-none offered l f
            ∙ expected_line-none id said offered due i e f
        | inr (a, f) ↦
            ap (price_line offered) (price_line-none said l e)
            ∙ price_line-some offered l a f
            ∙ expected_line-some id said offered due i a
                (ap (λ o. outranking o (get i.id offered)) e ∙ f)
      ]
      | inr (a, e) ↦ elim (Option-cases (get i.id offered)) [
        | inl f ↦
            ap (price_line offered) (price_line-some said l a e)
            ∙ price_line-none offered (with_amount a l) f
            ∙ expected_line-some id said offered due i a
                (ap (λ o. outranking o (get i.id offered)) e)
        | inr (b, f) ↦ absurd (let g = apart i.id b f in cc)
      ]
    ]

pub prices-expected_lines :
    (fresh : ℕ → Text) (n : ℕ) (said offered : TextMap ℕ) (due : Bool) (items : List CapturedItem)
    → IsApart said offered
    → map
        (price_line offered)
        (map (price_line said) (render_lines fresh n items per_pricing_kind due))
      ≡ expected_lines fresh n said offered due items
unfolding render_lines expected_lines
prices-expected_lines fresh n said offered due [] apart = refl
prices-expected_lines fresh n said offered due (i ∷ items) apart =
    ap
      (λ l.
        l
        ∷ map (price_line offered)
            (map (price_line said) (render_lines fresh (suc n) items per_pricing_kind due)))
      (prices-expected_line (fresh n) said offered due i apart)
    ∙ ap (λ ls. expected_line (fresh n) said offered due i ∷ ls)
        (prices-expected_lines fresh (suc n) said offered due items apart)

pub bare-expected_lines :
    (fresh : ℕ → Text) (n : ℕ) (said offered : TextMap ℕ) (due : Bool) (items : List CapturedItem)
    → map bare (expected_lines fresh n said offered due items)
      ≡ expected_lines fresh n said offered due items
unfolding expected_lines expected_line
bare-expected_lines fresh n said offered due [] = refl
bare-expected_lines fresh n said offered due (i ∷ items) =
    ap (λ ls. expected_line (fresh n) said offered due i ∷ ls)
      (bare-expected_lines fresh (suc n) said offered due items)

-- An item that the model may price has no price of its own.
unpriced-none :
    (amounts : TextMap ℕ) (items : List CapturedItem) (k : Text)
    → member (item_ids (keep (λ i. not (has_amount amounts i)) items)) k ≡ true
    → get k amounts ≡ none
unfolding has_amount
unpriced-none amounts [] k h = absurd (ground (arith, h))
unpriced-none amounts (i ∷ items) k h = elim (Option-cases (get i.id amounts)) [
  | inr (a, e) ↦ unpriced-none amounts items k (rw (e, has_amount) at h)
  | inl e ↦ elim (Bool-cases (text_eq k i.id)) [
    | inl f ↦ subst (λ j. get j amounts ≡ none) (sym ((text_eq_iff k i.id).0 f)) e
    | inr f ↦ unpriced-none amounts items k (rw (e, f, has_amount) at h)
  ]
]

pub offered-IsApart :
    (folded : FoldedPrices) (offered : TextMap ℕ)
    → IsOffer (item_ids (unpriced_items folded)) offered
    → IsApart folded.amounts offered
unfolding unpriced_items
offered-IsApart folded offered h k a e = unpriced-none folded.amounts folded.items k (h k a e).1

left_true : (a b : Bool) → (a && b) ≡ true → a ≡ true
left_true true b h = refl
left_true false b h = h

no_items : (items : List CapturedItem) → is_empty items ≡ true → items ≡ []
no_items [] h = refl
no_items (i ∷ items) h = absurd (cc h)

module _ {Json P : Type 0} (b : DocumentBuilder Json P) (schema : DocumentSchema)
    (folded : FoldedPrices) where
  abbrev pub offerable : List Text
  offerable = item_ids (unpriced_items folded)

  map-no_prices : (ls : List DocumentLine) → map (price_line []) ls ≡ ls
  unfolding price_line get
  map-no_prices [] = refl
  map-no_prices (l ∷ ls) = ap (λ ks. l ∷ ks) (map-no_prices ls)

  -- For each item, the offer is the first amount above zero that the reply of the model to the
  -- request for prices names for it, if the document has amounts and the item has no price that was
  -- said. A reply that fails or does not call the tool names none.
  abbrev pub Offers : Text → P → TextMap ℕ → Type 0
  Offers memory_prompt p offered =
      let request =
        price_request b.price_schema (unpriced_items folded) memory_prompt b.max_tokens in
      (k : Text)
      → get k offered
        ≡ only_if (is_priced_schema schema) (
            only_if (member offerable k)
              (first_price b.view k (replied_list b.view (b.model.complete p request).0)))

  after_prices-lines :
      (w : Work P) (r : Result HarnessError (TextMap ℕ)) (usage : Usage) (p : P)
      → AreDistinct (line_ids w.lines)
      → (after_prices b w (r, usage, p)).lines ≡ map (price_line (taken b.view r)) w.lines
  unfolding after_prices
  after_prices-lines w (ok prices) usage p d = apply_prices-map prices w.lines d
  after_prices-lines w (err e) usage p d = sym (map-no_prices w.lines)

  taken-IsOffer :
      (r : Result HarnessError (TextMap ℕ))
      → ((prices : TextMap ℕ) → r ≡ ok prices → IsOffer offerable prices)
      → IsOffer offerable (taken b.view r)
  taken-IsOffer (ok prices) h = h prices refl
  taken-IsOffer (err e) h = no_prices-IsOffer b.view offerable

  not_asked :
      (k : Text) (o : Option ℕ)
      → (is_priced_schema schema && not (is_empty (unpriced_items folded))) ≡ false
      → none ≡ only_if (is_priced_schema schema) (only_if (member offerable k) o)
  not_asked k o h = elim (Bool-cases (is_priced_schema schema)) [
    | inr e ↦ rw e refl
    | inl e ↦ elim (Bool-cases (is_empty (unpriced_items folded))) [
      | inr f ↦ absurd (ground (arith, e, f, h))
      | inl f ↦ rw (e, no_items (unpriced_items folded) f) refl
    ]
  ]

  pub price_pass-offered :
      (memory_prompt : Text) (w : Work P)
      → AreDistinct (line_ids w.lines)
      → (offered : TextMap ℕ) × IsOffer offerable offered
        × Offers memory_prompt w.provider offered
        × ((price_pass b schema folded memory_prompt w).lines ≡ map (price_line offered) w.lines)
  unfolding price_pass get first_price
  price_pass-offered memory_prompt w d =
      let reply =
        price_items b.view b.model b.price_schema (unpriced_items folded) memory_prompt b.max_tokens
          w.usage w.provider in
      elim (Bool-cases (is_priced_schema schema && not (is_empty (unpriced_items folded)))) [
        | inl e ↦ (
          taken b.view reply.0,
          taken-IsOffer reply.0 (λ prices h.
              price_items-IsOffer b.view b.model b.price_schema (unpriced_items folded)
                memory_prompt b.max_tokens w.usage w.provider prices h),
          (λ k. rw (left_true (is_priced_schema schema) _ e) (
              price_items-get b.view b.model b.price_schema (unpriced_items folded) memory_prompt
                b.max_tokens w.usage w.provider k)),
          rw (e, price_pass) (after_prices-lines w reply.0 reply.1 reply.2 d),
        )
        | inr e ↦ (
          [],
          no_prices-IsOffer b.view offerable,
          (λ k. not_asked k _ e),
          rw (e, price_pass) (sym (map-no_prices w.lines)),
        )
      ]

-- ===== src/Pipeline/Document/Total.antt =====
-- crates/murmur-core/src/pipeline/document.rs: the total of a document is the money that was said and
-- the money that the model offered.
use sitewalk.Base.{
  ℕ, suc, ◌+◌, ◌%◌, ◌^◌, ◌≡◌, refl, sym, ap, ◌∙◌, Bool, true, Option, none, some, List, [], ◌∷◌,
  map, Option-cases, arith, inl, inr,
}
use mathlib.Core.Path.{subst}
use sitewalk.Base.Text.{Text}
use sitewalk.Base.TextMap.{TextMap, get}
use sitewalk.Base.Float.{Floats}
use sitewalk.Base.CharTables.{CharTables}
use sitewalk.Base.Members.{AreDistinct}
use sitewalk.Store.Domain.{CapturedItem}
use sitewalk.Pipeline.SpokenPrice.Fair.{fold_spoken_prices-total}
use sitewalk.Pipeline.SpokenPrice.Kept.{item_ids, total_amount, total_said}
use sitewalk.Pipeline.SpokenPrice.Ledger.{or_zero}
use sitewalk.Pipeline.Notes.{NotesEntry}
use sitewalk.Pipeline.Document.Lines.{DocumentLine, sum_cents, add_cents, total_cents}
use sitewalk.Pipeline.Document.Lines.Priced.{bare}
use sitewalk.Pipeline.Document.Prices.Offers.{IsOffer}
use sitewalk.Pipeline.Document.Passes.{
  expected_lines, expected_line, IsApart, offered-IsApart, amount_on, Offers,
}
use sitewalk.Pipeline.Document.Outranks.{
  opening, drawn_items-AreDistinct, compose_pass-expected_lines,
}
use sitewalk.Pipeline.Document.{
  Draft, Work, DocumentBuilder, is_priced_schema, drawn_items, folded_items, unpriced_items,
  price_pass, compose_pass, payload,
}

-- The amounts on the lines, as a sum of natural numbers.
abbrev pub money_on : List DocumentLine → ℕ
money_on [] = 0
money_on (l ∷ ls) = or_zero l.amount_cents + money_on ls

-- A total of this much money, in 64 bits; without one there is no money.
abbrev pub IsTotal : Option ℕ → ℕ → Type 0
IsTotal none money = money ≡ 0
IsTotal (some total) money = total % 2 ^ 64 ≡ money % 2 ^ 64

sum_cents-some :
    (a : ℕ) (ls : List DocumentLine)
    → (t : ℕ) × (sum_cents (some a) ls ≡ some t) × (t % 2 ^ 64 ≡ (a + money_on ls) % 2 ^ 64)
unfolding sum_cents add_cents
sum_cents-some a [] = (a, refl, omega arith)
sum_cents-some a (l ∷ ls) = elim (Option-cases l.amount_cents) [
  | inl e ↦
      let (t, run, same) = sum_cents-some a ls in
      (t, rw (e, sum_cents) run, rw e (omega (arith, same)))
  | inr (c, e) ↦
      let (t, run, same) = sum_cents-some ((a + c) % 2 ^ 64) ls in
      (t, rw (e, sum_cents, add_cents) run, rw e (omega (arith, same)))
]

sum_cents-IsTotal : (ls : List DocumentLine) → IsTotal (sum_cents none ls) (money_on ls)
unfolding sum_cents add_cents
sum_cents-IsTotal [] = refl
sum_cents-IsTotal (l ∷ ls) = elim (Option-cases l.amount_cents) [
  | inl e ↦
      rw (e, sum_cents) (subst (IsTotal (sum_cents none ls)) (omega arith) (sum_cents-IsTotal ls))
  | inr (c, e) ↦
      let (t, run, same) = sum_cents-some c ls in rw (e, sum_cents, add_cents) (rw run same)
]

money_on-bare : (ls : List DocumentLine) → money_on (map bare ls) ≡ money_on ls
money_on-bare [] = refl
money_on-bare (l ∷ ls) = ap (λ m. or_zero l.amount_cents + m) (money_on-bare ls)

amount_on-apart :
    (said offered : TextMap ℕ) (i : CapturedItem)
    → IsApart said offered
    → or_zero (amount_on said offered i) ≡ or_zero (get i.id said) + or_zero (get i.id offered)
amount_on-apart said offered i apart = elim (Option-cases (get i.id said)) [
  | inl e ↦ rw e (omega arith)
  | inr (a, e) ↦ elim (Option-cases (get i.id offered)) [
    | inl f ↦ rw (e, f) (omega arith)
    | inr (b, f) ↦ absurd (let g = apart i.id b f in cc)
  ]
]

money_on-expected_lines :
    (fresh : ℕ → Text) (n : ℕ) (said offered : TextMap ℕ) (due : Bool) (items : List CapturedItem)
    → IsApart said offered
    → money_on (expected_lines fresh n said offered due items)
      ≡ total_amount said items + total_amount offered items
unfolding expected_lines expected_line
money_on-expected_lines fresh n said offered due [] apart = refl
money_on-expected_lines fresh n said offered due (i ∷ items) apart = omega (
  arith,
  amount_on-apart said offered i apart,
  money_on-expected_lines fresh (suc n) said offered due items apart,
)

module _ {Json P : Type 0} (b : DocumentBuilder Json P) (draft : Draft)
    (due : is_priced_schema draft.schema ≡ true) where
  payload-IsTotal :
      (doc_kind : Text) (number : ℕ) (w : Work P) (ls : List DocumentLine)
      → map bare w.lines ≡ ls
      → IsTotal (payload b doc_kind draft w number).total (money_on ls)
  unfolding payload total_cents
  payload-IsTotal doc_kind number w ls same =
      rw (due, payload, total_cents)
        (subst (IsTotal (sum_cents none w.lines)) (sym (money_on-bare w.lines) ∙ ap money_on same)
          (sum_cents-IsTotal w.lines))

  said_amounts-total :
      (fl : Floats) (tables : CharTables)
      → AreDistinct (item_ids draft.items)
      → let drawn = drawn_items draft.schema draft.items in
        let folded = folded_items fl tables draft.schema drawn in
        total_amount folded.amounts folded.items ≡ total_said tables drawn
  unfolding folded_items
  said_amounts-total fl tables d =
      let drawn = drawn_items draft.schema draft.items in
      rw (due, folded_items)
        (fold_spoken_prices-total fl tables drawn
          (drawn_items-AreDistinct fl tables draft.schema draft.items d))

  -- If a document has amounts and no two items of the walk share an id, then its total, with the
  -- prose pass or without it, is all the money that was said in the items that the document draws
  -- and, for each line without a price that was said, the first amount above zero that the model's
  -- reply to the request for prices names for it, in 64 bits; a failed reply names none. A document
  -- with no total has no money on it.
  pub payload-total :
      (fl : Floats) (tables : CharTables) (memory_prompt : Text) (fresh : ℕ → Text) (n : ℕ) (p : P)
      (notes : List NotesEntry) (doc_kind : Text) (number : ℕ)
      → AreDistinct (item_ids draft.items)
      → let drawn = drawn_items draft.schema draft.items in
        let folded = folded_items fl tables draft.schema drawn in
        let priced =
          price_pass b draft.schema folded memory_prompt
            (opening b fresh n draft.schema folded p) in
        (offered : TextMap ℕ) × IsOffer (item_ids (unpriced_items folded)) offered
        × Offers b draft.schema folded memory_prompt p offered
        × IsTotal
            (payload b doc_kind draft priced number).total
            (total_said tables drawn + total_amount offered folded.items)
        × IsTotal
            (payload b doc_kind draft (compose_pass b draft notes priced) number).total
            (total_said tables drawn + total_amount offered folded.items)
  payload-total fl tables memory_prompt fresh n p notes doc_kind number d =
      let drawn = drawn_items draft.schema draft.items in
      let folded = folded_items fl tables draft.schema drawn in
      let priced =
        price_pass b draft.schema folded memory_prompt (opening b fresh n draft.schema folded p) in
      let (offered, is_offer, offers, plain, composed) =
        compose_pass-expected_lines b fl tables draft memory_prompt fresh n p notes d in
      let ls =
        expected_lines fresh n folded.amounts offered (is_priced_schema draft.schema)
          folded.items in
      let money : money_on ls ≡ total_said tables drawn + total_amount offered folded.items =
        money_on-expected_lines fresh n folded.amounts offered (is_priced_schema draft.schema)
          folded.items (offered-IsApart folded offered is_offer)
        ∙ ap (λ m. m + total_amount offered folded.items) (said_amounts-total fl tables d) in
      (
        offered,
        is_offer,
        offers,
        subst (IsTotal (payload b doc_kind draft priced number).total) money
            (payload-IsTotal doc_kind number priced ls plain),
        subst (IsTotal (payload b doc_kind draft (compose_pass b draft notes priced) number).total)
            money (payload-IsTotal doc_kind number (compose_pass b draft notes priced) ls composed),
      )

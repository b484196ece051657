-- ===== src/Pipeline/Document/Outranks.antt =====
-- crates/murmur-core/src/pipeline/document.rs: the lines of a document after both passes. A price that
-- was said outranks the model's.
use sitewalk.Base.{
  ℕ, ◌≡◌, refl, sym, ap, ◌∙◌, Bool, false, List, [], ◌∷◌, map, keep, All, Bool-cases, inl, inr,
}
use mathlib.Core.Path.{subst}
use sitewalk.Base.Text.{Text}
use sitewalk.Base.TextMap.{TextMap}
use sitewalk.Base.Float.{Floats}
use sitewalk.Base.CharTables.{CharTables}
use sitewalk.Base.Result.{Result, ok, err}
use sitewalk.Base.Members.{AreDistinct, Differs}
use sitewalk.Harness.Llm.{HarnessError, Usage, no_usage}
use sitewalk.Store.Domain.{CapturedItem}
use sitewalk.Store.Domain.Documents.{DocumentSchema}
use sitewalk.Pipeline.SpokenPrice.Kept.{item_ids}
use sitewalk.Pipeline.SpokenPrice.Distinct.{fold_spoken_prices-AreDistinct}
use sitewalk.Pipeline.SpokenPrice.{FoldedPrices, unfolded}
use sitewalk.Pipeline.Notes.{NotesEntry}
use sitewalk.Pipeline.Document.Lines.{Composition, render_lines, per_pricing_kind}
use sitewalk.Pipeline.Document.Lines.Priced.{
  line_ids, price_line, apply_prices-map, line_ids-price_line, bare, apply_composition-bare,
}
use sitewalk.Pipeline.Document.Prices.Offers.{IsOffer}
use sitewalk.Pipeline.Document.Passes.{
  expected_lines, line_ids-render_lines, prices-expected_lines, bare-expected_lines, Offers,
  offered-IsApart, price_pass-offered,
}
use sitewalk.Pipeline.Document.{
  Draft, Work, DocumentBuilder, is_priced_schema, drawn_items, folded_items, unpriced_items,
  spoken_lines, price_pass, after_compose, compose_pass,
}

keep-All :
    (P : Text → Type 0) (p : CapturedItem → Bool) (items : List CapturedItem)
    → All P (item_ids items)
    → All P (item_ids (keep p items))
keep-All P p [] h = tt
keep-All P p (i ∷ items) h = elim (Bool-cases (p i)) [
  | inl e ↦ rw e (h.0, keep-All P p items h.1)
  | inr e ↦ rw e (keep-All P p items h.1)
]

keep-AreDistinct :
    (p : CapturedItem → Bool) (items : List CapturedItem)
    → AreDistinct (item_ids items)
    → AreDistinct (item_ids (keep p items))
keep-AreDistinct p [] d = tt
keep-AreDistinct p (i ∷ items) d = elim (Bool-cases (p i)) [
  | inl e ↦ rw e (keep-All (Differs i.id) p items d.0, keep-AreDistinct p items d.1)
  | inr e ↦ rw e (keep-AreDistinct p items d.1)
]

module _ (fl : Floats) (tables : CharTables) (schema : DocumentSchema) where
  pub drawn_items-AreDistinct :
      (items : List CapturedItem)
      → AreDistinct (item_ids items)
      → AreDistinct (item_ids (drawn_items schema items))
  unfolding drawn_items
  drawn_items-AreDistinct items d = keep-AreDistinct _ items d

  folded_items-AreDistinct :
      (drawn : List CapturedItem)
      → AreDistinct (item_ids drawn)
      → AreDistinct (item_ids (folded_items fl tables schema drawn).items)
  unfolding folded_items unfolded
  folded_items-AreDistinct drawn d = elim (Bool-cases (is_priced_schema schema)) [
    | inl e ↦ rw (e, folded_items) (fold_spoken_prices-AreDistinct fl tables drawn d)
    | inr e ↦ rw (e, folded_items) d
  ]

spoken_lines-map :
    (fresh : ℕ → Text) (n : ℕ) (schema : DocumentSchema) (folded : FoldedPrices)
    → AreDistinct (item_ids folded.items)
    → spoken_lines fresh n schema folded
      ≡ map
          (price_line folded.amounts)
          (render_lines fresh n folded.items per_pricing_kind (is_priced_schema schema))
unfolding spoken_lines
spoken_lines-map fresh n schema folded d =
    apply_prices-map folded.amounts
      (render_lines fresh n folded.items per_pricing_kind (is_priced_schema schema))
      (subst AreDistinct
        (sym (line_ids-render_lines fresh n folded.items (is_priced_schema schema))) d)

module _ {Json P : Type 0} (b : DocumentBuilder Json P) where
  -- The work at the start of the passes, as `build_from` has it.
  abbrev pub opening : (ℕ → Text) → ℕ → DocumentSchema → FoldedPrices → P → Work P
  opening fresh n schema folded p = record {
    lines = spoken_lines fresh n schema folded;
    composed = record { fields = []; lines = [] };
    usage = no_usage;
    queued = false;
    provider = p;
  }

  after_compose-bare :
      (w : Work P) (r : Result HarnessError Composition × Usage × P)
      → map bare (after_compose b w r).lines ≡ map bare w.lines
  unfolding after_compose
  after_compose-bare w (ok c, usage, p) = apply_composition-bare c.lines w.lines
  after_compose-bare w (err e, usage, p) = refl

  compose_pass-bare :
      (draft : Draft) (notes : List NotesEntry) (w : Work P)
      → map bare (compose_pass b draft notes w).lines ≡ map bare w.lines
  unfolding compose_pass
  compose_pass-bare draft notes w = after_compose-bare w _

  price_pass-expected_lines :
      (schema : DocumentSchema) (folded : FoldedPrices) (memory_prompt : Text) (fresh : ℕ → Text)
      (n : ℕ) (p : P)
      → AreDistinct (item_ids folded.items)
      → (offered : TextMap ℕ) × IsOffer (item_ids (unpriced_items folded)) offered
        × Offers b schema folded memory_prompt p offered
        × (map bare
              (price_pass b schema folded memory_prompt (opening fresh n schema folded p)).lines
            ≡ expected_lines fresh n folded.amounts offered (is_priced_schema schema) folded.items)
  price_pass-expected_lines schema folded memory_prompt fresh n p d =
      let due = is_priced_schema schema in
      let plain = render_lines fresh n folded.items per_pricing_kind due in
      let start = spoken_lines-map fresh n schema folded d in
      let ids : line_ids (spoken_lines fresh n schema folded) ≡ item_ids folded.items =
        ap line_ids start
        ∙ line_ids-price_line folded.amounts plain
        ∙ line_ids-render_lines fresh n folded.items due in
      let (offered, is_offer, offers, same) =
        price_pass-offered b schema folded memory_prompt (opening fresh n schema folded p)
          (subst AreDistinct (sym ids) d) in
      (
        offered,
        is_offer,
        offers,
        ap (map bare) (
              same
              ∙ ap (map (price_line offered)) start
              ∙ prices-expected_lines fresh n folded.amounts offered due folded.items
                  (offered-IsApart folded offered is_offer))
            ∙ bare-expected_lines fresh n folded.amounts offered due folded.items,
      )

  -- If no two items of the walk share an id, the pricing pass and then the prose pass leave one line
  -- for each item that the fold of the spoken prices keeps, in their order and with its title,
  -- whatever the model replies or fails with. The amount of a line is the one that was said, or
  -- else, if the schema has amounts, the first one above zero that the model's reply to the request
  -- for prices names for the item, or else there is none and the line is a gap, if the schema has
  -- amounts. The prose pass changes no more than details and assignees.
  pub compose_pass-expected_lines :
      (fl : Floats) (tables : CharTables) (draft : Draft) (memory_prompt : Text) (fresh : ℕ → Text)
      (n : ℕ) (p : P) (notes : List NotesEntry)
      → AreDistinct (item_ids draft.items)
      → let folded = folded_items fl tables draft.schema (drawn_items draft.schema draft.items) in
        let priced =
          price_pass b draft.schema folded memory_prompt (opening fresh n draft.schema folded p) in
        let is_priced = is_priced_schema draft.schema in
        (offered : TextMap ℕ) × IsOffer (item_ids (unpriced_items folded)) offered
        × Offers b draft.schema folded memory_prompt p offered
        × (map bare priced.lines
            ≡ expected_lines fresh n folded.amounts offered is_priced folded.items)
        × (map bare (compose_pass b draft notes priced).lines
            ≡ expected_lines fresh n folded.amounts offered is_priced folded.items)
  compose_pass-expected_lines fl tables draft memory_prompt fresh n p notes d =
      let drawn = drawn_items draft.schema draft.items in
      let folded = folded_items fl tables draft.schema drawn in
      let (offered, is_offer, offers, same) =
        price_pass-expected_lines draft.schema folded memory_prompt fresh n p (
          folded_items-AreDistinct fl tables draft.schema drawn
            (drawn_items-AreDistinct fl tables draft.schema draft.items d)) in
      (
        offered,
        is_offer,
        offers,
        same,
        compose_pass-bare draft notes (
              price_pass b draft.schema folded memory_prompt
                (opening fresh n draft.schema folded p))
            ∙ same,
      )

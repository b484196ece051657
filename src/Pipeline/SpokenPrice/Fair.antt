-- ===== src/Pipeline/SpokenPrice/Fair.antt =====
-- crates/murmur-core/src/pipeline/spoken_price.rs: what the whole fold gives.
use sitewalk.Base.{
  ℕ, ◌+◌, ◌≡◌, refl, sym, ap, ◌∙◌, ◌⊎◌, Option, none, some, List, [], ◌∷◌, map, All, Bool-cases,
  arith, inl, inr,
}
use mathlib.Core.Path.{subst}
use sitewalk.Base.Text.{Text}
use sitewalk.Base.TextMap.{get}
use sitewalk.Base.CharTables.{CharTables}
use sitewalk.Base.Float.{Floats}
use sitewalk.Base.Members.{In, In-map, AreDistinct, Differs}
use sitewalk.Store.Domain.{CapturedItem}
use sitewalk.Pipeline.SpokenPrice.Label.{
  Reading, plain, self_priced, statement, read, tokenize, member,
}
use sitewalk.Pipeline.SpokenPrice.Ledger.{IsPaid, paper_sum}
use sitewalk.Pipeline.SpokenPrice.Target.{
  Found, target_for-Found, fully_covered_by-Found, candidate-means, covered-means,
}
use sitewalk.Pipeline.SpokenPrice.Money.{line_id, cents_of, said, Reason, Reason-later, Fair}
use sitewalk.Pipeline.SpokenPrice.Steps.{priced-Fair, moved-Fair, absorbed-Fair}
use sitewalk.Pipeline.SpokenPrice.{
  Line, FoldState, FoldedPrices, is_candidate, is_covered, fold_line, fold_lines, priced, absorb,
  settle_statement, no_folds, read_lines, kept_items, fold_spoken_prices,
}
use sitewalk.Pipeline.SpokenPrice.Kept.{
  item_ids, kept_items-In, kept_items-total, read_lines-In, read_lines-ids, read_lines-items,
  read_lines-said, retitled-fields, retitled-id, total_amount, total_said,
}

module _ (fl : Floats) (tables : CharTables) (ls : List Line)
    (distinct : AreDistinct (map line_id ls)) where
  module _ (n : Line) (rest : List Line) (n_in : In n ls) (sub : (l : Line) → In l rest → In l ls)
      (fresh : All (Differs (line_id n)) (map line_id rest)) (st : FoldState) (total : ℕ)
      (fair : Fair tables ls (n ∷ rest) st total) where
    statement-Fair :
        (cents : ℕ) (title : Text) (tokens : List Text) (o : Option Line)
        → n.reading ≡ statement cents title tokens
        → Found (is_candidate fl tables tokens st.claimed) ls o
        → Fair tables ls rest (settle_statement n cents title o st) (cents + total)
    unfolding settle_statement
    statement-Fair cents title tokens none r f =
        priced-Fair tables ls distinct n rest n_in sub fresh (rw r refl) st total fair cents title
    statement-Fair cents title tokens (some t) r f =
        let (t_open, shares) = candidate-means fl tables tokens st.claimed t f.1 in
        moved-Fair tables ls distinct n rest n_in sub fresh (rw r refl) st total fair t cents title
          tokens r f.0 t_open shares

    self_priced-Fair :
        (cents : ℕ) (title : Text) (o : Option Line)
        → n.reading ≡ self_priced cents title
        → Found (is_covered fl tables (tokenize tables title) st.claimed) ls o
        → Fair tables ls rest (absorb o (priced n cents title st)) (cents + total)
    unfolding absorb
    self_priced-Fair cents title none r f =
        priced-Fair tables ls distinct n rest n_in sub fresh (rw r refl) st total fair cents title
    self_priced-Fair cents title (some v) r f =
        let (v_open, some_words, covers) =
          covered-means fl tables (tokenize tables title) st.claimed v f.1 in
        absorbed-Fair tables ls distinct n rest n_in sub fresh (rw r refl) st total fair v cents
          title r f.0 v_open covers

    fold_line-Fair :
        (r : Reading)
        → n.reading ≡ r
        → Fair tables ls rest (fold_line fl tables ls n r st) (cents_of r + total)
    unfolding fold_line
    fold_line-Fair plain r = record {
      clear = fair.clear;
      ahead = λ l i p. fair.ahead l (inr i) p;
      counted = fair.counted ∙ omega arith;
      explained = fair.explained;
    }
    fold_line-Fair (self_priced cents title) r =
        self_priced-Fair cents title _ r
          (fully_covered_by-Found fl tables (tokenize tables title) st.claimed ls)
    fold_line-Fair (statement cents title tokens) r =
        statement-Fair cents title tokens _ r (target_for-Found fl tables tokens st.claimed ls)

  fold_lines-Fair :
      (rest : List Line) (st : FoldState) (total : ℕ)
      → ((l : Line) → In l rest → In l ls)
      → AreDistinct (map line_id rest)
      → Fair tables ls rest st total
      → Fair tables ls [] (fold_lines fl tables ls rest st) (said rest + total)
  unfolding fold_lines
  fold_lines-Fair [] st total sub d fair = subst (Fair tables ls [] st) (omega arith) fair
  fold_lines-Fair (n ∷ rest) st total sub d fair =
      let next =
        fold_line-Fair n rest (sub n (inl refl)) (λ l i. sub l (inr i)) d.0 st total fair n.reading
          refl in
      subst
        (Fair tables ls [] (fold_lines fl tables ls rest (fold_line fl tables ls n n.reading st)))
        (omega arith)
        (fold_lines-Fair rest _ (cents_of n.reading + total) (λ l i. sub l (inr i)) d.1 next)

  no_folds-sum : (ks : List Text) → paper_sum [] [] ks ≡ 0
  unfolding get
  no_folds-sum [] = refl
  no_folds-sum (k ∷ ks) = omega (arith, no_folds-sum ks)

  no_folds-Fair : Fair tables ls ls no_folds 0
  unfolding get
  no_folds-Fair = record {
    clear = λ l i o. (refl, refl);
    ahead = λ l i p. (refl, refl);
    counted = no_folds-sum (map line_id ls);
    explained = λ l i m. absurd (cc);
  }

-- The document has a line with this id, and this amount on it.
abbrev pub Stands : FoldedPrices → Text → ℕ → Type 0
Stands out k cents = (get k out.amounts ≡ some cents) × In k (item_ids out.items)

module _ (fl : Floats) (tables : CharTables) (items : List CapturedItem)
    (distinct : AreDistinct (item_ids items)) where
  abbrev lines : List Line
  lines = read_lines fl tables 0 items

  abbrev final : FoldState
  final = fold_lines fl tables lines lines no_folds

  final-Fair : Fair tables lines [] final (said lines + 0)
  final-Fair =
      let d : AreDistinct (map line_id lines) =
        subst AreDistinct (sym (read_lines-ids fl tables 0 items)) distinct in
      fold_lines-Fair fl tables lines d lines no_folds 0 (λ l i. i) d
        (no_folds-Fair fl tables lines d)

  -- If no two items share an id, the amounts on the lines of the folded document sum up to all the
  -- prices that can be read in the items: a fold neither loses nor invents money.
  pub fold_spoken_prices-total :
      let out = fold_spoken_prices fl tables items in
      total_amount out.amounts out.items ≡ total_said tables items
  unfolding fold_spoken_prices
  fold_spoken_prices-total =
      kept_items-total final items
      ∙ ap (paper_sum final.amounts final.folded_away) (sym (read_lines-ids fl tables 0 items))
      ∙ final-Fair.counted
      ∙ omega (arith, read_lines-said fl tables 0 items)

  kept-Stands :
      (m : Line) (c : ℕ)
      → In m lines
      → IsPaid final.amounts final.folded_away (line_id m) c
      → Stands (fold_spoken_prices fl tables items) (line_id m) c
  unfolding fold_spoken_prices
  kept-Stands m c i paid =
      let here = kept_items-In final items m.item (read_lines-items fl tables 0 items m i) paid.1 in
      (
        paid.0,
        subst (λ k. In k (item_ids (kept_items final items)))
            (retitled-id (get m.item.id final.titles) m.item)
            (In-map (λ (item : CapturedItem). item.id) _ (kept_items final items) here),
      )

  -- If no two items share an id, each item is in the folded document, with at most its text
  -- changed, or there is a reason: it only stated a price, and a work line that shares a word with
  -- its label stands in the document with this price; or it was a bare line, all of whose words
  -- are in the title of a priced line that stands in the document with its price.
  pub fold_spoken_prices-accounts :
      (item : CapturedItem)
      → In item items
      → ((title : Text) × In
            (record item { text = title })
            (fold_spoken_prices fl tables items).items)
        ⊎ ((l : Line) × (l.item ≡ item)
            × (l.reading ≡ read tables item.text)
            × Reason tables
                (read_lines fl tables 0 items)
                (Stands (fold_spoken_prices fl tables items))
                l)
  unfolding fold_spoken_prices
  fold_spoken_prices-accounts item i = elim (Bool-cases (member final.folded_away item.id)) [
    | inr e ↦ inl (
      _,
      subst (λ x. In x (kept_items final items)) (retitled-fields (get item.id final.titles) item)
          (kept_items-In final items item i e),
    )
    | inl e ↦
        let (l, here, same, reads) = read_lines-In fl tables 0 items item i in
        inr (
          l,
          same,
          reads,
          Reason-later tables lines (IsPaid final.amounts final.folded_away) _ l kept-Stands (
              final-Fair.explained l here
                (ap (λ (y : CapturedItem). member final.folded_away y.id) same ∙ e)),
        )
  ]

-- ===== src/Pipeline/SpokenPrice/Distinct.antt =====
-- crates/murmur-core/src/pipeline/spoken_price.rs: the items that are kept have ids of their own.
use sitewalk.Base.{sym, List, [], ◌∷◌, All, Bool-cases, inl, inr}
use mathlib.Core.Path.{subst}
use sitewalk.Base.Text.{Text}
use sitewalk.Base.TextMap.{get}
use sitewalk.Base.CharTables.{CharTables}
use sitewalk.Base.Float.{Floats}
use sitewalk.Base.Members.{AreDistinct, Differs}
use sitewalk.Store.Domain.{CapturedItem}
use sitewalk.Pipeline.SpokenPrice.Label.{member}
use sitewalk.Pipeline.SpokenPrice.Kept.{item_ids, retitled-id}
use sitewalk.Pipeline.SpokenPrice.{
  FoldState, fold_spoken_prices, fold_lines, read_lines, no_folds, kept_items,
}

kept_items-All :
    (P : Text → Type 0) (st : FoldState) (items : List CapturedItem)
    → All P (item_ids items)
    → All P (item_ids (kept_items st items))
unfolding kept_items
kept_items-All P st [] h = tt
kept_items-All P st (i ∷ items) h = elim (Bool-cases (member st.folded_away i.id)) [
  | inl e ↦ rw e (kept_items-All P st items h.1)
  | inr e ↦
      rw e (subst P (sym (retitled-id (get i.id st.titles) i)) h.0, kept_items-All P st items h.1)
]

kept_items-AreDistinct :
    (st : FoldState) (items : List CapturedItem)
    → AreDistinct (item_ids items)
    → AreDistinct (item_ids (kept_items st items))
unfolding kept_items
kept_items-AreDistinct st [] d = tt
kept_items-AreDistinct st (i ∷ items) d = elim (Bool-cases (member st.folded_away i.id)) [
  | inl e ↦ rw e (kept_items-AreDistinct st items d.1)
  | inr e ↦ rw e (
    subst (λ k. All (Differs k) (item_ids (kept_items st items)))
        (sym (retitled-id (get i.id st.titles) i)) (kept_items-All (Differs i.id) st items d.0),
    kept_items-AreDistinct st items d.1,
  )
]

pub fold_spoken_prices-AreDistinct :
    (fl : Floats) (tables : CharTables) (items : List CapturedItem)
    → AreDistinct (item_ids items)
    → AreDistinct (item_ids (fold_spoken_prices fl tables items).items)
unfolding fold_spoken_prices
fold_spoken_prices-AreDistinct fl tables items d =
    let ls = read_lines fl tables 0 items in
    kept_items-AreDistinct (fold_lines fl tables ls ls no_folds) items d

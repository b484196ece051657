-- ===== src/Pipeline/SpokenPrice/Kept.antt =====
-- crates/murmur-core/src/pipeline/spoken_price.rs: the lines that are read and the items that are kept.
use sitewalk.Base.{
  ℕ, ◌+◌, ◌≡◌, refl, sym, ap, ◌∙◌, false, Option, none, some, List, [], ◌∷◌, map, Bool-cases, arith,
  inl, inr, suc,
}
use mathlib.Core.Path.{subst}
use sitewalk.Base.Text.{Text}
use sitewalk.Base.TextMap.{TextMap, get}
use sitewalk.Base.CharTables.{CharTables}
use sitewalk.Base.Float.{Floats}
use sitewalk.Base.Members.{In}
use sitewalk.Store.Domain.{CapturedItem}
use sitewalk.Pipeline.SpokenPrice.Label.{read, member}
use sitewalk.Pipeline.SpokenPrice.Ledger.{paper_sum, or_zero}
use sitewalk.Pipeline.SpokenPrice.Money.{line_id, cents_of, said}
use sitewalk.Pipeline.SpokenPrice.{Line, FoldState, read_lines, kept_items, retitled}

-- The amounts on a document's lines, summed.
abbrev pub total_amount : TextMap ℕ → List CapturedItem → ℕ
total_amount amounts [] = 0
total_amount amounts (item ∷ items) = or_zero (get item.id amounts) + total_amount amounts items

-- The cents of all prices that can be read in the items' texts.
abbrev pub total_said : CharTables → List CapturedItem → ℕ
total_said tables [] = 0
total_said tables (item ∷ items) = cents_of (read tables item.text) + total_said tables items

abbrev pub item_ids : List CapturedItem → List Text
item_ids items = map (λ (item : CapturedItem). item.id) items

module _ (fl : Floats) (tables : CharTables) where
  pub read_lines-ids :
      (n : ℕ) (items : List CapturedItem)
      → map line_id (read_lines fl tables n items) ≡ item_ids items
  unfolding read_lines
  read_lines-ids n [] = refl
  read_lines-ids n (item ∷ items) = ap (λ ks. item.id ∷ ks) (read_lines-ids (suc n) items)

  pub read_lines-said :
      (n : ℕ) (items : List CapturedItem)
      → said (read_lines fl tables n items) ≡ total_said tables items
  unfolding read_lines
  read_lines-said n [] = refl
  read_lines-said n (item ∷ items) =
      ap (λ s. cents_of (read tables item.text) + s) (read_lines-said (suc n) items)

pub retitled-id : (o : Option Text) (item : CapturedItem) → (retitled o item).id ≡ item.id
unfolding retitled
retitled-id none item = refl
retitled-id (some title) item = refl

pub kept_items-total :
    (st : FoldState) (items : List CapturedItem)
    → total_amount st.amounts (kept_items st items)
      ≡ paper_sum st.amounts st.folded_away (item_ids items)
unfolding kept_items
kept_items-total st [] = refl
kept_items-total st (item ∷ items) = elim (Bool-cases (member st.folded_away item.id)) [
  | inl e ↦ rw e (kept_items-total st items ∙ omega arith)
  | inr e ↦ rw e (
      rw (retitled-id (get item.id st.titles) item)
        (ap (λ s. or_zero (get item.id st.amounts) + s) (kept_items-total st items)))
]

pub read_lines-In :
    (fl : Floats) (tables : CharTables) (n : ℕ) (items : List CapturedItem) (item : CapturedItem)
    → In item items
    → (l : Line) × In l (read_lines fl tables n items)
      × (l.item ≡ item)
      × (l.reading ≡ read tables item.text)
unfolding read_lines
read_lines-In fl tables n [] item i = absurd i
read_lines-In fl tables n (x ∷ items) item (inl e) =
    (_, inl refl, sym e, ap (λ (y : CapturedItem). read tables y.text) (sym e))
read_lines-In fl tables n (x ∷ items) item (inr i) =
    let (l, i', e, r) = read_lines-In fl tables (suc n) items item i in (l, inr i', e, r)

pub kept_items-In :
    (st : FoldState) (items : List CapturedItem) (item : CapturedItem)
    → In item items
    → member st.folded_away item.id ≡ false
    → In (retitled (get item.id st.titles) item) (kept_items st items)
unfolding kept_items
kept_items-In st [] item i e = absurd i
kept_items-In st (x ∷ items) item (inl p) e =
    let e' : member st.folded_away x.id ≡ false =
      subst (λ y. member st.folded_away y.id ≡ false) p e in
    rw e' (inl (ap (λ (y : CapturedItem). retitled (get y.id st.titles) y) p))
kept_items-In st (x ∷ items) item (inr i) e = elim (Bool-cases (member st.folded_away x.id)) [
  | inl f ↦ rw f (kept_items-In st items item i e)
  | inr f ↦ rw f (inr (kept_items-In st items item i e))
]

pub retitled-fields :
    (o : Option Text) (item : CapturedItem)
    → retitled o item ≡ record item { text = (retitled o item).text }
unfolding retitled
retitled-fields none item = refl
retitled-fields (some title) item = refl

pub read_lines-items :
    (fl : Floats) (tables : CharTables) (n : ℕ) (items : List CapturedItem) (l : Line)
    → In l (read_lines fl tables n items)
    → In l.item items
unfolding read_lines
read_lines-items fl tables n [] l i = absurd i
read_lines-items fl tables n (x ∷ items) l (inl e) = inl (ap (λ (m : Line). m.item) e)
read_lines-items fl tables n (x ∷ items) l (inr i) =
    inr (read_lines-items fl tables (suc n) items l i)

-- ===== src/Pipeline/Document/Lines/Priced.antt =====
-- crates/murmur-core/src/pipeline/document.rs: what the passes over the lines do, line by line.
use sitewalk.Base.{
  ℕ, ◌≡◌, refl, false, none, some, List, [], ◌∷◌, map, All, is_empty, Bool-cases, Option-cases,
  arith, inl, inr,
}
use sitewalk.Base.Text.{Text}
use sitewalk.Base.TextMap.{TextMap, get}
use sitewalk.Base.Members.{AreDistinct, Differs, Differs-sym}
use sitewalk.Pipeline.SpokenPrice.Label.{member}
use sitewalk.Pipeline.Document.Lines.{
  DocumentLine, LineComposition, apply_prices, apply_prices_from, apply_composition,
  apply_composition_from, written_on,
}

abbrev pub line_ids : List DocumentLine → List Text
line_ids ls = map (λ (l : DocumentLine). l.item_id) ls

-- A line with the price that is given for its item, if there is one.
unfoldable pub price_line : TextMap ℕ → DocumentLine → DocumentLine
price_line prices line = elim (get line.item_id prices) [
  | none ↦ line
  | some amount ↦ record line { amount_cents = some amount; is_gap = false }
]

pub price_line-none :
    (prices : TextMap ℕ) (l : DocumentLine) → get l.item_id prices ≡ none → price_line prices l ≡ l
unfolding price_line
price_line-none prices l e = rw (e, price_line) refl

abbrev pub with_amount : ℕ → DocumentLine → DocumentLine
with_amount a l = record l { amount_cents = some a; is_gap = false }

pub price_line-some :
    (prices : TextMap ℕ) (l : DocumentLine) (a : ℕ)
    → get l.item_id prices ≡ some a
    → price_line prices l ≡ with_amount a l
unfolding price_line
price_line-some prices l a e = rw (e, price_line) refl

abbrev IsFree : List Text → Text → Type 0
IsFree claimed k = member claimed k ≡ false

IsFree-claimed :
    (k : Text) (claimed ks : List Text)
    → All (Differs k) ks
    → All (IsFree claimed) ks
    → All (IsFree (k ∷ claimed)) ks
IsFree-claimed k claimed [] d f = tt
IsFree-claimed k claimed (j ∷ ks) d f =
    let e = Differs-sym k j d.0 in (ground (arith, e, f.0), IsFree-claimed k claimed ks d.1 f.1)

-- With no two lines for one item, the ids that are claimed play no part.
apply_prices_from-map :
    (prices : TextMap ℕ) (claimed : List Text) (ls : List DocumentLine)
    → AreDistinct (line_ids ls)
    → All (IsFree claimed) (line_ids ls)
    → apply_prices_from prices claimed ls ≡ map (price_line prices) ls
unfolding apply_prices_from price_line
apply_prices_from-map prices claimed [] d f = refl
apply_prices_from-map prices claimed (l ∷ ls) d f = elim (Option-cases (get l.item_id prices)) [
  | inl e ↦
      rw (f.0, e, apply_prices_from, price_line, apply_prices_from-map prices claimed ls d.1 f.1)
        refl
  | inr (a, e) ↦
      rw
        (
          f.0,
          e,
          apply_prices_from,
          price_line,
          apply_prices_from-map prices (l.item_id ∷ claimed) ls d.1
              (IsFree-claimed l.item_id claimed (line_ids ls) d.0 f.1),
        )
        refl
]

nothing_claimed : (ks : List Text) → All (IsFree []) ks
nothing_claimed [] = tt
nothing_claimed (k ∷ ks) = (refl, nothing_claimed ks)

pub apply_prices-map :
    (prices : TextMap ℕ) (ls : List DocumentLine)
    → AreDistinct (line_ids ls)
    → apply_prices prices ls ≡ map (price_line prices) ls
unfolding apply_prices
apply_prices-map prices ls d = apply_prices_from-map prices [] ls d (nothing_claimed (line_ids ls))

pub line_ids-price_line :
    (prices : TextMap ℕ) (ls : List DocumentLine)
    → line_ids (map (price_line prices) ls) ≡ line_ids ls
unfolding price_line
line_ids-price_line prices [] = refl
line_ids-price_line prices (l ∷ ls) = elim (Option-cases (get l.item_id prices)) [
  | inl e ↦ rw (e, price_line, line_ids-price_line prices ls) refl
  | inr (a, e) ↦ rw (e, price_line, line_ids-price_line prices ls) refl
]

-- A line without what the prose pass may write.
abbrev pub bare : DocumentLine → DocumentLine
bare l = record l { detail = []; assignee = none }

bare-written : (w : LineComposition) (l : DocumentLine) → bare (written_on w l) ≡ bare l
bare-written w l = elim (Bool-cases (is_empty w.detail)) [
  | inl e ↦ elim (Option-cases w.assignee) [ inl f ↦ rw (e, f) refl | inr (a, f) ↦ rw (e, f) refl ]
  | inr e ↦ elim (Option-cases w.assignee) [ inl f ↦ rw (e, f) refl | inr (a, f) ↦ rw (e, f) refl ]
]

apply_composition_from-bare :
    (composed : TextMap LineComposition) (claimed : List Text) (ls : List DocumentLine)
    → map bare (apply_composition_from composed claimed ls) ≡ map bare ls
unfolding apply_composition_from
apply_composition_from-bare composed claimed [] = refl
apply_composition_from-bare composed claimed (l ∷ ls) =
    elim (Bool-cases (member claimed l.item_id)) [
      | inl e ↦ rw (e, apply_composition_from, apply_composition_from-bare composed claimed ls) refl
      | inr e ↦ elim (Option-cases (get l.item_id composed)) [
        | inl f ↦
            rw (e, f, apply_composition_from, apply_composition_from-bare composed claimed ls) refl
        | inr (w, f) ↦
            rw
              (
                e,
                f,
                apply_composition_from,
                apply_composition_from-bare composed (l.item_id ∷ claimed) ls,
                bare-written w l,
              )
              refl
      ]
    ]

pub apply_composition-bare :
    (composed : TextMap LineComposition) (ls : List DocumentLine)
    → map bare (apply_composition composed ls) ≡ map bare ls
unfolding apply_composition
apply_composition-bare composed ls = apply_composition_from-bare composed [] ls

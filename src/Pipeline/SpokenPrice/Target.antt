-- ===== src/Pipeline/SpokenPrice/Target.antt =====
-- crates/murmur-core/src/pipeline/spoken_price.rs: what the two searches for a line give.
use sitewalk.Base.{
  ℕ, ◌≡◌, refl, Bool, true, false, not, Option, none, some, List, [], ◌∷◌, any, is_empty,
  Bool-cases, arith, inl, inr,
}
use sitewalk.Base.Text.{Text}
use sitewalk.Base.CharTables.{CharTables}
use sitewalk.Base.Float.{Floats}
use sitewalk.Base.Members.{In}
use sitewalk.Pipeline.SpokenPrice.Label.{tokenize, member}
use sitewalk.Pipeline.SpokenPrice.{
  Line, is_open, is_candidate, aboutness, better, target_from, target_for, is_covered,
  first_covered, fully_covered_by,
}

abbrev pub Found : (Line → Bool) → List Line → Option Line → Type 0
Found p ls none = Unit
Found p ls (some t) = In t ls × (p t ≡ true)

Found-later :
    (p : Line → Bool) (l : Line) (ls : List Line) (o : Option Line)
    → Found p ls o
    → Found p (l ∷ ls) o
Found-later p l ls none f = tt
Found-later p l ls (some t) f = (inr f.0, f.1)

module _ (fl : Floats) (tables : CharTables) (words : List Text) (claimed : List ℕ) where
  better-Found :
      (ls : List Line) (p : Line → Bool) (best : Option Line) (l : Line)
      → Found p ls best
      → In l ls
      → p l ≡ true
      → Found p ls (better fl tables words best l)
  unfolding better
  better-Found ls p none l f i h = (i, h)
  better-Found ls p (some top) l f i h =
      elim (Bool-cases (fl.le_f64 (aboutness fl tables words l) (aboutness fl tables words top))) [
        | inl e ↦ rw e f
        | inr e ↦ rw e (i, h)
      ]

  target_from-Found :
      (ls rest : List Line) (best : Option Line)
      → ((l : Line) → In l rest → In l ls)
      → Found (is_candidate fl tables words claimed) ls best
      → Found
          (is_candidate fl tables words claimed)
          ls
          (target_from fl tables words claimed best rest)
  unfolding target_from
  target_from-Found ls [] best sub f = f
  target_from-Found ls (l ∷ rest) best sub f =
      target_from-Found ls rest _ (λ m i. sub m (inr i))
        (elim (Bool-cases (is_candidate fl tables words claimed l)) [
          | inl e ↦ rw e (better-Found ls _ best l f (sub l (inl refl)) e)
          | inr e ↦ rw e f
        ])

  pub target_for-Found :
      (ls : List Line)
      → Found (is_candidate fl tables words claimed) ls (target_for fl tables words claimed ls)
  unfolding target_for
  target_for-Found ls = elim (Bool-cases (is_empty words)) [
    | inl e ↦ rw e tt
    | inr e ↦ rw e (target_from-Found ls ls none (λ l i. i) tt)
  ]

  first_covered-Found :
      (ls : List Line)
      → Found (is_covered fl tables words claimed) ls (first_covered fl tables words claimed ls)
  unfolding first_covered
  first_covered-Found [] = tt
  first_covered-Found (l ∷ ls) = elim (Bool-cases (is_covered fl tables words claimed l)) [
    | inl e ↦ rw e (inl refl, e)
    | inr e ↦
        rw e
          (Found-later _ l ls (first_covered fl tables words claimed ls) (first_covered-Found ls))
  ]

  pub fully_covered_by-Found :
      (ls : List Line)
      → Found (is_covered fl tables words claimed) ls (fully_covered_by fl tables words claimed ls)
  unfolding fully_covered_by
  fully_covered_by-Found ls = elim (Bool-cases (is_empty words)) [
    | inl e ↦ rw e tt
    | inr e ↦ rw e (first_covered-Found ls)
  ]

  pub candidate-means :
      (l : Line)
      → is_candidate fl tables words claimed l ≡ true
      → (is_open claimed l ≡ true) × (any (member words) (tokenize tables l.item.text) ≡ true)
  unfolding is_candidate
  candidate-means l h = ground arith

  pub covered-means :
      (l : Line)
      → is_covered fl tables words claimed l ≡ true
      → (is_open claimed l ≡ true)
        × (is_empty (tokenize tables l.item.text) ≡ false)
        × (any (λ t. not (member words t)) (tokenize tables l.item.text) ≡ false)
  unfolding is_covered
  covered-means l h = ground arith

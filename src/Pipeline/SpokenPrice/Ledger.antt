-- ===== src/Pipeline/SpokenPrice/Ledger.antt =====
-- crates/murmur-core/src/pipeline/spoken_price.rs: the amounts and the folded ids as a ledger, and
-- what one entry does to its sum.
use sitewalk.Base.{
  ℕ, ◌+◌, ◌≡◌, refl, sym, false, Option, none, some, List, [], ◌∷◌, if◌then◌else◌, All, arith, inl,
  inr,
}
use mathlib.Core.Path.{subst}
use sitewalk.Base.Text.{Text, text_eq_iff, text_eq_refl}
use sitewalk.Base.TextMap.{TextMap, get, insert, get-insert}
use sitewalk.Base.Members.{In, AreDistinct, Differs, Differs-sym, In-All}
use sitewalk.Pipeline.SpokenPrice.Label.{member}

abbrev pub or_zero : Option ℕ → ℕ
or_zero none = 0
or_zero (some n) = n

-- What the line of an id adds to the document's amounts.
abbrev pub paper : TextMap ℕ → List Text → Text → ℕ
paper amounts folded k = if member folded k then 0 else or_zero (get k amounts)

abbrev pub paper_sum : TextMap ℕ → List Text → List Text → ℕ
paper_sum amounts folded [] = 0
paper_sum amounts folded (k ∷ ks) = paper amounts folded k + paper_sum amounts folded ks

abbrev pub IsUntouched : TextMap ℕ → List Text → Text → Type 0
IsUntouched amounts folded k = (get k amounts ≡ none) × (member folded k ≡ false)

-- The line of this id stays in the document, with this amount.
abbrev pub IsPaid : TextMap ℕ → List Text → Text → ℕ → Type 0
IsPaid amounts folded k cents = (get k amounts ≡ some cents) × (member folded k ≡ false)

module _ (amounts : TextMap ℕ) (folded : List Text) where
  paper-insert :
      (j k : Text) (cents : ℕ)
      → Differs j k
      → paper (insert j cents amounts) folded k ≡ paper amounts folded k
  paper-insert j k cents d = let g = get-insert j k cents amounts in rw (g, d) refl

  paper_sum-insert_other :
      (j : Text) (cents : ℕ) (ks : List Text)
      → All (Differs j) ks
      → paper_sum (insert j cents amounts) folded ks ≡ paper_sum amounts folded ks
  paper_sum-insert_other j cents [] d = refl
  paper_sum-insert_other j cents (k ∷ ks) d =
      omega (arith, paper-insert j k cents d.0, paper_sum-insert_other j cents ks d.1)

  paper-insert_self :
      (j : Text) (cents : ℕ)
      → IsUntouched amounts folded j
      → (paper (insert j cents amounts) folded j ≡ cents) × (paper amounts folded j ≡ 0)
  paper-insert_self j cents u =
      let g = get-insert j j cents amounts in (rw (g, text_eq_refl j, u.1) refl, rw (u.1, u.0) refl)

  paper_sum-insert_head :
      (k : Text) (cents : ℕ) (ks : List Text)
      → All (Differs k) ks
      → IsUntouched amounts folded k
      → paper_sum (insert k cents amounts) folded (k ∷ ks)
        ≡ cents + paper_sum amounts folded (k ∷ ks)
  paper_sum-insert_head k cents ks d u = omega (
    arith,
    (paper-insert_self k cents u).0,
    (paper-insert_self k cents u).1,
    paper_sum-insert_other k cents ks d,
  )

  pub paper_sum-insert :
      (j : Text) (cents : ℕ) (ks : List Text)
      → AreDistinct ks
      → In j ks
      → IsUntouched amounts folded j
      → paper_sum (insert j cents amounts) folded ks ≡ cents + paper_sum amounts folded ks
  paper_sum-insert j cents [] d i u = absurd i
  paper_sum-insert j cents (k ∷ ks) d (inl e) u =
      subst
        (λ x.
          paper_sum (insert x cents amounts) folded (k ∷ ks)
          ≡ cents + paper_sum amounts folded (k ∷ ks))
        (sym e) (paper_sum-insert_head k cents ks d.0 (subst (IsUntouched amounts folded) e u))
  paper_sum-insert j cents (k ∷ ks) d (inr i) u = omega (
    arith,
    paper-insert j k cents (Differs-sym k j (In-All (Differs k) j ks i d.0)),
    paper_sum-insert j cents ks d.1 i u,
  )

  pub paper_sum-fold :
      (j : Text) (ks : List Text)
      → get j amounts ≡ none
      → paper_sum amounts (j ∷ folded) ks ≡ paper_sum amounts folded ks
  paper_sum-fold j [] e = refl
  paper_sum-fold j (k ∷ ks) e = ground (arith, text_eq_iff k j, paper_sum-fold j ks e)

  pub IsUntouched-insert :
      (j k : Text) (cents : ℕ)
      → Differs j k
      → IsUntouched amounts folded k
      → IsUntouched (insert j cents amounts) folded k
  IsUntouched-insert j k cents d u = let g = get-insert j k cents amounts in (rw (g, d) u.0, u.1)

  pub IsUntouched-fold :
      (j k : Text) → Differs j k → IsUntouched amounts folded k → IsUntouched amounts (j ∷ folded) k
  IsUntouched-fold j k d u = (u.0, rw (Differs-sym j k d) u.1)

  pub IsPaid-insert :
      (j k : Text) (cents c : ℕ)
      → IsUntouched amounts folded j
      → IsPaid amounts folded k c
      → IsPaid (insert j cents amounts) folded k c
  IsPaid-insert j k cents c u p =
      ground (arith, get-insert j k cents amounts, text_eq_iff j k, u.0, p.0, p.1)

  pub IsPaid-fold :
      (j k : Text) (c : ℕ)
      → get j amounts ≡ none
      → IsPaid amounts folded k c
      → IsPaid amounts (j ∷ folded) k c
  IsPaid-fold j k c e p = ground (arith, text_eq_iff k j, e, p.0, p.1)

  pub IsPaid-self :
      (j : Text) (cents : ℕ)
      → IsUntouched amounts folded j
      → IsPaid (insert j cents amounts) folded j cents
  IsPaid-self j cents u = let g = get-insert j j cents amounts in (rw (g, text_eq_refl j) refl, u.1)

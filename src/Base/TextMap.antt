-- ===== src/Base/TextMap.antt =====
-- `BTreeMap<String, V>` as an association list in the order of its keys.
use mathlib.Core.Path.{◌≡◌, refl}
use mathlib.Core.Logic.{inl, inr}
use mathlib.Core.Bool.{true, false}
use mathlib.Core.Option.{Option, none, some}
use mathlib.Core.List.{List, [], ◌∷◌}
use native.Mathlib.Omega.{arith}
use sitewalk.Base.Tests.{if◌then◌else◌, Bool-cases}
use sitewalk.Base.Text.{Text, text_eq, text_ltb, text_eq_iff, text_ltb_trans, text_ltb_total}

text_eq-false_sym : (j k : Text) → text_eq j k ≡ false → text_eq k j ≡ false
text_eq-false_sym j k h = ground (arith, text_eq_iff j k, text_eq_iff k j)

text_ltb_after : (k j : Text) → text_eq j k ≡ false → text_ltb k j ≡ false → text_ltb j k ≡ true
text_ltb_after k j e l = text_ltb_total k j (text_eq-false_sym j k e) l

abbrev pub TextMap {ℓ} : Type ℓ → Type ℓ
TextMap V = List (Text × V)

module _ {ℓ} {V : Type ℓ} where
  unfoldable pub get : Text → TextMap V → Option V
  get k [] = none
  get k ((j, v) ∷ m) = let rest = get k m in if text_eq j k then some v else rest

  -- A new key goes before the first greater one.
  unfoldable pub insert : Text → V → TextMap V → TextMap V
  insert k v [] = (k, v) ∷ []
  insert k v ((j, w) ∷ m) =
      let rest = insert k v m in
      if text_eq j k
      then (k, v) ∷ m
      else if text_ltb k j
      then (k, v) ∷ (j, w) ∷ m
      else (j, w) ∷ rest

  unfoldable pub remove : Text → TextMap V → TextMap V
  remove k [] = []
  remove k ((j, v) ∷ m) = let rest = remove k m in if text_eq j k then rest else (j, v) ∷ rest

  abbrev pub Above : Text → TextMap V → Type 0
  Above k [] = Unit
  Above k ((j, v) ∷ m) = (text_ltb k j ≡ true) × Above k m

  -- Strictly increasing keys.
  abbrev pub Sorted : TextMap V → Type 0
  Sorted [] = Unit
  Sorted ((k, v) ∷ m) = Above k m × Sorted m

module _ {ℓ} {V : Type ℓ} where
  pub get-insert :
      (k j : Text) (v : V) (m : TextMap V)
      → get j (insert k v m) ≡ (if text_eq k j then some v else get j m)
  unfolding get insert
  get-insert k j v [] = refl
  get-insert k j v ((i, w) ∷ m) =
      ground (arith, text_eq_iff k j, text_eq_iff i k, text_eq_iff i j, get-insert k j v m)

  pub get-remove :
      (k j : Text) (m : TextMap V) → get j (remove k m) ≡ (if text_eq k j then none else get j m)
  unfolding get remove
  get-remove k j [] = ground arith
  get-remove k j ((i, w) ∷ m) =
      ground (arith, text_eq_iff i k, text_eq_iff i j, text_eq_iff k j, get-remove k j m)

  Above-insert :
      (h k : Text) (v : V) (m : TextMap V)
      → text_ltb h k ≡ true
      → Above h m
      → Above h (insert k v m)
  unfolding insert
  Above-insert h k v [] p a = (p, tt)
  Above-insert h k v ((j, w) ∷ m) p a = elim (Bool-cases (text_eq j k)) [
    | inl e ↦ rw e (p, a.1)
    | inr e ↦ elim (Bool-cases (text_ltb k j)) [
      | inl l ↦ rw (e, l) (p, a)
      | inr l ↦ rw (e, l) (a.0, Above-insert h k v m p a.1)
    ]
  ]

  Above-trans : (h k : Text) (m : TextMap V) → text_ltb h k ≡ true → Above k m → Above h m
  Above-trans h k [] p a = tt
  Above-trans h k ((j, w) ∷ m) p a = (text_ltb_trans h k j p a.0, Above-trans h k m p a.1)

  pub Sorted-insert : (k : Text) (v : V) (m : TextMap V) → Sorted m → Sorted (insert k v m)
  unfolding insert
  Sorted-insert k v [] s = (tt, tt)
  Sorted-insert k v ((j, w) ∷ m) s = elim (Bool-cases (text_eq j k)) [
    | inl e ↦ let same : j ≡ k = (text_eq_iff j k).0 e in rw e (rw same at s.0, s.1)
    | inr e ↦ elim (Bool-cases (text_ltb k j)) [
      | inl l ↦ rw (e, l) ((l, Above-trans k j m l s.0), s)
      | inr l ↦
          rw (e, l) (Above-insert j k v m (text_ltb_after k j e l) s.0, Sorted-insert k v m s.1)
    ]
  ]

  Above-remove : (h k : Text) (m : TextMap V) → Above h m → Above h (remove k m)
  unfolding remove
  Above-remove h k [] a = tt
  Above-remove h k ((j, w) ∷ m) a = elim (Bool-cases (text_eq j k)) [
    | inl e ↦ rw e (Above-remove h k m a.1)
    | inr e ↦ rw e (a.0, Above-remove h k m a.1)
  ]

  pub Sorted-remove : (k : Text) (m : TextMap V) → Sorted m → Sorted (remove k m)
  unfolding remove
  Sorted-remove k [] s = tt
  Sorted-remove k ((j, w) ∷ m) s = elim (Bool-cases (text_eq j k)) [
    | inl e ↦ rw e (Sorted-remove k m s.1)
    | inr e ↦ rw e (Above-remove j k m s.0, Sorted-remove k m s.1)
  ]

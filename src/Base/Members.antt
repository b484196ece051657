-- ===== src/Base/Members.antt =====
-- Membership that keeps its position, and lists of texts without repetition.
use mathlib.Core.Path.{◌≡◌, sym, ap, ◌∙◌}
use mathlib.Core.Logic.{◌⊎◌, inl, inr}
use mathlib.Core.Bool.{false}
use mathlib.Core.List.{List, [], ◌∷◌, map}
use native.Mathlib.Omega.{arith}
use sitewalk.Base.Lists.{All}
use sitewalk.Base.Text.{Text, text_eq, text_eq_iff}

abbrev pub In : {A : Type 0} → A → List A → Type 0
In a [] = ⊥
In a (x ∷ xs) = (a ≡ x) ⊎ In a xs

pub In-All {κ} : {A : Type 0} (P : A → Type κ) (a : A) (xs : List A) → In a xs → All P xs → P a
In-All P a [] i h = absurd i
In-All P a (x ∷ xs) (inl e) h = rw e h.0
In-All P a (x ∷ xs) (inr i) h = In-All P a xs i h.1

pub In-map : {A B : Type 0} (f : A → B) (a : A) (xs : List A) → In a xs → In (f a) (map f xs)
In-map f a [] i = absurd i
In-map f a (x ∷ xs) (inl e) = inl (ap f e)
In-map f a (x ∷ xs) (inr i) = inr (In-map f a xs i)

abbrev pub Differs : Text → Text → Type 0
Differs k j = text_eq k j ≡ false

abbrev pub AreDistinct : List Text → Type 0
AreDistinct [] = Unit
AreDistinct (k ∷ ks) = All (Differs k) ks × AreDistinct ks

pub Differs-sym : (k j : Text) → Differs k j → Differs j k
Differs-sym k j h = ground (arith, text_eq_iff j k, text_eq_iff k j)

head-Differs :
    {A : Type 0} (key : A → Text) (x b : A) (xs : List A)
    → All (Differs (key x)) (map key xs)
    → In b xs
    → Differs (key x) (key b)
head-Differs key x b xs d j = In-All (Differs (key x)) (key b) (map key xs) (In-map key b xs j) d

clash : {A : Type 0} (key : A → Text) (x b : A) → key x ≡ key b → Differs (key x) (key b) → ⊥
clash key x b e d = ground (arith, text_eq_iff (key x) (key b), e)

-- Two members with one key are the same, if no key occurs twice.
pub same_member :
    {A : Type 0} (key : A → Text) (a b : A) (xs : List A)
    → AreDistinct (map key xs)
    → In a xs
    → In b xs
    → key a ≡ key b
    → a ≡ b
same_member key a b [] d i j k = absurd i
same_member key a b (x ∷ xs) d (inl e) (inl f) k = e ∙ sym f
same_member key a b (x ∷ xs) d (inl e) (inr j) k =
    absurd (clash key x b (ap key (sym e) ∙ k) (head-Differs key x b xs d.0 j))
same_member key a b (x ∷ xs) d (inr i) (inl f) k =
    absurd (clash key x a (ap key (sym f) ∙ sym k) (head-Differs key x a xs d.0 i))
same_member key a b (x ∷ xs) d (inr i) (inr j) k = same_member key a b xs d.1 i j k

-- ===== src/Store/Schemas/Validate.antt =====
-- crates/murmur-core/src/store/schemas.rs: what a schema must be to be saved.
use sitewalk.Base.{
  ℕ, ◌≡◌, ◌↔◌, refl, Bool, true, false, List, [], ◌∷◌, ◌++◌, if◌then◌else◌, length, keep, any,
  is_empty, ◌==◌, All, Bool-cases, inl, inr, drop_while, ==_iff,
}
use sitewalk.Base.Text.{Text, codes, text_eq, is_whitespace}
use sitewalk.Base.Text.Split.{join}
use sitewalk.Base.Result.{Result, ok, err}
use sitewalk.Harness.Llm.{show_nat}
use sitewalk.Store.Domain.{CoreError, invalid_state}
use sitewalk.Store.Domain.Documents.{
  SchemaField, SchemaSection, DocumentSchema, line_items, valid_section_kinds, valid_field_kinds,
  valid_fill_kinds,
}

-- `s.trim().is_empty()`
abbrev pub is_blank : Text → Bool
is_blank s = is_empty (drop_while is_whitespace s)

abbrev pub allows : List Text → Text → Bool
allows kinds kind = any (text_eq kind) kinds

abbrev pub Check : Type 0
Check = Result CoreError (Unit {0})

invalid : Text → Check
invalid message = err (invalid_state message)

one_of : Text → Text → List Text → Check
unfolding invalid
one_of what kind kinds =
    if allows kinds kind
    then ok tt
    else invalid (
        codes "invalid "
        ++ (what
            ++ (codes " '" ++ (kind ++ (codes "'; must be one of: " ++ join (codes ", ") kinds)))))

check_blank : Text → Text → Check
unfolding invalid
check_blank what s =
    if is_blank s then invalid (codes "schema " ++ (what ++ codes " is empty")) else ok tt

-- `?`
and_then : Check → Check → Check
and_then (ok u) c = c
and_then (err e) c = err e

check_each : {A : Type 0} → (A → Check) → List A → Check
unfolding and_then
check_each f [] = ok tt
check_each f (x ∷ xs) = and_then (f x) (check_each f xs)

unfoldable pub check_field : SchemaField → Check
unfolding one_of and_then
check_field field =
    and_then (one_of (codes "field kind") field.kind valid_field_kinds)
      (one_of (codes "fill") field.fill valid_fill_kinds)

unfoldable pub check_section : SchemaSection → Check
unfolding check_field check_each one_of and_then
check_section section =
    and_then (one_of (codes "section kind") section.kind valid_section_kinds)
      (check_each check_field section.fields)

abbrev pub is_line_items : SchemaSection → Bool
is_line_items section = text_eq section.kind line_items

unfoldable pub check_count : ℕ → Check
unfolding invalid
check_count n =
    if n == 1
    then ok tt
    else invalid (
        codes "a schema must have exactly one line_items section (found "
        ++ (show_nat n ++ codes ")"))

unfoldable pub validate_schema : DocumentSchema → Check
unfolding check_blank check_section check_each check_count and_then
validate_schema schema = and_then (check_blank (codes "kind") schema.kind) (
    and_then (check_blank (codes "label") schema.label) (
      and_then (check_blank (codes "number_prefix") schema.number_prefix) (
        and_then (check_each check_section schema.sections)
          (check_count (length (keep is_line_items schema.sections))))))

-- What a valid schema is, said directly.
abbrev pub IsValidField : SchemaField → Type 0
IsValidField field =
    (allows valid_field_kinds field.kind ≡ true) × (allows valid_fill_kinds field.fill ≡ true)

abbrev pub IsValidSection : SchemaSection → Type 0
IsValidSection section =
    (allows valid_section_kinds section.kind ≡ true) × All IsValidField section.fields

pub record IsValidSchema (schema : DocumentSchema) : Type 0 where
  pub kind : is_blank schema.kind ≡ false
  pub label : is_blank schema.label ≡ false
  pub number_prefix : is_blank schema.number_prefix ≡ false
  pub sections : All IsValidSection schema.sections
  pub one_line_items : length (keep is_line_items schema.sections) ≡ 1

and_then-ok : (a b : Check) → and_then a b ≡ ok tt → (a ≡ ok tt) × (b ≡ ok tt)
unfolding and_then
and_then-ok (ok u) b h = (refl, h)
and_then-ok (err e) b h = absurd (cc h)

and_then-both : (a b : Check) → a ≡ ok tt → b ≡ ok tt → and_then a b ≡ ok tt
unfolding and_then
and_then-both (ok u) b h k = k
and_then-both (err e) b h k = cc

refused : (message : Text) → invalid message ≡ ok tt → ⊥
unfolding invalid
refused message h = cc

-- Both ways at once, since a check and its predicate go together.
abbrev Decides : Check → Type 0 → Type 0
Decides c P = (c ≡ ok tt → P) × (P → c ≡ ok tt)

and_then-Decides :
    (a b : Check) {P Q : Type 0} → Decides a P → Decides b Q → Decides (and_then a b) (P × Q)
and_then-Decides a b p q = (
  λ h. let (k, l) = and_then-ok a b h in (p.0 k, q.0 l),
  λ h. and_then-both a b (p.1 h.0) (q.1 h.1),
)

check_each-Decides :
    {A : Type 0} (f : A → Check) (P : A → Type 0) (xs : List A)
    → ((x : A) → Decides (f x) (P x))
    → Decides (check_each f xs) (All P xs)
unfolding check_each
check_each-Decides f P [] d = (λ h. tt, λ h. refl)
check_each-Decides f P (x ∷ xs) d =
    and_then-Decides (f x) (check_each f xs) (d x) (check_each-Decides f P xs d)

one_of-Decides :
    (what kind : Text) (kinds : List Text)
    → Decides (one_of what kind kinds) (allows kinds kind ≡ true)
unfolding one_of
one_of-Decides what kind kinds = elim (Bool-cases (allows kinds kind)) [
  | inl e ↦ (λ h. e, λ h. rw h refl)
  | inr e ↦ (λ h. absurd (refused _ (rw e at h)), λ h. rw h refl)
]

check_blank-Decides : (what s : Text) → Decides (check_blank what s) (is_blank s ≡ false)
unfolding check_blank
check_blank-Decides what s = elim (Bool-cases (is_blank s)) [
  | inr e ↦ (λ h. e, λ h. rw h refl)
  | inl e ↦ (λ h. absurd (refused _ (rw e at h)), λ h. rw h refl)
]

check_count-Decides : (n : ℕ) → Decides (check_count n) (n ≡ 1)
unfolding check_count
check_count-Decides n = elim (Bool-cases (n == 1)) [
  | inl e ↦ (λ h. (==_iff n 1).0 e, λ h. rw e refl)
  | inr e ↦ (λ h. absurd (refused _ (rw e at h)), λ h. rw ((==_iff n 1).1 h) refl)
]

check_field-Decides : (field : SchemaField) → Decides (check_field field) (IsValidField field)
unfolding check_field
check_field-Decides field =
    and_then-Decides _ _ (one_of-Decides (codes "field kind") field.kind valid_field_kinds)
      (one_of-Decides (codes "fill") field.fill valid_fill_kinds)

check_section-Decides :
    (section : SchemaSection) → Decides (check_section section) (IsValidSection section)
unfolding check_section
check_section-Decides section =
    and_then-Decides _ _ (one_of-Decides (codes "section kind") section.kind valid_section_kinds)
      (check_each-Decides check_field IsValidField section.fields check_field-Decides)

-- The checks pass exactly on valid schemas.
pub validate_schema_iff :
    (schema : DocumentSchema) → (validate_schema schema ≡ ok tt) ↔ IsValidSchema schema
unfolding validate_schema
validate_schema_iff schema =
    let parts = and_then-Decides _ _ (check_blank-Decides (codes "kind") schema.kind) (
      and_then-Decides _ _ (check_blank-Decides (codes "label") schema.label) (
        and_then-Decides _ _ (check_blank-Decides (codes "number_prefix") schema.number_prefix) (
          and_then-Decides _ _
            (check_each-Decides check_section IsValidSection schema.sections check_section-Decides)
            (check_count-Decides (length (keep is_line_items schema.sections)))))) in
    (
      λ h.
          let p = parts.0 h in
          record {
            kind = p.0;
            label = p.1.0;
            number_prefix = p.1.1.0;
            sections = p.1.1.1.0;
            one_line_items = p.1.1.1.1;
          },
      λ v. parts.1 (v.kind, (v.label, (v.number_prefix, (v.sections, v.one_line_items)))),
    )

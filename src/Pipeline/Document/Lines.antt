-- ===== src/Pipeline/Document/Lines.antt =====
-- crates/murmur-core/src/pipeline/document.rs: the lines and fields of a document, as they are put
-- together. Their JSON objects have one shape each, and are records.
pub mod Priced
use sitewalk.Base.{
  ℕ, suc, ◌+◌, ◌%◌, ◌^◌, Bool, true, false, Option, none, some, List, [], ◌∷◌, ◌++◌, if◌then◌else◌,
  is_empty,
}
use sitewalk.Base.Text.{Text, codes, text_eq}
use sitewalk.Base.TextMap.{TextMap, get}
use sitewalk.Store.Domain.{CapturedItem}
use sitewalk.Store.Domain.Documents.{SchemaField, SchemaSection, line_items}
use sitewalk.Pipeline.SpokenPrice.Label.{member}

pub data GapPolicy : Type 0 where
  per_pricing_kind all_gap : GapPolicy

-- `section` is always null.
pub record DocumentLine : Type 0 where
  pub id : Text
  pub title : Text
  pub detail : Text
  pub qty : Text
  pub amount_cents : Option ℕ
  pub is_gap : Bool
  pub item_id : Text
  pub assignee : Option Text

pub record LineComposition : Type 0 where
  pub detail : Text
  pub assignee : Option Text

pub record Composition : Type 0 where
  pub fields : TextMap Text
  pub lines : TextMap LineComposition

abbrev pub gap_of : GapPolicy → Bool → Bool
gap_of all_gap priced = true
gap_of per_pricing_kind priced = priced

-- `fresh` gives the ids of new lines; `n` of them are used up.
unfoldable pub render_lines :
    (ℕ → Text) → ℕ → List CapturedItem → GapPolicy → Bool → List DocumentLine
render_lines fresh n [] gap priced = []
render_lines fresh n (item ∷ items) gap priced =
    record {
      id = fresh n;
      title = item.text;
      detail = [];
      qty = item.right;
      amount_cents = none;
      is_gap = gap_of gap priced;
      item_id = item.id;
      assignee = none;
    }
    ∷ render_lines fresh (suc n) items gap priced

-- The loop with the ids that are claimed.
pub apply_prices_from : TextMap ℕ → List Text → List DocumentLine → List DocumentLine
apply_prices_from prices claimed [] = []
apply_prices_from prices claimed (line ∷ lines) = elim (member claimed line.item_id) [
  | true ↦ line ∷ apply_prices_from prices claimed lines
  | false ↦ elim (get line.item_id prices) [
    | none ↦ line ∷ apply_prices_from prices claimed lines
    | some amount ↦
        record line { amount_cents = some amount; is_gap = false }
        ∷ apply_prices_from prices (line.item_id ∷ claimed) lines
  ]
]

unfoldable pub apply_prices : TextMap ℕ → List DocumentLine → List DocumentLine
unfolding apply_prices_from
apply_prices prices lines = apply_prices_from prices [] lines

abbrev pub with_detail : Text → DocumentLine → DocumentLine
with_detail detail line = if is_empty detail then line else record line { detail = detail }

abbrev pub with_assignee : Option Text → DocumentLine → DocumentLine
with_assignee none line = line
with_assignee (some name) line = record line { assignee = some name }

abbrev pub written_on : LineComposition → DocumentLine → DocumentLine
written_on written line = with_assignee written.assignee (with_detail written.detail line)

pub apply_composition_from :
    TextMap LineComposition → List Text → List DocumentLine → List DocumentLine
apply_composition_from composed claimed [] = []
apply_composition_from composed claimed (line ∷ lines) = elim (member claimed line.item_id) [
  | true ↦ line ∷ apply_composition_from composed claimed lines
  | false ↦ elim (get line.item_id composed) [
    | none ↦ line ∷ apply_composition_from composed claimed lines
    | some written ↦
        written_on written line ∷ apply_composition_from composed (line.item_id ∷ claimed) lines
  ]
]

unfoldable pub apply_composition : TextMap LineComposition → List DocumentLine → List DocumentLine
unfolding apply_composition_from
apply_composition composed lines = apply_composition_from composed [] lines

pub record DocumentField : Type 0 where
  pub section_key : Text
  pub key : Text
  pub label : Text
  pub kind : Text
  pub fill : Text
  pub value : Option Text
  pub is_gap : Bool

-- The value of a field and whether it is a gap.
field_value : TextMap Text → SchemaField → Option Text × Bool
field_value values f =
    if text_eq f.fill (codes "static")
    then (f.static_value, false)
    else elim (get f.key values) [ some v ↦ (some v, false) | none ↦ (none, true) ]

section_fields : TextMap Text → Text → List SchemaField → List DocumentField
unfolding field_value
section_fields values section_key [] = []
section_fields values section_key (f ∷ fs) =
    let (value, is_gap) = field_value values f in
    record {
      section_key = section_key;
      key = f.key;
      label = f.label;
      kind = f.kind;
      fill = f.fill;
      value = value;
      is_gap = is_gap;
    }
    ∷ section_fields values section_key fs

unfoldable pub assemble_fields : List SchemaSection → TextMap Text → List DocumentField
unfolding section_fields
assemble_fields [] values = []
assemble_fields (section ∷ sections) values =
    let rest = assemble_fields sections values in
    if text_eq section.kind line_items
    then rest
    else section_fields values section.key section.fields ++ rest

-- A sum of `i64`s, which wraps: the bit pattern of the sum.
unfoldable pub add_cents : Option ℕ → ℕ → ℕ
add_cents none cents = cents
add_cents (some sum) cents = (sum + cents) % 2 ^ 64

unfoldable pub sum_cents : Option ℕ → List DocumentLine → Option ℕ
unfolding add_cents
sum_cents sum [] = sum
sum_cents sum (line ∷ lines) =
    sum_cents (elim line.amount_cents [ none ↦ sum | some c ↦ some (add_cents sum c) ]) lines

unfoldable pub total_cents : Bool → List DocumentLine → Option ℕ
unfolding sum_cents
total_cents priced lines = if priced then sum_cents none lines else none

unfoldable pub draws_kind : Text → Text → Bool
unfolding text_eq
draws_kind line_detail kind =
    if text_eq line_detail (codes "inclusion")
    then member (codes "todo" ∷ codes "part" ∷ codes "price" ∷ []) kind
    else (if text_eq line_detail (codes "directive")
        then member (codes "todo" ∷ codes "part" ∷ []) kind
        else true)

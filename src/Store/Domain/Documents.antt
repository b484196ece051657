-- ===== src/Store/Domain/Documents.antt =====
-- crates/murmur-core/src/domain.rs: document schemas and contacts.
use sitewalk.Base.{ℕ, Bool, Option, List, [], ◌∷◌}
use sitewalk.Base.Text.{Text, codes}

pub record SchemaField : Type 0 where
  pub key : Text
  pub kind : Text
  pub label : Text
  pub fill : Text
  pub static_value : Option Text
  pub hint : Option Text

pub record SchemaSection : Type 0 where
  pub key : Text
  pub kind : Text
  pub label : Text
  pub priced : Bool
  pub line_detail : Text
  pub fields : List SchemaField

pub record DocumentSchema : Type 0 where
  pub id : Text
  pub kind : Text
  pub label : Text
  pub number_prefix : Text
  pub trade_key : Option Text
  pub total_kind : Text
  pub total_label_key : Text
  pub sections : List SchemaSection
  pub schema_version : ℕ
  pub created_at : ℕ
  pub updated_at : ℕ
  pub device_id : Text

pub record Contact : Type 0 where
  pub id : Text
  pub name : Text
  pub trade : Option Text
  pub phone : Option Text
  pub notes : Option Text
  pub created_at : ℕ
  pub updated_at : ℕ
  pub device_id : Text

abbrev pub line_items : Text
line_items = codes "line_items"

abbrev pub valid_section_kinds : List Text
valid_section_kinds = line_items ∷ codes "static" ∷ codes "filled" ∷ []

abbrev pub valid_field_kinds : List Text
valid_field_kinds =
    line_items
    ∷ codes "text"
    ∷ codes "long_text"
    ∷ codes "currency"
    ∷ codes "quantity"
    ∷ codes "date"
    ∷ codes "static"
    ∷ []

abbrev pub valid_fill_kinds : List Text
valid_fill_kinds = codes "walk" ∷ codes "manual" ∷ codes "static" ∷ []

-- ===== src/Store/Schemas.antt =====
-- crates/murmur-core/src/store/schemas.rs: document schemas. The sections' JSON is taken as read back
-- as it was written.
pub mod Validate
pub mod Resolve
pub mod Upsert
pub mod Save
use sitewalk.Base.{
  ℕ, Bool, true, false, ◌&&◌, ◌||◌, Option, none, some, List, [], ◌∷◌, if◌then◌else◌, ltb, ◌==◌,
}
use sitewalk.Base.Text.{Text, codes, text_eq}
use sitewalk.Base.Result.{ok, err}
use sitewalk.Store.Domain.{not_found}
use sitewalk.Store.Domain.Documents.{DocumentSchema}
use sitewalk.Store.Op.{
  Row, Env, Op, ◌>>=◌, ◌>>◌, return, lift, read, now, new_id, is_live, find_live, update_rows,
  select_rows, live_at, insert_row, found,
}
use sitewalk.Store.Schemas.Validate.{is_blank, validate_schema}

-- `trade_key = ?1 OR trade_key IS NULL`; a comparison with NULL does not hold.
abbrev pub fits_template : Option Text → Option Text → Bool
fits_template template none = true
fits_template none (some trade) = false
fits_template (some t) (some trade) = text_eq trade t

-- `?1 IS NULL OR trade_key = ?1 OR trade_key IS NULL`
abbrev lists_for : Option Text → Option Text → Bool
lists_for none trade_key = true
lists_for (some t) trade_key = fits_template (some t) trade_key

abbrev pub is_generic : DocumentSchema → Bool
is_generic d = elim d.trade_key [ none ↦ true | some t ↦ false ]

-- `ORDER BY (trade_key IS NULL) ASC, updated_at DESC`
unfoldable pub precedes : DocumentSchema → DocumentSchema → Bool
precedes a b = elim (is_generic a) [
  | true ↦ if is_generic b then ltb b.updated_at a.updated_at else false
  | false ↦ if is_generic b then true else ltb b.updated_at a.updated_at
]

-- The first in that order of a list in the order of ids.
unfoldable pub best_from : DocumentSchema → List DocumentSchema → DocumentSchema
unfolding precedes
best_from best [] = best
best_from best (d ∷ ds) = best_from (if precedes d best then d else best) ds

unfoldable pub first_best : List DocumentSchema → Option DocumentSchema
unfolding best_from
first_best [] = none
first_best (d ∷ ds) = some (best_from d ds)

abbrev pub is_active : Text → Option Text → Row DocumentSchema → Bool
is_active kind template r =
    text_eq r.value.kind kind && (fits_template template r.value.trade_key && is_live r)

-- The columns that a save sets on a row that is there.
abbrev pub revised : DocumentSchema → ℕ → Row DocumentSchema → Row DocumentSchema
revised schema at r = record r {
  value = record r.value {
    kind = schema.kind;
    label = schema.label;
    number_prefix = schema.number_prefix;
    trade_key = schema.trade_key;
    total_kind = schema.total_kind;
    total_label_key = schema.total_label_key;
    sections = schema.sections;
    schema_version = schema.schema_version;
    updated_at = at;
  };
}

module _ {env : Env} where
  unfoldable pub get_document_schema : Text → Op env DocumentSchema
  unfolding read found find_live
  get_document_schema id =
      read (λ db. found (codes "document_schema") id (find_live id db.document_schemas))

  unfoldable pub list_document_schemas : Option Text → Op env (List DocumentSchema)
  unfolding read select_rows is_live
  list_document_schemas trade_key = read (λ db.
      ok
        (select_rows (λ r. lists_for trade_key r.value.trade_key && is_live r) db.document_schemas))

  -- The update, and the insert where it changed no row.
  unfoldable pub upsert_schema : DocumentSchema → Text → ℕ → Op env (Unit {0})
  unfolding find_live update_rows live_at insert_row
  upsert_schema schema id at s = elim (find_live id s.db.document_schemas) [
    | some _ ↦ (
      ok tt,
      record s {
        db = record s.db {
          document_schemas = update_rows (live_at id) (revised schema at) s.db.document_schemas;
        };
      },
    )
    | none ↦
        elim (insert_row id
          (record schema { id = id; created_at = at; updated_at = at; device_id = env.device_id })
          s.db.document_schemas) [
            | ok t ↦ (ok tt, record s { db = record s.db { document_schemas = t } })
            | err e ↦ (err e, s)
          ]
  ]

  unfoldable pub schema_id : DocumentSchema → Op env Text
  unfolding new_id return
  schema_id schema = if is_blank schema.id then new_id else return schema.id

  unfoldable pub save_document_schema : DocumentSchema → Op env DocumentSchema
  unfolding ◌>>=◌ ◌>>◌ lift validate_schema schema_id now upsert_schema get_document_schema
  save_document_schema schema = do
    lift (validate_schema schema)
    id ← schema_id schema
    at ← now
    upsert_schema schema id at
    get_document_schema id

  unfoldable pub change_schema :
      Text → (Row DocumentSchema → Row DocumentSchema) → Op env (Unit {0})
  unfolding update_rows live_at find_live
  change_schema id f s = elim (find_live id s.db.document_schemas) [
    | none ↦ (err (not_found (codes "document_schema") id), s)
    | some _ ↦ (
      ok tt,
      record s {
        db = record s.db { document_schemas = update_rows (live_at id) f s.db.document_schemas };
      },
    )
  ]

  unfoldable pub remove_document_schema : Text → Op env (Unit {0})
  unfolding ◌>>=◌ now change_schema
  remove_document_schema id = do
    at ← now
    change_schema id
        (λ r. record { value = record r.value { updated_at = at }; deleted_at = some at })

  unfoldable pub resolve_active_schema : Text → Option Text → Op env (Option DocumentSchema)
  unfolding read select_rows is_live first_best
  resolve_active_schema kind template =
      read (λ db. ok (first_best (select_rows (is_active kind template) db.document_schemas)))

  unfoldable pub has_active_schema : Text → Option Text → Op env Bool
  unfolding ◌>>=◌ resolve_active_schema return
  has_active_schema kind template = do
    o ← resolve_active_schema kind template
    return (elim o [ none ↦ false | some d ↦ true ])

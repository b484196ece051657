-- ===== src/Store/Schemas/Upsert.antt =====
-- crates/murmur-core/src/store/schemas.rs: the statements that store a schema.
use sitewalk.Base.{ℕ, ◌≡◌, refl, ◌∙◌, false, Option, none, some, Option-cases, arith, inl, inr, ◌⊎◌}
use sitewalk.Base.Text.{Text, codes, text_eq, text_eq_refl, text_eq_iff}
use sitewalk.Base.TextMap.{get, insert, get-insert}
use sitewalk.Base.Result.{ok, err}
use sitewalk.Store.Domain.{CoreError, sqlite}
use sitewalk.Store.Domain.Documents.{DocumentSchema}
use sitewalk.Store.Op.{
  Row, Table, Env, State, find_live, is_live, live_at, update_rows, insert_row, get-update_rows,
  updated, get-update_rows-some, find_live-row,
}
use sitewalk.Store.Schemas.{revised, upsert_schema}

-- What a save takes over from the schema that it is given.
pub record Carries (d schema : DocumentSchema) : Type 0 where
  pub kind : d.kind ≡ schema.kind
  pub label : d.label ≡ schema.label
  pub number_prefix : d.number_prefix ≡ schema.number_prefix
  pub trade_key : d.trade_key ≡ schema.trade_key
  pub total_kind : d.total_kind ≡ schema.total_kind
  pub total_label_key : d.total_label_key ≡ schema.total_label_key
  pub sections : d.sections ≡ schema.sections
  pub schema_version : d.schema_version ≡ schema.schema_version

-- The table after a save under `id`: `d` is the live row there, and every other row is as it was.
pub record Stored (schema d : DocumentSchema) (id : Text) (t t' : Table DocumentSchema)
    : Type 0 where
  pub live : find_live id t' ≡ some d
  pub carries : Carries d schema
  pub others : (k : Text) → text_eq k id ≡ false → get k t' ≡ get k t

-- A row that was deleted has the id.
abbrev pub IsTaken : Text → Table DocumentSchema → Type 0
IsTaken id t = (find_live id t ≡ none) × ((r : Row DocumentSchema) × (get id t ≡ some r))

module _ {env : Env} (schema : DocumentSchema) (id : Text) (at : ℕ) (s : State env) where
  kept :
      (k : Text)
      → text_eq k id ≡ false
      → (o : Option (Row DocumentSchema)) → updated (live_at id) (revised schema at) k o ≡ o
  unfolding live_at
  kept k n none = refl
  kept k n (some r) = rw n refl

  Stored-update :
      (a : DocumentSchema)
      → find_live id s.db.document_schemas ≡ some a
      → (d : DocumentSchema) × Stored schema d id s.db.document_schemas
          (update_rows (live_at id) (revised schema at) s.db.document_schemas)
  unfolding find_live is_live live_at
  Stored-update a e =
      let (r, here, alive, same) = find_live-row id s.db.document_schemas a e in
      let all =
        get-update_rows-some (live_at id) (revised schema at) id s.db.document_schemas r here in
      (
        (revised schema at r).value,
        record {
          live = ground (arith, all, alive, text_eq_refl id);
          carries = record {
            kind = refl;
            label = refl;
            number_prefix = refl;
            trade_key = refl;
            total_kind = refl;
            total_label_key = refl;
            sections = refl;
            schema_version = refl;
          };
          others = λ k n.
              get-update_rows (live_at id) (revised schema at) k s.db.document_schemas
              ∙ kept k n (get k s.db.document_schemas);
        },
      )

  abbrev new_row : DocumentSchema
  new_row = record schema { id = id; created_at = at; updated_at = at; device_id = env.device_id }

  Stored-insert :
      Stored schema new_row id s.db.document_schemas
        (insert id (record { value = new_row; deleted_at = none }) s.db.document_schemas)
  unfolding find_live is_live
  Stored-insert = record {
    live = ground (
      arith,
      get-insert id id (record { value = new_row; deleted_at = none }) s.db.document_schemas,
      text_eq_refl id,
    );
    carries = record {
      kind = refl;
      label = refl;
      number_prefix = refl;
      trade_key = refl;
      total_kind = refl;
      total_label_key = refl;
      sections = refl;
      schema_version = refl;
    };
    others = λ k n.
        get-insert id k (record { value = new_row; deleted_at = none }) s.db.document_schemas
        ∙ ground (arith, text_eq_iff id k, text_eq_iff k id, n);
  }

  -- The statement that stores, with its two ways to go.
  pub upsert_schema-cases :
      ((d : DocumentSchema) × (s' : State env) × (upsert_schema schema id at s ≡ (ok tt, s'))
        × Stored schema d id s.db.document_schemas s'.db.document_schemas)
      ⊎ ((x : CoreError) × (upsert_schema schema id at s ≡ (err x, s))
          × IsTaken id s.db.document_schemas)
  unfolding upsert_schema insert_row
  upsert_schema-cases = elim (Option-cases (find_live id s.db.document_schemas)) [
    | inr (a, e) ↦
        let (d, stored) = Stored-update a e in
        inl (
          d,
          record s {
            db = record s.db {
              document_schemas = update_rows (live_at id) (revised schema at) s.db.document_schemas;
            };
          },
          rw (e, upsert_schema) refl,
          stored,
        )
    | inl e ↦ elim (Option-cases (get id s.db.document_schemas)) [
      | inl f ↦ inl (
        new_row,
        record s {
          db = record s.db {
            document_schemas =
                insert id (record { value = new_row; deleted_at = none }) s.db.document_schemas;
          };
        },
        rw (e, f, upsert_schema, insert_row) refl,
        Stored-insert,
      )
      | inr (r, f) ↦ inr (
        sqlite (codes "UNIQUE constraint failed"),
        rw (e, f, upsert_schema, insert_row) refl,
        (e, (r, f)),
      )
    ]
  ]

-- ===== src/Store/Schemas/Save.antt =====
-- crates/murmur-core/src/store/schemas.rs: what a save of a schema does.
use sitewalk.Base.{
  List, [], ◌∷◌, All, map, length, keep, ◌↔◌, ℕ, suc, ◌≡◌, refl, sym, ap, ◌∙◌, false, some,
  Bool-cases, arith, inl, inr, ◌⊎◌,
}
use mathlib.Core.Path.{subst}
use sitewalk.Base.Text.{Text}
use sitewalk.Base.Result.{Result, ok, err, Result-cases}
use sitewalk.Store.Domain.{CoreError}
use sitewalk.Store.Domain.Documents.{DocumentSchema, SchemaSection}
use sitewalk.Store.Op.{
  Env, State, Op, ◌>>=◌, ◌>>◌, lift, return, now, new_id, read, found, find_live, bind-ok, bind-err,
}
use sitewalk.Store.Schemas.Validate.{
  is_line_items, IsValidSection, is_blank, validate_schema, IsValidSchema, validate_schema_iff,
}
use sitewalk.Store.Schemas.{get_document_schema, upsert_schema, schema_id, save_document_schema}
use sitewalk.Store.Schemas.Upsert.{IsTaken, Stored, upsert_schema-cases}

-- What a save says of the state before it, its result and the state after it.
unfoldable pub SavedMeans :
    {env : Env} → DocumentSchema → State env → Result CoreError DocumentSchema × State env → Type 0
SavedMeans schema s (ok d, s') =
    IsValidSchema schema
    × ((id : Text) × (is_blank schema.id ≡ false → id ≡ schema.id)
        × Stored schema d id s.db.document_schemas s'.db.document_schemas)
SavedMeans schema s (err e, s') =
    (s'.db ≡ s.db)
    × (¬ IsValidSchema schema
        ⊎ ((id : Text) × (is_blank schema.id ≡ false → id ≡ schema.id)
            × IsTaken id s.db.document_schemas))

-- The schema with another second line under every item.
abbrev pub with_detail : Text → DocumentSchema → DocumentSchema
with_detail detail schema = record schema {
  sections = map (λ (x : SchemaSection). record x { line_detail = detail }) schema.sections;
}

module _ (detail : Text) where
  detailed : List SchemaSection → List SchemaSection
  detailed = map (λ (x : SchemaSection). record x { line_detail = detail })

  detailed-All :
      (xs : List SchemaSection) → All IsValidSection (detailed xs) ↔ All IsValidSection xs
  unfolding detailed
  detailed-All [] = (λ h. h, λ h. h)
  detailed-All (x ∷ xs) =
      let rest = detailed-All xs in (λ h. (h.0, rest.0 h.1), λ h. (h.0, rest.1 h.1))

  length-detailed :
      (xs : List SchemaSection)
      → length (keep is_line_items (detailed xs)) ≡ length (keep is_line_items xs)
  unfolding detailed
  length-detailed [] = refl
  length-detailed (x ∷ xs) = elim (Bool-cases (is_line_items x)) [
    | inl e ↦ rw e (ap suc (length-detailed xs))
    | inr e ↦ rw e (length-detailed xs)
  ]

  with_detail-IsValidSchema :
      (schema : DocumentSchema) → IsValidSchema (with_detail detail schema) ↔ IsValidSchema schema
  unfolding detailed
  with_detail-IsValidSchema schema =
      let same = length-detailed schema.sections in
      let all = detailed-All schema.sections in
      (
        (λ h. record {
          kind = h.kind;
          label = h.label;
          number_prefix = h.number_prefix;
          sections = all.0 h.sections;
          one_line_items = sym same ∙ h.one_line_items;
        }),
        (λ h. record {
          kind = h.kind;
          label = h.label;
          number_prefix = h.number_prefix;
          sections = all.1 h.sections;
          one_line_items = same ∙ h.one_line_items;
        }),
      )

not_both :
    (schema : DocumentSchema) (x : CoreError)
    → validate_schema schema ≡ ok tt
    → validate_schema schema ≡ err x
    → ⊥
not_both schema x v w = cc

module _ {env : Env} (schema : DocumentSchema) where
  schema_id-cases :
      (s : State env)
      → (id : Text) × (s' : State env) × (schema_id schema s ≡ (ok id, s'))
        × (s'.db ≡ s.db)
        × (is_blank schema.id ≡ false → id ≡ schema.id)
  unfolding schema_id new_id return
  schema_id-cases s = elim (Bool-cases (is_blank schema.id)) [
    | inl e ↦ (
      env.fresh s.minted,
      record s { minted = suc s.minted },
      rw (e, schema_id) refl,
      refl,
      (λ h. absurd (ground (arith, e, h))),
    )
    | inr e ↦ (schema.id, s, rw (e, schema_id) refl, refl, (λ h. refl))
  ]

  lifted :
      (s : State env) → (lift {env = env} (validate_schema schema) s).0 ≡ validate_schema schema
  unfolding lift
  lifted s = refl

  lift-state : (s : State env) → (lift {env = env} (validate_schema schema) s).1 ≡ s
  unfolding lift
  lift-state s = refl

  now-bind :
      (f : ℕ → Op env DocumentSchema) (s : State env)
      → (now >>= f) s ≡ f (env.clock s.ticks) (record s { ticks = suc s.ticks })
  unfolding ◌>>=◌ now
  now-bind f s = refl

  get-stored :
      (id : Text) (d : DocumentSchema) (s : State env)
      → find_live id s.db.document_schemas ≡ some d
      → get_document_schema id s ≡ (ok d, s)
  unfolding get_document_schema read found
  get-stored id d s e = rw (e, found) refl

  -- The statement in `finish_save`, and what follows it.
  store_then_get : (id : Text) (at : ℕ) → Op env DocumentSchema
  store_then_get id at = upsert_schema schema id at >>= λ _. get_document_schema id

  store_then_get-means :
      (id : Text) (at : ℕ) (s : State env)
      → IsValidSchema schema
      → (is_blank schema.id ≡ false → id ≡ schema.id)
      → SavedMeans schema s (store_then_get id at s)
  unfolding SavedMeans store_then_get
  store_then_get-means id at s valid same = elim (upsert_schema-cases schema id at s) [
    | inl (d, s', e, stored) ↦
        let run : store_then_get id at s ≡ (ok d, s') =
          bind-ok (upsert_schema schema id at) (λ _. get_document_schema id) s tt (ap (λ p. p.0) e)
          ∙ ap (λ p. get_document_schema id p.1) e
          ∙ get-stored id d s' stored.live in
        subst (SavedMeans schema s) (sym run) (valid, (id, same, stored))
    | inr (x, e, taken) ↦
        let run : store_then_get id at s ≡ (err x, s) =
          bind-err (upsert_schema schema id at) (λ _. get_document_schema id) s x (ap (λ p. p.0) e)
          ∙ ap (λ p. (err x, p.1)) e in
        subst (SavedMeans schema s) (sym run) (refl, inr (id, same, taken))
  ]

  save_run :
      (s s1 : State env) (id : Text)
      → validate_schema schema ≡ ok tt
      → schema_id schema s ≡ (ok id, s1)
      → save_document_schema schema s
        ≡ store_then_get id (env.clock s1.ticks) (record s1 { ticks = suc s1.ticks })
  unfolding save_document_schema ◌>>◌ store_then_get
  save_run s s1 id v e =
      let later : ℕ → Text → Op env DocumentSchema =
        λ at k. upsert_schema schema k at >>= λ _. get_document_schema k in
      let tail : Text → Op env DocumentSchema = λ k. now >>= λ at. later at k in
      bind-ok (lift (validate_schema schema)) (λ _. schema_id schema >>= tail) s tt (lifted s ∙ v)
      ∙ ap (λ st. (schema_id schema >>= tail) st) (lift-state s)
      ∙ bind-ok (schema_id schema) tail s id (ap (λ p. p.0) e)
      ∙ ap (λ p. tail id p.1) e
      ∙ now-bind (λ at. later at id) s1

  rejected_run :
      (s : State env) (x : CoreError)
      → validate_schema schema ≡ err x
      → save_document_schema schema s ≡ (err x, s)
  unfolding save_document_schema ◌>>◌
  rejected_run s x v =
      let tail : Text → Op env DocumentSchema =
        λ k. now >>= λ at. upsert_schema schema k at >>= λ _. get_document_schema k in
      bind-err (lift (validate_schema schema)) (λ _. schema_id schema >>= tail) s x (lifted s ∙ v)
      ∙ ap (λ st. (err x, st)) (lift-state s)

  SavedMeans-before :
      (s s1 : State env) (r : Result CoreError DocumentSchema × State env)
      → s1.db ≡ s.db
      → SavedMeans schema s1 r
      → SavedMeans schema s r
  unfolding SavedMeans
  SavedMeans-before s s1 (ok d, s') e (valid, (id, same, stored)) = (
    valid,
    (
      id,
      same,
      subst (λ db. Stored schema d id db.document_schemas s'.db.document_schemas) e stored,
    ),
  )
  SavedMeans-before s s1 (err x, s') e (h, why) = (
    h ∙ e,
    subst
        (λ db.
          ¬ IsValidSchema schema
          ⊎ ((id : Text) × (is_blank schema.id ≡ false → id ≡ schema.id)
              × IsTaken id db.document_schemas))
        e why,
  )

  saved_means : (s : State env) → SavedMeans schema s (save_document_schema schema s)
  unfolding SavedMeans
  saved_means s = elim (Result-cases (validate_schema schema)) [
    | inl (u, v) ↦
        let (id, s1, e, kept_db, same) = schema_id-cases s in
        let means =
          store_then_get-means id (env.clock s1.ticks) (record s1 { ticks = suc s1.ticks })
            ((validate_schema_iff schema).0 v) same in
        subst (SavedMeans schema s) (sym (save_run s s1 id v e))
          (SavedMeans-before s (record s1 { ticks = suc s1.ticks }) _ kept_db means)
    | inr (x, v) ↦
        subst (SavedMeans schema s) (sym (rejected_run s x v))
          (refl, inl (λ valid. not_both schema x ((validate_schema_iff schema).1 valid) v))
  ]

  -- A save either stores a valid schema or changes nothing. If it succeeds, the schema is valid, and
  -- the live row with its id, a new one if it has none, is the result: all that the schema says is
  -- in it, and every other row is as it was. If it fails, the database is as before, and the schema
  -- is not valid or its id, a new one if it has none, is that of a deleted row. Validity asks for a
  -- kind, a label and a number prefix, for known kinds of sections and fields and known fills, and
  -- for one section of line items. It does not look at `line_detail`, although the source's comments
  -- say that it is one of a fixed list which a save enforces: with any text in the place of those of
  -- all sections, a schema is valid exactly if it was.
  pub save_document_schema-means :
      (s : State env)
      → SavedMeans schema s (save_document_schema schema s)
        × ((detail : Text) → IsValidSchema (with_detail detail schema) ↔ IsValidSchema schema)
  save_document_schema-means s = (saved_means s, λ detail. with_detail-IsValidSchema detail schema)

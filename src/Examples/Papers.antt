-- ===== src/Examples/Papers.antt =====
-- crates/murmur-core: schemas and documents of a store with one walk.
use sitewalk.Base.{true, Option, none, some, [], ◌∷◌, ◌≡◌, ◌↔◌}
use sitewalk.Base.Text.{Text, codes}
use sitewalk.Base.Result.{ok}
use sitewalk.Examples.Walks.{phone, opened, walked, walk_id}
use sitewalk.Store.Domain.Documents.{DocumentSchema, SchemaSection, line_items}
use sitewalk.Store.Op.{State}
use sitewalk.Store.Schemas.{resolve_active_schema, save_document_schema}
use sitewalk.Store.Schemas.Resolve.{ResolvedMeans, resolve_active_schema-means}
use sitewalk.Store.Schemas.Validate.{IsValidSchema}
use sitewalk.Store.Schemas.Save.{with_detail, SavedMeans, save_document_schema-means}
use sitewalk.Store.Documents.{mint_document_number_and_add_artifact}
use sitewalk.Store.Documents.Mint.{MintMeans, mint_document_number_and_add_artifact-means}

abbrev work_lines : SchemaSection
work_lines = record {
  key = codes "lines";
  kind = line_items;
  label = codes "Lines";
  priced = true;
  line_detail = [];
  fields = [];
}

abbrev pub estimate : DocumentSchema
estimate = record {
  id = [];
  kind = codes "estimate";
  label = codes "Estimate";
  number_prefix = codes "EST";
  trade_key = none;
  total_kind = codes "sum";
  total_label_key = codes "total";
  sections = work_lines ∷ [];
  schema_version = 1;
  created_at = 0;
  updated_at = 0;
  device_id = [];
}

save_document_schema-means_example :
    SavedMeans estimate opened (save_document_schema estimate opened)
    × ((detail : Text) → IsValidSchema (with_detail detail estimate) ↔ IsValidSchema estimate)
save_document_schema-means_example = save_document_schema-means estimate opened

abbrev saved : State phone
saved = (save_document_schema estimate opened).1

resolve_active_schema-means_example :
    (o : Option DocumentSchema) × (resolve_active_schema
        (codes "estimate")
        (some (codes "landscape"))
        saved
      ≡ (ok o, saved))
    × ResolvedMeans (codes "estimate") (some (codes "landscape")) saved.db.document_schemas o
resolve_active_schema-means_example =
    resolve_active_schema-means (codes "estimate") (some (codes "landscape")) saved

mint_document_number_and_add_artifact-means_example :
    MintMeans walk_id
      (codes "estimate")
      none
      (λ n. n ∷ [])
      walked
      (mint_document_number_and_add_artifact walk_id (codes "estimate") none (λ n. n ∷ []) walked)
mint_document_number_and_add_artifact-means_example =
    mint_document_number_and_add_artifact-means walk_id (codes "estimate") none (λ n. n ∷ []) walked

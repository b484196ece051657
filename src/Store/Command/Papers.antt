-- ===== src/Store/Command/Papers.antt =====
-- crates/murmur-core/src/store: the operations on schemas, contacts and document numbers leave
-- sessions, items and photos alone.
use sitewalk.Base.{ℕ, Option, none, some, refl, Option-cases, inl, inr}
use sitewalk.Base.Text.{Text}
use sitewalk.Base.Result.{Result}
use sitewalk.Store.Domain.{CoreError}
use sitewalk.Store.Domain.Documents.{DocumentSchema, Contact}
use sitewalk.Store.Op.{
  ◌>>=◌, ◌>>◌, return, Row, Env, lift, write, read, find_live, insert_row-cases,
}
use sitewalk.Store.Schemas.{
  get_document_schema, upsert_schema, schema_id, save_document_schema, change_schema,
  remove_document_schema,
}
use sitewalk.Store.Contacts.{
  get_contact, insert_contact, revise_contact, put_contact, upsert_contact, change_contact,
  delete_contact,
}
use sitewalk.Store.Documents.{
  bump_document_sequence, mint_document_number, document_number,
  mint_document_number_and_add_artifact,
}
use sitewalk.Store.Command.Keeps.{Keeps, Keeps-read, Keeps-return}
use sitewalk.Store.Command.Statements.{Sound, Sound-same, Sound-order}
use sitewalk.Store.Command.Operations.{steps}
use sitewalk.Store.Command.Contents.{Sound-add_artifact}

module _ {env : Env} where
  Sound-lift : {A : Type 0} (r : Result CoreError A) → Keeps {env = env} Sound (lift r)
  unfolding lift
  Sound-lift r = record { at = λ s. record { kept = Sound-order.same s.db } }

  Sound-get_document_schema : (id : Text) → Keeps {env = env} Sound (get_document_schema id)
  unfolding get_document_schema
  Sound-get_document_schema id = Keeps-read Sound-order _

  Sound-get_contact : (id : Text) → Keeps {env = env} Sound (get_contact id)
  unfolding get_contact
  Sound-get_contact id = Keeps-read Sound-order _

  Sound-upsert_schema :
      (schema : DocumentSchema) (id : Text) (at : ℕ)
      → Keeps {env = env} Sound (upsert_schema schema id at)
  unfolding upsert_schema
  Sound-upsert_schema schema id at = record {
    at = λ s. elim (Option-cases (find_live id s.db.document_schemas)) [
      | inr (a, e) ↦ record { kept = rw (e, upsert_schema) (Sound-same s.db _ refl refl refl) }
      | inl e ↦
          elim (insert_row-cases id
            (record schema { id = id; created_at = at; updated_at = at; device_id = env.device_id })
            s.db.document_schemas) [
              | inl (fresh, f) ↦ record {
                kept = rw (e, f, upsert_schema) (Sound-same s.db _ refl refl refl);
              }
              | inr (x, f) ↦ record {
                kept = rw (e, f, upsert_schema) (Sound-same s.db _ refl refl refl);
              }
            ]
    ];
  }

  Sound-schema_id : (schema : DocumentSchema) → Keeps {env = env} Sound (schema_id schema)
  unfolding schema_id
  Sound-schema_id schema = search (steps) depth 12

  pub Sound-save_schema :
      (schema : DocumentSchema) → Keeps {env = env} Sound (save_document_schema schema)
  unfolding save_document_schema
  Sound-save_schema schema =
      search (steps, Sound-lift, Sound-schema_id, Sound-upsert_schema, Sound-get_document_schema)
        depth 12

  Sound-change_schema :
      (id : Text) (f : Row DocumentSchema → Row DocumentSchema)
      → Keeps {env = env} Sound (change_schema id f)
  unfolding change_schema
  Sound-change_schema id f = record {
    at = λ s. elim (Option-cases (find_live id s.db.document_schemas)) [
      | inl e ↦ record { kept = rw (e, change_schema) (Sound-same s.db _ refl refl refl) }
      | inr (a, e) ↦ record { kept = rw (e, change_schema) (Sound-same s.db _ refl refl refl) }
    ];
  }

  pub Sound-remove_schema : (id : Text) → Keeps {env = env} Sound (remove_document_schema id)
  unfolding remove_document_schema
  Sound-remove_schema id = search (steps, Sound-change_schema) depth 12

  Sound-insert_contact : (c : Contact) → Keeps {env = env} Sound (insert_contact c)
  unfolding insert_contact
  Sound-insert_contact c = record {
    at = λ s. elim (insert_row-cases c.id c s.db.contacts) [
      | inl (fresh, e) ↦ record { kept = rw (e, insert_contact) (Sound-same s.db _ refl refl refl) }
      | inr (x, e) ↦ record { kept = rw (e, insert_contact) (Sound-same s.db _ refl refl refl) }
    ];
  }

  Sound-revise_contact :
      (trade phone notes : Option Text) (at : ℕ) (id : Text)
      → Keeps {env = env} Sound (revise_contact trade phone notes at id)
  unfolding revise_contact
  Sound-revise_contact trade phone notes at id = record {
    at = λ s. record { kept = Sound-same s.db _ refl refl refl };
  }

  Sound-put_contact :
      (name : Text) (trade phone notes : Option Text) (at : ℕ) (existing : Option Text)
      → Keeps {env = env} Sound (put_contact name trade phone notes at existing)
  unfolding put_contact
  Sound-put_contact name trade phone notes at none = search (steps, Sound-insert_contact) depth 12
  Sound-put_contact name trade phone notes at (some id) =
      search (steps, Sound-revise_contact, Sound-get_contact) depth 12

  pub Sound-upsert_contact :
      (name : Text) (trade phone notes : Option Text)
      → Keeps {env = env} Sound (upsert_contact name trade phone notes)
  unfolding upsert_contact
  Sound-upsert_contact name trade phone notes =
      search (steps, Keeps-read, Sound-put_contact) depth 12

  Sound-change_contact :
      (id : Text) (f : Row Contact → Row Contact) → Keeps {env = env} Sound (change_contact id f)
  unfolding change_contact
  Sound-change_contact id f = record {
    at = λ s. elim (Option-cases (find_live id s.db.contacts)) [
      | inl e ↦ record { kept = rw (e, change_contact) (Sound-same s.db _ refl refl refl) }
      | inr (a, e) ↦ record { kept = rw (e, change_contact) (Sound-same s.db _ refl refl refl) }
    ];
  }

  pub Sound-delete_contact : (id : Text) → Keeps {env = env} Sound (delete_contact id)
  unfolding delete_contact
  Sound-delete_contact id = search (steps, Sound-change_contact) depth 12

  Sound-bump_sequence :
      (doc_kind : Text) → Keeps {env = env} Sound (bump_document_sequence doc_kind)
  unfolding bump_document_sequence read write ◌>>=◌ ◌>>◌ return
  Sound-bump_sequence doc_kind = record {
    at = λ s. record { kept = Sound-same s.db _ refl refl refl };
  }

  pub Sound-mint_number :
      (doc_kind : Text) → Keeps {env = env} Sound (mint_document_number doc_kind)
  unfolding mint_document_number
  Sound-mint_number doc_kind = search (steps, Sound-bump_sequence) depth 12

  Sound-document_number :
      (doc_kind : Text) (existing : Option ℕ)
      → Keeps {env = env} Sound (document_number doc_kind existing)
  unfolding document_number
  Sound-document_number doc_kind none = Sound-bump_sequence doc_kind
  Sound-document_number doc_kind (some n) = Keeps-return Sound-order n

  pub Sound-mint_document :
      (session_id doc_kind : Text) (existing : Option ℕ) (body : ℕ → Text)
      → Keeps {env = env} Sound
          (mint_document_number_and_add_artifact session_id doc_kind existing body)
  unfolding mint_document_number_and_add_artifact
  Sound-mint_document session_id doc_kind existing body =
      search (steps, Sound-document_number, Sound-add_artifact) depth 12

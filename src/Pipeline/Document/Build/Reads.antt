-- ===== src/Pipeline/Document/Build/Reads.antt =====
-- crates/murmur-core/src/pipeline/document.rs: a build reads the store before it writes.
use sitewalk.Base.{◌≡◌, refl, ap, ◌∙◌, Bool, true, false, Option, none, some, arith, inl, inr}
use sitewalk.Base.Text.{Text}
use sitewalk.Base.Result.{Result-cases}
use sitewalk.Harness.Llm.{Usage}
use sitewalk.Store.Domain.{
  SessionStatus, recording, awaiting_processing, processed, failed, LlmUsageRow,
}
use sitewalk.Store.Domain.Documents.{DocumentSchema}
use sitewalk.Store.Op.{
  Env, State, Op, ◌>>=◌, ◌>>◌, return, fail, read, now, new_id, bind-ok, bind-err,
}
use sitewalk.Store.Sessions.{get_session}
use sitewalk.Store.Items.{list_items_for_session}
use sitewalk.Store.Usage.{record_llm_usage, insert_usage}
use sitewalk.Store.Schemas.{has_active_schema, resolve_active_schema}
use sitewalk.Pipeline.Document.Build.{require_processed, require_schema, require, read_draft}

module _ {env : Env} where
  -- An operation that leaves the state as it is.
  pub record Reads {A : Type 0} (m : Op env A) : Type 0 where
    pub reads : (s : State env) → (m s).1 ≡ s

  bind-Reads :
      {A B : Type 0} {m : Op env A} {f : A → Op env B}
      → Reads m
      → ((a : A) → Reads (f a))
      → Reads (m >>= f)
  bind-Reads {m = m} {f = f} r q = record {
    reads = λ s. elim (Result-cases (m s).0) [
      | inl (a, e) ↦ ap (λ p. p.1) (bind-ok m f s a e) ∙ (q a).reads (m s).1 ∙ r.reads s
      | inr (x, e) ↦ ap (λ p. p.1) (bind-err m f s x e) ∙ r.reads s
    ];
  }

  then-Reads : {A B : Type 0} {m : Op env A} {n : Op env B} → Reads m → Reads n → Reads (m >> n)
  unfolding ◌>>◌
  then-Reads {m = m} {n = n} r q = record {
    reads = λ s. (bind-Reads {m = m} {f = λ _. n} r (λ _. q)).reads s;
  }

  require-Reads : (b : Bool) (message : Text) → Reads (require b message)
  unfolding require return fail
  require-Reads true message = record { reads = λ s. refl }
  require-Reads false message = record { reads = λ s. refl }

  require_processed-Reads : (status : SessionStatus) → Reads (require_processed status)
  unfolding require_processed return fail
  require_processed-Reads recording = record { reads = λ s. refl }
  require_processed-Reads awaiting_processing = record { reads = λ s. refl }
  require_processed-Reads processed = record { reads = λ s. refl }
  require_processed-Reads failed = record { reads = λ s. refl }

  require_schema-Reads : (k t : Text) (o : Option DocumentSchema) → Reads (require_schema k t o)
  unfolding require_schema return fail
  require_schema-Reads k t none = record { reads = λ s. refl }
  require_schema-Reads k t (some d) = record { reads = λ s. refl }

  get_session-Reads : (id : Text) → Reads (get_session id)
  unfolding get_session read
  get_session-Reads id = record { reads = λ s. refl }

  resolve-Reads : (k : Text) (t : Option Text) → Reads (resolve_active_schema k t)
  unfolding resolve_active_schema read
  resolve-Reads k t = record { reads = λ s. refl }

  has-Reads : (k : Text) (t : Option Text) → Reads (has_active_schema k t)
  unfolding has_active_schema resolve_active_schema read ◌>>=◌ return
  has-Reads k t = record { reads = λ s. refl }

  items-Reads : (id : Text) → Reads (list_items_for_session id)
  unfolding list_items_for_session read
  items-Reads id = record { reads = λ s. refl }

  return-Reads : {A : Type 0} (a : A) → Reads (return a)
  unfolding return
  return-Reads a = record { reads = λ s. refl }

  pub read_draft-Reads : (debug : Option Text → Text) (id k : Text) → Reads (read_draft debug id k)
  unfolding read_draft
  read_draft-Reads debug id k =
      search
        (
          bind-Reads, then-Reads, require-Reads, require_processed-Reads, require_schema-Reads,
          get_session-Reads, resolve-Reads, has-Reads, items-Reads, return-Reads,
        )
        depth 20

  -- The usage is logged after the artifact is stored, and leaves it.
  insert_usage-artifacts :
      (u : LlmUsageRow) (s : State env) → (insert_usage u s).1.db.artifacts ≡ s.db.artifacts
  unfolding insert_usage
  insert_usage-artifacts u s = ground arith

  pub record_llm_usage-artifacts :
      (id : Option Text) (purpose : Text) (usage : Usage) (s : State env)
      → (record_llm_usage id purpose usage s).1.db.artifacts ≡ s.db.artifacts
  unfolding record_llm_usage ◌>>=◌ now new_id
  record_llm_usage-artifacts id purpose usage s = insert_usage-artifacts _ _

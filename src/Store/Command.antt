-- ===== src/Store/Command.antt =====
-- crates/murmur-core/src/store: the operations that change the store, as commands, and their runs.
pub mod Keeps
pub mod Forward
pub mod Links
pub mod Statements
pub mod Updates
pub mod Cascades
pub mod Attachments
pub mod Guards
pub mod Operations
pub mod Contents
pub mod Papers
pub mod Course
use sitewalk.Base.{ℕ, Bool, Option, none, some, List, [], ◌∷◌}
use sitewalk.Base.Text.{Text}
use sitewalk.Base.Result.{ok, err}
use sitewalk.Harness.Llm.{Usage}
use sitewalk.Store.Domain.{JobStatus, NewJob, SessionStatus, ItemSource}
use sitewalk.Store.Op.{Env, State, Op, ◌>>◌, return}
use sitewalk.Store.Jobs.{create_job, update_job_status, delete_job}
use sitewalk.Store.Usage.{
  record_llm_usage, record_session_completed, record_correction, store_reflection,
  finish_reflection,
}
use sitewalk.Store.Sessions.{
  start_session, append_transcript, set_session_template, start_session_with_template,
  set_session_job, end_session, end_and_record_session, mark_session_processed, mark_session_failed,
  sweep_zombie_sessions,
}
use sitewalk.Store.Items.{
  add_item, add_item_with_source, add_item_if_status, update_item, set_item_done, delete_item,
}
use sitewalk.Store.Photos.{add_photo, remove_photo}
use sitewalk.Store.Artifacts.{add_artifact, update_artifact_body, delete_artifact}
use sitewalk.Store.Domain.Documents.{DocumentSchema}
use sitewalk.Store.Schemas.{save_document_schema, remove_document_schema}
use sitewalk.Store.Contacts.{upsert_contact, delete_contact}
use sitewalk.Store.Documents.{mint_document_number, mint_document_number_and_add_artifact}
use sitewalk.Store.Finish.{
  finish_session_processed, finish_session_failed, clear_authoritative_outputs, delete_session,
}

-- A public operation of `Store` that writes, with its result type forgotten.
pub data Command (env : Env) : Type 0 where
  create_job_command : NewJob → Command env
  update_job_status_command : Text → JobStatus → Command env
  delete_job_command : Text → Command env
  start_session_command : Option Text → Command env
  start_with_template_command : Option Text → Text → Command env
  append_transcript_command set_template_command : Text → Text → Command env
  set_job_command : Text → Option Text → Command env
  end_session_command end_and_record_command mark_failed_command : Text → Command env
  mark_processed_command : Text → Text → Command env
  sweep_zombies_command : Command env
  finish_processed_command : Text → Text → Usage → List Text → Command env
  finish_failed_command : Text → Usage → Command env
  clear_outputs_command delete_session_command : Text → Command env
  add_item_command : Text → Text → Text → Command env
  add_item_with_source_command : Text → Text → Text → ItemSource → Command env
  add_item_if_status_command : Text → Text → Text → SessionStatus → ItemSource → Command env
  update_item_command : Text → Option Text → Option Text → Option Text → Command env
  set_item_done_command : Text → Bool → Command env
  delete_item_command : Text → Command env
  add_photo_command : Text → Option Text → Text → Option ℕ → Command env
  remove_photo_command : Text → Command env
  add_artifact_command : Text → Text → Text → Text → Command env
  update_artifact_command : Text → Text → Command env
  delete_artifact_command : Text → Command env
  record_usage_command : Option Text → Text → Usage → Command env
  record_correction_command record_completed_command : Command env
  store_reflection_command : env.floats.F32 → Command env
  finish_reflection_command : env.floats.F32 → Usage → Command env
  save_schema_command : DocumentSchema → Command env
  remove_schema_command delete_contact_command mint_number_command : Text → Command env
  upsert_contact_command : Text → Option Text → Option Text → Option Text → Command env
  mint_document_command : Text → Text → Option ℕ → (ℕ → Text) → Command env

module _ {env : Env} where
  -- The state that an operation leaves, with or without an error.
  abbrev pub after : {A : Type 0} → Op env A → State env → State env
  after m s = (m s).1

  unfoldable pub exec : Command env → State env → State env
  exec (create_job_command new) = after (create_job new)
  exec (update_job_status_command id status) = after (update_job_status id status)
  exec (delete_job_command id) = after (delete_job id)
  exec (start_session_command job) = after (start_session job)
  exec (start_with_template_command job t) = after (start_session_with_template job t)
  exec (append_transcript_command id chunk) = after (append_transcript id chunk)
  exec (set_template_command id t) = after (set_session_template id t)
  exec (set_job_command id job) = after (set_session_job id job)
  exec (end_session_command id) = after (end_session id)
  exec (end_and_record_command id) = after (end_and_record_session id)
  exec (mark_failed_command id) = after (mark_session_failed id)
  exec (mark_processed_command id t) = after (mark_session_processed id t)
  exec sweep_zombies_command = after sweep_zombie_sessions
  exec (finish_processed_command id t u run) = after (finish_session_processed id t u run)
  exec (finish_failed_command id u) = after (finish_session_failed id u)
  exec (clear_outputs_command id) = after (clear_authoritative_outputs id)
  exec (delete_session_command id) = after (delete_session id)
  exec (add_item_command id kind t) = after (add_item id kind t)
  exec (add_item_with_source_command id kind t source) =
      after (add_item_with_source id kind t source)
  exec (add_item_if_status_command id kind t status source) =
      after (add_item_if_status id kind t status source)
  exec (update_item_command id t kind right) = after (update_item id t kind right)
  exec (set_item_done_command id b) = after (set_item_done id b)
  exec (delete_item_command id) = after (delete_item id)
  exec (add_photo_command id item name at) = after (add_photo id item name at)
  exec (remove_photo_command id) = after (remove_photo id)
  exec (add_artifact_command id kind title body) = after (add_artifact id kind title body)
  exec (update_artifact_command id body) = after (update_artifact_body id body)
  exec (delete_artifact_command id) = after (delete_artifact id)
  exec (record_usage_command id purpose u) = after (record_llm_usage id purpose u)
  exec record_correction_command = after record_correction
  exec record_completed_command = after record_session_completed
  exec (store_reflection_command churn) = after (store_reflection churn)
  exec (finish_reflection_command churn u) = after (finish_reflection churn u)
  exec (save_schema_command schema) = after (save_document_schema schema)
  exec (remove_schema_command id) = after (remove_document_schema id)
  exec (delete_contact_command id) = after (delete_contact id)
  exec (mint_number_command kind) = after (mint_document_number kind)
  exec (upsert_contact_command name trade phone notes) =
      after (upsert_contact name trade phone notes)
  exec (mint_document_command id kind existing body) =
      after (mint_document_number_and_add_artifact id kind existing body)

  -- A sequence of commands, each on the state that the one before it left.
  unfoldable pub exec_all : List (Command env) → State env → State env
  unfolding exec
  exec_all [] s = s
  exec_all (c ∷ cs) s = exec_all cs (exec c s)

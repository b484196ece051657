-- ===== src/Store/Command/Course.antt =====
-- crates/murmur-core/src/store: the exits of processing and the attachment of photos, and with them
-- any sequence of operations.
use sitewalk.Base.{
  ℕ, suc, Option, none, some, List, [], ◌∷◌, ◌≡◌, refl, sym, ◌≤◌, append-nil, arith,
}
use sitewalk.Base.Text.{Text, codes, text_eq_iff}
use sitewalk.Base.TextMap.{get}
use sitewalk.Base.Result.{ok}
use sitewalk.Store.Domain.{
  Session, SessionStatus, recording, awaiting_processing, processed, failed, Photo,
}
use sitewalk.Store.Op.{Row, Env, State, Op, ◌>>=◌, ◌>>◌, return, fail, now, new_id, found}
use sitewalk.Harness.Llm.{Usage}
use sitewalk.Store.Domain.{manual}
use sitewalk.Store.Usage.{record_llm_usage}
use sitewalk.Store.Sessions.{
  put_summary, get_session, change_session, require_ended, transition_ended, mark_session_processed,
  mark_session_failed,
}
use sitewalk.Store.Items.{add_item}
use sitewalk.Store.Photos.{new_photo, check_item, insert_photo, add_photo}
use sitewalk.Store.Finish.{swapped, finish_session_processed, finish_session_failed}
use sitewalk.Store.Command.{
  Command, create_job_command, update_job_status_command, delete_job_command, start_session_command,
  start_with_template_command, append_transcript_command, set_template_command, set_job_command,
  end_session_command, end_and_record_command, mark_failed_command, mark_processed_command,
  sweep_zombies_command, finish_processed_command, finish_failed_command, clear_outputs_command,
  delete_session_command, add_item_command, add_item_with_source_command,
  add_item_if_status_command, update_item_command, set_item_done_command, delete_item_command,
  add_photo_command, remove_photo_command, add_artifact_command, update_artifact_command,
  delete_artifact_command, record_usage_command, record_correction_command,
  record_completed_command, store_reflection_command, finish_reflection_command,
  save_schema_command, remove_schema_command, delete_contact_command, mint_number_command,
  upsert_contact_command, mint_document_command, exec, exec_all,
}
use sitewalk.Store.Command.Keeps.{
  Keeps, Keeps-return, Keeps-now, Keeps-bind, Keeps-then, Keeps-transaction, Keeps-get_session,
}
use sitewalk.Store.Command.Forward.{Later, status_rank, Onward, Moves}
use sitewalk.Store.Command.Links.{Linked}
use sitewalk.Store.Command.Statements.{Sound, Sound-order, Sound-get_session}
use sitewalk.Store.Command.Updates.{Sound-change_session, Sound-sweep_zombies}
use sitewalk.Store.Command.Cascades.{Sound-sweep_items}
use sitewalk.Store.Command.Attachments.{Sound-insert_photo, check_item-IsHome}
use sitewalk.Store.Command.Operations.{
  Sound-append_transcript, Sound-set_session_template, Sound-end_session, steps,
  Sound-start_session, Sound-start_session_with_template, Sound-end_and_record_session,
  Sound-create_job, Sound-update_job_status, Sound-delete_job, Sound-record_llm_usage,
  Sound-record_correction, Sound-record_session_completed, Sound-store_reflection,
  Sound-finish_reflection,
}
use sitewalk.Store.Command.Contents.{
  Sound-add_artifact, Sound-update_artifact_body, Sound-delete_artifact, Sound-add_item_with_source,
  Sound-add_item_if_status, Sound-update_item, Sound-set_item_done, Sound-delete_item_op,
  Sound-remove_photo, Sound-delete_session, Sound-clear_outputs, Sound-set_session_job,
}
use sitewalk.Store.Command.Papers.{
  Sound-save_schema, Sound-remove_schema, Sound-delete_contact, Sound-mint_number,
  Sound-upsert_contact, Sound-mint_document,
}
use sitewalk.Store.Command.Guards.{Keeps-after_guard, Keeps-now_at, Keeps-new_id_at, Keeps-then_at}

put_summary-Onward :
    (a b : Session) (summary : Option Text) → Onward a b → Onward a (put_summary summary b)
put_summary-Onward a b none l = l
put_summary-Onward a b (some t) l = record {
  status = l.status;
  transcript = l.transcript;
  start = l.start;
}

module _ {env : Env} where
  require_ended-means :
      (st : SessionStatus) (s : State env)
      → ((require_ended st s).1 ≡ s)
        × ((a : Unit {0}) → (require_ended st s).0 ≡ ok a → status_rank st ≤ 2)
  unfolding require_ended return fail status_rank
  require_ended-means recording s = (refl, (λ a e. omega arith))
  require_ended-means awaiting_processing s = (refl, (λ a e. omega arith))
  require_ended-means failed s = (refl, (λ a e. omega arith))
  require_ended-means processed s = (refl, (λ a e. absurd (ground arith)))

  Sound-transition_ended :
      (id : Text) (to : SessionStatus) (summary : Option Text)
      → 2 ≤ status_rank to
      → Keeps {env = env} Sound (transition_ended id to summary)
  unfolding transition_ended
  Sound-transition_ended id to summary high =
      let f : ℕ → Session → Session =
        λ at r. put_summary summary (record r { status = to; updated_at = at }) in
      let change : Op env Session = now >>= λ at. change_session id (f at) >> get_session id in
      Keeps-get_session Sound-order id (λ a. require_ended a.status >> change)
        (λ a s e.
          let means = require_ended-means a.status s in
          Keeps-after_guard (require_ended a.status) change s means.0 (λ u h.
            let low = means.1 u h in
            Keeps-now_at (λ at. change_session id (f at) >> get_session id) s
              (Keeps-then_at (change_session id (f (env.clock s.ticks))) (get_session id)
                (record s { ticks = suc s.ticks })
                (Sound-change_session id (f (env.clock s.ticks)) a
                  (record s { ticks = suc s.ticks }) e
                  (put_summary-Onward a _ summary (record {
                    status = omega arith;
                    transcript = ([], sym (append-nil a.transcript));
                    start = refl;
                  })))
                (Sound-get_session id))))

  Sound-mark_processed : (id t : Text) → Keeps {env = env} Sound (mark_session_processed id t)
  unfolding mark_session_processed status_rank
  Sound-mark_processed id t = Sound-transition_ended id processed (some t) (omega arith)

  Sound-mark_failed : (id : Text) → Keeps {env = env} Sound (mark_session_failed id)
  unfolding mark_session_failed status_rank
  Sound-mark_failed id = Sound-transition_ended id failed none (omega arith)

  Sound-finish_failed :
      (id : Text) (u : Usage) → Keeps {env = env} Sound (finish_session_failed id u)
  unfolding finish_session_failed
  Sound-finish_failed id u = search (steps, Sound-mark_failed, Sound-record_llm_usage) depth 12

  Sound-finish_processed :
      (id t : Text) (u : Usage) (run : List Text)
      → Keeps {env = env} Sound (finish_session_processed id t u run)
  unfolding finish_session_processed swapped
  Sound-finish_processed id t u run =
      let tail : Op env Session = mark_session_processed id t >>= λ session.
      record_llm_usage (some id) (codes "processing") u >> return session in
      Keeps-transaction Sound-order (
        Keeps-bind Sound-order (Keeps-now Sound-order) (λ at.
          Sound-sweep_items id (swapped id run) at tail
            (λ j r b. (text_eq_iff r.value.session_id id).0 (ground (arith, b)))
            (Keeps-bind Sound-order (Sound-mark_processed id t) (λ session.
              Keeps-then Sound-order (Sound-record_llm_usage (some id) (codes "processing") u)
                (Keeps-return Sound-order session)))))

  Sound-add_photo :
      (id : Text) (item : Option Text) (name : Text) (at : Option ℕ)
      → Keeps {env = env} Sound (add_photo id item name at)
  unfolding add_photo new_photo
  Sound-add_photo id item name captured =
      let photo : ℕ → Text → Photo = new_photo env.device_id id item name captured in
      let attach : ℕ → Text → Op env Photo =
        λ at j. insert_photo (photo at j) >> return (photo at j) in
      let rest : Op env Photo = now >>= λ at. new_id >>= attach at in
      Keeps-then Sound-order (Sound-get_session id) (record {
        at = λ s.
            let home = check_item-IsHome id item s in
            Keeps-after_guard (check_item id item) rest s home.0 (λ u h.
              Keeps-now_at (λ at. new_id >>= attach at) s
                (Keeps-new_id_at (attach (env.clock s.ticks)) (record s { ticks = suc s.ticks })
                  (Keeps-then_at (insert_photo (photo (env.clock s.ticks) (env.fresh s.minted)))
                    (return (photo (env.clock s.ticks) (env.fresh s.minted)))
                    (record s { ticks = suc s.ticks; minted = suc s.minted })
                    (Sound-insert_photo (photo (env.clock s.ticks) (env.fresh s.minted))
                      (record s { ticks = suc s.ticks; minted = suc s.minted }) (home.1 h))
                    (Keeps-return Sound-order _))));
      })

  exec-Sound : (c : Command env) (s : State env) → Sound s.db (exec c s).db
  unfolding exec add_item
  exec-Sound (create_job_command new) s = ((Sound-create_job new).at s).kept
  exec-Sound (update_job_status_command id status) s =
      ((Sound-update_job_status id status).at s).kept
  exec-Sound (delete_job_command id) s = ((Sound-delete_job id).at s).kept
  exec-Sound (start_session_command job) s = ((Sound-start_session job).at s).kept
  exec-Sound (start_with_template_command job t) s =
      ((Sound-start_session_with_template job t).at s).kept
  exec-Sound (append_transcript_command id chunk) s = ((Sound-append_transcript id chunk).at s).kept
  exec-Sound (set_template_command id t) s = ((Sound-set_session_template id t).at s).kept
  exec-Sound (set_job_command id job) s = ((Sound-set_session_job id job).at s).kept
  exec-Sound (end_session_command id) s = ((Sound-end_session id).at s).kept
  exec-Sound (end_and_record_command id) s = ((Sound-end_and_record_session id).at s).kept
  exec-Sound (mark_failed_command id) s = ((Sound-mark_failed id).at s).kept
  exec-Sound (mark_processed_command id t) s = ((Sound-mark_processed id t).at s).kept
  exec-Sound sweep_zombies_command s = (Sound-sweep_zombies.at s).kept
  exec-Sound (finish_processed_command id t u run) s =
      ((Sound-finish_processed id t u run).at s).kept
  exec-Sound (finish_failed_command id u) s = ((Sound-finish_failed id u).at s).kept
  exec-Sound (clear_outputs_command id) s = ((Sound-clear_outputs id).at s).kept
  exec-Sound (delete_session_command id) s = ((Sound-delete_session id).at s).kept
  exec-Sound (add_item_command id kind t) s =
      ((Sound-add_item_with_source id kind t manual).at s).kept
  exec-Sound (add_item_with_source_command id kind t source) s =
      ((Sound-add_item_with_source id kind t source).at s).kept
  exec-Sound (add_item_if_status_command id kind t status source) s =
      ((Sound-add_item_if_status id kind t status source).at s).kept
  exec-Sound (update_item_command id t kind right) s =
      ((Sound-update_item id t kind right).at s).kept
  exec-Sound (set_item_done_command id b) s = ((Sound-set_item_done id b).at s).kept
  exec-Sound (delete_item_command id) s = ((Sound-delete_item_op id).at s).kept
  exec-Sound (add_photo_command id item name at) s = ((Sound-add_photo id item name at).at s).kept
  exec-Sound (remove_photo_command id) s = ((Sound-remove_photo id).at s).kept
  exec-Sound (add_artifact_command id kind title body) s =
      ((Sound-add_artifact id kind title body).at s).kept
  exec-Sound (update_artifact_command id body) s = ((Sound-update_artifact_body id body).at s).kept
  exec-Sound (delete_artifact_command id) s = ((Sound-delete_artifact id).at s).kept
  exec-Sound (record_usage_command id purpose u) s =
      ((Sound-record_llm_usage id purpose u).at s).kept
  exec-Sound record_correction_command s = (Sound-record_correction.at s).kept
  exec-Sound record_completed_command s = (Sound-record_session_completed.at s).kept
  exec-Sound (store_reflection_command churn) s = ((Sound-store_reflection churn).at s).kept
  exec-Sound (finish_reflection_command churn u) s = ((Sound-finish_reflection churn u).at s).kept
  exec-Sound (save_schema_command schema) s = ((Sound-save_schema schema).at s).kept
  exec-Sound (remove_schema_command id) s = ((Sound-remove_schema id).at s).kept
  exec-Sound (delete_contact_command id) s = ((Sound-delete_contact id).at s).kept
  exec-Sound (mint_number_command kind) s = ((Sound-mint_number kind).at s).kept
  exec-Sound (upsert_contact_command name trade phone notes) s =
      ((Sound-upsert_contact name trade phone notes).at s).kept
  exec-Sound (mint_document_command id kind existing body) s =
      ((Sound-mint_document id kind existing body).at s).kept

  exec_all-Sound : (cs : List (Command env)) (s : State env) → Sound s.db (exec_all cs s).db
  unfolding exec_all
  exec_all-Sound [] s = Sound-order.same s.db
  exec_all-Sound (c ∷ cs) s =
      Sound-order.chain s.db (exec c s).db (exec_all cs (exec c s)).db (exec-Sound c s)
        (exec_all-Sound cs (exec c s))

  -- After any sequence of the operations of `Command`, failed ones included, every session that was
  -- in the database is still in it, with a status of the same or a higher rank (recording, then
  -- awaiting processing, then failed, then processed), with a transcript that extends the old one,
  -- with the same start, and with its tombstone if it had one. So a processed session stays
  -- processed.
  pub exec_all-course :
      (cs : List (Command env)) (s : State env) (k : Text) (r : Row Session)
      → get k s.db.sessions ≡ some r
      → (r' : Row Session) × (get k (exec_all cs s).db.sessions ≡ some r') × Later r r'
  unfolding Moves
  exec_all-course cs s k r found = (exec_all-Sound cs s).moves k r found

  -- If every live photo that is attached to an item is attached to a live item of its own session,
  -- this still holds after any sequence of the operations of `Command`, failed ones included.
  pub exec_all-Linked :
      (cs : List (Command env)) (s : State env) → Linked s.db → Linked (exec_all cs s).db
  exec_all-Linked cs s l = (exec_all-Sound cs s).links l

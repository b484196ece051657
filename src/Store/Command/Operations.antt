-- ===== src/Store/Command/Operations.antt =====
-- crates/murmur-core/src/store: the operations on jobs, sessions and usage keep the sessions' course and
-- the photos' links.
use sitewalk.Base.{ℕ, suc, true, Option, none, some, ◌++◌, ◌≡◌, refl, arith}
use sitewalk.Base.Text.{Text, codes}
use sitewalk.Harness.Policy.{record_reflection}
use sitewalk.Store.Domain.{Session, awaiting_processing}
use sitewalk.Store.Op.{Env, Op, ◌>>=◌, ◌>>◌, now}
use sitewalk.Harness.Llm.{Usage}
use sitewalk.Store.Domain.{NewJob, JobStatus}
use sitewalk.Store.Jobs.{create_job, update_job_status, delete_job}
use sitewalk.Store.Usage.{
  record_llm_usage, record_session_completed, record_correction, store_reflection,
  finish_reflection,
}
use sitewalk.Store.Sessions.{
  is_recording, get_session, change_session, check_job, start_session, require_recording,
  append_transcript, set_session_template, start_session_with_template, end_session,
  end_and_record_session,
}
use sitewalk.Store.Command.Keeps.{
  IsPreorder, KeepsAt, Keeps, Keeps-return, Keeps-fail, Keeps-read, Keeps-now, Keeps-new_id,
  Keeps-bind_at, Keeps-bind, Keeps-then, Keeps-transaction, Keeps-if, Keeps-get_session,
}
use sitewalk.Store.Command.Forward.{Onward}
use sitewalk.Store.Command.Statements.{
  Sound, Sound-same, Sound-order, Sound-get_job, Sound-get_session, Sound-get_item,
  Sound-get_artifact, Sound-reflection_signals, Sound-save_signals, Sound-insert_usage,
  Sound-insert_job, Sound-change_job, Sound-store_artifact, Sound-change_artifact,
  Sound-insert_session, Sound-store_item,
}
use sitewalk.Store.Command.Updates.{Onward-recording, Sound-change_session}
use sitewalk.Store.Command.Guards.{Keeps-recording, Keeps-now_at, Keeps-then_at}

module _ {env : Env} where
  pub Sound-check_job : (job : Option Text) → Keeps {env = env} Sound (check_job job)
  unfolding check_job
  Sound-check_job none = Keeps-return Sound-order tt
  Sound-check_job (some k) = search (Sound-order, Keeps-return, Keeps-then, Sound-get_job)

  -- The update of a recording session, under the guard.
  pub Sound-guarded :
      (id what : Text) (f : ℕ → Session → Session)
      → ((a : Session) (at : ℕ) → is_recording a.status ≡ true → Onward a (f at a))
      → Keeps {env = env} Sound (
          get_session id >>= λ a.
          require_recording what a.status >> (now >>= λ at. change_session id (f at)))
  Sound-guarded id what f onward =
      Keeps-get_session Sound-order id
        (λ a. require_recording what a.status >> (now >>= λ at. change_session id (f at)))
        (λ a s e. Keeps-recording what a.status (now >>= λ at. change_session id (f at)) s (λ b.
          Keeps-now_at (λ at. change_session id (f at)) s
            (Sound-change_session id (f (env.clock s.ticks)) a (record s { ticks = suc s.ticks }) e
              (onward a (env.clock s.ticks) b))))

  pub Sound-append_transcript :
      (id chunk : Text) → Keeps {env = env} Sound (append_transcript id chunk)
  unfolding append_transcript
  Sound-append_transcript id chunk =
      Sound-guarded id (codes "append transcript to a ")
        (λ at r. record r { transcript = r.transcript ++ chunk; updated_at = at })
        (λ a at b. record { status = omega arith; transcript = (chunk, refl); start = refl })

  pub Sound-set_session_template :
      (id t : Text) → Keeps {env = env} Sound (set_session_template id t)
  unfolding set_session_template
  Sound-set_session_template id t =
      Sound-guarded id (codes "set template on a ")
        (λ at r. record r { template = some t; updated_at = at })
        (λ a at b. Onward-recording _ _ b refl refl)

  pub Sound-end_session : (id : Text) → Keeps {env = env} Sound (end_session id)
  unfolding end_session
  Sound-end_session id =
      let f : ℕ → Session → Session =
        λ at r. record r { status = awaiting_processing; ended_at = some at; updated_at = at } in
      let change : Op env Session = now >>= λ at. change_session id (f at) >> get_session id in
      Keeps-get_session Sound-order id (λ a. require_recording (codes "end a ") a.status >> change)
        (λ a s e. Keeps-recording (codes "end a ") a.status change s (λ b.
          Keeps-now_at (λ at. change_session id (f at) >> get_session id) s
            (Keeps-then_at (change_session id (f (env.clock s.ticks))) (get_session id)
              (record s { ticks = suc s.ticks })
              (Sound-change_session id (f (env.clock s.ticks)) a (record s { ticks = suc s.ticks })
                e (Onward-recording a _ b refl refl))
              (Sound-get_session id))))

  pub ruleset steps = (
    Sound-order, Keeps-return, Keeps-now, Keeps-new_id, Keeps-bind, Keeps-then, Keeps-transaction,
    Keeps-if, Sound-get_job, Sound-get_session, Sound-get_item, Sound-get_artifact, Sound-check_job,
    Sound-insert_job, Sound-change_job, Sound-insert_session, Sound-store_item,
    Sound-store_artifact, Sound-change_artifact, Sound-insert_usage, Sound-reflection_signals,
    Sound-save_signals,
  )

  pub Sound-start_session : (job : Option Text) → Keeps {env = env} Sound (start_session job)
  unfolding start_session
  Sound-start_session job = search (steps) depth 12

  pub Sound-start_session_with_template :
      (job : Option Text) (t : Text) → Keeps {env = env} Sound (start_session_with_template job t)
  unfolding start_session_with_template
  Sound-start_session_with_template job t =
      search (steps, Sound-start_session, Sound-set_session_template) depth 12

  pub Sound-record_session_completed : Keeps {env = env} Sound record_session_completed
  unfolding record_session_completed
  Sound-record_session_completed = search (steps) depth 12

  pub Sound-end_and_record_session :
      (id : Text) → Keeps {env = env} Sound (end_and_record_session id)
  unfolding end_and_record_session
  Sound-end_and_record_session id =
      search (steps, Sound-end_session, Sound-record_session_completed) depth 12

  pub Sound-create_job : (new : NewJob) → Keeps {env = env} Sound (create_job new)
  unfolding create_job
  Sound-create_job new = search (steps) depth 12

  pub Sound-update_job_status :
      (id : Text) (status : JobStatus) → Keeps {env = env} Sound (update_job_status id status)
  unfolding update_job_status
  Sound-update_job_status id status = search (steps) depth 12

  pub Sound-delete_job : (id : Text) → Keeps {env = env} Sound (delete_job id)
  unfolding delete_job
  Sound-delete_job id = search (steps) depth 12

  pub Sound-record_llm_usage :
      (id : Option Text) (purpose : Text) (u : Usage)
      → Keeps {env = env} Sound (record_llm_usage id purpose u)
  unfolding record_llm_usage
  Sound-record_llm_usage id purpose u = search (steps) depth 12

  pub Sound-record_correction : Keeps {env = env} Sound record_correction
  unfolding record_correction
  Sound-record_correction = search (steps) depth 12

  pub Sound-store_reflection :
      (churn : env.floats.F32) → Keeps {env = env} Sound (store_reflection churn)
  unfolding store_reflection
  Sound-store_reflection churn = Keeps-bind Sound-order Sound-reflection_signals (λ signals.
      Keeps-bind Sound-order (Keeps-now Sound-order)
        (λ at. Sound-save_signals (record_reflection env.floats signals churn) (some at)))

  pub Sound-finish_reflection :
      (churn : env.floats.F32) (u : Usage) → Keeps {env = env} Sound (finish_reflection churn u)
  unfolding finish_reflection
  Sound-finish_reflection churn u = Keeps-transaction Sound-order (
      Keeps-then Sound-order (Sound-store_reflection churn)
        (Sound-record_llm_usage none (codes "reflection") u))

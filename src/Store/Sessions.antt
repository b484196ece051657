-- ===== src/Store/Sessions.antt =====
-- crates/murmur-core/src/store/sessions.rs: the life of a session, up to its outputs (Finish).
use sitewalk.Base.{ℕ, Bool, true, false, ◌&&◌, Option, none, some, [], ◌++◌, if◌then◌else◌}
use sitewalk.Base.Text.{Text, codes, text_eq}
use sitewalk.Base.Result.{ok, err}
use sitewalk.Store.Domain.{
  invalid_state, Session, SessionStatus, recording, awaiting_processing, processed, failed,
  session_status_str,
}
use sitewalk.Store.Op.{
  Row, Env, Op, ◌>>=◌, ◌>>◌, return, fail, read, write, now, new_id, transaction, is_live,
  find_live, update_rows, count_rows, insert_row, found,
}
use sitewalk.Store.Jobs.{get_job}
use sitewalk.Store.Usage.{record_session_completed}

abbrev pub is_recording : SessionStatus → Bool
is_recording recording = true
is_recording _ = false

abbrev pub put_summary : Option Text → Session → Session
put_summary none r = r
put_summary (some text) r = record r { summary = some text }

abbrev pub swept : Text → Row Session → Bool
swept k r = is_recording r.value.status && is_live r

module _ {env : Env} where
  unfoldable pub get_session : Text → Op env Session
  unfolding read found find_live
  get_session id = read (λ db. found (codes "session") id (find_live id db.sessions))

  unfoldable pub insert_session : Session → Op env (Unit {0})
  unfolding insert_row
  insert_session session s = elim (insert_row session.id session s.db.sessions) [
    | ok t ↦ (ok tt, record s { db = record s.db { sessions = t } })
    | err e ↦ (err e, s)
  ]

  -- `UPDATE sessions SET … WHERE id = ?`
  unfoldable pub change_session : Text → (Session → Session) → Op env (Unit {0})
  unfolding write update_rows
  change_session id f = write (λ db. record db {
    sessions = update_rows (λ k r. text_eq id k) (λ r. record r { value = f r.value }) db.sessions;
  })

  -- An optional job has to be live.
  unfoldable pub check_job : Option Text → Op env (Unit {0})
  unfolding ◌>>◌ ◌>>=◌ get_job return
  check_job none = return tt
  check_job (some k) = do get_job k; return tt

  unfoldable pub start_session : Option Text → Op env Session
  unfolding ◌>>=◌ ◌>>◌ check_job now new_id insert_session return
  start_session job_id = do
    check_job job_id
    at ← now
    id ← new_id
    let session : Session = record {
      id = id;
      job_id = job_id;
      template = none;
      status = recording;
      transcript = [];
      summary = none;
      started_at = at;
      ended_at = none;
      created_at = at;
      updated_at = at;
      device_id = env.device_id;
    }
    insert_session session
    return session

  -- The guard of the operations that only a recording session takes.
  unfoldable pub require_recording : Text → SessionStatus → Op env (Unit {0})
  unfolding return fail session_status_str
  require_recording what status =
      if is_recording status
      then return tt
      else fail (
          invalid_state
            (codes "cannot " ++ (what ++ (session_status_str status ++ codes " session"))))

  unfoldable pub append_transcript : Text → Text → Op env (Unit {0})
  unfolding ◌>>=◌ ◌>>◌ get_session require_recording now change_session
  append_transcript id chunk = do
    session ← get_session id
    require_recording (codes "append transcript to a ") session.status
    at ← now
    change_session id (λ r. record r { transcript = r.transcript ++ chunk; updated_at = at })

  unfoldable pub set_session_template : Text → Text → Op env (Unit {0})
  unfolding ◌>>=◌ ◌>>◌ get_session require_recording now change_session
  set_session_template id template = do
    session ← get_session id
    require_recording (codes "set template on a ") session.status
    at ← now
    change_session id (λ r. record r { template = some template; updated_at = at })

  unfoldable pub start_session_with_template : Option Text → Text → Op env Session
  unfolding ◌>>=◌ ◌>>◌ transaction start_session set_session_template return
  start_session_with_template job_id template = do
    session ← transaction (do
      session ← start_session job_id
      set_session_template session.id template
      return session)
    return (record session { template = some template })

  unfoldable pub set_session_job : Text → Option Text → Op env (Unit {0})
  unfolding ◌>>=◌ ◌>>◌ get_session check_job now change_session
  set_session_job id job_id = do
    get_session id
    check_job job_id
    at ← now
    change_session id (λ r. record r { job_id = job_id; updated_at = at })

  unfoldable pub end_session : Text → Op env Session
  unfolding ◌>>=◌ ◌>>◌ get_session require_recording now change_session
  end_session id = do
    session ← get_session id
    require_recording (codes "end a ") session.status
    at ← now
    change_session id
        (λ r. record r { status = awaiting_processing; ended_at = some at; updated_at = at })
    get_session id

  unfoldable pub end_and_record_session : Text → Op env Session
  unfolding ◌>>=◌ ◌>>◌ transaction end_session record_session_completed return
  end_and_record_session id =
      transaction (do session ← end_session id; record_session_completed; return session)

  -- The statuses that `transition_ended` leaves.
  unfoldable pub require_ended : SessionStatus → Op env (Unit {0})
  unfolding return fail
  require_ended recording = fail (invalid_state (codes "session is still recording"))
  require_ended awaiting_processing = return tt
  require_ended processed = fail (invalid_state (codes "session already processed"))
  require_ended failed = return tt

  unfoldable pub transition_ended : Text → SessionStatus → Option Text → Op env Session
  unfolding ◌>>=◌ ◌>>◌ get_session require_ended now change_session
  transition_ended id to summary = do
    session ← get_session id
    require_ended session.status
    at ← now
    change_session id (λ r. put_summary summary (record r { status = to; updated_at = at }))
    get_session id

  unfoldable pub mark_session_processed : Text → Text → Op env Session
  unfolding transition_ended
  mark_session_processed id summary = transition_ended id processed (some summary)

  unfoldable pub mark_session_failed : Text → Op env Session
  unfolding transition_ended
  mark_session_failed id = transition_ended id failed none

  unfoldable pub sweep_zombie_sessions : Op env ℕ
  unfolding ◌>>=◌ now update_rows count_rows is_live
  sweep_zombie_sessions = do
    at ← now
    λ s. (
      ok (count_rows swept s.db.sessions),
      record s {
        db = record s.db {
          sessions =
              update_rows swept
                (λ r. record r { value = record r.value { status = failed; updated_at = at } })
                s.db.sessions;
        };
      },
    )

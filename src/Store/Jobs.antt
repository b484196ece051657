-- ===== src/Store/Jobs.antt =====
-- crates/murmur-core/src/store/jobs.rs.
use sitewalk.Base.{none, some}
use sitewalk.Base.Text.{Text, codes}
use sitewalk.Base.Result.{Result, ok, err}
use sitewalk.Store.Domain.{CoreError, not_found, Job, JobStatus, active, NewJob}
use sitewalk.Store.Op.{
  Row, Table, Env, Db, Op, ◌>>=◌, ◌>>◌, return, read, now, new_id, find_live, update_rows, live_at,
  insert_row, found,
}

module _ {env : Env} where
  unfoldable pub get_job : Text → Op env Job
  unfolding read found find_live
  get_job id = read (λ db. found (codes "job") id (find_live id db.jobs))

  abbrev with_jobs : Db env → Result CoreError (Table Job) → Result CoreError (Unit {0}) × Db env
  with_jobs db (ok t) = (ok tt, record db { jobs = t })
  with_jobs db (err e) = (err e, db)

  unfoldable pub insert_job : Job → Op env (Unit {0})
  unfolding insert_row
  insert_job job s =
      let (r, db) = with_jobs s.db (insert_row job.id job s.db.jobs) in (r, record s { db = db })

  unfoldable pub create_job : NewJob → Op env Job
  unfolding ◌>>=◌ ◌>>◌ now new_id insert_job return
  create_job new = do
    at ← now
    id ← new_id
    let job : Job = record {
      id = id;
      name = new.name;
      client = new.client;
      site = new.site;
      scheduled_at = new.scheduled_at;
      status = active;
      created_at = at;
      updated_at = at;
      device_id = env.device_id;
    }
    insert_job job
    return job

  -- Updates the live row `id`; not found where there is none.
  unfoldable pub change_job : Text → (Row Job → Row Job) → Op env (Unit {0})
  unfolding update_rows live_at found find_live
  change_job id f s = elim (find_live id s.db.jobs) [
    | none ↦ (err (not_found (codes "job") id), s)
    | some _ ↦
        (ok tt, record s { db = record s.db { jobs = update_rows (live_at id) f s.db.jobs } })
  ]

  unfoldable pub update_job_status : Text → JobStatus → Op env Job
  unfolding ◌>>=◌ ◌>>◌ now change_job get_job
  update_job_status id status = do
    at ← now
    change_job id (λ r. record r { value = record r.value { status = status; updated_at = at } })
    get_job id

  unfoldable pub delete_job : Text → Op env (Unit {0})
  unfolding ◌>>=◌ now change_job
  delete_job id = do
    at ← now
    change_job id (λ r. record { value = record r.value { updated_at = at }; deleted_at = some at })

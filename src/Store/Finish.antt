-- ===== src/Store/Finish.antt =====
-- crates/murmur-core/src/store/sessions.rs: the exits of processing, the clearing of its outputs and
-- the deletion of a session.
pub mod Outcome
pub mod Deletion
use sitewalk.Base.{
  ℕ, zero, suc, ◌+◌, Bool, true, false, not, ◌&&◌, ◌||◌, Option, none, some, List, [], ◌∷◌, ◌++◌,
  map, if◌then◌else◌, ◌==◌, any, take, is_empty,
}
use sitewalk.Base.Text.{Text, codes, text_eq}
use sitewalk.Base.TextMap.{TextMap, get, insert}
use sitewalk.Base.Result.{Result, ok, err}
use sitewalk.Store.Domain.{
  CoreError, sqlite, not_found, invalid_state, Job, JobStatus, active, done, archived, NewJob,
  Session, SessionStatus, recording, awaiting_processing, processed, failed, session_status_str,
  CapturedItem, ItemSource, live, authoritative, manual, Artifact, Photo, LlmUsageRow,
}
use sitewalk.Store.Op.{
  Row, Table, Env, Db, State, Op, ◌>>=◌, ◌>>◌, return, fail, lift, read, write, now, new_id,
  transaction, is_live, find_live, update_rows, count_rows, select_rows, live_at, insert_row, found,
}
use sitewalk.Harness.Llm.{Usage}
use sitewalk.Store.Usage.{record_llm_usage}
use sitewalk.Store.Sessions.{get_session, mark_session_processed, mark_session_failed}
use sitewalk.Store.Items.{tombstone_item}
use sitewalk.Store.Photos.{tombstone_photo, demote_photos_of_tombstoned_items}

abbrev pub tombstone_artifact : ℕ → Row Artifact → Row Artifact
tombstone_artifact at r = record {
  value = record r.value { updated_at = at };
  deleted_at = some at;
}

abbrev pub tombstone_session : ℕ → Row Session → Row Session
tombstone_session at r = record { value = record r.value { updated_at = at }; deleted_at = some at }

abbrev pub is_authoritative : ItemSource → Bool
is_authoritative authoritative = true
is_authoritative _ = false

-- `source IN ('live', 'authoritative')`
abbrev pub is_provisional : ItemSource → Bool
is_provisional manual = false
is_provisional _ = true

-- The rows that the swap at the end of processing tombstones.
unfoldable pub swapped : Text → List Text → Text → Row CapturedItem → Bool
unfolding is_live
swapped session_id run_item_ids k r =
    text_eq r.value.session_id session_id
    && (is_live r && (is_provisional r.value.source && not (any (text_eq k) run_item_ids)))

-- The items that clearing tombstones.
unfoldable pub cleared : Text → Text → Row CapturedItem → Bool
unfolding is_live
cleared session_id k r =
    text_eq r.value.session_id session_id && (is_live r && is_authoritative r.value.source)

abbrev pub of_session_artifact : Text → Text → Row Artifact → Bool
of_session_artifact session_id k r = text_eq r.value.session_id session_id && is_live r

module _ {env : Env} where
  -- `UPDATE items SET deleted_at = ?1, updated_at = ?1 WHERE …`
  unfoldable pub sweep_items : (Text → Row CapturedItem → Bool) → ℕ → Op env ℕ
  unfolding update_rows count_rows
  sweep_items p at s = (
    ok (count_rows p s.db.items),
    record s { db = record s.db { items = update_rows p (tombstone_item at) s.db.items } },
  )

  unfoldable pub sweep_artifacts : Text → ℕ → Op env ℕ
  unfolding update_rows count_rows is_live
  sweep_artifacts session_id at s = (
    ok (count_rows (of_session_artifact session_id) s.db.artifacts),
    record s {
      db = record s.db {
        artifacts =
            update_rows (of_session_artifact session_id) (tombstone_artifact at) s.db.artifacts;
      };
    },
  )

  unfoldable pub finish_session_processed : Text → Text → Usage → List Text → Op env Session
  unfolding ◌>>=◌ ◌>>◌ transaction now sweep_items demote_photos_of_tombstoned_items
      mark_session_processed record_llm_usage return swapped
  finish_session_processed session_id summary usage run_item_ids = transaction (do
    at ← now
    sweep_items (swapped session_id run_item_ids) at
    demote_photos_of_tombstoned_items session_id
    session ← mark_session_processed session_id summary
    record_llm_usage (some session_id) (codes "processing") usage
    return session)

  unfoldable pub finish_session_failed : Text → Usage → Op env (Unit {0})
  unfolding ◌>>◌ transaction mark_session_failed record_llm_usage
  finish_session_failed session_id usage = transaction (do
    mark_session_failed session_id
    record_llm_usage (some session_id) (codes "processing") usage)

  unfoldable pub clear_authoritative_outputs : Text → Op env ℕ
  unfolding ◌>>=◌ ◌>>◌ transaction now get_session sweep_items sweep_artifacts
      demote_photos_of_tombstoned_items return cleared
  clear_authoritative_outputs session_id = do
    at ← now
    transaction (do
      get_session session_id
      items ← sweep_items (cleared session_id) at
      artifacts ← sweep_artifacts session_id at
      demote_photos_of_tombstoned_items session_id
      return (items + artifacts))

  unfoldable pub tombstone_session_row : Text → ℕ → Op env (Unit {0})
  unfolding find_live live_at update_rows
  tombstone_session_row id at s = elim (find_live id s.db.sessions) [
    | none ↦ (err (not_found (codes "session") id), s)
    | some _ ↦ (
      ok tt,
      record s {
        db = record s.db {
          sessions = update_rows (live_at id) (tombstone_session at) s.db.sessions;
        };
      },
    )
  ]

  -- The cascade to items, artifacts and photos.
  unfoldable pub cascade : Text → ℕ → Op env (Unit {0})
  unfolding write update_rows is_live
  cascade id at = write (λ db. record db {
    items =
        update_rows (λ k r. text_eq r.value.session_id id && is_live r) (tombstone_item at)
          db.items;
    artifacts = update_rows (of_session_artifact id) (tombstone_artifact at) db.artifacts;
    photos =
        update_rows (λ k r. text_eq r.value.session_id id && is_live r) (tombstone_photo at)
          db.photos;
  })

  unfoldable pub delete_session : Text → Op env (Unit {0})
  unfolding ◌>>=◌ ◌>>◌ now transaction tombstone_session_row cascade
  delete_session id = do at ← now; transaction (do tombstone_session_row id at; cascade id at)

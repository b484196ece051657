-- ===== src/Store/Artifacts.antt =====
-- crates/murmur-core/src/store/artifacts.rs.
use sitewalk.Base.{◌&&◌, Option, none, some, List, [], ◌∷◌}
use sitewalk.Base.Text.{Text, codes, text_eq}
use sitewalk.Base.Result.{ok, err}
use sitewalk.Store.Domain.{not_found, Artifact}
use sitewalk.Store.Op.{
  Row, Env, Op, ◌>>=◌, ◌>>◌, return, read, now, new_id, is_live, find_live, update_rows,
  select_rows, live_at, insert_row, found,
}
use sitewalk.Store.Sessions.{get_session}
use mathlib.Core.List.{reverse}

first : List Artifact → Option Artifact
first [] = none
first (a ∷ more) = some a

module _ {env : Env} where
  unfoldable pub get_artifact : Text → Op env Artifact
  unfolding read found find_live
  get_artifact id = read (λ db. found (codes "artifact") id (find_live id db.artifacts))

  unfoldable pub store_artifact : Artifact → Op env (Unit {0})
  unfolding insert_row
  store_artifact artifact s = elim (insert_row artifact.id artifact s.db.artifacts) [
    | ok t ↦ (ok tt, record s { db = record s.db { artifacts = t } })
    | err e ↦ (err e, s)
  ]

  unfoldable pub add_artifact : Text → Text → Text → Text → Op env Artifact
  unfolding ◌>>=◌ ◌>>◌ get_session now new_id store_artifact return
  add_artifact session_id kind title body = do
    get_session session_id
    at ← now
    id ← new_id
    let artifact : Artifact = record {
      id = id;
      session_id = session_id;
      kind = kind;
      title = title;
      body = body;
      created_at = at;
      updated_at = at;
      device_id = env.device_id;
    }
    store_artifact artifact
    return artifact

  -- Updates the live row `id`; not found where there is none.
  unfoldable pub change_artifact : Text → (Row Artifact → Row Artifact) → Op env (Unit {0})
  unfolding update_rows live_at find_live
  change_artifact id f s = elim (find_live id s.db.artifacts) [
    | none ↦ (err (not_found (codes "artifact") id), s)
    | some _ ↦ (
      ok tt,
      record s { db = record s.db { artifacts = update_rows (live_at id) f s.db.artifacts } },
    )
  ]

  unfoldable pub update_artifact_body : Text → Text → Op env Artifact
  unfolding ◌>>=◌ ◌>>◌ now change_artifact get_artifact
  update_artifact_body id body = do
    at ← now
    change_artifact id (λ r. record r { value = record r.value { body = body; updated_at = at } })
    get_artifact id

  unfoldable pub list_artifacts_for_session : Text → Op env (List Artifact)
  unfolding read select_rows is_live
  list_artifacts_for_session id =
      read (λ db. ok (select_rows (λ r. text_eq r.value.session_id id && is_live r) db.artifacts))

  unfoldable pub latest_document_artifact : Text → Op env (Option Artifact)
  unfolding read select_rows is_live first
  latest_document_artifact id = read (λ db. ok (
      first (
        reverse (
          select_rows
            (λ r.
              text_eq r.value.session_id id
              && (text_eq r.value.kind (codes "document") && is_live r))
            db.artifacts))))

  unfoldable pub delete_artifact : Text → Op env (Unit {0})
  unfolding ◌>>=◌ now change_artifact
  delete_artifact id = do
    at ← now
    change_artifact id
        (λ r. record { value = record r.value { updated_at = at }; deleted_at = some at })

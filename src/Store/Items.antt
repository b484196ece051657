-- ===== src/Store/Items.antt =====
-- crates/murmur-core/src/store/items.rs.
use sitewalk.Base.{ℕ, Bool, true, false, not, ◌&&◌, Option, none, some, List, [], if◌then◌else◌}
use sitewalk.Base.Text.{Text, codes, text_eq}
use sitewalk.Base.Result.{ok, err}
use sitewalk.Store.Domain.{
  not_found, SessionStatus, recording, awaiting_processing, processed, failed, CapturedItem,
  ItemSource, manual, Photo,
}
use sitewalk.Store.Op.{
  Row, Env, Op, ◌>>=◌, ◌>>◌, return, read, write, now, new_id, transaction, is_live, find_live,
  update_rows, select_rows, live_at, insert_row, found,
}
use sitewalk.Store.Sessions.{get_session}
use sitewalk.Store.Op.{set_item_id}

unfoldable pub session_status_eq : SessionStatus → SessionStatus → Bool
session_status_eq recording recording = true
session_status_eq awaiting_processing awaiting_processing = true
session_status_eq processed processed = true
session_status_eq failed failed = true
session_status_eq _ _ = false

abbrev pub keep_or : Option Text → Text → Text
keep_or none t = t
keep_or (some u) t = u

-- `item_id = k`, which a NULL never is
abbrev pub links : Text → Row Photo → Bool
links k r = elim r.value.item_id [ none ↦ false | some i ↦ text_eq k i ]

abbrev pub tombstone_item : ℕ → Row CapturedItem → Row CapturedItem
tombstone_item at r = record { value = record r.value { updated_at = at }; deleted_at = some at }

-- `text = COALESCE(?1, text), …`
abbrev pub edited :
    Option Text → Option Text → Option Text → ℕ → Row CapturedItem → Row CapturedItem
edited text kind right at r = record r {
  value = record r.value {
    text = keep_or text r.value.text;
    kind = keep_or kind r.value.kind;
    right = keep_or right r.value.right;
    updated_at = at;
  };
}

abbrev pub marked : Bool → ℕ → Row CapturedItem → Row CapturedItem
marked is_done at r = record r { value = record r.value { is_done = is_done; updated_at = at } }

module _ {env : Env} where
  unfoldable pub get_item : Text → Op env CapturedItem
  unfolding read found find_live
  get_item id = read (λ db. found (codes "item") id (find_live id db.items))

  unfoldable pub store_item : CapturedItem → Op env (Unit {0})
  unfolding insert_row
  store_item item s = elim (insert_row item.id item s.db.items) [
    | ok t ↦ (ok tt, record s { db = record s.db { items = t } })
    | err e ↦ (err e, s)
  ]

  unfoldable pub insert_item : Text → Text → Text → ItemSource → Op env CapturedItem
  unfolding ◌>>=◌ ◌>>◌ now new_id store_item return
  insert_item session_id kind text source = do
    at ← now
    id ← new_id
    let item : CapturedItem = record {
      id = id;
      session_id = session_id;
      kind = kind;
      text = text;
      right = [];
      source = source;
      is_done = false;
      created_at = at;
      updated_at = at;
      device_id = env.device_id;
    }
    store_item item
    return item

  unfoldable pub add_item_with_source : Text → Text → Text → ItemSource → Op env CapturedItem
  unfolding ◌>>◌ get_session insert_item
  add_item_with_source session_id kind text source = do
    get_session session_id
    insert_item session_id kind text source

  unfoldable pub add_item : Text → Text → Text → Op env CapturedItem
  unfolding add_item_with_source
  add_item session_id kind text = add_item_with_source session_id kind text manual

  unfoldable pub add_item_if_status :
      Text → Text → Text → SessionStatus → ItemSource → Op env (Option CapturedItem)
  unfolding ◌>>=◌ get_session insert_item return session_status_eq
  add_item_if_status session_id kind text required source = do
    session ← get_session session_id
    if session_status_eq session.status required
        then (do item ← insert_item session_id kind text source; return (some item))
        else return none

  -- Updates the live row `id`; not found where there is none.
  unfoldable pub change_item : Text → (Row CapturedItem → Row CapturedItem) → Op env (Unit {0})
  unfolding update_rows live_at find_live
  change_item id f s = elim (find_live id s.db.items) [
    | none ↦ (err (not_found (codes "item") id), s)
    | some _ ↦
        (ok tt, record s { db = record s.db { items = update_rows (live_at id) f s.db.items } })
  ]

  unfoldable pub update_item : Text → Option Text → Option Text → Option Text → Op env CapturedItem
  unfolding ◌>>=◌ ◌>>◌ now change_item get_item
  update_item id text kind right = do
    at ← now
    change_item id (edited text kind right at)
    get_item id

  unfoldable pub set_item_done : Text → Bool → Op env CapturedItem
  unfolding ◌>>=◌ ◌>>◌ now change_item get_item
  set_item_done id is_done = do at ← now; change_item id (marked is_done at); get_item id

  unfoldable pub list_items_for_session : Text → Op env (List CapturedItem)
  unfolding read select_rows is_live
  list_items_for_session id =
      read (λ db. ok (select_rows (λ r. text_eq r.value.session_id id && is_live r) db.items))

  unfoldable pub list_open_todos : Op env (List CapturedItem)
  unfolding read select_rows is_live
  list_open_todos = read (λ db. ok (
      select_rows (λ r. text_eq r.value.kind (codes "todo") && (not r.value.is_done && is_live r))
        db.items))

  -- `UPDATE photos SET item_id = NULL … WHERE item_id = ?`
  unfoldable pub demote_photos_of : Text → ℕ → Op env (Unit {0})
  unfolding write update_rows is_live set_item_id
  demote_photos_of id at = write (λ db. record db {
    photos = update_rows (λ k r. links id r && is_live r) (set_item_id none at) db.photos;
  })

  unfoldable pub delete_item : Text → Op env (Unit {0})
  unfolding ◌>>=◌ ◌>>◌ now transaction change_item demote_photos_of
  delete_item id = do
    at ← now
    transaction (do change_item id (tombstone_item at); demote_photos_of id at)

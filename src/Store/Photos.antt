-- ===== src/Store/Photos.antt =====
-- crates/murmur-core/src/store/photos.rs.
use sitewalk.Base.{
  ℕ, Bool, true, false, not, ◌&&◌, Option, none, some, List, [], ◌∷◌, ◌++◌, map, if◌then◌else◌,
}
use sitewalk.Base.Text.{Text, codes, text_eq}
use sitewalk.Base.TextMap.{get}
use sitewalk.Base.Result.{ok, err}
use sitewalk.Store.Domain.{sqlite, not_found, invalid_state, CapturedItem, Photo}
use sitewalk.Store.Op.{
  Row, Table, Env, Op, ◌>>=◌, ◌>>◌, return, fail, read, write, now, new_id, is_live, find_live,
  update_rows, select_rows, live_at, insert_row, found,
}
use sitewalk.Store.Sessions.{get_session}
use sitewalk.Store.Items.{get_item}
use sitewalk.Store.Op.{set_item_id}

-- `idx_photos_filename_live`: the name is that of a live photo.
unfoldable pub filename_taken : Text → Table Photo → Bool
unfolding is_live
filename_taken name [] = false
filename_taken name ((k, r) ∷ t) =
    let rest = filename_taken name t in
    if text_eq r.value.filename name && is_live r then true else rest

captured_or : Option ℕ → ℕ → ℕ
captured_or none at = at
captured_or (some t) at = t

abbrev pub tombstone_photo : ℕ → Row Photo → Row Photo
tombstone_photo at r = record { value = record r.value { updated_at = at }; deleted_at = some at }

-- `item_id IN (SELECT id FROM items WHERE session_id = ? AND deleted_at IS NOT NULL)`
unfoldable pub is_swept : Text → Table CapturedItem → Option Text → Bool
unfolding is_live
is_swept session_id items none = false
is_swept session_id items (some i) = elim (get i items) [
  | none ↦ false
  | some r ↦ text_eq r.value.session_id session_id && not (is_live r)
]

unfoldable pub new_photo : Text → Text → Option Text → Text → Option ℕ → ℕ → Text → Photo
unfolding captured_or
new_photo device_id session_id item_id filename captured_at at id = record {
  id = id;
  session_id = session_id;
  item_id = item_id;
  filename = filename;
  captured_at = captured_or captured_at at;
  created_at = at;
  updated_at = at;
  device_id = device_id;
}

module _ {env : Env} where
  unfoldable pub get_photo : Text → Op env Photo
  unfolding read found find_live
  get_photo id = read (λ db. found (codes "photo") id (find_live id db.photos))

  -- The item belongs to the session.
  unfoldable pub own_item : Text → Text → CapturedItem → Op env (Unit {0})
  unfolding return fail
  own_item session_id item_id item =
      if text_eq item.session_id session_id
      then return tt
      else fail (
          invalid_state
            (codes "item " ++ (item_id ++ (codes " does not belong to session " ++ session_id))))

  -- An item that a photo is attached to is live and in the photo's session.
  unfoldable pub check_item : Text → Option Text → Op env (Unit {0})
  unfolding ◌>>=◌ get_item return own_item
  check_item session_id none = return tt
  check_item session_id (some item_id) = get_item item_id >>= own_item session_id item_id

  unfoldable pub insert_photo : Photo → Op env (Unit {0})
  unfolding insert_row filename_taken
  insert_photo photo s =
      if filename_taken photo.filename s.db.photos
      then (err (sqlite (codes "UNIQUE constraint failed")), s)
      else (elim (insert_row photo.id photo s.db.photos) [
        | ok t ↦ (ok tt, record s { db = record s.db { photos = t } })
        | err e ↦ (err e, s)
      ])

  unfoldable pub add_photo : Text → Option Text → Text → Option ℕ → Op env Photo
  unfolding ◌>>=◌ ◌>>◌ get_session check_item now new_id insert_photo return new_photo
  add_photo session_id item_id filename captured_at = do
    get_session session_id
    check_item session_id item_id
    at ← now
    id ← new_id
    let photo = new_photo env.device_id session_id item_id filename captured_at at id
    insert_photo photo
    return photo

  unfoldable pub list_photos_for_session : Text → Op env (List Photo)
  unfolding read select_rows is_live
  list_photos_for_session id =
      read (λ db. ok (select_rows (λ r. text_eq r.value.session_id id && is_live r) db.photos))

  unfoldable pub list_live_photo_filenames : Op env (List Text)
  unfolding read select_rows is_live
  list_live_photo_filenames =
      read (λ db. ok (map (λ (p : Photo). p.filename) (select_rows is_live db.photos)))

  -- Updates the live row `id`; not found where there is none.
  unfoldable pub change_photo : Text → (Row Photo → Row Photo) → Op env (Unit {0})
  unfolding update_rows live_at find_live
  change_photo id f s = elim (find_live id s.db.photos) [
    | none ↦ (err (not_found (codes "photo") id), s)
    | some _ ↦
        (ok tt, record s { db = record s.db { photos = update_rows (live_at id) f s.db.photos } })
  ]

  unfoldable pub remove_photo : Text → Op env (Unit {0})
  unfolding ◌>>=◌ now change_photo
  remove_photo id = do at ← now; change_photo id (tombstone_photo at)

  -- `AND item_id IS NOT NULL AND item_id IN (SELECT …)`
  unfoldable pub demote_photos_of_tombstoned_items : Text → Op env (Unit {0})
  unfolding ◌>>=◌ now write update_rows is_live is_swept set_item_id
  demote_photos_of_tombstoned_items session_id = do
    at ← now
    write (λ db. record db {
      photos =
          update_rows
            (λ k r.
              text_eq r.value.session_id session_id
              && (is_live r && is_swept session_id db.items r.value.item_id))
            (set_item_id none at) db.photos;
    })

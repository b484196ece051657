-- ===== src/Store/Contacts.antt =====
-- crates/murmur-core/src/store/contacts.rs.
use sitewalk.Base.{ℕ, ◌&&◌, Option, none, some, List, [], ◌∷◌}
use sitewalk.Base.Text.{Text, codes, eq_ignore_ascii_case}
use sitewalk.Base.Result.{ok, err}
use sitewalk.Store.Domain.{not_found}
use sitewalk.Store.Domain.Documents.{Contact}
use sitewalk.Store.Op.{
  Row, Table, Env, Op, ◌>>=◌, ◌>>◌, return, read, now, new_id, is_live, find_live, update_rows,
  select_rows, live_at, insert_row, found,
}

-- `COALESCE(?1, column)`
abbrev pub coalesce : Option Text → Option Text → Option Text
coalesce none old = old
coalesce (some new) old = some new

abbrev first_id : List Contact → Option Text
first_id [] = none
first_id (c ∷ more) = some c.id

-- `lower(name) = lower(?1)`: SQLite's `lower` changes ASCII letters only.
unfoldable pub same_name : Text → Table Contact → Option Text
unfolding select_rows is_live eq_ignore_ascii_case
same_name name t =
    first_id (select_rows (λ r. eq_ignore_ascii_case r.value.name name && is_live r) t)

module _ {env : Env} where
  unfoldable pub get_contact : Text → Op env Contact
  unfolding read found find_live
  get_contact id = read (λ db. found (codes "contact") id (find_live id db.contacts))

  -- The rows come in the order of ids, not of names.
  unfoldable pub list_contacts : Op env (List Contact)
  unfolding read select_rows is_live
  list_contacts = read (λ db. ok (select_rows is_live db.contacts))

  unfoldable pub insert_contact : Contact → Op env (Unit {0})
  unfolding insert_row
  insert_contact c s = elim (insert_row c.id c s.db.contacts) [
    | ok t ↦ (ok tt, record s { db = record s.db { contacts = t } })
    | err e ↦ (err e, s)
  ]

  -- `UPDATE contacts … WHERE id = ?`, on any row of that id
  unfoldable pub revise_contact :
      Option Text → Option Text → Option Text → ℕ → Text → Op env (Unit {0})
  unfolding update_rows
  revise_contact trade phone notes at id s = (
    ok tt,
    record s {
      db = record s.db {
        contacts =
            update_rows (λ k r. sitewalk.Base.Text.text_eq id k)
              (λ r. record r {
                value = record r.value {
                  trade = coalesce trade r.value.trade;
                  phone = coalesce phone r.value.phone;
                  notes = coalesce notes r.value.notes;
                  updated_at = at;
                };
              })
              s.db.contacts;
      };
    },
  )

  unfoldable pub put_contact :
      Text → Option Text → Option Text → Option Text → ℕ → Option Text → Op env Contact
  unfolding ◌>>=◌ ◌>>◌ revise_contact get_contact new_id insert_contact return
  put_contact name trade phone notes at (some id) = do
    revise_contact trade phone notes at id
    get_contact id
  put_contact name trade phone notes at none = do
    id ← new_id
    let contact : Contact = record {
      id = id;
      name = name;
      trade = trade;
      phone = phone;
      notes = notes;
      created_at = at;
      updated_at = at;
      device_id = env.device_id;
    }
    insert_contact contact
    return contact

  unfoldable pub upsert_contact : Text → Option Text → Option Text → Option Text → Op env Contact
  unfolding ◌>>=◌ now read same_name put_contact
  upsert_contact name trade phone notes = do
    at ← now
    existing ← read (λ db. ok (same_name name db.contacts))
    put_contact name trade phone notes at existing

  unfoldable pub change_contact : Text → (Row Contact → Row Contact) → Op env (Unit {0})
  unfolding update_rows live_at find_live
  change_contact id f s = elim (find_live id s.db.contacts) [
    | none ↦ (err (not_found (codes "contact") id), s)
    | some _ ↦ (
      ok tt,
      record s { db = record s.db { contacts = update_rows (live_at id) f s.db.contacts } },
    )
  ]

  unfoldable pub delete_contact : Text → Op env (Unit {0})
  unfolding ◌>>=◌ now change_contact
  delete_contact id = do
    at ← now
    change_contact id
        (λ r. record { value = record r.value { updated_at = at }; deleted_at = some at })

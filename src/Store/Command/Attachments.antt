-- ===== src/Store/Command/Attachments.antt =====
-- crates/murmur-core/src/store: the deletion of an item with the demotion of its photos, and the
-- attachment and removal of photos.
use sitewalk.Base.{
  ℕ, false, ◌&&◌, Option, none, some, ◌≡◌, refl, ◌∙◌, ap, Bool-cases, Option-cases, inl, inr, arith,
}
use mathlib.Core.Path.{subst}
use sitewalk.Base.Text.{Text, codes, text_eq, text_eq_iff}
use sitewalk.Base.TextMap.{get}
use sitewalk.Base.Result.{Result, ok, err}
use sitewalk.Store.Domain.{not_found, CoreError, CapturedItem, Photo}
use sitewalk.Store.Op.{
  Row, Env, Db, State, Op, ◌>>◌, return, fail, read, write, is_live, find_live, update_rows,
  live_at, insert_row-cases, found, set_item_id, bind-ok, bind-err, find_live-row,
}
use sitewalk.Store.Items.{get_item, change_item, demote_photos_of, tombstone_item, links}
use sitewalk.Store.Photos.{
  tombstone_photo, own_item, check_item, insert_photo, filename_taken, change_photo,
}
use sitewalk.Store.Command.Forward.{Moves-same}
use sitewalk.Store.Command.Links.{
  IsHome, Linked, Linked-insert_photo, Linked-update_rows, Linked-drop_photos,
}
use sitewalk.Store.Command.Keeps.{KeepsAt, Keeps}
use sitewalk.Store.Command.Statements.{Sound, Sound-same}

module _ {env : Env} (id : Text) (f : Row CapturedItem → Row CapturedItem) (s : State env) where
  change_item-none :
      find_live id s.db.items ≡ none → change_item id f s ≡ (err (not_found (codes "item") id), s)
  unfolding change_item
  change_item-none e = rw (e, change_item) refl

  change_item-some :
      (a : CapturedItem)
      → find_live id s.db.items ≡ some a
      → change_item id f s
        ≡ (ok tt, record s { db = record s.db { items = update_rows (live_at id) f s.db.items } })
  unfolding change_item
  change_item-some a e = rw (e, change_item) refl

module _ {env : Env} (id : Text) (at : ℕ) where
  demote_deleted :
      (d d' : Db env)
      → d'.items ≡ update_rows (live_at id) (tombstone_item at) d.items
      → d'.photos ≡ update_rows (λ k r. links id r && is_live r) (set_item_id none at) d.photos
      → Linked d
      → Linked d'
  unfolding is_live live_at set_item_id
  demote_deleted d d' items photos =
      Linked-update_rows (live_at id) (tombstone_item at) (λ k r. links id r && is_live r)
        (set_item_id none at) d d' items photos
        (λ k a i alive link. elim (Bool-cases (links id a && is_live a)) [
          | inl b ↦ absurd (ground (arith, b, link))
          | inr b ↦
              let alive' : a.deleted_at ≡ none = ground (arith, b, alive) in
              let link' : a.value.item_id ≡ some i = ground (arith, b, link) in
              let other : text_eq i id ≡ false =
                ground (arith, b, alive', link', text_eq_iff i id, text_eq_iff id i) in
              (
                alive',
                link',
                (λ r found live same.
                    (ground (arith, other, live), ground (arith, other, same, b))),
              )
        ])

  -- The body of `delete_item`.
  pub Sound-delete_item :
      Keeps {env = env} Sound (change_item id (tombstone_item at) >> demote_photos_of id at)
  unfolding ◌>>◌ demote_photos_of write
  Sound-delete_item = record {
    at = λ s.
        let change = change_item id (tombstone_item at) in
        let rest : Unit {0} → Op env (Unit {0}) = λ _. demote_photos_of id at in
        elim (Option-cases (find_live id s.db.items)) [
          | inl e ↦
              let here = change_item-none id (tombstone_item at) s e in
              let run =
                bind-err change rest s _
                  (ap (λ (r : Result CoreError (Unit {0}) × State env). r.0) here) in
              record { kept = rw run (rw here (Sound-same s.db _ refl refl refl)) }
          | inr (a, e) ↦
              let here = change_item-some id (tombstone_item at) s a e in
              let run =
                bind-ok change rest s tt
                  (ap (λ (r : Result CoreError (Unit {0}) × State env). r.0) here) in
              record {
                kept = rw run (
                    rw here (record {
                      moves = Moves-same s.db _ refl;
                      links = demote_deleted s.db _ refl refl;
                    }));
              }
        ];
  }

module _ {env : Env} where
  pub Sound-drop_photo :
      (id : Text) (at : ℕ) → Keeps {env = env} Sound (change_photo id (tombstone_photo at))
  unfolding change_photo
  Sound-drop_photo id at = record {
    at = λ s. elim (Option-cases (find_live id s.db.photos)) [
      | inl e ↦ record { kept = rw (e, change_photo) (Sound-same s.db _ refl refl refl) }
      | inr (a, e) ↦ record {
        kept =
            rw (e, change_photo)
              (record {
                moves = Moves-same s.db _ refl;
                links =
                    Linked-drop_photos (live_at id) (tombstone_photo at) s.db _ refl refl
                      (λ b h. ground arith);
              });
      }
    ];
  }

  pub Sound-insert_photo :
      (photo : Photo) (s : State env)
      → ((i : Text) → photo.item_id ≡ some i → IsHome s.db.items photo.session_id i)
      → KeepsAt Sound (insert_photo photo) s
  unfolding insert_photo
  Sound-insert_photo photo s home = elim (Bool-cases (filename_taken photo.filename s.db.photos)) [
    | inl b ↦ record { kept = rw (b, insert_photo) (Sound-same s.db _ refl refl refl) }
    | inr b ↦ elim (insert_row-cases photo.id photo s.db.photos) [
      | inl (fresh, e) ↦ record {
        kept =
            rw (b, e, insert_photo)
              (record {
                moves = Moves-same s.db _ refl;
                links = Linked-insert_photo _ photo.id s.db _ refl refl home;
              });
      }
      | inr (x, e) ↦ record { kept = rw (b, e, insert_photo) (Sound-same s.db _ refl refl refl) }
    ]
  ]

  -- What `check_item` leaves behind where it succeeds.
  pub check_item-IsHome :
      (session_id : Text) (item_id : Option Text) (s : State env)
      → ((check_item session_id item_id s).1 ≡ s)
        × ((check_item session_id item_id s).0 ≡ ok tt
            → (i : Text) → item_id ≡ some i
            → IsHome s.db.items session_id i)
  unfolding check_item return get_item read own_item fail
  check_item-IsHome session_id none s = (refl, (λ h i e. absurd (ground arith)))
  check_item-IsHome session_id (some j) s = elim (Option-cases (find_live j s.db.items)) [
    | inl e ↦
        let here : (get_item {env = env} j s).0 ≡ err (not_found (codes "item") j) =
          rw (e, found) refl in
        let run = bind-err (get_item j) (own_item session_id j) s _ here in
        rw run (refl, (λ h i same. absurd (ground arith)))
    | inr (item, e) ↦
        let here : (get_item {env = env} j s).0 ≡ ok item = rw (e, found) refl in
        let run = bind-ok (get_item j) (own_item session_id j) s item here in
        let row = find_live-row j s.db.items item e in
        rw run (elim (Bool-cases (text_eq item.session_id session_id)) [
          | inl b ↦ rw b (
            refl,
            (λ h i same. record {
              row = row.0;
              found =
                  let at_i : j ≡ i = ground arith in
                  subst (λ k. get k s.db.items ≡ some row.0) at_i row.1;
              live = row.2;
              session =
                  ap (λ (c : CapturedItem). c.session_id) row.3
                  ∙ (text_eq_iff item.session_id session_id).0 b;
            }),
          )
          | inr b ↦ rw b (refl, (λ h i same. absurd (ground arith)))
        ])
  ]

-- ===== src/Store/Finish/Deletion.antt =====
-- crates/murmur-core/src/store/sessions.rs: what the deletion of a session leaves in the tables, and
-- that a failure leaves nothing.
use sitewalk.Base.{ℕ, suc, Bool, true, ◌&&◌, none, some, ◌≡◌, refl, ◌∙◌, ap, Option-cases, inl, inr}
use sitewalk.Base.Text.{Text, codes, text_eq, text_eq_refl}
use sitewalk.Base.TextMap.{get}
use sitewalk.Base.Result.{Result, ok, err}
use sitewalk.Store.Domain.{not_found, CoreError, Session, CapturedItem, Photo}
use sitewalk.Store.Op.{
  Row, Table, Env, Db, State, Op, ◌>>=◌, ◌>>◌, write, now, is_live, find_live, update_rows, live_at,
  updated, get-update_rows, get-update_rows-some, transaction-ok, transaction-err, bind-ok,
  bind-err, find_live-row, get-update_rows-some,
}
use sitewalk.Store.Items.{tombstone_item}
use sitewalk.Store.Photos.{tombstone_photo}
use sitewalk.Store.Finish.{
  delete_session, tombstone_session_row, cascade, tombstone_session, of_session_artifact,
  tombstone_artifact,
}

live_is_live : {A : Type 0} (r : Row A) → r.deleted_at ≡ none → is_live r ≡ true
unfolding is_live
live_is_live r e = rw e refl

abbrev of_session_item : Text → Text → Row CapturedItem → Bool
of_session_item id k r = text_eq r.value.session_id id && is_live r

abbrev of_session_photo : Text → Text → Row Photo → Bool
of_session_photo id k r = text_eq r.value.session_id id && is_live r

no_longer_live :
    (id : Text) (at : ℕ) (t : Table Session) (a : Session)
    → find_live id t ≡ some a
    → find_live id (update_rows (live_at id) (tombstone_session at) t) ≡ none
unfolding find_live live_at is_live
no_longer_live id at t a e =
    let row = find_live-row id t a e in
    let after = get-update_rows-some (live_at id) (tombstone_session at) id t row.0 row.1 in
    let alive = live_is_live row.0 row.2 in
    let own = text_eq_refl id in rw after (rw (own, alive) refl)

module _ {env : Env} where
  -- What `delete_session` promises of its result and of the database after it.
  unfoldable pub CascadeMeans : State env → Text → Result CoreError (Unit {0}) → Db env → Type 0
  CascadeMeans s id (err e) d = (e ≡ not_found (codes "session") id) × (d ≡ s.db)
  CascadeMeans s id (ok _) d =
      let at = env.clock s.ticks in
      (find_live id d.sessions ≡ none)
      × ((k : Text)
          → get k d.sessions ≡ updated (live_at id) (tombstone_session at) k (get k s.db.sessions))
      × ((k : Text)
          → get k d.items ≡ updated (of_session_item id) (tombstone_item at) k (get k s.db.items))
      × ((k : Text)
          → get k d.artifacts
            ≡ updated (of_session_artifact id) (tombstone_artifact at) k (get k s.db.artifacts))
      × ((k : Text)
          → get k d.photos
            ≡ updated (of_session_photo id) (tombstone_photo at) k (get k s.db.photos))

  module _ (s : State env) (id : Text) (at : ℕ) where
    tombstone_row-none :
        find_live id s.db.sessions ≡ none
        → tombstone_session_row id at s ≡ (err (not_found (codes "session") id), s)
    unfolding tombstone_session_row
    tombstone_row-none e = rw (e, tombstone_session_row) refl

    tombstone_row-some :
        (a : Session)
        → find_live id s.db.sessions ≡ some a
        → tombstone_session_row id at s ≡ (
          ok tt,
          record s {
            db = record s.db {
              sessions = update_rows (live_at id) (tombstone_session at) s.db.sessions;
            };
          },
        )
    unfolding tombstone_session_row
    tombstone_row-some a e = rw (e, tombstone_session_row) refl

  cascade_means :
      (s : State env) (id : Text) (a : Session) (d : Db env)
      → let at = env.clock s.ticks in
        find_live id s.db.sessions ≡ some a
        → d.sessions ≡ update_rows (live_at id) (tombstone_session at) s.db.sessions
        → d.items ≡ update_rows (of_session_item id) (tombstone_item at) s.db.items
        → d.artifacts ≡ update_rows (of_session_artifact id) (tombstone_artifact at) s.db.artifacts
        → d.photos ≡ update_rows (of_session_photo id) (tombstone_photo at) s.db.photos
        → CascadeMeans s id (ok tt) d
  unfolding CascadeMeans
  cascade_means s id a d e sessions items artifacts photos =
      let at = env.clock s.ticks in
      (
        ap (find_live id) sessions ∙ no_longer_live id at s.db.sessions a e,
        (λ k.
            ap (get k) sessions
            ∙ get-update_rows (live_at id) (tombstone_session at) k s.db.sessions),
        (λ k.
            ap (get k) items
            ∙ get-update_rows (of_session_item id) (tombstone_item at) k s.db.items),
        (λ k.
            ap (get k) artifacts
            ∙ get-update_rows (of_session_artifact id) (tombstone_artifact at) k s.db.artifacts),
        (λ k.
            ap (get k) photos
            ∙ get-update_rows (of_session_photo id) (tombstone_photo at) k s.db.photos),
      )

  -- The deletion of a session is a cascade or nothing. If it succeeds, no live session has the id,
  -- and exactly the session's live row and the live items, artifacts and photos of the session have
  -- a new tombstone, with the time of the call: every other row of the four tables, older tombstones
  -- too, is as it was. It fails only with `not found`, and then the database is the one before it.
  pub delete_session-cascade :
      (s : State env) (id : Text)
      → let result = delete_session id s in CascadeMeans s id result.0 result.1.db
  unfolding delete_session CascadeMeans cascade now ◌>>=◌ write ◌>>◌
  delete_session-cascade s id =
      let at = env.clock s.ticks in
      let s' : State env = record s { ticks = suc s.ticks } in
      let rest : Unit {0} → Op env (Unit {0}) = λ _. cascade id at in
      let row : Op env (Unit {0}) = tombstone_session_row id at in
      elim (Option-cases (find_live id s.db.sessions)) [
        | inl e ↦
            let here = tombstone_row-none s' id at e in
            let run =
              bind-err row rest s' _
                (ap (λ (r : Result CoreError (Unit {0}) × State env). r.0) here) in
            let all =
              transaction-err (row >>= rest) s' _
                (ap (λ (r : Result CoreError (Unit {0}) × State env). r.0) run) in
            rw all (refl, refl)
        | inr (a, e) ↦
            let here = tombstone_row-some s' id at a e in
            let run =
              bind-ok row rest s' tt
                (ap (λ (r : Result CoreError (Unit {0}) × State env). r.0) here) in
            let d : Db env = record s.db {
              sessions = update_rows (live_at id) (tombstone_session at) s.db.sessions;
              items =
                  update_rows (λ k r. text_eq r.value.session_id id && is_live r)
                    (tombstone_item at) s.db.items;
              artifacts =
                  update_rows (of_session_artifact id) (tombstone_artifact at) s.db.artifacts;
              photos =
                  update_rows (λ k r. text_eq r.value.session_id id && is_live r)
                    (tombstone_photo at) s.db.photos;
            } in
            let done_ok = ap (λ (r : Result CoreError (Unit {0}) × State env). r.0) run in
            let all = transaction-ok (row >>= rest) s' tt done_ok in
            rw all (rw run (rw here (cascade_means s id a d e refl refl refl refl)))
      ]

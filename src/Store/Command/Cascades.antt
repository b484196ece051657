-- ===== src/Store/Command/Cascades.antt =====
-- crates/murmur-core/src/store: sweeps of a session's items with the demotion or the tombstones of its
-- photos.
use sitewalk.Base.{
  ℕ, ◌+◌, Bool, true, false, ◌&&◌, none, some, ◌≡◌, refl, sym, ◌∙◌, Bool-cases, inl, inr, arith,
}
use sitewalk.Base.Text.{Text, text_eq, text_eq_iff}
use sitewalk.Base.TextMap.{get}
use sitewalk.Store.Domain.{CapturedItem, Photo}
use sitewalk.Store.Op.{
  Row, Table, Env, Db, Op, ◌>>=◌, ◌>>◌, return, write, now, is_live, update_rows, found,
  set_item_id, get-update_rows-some,
}
use sitewalk.Store.Items.{tombstone_item}
use sitewalk.Store.Photos.{tombstone_photo, demote_photos_of_tombstoned_items, is_swept}
use sitewalk.Store.Finish.{sweep_items, sweep_artifacts, cascade, cleared}
use sitewalk.Store.Command.Forward.{Moves-same}
use sitewalk.Store.Command.Links.{Linked, Linked-update_rows}
use sitewalk.Store.Command.Keeps.{Keeps}
use sitewalk.Store.Command.Statements.{Sound, Sound-order}

-- The photos that are demoted after `items` have got their tombstones.
unfoldable demoted : Text → Table CapturedItem → Text → Row Photo → Bool
unfolding is_live is_swept
demoted session_id items k r =
    text_eq r.value.session_id session_id
    && (is_live r && is_swept session_id items r.value.item_id)

is_swept-tombstone :
    (session_id : Text) (items : Table CapturedItem) (i : Text) (r : Row CapturedItem)
    → get i items ≡ some r
    → r.value.session_id ≡ session_id
    → is_live r ≡ false
    → is_swept session_id items (some i) ≡ true
unfolding is_swept
is_swept-tombstone session_id items i r found own dead =
    rw (found, is_swept) (ground (arith, own, dead, text_eq_iff r.value.session_id session_id))

demoted-tombstone :
    (session_id : Text) (items : Table CapturedItem) (k i : Text) (a : Row Photo)
    (r : Row CapturedItem)
    → get i items ≡ some r
    → r.value.session_id ≡ session_id
    → is_live r ≡ false
    → a.value.item_id ≡ some i
    → a.value.session_id ≡ session_id
    → a.deleted_at ≡ none
    → demoted session_id items k a ≡ true
unfolding demoted is_live
demoted-tombstone session_id items k i a r found own dead link same alive =
    let here = is_swept-tombstone session_id items i r found own dead in
    let ours = (text_eq_iff a.value.session_id session_id).1 same in
    rw (ours, alive, link, here) refl

module _ (session_id : Text) (q : Text → Row CapturedItem → Bool) (at later : ℕ) where
  abbrev swept_items : Table CapturedItem → Table CapturedItem
  swept_items items = update_rows q (tombstone_item at) items

  -- A photo that is not demoted keeps its item.
  home_stays :
      ((k : Text) (r : Row CapturedItem) → q k r ≡ true → r.value.session_id ≡ session_id)
      → (items : Table CapturedItem) (k i : Text) (a : Row Photo) (r : Row CapturedItem)
      → demoted session_id (swept_items items) k a ≡ false
      → a.deleted_at ≡ none
      → a.value.item_id ≡ some i
      → get i items ≡ some r
      → r.value.session_id ≡ a.value.session_id
      → q i r ≡ false
  unfolding is_live
  home_stays of_session items k i a r b alive link found same = elim (Bool-cases (q i r)) [
    | inr c ↦ c
    | inl c ↦
        let here = get-update_rows-some q (tombstone_item at) i items r found in
        let gone : get i (swept_items items) ≡ some (tombstone_item at r) = (rw c at here) in
        let own = of_session i r c in
        let yes_demoted =
          demoted-tombstone session_id (swept_items items) k i a (tombstone_item at r) gone own refl
            link (sym same ∙ own) alive in
        absurd (ground (arith, yes_demoted, b))
  ]

  module _ {env : Env} where
    Linked-sweep :
        ((k : Text) (r : Row CapturedItem) → q k r ≡ true → r.value.session_id ≡ session_id)
        → (d d' : Db env) → d'.items ≡ swept_items d.items
        → d'.photos
          ≡ update_rows (demoted session_id (swept_items d.items)) (set_item_id none later) d.photos
        → Linked d
        → Linked d'
    unfolding set_item_id
    Linked-sweep of_session d d' items photos =
        Linked-update_rows q (tombstone_item at) (demoted session_id (swept_items d.items))
          (set_item_id none later) d d' items photos
          (λ k a i alive link. elim (Bool-cases (demoted session_id (swept_items d.items) k a)) [
            | inl b ↦ absurd (ground (arith, b, link))
            | inr b ↦
                let alive' : a.deleted_at ≡ none = ground (arith, b, alive) in
                let link' : a.value.item_id ≡ some i = ground (arith, b, link) in
                (
                  alive',
                  link',
                  (λ r found live same.
                      let stays = home_stays of_session d.items k i a r b alive' link' found same in
                      (ground (arith, stays, live), ground (arith, stays, b, same))),
                )
          ])

module _ {env : Env} (session_id : Text) where
  -- A sweep of the session's items, then the demotion, then what keeps soundness.
  pub Sound-sweep_items :
      {A : Type 0} (q : Text → Row CapturedItem → Bool) (at : ℕ) (k : Op env A)
      → ((j : Text) (r : Row CapturedItem) → q j r ≡ true → r.value.session_id ≡ session_id)
      → Keeps Sound k
      → Keeps Sound (sweep_items q at >> (demote_photos_of_tombstoned_items session_id >> k))
  unfolding sweep_items demote_photos_of_tombstoned_items ◌>>◌ ◌>>=◌ now write demoted
  Sound-sweep_items q at k of_session rest = record {
    at = λ s. record {
      kept =
          Sound-order.chain s.db _ _
            (record {
              moves = Moves-same s.db _ refl;
              links = Linked-sweep session_id q at (env.clock s.ticks) of_session s.db _ refl refl;
            })
            (rest.at _).kept;
    };
  }

  -- The sweep of `clear_authoritative_outputs`, with that of the artifacts between.
  pub Sound-clear :
      (at : ℕ)
      → Keeps {env = env} Sound (
          sweep_items (cleared session_id) at >>= λ n. sweep_artifacts session_id at >>= λ m.
          demote_photos_of_tombstoned_items session_id >> return (n + m))
  unfolding sweep_items sweep_artifacts demote_photos_of_tombstoned_items return ◌>>◌ ◌>>=◌ now
      write demoted cleared
  Sound-clear at = record {
    at = λ s. record {
      kept = record {
        moves = Moves-same s.db _ refl;
        links =
            Linked-sweep session_id (cleared session_id) at (env.clock s.ticks)
              (λ j r c. (text_eq_iff r.value.session_id session_id).0 (ground (arith, c))) s.db _
              refl refl;
      };
    };
  }

  -- The cascade of a session's deletion.
  pub Sound-cascade : (at : ℕ) → Keeps {env = env} Sound (cascade session_id at)
  unfolding cascade write is_live
  Sound-cascade at = record {
    at = λ s. record {
      kept = record {
        moves = Moves-same s.db _ refl;
        links =
            Linked-update_rows (λ k r. text_eq r.value.session_id session_id && is_live r)
              (tombstone_item at) (λ k r. text_eq r.value.session_id session_id && is_live r)
              (tombstone_photo at) s.db _ refl refl
              (λ k a i alive link.
                elim (Bool-cases (text_eq a.value.session_id session_id && is_live a)) [
                  | inl b ↦ absurd (ground (arith, b, alive))
                  | inr b ↦
                      let alive' : a.deleted_at ≡ none = ground (arith, b, alive) in
                      (
                        alive',
                        ground (arith, b, link),
                        (λ r found live same.
                            let other : text_eq r.value.session_id session_id ≡ false =
                              rw same (ground (arith, b, alive')) in
                            (ground (arith, other, live), ground (arith, other, same, b))),
                      )
                ]);
      };
    };
  }

-- ===== src/Store/Command/Links.antt =====
-- crates/murmur-core/src/store: the links from photos to items.
use sitewalk.Base.{
  Bool, none, some, ◌≡◌, ◌≢◌, sym, ◌∙◌, ap, if◌then◌else◌, Bool-cases, inl, inr, arith,
}
use sitewalk.Base.Text.{Text, text_eq, text_eq_iff}
use sitewalk.Base.TextMap.{get, insert, get-insert}
use sitewalk.Store.Domain.{CapturedItem, Photo}
use sitewalk.Store.Op.{
  Row, Table, Env, Db, update_rows, get-update_rows-some, get-update_rows-origin,
}

-- The item `i` is live and in the session `session_id`.
pub record IsHome (items : Table CapturedItem) (session_id i : Text) : Type 0 where
  pub row : Row CapturedItem
  pub found : get i items ≡ some row
  pub live : row.deleted_at ≡ none
  pub session : row.value.session_id ≡ session_id

module _ {env : Env} where
  -- Every live photo that is attached to an item is attached to a live item of its own session.
  unfoldable pub Linked : Db env → Type 0
  Linked d =
      (k : Text) (p : Row Photo)
      → get k d.photos ≡ some p
      → p.deleted_at ≡ none
      → (i : Text) → p.value.item_id ≡ some i
      → IsHome d.items p.value.session_id i

  pub Linked-same :
      (d d' : Db env) → d'.photos ≡ d.photos → d'.items ≡ d.items → Linked d → Linked d'
  unfolding Linked
  Linked-same d d' same_photos same_items l k p e live i at =
      let home = l k p (ap (get k) (sym same_photos) ∙ e) live i at in
      record {
        row = home.row;
        found = ap (get i) same_items ∙ home.found;
        live = home.live;
        session = home.session;
      }

  pub Linked-insert_item :
      (a : Row CapturedItem) (j : Text) (d d' : Db env)
      → get j d.items ≡ none
      → d'.items ≡ insert j a d.items
      → d'.photos ≡ d.photos
      → Linked d
      → Linked d'
  unfolding Linked
  Linked-insert_item a j d d' fresh after same_photos l k p e live i at =
      let home = l k p (ap (get k) (sym same_photos) ∙ e) live i at in
      let here = get-insert j i a d.items in
      let found = home.found in
      record {
        row = home.row;
        found = rw after (ground (arith, here, text_eq_iff j i));
        live = home.live;
        session = home.session;
      }

  pub Linked-insert_photo :
      (a : Row Photo) (j : Text) (d d' : Db env)
      → d'.photos ≡ insert j a d.photos
      → d'.items ≡ d.items
      → ((i : Text) → a.value.item_id ≡ some i → IsHome d.items a.value.session_id i)
      → Linked d
      → Linked d'
  unfolding Linked
  Linked-insert_photo a j d d' after same_items home_of l k p e live i at =
      let here = get-insert j k a d.photos in
      rw same_items (elim (Bool-cases (text_eq j k)) [
        | inl b ↦
            let same : a ≡ p = (let all = ap (get k) (sym after) ∙ e in ground (arith, here)) in
            rw (← same) (home_of i (ap (λ (r : Row Photo). r.value.item_id) same ∙ at))
        | inr b ↦ l k p (let all = ap (get k) (sym after) ∙ e in ground (arith, here)) live i at
      ])

  -- An update of the items and of the photos keeps the links, if every row of a live photo that still
  -- has a link had it before, and the item stays live and in the photo's session.
  pub Linked-update_rows :
      (q : Text → Row CapturedItem → Bool) (g : Row CapturedItem → Row CapturedItem)
      (p : Text → Row Photo → Bool) (f : Row Photo → Row Photo) (d d' : Db env)
      → d'.items ≡ update_rows q g d.items
      → d'.photos ≡ update_rows p f d.photos
      → ((k : Text) (a : Row Photo) (i : Text)
          → let a' = if p k a then f a else a in
            a'.deleted_at ≡ none
            → a'.value.item_id ≡ some i
            → (a.deleted_at ≡ none)
              × (a.value.item_id ≡ some i)
              × ((r : Row CapturedItem)
                  → get i d.items ≡ some r
                  → r.deleted_at ≡ none
                  → r.value.session_id ≡ a.value.session_id
                  → let r' = if q i r then g r else r in
                    (r'.deleted_at ≡ none) × (r'.value.session_id ≡ a'.value.session_id)))
      → Linked d
      → Linked d'
  unfolding Linked
  Linked-update_rows q g p f d d' items photos stays l k a' e live i at =
      let origin = get-update_rows-origin p f k d.photos a' (ap (get k) (sym photos) ∙ e) in
      let a = origin.0 in
      let same : a' ≡ (if p k a then f a else a) = origin.2 in
      let kept =
        stays k a i (ap (λ (r : Row Photo). r.deleted_at) (sym same) ∙ live)
          (ap (λ (r : Row Photo). r.value.item_id) (sym same) ∙ at) in
      let home = l k a origin.1 kept.0 i kept.1 in
      let after = kept.2 home.row home.found home.live home.session in
      record {
        row = if q i home.row then g home.row else home.row;
        found = ap (get i) items ∙ get-update_rows-some q g i d.items home.row home.found;
        live = after.0;
        session = after.1 ∙ ap (λ (r : Row Photo). r.value.session_id) (sym same);
      }

  -- So does an update that only leaves tombstones.
  pub Linked-drop_photos :
      (p : Text → Row Photo → Bool) (f : Row Photo → Row Photo) (d d' : Db env)
      → d'.items ≡ d.items
      → d'.photos ≡ update_rows p f d.photos
      → ((a : Row Photo) → (f a).deleted_at ≢ none)
      → Linked d
      → Linked d'
  unfolding Linked
  Linked-drop_photos p f d d' items photos dead l k a' e live i at =
      let origin = get-update_rows-origin p f k d.photos a' (ap (get k) (sym photos) ∙ e) in
      let a = origin.0 in
      rw items (elim (Bool-cases (p k a)) [
        | inl b ↦ absurd (dead a (let same = origin.2 in ground (arith, b, same, live)))
        | inr b ↦
            let same : a' ≡ a = (let all = origin.2 in ground (arith, b, all)) in
            rw same (
              l k a origin.1 (ap (λ (r : Row Photo). r.deleted_at) (sym same) ∙ live) i
                (ap (λ (r : Row Photo). r.value.item_id) (sym same) ∙ at))
      ])

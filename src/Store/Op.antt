-- ===== src/Store/Op.antt =====
-- crates/murmur-core/src/store/mod.rs: the database as tables, and operations on it. Each statement
-- commits by itself; `transaction` takes every statement of its body back if the body fails. The
-- clock and the source of fresh ids are parameters; a connection that fails is not modelled.
use sitewalk.Base.{
  ℕ, suc, Bool, true, false, ◌&&◌, Option, none, some, List, [], ◌∷◌, if◌then◌else◌, ◌≡◌, refl,
  arith, ◌⊎◌, inl, inr, Option-cases,
}
use sitewalk.Base.Text.{Text, codes, text_eq, text_eq_iff}
use sitewalk.Base.TextMap.{TextMap, get, insert}
use sitewalk.Base.Result.{Result, ok, err}
use sitewalk.Base.Float.{Floats}
use sitewalk.Harness.Policy.{ReflectionSignals}
use sitewalk.Store.Domain.{
  CoreError, sqlite, not_found, Job, Session, CapturedItem, Artifact, Photo, LlmUsageRow,
}
use sitewalk.Store.Domain.Documents.{DocumentSchema, Contact}

-- A row with its tombstone.
pub record Row (A : Type 0) : Type 0 where
  pub value : A
  pub deleted_at : Option ℕ

abbrev pub Table : Type 0 → Type 0
Table A = TextMap (Row A)

-- What a store is opened with.
pub record Env : Type 1 where
  pub floats : Floats
  pub device_id : Text
  pub clock : ℕ → ℕ
  pub fresh : ℕ → Text

pub record Db (env : Env) : Type 0 where
  pub jobs : Table Job
  pub sessions : Table Session
  pub items : Table CapturedItem
  pub artifacts : Table Artifact
  pub photos : Table Photo
  pub llm_usage : TextMap LlmUsageRow
  pub document_schemas : Table DocumentSchema
  pub contacts : Table Contact
  -- the last number of each kind of document
  pub document_sequences : TextMap ℕ
  -- the signals and `last_reflected_at`
  pub reflection_state : Option (ReflectionSignals env.floats × ℕ)

-- The database, and how often the clock was read and an id was made.
pub record State (env : Env) : Type 0 where
  pub db : Db env
  pub ticks : ℕ
  pub minted : ℕ

abbrev pub Op : Env → Type 0 → Type 0
Op env A = State env → Result CoreError A × State env

infixl 5 ◌>>=◌ ◌>>◌
module _ {env : Env} where
  unfoldable pub ◌>>=◌ : {A B : Type 0} → Op env A → (A → Op env B) → Op env B
  ◌>>=◌ m f s = let (r, s') = m s in elim r [ ok a ↦ f a s' | err e ↦ (err e, s') ]

  unfoldable pub ◌>>◌ : {A B : Type 0} → Op env A → Op env B → Op env B
  unfolding ◌>>=◌
  ◌>>◌ m k s = ◌>>=◌ m (λ _. k) s

  unfoldable pub return : {A : Type 0} → A → Op env A
  return a s = (ok a, s)

  unfoldable pub fail : {A : Type 0} → CoreError → Op env A
  fail e s = (err e, s)

  -- `?` on a result
  unfoldable pub lift : {A : Type 0} → Result CoreError A → Op env A
  lift r s = (r, s)

  unfoldable pub read : {A : Type 0} → (Db env → Result CoreError A) → Op env A
  read f s = (f s.db, s)

  unfoldable pub write : (Db env → Db env) → Op env (Unit {0})
  write f s = (ok tt, record s { db = f s.db })

  unfoldable pub now : Op env ℕ
  now s = (ok (env.clock s.ticks), record s { ticks = suc s.ticks })

  unfoldable pub new_id : Op env Text
  new_id s = (ok (env.fresh s.minted), record s { minted = suc s.minted })

  -- `unchecked_transaction`, with a roll back where it is dropped
  unfoldable pub transaction : {A : Type 0} → Op env A → Op env A
  transaction m s =
      let (r, s') = m s in elim r [ ok a ↦ (ok a, s') | err e ↦ (err e, record s' { db = s.db }) ]

module _ {A : Type 0} where
  unfoldable pub is_live : Row A → Bool
  is_live r = elim r.deleted_at [ none ↦ true | some _ ↦ false ]

  live_value : Option (Row A) → Option A
  unfolding is_live
  live_value none = none
  live_value (some r) = if is_live r then some r.value else none

  -- `SELECT … WHERE id = ?1 AND deleted_at IS NULL`
  unfoldable pub find_live : Text → Table A → Option A
  unfolding live_value
  find_live k t = live_value (get k t)

  -- `UPDATE … WHERE p`, over every row
  unfoldable pub update_rows : (Text → Row A → Bool) → (Row A → Row A) → Table A → Table A
  update_rows p f [] = []
  update_rows p f ((k, r) ∷ t) = (k, if p k r then f r else r) ∷ update_rows p f t

  -- The number of rows that an update changes.
  unfoldable pub count_rows : (Text → Row A → Bool) → Table A → ℕ
  count_rows p [] = 0
  count_rows p ((k, r) ∷ t) = let rest = count_rows p t in if p k r then suc rest else rest

  -- `SELECT … WHERE p ORDER BY id ASC`
  unfoldable pub select_rows : (Row A → Bool) → Table A → List A
  select_rows p [] = []
  select_rows p ((k, r) ∷ t) = let rest = select_rows p t in if p r then r.value ∷ rest else rest

  -- `WHERE id = k AND deleted_at IS NULL`
  unfoldable pub live_at : Text → Text → Row A → Bool
  live_at k j r = text_eq j k && is_live r

  -- `id TEXT PRIMARY KEY`
  unfoldable pub insert_row : Text → A → Table A → Result CoreError (Table A)
  insert_row k a t = elim (get k t) [
    | some _ ↦ err (sqlite (codes "UNIQUE constraint failed"))
    | none ↦ ok (insert k (record { value = a; deleted_at = none }) t)
  ]

unfoldable pub found : {A : Type 0} → Text → Text → Option A → Result CoreError A
found entity id none = err (not_found entity id)
found entity id (some a) = ok a

unfoldable pub set_item_id : Option Text → ℕ → Row Photo → Row Photo
set_item_id i at r = record r { value = record r.value { item_id = i; updated_at = at } }

module _ {A : Type 0} where
  -- What an update makes of the row of a key.
  abbrev pub updated :
      (Text → Row A → Bool) → (Row A → Row A) → Text → Option (Row A) → Option (Row A)
  updated p f k none = none
  updated p f k (some r) = some (if p k r then f r else r)

  pub get-update_rows :
      (p : Text → Row A → Bool) (f : Row A → Row A) (k : Text) (t : Table A)
      → get k (update_rows p f t) ≡ updated p f k (get k t)
  unfolding get update_rows
  get-update_rows p f k [] = refl
  get-update_rows p f k ((j, r) ∷ t) = ground (arith, text_eq_iff j k, get-update_rows p f k t)

module _ {env : Env} {A B : Type 0} (m : Op env A) (f : A → Op env B) (s : State env) where
  pub bind-ok : (a : A) → (m s).0 ≡ ok a → (m >>= f) s ≡ f a (m s).1
  unfolding ◌>>=◌
  bind-ok a e = rw (e, ◌>>=◌) refl

  pub bind-err : (x : CoreError) → (m s).0 ≡ err x → (m >>= f) s ≡ (err x, (m s).1)
  unfolding ◌>>=◌
  bind-err x e = rw (e, ◌>>=◌) refl

module _ {env : Env} {A : Type 0} (m : Op env A) (s : State env) where
  pub transaction-ok : (a : A) → (m s).0 ≡ ok a → transaction m s ≡ (ok a, (m s).1)
  unfolding transaction
  transaction-ok a e = rw (e, transaction) refl

  pub transaction-err :
      (x : CoreError) → (m s).0 ≡ err x → transaction m s ≡ (err x, record (m s).1 { db = s.db })
  unfolding transaction
  transaction-err x e = rw (e, transaction) refl

pub found-ok :
    {A : Type 0} (entity id : Text) (o : Option A) (a : A) → found entity id o ≡ ok a → o ≡ some a
unfolding found
found-ok entity id none a e = absurd (cc e)
found-ok entity id (some b) a e = cc

pub insert_row-cases :
    {A : Type 0} (k : Text) (a : A) (t : Table A)
    → ((get k t ≡ none)
        × (insert_row k a t ≡ ok (insert k (record { value = a; deleted_at = none }) t)))
      ⊎ ((x : CoreError) × (insert_row k a t ≡ err x))
unfolding insert_row
insert_row-cases k a t = elim (Option-cases (get k t)) [
  | inl e ↦ inl (e, rw (e, insert_row) refl)
  | inr (r, e) ↦ inr (sqlite (codes "UNIQUE constraint failed"), rw (e, insert_row) refl)
]

module _ {A : Type 0} (p : Text → Row A → Bool) (f : Row A → Row A) (k : Text) (t : Table A) where
  pub get-update_rows-some :
      (r : Row A) → get k t ≡ some r → get k (update_rows p f t) ≡ some (if p k r then f r else r)
  get-update_rows-some r e = let all = get-update_rows p f k t in rw all (rw e refl)

  pub get-update_rows-origin :
      (r' : Row A)
      → get k (update_rows p f t) ≡ some r'
      → (r : Row A) × (get k t ≡ some r) × (r' ≡ (if p k r then f r else r))
  get-update_rows-origin r' e = elim (Option-cases (get k t)) [
    | inl h ↦ absurd (let all = get-update_rows p f k t in ground (arith, all, h, e))
    | inr (r, h) ↦ (r, h, (let all = get-update_rows-some r h in cc))
  ]

live_value-row :
    {A : Type 0} (o : Option (Row A)) (a : A)
    → live_value o ≡ some a
    → (r : Row A) × (o ≡ some r) × (r.deleted_at ≡ none) × (r.value ≡ a)
unfolding live_value is_live
live_value-row none a e = absurd (ground arith)
live_value-row (some r) a e = (r, refl, ground arith, ground arith)

-- The row that a read by id found.
pub find_live-row :
    {A : Type 0} (k : Text) (t : Table A) (a : A)
    → find_live k t ≡ some a
    → (r : Row A) × (get k t ≡ some r) × (r.deleted_at ≡ none) × (r.value ≡ a)
unfolding find_live
find_live-row k t a e = live_value-row (get k t) a e

-- ===== src/Store/Command/Keeps.antt =====
-- crates/murmur-core/src/store: what every statement of an operation keeps, the operation keeps. The
-- relation between the database before and after is a parameter.
use sitewalk.Base.{Bool, true, false, some, ◌≡◌, if◌then◌else◌, inl, inr}
use sitewalk.Base.Text.{Text}
use sitewalk.Base.Result.{Result, ok, Result-cases}
use sitewalk.Store.Domain.{CoreError, Session}
use sitewalk.Store.Op.{
  Env, Db, State, Op, ◌>>=◌, ◌>>◌, return, fail, read, now, new_id, transaction, find_live,
  found-ok, bind-ok, bind-err, transaction-ok, transaction-err,
}
use sitewalk.Store.Sessions.{get_session}

module _ {env : Env} where
  pub record IsPreorder (P : Db env → Db env → Type 0) : Type 0 where
    pub same : (d : Db env) → P d d
    pub chain : (a b c : Db env) → P a b → P b c → P a c

module _ {env : Env} (P : Db env → Db env → Type 0) where
  -- The operation keeps `P`, from one state.
  pub record KeepsAt {A : Type 0} (m : Op env A) (s : State env) : Type 0 where
    pub kept : P s.db (m s).1.db

  -- From every state.
  pub record Keeps {A : Type 0} (m : Op env A) : Type 0 where
    pub at : (s : State env) → KeepsAt m s

module _ {env : Env} {P : Db env → Db env → Type 0} (order : IsPreorder P) where
  open order use {same, chain}

  pub Keeps-return : {A : Type 0} (a : A) → Keeps P (return a)
  unfolding return
  Keeps-return a = record { at = λ s. record { kept = same s.db } }

  pub Keeps-fail : {A : Type 0} (e : CoreError) → Keeps P (fail {A = A} e)
  unfolding fail
  Keeps-fail e = record { at = λ s. record { kept = same s.db } }

  pub Keeps-read : {A : Type 0} (f : Db env → Result CoreError A) → Keeps P (read f)
  unfolding read
  Keeps-read f = record { at = λ s. record { kept = same s.db } }

  pub Keeps-now : Keeps P now
  unfolding now
  Keeps-now = record { at = λ s. record { kept = same s.db } }

  pub Keeps-new_id : Keeps P new_id
  unfolding new_id
  Keeps-new_id = record { at = λ s. record { kept = same s.db } }

  -- The second part runs on the state and the result that the first part gave.
  pub Keeps-bind_at :
      {A B : Type 0} (m : Op env A) (f : A → Op env B) (s : State env)
      → KeepsAt P m s
      → ((a : A) → (m s).0 ≡ ok a → KeepsAt P (f a) (m s).1)
      → KeepsAt P (m >>= f) s
  Keeps-bind_at m f s k l = elim (Result-cases (m s).0) [
    | inl (a, e) ↦
        let same_run = bind-ok m f s a e in
        record { kept = rw same_run (chain s.db (m s).1.db _ k.kept (l a e).kept) }
    | inr (x, e) ↦ let same_run = bind-err m f s x e in record { kept = rw same_run k.kept }
  ]

  pub Keeps-bind :
      {A B : Type 0} {m : Op env A} {f : A → Op env B}
      → Keeps P m
      → ((a : A) → Keeps P (f a))
      → Keeps P (m >>= f)
  Keeps-bind {m = m} {f = f} k l = record {
    at = λ s. Keeps-bind_at m f s (k.at s) (λ a _. (l a).at (m s).1);
  }

  pub Keeps-then :
      {A B : Type 0} {m : Op env A} {n : Op env B} → Keeps P m → Keeps P n → Keeps P (m >> n)
  unfolding ◌>>◌
  Keeps-then {m = m} {n = n} k l = record {
    at = λ s. record { kept = (Keeps-bind_at m (λ _. n) s (k.at s) (λ _ _. l.at (m s).1)).kept };
  }

  pub Keeps-transaction : {A : Type 0} {m : Op env A} → Keeps P m → Keeps P (transaction m)
  Keeps-transaction {m = m} k = record {
    at = λ s. elim (Result-cases (m s).0) [
      | inl (a, e) ↦
          let same_run = transaction-ok m s a e in record { kept = rw same_run (k.at s).kept }
      | inr (x, e) ↦
          let same_run = transaction-err m s x e in record { kept = rw same_run (same s.db) }
    ];
  }

  pub Keeps-if :
      {A : Type 0} {m n : Op env A} (b : Bool)
      → Keeps P m
      → Keeps P n
      → Keeps P (if b then m else n)
  Keeps-if true k l = k
  Keeps-if false k l = l

  -- What follows `get_session` knows the row that it read.
  pub Keeps-get_session :
      {B : Type 0} (id : Text) (f : Session → Op env B)
      → ((a : Session) (s : State env) → find_live id s.db.sessions ≡ some a → KeepsAt P (f a) s)
      → Keeps P (get_session id >>= f)
  unfolding get_session read
  Keeps-get_session id f l = record {
    at = λ s.
        Keeps-bind_at (get_session id) f s (record { kept = same s.db })
          (λ a e. l a s (found-ok _ id (find_live id s.db.sessions) a e));
  }

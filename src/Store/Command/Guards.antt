-- ===== src/Store/Command/Guards.antt =====
-- crates/murmur-core/src/store: what follows a guard, a reading of the clock or a fresh id.
use sitewalk.Base.{ℕ, suc, true, ◌≡◌, refl, Bool-cases, inl, inr, arith}
use sitewalk.Base.Text.{Text}
use sitewalk.Base.Result.{ok}
use sitewalk.Store.Domain.{SessionStatus}
use sitewalk.Store.Op.{Env, State, Op, ◌>>=◌, ◌>>◌, return, fail, now, new_id}
use sitewalk.Store.Sessions.{is_recording, require_recording}
use sitewalk.Store.Command.Keeps.{KeepsAt, Keeps, Keeps-bind_at}
use sitewalk.Store.Command.Statements.{Sound, Sound-order}

module _ {env : Env} where
  pub require_recording-means :
      (what : Text) (st : SessionStatus) (s : State env)
      → ((require_recording what st s).1 ≡ s)
        × ((a : Unit {0}) → (require_recording what st s).0 ≡ ok a → is_recording st ≡ true)
  unfolding require_recording return fail
  require_recording-means what st s = elim (Bool-cases (is_recording st)) [
    | inl b ↦ rw b (refl, (λ a e. refl))
    | inr b ↦ rw b (refl, (λ a e. absurd (ground arith)))
  ]

  -- What follows a guard runs on the same state.
  pub Keeps-after_guard :
      {B : Type 0} (guard : Op env (Unit {0})) (k : Op env B) (s : State env)
      → (guard s).1 ≡ s
      → ((a : Unit {0}) → (guard s).0 ≡ ok a → KeepsAt Sound k s)
      → KeepsAt Sound (guard >> k) s
  unfolding ◌>>◌
  Keeps-after_guard guard k s same rest = record {
    kept =
        (Keeps-bind_at Sound-order guard (λ _. k) s
          (record { kept = rw same (Sound-order.same s.db) }) (λ a e. rw same (rest a e))).kept;
  }

  -- It knows that the guard held.
  pub Keeps-recording :
      {B : Type 0} (what : Text) (st : SessionStatus) (k : Op env B) (s : State env)
      → (is_recording st ≡ true → KeepsAt Sound k s)
      → KeepsAt Sound (require_recording what st >> k) s
  Keeps-recording what st k s rest =
      let means = require_recording-means what st s in
      Keeps-after_guard (require_recording what st) k s means.0 (λ a e. rest (means.1 a e))

  pub Keeps-now_at :
      {B : Type 0} (f : ℕ → Op env B) (s : State env)
      → KeepsAt Sound (f (env.clock s.ticks)) (record s { ticks = suc s.ticks })
      → KeepsAt Sound (now >>= f) s
  unfolding ◌>>=◌ now
  Keeps-now_at f s rest = record { kept = rest.kept }

  pub Keeps-new_id_at :
      {B : Type 0} (f : Text → Op env B) (s : State env)
      → KeepsAt Sound (f (env.fresh s.minted)) (record s { minted = suc s.minted })
      → KeepsAt Sound (new_id >>= f) s
  unfolding ◌>>=◌ new_id
  Keeps-new_id_at f s rest = record { kept = rest.kept }

  pub Keeps-then_at :
      {A B : Type 0} (m : Op env A) (k : Op env B) (s : State env)
      → KeepsAt Sound m s
      → Keeps Sound k
      → KeepsAt Sound (m >> k) s
  unfolding ◌>>◌
  Keeps-then_at m k s one two = record {
    kept = (Keeps-bind_at Sound-order m (λ _. k) s one (λ a e. two.at (m s).1)).kept;
  }

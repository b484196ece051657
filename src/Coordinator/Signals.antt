-- ===== src/Coordinator/Signals.antt =====
-- crates/murmur-core/src/coordinator.rs and reflection.rs: what becomes of the stored signals.
use sitewalk.Base.{ℕ, ◌≡◌, refl, sym, ap, Option, none, some, Bool-cases, arith, inl, inr, ◌⊎◌}
use mathlib.Core.Path.{subst}
use sitewalk.Base.Result.{ok, err, Result-cases}
use sitewalk.Base.Text.{Text, codes}
use sitewalk.Harness.Llm.{Usage, no_usage, usage_eq}
use sitewalk.Harness.Policy.{record_reflection}
use sitewalk.Store.Domain.{CoreError, LlmUsageRow}
use sitewalk.Store.Op.{
  Env, State, Op, ◌>>=◌, ◌>>◌, transaction, transaction-ok, transaction-err, bind-ok, return, now,
  new_id,
}
use sitewalk.Store.Usage.{
  reflection_signals, record_llm_usage, insert_usage, finish_reflection, store_reflection,
  signals_of,
}
use sitewalk.Coordinator.{ReflectionCoordinator, log_failure}

module _ {env : Env} where
  insert_usage-state :
      (u : LlmUsageRow) (s : State env)
      → (insert_usage u s).1.db.reflection_state ≡ s.db.reflection_state
  unfolding insert_usage
  insert_usage-state u s = ground arith

  record_llm_usage-state :
      (session_id : Option Text) (purpose : Text) (usage : Usage) (s : State env)
      → (record_llm_usage session_id purpose usage s).1.db.reflection_state ≡ s.db.reflection_state
  unfolding record_llm_usage ◌>>=◌ now new_id
  record_llm_usage-state session_id purpose usage s = insert_usage-state _ _

  pub log_failure-state :
      {F P Json : Type 0} (c : ReflectionCoordinator env F P Json) (usage : Usage) (s : State env)
      → (log_failure c usage s).db.reflection_state ≡ s.db.reflection_state
  unfolding log_failure
  log_failure-state c usage s = elim (Bool-cases (usage_eq usage no_usage)) [
    | inl e ↦ rw (e, log_failure) refl
    | inr e ↦ rw (e, log_failure) (record_llm_usage-state none (codes "reflection") usage s)
  ]

  -- The signals after a reflection of this churn, and that it is stored as the last one.
  abbrev pub IsRecorded : env.floats.F32 → State env → State env → Type 0
  IsRecorded churn s s' =
      (at : ℕ) × (s'.db.reflection_state
        ≡ some (record_reflection env.floats (signals_of s.db.reflection_state) churn, at))

  finish_steps : env.floats.F32 → Usage → Op env (Unit {0})
  unfolding ◌>>◌
  finish_steps churn usage =
      store_reflection churn >> record_llm_usage none (codes "reflection") usage

  finish_steps-IsRecorded :
      (churn : env.floats.F32) (usage : Usage) (s : State env)
      → IsRecorded churn s (finish_steps churn usage s).1
  unfolding finish_steps store_reflection reflection_signals ◌>>=◌ ◌>>◌ now
      sitewalk.Store.Usage.save_signals sitewalk.Store.Op.read sitewalk.Store.Op.write
  finish_steps-IsRecorded churn usage s =
      (env.clock s.ticks, record_llm_usage-state none (codes "reflection") usage _)

  -- How the last step ends: with the signals stored, or with the database as it was.
  pub finish_reflection-cases :
      (churn : env.floats.F32) (usage : Usage) (s : State env)
      → (((finish_reflection churn usage s).0 ≡ ok tt)
          × IsRecorded churn s (finish_reflection churn usage s).1)
        ⊎ ((x : CoreError) × ((finish_reflection churn usage s).0 ≡ err x)
            × ((finish_reflection churn usage s).1.db ≡ s.db))
  unfolding finish_reflection finish_steps
  finish_reflection-cases churn usage s = elim (Result-cases (finish_steps churn usage s).0) [
    | inl (tt, e) ↦
        let run : finish_reflection churn usage s ≡ (ok tt, (finish_steps churn usage s).1) =
          transaction-ok (finish_steps churn usage) s tt e in
        inl (
          ap (λ p. p.0) run,
          subst (IsRecorded churn s) (sym (ap (λ p. p.1) run))
              (finish_steps-IsRecorded churn usage s),
        )
    | inr (x, e) ↦
        let run = transaction-err (finish_steps churn usage) s x e in
        inr (x, ap (λ p. p.0) run, ap (λ p. p.1.db) run)
  ]

-- ===== src/Coordinator.antt =====
-- crates/murmur-core/src/coordinator.rs: when to reflect, and what is stored before and after. Each
-- lock is held for one step; a poisoned lock is not modelled, and nothing else runs in between, as
-- the source asks of its caller.
pub mod Signals
pub mod Steps
pub mod Outcome
use sitewalk.Base.{
  ℕ, Bool, true, false, not, ◌&&◌, ◌==◌, Option, none, some, List, is_empty, if◌then◌else◌,
}
use sitewalk.Base.Text.{Text, codes}
use sitewalk.Base.Result.{Result, ok, err}
use sitewalk.Harness.Llm.{usage_eq, HarnessError, Usage, no_usage}
use sitewalk.Harness.Agent.{LlmProvider, RunError}
use sitewalk.Harness.Memory.{Memory}
use sitewalk.Harness.MemoryTool.{MemoryStore}
use sitewalk.Harness.Policy.{ReflectionPolicy, should_reflect}
use sitewalk.Harness.Reflection.{JsonView, ReflectionEngine, ReflectionOutcome, reflect}
use sitewalk.Store.Domain.{CoreError, agent}
use sitewalk.Store.Op.{Env, State, Op, ◌>>=◌, return}
use sitewalk.Store.Usage.{reflection_signals, record_llm_usage, finish_reflection}
use sitewalk.Store.Activity.{activity_for_reflection}

-- What a reflection works on: the store, the memory, its files and the model's state.
pub record World (env : Env) (F P : Type 0) : Type 0 where
  pub store : State env
  pub memory : Memory
  pub files : F
  pub provider : P

pub record ReflectionCoordinator (env : Env) (F P Json : Type 0) : Type 0 where
  pub engine : ReflectionEngine
  pub policy : ReflectionPolicy env.floats
  pub memory_store : MemoryStore F
  pub model : LlmProvider Json P
  pub view : JsonView Json
  -- the schema of `write_memory`
  pub schema : Json
  pub max_activity_sessions : ℕ

abbrev pub some_activity : List Text → Option (List Text)
some_activity activity = if is_empty activity then none else some activity

module _ {env : Env} {F P Json : Type 0} (c : ReflectionCoordinator env F P Json) where
  -- The gates of the policy and of the activity.
  unfoldable pub gates : Op env (Option (List Text))
  unfolding ◌>>=◌ return reflection_signals activity_for_reflection should_reflect
  gates = do
    signals ← reflection_signals
    if should_reflect env.floats c.policy signals
        then (do
          activity ← activity_for_reflection c.max_activity_sessions
          return (some_activity activity))
        else return none

  unfoldable pub log_failure : Usage → State env → State env
  unfolding record_llm_usage
  log_failure usage s =
      if usage_eq usage no_usage then s else (record_llm_usage none (codes "reflection") usage s).1

  -- The last step, after the new memory is stored.
  unfoldable pub finish_reflecting :
      ReflectionOutcome env.floats
      → World env F P
      → Result CoreError (Option env.floats.F32) × World env F P
  unfolding finish_reflection
  finish_reflecting outcome w =
      let (done, store) = finish_reflection outcome.churn outcome.usage w.store in
      elim done [
        | err e ↦ (err e, record w { store = store })
        | ok _ ↦ (ok (some outcome.churn), record w { store = store })
      ]

  unfoldable pub swap_memory :
      ReflectionOutcome env.floats
      → World env F P
      → Result CoreError (Option env.floats.F32) × World env F P
  unfolding finish_reflecting
  swap_memory outcome w =
      let (saved, files) = c.memory_store.save w.files outcome.memory in
      let w' : World env F P = record w { memory = outcome.memory; files = files } in
      elim saved [ err e ↦ (err (agent e), w') | ok _ ↦ finish_reflecting outcome w' ]

  unfoldable pub reflect_on :
      ℕ → List Text → World env F P → Result CoreError (Option env.floats.F32) × World env F P
  unfolding reflect log_failure swap_memory
  reflect_on now activity w =
      let (outcome, p) =
        reflect env.floats c.view c.model c.schema c.engine w.memory activity now w.provider in
      elim outcome [
        | err e ↦
            (err (agent e.source), record w { provider = p; store = log_failure e.usage w.store })
        | ok o ↦ swap_memory o (record w { provider = p })
      ]

  -- The snapshot of the memory as it is, and the rest.
  unfoldable pub snapshot_and_reflect :
      ℕ → List Text → World env F P → Result CoreError (Option env.floats.F32) × World env F P
  unfolding reflect_on
  snapshot_and_reflect now activity w =
      let (saved, files) = c.memory_store.save w.files w.memory in
      let w' : World env F P = record w { files = files } in
      elim saved [ err e ↦ (err (agent e), w') | ok _ ↦ reflect_on now activity w' ]

  -- `now` is the reading of the clock.
  unfoldable pub maybe_reflect :
      ℕ → World env F P → Result CoreError (Option env.floats.F32) × World env F P
  unfolding gates snapshot_and_reflect
  maybe_reflect now w =
      let (gated, store) = gates w.store in
      let w' : World env F P = record w { store = store } in
      elim gated [
        | err e ↦ (err e, w')
        | ok o ↦ elim o [
          | none ↦ (ok none, w')
          | some activity ↦ snapshot_and_reflect now activity w'
        ]
      ]

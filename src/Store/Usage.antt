-- ===== src/Store/Usage.antt =====
-- crates/murmur-core/src/store/usage.rs and reflection.rs: the cost of model calls and the signals of
-- reflection. The signals are stored as JSON that is read back as it was written.
use sitewalk.Base.{ℕ, Bool, true, false, Option, none, some, [], if◌then◌else◌}
use sitewalk.Base.Text.{Text, codes}
use sitewalk.Base.TextMap.{get, insert}
use sitewalk.Base.Result.{ok, err}
use sitewalk.Store.Domain.{sqlite, LlmUsageRow}
use sitewalk.Store.Op.{Env, Db, Op, ◌>>=◌, ◌>>◌, return, read, write, now, new_id, transaction}
use sitewalk.Base.Float.{Floats}
use sitewalk.Base.Words.{add_u32}
use sitewalk.Harness.Llm.{Usage}
use sitewalk.Harness.Policy.{ReflectionSignals, record_reflection}

module _ {fl : Floats} where
  pub signals_of : Option (ReflectionSignals fl × ℕ) → ReflectionSignals fl
  signals_of none = record {
    sessions_since_reflection = 0;
    corrections_since_reflection = 0;
    completed_reflections = 0;
    recent_churn = [];
  }
  signals_of (some (signals, at)) = signals

  reflected_of : Option (ReflectionSignals fl × ℕ) → ℕ
  reflected_of none = 0
  reflected_of (some (signals, at)) = at

module _ {env : Env} where
  -- The foreign key to `sessions`, of a row that may be a tombstone.
  session_exists : Option Text → Db env → Bool
  session_exists none db = true
  session_exists (some k) db = elim (get k db.sessions) [ none ↦ false | some _ ↦ true ]

  unfoldable pub insert_usage : LlmUsageRow → Op env (Unit {0})
  unfolding session_exists
  insert_usage u s =
      if session_exists u.session_id s.db
      then (elim (get u.id s.db.llm_usage) [
        | none ↦ (ok tt, record s { db = record s.db { llm_usage = insert u.id u s.db.llm_usage } })
        | some _ ↦ (err (sqlite (codes "UNIQUE constraint failed")), s)
      ])
      else (err (sqlite (codes "FOREIGN KEY constraint failed")), s)

  unfoldable pub record_llm_usage : Option Text → Text → Usage → Op env (Unit {0})
  unfolding ◌>>=◌ now new_id insert_usage
  record_llm_usage session_id purpose usage = do
    id ← new_id
    at ← now
    insert_usage (record {
      id = id;
      session_id = session_id;
      purpose = purpose;
      input_tokens = usage.input_tokens;
      output_tokens = usage.output_tokens;
      cache_creation_input_tokens = usage.cache_creation_input_tokens;
      cache_read_input_tokens = usage.cache_read_input_tokens;
      created_at = at;
      device_id = env.device_id;
    })

  unfoldable pub reflection_signals : Op env (ReflectionSignals env.floats)
  unfolding read signals_of
  reflection_signals = read (λ db. ok (signals_of db.reflection_state))

  unfoldable pub last_reflected_at : Op env ℕ
  unfolding read reflected_of
  last_reflected_at = read (λ db. ok (reflected_of db.reflection_state))

  unfoldable pub save_signals : ReflectionSignals env.floats → Option ℕ → Op env (Unit {0})
  unfolding write reflected_of
  save_signals signals (some at) = write (λ db. record db { reflection_state = some (signals, at) })
  save_signals signals none =
      write
        (λ db. record db { reflection_state = some (signals, reflected_of db.reflection_state) })

  unfoldable pub record_session_completed : Op env (ReflectionSignals env.floats)
  unfolding ◌>>=◌ ◌>>◌ reflection_signals save_signals return add_u32
  record_session_completed = do
    signals ← reflection_signals
    let more : ReflectionSignals env.floats = record signals {
      sessions_since_reflection = add_u32 signals.sessions_since_reflection 1;
    }
    save_signals more none
    return more

  unfoldable pub record_correction : Op env (ReflectionSignals env.floats)
  unfolding ◌>>=◌ ◌>>◌ reflection_signals save_signals return add_u32
  record_correction = do
    signals ← reflection_signals
    let more : ReflectionSignals env.floats = record signals {
      corrections_since_reflection = add_u32 signals.corrections_since_reflection 1;
    }
    save_signals more none
    return more

  unfoldable pub store_reflection : env.floats.F32 → Op env (Unit {0})
  unfolding ◌>>=◌ now reflection_signals save_signals
  store_reflection churn = do
    signals ← reflection_signals
    at ← now
    save_signals (record_reflection env.floats signals churn) (some at)

  unfoldable pub finish_reflection : env.floats.F32 → Usage → Op env (Unit {0})
  unfolding ◌>>◌ transaction store_reflection record_llm_usage
  finish_reflection churn usage =
      transaction (do store_reflection churn; record_llm_usage none (codes "reflection") usage)

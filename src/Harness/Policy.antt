-- ===== src/Harness/Policy.antt =====
-- crates/harness/src/reflection/policy.rs: when to reflect. Churn scores are floats, a parameter.
pub mod Cadence
use sitewalk.Base.{
  ℕ, suc, ◌+◌, ◌-◌, ◌^◌, min, Bool, true, false, List, [], ◌∷◌, ◌++◌, ltb, leb, ◌==◌, if◌then◌else◌,
  length, take, drop, take_while,
}
use mathlib.Core.List.{reverse}
use sitewalk.Base.Words.{add_u32}
use sitewalk.Base.Float.{Floats}

module _ (fl : Floats) where
  open fl use {F32, decimal_f32, lt_f32}

  pub record ReflectionSignals : Type 0 where
    pub sessions_since_reflection : ℕ
    pub corrections_since_reflection : ℕ
    pub completed_reflections : ℕ
    pub recent_churn : List F32

  -- `drain(..excess)` down to the last eight
  unfoldable pub last_eight : List F32 → List F32
  last_eight cs = if ltb 8 (length cs) then drop (length cs - 8) cs else cs

  unfoldable pub record_reflection : ReflectionSignals → F32 → ReflectionSignals
  unfolding add_u32 last_eight
  record_reflection s churn = record {
    sessions_since_reflection = 0;
    corrections_since_reflection = 0;
    completed_reflections = add_u32 s.completed_reflections 1;
    recent_churn = last_eight (s.recent_churn ++ churn ∷ []);
  }

  pub record ReflectionPolicy : Type 0 where
    pub warmup_reflections : ℕ
    pub low_churn_threshold : F32
    pub max_interval_sessions : ℕ

  unfoldable pub default_policy : ReflectionPolicy
  default_policy = record {
    warmup_reflections = 5;
    low_churn_threshold = decimal_f32 1 1;
    max_interval_sessions = 16;
  }

  abbrev pub is_low : ReflectionPolicy → F32 → Bool
  is_low p c = lt_f32 c p.low_churn_threshold

  unfoldable pub required_interval : ReflectionPolicy → ℕ → List F32 → ℕ
  required_interval p completed_reflections recent_churn =
      if ltb completed_reflections p.warmup_reflections
      then 1
      else (let trailing_low = length (take_while (is_low p) (take 7 (reverse recent_churn))) in
          min (2 ^ min trailing_low 6) p.max_interval_sessions)

  unfoldable pub should_reflect : ReflectionPolicy → ReflectionSignals → Bool
  should_reflect p s =
      if s.sessions_since_reflection == 0
      then false
      else if ltb 0 s.corrections_since_reflection
      then true
      else leb (required_interval p s.completed_reflections s.recent_churn)
          s.sessions_since_reflection

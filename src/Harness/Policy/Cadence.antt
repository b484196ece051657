-- ===== src/Harness/Policy/Cadence.antt =====
-- The cadence: back off while little changes, up to a ceiling, and never past it.
use mathlib.Core.List.{reverse, reverse-append}
use sitewalk.Base.{
  ℕ, zero, suc, ◌+◌, ◌-◌, ◌^◌, ◌≤◌, ◌<◌, min, ◌≡◌, refl, sym, ap, ◌∙◌, inl, inr, Bool, true, false,
  List, [], ◌∷◌, ◌++◌, ◌↔◌, ◌⊎◌, arith, ltb, if◌then◌else◌, length, take, drop, take_while,
  Bool-cases, ltb→lt, ltb→le, length-append, take-append-drop, length-drop,
}
use sitewalk.Base.Float.{Floats}
use sitewalk.Harness.Policy.{
  ReflectionSignals, ReflectionPolicy, last_eight, record_reflection, is_low, required_interval,
  should_reflect,
}

module _ {A : Type 0} where
  take-append : (n : ℕ) (xs ys : List A) → n ≤ length xs → take n (xs ++ ys) ≡ take n xs
  take-append zero xs ys h = refl
  take-append (suc n) [] ys h = absurd (omega arith)
  take-append (suc n) (x ∷ xs) ys h = ap (λ r. x ∷ r) (take-append n xs ys (omega arith))

  length-reverse : (xs : List A) → length (reverse xs) ≡ length xs
  length-reverse [] = refl
  length-reverse (x ∷ xs) =
      ap length (reverse-append (x ∷ []) xs)
      ∙ omega (arith, length-append (reverse xs) (x ∷ []), length-reverse xs)

  take-reverse-drop :
      (k n : ℕ) (xs : List A)
      → k + n ≤ length xs
      → take k (reverse (drop n xs)) ≡ take k (reverse xs)
  take-reverse-drop k n xs h = sym (
      ap (λ ys. take k (reverse ys)) (sym (take-append-drop n xs))
      ∙ ap (take k) (reverse-append (take n xs) (drop n xs))
      ∙ take-append k (reverse (drop n xs)) (reverse (take n xs))
          (omega (arith, length-reverse (drop n xs), length-drop n xs)))

  length-take_while-take :
      (p : A → Bool) (n : ℕ) (xs : List A)
      → length (take_while p (take n xs)) ≡ min n (length (take_while p xs))
  length-take_while-take p zero xs = omega arith
  length-take_while-take p (suc n) [] = omega arith
  length-take_while-take p (suc n) (x ∷ xs) = ground (arith, length-take_while-take p n xs)

module _ (fl : Floats) (p : ReflectionPolicy fl) where
  -- How many of the latest reflections changed little, one after another.
  abbrev pub low_run : List fl.F32 → ℕ
  low_run cs = length (take_while (is_low fl p) (reverse cs))

  -- After warmup the interval is two to the power of the run of low-churn reflections, the power at
  -- most six and the interval at most the policy's ceiling: looking at seven scores only is as good
  -- as looking at all. During warmup it is one.
  pub required_interval-power :
      (completed : ℕ) (cs : List fl.F32)
      → required_interval fl p completed cs ≡ (
          if ltb completed p.warmup_reflections
          then 1
          else min (2 ^ min 6 (low_run cs)) p.max_interval_sessions)
  unfolding required_interval
  required_interval-power completed cs =
      let run = length (take_while (is_low fl p) (take 7 (reverse cs))) in
      let same : min run 6 ≡ min 6 (low_run cs) =
        omega (arith, length-take_while-take (is_low fl p) 7 (reverse cs)) in
      ap
        (λ e. if ltb completed p.warmup_reflections then 1 else min (2 ^ e) p.max_interval_sessions)
        same

  -- One more score lengthens the run by one if it is low, and ends it otherwise.
  not_warmup :
      (completed : ℕ)
      → p.warmup_reflections ≤ completed
      → ltb completed p.warmup_reflections ≡ false
  not_warmup completed h = ground arith

  low_run-snoc :
      (cs : List fl.F32) (c : fl.F32)
      → low_run (cs ++ c ∷ []) ≡ (if is_low fl p c then suc (low_run cs) else 0)
  low_run-snoc cs c =
      ap (λ r. length (take_while (is_low fl p) r)) (reverse-append cs (c ∷ [])) ∙ ground arith

  required_interval-seven :
      (completed : ℕ) (cs ds : List fl.F32)
      → take 7 (reverse cs) ≡ take 7 (reverse ds)
      → required_interval fl p completed cs ≡ required_interval fl p completed ds
  unfolding required_interval
  required_interval-seven completed cs ds e =
      ap
        (λ r.
          if ltb completed p.warmup_reflections
          then 1
          else min (2 ^ min (length (take_while (is_low fl p) r)) 6) p.max_interval_sessions)
        e

  last_eight_lem :
      (completed : ℕ) (cs : List fl.F32)
      → (length (last_eight fl cs) ≤ 8)
        × (required_interval fl p completed (last_eight fl cs)
            ≡ required_interval fl p completed cs)
  unfolding last_eight
  last_eight_lem completed cs = elim (Bool-cases (ltb 8 (length cs))) [
    | inl e ↦
        let over : 8 < length cs = ltb→lt 8 (length cs) e in
        rw e (
          omega (arith, length-drop (length cs - 8) cs, over),
          required_interval-seven completed (drop (length cs - 8) cs) cs
              (take-reverse-drop 7 (length cs - 8) cs (omega arith)),
        )
    | inr e ↦ rw e (ltb→le 8 (length cs) e, refl)
  ]

  -- After warmup, one more score doubles the run's interval if it is low and takes it back to one
  -- otherwise: the power of two grows by one, up to six, or falls to zero; the ceiling applies.
  pub required_interval-backoff :
      (completed : ℕ) (cs : List fl.F32) (c : fl.F32)
      → p.warmup_reflections ≤ completed
      → required_interval fl p completed (cs ++ c ∷ []) ≡ (
          if is_low fl p c
          then min (2 ^ min 6 (suc (low_run cs))) p.max_interval_sessions
          else min 1 p.max_interval_sessions)
  required_interval-backoff completed cs c warm =
      required_interval-power completed (cs ++ c ∷ []) ∙ elim (Bool-cases (is_low fl p c)) [
        | inl e ↦ rw (not_warmup completed warm, low_run-snoc, e)
        | inr e ↦ rw (not_warmup completed warm, low_run-snoc, e)
      ]

  -- A reflection resets both counters and keeps at most eight scores; and with the older scores
  -- dropped the required interval is the one of all scores.
  pub record_reflection-trims :
      (s : ReflectionSignals fl) (churn : fl.F32) (completed : ℕ)
      → let s' = record_reflection fl s churn in
        (s'.sessions_since_reflection ≡ 0)
        × (s'.corrections_since_reflection ≡ 0)
        × (length s'.recent_churn ≤ 8)
        × (required_interval fl p completed s'.recent_churn
            ≡ required_interval fl p completed (s.recent_churn ++ churn ∷ []))
  unfolding record_reflection
  record_reflection-trims s churn completed =
      let (short, same) = last_eight_lem completed (s.recent_churn ++ churn ∷ []) in
      (refl, refl, short, same)

  -- When to reflect: never with no session since the last time; at once after a correction; and else
  -- exactly when the sessions since the last time have reached the interval.
  pub should_reflect_iff :
      (s : ReflectionSignals fl)
      → (should_reflect fl p s ≡ true) ↔ (
          (0 < s.sessions_since_reflection)
          × ((0 < s.corrections_since_reflection)
              ⊎ (required_interval fl p s.completed_reflections s.recent_churn
                  ≤ s.sessions_since_reflection)))
  unfolding should_reflect
  should_reflect_iff s = (λ h. ground arith, λ h. ground arith)

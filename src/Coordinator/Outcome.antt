-- ===== src/Coordinator/Outcome.antt =====
-- crates/murmur-core/src/coordinator.rs: what a call of `maybe_reflect` does to the memory, its files
-- and the store, on every way out.
use sitewalk.Base.{
  ℕ, ◌≡◌, refl, sym, ap, ◌∙◌, Bool, true, false, Option, none, some, List, [], ◌∷◌, is_empty,
  Bool-cases, inl, inr, ◌⊎◌,
}
use mathlib.Core.Path.{subst}
use sitewalk.Base.Result.{ok}
use sitewalk.Base.Text.{Text}
use sitewalk.Harness.Policy.{should_reflect}
use sitewalk.Store.Op.{
  Env, State, Op, ◌>>=◌, ◌>>◌, transaction, transaction-ok, transaction-err, bind-ok, return, now,
  new_id,
}
use sitewalk.Store.Usage.{
  reflection_signals, record_llm_usage, insert_usage, finish_reflection, store_reflection,
  signals_of,
}
use sitewalk.Store.Activity.{activity_for_reflection}
use sitewalk.Coordinator.{
  World, ReflectionCoordinator, gates, some_activity, snapshot_and_reflect, maybe_reflect,
}
use sitewalk.Coordinator.Steps.{Answer, ReflectedMeans, snapshot_and_reflect-means}

is_empty-nil : (xs : List Text) → is_empty xs ≡ true → xs ≡ []
is_empty-nil [] e = refl
is_empty-nil (x ∷ xs) e = absurd (cc e)

module _ {env : Env} {F P Json : Type 0} (c : ReflectionCoordinator env F P Json) (now : ℕ) where
  abbrev pub wants_reflection : World env F P → Bool
  wants_reflection w = should_reflect env.floats c.policy (signals_of w.store.db.reflection_state)

  -- The activity that the store has for a reflection.
  abbrev pub Feeds : World env F P → List Text → Type 0
  Feeds w activity =
      activity_for_reflection c.max_activity_sessions w.store ≡ (ok activity, w.store)

  -- A call does nothing, or it reflects on an activity that is there.
  unfoldable pub CallMeans : World env F P → Answer c now → Type 0
  CallMeans w a =
      ((a ≡ (ok none, w)) × ((wants_reflection w ≡ false) ⊎ Feeds w []))
      ⊎ ((wants_reflection w ≡ true)
          × ((activity : List Text) × Feeds w activity
              × (is_empty activity ≡ false)
              × ReflectedMeans c now activity w a))

  fed : (w : World env F P) → (activity : List Text) × Feeds w activity
  unfolding activity_for_reflection ◌>>=◌ sitewalk.Store.Usage.last_reflected_at
      sitewalk.Store.Op.read
  fed w = (_, refl)

  gates-skips :
      (w : World env F P) → wants_reflection w ≡ false → gates c w.store ≡ (ok none, w.store)
  unfolding gates ◌>>=◌ reflection_signals return sitewalk.Store.Op.read
  gates-skips w e = rw (e, gates) refl

  -- The activity's step of the gates.
  feed : Op env (Option (List Text))
  unfolding ◌>>=◌ return
  feed = activity_for_reflection c.max_activity_sessions >>= λ activity.
      return (some_activity activity)

  gates-feed : (w : World env F P) → wants_reflection w ≡ true → gates c w.store ≡ feed w.store
  unfolding gates feed ◌>>=◌ reflection_signals return sitewalk.Store.Op.read
  gates-feed w e = rw (e, gates) refl

  feed-some :
      (w : World env F P) (activity : List Text)
      → Feeds w activity
      → feed w.store ≡ (ok (some_activity activity), w.store)
  unfolding feed return
  feed-some w activity f =
      bind-ok (activity_for_reflection c.max_activity_sessions) (λ a. return (some_activity a))
        w.store activity (ap (λ p. p.0) f)
      ∙ ap (λ p. return (some_activity activity) p.1) f

  abbrev go_on : Option (List Text) → World env F P → Answer c now
  go_on o w = elim o [ none ↦ (ok none, w) | some activity ↦ snapshot_and_reflect c now activity w ]

  after_gates :
      (w : World env F P) (o : Option (List Text))
      → gates c w.store ≡ (ok o, w.store)
      → maybe_reflect c now w ≡ go_on o w
  unfolding maybe_reflect
  after_gates w o e =
      let opened = ap (λ p. p.0) e in
      rw (opened, maybe_reflect) (ap (λ p. go_on o (record w { store = p.1 })) e)

  run_of :
      (w : World env F P) (activity : List Text)
      → wants_reflection w ≡ true
      → Feeds w activity
      → maybe_reflect c now w ≡ go_on (some_activity activity) w
  run_of w activity e f =
      after_gates w (some_activity activity) (gates-feed w e ∙ feed-some w activity f)

  -- A call either does nothing, since the policy does not ask for a reflection or no session has
  -- ended with something to say, or it reflects on the activity. It returns a churn only if four
  -- steps succeed: the snapshot of the old memory is saved, the model makes a new memory of the old
  -- one and the activity, the new one is saved over the snapshot, and the store records the churn of
  -- the new memory with the signals; the memory is then the new one. Otherwise it returns the error
  -- of the first step that fails. If that is the snapshot or the model, the memory is the old one; if
  -- it is the second save or the store, the memory is the new one; in all four cases the signals are
  -- as they were, and the files are those of the saves that were tried.
  pub maybe_reflect-means : (w : World env F P) → CallMeans w (maybe_reflect c now w)
  unfolding CallMeans
  maybe_reflect-means w = elim (Bool-cases (wants_reflection w)) [
    | inr e ↦ inl (after_gates w none (gates-skips w e), inl e)
    | inl e ↦
        let (activity, f) = fed w in
        elim (Bool-cases (is_empty activity)) [
          | inl g ↦
              let none_left : activity ≡ [] = is_empty-nil activity g in
              inl (run_of w [] e (subst (Feeds w) none_left f), inr (subst (Feeds w) none_left f))
          | inr g ↦
              let run : maybe_reflect c now w ≡ snapshot_and_reflect c now activity w =
                run_of w activity e f ∙ rw g refl in
              inr (
                e,
                (
                  activity,
                  f,
                  g,
                  subst (ReflectedMeans c now activity w) (sym run)
                      (snapshot_and_reflect-means c now activity w),
                ),
              )
        ]
  ]

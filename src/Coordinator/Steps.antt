-- ===== src/Coordinator/Steps.antt =====
-- crates/murmur-core/src/coordinator.rs: the four steps of a reflection, and what each leaves when
-- it fails.
use sitewalk.Base.{ℕ, ◌≡◌, refl, sym, ap, ◌∙◌, Option, none, some, List, inl, inr, ◌⊎◌}
use mathlib.Core.Path.{subst}
use sitewalk.Base.Result.{Result, ok, err, Result-cases}
use sitewalk.Base.Text.{Text}
use sitewalk.Harness.Agent.{RunError}
use sitewalk.Harness.Llm.{HarnessError}
use sitewalk.Harness.Reflection.{ReflectionOutcome, reflect}
use sitewalk.Store.Domain.{CoreError, agent}
use sitewalk.Store.Op.{Env}
use sitewalk.Store.Usage.{finish_reflection}
use sitewalk.Coordinator.{
  World, ReflectionCoordinator, finish_reflecting, swap_memory, reflect_on, snapshot_and_reflect,
}
use sitewalk.Coordinator.Signals.{IsRecorded, log_failure-state, finish_reflection-cases}

module _ {env : Env} {F P Json : Type 0} (c : ReflectionCoordinator env F P Json) (now : ℕ) where
  abbrev pub Answer : Type 0
  Answer = Result CoreError (Option env.floats.F32) × World env F P

  -- The memory files after two saves.
  abbrev pub saved_twice : F → ReflectionOutcome env.floats → World env F P → F
  saved_twice files o w = (c.memory_store.save (c.memory_store.save files w.memory).1 o.memory).1

  -- What the model did with the activity and the memory as they were.
  abbrev pub reply : List Text → World env F P → Result RunError (ReflectionOutcome env.floats)
  reply activity w =
      (reflect env.floats c.view c.model c.schema c.engine w.memory activity now w.provider).0

  abbrev pub saved_once : World env F P → F
  saved_once w = (c.memory_store.save w.files w.memory).1

  -- The snapshot of the memory as it was, and the save of the new one after it.
  abbrev pub old_save : World env F P → Result HarnessError (Unit {0})
  old_save w = (c.memory_store.save w.files w.memory).0

  abbrev pub new_save :
      ReflectionOutcome env.floats → World env F P → Result HarnessError (Unit {0})
  new_save o w = (c.memory_store.save (saved_once w) o.memory).0

  abbrev SameSignals : World env F P → World env F P → Type 0
  SameSignals w w' = w'.store.db.reflection_state ≡ w.store.db.reflection_state

  -- The old memory could not be saved: nothing else has happened.
  abbrev SnapshotFails : World env F P → CoreError → World env F P → Type 0
  SnapshotFails w e w' =
      (x : HarnessError) × (old_save w ≡ err x)
      × (e ≡ agent x)
      × (w' ≡ record w { files = saved_once w })

  -- The model's part failed: the memory is as it was.
  abbrev ReflectionFails : List Text → World env F P → CoreError → World env F P → Type 0
  ReflectionFails activity w e w' =
      (x : RunError) × (old_save w ≡ ok tt)
      × (reply activity w ≡ err x)
      × (e ≡ agent x.source)
      × (w'.memory ≡ w.memory)
      × (w'.files ≡ saved_once w)
      × SameSignals w w'

  -- The new memory could not be saved: it is swapped in all the same.
  abbrev SaveFails : List Text → World env F P → CoreError → World env F P → Type 0
  SaveFails activity w e w' =
      (x : HarnessError) × (o : ReflectionOutcome env.floats) × (old_save w ≡ ok tt)
      × (reply activity w ≡ ok o)
      × (new_save o w ≡ err x)
      × (e ≡ agent x)
      × (w'.memory ≡ o.memory)
      × (w'.files ≡ saved_twice w.files o w)
      × SameSignals w w'

  -- The store failed at the end: its database is as it was.
  abbrev RecordFails : List Text → World env F P → CoreError → World env F P → Type 0
  RecordFails activity w e w' =
      (o : ReflectionOutcome env.floats) × (old_save w ≡ ok tt)
      × (reply activity w ≡ ok o)
      × (new_save o w ≡ ok tt)
      × ((finish_reflection o.churn o.usage w.store).0 ≡ err e)
      × (w'.memory ≡ o.memory)
      × (w'.files ≡ saved_twice w.files o w)
      × (w'.store.db ≡ w.store.db)

  -- The ways out after the gates: all four steps succeed, or the first that does not is named.
  unfoldable pub ReflectedMeans : List Text → World env F P → Answer → Type 0
  ReflectedMeans activity w (ok none, w') = ⊥
  ReflectedMeans activity w (ok (some churn), w') =
      (o : ReflectionOutcome env.floats) × (old_save w ≡ ok tt)
      × (reply activity w ≡ ok o)
      × (new_save o w ≡ ok tt)
      × ((finish_reflection o.churn o.usage w.store).0 ≡ ok tt)
      × (churn ≡ o.churn)
      × (w'.memory ≡ o.memory)
      × (w'.files ≡ saved_twice w.files o w)
      × IsRecorded churn w.store w'.store
  ReflectedMeans activity w (err e, w') =
      SnapshotFails w e w'
      ⊎ ReflectionFails activity w e w'
      ⊎ SaveFails activity w e w'
      ⊎ RecordFails activity w e w'

  finish_reflecting-means :
      (activity : List Text) (o : ReflectionOutcome env.floats) (w w1 : World env F P)
      → old_save w ≡ ok tt
      → reply activity w ≡ ok o
      → new_save o w ≡ ok tt
      → w1.memory ≡ o.memory
      → w1.files ≡ saved_twice w.files o w
      → w1.store ≡ w.store
      → ReflectedMeans activity w (finish_reflecting c o w1)
  unfolding finish_reflecting ReflectedMeans
  finish_reflecting-means activity o w w1 old r new m f st =
      elim (finish_reflection-cases o.churn o.usage w1.store) [
        | inl (e, recorded) ↦
            rw (e, finish_reflecting)
              (
                o,
                old,
                r,
                new,
                ap (λ s. (finish_reflection o.churn o.usage s).0) (sym st) ∙ e,
                refl,
                m,
                f,
                subst (λ s. IsRecorded o.churn s (finish_reflection o.churn o.usage w1.store).1) st
                    recorded,
              )
        | inr (x, e, same) ↦
            rw (e, finish_reflecting)
              (inr (
                inr (
                  inr (
                    o,
                    old,
                    r,
                    new,
                    ap (λ s. (finish_reflection o.churn o.usage s).0) (sym st) ∙ e,
                    m,
                    f,
                    same ∙ ap (λ s. s.db) st,
                  ))))
      ]

  swap_memory-means :
      (activity : List Text) (o : ReflectionOutcome env.floats) (w w1 : World env F P)
      → old_save w ≡ ok tt
      → reply activity w ≡ ok o
      → w1.files ≡ saved_once w
      → w1.store ≡ w.store
      → ReflectedMeans activity w (swap_memory c o w1)
  unfolding swap_memory ReflectedMeans
  swap_memory-means activity o w w1 old r f st =
      let again : F → Result HarnessError (Unit {0}) =
        λ files. (c.memory_store.save files o.memory).0 in
      let files : (c.memory_store.save w1.files o.memory).1 ≡ saved_twice w.files o w =
        ap (λ files. (c.memory_store.save files o.memory).1) f in
      elim (Result-cases (again w1.files)) [
        | inl (tt, e) ↦
            rw (e, swap_memory)
              (finish_reflecting-means activity o w _ old r (ap again (sym f) ∙ e) refl files st)
        | inr (x, e) ↦
            rw (e, swap_memory)
              (inr (
                inr (
                  inl (
                    x,
                    o,
                    old,
                    r,
                    ap again (sym f) ∙ e,
                    refl,
                    refl,
                    files,
                    ap (λ s. s.db.reflection_state) st,
                  ))))
      ]

  reflect_on-means :
      (activity : List Text) (w w1 : World env F P)
      → old_save w ≡ ok tt
      → w1.memory ≡ w.memory
      → w1.provider ≡ w.provider
      → w1.files ≡ saved_once w
      → w1.store ≡ w.store
      → ReflectedMeans activity w (reflect_on c now activity w1)
  unfolding reflect_on ReflectedMeans
  reflect_on-means activity w w1 old m p f st =
      let again : (memory : _) → P → _ =
        λ memory q. (reflect env.floats c.view c.model c.schema c.engine memory activity now q).0 in
      let after : (memory : _) → P → P =
        λ memory q. (reflect env.floats c.view c.model c.schema c.engine memory activity now q).1 in
      let same : again w.memory w.provider ≡ again w1.memory w1.provider =
        ap (λ memory. again memory w.provider) (sym m) ∙ ap (again w1.memory) (sym p) in
      elim (Result-cases (again w1.memory w1.provider)) [
        | inl (o, e) ↦
            rw (e, reflect_on)
              (swap_memory-means activity o w (record w1 { provider = after w1.memory w1.provider })
                old (same ∙ e) f st)
        | inr (x, e) ↦
            rw (e, reflect_on)
              (inr (
                inl (
                  x,
                  old,
                  same ∙ e,
                  refl,
                  m,
                  f,
                  log_failure-state c x.usage w1.store ∙ ap (λ s. s.db.reflection_state) st,
                )))
      ]

  pub snapshot_and_reflect-means :
      (activity : List Text) (w : World env F P)
      → ReflectedMeans activity w (snapshot_and_reflect c now activity w)
  unfolding snapshot_and_reflect ReflectedMeans
  snapshot_and_reflect-means activity w = elim (Result-cases (old_save w)) [
    | inl (tt, e) ↦
        rw (e, snapshot_and_reflect) (reflect_on-means activity w _ e refl refl refl refl)
    | inr (x, e) ↦ rw (e, snapshot_and_reflect) (inl (x, e, refl, refl))
  ]

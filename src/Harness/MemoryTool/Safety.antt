-- ===== src/Harness/MemoryTool/Safety.antt =====
-- crates/harness/src/memory/tool.rs: what a call of the tool can do to the memory and its store.
use sitewalk.Base.{
  ℕ, ◌≡◌, refl, ap, ◌∙◌, true, false, ◌⊎◌, inl, inr, Bool-cases, Option-cases, arith,
}
use mathlib.Core.Path.{subst}
use sitewalk.Base.Text.{Text, codes, text_eq, text_eq_iff}
use sitewalk.Base.TextMap.{Sorted-insert}
use sitewalk.Base.Result.{Result, ok, err, Result-cases}
use sitewalk.Harness.Memory.{Memory, is_internal_section, entries, remember_from, forget}
use sitewalk.Harness.Memory.Lookup.{find, find-forget, entries-forget, entries-remember_from}
use sitewalk.Harness.Memory.Weight.{IsOrdered, forget-IsOrdered}
use sitewalk.Harness.Memory.Evict.{clamp_to_cap}
use sitewalk.Harness.Memory.Clamp.{Evicts, clamp_to_cap-Clamped, entries-clamp_internal}
use sitewalk.Harness.Llm.{HarnessError}
use sitewalk.Harness.Reflection.{JsonView}
use sitewalk.Harness.MemoryTool.{
  MemoryStore, UpdateMemoryTool, Update, parse_source, str_field, parse_update, apply_update,
  persist, update_memory,
}

Evicts-IsOrdered : (cap n : ℕ) {m m' : Memory} → IsOrdered m → Evicts cap m n m' → IsOrdered m'
Evicts-IsOrdered cap n o Evicts.stop = o
Evicts-IsOrdered cap n {m = m} o (Evicts.evict c over among least rest) =
    Evicts-IsOrdered cap _ (forget-IsOrdered m c.section c.text o) rest

-- The memory is still in order, and the section `k` is as it was.
abbrev pub Keeps : Text → Memory → Memory → Type 0
Keeps k m m' = IsOrdered m' × (entries m' k ≡ entries m k)

-- With a success the memory is what the store has saved; with an error the store has refused to
-- save it, or it was not asked and every fact is as it was.
unfoldable pub Persisted :
    {P : Type 0} → MemoryStore P → Memory → P → Result HarnessError Text → Memory → P → Type 0
Persisted store m p (ok reply) m' p' = store.save p m' ≡ (ok tt, p')
Persisted store m p (err e) m' p' =
    (store.save p m' ≡ (err e, p')) ⊎ ((p' ≡ p) × ((s t : Text) → find m' s t ≡ find m s t))

unfoldable pub AppliedMeans : Text → Memory → Result HarnessError (Unit {0}) × Memory → Type 0
AppliedMeans k m (ok x, m') = Keeps k m m'
AppliedMeans k m (err e, m') = Keeps k m m' × ((s t : Text) → find m' s t ≡ find m s t)

module _ (k : Text) (internal : is_internal_section k ≡ true) (t : UpdateMemoryTool) (now : ℕ) where
  remembered-Keeps :
      (u : Update) (m : Memory)
      → is_internal_section u.section ≡ false
      → IsOrdered m
      → Keeps k m
          (clamp_to_cap (remember_from m u.section u.text now u.source t.session) t.word_cap).1
  unfolding remember_from
  remembered-Keeps u m outer o =
      let next = remember_from m u.section u.text now u.source t.session in
      let o' : IsOrdered next = Sorted-insert u.section _ m.sections o in
      (
        Evicts-IsOrdered t.word_cap _ o' (clamp_to_cap-Clamped next t.word_cap o').steps,
        entries-clamp_internal next t.word_cap k o' internal
            ∙ ground (
              arith,
              entries-remember_from m u.section u.text k now u.source t.session,
              text_eq_iff u.section k,
              outer,
              internal,
            ),
      )

  forgotten-Keeps :
      (u : Update) (m : Memory)
      → is_internal_section u.section ≡ false
      → IsOrdered m
      → Keeps k m (forget m u.section u.text).1
  forgotten-Keeps u m outer o = (
    forget-IsOrdered m u.section u.text o,
    ground
        (arith, (entries-forget m u.section u.text k).1, text_eq_iff u.section k, outer, internal),
  )

  forgotten-none :
      (u : Update) (m : Memory)
      → (forget m u.section u.text).0 ≡ false
      → (s x : Text) → find (forget m u.section u.text).1 s x ≡ find m s x
  forgotten-none u m e s x =
      let found = find-forget m u.section u.text s x in
      ground (arith, e, found.0, found.1, text_eq_iff u.section s, text_eq_iff u.text x)

  apply_update-means :
      (u : Update) (m : Memory)
      → is_internal_section u.section ≡ false
      → IsOrdered m
      → AppliedMeans k m (apply_update t now u m)
  unfolding apply_update AppliedMeans
  apply_update-means u m outer o = elim (Bool-cases (text_eq u.op (codes "remember"))) [
    | inl e ↦ rw (e, apply_update) (remembered-Keeps u m outer o)
    | inr e ↦ elim (Bool-cases (text_eq u.op (codes "forget"))) [
      | inl f ↦ elim (Bool-cases (forget m u.section u.text).0) [
        | inl g ↦ rw (e, f, g, apply_update) (forgotten-Keeps u m outer o)
        | inr g ↦ rw (e, f, g, apply_update) (forgotten-Keeps u m outer o, forgotten-none u m g)
      ]
      | inr f ↦ rw (e, f, apply_update) ((o, refl), λ s x. refl)
    ]
  ]

-- An input that passes the guards names no internal section.
unfoldable IsOuter : Result HarnessError Update → Type 0
IsOuter (ok u) = is_internal_section u.section ≡ false
IsOuter (err e) = Unit

module _ {Json : Type 0} (view : JsonView Json) where
  parse_update-IsOuter : (input : Json) → IsOuter (parse_update view input)
  unfolding parse_update IsOuter
  parse_update-IsOuter input = elim (Option-cases (str_field view input (codes "op"))) [
    | inl e ↦ rw (e, parse_update) tt
    | inr (op, e) ↦ elim (Option-cases (str_field view input (codes "section"))) [
      | inl f ↦ rw (e, f, parse_update) tt
      | inr (section, f) ↦ elim (Bool-cases (is_internal_section section)) [
        | inl i ↦ rw (e, f, i, parse_update) tt
        | inr i ↦ elim (Option-cases (str_field view input (codes "text"))) [
          | inl g ↦ rw (e, f, i, g, parse_update) tt
          | inr (text, g) ↦
              elim (Result-cases (parse_source (str_field view input (codes "source")))) [
                | inl (source, h) ↦ rw (e, f, i, g, h, parse_update) i
                | inr (x, h) ↦ rw (e, f, i, g, h, parse_update) tt
              ]
        ]
      ]
    ]
  ]

module _ {P : Type 0} (store : MemoryStore P) where
  persist-means :
      (k : Text) (u : Update) (m : Memory) (r : Result HarnessError (Unit {0}) × Memory) (p : P)
      → AppliedMeans k m r
      → Keeps k m (persist store u r p).1.0
        × Persisted store m p
            (persist store u r p).0
            (persist store u r p).1.0
            (persist store u r p).1.1
  unfolding persist Persisted AppliedMeans
  persist-means k u m (err e, m') p h = (h.0, inr (refl, h.1))
  persist-means k u m (ok x, m') p h = (
    h,
    elim (Result-cases (store.save p m').0) [
      | inl (y, e) ↦ rw e (ap (λ r. (r, (store.save p m').1)) e)
      | inr (x', e) ↦ rw e (inl (ap (λ r. (r, (store.save p m').1)) e))
    ],
  )

  module _ (k : Text) (internal : is_internal_section k ≡ true) where
    -- A call of `update_memory` on an ordered memory, whatever its input, leaves it ordered and leaves
    -- every internal section `k` as it was. If it succeeds, the new memory is what the store saved. If
    -- it fails, either the store refused to save the new memory, or the store was not asked and every
    -- fact is as it was.
    pub update_memory-safe :
        {Json : Type 0} (view : JsonView Json) (t : UpdateMemoryTool) (now : ℕ)
        → (m : Memory) (p : P) (input : Json) → IsOrdered m
        → Keeps k m (update_memory store view t now (m, p) input).1.0
          × Persisted store m p
              (update_memory store view t now (m, p) input).0
              (update_memory store view t now (m, p) input).1.0
              (update_memory store view t now (m, p) input).1.1
    unfolding update_memory Persisted IsOuter
    update_memory-safe view t now m p input o = elim (Result-cases (parse_update view input)) [
      | inl (u, e) ↦
          let outer : IsOuter (ok u) = subst IsOuter e (parse_update-IsOuter view input) in
          rw (e, update_memory)
            (persist-means k u m _ p (apply_update-means k internal t now u m outer o))
      | inr (x, e) ↦ rw (e, update_memory) ((o, refl), inr (refl, λ s y. refl))
    ]

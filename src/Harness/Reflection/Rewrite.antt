-- ===== src/Harness/Reflection/Rewrite.antt =====
-- crates/harness/src/reflection/engine.rs: what a reflection leaves of the memory.
use sitewalk.Base.{
  ℕ, ◌≤◌, ◌≡◌, refl, ◌∙◌, true, not, ◌&&◌, Option, none, some, List, [], ◌∷◌, if◌then◌else◌, inl,
  inr, Bool-cases, Option-cases, arith,
}
use mathlib.Core.Path.{subst}
use sitewalk.Base.Text.{Text, codes, text_eq, text_eq_iff}
use sitewalk.Base.TextMap.{TextMap, get, insert, get-insert, Sorted, Sorted-insert}
use sitewalk.Base.Float.{Floats}
use sitewalk.Base.Result.{Result, ok, err, Result-cases}
use sitewalk.Harness.Memory.{
  Memory, MemoryEntry, is_internal_section, entries, remember_from, word_count,
}
use sitewalk.Harness.Memory.Weight.{IsOrdered, get-Above}
use sitewalk.Harness.Memory.Clamp.{clamp_to_cap-Clamped, entries-clamp_internal}
use sitewalk.Harness.Llm.{HarnessError, provider, CompletionResponse, Usage, no_usage}
use sitewalk.Harness.Agent.{RunError, LlmProvider}
use sitewalk.Harness.Reflection.{
  reflection_request, JsonView, ReflectionEngine, ReflectionOutcome, has_non_internal_content,
  write_texts, write_sections, carry_internal, remember_prior, find_write, settle, refused,
  read_response, reflect,
}

remember_prior-IsOrdered :
    (section text : Text) (now : ℕ) (o : Option MemoryEntry) (m : Memory)
    → IsOrdered m
    → IsOrdered (remember_prior section text now o m)
unfolding remember_prior remember_from
remember_prior-IsOrdered section text now none m h = Sorted-insert section _ m.sections h
remember_prior-IsOrdered section text now (some e) m h = Sorted-insert section _ m.sections h

module _ {Json : Type 0} (view : JsonView Json) (current : Memory) (now : ℕ) where
  write_texts-IsOrdered :
      (section : Text) (ts : List Json) (m : Memory)
      → IsOrdered m
      → IsOrdered (write_texts view current now section ts m)
  unfolding write_texts
  write_texts-IsOrdered section [] m h = h
  write_texts-IsOrdered section (t ∷ ts) m h =
      write_texts-IsOrdered section ts _ (elim (Option-cases (view.as_str t)) [
        | inl e ↦ rw e h
        | inr (text, e) ↦ rw e (remember_prior-IsOrdered section text now _ m h)
      ])

  write_sections-IsOrdered :
      (sections : List (Text × Json)) (m : Memory)
      → IsOrdered m
      → IsOrdered (write_sections view current now sections m)
  unfolding write_sections
  write_sections-IsOrdered [] m h = h
  write_sections-IsOrdered ((section, texts) ∷ rest) m h =
      write_sections-IsOrdered rest _ (elim (Option-cases (view.as_array texts)) [
        | inl e ↦ rw e h
        | inr (ts, e) ↦ rw e (write_texts-IsOrdered section ts m h)
      ])

carry_internal-IsOrdered :
    (t : TextMap (List MemoryEntry)) (m : Memory) → IsOrdered m → IsOrdered (carry_internal t m)
unfolding carry_internal
carry_internal-IsOrdered [] m h = h
carry_internal-IsOrdered ((name, es) ∷ t) m h =
    carry_internal-IsOrdered t _ (elim (Bool-cases (is_internal_section name)) [
      | inl e ↦ rw e (Sorted-insert name es m.sections h)
      | inr e ↦ rw e h
    ])

abbrev carried :
    Text → Option (List MemoryEntry) → Option (List MemoryEntry) → Option (List MemoryEntry)
carried k none o = o
carried k (some es) o = if is_internal_section k then some es else o

-- The internal sections of an ordered memory are carried whole; other sections are not touched.
get-carry_internal :
    (k : Text) (t : TextMap (List MemoryEntry)) (m : Memory)
    → Sorted t
    → get k (carry_internal t m).sections ≡ carried k (get k t) (get k m.sections)
unfolding carry_internal get
get-carry_internal k [] m o = refl
get-carry_internal k ((name, es) ∷ t) m o =
    let m' : Memory =
      if is_internal_section name then record { sections = insert name es m.sections } else m in
    let rest = get-carry_internal k t m' o.1 in
    let here = get-insert name k es m.sections in
    elim (Bool-cases (text_eq name k)) [
      | inl e ↦
          let same : name ≡ k = (text_eq_iff name k).0 e in
          let absent : get k t ≡ none =
            subst (λ j. get j t ≡ none) same (get-Above {V = List MemoryEntry} name t o.0) in
          rest ∙ rw (absent, e) (ground (arith, here, e, same))
      | inr e ↦ rest ∙ rw e (ground (arith, here, e))
    ]

module _ (fl : Floats) where
  -- What a response becomes, with its usage: a memory under the cap, the section `k` with the entries
  -- `es`; or an error of the provider's kind.
  unfoldable pub ReadMeans :
      ℕ → Text → List MemoryEntry → Usage → Result RunError (ReflectionOutcome fl) → Type 0
  ReadMeans cap k es usage (ok out) =
      (word_count out.memory ≤ cap) × (entries out.memory k ≡ es) × (out.usage ≡ usage)
  ReadMeans cap k es usage (err e) =
      (e.usage ≡ usage) × ((message : Text) × (e.source ≡ provider message))

  -- What the provider's reply becomes: its error is passed on with no usage.
  unfoldable pub ReflectionMeans :
      {Json : Type 0}
      → ℕ
      → Text
      → List MemoryEntry
      → Result HarnessError (CompletionResponse Json)
      → Result RunError (ReflectionOutcome fl)
      → Type 0
  ReflectionMeans cap k es (err x) result = result ≡ err (record { source = x; usage = no_usage })
  ReflectionMeans cap k es (ok response) result = ReadMeans cap k es response.usage result

  module _ (engine : ReflectionEngine) (current : Memory) (k : Text) (es : List MemoryEntry)
      (ordered : IsOrdered current) (found : get k current.sections ≡ some es)
      (internal : is_internal_section k ≡ true) where
    carried-entries : (m : Memory) → entries (carry_internal current.sections m) k ≡ es
    unfolding entries
    carried-entries m =
        let all = get-carry_internal k current.sections m ordered in
        let here : get k (carry_internal current.sections m).sections ≡ some es =
          all ∙ rw (found, internal) refl in
        rw (here, entries) refl

    settle-means :
        (usage : Usage) (m : Memory)
        → IsOrdered m
        → ReadMeans engine.word_cap k es usage (settle fl engine current usage m)
    unfolding settle ReadMeans refused
    settle-means usage m o =
        let memory = carry_internal current.sections m in
        let o' = carry_internal-IsOrdered current.sections m o in
        elim (Bool-cases
          (has_non_internal_content current && not (has_non_internal_content memory))) [
            | inl b ↦ rw b (refl, (_, refl))
            | inr b ↦ rw b (
              (clamp_to_cap-Clamped memory engine.word_cap o').fits,
              entries-clamp_internal memory engine.word_cap k o' internal ∙ carried-entries m,
              refl,
            )
          ]

    module _ {Json : Type 0} (view : JsonView Json) where
      read_response-means :
          (now : ℕ) (response : CompletionResponse Json)
          → ReadMeans engine.word_cap k es response.usage
              (read_response fl view engine current now response)
      unfolding read_response refused ReadMeans
      read_response-means now response = elim (Option-cases (find_write response.content)) [
        | inl e ↦ rw (e, read_response) (refl, (_, refl))
        | inr (input, e) ↦ elim (Option-cases (view.field input (codes "sections"))) [
          | inl f ↦ rw (e, f, read_response) (refl, (_, refl))
          | inr (value, f) ↦ elim (Option-cases (view.as_object value)) [
            | inl g ↦ rw (e, f, g, read_response) (refl, (_, refl))
            | inr (sections, g) ↦
                rw (e, f, g, read_response)
                  (settle-means response.usage _ (
                    write_sections-IsOrdered view current now sections (record { sections = [] })
                      tt))
          ]
        ]
      ]

      -- Let `k` be an internal section of an ordered memory. When the provider fails, a reflection
      -- is that error, with no usage. When it answers, whatever it says, a reflection either gives a
      -- memory within the word cap in which `k` has the entries that it had, or an error of the
      -- provider's kind; either carries the usage of the answer.
      pub reflect-keeps :
          {P : Type 0} (p : LlmProvider Json P) (schema : Json)
          → (activity : List Text) (now : ℕ) (s : P)
          → ReflectionMeans engine.word_cap k es
              (p.complete s (reflection_request schema engine current activity)).0
              (reflect fl view p schema engine current activity now s).0
      unfolding reflect ReflectionMeans
      reflect-keeps p schema activity now s =
          elim (Result-cases (p.complete s (reflection_request schema engine current activity)).0) [
            | inl (response, e) ↦ rw (e, reflect) (read_response-means now response)
            | inr (x, e) ↦ rw (e, reflect) refl
          ]

-- ===== src/Harness/MemoryTool.antt =====
-- crates/harness/src/memory/tool.rs: the tool by which the agent remembers and forgets facts. The
-- memory store and the reading of the clock are parameters; the lock makes a call atomic.
pub mod Safety
use sitewalk.Base.{ℕ, Bool, true, false, Option, none, some, List, [], ◌∷◌, ◌++◌, if◌then◌else◌}
use sitewalk.Base.Text.{Text, codes, text_eq}
use sitewalk.Base.Result.{Result, ok, err}
use sitewalk.Harness.Memory.{
  Memory, FactSource, inferred, stated, corrected, is_internal_section, remember_from, forget,
}
use sitewalk.Harness.Memory.Evict.{clamp_to_cap}
use sitewalk.Harness.Llm.{HarnessError, tool}
use sitewalk.Harness.Reflection.{JsonView}

-- `trait MemoryStore`: what a save says, and the store after it.
pub record MemoryStore (P : Type 0) : Type 0 where
  pub save : P → Memory → Result HarnessError (Unit {0}) × P

-- The tool's own settings.
pub record UpdateMemoryTool : Type 0 where
  pub session : Option Text
  pub word_cap : ℕ

-- The parts of a well-formed input.
pub record Update : Type 0 where
  pub op : Text
  pub section : Text
  pub text : Text
  pub source : FactSource

unfoldable pub tool_error : Text → HarnessError
tool_error message = tool (codes "update_memory") message

unfoldable pub parse_source : Option Text → Result HarnessError FactSource
unfolding tool_error
parse_source none = ok inferred
parse_source (some s) =
    if text_eq s (codes "inferred")
    then ok inferred
    else (if text_eq s (codes "stated")
        then ok stated
        else (if text_eq s (codes "corrected")
            then ok corrected
            else err (tool_error (codes "unknown source: " ++ s))))

module _ {Json : Type 0} (view : JsonView Json) where
  -- A field that is a string.
  unfoldable pub str_field : Json → Text → Option Text
  str_field input name = elim (view.field input name) [ none ↦ none | some j ↦ view.as_str j ]

  -- The guards of `execute`, up to the lock.
  unfoldable pub parse_update : Json → Result HarnessError Update
  unfolding str_field parse_source tool_error
  parse_update input = elim (str_field input (codes "op")) [
    | none ↦ err (tool_error (codes "missing 'op'"))
    | some op ↦ elim (str_field input (codes "section")) [
      | none ↦ err (tool_error (codes "missing 'section'"))
      | some section ↦ elim (is_internal_section section) [
        | true ↦ err (
            tool_error
              (codes "section '" ++ (section ++ codes "' is internal and cannot be written")))
        | false ↦ elim (str_field input (codes "text")) [
          | none ↦ err (tool_error (codes "missing 'text'"))
          | some text ↦ elim (parse_source (str_field input (codes "source"))) [
            | err e ↦ err e
            | ok source ↦ ok (record { op = op; section = section; text = text; source = source })
          ]
        ]
      ]
    ]
  ]

-- What happens under the lock.
unfoldable pub apply_update :
    UpdateMemoryTool → ℕ → Update → Memory → Result HarnessError (Unit {0}) × Memory
unfolding remember_from clamp_to_cap forget tool_error
apply_update t now u m = elim (text_eq u.op (codes "remember")) [
  | true ↦
      (ok tt, (clamp_to_cap (remember_from m u.section u.text now u.source t.session) t.word_cap).1)
  | false ↦ elim (text_eq u.op (codes "forget")) [
    | true ↦
        let (found, m') = forget m u.section u.text in
        (
          if found
              then ok tt
              else err (
                  tool_error
                    (codes "no entry in " ++ (u.section ++ (codes " matching: " ++ u.text)))),
          m',
        )
    | false ↦ (err (tool_error (codes "unknown op: " ++ u.op)), m)
  ]
]

unfoldable pub update_reply : Update → Text
update_reply u =
    if text_eq u.op (codes "remember")
    then codes "remembered in " ++ (u.section ++ (codes ": " ++ u.text))
    else codes "forgot from " ++ (u.section ++ (codes ": " ++ u.text))

module _ {P : Type 0} (store : MemoryStore P) where
  -- The snapshot is saved after the lock.
  unfoldable pub persist :
      Update → Result HarnessError (Unit {0}) × Memory → P → Result HarnessError Text × (Memory × P)
  unfolding update_reply
  persist u (err e, m) p = (err e, (m, p))
  persist u (ok x, m) p =
      let (saved, p') = store.save p m in
      (elim saved [ err e ↦ err e | ok y ↦ ok (update_reply u) ], (m, p'))

  unfoldable pub update_memory :
      {Json : Type 0}
      → JsonView Json
      → UpdateMemoryTool
      → ℕ
      → Memory × P
      → Json
      → Result HarnessError Text × (Memory × P)
  unfolding parse_update apply_update persist
  update_memory view t now w input = elim (parse_update view input) [
    | err e ↦ (err e, w)
    | ok u ↦ persist u (apply_update t now u w.0) w.1
  ]

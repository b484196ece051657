-- ===== src/Pipeline/Document/Compose.antt =====
-- crates/murmur-core/src/pipeline/document.rs: the pass that writes a document's prose. The tool's
-- schema, by whether lines and assignees are wanted, is a parameter.
use sitewalk.Base.{
  ℕ, ◌+◌, ◌*◌, ◌%◌, ◌^◌, min, max, Bool, true, false, not, ◌&&◌, ◌||◌, Option, none, some, List, [],
  ◌∷◌, ◌++◌, map, keep, is_empty, drop_while, length, if◌then◌else◌, ◌==◌,
}
use mathlib.Core.List.{reverse}
use sitewalk.Base.Text.{Text, codes, text_eq, is_whitespace}
use sitewalk.Base.Text.Split.{join}
use sitewalk.Base.TextMap.{TextMap, get, insert}
use sitewalk.Base.Result.{Result, ok, err}
use sitewalk.Harness.Llm.{
  ToolSpec, CompletionRequest, CompletionResponse, Usage, add_usage, HarnessError, provider,
  user_text,
}
use sitewalk.Harness.Agent.{LlmProvider}
use sitewalk.Harness.Reflection.{JsonView}
use sitewalk.Store.Domain.{CapturedItem}
use sitewalk.Store.Domain.Documents.{SchemaField}
use sitewalk.Store.Schemas.Validate.{is_blank}
use sitewalk.Pipeline.SpokenPrice.Label.{member, trim}
use sitewalk.Pipeline.Notes.{NotesEntry, note_buckets, str_of}
use sitewalk.Pipeline.Document.Prompts.{compose_system, line_brief}
use sitewalk.Pipeline.Document.Prices.{format_pricing_items, find_call}
use sitewalk.Pipeline.Document.Lines.{LineComposition, Composition}

abbrev pub compose_document_tool : Text
compose_document_tool = codes "compose_document"

unfoldable pub compose_document_tool_spec : {Json : Type 0} → Json → ToolSpec Json
compose_document_tool_spec schema = record {
  name = compose_document_tool;
  description =
      codes "Write the prose of a field-work document: the named fields, and the second line "
      ++ (codes "under each item. You may fill only the fields and items given, by their exact key "
          ++ codes "and item_id — you cannot add, rename, drop or reorder anything.");
  input_schema = schema;
}

-- `trim_end`
abbrev trim_end : Text → Text
trim_end s = reverse (drop_while is_whitespace (reverse s))

spaced : Text → Text
spaced bucket = map (λ c. if c == b'_' then 32 else c) bucket

note_lines : List NotesEntry → Text
note_lines [] = []
note_lines (e ∷ es) = codes "- " ++ (e.label ++ (codes ": " ++ (e.detail ++ (10 ∷ note_lines es))))

notes_by_bucket : List NotesEntry → List Text → Text
unfolding spaced note_lines
notes_by_bucket entries [] = []
notes_by_bucket entries (bucket ∷ buckets) =
    let rest = notes_by_bucket entries buckets in
    let here = keep (λ (e : NotesEntry). text_eq e.bucket bucket) entries in
    if is_empty here then rest else spaced bucket ++ (codes ":\n" ++ (note_lines here ++ rest))

unfoldable pub format_notes_context : List NotesEntry → Text
unfolding notes_by_bucket
format_notes_context entries =
    if is_empty entries
    then []
    else trim_end
        (codes "\n\nWhat was said around the work:\n" ++ notes_by_bucket entries note_buckets)

-- In 32 bits; `clamp` panics if the floor is above the ceiling, which no caller asks for.
unfoldable pub compose_budget : ℕ → ℕ → ℕ → Bool → ℕ
compose_budget floor field_count item_count writes_lines =
    let lines = if writes_lines then (item_count % 2 ^ 32 * 64) % 2 ^ 32 else 0 in
    let wanted = ((256 + (field_count % 2 ^ 32 * 128) % 2 ^ 32) % 2 ^ 32 + lines) % 2 ^ 32 in
    min (max wanted floor) 8192

format_field : SchemaField → Text
format_field f =
    codes "- ["
    ++ (f.key ++ (codes "] " ++ (f.label ++ elim f.hint [ none ↦ [] | some h ↦ codes " — " ++ h ])))

unfoldable pub compose_message :
    Text → Option Text → List SchemaField → List CapturedItem → Text → List NotesEntry → Text
unfolding format_field format_pricing_items format_notes_context
compose_message document_label brief fields items summary notes =
    codes "Write this "
    ++ (document_label
        ++ (codes "."
            ++ ((if is_empty fields
                  then []
                  else codes "\n\nFields to write:\n" ++ join (10 ∷ []) (map format_field fields))
                ++ (elim brief [ none ↦ [] | some b ↦ codes "\n\nThe lines:\n" ++ b ]
                    ++ (codes "\n\nThe items on it:\n"
                        ++ (format_pricing_items items
                            ++ (format_notes_context notes
                                ++ (if is_blank summary
                                    then []
                                    else codes "\n\nSession summary:\n" ++ summary))))))))

has_key : {V : Type 0} → Text → TextMap V → Bool
has_key k m = elim (get k m) [ none ↦ false | some v ↦ true ]

-- A value for a known field that has none yet, if it is not blank.
unfoldable pub take_value : List Text → Text → Text → TextMap Text → TextMap Text
unfolding has_key
take_value keys key value fields =
    if member keys key && (not (has_key key fields) && not (is_empty (trim value)))
    then insert key (trim value) fields
    else fields

module _ {Json : Type 0} (view : JsonView Json) where
  read_values : List Text → List Json → TextMap Text → TextMap Text
  unfolding take_value
  read_values keys [] fields = fields
  read_values keys (e ∷ es) fields = read_values keys es (elim (str_of view e (codes "key")) [
    | none ↦ fields
    | some key ↦ elim (str_of view e (codes "value")) [
      | none ↦ fields
      | some value ↦ take_value keys key value fields
    ]
  ])

  named : Option Text → Option Text
  named none = none
  named (some s) = if is_empty (trim s) then none else some (trim s)

  read_assignee : Bool → Json → Option Text
  unfolding named
  read_assignee wants_assignee e =
      if wants_assignee then named (str_of view e (codes "assignee")) else none

  or_default : Option Text → Text
  or_default none = []
  or_default (some s) = s

  is_nothing : LineComposition → Bool
  is_nothing w = is_empty w.detail && elim w.assignee [ none ↦ true | some a ↦ false ]

  unfoldable pub take_line :
      List Text → Bool → Text → Json → TextMap LineComposition → TextMap LineComposition
  unfolding has_key read_assignee or_default is_nothing
  take_line ids wants_assignee id e lines =
      let written : LineComposition = record {
        detail = trim (or_default (str_of view e (codes "detail")));
        assignee = read_assignee wants_assignee e;
      } in
      if not (member ids id) || has_key id lines
      then lines
      else (if is_nothing written then lines else insert id written lines)

  read_lines : List Text → Bool → List Json → TextMap LineComposition → TextMap LineComposition
  unfolding take_line
  read_lines ids wants_assignee [] lines = lines
  read_lines ids wants_assignee (e ∷ es) lines =
      read_lines ids wants_assignee es (elim (str_of view e (codes "item_id")) [
        | none ↦ lines
        | some id ↦ take_line ids wants_assignee id e lines
      ])

  -- The elements of an array field, none if it is missing or no array.
  elements : Json → Text → List Json
  elements input key = elim (view.field input key) [
    | none ↦ []
    | some v ↦ elim (view.as_array v) [ none ↦ [] | some es ↦ es ]
  ]

  unfoldable pub parse_composition : List Text → List Text → Bool → Json → Composition
  unfolding read_values read_lines elements
  parse_composition keys ids wants_assignee input = record {
    fields = read_values keys (elements input (codes "fields")) [];
    lines = read_lines ids wants_assignee (elements input (codes "lines")) [];
  }

  unfoldable pub read_composition :
      List SchemaField
      → List CapturedItem
      → Bool
      → CompletionResponse Json
      → Result HarnessError Composition
  unfolding find_call parse_composition
  read_composition fields items wants_assignee response =
      elim (find_call compose_document_tool response.content) [
        | none ↦ err (provider (codes "compose_document response missing compose_document call"))
        | some input ↦ ok (
            parse_composition (map (λ (f : SchemaField). f.key) fields)
              (map (λ (i : CapturedItem). i.id) items) wants_assignee input)
      ]

  module _ {P : Type 0} (p : LlmProvider Json P) (schema : Bool → Bool → Json) where
    unfoldable pub compose_request :
        Text
        → Text
        → List SchemaField
        → List CapturedItem
        → Text
        → List NotesEntry
        → ℕ
        → CompletionRequest Json
    unfolding compose_system line_brief compose_message compose_document_tool_spec compose_budget
    compose_request document_label line_detail fields items summary notes max_tokens =
        let brief = line_brief line_detail in
        let writes : Bool = elim brief [ none ↦ false | some b ↦ true ] in
        record {
          system = compose_system document_label;
          messages =
              user_text (compose_message document_label brief fields items summary notes) ∷ [];
          tools =
              compose_document_tool_spec (schema writes (text_eq line_detail (codes "directive")))
              ∷ [];
          max_tokens = compose_budget max_tokens (length fields) (length items) writes;
          tool_choice = some compose_document_tool;
          cache_prefix = false;
        }

    unfoldable pub compose_document :
        Text
        → Text
        → List SchemaField
        → List CapturedItem
        → Text
        → List NotesEntry
        → ℕ
        → Usage
        → P
        → Result HarnessError Composition × Usage × P
    unfolding compose_request read_composition
    compose_document document_label line_detail fields items summary notes max_tokens usage s =
        let (reply, s') =
          p.complete s
            (compose_request document_label line_detail fields items summary notes max_tokens) in
        elim reply [
          | err e ↦ (err e, usage, s')
          | ok response ↦ (
            read_composition fields items (text_eq line_detail (codes "directive")) response,
            add_usage usage response.usage,
            s',
          )
        ]

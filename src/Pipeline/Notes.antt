-- ===== src/Pipeline/Notes.antt =====
-- crates/murmur-core/src/pipeline/notes.rs: the notes around the work. Reading JSON is a parameter.
use sitewalk.Base.{Option, none, some, List, [], ◌∷◌, any, if◌then◌else◌}
use sitewalk.Base.Text.{Text, codes, text_eq}
use sitewalk.Harness.Reflection.{JsonView}

abbrev pub note_buckets : List Text
note_buckets = codes "scope_of_work" ∷ codes "constraints" ∷ codes "conditions_and_issues" ∷ []

pub record NotesEntry : Type 0 where
  pub bucket : Text
  pub label : Text
  pub detail : Text

module _ {Json : Type 0} (view : JsonView Json) where
  -- `value.get(key)?.as_str()?`
  abbrev pub str_of : Json → Text → Option Text
  str_of value key = elim (view.field value key) [ none ↦ none | some v ↦ view.as_str v ]

  -- A row with all three texts and a known bucket.
  unfoldable pub read_entry : Json → Option NotesEntry
  unfolding text_eq
  read_entry row = elim (str_of row (codes "bucket")) [
    | none ↦ none
    | some bucket ↦ elim (str_of row (codes "label")) [
      | none ↦ none
      | some label ↦ elim (str_of row (codes "detail")) [
        | none ↦ none
        | some detail ↦
            if any (text_eq bucket) note_buckets
            then some (record { bucket = bucket; label = label; detail = detail })
            else none
      ]
    ]
  ]

  unfoldable pub read_entries : List Json → List NotesEntry
  unfolding read_entry
  read_entries [] = []
  read_entries (row ∷ rows) =
      let rest = read_entries rows in elim (read_entry row) [ none ↦ rest | some e ↦ e ∷ rest ]

  unfoldable pub parse_notes_value : Json → List NotesEntry
  unfolding read_entries
  parse_notes_value value = elim (view.as_array value) [ none ↦ [] | some rows ↦ read_entries rows ]

  -- A missing `buckets` is null, which is no array.
  unfoldable pub parse_notes_artifact : (Text → Option Json) → Text → List NotesEntry
  unfolding parse_notes_value
  parse_notes_artifact from_str body = elim (from_str body) [
    | none ↦ []
    | some value ↦ elim (view.field value (codes "buckets")) [
      | none ↦ []
      | some entries ↦ parse_notes_value entries
    ]
  ]

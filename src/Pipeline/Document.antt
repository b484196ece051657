-- ===== src/Pipeline/Document.antt =====
-- crates/murmur-core/src/pipeline/document.rs: building a document.
pub mod Prompts
pub mod Lines
pub mod Prices
pub mod Compose
pub mod Passes
pub mod Outranks
pub mod Total
pub mod Build
use sitewalk.Base.{
  ℕ, ◌+◌, Bool, true, false, not, ◌&&◌, ◌||◌, Option, none, some, List, [], ◌∷◌, ◌++◌, map, keep,
  any, is_empty, length, if◌then◌else◌, ◌==◌,
}
use mathlib.Core.List.{reverse}
use sitewalk.Base.Text.{Text, codes, text_eq}
use sitewalk.Base.TextMap.{TextMap, get}
use sitewalk.Base.Float.{Floats}
use sitewalk.Base.CharTables.{CharTables}
use sitewalk.Base.Result.{Result, ok, err}
use sitewalk.Harness.Llm.{usage_eq, Usage, no_usage, HarnessError}
use sitewalk.Harness.Agent.{LlmProvider}
use sitewalk.Harness.Memory.{Memory, to_prompt}
use sitewalk.Harness.Reflection.{JsonView}
use sitewalk.Store.Domain.{
  CoreError, invalid_state, Session, SessionStatus, session_status_str, processed, CapturedItem,
  Artifact,
}
use sitewalk.Store.Domain.Documents.{DocumentSchema, SchemaSection, SchemaField, line_items}
use sitewalk.Store.Op.{Env, State, Op, ◌>>=◌, ◌>>◌, return, fail}
use sitewalk.Store.Sessions.{get_session}
use sitewalk.Store.Items.{list_items_for_session}
use sitewalk.Store.Artifacts.{list_artifacts_for_session}
use sitewalk.Store.Usage.{record_llm_usage}
use sitewalk.Store.Schemas.{has_active_schema, resolve_active_schema}
use sitewalk.Store.Documents.{mint_document_number_and_add_artifact}
use sitewalk.Pipeline.SpokenPrice.Label.{member}
use sitewalk.Pipeline.SpokenPrice.{FoldedPrices, fold_spoken_prices, unfolded}
use sitewalk.Pipeline.Notes.{NotesEntry, parse_notes_artifact}
use sitewalk.Pipeline.Document.Lines.{
  DocumentLine, DocumentField, Composition, per_pricing_kind, render_lines, apply_prices,
  apply_composition, assemble_fields, total_cents, draws_kind,
}
use sitewalk.Pipeline.Document.Prompts.{line_brief}
use sitewalk.Pipeline.Document.Prices.{price_items}
use sitewalk.Pipeline.Document.Compose.{compose_document}

-- The body of the artifact; `static_total_cents` is always null.
pub record DocumentPayload : Type 0 where
  pub doc_kind : Text
  pub job_date_unix : ℕ
  pub total : Option ℕ
  pub total_kind : Text
  pub total_label_key : Text
  pub lines : List DocumentLine
  pub queued : Bool
  pub number_prefix : Text
  pub fields : List DocumentField
  pub doc_number : ℕ

pub record BuildDocumentOutcome : Type 0 where
  pub document_artifact_id : Text
  pub usage : Usage
  pub queued : Bool

first_line_items : List SchemaSection → Option SchemaSection
first_line_items [] = none
first_line_items (s ∷ ss) =
    let rest = first_line_items ss in if text_eq s.kind line_items then some s else rest

unfoldable pub is_priced_schema : DocumentSchema → Bool
unfolding first_line_items
is_priced_schema schema = elim (first_line_items schema.sections) [
  | none ↦ false
  | some s ↦ s.priced
]

unfoldable pub line_detail_of : DocumentSchema → Text
unfolding first_line_items
line_detail_of schema = elim (first_line_items schema.sections) [
  | none ↦ []
  | some s ↦ s.line_detail
]

-- The fields that the walk fills, of all filled sections.
unfoldable pub walk_fields : List SchemaSection → List SchemaField
walk_fields [] = []
walk_fields (s ∷ ss) =
    let rest = walk_fields ss in
    if text_eq s.kind (codes "filled")
    then keep (λ (f : SchemaField). text_eq f.fill (codes "walk")) s.fields ++ rest
    else rest

abbrev has_brief : Option Text → Bool
has_brief none = false
has_brief (some b) = true

-- What the build reads before it calls the model.
pub record Draft : Type 0 where
  pub session : Session
  pub items : List CapturedItem
  pub schema : DocumentSchema

-- What the two passes work on.
pub record Work (P : Type 0) : Type 0 where
  pub lines : List DocumentLine
  pub composed : Composition
  pub usage : Usage
  pub queued : Bool
  pub provider : P

-- The items that the document draws.
unfoldable pub drawn_items : DocumentSchema → List CapturedItem → List CapturedItem
unfolding draws_kind line_detail_of
drawn_items schema items =
    keep (λ (i : CapturedItem). draws_kind (line_detail_of schema) i.kind) items

-- A document with no amounts keeps each price in its title.
unfoldable pub folded_items :
    Floats → CharTables → DocumentSchema → List CapturedItem → FoldedPrices
unfolding is_priced_schema fold_spoken_prices unfolded
folded_items fl tables schema drawn =
    if is_priced_schema schema then fold_spoken_prices fl tables drawn else unfolded drawn

pub has_amount : TextMap ℕ → CapturedItem → Bool
has_amount amounts i = elim (get i.id amounts) [ none ↦ false | some c ↦ true ]

unfoldable pub unpriced_items : FoldedPrices → List CapturedItem
unfolding has_amount
unpriced_items folded = keep (λ i. not (has_amount folded.amounts i)) folded.items

-- The lines with the spoken prices on them.
unfoldable pub spoken_lines : (ℕ → Text) → ℕ → DocumentSchema → FoldedPrices → List DocumentLine
unfolding render_lines apply_prices is_priced_schema
spoken_lines fresh n schema folded =
    apply_prices folded.amounts
      (render_lines fresh n folded.items per_pricing_kind (is_priced_schema schema))

-- What a builder is given: the readings of JSON, the tools' schemas and the model.
pub record DocumentBuilder (Json P : Type 0) : Type 0 where
  pub view : JsonView Json
  pub from_str : Text → Option Json
  pub price_schema : Json
  pub compose_schema : Bool → Bool → Json
  pub model : LlmProvider Json P
  pub max_tokens : ℕ
  -- `serde_json::to_string` of a payload, and the debug form of a template
  pub encode : DocumentPayload → Text
  pub debug : Option Text → Text

module _ {Json P : Type 0} (b : DocumentBuilder Json P) where
  pub after_prices : Work P → Result HarnessError (TextMap ℕ) × Usage × P → Work P
  after_prices w (ok prices, usage, p) = record w {
    lines = apply_prices prices w.lines;
    usage = usage;
    provider = p;
  }
  after_prices w (err e, usage, p) = record w { queued = true; usage = usage; provider = p }

  unfoldable pub price_pass : DocumentSchema → FoldedPrices → Text → Work P → Work P
  unfolding unpriced_items price_items after_prices is_priced_schema apply_prices
  price_pass schema folded memory_prompt w =
      if is_priced_schema schema && not (is_empty (unpriced_items folded))
      then after_prices w (
          price_items b.view b.model b.price_schema (unpriced_items folded) memory_prompt
            b.max_tokens w.usage w.provider)
      else w

  pub after_compose : Work P → Result HarnessError Composition × Usage × P → Work P
  after_compose w (ok c, usage, p) = record w {
    lines = apply_composition c.lines w.lines;
    composed = c;
    usage = usage;
    provider = p;
  }
  after_compose w (err e, usage, p) = record w { queued = true; usage = usage; provider = p }

  or_empty : Option Text → Text
  or_empty none = []
  or_empty (some t) = t

  unfoldable pub wants_prose : DocumentSchema → Bool
  unfolding walk_fields line_brief line_detail_of
  wants_prose schema =
      not (is_empty (walk_fields schema.sections)) || has_brief (line_brief (line_detail_of schema))

  unfoldable pub compose_pass : Draft → List NotesEntry → Work P → Work P
  unfolding compose_document after_compose walk_fields line_detail_of or_empty apply_composition
  compose_pass draft notes w = after_compose w (
      compose_document b.view b.model b.compose_schema draft.schema.label
        (line_detail_of draft.schema) (walk_fields draft.schema.sections) draft.items
        (or_empty draft.session.summary) notes b.max_tokens w.usage w.provider)

  unfoldable pub payload : Text → Draft → Work P → ℕ → DocumentPayload
  unfolding total_cents assemble_fields is_priced_schema
  payload doc_kind draft w number = record {
    doc_kind = doc_kind;
    job_date_unix = draft.session.started_at;
    total = total_cents (is_priced_schema draft.schema) w.lines;
    total_kind = draft.schema.total_kind;
    total_label_key = draft.schema.total_label_key;
    lines = w.lines;
    queued = w.queued;
    number_prefix = draft.schema.number_prefix;
    fields = assemble_fields draft.schema.sections w.composed.fields;
    doc_number = number;
  }

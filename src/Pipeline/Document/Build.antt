-- ===== src/Pipeline/Document/Build.antt =====
-- crates/murmur-core/src/pipeline/document.rs: `DocumentBuilder::build`, on the store.
pub mod Reads
pub mod Stored
use sitewalk.Base.{
  ◌+◌, Bool, false, not, ◌||◌, Option, none, some, List, [], ◌∷◌, ◌++◌, is_empty, length,
  if◌then◌else◌,
}
use mathlib.Core.List.{reverse}
use sitewalk.Base.Text.{Text, codes, text_eq}
use sitewalk.Base.CharTables.{CharTables}
use sitewalk.Harness.Llm.{usage_eq, Usage, no_usage}
use sitewalk.Harness.Memory.{Memory, to_prompt}
use sitewalk.Harness.Reflection.{JsonView}
use sitewalk.Store.Domain.{invalid_state, SessionStatus, session_status_str, processed, Artifact}
use sitewalk.Store.Domain.Documents.{DocumentSchema}
use sitewalk.Store.Op.{Env, Op, ◌>>=◌, ◌>>◌, return, fail}
use sitewalk.Store.Sessions.{get_session}
use sitewalk.Store.Items.{list_items_for_session}
use sitewalk.Store.Artifacts.{list_artifacts_for_session}
use sitewalk.Store.Usage.{record_llm_usage}
use sitewalk.Store.Schemas.{has_active_schema, resolve_active_schema}
use sitewalk.Store.Documents.{mint_document_number_and_add_artifact}
use sitewalk.Pipeline.SpokenPrice.Label.{member}
use sitewalk.Pipeline.Notes.{NotesEntry, parse_notes_artifact}
use sitewalk.Pipeline.Document.{
  BuildDocumentOutcome, Draft, Work, DocumentBuilder, drawn_items, folded_items, spoken_lines,
  price_pass, wants_prose, compose_pass, payload,
}

-- `doc_kinds_for_template`, in pipeline/mod.rs.
unfoldable pub doc_kinds_for_template : Option Text → List Text
unfolding text_eq
doc_kinds_for_template none = codes "report" ∷ []
doc_kinds_for_template (some t) =
    if text_eq t (codes "landscape")
    then codes "estimate" ∷ codes "invoice" ∷ codes "work_order" ∷ []
    else (if text_eq t (codes "property")
        then codes "condition" ∷ codes "move_out" ∷ []
        else (if text_eq t (codes "inspection")
            then codes "inspection" ∷ []
            else codes "report" ∷ []))

first_some : {A : Type 0} → (A → Bool) → List A → Option A
first_some p [] = none
first_some p (x ∷ xs) = let rest = first_some p xs in if p x then some x else rest

module _ {env : Env} where
  abbrev refuse : {A : Type 0} → Text → Op env A
  refuse message = fail (invalid_state message)

  pub require_processed : SessionStatus → Op env (Unit {0})
  unfolding fail return
  require_processed processed = return tt
  require_processed status =
      refuse
        (codes "cannot build a document for a " ++ (session_status_str status ++ codes " session"))

  pub require_schema : Text → Text → Option DocumentSchema → Op env DocumentSchema
  unfolding fail return
  require_schema doc_kind template none = refuse (
      codes "no active schema for '"
      ++ (doc_kind ++ (codes "' (template " ++ (template ++ codes ") — it was removed"))))
  require_schema doc_kind template (some schema) = return schema

  pub require : Bool → Text → Op env (Unit {0})
  unfolding fail return
  require b message = if b then return tt else refuse message

  unfoldable pub read_draft : (Option Text → Text) → Text → Text → Op env Draft
  unfolding ◌>>=◌ ◌>>◌ return get_session require_processed has_active_schema resolve_active_schema
      list_items_for_session require require_schema doc_kinds_for_template
  read_draft debug session_id doc_kind = do
    session ← get_session session_id
    require_processed session.status
    active ← has_active_schema doc_kind session.template
    require (member (doc_kinds_for_template session.template) doc_kind || active) (
        codes "'"
        ++ (doc_kind
            ++ (codes "' is not a legal document kind for template " ++ debug session.template)))
    found ← resolve_active_schema doc_kind session.template
    schema ← require_schema doc_kind (debug session.template) found
    items ← list_items_for_session session_id
    require (not (is_empty items)) (codes "nothing to build — this walk has no items yet")
    return (record { session = session; items = items; schema = schema })

  -- The notes of the last notes artifact.
  unfoldable pub session_notes :
      {Json : Type 0} → JsonView Json → (Text → Option Json) → Text → Op env (List NotesEntry)
  unfolding ◌>>=◌ return list_artifacts_for_session first_some parse_notes_artifact
  session_notes view from_str session_id = do
    artifacts ← list_artifacts_for_session session_id
    return
        (elim (first_some (λ (a : Artifact). text_eq a.kind (codes "notes")) (reverse artifacts)) [
          | none ↦ []
          | some a ↦ parse_notes_artifact view from_str a.body
        ])

module _ {Json P : Type 0} (b : DocumentBuilder Json P) {env : Env} where
  pub record_usage : Text → Usage → Op env (Unit {0})
  unfolding record_llm_usage return ◌>>◌
  record_usage session_id usage =
      if usage_eq usage no_usage
      then return tt
      else record_llm_usage (some session_id) (codes "document") usage >> return tt

  unfoldable pub finish_build : Text → Text → Draft → Work P → Op env BuildDocumentOutcome
  unfolding ◌>>=◌ ◌>>◌ return mint_document_number_and_add_artifact payload record_usage
  finish_build session_id doc_kind draft w = do
    artifact ←
        mint_document_number_and_add_artifact session_id doc_kind none
          (λ n. b.encode (payload b doc_kind draft w n))
    record_usage session_id w.usage
    return (record { document_artifact_id = artifact.id; usage = w.usage; queued = w.queued })

  -- The prose pass reads the notes from the store first; they cannot be missing.
  unfoldable pub prose_pass : Text → Draft → Work P → Op env (Work P)
  unfolding ◌>>=◌ return session_notes compose_pass wants_prose
  prose_pass session_id draft w =
      if wants_prose b draft.schema
      then (do
        notes ← session_notes b.view b.from_str session_id
        return (compose_pass b draft notes w))
      else return w

  -- From the lines on; the model's state is that of the work.
  unfoldable pub build_from :
      CharTables → Memory → Text → Text → P → Draft → Op env (BuildDocumentOutcome × P)
  unfolding ◌>>=◌ ◌>>◌ return fail drawn_items folded_items spoken_lines price_pass prose_pass
      finish_build to_prompt
  build_from tables memory session_id doc_kind p draft s =
      let drawn = drawn_items draft.schema draft.items in
      let folded = folded_items env.floats tables draft.schema drawn in
      let w : Work P = record {
        lines = spoken_lines env.fresh s.minted draft.schema folded;
        composed = record { fields = []; lines = [] };
        usage = no_usage;
        queued = false;
        provider = p;
      } in
      let passes : Op env (BuildDocumentOutcome × P) = do
        w' ← prose_pass session_id draft (price_pass b draft.schema folded (to_prompt memory) w)
        outcome ← finish_build session_id doc_kind draft w'
        return (outcome, w'.provider)
      in if is_empty drawn
        then refuse
            (codes "nothing to build — this walk captured no work or materials for this document") s
        else passes (record s { minted = s.minted + length folded.items })

  unfoldable pub build : CharTables → Memory → Text → Text → P → Op env (BuildDocumentOutcome × P)
  unfolding ◌>>=◌ read_draft build_from
  build tables memory session_id doc_kind p = do
    draft ← read_draft b.debug session_id doc_kind
    build_from tables memory session_id doc_kind p draft

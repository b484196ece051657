-- ===== src/Store/Domain.antt =====
-- crates/murmur-core/src/domain.rs and error.rs: the entities of the store and its errors.
pub mod Documents
use sitewalk.Base.{ℕ, Bool, Option, ◌++◌, if◌then◌else◌, ◌≡◌, refl}
use sitewalk.Base.Text.{Text, codes, text_eq}
use sitewalk.Base.Result.{Result, ok, err}
use sitewalk.Harness.Llm.{HarnessError}

pub data CoreError : Type 0 where
  sqlite : Text → CoreError
  -- entity, id
  not_found : Text → Text → CoreError
  corrupt serde invalid_state : Text → CoreError
  agent : HarnessError → CoreError

pub data JobStatus : Type 0 where
  active done archived : JobStatus

unfoldable pub job_status_str : JobStatus → Text
job_status_str active = codes "active"
job_status_str done = codes "done"
job_status_str archived = codes "archived"

unfoldable pub parse_job_status : Text → Result CoreError JobStatus
parse_job_status s =
    if text_eq s (codes "active")
    then ok active
    else if text_eq s (codes "done")
    then ok done
    else if text_eq s (codes "archived")
    then ok archived
    else err (corrupt (codes "unknown job status: " ++ s))

pub data SessionStatus : Type 0 where
  recording awaiting_processing processed failed : SessionStatus

unfoldable pub session_status_str : SessionStatus → Text
session_status_str recording = codes "recording"
session_status_str awaiting_processing = codes "awaiting_processing"
session_status_str processed = codes "processed"
session_status_str failed = codes "failed"

unfoldable pub parse_session_status : Text → Result CoreError SessionStatus
parse_session_status s =
    if text_eq s (codes "recording")
    then ok recording
    else if text_eq s (codes "awaiting_processing")
    then ok awaiting_processing
    else if text_eq s (codes "processed")
    then ok processed
    else if text_eq s (codes "failed")
    then ok failed
    else err (corrupt (codes "unknown session status: " ++ s))

pub data ItemSource : Type 0 where
  live authoritative manual : ItemSource

unfoldable pub item_source_str : ItemSource → Text
item_source_str live = codes "live"
item_source_str authoritative = codes "authoritative"
item_source_str manual = codes "manual"

unfoldable pub parse_item_source : Text → Result CoreError ItemSource
parse_item_source s =
    if text_eq s (codes "live")
    then ok live
    else if text_eq s (codes "authoritative")
    then ok authoritative
    else if text_eq s (codes "manual")
    then ok manual
    else err (corrupt (codes "unknown item source: " ++ s))

pub record Job : Type 0 where
  pub id : Text
  pub name : Text
  pub client : Option Text
  pub site : Option Text
  pub scheduled_at : Option ℕ
  pub status : JobStatus
  pub created_at : ℕ
  pub updated_at : ℕ
  pub device_id : Text

pub record NewJob : Type 0 where
  pub name : Text
  pub client : Option Text
  pub site : Option Text
  pub scheduled_at : Option ℕ

pub record Session : Type 0 where
  pub id : Text
  pub job_id : Option Text
  pub template : Option Text
  pub status : SessionStatus
  pub transcript : Text
  pub summary : Option Text
  pub started_at : ℕ
  pub ended_at : Option ℕ
  pub created_at : ℕ
  pub updated_at : ℕ
  pub device_id : Text

pub record CapturedItem : Type 0 where
  pub id : Text
  pub session_id : Text
  pub kind : Text
  pub text : Text
  pub right : Text
  pub source : ItemSource
  pub is_done : Bool
  pub created_at : ℕ
  pub updated_at : ℕ
  pub device_id : Text

pub record Artifact : Type 0 where
  pub id : Text
  pub session_id : Text
  pub kind : Text
  pub title : Text
  pub body : Text
  pub created_at : ℕ
  pub updated_at : ℕ
  pub device_id : Text

pub record Photo : Type 0 where
  pub id : Text
  pub session_id : Text
  pub item_id : Option Text
  pub filename : Text
  pub captured_at : ℕ
  pub created_at : ℕ
  pub updated_at : ℕ
  pub device_id : Text

pub record LlmUsageRow : Type 0 where
  pub id : Text
  pub session_id : Option Text
  pub purpose : Text
  pub input_tokens : ℕ
  pub output_tokens : ℕ
  pub cache_creation_input_tokens : ℕ
  pub cache_read_input_tokens : ℕ
  pub created_at : ℕ
  pub device_id : Text

-- The column text of each status and source is read back as the same value.
pub columns-round_trip :
    ((s : SessionStatus) → parse_session_status (session_status_str s) ≡ ok s)
    × ((s : JobStatus) → parse_job_status (job_status_str s) ≡ ok s)
    × ((s : ItemSource) → parse_item_source (item_source_str s) ≡ ok s)
unfolding session_status_str parse_session_status job_status_str parse_job_status item_source_str
    parse_item_source text_eq
columns-round_trip = (session_round_trip, job_round_trip, source_round_trip)
  where
    session_round_trip : (s : SessionStatus) → parse_session_status (session_status_str s) ≡ ok s
    session_round_trip recording = refl
    session_round_trip awaiting_processing = refl
    session_round_trip processed = refl
    session_round_trip failed = refl

    job_round_trip : (s : JobStatus) → parse_job_status (job_status_str s) ≡ ok s
    job_round_trip active = refl
    job_round_trip done = refl
    job_round_trip archived = refl

    source_round_trip : (s : ItemSource) → parse_item_source (item_source_str s) ≡ ok s
    source_round_trip live = refl
    source_round_trip authoritative = refl
    source_round_trip manual = refl

-- ===== src/Examples/Walks.antt =====
-- crates/murmur-core: a store with one session, two items and a photo, after a few operations.
use sitewalk.Base.{
  ℕ, suc, ◌+◌, ◌≤◌, ◌<◌, Bool, true, false, Option, none, some, List, [], ◌∷◌, ◌++◌, ◌≡◌, refl,
  arith,
}
use sitewalk.Base.Text.{Text, codes}
use sitewalk.Base.TextMap.{get}
use sitewalk.Examples.{whole}
use sitewalk.Harness.Llm.{no_usage}
use sitewalk.Store.Domain.{recording, live, Session}
use sitewalk.Store.Op.{Row, Env, Db, State}
use sitewalk.Store.Command.{
  start_session_command, append_transcript_command, end_and_record_command,
  finish_processed_command, add_item_with_source_command, add_photo_command, delete_item_command,
  Command, exec_all,
}
use sitewalk.Store.Command.Forward.{Later}
use sitewalk.Store.Command.Links.{Linked}
use sitewalk.Store.Command.Course.{exec_all-course, exec_all-Linked}
use sitewalk.Store.Finish.{finish_session_processed, delete_session}
use sitewalk.Store.Finish.Outcome.{SwapMeans, finish_session_processed-swap}
use sitewalk.Store.Finish.Deletion.{CascadeMeans, delete_session-cascade}

abbrev pub phone : Env
phone = record {
  floats = whole;
  device_id = codes "phone";
  clock = λ n. 1000 + n;
  fresh = λ n. (100 + n) ∷ [];
}

abbrev pub empty_db : Db phone
empty_db = record {
  jobs = [];
  sessions = [];
  items = [];
  artifacts = [];
  photos = [];
  llm_usage = [];
  document_schemas = [];
  contacts = [];
  document_sequences = [];
  reflection_state = none;
}

abbrev pub opened : State phone
opened = record { db = empty_db; ticks = 0; minted = 0 }

-- The ids that the walk gets.
abbrev pub walk_id : Text
walk_id = 100 ∷ []

abbrev item_id : Text
item_id = 101 ∷ []

abbrev pub walk : List (Command phone)
walk =
    start_session_command none
    ∷ append_transcript_command walk_id (codes "mulch")
    ∷ add_item_with_source_command walk_id (codes "todo") (codes "order mulch") live
    ∷ add_photo_command walk_id (some item_id) (codes "bed.jpg") none
    ∷ []

abbrev rest_of_day : List (Command phone)
rest_of_day =
    end_and_record_command walk_id
    ∷ finish_processed_command walk_id (codes "one bed") no_usage []
    ∷ delete_item_command item_id
    ∷ append_transcript_command walk_id (codes " too late")
    ∷ []

abbrev pub walked : State phone
unfolding exec_all
walked = exec_all walk opened

abbrev walk_row : Row Session
walk_row = record {
  value = record {
    id = walk_id;
    job_id = none;
    template = none;
    status = recording;
    transcript = codes "mulch";
    summary = none;
    started_at = 1000;
    ended_at = none;
    created_at = 1000;
    updated_at = 1001;
    device_id = codes "phone";
  };
  deleted_at = none;
}

walked-row : get walk_id walked.db.sessions ≡ some walk_row
unfolding exec_all get sitewalk.Store.Photos.add_photo sitewalk.Store.Items.add_item_with_source
    sitewalk.Store.Sessions.append_transcript sitewalk.Store.Sessions.start_session
    sitewalk.Base.TextMap.insert sitewalk.Base.Text.text_eq
walked-row = refl

exec_all-course_example :
    (r' : Row Session) × (get walk_id (exec_all rest_of_day walked).db.sessions ≡ some r')
    × Later walk_row r'
exec_all-course_example = exec_all-course rest_of_day walked walk_id walk_row walked-row

empty-Linked : Linked opened.db
unfolding Linked get
empty-Linked k p e = absurd (ground arith)

exec_all-Linked_example : Linked (exec_all walk opened).db
exec_all-Linked_example = exec_all-Linked walk opened empty-Linked

finish_session_processed-swap_example :
    let result = finish_session_processed walk_id (codes "one bed") no_usage [] walked in
    SwapMeans walked walk_id [] result.0 result.1.db
finish_session_processed-swap_example =
    finish_session_processed-swap walked walk_id (codes "one bed") no_usage []

delete_session-cascade_example :
    let result = delete_session walk_id walked in CascadeMeans walked walk_id result.0 result.1.db
delete_session-cascade_example = delete_session-cascade walked walk_id

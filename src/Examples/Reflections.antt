-- ===== src/Examples/Reflections.antt =====
-- crates/murmur-core/src/coordinator.rs: a reflection after the first walk.
use sitewalk.Base.{ℕ, Bool, true, false, List, Option, none, some, [], ◌∷◌, ◌≡◌, refl}
use sitewalk.Examples.Facts.{rewrites, one_fact, engine, snapshots, memory, policy}
use sitewalk.Examples.Walks.{phone, walked, walk_id}
use sitewalk.Harness.Memory.{Memory}
use sitewalk.Store.Op.{State}
use sitewalk.Store.Command.{end_and_record_command, exec_all}
use sitewalk.Coordinator.{World, ReflectionCoordinator, maybe_reflect}
use sitewalk.Coordinator.Outcome.{CallMeans, maybe_reflect-means}

abbrev coordinator : ReflectionCoordinator phone (List Memory) ℕ ℕ
coordinator = record {
  engine = engine;
  policy = policy;
  memory_store = snapshots;
  model = rewrites;
  view = one_fact;
  schema = 0;
  max_activity_sessions = 8;
}

abbrev ended_walk : State phone
unfolding exec_all
ended_walk = exec_all (end_and_record_command walk_id ∷ []) walked

abbrev world : World phone (List Memory) ℕ
world = record { store = ended_walk; memory = memory; files = []; provider = 0 }

-- Two snapshots are saved, the old memory first.
has_old_memory : List Memory → Bool
has_old_memory (new ∷ old ∷ []) = true
has_old_memory files = false

reflects_test : has_old_memory (maybe_reflect coordinator 5000 world).1.files ≡ true
unfolding has_old_memory maybe_reflect ended_walk sitewalk.Store.Sessions.end_and_record_session
    sitewalk.Store.Photos.add_photo sitewalk.Store.Items.add_item_with_source
    sitewalk.Store.Sessions.append_transcript sitewalk.Store.Sessions.start_session
    sitewalk.Base.TextMap.insert sitewalk.Base.Text.text_eq
    sitewalk.Harness.Policy.required_interval sitewalk.Base.Text.is_whitespace
    sitewalk.Harness.Memory.entries sitewalk.Harness.Memory.remember_from
reflects_test = refl

maybe_reflect-means_example :
    CallMeans coordinator 5000 world (maybe_reflect coordinator 5000 world)
maybe_reflect-means_example = maybe_reflect-means coordinator 5000 world

-- ===== src/Store/Command/Statements.antt =====
-- crates/murmur-core/src/store: each statement keeps the sessions' course and the photos' links.
use sitewalk.Base.{ℕ, Option, none, some, ◌≡◌, refl, Option-cases, inl, inr, arith}
use sitewalk.Base.Text.{Text}
use sitewalk.Harness.Policy.{ReflectionSignals}
use sitewalk.Store.Domain.{Session, Job, CapturedItem, Artifact, LlmUsageRow}
use sitewalk.Store.Op.{Row, Env, Db, write, find_live, insert_row-cases}
use sitewalk.Store.Jobs.{get_job, insert_job, change_job}
use sitewalk.Store.Usage.{insert_usage, save_signals, reflection_signals}
use sitewalk.Store.Sessions.{get_session, insert_session}
use sitewalk.Store.Items.{get_item, store_item}
use sitewalk.Store.Artifacts.{get_artifact, store_artifact, change_artifact}
use sitewalk.Store.Command.Forward.{Moves, Moves-same, Moves-chain, Moves-insert}
use sitewalk.Store.Command.Links.{Linked, Linked-same, Linked-insert_item}
use sitewalk.Store.Command.Keeps.{IsPreorder, Keeps, Keeps-read}

module _ {env : Env} where
  -- What every operation keeps.
  pub record Sound (d d' : Db env) : Type 0 where
    pub moves : Moves d d'
    pub links : Linked d → Linked d'

  pub Sound-same :
      (d d' : Db env)
      → d'.sessions ≡ d.sessions
      → d'.photos ≡ d.photos
      → d'.items ≡ d.items
      → Sound d d'
  Sound-same d d' s p i = record { moves = Moves-same d d' s; links = Linked-same d d' p i }

  pub Sound-order : IsPreorder Sound
  Sound-order = record {
    same = λ d. Sound-same d d refl refl refl;
    chain = λ a b c p q. record {
      moves = Moves-chain a b c p.moves q.moves;
      links = λ l. q.links (p.links l);
    };
  }

  pub Sound-get_job : (id : Text) → Keeps Sound (get_job id)
  unfolding get_job
  Sound-get_job id = Keeps-read Sound-order _

  pub Sound-get_session : (id : Text) → Keeps Sound (get_session id)
  unfolding get_session
  Sound-get_session id = Keeps-read Sound-order _

  pub Sound-get_item : (id : Text) → Keeps Sound (get_item id)
  unfolding get_item
  Sound-get_item id = Keeps-read Sound-order _

  pub Sound-get_artifact : (id : Text) → Keeps Sound (get_artifact id)
  unfolding get_artifact
  Sound-get_artifact id = Keeps-read Sound-order _

  pub Sound-reflection_signals : Keeps Sound reflection_signals
  unfolding reflection_signals
  Sound-reflection_signals = Keeps-read Sound-order _

  pub Sound-save_signals :
      (signals : ReflectionSignals env.floats) (at : Option ℕ)
      → Keeps Sound (save_signals signals at)
  unfolding save_signals write
  Sound-save_signals signals none = record {
    at = λ s. record { kept = Sound-same s.db _ refl refl refl };
  }
  Sound-save_signals signals (some at) = record {
    at = λ s. record { kept = Sound-same s.db _ refl refl refl };
  }

  pub Sound-insert_usage : (u : LlmUsageRow) → Keeps Sound (insert_usage u)
  unfolding insert_usage
  Sound-insert_usage u = record {
    at = λ s. record { kept = Sound-same s.db _ (ground arith) (ground arith) (ground arith) };
  }

  pub Sound-insert_job : (a : Job) → Keeps Sound (insert_job a)
  unfolding insert_job
  Sound-insert_job a = record {
    at = λ s. elim (insert_row-cases a.id a s.db.jobs) [
      | inl (fresh, e) ↦ record { kept = rw (e, insert_job) (Sound-same s.db _ refl refl refl) }
      | inr (x, e) ↦ record { kept = rw (e, insert_job) (Sound-same s.db _ refl refl refl) }
    ];
  }

  pub Sound-change_job : (id : Text) (f : Row Job → Row Job) → Keeps Sound (change_job id f)
  unfolding change_job
  Sound-change_job id f = record {
    at = λ s. elim (Option-cases (find_live id s.db.jobs)) [
      | inl e ↦ record { kept = rw (e, change_job) (Sound-same s.db _ refl refl refl) }
      | inr (a, e) ↦ record { kept = rw (e, change_job) (Sound-same s.db _ refl refl refl) }
    ];
  }

  pub Sound-store_artifact : (a : Artifact) → Keeps Sound (store_artifact a)
  unfolding store_artifact
  Sound-store_artifact a = record {
    at = λ s. elim (insert_row-cases a.id a s.db.artifacts) [
      | inl (fresh, e) ↦ record { kept = rw (e, store_artifact) (Sound-same s.db _ refl refl refl) }
      | inr (x, e) ↦ record { kept = rw (e, store_artifact) (Sound-same s.db _ refl refl refl) }
    ];
  }

  pub Sound-change_artifact :
      (id : Text) (f : Row Artifact → Row Artifact) → Keeps Sound (change_artifact id f)
  unfolding change_artifact
  Sound-change_artifact id f = record {
    at = λ s. elim (Option-cases (find_live id s.db.artifacts)) [
      | inl e ↦ record { kept = rw (e, change_artifact) (Sound-same s.db _ refl refl refl) }
      | inr (a, e) ↦ record { kept = rw (e, change_artifact) (Sound-same s.db _ refl refl refl) }
    ];
  }

  pub Sound-insert_session : (a : Session) → Keeps Sound (insert_session a)
  unfolding insert_session
  Sound-insert_session a = record {
    at = λ s. elim (insert_row-cases a.id a s.db.sessions) [
      | inl (fresh, e) ↦ record {
        kept =
            rw (e, insert_session)
              (record {
                moves = Moves-insert _ a.id s.db _ fresh refl;
                links = Linked-same s.db _ refl refl;
              });
      }
      | inr (x, e) ↦ record { kept = rw (e, insert_session) (Sound-same s.db _ refl refl refl) }
    ];
  }

  pub Sound-store_item : (a : CapturedItem) → Keeps Sound (store_item a)
  unfolding store_item
  Sound-store_item a = record {
    at = λ s. elim (insert_row-cases a.id a s.db.items) [
      | inl (fresh, e) ↦ record {
        kept =
            rw (e, store_item)
              (record {
                moves = Moves-same s.db _ refl;
                links = Linked-insert_item _ a.id s.db _ fresh refl refl;
              });
      }
      | inr (x, e) ↦ record { kept = rw (e, store_item) (Sound-same s.db _ refl refl refl) }
    ];
  }

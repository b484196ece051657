-- ===== src/Store/Command/Updates.antt =====
-- crates/murmur-core/src/store: the updates whose soundness rests on a guard before them or on the
-- demotion of photos after them.
use sitewalk.Base.{
  ℕ, Bool, true, some, [], ◌≡◌, refl, sym, ◌∙◌, ap, if◌then◌else◌, Option-cases, append-nil, ◌≤◌,
  inl, inr, arith,
}
use mathlib.Core.Path.{subst}
use sitewalk.Base.Text.{Text, text_eq, text_eq_iff}
use sitewalk.Base.TextMap.{get}
use sitewalk.Store.Domain.{
  Session, SessionStatus, recording, awaiting_processing, processed, failed, CapturedItem,
}
use sitewalk.Store.Op.{
  Row, Env, Db, State, ◌>>=◌, write, now, is_live, find_live, update_rows, live_at, find_live-row,
  get-update_rows-some,
}
use sitewalk.Store.Sessions.{swept, change_session, is_recording, sweep_zombie_sessions}
use sitewalk.Store.Items.{change_item}
use sitewalk.Store.Finish.{tombstone_session, tombstone_session_row}
use sitewalk.Store.Command.Forward.{status_rank, Onward, Moves-same, Moves-update_rows}
use sitewalk.Store.Command.Links.{Linked, Linked-same}
use sitewalk.Store.Command.Keeps.{KeepsAt, Keeps}
use sitewalk.Store.Command.Statements.{Sound, Sound-same}

rank_of_recording : (st : SessionStatus) (n : ℕ) → is_recording st ≡ true → status_rank st ≤ n
unfolding status_rank
rank_of_recording recording n e = omega arith
rank_of_recording awaiting_processing n e = absurd (ground arith)
rank_of_recording processed n e = absurd (ground arith)
rank_of_recording failed n e = absurd (ground arith)

-- What keeps the transcript and the start of a recording session is a later version of it.
pub Onward-recording :
    (a b : Session)
    → is_recording a.status ≡ true
    → b.transcript ≡ a.transcript
    → b.started_at ≡ a.started_at
    → Onward a b
Onward-recording a b r t st = record {
  status = rank_of_recording a.status (status_rank b.status) r;
  transcript = ([], t ∙ sym (append-nil a.transcript));
  start = st;
}

module _ {env : Env} where
  Linked-change_items :
      (q : Text → Row CapturedItem → Bool) (f : Row CapturedItem → Row CapturedItem)
      → ((r : Row CapturedItem) → (f r).deleted_at ≡ r.deleted_at)
      → ((r : Row CapturedItem) → (f r).value.session_id ≡ r.value.session_id)
      → (d d' : Db env) → d'.items ≡ update_rows q f d.items
      → d'.photos ≡ d.photos
      → Linked d
      → Linked d'
  unfolding Linked
  Linked-change_items q f keeps_tombstone keeps_session d d' items photos l k p e live i at =
      let home = l k p (ap (get k) (sym photos) ∙ e) live i at in
      let tomb = keeps_tombstone home.row in
      let sess = keeps_session home.row in
      let alive = home.live in
      let ours = home.session in
      record {
        row = if q i home.row then f home.row else home.row;
        found = ap (get i) items ∙ get-update_rows-some q f i d.items home.row home.found;
        live = ground (arith, tomb, alive);
        session = ground (arith, sess, ours);
      }

  pub Sound-change_session :
      (id : Text) (f : Session → Session) (a : Session) (s : State env)
      → find_live id s.db.sessions ≡ some a
      → Onward a (f a)
      → KeepsAt Sound (change_session id f) s
  unfolding change_session write
  Sound-change_session id f a s e onward = record {
    kept = record {
      moves =
          Moves-update_rows (λ k _. text_eq id k) (λ r. record r { value = f r.value }) s.db _ refl
            (λ k r found b.
              let row = find_live-row id s.db.sessions a e in
              let same_key : id ≡ k = (text_eq_iff id k).0 b in
              let same_row : row.0 ≡ r = (let one = row.1 in ground (arith, same_key, found)) in
              record {
                value =
                    let same_value : r.value ≡ a =
                      ap (λ (x : Row Session). x.value) (sym same_row) ∙ row.3 in
                    subst (λ v. Onward v (f v)) (sym same_value) onward;
                tombstone = λ t h. h;
              });
      links = Linked-same s.db _ refl refl;
    };
  }

  -- An update that moves every session onward.
  pub Sound-change_any :
      (id : Text) (f : Session → Session)
      → ((a : Session) → Onward a (f a))
      → Keeps {env = env} Sound (change_session id f)
  unfolding change_session write
  Sound-change_any id f onward = record {
    at = λ s. record {
      kept = record {
        moves =
            Moves-update_rows (λ k _. text_eq id k) (λ r. record r { value = f r.value }) s.db _
              refl (λ k r found b. record { value = onward r.value; tombstone = λ t h. h });
        links = Linked-same s.db _ refl refl;
      };
    };
  }

  pub Sound-sweep_zombies : Keeps {env = env} Sound sweep_zombie_sessions
  unfolding sweep_zombie_sessions ◌>>=◌ now
  Sound-sweep_zombies = record {
    at = λ s. record {
      kept = record {
        moves =
            Moves-update_rows swept
              (λ r. record r {
                value = record r.value { status = failed; updated_at = env.clock s.ticks };
              })
              s.db _ refl
              (λ k r found b. record {
                value = Onward-recording _ _ (ground arith) refl refl;
                tombstone = λ t h. h;
              });
        links = Linked-same s.db _ refl refl;
      };
    };
  }

  pub Sound-tombstone_session_row :
      (id : Text) (at : ℕ) → Keeps {env = env} Sound (tombstone_session_row id at)
  unfolding tombstone_session_row live_at is_live
  Sound-tombstone_session_row id at = record {
    at = λ s. elim (Option-cases (find_live id s.db.sessions)) [
      | inl e ↦ record { kept = rw (e, tombstone_session_row) (Sound-same s.db _ refl refl refl) }
      | inr (a, e) ↦ record {
        kept =
            rw (e, tombstone_session_row)
              (record {
                moves =
                    Moves-update_rows (live_at id) (tombstone_session at) s.db _ refl
                      (λ k r found b. record {
                        value = record {
                          status = omega arith;
                          transcript = ([], sym (append-nil r.value.transcript));
                          start = refl;
                        };
                        tombstone = λ t h. absurd (ground (arith, b, h));
                      });
                links = Linked-same s.db _ refl refl;
              });
      }
    ];
  }

  -- An update of a live item that keeps its session and its tombstone.
  pub Sound-change_item :
      (id : Text) (f : Row CapturedItem → Row CapturedItem)
      → ((r : Row CapturedItem) → (f r).deleted_at ≡ r.deleted_at)
      → ((r : Row CapturedItem) → (f r).value.session_id ≡ r.value.session_id)
      → Keeps {env = env} Sound (change_item id f)
  unfolding change_item
  Sound-change_item id f keeps_tombstone keeps_session = record {
    at = λ s. elim (Option-cases (find_live id s.db.items)) [
      | inl e ↦ record { kept = rw (e, change_item) (Sound-same s.db _ refl refl refl) }
      | inr (a, e) ↦ record {
        kept =
            rw (e, change_item)
              (record {
                moves = Moves-same s.db _ refl;
                links = λ l.
                    Linked-change_items (live_at id) f keeps_tombstone keeps_session s.db _ refl
                      refl l;
              });
      }
    ];
  }

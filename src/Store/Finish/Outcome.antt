-- ===== src/Store/Finish/Outcome.antt =====
-- crates/murmur-core/src/store/sessions.rs: what the exit of processing leaves in the items, and that
-- a failure leaves nothing.
use sitewalk.Base.{ℕ, suc, Bool, Option, some, List, ◌≡◌, refl, ◌∙◌, ap, inl, inr, arith}
use sitewalk.Base.Text.{Text, codes}
use sitewalk.Base.TextMap.{get}
use sitewalk.Base.Result.{Result, ok, err}
use sitewalk.Store.Domain.{
  CoreError, Session, SessionStatus, recording, awaiting_processing, processed, failed,
  CapturedItem, LlmUsageRow,
}
use sitewalk.Store.Op.{
  Row, Env, Db, State, Op, ◌>>=◌, ◌>>◌, return, fail, write, now, update_rows, updated,
  get-update_rows, transaction-ok, transaction-err,
}
use sitewalk.Base.Result.{Result-cases}
use sitewalk.Harness.Llm.{Usage}
use sitewalk.Store.Usage.{insert_usage, record_llm_usage}
use sitewalk.Store.Sessions.{
  get_session, change_session, require_ended, transition_ended, mark_session_processed,
}
use sitewalk.Store.Items.{tombstone_item}
use sitewalk.Store.Photos.{demote_photos_of_tombstoned_items}
use sitewalk.Store.Finish.{swapped, sweep_items, finish_session_processed}
use sitewalk.Store.Command.Keeps.{
  IsPreorder, Keeps, Keeps-return, Keeps-read, Keeps-now, Keeps-new_id, Keeps-bind, Keeps-then,
}

module _ {env : Env} where
  -- The items are untouched.
  abbrev SameItems : Db env → Db env → Type 0
  SameItems d d' = d'.items ≡ d.items

  SameItems-order : IsPreorder SameItems
  SameItems-order = record { same = λ d. refl; chain = λ a b c p q. q ∙ p }

  same-change_session :
      (id : Text) (f : Session → Session) → Keeps {env = env} SameItems (change_session id f)
  unfolding change_session write
  same-change_session id f = record { at = λ s. record { kept = refl } }

  same-require_ended : (st : SessionStatus) → Keeps {env = env} SameItems (require_ended st)
  unfolding require_ended return fail
  same-require_ended recording = record { at = λ s. record { kept = refl } }
  same-require_ended awaiting_processing = record { at = λ s. record { kept = refl } }
  same-require_ended processed = record { at = λ s. record { kept = refl } }
  same-require_ended failed = record { at = λ s. record { kept = refl } }

  same-get_session : (id : Text) → Keeps {env = env} SameItems (get_session id)
  unfolding get_session
  same-get_session id = Keeps-read SameItems-order _

  same-insert_usage : (u : LlmUsageRow) → Keeps {env = env} SameItems (insert_usage u)
  unfolding insert_usage
  same-insert_usage u = record { at = λ s. record { kept = ground arith } }

  ruleset same_steps = (
    SameItems-order, Keeps-return, Keeps-now, Keeps-new_id, Keeps-bind, Keeps-then,
    same-change_session, same-require_ended, same-get_session, same-insert_usage,
  )

  same-mark_processed : (id t : Text) → Keeps {env = env} SameItems (mark_session_processed id t)
  unfolding mark_session_processed transition_ended
  same-mark_processed id t = search same_steps depth 12

  same-record_llm_usage :
      (id : Option Text) (purpose : Text) (u : Usage)
      → Keeps {env = env} SameItems (record_llm_usage id purpose u)
  unfolding record_llm_usage
  same-record_llm_usage id purpose u = search same_steps depth 12

  bind_now-items :
      (f : ℕ → Op env Session) (s : State env)
      → ((now >>= f) s).1.db.items
        ≡ (f (env.clock s.ticks) (record s { ticks = suc s.ticks })).1.db.items
  unfolding now ◌>>=◌
  bind_now-items f s = refl

  swept_items :
      (q : Text → Row CapturedItem → Bool) (at : ℕ) (id : Text) (k : Op env Session) (s : State env)
      → Keeps SameItems k
      → ((sweep_items q at >> (demote_photos_of_tombstoned_items id >> k)) s).1.db.items
        ≡ update_rows q (tombstone_item at) s.db.items
  unfolding sweep_items demote_photos_of_tombstoned_items ◌>>◌ ◌>>=◌ now write
  swept_items q at id k s rest = (rest.at _).kept

  -- What `finish_session_processed` promises of its result and of the database after it.
  unfoldable pub SwapMeans :
      State env → Text → List Text → Result CoreError Session → Db env → Type 0
  SwapMeans s id run (err e) d = d ≡ s.db
  SwapMeans s id run (ok session) d =
      (k : Text)
      → get k d.items
        ≡ updated (swapped id run) (tombstone_item (env.clock s.ticks)) k (get k s.db.items)

  -- The exit of processing is a swap or nothing. If it succeeds, the live items of the session that
  -- are live or authoritative and not of this run have a tombstone with the time at its start, and
  -- every other item is as it was: those of the run, the user's own, and those of other sessions. If
  -- it fails, at whatever statement, the database is the one before it.
  pub finish_session_processed-swap :
      (s : State env) (id summary : Text) (u : Usage) (run : List Text)
      → let result = finish_session_processed id summary u run s in
        SwapMeans s id run result.0 result.1.db
  unfolding finish_session_processed SwapMeans
  finish_session_processed-swap s id summary u run =
      let tail : Op env Session = mark_session_processed id summary >>= λ session.
      record_llm_usage (some id) (codes "processing") u >> return session in
      let sweep : ℕ → Op env Session =
        λ at. sweep_items (swapped id run) at >> (demote_photos_of_tombstoned_items id >> tail) in
      let body : Op env Session = now >>= sweep in
      elim (Result-cases (body s).0) [
        | inl (a, e) ↦
            let run_ok = transaction-ok body s a e in
            let tail_same : Keeps SameItems tail =
              Keeps-bind SameItems-order (same-mark_processed id summary) (λ session.
                Keeps-then SameItems-order (same-record_llm_usage (some id) (codes "processing") u)
                  (Keeps-return SameItems-order session)) in
            let items =
              bind_now-items sweep s
              ∙ swept_items (swapped id run) (env.clock s.ticks) id tail
                  (record s { ticks = suc s.ticks }) tail_same in
            rw run_ok (λ k.
              ap (get k) items
              ∙ get-update_rows (swapped id run) (tombstone_item (env.clock s.ticks)) k s.db.items)
        | inr (x, e) ↦ let run_err = transaction-err body s x e in rw run_err refl
      ]

-- ===== src/Store/Command/Forward.antt =====
-- crates/murmur-core/src/store: what no operation on the store undoes in a session.
use sitewalk.Base.{
  ℕ, ◌≤◌, Bool, true, none, some, [], ◌++◌, ◌≡◌, refl, sym, ◌∙◌, ap, Bool-cases, inl, inr, Prefix,
  append_assoc, append-nil, arith,
}
use sitewalk.Base.Text.{Text, text_eq_iff}
use sitewalk.Base.TextMap.{get, insert, get-insert}
use sitewalk.Store.Domain.{
  Session, SessionStatus, recording, awaiting_processing, processed, failed,
}
use sitewalk.Store.Op.{Row, Env, Db, update_rows, get-update_rows}

unfoldable pub status_rank : SessionStatus → ℕ
status_rank recording = 0
status_rank awaiting_processing = 1
status_rank failed = 2
status_rank processed = 3

-- A later version of a session.
pub record Onward (a b : Session) : Type 0 where
  pub status : status_rank a.status ≤ status_rank b.status
  pub transcript : Prefix a.transcript b.transcript
  pub start : b.started_at ≡ a.started_at

-- A later version of its row, whose tombstone stays.
pub record Later (r r' : Row Session) : Type 0 where
  pub value : Onward r.value r'.value
  pub tombstone : (t : ℕ) → r.deleted_at ≡ some t → r'.deleted_at ≡ some t

pub Onward-refl : (a : Session) → Onward a a
Onward-refl a = record {
  status = omega arith;
  transcript = ([], sym (append-nil a.transcript));
  start = refl;
}

Onward-trans : (a b c : Session) → Onward a b → Onward b c → Onward a c
Onward-trans a b c l m =
    let x = l.status in
    let y = m.status in
    record {
      status = omega arith;
      transcript = (
        l.transcript.0 ++ m.transcript.0,
        m.transcript.1
            ∙ ap (λ t. t ++ m.transcript.0) l.transcript.1
            ∙ append_assoc a.transcript l.transcript.0 m.transcript.0,
      );
      start = m.start ∙ l.start;
    }

pub Later-refl : (r : Row Session) → Later r r
Later-refl r = record { value = Onward-refl r.value; tombstone = λ t e. e }

module _ {env : Env} where
  -- Every session of the first database is in the second one, in a later version.
  unfoldable pub Moves : Db env → Db env → Type 0
  Moves d d' =
      (k : Text) (r : Row Session)
      → get k d.sessions ≡ some r
      → (r' : Row Session) × (get k d'.sessions ≡ some r') × Later r r'

  pub Moves-same : (d d' : Db env) → d'.sessions ≡ d.sessions → Moves d d'
  unfolding Moves
  Moves-same d d' same k r e = (r, ap (get k) same ∙ e, Later-refl r)

  pub Moves-chain : (a b c : Db env) → Moves a b → Moves b c → Moves a c
  unfolding Moves
  Moves-chain a b c p q k r e =
      let one = p k r e in
      let two = q k one.0 one.1 in
      (
        two.0,
        two.1,
        record {
          value = Onward-trans r.value one.0.value two.0.value one.2.value two.2.value;
          tombstone = λ t h. two.2.tombstone t (one.2.tombstone t h);
        },
      )

  -- The rows that an update changes get later versions.
  pub Moves-update_rows :
      (p : Text → Row Session → Bool) (f : Row Session → Row Session) (d d' : Db env)
      → d'.sessions ≡ update_rows p f d.sessions
      → ((k : Text) (r : Row Session) → get k d.sessions ≡ some r → p k r ≡ true → Later r (f r))
      → Moves d d'
  unfolding Moves
  Moves-update_rows p f d d' after l k r e =
      let found = get-update_rows p f k d.sessions in
      elim (Bool-cases (p k r)) [
        | inl b ↦ (f r, rw after (rw found (rw e (rw b refl))), l k r e b)
        | inr b ↦ (r, rw after (rw found (rw e (rw b refl))), Later-refl r)
      ]

  pub Moves-insert :
      (a : Row Session) (k : Text) (d d' : Db env)
      → get k d.sessions ≡ none
      → d'.sessions ≡ insert k a d.sessions
      → Moves d d'
  unfolding Moves
  Moves-insert a k d d' fresh after j r found =
      let here = get-insert k j a d.sessions in
      (r, rw after (ground (arith, here, text_eq_iff k j)), Later-refl r)

-- ===== src/Store/Documents/Adding.antt =====
-- crates/murmur-core/src/store/documents.rs and artifacts.rs: the number of a document and the
-- artifact that is added, with the ways to fail.
use sitewalk.Base.{
  ℕ, suc, ◌≡◌, refl, sym, ap, ◌∙◌, Option, none, some, Option-cases, arith, inl, inr, ◌⊎◌,
}
use sitewalk.Base.Text.{Text, codes, text_eq_refl}
use sitewalk.Base.TextMap.{TextMap, get, insert, get-insert}
use sitewalk.Base.Words.{add_u64}
use sitewalk.Base.Result.{Result, ok, err, Result-cases}
use sitewalk.Store.Domain.{CoreError, Artifact}
use sitewalk.Store.Op.{
  Row, Table, Env, State, Op, ◌>>=◌, ◌>>◌, return, read, write, now, new_id, found, find_live,
  is_live, insert_row, insert_row-cases, bind-ok, bind-err,
}
use sitewalk.Store.Sessions.{get_session}
use sitewalk.Store.Artifacts.{add_artifact, store_artifact}
use sitewalk.Store.Documents.{or_none_yet, bump_document_sequence, document_number}

-- The number that a mint uses, and the sequences after it.
abbrev pub next_number : Text → Option ℕ → TextMap ℕ → ℕ
next_number doc_kind none sequences = add_u64 (or_none_yet (get doc_kind sequences)) 1
next_number doc_kind (some n) sequences = n

abbrev pub next_sequences : Text → Option ℕ → TextMap ℕ → TextMap ℕ
next_sequences doc_kind none sequences =
    insert doc_kind (add_u64 (or_none_yet (get doc_kind sequences)) 1) sequences
next_sequences doc_kind (some n) sequences = sequences

-- The artifact that was added, as it stands in the store after it.
pub record Added (a : Artifact) (session_id kind title body : Text) (artifacts : Table Artifact)
    : Type 0 where
  pub session : a.session_id ≡ session_id
  pub kind_lem : a.kind ≡ kind
  pub title_lem : a.title ≡ title
  pub body_lem : a.body ≡ body
  pub live : find_live a.id artifacts ≡ some a

abbrev new_artifact : Text → Text → Text → Text → Text → ℕ → Text → Artifact
new_artifact device_id session_id kind title body at id = record {
  id = id;
  session_id = session_id;
  kind = kind;
  title = title;
  body = body;
  created_at = at;
  updated_at = at;
  device_id = device_id;
}

insert_row-refused :
    (k : Text) (a : Artifact) (t : Table Artifact) (x : CoreError)
    → insert_row k a t ≡ err x
    → (r : Row Artifact) × (get k t ≡ some r)
unfolding insert_row
insert_row-refused k a t x h = elim (Option-cases (get k t)) [
  | inl e ↦ absurd (
      let g : ok (insert k (record { value = a; deleted_at = none }) t) ≡ err x =
        sym (rw (e, insert_row) refl) ∙ h in
      cc)
  | inr (r, e) ↦ (r, e)
]

module _ {env : Env} where
  pub document_number-run :
      (doc_kind : Text) (existing : Option ℕ) (s : State env)
      → document_number doc_kind existing s ≡ (
        ok (next_number doc_kind existing s.db.document_sequences),
        record s {
          db = record s.db {
            document_sequences = next_sequences doc_kind existing s.db.document_sequences;
          };
        },
      )
  unfolding document_number bump_document_sequence ◌>>=◌ ◌>>◌ read write return
  document_number-run doc_kind none s = refl
  document_number-run doc_kind (some n) s = refl

  stored :
      (a : Artifact) (s : State env) (table : Table Artifact)
      → insert_row a.id a s.db.artifacts ≡ ok table
      → store_artifact a s ≡ (ok tt, record s { db = record s.db { artifacts = table } })
  unfolding store_artifact
  stored a s table e = rw (e, store_artifact) refl

  not_stored :
      (a : Artifact) (s : State env) (x : CoreError)
      → insert_row a.id a s.db.artifacts ≡ err x
      → store_artifact a s ≡ (err x, s)
  unfolding store_artifact
  not_stored a s x e = rw (e, store_artifact) refl

  -- There is no such session, or the id that the clock and the ids give the artifact is used.
  abbrev pub IsRefused : Text → State env → Type 0
  IsRefused session_id s =
      (find_live session_id s.db.sessions ≡ none)
      ⊎ ((r : Row Artifact) × (get (env.fresh s.minted) s.db.artifacts ≡ some r))

  abbrev IsUsed : Text → State env → Type 0
  IsUsed id s = (r : Row Artifact) × (get id s.db.artifacts ≡ some r)

  get_session-refused :
      (session_id : Text) (s : State env) (x : CoreError)
      → (get_session session_id s).0 ≡ err x
      → find_live session_id s.db.sessions ≡ none
  unfolding get_session read found
  get_session-refused session_id s x h = elim (Option-cases (find_live session_id s.db.sessions)) [
    | inl e ↦ e
    | inr (a, e) ↦ absurd (
        let g : found (codes "session") session_id (find_live session_id s.db.sessions) ≡ ok a =
          rw (e, found) refl in
        cc)
  ]

  -- The outcomes of an operation that adds an artifact: it is there and the numbers are as they
  -- were, or there is an error.
  abbrev AddCases :
      Type 0
      → Text
      → Text
      → Text
      → Text
      → State env
      → Result CoreError Artifact × State env
      → Type 0
  AddCases Why session_id kind title body s run =
      ((a : Artifact) × (s' : State env) × (run ≡ (ok a, s'))
        × Added a session_id kind title body s'.db.artifacts
        × (s'.db.document_sequences ≡ s.db.document_sequences))
      ⊎ ((x : CoreError) × (s' : State env) × (run ≡ (err x, s')) × Why)

  module _ (session_id kind title body : Text) where
    -- The rest of `add_artifact`, from its last statement.
    store_made : ℕ → Text → Op env Artifact
    store_made at id =
        let a = new_artifact env.device_id session_id kind title body at id in
        store_artifact a >> return a

    store_made-ok :
        (at : ℕ) (id : Text) (s : State env) (table : Table Artifact)
        → insert_row id (new_artifact env.device_id session_id kind title body at id) s.db.artifacts
          ≡ ok table
        → store_made at id s ≡ (
          ok (new_artifact env.device_id session_id kind title body at id),
          record s { db = record s.db { artifacts = table } },
        )
    unfolding store_made ◌>>◌ return
    store_made-ok at id s table e =
        let a = new_artifact env.device_id session_id kind title body at id in
        let run = stored a s table e in
        bind-ok (store_artifact a) (λ _. return a) s tt (ap (λ p. p.0) run)
        ∙ ap (λ p. return a p.1) run

    store_made-err :
        (at : ℕ) (id : Text) (s : State env) (x : CoreError)
        → insert_row id (new_artifact env.device_id session_id kind title body at id) s.db.artifacts
          ≡ err x
        → store_made at id s ≡ (err x, s)
    unfolding store_made ◌>>◌
    store_made-err at id s x e =
        let a = new_artifact env.device_id session_id kind title body at id in
        let run = not_stored a s x e in
        bind-err (store_artifact a) (λ _. return a) s x (ap (λ p. p.0) run)
        ∙ ap (λ p. (err x, p.1)) run

    store_made-cases :
        (at : ℕ) (id : Text) (s : State env)
        → AddCases (IsUsed id s) session_id kind title body s (store_made at id s)
    unfolding find_live is_live
    store_made-cases at id s =
        let a = new_artifact env.device_id session_id kind title body at id in
        elim (insert_row-cases id a s.db.artifacts) [
          | inl (absent, e) ↦
              let table = insert id (record { value = a; deleted_at = none }) s.db.artifacts in
              inl (
                a,
                record s { db = record s.db { artifacts = table } },
                store_made-ok at id s table e,
                record {
                  session = refl;
                  kind_lem = refl;
                  title_lem = refl;
                  body_lem = refl;
                  live = ground (
                    arith,
                    get-insert id id (record { value = a; deleted_at = none }) s.db.artifacts,
                    text_eq_refl id,
                  );
                },
                refl,
              )
          | inr (x, e) ↦
              inr (x, s, store_made-err at id s x e, insert_row-refused id a s.db.artifacts x e)
        ]

    get_session-state : (s : State env) → (get_session session_id s).1 ≡ s
    unfolding get_session read
    get_session-state s = refl

    -- The operation after its guard.
    made_now :
        (s : State env)
        → (now >>= λ at. new_id >>= λ id. store_made at id) s
          ≡ store_made
              (env.clock s.ticks)
              (env.fresh s.minted)
              (record s { ticks = suc s.ticks; minted = suc s.minted })
    unfolding ◌>>=◌ now new_id
    made_now s = refl

    pub add_artifact-cases :
        (s : State env)
        → AddCases
            (IsRefused session_id s)
            session_id
            kind
            title
            body
            s
            (add_artifact session_id kind title body s)
    unfolding add_artifact ◌>>◌ store_made
    add_artifact-cases s =
        let tail : Op env Artifact = now >>= λ at. new_id >>= λ id. store_made at id in
        elim (Result-cases (get_session session_id s).0) [
          | inl (a, e) ↦
              let run =
                bind-ok (get_session session_id) (λ _. tail) s a e
                ∙ ap (λ st. tail st) (get_session-state s)
                ∙ made_now s in
              let after =
                store_made-cases (env.clock s.ticks) (env.fresh s.minted)
                  (record s { ticks = suc s.ticks; minted = suc s.minted }) in
              elim after [
                | inl (a', s', r, added, same) ↦ inl (a', s', run ∙ r, added, same)
                | inr (x, s', r, used) ↦ inr (x, s', run ∙ r, inr used)
              ]
          | inr (x, e) ↦ inr (
            x,
            s,
            bind-err (get_session session_id) (λ _. tail) s x e
                ∙ ap (λ st. (err x, st)) (get_session-state s),
            inl (get_session-refused session_id s x e),
          )
        ]

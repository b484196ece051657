-- ===== src/Pipeline/Document/Build/Stored.antt =====
-- crates/murmur-core/src/pipeline/document.rs: what a build reads, and what it leaves in the store.
use sitewalk.Base.{
  ℕ, ◌+◌, ◌≡◌, refl, sym, ap, ◌∙◌, false, none, some, List, ◌++◌, is_empty, length, Bool-cases, inl,
  inr, ◌⊎◌,
}
use mathlib.Core.Path.{subst}
use sitewalk.Base.Text.{Text, codes}
use sitewalk.Base.Result.{Result, ok, err, Result-cases}
use sitewalk.Base.CharTables.{CharTables}
use sitewalk.Harness.Llm.{Usage, usage_eq, no_usage, show_nat}
use sitewalk.Harness.Memory.{Memory, to_prompt}
use sitewalk.Store.Domain.{CoreError, Artifact}
use sitewalk.Store.Op.{Env, State, Op, ◌>>=◌, ◌>>◌, return, fail, read, bind-ok, bind-err}
use sitewalk.Store.Artifacts.{list_artifacts_for_session}
use sitewalk.Store.Usage.{record_llm_usage}
use sitewalk.Store.Documents.{mint_document_number_and_add_artifact}
use sitewalk.Store.Documents.Mint.{MintMeans, mint_document_number_and_add_artifact-means}
use sitewalk.Store.Documents.Adding.{Added, next_number}
use sitewalk.Pipeline.Notes.{NotesEntry}
use sitewalk.Pipeline.Document.{
  BuildDocumentOutcome, Draft, Work, DocumentBuilder, drawn_items, folded_items, price_pass,
  compose_pass, payload, wants_prose,
}
use sitewalk.Pipeline.Document.Outranks.{opening}
use sitewalk.Pipeline.Document.Build.{
  read_draft, session_notes, record_usage, finish_build, prose_pass, build_from, build,
}
use sitewalk.Pipeline.Document.Build.Reads.{read_draft-Reads, record_llm_usage-artifacts}

module _ {Json P : Type 0} (b : DocumentBuilder Json P) where
  abbrev body_of : Text → Draft → Work P → ℕ → Text
  body_of doc_kind draft w n = b.encode (payload b doc_kind draft w n)

  -- The work after the pricing pass, with the ids of the lines from the `n`th on.
  abbrev pub priced_work : (env : Env) → CharTables → Memory → P → Draft → ℕ → Work P
  priced_work env tables memory p draft n =
      let folded =
        folded_items env.floats tables draft.schema (drawn_items draft.schema draft.items) in
      price_pass b draft.schema folded (to_prompt memory)
        (opening b env.fresh n draft.schema folded p)

  -- The work after the prose pass, or without it.
  abbrev pub IsPassed : Draft → Work P → Work P → Type 0
  IsPassed draft priced w =
      (w ≡ priced) ⊎ ((notes : List NotesEntry) × (w ≡ compose_pass b draft notes priced))

module _ {Json P : Type 0} (b : DocumentBuilder Json P) {env : Env}
    (session_id doc_kind : Text) where
  abbrev logged : Usage → Op env (Unit {0})
  logged usage = record_llm_usage (some session_id) (codes "document") usage

  record_usage-cases :
      (usage : Usage) (s : State env)
      → (((record_usage b session_id usage s).0 ≡ ok tt)
          × ((record_usage b session_id usage s).1.db.artifacts ≡ s.db.artifacts))
        ⊎ ((x : CoreError) × ((record_usage b session_id usage s).0 ≡ err x)
            × (logged usage s ≡ (err x, (record_usage b session_id usage s).1)))
  unfolding record_usage ◌>>◌ return
  record_usage-cases usage s = elim (Bool-cases (usage_eq usage no_usage)) [
    | inl e ↦ inl (rw (e, record_usage) refl, rw (e, record_usage) refl)
    | inr e ↦ elim (Result-cases (logged usage s).0) [
      | inl (u, f) ↦
          let run = bind-ok (logged usage) (λ _. return tt) s u f in
          inl (
            rw (e, record_usage) (ap (λ p. p.0) run),
            rw (e, record_usage)
                (ap (λ p. p.1.db.artifacts) run
                  ∙ record_llm_usage-artifacts (some session_id) (codes "document") usage s),
          )
      | inr (x, f) ↦
          let run = bind-err (logged usage) (λ _. return tt) s x f in
          inr (
            x,
            rw (e, record_usage) (ap (λ p. p.0) run),
            rw (e, record_usage)
                (ap (λ r. (r, (logged usage s).1)) f
                  ∙ ap (λ st. (err x, st)) (sym (ap (λ p. p.1) run))),
          )
    ]
  ]

  -- The document that is stored for this work, and the outcome that names it.
  abbrev pub IsStored : Draft → Work P → BuildDocumentOutcome → State env → State env → Type 0
  IsStored draft w o s s' =
      let number = next_number doc_kind none s.db.document_sequences in
      (a : Artifact) × (a.id ≡ o.document_artifact_id)
      × (o.usage ≡ w.usage)
      × (o.queued ≡ w.queued)
      × Added a session_id (codes "document") (doc_kind ++ (codes " #" ++ show_nat number))
          (b.encode (payload b doc_kind draft w number)) s'.db.artifacts

  -- A failure that leaves the database as it was, or that is of the log of the usage, after the
  -- document was stored.
  abbrev pub HasFailed : CoreError → State env → State env → Type 0
  HasFailed e s s' =
      (s'.db ≡ s.db)
      ⊎ ((draft : Draft) × (w : Work P) × (o : BuildDocumentOutcome) × (s1 : State env) × IsStored
            draft w o s s1
          × (logged w.usage s1 ≡ (err e, s')))

  unfoldable FinishMeans :
      Draft → Work P → State env → Result CoreError BuildDocumentOutcome × State env → Type 0
  FinishMeans draft w s (ok o, s') = IsStored draft w o s s'
  FinishMeans draft w s (err e, s') = HasFailed e s s'

  abbrev minted : Draft → Work P → Op env Artifact
  minted draft w =
      mint_document_number_and_add_artifact session_id doc_kind none (body_of b doc_kind draft w)

  finish_build-means :
      (draft : Draft) (w : Work P) (s : State env)
      → FinishMeans draft w s (finish_build b session_id doc_kind draft w s)
  unfolding FinishMeans finish_build MintMeans ◌>>◌ return
  finish_build-means draft w s =
      let outcome : Artifact → BuildDocumentOutcome =
        λ a. record { document_artifact_id = a.id; usage = w.usage; queued = w.queued } in
      let last : Artifact → Op env BuildDocumentOutcome =
        λ a. record_usage b session_id w.usage >>= λ _. return (outcome a) in
      let means =
        mint_document_number_and_add_artifact-means session_id doc_kind none
          (body_of b doc_kind draft w) s in
      elim (Result-cases (minted draft w s).0) [
        | inr (x, e) ↦
            let failed_mint =
              subst (MintMeans session_id doc_kind none (body_of b doc_kind draft w) s)
                (ap (λ r. (r, (minted draft w s).1)) e) means in
            subst (FinishMeans draft w s) (sym (bind-err (minted draft w) last s x e))
              (inl failed_mint.0)
        | inl (a, e) ↦
            let (added, counted) =
              subst (MintMeans session_id doc_kind none (body_of b doc_kind draft w) s)
                (ap (λ r. (r, (minted draft w s).1)) e) means in
            let s1 = (minted draft w s).1 in
            let begin = bind-ok (minted draft w) last s a e in
            elim (record_usage-cases w.usage s1) [
              | inl (f, same) ↦
                  let run =
                    begin
                    ∙ bind-ok (record_usage b session_id w.usage) (λ _. return (outcome a)) s1 tt
                        f in
                  subst (FinishMeans draft w s) (sym run) (
                    a,
                    refl,
                    refl,
                    refl,
                    subst (Added a session_id (codes "document") _ _) (sym same) added,
                  )
              | inr (x, f, g) ↦
                  let run =
                    begin
                    ∙ bind-err (record_usage b session_id w.usage) (λ _. return (outcome a)) s1 x
                        f in
                  subst (FinishMeans draft w s) (sym run)
                    (inr (draft, w, outcome a, s1, (a, refl, refl, refl, added), g))
            ]
      ]

  session_notes-run :
      (s : State env)
      → (notes : List NotesEntry) × (session_notes b.view b.from_str session_id s ≡ (ok notes, s))
  unfolding session_notes list_artifacts_for_session read return ◌>>=◌
  session_notes-run s = (_, refl)

  prose_pass-run :
      (draft : Draft) (w : Work P) (s : State env)
      → (w' : Work P) × (prose_pass b session_id draft w s ≡ (ok w', s)) × IsPassed b draft w w'
  unfolding prose_pass return
  prose_pass-run draft w s = elim (Bool-cases (wants_prose b draft.schema)) [
    | inl e ↦
        let (notes, run) = session_notes-run s in
        let then_write : List NotesEntry → Op env (Work P) =
          λ ns. return (compose_pass b draft ns w) in
        (
          compose_pass b draft notes w,
          rw (e, prose_pass)
              (bind-ok (session_notes b.view b.from_str session_id) then_write s notes
                  (ap (λ r. r.0) run)
                ∙ ap (λ r. then_write notes r.1) run),
          inr (notes, refl),
        )
    | inr e ↦ (w, rw (e, prose_pass) refl, inl refl)
  ]

  module _ (tables : CharTables) (memory : Memory) (p : P) where
    -- What a build says of the state before it, its result and the state after it.
    unfoldable pub BuildMeans :
        State env → Result CoreError (BuildDocumentOutcome × P) × State env → Type 0
    BuildMeans s (ok (o, p'), s') =
        (draft : Draft) × ((read_draft b.debug session_id doc_kind s).0 ≡ ok draft)
        × (is_empty (drawn_items draft.schema draft.items) ≡ false)
        × (w : Work P) × IsPassed b draft (priced_work b env tables memory p draft s.minted) w
        × (p' ≡ w.provider)
        × IsStored draft w o s s'
    BuildMeans s (err e, s') = HasFailed e s s'

    passes-means :
        (draft : Draft) (w : Work P) (s s1 : State env)
        → (read_draft b.debug session_id doc_kind s).0 ≡ ok draft
        → is_empty (drawn_items draft.schema draft.items) ≡ false
        → IsPassed b draft (priced_work b env tables memory p draft s.minted) w
        → s1.db ≡ s.db
        → BuildMeans s
            ((finish_build b session_id doc_kind draft w >>= λ o. return (o, w.provider)) s1)
    unfolding BuildMeans FinishMeans return
    passes-means draft w s s1 read drawn passed same =
        let finish = finish_build b session_id doc_kind draft w in
        let last : BuildDocumentOutcome → Op env (BuildDocumentOutcome × P) =
          λ o. return (o, w.provider) in
        let means = finish_build-means draft w s1 in
        elim (Result-cases (finish s1).0) [
          | inl (o, e) ↦
              let stored = subst (FinishMeans draft w s1) (ap (λ r. (r, (finish s1).1)) e) means in
              let stored' =
                subst (λ db. IsStored draft w o (record s1 { db = db }) (finish s1).1) same
                  stored in
              subst (BuildMeans s) (sym (bind-ok finish last s1 o e))
                (draft, read, drawn, w, passed, refl, stored')
          | inr (x, e) ↦
              let failed_run =
                subst (FinishMeans draft w s1) (ap (λ r. (r, (finish s1).1)) e) means in
              let failed_run' =
                subst (λ db. HasFailed x (record s1 { db = db }) (finish s1).1) same failed_run in
              subst (BuildMeans s) (sym (bind-err finish last s1 x e)) failed_run'
        ]

    drawing-means :
        (draft : Draft) (s : State env)
        → (read_draft b.debug session_id doc_kind s).0 ≡ ok draft
        → BuildMeans s (build_from b tables memory session_id doc_kind p draft s)
    unfolding build_from BuildMeans fail
    drawing-means draft s read =
        elim (Bool-cases (is_empty (drawn_items draft.schema draft.items))) [
          | inl e ↦ rw (e, build_from) (inl refl)
          | inr e ↦
              let folded =
                folded_items env.floats tables draft.schema
                  (drawn_items draft.schema draft.items) in
              let w = priced_work b env tables memory p draft s.minted in
              let s1 : State env = record s { minted = s.minted + length folded.items } in
              let (w', run, passed) = prose_pass-run draft w s1 in
              let finish : Work P → Op env (BuildDocumentOutcome × P) =
                λ v. finish_build b session_id doc_kind draft v >>= λ o. return (o, v.provider) in
              let whole =
                bind-ok (prose_pass b session_id draft w) finish s1 w' (ap (λ r. r.0) run)
                ∙ ap (λ r. finish w' r.1) run in
              rw (e, build_from)
                (subst (BuildMeans s) (sym whole) (passes-means draft w' s s1 read e passed refl))
        ]

    -- A build that succeeds has read a session, its items and the active schema, has priced the
    -- lines of the items it draws, of which there is one, and has run the prose pass or left it out;
    -- the payload of that work, with the next number of its kind, is the body of a live document
    -- of the session, which the outcome names. If it fails, the database is as it was, or the
    -- document is stored and what failed is the log of its usage.
    pub build-means : (s : State env) → BuildMeans s (build b tables memory session_id doc_kind p s)
    unfolding build BuildMeans
    build-means s =
        let draw = build_from b tables memory session_id doc_kind p in
        let unchanged = (read_draft-Reads b.debug session_id doc_kind).reads s in
        elim (Result-cases (read_draft b.debug session_id doc_kind s).0) [
          | inl (draft, e) ↦
              let run =
                bind-ok (read_draft b.debug session_id doc_kind) draw s draft e
                ∙ ap (draw draft) unchanged in
              subst (BuildMeans s) (sym run) (drawing-means draft s e)
          | inr (x, e) ↦
              let run = bind-err (read_draft b.debug session_id doc_kind) draw s x e in
              subst (BuildMeans s) (sym run) (inl (ap (λ st. st.db) unchanged))
        ]

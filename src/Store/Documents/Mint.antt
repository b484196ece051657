-- ===== src/Store/Documents/Mint.antt =====
-- crates/murmur-core/src/store/documents.rs: a number is used for one document or not at all.
use sitewalk.Base.{ℕ, ◌≡◌, refl, sym, ap, ◌∙◌, Option, ◌++◌, inl, inr}
use mathlib.Core.Path.{subst}
use sitewalk.Base.Text.{Text, codes}
use sitewalk.Base.Result.{Result, ok, err}
use sitewalk.Harness.Llm.{show_nat}
use sitewalk.Store.Domain.{CoreError, Artifact}
use sitewalk.Store.Op.{Env, State, Op, ◌>>=◌, transaction-ok, transaction-err, bind-ok}
use sitewalk.Store.Artifacts.{add_artifact}
use sitewalk.Store.Documents.{document_number, mint_document_number_and_add_artifact}
use sitewalk.Store.Documents.Adding.{
  Added, IsRefused, add_artifact-cases, document_number-run, next_number, next_sequences,
}

-- What a mint says of the state before it, its result and the state after it.
unfoldable pub MintMeans :
    {env : Env}
    → Text
    → Text
    → Option ℕ
    → (ℕ → Text)
    → State env
    → Result CoreError Artifact × State env
    → Type 0
MintMeans session_id doc_kind existing body s (ok a, s') =
    let number = next_number doc_kind existing s.db.document_sequences in
    Added a session_id (codes "document") (doc_kind ++ (codes " #" ++ show_nat number))
      (body number) s'.db.artifacts
    × (s'.db.document_sequences ≡ next_sequences doc_kind existing s.db.document_sequences)
MintMeans session_id doc_kind existing body s (err e, s') = (s'.db ≡ s.db) × IsRefused session_id s

module _ {env : Env} (session_id doc_kind : Text) (existing : Option ℕ) (body : ℕ → Text) where
  -- Minting a document either adds it or changes nothing. If it succeeds, the artifact is live, of kind
  -- "document", of the session, and its title and body carry one number: the given one, which
  -- leaves the sequences as they are, or else one more than the last of its kind, which becomes
  -- the last one of the kind. If it fails, no number is used up, and there is no such session or the
  -- new id is that of an artifact.
  pub mint_document_number_and_add_artifact-means :
      (s : State env)
      → MintMeans session_id doc_kind existing body s
          (mint_document_number_and_add_artifact session_id doc_kind existing body s)
  unfolding mint_document_number_and_add_artifact MintMeans
  mint_document_number_and_add_artifact-means s =
      let number = next_number doc_kind existing s.db.document_sequences in
      let s1 : State env = record s {
        db = record s.db {
          document_sequences = next_sequences doc_kind existing s.db.document_sequences;
        };
      } in
      let title = doc_kind ++ (codes " #" ++ show_nat number) in
      let add : ℕ → Op env Artifact = λ n.
        add_artifact session_id (codes "document") (doc_kind ++ (codes " #" ++ show_nat n))
          (body n) in
      let numbered = document_number-run doc_kind existing s in
      let begin =
        bind-ok (document_number doc_kind existing) add s number (ap (λ p. p.0) numbered)
        ∙ ap (λ p. add number p.1) numbered in
      elim (add_artifact-cases session_id (codes "document") title (body number) s1) [
        | inl (a, s', run, added, same) ↦
            subst (MintMeans session_id doc_kind existing body s)
              (sym (
                transaction-ok (document_number doc_kind existing >>= add) s a
                  (ap (λ p. p.0) (begin ∙ run))
                ∙ ap (λ p. (ok a, p.1)) (begin ∙ run)))
              (added, same)
        | inr (x, s', run, why) ↦
            subst (MintMeans session_id doc_kind existing body s)
              (sym (
                transaction-err (document_number doc_kind existing >>= add) s x
                  (ap (λ p. p.0) (begin ∙ run))))
              (refl, why)
      ]

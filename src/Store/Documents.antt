-- ===== src/Store/Documents.antt =====
-- crates/murmur-core/src/store/documents.rs: document numbers. What serde makes of a payload with its
-- number is an argument.
pub mod Adding
pub mod Mint
use sitewalk.Base.{ℕ, Option, none, some, ◌++◌}
use sitewalk.Base.Text.{Text, codes}
use sitewalk.Base.TextMap.{get, insert}
use sitewalk.Base.Words.{add_u64}
use sitewalk.Base.Result.{ok}
use sitewalk.Harness.Llm.{show_nat}
use sitewalk.Store.Domain.{Artifact}
use sitewalk.Store.Op.{Env, Op, ◌>>=◌, ◌>>◌, return, read, write, transaction}
use sitewalk.Store.Artifacts.{add_artifact}

abbrev pub or_none_yet : Option ℕ → ℕ
or_none_yet none = 0
or_none_yet (some n) = n

module _ {env : Env} where
  unfoldable pub bump_document_sequence : Text → Op env ℕ
  unfolding ◌>>=◌ ◌>>◌ read write return add_u64
  bump_document_sequence doc_kind = do
    current ← read (λ db. ok (get doc_kind db.document_sequences))
    let minted : ℕ = add_u64 (or_none_yet current) 1
    write (λ db. record db { document_sequences = insert doc_kind minted db.document_sequences })
    return minted

  unfoldable pub mint_document_number : Text → Op env ℕ
  unfolding bump_document_sequence transaction
  mint_document_number doc_kind = transaction (bump_document_sequence doc_kind)

  unfoldable pub document_number : Text → Option ℕ → Op env ℕ
  unfolding bump_document_sequence return
  document_number doc_kind none = bump_document_sequence doc_kind
  document_number doc_kind (some n) = return n

  unfoldable pub mint_document_number_and_add_artifact :
      Text → Text → Option ℕ → (ℕ → Text) → Op env Artifact
  unfolding ◌>>=◌ document_number add_artifact transaction show_nat
  mint_document_number_and_add_artifact session_id doc_kind existing_number body = transaction (do
    number ← document_number doc_kind existing_number
    add_artifact session_id (codes "document") (doc_kind ++ (codes " #" ++ show_nat number))
        (body number))

-- ===== src/Examples/Estimates.antt =====
-- crates/murmur-core: an estimate for the board of `Prices`, by a model that offers a price for the
-- grading.
use sitewalk.Base.{Bool, false, ℕ, suc, Option, none, some, [], ◌∷◌, ◌+◌, ◌≡◌, refl, true, map}
use sitewalk.Base.Text.{Text, codes}
use sitewalk.Base.TextMap.{TextMap}
use sitewalk.Base.Int.{pos}
use sitewalk.Base.Result.{Result, ok, err}
use sitewalk.Examples.{whole}
use sitewalk.Examples.Prices.{ascii, board, board-AreDistinct}
use sitewalk.Examples.Papers.{estimate}
use sitewalk.Examples.Walks.{phone, opened, walk_id}
use sitewalk.Examples.Facts.{memory}
use sitewalk.Store.Op.{State}
use sitewalk.Store.Command.{
  start_session_command, end_and_record_command, finish_processed_command,
  add_item_with_source_command, save_schema_command, exec_all,
}
use sitewalk.Pipeline.Document.Build.{build}
use sitewalk.Pipeline.Document.Build.Stored.{BuildMeans, build-means}
use sitewalk.Harness.Llm.{tool_use, stop_tool_use, no_usage}
use sitewalk.Harness.Agent.{LlmProvider}
use sitewalk.Harness.Reflection.{JsonView}
use sitewalk.Store.Domain.{Session, processed, authoritative, CoreError}
use sitewalk.Pipeline.SpokenPrice.Kept.{item_ids, total_said, total_amount}
use sitewalk.Pipeline.SpokenPrice.{FoldedPrices}
use sitewalk.Pipeline.Document.Lines.{DocumentLine}
use sitewalk.Pipeline.Document.Lines.Priced.{bare}
use sitewalk.Pipeline.Document.Prices.Offers.{IsOffer}
use sitewalk.Pipeline.Document.Passes.{expected_lines, Offers}
use sitewalk.Pipeline.Document.Outranks.{opening, compose_pass-expected_lines}
use sitewalk.Pipeline.Document.Total.{IsTotal, payload-total}
use sitewalk.Pipeline.Document.{
  Draft, Work, DocumentBuilder, drawn_items, folded_items, unpriced_items, price_pass, compose_pass,
  payload, is_priced_schema,
}

-- Every value is a list of one price, $95 for item "d".
abbrev grading_price : JsonView ℕ
grading_price = record {
  field = λ j name. some j;
  as_object = λ j. none;
  as_array = λ j. some (j ∷ []);
  as_str = λ j. some (codes "d");
  as_i64 = λ j. some (pos 9500);
}

abbrev prices_grading : LlmProvider ℕ ℕ
prices_grading = record {
  complete = λ n req. (
    ok (record {
      content = tool_use (codes "t1") (codes "price_items") 0 ∷ [];
      stop_reason = stop_tool_use;
      usage = no_usage;
    }),
    suc n,
  );
}

abbrev builder : DocumentBuilder ℕ ℕ
builder = record {
  view = grading_price;
  from_str = λ body. none;
  price_schema = 0;
  compose_schema = λ lines assignee. 0;
  model = prices_grading;
  max_tokens = 1024;
  encode = λ p. codes "{}";
  debug = λ t. codes "None";
}

abbrev walk : Session
walk = record {
  id = codes "s1";
  job_id = none;
  template = some (codes "landscape");
  status = processed;
  transcript = codes "mulch";
  summary = none;
  started_at = 0;
  ended_at = some 60;
  created_at = 0;
  updated_at = 60;
  device_id = codes "d";
}

abbrev draft : Draft
draft = record { session = walk; items = board; schema = estimate }

abbrev fresh : ℕ → Text
fresh n = (100 + n) ∷ []

abbrev folded : FoldedPrices
folded = folded_items whole ascii draft.schema (drawn_items draft.schema draft.items)

abbrev priced : Work ℕ
priced = price_pass builder draft.schema folded [] (opening builder fresh 0 draft.schema folded 0)

priced_test :
    map (λ (l : DocumentLine). l.amount_cents) priced.lines
    ≡ some 20000 ∷ some 125050 ∷ some 9500 ∷ []
unfolding price_pass sitewalk.Base.Text.text_eq folded_items drawn_items
    sitewalk.Pipeline.SpokenPrice.Amount.read_number sitewalk.Pipeline.SpokenPrice.Amount.is_rate
    sitewalk.Base.Text.is_whitespace sitewalk.Pipeline.SpokenPrice.Amount.has_currency_word
    sitewalk.Base.TextMap.get sitewalk.Base.TextMap.insert sitewalk.Base.Text.text_ltb
    sitewalk.Pipeline.Document.spoken_lines
priced_test = refl

compose_pass-expected_lines_example :
    (offered : TextMap ℕ) × IsOffer (item_ids (unpriced_items folded)) offered
    × Offers builder draft.schema folded [] 0 offered
    × (map bare priced.lines
        ≡ expected_lines fresh 0 folded.amounts offered
            (is_priced_schema draft.schema)
            folded.items)
    × (map bare (compose_pass builder draft [] priced).lines
        ≡ expected_lines fresh 0 folded.amounts offered
            (is_priced_schema draft.schema)
            folded.items)
compose_pass-expected_lines_example =
    compose_pass-expected_lines builder whole ascii draft [] fresh 0 0 [] board-AreDistinct

estimate-has_amounts : is_priced_schema draft.schema ≡ true
unfolding is_priced_schema sitewalk.Base.Text.text_eq
estimate-has_amounts = refl

payload-total_example :
    (offered : TextMap ℕ) × IsOffer (item_ids (unpriced_items folded)) offered
    × Offers builder draft.schema folded [] 0 offered
    × IsTotal (payload builder (codes "estimate") draft priced 1).total (
        total_said ascii (drawn_items draft.schema draft.items) + total_amount offered folded.items)
    × IsTotal
        (payload builder (codes "estimate") draft (compose_pass builder draft [] priced) 1).total
        (total_said ascii (drawn_items draft.schema draft.items)
          + total_amount offered folded.items)
payload-total_example =
    payload-total builder draft estimate-has_amounts whole ascii [] fresh 0 0 [] (codes "estimate")
      1 board-AreDistinct

-- The store after a walk with one item, and a schema for estimates.
abbrev processed_walk : State phone
unfolding exec_all
processed_walk =
    exec_all
      (start_session_command none
        ∷ end_and_record_command walk_id
        ∷ finish_processed_command walk_id (codes "one bed") no_usage []
        ∷ add_item_with_source_command walk_id (codes "todo") (codes "5 yards of mulch $200")
            authoritative
        ∷ save_schema_command estimate
        ∷ [])
      opened

abbrev is_ok : {A : Type 0} → Result CoreError A → Bool
is_ok (ok a) = true
is_ok (err e) = false

builds_test :
    is_ok (build builder ascii memory walk_id (codes "estimate") 0 processed_walk).0 ≡ true
unfolding build sitewalk.Base.TextMap.get processed_walk sitewalk.Store.Schemas.save_document_schema
    sitewalk.Base.Text.is_whitespace sitewalk.Store.Items.add_item_with_source
    sitewalk.Store.Finish.finish_session_processed sitewalk.Store.Sessions.end_and_record_session
    sitewalk.Store.Sessions.start_session sitewalk.Base.TextMap.insert
    sitewalk.Pipeline.SpokenPrice.Amount.read_number
    sitewalk.Pipeline.SpokenPrice.Amount.has_currency_word
    sitewalk.Pipeline.SpokenPrice.Amount.is_rate
builds_test = refl

build-means_example :
    BuildMeans builder walk_id
      (codes "estimate")
      ascii
      memory
      0
      processed_walk
      (build builder ascii memory walk_id (codes "estimate") 0 processed_walk)
build-means_example = build-means builder walk_id (codes "estimate") ascii memory 0 processed_walk

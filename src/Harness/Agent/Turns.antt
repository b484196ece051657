-- ===== src/Harness/Agent/Turns.antt =====
-- crates/harness/src/agent.rs: the turns of a run that use tools, said directly.
use sitewalk.Base.{
  ◌≡◌, refl, ap, ℕ, suc, true, false, List, [], ◌∷◌, ◌++◌, is_empty, map, keep, Bool, arith,
}
use sitewalk.Base.Text.{Text}
use sitewalk.Base.Result.{Result, ok, err}
use sitewalk.Harness.Llm.{
  user, assistant, ContentBlock, text_block, tool_use, tool_result, image, document, unknown,
  Message, ToolRegistry, CompletionResponse, HarnessError, execute, display,
}
use sitewalk.Harness.Agent.{
  AgentConfig, LlmProvider, drop_unknown, tool_uses, result_block, run_tools, request,
}

module _ {Json : Type 0} where
  abbrev pub is_known : ContentBlock Json → Bool
  is_known unknown = false
  is_known _ = true

  abbrev pub is_use : ContentBlock Json → Bool
  is_use (tool_use id name input) = true
  is_use _ = false

  abbrev pub as_block : Text × Text × Json → ContentBlock Json
  as_block (id, name, input) = tool_use id name input

  pub drop_unknown_lem : (bs : List (ContentBlock Json)) → drop_unknown bs ≡ keep is_known bs
  unfolding drop_unknown
  drop_unknown_lem [] = refl
  drop_unknown_lem (unknown ∷ bs) = drop_unknown_lem bs
  drop_unknown_lem (text_block t ∷ bs) = ap (λ x. text_block t ∷ x) (drop_unknown_lem bs)
  drop_unknown_lem (tool_use i n j ∷ bs) = ap (λ x. tool_use i n j ∷ x) (drop_unknown_lem bs)
  drop_unknown_lem (tool_result i c e ∷ bs) = ap (λ x. tool_result i c e ∷ x) (drop_unknown_lem bs)
  drop_unknown_lem (image s ∷ bs) = ap (λ x. image s ∷ x) (drop_unknown_lem bs)
  drop_unknown_lem (document s t c o ∷ bs) = ap (λ x. document s t c o ∷ x) (drop_unknown_lem bs)

  pub tool_uses_lem : (bs : List (ContentBlock Json)) → map as_block (tool_uses bs) ≡ keep is_use bs
  unfolding tool_uses
  tool_uses_lem [] = refl
  tool_uses_lem (unknown ∷ bs) = tool_uses_lem bs
  tool_uses_lem (text_block t ∷ bs) = tool_uses_lem bs
  tool_uses_lem (tool_use i n j ∷ bs) = ap (λ x. tool_use i n j ∷ x) (tool_uses_lem bs)
  tool_uses_lem (tool_result i c e ∷ bs) = tool_uses_lem bs
  tool_uses_lem (image s ∷ bs) = tool_uses_lem bs
  tool_uses_lem (document s t c o ∷ bs) = tool_uses_lem bs

  pub is_empty-nil : (uses : List (Text × Text × Json)) → is_empty uses ≡ true → uses ≡ []
  is_empty-nil [] h = refl
  is_empty-nil (u ∷ uses) h = absurd (ground arith)

  -- The block that stands for what a tool has returned for the use with this id.
  abbrev pub IsResult : Text → Result HarnessError Text → ContentBlock Json → Type 0
  IsResult id (ok content) b = b ≡ tool_result id content false
  IsResult id (err e) b = b ≡ tool_result id (display e) true

result_block-IsResult :
    (Json : Type 0) (id : Text) (r : Result HarnessError Text)
    → IsResult {Json = Json} id r (result_block id r)
unfolding result_block
result_block-IsResult Json id (ok content) = refl
result_block-IsResult Json id (err e) = refl

module _ {Json W : Type 0} (tools : ToolRegistry Json W) where
  -- One result for each use, in their order: each tool runs in the world that the one before leaves.
  unfoldable pub Answers : List (Text × Text × Json) → W → List (ContentBlock Json) → W → Type 0
  Answers [] w [] w' = w' ≡ w
  Answers [] w (b ∷ bs) w' = ⊥
  Answers (u ∷ uses) w [] w' = ⊥
  Answers ((id, name, input) ∷ uses) w (b ∷ bs) w' =
      IsResult id (execute tools name input w).0 b
      × Answers uses (execute tools name input w).1 bs w'

  pub run_tools-Answers :
      (uses : List (Text × Text × Json)) (w : W)
      → Answers uses w (run_tools tools uses w).0 (run_tools tools uses w).1
  unfolding Answers run_tools
  run_tools-Answers [] w = refl
  run_tools-Answers ((id, name, input) ∷ uses) w = (
    result_block-IsResult Json id (execute tools name input w).0,
    run_tools-Answers uses (execute tools name input w).1,
  )

abbrev pub said_by : {Json : Type 0} → List (ContentBlock Json) → Message Json
said_by c = record { role = assistant; content = c }

abbrev pub results_of : {Json : Type 0} → List (ContentBlock Json) → Message Json
results_of bs = record { role = user; content = bs }

module _ {Json W P : Type 0} (p : LlmProvider Json P) (tools : ToolRegistry Json W)
    (cfg : AgentConfig) where
  abbrev pub asked : P → List (Message Json) → Result HarnessError (CompletionResponse Json)
  asked s ms = (p.complete s (request p tools cfg ms)).0

  abbrev pub after : P → List (Message Json) → P
  after s ms = (p.complete s (request p tools cfg ms)).1

  -- The turns that use tools, from a conversation, a world and a state of the provider on: the
  -- messages that they add, and the world and the provider that they leave.
  pub data Turns : ℕ → List (Message Json) → W → P → List (Message Json) → W → P → Type 0 where
    none_yet : (ms : List (Message Json)) (w : W) (s : P) → Turns 0 ms w s [] w s
    turn :
        (n : ℕ) (ms added : List (Message Json)) (w w1 w' : W) (s s' : P)
        (r : CompletionResponse Json) (c results : List (ContentBlock Json))
        (uses : List (Text × Text × Json))
        → asked s ms ≡ ok r
        → c ≡ keep is_known r.content
        → map as_block uses ≡ keep is_use c
        → is_empty uses ≡ false
        → Answers tools uses w results w1
        → Turns n ((ms ++ said_by c ∷ []) ++ results_of results ∷ []) w1 (after s ms) added w' s'
        → Turns (suc n) ms w s (said_by c ∷ results_of results ∷ added) w' s'

-- ===== src/Harness/Agent.antt =====
-- crates/harness/src/agent.rs: the agent loop. The provider is a parameter with a state of its own;
-- the tools act on a world `W`.
pub mod Turns
pub mod Conversation
use sitewalk.Base.{
  ℕ, zero, suc, ◌+◌, Bool, true, false, Option, none, some, List, [], ◌∷◌, ◌++◌, map, if◌then◌else◌,
  is_empty,
}
use sitewalk.Base.Text.{Text}
use sitewalk.Base.Text.Split.{join}
use sitewalk.Base.Result.{Result, ok, err}
use sitewalk.Harness.Llm.{
  Role, user, assistant, ContentBlock, text_block, tool_use, tool_result, image, document, unknown,
  Message, ToolRegistry, CompletionRequest, StopReason, Usage, no_usage, add_usage,
  CompletionResponse, HarnessError, max_turns, display, specs, execute,
}

pub record AgentConfig : Type 0 where
  pub system_prompt : Text
  pub turn_limit : ℕ
  pub max_tokens : ℕ

pub record TurnOutcome (Json : Type 0) : Type 0 where
  pub text : Text
  pub messages : List (Message Json)
  pub usage : Usage
  pub stop_reason : StopReason

pub record RunError : Type 0 where
  pub source : HarnessError
  pub usage : Usage

-- `trait LlmProvider`
pub record LlmProvider (Json P : Type 0) : Type 0 where
  pub complete : P → CompletionRequest Json → Result HarnessError (CompletionResponse Json) × P

module _ {Json : Type 0} where
  unfoldable pub drop_unknown : List (ContentBlock Json) → List (ContentBlock Json)
  drop_unknown [] = []
  drop_unknown (unknown ∷ bs) = drop_unknown bs
  drop_unknown (b ∷ bs) = b ∷ drop_unknown bs

  unfoldable pub tool_uses : List (ContentBlock Json) → List (Text × Text × Json)
  tool_uses [] = []
  tool_uses (tool_use id name input ∷ bs) = (id, name, input) ∷ tool_uses bs
  tool_uses (b ∷ bs) = tool_uses bs

  unfoldable pub text_parts : List (ContentBlock Json) → List Text
  text_parts [] = []
  text_parts (text_block t ∷ bs) = t ∷ text_parts bs
  text_parts (b ∷ bs) = text_parts bs

  -- The block that answers a tool use.
  unfoldable pub result_block : Text → Result HarnessError Text → ContentBlock Json
  result_block id (ok content) = tool_result id content false
  result_block id (err e) = tool_result id (display e) true

module _ {Json W : Type 0} where
  -- The tools of one response run one after another.
  unfoldable pub run_tools :
      ToolRegistry Json W → List (Text × Text × Json) → W → List (ContentBlock Json) × W
  unfolding result_block
  run_tools tools [] w = ([], w)
  run_tools tools ((id, name, input) ∷ uses) w =
      let (r, w') = execute tools name input w in
      let (rest, w'') = run_tools tools uses w' in (result_block id r ∷ rest, w'')

module _ {Json W P : Type 0} (p : LlmProvider Json P) (tools : ToolRegistry Json W)
    (cfg : AgentConfig) where
  abbrev pub RunResult : Type 0
  RunResult = Result RunError (TurnOutcome Json) × W × P

  abbrev pub request : List (Message Json) → CompletionRequest Json
  request messages = record {
    system = cfg.system_prompt;
    messages = messages;
    tools = specs tools;
    max_tokens = cfg.max_tokens;
    tool_choice = none;
    cache_prefix = true;
  }

  -- `for _ in 0..max_turns`: the turns that are left, and the conversation and usage so far.
  unfoldable pub run_turns : ℕ → List (Message Json) → Usage → W → P → RunResult
  unfolding drop_unknown tool_uses text_parts run_tools
  run_turns zero messages usage w s =
      (err (record { source = max_turns cfg.turn_limit; usage = usage }), w, s)
  run_turns (suc left) messages usage w s =
      let (reply, s') = p.complete s (request messages) in
      elim reply [
        | err e ↦ (err (record { source = e; usage = usage }), w, s')
        | ok response ↦
            let usage' = add_usage usage response.usage in
            let content = drop_unknown response.content in
            let uses = tool_uses content in
            let said = messages ++ record { role = assistant; content = content } ∷ [] in
            elim (is_empty uses) [
              | true ↦ (
                ok (record {
                  text = join (10 ∷ []) (text_parts content);
                  messages = said;
                  usage = usage';
                  stop_reason = response.stop_reason;
                }),
                w,
                s',
              )
              | false ↦
                  let (results, w') = run_tools tools uses w in
                  run_turns left (said ++ record { role = user; content = results } ∷ []) usage' w'
                    s'
            ]
      ]

  unfoldable pub run : List (Message Json) → W → P → RunResult
  unfolding run_turns
  run messages w s = run_turns cfg.turn_limit messages no_usage w s

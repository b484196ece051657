-- ===== src/Harness/Agent/Conversation.antt =====
-- crates/harness/src/agent.rs: the shape of the conversation that `run` leaves.
use sitewalk.Base.{
  ◌≡◌, refl, sym, ap, ◌∙◌, ◌⊎◌, inl, inr, ℕ, zero, suc, ◌≤◌, true, false, List, [], ◌∷◌, ◌++◌,
  is_empty, map, keep, append_assoc, append-nil, Bool-cases, arith,
}
use mathlib.Core.Path.{subst}
use sitewalk.Base.Text.Split.{join}
use sitewalk.Base.Result.{ok, err, Result-cases}
use sitewalk.Harness.Llm.{
  ContentBlock, Message, ToolRegistry, CompletionRequest, Usage, no_usage, add_usage,
  CompletionResponse, HarnessError, max_turns,
}
use sitewalk.Harness.Agent.{
  AgentConfig, TurnOutcome, RunError, LlmProvider, RunResult, drop_unknown, tool_uses, text_parts,
  run_tools, request, run_turns, run,
}
use sitewalk.Harness.Agent.Turns.{
  is_known, is_use, as_block, drop_unknown_lem, tool_uses_lem, is_empty-nil, run_tools-Answers,
  said_by, results_of, asked, after, Turns, none_yet, turn,
}

module _ {Json W P : Type 0} (p : LlmProvider Json P) (tools : ToolRegistry Json W)
    (cfg : AgentConfig) where
  -- The turns, and then a last response without tool uses, which ends the conversation.
  abbrev Ends : ℕ → List (Message Json) → W → P → TurnOutcome Json → W → P → Type 0
  Ends turns ms w s out w' s' =
      (n : ℕ) × (added : List (Message Json)) × (q : P) × (r : CompletionResponse Json) × (suc n
        ≤ turns)
      × Turns p tools cfg n ms w s added w' q
      × (asked p tools cfg q (ms ++ added) ≡ ok r)
      × (s' ≡ after p tools cfg q (ms ++ added))
      × (keep is_use (keep is_known r.content) ≡ [])
      × (out.messages ≡ (ms ++ added) ++ said_by (keep is_known r.content) ∷ [])
      × (out.stop_reason ≡ r.stop_reason)

  -- All turns are used up.
  abbrev UsesUp : ℕ → List (Message Json) → W → P → RunError → W → P → Type 0
  UsesUp turns ms w s e w' s' =
      (added : List (Message Json)) × Turns p tools cfg turns ms w s added w' s'
      × (e.source ≡ max_turns cfg.turn_limit)

  -- The turns, and then a request that the provider fails.
  abbrev Breaks : ℕ → List (Message Json) → W → P → RunError → W → P → Type 0
  Breaks turns ms w s e w' s' =
      (n : ℕ) × (added : List (Message Json)) × (q : P) × (suc n ≤ turns)
      × Turns p tools cfg n ms w s added w' q
      × (asked p tools cfg q (ms ++ added) ≡ err e.source)
      × (s' ≡ after p tools cfg q (ms ++ added))

  -- What `turns` turns on `messages` come to.
  unfoldable pub RunMeans : ℕ → List (Message Json) → W → P → RunResult p tools cfg → Type 0
  RunMeans turns ms w s (ok out, w', s') = Ends turns ms w s out w' s'
  RunMeans turns ms w s (err e, w', s') = UsesUp turns ms w s e w' s' ⊎ Breaks turns ms w s e w' s'

  out_of_turns :
      (ms : List (Message Json)) (usage : Usage) (w : W) (s : P)
      → RunMeans 0 ms w s (err (record { source = max_turns cfg.turn_limit; usage = usage }), w, s)
  unfolding RunMeans
  out_of_turns ms usage w s = inl ([], none_yet ms w s, refl)

  failed_turn :
      (left : ℕ) (ms : List (Message Json)) (usage : Usage) (w : W) (s : P) (x : HarnessError)
      → asked p tools cfg s ms ≡ err x
      → RunMeans
          (suc left)
          ms
          w
          s
          (err (record { source = x; usage = usage }), w, after p tools cfg s ms)
  unfolding RunMeans
  failed_turn left ms usage w s x e =
      let whole : ms ++ [] ≡ ms = append-nil ms in
      inr (
        0,
        [],
        s,
        (omega arith),
        none_yet ms w s,
        ap (asked p tools cfg s) whole ∙ e,
        ap (after p tools cfg s) (sym whole),
      )

  answered_turn :
      (left : ℕ) (ms : List (Message Json)) (w : W) (s : P) (r : CompletionResponse Json)
      (out : TurnOutcome Json)
      → asked p tools cfg s ms ≡ ok r
      → is_empty (tool_uses (drop_unknown r.content)) ≡ true
      → out.messages ≡ ms ++ said_by (drop_unknown r.content) ∷ []
      → out.stop_reason ≡ r.stop_reason
      → RunMeans (suc left) ms w s (ok out, w, after p tools cfg s ms)
  unfolding RunMeans
  answered_turn left ms w s r out e b m stop =
      let whole : ms ++ [] ≡ ms = append-nil ms in
      let known = drop_unknown_lem r.content in
      (
        0,
        [],
        s,
        r,
        (omega arith),
        none_yet ms w s,
        ap (asked p tools cfg s) whole ∙ e,
        ap (after p tools cfg s) (sym whole),
        sym (tool_uses_lem (keep is_known r.content))
            ∙ ap (λ c. map as_block (tool_uses c)) (sym known)
            ∙ ap (map as_block) (is_empty-nil (tool_uses (drop_unknown r.content)) b),
        m
            ∙ ap (λ c. ms ++ said_by c ∷ []) known
            ∙ ap (λ ks. ks ++ said_by (keep is_known r.content) ∷ []) (sym whole),
        stop,
      )

  -- The messages of one turn, in front of others.
  abbrev with_turn :
      List (ContentBlock Json)
      → List (ContentBlock Json)
      → List (Message Json)
      → List (Message Json)
  with_turn c results added = said_by c ∷ results_of results ∷ added

  longer :
      (ms : List (Message Json)) (c results : List (ContentBlock Json))
      (added : List (Message Json))
      → ((ms ++ said_by c ∷ []) ++ results_of results ∷ []) ++ added
        ≡ ms ++ with_turn c results added
  longer ms c results added = append_assoc (ms ++ said_by c ∷ []) _ added ∙ append_assoc ms _ _

  -- A turn in front of what is said of the longer conversation.
  RunMeans-turn :
      (left : ℕ) (ms : List (Message Json)) (w w1 : W) (s s1 : P)
      (c results : List (ContentBlock Json))
      → ((n : ℕ) (added : List (Message Json)) (w' : W) (s' : P)
          → Turns p tools cfg n
              ((ms ++ said_by c ∷ []) ++ results_of results ∷ [])
              w1
              s1
              added
              w'
              s'
          → Turns p tools cfg (suc n) ms w s (with_turn c results added) w' s')
      → (a : RunResult p tools cfg)
      → RunMeans left ((ms ++ said_by c ∷ []) ++ results_of results ∷ []) w1 s1 a
      → RunMeans (suc left) ms w s a
  unfolding RunMeans
  RunMeans-turn left ms w w1 s s1 c results more (ok out, w', s')
        (n, added, q, r, le, ts, e, state, no_use, m, stop) =
      let whole = longer ms c results added in
      (
        suc n,
        with_turn c results added,
        q,
        r,
        omega (arith, le),
        more n added w' q ts,
        ap (asked p tools cfg q) (sym whole) ∙ e,
        state ∙ ap (after p tools cfg q) whole,
        no_use,
        m ∙ ap (λ ks. ks ++ said_by (keep is_known r.content) ∷ []) whole,
        stop,
      )
  RunMeans-turn left ms w w1 s s1 c results more (err x, w', s') (inl (added, ts, e)) =
      inl (with_turn c results added, more left added w' s' ts, e)
  RunMeans-turn left ms w w1 s s1 c results more (err x, w', s')
        (inr (n, added, q, le, ts, e, state)) =
      let whole = longer ms c results added in
      inr (
        suc n,
        with_turn c results added,
        q,
        omega (arith, le),
        more n added w' q ts,
        ap (asked p tools cfg q) (sym whole) ∙ e,
        state ∙ ap (after p tools cfg q) whole,
      )

  used_tools :
      (ms : List (Message Json)) (w : W) (s : P) (r : CompletionResponse Json)
      → asked p tools cfg s ms ≡ ok r
      → let c = drop_unknown r.content in
        let ran = run_tools tools (tool_uses c) w in
        is_empty (tool_uses c) ≡ false
        → (n : ℕ) (added : List (Message Json)) (w' : W) (s' : P)
        → Turns p tools cfg n
            ((ms ++ said_by c ∷ []) ++ results_of ran.0 ∷ [])
            ran.1
            (after p tools cfg s ms)
            added
            w'
            s'
        → Turns p tools cfg (suc n) ms w s (with_turn c ran.0 added) w' s'
  used_tools ms w s r e b n added w' s' ts =
      let c = drop_unknown r.content in
      let ran = run_tools tools (tool_uses c) w in
      turn n ms added w ran.1 w' s s' r c ran.0 (tool_uses c) e (drop_unknown_lem r.content)
        (tool_uses_lem c) b (run_tools-Answers tools (tool_uses c) w) ts

  run_turns-failed :
      (left : ℕ) (ms : List (Message Json)) (u : Usage) (w : W) (s : P) (x : HarnessError)
      → asked p tools cfg s ms ≡ err x
      → run_turns p tools cfg (suc left) ms u w s
        ≡ (err (record { source = x; usage = u }), w, after p tools cfg s ms)
  unfolding run_turns
  run_turns-failed left ms u w s x e = rw (e, run_turns) refl

  abbrev answered : List (Message Json) → Usage → CompletionResponse Json → TurnOutcome Json
  answered ms u r = record {
    text = join (10 ∷ []) (text_parts (drop_unknown r.content));
    messages = ms ++ said_by (drop_unknown r.content) ∷ [];
    usage = add_usage u r.usage;
    stop_reason = r.stop_reason;
  }

  run_turns-answered :
      (left : ℕ) (ms : List (Message Json)) (u : Usage) (w : W) (s : P)
      (r : CompletionResponse Json)
      → asked p tools cfg s ms ≡ ok r
      → is_empty (tool_uses (drop_unknown r.content)) ≡ true
      → run_turns p tools cfg (suc left) ms u w s
        ≡ (ok (answered ms u r), w, after p tools cfg s ms)
  unfolding run_turns
  run_turns-answered left ms u w s r e b = rw (e, b, run_turns) refl

  run_turns-asked :
      (left : ℕ) (ms : List (Message Json)) (u : Usage) (w : W) (s : P)
      (r : CompletionResponse Json)
      → asked p tools cfg s ms ≡ ok r
      → is_empty (tool_uses (drop_unknown r.content)) ≡ false
      → let ran = run_tools tools (tool_uses (drop_unknown r.content)) w in
        run_turns p tools cfg (suc left) ms u w s
        ≡ run_turns p tools cfg left
            ((ms ++ said_by (drop_unknown r.content) ∷ []) ++ results_of ran.0 ∷ [])
            (add_usage u r.usage)
            ran.1
            (after p tools cfg s ms)
  unfolding run_turns
  run_turns-asked left ms u w s r e b = rw (e, b, run_turns) refl

  run_turns-means :
      (left : ℕ) (ms : List (Message Json)) (u : Usage) (w : W) (s : P)
      → RunMeans left ms w s (run_turns p tools cfg left ms u w s)
  unfolding run_turns
  run_turns-means zero ms u w s = out_of_turns ms u w s
  run_turns-means (suc left) ms u w s = elim (Result-cases (asked p tools cfg s ms)) [
    | inr (x, e) ↦
        subst (RunMeans (suc left) ms w s) (sym (run_turns-failed left ms u w s x e))
          (failed_turn left ms u w s x e)
    | inl (r, e) ↦ elim (Bool-cases (is_empty (tool_uses (drop_unknown r.content)))) [
      | inl b ↦
          subst (RunMeans (suc left) ms w s) (sym (run_turns-answered left ms u w s r e b))
            (answered_turn left ms w s r (answered ms u r) e b refl refl)
      | inr b ↦ subst (RunMeans (suc left) ms w s) (sym (run_turns-asked left ms u w s r e b)) (
          RunMeans-turn left ms w _ s _ _ _ (used_tools ms w s r e b) _
            (run_turns-means left _ _ _ _))
    ]
  ]

  -- A run of the agent goes through turns that use tools: in each, the conversation so far is sent to
  -- the provider, its response is kept without the blocks of an unknown kind, and the tools it uses,
  -- at least one, are run one after another on the world; one user message follows with one result
  -- for each use, in their order, under its id, with the tool's output, or with the text of its error
  -- and the error flag up. The run then ends in one of three ways. With an answer, after fewer turns
  -- than `turn_limit`: the next response uses no tool, and the conversation it returns is the given
  -- one, the messages of the turns and that response, with its stop reason. With the error of the turn
  -- limit, after exactly `turn_limit` turns. Or with the provider's own error on the conversation so
  -- far, after fewer. The world that is returned is the one that the tools of those turns leave.
  pub run-exchange :
      (messages : List (Message Json)) (w : W) (s : P)
      → RunMeans cfg.turn_limit messages w s (run p tools cfg messages w s)
  unfolding run
  run-exchange messages w s = run_turns-means cfg.turn_limit messages no_usage w s

  -- If every reply of the provider uses a tool, the run ends with the error of the turn limit,
  -- whatever the limit is.
  pub run-turn_limit :
      (messages : List (Message Json)) (w : W) (s : P)
      → ((q : P) (req : CompletionRequest Json)
          → (r : CompletionResponse Json) × ((p.complete q req).0 ≡ ok r)
            × (is_empty (tool_uses (drop_unknown r.content)) ≡ false))
      → (e : RunError) × ((run p tools cfg messages w s).0 ≡ err e)
        × (e.source ≡ max_turns cfg.turn_limit)
  unfolding run run_turns
  run-turn_limit messages w s always = loop cfg.turn_limit messages no_usage w s
    where
      loop :
          (left : ℕ) (ms : List (Message Json)) (u : Usage) (v : W) (q : P)
          → (e : RunError) × ((run_turns p tools cfg left ms u v q).0 ≡ err e)
            × (e.source ≡ max_turns cfg.turn_limit)
      loop zero ms u v q = (_, refl, refl)
      loop (suc left) ms u v q =
          let found = always q (request p tools cfg ms) in
          let same = run_turns-asked left ms u v q found.0 found.1 found.2 in
          rw same (loop left _ _ _ _)

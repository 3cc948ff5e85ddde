-- ===== src/Pipeline/FixLoop.antt =====
-- src/pipeline/pipeline-engine.ts: `runTrackedNode` and `handleLoopFailure`. The log and the events
-- are left out, and so are the steps of a loop's result, which its caller does not read.
use gooseherd.Prelude.{
  ℕ, zero, suc, String, Bool, true, false, ◌&&◌, ◌||◌, not, Option, none, some, List, [], ◌∷◌, ltb,
  if◌then◌else◌, or_default, ◌==◌, String-Eq, Nat-Eq, Result, ok, err,
}
use gooseherd.Pipeline.Types.{
  NodeConfig, NodeResult, LoopConfig, rounds, rounds_at, OnExhausted, fail_run,
  complete_with_warning, PipelineWorld, PipelineOutcome, run_success, run_failure,
  completed_with_warnings, LoopWarning, loop_bypassed, loop_exhausted, NodeOutcome, success,
  failure, simple, standard, research, escalate_mode, is_non_code_fix_failure, ExecutionMode,
}
use Prim.Native.String.{◌++◌ as ◌⧺◌}

pub record LoopResult : Type 0 where
  pub outcome : PipelineOutcome
  pub warnings : List LoopWarning

abbrev pub is_success : NodeOutcome → Bool
is_success success = true
is_success outcome = false

-- A limit that is not a positive number is one round.
abbrev positive_or_one : Option ℕ → ℕ
positive_or_one (some n) = if ltb 0 n then n else 1
positive_or_one none = 1

abbrev pub fix_node : String → String → NodeConfig
fix_node id agent_node = record {
  id = id;
  action = agent_node;
  condition = none;
  enabled = none;
  on_failure = none;
  on_soft_fail = none;
}

abbrev same_mode : ExecutionMode → ExecutionMode → Bool
same_mode simple simple = true
same_mode standard standard = true
same_mode research research = true
same_mode mode other = false

module _ (world : PipelineWorld) where
  open world use {
    Ctx, Outputs, handler, merge_outputs, number_at, number_text, browser_failure_code,
    execution_mode, set_execution_mode, set_loop_attempt, set_last_failure_raw_output,
    append_browser_failure, lint_fix,
  }

  abbrev pub Handler : Type 0
  Handler = NodeConfig → Ctx → Result String (NodeResult Outputs) × Ctx

  -- An error of the handler is a failure of the node.
  unfoldable pub run_tracked_node : Handler → NodeConfig → Ctx → NodeResult Outputs × Ctx
  run_tracked_node run node ctx =
      let ran = run node ctx in
      elim ran.0 [
        | ok result ↦ (result, ran.1)
        | err message ↦ (
          record { outcome = failure; outputs = none; error = some message; raw_output = none },
          ran.1,
        )
      ]

  unfoldable pub resolved_max_rounds : LoopConfig → Ctx → ℕ
  resolved_max_rounds loop_config ctx = elim loop_config.max_rounds [
    | rounds n ↦ positive_or_one (some n)
    | rounds_at path ↦ positive_or_one (number_at path ctx)
  ]

  abbrev merge_some : Option Outputs → Ctx → Ctx
  merge_some none ctx = ctx
  merge_some (some outputs) ctx = merge_outputs outputs ctx

  abbrev pub keep_raw_output : Option String → Ctx → Ctx
  keep_raw_output none ctx = ctx
  keep_raw_output (some text) ctx = if text == "" then ctx else set_last_failure_raw_output text ctx

  -- The execution mode is written only where the failures change it.
  unfoldable pub escalated : ℕ → Ctx → Ctx
  unfolding escalate_mode
  escalated attempt ctx =
      let current = or_default (execution_mode ctx) standard in
      let next = escalate_mode current attempt in
      if same_mode next current then ctx else set_execution_mode next ctx

  -- What a round does with a retry of the failed node that did not succeed.
  unfoldable pub retry_failed : NodeConfig → ℕ → NodeResult Outputs → Ctx → Ctx
  retry_failed failed_node attempt retry ctx =
      let kept = keep_raw_output retry.raw_output (merge_some retry.outputs ctx) in
      if failed_node.action == "browser_verify"
      then append_browser_failure attempt retry kept
      else kept

  -- The fix of a round has succeeded: the context bag before the failed node is retried. A throw
  -- of the lint handler escapes.
  unfoldable pub before_retry :
      LoopConfig → NodeResult Outputs → Ctx → Result String (Unit {0}) × Ctx
  before_retry loop_config fix ctx =
      let merged = merge_some fix.outputs ctx in
      if loop_config.agent_node == "fix_ci" || loop_config.agent_node == "fix_browser"
      then (ok tt, merged)
      else lint_fix merged

  -- The run of the agent node in a round.
  unfoldable pub run_fix : LoopConfig → Handler → ℕ → Ctx → NodeResult Outputs × Ctx
  run_fix loop_config agent_handler attempt ctx =
      let node =
        fix_node (loop_config.agent_node ⧺ ("_loop_" ⧺ number_text attempt))
          loop_config.agent_node in
      run_tracked_node agent_handler node (escalated attempt (set_loop_attempt attempt ctx))

  -- A round: whether the failed node now succeeds. `retry_handler` is looked up for each retry; a
  -- node that has failed has a handler.
  unfoldable pub fix_round :
      NodeConfig → LoopConfig → Handler → Handler → ℕ → Ctx → Result String Bool × Ctx
  fix_round failed_node loop_config agent_handler retry_handler attempt ctx =
      let fix = run_fix loop_config agent_handler attempt ctx in
      if not (is_success fix.0.outcome)
      then (ok false, fix.1)
      else (let ready = before_retry loop_config fix.0 fix.1 in
          elim ready.0 [
            | err message ↦ (err message, ready.1)
            | ok t ↦
                let retry = run_tracked_node retry_handler failed_node ready.1 in
                if is_success retry.0.outcome
                then (ok true, merge_some retry.0.outputs retry.1)
                else (ok false, retry_failed failed_node attempt retry.0 retry.1)
          ])

  -- The rounds from `attempt` on, `left` of them.
  unfoldable pub fix_rounds :
      NodeConfig → LoopConfig → Handler → Handler → ℕ → ℕ → Ctx → Result String Bool × Ctx
  fix_rounds failed_node loop_config agent_handler retry_handler attempt zero ctx = (ok false, ctx)
  fix_rounds failed_node loop_config agent_handler retry_handler attempt (suc left) ctx =
      let round = fix_round failed_node loop_config agent_handler retry_handler attempt ctx in
      let rest =
        fix_rounds failed_node loop_config agent_handler retry_handler (suc attempt) left round.1 in
      elim round.0 [
        | err message ↦ (err message, round.1)
        | ok fixed ↦ if fixed then (ok true, round.1) else rest
      ]

  abbrev pub unfixed : OnExhausted → LoopWarning → LoopResult
  unfixed complete_with_warning warning = record {
    outcome = completed_with_warnings;
    warnings = warning ∷ [];
  }
  unfixed fail_run warning = record { outcome = run_failure; warnings = [] }

  -- `err` is the throw of an agent node without a handler, or of the lint handler.
  unfoldable pub handle_loop_failure :
      NodeConfig → LoopConfig → Handler → NodeResult Outputs → Ctx → Result String LoopResult × Ctx
  handle_loop_failure failed_node loop_config retry_handler failed ctx =
      let limit = resolved_max_rounds loop_config ctx in
      let on_exhausted = or_default loop_config.on_exhausted fail_run in
      let code = browser_failure_code ctx in
      if failed_node.action == "browser_verify" && is_non_code_fix_failure code
      then (ok (unfixed on_exhausted (loop_bypassed code)), ctx)
      else elim (handler loop_config.agent_node) [
        | none ↦ (err loop_config.agent_node, ctx)
        | some agent_handler ↦
            let rounds_run =
              fix_rounds failed_node loop_config agent_handler retry_handler 1 limit
                (keep_raw_output failed.raw_output ctx) in
            elim rounds_run.0 [
              | err message ↦ (err message, rounds_run.1)
              | ok fixed ↦
                  if fixed
                  then (ok (record { outcome = run_success; warnings = [] }), rounds_run.1)
                  else (
                    ok (unfixed on_exhausted (loop_exhausted failed_node.id limit)),
                    rounds_run.1,
                  )
            ]
      ]

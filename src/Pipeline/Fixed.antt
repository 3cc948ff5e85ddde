-- ===== src/Pipeline/Fixed.antt =====
-- What the outcome of a fix loop says: a success is a retry of the failed node that succeeded.
use gooseherd.Prelude.{
  ℕ, zero, suc, ◌≡◌, ◌⊎◌, inl, inr, true, ◌&&◌, some, arith, or_default, Bool-cases, Option-cases,
  ◌==◌, String-Eq, Nat-Eq, ok, Result-cases,
}
use gooseherd.Pipeline.Types.{
  NodeConfig, NodeResult, LoopConfig, fail_run, complete_with_warning, PipelineWorld, run_success,
  run_failure, completed_with_warnings, success, NodeOutcome, is_non_code_fix_failure, LoopWarning,
  loop_bypassed, loop_exhausted,
}
use gooseherd.Pipeline.FixLoop.{
  LoopResult, Handler, run_tracked_node, fix_round, fix_rounds, handle_loop_failure, is_success,
  run_fix, before_retry, unfixed, resolved_max_rounds, keep_raw_output,
}

module _ (world : PipelineWorld) where
  open world use {Ctx, Outputs}

  -- Some run of the node, from a context bag, succeeded.
  pub record Succeeds (run : Handler world) (node : NodeConfig) : Type 0 where
    pub from : Ctx
    pub succeeded : (run_tracked_node world run node from).0.outcome ≡ success

  is_success-success : (outcome : NodeOutcome) → is_success outcome ≡ true → outcome ≡ success
  is_success-success outcome h = ground arith

  fix_round-Succeeds :
      (node : NodeConfig) (loop_config : LoopConfig) (agent run : Handler world) (attempt : ℕ)
      (ctx : Ctx)
      → (fix_round world node loop_config agent run attempt ctx).0 ≡ ok true
      → Succeeds run node
  unfolding fix_round
  fix_round-Succeeds node loop_config agent run attempt ctx fixed =
      let fix = run_fix world loop_config agent attempt ctx in
      let from = (before_retry world loop_config fix.0 fix.1).1 in
      record {
        from = from;
        succeeded =
            is_success-success (run_tracked_node world run node from).0.outcome (ground arith);
      }

  fix_rounds-Succeeds :
      (node : NodeConfig) (loop_config : LoopConfig) (agent run : Handler world) (attempt left : ℕ)
      (ctx : Ctx)
      → (fix_rounds world node loop_config agent run attempt left ctx).0 ≡ ok true
      → Succeeds run node
  unfolding fix_rounds
  fix_rounds-Succeeds node loop_config agent run attempt zero ctx fixed = ground arith
  fix_rounds-Succeeds node loop_config agent run attempt (suc left) ctx fixed =
      let round = fix_round world node loop_config agent run attempt ctx in
      elim (Result-cases round.0) [
        | inr (message, threw) ↦ absurd (ground (arith, threw))
        | inl (b, ended) ↦ elim (Bool-cases b) [
          | inl done ↦
              fix_round-Succeeds node loop_config agent run attempt ctx
                (ground (arith, ended, done))
          | inr more ↦
              fix_rounds-Succeeds node loop_config agent run (suc attempt) left round.1
                (ground (arith, ended, more))
        ]
      ]

  abbrev IsUnfixed : LoopConfig → LoopResult → Type 0
  IsUnfixed loop_config result =
      ((result.outcome ≡ completed_with_warnings)
        × (loop_config.on_exhausted ≡ some complete_with_warning))
      ⊎ ((result.outcome ≡ run_failure) × (or_default loop_config.on_exhausted fail_run ≡ fail_run))

  unfixed-IsUnfixed :
      (loop_config : LoopConfig) (warning : LoopWarning) (result : LoopResult)
      → unfixed world (or_default loop_config.on_exhausted fail_run) warning ≡ result
      → IsUnfixed loop_config result
  unfixed-IsUnfixed loop_config warning result at = elim (Option-cases loop_config.on_exhausted) [
    | inl default ↦ inr (ground (arith, at, default), ground (arith, default))
    | inr (fail_run, set) ↦ inr (ground (arith, at, set), ground (arith, set))
    | inr (complete_with_warning, set) ↦ inl (ground (arith, at, set), set)
  ]

  -- The three ways in which a fix loop ends without a throw: the failed node has succeeded in a
  -- retry, or the loop has not fixed it and the configuration asks for a warning, or for a failure,
  -- which is the default.
  pub handle_loop_failure-outcome :
      (node : NodeConfig) (loop_config : LoopConfig) (run : Handler world)
      (failed : NodeResult Outputs) (ctx : Ctx) (result : LoopResult)
      → (handle_loop_failure world node loop_config run failed ctx).0 ≡ ok result
      → ((result.outcome ≡ run_success) × Succeeds run node) ⊎ IsUnfixed loop_config result
  unfolding handle_loop_failure
  handle_loop_failure-outcome node loop_config run failed ctx result ended =
      let code = world.browser_failure_code ctx in
      let limit = resolved_max_rounds world loop_config ctx in
      let start = keep_raw_output world failed.raw_output ctx in
      elim (Bool-cases (node.action == "browser_verify" && is_non_code_fix_failure code)) [
        | inl bypassed ↦
            inr
              (unfixed-IsUnfixed loop_config (loop_bypassed code) result (ground (arith, bypassed)))
        | inr loops ↦ elim (Option-cases (world.handler loop_config.agent_node)) [
          | inl missing ↦ ground (arith, loops, missing)
          | inr (agent, found) ↦
              elim (Result-cases (fix_rounds world node loop_config agent run 1 limit start).0) [
                | inr (message, threw) ↦ absurd (ground (arith, loops, found, threw))
                | inl (b, over) ↦ elim (Bool-cases b) [
                  | inl fixed ↦ inl (
                    ground (arith, loops, found, over, fixed),
                    fix_rounds-Succeeds node loop_config agent run 1 limit start
                        (ground (arith, over, fixed)),
                  )
                  | inr exhausted ↦ inr (
                      unfixed-IsUnfixed loop_config (loop_exhausted node.id limit) result
                        (ground (arith, loops, found, over, exhausted)))
                ]
              ]
        ]
      ]

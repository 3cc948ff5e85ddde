-- ===== src/Pipeline/Engine.antt =====
-- src/pipeline/pipeline-engine.ts: `executePipeline`. The log, the events and the record of token
-- usage are left out.
use gooseherd.Prelude.{
  ℕ, suc, String, Bool, false, ◌&&◌, ◌||◌, not, Option, none, some, List, [], ◌∷◌, ◌++◌, leb,
  if◌then◌else◌, or_default, ◌==◌, String-Eq, Nat-Eq, includes, add_all, Result, ok, err,
}
use gooseherd.Pipeline.FixLoop.{Handler, run_tracked_node, LoopResult, handle_loop_failure}
use gooseherd.Pipeline.Types.{
  NodeConfig, NodeResult, PipelineWorld, run_success, run_failure, completed_with_warnings,
  NodeOutcome, success, failure, skipped, soft_fail, PipelineStepResult, Warning, loop_warned,
  soft_failed, fail_run_on_soft_fail,
}

abbrev pub max_gotos : ℕ
max_gotos = 10

abbrev pub step : String → NodeOutcome → Option String → PipelineStepResult
step node_id outcome error = record { node_id = node_id; outcome = outcome; error = error }

-- `pipeline.nodes` from the first node with this identifier on, where there is one.
unfoldable pub nodes_from : String → List NodeConfig → List NodeConfig
nodes_from target [] = []
nodes_from target (node ∷ nodes) =
    let later = nodes_from target nodes in if node.id == target then node ∷ nodes else later

module _ (world : PipelineWorld) where
  open world use {
    Ctx, Outputs, handler, merge_outputs, skip_nodes, goto_target, should_run_node, aborted,
    has_sandbox,
  }

  -- The variables of the loop, with the context bag.
  pub record Progress : Type 0 where
    pub ctx : Ctx
    pub steps : List PipelineStepResult
    pub warnings : List Warning
    pub skip_node_ids : List String
    pub goto_count : ℕ

  -- How the loop goes on after a node.
  pub data Visit : Type 0 where
    next_node : Progress → Visit
    jumped : List NodeConfig → Progress → Visit
    entered_sandbox : Progress → Visit
    failed_run : Progress → Visit
    threw : String → Ctx → Visit

  abbrev pub push : PipelineStepResult → Progress → Progress
  push s p = record p { steps = p.steps ++ s ∷ [] }

  abbrev pub warned : Warning → Progress → Progress
  warned w p = record p { warnings = p.warnings ++ w ∷ [] }

  -- The guards ahead of a node: `skipNodeIds`, `enabled` and `if`.
  unfoldable pub is_skipped : List String → NodeConfig → Progress → Bool
  is_skipped enable_node_ids node p =
      includes node.id p.skip_node_ids
      || (elim node.enabled [ some false ↦ not (includes node.id enable_node_ids) | e ↦ false ]
          || elim node.condition [ none ↦ false | some c ↦ not (should_run_node c p.ctx) ])

  -- The outputs of a node are merged and its dynamic skips added, where it has outputs.
  abbrev pub with_outputs : Option Outputs → Progress → Progress
  with_outputs none p = p
  with_outputs (some outputs) p = record p {
    ctx = merge_outputs outputs p.ctx;
    skip_node_ids = add_all p.skip_node_ids (skip_nodes outputs);
  }

  -- The nodes that a result jumps to: a failure never jumps, nor does an unknown target.
  unfoldable pub jump_target : List NodeConfig → NodeResult Outputs → List NodeConfig
  unfolding nodes_from
  jump_target nodes result = elim result.outputs [
    | none ↦ []
    | some outputs ↦ elim (goto_target outputs) [
      | none ↦ []
      | some target ↦ elim result.outcome [ failure ↦ [] | outcome ↦ nodes_from target nodes ]
    ]
  ]

  -- The fix loop behind a failed node.
  unfoldable pub after_loop :
      NodeConfig → NodeResult Outputs → Progress → Result String LoopResult × Ctx → Visit
  after_loop node result p looped =
      let q : Progress = record p { ctx = looped.1 } in
      elim looped.0 [
        | err message ↦ threw message looped.1
        | ok loop_result ↦ elim loop_result.outcome [
          | run_success ↦ next_node (push (step node.id success none) q)
          | completed_with_warnings ↦ next_node (
              push (step node.id success none)
                (warned (loop_warned node.id loop_result.warnings) q))
          | run_failure ↦
              failed_run
                (push (step node.id failure (some (or_default result.error "Loop exhausted"))) q)
        ]
      ]

  unfoldable pub after_soft_fail : NodeConfig → NodeResult Outputs → Progress → Visit
  after_soft_fail node result p = elim node.on_soft_fail [
    | some fail_run_on_soft_fail ↦ failed_run (push (step node.id failure result.error) p)
    | other ↦
        next_node (push (step node.id success none) (warned (soft_failed node.id result.error) p))
  ]

  -- A node that succeeded, or that its handler skipped; `deferred` is whether `sandboxRef` is given.
  unfoldable pub after_success : Bool → NodeConfig → NodeOutcome → Progress → Visit
  after_success deferred node outcome p =
      let q = push (step node.id outcome none) p in
      elim outcome [
        | success ↦
            if node.action == "setup_sandbox" && (deferred && has_sandbox p.ctx)
            then entered_sandbox q
            else next_node q
        | other ↦ next_node q
      ]

  unfoldable pub after_node :
      Bool → NodeConfig → Handler world → NodeResult Outputs → Progress → Visit
  after_node deferred node run result p = elim result.outcome [
    | failure ↦ elim node.on_failure [
      | none ↦ failed_run (push (step node.id failure result.error) p)
      | some loop_config ↦
          after_loop node result p (handle_loop_failure world node loop_config run result p.ctx)
    ]
    | soft_fail ↦ after_soft_fail node result p
    | success ↦ after_success deferred node success p
    | skipped ↦ after_success deferred node skipped p
  ]

  -- The handler of the node has returned.
  unfoldable pub after_run :
      Bool → List NodeConfig → NodeConfig → Handler world → NodeResult Outputs → Progress → Visit
  after_run deferred nodes node run result p =
      let q = with_outputs result.outputs p in
      elim (jump_target nodes result) [
        | [] ↦ after_node deferred node run result q
        | target ∷ later ↦
            let counted : Progress = record q { goto_count = suc q.goto_count } in
            if leb counted.goto_count max_gotos
            then jumped (target ∷ later) (push (step node.id result.outcome none) counted)
            else after_node deferred node run result counted
      ]

  -- One turn of the loop.
  unfoldable pub visit : Bool → List NodeConfig → List String → NodeConfig → Progress → Visit
  visit deferred nodes enable_node_ids node p =
      if aborted p.ctx
      then failed_run (push (step "cancelled" failure (some "Run cancelled")) p)
      else if is_skipped enable_node_ids node p
      then next_node (push (step node.id skipped none) p)
      else elim (handler node.action) [
        | none ↦ threw node.action p.ctx
        | some run ↦
            let ran = run_tracked_node world run node p.ctx in
            after_run deferred nodes node run ran.0 (record p { ctx = ran.1 })
      ]

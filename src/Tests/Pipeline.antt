-- ===== src/Tests/Pipeline.antt =====
-- The pipeline engine on four nodes. The context bag is the number of fixes so far: the validation
-- succeeds after two of them.
use gooseherd.Prelude.{
  ℕ, suc, String, ◌≡◌, refl, ◌⊎◌, true, false, Option, none, some, List, [], ◌∷◌, leb,
  if◌then◌else◌, or_default, ◌==◌, String-Eq, Nat-Eq, includes, add, add_all, Result, ok,
}
use gooseherd.Pipeline.Types.{
  NodeConfig, NodeResult, LoopConfig, rounds, PipelineWorld, success, failure, simple, fail_run,
  run_success, NodeOutcome, run_failure, completed_with_warnings, complete_with_warning,
  PipelineStepResult, is_non_code_fix_failure, escalate_mode,
}
use gooseherd.Pipeline.FixLoop.{
  LoopResult, handle_loop_failure, resolved_max_rounds, fix_rounds, fix_round, run_fix,
  run_tracked_node, before_retry, retry_failed, escalated,
}
use gooseherd.Pipeline.Engine.{
  Progress, visit, is_skipped, after_run, after_node, after_loop, after_soft_fail, after_success,
  jump_target, nodes_from, step,
}
use gooseherd.Pipeline.Run.{
  execute_pipeline, execute_inside, run_jumps, run_nodes, after_visit, with_nested,
}
use gooseherd.Pipeline.Fixed.{Succeeds, handle_loop_failure-outcome}
use gooseherd.Pipeline.Skips.Runs.{skips_only, execute_pipeline-skips_only}
use gooseherd.Pipeline.Outcome.{is_settled, execute_pipeline-is_settled}

abbrev answers : NodeOutcome → NodeResult (List String × Option String)
answers outcome = record { outcome = outcome; outputs = none; error = none; raw_output = none }

abbrev validate : NodeConfig → ℕ → Result String (NodeResult (List String × Option String)) × ℕ
validate node fixes = (ok (answers (if leb 2 fixes then success else failure)), fixes)

abbrev world : PipelineWorld
world = record {
  Ctx = ℕ;
  Outputs = List String × Option String;
  handler = λ action.
      if action == "validate"
      then some validate
      else if action == "fix"
      then some (λ node fixes. (ok (answers success), suc fixes))
      else if action == "plan"
      then some (λ node fixes. (
        ok (record {
          outcome = success;
          outputs = some ("lint" ∷ [], some "implement");
          error = none;
          raw_output = none;
        }),
        fixes,
      ))
      else if action == "setup_sandbox"
      then some (λ node fixes. (ok (answers success), fixes))
      else if action == "implement"
      then some (λ node fixes. (ok (answers success), fixes))
      else none;
  merge_outputs = λ outputs fixes. fixes;
  skip_nodes = λ outputs. outputs.0;
  goto_target = λ outputs. outputs.1;
  should_run_node = λ condition fixes. true;
  aborted = λ fixes. false;
  has_sandbox = λ fixes. true;
  number_at = λ path fixes. none;
  number_text = λ n. "n";
  browser_failure_code = λ fixes. none;
  execution_mode = λ fixes. some simple;
  set_execution_mode = λ mode fixes. fixes;
  set_loop_attempt = λ attempt fixes. fixes;
  set_last_failure_raw_output = λ text fixes. fixes;
  append_browser_failure = λ attempt result fixes. fixes;
  lint_fix = λ fixes. (ok tt, fixes);
}

abbrev fixing : LoopConfig
fixing = record {
  agent_node = "fix";
  max_rounds = rounds 3;
  on_exhausted = some complete_with_warning;
}

abbrev plain : String → NodeConfig
plain name = record {
  id = name;
  action = name;
  condition = none;
  enabled = none;
  on_failure = none;
  on_soft_fail = none;
}

abbrev validating : NodeConfig
validating = record (plain "validate") { on_failure = some fixing }

abbrev nodes : List NodeConfig
nodes = plain "setup_sandbox" ∷ plain "plan" ∷ plain "lint" ∷ plain "implement" ∷ validating ∷ []

abbrev start : Progress world
start = record { ctx = 0; steps = []; warnings = []; skip_node_ids = []; goto_count = 0 }

abbrev fixed_result : LoopResult
fixed_result = record { outcome = run_success; warnings = [] }

loop_runs :
    (handle_loop_failure world validating fixing validate (answers failure) 0).0 ≡ ok fixed_result
unfolding handle_loop_failure resolved_max_rounds fix_rounds fix_round run_fix run_tracked_node
    before_retry retry_failed escalated escalate_mode is_non_code_fix_failure
loop_runs = refl

handle_loop_failure-outcome_example :
    ((fixed_result.outcome ≡ run_success) × Succeeds world validate validating)
    ⊎ (((fixed_result.outcome ≡ completed_with_warnings)
          × (fixing.on_exhausted ≡ some complete_with_warning))
        ⊎ ((fixed_result.outcome ≡ run_failure)
            × (or_default fixing.on_exhausted fail_run ≡ fail_run)))
handle_loop_failure-outcome_example =
    handle_loop_failure-outcome world validating fixing validate (answers failure) 0 fixed_result
      loop_runs

execute_pipeline-is_settled_example :
    is_settled world nodes [] (execute_pipeline world nodes [] true nodes start) ≡ true
execute_pipeline-is_settled_example =
    execute_pipeline-is_settled world nodes [] true nodes start refl refl

-- The steps of the run: the jump of the plan leaves the linting out.
abbrev run_steps : List PipelineStepResult
run_steps =
    step "setup_sandbox" success none
    ∷ step "plan" success none
    ∷ step "implement" success none
    ∷ step "validate" success none
    ∷ []

pipeline_runs :
    execute_pipeline world nodes [] true nodes start
    ≡ some (ok (record { outcome = run_success; steps = run_steps; warnings = [] }), 2)
unfolding execute_pipeline execute_inside run_jumps run_nodes after_visit with_nested visit
    is_skipped after_run after_node after_loop after_soft_fail after_success jump_target nodes_from
    includes add_all add handle_loop_failure resolved_max_rounds fix_rounds fix_round run_fix
    run_tracked_node before_retry retry_failed escalated escalate_mode is_non_code_fix_failure
pipeline_runs = refl

abbrev without_lint : Progress world
without_lint = record start { skip_node_ids = "lint" ∷ [] }

in_set : includes "lint" without_lint.skip_node_ids ≡ true
unfolding includes
in_set = refl

execute_pipeline-skips_only_example :
    skips_only world nodes [] "lint" refl (execute_pipeline world nodes [] true nodes without_lint)
    ≡ true
execute_pipeline-skips_only_example =
    execute_pipeline-skips_only world nodes [] "lint" refl true nodes without_lint refl in_set

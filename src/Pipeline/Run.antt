-- ===== src/Pipeline/Run.antt =====
-- src/pipeline/pipeline-engine.ts: the loop of `executePipeline` over the turns of Engine, and the
-- nested call behind a sandbox.
use gooseherd.Prelude.{
  ℕ, zero, suc, String, Bool, true, false, Option, none, some, List, [], ◌∷◌, ◌++◌, if◌then◌else◌,
  String-Eq, Nat-Eq, is_empty, Result, ok, err, map_option,
}
use gooseherd.Pipeline.Types.{
  NodeConfig, PipelineWorld, PipelineOutcome, run_success, run_failure, completed_with_warnings,
  PipelineStepResult, Warning,
}
use gooseherd.Pipeline.Engine.{
  Progress, Visit, next_node, jumped, entered_sandbox, failed_run, threw, visit, max_gotos,
}

pub record PipelineResult : Type 0 where
  pub outcome : PipelineOutcome
  pub steps : List PipelineStepResult
  pub warnings : List Warning

module _ (world : PipelineWorld) (nodes : List NodeConfig) (enable_node_ids : List String) where
  open world use {Ctx}

  abbrev pub Ran : Type 0
  Ran = Result String PipelineResult × Ctx

  abbrev pub ended : PipelineOutcome → Progress world → Ran
  ended outcome p =
      (ok (record { outcome = outcome; steps = p.steps; warnings = p.warnings }), p.ctx)

  abbrev pub final_outcome : List Warning → PipelineOutcome
  final_outcome warnings = if is_empty warnings then run_success else completed_with_warnings

  -- What the nested call in the sandbox starts from: the set of skipped nodes is shared.
  abbrev pub nested_start : Progress world → Progress world
  nested_start p = record p { steps = []; warnings = []; goto_count = 0 }

  -- The result of the nested call, behind the steps and warnings so far.
  unfoldable pub with_nested : Progress world → Ran → Ran
  with_nested p ran = elim ran.0 [
    | err message ↦ ran
    | ok nested ↦ (
      ok (record {
        outcome = nested.outcome;
        steps = p.steps ++ nested.steps;
        warnings = p.warnings ++ nested.warnings;
      }),
      ran.1,
    )
  ]

  -- What follows a jump and a sandbox; `none` is out of fuel.
  abbrev pub Continue : Type 0
  Continue = List NodeConfig → Progress world → Option Ran

  -- How the loop goes on; `later` is its next turn.
  unfoldable pub after_visit :
      (Progress world → Option Ran)
      → Continue
      → Continue
      → List NodeConfig
      → Visit world
      → Option Ran
  after_visit later jump sandbox rest (next_node q) = later q
  after_visit later jump sandbox rest (jumped target q) = jump target q
  after_visit later jump sandbox rest (entered_sandbox q) =
      map_option (with_nested q) (sandbox rest (nested_start q))
  after_visit later jump sandbox rest (failed_run q) = some (ended run_failure q)
  after_visit later jump sandbox rest (threw message ctx) = some (err message, ctx)

  unfoldable pub run_nodes : Bool → Continue → Continue → Continue
  run_nodes deferred jump sandbox [] p = some (ended (final_outcome p.warnings) p)
  run_nodes deferred jump sandbox (node ∷ rest) p =
      after_visit (λ q. run_nodes deferred jump sandbox rest q) jump sandbox rest
        (visit world deferred nodes enable_node_ids node p)

  -- The fuel counts the jumps: `max_gotos` is enough.
  unfoldable pub run_jumps : Bool → Continue → ℕ → Continue
  run_jumps deferred sandbox zero rest p = run_nodes deferred (λ target q. none) sandbox rest p
  run_jumps deferred sandbox (suc fuel) rest p =
      run_nodes deferred (run_jumps deferred sandbox fuel) sandbox rest p

  -- A call of `executePipeline` without `sandboxRef`, and one with it.
  unfoldable pub execute_inside : Continue
  execute_inside rest p = run_jumps false (λ later q. none) max_gotos rest p

  unfoldable pub execute_pipeline : Bool → Continue
  execute_pipeline false rest p = execute_inside rest p
  execute_pipeline true rest p = run_jumps true execute_inside max_gotos rest p

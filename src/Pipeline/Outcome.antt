-- ===== src/Pipeline/Outcome.antt =====
-- How a run of a pipeline ends: always, and with a failure as its last step or with none.
use gooseherd.Prelude.{
  ℕ, zero, suc, ◌+◌, ◌≤◌, ◌<◌, String, ◌≡◌, refl, Bool, true, false, Option, none, some, List, [],
  ◌∷◌, arith, String-Eq, Nat-Eq, ok, err, map_option,
}
use gooseherd.Pipeline.Types.{NodeConfig, PipelineWorld, run_failure}
use gooseherd.Pipeline.Engine.{
  Progress, Visit, next_node, jumped, entered_sandbox, failed_run, threw, visit, max_gotos,
}
use gooseherd.Pipeline.Run.{
  PipelineResult, Ran, Continue, after_visit, run_nodes, run_jumps, execute_inside,
  execute_pipeline, ended, final_outcome, with_nested, nested_start,
}
use gooseherd.Pipeline.Visits.{
  has_no_failure, ends_in_failure, ends_in_failure-after, has_no_failure-append, is_sound,
  visit-is_sound,
}

-- The outcome says whether the last step is a failure; no other step is.
unfoldable pub is_honest : PipelineResult → Bool
is_honest result = elim result.outcome [
  | run_failure ↦ ends_in_failure result.steps
  | outcome ↦ has_no_failure result.steps
]

module _ (world : PipelineWorld) (nodes : List NodeConfig) (enable_node_ids : List String) where
  -- The run returns, and its result is honest, or it throws.
  unfoldable pub is_settled : Option (Ran world nodes enable_node_ids) → Bool
  unfolding is_honest
  is_settled none = false
  is_settled (some (err message, ctx)) = true
  is_settled (some (ok result, ctx)) = is_honest result

  ended-is_settled :
      (p : Progress world)
      → has_no_failure p.steps ≡ true
      → is_settled (
          some (
            ended world nodes enable_node_ids
              (final_outcome world nodes enable_node_ids p.warnings)
              p))
        ≡ true
  unfolding is_settled
  ended-is_settled p clean = ground arith

  with_nested-is_settled :
      (p : Progress world) (nested : Option (Ran world nodes enable_node_ids))
      → has_no_failure p.steps ≡ true
      → is_settled nested ≡ true
      → is_settled (map_option (with_nested world nodes enable_node_ids p) nested) ≡ true
  unfolding with_nested is_settled
  with_nested-is_settled p none clean settled = settled
  with_nested-is_settled p (some (err message, ctx)) clean settled = refl
  with_nested-is_settled p (some (ok result, ctx)) clean settled = ground (
    arith,
    has_no_failure-append p.steps result.steps,
    ends_in_failure-after p.steps result.steps clean,
  )

  module _ (deferred : Bool) (fuel : ℕ) (jump sandbox : Continue world nodes enable_node_ids)
      (jump-is_settled : (rest : List NodeConfig) (q : Progress world)
        → has_no_failure q.steps ≡ true
        → q.goto_count ≤ max_gotos
        → max_gotos < fuel + q.goto_count
        → is_settled (jump rest q) ≡ true)
      (sandbox-is_settled : (rest : List NodeConfig) (q : Progress world)
        → deferred ≡ true
        → has_no_failure q.steps ≡ true
        → q.goto_count ≡ 0
        → is_settled (sandbox rest q) ≡ true) where
    after_visit-is_settled :
        (later : Progress world → Option (Ran world nodes enable_node_ids)) (rest : List NodeConfig)
        (p : Progress world) (v : Visit world)
        → max_gotos ≤ fuel + p.goto_count
        → ((q : Progress world)
            → has_no_failure q.steps ≡ true
            → max_gotos ≤ fuel + q.goto_count
            → is_settled (later q) ≡ true)
        → is_sound world deferred p.goto_count v ≡ true
        → is_settled (after_visit world nodes enable_node_ids later jump sandbox rest v) ≡ true
    unfolding after_visit is_sound
    after_visit-is_settled later rest p (next_node q) enough settled sound =
        settled q (ground arith) (ground arith)
    after_visit-is_settled later rest p (jumped target q) enough settled sound =
        jump-is_settled target q (ground arith) (ground arith) (ground arith)
    after_visit-is_settled later rest p (entered_sandbox q) enough settled sound =
        with_nested-is_settled q (sandbox rest (nested_start world nodes enable_node_ids q))
          (ground arith)
          (sandbox-is_settled rest (nested_start world nodes enable_node_ids q) (ground arith) refl
            refl)
    after_visit-is_settled later rest p (failed_run q) enough settled sound =
        unfold is_settled in sound
    after_visit-is_settled later rest p (threw message ctx) enough settled sound =
        unfold is_settled in refl

    run_nodes-is_settled :
        (rest : List NodeConfig) (p : Progress world)
        → has_no_failure p.steps ≡ true
        → max_gotos ≤ fuel + p.goto_count
        → is_settled (run_nodes world nodes enable_node_ids deferred jump sandbox rest p) ≡ true
    unfolding run_nodes
    run_nodes-is_settled [] p clean enough = ended-is_settled p clean
    run_nodes-is_settled (node ∷ rest) p clean enough =
        after_visit-is_settled
          (λ q. run_nodes world nodes enable_node_ids deferred jump sandbox rest q) rest p
          (visit world deferred nodes enable_node_ids node p) enough
          (λ q clean' enough'. run_nodes-is_settled rest q clean' enough')
          (visit-is_sound world deferred nodes enable_node_ids node p clean)

  run_jumps-is_settled :
      (deferred : Bool) (sandbox : Continue world nodes enable_node_ids)
      → ((rest : List NodeConfig) (q : Progress world)
          → deferred ≡ true
          → has_no_failure q.steps ≡ true
          → q.goto_count ≡ 0
          → is_settled (sandbox rest q) ≡ true)
      → (fuel : ℕ) (rest : List NodeConfig) (p : Progress world) → has_no_failure p.steps ≡ true
      → max_gotos ≤ fuel + p.goto_count
      → is_settled (run_jumps world nodes enable_node_ids deferred sandbox fuel rest p) ≡ true
  unfolding run_jumps
  run_jumps-is_settled deferred sandbox nested zero rest p clean enough =
      run_nodes-is_settled deferred zero (λ target q. none) sandbox
        (λ later q clean' few many. ground arith) nested rest p clean enough
  run_jumps-is_settled deferred sandbox nested (suc fuel) rest p clean enough =
      run_nodes-is_settled deferred (suc fuel)
        (run_jumps world nodes enable_node_ids deferred sandbox fuel) sandbox
        (λ later q clean' few many.
          run_jumps-is_settled deferred sandbox nested fuel later q clean' (ground arith))
        nested rest p clean enough

  inside-is_settled :
      (rest : List NodeConfig) (p : Progress world)
      → has_no_failure p.steps ≡ true
      → p.goto_count ≡ 0
      → is_settled (execute_inside world nodes enable_node_ids rest p) ≡ true
  unfolding execute_inside
  inside-is_settled rest p clean fresh =
      run_jumps-is_settled false (λ later q. none) (λ later q never clean' fresh'. ground arith)
        max_gotos rest p clean (ground arith)

  -- From a start without steps or jumps, `executePipeline` returns or throws, with and without a
  -- deferred sandbox: the fuel of ten jumps is enough. Where it returns a failure, the last step is a
  -- failure and no step before it is; where it returns another outcome, no step is a failure.
  pub execute_pipeline-is_settled :
      (deferred : Bool) (rest : List NodeConfig) (p : Progress world)
      → p.steps ≡ []
      → p.goto_count ≡ 0
      → is_settled (execute_pipeline world nodes enable_node_ids deferred rest p) ≡ true
  unfolding execute_pipeline
  execute_pipeline-is_settled false rest p none_yet fresh =
      inside-is_settled rest p (rw none_yet refl) fresh
  execute_pipeline-is_settled true rest p none_yet fresh =
      run_jumps-is_settled true (execute_inside world nodes enable_node_ids)
        (λ later q _ clean fresh'. inside-is_settled later q clean fresh') max_gotos rest p
        (rw none_yet refl) (ground arith)

-- ===== src/Pipeline/Visits.antt =====
-- What one turn of the pipeline's loop keeps: no step is a failure unless the run ends with it.
use gooseherd.Prelude.{
  ℕ, suc, ◌≤◌, String, ◌≡◌, refl, inl, inr, Bool, true, false, ◌&&◌, not, Option, none, some, List,
  [], ◌∷◌, ◌++◌, arith, leb, nat_eq, or_default, Option-cases, List-cases, String-Eq, Nat-Eq, every,
  every-append, Result,
}
use gooseherd.Pipeline.Types.{
  NodeConfig, NodeResult, PipelineWorld, NodeOutcome, success, failure, PipelineStepResult, skipped,
}
use gooseherd.Pipeline.FixLoop.{LoopResult, Handler, handle_loop_failure, run_tracked_node}
use gooseherd.Pipeline.Engine.{
  Progress, Visit, next_node, jumped, entered_sandbox, failed_run, threw, max_gotos, after_loop,
  after_soft_fail, after_success, step, after_node, with_outputs, jump_target, after_run, visit,
}

abbrev pub is_failed : NodeOutcome → Bool
is_failed failure = true
is_failed outcome = false

abbrev pub is_failure : PipelineStepResult → Bool
is_failure s = is_failed s.outcome

abbrev pub has_no_failure : List PipelineStepResult → Bool
has_no_failure steps = every (λ s. not (is_failure s)) steps

-- The last step is a failure, and the only one.
unfoldable pub ends_in_failure : List PipelineStepResult → Bool
ends_in_failure [] = false
ends_in_failure (s ∷ []) = is_failure s
ends_in_failure (s ∷ t ∷ steps) = not (is_failure s) && ends_in_failure (t ∷ steps)

pub has_no_failure-append :
    (xs ys : List PipelineStepResult)
    → has_no_failure (xs ++ ys) ≡ (has_no_failure xs && has_no_failure ys)
has_no_failure-append xs ys = every-append (λ s. not (is_failure s)) xs ys

pub ends_in_failure-append :
    (xs : List PipelineStepResult) (y : PipelineStepResult) (ys : List PipelineStepResult)
    → has_no_failure xs ≡ true
    → ends_in_failure (xs ++ y ∷ ys) ≡ ends_in_failure (y ∷ ys)
unfolding ends_in_failure
ends_in_failure-append [] y ys clean = refl
ends_in_failure-append (x ∷ []) y ys clean = ground arith
ends_in_failure-append (x ∷ x' ∷ xs) y ys clean =
    ground (arith, ends_in_failure-append (x' ∷ xs) y ys)

pub ends_in_failure-after :
    (xs ys : List PipelineStepResult)
    → has_no_failure xs ≡ true
    → ends_in_failure ys ≡ true
    → ends_in_failure (xs ++ ys) ≡ true
unfolding ends_in_failure
ends_in_failure-after xs [] clean fails = ground arith
ends_in_failure-after xs (y ∷ ys) clean fails = rw (ends_in_failure-append xs y ys clean) fails

module _ (world : PipelineWorld) where
  open world use {Ctx, Outputs}

  -- A turn after `gotos` jumps, from steps without a failure.
  unfoldable pub is_sound : Bool → ℕ → Visit world → Bool
  is_sound deferred gotos (next_node q) = has_no_failure q.steps && leb gotos q.goto_count
  is_sound deferred gotos (jumped target q) =
      has_no_failure q.steps && (nat_eq q.goto_count (suc gotos) && leb q.goto_count max_gotos)
  is_sound deferred gotos (entered_sandbox q) = deferred && has_no_failure q.steps
  is_sound deferred gotos (failed_run q) = ends_in_failure q.steps
  is_sound deferred gotos (threw message ctx) = true

  module _ (p : Progress world) (clean : has_no_failure p.steps ≡ true) where
    clean_pushed :
        (s : PipelineStepResult) → has_no_failure (p.steps ++ s ∷ []) ≡ not (is_failure s)
    clean_pushed s = ground (arith, has_no_failure-append p.steps (s ∷ []))

    failed_pushed : (s : PipelineStepResult) → ends_in_failure (p.steps ++ s ∷ []) ≡ is_failure s
    unfolding ends_in_failure
    failed_pushed s = ends_in_failure-append p.steps s [] clean

    after_success-is_sound :
        (deferred : Bool) (gotos : ℕ) (node : NodeConfig) (outcome : NodeOutcome)
        → is_failure (step node.id outcome none) ≡ false
        → gotos ≤ p.goto_count
        → is_sound deferred gotos (after_success world deferred node outcome p) ≡ true
    unfolding after_success is_sound
    after_success-is_sound deferred gotos node outcome fine counted =
        ground (arith, clean_pushed (step node.id outcome none))

    after_soft_fail-is_sound :
        (deferred : Bool) (gotos : ℕ) (node : NodeConfig) (result : NodeResult Outputs)
        → gotos ≤ p.goto_count
        → is_sound deferred gotos (after_soft_fail world node result p) ≡ true
    unfolding after_soft_fail is_sound
    after_soft_fail-is_sound deferred gotos node result counted = ground (
      arith,
      clean_pushed (step node.id success none),
      failed_pushed (step node.id failure result.error),
    )

    after_loop-is_sound :
        (deferred : Bool) (gotos : ℕ) (node : NodeConfig) (result : NodeResult Outputs)
        (looped : Result String LoopResult × Ctx)
        → gotos ≤ p.goto_count
        → is_sound deferred gotos (after_loop world node result p looped) ≡ true
    unfolding after_loop is_sound
    after_loop-is_sound deferred gotos node result looped counted = ground (
      arith,
      clean_pushed (step node.id success none),
      failed_pushed (step node.id failure (some (or_default result.error "Loop exhausted"))),
    )

    after_node-is_sound :
        (deferred : Bool) (gotos : ℕ) (node : NodeConfig) (run : Handler world)
        (result : NodeResult Outputs)
        → gotos ≤ p.goto_count
        → is_sound deferred gotos (after_node world deferred node run result p) ≡ true
    unfolding after_node is_sound
    after_node-is_sound deferred gotos node run result counted =
        elim (Option-cases node.on_failure) [
          | inl without ↦ ground (
            arith,
            after_soft_fail-is_sound deferred gotos node result counted,
            after_success-is_sound deferred gotos node success refl counted,
            after_success-is_sound deferred gotos node skipped refl counted,
            failed_pushed (step node.id failure result.error),
          )
          | inr (loop_config, at) ↦ ground (
            arith,
            after_soft_fail-is_sound deferred gotos node result counted,
            after_success-is_sound deferred gotos node success refl counted,
            after_success-is_sound deferred gotos node skipped refl counted,
            after_loop-is_sound deferred gotos node result
                (handle_loop_failure world node loop_config run result p.ctx) counted,
          )
        ]

  with_outputs_kept :
      (outputs : Option Outputs) (p : Progress world)
      → ((with_outputs world outputs p).steps ≡ p.steps)
        × ((with_outputs world outputs p).goto_count ≡ p.goto_count)
  with_outputs_kept none p = (refl, refl)
  with_outputs_kept (some outputs) p = (refl, refl)

  -- A node that jumps has not failed.
  jump_target-outcome :
      (nodes : List NodeConfig) (result : NodeResult Outputs) (target : NodeConfig)
      (later : List NodeConfig)
      → jump_target world nodes result ≡ target ∷ later
      → is_failed result.outcome ≡ false
  unfolding jump_target
  jump_target-outcome nodes result target later jumps = ground arith

  after_run-is_sound :
      (deferred : Bool) (nodes : List NodeConfig) (node : NodeConfig) (run : Handler world)
      (result : NodeResult Outputs) (p : Progress world)
      → has_no_failure p.steps ≡ true
      → is_sound deferred p.goto_count (after_run world deferred nodes node run result p) ≡ true
  unfolding after_run is_sound
  after_run-is_sound deferred nodes node run result p clean =
      let q = with_outputs world result.outputs p in
      let kept = with_outputs_kept result.outputs p in
      let clean' : has_no_failure q.steps ≡ true = rw kept.0 clean in
      let counted : Progress world = record q { goto_count = suc q.goto_count } in
      elim (List-cases (jump_target world nodes result)) [
        | inl stays ↦
            rw (stays, after_run)
              (after_node-is_sound q clean' deferred p.goto_count node run result
                (ground (arith, kept.1)))
        | inr (target, (later, jumps)) ↦ ground (
          arith,
          jumps,
          kept.1,
          jump_target-outcome nodes result target later jumps,
          clean_pushed q clean' (step node.id result.outcome none),
          after_node-is_sound counted clean' deferred p.goto_count node run result
              (ground (arith, kept.1)),
        )
      ]

  pub visit-is_sound :
      (deferred : Bool) (nodes : List NodeConfig) (enable_node_ids : List String)
      (node : NodeConfig) (p : Progress world)
      → has_no_failure p.steps ≡ true
      → is_sound deferred p.goto_count (visit world deferred nodes enable_node_ids node p) ≡ true
  unfolding visit is_sound
  visit-is_sound deferred nodes enable_node_ids node p clean =
      elim (Option-cases (world.handler node.action)) [
        | inl missing ↦ ground (
          arith,
          missing,
          clean_pushed p clean (step node.id skipped none),
          failed_pushed p clean (step "cancelled" failure (some "Run cancelled")),
        )
        | inr (run, found) ↦
            let ran = run_tracked_node world run node p.ctx in
            ground (
              arith,
              found,
              clean_pushed p clean (step node.id skipped none),
              failed_pushed p clean (step "cancelled" failure (some "Run cancelled")),
              after_run-is_sound deferred nodes node run ran.0 (record p { ctx = ran.1 }) clean,
            )
      ]

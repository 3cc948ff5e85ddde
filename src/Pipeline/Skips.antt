-- ===== src/Pipeline/Skips.antt =====
-- A node in the set of skipped nodes is never run: the set only grows, through jumps and sandboxes.
pub mod Runs
use gooseherd.Prelude.{
  ℕ, zero, suc, ◌+◌, ◌-◌, ◌*◌, ◌/◌, ◌%◌, ◌≤◌, ◌<◌, String, ◌≡◌, refl, sym, ap, subst, ◌∙◌, ◌≢◌, ◌↔◌,
  ◌⊎◌, inl, inr, Bool, true, false, ◌&&◌, ◌||◌, not, Option, none, some, List, [], ◌∷◌, ◌++◌, map,
  max, arith, eq_iff, ltb, leb, nat_eq, nat_eq_iff, if◌then◌else◌, or_default, ◌<|>◌, Bool-cases,
  Option-cases, List-cases, Eq, ◌==◌, String-Eq, Nat-Eq, ==_refl, ==_sym, length, any, every,
  every-append, keep, is_empty, head?, last_or, includes, add, delete, add_all, delete_all,
  distinct, includes-append, includes-add, includes-delete, includes-add_all, includes-delete_all,
  includes-distinct, delete_absent, Result, ok, err, ◌>>=◌, map_option,
}
use gooseherd.Pipeline.Types.{
  NodeConfig, NodeResult, PipelineWorld, NodeOutcome, success, failure, skipped, PipelineStepResult,
}
use gooseherd.Pipeline.FixLoop.{LoopResult, Handler, handle_loop_failure, run_tracked_node}
use gooseherd.Pipeline.Engine.{
  Progress, Visit, next_node, jumped, entered_sandbox, failed_run, threw, after_loop,
  after_soft_fail, after_success, after_node, after_run, jump_target, with_outputs, step,
  is_skipped, visit,
}

abbrev pub is_skip : NodeOutcome → Bool
is_skip skipped = true
is_skip outcome = false

-- Every step of the node with this identifier is a skip.
abbrev pub only_skips : String → List PipelineStepResult → Bool
only_skips id steps = every (λ s. not (s.node_id == id) || is_skip s.outcome) steps

only_skips-append :
    (id : String) (xs ys : List PipelineStepResult)
    → only_skips id (xs ++ ys) ≡ (only_skips id xs && only_skips id ys)
only_skips-append id xs ys = every-append (λ s. not (s.node_id == id) || is_skip s.outcome) xs ys

module _ (world : PipelineWorld) (id : String) where
  open world use {Ctx, Outputs}

  -- The node is still in the set, and has only been skipped.
  abbrev holds : Progress world → Bool
  holds p = only_skips id p.steps && includes id p.skip_node_ids

  unfoldable goes_on : Visit world → Bool
  goes_on (next_node q) = holds q
  goes_on (jumped target q) = holds q
  goes_on (entered_sandbox q) = holds q
  goes_on (failed_run q) = holds q
  goes_on (threw message ctx) = true

  module _ (node : NodeConfig) (other : (node.id == id) ≡ false) where
    other_pushed :
        (steps : List PipelineStepResult) (outcome : NodeOutcome) (error : Option String)
        → only_skips id (steps ++ step node.id outcome error ∷ []) ≡ only_skips id steps
    other_pushed steps outcome error =
        ground (arith, only_skips-append id steps (step node.id outcome error ∷ []))

    after_success-goes_on :
        (deferred : Bool) (outcome : NodeOutcome) (p : Progress world)
        → holds p ≡ true
        → goes_on (after_success world deferred node outcome p) ≡ true
    unfolding after_success goes_on
    after_success-goes_on deferred outcome p held =
        ground (arith, other_pushed p.steps outcome none)

    after_soft_fail-goes_on :
        (result : NodeResult Outputs) (p : Progress world)
        → holds p ≡ true
        → goes_on (after_soft_fail world node result p) ≡ true
    unfolding after_soft_fail goes_on
    after_soft_fail-goes_on result p held =
        ground (arith, other_pushed p.steps success none, other_pushed p.steps failure result.error)

    after_loop-goes_on :
        (result : NodeResult Outputs) (p : Progress world) (looped : Result String LoopResult × Ctx)
        → holds p ≡ true
        → goes_on (after_loop world node result p looped) ≡ true
    unfolding after_loop goes_on
    after_loop-goes_on result p looped held = ground (
      arith,
      other_pushed p.steps success none,
      other_pushed p.steps failure (some (or_default result.error "Loop exhausted")),
    )

    after_node-goes_on :
        (deferred : Bool) (run : Handler world) (result : NodeResult Outputs) (p : Progress world)
        → holds p ≡ true
        → goes_on (after_node world deferred node run result p) ≡ true
    unfolding after_node goes_on
    after_node-goes_on deferred run result p held = elim (Option-cases node.on_failure) [
      | inl without ↦ ground (
        arith,
        after_soft_fail-goes_on result p held,
        after_success-goes_on deferred success p held,
        after_success-goes_on deferred skipped p held,
        other_pushed p.steps failure result.error,
      )
      | inr (loop_config, at) ↦ ground (
        arith,
        after_soft_fail-goes_on result p held,
        after_success-goes_on deferred success p held,
        after_success-goes_on deferred skipped p held,
        after_loop-goes_on result p (handle_loop_failure world node loop_config run result p.ctx)
            held,
      )
    ]

    with_outputs-holds :
        (outputs : Option Outputs) (p : Progress world)
        → holds p ≡ true
        → holds (with_outputs world outputs p) ≡ true
    with_outputs-holds none p held = held
    with_outputs-holds (some outputs) p held =
        ground (arith, includes-add_all id (world.skip_nodes outputs) p.skip_node_ids)

    after_run-goes_on :
        (deferred : Bool) (nodes : List NodeConfig) (run : Handler world)
        (result : NodeResult Outputs) (p : Progress world)
        → holds p ≡ true
        → goes_on (after_run world deferred nodes node run result p) ≡ true
    unfolding after_run goes_on
    after_run-goes_on deferred nodes run result p held =
        let q = with_outputs world result.outputs p in
        let counted : Progress world = record q { goto_count = suc q.goto_count } in
        let held' = with_outputs-holds result.outputs p held in
        elim (List-cases (jump_target world nodes result)) [
          | inl stays ↦ rw (stays, after_run) (after_node-goes_on deferred run result q held')
          | inr (target, (later, jumps)) ↦ ground (
            arith,
            jumps,
            held',
            other_pushed q.steps result.outcome none,
            after_node-goes_on deferred run result counted held',
          )
        ]

  -- The step of a cancelled run has a name of its own.
  module _ (named : ("cancelled" == id) ≡ false) where
    cancelled_pushed :
        (steps : List PipelineStepResult) (error : Option String)
        → only_skips id (steps ++ step "cancelled" failure error ∷ []) ≡ only_skips id steps
    cancelled_pushed steps error =
        ground (arith, only_skips-append id steps (step "cancelled" failure error ∷ []))

    skip_pushed :
        (steps : List PipelineStepResult) (name : String)
        → only_skips id (steps ++ step name skipped none ∷ []) ≡ only_skips id steps
    skip_pushed steps name =
        ground (arith, only_skips-append id steps (step name skipped none ∷ []))

    -- A node in the set is skipped, whatever its configuration says.
    in_set-is_skipped :
        (enable_node_ids : List String) (node : NodeConfig) (p : Progress world)
        → holds p ≡ true
        → (node.id == id) ≡ true
        → is_skipped world enable_node_ids node p ≡ true
    unfolding is_skipped
    in_set-is_skipped enable_node_ids node p held here =
        let same : node.id ≡ id = (eq_iff node.id id).0 here in
        let within : includes id p.skip_node_ids ≡ true = ground (arith, held) in
        ground (arith, subst (λ name. includes name p.skip_node_ids ≡ true) (sym same) within)

    visit-goes_on :
        (deferred : Bool) (nodes : List NodeConfig) (enable_node_ids : List String)
        (node : NodeConfig) (p : Progress world)
        → holds p ≡ true
        → goes_on (visit world deferred nodes enable_node_ids node p) ≡ true
    unfolding visit goes_on
    visit-goes_on deferred nodes enable_node_ids node p held = elim (Bool-cases (node.id == id)) [
      | inl here ↦ ground (
        arith,
        in_set-is_skipped enable_node_ids node p held here,
        cancelled_pushed p.steps (some "Run cancelled"),
        skip_pushed p.steps node.id,
      )
      | inr other ↦ elim (Option-cases (world.handler node.action)) [
        | inl missing ↦ ground (
          arith,
          missing,
          cancelled_pushed p.steps (some "Run cancelled"),
          skip_pushed p.steps node.id,
        )
        | inr (run, found) ↦
            let ran = run_tracked_node world run node p.ctx in
            ground (
              arith,
              found,
              cancelled_pushed p.steps (some "Run cancelled"),
              skip_pushed p.steps node.id,
              after_run-goes_on node other deferred nodes run ran.0 (record p { ctx = ran.1 }) held,
            )
      ]
    ]

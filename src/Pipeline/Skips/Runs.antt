-- ===== src/Pipeline/Skips/Runs.antt =====
-- The skipped nodes of a whole run.
use gooseherd.Prelude.{
  ℕ, zero, suc, String, ◌≡◌, refl, Bool, true, false, Option, none, some, List, [], ◌∷◌, arith,
  ◌==◌, String-Eq, Nat-Eq, includes, ok, err, map_option,
}
use gooseherd.Pipeline.Types.{NodeConfig, PipelineWorld}
use gooseherd.Pipeline.Engine.{
  Progress, Visit, next_node, jumped, entered_sandbox, failed_run, threw, visit, max_gotos,
}
use gooseherd.Pipeline.Run.{
  Ran, Continue, run_nodes, run_jumps, execute_inside, execute_pipeline, with_nested, nested_start,
  after_visit,
}
use gooseherd.Pipeline.Skips.{only_skips, only_skips-append, holds, goes_on, visit-goes_on}

module _ (world : PipelineWorld) (nodes : List NodeConfig) (enable_node_ids : List String)
    (id : String) (named : ("cancelled" == id) ≡ false) where
  -- Of a run that returns, every step of the node is a skip.
  unfoldable pub skips_only : Option (Ran world nodes enable_node_ids) → Bool
  skips_only none = true
  skips_only (some (err message, ctx)) = true
  skips_only (some (ok result, ctx)) = only_skips id result.steps

  with_nested-skips_only :
      (p : Progress world) (nested : Option (Ran world nodes enable_node_ids))
      → holds world id p ≡ true
      → skips_only nested ≡ true
      → skips_only (map_option (with_nested world nodes enable_node_ids p) nested) ≡ true
  unfolding with_nested skips_only
  with_nested-skips_only p none held fine = refl
  with_nested-skips_only p (some (err message, ctx)) held fine = refl
  with_nested-skips_only p (some (ok result, ctx)) held fine =
      ground (arith, only_skips-append id p.steps result.steps)

  -- What follows keeps skipping the node.
  abbrev SkipsOn : Continue world nodes enable_node_ids → Type 0
  SkipsOn follow =
      (rest : List NodeConfig) (p : Progress world)
      → holds world id p ≡ true
      → skips_only (follow rest p) ≡ true

  after_visit-skips_only :
      (jump sandbox : Continue world nodes enable_node_ids)
      (later : Progress world → Option (Ran world nodes enable_node_ids)) (rest : List NodeConfig)
      (v : Visit world)
      → SkipsOn jump
      → SkipsOn sandbox
      → ((p : Progress world) → holds world id p ≡ true → skips_only (later p) ≡ true)
      → goes_on world id v ≡ true
      → skips_only (after_visit world nodes enable_node_ids later jump sandbox rest v) ≡ true
  unfolding after_visit goes_on
  after_visit-skips_only jump sandbox later rest (next_node q) j s l fine = l q fine
  after_visit-skips_only jump sandbox later rest (jumped target q) j s l fine = j target q fine
  after_visit-skips_only jump sandbox later rest (entered_sandbox q) j s l fine =
      with_nested-skips_only q (sandbox rest (nested_start world nodes enable_node_ids q)) fine
        (s rest (nested_start world nodes enable_node_ids q) (ground (arith, fine)))
  after_visit-skips_only jump sandbox later rest (failed_run q) j s l fine =
      unfold skips_only in (ground (arith, fine))
  after_visit-skips_only jump sandbox later rest (threw message ctx) j s l fine =
      unfold skips_only in refl

  run_nodes-SkipsOn :
      (deferred : Bool) (jump sandbox : Continue world nodes enable_node_ids)
      → SkipsOn jump
      → SkipsOn sandbox
      → SkipsOn (run_nodes world nodes enable_node_ids deferred jump sandbox)
  unfolding run_nodes
  run_nodes-SkipsOn deferred jump sandbox j s [] p held =
      unfold skips_only in (ground (arith, held))
  run_nodes-SkipsOn deferred jump sandbox j s (node ∷ rest) p held =
      after_visit-skips_only jump sandbox
        (λ q. run_nodes world nodes enable_node_ids deferred jump sandbox rest q) rest
        (visit world deferred nodes enable_node_ids node p) j s
        (λ q held'. run_nodes-SkipsOn deferred jump sandbox j s rest q held')
        (visit-goes_on world id named deferred nodes enable_node_ids node p held)

  nothing-SkipsOn : SkipsOn (λ rest p. none)
  unfolding skips_only
  nothing-SkipsOn rest p held = refl

  run_jumps-SkipsOn :
      (deferred : Bool) (sandbox : Continue world nodes enable_node_ids)
      → SkipsOn sandbox
      → (fuel : ℕ) → SkipsOn (run_jumps world nodes enable_node_ids deferred sandbox fuel)
  unfolding run_jumps
  run_jumps-SkipsOn deferred sandbox s zero =
      run_nodes-SkipsOn deferred (λ rest p. none) sandbox nothing-SkipsOn s
  run_jumps-SkipsOn deferred sandbox s (suc fuel) =
      run_nodes-SkipsOn deferred (run_jumps world nodes enable_node_ids deferred sandbox fuel)
        sandbox (run_jumps-SkipsOn deferred sandbox s fuel) s

  inside-SkipsOn : SkipsOn (execute_inside world nodes enable_node_ids)
  unfolding execute_inside
  inside-SkipsOn = run_jumps-SkipsOn false (λ rest p. none) nothing-SkipsOn max_gotos

  -- With a node's identifier in the set of skipped nodes at the start, every step that the returned
  -- result has of the node is a skip, whatever the handlers answer, through jumps, fix loops and a
  -- sandbox; a node named like the step of a cancelled run is left out.
  pub execute_pipeline-skips_only :
      (deferred : Bool) (rest : List NodeConfig) (p : Progress world)
      → p.steps ≡ []
      → includes id p.skip_node_ids ≡ true
      → skips_only (execute_pipeline world nodes enable_node_ids deferred rest p) ≡ true
  unfolding execute_pipeline
  execute_pipeline-skips_only false rest p none_yet in_set =
      inside-SkipsOn rest p (rw none_yet in_set)
  execute_pipeline-skips_only true rest p none_yet in_set =
      run_jumps-SkipsOn true (execute_inside world nodes enable_node_ids) inside-SkipsOn max_gotos
        rest p (rw none_yet in_set)

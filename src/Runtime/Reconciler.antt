-- ===== src/Runtime/Reconciler.antt =====
-- src/runtime/reconciler.ts: a run is brought in line with what the runtime says of its job and with
-- the completion that its runner reported. The answers of the stores and the readings of the clock are
-- arguments. The checkpoints, which only go to other stores, are left out, and so is the time of an
-- update.
pub mod Settles
use gooseherd.Prelude.{
  ℕ, zero, suc, ◌+◌, ◌-◌, ◌*◌, ◌/◌, ◌%◌, ◌≤◌, ◌<◌, String, ◌≡◌, refl, sym, ap, subst, ◌∙◌, ◌≢◌, ◌↔◌,
  ◌⊎◌, inl, inr, Bool, true, false, ◌&&◌, ◌||◌, not, Option, none, some, List, [], ◌∷◌, ◌++◌, map,
  max, arith, eq_iff, ltb, leb, nat_eq, nat_eq_iff, if◌then◌else◌, or_default, ◌<|>◌, Bool-cases,
  Option-cases, List-cases, Eq, ◌==◌, String-Eq, Nat-Eq, ==_refl, ==_sym, length, any, every,
  every-append, keep, is_empty, head?, last_or, includes, add, delete, add_all, delete_all,
  distinct, includes-append, includes-add, includes-delete, includes-add_all, includes-delete_all,
  includes-distinct, delete_absent, Result, ok, err, ◌>>=◌, map_option,
}
use gooseherd.Runtime.Completions.{
  RunCompletionRecord, RunnerCompletionPayload, CompletionStatus, success_status, failed_status,
}

pub data RunStatus : Type 0 where
  queued running validating pushing awaiting_ci ci_fixing cancel_requested completed failed
        cancelled conversation :
      RunStatus

pub data TerminalFact : Type 0 where
  job_succeeded job_failed job_missing job_running : TerminalFact

unfoldable pub is_terminal_run_status : RunStatus → Bool
is_terminal_run_status failed = true
is_terminal_run_status completed = true
is_terminal_run_status cancelled = true
is_terminal_run_status status = false

unfoldable pub is_terminal_fact : TerminalFact → Bool
is_terminal_fact job_running = false
is_terminal_fact fact = true

unfoldable pub is_cancel_requested : RunStatus → Bool
is_cancel_requested cancel_requested = true
is_cancel_requested status = false

-- The error of an update. `missing_completion` has the diagnostic's text as the store's events give it.
pub data RunError : Type 0 where
  kept_error : Option String → RunError
  contradicted : RunError
  reported : String → RunError
  missing_completion : TerminalFact → RunError

-- What `updateRun` is given: the status, which is the phase too, and the fields that it changes.
pub record RunUpdate (TokenUsage : Type 0) : Type 0 where
  pub status : RunStatus
  pub error : Option RunError
  pub internal_artifacts : Option (List String)
  -- the results of a completed run: commit, files, pull request, usage and title
  pub results : Option (RunnerCompletionPayload TokenUsage)

abbrev is_none : {A : Type 0} → Option A → Bool
is_none none = true
is_none (some a) = false

module _ {TokenUsage : Type 0} where
  abbrev failing : RunError → Option (List String) → RunUpdate TokenUsage
  failing error internal_artifacts = record {
    status = failed;
    error = some error;
    internal_artifacts = internal_artifacts;
    results = none;
  }

  abbrev completing : RunnerCompletionPayload TokenUsage → RunUpdate TokenUsage
  completing payload = record {
    status = completed;
    error = none;
    internal_artifacts = payload.internal_artifacts;
    results = some payload;
  }

  -- `none` is the answer false: the completion does not end the run yet.
  unfoldable pub apply_completion :
      RunCompletionRecord TokenUsage → TerminalFact → Option (RunUpdate TokenUsage)
  apply_completion completion fact = elim completion.payload.status [
    | success_status ↦ elim fact [
      | job_failed ↦ some (failing contradicted none)
      | job_succeeded ↦ some (completing completion.payload)
      | job_missing ↦ some (completing completion.payload)
      | job_running ↦ none
    ]
    | failed_status ↦
        if is_terminal_fact fact
        then some (
            failing
              (reported (or_default completion.payload.reason "runtime reported failed completion"))
              completion.payload.internal_artifacts)
        else none
  ]

  -- The loop of `waitForLateCompletion`: before its n-th turn the clock reads `clock n`, and the n-th
  -- poll answers `poll n`. The outer `none` is out of fuel.
  unfoldable pub wait_for_late_completion :
      (ℕ → ℕ)
      → (ℕ → Option (RunCompletionRecord TokenUsage))
      → ℕ
      → ℕ
      → ℕ
      → Option (Option (RunCompletionRecord TokenUsage))
  wait_for_late_completion clock poll deadline zero n =
      if ltb (clock n) deadline then none else some none
  wait_for_late_completion clock poll deadline (suc fuel) n = elim (ltb (clock n) deadline) [
    | false ↦ some none
    | true ↦ elim (poll n) [
      | some completion ↦ some (some completion)
      | none ↦ wait_for_late_completion clock poll deadline fuel (suc n)
    ]
  ]

  -- Behind the wait: a completion is applied, or its absence is a failure.
  unfoldable pub settle :
      Option (RunCompletionRecord TokenUsage) → TerminalFact → Option (RunUpdate TokenUsage)
  unfolding apply_completion is_terminal_fact
  settle (some completion) fact = apply_completion completion fact
  settle none fact =
      if is_terminal_fact fact then some (failing (missing_completion fact) none) else none

  abbrev cancelling : Option String → RunUpdate TokenUsage
  cancelling error = record {
    status = cancelled;
    error = some (kept_error error);
    internal_artifacts = none;
    results = none;
  }

  -- The wait of a run whose job is over and that has no completion yet.
  unfoldable pub late_completion :
      (ℕ → ℕ)
      → (ℕ → Option (RunCompletionRecord TokenUsage))
      → ℕ
      → Option (RunCompletionRecord TokenUsage)
      → TerminalFact
      → Option (Option (RunCompletionRecord TokenUsage))
  late_completion clock poll grace (some completion) fact = some (some completion)
  late_completion clock poll grace none fact =
      if is_terminal_fact fact
      then wait_for_late_completion clock poll (clock 0 + grace) grace 0
      else some none

  -- The update that `reconcileRun` makes of a run with a status and an error, if any. The deadline is
  -- the first reading of the clock plus the grace, in milliseconds, and the grace is the fuel.
  unfoldable pub reconcile_run :
      (ℕ → ℕ)
      → (ℕ → Option (RunCompletionRecord TokenUsage))
      → ℕ
      → RunStatus
      → Option String
      → Option (RunCompletionRecord TokenUsage)
      → TerminalFact
      → Option (Option (RunUpdate TokenUsage))
  unfolding is_cancel_requested is_terminal_run_status settle
  reconcile_run clock poll grace status error completion fact =
      if is_none completion && is_terminal_run_status status
      then some none
      else if is_cancel_requested status && is_terminal_fact fact
      then some (some (cancelling error))
      else map_option (λ found. settle found fact)
          (late_completion clock poll grace completion fact)

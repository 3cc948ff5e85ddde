-- ===== src/Runtime/Reconciler/Settles.antt =====
-- A run whose job is over does not stay open.
use gooseherd.Prelude.{
  ℕ, zero, suc, ◌+◌, ◌≤◌, ◌<◌, String, ◌≡◌, refl, inl, inr, Bool, true, false, ◌&&◌, Option, none,
  some, arith, ltb, Bool-cases, Option-cases, String-Eq, Nat-Eq,
}
use gooseherd.Runtime.Completions.{
  RunCompletionRecord, CompletionStatus, success_status, failed_status,
}
use gooseherd.Runtime.Reconciler.{
  RunStatus, TerminalFact, RunUpdate, is_terminal_run_status, is_terminal_fact, settle,
  wait_for_late_completion, late_completion, reconcile_run, completed, job_succeeded, job_missing,
}

-- The reconciler answers with an update that ends the run, not out of fuel.
abbrev pub ends_run : {TokenUsage : Type 0} → Option (Option (RunUpdate TokenUsage)) → Bool
ends_run (some (some update)) = is_terminal_run_status update.status
ends_run other = false

abbrev pub is_completed : RunStatus → Bool
is_completed completed = true
is_completed status = false

abbrev pub is_success_status : CompletionStatus → Bool
is_success_status success_status = true
is_success_status failed_status = false

abbrev pub agrees : TerminalFact → Bool
agrees job_succeeded = true
agrees job_missing = true
agrees fact = false

module _ {TokenUsage : Type 0} where
  waits :
      (clock : ℕ → ℕ) (poll : ℕ → Option (RunCompletionRecord TokenUsage)) (deadline fuel n : ℕ)
      → ((k : ℕ) → clock k < clock (suc k))
      → deadline ≤ clock n + fuel
      → (found : Option (RunCompletionRecord TokenUsage)) × (wait_for_late_completion clock poll
            deadline fuel n
          ≡ some found)
  unfolding wait_for_late_completion
  waits clock poll deadline zero n ticks enough = (none, ground arith)
  waits clock poll deadline (suc fuel) n ticks enough = elim (Bool-cases (ltb (clock n) deadline)) [
    | inr over ↦ (none, ground (arith, over))
    | inl before ↦ elim (Option-cases (poll n)) [
      | inr (completion, found) ↦ (some completion, ground (arith, before, found))
      | inl nothing ↦
          let rest = waits clock poll deadline fuel (suc n) ticks (ground (arith, ticks n)) in
          (rest.0, ground (arith, before, nothing, rest.1))
    ]
  ]

  late_completion-found :
      (clock : ℕ → ℕ) (poll : ℕ → Option (RunCompletionRecord TokenUsage)) (grace : ℕ)
      (completion : Option (RunCompletionRecord TokenUsage)) (fact : TerminalFact)
      → ((k : ℕ) → clock k < clock (suc k))
      → (found : Option (RunCompletionRecord TokenUsage)) × (late_completion clock poll grace
            completion fact
          ≡ some found)
  unfolding late_completion
  late_completion-found clock poll grace (some completion) fact ticks = (some completion, refl)
  late_completion-found clock poll grace none fact ticks =
      let rest = waits clock poll (clock 0 + grace) grace 0 ticks (ground arith) in
      elim (Bool-cases (is_terminal_fact fact)) [
        | inl over ↦ (rest.0, ground (arith, over, rest.1))
        | inr open_job ↦ (none, ground (arith, open_job))
      ]

  settle-ends_run :
      (found : Option (RunCompletionRecord TokenUsage)) (fact : TerminalFact)
      → is_terminal_fact fact ≡ true
      → ends_run (some (settle found fact)) ≡ true
  unfolding settle is_terminal_run_status
  settle-ends_run none fact over = ground arith
  settle-ends_run (some completion) fact over = ground arith

  -- While each poll takes time, a run that is not over but whose job is, is ended by one call of the
  -- reconciler, whatever the polls answer: the fuel is enough, and the update's status is terminal.
  pub reconcile_run-ends_run :
      (clock : ℕ → ℕ) (poll : ℕ → Option (RunCompletionRecord TokenUsage)) (grace : ℕ)
      (status : RunStatus) (error : Option String)
      (completion : Option (RunCompletionRecord TokenUsage)) (fact : TerminalFact)
      → ((k : ℕ) → clock k < clock (suc k))
      → is_terminal_run_status status ≡ false
      → is_terminal_fact fact ≡ true
      → ends_run (reconcile_run clock poll grace status error completion fact) ≡ true
  unfolding reconcile_run is_terminal_run_status
  reconcile_run-ends_run clock poll grace status error completion fact ticks still_open over =
      let late = late_completion-found clock poll grace completion fact ticks in
      ground (arith, late.1, settle-ends_run late.0 fact over)

  settle-completes :
      (found : Option (RunCompletionRecord TokenUsage)) (fact : TerminalFact)
      (update : RunUpdate TokenUsage)
      → settle found fact ≡ some update
      → is_completed update.status ≡ true
      → (completion : RunCompletionRecord TokenUsage) × ((found ≡ some completion)
          × ((is_success_status completion.payload.status && agrees fact) ≡ true)
          × (update.results ≡ some completion.payload))
  unfolding settle
  settle-completes none fact update at done = absurd (ground arith)
  settle-completes (some completion) fact update at done =
      (completion, (refl, ground arith, ground arith))

  -- The reconciler marks a run completed only by a completion that it has at the start or by a poll,
  -- which reports success, while the job has succeeded or is gone; the results are those of the
  -- completion.
  pub reconcile_run-completes :
      (clock : ℕ → ℕ) (poll : ℕ → Option (RunCompletionRecord TokenUsage)) (grace : ℕ)
      (status : RunStatus) (error : Option String)
      (completion : Option (RunCompletionRecord TokenUsage)) (fact : TerminalFact)
      (update : RunUpdate TokenUsage)
      → reconcile_run clock poll grace status error completion fact ≡ some (some update)
      → is_completed update.status ≡ true
      → (used : RunCompletionRecord TokenUsage) × ((late_completion clock poll grace completion fact
            ≡ some (some used))
          × ((is_success_status used.payload.status && agrees fact) ≡ true)
          × (update.results ≡ some used.payload))
  unfolding reconcile_run
  reconcile_run-completes clock poll grace status error completion fact update at done =
      elim (Option-cases (late_completion clock poll grace completion fact)) [
        | inl nothing ↦ absurd (ground (arith, nothing))
        | inr (found, late) ↦
            let used = settle-completes found fact update (ground (arith, late)) done in
            (used.0, (ground (arith, late, used.1.0), used.1.1, used.1.2))
      ]

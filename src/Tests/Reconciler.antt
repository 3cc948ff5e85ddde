-- ===== src/Tests/Reconciler.antt =====
-- The reconciler at a run whose completion is late: it comes with the third poll.
use gooseherd.Prelude.{
  ℕ, suc, ◌<◌, ◌≡◌, refl, true, false, ◌&&◌, Option, none, some, arith, leb, if◌then◌else◌,
  String-Eq, Nat-Eq,
}
use gooseherd.Runtime.Completions.{RunCompletionRecord, success_status, complete}
use gooseherd.Runtime.Reconciler.{
  RunUpdate, awaiting_ci, completed, job_succeeded, reconcile_run, late_completion,
  wait_for_late_completion, settle, apply_completion, is_terminal_fact, is_terminal_run_status,
  is_cancel_requested,
}
use gooseherd.Runtime.Reconciler.Settles.{
  ends_run, reconcile_run-ends_run, is_success_status, agrees, reconcile_run-completes,
}

abbrev late : RunCompletionRecord ℕ
late = record {
  id = 1;
  run_id = "r1";
  idempotency_key = "k1";
  payload = record {
    idempotency_key = "k1";
    status = success_status;
    reason = none;
    artifact_state = complete;
    commit_sha = some "abc";
    changed_files = none;
    internal_artifacts = none;
    pr_url = none;
    pr_number = none;
    token_usage = none;
    title = none;
  };
  created_at = 0;
}

abbrev polls : ℕ → Option (RunCompletionRecord ℕ)
polls n = if leb 2 n then some late else none

abbrev clock : ℕ → ℕ
clock n = n

ticks : (k : ℕ) → clock k < clock (suc k)
ticks k = ground arith

is_open : is_terminal_run_status awaiting_ci ≡ false
unfolding is_terminal_run_status
is_open = refl

is_over : is_terminal_fact job_succeeded ≡ true
unfolding is_terminal_fact
is_over = refl

reconcile_run-ends_run_example :
    ends_run (reconcile_run clock polls 5 awaiting_ci none none job_succeeded) ≡ true
reconcile_run-ends_run_example =
    reconcile_run-ends_run clock polls 5 awaiting_ci none none job_succeeded ticks is_open is_over

abbrev done : RunUpdate ℕ
done = record {
  status = completed;
  error = none;
  internal_artifacts = none;
  results = some late.payload;
}

runs : reconcile_run clock polls 5 awaiting_ci none none job_succeeded ≡ some (some done)
unfolding reconcile_run late_completion wait_for_late_completion settle apply_completion
    is_terminal_fact is_terminal_run_status is_cancel_requested
runs = refl

reconcile_run-completes_example :
    (used : RunCompletionRecord ℕ) × ((late_completion clock polls 5 none job_succeeded
        ≡ some (some used))
      × ((is_success_status used.payload.status && agrees job_succeeded) ≡ true)
      × (done.results ≡ some used.payload))
reconcile_run-completes_example =
    reconcile_run-completes clock polls 5 awaiting_ci none none job_succeeded done runs refl

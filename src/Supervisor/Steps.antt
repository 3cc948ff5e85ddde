-- ===== src/Supervisor/Steps.antt =====
-- The handlers of src/supervisor/run-supervisor.ts, interleaved: while a handler waits for `retryRun`,
-- others run. `limit` is the number of retries that wait at the same time.
use gooseherd.Prelude.{
  ℕ, ◌<◌, String, ◌≡◌, Bool, true, false, ◌&&◌, not, Option, none, some, List, [], ◌∷◌, ◌++◌, ◌==◌,
  String-Eq, Nat-Eq, length, every, map_get,
}
use gooseherd.Supervisor.{
  SupervisorConfig, RunSupervisor, fresh_supervisor, WatchedRun, RunThread, NodeStart, PendingRetry,
  auto_retry, handle_node_start, watch_run, handle_node_end, handle_run_terminal, decide_retry,
  commit_retry, reset_daily,
}

pub record World : Type 0 where
  pub supervisor : RunSupervisor
  pub retrying : List PendingRetry

-- A run that is no retry.
abbrev pub is_root : String → List (String × String) → Bool
is_root run_id chain = elim (map_get run_id chain) [ none ↦ true | some original ↦ false ]

-- No original of some entries is a run of the chain.
unfoldable pub is_flat : List (String × String) → List (String × String) → Bool
is_flat chain [] = true
is_flat chain (e ∷ entries) = is_root e.1 chain && is_flat chain entries

-- An identifier that names no run of the chain, and no run that waits for a retry.
unfoldable pub is_new_run : String → List (String × String) → List PendingRetry → Bool
is_new_run new_run_id chain retrying =
    every (λ e. not (e.0 == new_run_id) && not (e.1 == new_run_id)) chain
    && every (λ p. not (p.original_run_id == new_run_id)) retrying

module _ (config : SupervisorConfig) (limit : ℕ) where
  pub data Step : World → World → Type 0 where
    node_started :
        {w : World} (event : NodeStart) (now : ℕ)
        → Step w (record w { supervisor = handle_node_start event now w.supervisor })
    run_watched :
        {w : World} (event : NodeStart) (now : ℕ) (thread : RunThread)
        → Step w (record w { supervisor = watch_run event now thread w.supervisor })
    node_ended :
        {w : World} (run_id : String) (now : ℕ)
        → Step w (record w { supervisor = handle_node_end run_id now w.supervisor })
    run_over :
        {w : World} (run_id : String)
        → Step w (record w { supervisor = (handle_run_terminal run_id w.supervisor).1 })
    retry_decided :
        {w : World} (now : ℕ) (run_id : String) (watched : Option WatchedRun) (retry : PendingRetry)
        → decide_retry config now run_id watched true w.supervisor ≡ auto_retry retry
        → length w.retrying < limit
        → Step w (record w { retrying = retry ∷ w.retrying })
    retry_made :
        {w : World} (now : ℕ) (before : List PendingRetry) (retry : PendingRetry)
        (after : List PendingRetry) (new_run_id : String) (thread : RunThread)
        → w.retrying ≡ before ++ retry ∷ after
        → is_new_run new_run_id w.supervisor.retry_chain w.retrying ≡ true
        → Step w (record {
          supervisor = commit_retry now retry new_run_id thread w.supervisor;
          retrying = before ++ after;
        })
    retry_failed :
        {w : World} (before : List PendingRetry) (retry : PendingRetry) (after : List PendingRetry)
        → w.retrying ≡ before ++ retry ∷ after
        → Step w (record w { retrying = before ++ after })
    day_over : {w : World} → Step w (record w { supervisor = reset_daily w.supervisor })

  pub data Reach : World → Type 0 where
    start : Reach (record { supervisor = fresh_supervisor; retrying = [] })
    next : {w w' : World} → Reach w → Step w w' → Reach w'

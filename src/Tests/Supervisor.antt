-- ===== src/Tests/Supervisor.antt =====
-- Two runs fail at the same time, with room for one retry a day.
use gooseherd.Prelude.{
  ◌+◌, ◌-◌, ◌≤◌, ◌≡◌, refl, true, none, [], ◌∷◌, arith, leb, String-Eq, Nat-Eq, every, map_get,
  map_set,
}
use gooseherd.Supervisor.{
  SupervisorConfig, RunSupervisor, RunThread, PendingRetry, auto_retry, decide_retry,
  fresh_supervisor, commit_retry, find_original_run_id, resolve_retry_count, retries_of,
}
use gooseherd.Supervisor.Steps.{World, Reach, start, next, retry_decided, retry_made, is_new_run}
use gooseherd.Supervisor.Caps.{daily_retry_count-bound}

abbrev config : SupervisorConfig
config = record {
  supervisor_max_auto_retries = 3;
  supervisor_max_retries_per_day = 1;
  supervisor_retry_cooldown_seconds = 60;
  supervisor_run_timeout_seconds = 3600;
  supervisor_node_stale_seconds = 600;
}

abbrev retry_a : PendingRetry
retry_a = record { run_id = "a"; original_run_id = "a"; attempt = 1 }

abbrev retry_b : PendingRetry
retry_b = record { run_id = "b"; original_run_id = "b"; attempt = 1 }

abbrev thread : RunThread
thread = record { channel_id = "C1"; thread_ts = "1.0" }

decided_a : decide_retry config 5 "a" none true fresh_supervisor ≡ auto_retry retry_a
unfolding decide_retry find_original_run_id resolve_retry_count map_get
decided_a = refl

decided_b : decide_retry config 5 "b" none true fresh_supervisor ≡ auto_retry retry_b
unfolding decide_retry find_original_run_id resolve_retry_count map_get
decided_b = refl

abbrev after_one : RunSupervisor
after_one = commit_retry 6 retry_b "b2" thread fresh_supervisor

abbrev after_two : World
after_two = record { supervisor = commit_retry 7 retry_a "a2" thread after_one; retrying = [] }

new_b : is_new_run "b2" [] (retry_b ∷ retry_a ∷ []) ≡ true
unfolding is_new_run
new_b = refl

new_a : is_new_run "a2" after_one.retry_chain (retry_a ∷ []) ≡ true
unfolding is_new_run commit_retry map_set
new_a = refl

reached : Reach config 2 after_two
reached =
    next
      (next
        (next (next start (retry_decided 5 "a" none retry_a decided_a (omega arith)))
          (retry_decided 5 "b" none retry_b decided_b (omega arith)))
        (retry_made 6 [] retry_b (retry_a ∷ []) "b2" thread refl new_b))
      (retry_made 7 [] retry_a [] "a2" thread refl new_a)

-- One retry a day is allowed, and two are made.
two_retries : after_two.supervisor.daily_retry_count ≡ 2
unfolding commit_retry
two_retries = refl

daily_retry_count-bound_example :
    (after_two.supervisor.daily_retry_count ≤ 1 + (2 - 1))
    × (every (λ p. leb p.attempt 3) after_two.retrying ≡ true)
daily_retry_count-bound_example = daily_retry_count-bound config 2 after_two reached

-- A run that has been tried again counts no retries of its own.
counted_none : resolve_retry_count "a" after_two.supervisor.retry_chain ≡ 0
unfolding resolve_retry_count retries_of commit_retry map_set map_get
counted_none = refl

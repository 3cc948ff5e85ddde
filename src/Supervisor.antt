-- ===== src/Supervisor.antt =====
-- src/supervisor/run-supervisor.ts: the retries of failed runs and the watch over running ones. What
-- an event handler does between two waits is one function of the state. Slack messages and logs are
-- left out, and with them the keys of the stale alerts that have been sent.
pub mod Steps
pub mod Chain
pub mod Caps
use gooseherd.Prelude.{
  ℕ, zero, suc, ◌+◌, ◌-◌, ◌*◌, ◌/◌, ◌%◌, ◌≤◌, ◌<◌, String, ◌≡◌, refl, sym, ap, subst, ◌∙◌, ◌≢◌, ◌↔◌,
  ◌⊎◌, inl, inr, Bool, true, false, ◌&&◌, ◌||◌, not, Option, none, some, List, [], ◌∷◌, ◌++◌, map,
  max, arith, eq_iff, ltb, leb, nat_eq, nat_eq_iff, if◌then◌else◌, or_default, ◌<|>◌, Bool-cases,
  Option-cases, List-cases, Eq, ◌==◌, String-Eq, Nat-Eq, ==_refl, ==_sym, length, any, every,
  every-append, keep, is_empty, head?, last_or, includes, add, delete, add_all, delete_all,
  distinct, includes-append, includes-add, includes-delete, includes-add_all, includes-delete_all,
  includes-distinct, delete_absent, trim, map_get, map_set, map_delete, map_get-map_set, Result, ok,
  err, Result-cases, Call, ◌>>=◌, ◌>>◌, return, throw, reads, writes, given, check, map_option,
}

pub record SupervisorConfig : Type 0 where
  pub supervisor_max_auto_retries : ℕ
  pub supervisor_max_retries_per_day : ℕ
  pub supervisor_retry_cooldown_seconds : ℕ
  pub supervisor_run_timeout_seconds : ℕ
  pub supervisor_node_stale_seconds : ℕ

pub record WatchedRun : Type 0 where
  pub run_id : String
  pub started_at : ℕ
  pub last_node_event_at : ℕ
  pub current_node_id : Option String
  pub current_node_action : Option String
  pub retry_count : ℕ
  pub channel_id : String
  pub thread_ts : String

pub record RunSupervisor : Type 0 where
  pub watched_runs : List (String × WatchedRun)
  -- a retried run and the run that its chain began with
  pub retry_chain : List (String × String)
  pub daily_retry_count : ℕ
  pub last_retry_at : List (String × ℕ)

abbrev pub fresh_supervisor : RunSupervisor
fresh_supervisor = record {
  watched_runs = [];
  retry_chain = [];
  daily_retry_count = 0;
  last_retry_at = [];
}

-- The number of entries of the chain with an original.
unfoldable pub retries_of : String → List (String × String) → ℕ
retries_of original [] = 0
retries_of original (e ∷ chain) =
    let rest = retries_of original chain in if e.1 == original then suc rest else rest

unfoldable pub resolve_retry_count : String → List (String × String) → ℕ
resolve_retry_count run_id chain = elim (map_get run_id chain) [
  | none ↦ 0
  | some original ↦ retries_of original chain
]

unfoldable pub find_original_run_id : String → List (String × String) → String
find_original_run_id run_id chain = or_default (map_get run_id chain) run_id

-- What a run manager and a run store tell of a run.
pub record RunThread : Type 0 where
  pub channel_id : String
  pub thread_ts : String

pub record NodeStart : Type 0 where
  pub run_id : String
  pub node_id : String
  pub action : String

abbrev started_node : NodeStart → ℕ → WatchedRun → WatchedRun
started_node event now watched = record watched {
  last_node_event_at = now;
  current_node_id = some event.node_id;
  current_node_action = some event.action;
}

-- `handleNodeEvent` of a start, for a run that is watched; another one is looked up first.
unfoldable pub handle_node_start : NodeStart → ℕ → RunSupervisor → RunSupervisor
handle_node_start event now s = elim (map_get event.run_id s.watched_runs) [
  | none ↦ s
  | some watched ↦ record s {
    watched_runs = map_set event.run_id (started_node event now watched) s.watched_runs;
  }
]

-- The end of the look-up: `now` is the time of the event.
unfoldable pub watch_run : NodeStart → ℕ → RunThread → RunSupervisor → RunSupervisor
watch_run event now thread s = record s {
  watched_runs =
      map_set event.run_id
        (record {
          run_id = event.run_id;
          started_at = now;
          last_node_event_at = now;
          current_node_id = some event.node_id;
          current_node_action = some event.action;
          retry_count = resolve_retry_count event.run_id s.retry_chain;
          channel_id = thread.channel_id;
          thread_ts = thread.thread_ts;
        })
        s.watched_runs;
}

unfoldable pub handle_node_end : String → ℕ → RunSupervisor → RunSupervisor
handle_node_end run_id now s = elim (map_get run_id s.watched_runs) [
  | none ↦ s
  | some watched ↦ record s {
    watched_runs = map_set run_id (record watched { last_node_event_at = now }) s.watched_runs;
  }
]

-- The start of `handleRunTerminal`: the run that was watched, which is forgotten.
unfoldable pub handle_run_terminal : String → RunSupervisor → Option WatchedRun × RunSupervisor
handle_run_terminal run_id s =
    (map_get run_id s.watched_runs, record s { watched_runs = map_delete run_id s.watched_runs })

-- A retry that has been decided on, and not made yet.
pub record PendingRetry : Type 0 where
  pub run_id : String
  pub original_run_id : String
  pub attempt : ℕ

pub data Verdict : Type 0 where
  permanent_failure retry_cap_reached daily_cap_reached cooldown_active : Verdict
  auto_retry : PendingRetry → Verdict

abbrev pub is_cooling_down : SupervisorConfig → ℕ → Option ℕ → Bool
is_cooling_down config now none = false
is_cooling_down config now (some last_retry) =
    not (last_retry == 0) && ltb now (last_retry + config.supervisor_retry_cooldown_seconds * 1000)

-- The middle of `handleRunTerminal`, for a run that failed with an error: whether it is tried again.
unfoldable pub decide_retry :
    SupervisorConfig → ℕ → String → Option WatchedRun → Bool → RunSupervisor → Verdict
decide_retry config now run_id watched retryable s =
    let retry_count : ℕ =
      or_default (map_option (λ w. w.retry_count) watched)
        (resolve_retry_count run_id s.retry_chain) in
    let original_run_id = find_original_run_id run_id s.retry_chain in
    if not retryable
    then permanent_failure
    else if leb config.supervisor_max_auto_retries retry_count
    then retry_cap_reached
    else if leb config.supervisor_max_retries_per_day s.daily_retry_count
    then daily_cap_reached
    else if is_cooling_down config now (map_get original_run_id s.last_retry_at)
    then cooldown_active
    else auto_retry
        (record { run_id = run_id; original_run_id = original_run_id; attempt = suc retry_count })

-- The end of `handleRunTerminal`, where `retryRun` has made a new run.
unfoldable pub commit_retry : ℕ → PendingRetry → String → RunThread → RunSupervisor → RunSupervisor
commit_retry now retry new_run_id thread s = record {
  retry_chain = map_set new_run_id retry.original_run_id s.retry_chain;
  last_retry_at = map_set retry.original_run_id now s.last_retry_at;
  daily_retry_count = suc s.daily_retry_count;
  watched_runs =
      map_set new_run_id
        (record {
          run_id = new_run_id;
          started_at = now;
          last_node_event_at = now;
          current_node_id = none;
          current_node_action = none;
          retry_count = retry.attempt;
          channel_id = thread.channel_id;
          thread_ts = thread.thread_ts;
        })
        s.watched_runs;
}

pub data WatchVerdict : Type 0 where
  on_time timed_out node_stale : WatchVerdict

-- `watchdogSweep` for one watched run.
unfoldable pub watch_verdict : SupervisorConfig → ℕ → WatchedRun → WatchVerdict
watch_verdict config now watched =
    if ltb (watched.started_at + config.supervisor_run_timeout_seconds * 1000) now
    then timed_out
    else if ltb (watched.last_node_event_at + config.supervisor_node_stale_seconds * 1000) now
        && elim watched.current_node_id [ none ↦ false | some node ↦ not (node == "") ]
    then node_stale
    else on_time

-- `watchdogSweep`: the runs that are forced to fail.
unfoldable pub watchdog_sweep : SupervisorConfig → ℕ → List (String × WatchedRun) → List String
watchdog_sweep config now [] = []
watchdog_sweep config now (e ∷ watched_runs) =
    let rest = watchdog_sweep config now watched_runs in
    elim (watch_verdict config now e.1) [ timed_out ↦ e.0 ∷ rest | verdict ↦ rest ]

-- The timer of `scheduleDailyReset`.
unfoldable pub reset_daily : RunSupervisor → RunSupervisor
reset_daily s = record s { daily_retry_count = 0; last_retry_at = [] }

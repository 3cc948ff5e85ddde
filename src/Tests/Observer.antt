-- ===== src/Tests/Observer.antt =====
-- The safety checks at an alert of Sentry.
use gooseherd.Prelude.{
  ℕ, ◌+◌, ◌≤◌, ◌≡◌, refl, true, false, ◌&&◌, not, none, some, List, [], ◌∷◌, ltb, String-Eq, Nat-Eq,
  includes,
}
use gooseherd.Observer.Safety.{
  TriggerEvent, TriggerRule, SafetyOptions, RateLimits, default_rate_limits, recent, minute, hour,
  run_safety_checks, slug_of, check_thresholds, check_rate_limit, check_budget,
  check_per_repo_budget, check_cooldown, check_repo_allowlist, deny, daily_budget_exhausted,
}
use gooseherd.Observer.Safety.Verdict.{
  is_allowed, meets_thresholds, repo_may_run, has_room, is_cool, run_safety_checks-is_allowed,
}
use gooseherd.Observer.Safety.Window.{
  RateStep, read_step, check_step, record_step, prune_step, empty_log, rate_steps, is_schedule,
  rate_step, decide_at, decide, end_at, is_admitted_at, prune_rate_limit_events,
  add_rate_limit_event,
}
use gooseherd.Observer.Safety.Window.Bounds.{rate_steps-within_limits}

abbrev event : TriggerEvent
event = record {
  source = "sentry_alert";
  repo_slug = some "owner/repo";
  raw_payload = record { occurrences = some (some 12); user_count = none; first_seen = some 5 };
}

abbrev rule : TriggerRule
rule = record {
  cooldown_minutes = 30;
  max_runs_per_hour = 5;
  repo_slug = none;
  min_occurrences = some 10;
  min_age_minutes = none;
  min_user_count = none;
}

abbrev opts : SafetyOptions
opts = record {
  is_duplicate = false;
  rate_limit_timestamps = 900000 ∷ [];
  daily_count = 20;
  repo_count = 1;
  completed_at = none;
  max_daily = 20;
  max_per_repo = 5;
  repo_allowlist = "owner/repo" ∷ [];
}

run_safety_checks-is_allowed_example : is_allowed (run_safety_checks event rule opts 1000000) ≡ (
    not opts.is_duplicate
    && (meets_thresholds event.raw_payload rule 1000000
        && (repo_may_run (slug_of event rule) opts
            && (has_room (default_rate_limits event.source) opts.rate_limit_timestamps 1000000
                && (ltb opts.daily_count opts.max_daily
                    && is_cool opts.completed_at rule.cooldown_minutes 1000000)))))
run_safety_checks-is_allowed_example = run_safety_checks-is_allowed event rule opts 1000000

over_budget : run_safety_checks event rule opts 1000000 ≡ deny (daily_budget_exhausted 20 20)
unfolding run_safety_checks check_thresholds check_rate_limit check_budget check_per_repo_budget
    check_cooldown check_repo_allowlist default_rate_limits recent includes
over_budget = refl

abbrev slack_limits : RateLimits
slack_limits = record { per_minute = 1; per_hour = 5 }

slack_limited : default_rate_limits "slack_observer" ≡ some slack_limits
unfolding default_rate_limits
slack_limited = refl

-- Two events whose runs are enqueued at the same time.
abbrev overlapping : List (ℕ × RateStep)
overlapping =
    (1000, read_step)
    ∷ (1001, read_step)
    ∷ (1002, check_step 1 true)
    ∷ (1003, check_step 0 true)
    ∷ (2000, record_step 1 1999)
    ∷ (2100, prune_step)
    ∷ (3000, record_step 0 2999)
    ∷ (4000, read_step)
    ∷ (4001, check_step 0 true)
    ∷ []

overlapping-is_schedule : is_schedule "slack_observer" 1 0 overlapping 5000 empty_log ≡ true
unfolding is_schedule rate_step decide_at decide end_at is_admitted_at check_rate_limit
    default_rate_limits recent prune_rate_limit_events add_rate_limit_event
overlapping-is_schedule = refl

-- Both are recorded, although the limit is one a minute.
overlapping-recorded :
    recent minute 5000 (rate_steps "slack_observer" overlapping empty_log).recorded ≡ 2
unfolding rate_steps rate_step decide_at decide end_at is_admitted_at check_rate_limit
    default_rate_limits recent prune_rate_limit_events add_rate_limit_event
overlapping-recorded = refl

rate_steps-within_limits_example :
    let log = rate_steps "slack_observer" overlapping empty_log in
    (recent minute 5000 log.recorded ≤ 1 + 1) × (recent hour 5000 log.recorded ≤ 5 + 1)
rate_steps-within_limits_example =
    rate_steps-within_limits "slack_observer" slack_limits 1 overlapping 5000 slack_limited
      overlapping-is_schedule

-- ===== src/Observer/Safety/Verdict.antt =====
-- The verdict of the safety checks, which run one after another, as a condition without an order.
use gooseherd.Prelude.{
  ℕ, ◌+◌, ◌*◌, String, ◌≡◌, refl, inl, inr, Bool, true, false, ◌&&◌, ◌||◌, not, Option, none, some,
  List, arith, ltb, leb, Bool-cases, ◌==◌, String-Eq, Nat-Eq, is_empty, includes,
}
use gooseherd.Observer.Safety.{
  SafetyDecision, allow, deny, RateLimits, default_rate_limits, recent, check_rate_limit, minute,
  hour, TriggerEvent, TriggerRule, RawPayload, SafetyOptions, run_safety_checks, check_thresholds,
  check_cooldown, check_budget, check_per_repo_budget, check_repo_allowlist, slug_of, for_repo,
  ◌otherwise◌,
}

abbrev pub is_allowed : SafetyDecision → Bool
is_allowed allow = true
is_allowed (deny reason) = false

-- A count reaches a minimum, if there is one; a missing count is `default`, and a number that is not
-- one counts as enough.
abbrev pub reaches : Option ℕ → Option (Option ℕ) → ℕ → Bool
reaches none count default = true
reaches (some least) none default = leb least default
reaches (some least) (some none) default = true
reaches (some least) (some (some n)) default = leb least n

abbrev pub is_old_enough : Option ℕ → Option ℕ → ℕ → Bool
is_old_enough none seen now = true
is_old_enough (some least) none now = true
is_old_enough (some least) (some seen) now = leb (seen + least * minute) now

abbrev pub meets_thresholds : RawPayload → TriggerRule → ℕ → Bool
meets_thresholds payload rule now =
    reaches rule.min_occurrences payload.occurrences 1
    && (is_old_enough rule.min_age_minutes payload.first_seen now
        && reaches rule.min_user_count payload.user_count 0)

abbrev pub has_room : Option RateLimits → List ℕ → ℕ → Bool
has_room none timestamps now = true
has_room (some limits) timestamps now =
    ltb (recent minute now timestamps) limits.per_minute
    && ltb (recent hour now timestamps) limits.per_hour

abbrev pub is_cool : Option ℕ → ℕ → ℕ → Bool
is_cool none cooldown_minutes now = true
is_cool (some completed_at) cooldown_minutes now =
    leb (completed_at + cooldown_minutes * minute) now

-- The repository may run: it is allowed, and its budget is not used up. No repository always may.
abbrev pub repo_may_run : String → SafetyOptions → Bool
repo_may_run repo_slug opts =
    repo_slug == ""
    || ((is_empty opts.repo_allowlist || includes repo_slug opts.repo_allowlist)
        && ltb opts.repo_count opts.max_per_repo)

check_thresholds-is_allowed :
    (event : TriggerEvent) (rule : TriggerRule) (now : ℕ)
    → is_allowed (check_thresholds event rule now) ≡ meets_thresholds event.raw_payload rule now
unfolding check_thresholds
check_thresholds-is_allowed event rule now = ground arith

check_rate_limit-is_allowed :
    (source : String) (timestamps : List ℕ) (now : ℕ)
    → is_allowed (check_rate_limit source timestamps now)
      ≡ has_room (default_rate_limits source) timestamps now
unfolding check_rate_limit
check_rate_limit-is_allowed source timestamps now = ground arith

check_cooldown-is_allowed :
    (completed_at : Option ℕ) (cooldown_minutes now : ℕ)
    → is_allowed (check_cooldown completed_at cooldown_minutes now)
      ≡ is_cool completed_at cooldown_minutes now
unfolding check_cooldown
check_cooldown-is_allowed none cooldown_minutes now = refl
check_cooldown-is_allowed (some completed_at) cooldown_minutes now = ground arith

check_budget-is_allowed : (count most : ℕ) → is_allowed (check_budget count most) ≡ ltb count most
unfolding check_budget
check_budget-is_allowed count most = ground arith

-- A check of the repository, behind the test of an empty one.
for_repo-is_allowed :
    (repo_slug : String) (check : SafetyDecision)
    → is_allowed (for_repo repo_slug check) ≡ (repo_slug == "" || is_allowed check)
for_repo-is_allowed repo_slug check = ground arith

check_repo_allowlist-is_allowed :
    (repo_slug : String) (allowlist : List String)
    → is_allowed (check_repo_allowlist repo_slug allowlist)
      ≡ (is_empty allowlist || includes repo_slug allowlist)
unfolding check_repo_allowlist
check_repo_allowlist-is_allowed repo_slug allowlist = ground arith

check_per_repo_budget-is_allowed :
    (repo_slug : String) (count most : ℕ)
    → is_allowed (check_per_repo_budget repo_slug count most) ≡ ltb count most
unfolding check_per_repo_budget
check_per_repo_budget-is_allowed repo_slug count most = ground arith

otherwise-is_allowed :
    (first later : SafetyDecision)
    → is_allowed (first otherwise later) ≡ (is_allowed first && is_allowed later)
otherwise-is_allowed allow later = refl
otherwise-is_allowed (deny reason) later = refl

-- The checks in a row, without their conditions.
chain-is_allowed :
    (a b c d e f : SafetyDecision)
    → is_allowed (a otherwise (b otherwise (c otherwise (d otherwise (e otherwise f))))) ≡ (
        is_allowed a
        && (is_allowed b && (is_allowed c && (is_allowed d && (is_allowed e && is_allowed f)))))
chain-is_allowed a b c d e f =
    rw
      (
        otherwise-is_allowed a (b otherwise (c otherwise (d otherwise (e otherwise f)))),
        otherwise-is_allowed b (c otherwise (d otherwise (e otherwise f))),
        otherwise-is_allowed c (d otherwise (e otherwise f)),
        otherwise-is_allowed d (e otherwise f),
        otherwise-is_allowed e f,
      )
      refl

-- The two conditions on the repository stand apart in the row.
gather :
    (t none_given listed budget room daily cool : Bool)
    → (t && ((none_given || listed) && (room && (daily && ((none_given || budget) && cool)))))
      ≡ (t && ((none_given || (listed && budget)) && (room && (daily && cool))))
gather t none_given listed budget room daily cool = ground arith

-- Whatever the maxRunsPerHour of its rule, which nothing reads, an event is allowed exactly when it is
-- no duplicate, meets the thresholds of its rule, its repository may run, its source has room under
-- its rate limits, the daily budget is not used up and the cooldown is over.
pub run_safety_checks-is_allowed :
    (event : TriggerEvent) (rule : TriggerRule) (opts : SafetyOptions) (now : ℕ)
    → is_allowed (run_safety_checks event rule opts now) ≡ (
        not opts.is_duplicate
        && (meets_thresholds event.raw_payload rule now
            && (repo_may_run (slug_of event rule) opts
                && (has_room (default_rate_limits event.source) opts.rate_limit_timestamps now
                    && (ltb opts.daily_count opts.max_daily
                        && is_cool opts.completed_at rule.cooldown_minutes now)))))
unfolding run_safety_checks
run_safety_checks-is_allowed event rule opts now = elim (Bool-cases opts.is_duplicate) [
  | inl again ↦ ground (arith, again)
  | inr fresh ↦
      let slug = slug_of event rule in
      let listed = check_repo_allowlist slug opts.repo_allowlist in
      let budget = check_per_repo_budget slug opts.repo_count opts.max_per_repo in
      let rate = check_rate_limit event.source opts.rate_limit_timestamps now in
      let daily = check_budget opts.daily_count opts.max_daily in
      let cool = check_cooldown opts.completed_at rule.cooldown_minutes now in
      rw
        (
          fresh,
          chain-is_allowed (check_thresholds event rule now) (for_repo slug listed) rate daily
              (for_repo slug budget) cool,
          for_repo-is_allowed slug listed,
          for_repo-is_allowed slug budget,
          check_thresholds-is_allowed event rule now,
          check_rate_limit-is_allowed event.source opts.rate_limit_timestamps now,
          check_budget-is_allowed opts.daily_count opts.max_daily,
          check_repo_allowlist-is_allowed slug opts.repo_allowlist,
          check_per_repo_budget-is_allowed slug opts.repo_count opts.max_per_repo,
          check_cooldown-is_allowed opts.completed_at rule.cooldown_minutes now,
        )
        (gather (meets_thresholds event.raw_payload rule now) (slug == "")
          (is_empty opts.repo_allowlist || includes slug opts.repo_allowlist)
          (ltb opts.repo_count opts.max_per_repo)
          (has_room (default_rate_limits event.source) opts.rate_limit_timestamps now)
          (ltb opts.daily_count opts.max_daily)
          (is_cool opts.completed_at rule.cooldown_minutes now))
]

-- ===== src/Observer/Safety.antt =====
-- src/observer/safety.ts, with the events and rules of types.ts as far as it reads them. Times are
-- milliseconds, and a comparison with a time in the past is written with the sum on the other side.
-- The fields of `rawPayload`, and the numbers and dates that JavaScript reads from them, are a
-- parameter. The reason of a denial has the numbers that its text would have.
pub mod Verdict
pub mod Window
use gooseherd.Prelude.{
  ℕ, zero, suc, ◌+◌, ◌-◌, ◌*◌, ◌/◌, ◌%◌, ◌≤◌, ◌<◌, String, ◌≡◌, refl, sym, ap, subst, ◌∙◌, ◌≢◌, ◌↔◌,
  ◌⊎◌, inl, inr, Bool, true, false, ◌&&◌, ◌||◌, not, Option, none, some, List, [], ◌∷◌, ◌++◌, map,
  max, arith, eq_iff, ltb, leb, nat_eq, nat_eq_iff, if◌then◌else◌, or_default, ◌<|>◌, Bool-cases,
  Option-cases, List-cases, Eq, ◌==◌, String-Eq, Nat-Eq, ==_refl, ==_sym, length, any, every,
  every-append, keep, is_empty, head?, last_or, includes, add, delete, add_all, delete_all,
  distinct, includes-append, includes-add, includes-delete, includes-add_all, includes-delete_all,
  includes-distinct, delete_absent, Result, ok, err, ◌>>=◌, map_option,
}

-- `conditions`, `pipeline` and the overrides of a rule are not read here. `maxRunsPerHour` is loaded
-- with a rule, and none of the checks reads it.
pub record TriggerRule : Type 0 where
  pub cooldown_minutes : ℕ
  pub max_runs_per_hour : ℕ
  pub repo_slug : Option String
  pub min_occurrences : Option ℕ
  pub min_age_minutes : Option ℕ
  pub min_user_count : Option ℕ

-- `occurrences ?? count`, `userCount ?? user_count ?? users` as numbers, where they are there, with
-- `none` for a number that is not one; and the first sighting, where it is a text that is a date.
pub record RawPayload : Type 0 where
  pub occurrences : Option (Option ℕ)
  pub user_count : Option (Option ℕ)
  pub first_seen : Option ℕ

pub record TriggerEvent : Type 0 where
  pub source : String
  pub repo_slug : Option String
  pub raw_payload : RawPayload

pub data DenyReason : Type 0 where
  duplicate_event : DenyReason
  below_minimum_occurrences : ℕ → ℕ → DenyReason
  below_minimum_age : ℕ → ℕ → DenyReason
  below_minimum_user_count : ℕ → ℕ → DenyReason
  not_in_allowlist : String → DenyReason
  per_minute_limit : ℕ → ℕ → String → DenyReason
  per_hour_limit : ℕ → ℕ → String → DenyReason
  daily_budget_exhausted : ℕ → ℕ → DenyReason
  repo_budget_exhausted : String → ℕ → ℕ → DenyReason
  cooldown_active : ℕ → DenyReason

-- The reason of an `allow` is a fixed text, which nothing reads.
pub data SafetyDecision : Type 0 where
  allow : SafetyDecision
  deny : DenyReason → SafetyDecision

pub record RateLimits : Type 0 where
  pub per_minute : ℕ
  pub per_hour : ℕ

unfoldable pub default_rate_limits : String → Option RateLimits
default_rate_limits source =
    if source == "sentry_alert"
    then some (record { per_minute = 2; per_hour = 10 })
    else if source == "github_webhook"
    then some (record { per_minute = 3; per_hour = 15 })
    else if source == "slack_observer"
    then some (record { per_minute = 1; per_hour = 5 })
    else none

abbrev pub minute : ℕ
minute = 60 * 1000

abbrev pub hour : ℕ
hour = 60 * 60 * 1000

-- The number of timestamps after `now - window`.
unfoldable pub recent : ℕ → ℕ → List ℕ → ℕ
recent window now timestamps = length (keep (λ t. ltb now (t + window)) timestamps)

unfoldable pub check_rate_limit : String → List ℕ → ℕ → SafetyDecision
check_rate_limit source timestamps now = elim (default_rate_limits source) [
  | none ↦ allow
  | some limits ↦
      let recent_minute = recent minute now timestamps in
      let recent_hour = recent hour now timestamps in
      if leb limits.per_minute recent_minute
      then deny (per_minute_limit recent_minute limits.per_minute source)
      else if leb limits.per_hour recent_hour
      then deny (per_hour_limit recent_hour limits.per_hour source)
      else allow
]

unfoldable pub check_budget : ℕ → ℕ → SafetyDecision
check_budget daily_count max_daily =
    if leb max_daily daily_count then deny (daily_budget_exhausted daily_count max_daily) else allow

unfoldable pub check_per_repo_budget : String → ℕ → ℕ → SafetyDecision
check_per_repo_budget repo_slug repo_count max_per_repo =
    if leb max_per_repo repo_count
    then deny (repo_budget_exhausted repo_slug repo_count max_per_repo)
    else allow

-- The minutes that remain are rounded up.
unfoldable pub check_cooldown : Option ℕ → ℕ → ℕ → SafetyDecision
check_cooldown none cooldown_minutes now = allow
check_cooldown (some completed_at) cooldown_minutes now =
    let ends = completed_at + cooldown_minutes * minute in
    if ltb now ends then deny (cooldown_active (((ends - now) + (minute - 1)) / minute)) else allow

unfoldable pub check_repo_allowlist : String → List String → SafetyDecision
check_repo_allowlist repo_slug allowlist =
    if is_empty allowlist
    then allow
    else if includes repo_slug allowlist
    then allow
    else deny (not_in_allowlist repo_slug)

-- A threshold on a count: a number that is not one is below nothing.
abbrev below : Option (Option ℕ) → ℕ → ℕ → Option ℕ
below none default least = if ltb default least then some default else none
below (some none) default least = none
below (some (some n)) default least = if ltb n least then some n else none

unfoldable pub check_occurrences : RawPayload → TriggerRule → SafetyDecision
check_occurrences payload rule = elim rule.min_occurrences [
  | none ↦ allow
  | some least ↦ elim (below payload.occurrences 1 least) [
    | none ↦ allow
    | some n ↦ deny (below_minimum_occurrences n least)
  ]
]

-- The age in the reason is rounded; an age below zero is zero there.
unfoldable pub check_age : RawPayload → TriggerRule → ℕ → SafetyDecision
check_age payload rule now = elim rule.min_age_minutes [
  | none ↦ allow
  | some least ↦ elim payload.first_seen [
    | none ↦ allow
    | some seen ↦
        if ltb now (seen + least * minute)
        then deny (below_minimum_age (((now - seen) + 30 * 1000) / minute) least)
        else allow
  ]
]

unfoldable pub check_user_count : RawPayload → TriggerRule → SafetyDecision
check_user_count payload rule = elim rule.min_user_count [
  | none ↦ allow
  | some least ↦ elim (below payload.user_count 0 least) [
    | none ↦ allow
    | some n ↦ deny (below_minimum_user_count n least)
  ]
]

-- The second check, where the first one does not deny: `if (result.action === "deny") return result`.
infixr 20 ◌otherwise◌
abbrev pub ◌otherwise◌ : SafetyDecision → SafetyDecision → SafetyDecision
allow otherwise later = later
deny reason otherwise later = deny reason

unfoldable pub check_thresholds : TriggerEvent → TriggerRule → ℕ → SafetyDecision
unfolding check_occurrences check_age check_user_count
check_thresholds event rule now =
    check_occurrences event.raw_payload rule
    otherwise (check_age event.raw_payload rule now
        otherwise check_user_count event.raw_payload rule)

pub record SafetyOptions : Type 0 where
  pub is_duplicate : Bool
  pub rate_limit_timestamps : List ℕ
  pub daily_count : ℕ
  pub repo_count : ℕ
  pub completed_at : Option ℕ
  pub max_daily : ℕ
  pub max_per_repo : ℕ
  pub repo_allowlist : List String

abbrev pub slug_of : TriggerEvent → TriggerRule → String
slug_of event rule = or_default (event.repo_slug <|> rule.repo_slug) ""

-- A check of the repository, which an event without one passes.
abbrev for_repo : String → SafetyDecision → SafetyDecision
for_repo repo_slug check = if repo_slug == "" then allow else check

unfoldable pub run_safety_checks : TriggerEvent → TriggerRule → SafetyOptions → ℕ → SafetyDecision
run_safety_checks event rule opts now =
    let repo_slug = slug_of event rule in
    if opts.is_duplicate
    then deny duplicate_event
    else check_thresholds event rule now
      otherwise (for_repo repo_slug (check_repo_allowlist repo_slug opts.repo_allowlist)
          otherwise (check_rate_limit event.source opts.rate_limit_timestamps now
              otherwise (check_budget opts.daily_count opts.max_daily
                  otherwise (for_repo repo_slug
                        (check_per_repo_budget repo_slug opts.repo_count opts.max_per_repo)
                      otherwise check_cooldown opts.completed_at rule.cooldown_minutes now))))

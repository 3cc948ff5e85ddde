-- ===== src/Pipeline/Ci.antt =====
-- src/pipeline/ci/ci-monitor.ts: the conclusion that the check runs of a commit have together.
pub mod Classes
use gooseherd.Prelude.{
  ℕ, zero, suc, ◌+◌, ◌-◌, ◌*◌, ◌/◌, ◌%◌, ◌≤◌, ◌<◌, String, ◌≡◌, refl, sym, ap, subst, ◌∙◌, ◌≢◌, ◌↔◌,
  ◌⊎◌, inl, inr, Bool, true, false, ◌&&◌, ◌||◌, not, Option, none, some, List, [], ◌∷◌, ◌++◌, map,
  max, arith, eq_iff, ltb, leb, nat_eq, nat_eq_iff, if◌then◌else◌, or_default, ◌<|>◌, Bool-cases,
  Option-cases, List-cases, Eq, ◌==◌, String-Eq, Nat-Eq, ==_refl, ==_sym, length, any, every,
  every-append, keep, is_empty, head?, last_or, includes, add, delete, add_all, delete_all,
  distinct, includes-append, includes-add, includes-delete, includes-add_all, includes-delete_all,
  includes-distinct, delete_absent, trim, map_get, map_set, map_delete, map_get-map_set, Result, ok,
  err, Result-cases, Call, ◌>>=◌, ◌>>◌, return, throw, reads, writes, given, check, map_option,
}

pub record CiCheckRun : Type 0 where
  pub name : String
  pub status : String
  pub conclusion : Option String

-- `CIConclusion`
pub data CiPollConclusion : Type 0 where
  ci_success ci_failure ci_pending ci_cancelled no_ci : CiPollConclusion

abbrev pub passing_conclusions : List String
passing_conclusions = "success" ∷ "neutral" ∷ "skipped" ∷ []

abbrev pub failing_conclusions : List String
failing_conclusions = "failure" ∷ "timed_out" ∷ "action_required" ∷ []

abbrev pub has_conclusion : (String → Bool) → CiCheckRun → Bool
has_conclusion p run = elim run.conclusion [ none ↦ false | some c ↦ p c ]

unfoldable pub aggregate_conclusions : List CiCheckRun → CiPollConclusion
aggregate_conclusions check_runs =
    if is_empty check_runs
    then no_ci
    else if any (λ r. not (r.status == "completed")) check_runs
    then ci_pending
    else if any (has_conclusion (λ c. includes c failing_conclusions)) check_runs
    then ci_failure
    else if every (has_conclusion (λ c. c == "cancelled")) check_runs
    then ci_cancelled
    else if every (has_conclusion (λ c. includes c passing_conclusions || c == "cancelled"))
        check_runs
    then ci_success
    else if any (λ r. r.status == "completed" && elim r.conclusion [ none ↦ true | some c ↦ false ])
        check_runs
    then ci_failure
    else ci_pending

unfoldable pub should_abort_fix_loop : ℕ → ℕ → Bool
should_abort_fix_loop prev_fail_count current_fail_count =
    ltb prev_fail_count current_fail_count && ltb 0 prev_fail_count

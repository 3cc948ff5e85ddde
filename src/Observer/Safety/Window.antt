-- ===== src/Observer/Safety/Window.antt =====
-- The rate limits of safety.ts over the events of src/observer/state-store.ts, as `processEvent` of
-- src/observer/daemon.ts keeps them for a source. An event waits for the database, for the seed message
-- and for its run between the read of the timestamps, the check of the limit and the record of its own
-- time, and a timer starts further batches meanwhile: the pieces between the waits are steps, which may
-- interleave in any way.
pub mod Overlap
pub mod Bounds
use gooseherd.Prelude.{
  ℕ, zero, suc, ◌+◌, ◌-◌, ◌*◌, ◌/◌, ◌%◌, ◌≤◌, ◌<◌, String, ◌≡◌, refl, sym, ap, subst, ◌∙◌, ◌≢◌, ◌↔◌,
  ◌⊎◌, inl, inr, Bool, true, false, ◌&&◌, ◌||◌, not, Option, none, some, List, [], ◌∷◌, ◌++◌, map,
  max, arith, eq_iff, ltb, leb, nat_eq, nat_eq_iff, if◌then◌else◌, or_default, ◌<|>◌, Bool-cases,
  Option-cases, List-cases, Eq, ◌==◌, String-Eq, Nat-Eq, ==_refl, ==_sym, length, any, every,
  every-append, keep, is_empty, head?, last_or, includes, add, delete, add_all, delete_all,
  distinct, includes-append, includes-add, includes-delete, includes-add_all, includes-delete_all,
  includes-distinct, delete_absent, trim, map_get, map_set, map_delete, map_get-map_set, Result, ok,
  err, Result-cases, Call, ◌>>=◌, ◌>>◌, return, throw, reads, writes, given, check, map_option,
  bind-ok, bind-err,
}
use gooseherd.Observer.Safety.{
  allow, deny, recent, check_rate_limit, hour, SafetyDecision, RateLimits, default_rate_limits,
  minute,
}

-- `pruneRateLimitEvents` with the window of an hour.
unfoldable pub prune_rate_limit_events : ℕ → List ℕ → List ℕ
prune_rate_limit_events now timestamps = keep (λ t. leb now (t + hour)) timestamps

unfoldable pub add_rate_limit_event : ℕ → List ℕ → List ℕ
add_rate_limit_event now timestamps = now ∷ timestamps

-- An event between the read of the timestamps and its end: what it has read, and whether the checks have
-- allowed it.
pub record WaitingEvent : Type 0 where
  pub timestamps : List ℕ
  pub is_admitted : Bool

-- The timestamps in the database, all that were ever recorded, and the events that wait, the last to
-- have read first.
pub record RateLog : Type 0 where
  pub stored : List ℕ
  pub recorded : List ℕ
  pub waiting : List WaitingEvent

abbrev pub empty_log : RateLog
empty_log = record { stored = []; recorded = []; waiting = [] }

-- A piece of `processEvent`, of the waiting event at a position. An event reads the clock for its record
-- before the insert. It ends without a record when a call throws.
pub data RateStep : Type 0 where
  prune_step read_step : RateStep
  check_step : ℕ → Bool → RateStep
  record_step : ℕ → ℕ → RateStep
  fail_step : ℕ → RateStep

abbrev pub rate_allows : String → List ℕ → ℕ → Bool
rate_allows source timestamps now = elim (check_rate_limit source timestamps now) [
  | allow ↦ true
  | deny reason ↦ false
]

-- The check of an event, which all the other checks allow or not: a denied one ends.
unfoldable pub decide : String → ℕ → Bool → WaitingEvent → Option WaitingEvent
decide source now others_allow w =
    if w.is_admitted
    then some w
    else if rate_allows source w.timestamps now && others_allow
    then some (record w { is_admitted = true })
    else none

unfoldable pub decide_at : String → ℕ → Bool → ℕ → List WaitingEvent → List WaitingEvent
unfolding decide
decide_at source now others_allow i [] = []
decide_at source now others_allow zero (w ∷ ws) = elim (decide source now others_allow w) [
  | none ↦ ws
  | some decided ↦ decided ∷ ws
]
decide_at source now others_allow (suc i) (w ∷ ws) = w ∷ decide_at source now others_allow i ws

unfoldable pub end_at : ℕ → List WaitingEvent → List WaitingEvent
end_at i [] = []
end_at zero (w ∷ ws) = ws
end_at (suc i) (w ∷ ws) = w ∷ end_at i ws

unfoldable pub is_admitted_at : ℕ → List WaitingEvent → Bool
is_admitted_at i [] = false
is_admitted_at zero (w ∷ ws) = w.is_admitted
is_admitted_at (suc i) (w ∷ ws) = is_admitted_at i ws

unfoldable pub rate_step : String → ℕ → RateStep → RateLog → RateLog
unfolding decide_at
rate_step source now prune_step log = record log { stored = prune_rate_limit_events now log.stored }
rate_step source now read_step log = record log {
  waiting = record { timestamps = log.stored; is_admitted = false } ∷ log.waiting;
}
rate_step source now (check_step i others_allow) log = record log {
  waiting = decide_at source now others_allow i log.waiting;
}
rate_step source now (record_step i stamp) log =
    if is_admitted_at i log.waiting
    then record {
      stored = add_rate_limit_event stamp log.stored;
      recorded = add_rate_limit_event stamp log.recorded;
      waiting = end_at i log.waiting;
    }
    else log
rate_step source now (fail_step i) log = record log { waiting = end_at i log.waiting }

unfoldable pub rate_steps : String → List (ℕ × RateStep) → RateLog → RateLog
unfolding rate_step
rate_steps source [] log = log
rate_steps source ((now, step) ∷ steps) log =
    rate_steps source steps (rate_step source now step log)

abbrev pub may_step : ℕ → RateStep → RateLog → Bool
may_step others read_step log = leb (length log.waiting) others
may_step others step log = true

-- The times do not go back, and an event reads the timestamps while at most `others` events wait.
unfoldable pub is_schedule : String → ℕ → ℕ → List (ℕ × RateStep) → ℕ → RateLog → Bool
unfolding rate_step
is_schedule source others last [] end log = leb last end
is_schedule source others last ((now, step) ∷ steps) end log =
    leb last now
    && (may_step others step log
        && is_schedule source others now steps end (rate_step source now step log))

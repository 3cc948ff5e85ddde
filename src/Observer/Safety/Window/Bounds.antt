-- ===== src/Observer/Safety/Window/Bounds.antt =====
-- The steps of src/observer/daemon.ts keep a source to its limits, but for the events that overlap.
use gooseherd.Prelude.{
  ℕ, zero, suc, ◌+◌, ◌≤◌, ◌<◌, String, ◌≡◌, refl, sym, subst, ◌∙◌, inl, inr, Bool, true, ◌||◌,
  Option, none, some, List, [], ◌∷◌, arith, Bool-cases, Option-cases, String-Eq, Nat-Eq, length,
}
use gooseherd.Observer.Safety.{
  recent, check_rate_limit, hour, RateLimits, default_rate_limits, minute,
}
use gooseherd.Observer.Safety.Window.{
  prune_rate_limit_events, WaitingEvent, RateLog, empty_log, RateStep, prune_step, read_step,
  check_step, record_step, fail_step, rate_allows, decide, decide_at, is_admitted_at, rate_step,
  rate_steps, may_step, is_schedule,
}
use gooseherd.Observer.Safety.Window.Overlap.{
  recent_antitone, recent-add, length-decide_at, Covers, Passed, Within-Covers, Covers-Within,
  later-Covers, end_at-Covers, record-Covers,
}

recent-prune :
    (window now later : ℕ) (timestamps : List ℕ)
    → window ≤ hour
    → now ≤ later
    → recent window later (prune_rate_limit_events now timestamps) ≡ recent window later timestamps
unfolding recent prune_rate_limit_events
recent-prune window now later [] short before = refl
recent-prune window now later (t ∷ timestamps) short before =
    ground (arith, recent-prune window now later timestamps short before)

rate_allows-room :
    (source : String) (limits : RateLimits) (timestamps : List ℕ) (now : ℕ)
    → default_rate_limits source ≡ some limits
    → rate_allows source timestamps now ≡ true
    → (recent minute now timestamps < limits.per_minute)
      × (recent hour now timestamps < limits.per_hour)
unfolding check_rate_limit
rate_allows-room source limits timestamps now set allowed =
    (ground (arith, set), ground (arith, set))

decide-kept :
    (source : String) (now : ℕ) (others_allow : Bool) (w decided : WaitingEvent)
    → decide source now others_allow w ≡ some decided
    → (decided.timestamps ≡ w.timestamps)
      × ((w.is_admitted || rate_allows source w.timestamps now) ≡ true)
unfolding decide
decide-kept source now others_allow w decided kept = ground arith

module _ (source : String) (window limit others : ℕ)
    (room : (timestamps : List ℕ) (now : ℕ)
      → rate_allows source timestamps now ≡ true
      → recent window now timestamps < limit) where
  decided-Passed :
      (last now : ℕ) (others_allow : Bool) (w decided : WaitingEvent)
      → decide source now others_allow w ≡ some decided
      → Passed window limit others now w
      → Passed window limit others now decided
  decided-Passed last now others_allow w decided kept passed admitted t after =
      let (same, either) = decide-kept source now others_allow w decided kept in
      subst (λ ts. recent window t ts < limit) (sym same)
        (elim (Bool-cases w.is_admitted) [
          | inl before ↦ passed before t after
          | inr fresh ↦ ground (
            arith,
            fresh,
            either,
            room w.timestamps now,
            recent_antitone window now t w.timestamps after,
          )
        ])

  -- What is covered once the first event is decided.
  abbrev CoversWith : ℕ → List ℕ → List WaitingEvent → Option WaitingEvent → Type 0
  CoversWith now recorded ws d =
      Covers window limit others now recorded (elim d [ none ↦ ws | some decided ↦ decided ∷ ws ])

  decide_at-Covers :
      (now : ℕ) (others_allow : Bool) (recorded : List ℕ) (i : ℕ) (ws : List WaitingEvent)
      → Covers window limit others now recorded ws
      → Covers window limit others now recorded (decide_at source now others_allow i ws)
  unfolding decide_at
  decide_at-Covers now others_allow recorded i [] c = c
  decide_at-Covers now others_allow recorded zero (w ∷ ws) (inl more) =
      elim (Option-cases (decide source now others_allow w)) [
        | inl ended ↦ subst (CoversWith now recorded ws) (sym ended) (
            Within-Covers window limit others now recorded ws
              (λ t after. ground (arith, more t after)))
        | inr (decided, kept) ↦ subst (CoversWith now recorded ws) (sym kept) (inl more)
      ]
  decide_at-Covers now others_allow recorded zero (w ∷ ws) (inr (since, passed, c)) =
      elim (Option-cases (decide source now others_allow w)) [
        | inl ended ↦ subst (CoversWith now recorded ws) (sym ended) c
        | inr (decided, kept) ↦ subst (CoversWith now recorded ws) (sym kept) (
            inr (
              subst
                  (λ ts.
                    (t : ℕ)
                    → now ≤ t
                    → recent window t recorded + length ws ≤ recent window t ts + others)
                  (sym (decide-kept source now others_allow w decided kept).0) since,
              decided-Passed now now others_allow w decided kept passed,
              c,
            ))
      ]
  decide_at-Covers now others_allow recorded (suc i) (w ∷ ws) (inl more) =
      inl (λ t after. ground (arith, more t after, length-decide_at source now others_allow i ws))
  decide_at-Covers now others_allow recorded (suc i) (w ∷ ws) (inr (since, passed, c)) = inr (
    (λ t after. ground (arith, since t after, length-decide_at source now others_allow i ws)),
    passed,
    decide_at-Covers now others_allow recorded i ws c,
  )

  -- The stored timestamps are those of the window, and there is room for the events that wait.
  record Keeps (last : ℕ) (log : RateLog) : Type 0 where
    pub same : (t : ℕ) → last ≤ t → recent window t log.stored ≡ recent window t log.recorded
    pub covers : Covers window limit others last log.recorded log.waiting

  later-Keeps : (last now : ℕ) (log : RateLog) → last ≤ now → Keeps last log → Keeps now log
  later-Keeps last now log before kept = record {
    same = λ t after. kept.same t (ground arith);
    covers = later-Covers window limit others last now log.recorded log.waiting before kept.covers;
  }

  step-Keeps :
      (now : ℕ) (step : RateStep) (log : RateLog)
      → window ≤ hour
      → may_step others step log ≡ true
      → Keeps now log
      → Keeps now (rate_step source now step log)
  unfolding rate_step
  step-Keeps now prune_step log short may kept = record {
    same = λ t after. recent-prune window now t log.stored short after ∙ kept.same t after;
    covers = kept.covers;
  }
  step-Keeps now read_step log short may kept = record {
    same = kept.same;
    covers = inr (
      (λ t after. ground (arith, kept.same t after)),
      (λ admitted. absurd (ground arith)),
      kept.covers,
    );
  }
  step-Keeps now (check_step i others_allow) log short may kept = record {
    same = kept.same;
    covers = decide_at-Covers now others_allow log.recorded i log.waiting kept.covers;
  }
  step-Keeps now (record_step i stamp) log short may kept =
      elim (Bool-cases (is_admitted_at i log.waiting)) [
        | inr no_record ↦ rw no_record kept
        | inl admitted ↦ rw admitted (record {
          same = λ t after. ground (
            arith,
            kept.same t after,
            recent-add window t stamp log.stored,
            recent-add window t stamp log.recorded,
          );
          covers =
              record-Covers window limit others now stamp log.recorded i log.waiting admitted
                kept.covers;
        })
      ]
  step-Keeps now (fail_step i) log short may kept = record {
    same = kept.same;
    covers = end_at-Covers window limit others now log.recorded i log.waiting kept.covers;
  }

  run-Keeps :
      (steps : List (ℕ × RateStep)) (last end : ℕ) (log : RateLog)
      → window ≤ hour
      → is_schedule source others last steps end log ≡ true
      → Keeps last log
      → Keeps end (rate_steps source steps log)
  unfolding is_schedule rate_steps
  run-Keeps [] last end log short fits kept = later-Keeps last end log (ground arith) kept
  run-Keeps ((now, step) ∷ steps) last end log short fits kept =
      run-Keeps steps now end (rate_step source now step log) short (ground (arith, fits)) (
        step-Keeps now step log short (ground (arith, fits))
          (later-Keeps last now log (ground (arith, fits)) kept))

  nothing_yet : (t : ℕ) → recent window t [] + 0 ≤ limit + others
  unfolding recent
  nothing_yet t = ground arith

  run-bound :
      (steps : List (ℕ × RateStep)) (now : ℕ)
      → window ≤ hour
      → is_schedule source others 0 steps now empty_log ≡ true
      → recent window now (rate_steps source steps empty_log).recorded ≤ limit + others
  run-bound steps now short fits =
      let log = rate_steps source steps empty_log in
      let kept =
        run-Keeps steps 0 now empty_log short fits
          (record { same = λ t after. refl; covers = λ t after. nothing_yet t }) in
      ground (arith, Covers-Within window limit others now log.recorded log.waiting kept.covers now)

-- With limits for the source, from an empty log, under any interleaving of the steps of its events at
-- times that do not go back, in which an event reads the timestamps while at most `others` events wait:
-- at most perMinute + others of the events ever recorded are of the last minute and at most
-- perHour + others of the last hour, although older events are deleted. Where events never overlap,
-- these are the limits.
pub rate_steps-within_limits :
    (source : String) (limits : RateLimits) (others : ℕ) (steps : List (ℕ × RateStep)) (now : ℕ)
    → default_rate_limits source ≡ some limits
    → is_schedule source others 0 steps now empty_log ≡ true
    → let log = rate_steps source steps empty_log in
      (recent minute now log.recorded ≤ limits.per_minute + others)
      × (recent hour now log.recorded ≤ limits.per_hour + others)
rate_steps-within_limits source limits others steps now set fits = (
  run-bound source minute limits.per_minute others
      (λ timestamps t allowed. (rate_allows-room source limits timestamps t set allowed).0) steps
      now (ground arith) fits,
  run-bound source hour limits.per_hour others
      (λ timestamps t allowed. (rate_allows-room source limits timestamps t set allowed).1) steps
      now (ground arith) fits,
)

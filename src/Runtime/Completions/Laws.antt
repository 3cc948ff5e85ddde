-- ===== src/Runtime/Completions/Laws.antt =====
-- A run has one completion: the first report wins, and its retries are answered with it.
use gooseherd.Runtime.Tokens.{completion_already_recorded}
use gooseherd.Prelude.{
  ℕ, String, ◌≡◌, inl, inr, some, List, [], ◌∷◌, arith, eq_iff, if◌then◌else◌, List-cases, ◌==◌,
  String-Eq, Nat-Eq, ==_refl, ok, err,
}
use gooseherd.Runtime.Completions.{
  ControlPlaneTables, RunnerCompletionPayload, RunCompletionRecord, ReportStore, record_completion,
  created_completion, get_latest_completion, completion_already_recorded,
}

module _ {TokenUsage Json : Type 0} (tables : ControlPlaneTables TokenUsage Json) where
  open tables use {completions_of, completions_of-insert}

  abbrev Store : Type 0
  Store = ReportStore tables

  abbrev Payload : Type 0
  Payload = RunnerCompletionPayload TokenUsage

  -- The store after any reports, each for its run and at its time.
  abbrev pub report_all : List (String × Payload × ℕ) → Store → Store
  report_all [] s = s
  report_all ((run_id, payload, now) ∷ reports) s =
      report_all reports (record_completion tables run_id payload now s).1

  latest_kept :
      (run_id j : String) (payload : Payload) (now : ℕ) (s : Store)
      (c : RunCompletionRecord TokenUsage) (others : List (RunCompletionRecord TokenUsage))
      → completions_of run_id s.completions ≡ c ∷ others
      → completions_of run_id (record_completion tables j payload now s).1.completions ≡ c ∷ others
  unfolding record_completion
  latest_kept run_id j payload now s c others held = ground (
    arith,
    eq_iff j run_id,
    completions_of-insert run_id (created_completion tables j payload now s) s.completions,
  )

  report_all-kept :
      (reports : List (String × Payload × ℕ)) (run_id : String) (s : Store)
      (c : RunCompletionRecord TokenUsage) (others : List (RunCompletionRecord TokenUsage))
      → completions_of run_id s.completions ≡ c ∷ others
      → completions_of run_id (report_all reports s).completions ≡ c ∷ others
  report_all-kept [] run_id s c others held = held
  report_all-kept ((j, payload, now) ∷ reports) run_id s c others held =
      report_all-kept reports run_id (record_completion tables j payload now s).1 c others
        (latest_kept run_id j payload now s c others held)

  -- What the database holds of a run after a report of it that was accepted.
  accepted :
      (run_id : String) (payload : Payload) (now : ℕ) (s : Store)
      (c : RunCompletionRecord TokenUsage)
      → (record_completion tables run_id payload now s).0 ≡ ok c
      → (c.idempotency_key ≡ payload.idempotency_key)
        × ((others : List (RunCompletionRecord TokenUsage)) × (completions_of run_id
                (record_completion tables run_id payload now s).1.completions
              ≡ c ∷ others))
  unfolding record_completion created_completion
  accepted run_id payload now s c done = elim (List-cases (completions_of run_id s.completions)) [
    | inl empty ↦ (
      ground (arith, empty),
      (
        [],
        ground (
          arith,
          empty,
          ==_refl run_id,
          completions_of-insert run_id (created_completion tables run_id payload now s)
              s.completions,
        ),
      ),
    )
    | inr (existing, (others, held)) ↦ (
      ground (arith, held, eq_iff existing.idempotency_key payload.idempotency_key),
      (others, ground (arith, held)),
    )
  ]

  answer_held :
      (run_id : String) (retry : Payload) (now : ℕ) (s : Store) (c : RunCompletionRecord TokenUsage)
      (others : List (RunCompletionRecord TokenUsage))
      → completions_of run_id s.completions ≡ c ∷ others
      → (get_latest_completion tables run_id s ≡ some c)
        × (record_completion tables run_id retry now s ≡ (
          if c.idempotency_key == retry.idempotency_key
              then ok c
              else err (completion_already_recorded run_id),
          s,
        ))
  unfolding record_completion get_latest_completion
  answer_held run_id retry now s c others held = (ground (arith, held), ground (arith, held))

  -- Once a report of a run is accepted, with a record of its idempotency key, that record stays the
  -- latest of the run through any further reports, of this run and of others; after them, a report
  -- with the same key is answered with the record, one with another key is a conflict, and neither
  -- changes anything.
  pub first_report_wins :
      (run_id : String) (payload : Payload) (now : ℕ) (s : Store)
      (c : RunCompletionRecord TokenUsage)
      → (record_completion tables run_id payload now s).0 ≡ ok c
      → (reports : List (String × Payload × ℕ)) (retry : Payload) (later : ℕ)
      → let after = report_all reports (record_completion tables run_id payload now s).1 in
        (c.idempotency_key ≡ payload.idempotency_key)
        × ((get_latest_completion tables run_id after ≡ some c)
            × (record_completion tables run_id retry later after ≡ (
              if c.idempotency_key == retry.idempotency_key
                  then ok c
                  else err (completion_already_recorded run_id),
              after,
            )))
  first_report_wins run_id payload now s c done reports retry later =
      let start = (record_completion tables run_id payload now s).1 in
      let held = accepted run_id payload now s c done in
      (
        held.0,
        answer_held run_id retry later (report_all reports start) c held.1.0
            (report_all-kept reports run_id start c held.1.0 held.1.1),
      )

-- ===== src/Tests/Runtime.antt =====
-- The control plane store at a run "r1".
use gooseherd.Prelude.{
  ℕ, suc, String, ◌≡◌, refl, false, ◌&&◌, Option, none, some, List, [], ◌∷◌, arith, if◌then◌else◌,
  ◌==◌, String-Eq, Nat-Eq, ok, err,
}
use gooseherd.Runtime.KeyedTable.{function_table}
use gooseherd.Runtime.Tokens.{TokenRow, TokenStore, validate_run_token}
use gooseherd.Runtime.Tokens.Laws.{
  IsCoherent, row_answer, validate-eq-row_answer, used_token_expires, validate_all,
}
use gooseherd.Runtime.Completions.{
  ControlPlaneTables, RunnerCompletionPayload, RunCompletionRecord, ReportStore, record_completion,
  get_latest_completion, complete, success_status, created_completion, ArtifactRow,
}
use gooseherd.Runtime.Completions.Laws.{report_all, first_report_wins}
use gooseherd.Runtime.Tokens.{completion_already_recorded}

-- A hash for the tests: any function serves.
abbrev hash : String → String
hash token = token

abbrev used_row : TokenRow
used_row = record { token_hash = "secret"; issued_at = 100; used_at = some 200; expires_at = 1400 }

abbrev store : TokenStore (function_table TokenRow) hash
store = record {
  rows = λ run_id. if run_id == "r1" then some used_row else none;
  cache = λ run_id. none;
}

store-IsCoherent : IsCoherent (function_table TokenRow) hash store
store-IsCoherent = record { at = λ run_id cached hit. ground arith }

validate-eq-row_answer_example :
    (validate_run_token (function_table TokenRow) hash "r1" "secret" 300 store).0
    ≡ row_answer (store.rows "r1") "secret" 300
validate-eq-row_answer_example =
    validate-eq-row_answer (function_table TokenRow) hash store "r1" "secret" 300 store-IsCoherent

abbrev checks : List (String × String × ℕ)
checks = ("r1", "secret", 300) ∷ ("r1", "wrong", 400) ∷ ("r2", "secret", 500) ∷ []

used_token_expires_example :
    (validate_run_token
      (function_table TokenRow)
      hash
      "r1"
      "secret"
      1500
      (validate_all (function_table TokenRow) hash checks store)).0
    ≡ false
used_token_expires_example =
    used_token_expires (function_table TokenRow) hash checks store "r1" "secret" 200 1500 used_row
      store-IsCoherent refl refl (ground arith)

abbrev r3_checks : List (String × String × ℕ)
r3_checks = ("r3", "key", 60) ∷ ("r3", "other", 70) ∷ ("r3", "key", 80) ∷ []

-- Tables for the tests, with a count of the completions and a text for JSON.
abbrev tables : ControlPlaneTables ℕ String
tables = record {
  Completions = (String → List (RunCompletionRecord ℕ)) × ℕ;
  completions_of = λ run_id rows. rows.0 run_id;
  next_id = λ rows. rows.1;
  insert_completion = λ c rows.
      (λ run_id. if c.run_id == run_id then c ∷ rows.0 run_id else rows.0 run_id, suc rows.1);
  completions_of-insert = λ j c rows. refl;
  Artifacts = String → String → Option (ArtifactRow String);
  find_artifact = λ run_id key rows. rows run_id key;
  put_artifact =
      λ run_id key row rows. λ j l. if run_id == j && key == l then some row else rows j l;
  find-put_artifact = λ i k j l row rows. refl;
  of_payload = λ payload. payload.idempotency_key;
  merge = λ old new. new;
}

abbrev reports : ReportStore tables
reports = record { completions = (λ run_id. [], 7); artifacts = λ run_id key. none }

abbrev report : String → RunnerCompletionPayload ℕ
report key = record {
  idempotency_key = key;
  status = success_status;
  reason = none;
  artifact_state = complete;
  commit_sha = some "abc";
  changed_files = none;
  internal_artifacts = none;
  pr_url = none;
  pr_number = some 12;
  token_usage = none;
  title = none;
}

abbrev recorded : RunCompletionRecord ℕ
recorded = record {
  id = 7;
  run_id = "r1";
  idempotency_key = "k1";
  payload = report "k1";
  created_at = 10;
}

accepted_here : (record_completion tables "r1" (report "k1") 10 reports).0 ≡ ok recorded
unfolding record_completion created_completion
accepted_here = refl

first_report_wins_example :
    let after =
      report_all tables
        (("r2", report "k9", 20) ∷ ("r1", report "k2", 30) ∷ [])
        (record_completion tables "r1" (report "k1") 10 reports).1 in
    (recorded.idempotency_key ≡ "k1")
    × ((get_latest_completion tables "r1" after ≡ some recorded)
        × (record_completion tables "r1" (report "k3") 40 after ≡ (
          if recorded.idempotency_key == "k3"
              then ok recorded
              else err (completion_already_recorded "r1"),
          after,
        )))
first_report_wins_example =
    first_report_wins tables "r1" (report "k1") 10 reports recorded accepted_here
      (("r2", report "k9", 20) ∷ ("r1", report "k2", 30) ∷ []) (report "k3") 40

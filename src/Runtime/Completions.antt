-- ===== src/Runtime/Completions.antt =====
-- src/runtime/control-plane-store.ts: the completions and artifacts that a runner reports.
-- The two tables are parameters, with the laws of SQL; the JSON of `metadata` is a type with the
-- two operations that the store makes of it. The transaction of `recordCompletion` holds the lock of
-- its run.
pub mod Laws
use gooseherd.Prelude.{
  ℕ, zero, suc, ◌+◌, ◌-◌, ◌*◌, ◌/◌, ◌%◌, ◌≤◌, ◌<◌, String, ◌≡◌, refl, sym, ap, subst, ◌∙◌, ◌≢◌, ◌↔◌,
  ◌⊎◌, inl, inr, Bool, true, false, ◌&&◌, ◌||◌, not, Option, none, some, List, [], ◌∷◌, ◌++◌, map,
  max, arith, eq_iff, ltb, leb, nat_eq, nat_eq_iff, if◌then◌else◌, or_default, ◌<|>◌, Bool-cases,
  Option-cases, Eq, ◌==◌, String-Eq, Nat-Eq, ==_refl, ==_sym, length, any, every, keep, is_empty,
  head?, last_or, includes, add, delete, add_all, delete_all, distinct, includes-append,
  includes-add, includes-delete, includes-add_all, includes-delete_all, includes-distinct,
  delete_absent, Result, ok, err, ◌>>=◌, map_option,
}
use gooseherd.Runtime.Tokens.{ConflictError, completion_already_recorded}

pub data ArtifactState : Type 0 where
  complete partial failed : ArtifactState

pub data CompletionStatus : Type 0 where
  success_status failed_status : CompletionStatus

-- The token usage is passed through: its type is a parameter.
pub record RunnerCompletionPayload (TokenUsage : Type 0) : Type 0 where
  pub idempotency_key : String
  pub status : CompletionStatus
  pub reason : Option String
  pub artifact_state : ArtifactState
  pub commit_sha : Option String
  pub changed_files : Option (List String)
  pub internal_artifacts : Option (List String)
  pub pr_url : Option String
  pub pr_number : Option ℕ
  pub token_usage : Option TokenUsage
  pub title : Option String

pub record RunCompletionRecord (TokenUsage : Type 0) : Type 0 where
  pub id : ℕ
  pub run_id : String
  pub idempotency_key : String
  pub payload : RunnerCompletionPayload TokenUsage
  pub created_at : ℕ

pub record ArtifactRow (Json : Type 0) : Type 0 where
  pub artifact_class : String
  pub status : String
  pub metadata : Json

pub record ControlPlaneTables (TokenUsage Json : Type 0) : Type 1 where
  -- the completions of a run, the latest first
  pub Completions : Type 0
  pub completions_of : String → Completions → List (RunCompletionRecord TokenUsage)
  pub next_id : Completions → ℕ
  pub insert_completion : RunCompletionRecord TokenUsage → Completions → Completions
  pub completions_of-insert :
      (j : String) (c : RunCompletionRecord TokenUsage) (rows : Completions)
      → completions_of j (insert_completion c rows)
        ≡ (if c.run_id == j then c ∷ completions_of j rows else completions_of j rows)
  -- the artifact of a run under a key
  pub Artifacts : Type 0
  pub find_artifact : String → String → Artifacts → Option (ArtifactRow Json)
  pub put_artifact : String → String → ArtifactRow Json → Artifacts → Artifacts
  pub find-put_artifact :
      (i k j l : String) (row : ArtifactRow Json) (rows : Artifacts)
      → find_artifact j l (put_artifact i k row rows)
        ≡ (if i == j && k == l then some row else find_artifact j l rows)
  -- the columns of JSON
  pub of_payload : RunnerCompletionPayload TokenUsage → Json
  pub merge : Json → Json → Json

abbrev pub artifact_state_text : ArtifactState → String
artifact_state_text complete = "complete"
artifact_state_text partial = "partial"
artifact_state_text failed = "failed"

module _ {TokenUsage Json : Type 0} (tables : ControlPlaneTables TokenUsage Json) where
  open tables use {
    Completions, completions_of, next_id, insert_completion, Artifacts, find_artifact, put_artifact,
    of_payload, merge,
  }

  pub record ReportStore : Type 0 where
    pub completions : Completions
    pub artifacts : Artifacts

  unfoldable pub created_completion :
      String → RunnerCompletionPayload TokenUsage → ℕ → ReportStore → RunCompletionRecord TokenUsage
  created_completion run_id payload now s = record {
    id = next_id s.completions;
    run_id = run_id;
    idempotency_key = payload.idempotency_key;
    payload = payload;
    created_at = now;
  }

  unfoldable pub record_new_completion :
      String
      → RunnerCompletionPayload TokenUsage
      → ℕ
      → ReportStore
      → Result ConflictError (RunCompletionRecord TokenUsage) × ReportStore
  unfolding created_completion
  record_new_completion run_id payload now s =
      let created = created_completion run_id payload now s in
      (
        ok created,
        record s {
          completions = insert_completion created s.completions;
          artifacts =
              put_artifact run_id "result"
                (record {
                  artifact_class = "completion";
                  status = artifact_state_text payload.artifact_state;
                  metadata = of_payload payload;
                })
                s.artifacts;
        },
      )

  unfoldable pub record_completion :
      String
      → RunnerCompletionPayload TokenUsage
      → ℕ
      → ReportStore
      → Result ConflictError (RunCompletionRecord TokenUsage) × ReportStore
  unfolding record_new_completion
  record_completion run_id payload now s = elim (completions_of run_id s.completions) [
    | [] ↦ record_new_completion run_id payload now s
    | existing ∷ others ↦
        if existing.idempotency_key == payload.idempotency_key
        then (ok existing, s)
        else (err (completion_already_recorded run_id), s)
  ]

  unfoldable pub get_latest_completion :
      String → ReportStore → Option (RunCompletionRecord TokenUsage)
  get_latest_completion run_id s = head? (completions_of run_id s.completions)

  unfoldable pub upsert_artifact : String → String → String → Json → ReportStore → ReportStore
  upsert_artifact run_id artifact_key artifact_class metadata s = record s {
    artifacts =
        put_artifact run_id artifact_key
          (record { artifact_class = artifact_class; status = "pending"; metadata = metadata })
          s.artifacts;
  }

  unfoldable pub get_artifact : String → String → ReportStore → Option (ArtifactRow Json)
  get_artifact run_id artifact_key s = find_artifact run_id artifact_key s.artifacts

  -- `none` is the throw of a missing artifact.
  unfoldable pub mark_artifact_uploaded : String → String → Json → ReportStore → Option ReportStore
  unfolding get_artifact
  mark_artifact_uploaded run_id artifact_key metadata s =
      elim (get_artifact run_id artifact_key s) [
        | none ↦ none
        | some existing ↦ some (record s {
          artifacts =
              put_artifact run_id artifact_key
                (record existing {
                  status = "complete";
                  metadata = merge existing.metadata metadata;
                })
                s.artifacts;
        })
      ]

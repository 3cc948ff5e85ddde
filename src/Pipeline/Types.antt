-- ===== src/Pipeline/Types.antt =====
-- src/pipeline/types.ts, with the modes of task-classifier.ts and the failure codes of
-- browser-verify-routing.ts. The handlers of the nodes run processes and agents: they are a
-- parameter, and so is the context bag that they write, with the readings that the engine makes of
-- it. The duration of a node is left out.
use gooseherd.Prelude.{
  ℕ, String, Bool, true, false, Option, none, some, List, leb, if◌then◌else◌, String-Eq, Nat-Eq,
  Result,
}

pub data NodeOutcome : Type 0 where
  success failure skipped soft_fail : NodeOutcome

-- A text is resolved in the context bag. Limits are whole numbers.
pub data RoundLimit : Type 0 where
  rounds : ℕ → RoundLimit
  rounds_at : String → RoundLimit

pub data OnExhausted : Type 0 where
  fail_run complete_with_warning : OnExhausted

pub record LoopConfig : Type 0 where
  pub agent_node : String
  pub max_rounds : RoundLimit
  pub on_exhausted : Option OnExhausted

pub data OnSoftFail : Type 0 where
  warn fail_run_on_soft_fail : OnSoftFail

pub record NodeConfig : Type 0 where
  pub id : String
  pub action : String
  -- the text of `if`, where it is not empty
  pub condition : Option String
  pub enabled : Option Bool
  pub on_failure : Option LoopConfig
  pub on_soft_fail : Option OnSoftFail

pub record NodeResult (Outputs : Type 0) : Type 0 where
  pub outcome : NodeOutcome
  pub outputs : Option Outputs
  pub error : Option String
  pub raw_output : Option String

pub record PipelineStepResult : Type 0 where
  pub node_id : String
  pub outcome : NodeOutcome
  pub error : Option String

pub data PipelineOutcome : Type 0 where
  run_success run_failure completed_with_warnings : PipelineOutcome

pub data BrowserVerifyFailureCode : Type 0 where
  provider_mismatch auth_required auth_action_blocked signup_failed auth_exhausted feature_not_found
        accessibility_noise verify_inconclusive unknown :
      BrowserVerifyFailureCode

-- The codes are not empty texts, so that only a missing code is false.
unfoldable pub is_non_code_fix_failure : Option BrowserVerifyFailureCode → Bool
is_non_code_fix_failure none = false
is_non_code_fix_failure (some provider_mismatch) = true
is_non_code_fix_failure (some auth_exhausted) = true
is_non_code_fix_failure (some auth_action_blocked) = true
is_non_code_fix_failure (some accessibility_noise) = true
is_non_code_fix_failure (some verify_inconclusive) = true
is_non_code_fix_failure (some auth_required) = false
is_non_code_fix_failure (some signup_failed) = false
is_non_code_fix_failure (some feature_not_found) = false
is_non_code_fix_failure (some unknown) = false

pub data ExecutionMode : Type 0 where
  simple standard research : ExecutionMode

unfoldable pub escalate_mode : ExecutionMode → ℕ → ExecutionMode
escalate_mode simple failures = if leb 1 failures then standard else simple
escalate_mode standard failures = if leb 2 failures then research else standard
escalate_mode research failures = research

-- What a loop or a node warns of; the engine writes it as a text.
pub data LoopWarning : Type 0 where
  loop_bypassed : Option BrowserVerifyFailureCode → LoopWarning
  loop_exhausted : String → ℕ → LoopWarning

pub data Warning : Type 0 where
  loop_warned : String → List LoopWarning → Warning
  soft_failed : String → Option String → Warning

-- The nodes and the context bag. An error of a handler is its message.
pub record PipelineWorld : Type 1 where
  pub Ctx : Type 0
  pub Outputs : Type 0
  -- NODE_HANDLERS
  pub handler : String → Option (NodeConfig → Ctx → Result String (NodeResult Outputs) × Ctx)
  pub merge_outputs : Outputs → Ctx → Ctx
  -- the texts of `_skipNodes`, where it is an array
  pub skip_nodes : Outputs → List String
  -- `_goto`, where it is a text
  pub goto_target : Outputs → Option String
  pub should_run_node : String → Ctx → Bool
  pub aborted : Ctx → Bool
  -- the sandbox that `setup_sandbox` has requested
  pub has_sandbox : Ctx → Bool
  -- the number that a text resolves to, where it is finite
  pub number_at : String → Ctx → Option ℕ
  pub number_text : ℕ → String
  pub browser_failure_code : Ctx → Option BrowserVerifyFailureCode
  pub execution_mode : Ctx → Option ExecutionMode
  pub set_execution_mode : ExecutionMode → Ctx → Ctx
  pub set_loop_attempt : ℕ → Ctx → Ctx
  pub set_last_failure_raw_output : String → Ctx → Ctx
  pub append_browser_failure : ℕ → NodeResult Outputs → Ctx → Ctx
  -- the `lint_fix` handler, where a command is configured
  pub lint_fix : Ctx → Result String (Unit {0}) × Ctx

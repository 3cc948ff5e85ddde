-- ===== src/Pipeline/Loader.antt =====
-- src/pipeline/pipeline-loader.ts: the checks on a parsed pipeline. The YAML parser is a library: its
-- result is an argument, none for a text that it refuses. A message of an error is left out.
pub mod Valid
use gooseherd.Prelude.{
  ℕ, zero, suc, ◌+◌, ◌-◌, ◌*◌, ◌/◌, ◌%◌, ◌≤◌, ◌<◌, String, ◌≡◌, refl, sym, ap, subst, ◌∙◌, ◌≢◌, ◌↔◌,
  ◌⊎◌, inl, inr, Bool, true, false, ◌&&◌, ◌||◌, not, Option, none, some, List, [], ◌∷◌, ◌++◌, map,
  max, arith, eq_iff, ltb, leb, nat_eq, nat_eq_iff, if◌then◌else◌, or_default, ◌<|>◌, Bool-cases,
  Option-cases, List-cases, Eq, ◌==◌, String-Eq, Nat-Eq, ==_refl, ==_sym, length, any, every,
  every-append, keep, is_empty, head?, last_or, includes, add, delete, add_all, delete_all,
  distinct, includes-append, includes-add, includes-delete, includes-add_all, includes-delete_all,
  includes-distinct, delete_absent, trim, map_get, map_set, map_delete, map_get-map_set, Result, ok,
  err, Result-cases, Call, ◌>>=◌, ◌>>◌, return, throw, reads, writes, given, check, map_option,
}
use gooseherd.Prelude.Values.{
  Value, Items, missing, null, truth, string_value, whole, other_number, not_a_number, items,
  object, nil, cons, is_text, is_filled_text, is_this_text, is_one, is_truthy,
}

pub data PipelineLoadError : Type 0 where
  invalid_yaml not_an_object unsupported_version no_name no_nodes : PipelineLoadError
  -- a `TypeError`: a node is null
  null_node : PipelineLoadError
  no_id duplicate_id wrong_type unknown_action wrong_on_soft_fail wrong_on_failure_action
        no_agent_node no_max_rounds unknown_agent_node :
      PipelineLoadError

pub record PipelineConfig : Type 0 where
  pub name : String
  pub description : Value
  pub context : Value
  pub nodes : List Value

abbrev pub valid_types : List String
valid_types = "deterministic" ∷ "agentic" ∷ "conditional" ∷ "async" ∷ []

-- The keys of `NODE_HANDLERS` of src/pipeline/node-registry.ts.
abbrev pub valid_actions : List String
valid_actions =
    "clone" ∷ "hydrate_context" ∷ "implement" ∷ "lint_fix" ∷ "validate" ∷ "fix_validation"
    ∷ "commit" ∷ "push" ∷ "create_pr" ∷ "notify" ∷ "classify_task" ∷ "diff_gate" ∷ "forbidden_files"
    ∷ "security_scan" ∷ "wait_ci" ∷ "fix_ci" ∷ "triage_ci" ∷ "fix_browser" ∷ "scope_judge"
    ∷ "deploy_preview" ∷ "browser_verify" ∷ "plan_task" ∷ "local_test" ∷ "lightweight_checks"
    ∷ "ruby_syntax_gate" ∷ "upload_screenshot" ∷ "generate_title" ∷ "summarize_changes"
    ∷ "decide_next_step" ∷ "run" ∷ "setup_sandbox" ∷ "sync_base_branch" ∷ "resolve_rebase_conflicts"
    ∷ "squash_ready_for_merge" ∷ "generate_qa_uat" ∷ "post_qa_uat_comment" ∷ "investigate" ∷ []

-- The properties of a value: null and undefined throw, and what is no object has none of these.
unfoldable pub fields : Value → Option (String → Value)
fields missing = none
fields null = none
fields (object f) = some f
fields value = some (λ key. missing)

abbrev pub text_of : Value → String
text_of (string_value s) = s
text_of value = ""

-- `typeof value === "string" && value.trim()`
abbrev pub has_trimmed_text : Value → Bool
has_trimmed_text (string_value s) = not (trim s == "")
has_trimmed_text value = false

abbrev pub is_one_of : List String → Value → Bool
is_one_of names (string_value s) = includes s names
is_one_of names value = false

abbrev pub is_missing : Value → Bool
is_missing missing = true
is_missing value = false

-- The checks of `on_failure`, which is truthy and so not null.
unfoldable pub check_on_failure : Value → Option PipelineLoadError
unfolding fields
check_on_failure on_failure = elim (fields on_failure) [
  | none ↦ none
  | some f ↦
      if not (is_this_text "loop" (f "action"))
      then some wrong_on_failure_action
      else if not (is_text (f "agent_node"))
      then some no_agent_node
      else if not (is_truthy (f "max_rounds"))
      then some no_max_rounds
      else none
]

-- One turn of the first loop, after the checks of the identifier.
unfoldable pub check_node_fields : (String → Value) → Option PipelineLoadError
check_node_fields node =
    if not (is_one_of valid_types (node "type"))
    then some wrong_type
    else if not (is_one_of valid_actions (node "action"))
    then some unknown_action
    else if not (is_missing (node "on_soft_fail"))
        && not (is_one_of ("warn" ∷ "fail_run" ∷ []) (node "on_soft_fail"))
    then some wrong_on_soft_fail
    else if is_truthy (node "on_failure")
    then check_on_failure (node "on_failure")
    else none

-- The first loop: `seen_ids` is the set of the identifiers before.
unfoldable pub check_nodes : List String → List Value → Option PipelineLoadError
check_nodes seen_ids [] = none
check_nodes seen_ids (value ∷ nodes) = elim (fields value) [
  | none ↦ some null_node
  | some node ↦
      let id = text_of (node "id") in
      let rest = check_nodes (add id seen_ids) nodes in
      if not (has_trimmed_text (node "id"))
      then some no_id
      else if includes id seen_ids
      then some duplicate_id
      else elim (check_node_fields node) [ some e ↦ some e | none ↦ rest ]
]

-- What the second loop finds in a node: the action of a truthy `on_failure`.
abbrev pub names_agent : Value → Bool
names_agent value = elim (fields value) [
  | none ↦ false
  | some node ↦ elim (fields (node "on_failure")) [
    | none ↦ true
    | some f ↦ not (is_truthy (node "on_failure")) || is_one_of valid_actions (f "agent_node")
  ]
]

unfoldable pub check_agents : List Value → Option PipelineLoadError
check_agents [] = none
check_agents (value ∷ nodes) =
    let rest = check_agents nodes in if names_agent value then rest else some unknown_agent_node

unfoldable pub to_list : Items → List Value
to_list nil = []
to_list (cons x xs) = x ∷ to_list xs

abbrev pub array_of : Value → List Value
array_of (items xs) = to_list xs
array_of value = []

-- `loadPipelineFromString`, from the result of the parse.
unfoldable pub load_pipeline : Option Value → Result PipelineLoadError PipelineConfig
unfolding to_list
load_pipeline none = err invalid_yaml
load_pipeline (some parsed) = elim parsed [
  | object config ↦
      let nodes = array_of (config "nodes") in
      if not (is_one (config "version"))
      then err unsupported_version
      else if not (has_trimmed_text (config "name"))
      then err no_name
      else if is_empty nodes
      then err no_nodes
      else elim (check_nodes [] nodes) [
        | some e ↦ err e
        | none ↦ elim (check_agents nodes) [
          | some e ↦ err e
          | none ↦ ok (record {
            name = text_of (config "name");
            description = config "description";
            context = config "context";
            nodes = nodes;
          })
        ]
      ]
  | items xs ↦ err unsupported_version
  | value ↦ err not_an_object
]

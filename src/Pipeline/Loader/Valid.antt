-- ===== src/Pipeline/Loader/Valid.antt =====
-- Which parsed pipelines the loader takes.
use gooseherd.Prelude.{
  String, ◌≡◌, refl, inl, inr, Bool, true, false, ◌&&◌, ◌||◌, not, Option, none, some, List, [],
  ◌∷◌, map, arith, if◌then◌else◌, Option-cases, String-Eq, Nat-Eq, ==_sym, every, is_empty,
  includes, add, includes-add, Result, ok, err,
}
use gooseherd.Prelude.Values.{
  missing, null, truth, string_value, whole, other_number, not_a_number, items, Value, is_text,
  is_this_text, is_truthy, is_one, object,
}
use gooseherd.Pipeline.Loader.{
  PipelineLoadError, fields, text_of, has_trimmed_text, is_one_of, is_missing, valid_types,
  valid_actions, check_on_failure, check_node_fields, check_nodes, check_agents, array_of,
  PipelineConfig, load_pipeline,
}

-- A loop on failure: it names a registered action as its agent, and its rounds.
abbrev pub is_valid_loop : Value → Bool
is_valid_loop on_failure = elim (fields on_failure) [
  | none ↦ true
  | some f ↦
      is_this_text "loop" (f "action")
      && (is_one_of valid_actions (f "agent_node") && is_truthy (f "max_rounds"))
]

abbrev pub is_valid_node : Value → Bool
is_valid_node value = elim (fields value) [
  | none ↦ false
  | some node ↦
      has_trimmed_text (node "id")
      && (is_one_of valid_types (node "type")
          && (is_one_of valid_actions (node "action")
              && ((is_missing (node "on_soft_fail")
                    || is_one_of ("warn" ∷ "fail_run" ∷ []) (node "on_soft_fail"))
                  && (not (is_truthy (node "on_failure")) || is_valid_loop (node "on_failure")))))
]

abbrev pub id_of : Value → String
id_of value = elim (fields value) [ none ↦ "" | some node ↦ text_of (node "id") ]

unfoldable pub all_distinct : List String → Bool
all_distinct [] = true
all_distinct (x ∷ xs) = not (includes x xs) && all_distinct xs

unfoldable pub none_seen : List String → List String → Bool
none_seen seen [] = true
none_seen seen (x ∷ xs) = not (includes x seen) && none_seen seen xs

abbrev pub is_valid_pipeline : (String → Value) → Bool
is_valid_pipeline config =
    let nodes = array_of (config "nodes") in
    is_one (config "version")
    && (has_trimmed_text (config "name")
        && (not (is_empty nodes) && (every is_valid_node nodes && all_distinct (map id_of nodes))))

none_seen-add :
    (x : String) (seen xs : List String)
    → none_seen (add x seen) xs ≡ (not (includes x xs) && none_seen seen xs)
unfolding none_seen includes
none_seen-add x seen [] = refl
none_seen-add x seen (y ∷ xs) =
    ground (arith, includes-add y x seen, ==_sym x y, none_seen-add x seen xs)

abbrev passes : {A : Type 0} → Option A → Bool
passes none = true
passes (some a) = false

is_one_of-text :
    (names : List String) (value : Value) → is_one_of names value ≡ true → is_text value ≡ true
is_one_of-text names (string_value s) found = refl
is_one_of-text names missing found = ground arith
is_one_of-text names null found = ground arith
is_one_of-text names (truth b) found = ground arith
is_one_of-text names (whole n) found = ground arith
is_one_of-text names other_number found = ground arith
is_one_of-text names not_a_number found = ground arith
is_one_of-text names (items xs) found = ground arith
is_one_of-text names (object f) found = ground arith

check_on_failure-loop :
    (value : Value)
    → passes (check_on_failure value)
        && elim (fields value) [ none ↦ true | some f ↦ is_one_of valid_actions (f "agent_node") ]
      ≡ is_valid_loop value
unfolding check_on_failure
check_on_failure-loop value = elim (Option-cases (fields value)) [
  | inl null_like ↦ ground (arith, null_like)
  | inr (f, read) ↦ ground (arith, read, is_one_of-text valid_actions (f "agent_node"))
]

check_node_fields-valid :
    (node : String → Value)
    → passes (check_node_fields node) && elim (fields (node "on_failure")) [
      | none ↦ true
      | some f ↦ not (is_truthy (node "on_failure")) || is_one_of valid_actions (f "agent_node")
    ]
      ≡ (is_one_of valid_types (node "type")
          && (is_one_of valid_actions (node "action")
              && ((is_missing (node "on_soft_fail")
                    || is_one_of ("warn" ∷ "fail_run" ∷ []) (node "on_soft_fail"))
                  && (not (is_truthy (node "on_failure")) || is_valid_loop (node "on_failure")))))
unfolding check_node_fields
check_node_fields-valid node = elim (Option-cases (fields (node "on_failure"))) [
  | inl null_like ↦ ground (arith, null_like, check_on_failure-loop (node "on_failure"))
  | inr (f, read) ↦ ground (arith, read, check_on_failure-loop (node "on_failure"))
]

check_nodes-agents :
    (seen : List String) (nodes : List Value)
    → passes (check_nodes seen nodes) && passes (check_agents nodes) ≡ (
        every is_valid_node nodes
        && (all_distinct (map id_of nodes) && none_seen seen (map id_of nodes)))
unfolding check_nodes check_agents all_distinct none_seen
check_nodes-agents seen [] = refl
check_nodes-agents seen (value ∷ nodes) = elim (Option-cases (fields value)) [
  | inl null_like ↦ ground (arith, null_like)
  | inr (node, read) ↦ ground (
    arith,
    read,
    check_node_fields-valid node,
    none_seen-add (text_of (node "id")) seen (map id_of nodes),
    check_nodes-agents (add (text_of (node "id")) seen) nodes,
  )
]

none_seen-nothing : (xs : List String) → none_seen [] xs ≡ true
unfolding none_seen includes
none_seen-nothing [] = refl
none_seen-nothing (x ∷ xs) = none_seen-nothing xs

-- The nodes of a pipeline that was loaded.
abbrev pub loaded_nodes : Result PipelineLoadError PipelineConfig → Option (List Value)
loaded_nodes (ok pipeline) = some pipeline.nodes
loaded_nodes (err e) = none

-- A parsed object loads exactly when its version is 1, it has a name and nodes, the nodes have
-- distinct identifiers that are not blank, known types and registered actions, and a soft failure
-- mode or a fix loop is well formed, with a registered action as its agent; it loads with the
-- nodes that it lists.
pub load_pipeline-valid :
    (config : String → Value)
    → loaded_nodes (load_pipeline (some (object config)))
      ≡ (if is_valid_pipeline config then some (array_of (config "nodes")) else none)
unfolding load_pipeline
load_pipeline-valid config =
    let nodes = array_of (config "nodes") in
    ground (arith, check_nodes-agents [] nodes, none_seen-nothing (map id_of nodes))

-- ===== src/Tests/Loader.antt =====
-- A pipeline with a fix loop.
use gooseherd.Prelude.{
  String, ◌≡◌, refl, true, none, some, if◌then◌else◌, ◌==◌, String-Eq, Nat-Eq, includes, trim,
}
use gooseherd.Prelude.Values.{Value, missing, string_value, whole, items, object, nil, cons}
use gooseherd.Pipeline.Loader.{load_pipeline, array_of, fields, to_list}
use gooseherd.Pipeline.Loader.Valid.{
  loaded_nodes, is_valid_pipeline, load_pipeline-valid, all_distinct,
}

abbrev fix_loop : Value
fix_loop = object (λ key.
    if key == "action"
    then string_value "loop"
    else if key == "agent_node"
    then string_value "fix_validation"
    else if key == "max_rounds"
    then whole 2
    else missing)

abbrev node : String → Value → Value
node action on_failure = object (λ key.
    if key == "id"
    then string_value action
    else if key == "type"
    then string_value "deterministic"
    else if key == "action"
    then string_value action
    else if key == "on_failure"
    then on_failure
    else missing)

abbrev config : String → Value
config key =
    if key == "version"
    then whole 1
    else if key == "name"
    then string_value "default"
    else if key == "nodes"
    then items (cons (node "implement" missing) (cons (node "validate" fix_loop) nil))
    else missing

load_pipeline-valid_example :
    loaded_nodes (load_pipeline (some (object config)))
    ≡ (if is_valid_pipeline config then some (array_of (config "nodes")) else none)
load_pipeline-valid_example = load_pipeline-valid config

accepted : is_valid_pipeline config ≡ true
unfolding fields to_list trim includes all_distinct
accepted = refl

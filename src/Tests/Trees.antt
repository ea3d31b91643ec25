-- ===== src/Tests/Trees.antt =====
-- A port with a sensor and a switch: its names, its initialization and its deinitialization.
use nds.Prelude.{
  ℕ, ◌≡◌, refl, ◌≢◌, arith, true, false, none, some, [], ◌∷◌, All, Text, text_eq, text_lt, lookup,
  insert,
}
use nds.Types.{logic_error, warning, PvClass, input, output, InputPvType, OutputPvType, NodeType}
use nds.Node.{Tree, object, nil, cons, Base, Kind, pv}
use nds.Building.{
  set_parents, set_parent, build_full_name, full_name_of, build_full_name_from_port, behind_port,
}
use nds.World.{
  World, Context, done, failed, new_interface, register_command, register_pv,
  registration_terminated, base_initialize, commands_registered, register_commands, name_object,
  set_names, full_name_below, called, get_port, set_memory_name, register_class, registered,
  register_at, after_naming, pv_initialize,
}
use nds.Devices.{hold_node, hold}
use nds.Registry.History.{Step, Reach, Reach-Consistent}
use nds.Registry.Consistent.{Consistent}
use nds.Initialize.Fresh.{IsFresh}
use nds.Initialize.Lawful.{initialize_root_node-Consistent}
use nds.Deinitialize.Lawful.{deinitialize_root_node-Consistent}
use nds.Registry.{InputPv, register_input_pv, register_output_pv}
use nds.Initialize.{
  initialize_root_node, init_object, init_children, hold_root, node_initialize, close_node,
  next_child,
}
use nds.Initialize.Keeps.{found, Keeps}
use nds.Initialize.Found.{Entry, IsFound, pvs_of, initialize_root_node-IsFound}
use nds.Deinitialize.{
  deinitialize_root_node, deinit_object, deinit_children, base_deinitialize, pv_deinitialize,
  deregister_at,
}
use nds.Deinitialize.Gone.{IsNamed, IsGone, deinitialize_root_node-IsGone}
use nds.Deinitialize.Named.{Distinct}
use nds.Initialize.Again.{initialize_root_node-initialize_root_node}
use nds.Deinitialize.Back.{deinitialize_root_node-initialize_root_node}
use nds.External.{Component, Role, port, build_full_external_name, joined, below_parent, of_result}
use nds.External.Ports.{build_full_external_name-port}
use nds.Naming.{Rules, built, in_force, get_separator, get_name, build_name_from_rule}

abbrev rules : Rules
rules = record { sections = none; rules_name = [] }

abbrev ctx : Context
ctx = record {
  default_separator = λ n. 45 ∷ [];
  rules = rules;
  now = record { tv_sec = 5; tv_nsec = 0 };
}

abbrev base : ℕ → Base
base c = record {
  name = c ∷ [];
  has_parent = false;
  node_level = 0;
  log_level = warning;
  external_name = c ∷ [];
  full_name = c ∷ [];
  full_name_from_port = [];
  full_external_name = [];
  full_external_name_from_port = [];
  commands = (99 ∷ []) ∷ [];
}

abbrev sensor : Tree
sensor = object (base 115) (pv (input InputPvType.generic) 0) nil

abbrev switch : Tree
switch = object (base 119) (pv (output OutputPvType.generic) 1) nil

abbrev tree : Tree
tree = object (base 112) (Kind.port NodeType.generic none) (cons sensor (cons switch nil))

abbrev input_pv : Text → InputPv
input_pv n = record {
  full_name = n;
  decimation_factor = 1;
  decimation_count = 1;
  subscribers = [];
  destinations = [];
}

abbrev start : World
start = record {
  registry = record {
    inputs = λ a. input_pv [];
    output_name = λ a. [];
    registered_inputs = [];
    registered_outputs = [];
  };
  devices = record { allocated = []; held = []; events = [] };
  calls = [];
}

-- "p-s" and "p-w"
abbrev sensor_name : Text
sensor_name = 112 ∷ 45 ∷ 115 ∷ []

abbrev switch_name : Text
switch_name = 112 ∷ 45 ∷ 119 ∷ []

-- What the control system is told, in order, and that all goes well.
tree_calls :
    ((initialize_root_node ctx 9 4 tree start).1.calls
      ≡ new_interface (112 ∷ [])
        ∷ register_command (112 ∷ []) (99 ∷ [])
        ∷ register_command sensor_name (99 ∷ [])
        ∷ register_pv (112 ∷ []) 0
        ∷ register_command switch_name (99 ∷ [])
        ∷ register_pv (112 ∷ []) 1
        ∷ registration_terminated (112 ∷ [])
        ∷ [])
    × ((initialize_root_node ctx 9 4 tree start).2 ≡ done)
unfolding initialize_root_node init_object init_children hold_root node_initialize close_node
    next_child set_parents set_parent base_initialize commands_registered register_commands
    name_object set_names build_full_external_name below_parent joined of_result get_separator
    in_force get_name build_name_from_rule build_full_name full_name_of build_full_name_from_port
    behind_port full_name_below called get_port set_memory_name register_class registered
    register_at after_naming pv_initialize register_input_pv register_output_pv lookup insert
    text_eq text_lt hold_node hold
tree_calls = (refl, refl)

-- A second initialization fails.
tree_again :
    (let r = initialize_root_node ctx 9 4 tree start in (initialize_root_node ctx 9 4 r.0 r.1).2)
    ≡ failed logic_error
unfolding initialize_root_node init_object init_children hold_root node_initialize close_node
    next_child set_parents set_parent base_initialize commands_registered register_commands
    name_object set_names build_full_external_name below_parent joined of_result get_separator
    in_force get_name build_name_from_rule build_full_name full_name_of build_full_name_from_port
    behind_port full_name_below called get_port set_memory_name register_class registered
    register_at after_naming pv_initialize register_input_pv register_output_pv lookup insert
    text_eq text_lt hold_node hold
tree_again = refl

initialize_root_node-IsFound_example :
    All
      (IsFound (initialize_root_node ctx 9 4 tree start).1.registry)
      (pvs_of (initialize_root_node ctx 9 4 tree start).0)
    × Keeps start.registry (initialize_root_node ctx 9 4 tree start).1.registry
initialize_root_node-IsFound_example =
    initialize_root_node-IsFound ctx 9 4 tree start (tree_calls.1)

tree-Distinct : Distinct (pvs_of (initialize_root_node ctx 9 4 tree start).0)
unfolding initialize_root_node init_object init_children hold_root node_initialize close_node
    next_child set_parents set_parent base_initialize commands_registered register_commands
    name_object set_names build_full_external_name below_parent joined of_result get_separator
    in_force get_name build_name_from_rule build_full_name full_name_of build_full_name_from_port
    behind_port full_name_below called get_port set_memory_name register_class registered
    register_at after_naming pv_initialize register_input_pv register_output_pv lookup insert
    text_eq text_lt hold_node hold pvs_of
tree-Distinct = ((tt, tt), (tt, tt))

deinitialize_root_node-initialize_root_node_example :
    let made = initialize_root_node ctx 9 4 tree start in
    let left = deinitialize_root_node made.0 made.1 in
    (left.1 ≡ done) × All (IsGone left.0.registry) (pvs_of made.0)
deinitialize_root_node-initialize_root_node_example =
    deinitialize_root_node-initialize_root_node ctx 9 4 tree start tree_calls.1 tree-Distinct

initialize_root_node-initialize_root_node_example :
    let made = initialize_root_node ctx 9 4 tree start in
    (initialize_root_node ctx 8 4 made.0 made.1).2 ≢ done
initialize_root_node-initialize_root_node_example =
    initialize_root_node-initialize_root_node ctx ctx 9 8 4 4 (base 112)
      (Kind.port NodeType.generic none) sensor (cons switch nil) start
      (initialize_root_node ctx 9 4 tree start).1 tree_calls.1

-- A tree and a world after such an initialization.
abbrev named : ℕ → Text → Base
named c n = record (base c) { full_name = n }

abbrev tree' : Tree
tree' = object (named 112 (112 ∷ [])) (Kind.port NodeType.generic (some (112 ∷ []))) (
    cons (object (named 115 sensor_name) (pv (input InputPvType.generic) 0) nil)
      (cons (object (named 119 switch_name) (pv (output OutputPvType.generic) 1) nil) nil))

abbrev world' : World
world' = record start {
  registry = record {
    inputs = λ a. input_pv sensor_name;
    output_name = λ a. switch_name;
    registered_inputs = (sensor_name, 0) ∷ [];
    registered_outputs = (switch_name, 1) ∷ [];
  };
}

tree'-names : All (IsNamed world'.registry) (pvs_of tree')
unfolding pvs_of
tree'-names = (refl, (refl, tt))

tree'-ends : (deinitialize_root_node tree' world').1 ≡ done
unfolding deinitialize_root_node deinit_object deinit_children base_deinitialize pv_deinitialize
    deregister_at called get_port
tree'-ends = refl

deinitialize_root_node-IsGone_example :
    All (IsGone (deinitialize_root_node tree' world').0.registry) (pvs_of tree')
    × ((c : PvClass)
        → (n : Text) → found c n world'.registry ≡ none
        → found c n (deinitialize_root_node tree' world').0.registry ≡ none)
deinitialize_root_node-IsGone_example =
    deinitialize_root_node-IsGone tree' world' tree'-names tree'-ends

abbrev port_component : Component
port_component = record { external_name = 112 ∷ []; role = port NodeType.generic; node_level = 0 }

abbrev sensor_component : Component
sensor_component = record {
  external_name = 115 ∷ [];
  role = Role.pv (input InputPvType.generic);
  node_level = 1;
}

abbrev separator : ℕ → Text
separator n = 45 ∷ []

no_rules : in_force rules ≡ none
unfolding in_force
no_rules = refl

from_port :
    build_full_external_name separator rules true sensor_component (port_component ∷ [])
    ≡ built (45 ∷ 115 ∷ [])
unfolding build_full_external_name below_parent joined of_result get_separator in_force get_name
    build_name_from_rule
from_port = refl

build_full_external_name-port_example :
    build_full_external_name separator rules false sensor_component (port_component ∷ [])
    ≡ joined
        (build_full_external_name separator rules false port_component [])
        (built (45 ∷ 115 ∷ []))
build_full_external_name-port_example =
    build_full_external_name-port separator rules sensor_component port_component [] []
      (45 ∷ 115 ∷ []) refl refl tt from_port

start-Consistent : Consistent start.registry
start-Consistent = Reach-Consistent (λ a. input_pv []) (λ a. []) Reach.here

tree-IsFresh : All (λ (e : Entry). IsFresh start.registry e.0 e.1) (pvs_of tree)
unfolding pvs_of lookup
tree-IsFresh = (((λ n e. absurd (ground arith)), refl, refl), ((λ n e. absurd (ground arith)), tt))

initialize_root_node-Consistent_example :
    Consistent (initialize_root_node ctx 9 4 tree start).1.registry
unfolding pvs_of
initialize_root_node-Consistent_example =
    initialize_root_node-Consistent ctx 9 4 tree start start-Consistent tree-IsFresh
      ((tt, tt), (tt, tt))

world'-Consistent : Consistent world'.registry
unfolding register_input_pv register_output_pv lookup insert text_eq text_lt
world'-Consistent =
    Reach-Consistent (λ a. input_pv sensor_name) (λ a. switch_name)
      (Reach.next (Reach.next Reach.here (Step.register_in 0 refl refl refl))
        (Step.register_out 1 refl))

deinitialize_root_node-Consistent_example :
    Consistent (deinitialize_root_node tree' world').0.registry
unfolding pvs_of lookup text_eq
deinitialize_root_node-Consistent_example =
    deinitialize_root_node-Consistent tree' world' world'-Consistent (refl, (refl, tt))
      ((tt, tt), (tt, tt))

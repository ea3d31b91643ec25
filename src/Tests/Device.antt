-- ===== src/Tests/Device.antt =====
-- An oscilloscope that is made and initialized.
use nds.Prelude.{◌≡◌, refl, none, [], ◌∷◌, Text, text_eq, text_lt, lookup, insert}
use nds.Types.{Timespec, ok}
use nds.Node.{Tree}
use nds.Naming.{Rules, in_force, get_separator, get_name, build_name_from_rule}
use nds.World.{
  World, Context, done, base_initialize, commands_registered, register_commands, name_object,
  set_names, full_name_below, called, get_port, set_memory_name, register_class, registered,
  register_at, after_naming, pv_initialize,
}
use nds.Devices.{hold_node, hold}
use nds.Registry.{InputPv, register_input_pv, register_output_pv}
use nds.Initialize.{
  initialize_root_node, init_object, init_children, hold_root, node_initialize, close_node,
  next_child,
}
use nds.External.{build_full_external_name, joined, below_parent, of_result}
use nds.Building.{
  set_parents, set_parent, build_full_name, full_name_of, build_full_name_from_port, behind_port,
  add_child, has_child, insert_child,
}
use nds.Acquisition.{
  new_acquisition_node, new_state_machine, add_children, as_machine, with_machine,
}
use nds.Attributes.{new_base, new_pv}
use nds.Oscilloscope.{oscilloscope_tree, acquisition_tree}

abbrev never : Timespec
never = record { tv_sec = 0; tv_nsec = 0 }

abbrev rules : Rules
rules = record { sections = none; rules_name = [] }

abbrev ctx : Context
ctx = record {
  default_separator = λ n. 45 ∷ [];
  rules = rules;
  now = record { tv_sec = 5; tv_nsec = 0 };
}

abbrev input_pv : Text → InputPv
input_pv n = record {
  full_name = n;
  decimation_factor = 1;
  decimation_count = 1;
  subscribers = [];
  destinations = [];
}

abbrev start : World
start = record {
  registry = record {
    inputs = λ a. input_pv [];
    output_name = λ a. [];
    registered_inputs = [];
    registered_outputs = [];
  };
  devices = record { allocated = []; held = []; events = [] };
  calls = [];
}

-- "o"
abbrev device_name : Text
device_name = 111 ∷ []

abbrev device_tree : (t : Tree) × (oscilloscope_tree never device_name ≡ ok t)
unfolding oscilloscope_tree acquisition_tree new_acquisition_node new_state_machine add_children
    as_machine with_machine new_base new_pv add_child has_child insert_child text_eq text_lt
device_tree = (_, refl)

-- All its PVs are registered, and it is held.
device_initialized : (initialize_root_node ctx 9 4 device_tree.0 start).2 ≡ done
unfolding initialize_root_node init_object init_children hold_root node_initialize close_node
    next_child set_parents set_parent base_initialize commands_registered register_commands
    name_object set_names build_full_external_name below_parent joined of_result get_separator
    in_force get_name build_name_from_rule build_full_name full_name_of build_full_name_from_port
    behind_port full_name_below called get_port set_memory_name register_class registered
    register_at after_naming pv_initialize register_input_pv register_output_pv lookup insert
    text_eq text_lt hold_node hold oscilloscope_tree acquisition_tree new_acquisition_node
    new_state_machine add_children as_machine with_machine new_base new_pv add_child has_child
    insert_child
device_initialized = refl

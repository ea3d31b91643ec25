-- ===== src/World.antt =====
-- What the initialization of an object does to the control system, the registry of the PVs and the
-- devices: initialize of src/baseImpl.cpp, src/pvBaseImpl.cpp, src/pvBaseInImpl.cpp and
-- src/pvBaseOutImpl.cpp, and getPort. The calls of the control system are taken to return.
use nds.Prelude.{ℕ, true, false, Option, none, some, List, [], ◌∷◌, ◌++◌, map, Text, update}
use nds.Types.{Result, ok, err, Exception, State, Timespec, PvClass, input, output, state_machine}
use nds.Node.{Base, Kind, machine, pv, plain}
use nds.Building.{build_full_name, build_full_name_from_port, Step}
use nds.External.{Role, node, Component, is_port_role, build_full_external_name}
use nds.Naming.{Rules, Built, built, refused, undefined}
use nds.Registry.{
  Registry, register_input_pv, register_output_pv, deregister_input_pv, deregister_output_pv,
}
use nds.Devices.{Devices}

-- The calls that reach the control system.
pub data Call : Type 0 where
  new_interface : (port : Text) → Call
  register_command : (node command : Text) → Call
  deregister_command : (node : Text) → Call
  register_pv deregister_pv : (port : Text) (pv : ℕ) → Call
  registration_terminated : (port : Text) → Call
  push_state : (machine : Text) → Timespec → State → Call

pub record World : Type 0 where
  pub registry : Registry
  pub devices : Devices
  pub calls : List Call

-- `stopped`: `throw;` where no exception is handled, or a naming rule that is no format for a string.
pub data Ending : Type 0 where
  done : Ending
  failed : Exception → Ending
  stopped : Ending

-- The control system's default separators and naming rules, and the time that getTimestamp yields.
pub record Context : Type 0 where
  pub default_separator : ℕ → Text
  pub rules : Rules
  pub now : Timespec

-- An object above another.
pub record Above : Type 0 where
  pub base : Base
  pub kind : Kind

abbrev pub role_of : Kind → Role
role_of (pv c a) = Role.pv c
role_of (machine t s) = node state_machine
role_of (plain t) = node t
role_of (Kind.port t i) = Role.port t

abbrev pub step_of : Above → Step
step_of a = record { name = a.base.name; is_port = is_port_role (role_of a.kind) }

abbrev pub component_of : Above → Component
component_of a = record {
  external_name = a.base.external_name;
  role = role_of a.kind;
  node_level = a.base.node_level;
}

unfoldable pub full_name_below : Base → Kind → List Above → Text
full_name_below b k above =
    build_full_name (step_of (record { base = b; kind = k })) (map step_of above)

-- The four names, made in order: the first external name that fails leaves the rest as they were.
unfoldable pub set_names : Base → Text → Text → Built → Built → Base × Ending
set_names b full from_port (built ext) (built ext_from_port) = (
  record b {
    full_name = full;
    full_name_from_port = from_port;
    full_external_name = ext;
    full_external_name_from_port = ext_from_port;
  },
  done,
)
set_names b full from_port (built ext) (refused e) = (
  record b { full_name = full; full_name_from_port = from_port; full_external_name = ext },
  failed e,
)
set_names b full from_port (built ext) undefined = (
  record b { full_name = full; full_name_from_port = from_port; full_external_name = ext },
  stopped,
)
set_names b full from_port (refused e) ext_from_port =
    (record b { full_name = full; full_name_from_port = from_port }, failed e)
set_names b full from_port undefined ext_from_port =
    (record b { full_name = full; full_name_from_port = from_port }, stopped)

unfoldable pub name_object : Context → List Above → Base → Kind → Base × Ending
name_object ctx above b k =
    let self : Above = record { base = b; kind = k } in
    set_names b (build_full_name (step_of self) (map step_of above))
      (build_full_name_from_port (step_of self) (map step_of above))
      (build_full_external_name ctx.default_separator ctx.rules false (component_of self)
        (map component_of above))
      (build_full_external_name ctx.default_separator ctx.rules true (component_of self)
        (map component_of above))

unfoldable pub called : List Call → World → World
called cs w = record w { calls = w.calls ++ cs }

-- BaseImpl::initialize after the names are made: the commands are registered.
unfoldable pub register_commands : Base × Ending → World → World × Ending
register_commands (b, done) w = (called (map (register_command b.full_name) b.commands) w, done)
register_commands (b, failed e) w = (w, failed e)
register_commands (b, stopped) w = (w, stopped)

unfoldable pub commands_registered : Base × Ending → World → Base × World × Ending
commands_registered named w = let (w', end) = register_commands named w in (named.0, w', end)

unfoldable pub base_initialize : Context → List Above → Base → Kind → World → Base × World × Ending
base_initialize ctx above b k w = commands_registered (name_object ctx above b k) w

-- getPort, from the objects above: the nearest port's interface.
unfoldable pub get_port : List Above → Option Text
get_port [] = none
get_port (a ∷ above) = elim a.kind [ Kind.port t i ↦ i | _ ↦ get_port above ]

-- The name is a member of the PV, which the registry reads.
unfoldable pub set_memory_name : PvClass → ℕ → Text → Registry → Registry
set_memory_name (input t) a name r = record r {
  inputs = update r.inputs a (record (r.inputs a) { full_name = name });
}
set_memory_name (output t) a name r = record r { output_name = update r.output_name a name }

unfoldable pub register_class : PvClass → ℕ → Registry → Result Registry
register_class (input t) a r = register_input_pv a r
register_class (output t) a r = register_output_pv a r

unfoldable pub deregister_class : PvClass → ℕ → Registry → Registry
deregister_class (input t) a r = deregister_input_pv a r
deregister_class (output t) a r = deregister_output_pv a r

unfoldable pub registered : World → Result Registry → World × Ending
registered w (ok r) = (record w { registry = r }, done)
registered w (err e) = (w, failed e)

-- What PVBaseImpl::initialize and the override in the class do after BaseImpl::initialize.
unfoldable pub register_at : Option Text → PvClass → ℕ → World → World × Ending
register_at none c a w = (w, stopped)
register_at (some i) c a w =
    registered (called (register_pv i a ∷ []) w) (register_class c a w.registry)

unfoldable pub after_naming :
    List Above → PvClass → ℕ → Base × World × Ending → Base × World × Ending
after_naming above c a (b, w, done) =
    let named = record w { registry = set_memory_name c a b.full_name w.registry } in
    let (w', end) = register_at (get_port above) c a named in (b, w', end)
after_naming above c a (b, w, failed e) =
    (b, record w { registry = set_memory_name c a b.full_name w.registry }, failed e)
after_naming above c a (b, w, stopped) =
    (b, record w { registry = set_memory_name c a b.full_name w.registry }, stopped)

-- PVBaseInImpl::initialize and PVBaseOutImpl::initialize
unfoldable pub pv_initialize :
    Context → List Above → Base → PvClass → ℕ → World → Base × World × Ending
pv_initialize ctx above b c a w = after_naming above c a (base_initialize ctx above b (pv c a) w)

-- The calls after one that ended well.
abbrev pub and_then : World × Ending → World × Ending → World × Ending
and_then (w, done) rest = rest
and_then (w, failed e) rest = (w, failed e)
and_then (w, stopped) rest = (w, stopped)

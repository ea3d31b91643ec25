-- ===== src/External.antt =====
-- buildFullExternalName of src/nodeImpl.cpp, src/pvBaseInImpl.cpp, src/pvBaseOutImpl.cpp and
-- src/portImpl.cpp: the names by which a control system knows the objects of a tree.
pub mod Ports
pub mod Plain
use nds.Prelude.{ℕ, Bool, true, false, ◌&&◌, List, [], ◌∷◌, ◌++◌, if◌then◌else◌, Text}
use nds.Types.{
  Result, ok, err, NodeType, InputPvType, OutputPvType, PvClass, input, output, data_source_channel,
  data_sink_channel, state_machine, get_local_state, get_global_state, set_local_state,
}
use nds.Naming.{
  Rules, NameKind, root_name, generic_channel, source_channel, sink_channel, input_pv_name,
  output_pv_name, state_machine_name, set_state_name, get_state_name, get_global_state_name, Built,
  built, refused, undefined, get_separator, get_name,
}

-- Which class an object has, with the type that chooses its rule.
pub data Role : Type 0 where
  node port : NodeType → Role
  pv : PvClass → Role

-- `m_externalName`, the class, and `m_nodeLevel`.
pub record Component : Type 0 where
  pub external_name : Text
  pub role : Role
  pub node_level : ℕ

abbrev pub is_port_role : Role → Bool
is_port_role (port t) = true
is_port_role _ = false

-- The function of the control system that the `switch` calls.
abbrev pub node_name_kind : NodeType → NameKind
node_name_kind NodeType.generic = generic_channel
node_name_kind NodeType.input_channel = NameKind.input_channel
node_name_kind NodeType.output_channel = NameKind.output_channel
node_name_kind data_source_channel = source_channel
node_name_kind data_sink_channel = sink_channel
node_name_kind state_machine = state_machine_name

abbrev pub input_name_kind : InputPvType → NameKind
input_name_kind InputPvType.generic = input_pv_name
input_name_kind get_local_state = get_state_name
input_name_kind get_global_state = get_global_state_name

abbrev pub output_name_kind : OutputPvType → NameKind
output_name_kind OutputPvType.generic = output_pv_name
output_name_kind set_local_state = set_state_name

abbrev pub name_kind : Role → NameKind
name_kind (node t) = node_name_kind t
name_kind (port t) = node_name_kind t
name_kind (pv (input t)) = input_name_kind t
name_kind (pv (output t)) = output_name_kind t

-- `+` of two names, of which the first is made first.
unfoldable pub joined : Built → Built → Built
joined (built a) (built b) = built (a ++ b)
joined (built a) (refused e) = refused e
joined (built a) undefined = undefined
joined (refused e) b = refused e
joined undefined b = undefined

unfoldable pub of_result : Result Text → Built
of_result (ok s) = built s
of_result (err e) = refused e

-- What the name, that of the parent and the separator make. A component with no name adds nothing.
unfoldable pub below_parent : Built → Built → Built → Built
below_parent (built []) parent separator = parent
below_parent (built (c ∷ name)) parent separator =
    joined (joined parent separator) (built (c ∷ name))
below_parent (refused e) parent separator = refused e
below_parent undefined parent separator = undefined

-- From an object, and those above it with the nearest first. `stop` is `bStopAtPort`, at which the
-- function of a port gives the empty text; `default` is getDefaultSeparator.
unfoldable pub build_full_external_name :
    (ℕ → Text) → Rules → Bool → Component → List Component → Built
build_full_external_name default r stop c [] =
    if stop && is_port_role c.role
    then built []
    else joined (of_result (get_separator default r 0)) (get_name r root_name c.external_name)
build_full_external_name default r stop c (parent ∷ above) =
    let parent_name = build_full_external_name default r stop parent above in
    if stop && is_port_role c.role
    then built []
    else below_parent (get_name r (name_kind c.role) c.external_name) parent_name
        (of_result (get_separator default r c.node_level))

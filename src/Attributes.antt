-- ===== src/Attributes.antt =====
-- What the classes of PVs and nodes are made with: the constructors and the setters of
-- src/baseImpl.cpp, src/pvBaseImpl.cpp, src/pvBaseInImpl.cpp, src/pvBaseOutImpl.cpp,
-- src/pvDelegateOutImpl.cpp and src/pvActionImpl.cpp.
use nds.Prelude.{ℕ, Bool, true, false, Option, none, some, List, [], ◌∷◌, ◌++◌, Text}
use nds.Types.{Timespec, PvClass, input, output, warning}
use nds.Node.{Tree, Base, object, nil, pv}
use nds.Values.{DataType, Reader, Writer, dont_initialize}
use nds.Push.{PushState, PushEnd, finished, push, Write}

-- "setLogLevelDebug"
abbrev pub set_log_level_debug : Text
set_log_level_debug =
    115 ∷ 101 ∷ 116 ∷ 76 ∷ 111 ∷ 103 ∷ 76 ∷ 101 ∷ 118 ∷ 101 ∷ 108 ∷ 68 ∷ 101 ∷ 98 ∷ 117 ∷ 103 ∷ []

-- "setLogLevelInfo"
abbrev pub set_log_level_info : Text
set_log_level_info =
    115 ∷ 101 ∷ 116 ∷ 76 ∷ 111 ∷ 103 ∷ 76 ∷ 101 ∷ 118 ∷ 101 ∷ 108 ∷ 73 ∷ 110 ∷ 102 ∷ 111 ∷ []

-- "setLogLevelWarning"
abbrev pub set_log_level_warning : Text
set_log_level_warning =
    115 ∷ 101 ∷ 116 ∷ 76 ∷ 111 ∷ 103 ∷ 76 ∷ 101 ∷ 118 ∷ 101 ∷ 108 ∷ 87 ∷ 97 ∷ 114 ∷ 110 ∷ 105 ∷ 110
    ∷ 103 ∷ []

-- "setLogLevelError"
abbrev pub set_log_level_error : Text
set_log_level_error =
    115 ∷ 101 ∷ 116 ∷ 76 ∷ 111 ∷ 103 ∷ 76 ∷ 101 ∷ 118 ∷ 101 ∷ 108 ∷ 69 ∷ 114 ∷ 114 ∷ 111 ∷ 114 ∷ []

-- "replicate"
abbrev pub replicate_command : Text
replicate_command = 114 ∷ 101 ∷ 112 ∷ 108 ∷ 105 ∷ 99 ∷ 97 ∷ 116 ∷ 101 ∷ []

-- "decimation"
abbrev pub decimation_command : Text
decimation_command = 100 ∷ 101 ∷ 99 ∷ 105 ∷ 109 ∷ 97 ∷ 116 ∷ 105 ∷ 111 ∷ 110 ∷ []

-- "subscribe"
abbrev pub subscribe_command : Text
subscribe_command = 115 ∷ 117 ∷ 98 ∷ 115 ∷ 99 ∷ 114 ∷ 105 ∷ 98 ∷ 101 ∷ []

-- The constructor of BaseImpl.
unfoldable pub new_base : Text → Base
new_base name = record {
  name = name;
  has_parent = false;
  node_level = 0;
  log_level = warning;
  external_name = name;
  full_name = name;
  full_name_from_port = [];
  full_external_name = [];
  full_external_name_from_port = [];
  commands =
      set_log_level_debug ∷ set_log_level_info ∷ set_log_level_warning ∷ set_log_level_error ∷ [];
}

-- The constructors of PVBaseInImpl and PVBaseOutImpl, as far as the base class sees them.
unfoldable pub new_pv : Text → PvClass → ℕ → Tree
new_pv name (input t) a =
    let b = new_base name in
    object (record b { commands = b.commands ++ replicate_command ∷ decimation_command ∷ [] })
      (pv (input t) a) nil
new_pv name (output t) a =
    let b = new_base name in
    object (record b { commands = b.commands ++ subscribe_command ∷ [] }) (pv (output t) a) nil

-- `scanType_t`
pub data ScanType : Type 0 where
  periodic passive interrupt : ScanType

-- The members of PVBaseImpl; `F` are the values of `double`.
pub record Attributes (F : Type 0) : Type 0 where
  pub description : Text
  pub units : Text
  pub scan_type : ScanType
  pub periodic_scan_seconds : F
  pub max_elements : ℕ
  pub enumeration : List Text
  pub process_at_init : Bool

-- The constructor, where `one` is the double 1.
unfoldable pub new_attributes : {F : Type 0} → F → Attributes F
new_attributes one = record {
  description = [];
  units = [];
  scan_type = passive;
  periodic_scan_seconds = one;
  max_elements = 1;
  enumeration = [];
  process_at_init = false;
}

module _ {F : Type 0} where
  abbrev pub set_description : Text → Attributes F → Attributes F
  set_description s p = record p { description = s }

  abbrev pub set_units : Text → Attributes F → Attributes F
  set_units s p = record p { units = s }

  abbrev pub set_scan_type : ScanType → F → Attributes F → Attributes F
  set_scan_type scan period p = record p { scan_type = scan; periodic_scan_seconds = period }

  abbrev pub set_max_elements : ℕ → Attributes F → Attributes F
  set_max_elements n p = record p { max_elements = n }

  abbrev pub set_enumeration : List Text → Attributes F → Attributes F
  set_enumeration names p = record p { enumeration = names }

  abbrev pub set_process_at_init : Bool → Attributes F → Attributes F
  set_process_at_init b p = record p { process_at_init = b }

-- PVDelegateOutImpl, and PVActionImpl, whose type is int32.
pub record Delegate (F W : Type 0) (t : DataType) : Type 0 where
  pub writer : Writer F W t
  pub initializer : Reader F W t
  pub attributes : Attributes F

-- The constructor with an initialization function, and the one without.
unfoldable pub new_delegate_with :
    {F W : Type 0} → F → (t : DataType) → Writer F W t → Reader F W t → Delegate F W t
new_delegate_with one t write_function init_value = record {
  writer = write_function;
  initializer = init_value;
  attributes = set_process_at_init true (new_attributes one);
}

unfoldable pub new_delegate : {F W : Type 0} → F → (t : DataType) → Writer F W t → Delegate F W t
new_delegate {F} {W} one t write_function = record {
  writer = write_function;
  initializer = dont_initialize F W t;
  attributes = set_process_at_init false (new_attributes one);
}

-- PVActionImpl::setValueBack, with the acknowledge PV that was set, if any.
unfoldable pub set_value_back :
    {V : Type 0}
    → Write V
    → (fuel : ℕ) → Option ℕ
    → Timespec
    → V
    → PushState V
    → PushState V × PushEnd
set_value_back write fuel none ts v st = (st, finished)
set_value_back write fuel (some a) ts v st = push write fuel [] ts v a st

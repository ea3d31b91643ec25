-- ===== src/Commands.antt =====
-- The commands of the objects, and the other functions of src/baseImpl.cpp that no tree is needed for:
-- the tables that the constructors fill, and what the commands call.
pub mod Tables
use nds.Prelude.{ℕ, Option, none, some, List, [], ◌∷◌, ◌++◌, Text}
use nds.Types.{
  Timespec, PvClass, input, output, LogLevel, debug, info, warning, error, State, on, off, running,
  Result,
}
use nds.Node.{Tree, Base, set_log_level}
use nds.StateMachine.{StateMachine, Call, set_state}
use nds.Registry.{Registry, InputPv, replicate_pv, subscribe_pv}
use nds.Push.{set_decimation}
use nds.Attributes.{
  set_log_level_debug, set_log_level_info, set_log_level_warning, set_log_level_error,
  replicate_command, decimation_command, subscribe_command,
}

-- What a command is bound to.
pub data Function : Type 0 where
  log_level_to : LogLevel → Function
  replicate_from decimate_by subscribe_from : Function
  state_to : State → Function

-- `commandDefinition_t`
pub record Command : Type 0 where
  pub command : Text
  pub usage : Text
  pub number_of_parameters : ℕ
  pub function : Function

-- BaseImpl::defineCommand
unfoldable pub define_command : Text → Text → ℕ → Function → List Command → List Command
define_command name text n f commands =
    commands ++ record { command = name; usage = text; number_of_parameters = n; function = f } ∷ []

-- "replicate destination source"
abbrev pub replicate_usage : Text
replicate_usage =
    114 ∷ 101 ∷ 112 ∷ 108 ∷ 105 ∷ 99 ∷ 97 ∷ 116 ∷ 101 ∷ 32 ∷ 100 ∷ 101 ∷ 115 ∷ 116 ∷ 105 ∷ 110 ∷ 97
    ∷ 116 ∷ 105 ∷ 111 ∷ 110 ∷ 32 ∷ 115 ∷ 111 ∷ 117 ∷ 114 ∷ 99 ∷ 101 ∷ []

-- "decimation node decimationFactor"
abbrev pub decimation_usage : Text
decimation_usage =
    100 ∷ 101 ∷ 99 ∷ 105 ∷ 109 ∷ 97 ∷ 116 ∷ 105 ∷ 111 ∷ 110 ∷ 32 ∷ 110 ∷ 111 ∷ 100 ∷ 101 ∷ 32 ∷ 100
    ∷ 101 ∷ 99 ∷ 105 ∷ 109 ∷ 97 ∷ 116 ∷ 105 ∷ 111 ∷ 110 ∷ 70 ∷ 97 ∷ 99 ∷ 116 ∷ 111 ∷ 114 ∷ []

-- "subscribe destination source"
abbrev pub subscribe_usage : Text
subscribe_usage =
    115 ∷ 117 ∷ 98 ∷ 115 ∷ 99 ∷ 114 ∷ 105 ∷ 98 ∷ 101 ∷ 32 ∷ 100 ∷ 101 ∷ 115 ∷ 116 ∷ 105 ∷ 110 ∷ 97
    ∷ 116 ∷ 105 ∷ 111 ∷ 110 ∷ 32 ∷ 115 ∷ 111 ∷ 117 ∷ 114 ∷ 99 ∷ 101 ∷ []

-- What the constructor of BaseImpl defines.
unfoldable pub base_table : List Command
base_table = define_command set_log_level_error [] 0 (log_level_to error) (
    define_command set_log_level_warning [] 0 (log_level_to warning) (
      define_command set_log_level_info [] 0 (log_level_to info)
        (define_command set_log_level_debug [] 0 (log_level_to debug) [])))

-- What the constructors of PVBaseInImpl and PVBaseOutImpl add.
unfoldable pub pv_table : PvClass → List Command
pv_table (input t) =
    define_command decimation_command decimation_usage 1 decimate_by
      (define_command replicate_command replicate_usage 1 replicate_from base_table)
pv_table (output t) = define_command subscribe_command subscribe_usage 1 subscribe_from base_table

-- "switchOn"
abbrev pub switch_on_command : Text
switch_on_command = 115 ∷ 119 ∷ 105 ∷ 116 ∷ 99 ∷ 104 ∷ 79 ∷ 110 ∷ []

-- "switchOff"
abbrev pub switch_off_command : Text
switch_off_command = 115 ∷ 119 ∷ 105 ∷ 116 ∷ 99 ∷ 104 ∷ 79 ∷ 102 ∷ 102 ∷ []

-- "start"
abbrev pub start_command : Text
start_command = 115 ∷ 116 ∷ 97 ∷ 114 ∷ 116 ∷ []

-- "stop"
abbrev pub stop_command : Text
stop_command = 115 ∷ 116 ∷ 111 ∷ 112 ∷ []

-- What the constructor of StateMachineImpl adds, and addChild to the parent of a state machine.
unfoldable pub machine_table : List Command → List Command
machine_table commands = define_command stop_command [] 0 (state_to on) (
    define_command start_command [] 0 (state_to running) (
      define_command switch_off_command [] 0 (state_to off)
        (define_command switch_on_command [] 0 (state_to on) commands)))

-- `parameters[0]`; with no parameter it is undefined.
unfoldable pub first_parameter : List Text → Option Text
first_parameter [] = none
first_parameter (p ∷ ps) = some p

-- commandReplicate of the input PV at an address.
unfoldable pub command_replicate : List Text → ℕ → Registry → Option (Result Registry)
command_replicate parameters a r = elim (first_parameter parameters) [
  | none ↦ none
  | some p ↦ some (replicate_pv p a r)
]

-- commandSubscribeTo of the output PV at an address.
unfoldable pub command_subscribe_to : List Text → ℕ → Registry → Option (Result Registry)
command_subscribe_to parameters a r = elim (first_parameter parameters) [
  | none ↦ none
  | some p ↦ some (subscribe_pv p a r)
]

-- commandDecimation; `extract` is what `>>` of a stream with that text leaves in a uint32_t.
unfoldable pub command_decimation : (Text → ℕ) → List Text → InputPv → Option InputPv
command_decimation extract parameters p = elim (first_parameter parameters) [
  | none ↦ none
  | some text ↦ some (set_decimation (extract text) p)
]

-- commandSetLogLevel, whose setLogLevel is that of the object's class.
unfoldable pub command_set_log_level : LogLevel → List Text → Tree → Tree
command_set_log_level l parameters t = set_log_level l t

unfoldable pub command_set_state :
    {W : Type 0} → State → List Text → StateMachine W → Timespec × State → W → Call W
command_set_state state parameters m children w = set_state m children state w

-- BaseImpl::setExternalName
unfoldable pub set_external_name : Text → Base → Base
set_external_name name b = record b { external_name = name }

-- getTimestamp of an object, from its delegate and those of the objects above it, the nearest first,
-- where none is getLocalTimestamp; `clock` is clock_gettime.
unfoldable pub get_timestamp :
    {W : Type 0} → (clock : W → W × Timespec) → List (Option (W → W × Timespec)) → W → W × Timespec
get_timestamp clock [] w = clock w
get_timestamp clock (some delegate ∷ above) w = delegate w
get_timestamp clock (none ∷ above) w = get_timestamp clock above w

-- ===== src/Acquisition.antt =====
-- src/dataAcquisitionImpl.cpp, and the children that the constructor in src/stateMachineImpl.cpp
-- makes: a node with the PVs of an acquisition and a state machine.
pub mod Started
use nds.Prelude.{ℕ, suc, ◌+◌, ◌-◌, ◌%◌, ◌^◌, ℤ, pos, negsuc, List, [], ◌∷◌, ◌++◌, Text}
use nds.Types.{Timespec, input, output, InputPvType, OutputPvType, Result, ok, err, off}
use nds.Node.{Tree, Children, Base, object, nil, machine}
use nds.Building.{add_child, machine_commands}
use nds.Values.{float64, int32, Variable, variable_write, new_variable}
use nds.Push.{set_decimation}
use nds.Attributes.{new_base, new_pv}
use nds.Registry.{InputPv}

-- "StateMachine"
abbrev pub state_machine_name : Text
state_machine_name = 83 ∷ 116 ∷ 97 ∷ 116 ∷ 101 ∷ 77 ∷ 97 ∷ 99 ∷ 104 ∷ 105 ∷ 110 ∷ 101 ∷ []

-- "setState"
abbrev pub set_state_name : Text
set_state_name = 115 ∷ 101 ∷ 116 ∷ 83 ∷ 116 ∷ 97 ∷ 116 ∷ 101 ∷ []

-- "getState"
abbrev pub get_state_name : Text
get_state_name = 103 ∷ 101 ∷ 116 ∷ 83 ∷ 116 ∷ 97 ∷ 116 ∷ 101 ∷ []

-- "getGlobalState"
abbrev pub get_global_state_name : Text
get_global_state_name =
    103 ∷ 101 ∷ 116 ∷ 71 ∷ 108 ∷ 111 ∷ 98 ∷ 97 ∷ 108 ∷ 83 ∷ 116 ∷ 97 ∷ 116 ∷ 101 ∷ []

-- "Data"
abbrev pub data_name : Text
data_name = 68 ∷ 97 ∷ 116 ∷ 97 ∷ []

-- "Frequency"
abbrev pub frequency_name : Text
frequency_name = 70 ∷ 114 ∷ 101 ∷ 113 ∷ 117 ∷ 101 ∷ 110 ∷ 99 ∷ 121 ∷ []

-- "Duration"
abbrev pub duration_name : Text
duration_name = 68 ∷ 117 ∷ 114 ∷ 97 ∷ 116 ∷ 105 ∷ 111 ∷ 110 ∷ []

-- "Amplitude"
abbrev pub amplitude_name : Text
amplitude_name = 65 ∷ 109 ∷ 112 ∷ 108 ∷ 105 ∷ 116 ∷ 117 ∷ 100 ∷ 101 ∷ []

-- "Offset"
abbrev pub offset_name : Text
offset_name = 79 ∷ 102 ∷ 102 ∷ 115 ∷ 101 ∷ 116 ∷ []

-- "Decimation"
abbrev pub decimation_name : Text
decimation_name = 68 ∷ 101 ∷ 99 ∷ 105 ∷ 109 ∷ 97 ∷ 116 ∷ 105 ∷ 111 ∷ 110 ∷ []

-- "SamplingMode"
abbrev pub sampling_mode_name : Text
sampling_mode_name = 83 ∷ 97 ∷ 109 ∷ 112 ∷ 108 ∷ 105 ∷ 110 ∷ 103 ∷ 77 ∷ 111 ∷ 100 ∷ 101 ∷ []

-- "Ground"
abbrev pub ground_name : Text
ground_name = 71 ∷ 114 ∷ 111 ∷ 117 ∷ 110 ∷ 100 ∷ []

-- addChild of several children, one after the other.
unfoldable pub add_children : Base → Children → List Tree → Result (Base × Children)
add_children b cs [] = ok (b, cs)
add_children b cs (t ∷ ts) = elim (add_child b cs t) [
  | err e ↦ err e
  | ok made ↦ add_children made.0 made.1 ts
]

-- The object of the node, where the children could be added. The state machine is off; `uninit` is what
-- the memory of its timestamp holds.
unfoldable pub as_machine : Timespec → Result (Base × Children) → Result Tree
as_machine uninit (ok (b, cs)) =
    ok (object (record b { commands = b.commands ++ machine_commands }) (machine uninit off) cs)
as_machine uninit (err e) = err e

-- The constructor of StateMachineImpl; the three PVs stand at `a` and behind.
unfoldable pub new_state_machine : Timespec → ℕ → Result Tree
new_state_machine uninit a = as_machine uninit (
    add_children (new_base state_machine_name) nil (
      new_pv set_state_name (output OutputPvType.generic) a
      ∷ new_pv get_state_name (input InputPvType.generic) (1 + a)
      ∷ new_pv get_global_state_name (input InputPvType.generic) (2 + a)
      ∷ []))

-- The PVs that the constructor of DataAcquisitionImpl adds, in its order.
abbrev pub acquisition_pvs : ℕ → List Tree
acquisition_pvs a =
    new_pv data_name (input InputPvType.generic) a
    ∷ new_pv frequency_name (output OutputPvType.generic) (1 + a)
    ∷ new_pv duration_name (output OutputPvType.generic) (2 + a)
    ∷ new_pv amplitude_name (output OutputPvType.generic) (3 + a)
    ∷ new_pv offset_name (output OutputPvType.generic) (4 + a)
    ∷ new_pv decimation_name (output OutputPvType.generic) (5 + a)
    ∷ new_pv sampling_mode_name (output OutputPvType.generic) (6 + a)
    ∷ new_pv ground_name (output OutputPvType.generic) (7 + a)
    ∷ []

unfoldable pub with_machine : ℕ → Text → Result Tree → Result (Base × Children)
with_machine a name (ok m) = add_children (new_base name) nil (acquisition_pvs a ++ m ∷ [])
with_machine a name (err e) = err e

-- The node that the constructor of DataAcquisitionImpl makes.
unfoldable pub new_acquisition_node : Timespec → ℕ → Text → Result (Base × Children)
new_acquisition_node uninit a name = with_machine a name (new_state_machine uninit (8 + a))

-- The members of DataAcquisitionImpl. `data` has the decimation of the pushed data.
pub record Acquisition (F : Type 0) : Type 0 where
  pub data_pv : InputPv
  pub max_elements : ℕ
  pub frequency : Variable F float64
  pub duration : Variable F float64
  pub amplitude : Variable F float64
  pub offset : Variable F float64
  pub decimation : Variable F int32
  pub sampling_mode : Variable F int32
  pub ground : Variable F int32
  pub start_time : Timespec

-- The values with which the constructor leaves the PVs, where `now` is the time of getTimestamp and
-- `uninit` what the memory of the start time holds.
unfoldable pub new_acquisition :
    {F : Type 0} → (zero_f one : F) → (now uninit : Timespec) → InputPv → ℕ → Acquisition F
new_acquisition {F} zero_f one now uninit p n = record {
  data_pv = p;
  max_elements = n;
  frequency = (variable_write F float64 now one (new_variable F zero_f float64)).0;
  duration = new_variable F zero_f float64;
  amplitude = (variable_write F float64 now one (new_variable F zero_f float64)).0;
  offset = new_variable F zero_f float64;
  decimation = (variable_write F int32 now (pos 1) (new_variable F zero_f int32)).0;
  sampling_mode = (variable_write F int32 now (pos 1) (new_variable F zero_f int32)).0;
  ground = new_variable F zero_f int32;
  start_time = uninit;
}

-- The casts of an int32_t to uint32_t and to size_t, of 64 bits.
abbrev pub to_uint32 : ℤ → ℕ
to_uint32 (pos n) = n % 2 ^ 32
to_uint32 (negsuc n) = 2 ^ 32 - suc n

abbrev pub to_size : ℤ → ℕ
to_size (pos n) = n % 2 ^ 64
to_size (negsuc n) = 2 ^ 64 - suc n

module _ {F : Type 0} where
  abbrev pub get_frequency_hz : Acquisition F → F
  get_frequency_hz x = x.frequency.value

  abbrev pub get_duration_seconds : Acquisition F → F
  get_duration_seconds x = x.duration.value

  abbrev pub get_amplitude : Acquisition F → F
  get_amplitude x = x.amplitude.value

  abbrev pub get_offset : Acquisition F → F
  get_offset x = x.offset.value

  abbrev pub get_decimation : Acquisition F → ℕ
  get_decimation x = to_size x.decimation.value

  abbrev pub get_sampling_mode : Acquisition F → ℕ
  get_sampling_mode x = to_size x.sampling_mode.value

  abbrev pub get_ground : Acquisition F → ℕ
  get_ground x = to_size x.ground.value

  -- The function for the start time and the device's function for the start act on a world.
  unfoldable pub on_start :
      {W : Type 0}
      → (W → W × Timespec)
      → (W → W × Result Unit)
      → Acquisition F
      → W
      → Acquisition F × W × Result Unit
  on_start start_timestamp on_start_delegate x w =
      let (w1, ts) = start_timestamp w in
      let (w2, answer) = on_start_delegate w1 in
      (
        record x {
          start_time = ts;
          data_pv = set_decimation (to_uint32 x.decimation.value) x.data_pv;
        },
        w2,
        answer,
      )

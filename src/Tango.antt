-- ===== src/Tango.antt =====
-- src/tangoInterfaceImpl.cpp, where it does not call the TANGO library: the state of a device, the
-- conversions of time, and the attribute for each type of PV that include/nds3/definitions.h has.
pub mod Times
pub mod States
use nds.Prelude.{ℕ, ◌*◌, ◌/◌, Bool, true, false, Option, none, some}
use nds.Types.{State, Timespec, Exception, logic_error}
use nds.Values.{
  DataType, int32, float64, int8_array, uint8_array, int32_array, float64_array, string,
}
use nds.Attributes.{ScanType, periodic, interrupt}

-- The states of Tango::DevState that the code names.
pub data DevState : Type 0 where
  unknown fault init off on running : DevState

-- How get_state ends: `undefined` where the switch has no case, and nothing is returned.
pub data Told : Type 0 where
  reports : DevState → Told
  refused : Exception → Told
  undefined : Told

-- NdsDevice::get_state, from the root node's global state.
unfoldable pub get_state : State → Told
get_state State.unknown = reports DevState.unknown
get_state State.fault = reports DevState.fault
get_state State.initializing = reports init
get_state State.off = reports DevState.off
get_state State.on = reports DevState.on
get_state State.running = reports DevState.running
get_state State.starting = reports DevState.on
get_state State.stopping = reports DevState.on
get_state State.switching_off = reports DevState.off
get_state State.max_state_num = refused logic_error
get_state (State.above n) = undefined
get_state (State.below n) = undefined

-- timeval, of times that are not before the epoch.
pub record Timeval : Type 0 where
  pub tv_sec : ℕ
  pub tv_usec : ℕ

unfoldable pub nds_time_to_tango_time : Timespec → Timeval
nds_time_to_tango_time t = record { tv_sec = t.tv_sec; tv_usec = t.tv_nsec / 1000 }

unfoldable pub tango_time_to_nds_time : Timeval → Timespec
tango_time_to_nds_time t = record { tv_sec = t.tv_sec; tv_nsec = t.tv_usec * 1000 }

pub data CmdArgType : Type 0 where
  dev_uchar dev_long dev_double dev_string : CmdArgType

-- The attribute that registerPV adds: none, a scalar, or a spectrum of as many elements as the PV has.
pub data Attribute : Type 0 where
  nothing : Attribute
  scalar : CmdArgType → Attribute
  spectrum : CmdArgType → ℕ → Attribute

-- The switch of registerPV.
unfoldable pub attribute_for : DataType → ℕ → Attribute
attribute_for int32 max_elements = scalar dev_long
attribute_for float64 max_elements = scalar dev_double
attribute_for int8_array max_elements = spectrum dev_uchar max_elements
attribute_for uint8_array max_elements = spectrum dev_uchar max_elements
attribute_for int32_array max_elements = spectrum dev_long max_elements
attribute_for float64_array max_elements = spectrum dev_double max_elements
attribute_for string max_elements = nothing

-- setAttributeProperties: the polling period in milliseconds, and whether changes make an event; the
-- period of the PV is in whole seconds.
unfoldable pub set_attribute_properties : ScanType → ℕ → Option ℕ × Bool
set_attribute_properties periodic period = (some (period * 1000), false)
set_attribute_properties interrupt period = (none, true)
set_attribute_properties _ period = (none, false)

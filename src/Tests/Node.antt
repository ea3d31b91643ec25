-- ===== src/Tests/Node.antt =====
-- The tree of tests/src/testStateMachine.cpp: a port with a state machine and two channels with one each.
use nds.Prelude.{ℕ, ◌+◌, ◌≤◌, ◌<◌, ◌≡◌, refl, ◌↔◌, ◌⊎◌, false, [], arith, In}
use nds.Types.{State, unknown, off, on, Timespec, LogLevel, NodeType, InputPvType, PvClass}
use nds.Node.{
  Kind, Base, Tree, object, Children, nil, cons, get_global_state, find_machine, with_own,
}
use nds.Node.Readings.{Tops, Reading}
use nds.Node.Subtree.{states_below}
use nds.Node.GlobalState.{get_global_state-Tops}
use nds.Tango.{
  DevState, reports, get_state, Timeval, nds_time_to_tango_time, tango_time_to_nds_time,
}
use nds.Tango.Times.{nds_time_to_tango_time-tango_time_to_nds_time}
use nds.Tango.States.{get_state-get_global_state}

abbrev base : Base
base = record {
  name = [];
  has_parent = false;
  node_level = 0;
  log_level = LogLevel.warning;
  external_name = [];
  full_name = [];
  full_name_from_port = [];
  full_external_name = [];
  full_external_name_from_port = [];
  commands = [];
}

abbrev at : ℕ → Timespec
at n = record { tv_sec = n; tv_nsec = 0 }

abbrev channel : ℕ → State → Tree
channel n s = object base (Kind.plain NodeType.generic) (
    cons (object base (Kind.machine (at n) s) nil)
      (cons (object base (Kind.pv (PvClass.input InputPvType.generic) 1) nil) nil))

abbrev below : Children
below =
    cons (channel 5 on) (cons (channel 7 on) (cons (object base (Kind.machine (at 3) off) nil) nil))

global_runs : get_global_state (at 0) (object base (Kind.plain NodeType.generic) below) ≡ (at 7, on)
unfolding get_global_state with_own find_machine
global_runs = refl

get_global_state-Tops_example :
    let r = get_global_state (at 0) (object base (Kind.plain NodeType.generic) below) in
    ((states_below below ≡ []) × (r.1 ≡ unknown))
    ⊎ (In r (states_below below) × Tops r (states_below below))
get_global_state-Tops_example =
    get_global_state-Tops (at 0) base NodeType.generic below (omega arith) (omega arith)
      (refl, (refl, (refl, tt)))

get_state-get_global_state_example :
    let told =
      get_state (get_global_state (at 0) (object base (Kind.plain NodeType.generic) below)).1 in
    ((d : DevState) × (told ≡ reports d))
    × ((told ≡ reports DevState.fault)
        ↔ ((x : Reading) × In x (states_below below) × (x.1 ≡ State.fault)))
get_state-get_global_state_example =
    get_state-get_global_state (at 0) base NodeType.generic below (omega arith) (omega arith)
      (refl, (refl, (refl, tt))) (refl, (refl, (refl, tt))) (λ e. cc e)

abbrev tango_time : Timeval
tango_time = record { tv_sec = 2; tv_usec = 999999 }

abbrev late : Timespec
late = record { tv_sec = 2; tv_nsec = 1999 }

nds_time_to_tango_time-tango_time_to_nds_time_example :
    let back = tango_time_to_nds_time (nds_time_to_tango_time late) in
    (nds_time_to_tango_time (tango_time_to_nds_time tango_time) ≡ tango_time)
    × ((nds_time_to_tango_time late).tv_usec < 1000000)
    × (back.tv_sec ≡ late.tv_sec)
    × (back.tv_nsec ≤ late.tv_nsec)
    × (late.tv_nsec < back.tv_nsec + 1000)
nds_time_to_tango_time-tango_time_to_nds_time_example =
    nds_time_to_tango_time-tango_time_to_nds_time tango_time late (omega arith)

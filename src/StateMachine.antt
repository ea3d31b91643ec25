-- ===== src/StateMachine.antt =====
-- src/stateMachineImpl.cpp: the state machine of a node, with its transitions and its veto. `W` is
-- the state of the device, the clock and all else that the delegate functions read and change. Log
-- lines are left out. The state mutex is held over each definition but `set_state`, which releases it
-- before the transition function runs.
pub mod Diagram
pub mod Steps
pub mod Requests
pub mod Threads
pub mod Interleaving
pub mod Liveness
pub mod CanChange
use Prim.Native.String.{String}
use nds.Prelude.{
  List, ◌∷◌, Bool, not, ◌&&◌, ◌||◌, Option, none, some, if◌then◌else◌, ℤ, int_lt, int_eq,
}
use nds.Types.{
  State, unknown, off, switching_off, initializing, on, stopping, starting, running, fault, to_int,
  of_int, state_eq, Timespec, earlier, Exception, is_runtime_error, is_roll_back, runtime_error,
  state_machine_no_such_transition, state_machine_transition_denied, logic_error,
}

-- How a call ends.
pub data Outcome : Type 0 where
  returned : Outcome
  threw : Exception → Outcome

abbrev pub StateChange : Type 0 → Type 0
StateChange W = W → W × Outcome

-- `pushed` holds what was pushed to the PV `getState`, the newest first. `can_launch` says whether the
-- system has the resources for a thread; where it has not, the constructor of std::thread throws
-- std::system_error, a runtime error.
pub record StateMachine (W : Type 0) : Type 0 where
  pub async : Bool
  pub local_state : State
  pub state_timestamp : Timespec
  pub switch_on : StateChange W
  pub switch_off : StateChange W
  pub start : StateChange W
  pub stop : StateChange W
  pub recover : StateChange W
  pub allow_change : W → State → State → State → Bool
  pub get_timestamp : W → W × Timespec
  pub can_launch : W → Bool
  pub pushed : List (Timespec × ℤ)

-- A transition that was handed to a thread, or that the caller runs.
pub record Transition (W : Type 0) : Type 0 where
  pub initial_state : State
  pub final_state : State
  pub function : StateChange W

-- `none` stands for the std::logic_error of the states with no name.
abbrev pub get_state_name : State → Option String
get_state_name unknown = some "UNKNOWN"
get_state_name off = some "OFF"
get_state_name switching_off = some "SWITCHING_OFF"
get_state_name initializing = some "INITIALIZING"
get_state_name on = some "ON"
get_state_name stopping = some "STOPPING"
get_state_name starting = some "STARTING"
get_state_name running = some "RUNNING"
get_state_name fault = some "FAULT"
get_state_name _ = none

-- A message that names two states: building it throws where a state has no name.
abbrev naming : State → State → Exception → Exception
naming a b e = elim (get_state_name a) [
  | none ↦ logic_error
  | some _ ↦ elim (get_state_name b) [ none ↦ logic_error | some _ ↦ e ]
]

-- The pair of a timestamp and a state that a later and higher state replaces.
abbrev pub outranked : Timespec × State → Timespec × State → Bool
outranked (t, s) (t', s') =
    int_lt (to_int s) (to_int s') || (int_eq (to_int s) (to_int s') && earlier t t')

-- The one of the two that stays.
abbrev pub newer : Timespec × State → Timespec × State → Timespec × State
newer a b = if outranked a b then b else a

abbrev pub is_intermediate_state : State → Bool
is_intermediate_state s =
    state_eq s switching_off
    || (state_eq s initializing || (state_eq s starting || state_eq s stopping))

unfoldable pub is_allowed_transition : State → State → Bool
is_allowed_transition current new =
    is_intermediate_state current
    || ((state_eq current off && state_eq new on)
        || ((state_eq current on && state_eq new off)
            || ((state_eq current on && state_eq new running)
                || ((state_eq current running && state_eq new on)
                    || ((state_eq current fault && state_eq new on) || state_eq new fault)))))

module _ {W : Type 0} where
  -- The statements that set a state: the state, its timestamp, and the push.
  unfoldable pub enter : StateMachine W → State → W → StateMachine W × W
  enter m s w =
      let (w', t) = m.get_timestamp w in
      (record m { local_state = s; state_timestamp = t; pushed = (t, to_int s) ∷ m.pushed }, w')

  unfoldable pub initialize : StateMachine W → W → StateMachine W × W
  initialize m w = enter m off w

  -- `children` is what the parent node's getChildrenState yields.
  unfoldable pub get_global_state : StateMachine W → Timespec × State → Timespec × State
  get_global_state m children = newer (m.state_timestamp, m.local_state) children

  -- The veto is asked with the outer variable `globalState`, which is still `unknown`: the global
  -- state is read into a variable of an inner block that has the same name.
  unfoldable pub can_change : StateMachine W → State → W → Bool
  can_change m new w =
      is_allowed_transition m.local_state new && m.allow_change w m.local_state unknown new

  -- The transitional state and the function, by the local and the new state.
  unfoldable pub find_transition : StateMachine W → State → State → Option (State × StateChange W)
  find_transition m local new =
      if state_eq local off && state_eq new on
      then some (initializing, m.switch_on)
      else (if state_eq local on && state_eq new off
          then some (switching_off, m.switch_off)
          else (if state_eq local on && state_eq new running
              then some (starting, m.start)
              else (if state_eq local running && state_eq new on
                  then some (stopping, m.stop)
                  else (if state_eq local fault && state_eq new off
                      then some (switching_off, m.recover)
                      else none))))

-- How the part of `setState` that holds the state mutex ends.
pub data Begun (W : Type 0) : Type 0 where
  nothing_to_do : Begun W
  refused : Exception → Begun W
  begun : StateMachine W → W → StateChange W → Begun W

-- What a call leaves: `launched` is the transition that it handed to a thread.
pub record Call (W : Type 0) : Type 0 where
  pub machine : StateMachine W
  pub world : W
  pub outcome : Outcome
  pub launched : Option (Transition W)

module _ {W : Type 0} where
  -- The block of `setState` under the state mutex.
  unfoldable pub begin_transition : StateMachine W → Timespec × State → State → W → Begun W
  begin_transition m children new w =
      if state_eq m.local_state new
      then nothing_to_do
      else elim (find_transition m m.local_state new) [
        | none ↦ refused (naming m.local_state new state_machine_no_such_transition)
        | some (transition_state, function) ↦
            if not (m.allow_change w m.local_state (get_global_state m children).1 new)
            then refused (naming m.local_state new state_machine_transition_denied)
            else let (m', w') = enter m transition_state w in begun m' w' function
      ]

  -- What the transition function's end makes of the machine.
  unfoldable pub settle : StateMachine W → State → State → Outcome → W → StateMachine W × W
  settle m initial final returned w = enter m final w
  settle m initial final (threw e) w =
      if is_roll_back e
      then enter m initial w
      else (if is_runtime_error e then enter m fault w else (m, w))

  unfoldable pub execute_transition :
      StateMachine W → State → State → StateChange W → W → StateMachine W × W × Outcome
  execute_transition m initial final function w =
      let (w', outcome) = function w in
      let (m', w'') = settle m initial final outcome w' in (m', w'', outcome)

  -- The thread logs a runtime error. Any other exception leaves the thread, which ends the process:
  -- it is the outcome here.
  unfoldable pub execute_transition_thread :
      StateMachine W → Transition W → W → StateMachine W × W × Outcome
  execute_transition_thread m t w =
      let (m', w', outcome) = execute_transition m t.initial_state t.final_state t.function w in
      (
        m',
        w',
        elim outcome [
          | returned ↦ returned
          | threw e ↦ if is_runtime_error e then returned else threw e
        ],
      )

  unfoldable pub set_state : StateMachine W → Timespec × State → State → W → Call W
  set_state m children new w = elim (begin_transition m children new w) [
    | nothing_to_do ↦ record { machine = m; world = w; outcome = returned; launched = none }
    | refused e ↦ record { machine = m; world = w; outcome = threw e; launched = none }
    | begun m' w' function ↦
        if m.async
        then (if m.can_launch w'
            then record {
              machine = m';
              world = w';
              outcome = returned;
              launched = some (record {
                initial_state = m.local_state;
                final_state = new;
                function = function;
              });
            }
            else record {
              machine = m';
              world = w';
              outcome = threw runtime_error;
              launched = none;
            })
        else let (m'', w'', outcome) = execute_transition m' m.local_state new function w' in
          record { machine = m''; world = w''; outcome = outcome; launched = none }
  ]

  -- The delegates of the PVs, and the commands `switchOn`, `switchOff`, `start`, `stop`.
  unfoldable pub write_local_state : StateMachine W → Timespec × State → ℤ → W → Call W
  write_local_state m children value w = set_state m children (of_int value) w

  unfoldable pub read_local_state : StateMachine W → Timespec × ℤ
  read_local_state m = (m.state_timestamp, to_int m.local_state)

  unfoldable pub read_global_state : StateMachine W → Timespec × State → Timespec × ℤ
  read_global_state m children = let (t, s) = get_global_state m children in (t, to_int s)

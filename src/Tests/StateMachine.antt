-- ===== src/Tests/StateMachine.antt =====
-- A state machine with the delegates of tests/src/testStateMachine.cpp: the start function rolls back.
use nds.Prelude.{ℕ, suc, ◌≡◌, ◌↔◌, refl, [], ◌∷◌, Bool, true, false, ◌||◌, map}
use nds.Types.{
  State, unknown, off, initializing, on, starting, running, fault, to_int, state_eq, Timespec,
  state_machine_roll_back, runtime_error, logic_error,
}
use nds.StateMachine.{
  StateMachine, returned, threw, initialize, enter, set_state, settle, execute_transition,
  execute_transition_thread, begin_transition, find_transition, get_global_state, can_change,
  is_allowed_transition, Transition,
}
use nds.StateMachine.Diagram.{Edge, starting_up}
use nds.StateMachine.Threads.{thread_matches_sync}
use nds.StateMachine.Interleaving.{System, Step, Reach, boot}
use nds.StateMachine.Liveness.{Onward, Willing, can_switch_off}
use nds.StateMachine.CanChange.{is_allowed_transition-Edge, can_change_misjudges}

-- The device's state is a clock.
abbrev demo : State → Bool → StateMachine ℕ
demo s async = record {
  async = async;
  local_state = s;
  state_timestamp = record { tv_sec = 0; tv_nsec = 0 };
  switch_on = λ w. (w, returned);
  switch_off = λ w. (w, returned);
  start = λ w. (w, threw state_machine_roll_back);
  stop = λ w. (w, threw runtime_error);
  recover = λ w. (w, returned);
  allow_change = λ w l g n. state_eq g on || state_eq n on || state_eq g fault;
  get_timestamp = λ w. (suc w, record { tv_sec = w; tv_nsec = 0 });
  can_launch = λ w. true;
  pushed = [];
}

abbrev no_children : Timespec × State
no_children = (record { tv_sec = 0; tv_nsec = 0 }, unknown)

switch_on_runs : (set_state (demo off false) no_children on 5).machine.local_state ≡ on
unfolding set_state begin_transition find_transition execute_transition settle enter
    get_global_state
switch_on_runs = refl

start_rolls_back : (set_state (demo on false) no_children running 5).machine.local_state ≡ on
unfolding set_state begin_transition find_transition execute_transition settle enter
    get_global_state
start_rolls_back = refl

start_pushes :
    map (λ p. p.1) (set_state (demo on false) no_children running 5).machine.pushed
    ≡ to_int on ∷ to_int starting ∷ []
unfolding set_state begin_transition find_transition execute_transition settle enter
    get_global_state
start_pushes = refl

unnamed_request :
    (set_state (demo on false) no_children (State.above 3) 5).outcome ≡ threw logic_error
unfolding set_state begin_transition find_transition execute_transition settle enter
    get_global_state
unnamed_request = refl

abbrev flight : Transition ℕ
flight = record { initial_state = off; final_state = on; function = λ w. (w, returned) }

thread_matches_sync_example :
    let c = set_state (demo off true) no_children on 5 in
    let r = execute_transition_thread c.machine flight c.world in
    let d = set_state (demo off false) no_children on 5 in
    (record (r.0) { async = false } ≡ d.machine) × (r.1 ≡ d.world)
unfolding set_state begin_transition find_transition enter get_global_state
thread_matches_sync_example = thread_matches_sync (demo off true) no_children on 5 flight refl refl

abbrev waiting : System ℕ
waiting = record {
  machine = (enter (initialize (demo off true) 0).0 initializing 1).0;
  world = 2;
  flights = flight ∷ [];
}

is_allowed_transition-Edge_example :
    (is_allowed_transition off running ≡ true) ↔ ((via : State) × Edge off via running)
is_allowed_transition-Edge_example = is_allowed_transition-Edge off running refl (λ e. cc) (λ e. cc)

can_change_misjudges_example : can_change (demo on false) running 7 ≡ false
unfolding get_global_state
can_change_misjudges_example =
    (can_change_misjudges (demo on false) no_children 7 running starting_up refl refl).0

-- A machine whose device vetoes nothing, with a transition function that is running.
abbrev permissive : StateMachine ℕ
permissive = record (demo off true) { allow_change = λ w l g n. true; stop = λ w. (w, returned) }

abbrev permissive_waits : System ℕ
permissive_waits = record {
  machine = (enter (initialize permissive 0).0 initializing 1).0;
  world = 2;
  flights = flight ∷ [];
}

permissive_waits-Reach : Reach (boot permissive 0) permissive_waits
unfolding initialize begin_transition find_transition enter get_global_state
permissive_waits-Reach = Reach.next Reach.here (Step.request no_children on _ _ _ refl)

permissive-Willing : Willing permissive_waits.machine
unfolding initialize enter
permissive-Willing = record {
  permits = λ w local global new. refl;
  launches = λ w e. refl;
  switches_off = λ w. refl;
  stops = λ w. refl;
  recovers = λ w. refl;
}

can_switch_off_example :
    (t : System ℕ) × Onward permissive_waits t × (t.machine.local_state ≡ off) × (t.flights ≡ [])
unfolding initialize enter
can_switch_off_example =
    can_switch_off permissive 0 permissive_waits-Reach (λ e. cc) ((λ w. refl), tt)
      permissive-Willing

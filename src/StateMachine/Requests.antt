-- ===== src/StateMachine/Requests.antt =====
-- What one request does: `set_state` against the diagram.
use nds.Prelude.{true, false, none, some, ◌≡◌, ◌≢◌, ◌⊎◌, ◌||◌, if◌then◌else◌}
use nds.Types.{
  State, Timespec, is_roll_back, is_runtime_error, runtime_error, logic_error,
  state_machine_transition_denied, state_machine_no_such_transition,
}
use nds.StateMachine.{
  StateMachine, Outcome, returned, threw, Call, get_global_state, get_state_name,
}
use nds.StateMachine.Diagram.{Edge, Ends}
use nds.StateMachine.Steps.{edge_function}

module _ {W : Type 0} where
  -- Nothing was done but to answer: the machine and the device are as they were.
  pub record Unchanged (m : StateMachine W) (w : W) (c : Call W) : Type 0 where
    pub same_machine : c.machine ≡ m
    pub same_world : c.world ≡ w
    pub no_thread : c.launched ≡ none

  -- The device once a transition function has ended: the clock is read, unless the end is one that
  -- `executeTransition` does not catch.
  abbrev later : StateMachine W → Outcome → W → W
  later m returned w = (m.get_timestamp w).0
  later m (threw e) w = if is_roll_back e || is_runtime_error e then (m.get_timestamp w).0 else w

  -- The answers to the request `new`, by the diagram and by what the veto says.
  pub data Responds (m : StateMachine W) (children : Timespec × State) (new : State) (w : W)
      (c : Call W) : Type 0 where
    already :
        m.local_state ≡ new → c.outcome ≡ returned → Unchanged m w c → Responds m children new w c
    no_edge :
        m.local_state ≢ new
        → ((via : State) → ¬ Edge m.local_state via new)
        → get_state_name m.local_state ≢ none
        → get_state_name new ≢ none
        → c.outcome ≡ threw state_machine_no_such_transition
        → Unchanged m w c
        → Responds m children new w c
    no_name :
        m.local_state ≢ new
        → ((via : State) → ¬ Edge m.local_state via new)
        → (get_state_name m.local_state ≡ none) ⊎ (get_state_name new ≡ none)
        → c.outcome ≡ threw logic_error
        → Unchanged m w c
        → Responds m children new w c
    vetoed :
        (via : State)
        → Edge m.local_state via new
        → m.allow_change w m.local_state (get_global_state m children).1 new ≡ false
        → c.outcome ≡ threw state_machine_transition_denied
        → Unchanged m w c
        → Responds m children new w c
    ran :
        (via : State) (e : Edge m.local_state via new)
        → m.allow_change w m.local_state (get_global_state m children).1 new ≡ true
        → m.async ≡ false
        → c.outcome ≡ (edge_function m e (m.get_timestamp w).0).1
        → c.world ≡ later m c.outcome (edge_function m e (m.get_timestamp w).0).0
        → Ends m.local_state via new c.outcome c.machine.local_state
        → c.launched ≡ none
        → Responds m children new w c
    handed_over :
        (via : State) (e : Edge m.local_state via new)
        → m.allow_change w m.local_state (get_global_state m children).1 new ≡ true
        → m.async ≡ true
        → m.can_launch (m.get_timestamp w).0 ≡ true
        → c.outcome ≡ returned
        → c.machine.local_state ≡ via
        → c.world ≡ (m.get_timestamp w).0
        → c.launched
          ≡ some (record {
            initial_state = m.local_state;
            final_state = new;
            function = edge_function m e;
          })
        → Responds m children new w c
    left_between :
        (via : State)
        → Edge m.local_state via new
        → m.allow_change w m.local_state (get_global_state m children).1 new ≡ true
        → m.async ≡ true
        → m.can_launch (m.get_timestamp w).0 ≡ false
        → c.outcome ≡ threw runtime_error
        → c.machine.local_state ≡ via
        → c.world ≡ (m.get_timestamp w).0
        → c.launched ≡ none
        → Responds m children new w c

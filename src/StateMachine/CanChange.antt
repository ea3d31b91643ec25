-- ===== src/StateMachine/CanChange.antt =====
-- `canChange` against `setState`: where the two agree, and where they do not.
use nds.Prelude.{Bool, true, false, ◌≡◌, ◌≢◌, refl, ◌↔◌, ◌&&◌, arith}
use nds.Types.{
  State, unknown, off, switching_off, initializing, on, stopping, starting, running, fault, above,
  state_eq, Timespec, state_machine_no_such_transition,
}
use nds.StateMachine.{
  StateMachine, StateChange, begun, refused, begin_transition, find_transition, get_global_state,
  can_change, is_allowed_transition, enter,
}
use nds.StateMachine.Diagram.{
  Edge, is_stable, switching_on, turning_off, starting_up, stopping_down, recovering,
}
use nds.StateMachine.Steps.{Edge-find_transition}

allowed-Edge :
    (l new : State)
    → is_stable l ≡ true
    → l ≢ fault
    → new ≢ fault
    → is_allowed_transition l new ≡ true
    → (via : State) × Edge l via new
unfolding is_allowed_transition
allowed-Edge off on s a b h = (initializing, switching_on)
allowed-Edge on off s a b h = (switching_off, turning_off)
allowed-Edge on running s a b h = (starting, starting_up)
allowed-Edge running on s a b h = (stopping, stopping_down)
allowed-Edge fault _ s a b h = absurd (a refl)
allowed-Edge _ fault s a b h = absurd (b refl)
allowed-Edge _ (above n) s a b h = absurd (ground arith)
allowed-Edge _ _ s a b h = cc

Edge-allowed : {l via new : State} → Edge l via new → l ≢ fault → is_allowed_transition l new ≡ true
unfolding is_allowed_transition
Edge-allowed switching_on a = refl
Edge-allowed turning_off a = refl
Edge-allowed starting_up a = refl
Edge-allowed stopping_down a = refl
Edge-allowed recovering a = absurd (a refl)

-- In a stable state other than fault, and for a new state other than fault, canChange calls legal
-- exactly the transitions of the diagram.
pub is_allowed_transition-Edge :
    (l new : State)
    → is_stable l ≡ true
    → l ≢ fault
    → new ≢ fault
    → (is_allowed_transition l new ≡ true) ↔ ((via : State) × Edge l via new)
is_allowed_transition-Edge l new s a b = (allowed-Edge l new s a b, λ e. Edge-allowed e.1 a)

and_false : (b : Bool) → (b && false) ≡ false
and_false true = refl
and_false false = refl

Edge-differs : {l via new : State} → Edge l via new → state_eq l new ≡ false
Edge-differs switching_on = refl
Edge-differs turning_off = refl
Edge-differs starting_up = refl
Edge-differs stopping_down = refl
Edge-differs recovering = refl

module _ {W : Type 0} (m : StateMachine W) (children : Timespec × State) (w : W) where
  -- From fault, with a veto that allows it, canChange says yes to on, which setState refuses, and
  -- no to off, to which setState recovers.
  can_change_from_fault :
      m.local_state ≡ fault
      → m.allow_change w fault unknown on ≡ true
      → m.allow_change w fault (get_global_state m children).1 off ≡ true
      → (can_change m on w ≡ true)
        × (begin_transition m children on w ≡ refused state_machine_no_such_transition)
        × (can_change m off w ≡ false)
        × (begin_transition m children off w
            ≡ begun (enter m switching_off w).0 (enter m switching_off w).1 m.recover)
  unfolding can_change is_allowed_transition begin_transition find_transition
  can_change_from_fault l v u = ground arith

  -- Where the veto refuses a transition of the diagram for the global state unknown and allows it
  -- for the true one, canChange says no and setState begins the transition.
  pub can_change_misjudges :
      {via : State} (new : State)
      → Edge m.local_state via new
      → m.allow_change w m.local_state unknown new ≡ false
      → m.allow_change w m.local_state (get_global_state m children).1 new ≡ true
      → (can_change m new w ≡ false)
        × ((f : StateChange W) × (begin_transition m children new w
              ≡ begun (enter m via w).0 (enter m via w).1 f))
  unfolding can_change begin_transition
  can_change_misjudges new e v u =
      let (f, found) = Edge-find_transition m e in
      (rw v (and_false _), (f, rw (Edge-differs e, found, u, begin_transition)))

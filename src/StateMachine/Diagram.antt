-- ===== src/StateMachine/Diagram.antt =====
-- The state diagram, drawn apart from the code: which transitions there are, and where each can end.
use nds.Prelude.{refl, Bool, true, false, ◌≡◌}
use nds.StateMachine.{Outcome, returned, threw}
use nds.Types.{
  State, off, switching_off, initializing, on, stopping, starting, running, fault, Exception,
  is_runtime_error, is_roll_back,
}

-- `Edge from via to`: the request `to` in the state `from` goes through `via`.
pub data Edge : State → State → State → Type 0 where
  switching_on : Edge off initializing on
  turning_off : Edge on switching_off off
  starting_up : Edge on starting running
  stopping_down : Edge running stopping on
  recovering : Edge fault switching_off off

-- Where a transition ends, by what its function did.
pub data Ends (from via to : State) : Outcome → State → Type 0 where
  success : Ends from via to returned to
  rolled_back : {e : Exception} → is_roll_back e ≡ true → Ends from via to (threw e) from
  failed :
      {e : Exception}
      → is_roll_back e ≡ false
      → is_runtime_error e ≡ true
      → Ends from via to (threw e) fault
  stuck : {e : Exception} → is_runtime_error e ≡ false → Ends from via to (threw e) via

-- The states in which no transition is under way.
abbrev pub is_stable : State → Bool
is_stable off = true
is_stable on = true
is_stable running = true
is_stable fault = true
is_stable _ = false

pub via_unstable : {a l c : State} → Edge a l c → is_stable l ≡ false
via_unstable switching_on = refl
via_unstable turning_off = refl
via_unstable starting_up = refl
via_unstable stopping_down = refl
via_unstable recovering = refl

pub start_stable : {l via new : State} → Edge l via new → is_stable l ≡ true
start_stable switching_on = refl
start_stable turning_off = refl
start_stable starting_up = refl
start_stable stopping_down = refl
start_stable recovering = refl

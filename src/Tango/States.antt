-- ===== src/Tango/States.antt =====
-- The state that TANGO is told of a tree.
use nds.Prelude.{
  ◌≤◌, pos, ◌≡◌, refl, sym, subst, ◌≢◌, ◌↔◌, inl, inr, true, false, [], arith, Bool-cases, All, In,
  All-In, int_lt,
}
use nds.Types.{State, Timespec, to_int, NodeType}
use nds.StateMachine.{outranked}
use nds.Node.{Base, object, plain, Children, get_global_state}
use nds.Node.Readings.{Reading}
use nds.Node.Subtree.{states_below, machine_count, OneMachineEach}
use nds.Node.GlobalState.{get_global_state-Tops, Known}
use nds.Tango.{DevState, reports, get_state}

-- The state is none of the code's outside the diagram: it is below MAX_STATE_NUM.
abbrev pub IsProper : Reading → Type 0
IsProper r = int_lt (to_int r.1) (pos 9) ≡ true

-- A state that is not below fault, and is proper, is fault.
highest_fault :
    (s : State)
    → int_lt (to_int s) (to_int State.fault) ≡ false
    → int_lt (to_int s) (pos 9) ≡ true
    → s ≡ State.fault
highest_fault State.fault h p = refl
highest_fault (State.above n) h p = absurd (ground arith)
highest_fault _ h p = absurd (ground arith)

told_fault : (s : State) → get_state s ≡ reports DevState.fault → s ≡ State.fault
unfolding get_state
told_fault State.fault h = refl
told_fault _ h = absurd (ground arith)

fault_told : get_state State.fault ≡ reports DevState.fault
unfolding get_state
fault_told = refl

proper_told :
    (s : State)
    → int_lt (to_int s) (pos 9) ≡ true
    → int_lt (pos 0) (to_int s) ≡ true
    → (d : DevState) × (get_state s ≡ reports d)
unfolding get_state
proper_told State.off p k = (_, refl)
proper_told State.switching_off p k = (_, refl)
proper_told State.initializing p k = (_, refl)
proper_told State.on p k = (_, refl)
proper_told State.stopping p k = (_, refl)
proper_told State.starting p k = (_, refl)
proper_told State.running p k = (_, refl)
proper_told State.fault p k = (_, refl)
proper_told (State.above n) p k = absurd (ground arith)
proper_told _ p k = absurd (ground arith)

not_below : (r x : Reading) → outranked r x ≡ false → int_lt (to_int r.1) (to_int x.1) ≡ false
not_below (t, s) (t', s') h = elim (Bool-cases (int_lt (to_int s) (to_int s'))) [
  | inl e ↦ absurd (ground arith)
  | inr e ↦ e
]

-- Where no node of the tree has two state machines, and each machine is in a state of the diagram, TANGO
-- is told some state of a node with a state machine below it, and fault just where a machine is in fault.
pub get_state-get_global_state :
    (uninit : Timespec) (b : Base) (y : NodeType) (cs : Children)
    → machine_count cs ≤ 1
    → OneMachineEach cs
    → All Known (states_below cs)
    → All IsProper (states_below cs)
    → states_below cs ≢ []
    → let told = get_state (get_global_state uninit (object b (plain y) cs)).1 in
      ((d : DevState) × (told ≡ reports d))
      × ((told ≡ reports DevState.fault)
          ↔ ((x : Reading) × In x (states_below cs) × (x.1 ≡ State.fault)))
get_state-get_global_state uninit b y cs one each known proper some_machine =
    let r = get_global_state uninit (object b (plain y) cs) in
    elim (get_global_state-Tops uninit b y cs one each known) [
      | inl (empty, lost) ↦ absurd (some_machine empty)
      | inr (inside, top) ↦
          let is_proper = All-In IsProper r (states_below cs) proper inside in
          let is_known = All-In Known r (states_below cs) known inside in
          (
            proper_told r.1 is_proper is_known,
            (
              (λ e. (r, inside, told_fault r.1 e)),
              (λ (x, i, at).
                  let h =
                    not_below r x (All-In (λ y. outranked r y ≡ false) x (states_below cs) top i) in
                  let is_fault =
                    highest_fault r.1 (subst (λ s. int_lt (to_int r.1) (to_int s) ≡ false) at h)
                      is_proper in
                  subst (λ s. get_state s ≡ reports DevState.fault) (sym is_fault) fault_told),
            ),
          )
    ]

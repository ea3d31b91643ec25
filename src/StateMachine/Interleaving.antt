-- ===== src/StateMachine/Interleaving.antt =====
-- Callers and transition threads of one state machine, as interleaved steps. The state mutex makes
-- the first block of `setState` one step, and the last block of `executeTransition` another; the
-- transition function runs between the two, and in the meantime other callers may try.
use nds.Prelude.{
  ◌≢◌, List, [], ◌∷◌, ◌++◌, ◌≡◌, refl, sym, subst, inl, inr, arith, Option-cases, Bool-cases, ℤ,
}
use nds.Types.{is_roll_back, is_runtime_error, State, off, fault, to_int, state_eq, Timespec}
use nds.StateMachine.{
  StateMachine, StateChange, Transition, Outcome, returned, threw, begun, enter, initialize,
  begin_transition, find_transition, settle,
}
use nds.StateMachine.Diagram.{Edge, via_unstable, start_stable}
use nds.StateMachine.Steps.{enter-local_state, find_transition-Edge}

-- `flights` are the transitions whose function is running, in a thread or in a caller.
pub record System (W : Type 0) : Type 0 where
  pub machine : StateMachine W
  pub world : W
  pub flights : List (Transition W)

module _ {W : Type 0} where
  -- A function may do anything to the device and end in any way; the device may change by itself. These
  -- are more steps than a function makes, for what holds of all steps.
  pub data Step (s : System W) : System W → Type 0 where
    request :
        (children : Timespec × State) (new : State) (m : StateMachine W) (w : W) (f : StateChange W)
        → begin_transition s.machine children new s.world ≡ begun m w f
        → Step s (record {
          machine = m;
          world = w;
          flights =
              record { initial_state = s.machine.local_state; final_state = new; function = f }
              ∷ s.flights;
        })
    finish :
        (before after : List (Transition W)) (t : Transition W) (o : Outcome) (w : W)
        → s.flights ≡ before ++ t ∷ after
        → Step s (record {
          machine = (settle s.machine t.initial_state t.final_state o w).0;
          world = (settle s.machine t.initial_state t.final_state o w).1;
          flights = before ++ after;
        })
    device : (w : W) → Step s (record s { world = w })

  pub data Reach (s : System W) : System W → Type 0 where
    here : Reach s s
    next : {t u : System W} → Reach s t → Step t u → Reach s u

  -- The system after `initialize`.
  abbrev pub boot : StateMachine W → W → System W
  boot m w = record { machine = (initialize m w).0; world = (initialize m w).1; flights = [] }

-- The pairs of states that may follow one another.
pub data Move : State → State → Type 0 where
  depart : {a v b : State} → Edge a v b → Move a v
  arrive : {a v b : State} → Edge a v b → Move v b
  turn_back : {a v b : State} → Edge a v b → Move v a
  break_down : {a v b : State} → Edge a v b → Move v fault

-- What was pushed to `getState`, the newest first, is a walk in the diagram that ends in `s`, over
-- the pushes that were there before.
pub data Walk (old : List (Timespec × ℤ)) : State → List (Timespec × ℤ) → Type 0 where
  start : (t : Timespec) → Walk old off ((t, to_int off) ∷ old)
  move :
      {a b : State} {l : List (Timespec × ℤ)} (t : Timespec)
      → Walk old a l
      → Move a b
      → Walk old b ((t, to_int b) ∷ l)

-- What holds between two steps: at most one transition is under way, and the local state is its
-- intermediate state.
pub data Busy {W : Type 0} (l : State) : List (Transition W) → Type 0 where
  idle : Busy l []
  one : (t : Transition W) → Edge t.initial_state l t.final_state → Busy l (t ∷ [])

pub record Inv {W : Type 0} (old : List (Timespec × ℤ)) (s : System W) : Type 0 where
  pub busy : Busy s.machine.local_state s.flights
  pub walk : Walk old s.machine.local_state s.machine.pushed

module _ {W : Type 0} where
  begun-enter :
      (m : StateMachine W) (children : Timespec × State) (new : State) (w : W) {m' : StateMachine W}
      {w' : W} {f : StateChange W}
      → begin_transition m children new w ≡ begun m' w' f
      → (via : State) × Edge m.local_state via new × (m' ≡ (enter m via w).0)
  unfolding begin_transition
  begun-enter m children new w h = elim (Bool-cases (state_eq m.local_state new)) [
    | inl same ↦ absurd (ground arith)
    | inr differs ↦ elim (Option-cases (find_transition m m.local_state new)) [
      | inl missing ↦ absurd (ground arith)
      | inr ((via, g), found) ↦
          (via, find_transition-Edge m m.local_state new via g found, ground arith)
    ]
  ]

  enter-Walk :
      (old : List (Timespec × ℤ)) (m : StateMachine W) (b : State) (w : W)
      → Walk old m.local_state m.pushed
      → Move m.local_state b
      → Walk old (enter m b w).0.local_state (enter m b w).0.pushed
  unfolding enter
  enter-Walk old m b w k mv = move (m.get_timestamp w).1 k mv

  settle-Walk :
      (old : List (Timespec × ℤ)) (m : StateMachine W) (initial final : State) (o : Outcome) (w : W)
      → Edge initial m.local_state final
      → Walk old m.local_state m.pushed
      → let m' = (settle m initial final o w).0 in Walk old m'.local_state m'.pushed
  unfolding settle
  settle-Walk old m initial final returned w e k = enter-Walk old m final w k (arrive e)
  settle-Walk old m initial final (threw x) w e k = elim (Bool-cases (is_roll_back x)) [
    | inl r ↦ rw r (enter-Walk old m initial w k (turn_back e))
    | inr r ↦ elim (Bool-cases (is_runtime_error x)) [
      | inl t ↦ rw (r, t) (enter-Walk old m fault w k (break_down e))
      | inr t ↦ rw (r, t) k
    ]
  ]

  -- A request begins only where no transition is under way: no edge leaves an intermediate state.
  Busy-idle : {l via new : State} {fs : List (Transition W)} → Busy l fs → Edge l via new → fs ≡ []
  Busy-idle idle e = refl
  Busy-idle (one t f) e = cc (via_unstable f, start_stable e)

  -- What finishes is the one transition under way.
  Busy-finish :
      {l : State} {fs : List (Transition W)} (before after : List (Transition W)) (t : Transition W)
      → Busy l fs
      → fs ≡ before ++ t ∷ after
      → Edge t.initial_state l t.final_state × (before ++ after ≡ [])
  Busy-finish [] after t idle e = cc
  Busy-finish {l} [] after t (one u f) e =
      let same : u ≡ t = cc in
      let rest : after ≡ [] = cc in
      (subst (λ (v : Transition W). Edge v.initial_state l v.final_state) same f, rest)
  Busy-finish (x ∷ before) after t idle e = cc
  Busy-finish (x ∷ []) after t (one u f) e = cc
  Busy-finish (x ∷ y ∷ before) after t (one u f) e = cc

  Step-Inv : {old : List (Timespec × ℤ)} {s t : System W} → Step s t → Inv old s → Inv old t
  Step-Inv {old} {s} (request children new m w f e) v =
      let (via, edge, eq) = begun-enter s.machine children new s.world e in
      let empty = Busy-idle v.busy edge in
      record {
        busy = rw empty (
            one _ (
              subst (λ (x : StateMachine W). Edge s.machine.local_state x.local_state new) (sym eq)
                (rw (enter-local_state s.machine via s.world) edge)));
        walk =
            subst (λ (x : StateMachine W). Walk old x.local_state x.pushed) (sym eq)
              (enter-Walk old s.machine via s.world v.walk (depart edge));
      }
  Step-Inv {old} {s} (finish before after t o w e) v =
      let (edge, empty) = Busy-finish before after t v.busy e in
      record {
        busy = rw empty idle;
        walk = settle-Walk old s.machine t.initial_state t.final_state o w edge v.walk;
      }
  Step-Inv (device w) v = record { busy = v.busy; walk = v.walk }

  boot-Inv : (m : StateMachine W) (w : W) → Inv m.pushed (boot m w)
  unfolding initialize enter
  boot-Inv m w = record { busy = idle; walk = start (m.get_timestamp w).1 }

  pub Reach-Inv : (m : StateMachine W) (w : W) {s : System W} → Reach (boot m w) s → Inv m.pushed s
  Reach-Inv m w here = boot-Inv m w
  Reach-Inv m w (next r st) = Step-Inv st (Reach-Inv m w r)

  -- While a transition function runs, no other call of setState begins one.
  pub busy_refuses :
      (m : StateMachine W) (w : W) {s : System W}
      → Reach (boot m w) s
      → s.flights ≢ []
      → (children : Timespec × State) (new : State) (m' : StateMachine W) (w' : W)
        (f : StateChange W)
      → begin_transition s.machine children new s.world ≢ begun m' w' f
  busy_refuses m w {s} r h children new m' w' f e =
      let (via, edge, _) = begun-enter s.machine children new s.world e in
      h (Busy-idle (Reach-Inv m w r).busy edge)

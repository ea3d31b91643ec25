-- ===== src/StateMachine/Steps.antt =====
-- The parts of `set_state`: its search for a transition, its end, and its value on each path.
use nds.Prelude.{
  true, false, Option, none, some, ◌≡◌, inl, inr, refl, sym, ap, ◌∙◌, arith, Bool-cases, int_eq_iff,
}
use nds.Types.{
  State, unknown, off, on, running, fault, above, to_int, of_int, state_eq, Timespec, Exception,
  is_runtime_error, is_roll_back, runtime_error, state_machine_transition_denied,
  state_machine_no_such_transition,
}
use nds.StateMachine.{
  StateMachine, StateChange, Outcome, returned, threw, Call, enter, get_global_state,
  find_transition, naming, begin_transition, settle, execute_transition, set_state,
}
use nds.StateMachine.Diagram.{
  Edge, switching_on, turning_off, starting_up, stopping_down, recovering, Ends, success,
  rolled_back, failed, stuck,
}

-- The cast from an integer undoes the cast to one.
pub of_int-to_int : (s : State) → of_int (to_int s) ≡ s
of_int-to_int unknown = refl
of_int-to_int (above n) = ground arith
of_int-to_int _ = refl

pub state_eq→eq : (a b : State) → state_eq a b ≡ true → a ≡ b
state_eq→eq a b h =
    let e : to_int a ≡ to_int b = (int_eq_iff _ _).0 h in
    sym (of_int-to_int a) ∙ ap of_int {x = to_int a} {y = to_int b} e ∙ of_int-to_int b

pub naming-Edge : {l via new : State} (e : Exception) → Edge l via new → naming l new e ≡ e
naming-Edge e switching_on = refl
naming-Edge e turning_off = refl
naming-Edge e starting_up = refl
naming-Edge e stopping_down = refl
naming-Edge e recovering = refl

pub state_eq_refl : (s : State) → state_eq s s ≡ true
state_eq_refl s = (int_eq_iff (to_int s) (to_int s)).1 refl

module _ {W : Type 0} where
  via_of :
      {a b : State} {f g : StateChange W}
      → ◌≡◌ {A = Option (State × StateChange W)} (some (a, f)) (some (b, g))
      → a ≡ b
  via_of h = cc

  -- A transition that is found is an edge of the diagram.
  pub find_transition-Edge :
      (m : StateMachine W) (l new via : State) (f : StateChange W)
      → find_transition m l new ≡ some (via, f)
      → Edge l via new
  unfolding find_transition
  find_transition-Edge m off on via f h = rw (← via_of h) switching_on
  find_transition-Edge m on off via f h = rw (← via_of h) turning_off
  find_transition-Edge m on running via f h = rw (← via_of h) starting_up
  find_transition-Edge m running on via f h = rw (← via_of h) stopping_down
  find_transition-Edge m fault off via f h = rw (← via_of h) recovering
  find_transition-Edge m _ (above n) via f h = absurd (ground arith)
  find_transition-Edge m (above n) _ via f h = absurd (ground arith)
  find_transition-Edge m _ _ via f h = cc

  -- Every edge of the diagram is found.
  pub Edge-find_transition :
      (m : StateMachine W) {l via new : State}
      → Edge l via new
      → (f : StateChange W) × (find_transition m l new ≡ some (via, f))
  unfolding find_transition
  Edge-find_transition m switching_on = (m.switch_on, refl)
  Edge-find_transition m turning_off = (m.switch_off, refl)
  Edge-find_transition m starting_up = (m.start, refl)
  Edge-find_transition m stopping_down = (m.stop, refl)
  Edge-find_transition m recovering = (m.recover, refl)

  -- The function that the diagram has at an edge.
  abbrev pub edge_function : StateMachine W → {l via new : State} → Edge l via new → StateChange W
  edge_function m switching_on = m.switch_on
  edge_function m turning_off = m.switch_off
  edge_function m starting_up = m.start
  edge_function m stopping_down = m.stop
  edge_function m recovering = m.recover

  found_function :
      {v u : State} {f g : StateChange W}
      → ◌≡◌ {A = Option (State × StateChange W)} (some (v, f)) (some (u, g))
      → g ≡ f
  found_function h = cc

  pub find_transition-edge_function :
      (m : StateMachine W) {l via v new : State} {f : StateChange W} (e : Edge l via new)
      → find_transition m l new ≡ some (v, f)
      → f ≡ edge_function m e
  unfolding find_transition
  find_transition-edge_function m switching_on h = found_function h
  find_transition-edge_function m turning_off h = found_function h
  find_transition-edge_function m starting_up h = found_function h
  find_transition-edge_function m stopping_down h = found_function h
  find_transition-edge_function m recovering h = found_function h

  pub settle-Ends :
      (m : StateMachine W) (initial via final : State) (o : Outcome) (w : W)
      → m.local_state ≡ via
      → Ends initial via final o (settle m initial final o w).0.local_state
  unfolding settle enter
  settle-Ends m initial via final returned w h = success
  settle-Ends m initial via final (threw e) w h = elim (Bool-cases (is_roll_back e)) [
    | inl r ↦ rw r (rolled_back r)
    | inr r ↦ elim (Bool-cases (is_runtime_error e)) [
      | inl t ↦ rw (r, t) (failed r t)
      | inr t ↦ rw (r, t, h) (stuck t)
    ]
  ]

  pub enter-local_state : (m : StateMachine W) (s : State) (w : W) → (enter m s w).0.local_state ≡ s
  unfolding enter
  enter-local_state m s w = refl

  pub execute_transition-Ends :
      (m : StateMachine W) (initial via final : State) (f : StateChange W) (w : W)
      → m.local_state ≡ via
      → Ends initial via final
          (execute_transition m initial final f w).2
          (execute_transition m initial final f w).0.local_state
  unfolding execute_transition
  execute_transition-Ends m initial via final f w h =
      settle-Ends m initial via final (f w).1 (f w).0 h

  module _ (m : StateMachine W) (children : Timespec × State) (new : State) (w : W) where
    pub set_state_same :
        state_eq m.local_state new ≡ true
        → set_state m children new w
          ≡ record { machine = m; world = w; outcome = returned; launched = none }
    unfolding set_state begin_transition
    set_state_same e = rw (e, set_state, begin_transition)

    module _ (differs : state_eq m.local_state new ≡ false) where
      pub set_state_missing :
          find_transition m m.local_state new ≡ none
          → set_state m children new w ≡ record {
            machine = m;
            world = w;
            outcome = threw (naming m.local_state new state_machine_no_such_transition);
            launched = none;
          }
      unfolding set_state begin_transition
      set_state_missing e = rw (differs, e, set_state, begin_transition)

      module _ {via : State} {f : StateChange W}
          (found : find_transition m m.local_state new ≡ some (via, f)) where
        pub set_state_denied :
            m.allow_change w m.local_state (get_global_state m children).1 new ≡ false
            → set_state m children new w ≡ record {
              machine = m;
              world = w;
              outcome = threw (naming m.local_state new state_machine_transition_denied);
              launched = none;
            }
        unfolding set_state begin_transition
        set_state_denied e = rw (differs, found, e, set_state, begin_transition)

        module _
            (allowed : m.allow_change w m.local_state (get_global_state m children).1 new
              ≡ true) where
          -- The answer of an asynchronous machine.
          abbrev pub launch : Call W
          launch = record {
            machine = (enter m via w).0;
            world = (enter m via w).1;
            outcome = returned;
            launched =
                some (record { initial_state = m.local_state; final_state = new; function = f });
          }

          -- The answer of an asynchronous machine that the system has no thread for.
          abbrev pub stranded : Call W
          stranded = record {
            machine = (enter m via w).0;
            world = (enter m via w).1;
            outcome = threw runtime_error;
            launched = none;
          }

          -- The answer of a synchronous machine.
          abbrev pub direct : Call W
          direct =
              let r = execute_transition (enter m via w).0 m.local_state new f (enter m via w).1 in
              record { machine = r.0; world = r.1; outcome = r.2; launched = none }

          pub set_state_async :
              m.async ≡ true
              → m.can_launch (enter m via w).1 ≡ true
              → set_state m children new w ≡ launch
          unfolding set_state begin_transition enter
          set_state_async e l = rw (differs, found, allowed, e, l, set_state, begin_transition)

          pub set_state_unlaunched :
              m.async ≡ true
              → m.can_launch (enter m via w).1 ≡ false
              → set_state m children new w ≡ stranded
          unfolding set_state begin_transition enter
          set_state_unlaunched e l = rw (differs, found, allowed, e, l, set_state, begin_transition)

          pub set_state_sync : m.async ≡ false → set_state m children new w ≡ direct
          unfolding set_state begin_transition
          set_state_sync e = rw (differs, found, allowed, e, set_state, begin_transition)

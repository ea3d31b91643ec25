-- ===== src/StateMachine/Threads.antt =====
-- The thread of an asynchronous machine against the synchronous one.
use nds.Prelude.{
  true, false, some, ◌≡◌, inl, inr, refl, sym, ap, ◌∙◌, arith, Bool-cases, Option-cases,
}
use nds.Types.{State, state_eq, Timespec}
use nds.StateMachine.{
  settle, enter, execute_transition, Transition, execute_transition_thread, StateMachine,
  StateChange, Outcome, returned, threw, Call, enter, get_global_state, find_transition, settle,
  execute_transition, set_state,
}
use nds.StateMachine.Steps.{
  set_state_same, set_state_missing, set_state_denied, set_state_async, set_state_unlaunched,
  set_state_sync,
}

module _ {W : Type 0} where
  unasked_async :
      (m : StateMachine W) (l new : State)
      → find_transition (record m { async = false }) l new ≡ find_transition m l new
  unfolding find_transition
  unasked_async m l new = refl

  global_unasked :
      (m : StateMachine W) (children : Timespec × State)
      → (get_global_state (record m { async = false }) children).1 ≡ (get_global_state m children).1
  unfolding get_global_state
  global_unasked m children = refl

  settle-async :
      (m : StateMachine W) (initial final : State) (o : Outcome) (w : W)
      → settle (record m { async = false }) initial final o w
        ≡ (record (settle m initial final o w).0 { async = false }, (settle m initial final o w).1)
  unfolding settle enter
  settle-async m initial final returned w = refl
  settle-async m initial final (threw e) w = ground arith

  module _ (m : StateMachine W) (children : Timespec × State) (new : State) (w : W) where
    -- The thread's part, for a transition that was found and allowed.
    thread_run :
        (via : State) (f : StateChange W)
        → let r =
            execute_transition_thread
              (enter m via w).0
              (record { initial_state = m.local_state; final_state = new; function = f })
              (enter m via w).1 in
          let m0 : StateMachine W = record m { async = false } in
          let d = execute_transition (enter m0 via w).0 m.local_state new f (enter m0 via w).1 in
          (record (r.0) { async = false } ≡ d.0) × (r.1 ≡ d.1)
    unfolding execute_transition_thread execute_transition enter
    thread_run via f =
        let (w', o) = f (enter m via w).1 in
        let e = settle-async (enter m via w).0 m.local_state new o w' in
        (ap (λ r. r.0) (sym e), ap (λ r. r.1) (sym e))

  abbrev AsSync : Call W → Call W → Type 0
  AsSync c d =
      (t : Transition W)
      → c.launched ≡ some t
      → let r = execute_transition_thread c.machine t c.world in
        (record (r.0) { async = false } ≡ d.machine) × (r.1 ≡ d.world)

  set_state-AsSync :
      (m : StateMachine W) (children : Timespec × State) (new : State) (w : W)
      → m.async ≡ true
      → AsSync (set_state m children new w) (set_state (record m { async = false }) children new w)
  set_state-AsSync m children new w a = elim (Bool-cases (state_eq m.local_state new)) [
    | inl same ↦ rw (set_state_same m children new w same) (λ t h. cc)
    | inr differs ↦ elim (Option-cases (find_transition m m.local_state new)) [
      | inl missing ↦ rw (set_state_missing m children new w differs missing) (λ t h. cc)
      | inr ((via, f), found) ↦
          elim (Bool-cases (m.allow_change w m.local_state (get_global_state m children).1 new)) [
            | inr denied ↦ rw (set_state_denied m children new w differs found denied) (λ t h. cc)
            | inl allowed ↦ elim (Bool-cases (m.can_launch (enter m via w).1)) [
              | inr l ↦
                  rw (set_state_unlaunched m children new w differs found allowed a l) (λ t h. cc)
              | inl l ↦
                  rw
                    (
                      set_state_async m children new w differs found allowed a l,
                      set_state_sync (record m { async = false }) children new w differs
                          (unasked_async m m.local_state new ∙ found)
                          (ap (λ g. m.allow_change w m.local_state g new)
                              (global_unasked m children)
                            ∙ allowed)
                          refl,
                    )
                    (λ t h.
                      let e : ◌≡◌ {A = Transition W}
                          (record {
                            initial_state = m.local_state;
                            final_state = new;
                            function = f;
                          })
                          t =
                        cc in
                      rw (← e) (thread_run m children new w via f))
            ]
          ]
    ]
  ]

  -- Once the thread that an asynchronous machine launches has run, the machine and the device are
  -- as after the same request to the machine made synchronous.
  pub thread_matches_sync :
      (m : StateMachine W) (children : Timespec × State) (new : State) (w : W) (t : Transition W)
      → m.async ≡ true
      → (set_state m children new w).launched ≡ some t
      → let c = set_state m children new w in
        let r = execute_transition_thread c.machine t c.world in
        let d = set_state (record m { async = false }) children new w in
        (record (r.0) { async = false } ≡ d.machine) × (r.1 ≡ d.world)
  thread_matches_sync m children new w t a = set_state-AsSync m children new w a t

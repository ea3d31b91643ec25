-- ===== src/StateMachine/Liveness.antt =====
-- The steps that lead on from what callers, threads and the device have reached, where a transition
-- ends as its own function does.
use nds.Prelude.{false}
use nds.Prelude.{
  ◌≡◌, refl, sym, ap, subst, ◌⊎◌, inl, inr, true, some, List, [], ◌∷◌, ◌++◌, arith, All,
}
use nds.Types.{State, off, on, running, fault, switching_off, stopping, state_eq, Timespec}
use nds.StateMachine.{
  StateMachine, StateChange, Transition, Outcome, returned, begun, enter, begin_transition, settle,
  get_global_state, find_transition,
}
use nds.StateMachine.Diagram.{
  Edge, switching_on, turning_off, starting_up, stopping_down, recovering, is_stable,
}
use nds.StateMachine.Steps.{Edge-find_transition, find_transition-edge_function, enter-local_state}
use nds.StateMachine.Interleaving.{System, Reach, boot, Reach-Inv, Busy, idle, one}

Edge-differs : {a via b : State} → Edge a via b → state_eq a b ≡ false
Edge-differs switching_on = refl
Edge-differs turning_off = refl
Edge-differs starting_up = refl
Edge-differs stopping_down = refl
Edge-differs recovering = refl

end_stable : {a via b : State} → Edge a via b → is_stable b ≡ true
end_stable switching_on = refl
end_stable turning_off = refl
end_stable starting_up = refl
end_stable stopping_down = refl
end_stable recovering = refl

module _ {W : Type 0} where
  -- The function of a transition runs, and the machine takes its end.
  abbrev completed : System W → Transition W → List (Transition W) → System W
  completed s t flights =
      let (w, o) = t.function s.world in
      let (m, w') = settle s.machine t.initial_state t.final_state o w in
      record { machine = m; world = w'; flights = flights }

  -- A step onward: a request whose transition gets its thread, where it needs one, or the end of a
  -- transition, by what its function does.
  pub data Goes (s : System W) : System W → Type 0 where
    ask :
        (children : Timespec × State) (new : State) (m : StateMachine W) (w : W) (f : StateChange W)
        → begin_transition s.machine children new s.world ≡ begun m w f
        → (s.machine.async ≡ true → s.machine.can_launch w ≡ true)
        → Goes s (record {
          machine = m;
          world = w;
          flights =
              record { initial_state = s.machine.local_state; final_state = new; function = f }
              ∷ s.flights;
        })
    complete :
        (before after : List (Transition W)) (t : Transition W)
        → s.flights ≡ before ++ t ∷ after
        → Goes s (completed s t (before ++ after))

  pub data Onward (s : System W) : System W → Type 0 where
    here : Onward s s
    next : {t u : System W} → Onward s t → Goes t u → Onward s u

  -- The device vetoes no transition, the system has a thread where the machine needs one, and the
  -- functions on the way to off return.
  pub record Willing (m : StateMachine W) : Type 0 where
    pub permits : (w : W) (local global new : State) → m.allow_change w local global new ≡ true
    pub launches : (w : W) → m.async ≡ true → m.can_launch w ≡ true
    pub switches_off : (w : W) → (m.switch_off w).1 ≡ returned
    pub stops : (w : W) → (m.stop w).1 ≡ returned
    pub recovers : (w : W) → (m.recover w).1 ≡ returned

  abbrev pub EndsWell : Transition W → Type 0
  EndsWell t = (w : W) → (t.function w).1 ≡ returned

  Willing-enter : (m : StateMachine W) (l : State) (w : W) → Willing m → Willing (enter m l w).0
  unfolding enter
  Willing-enter m l w k = record {
    permits = k.permits;
    launches = k.launches;
    switches_off = k.switches_off;
    stops = k.stops;
    recovers = k.recovers;
  }

  settle-Willing :
      (m : StateMachine W) (initial final : State) (o : Outcome) (w : W)
      → o ≡ returned
      → Willing m
      → ((settle m initial final o w).0.local_state ≡ final)
        × Willing (settle m initial final o w).0
  unfolding settle
  settle-Willing m initial final o w e k =
      rw e (enter-local_state m final w, Willing-enter m final w k)

  Onward-trans : {s t u : System W} → Onward s t → Onward t u → Onward s u
  Onward-trans r here = r
  Onward-trans r (next q st) = next (Onward-trans r q) st

  -- The function that is found for an edge returns.
  abbrev Calm : StateMachine W → State → State → State → Type 0
  Calm m a via new =
      (f : StateChange W) → find_transition m a new ≡ some (via, f) → (w : W) → (f w).1 ≡ returned

  turning_off-Calm : (m : StateMachine W) → Willing m → Calm m on switching_off off
  turning_off-Calm m k f h w = rw (find_transition-edge_function m turning_off h) (k.switches_off w)

  stopping_down-Calm : (m : StateMachine W) → Willing m → Calm m running stopping on
  stopping_down-Calm m k f h w = rw (find_transition-edge_function m stopping_down h) (k.stops w)

  recovering-Calm : (m : StateMachine W) → Willing m → Calm m fault switching_off off
  recovering-Calm m k f h w = rw (find_transition-edge_function m recovering h) (k.recovers w)

  begin_transition-Edge :
      (m : StateMachine W) (children : Timespec × State) (new via : State) (w : W)
      → Edge m.local_state via new
      → Willing m
      → (f : StateChange W) × (find_transition m m.local_state new ≡ some (via, f))
        × (begin_transition m children new w ≡ begun (enter m via w).0 (enter m via w).1 f)
  unfolding begin_transition
  begin_transition-Edge m children new via w e k =
      let (f, found) = Edge-find_transition m e in
      (
        f,
        found,
        rw (
          begin_transition,
          Edge-differs e,
          found,
          k.permits w m.local_state (get_global_state m children).1 new,
        ),
      )

  -- The machine has come to rest in a state.
  abbrev RestsAt : State → System W → Type 0
  RestsAt a s = (s.machine.local_state ≡ a) × (s.flights ≡ []) × Willing s.machine

  -- The one transition under way ends well.
  finish_well :
      (s : System W) (t : Transition W)
      → s.flights ≡ t ∷ []
      → EndsWell t
      → Willing s.machine
      → (u : System W) × Onward s u × RestsAt t.final_state u
  finish_well s t e ends k =
      let (at, willing) =
        settle-Willing s.machine t.initial_state t.final_state (t.function s.world).1
          (t.function s.world).0 (ends s.world) k in
      (_, next here (complete [] [] t e), (at, refl, willing))

  -- One transition that is asked for and ends well.
  transit :
      (s : System W) (a via new : State)
      → Edge a via new
      → Calm s.machine a via new
      → RestsAt a s
      → (t : System W) × Onward s t × RestsAt new t
  transit s a via new e calm (at, empty, k) =
      let edge = subst (λ l. Edge l via new) (sym at) e in
      let children : Timespec × State = (s.machine.state_timestamp, a) in
      let (f, found, begins) = begin_transition-Edge s.machine children new via s.world edge k in
      let ends = calm f (subst (λ l. find_transition s.machine l new ≡ some (via, f)) at found) in
      let asked = ask children new _ _ f begins (k.launches (enter s.machine via s.world).1) in
      let flight : Transition W = record {
        initial_state = s.machine.local_state;
        final_state = new;
        function = f;
      } in
      let (t, r, rest) =
        finish_well _ flight (ap (λ fs. flight ∷ fs) empty) ends
          (Willing-enter s.machine via s.world k) in
      (t, Onward-trans (next here asked) r, rest)

  -- From rest at a stable state to rest at off.
  switch_off_from :
      (s : System W) (a : State)
      → is_stable a ≡ true
      → RestsAt a s
      → (t : System W) × Onward s t × RestsAt off t
  switch_off_from s off h rest = (s, here, rest)
  switch_off_from s on h rest =
      transit s on switching_off off turning_off (turning_off-Calm s.machine rest.2) rest
  switch_off_from s running h rest =
      let (t, r, rest') =
        transit s running stopping on stopping_down (stopping_down-Calm s.machine rest.2) rest in
      let (u, q, rest'') =
        transit t on switching_off off turning_off (turning_off-Calm t.machine rest'.2) rest' in
      (u, Onward-trans r q, rest'')
  switch_off_from s fault h rest =
      transit s fault switching_off off recovering (recovering-Calm s.machine rest.2) rest
  switch_off_from s _ h rest = absurd (ground arith)

  Busy-cases :
      {l : State} {fs : List (Transition W)}
      → Busy l fs
      → (fs ≡ []) ⊎ ((t : Transition W) × (fs ≡ t ∷ []) × Edge t.initial_state l t.final_state)
  Busy-cases idle = inl refl
  Busy-cases (one t e) = inr (t, refl, e)

  -- From all that steps reach after initialize, further steps switch the machine off and leave no
  -- transition under way: be it that a transition function is running that returns, or that the machine
  -- is in a stable state. It is required that the device vetoes no transition, that a machine with
  -- threads gets them, and that the functions of switching off, stopping and recovering return.
  pub can_switch_off :
      (m : StateMachine W) (w : W) {s : System W}
      → Reach (boot m w) s
      → (s.flights ≡ [] → is_stable s.machine.local_state ≡ true)
      → All EndsWell s.flights
      → Willing s.machine
      → (t : System W) × Onward s t × (t.machine.local_state ≡ off) × (t.flights ≡ [])
  can_switch_off m w {s} r stable ends willing = elim (Busy-cases (Reach-Inv m w r).busy) [
    | inl empty ↦
        let (t, q, rest) =
          switch_off_from s s.machine.local_state (stable empty) (refl, empty, willing) in
        (t, q, rest.0, rest.1)
    | inr (t, flying, edge) ↦
        let (u, q, rest) = finish_well s t flying (subst (All EndsWell) flying ends).0 willing in
        let (v, q', rest') = switch_off_from u t.final_state (end_stable edge) rest in
        (v, Onward-trans q q', rest'.0, rest'.1)
  ]

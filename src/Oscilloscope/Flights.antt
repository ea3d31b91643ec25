-- ===== src/Oscilloscope/Flights.antt =====
-- The functions of a wave, and the one transition that may be under way.
use nds.Prelude.{
  ℕ, ◌≡◌, refl, sym, ap, subst, ◌∙◌, inl, inr, Option, some, List, [], ◌∷◌, ◌++◌, arith, Bool-cases,
}
use nds.Types.{Timespec, State}
use nds.StateMachine.{StateMachine, StateChange, begun, find_transition, begin_transition}
use nds.StateMachine.Diagram.{
  Edge, switching_on, turning_off, starting_up, stopping_down, recovering, via_unstable,
  start_stable,
}
use nds.StateMachine.Steps.{find_transition-Edge, enter-local_state}
use nds.Acquisition.{on_start}
use nds.Oscilloscope.{
  Wave, Channel, read_clock, of_wave, start_channel, channel_machine, switch_on_wave,
  switch_off_wave, start_wave, stop_wave, recover_wave,
}
use nds.Oscilloscope.Acquiring.{
  own, acquires-depart, ended_state, Flight, Acquiring, due, Threaded, Flying, idle, one, Sound,
  begun-found, enter-Settled,
}

module _ {F : Type 0} (clock : ℕ → Timespec) (uninit : Timespec) where
  abbrev pub function_of : {a v b : State} → Edge a v b → StateChange (Channel F)
  function_of switching_on = of_wave clock switch_on_wave
  function_of turning_off = of_wave clock switch_off_wave
  function_of starting_up = start_channel clock
  function_of stopping_down = of_wave clock stop_wave
  function_of recovering = of_wave clock recover_wave

  found_function :
      {v w : State} {f g : StateChange (Channel F)}
      → ◌≡◌ {A = Option (State × StateChange (Channel F))} (some (v, f)) (some (w, g))
      → g ≡ f
  found_function h = cc

  pub own_function :
      {a v b : State} {f : StateChange (Channel F)} (e : Edge a v b)
      → find_transition (own clock uninit) a b ≡ some (v, f)
      → f ≡ function_of e
  unfolding find_transition channel_machine
  own_function switching_on h = found_function h
  own_function turning_off h = found_function h
  own_function starting_up h = found_function h
  own_function stopping_down h = found_function h
  own_function recovering h = found_function h

  pub function_of-Threaded :
      {a v b : State} (e : Edge a v b) (c : Channel F)
      → Threaded v c.wave
      → let (w, o) = function_of e c in Threaded (ended_state v a b o) w.wave
  unfolding switch_on_wave switch_off_wave start_channel start_wave stop_wave recover_wave on_start
  function_of-Threaded switching_on c h = h
  function_of-Threaded turning_off c h = h
  function_of-Threaded starting_up c h = elim (Bool-cases c.wave.can_launch) [
    | inl r ↦ rw r (refl, ground arith)
    | inr r ↦ rw r (h.0, h.1)
  ]
  function_of-Threaded stopping_down c h = rw (h.0) (refl, h.1)
  function_of-Threaded recovering c h = h

  pub Flying-idle :
      {l via new : State} {fs : List (Flight F)}
      → Flying clock uninit l fs
      → Edge l via new
      → fs ≡ []
  Flying-idle idle e = refl
  Flying-idle (one t h) e = cc (via_unstable (find_transition-Edge _ _ _ _ _ h), start_stable e)

  -- What a request that begins a transition leaves.
  pub record Requested (s : Acquiring F) (new : State) (m : StateMachine (Channel F))
      (w : Channel F) (f : StateChange (Channel F)) : Type 0 where
    pub via : State
    pub edge : Edge s.machine.local_state via new
    pub found : find_transition (own clock uninit) s.machine.local_state new ≡ some (via, f)
    pub nothing_flies : s.flights ≡ []
    pub enters : m.local_state ≡ via
    pub same : (a b : State) → find_transition m a b ≡ find_transition (own clock uninit) a b
    pub time : m.get_timestamp ≡ read_clock clock
    pub threaded : Threaded via w.wave

  pub request-Requested :
      {s : Acquiring F} (children : Timespec × State) (new : State) {m : StateMachine (Channel F)}
      {w : Channel F} {f : StateChange (Channel F)}
      → begin_transition s.machine children new s.world ≡ begun m w f
      → Sound clock uninit s
      → Requested s new m w f
  request-Requested {s} children new b h =
      let (via, found, em, ew) = begun-found clock uninit s.machine children new s.world b in
      let own_found = sym (h.functions s.machine.local_state new) ∙ found in
      let edge = find_transition-Edge _ _ _ _ _ own_found in
      let empty = Flying-idle h.flying edge in
      let e = enter-Settled clock uninit s.machine via s.world h.time in
      let rests =
        subst (λ fs. Threaded (due s.machine.local_state fs) s.world.wave) empty h.threaded in
      rw (em, ew)
        (record {
          via = via;
          edge = edge;
          found = own_found;
          nothing_flies = empty;
          enters = enter-local_state s.machine via s.world;
          same = λ x y. e.same x y ∙ h.functions x y;
          time = e.clocked;
          threaded = (
            ap (λ (x : Wave). x.joinable) e.wave ∙ rests.0 ∙ sym (acquires-depart edge),
            ap (λ (x : Wave). x.terminated) e.wave ∙ rests.1,
          );
        })

  -- What runs or settles is the one transition under way.
  pub record Alone (l : State) (fs before after : List (Flight F)) (x : Flight F) : Type 0 where
    pub single : fs ≡ x ∷ []
    pub none_before : before ≡ []
    pub none_after : after ≡ []
    pub found :
        find_transition (own clock uninit) x.transition.initial_state x.transition.final_state
        ≡ some (l, x.transition.function)

  pub Flying-Alone :
      {l : State} {fs : List (Flight F)} (before after : List (Flight F)) (x : Flight F)
      → Flying clock uninit l fs
      → fs ≡ before ++ x ∷ after
      → Alone l fs before after x
  Flying-Alone [] after x idle e = cc
  Flying-Alone {l} [] after x (one y h) e =
      let same : y ≡ x = cc in
      let rest : after ≡ [] = cc in
      record {
        single = ap (λ z. z ∷ []) same;
        none_before = refl;
        none_after = rest;
        found =
            subst
              (λ (z : Flight F).
                find_transition (own clock uninit) z.transition.initial_state
                  z.transition.final_state
                ≡ some (l, z.transition.function))
              same h;
      }
  Flying-Alone (y ∷ before) after x idle e = cc
  Flying-Alone (y ∷ []) after x (one z h) e = cc
  Flying-Alone (y ∷ z ∷ before) after x (one v h) e = cc

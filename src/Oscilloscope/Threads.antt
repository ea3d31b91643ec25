-- ===== src/Oscilloscope/Threads.antt =====
-- Whether there is an acquisition thread, and what is left of a wave that has broken down.
use nds.Prelude.{ℕ, ◌≡◌, refl, sym, ap, subst, ◌∙◌, false, none, some, List, ◌∷◌, ◌++◌}
use nds.Types.{Timespec, State, off}
use nds.StateMachine.{StateChange, Transition, Outcome, enter, find_transition, initialize}
use nds.StateMachine.Steps.{find_transition-Edge}
use nds.Oscilloscope.{Wave, Channel, read_clock, channel_machine}
use nds.Oscilloscope.Flights.{own_function, function_of-Threaded, request-Requested, Flying-Alone}
use nds.Oscilloscope.Acquiring.{
  Happens, request, stranded, run, settles, resources, Leads, here, next, own, acquires,
  ended_state, Flight, Acquiring, due, ran, settled, boot, Threaded, settle-ended_state, idle, one,
  Sound, enter-functions, settle-Settled,
}

module _ {F : Type 0} (clock : ℕ → Timespec) (uninit : Timespec) where
  run-Threaded :
      (c : Channel F) (l : State) (t : Transition (Channel F))
      → find_transition (own clock uninit) t.initial_state t.final_state ≡ some (l, t.function)
      → Threaded l c.wave
      → Threaded
          (ended_state l t.initial_state t.final_state (t.function c).1)
          (t.function c).0.wave
  run-Threaded c l t found h =
      let edge = find_transition-Edge _ _ _ _ _ found in
      subst
        (λ (f : StateChange (Channel F)).
          Threaded (ended_state l t.initial_state t.final_state (f c).1) (f c).0.wave)
        (sym (own_function clock uninit edge found)) (function_of-Threaded clock uninit edge c h)

  ran-Sound :
      (s : Acquiring F) (before after : List (Flight F)) (t : Transition (Channel F))
      → s.flights ≡ before ++ record { transition = t; ended = none } ∷ after
      → Sound clock uninit s
      → Sound clock uninit (ran clock uninit s t before after)
  ran-Sound s before after t e h =
      let a =
        Flying-Alone clock uninit before after (record { transition = t; ended = none }) h.flying
          e in
      let now =
        subst (λ fs. Threaded (due s.machine.local_state fs) s.world.wave) a.single h.threaded in
      rw (a.none_before, a.none_after)
        (record {
          functions = h.functions;
          time = h.time;
          flying = one _ a.found;
          threaded = run-Threaded s.world s.machine.local_state t a.found now;
        })

  settled-Sound :
      (s : Acquiring F) (before after : List (Flight F)) (t : Transition (Channel F)) (o : Outcome)
      → s.flights ≡ before ++ record { transition = t; ended = some o } ∷ after
      → Sound clock uninit s
      → Sound clock uninit (settled clock uninit s t o (before ++ after))
  settled-Sound s before after t o e h =
      let a =
        Flying-Alone clock uninit before after (record { transition = t; ended = some o }) h.flying
          e in
      let now =
        subst (λ fs. Threaded (due s.machine.local_state fs) s.world.wave) a.single h.threaded in
      let r =
        settle-Settled clock uninit s.machine t.initial_state t.final_state o s.world h.time in
      let at = settle-ended_state clock uninit s.machine t.initial_state t.final_state o s.world in
      rw (a.none_before, a.none_after)
        (record {
          functions = λ x y. r.same x y ∙ h.functions x y;
          time = r.clocked;
          flying = idle;
          threaded = (
            ap (λ (x : Wave). x.joinable) r.wave ∙ now.0 ∙ ap acquires (sym at),
            ap (λ (x : Wave). x.terminated) r.wave ∙ now.1,
          );
        })

  pub Happens-Sound :
      {s u : Acquiring F} → Happens clock uninit s u → Sound clock uninit s → Sound clock uninit u
  Happens-Sound {s} (request children new m w f b l) h =
      let g = request-Requested clock uninit children new b h in
      rw (g.nothing_flies) (record {
        functions = g.same;
        time = g.time;
        flying = rw (g.enters) (one _ g.found);
        threaded = rw (g.enters) g.threaded;
      })
  Happens-Sound {s} (stranded children new m w f b l) h =
      let g = request-Requested clock uninit children new b h in
      rw (g.nothing_flies) (record {
        functions = g.same;
        time = g.time;
        flying = idle;
        threaded = rw (g.enters) g.threaded;
      })
  Happens-Sound {s} (run before after t e) h = ran-Sound s before after t e h
  Happens-Sound {s} (settles before after t o e) h = settled-Sound s before after t o e h
  Happens-Sound (resources b) h = record {
    functions = h.functions;
    time = h.time;
    flying = h.flying;
    threaded = h.threaded;
  }

  pub boot-Sound :
      (c : Channel F)
      → (c.wave.joinable ≡ false)
      → (c.wave.terminated ≡ false)
      → Sound clock uninit (boot clock uninit c)
  unfolding initialize enter channel_machine read_clock
  boot-Sound c j t = record {
    functions = λ a b. enter-functions clock uninit (own clock uninit) off c a b;
    time = refl;
    flying = idle;
    threaded = (j, t);
  }

  pub Leads-Sound :
      {s u : Acquiring F} → Leads clock uninit s u → Sound clock uninit s → Sound clock uninit u
  Leads-Sound here h = h
  Leads-Sound (next r st) h = Happens-Sound st (Leads-Sound r h)

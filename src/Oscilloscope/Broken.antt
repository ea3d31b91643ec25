-- ===== src/Oscilloscope/Broken.antt =====
-- A wave that has broken down: its recover function only rolls back.
use nds.Prelude.{
  ℕ, ◌≡◌, refl, sym, ap, subst, ◌∙◌, ◌⊎◌, inl, inr, false, Option, none, some, List, [], ◌∷◌, arith,
}
use nds.Types.{Timespec, State, fault, switching_off}
use nds.StateMachine.{StateChange, Outcome}
use nds.StateMachine.Diagram.{
  Edge, switching_on, turning_off, starting_up, stopping_down, recovering,
}
use nds.StateMachine.Steps.{find_transition-Edge}
use nds.Oscilloscope.{Channel, recover_wave}
use nds.Oscilloscope.Flights.{function_of, own_function, request-Requested, Flying-Alone}
use nds.Oscilloscope.Acquiring.{
  Happens, request, stranded, run, settles, resources, Leads, here, next, ended_state, Flight,
  Acquiring, boot, settle-ended_state, Sound,
}
use nds.Oscilloscope.Threads.{boot-Sound, Leads-Sound}

from_fault : {a v b : State} → Edge a v b → a ≡ fault → v ≡ switching_off
from_fault switching_on h = absurd (ground arith)
from_fault turning_off h = absurd (ground arith)
from_fault starting_up h = absurd (ground arith)
from_fault stopping_down h = absurd (ground arith)
from_fault recovering h = refl

-- A request begins a transition from fault only: none leaves switching off.
leaves_fault : {l via new : State} → Edge l via new → (l ≡ fault) ⊎ (l ≡ switching_off) → l ≡ fault
leaves_fault e (inl at) = at
leaves_fault switching_on (inr between) = absurd (ground arith)
leaves_fault turning_off (inr between) = absurd (ground arith)
leaves_fault starting_up (inr between) = absurd (ground arith)
leaves_fault stopping_down (inr between) = absurd (ground arith)
leaves_fault recovering (inr between) = absurd (ground arith)

module _ {F : Type 0} (clock : ℕ → Timespec) (uninit : Timespec) where
  -- The machine is in fault, or on the way from there, or was left on the way from there by a request
  -- without a thread.
  record Broken (s : Acquiring F) : Type 0 where
    resting :
        s.flights ≡ [] → (s.machine.local_state ≡ fault) ⊎ (s.machine.local_state ≡ switching_off)
    flying :
        (x : Flight F)
        → s.flights ≡ x ∷ []
        → (x.transition.initial_state ≡ fault)
          × ((o : Outcome)
              → x.ended ≡ some o
              → ended_state s.machine.local_state x.transition.initial_state
                  x.transition.final_state o
                ≡ fault)

  rolls_back :
      {a v b : State} (e : Edge a v b) (c : Channel F)
      → a ≡ fault
      → ended_state v a b (function_of {F = F} clock uninit e c).1 ≡ fault
  unfolding recover_wave
  rolls_back switching_on c h = absurd (ground arith)
  rolls_back turning_off c h = absurd (ground arith)
  rolls_back starting_up c h = absurd (ground arith)
  rolls_back stopping_down c h = absurd (ground arith)
  rolls_back recovering c h = refl

  alone_flight : {x y : Flight F} → ◌≡◌ {A = List (Flight F)} (x ∷ []) (y ∷ []) → x ≡ y
  alone_flight h = cc

  Happens-Broken :
      {s u : Acquiring F} → Happens clock uninit s u → Sound clock uninit s → Broken s → Broken u
  Happens-Broken {s} (request children new m w f b l) h k =
      let g = request-Requested clock uninit children new b h in
      let at = leaves_fault g.edge (k.resting g.nothing_flies) in
      let z : Flight F = record {
        transition = record {
          initial_state = s.machine.local_state;
          final_state = new;
          function = f;
        };
        ended = none;
      } in
      record {
        resting = λ e. cc;
        flying = λ x e.
            let same = alone_flight (ap (λ fs. z ∷ fs) (sym g.nothing_flies) ∙ e) in
            (
              ap (λ (y : Flight F). y.transition.initial_state) (sym same) ∙ at,
              λ o ended. cc (ap (λ (y : Flight F). y.ended) same),
            );
      }
  Happens-Broken {s} (stranded children new m w f b l) h k =
      let g = request-Requested clock uninit children new b h in
      let at = leaves_fault g.edge (k.resting g.nothing_flies) in
      record {
        resting = λ e. inr (g.enters ∙ from_fault g.edge at);
        flying = λ x e. cc (g.nothing_flies);
      }
  Happens-Broken {s} (run before after t e) h k =
      let x : Flight F = record { transition = t; ended = none } in
      let a = Flying-Alone clock uninit before after x h.flying e in
      let edge = find_transition-Edge _ _ _ _ _ a.found in
      let from = (k.flying x a.single).0 in
      let back =
        subst
          (λ (f : StateChange (Channel F)).
            ended_state s.machine.local_state t.initial_state t.final_state (f s.world).1 ≡ fault)
          (sym (own_function clock uninit edge a.found)) (rolls_back edge s.world from) in
      rw (a.none_before, a.none_after)
        (record {
          resting = λ e. cc;
          flying = λ y e.
              subst
                (λ (z : Flight F).
                  (z.transition.initial_state ≡ fault)
                  × ((o : Outcome)
                      → z.ended ≡ some o
                      → ended_state s.machine.local_state z.transition.initial_state
                          z.transition.final_state o
                        ≡ fault))
                (alone_flight e)
                (
                  from,
                  λ o ended.
                      subst
                        (λ r.
                          ended_state s.machine.local_state t.initial_state t.final_state r ≡ fault)
                        (same_outcome ended) back,
                );
        })
    where
      same_outcome : {o r : Outcome} → ◌≡◌ {A = Option Outcome} (some o) (some r) → o ≡ r
      same_outcome h = cc
  Happens-Broken {s} (settles before after t o e) h k =
      let x : Flight F = record { transition = t; ended = some o } in
      let a = Flying-Alone clock uninit before after x h.flying e in
      rw (a.none_before, a.none_after)
        (record {
          resting = λ e. inl (
              settle-ended_state clock uninit s.machine t.initial_state t.final_state o s.world
              ∙ (k.flying x a.single).1 o refl);
          flying = λ y e. cc;
        })
  Happens-Broken (resources b) h k = record { resting = k.resting; flying = k.flying }

  Leads-Broken :
      {s u : Acquiring F} → Leads clock uninit s u → Sound clock uninit s → Broken s → Broken u
  Leads-Broken here h k = k
  Leads-Broken (next r st) h k =
      Happens-Broken st (Leads-Sound clock uninit r h) (Leads-Broken r h k)

  -- From a state that the steps reach after initialize, in which the wave is in fault and no transition is
  -- under way, further steps lead, where again no transition is under way, to fault, or to switching off,
  -- in which a recovery that was given no thread leaves the machine: the wave never recovers.
  pub recover_wave-fault :
      (c : Channel F)
      → (c.wave.joinable ≡ false)
      → (c.wave.terminated ≡ false)
      → {s u : Acquiring F} → Leads clock uninit (boot clock uninit c) s
      → s.flights ≡ []
      → s.machine.local_state ≡ fault
      → Leads clock uninit s u
      → u.flights ≡ []
      → (u.machine.local_state ≡ fault) ⊎ (u.machine.local_state ≡ switching_off)
  recover_wave-fault c j t {s} {u} r e at q e' =
      let h = Leads-Sound clock uninit r (boot-Sound clock uninit c j t) in
      (Leads-Broken q h (record { resting = λ k. inl at; flying = λ x k. cc })).resting e'

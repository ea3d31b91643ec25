-- ===== src/Tests/Oscilloscope.antt =====
-- An oscilloscope whose sinusoidal wave is started and stopped, and one that cannot start it.
use nds.Prelude.{
  ℕ, ◌*◌, ℤ, pos, negsuc, ◌≡◌, refl, ◌⊎◌, Bool, true, false, [], ◌∷◌, map, arith, length, All,
}
use nds.Types.{unknown, Timespec, State, off, on, running, fault, switching_off}
use nds.Registry.{InputPv}
use nds.StateMachine.{
  enter, find_transition, begin_transition, settle, initialize, get_global_state,
}
use nds.Acquisition.{on_start, new_acquisition, to_size}
use nds.Oscilloscope.{
  Channel, read_clock, start_channel, channel_machine, switch_on_wave, start_wave, recover_wave,
  acquire, acquire_square_wave, acquire_sinusoidal_wave, fill_sinusoidal,
}
use nds.Oscilloscope.Acquiring.{Happens, Leads, Acquiring, due, boot}
use nds.Oscilloscope.Broken.{recover_wave-fault}
use nds.Oscilloscope.Waves.{
  repeat, until_stopped, samples, concat, acquire_square_wave-repeat,
  acquire_sinusoidal_wave-samples,
}

abbrev never : Timespec
never = record { tv_sec = 0; tv_nsec = 0 }

abbrev clock : ℕ → Timespec
clock n = record { tv_sec = n; tv_nsec = 0 }

abbrev data_pv : InputPv
data_pv = record {
  full_name = [];
  decimation_factor = 1;
  decimation_count = 1;
  subscribers = [];
  destinations = [];
}

abbrev channel : Bool → Channel ℕ
channel can_launch = record {
  acquisition = new_acquisition 0 1 never never data_pv 100;
  wave = record {
    stop_acquisition = false;
    joinable = false;
    can_launch = can_launch;
    terminated = false;
  };
  readings = 0;
}

abbrev booted : Acquiring ℕ
booted = boot clock never (channel true)

abbrev no_children : Timespec × State
no_children = (never, unknown)

-- What the steps reach, with no transition under way.
abbrev Rests : Acquiring ℕ → State → Type 0
Rests s l =
    (u : Acquiring ℕ) × Leads clock never s u × (u.machine.local_state ≡ l) × (u.flights ≡ [])

-- The wave is switched on and started, and its start function has run.
abbrev starting_wave :
    (u : Acquiring ℕ) × Leads clock never booted u × (due u.machine.local_state u.flights ≡ running)
unfolding initialize begin_transition find_transition enter get_global_state channel_machine settle
    switch_on_wave read_clock start_channel start_wave on_start
starting_wave = (
  _,
  Leads.next
      (Leads.next
        (Leads.next
          (Leads.next (Leads.next (Leads.here) (Happens.request no_children on _ _ _ refl refl))
            (Happens.run [] [] _ refl))
          (Happens.settles [] [] _ _ refl))
        (Happens.request no_children running _ _ _ refl refl))
      (Happens.run [] [] _ refl),
  refl,
)

-- The system has no thread for the wave that is started, which ends in fault.
abbrev broken_wave : Rests booted fault
unfolding initialize begin_transition find_transition enter get_global_state channel_machine settle
    switch_on_wave read_clock start_channel start_wave on_start
broken_wave = (
  _,
  Leads.next
      (Leads.next
        (Leads.next
          (Leads.next
            (Leads.next
              (Leads.next (Leads.next (Leads.here) (Happens.request no_children on _ _ _ refl refl))
                (Happens.run [] [] _ refl))
              (Happens.settles [] [] _ _ refl))
            (Happens.request no_children running _ _ _ refl refl))
          (Happens.resources false))
        (Happens.run [] [] _ refl))
      (Happens.settles [] [] _ _ refl),
  refl,
  refl,
)

-- A request to recover, after which the wave rests again.
abbrev retried_wave : Rests broken_wave.0 fault
unfolding initialize begin_transition find_transition enter get_global_state channel_machine settle
    switch_on_wave read_clock start_channel start_wave on_start recover_wave
retried_wave = (
  _,
  Leads.next
      (Leads.next
        (Leads.next (Leads.next Leads.here (Happens.resources true))
          (Happens.request no_children off _ _ _ refl refl))
        (Happens.run [] [] _ refl))
      (Happens.settles [] [] _ _ refl),
  refl,
  refl,
)

-- A request to recover for which there is no thread.
abbrev stranded_wave : Rests broken_wave.0 switching_off
unfolding initialize begin_transition find_transition enter get_global_state channel_machine settle
    switch_on_wave read_clock start_channel start_wave on_start recover_wave
stranded_wave =
    (_, Leads.next Leads.here (Happens.stranded no_children off _ _ _ refl refl), refl, refl)

recover_wave-fault_example :
    (stranded_wave.0.machine.local_state ≡ fault)
    ⊎ (stranded_wave.0.machine.local_state ≡ switching_off)
recover_wave-fault_example =
    recover_wave-fault clock never (channel true) refl refl broken_wave.1 broken_wave.3
      broken_wave.2 stranded_wave.1 stranded_wave.3

-- Amplitudes of 5 and of -3.
acquire_square_wave-repeat_example :
    acquire_square_wave 2 (until_stopped (pos 5 ∷ negsuc 2 ∷ []) (pos 5) [])
    ≡ (map (repeat 2) (pos 5 ∷ negsuc 2 ∷ []), true)
acquire_square_wave-repeat_example =
    acquire_square_wave-repeat 2 (pos 5 ∷ negsuc 2 ∷ []) (pos 5) [] (omega arith, (omega arith, tt))

-- A wave that rises by its amplitude.
abbrev ramp : ℕ → ℕ → ℤ
ramp amplitude angle = pos (amplitude * angle)

acquire_sinusoidal_wave-samples_example :
    let (pushed, ended) =
      acquire_sinusoidal_wave ramp 2 (until_stopped (repeat 3 (pos 4)) (pos 4) []) in
    (ended ≡ true)
    × All (λ v. length v ≡ 2) pushed
    × (concat pushed ≡ samples (ramp (to_size (pos 4))) 0 (3 * 2))
acquire_sinusoidal_wave-samples_example =
    acquire_sinusoidal_wave-samples ramp 2 3 (pos 4) (pos 4) []

-- Two passes of two elements each.
ramp_pushed :
    acquire_sinusoidal_wave ramp 2 (until_stopped (repeat 2 (pos 4)) (pos 4) [])
    ≡ ((pos 0 ∷ pos 4 ∷ []) ∷ (pos 8 ∷ pos 12 ∷ []) ∷ [], true)
unfolding acquire_sinusoidal_wave acquire fill_sinusoidal
ramp_pushed = refl

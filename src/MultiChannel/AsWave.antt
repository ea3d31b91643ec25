-- ===== src/MultiChannel/AsWave.antt =====
-- A channel of this device against a wave of the oscilloscope.
use nds.Prelude.{◌≡◌, refl, ◌⊎◌, inl, inr, Bool, true, false, none, some, Bool-cases}
use nds.Oscilloscope.{
  Wave, start_wave, stop_wave, switch_on_wave, switch_off_wave, recover_wave, ends,
}
use nds.Threads.{Thread, run_in_thread, new_thread_std, join, assign}
use nds.MultiChannel.{Channel, switch_on, switch_off, start, stop, recover, with_thread}

abbrev is_joinable : Thread → Bool
is_joinable none = false
is_joinable (some t) = t.joinable

-- The channel as a wave: the thread counts for whether it is joinable.
abbrev pub wave_of : Channel → Wave
wave_of c = record {
  stop_acquisition = c.stop_acquisition;
  joinable = is_joinable c.acquisition_thread;
  can_launch = c.can_launch;
  terminated = c.lost;
}

module _ (s l : Bool) where
  abbrev channel : Thread → Bool → Channel
  channel t r = record { stop_acquisition = s; acquisition_thread = t; can_launch = r; lost = l }

  start-channel :
      (t : Thread) (r : Bool)
      → (wave_of (start (channel t r)).0, (start (channel t r)).1)
        ≡ start_wave (wave_of (channel t r))
  unfolding start with_thread run_in_thread new_thread_std assign start_wave
  start-channel none true = refl
  start-channel none false = refl
  start-channel (some t) false = refl
  start-channel (some t) true = elim (Bool-cases t.joinable) [
    | inl e ↦ rw e refl
    | inr e ↦ rw e refl
  ]

  stop-channel :
      (t : Thread) (r : Bool)
      → ((t ≡ none) × ((stop (channel t r)).0.lost ≡ true))
        ⊎ ((wave_of (stop (channel t r)).0, ends (stop (channel t r)).1)
            ≡ stop_wave (wave_of (channel t r)))
  unfolding stop with_thread join stop_wave
  stop-channel none r = inl (refl, refl)
  stop-channel (some t) r = elim (Bool-cases t.joinable) [
    | inl e ↦ inr (rw e refl)
    | inr e ↦ inr (rw e refl)
  ]

-- The functions of a channel change its flag and its thread as those of the oscilloscope do for a wave,
-- and end alike; except that a stop where no thread was ever launched follows a null pointer, where that
-- of the oscilloscope throws.
pub start-start_wave :
    (c : Channel)
    → ((wave_of (start c).0, (start c).1) ≡ start_wave (wave_of c))
      × (((c.acquisition_thread ≡ none) × ((stop c).0.lost ≡ true))
          ⊎ ((wave_of (stop c).0, ends (stop c).1) ≡ stop_wave (wave_of c)))
      × ((wave_of (switch_on c).0, (switch_on c).1) ≡ switch_on_wave (wave_of c))
      × ((wave_of (switch_off c).0, (switch_off c).1) ≡ switch_off_wave (wave_of c))
      × ((wave_of (recover c).0, (recover c).1) ≡ recover_wave (wave_of c))
unfolding switch_on switch_off recover switch_on_wave switch_off_wave recover_wave
start-start_wave c = (
  start-channel c.stop_acquisition c.lost c.acquisition_thread c.can_launch,
  stop-channel c.stop_acquisition c.lost c.acquisition_thread c.can_launch,
  refl,
  refl,
  refl,
)

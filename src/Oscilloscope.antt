-- ===== src/Oscilloscope.antt =====
-- doc/examples/oscilloscope/oscilloscope.cpp: the device of two waves, its transition functions and
-- the loops of its acquisition threads. The functions of the square wave are those of the sinusoidal
-- one with the other members.
pub mod Acquiring
pub mod Flights
pub mod Threads
pub mod Broken
pub mod Waves
use nds.Prelude.{
  ℕ, zero, suc, ◌+◌, ◌-◌, ◌%◌, ◌^◌, ℤ, pos, negsuc, Bool, true, false, ◌||◌, none, List, [], ◌∷◌,
  ltb, if◌then◌else◌, Text,
}
use nds.Types.{
  ◌>>=◌, Timespec, Result, ok, err, State, off, runtime_error, state_machine_roll_back, NodeType,
  data_source_channel, OutputPvType, output,
}
use nds.Node.{Tree, object, plain, Kind, nil}
use nds.Attributes.{new_base, new_pv}
use nds.Acquisition.{Acquisition, new_acquisition_node, add_children, on_start, to_size}
use nds.StateMachine.{StateMachine, StateChange, Outcome, returned, threw}

-- "maxSinAmplitude"
abbrev max_sin_amplitude : Text
max_sin_amplitude =
    109 ∷ 97 ∷ 120 ∷ 83 ∷ 105 ∷ 110 ∷ 65 ∷ 109 ∷ 112 ∷ 108 ∷ 105 ∷ 116 ∷ 117 ∷ 100 ∷ 101 ∷ []

-- "maxSquareAmplitude"
abbrev max_square_amplitude : Text
max_square_amplitude =
    109 ∷ 97 ∷ 120 ∷ 83 ∷ 113 ∷ 117 ∷ 97 ∷ 114 ∷ 101 ∷ 65 ∷ 109 ∷ 112 ∷ 108 ∷ 105 ∷ 116 ∷ 117 ∷ 100
    ∷ 101 ∷ []

-- "SinWave"
abbrev sin_wave_name : Text
sin_wave_name = 83 ∷ 105 ∷ 110 ∷ 87 ∷ 97 ∷ 118 ∷ 101 ∷ []

-- "SquareWave"
abbrev square_wave_name : Text
square_wave_name = 83 ∷ 113 ∷ 117 ∷ 97 ∷ 114 ∷ 101 ∷ 87 ∷ 97 ∷ 118 ∷ 101 ∷ []

-- The node of an acquisition, with the objects that its constructor makes at `a` and behind.
unfoldable pub acquisition_tree : Timespec → ℕ → Text → Result Tree
acquisition_tree uninit a name = elim (new_acquisition_node uninit a name) [
  | ok (b, cs) ↦ ok (object b (plain data_source_channel) cs)
  | err e ↦ err e
]

-- The statements of the constructor before `initialize`: a port with the name of the device.
unfoldable pub oscilloscope_tree : Timespec → Text → Result Tree
oscilloscope_tree uninit device_name = do
  sin ← acquisition_tree uninit 2 sin_wave_name
  square ← acquisition_tree uninit 13 square_wave_name
  made ← add_children (new_base device_name) nil (
      new_pv max_sin_amplitude (output OutputPvType.generic) 0
      ∷ new_pv max_square_amplitude (output OutputPvType.generic) 1
      ∷ sin
      ∷ square
      ∷ [])
  ok (object made.0 (Kind.port NodeType.generic none) made.1)

-- The members of the class for one wave. `joinable` is what std::thread::joinable would say of the
-- thread; `terminated` tells that std::terminate was called. `can_launch` is whether the system has the
-- resources for another thread.
pub record Wave : Type 0 where
  pub stop_acquisition : Bool
  pub joinable : Bool
  pub can_launch : Bool
  pub terminated : Bool

unfoldable pub switch_on_wave : Wave → Wave × Outcome
switch_on_wave x = (x, returned)

unfoldable pub switch_off_wave : Wave → Wave × Outcome
switch_off_wave x = (x, returned)

-- The constructor of std::thread throws a std::system_error where it cannot launch the thread; the
-- assignment to a thread that is joinable calls std::terminate.
unfoldable pub start_wave : Wave → Wave × Result Unit
start_wave x =
    let y : Wave = record x { stop_acquisition = false } in
    if x.can_launch
    then (record y { joinable = true; terminated = x.joinable || x.terminated }, ok tt)
    else (y, err runtime_error)

-- `join` comes back when the thread has ended, and throws a std::system_error where there is none.
unfoldable pub stop_wave : Wave → Wave × Outcome
stop_wave x =
    let y : Wave = record x { stop_acquisition = true } in
    if x.joinable then (record y { joinable = false }, returned) else (y, threw runtime_error)

unfoldable pub recover_wave : Wave → Wave × Outcome
recover_wave x = (x, threw state_machine_roll_back)

abbrev pub allow_wave_change : State → State → State → Bool
allow_wave_change local global new = true

-- The destructor of the class, which has none of its own: that of a std::thread that is joinable calls
-- std::terminate.
unfoldable pub destroy_wave : Wave → Wave
destroy_wave x = record x { terminated = x.joinable || x.terminated }

-- What the state machine's functions see: the acquisition, the wave, and the clock.
pub record Channel (F : Type 0) : Type 0 where
  pub acquisition : Acquisition F
  pub wave : Wave
  pub readings : ℕ

abbrev pub ends : Result Unit → Outcome
ends (ok u) = returned
ends (err e) = threw e

module _ {F : Type 0} (clock : ℕ → Timespec) where
  unfoldable pub read_clock : Channel F → Channel F × Timespec
  read_clock c = (record c { readings = 1 + c.readings }, clock c.readings)

  abbrev pub of_wave : (Wave → Wave × Outcome) → StateChange (Channel F)
  of_wave f c = let (x, o) = f c.wave in (record c { wave = x }, o)

  -- DataAcquisitionImpl::onStart with startSinWave as the device's function.
  unfoldable pub start_channel : StateChange (Channel F)
  start_channel c =
      let (x, w, answer) =
        on_start (λ (d : Wave × ℕ). ((d.0, 1 + d.1), clock d.1))
          (λ (d : Wave × ℕ). let (y, r) = start_wave d.0 in ((y, d.1), r)) c.acquisition
          (c.wave, c.readings) in
      (record { acquisition = x; wave = w.0; readings = w.1 }, ends answer)

  -- The state machine of the acquisition node, with which the constructor makes it.
  unfoldable pub channel_machine : Timespec → StateMachine (Channel F)
  channel_machine uninit = record {
    async = true;
    local_state = off;
    state_timestamp = uninit;
    switch_on = of_wave switch_on_wave;
    switch_off = of_wave switch_off_wave;
    start = start_channel;
    stop = of_wave stop_wave;
    recover = of_wave recover_wave;
    allow_change = λ c. allow_wave_change;
    get_timestamp = read_clock;
    can_launch = λ c. c.wave.can_launch;
    pushed = [];
  }

-- outputData[i] = (condition) ? maxAmplitude : -maxAmplitude, where the size_t is made an int32_t.
abbrev pub of_size : ℕ → ℤ
of_size n = let m = n % 2 ^ 32 in if ltb m (2 ^ 31) then pos m else negsuc (2 ^ 32 - 1 - m)

unfoldable pub square_sample : ℕ → ℕ → ℤ
square_sample angle amplitude =
    if ltb (angle % 256) 128 then of_size amplitude else of_size ((2 ^ 64 - amplitude) % 2 ^ 64)

-- The inner loop over the rest of the vector, with the angle that it leaves.
unfoldable pub fill_square : ℕ → ℕ → ℕ → List ℤ × ℕ
fill_square zero angle amplitude = ([], angle)
fill_square (suc n) angle amplitude =
    let (rest, angle') = fill_square n angle amplitude in
    (square_sample angle amplitude ∷ rest, angle')

-- The same with angle++; `sample` is the product with the sine, made an int32_t.
unfoldable pub fill_sinusoidal : (ℕ → ℕ → ℤ) → ℕ → ℕ → ℕ → List ℤ × ℕ
fill_sinusoidal sample zero angle amplitude = ([], angle)
fill_sinusoidal sample (suc n) angle amplitude =
    let (rest, angle') = fill_sinusoidal sample n (1 + angle) amplitude in
    (sample amplitude angle ∷ rest, angle')

-- The loop of an acquisition thread. Each entry is what the thread reads when it comes to the condition
-- of the loop: the flag, and then the amplitude. It gives the vectors that are pushed, and whether the
-- thread has ended.
unfoldable pub acquire : (ℕ → ℕ → List ℤ × ℕ) → ℕ → List (Bool × ℤ) → List (List ℤ) × Bool
acquire fill angle [] = ([], false)
acquire fill angle ((true, a) ∷ reads) = ([], true)
acquire fill angle ((false, a) ∷ reads) =
    let (output_data, angle') = fill angle (to_size a) in
    let (pushed, ended) = acquire fill angle' reads in (output_data ∷ pushed, ended)

unfoldable pub acquire_square_wave : ℕ → List (Bool × ℤ) → List (List ℤ) × Bool
acquire_square_wave max_elements reads = acquire (fill_square max_elements) 0 reads

unfoldable pub acquire_sinusoidal_wave : (ℕ → ℕ → ℤ) → ℕ → List (Bool × ℤ) → List (List ℤ) × Bool
acquire_sinusoidal_wave sample max_elements reads =
    acquire (fill_sinusoidal sample max_elements) 0 reads

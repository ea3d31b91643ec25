-- ===== src/MultiChannel.antt =====
-- doc/examples/oscilloscopeMultiChannel/oscilloscopeMultiChannel.cpp: a device with 16 channels, each
-- with a node for an acquisition. The transition functions run after the device is initialized.
pub mod AsWave
use nds.Prelude.{ℕ, zero, suc, ◌+◌, ◌*◌, ℤ, Bool, true, false, none, List, [], ◌∷◌, ◌++◌, Text}
use nds.Types.{
  ◌>>=◌, Timespec, Result, ok, err, state_machine_roll_back, NodeType, OutputPvType, output,
}
use nds.Node.{Tree, object, plain, Kind, nil}
use nds.Attributes.{new_base, new_pv}
use nds.Naming.{decimal}
use nds.Acquisition.{add_children}
use nds.StateMachine.{Outcome, returned, threw}
use nds.Oscilloscope.{acquisition_tree, acquire, fill_sinusoidal}
use nds.Threads.{ThreadStd, Thread, Called, came_back, failed, run_in_thread, join, assign}

-- "Ch"
abbrev channel_prefix : Text
channel_prefix = 67 ∷ 104 ∷ []

-- "Acquisition"
abbrev acquisition_name : Text
acquisition_name = 65 ∷ 99 ∷ 113 ∷ 117 ∷ 105 ∷ 115 ∷ 105 ∷ 116 ∷ 105 ∷ 111 ∷ 110 ∷ []

-- "Amplitude"
abbrev amplitude_name : Text
amplitude_name = 65 ∷ 109 ∷ 112 ∷ 108 ∷ 105 ∷ 116 ∷ 117 ∷ 100 ∷ 101 ∷ []

-- channelName << "Ch" << numChannel, of a number with at most two digits.
unfoldable pub channel_name : ℕ → Text
channel_name n = channel_prefix ++ decimal 2 n

-- The constructor of Channel, with its objects at `a` and behind.
unfoldable pub channel_tree : Timespec → ℕ → Text → Result Tree
channel_tree uninit a name = do
  acquisition ← acquisition_tree uninit a acquisition_name
  made ←
      add_children (new_base name) nil
        (acquisition ∷ new_pv amplitude_name (output OutputPvType.generic) (11 + a) ∷ [])
  ok (object made.0 (plain NodeType.generic) made.1)

-- The loop of the constructor over the channels, the first `n` of which are there.
unfoldable pub channel_trees : Timespec → (n left : ℕ) → Result (List Tree)
channel_trees uninit n zero = ok []
channel_trees uninit n (suc left) = do
  t ← channel_tree uninit (12 * n) (channel_name n)
  ts ← channel_trees uninit (1 + n) left
  ok (t ∷ ts)

-- The statements of the constructor before `initialize`.
unfoldable pub multi_channel_tree : Timespec → Text → Result Tree
multi_channel_tree uninit device_name = do
  channels ← channel_trees uninit 0 16
  made ← add_children (new_base device_name) nil channels
  ok (object made.0 (Kind.port NodeType.generic none) made.1)

-- The members of Channel that its functions write. `lost` tells that std::terminate was called, or that
-- a null pointer was followed; `can_launch` is whether the system can launch another thread.
pub record Channel : Type 0 where
  pub stop_acquisition : Bool
  pub acquisition_thread : Thread
  pub can_launch : Bool
  pub lost : Bool

unfoldable pub switch_on : Channel → Channel × Outcome
switch_on c = (c, returned)

unfoldable pub switch_off : Channel → Channel × Outcome
switch_off c = (c, returned)

-- What the end of a call on the thread makes of the channel.
unfoldable pub with_thread : Channel → Called Thread → Channel × Result Unit
with_thread c (came_back t) = (record c { acquisition_thread = t }, ok tt)
with_thread c (failed e) = (c, err e)
with_thread c Called.lost = (record c { lost = true }, ok tt)

-- The assignment of what runInThread gives.
abbrev pub assign_called : Thread → Called ThreadStd → Called Thread
assign_called old (came_back t) = assign old t
assign_called old (failed e) = failed e
assign_called old Called.lost = Called.lost

unfoldable pub start : Channel → Channel × Result Unit
start c =
    with_thread (record c { stop_acquisition = false })
      (assign_called c.acquisition_thread (run_in_thread true c.can_launch acquisition_name))

unfoldable pub stop : Channel → Channel × Result Unit
stop c = with_thread (record c { stop_acquisition = true }) (join c.acquisition_thread)

unfoldable pub recover : Channel → Channel × Outcome
recover c = (c, threw state_machine_roll_back)

unfoldable pub acquisition_loop : (ℕ → ℕ → ℤ) → ℕ → List (Bool × ℤ) → List (List ℤ) × Bool
acquisition_loop sample max_elements reads = acquire (fill_sinusoidal sample max_elements) 0 reads

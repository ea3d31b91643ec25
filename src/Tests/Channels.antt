-- ===== src/Tests/Channels.antt =====
-- A channel that is started with a thread of its own, and the device with its 16 channels.
use nds.Prelude.{◌≡◌, refl, ◌⊎◌, true, false, none, some, [], ◌∷◌, Text, text_eq, text_lt}
use nds.Types.{ok}
use nds.Node.{Tree}
use nds.Naming.{decimal}
use nds.Building.{add_child, has_child, insert_child}
use nds.Acquisition.{
  new_acquisition_node, new_state_machine, add_children, as_machine, with_machine,
}
use nds.Attributes.{new_base, new_pv}
use nds.Oscilloscope.{
  start_wave, stop_wave, switch_on_wave, switch_off_wave, recover_wave, ends, acquisition_tree,
}
use nds.MultiChannel.{
  Channel, switch_on, switch_off, start, stop, recover, multi_channel_tree, channel_trees,
  channel_tree, channel_name,
}
use nds.MultiChannel.AsWave.{wave_of, start-start_wave}

-- "Ch0", "Ch15"
names_of_channels :
    (channel_name 0 ≡ 67 ∷ 104 ∷ 48 ∷ []) × (channel_name 15 ≡ 67 ∷ 104 ∷ 49 ∷ 53 ∷ [])
unfolding channel_name decimal
names_of_channels = (refl, refl)

abbrev idle_channel : Channel
idle_channel = record {
  stop_acquisition = true;
  acquisition_thread = some (record { name = 65 ∷ []; joinable = false });
  can_launch = true;
  lost = false;
}

start-start_wave_example :
    ((wave_of (start idle_channel).0, (start idle_channel).1) ≡ start_wave (wave_of idle_channel))
    × (((idle_channel.acquisition_thread ≡ none) × ((stop idle_channel).0.lost ≡ true))
        ⊎ ((wave_of (stop idle_channel).0, ends (stop idle_channel).1)
            ≡ stop_wave (wave_of idle_channel)))
    × ((wave_of (switch_on idle_channel).0, (switch_on idle_channel).1)
        ≡ switch_on_wave (wave_of idle_channel))
    × ((wave_of (switch_off idle_channel).0, (switch_off idle_channel).1)
        ≡ switch_off_wave (wave_of idle_channel))
    × ((wave_of (recover idle_channel).0, (recover idle_channel).1)
        ≡ recover_wave (wave_of idle_channel))
start-start_wave_example = start-start_wave idle_channel

-- The tree of a device, whatever its name.
device_tree :
    (device_name : Text)
    → (t : Tree) × (multi_channel_tree (record { tv_sec = 0; tv_nsec = 0 }) device_name ≡ ok t)
unfolding multi_channel_tree channel_trees channel_tree channel_name decimal acquisition_tree
    new_acquisition_node new_state_machine add_children as_machine with_machine new_base new_pv
    add_child has_child insert_child text_eq text_lt
device_tree device_name = (_, refl)

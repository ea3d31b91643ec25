-- ===== src/Acquisition/Started.antt =====
-- What a start of an acquisition sets, and the node that its constructor makes.
use nds.Prelude.{
  ℕ, ◌/◌, ◌^◌, ◌<◌, ℤ, pos, negsuc, ◌≡◌, refl, some, List, [], ◌∷◌, ◌++◌, arith, Text, text_eq,
  text_lt,
}
use nds.Types.{Timespec, Result, ok, off}
use nds.Node.{Children, Base, object, nil, cons, find_machine}
use nds.Building.{add_child, has_child, insert_child, machine_commands}
use nds.Push.{u32_mod}
use nds.Push.Decimation.{delivered, period, delivered-set_decimation}
use nds.Attributes.{new_base, new_pv}
use nds.Acquisition.{
  state_machine_name, data_name, frequency_name, duration_name, amplitude_name, offset_name,
  decimation_name, sampling_mode_name, ground_name, add_children, as_machine, new_state_machine,
  with_machine, new_acquisition_node, Acquisition, to_uint32, on_start,
}

-- The names of the children, in the order of the map.
abbrev pub names : Children → List Text
names nil = []
names (cons (object b k cs') cs) = b.name ∷ names cs

-- The constructor of an acquisition raises no error: it makes a node whose children are the eight PVs
-- and the state machine, in the order of their names, whose machine is off, and which has the
-- commands of the machine after its own.
pub new_acquisition_node_lem :
    (uninit : Timespec) (a : ℕ) (name : Text)
    → (b : Base) × (cs : Children) × (new_acquisition_node uninit a name ≡ ok (b, cs))
      × (names cs
          ≡ amplitude_name ∷ data_name ∷ decimation_name ∷ duration_name ∷ frequency_name
            ∷ ground_name ∷ offset_name ∷ sampling_mode_name ∷ state_machine_name ∷ [])
      × (find_machine cs ≡ some (uninit, off))
      × (b.commands ≡ (new_base name).commands ++ machine_commands)
unfolding new_acquisition_node new_state_machine with_machine as_machine add_children add_child
    has_child insert_child new_pv new_base find_machine text_eq text_lt
new_acquisition_node_lem uninit a name = (_, _, refl, refl, refl, refl)

-- The values of an int32_t.
abbrev pub IsInt32 : ℤ → Type 0
IsInt32 (pos n) = n < 2 ^ 31
IsInt32 (negsuc n) = n < 2 ^ 31

to_uint32-bound : (x : ℤ) → IsInt32 x → to_uint32 x < u32_mod
to_uint32-bound (pos n) h = omega arith
to_uint32-bound (negsuc n) h = omega arith

-- After onStart the start time is what the function for it gave, and the device's function for the
-- start has run on the world that this left. Of the next n values that are pushed, n / d reach the
-- control system, where d is the value of the decimation PV, which is one of an int32_t, as a
-- uint32_t, and 2^32 for 0.
pub on_start-delivered :
    {F W : Type 0} (start_timestamp : W → W × Timespec) (start : W → W × Result Unit)
    (x : Acquisition F) (w : W) (n : ℕ)
    → IsInt32 x.decimation.value
    → (delivered n (on_start start_timestamp start x w).0.data_pv
        ≡ n / period (to_uint32 x.decimation.value))
      × ((on_start start_timestamp start x w).0.start_time ≡ (start_timestamp w).1)
      × ((on_start start_timestamp start x w).1 ≡ (start (start_timestamp w).0).0)
      × ((on_start start_timestamp start x w).2 ≡ (start (start_timestamp w).0).1)
unfolding on_start
on_start-delivered start_timestamp start x w n h = (
  delivered-set_decimation n (to_uint32 x.decimation.value) x.data_pv
      (to_uint32-bound x.decimation.value h),
  refl,
  refl,
  refl,
)

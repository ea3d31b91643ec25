-- ===== src/Devices.antt =====
-- src/factoryBaseImpl.cpp: the devices that a control system creates and destroys, and the root
-- nodes that it holds for them.
pub mod Held
pub mod Lifetime
use nds.Prelude.{
  ℕ, Option, none, some, List, [], ◌∷◌, ◌++◌, map, ltb, ◌==◌, if◌then◌else◌, Text, Map, lookup,
  insert, erase,
}
use nds.Types.{Result, ok, err, other_error, device_already_created, device_not_allocated}

-- `AllocatedDevice`: the address of the device, where 0 is the null pointer, and the deallocation
-- function, where none is an empty std::function.
pub record Device : Type 0 where
  pub pointer : ℕ
  pub deallocation_function : Option ℕ

-- What the calls do outside the factory, in order.
pub data Event : Type 0 where
  deinitialized : (node : ℕ) → Event
  deallocated : (function pointer : ℕ) → Event

-- `m_allocatedDevices`, `m_heldNodes` in the order of the addresses, and the events so far.
pub record Devices : Type 0 where
  pub allocated : Map Device
  pub held : List (ℕ × List ℕ)
  pub events : List Event

unfoldable pub hold : ℕ → ℕ → List (ℕ × List ℕ) → List (ℕ × List ℕ)
hold p node [] = (p, node ∷ []) ∷ []
hold p node ((q, nodes) ∷ rest) =
    if q == p
    then (q, nodes ++ node ∷ []) ∷ rest
    else (if ltb p q then (p, node ∷ []) ∷ (q, nodes) ∷ rest else (q, nodes) ∷ hold p node rest)

unfoldable pub hold_node : ℕ → ℕ → Devices → Devices
hold_node p node s = record s { held = hold p node s.held }

-- The driver's allocation function runs the device's code, which calls the factory again: it is a
-- parameter, from state to state.
abbrev pub Allocate : Type 0
Allocate = Devices → Devices × Result (ℕ × ℕ)

unfoldable pub finish_creation : Text → Devices → Result (ℕ × ℕ) → Devices × Result ℕ
finish_creation name s (err e) = (record s { allocated = erase name s.allocated }, err e)
finish_creation name s (ok (p, f)) = (
  record s {
    allocated = insert name (record { pointer = p; deallocation_function = some f }) s.allocated;
  },
  ok p,
)

-- The name, with no device yet.
unfoldable pub reserve : Text → Devices → Devices
reserve name s = record s {
  allocated = insert name (record { pointer = 0; deallocation_function = none }) s.allocated;
}

unfoldable pub create_device : Allocate → Text → Devices → Devices × Result ℕ
create_device allocate name s = elim (lookup name s.allocated) [
  | some d ↦ (s, err device_already_created)
  | none ↦ let (s', answer) = allocate (reserve name s) in finish_creation name s' answer
]

-- The nodes held for a device.
unfoldable pub nodes_of : ℕ → List (ℕ × List ℕ) → List ℕ
nodes_of p [] = []
nodes_of p ((q, nodes) ∷ rest) = if q == p then nodes ++ nodes_of p rest else nodes_of p rest

unfoldable pub release : ℕ → List (ℕ × List ℕ) → List (ℕ × List ℕ)
release p [] = []
release p ((q, nodes) ∷ rest) = if q == p then rest else (q, nodes) ∷ release p rest

-- The first device at an address, with its name.
unfoldable pub find_device : ℕ → Map Device → Option (Text × Device)
find_device p [] = none
find_device p ((name, d) ∷ m) = if d.pointer == p then some (name, d) else find_device p m

unfoldable pub deinitialize_nodes : List ℕ → Devices → Devices
deinitialize_nodes nodes s = record s { events = s.events ++ map deinitialized nodes }

-- The call of the deallocation function; an empty one throws std::bad_function_call.
unfoldable pub deallocate : Device → Devices → Devices × Result Unit
deallocate d s = elim d.deallocation_function [
  | none ↦ (s, err other_error)
  | some f ↦ (record s { events = s.events ++ deallocated f d.pointer ∷ [] }, ok tt)
]

unfoldable pub erase_device : Text → Devices × Result Unit → Devices × Result Unit
erase_device name (s, err e) = (s, err e)
erase_device name (s, ok u) = (record s { allocated = erase name s.allocated }, ok tt)

unfoldable pub release_nodes : ℕ → Devices × Result Unit → Devices × Result Unit
release_nodes p (s, err e) = (s, err e)
release_nodes p (s, ok u) = (record s { held = release p s.held }, ok tt)

-- The loop that deallocates the device at the address, where there is one.
unfoldable pub deallocate_at : ℕ → Devices → Devices × Result Unit
deallocate_at p s = elim (find_device p s.allocated) [
  | none ↦ (s, ok tt)
  | some (name, d) ↦ erase_device name (deallocate d s)
]

unfoldable pub destroy_pointer : ℕ → Devices → Devices × Result Unit
destroy_pointer p s = release_nodes p (deallocate_at p (deinitialize_nodes (nodes_of p s.held) s))

unfoldable pub destroy_device : Text → Devices → Devices × Result Unit
destroy_device [] s = destroy_pointer 0 s
destroy_device (c ∷ name) s = elim (lookup (c ∷ name) s.allocated) [
  | none ↦ (s, err device_not_allocated)
  | some d ↦ destroy_pointer d.pointer s
]

unfoldable pub all_nodes : List (ℕ × List ℕ) → List ℕ
all_nodes [] = []
all_nodes ((p, nodes) ∷ rest) = nodes ++ all_nodes rest

unfoldable pub deallocate_all : Map Device → Devices → Devices × Result Unit
deallocate_all [] s = (s, ok tt)
deallocate_all ((name, d) ∷ m) s =
    let (s', answer) = deallocate d s in
    elim answer [ err e ↦ (s', err e) | ok u ↦ deallocate_all m s' ]

-- The devices stay in the map.
unfoldable pub pre_delete : Devices → Devices × Result Unit
pre_delete s =
    let s' = deinitialize_nodes (all_nodes s.held) s in
    deallocate_all s'.allocated (record s' { held = [] })

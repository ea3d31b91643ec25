-- ===== src/Tests/Devices.antt =====
-- A device at address 7 that holds two root nodes, created and destroyed.
use nds.Prelude.{
  ◌≡◌, refl, ◌≢◌, none, some, [], ◌∷◌, ◌++◌, map, if◌then◌else◌, Text, text_eq, lookup, insert,
}
use nds.Types.{ok}
use nds.Devices.{
  Devices, hold, hold_node, Allocate, reserve, create_device, destroy_device, deinitialized,
  deallocated,
}
use nds.Devices.Held.{entry_among}
use nds.Devices.Lifetime.{CreateCase, create_device-CreateCase, destroy_device-create_device}
use nds.Folders.{substr, add_folder, scan_byte, scan_folders, last_folder, separate_folders_list}
use nds.Folders.Pieces.{pieces, separate_folders_list-pieces}
use nds.Drivers.{Driver, Known, Symbols, load_drivers}
use nds.Drivers.Loading.{Loads, load_drivers-Loads}

abbrev nothing : Devices
nothing = record { allocated = []; held = []; events = [] }

abbrev dev : Text
dev = 68 ∷ []

-- The device's constructor initializes the root nodes 1 and 2, which the factory then holds.
abbrev allocate_seven : Allocate
allocate_seven s = (hold_node 7 2 (hold_node 7 1 s), ok (7, 3))

abbrev with_seven : Devices
with_seven = hold_node 7 2 (hold_node 7 1 (reserve dev nothing))

create_device-CreateCase_example :
    CreateCase allocate_seven dev nothing (create_device allocate_seven dev nothing)
create_device-CreateCase_example = create_device-CreateCase allocate_seven dev nothing

destroy_device-create_device_example :
    let (t, answer) = destroy_device dev (create_device allocate_seven dev nothing).0 in
    (answer ≡ ok tt)
    × (t.events ≡ with_seven.events ++ map deinitialized (1 ∷ 2 ∷ []) ++ deallocated 3 7 ∷ [])
    × (t.held ≡ [])
    × (lookup dev t.allocated ≡ none)
    × ((j : Text) → j ≢ dev → lookup j t.allocated ≡ lookup j with_seven.allocated)
unfolding lookup reserve insert hold_node hold
destroy_device-create_device_example =
    destroy_device-create_device allocate_seven 68 [] 7 3 nothing with_seven refl refl
      ((λ ne. elim (ne refl) [ ]), tt) (1 ∷ 2 ∷ []) [] (entry_among [] [] tt tt refl refl)

abbrev one_device : Devices
one_device = record {
  allocated = (dev, record { pointer = 7; deallocation_function = some 3 }) ∷ [];
  held = (7, 1 ∷ 2 ∷ []) ∷ [];
  events = [];
}

abbrev device_driver : Driver
device_driver = record { allocate = λ s. (s, ok 7); deallocation = 3 }

abbrev no_symbols : Symbols
no_symbols = record {
  get_device_name = none;
  allocate_device = none;
  deallocate_device = none;
  allocate_control_system = none;
}

-- The module in the file "D" exports the driver "D", and no other module exports one.
abbrev module_symbols : Text → Symbols
module_symbols file =
    if text_eq file dev
    then record {
      get_device_name = some dev;
      allocate_device = some device_driver.allocate;
      deallocate_device = some 3;
      allocate_control_system = none;
    }
    else no_symbols

abbrev nothing_known : Known
nothing_known = record { control_systems = []; drivers = []; modules = [] }

load_drivers-Loads_example :
    Loads module_symbols
      (dev ∷ [] ∷ [])
      nothing_known
      (load_drivers module_symbols (dev ∷ [] ∷ []) nothing_known)
load_drivers-Loads_example = load_drivers-Loads module_symbols (dev ∷ [] ∷ []) nothing_known

-- ":a;'b c'"
abbrev folders_text : Text
folders_text = 58 ∷ 97 ∷ 59 ∷ 39 ∷ 98 ∷ 32 ∷ 99 ∷ 39 ∷ []

folders_text-folders :
    separate_folders_list (some folders_text) ≡ (97 ∷ []) ∷ (39 ∷ 98 ∷ 32 ∷ 99 ∷ 39 ∷ []) ∷ []
unfolding separate_folders_list scan_folders scan_byte add_folder substr last_folder
folders_text-folders = refl

separate_folders_list-pieces_example :
    separate_folders_list (some folders_text) ≡ pieces none [] folders_text
separate_folders_list-pieces_example = separate_folders_list-pieces folders_text

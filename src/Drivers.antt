-- ===== src/Drivers.antt =====
-- src/ndsFactoryImpl.cpp: the drivers and control systems that the process knows, and the modules
-- that they come from.
pub mod Loading
use nds.Prelude.{ℕ, Option, none, some, List, [], ◌∷◌, ◌++◌, Text, Map, lookup, insert}
use nds.Types.{Result, ok, err, driver_not_found, driver_does_not_export_registration_functions}
use nds.Devices.{Devices, Allocate}
use nds.Folders.{separate_folders_list, list_files}

-- A driver's functions: the allocation runs the device's code, and a number stands for the
-- deallocation function.
pub record Driver : Type 0 where
  pub allocate : Devices → Devices × Result ℕ
  pub deallocation : ℕ

-- `m_controlSystems`, where an address stands for each control system, `m_driversAllocDealloc` and
-- `m_modules`.
pub record Known : Type 0 where
  pub control_systems : Map ℕ
  pub drivers : Map Driver
  pub modules : List Text

-- What `dlsym` finds in a module; none is a symbol that is not there.
pub record Symbols : Type 0 where
  pub get_device_name : Option Text
  pub allocate_device : Option (Devices → Devices × Result ℕ)
  pub deallocate_device : Option ℕ
  pub allocate_control_system : Option (Text × ℕ)

unfoldable pub register_driver : Text → (Devices → Devices × Result ℕ) → ℕ → Known → Known
register_driver name a d s = record s {
  drivers = insert name (record { allocate = a; deallocation = d }) s.drivers;
}

unfoldable pub register_control_system : Text → ℕ → Known → Known
register_control_system name address s = record s {
  control_systems = insert name address s.control_systems;
}

-- The driver of a module, where it exports all three functions.
unfoldable pub exported : Symbols → Option (Text × Driver)
exported m = elim m.get_device_name [
  | none ↦ none
  | some name ↦ elim m.allocate_device [
    | none ↦ none
    | some a ↦ elim m.deallocate_device [
      | none ↦ none
      | some d ↦ some (name, record { allocate = a; deallocation = d })
    ]
  ]
]

unfoldable pub keep_module : Text → Known → Known
keep_module file s = record s { modules = s.modules ++ file ∷ [] }

-- `symbols` are those of the module in a file.
unfoldable pub load_driver : (Text → Symbols) → Text → Known → Result Known
load_driver symbols file s = elim (exported (symbols file)) [
  | none ↦ err driver_does_not_export_registration_functions
  | some (name, d) ↦ ok (keep_module file (register_driver name d.allocate d.deallocation s))
]

-- The loop of the constructor over the device modules, which passes over those that throw.
unfoldable pub load_drivers : (Text → Symbols) → List Text → Known → Known
load_drivers symbols [] s = s
load_drivers symbols (file ∷ files) s = elim (load_driver symbols file s) [
  | err e ↦ load_drivers symbols files s
  | ok s' ↦ load_drivers symbols files s'
]

-- The loop of the constructor over the modules of control systems.
unfoldable pub load_control_systems : (Text → Symbols) → List Text → Known → Known
load_control_systems symbols [] s = s
load_control_systems symbols (file ∷ files) s = elim (symbols file).allocate_control_system [
  | none ↦ load_control_systems symbols files s
  | some (name, address) ↦
      load_control_systems symbols files (register_control_system name address (keep_module file s))
]

-- NdsFactoryImpl::createDevice, as the allocation that the control system's createDevice calls.
unfoldable pub create_with : Known → Text → Allocate
create_with k driver_name s = elim (lookup driver_name k.drivers) [
  | none ↦ (s, err driver_not_found)
  | some d ↦
      let (s', answer) = d.allocate s in
      (s', elim answer [ err e ↦ err e | ok pointer ↦ ok (pointer, d.deallocation) ])
]

-- `terminated` is `throw;` where no exception is handled.
pub data Found : Type 0 where
  found : ℕ → Found
  not_found : Found
  terminated : Found

unfoldable pub get_control_system : Text → Known → Found
get_control_system [] k = elim k.control_systems [
  | [] ↦ terminated
  | (name, address) ∷ rest ↦ found address
]
get_control_system (c ∷ name) k = elim (lookup (c ∷ name) k.control_systems) [
  | none ↦ not_found
  | some address ↦ found address
]

-- "lib"
abbrev pub lib_prefix : Text
lib_prefix = 108 ∷ 105 ∷ 98 ∷ []

-- "NdsControlSystem"
abbrev pub control_system_suffix : Text
control_system_suffix =
    78 ∷ 100 ∷ 115 ∷ 67 ∷ 111 ∷ 110 ∷ 116 ∷ 114 ∷ 111 ∷ 108 ∷ 83 ∷ 121 ∷ 115 ∷ 116 ∷ 101 ∷ 109 ∷ []

-- "NdsDevice.so"
abbrev pub device_suffix : Text
device_suffix = 78 ∷ 100 ∷ 115 ∷ 68 ∷ 101 ∷ 118 ∷ 105 ∷ 99 ∷ 101 ∷ 46 ∷ 115 ∷ 111 ∷ []

-- ".so"
abbrev pub shared_object : Text
shared_object = 46 ∷ 115 ∷ 111 ∷ []

-- ".", and the folders of the two environment variables.
unfoldable pub module_folders : Option Text → Option Text → List Text
module_folders library_path nds_path =
    (46 ∷ []) ∷ separate_folders_list library_path ++ separate_folders_list nds_path

unfoldable pub append_files : Option (List Text) → Option (List Text) → Option (List Text)
append_files none more = none
append_files (some files) none = none
append_files (some files) (some more) = some (files ++ more)

unfoldable pub control_system_files : (Text → Option (List Text)) → List Text → Option (List Text)
control_system_files directory folders =
    append_files (list_files directory folders lib_prefix (control_system_suffix ++ shared_object))
      (list_files directory folders lib_prefix control_system_suffix)

-- The constructor, from the environment variables LD_LIBRARY_PATH, NDS_CONTROL_SYSTEMS and
-- NDS_DEVICES; none is DirectoryNotFoundError, which nothing catches. All modules are taken to open.
unfoldable pub construct :
    (Text → Option (List Text))
    → (Text → Symbols)
    → Option Text
    → Option Text
    → Option Text
    → Option Known
construct directory symbols library_path control_systems_path devices_path =
    elim (control_system_files directory (module_folders library_path control_systems_path)) [
      | none ↦ none
      | some files ↦
          let s =
            load_control_systems symbols files
              (record { control_systems = []; drivers = []; modules = [] }) in
          elim (list_files directory (module_folders library_path devices_path) lib_prefix
            device_suffix) [ none ↦ none | some devices ↦ some (load_drivers symbols devices s) ]
    ]

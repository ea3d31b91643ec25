-- ===== src/Drivers/Loading.antt =====
-- What the process knows once its modules are loaded.
use nds.Prelude.{
  ◌≡◌, refl, sym, ap, ◌∙◌, inl, inr, Option, none, some, List, [], ◌∷◌, ◌++◌, if◌then◌else◌, ℕ,
  Option-cases, Text, text_eq, lookup, lookup-insert,
}
use nds.Types.{Result, ok, err, driver_does_not_export_registration_functions}
use nds.Devices.{Devices}
use nds.Drivers.{
  Driver, Known, Symbols, register_driver, exported, keep_module, load_driver, load_drivers,
}
use mathlib.Core.List.{append_assoc, append-nil}

-- A driver, of the three symbols that make one.
abbrev pub three_symbols :
    Option Text → Option (Devices → Devices × Result ℕ) → Option ℕ → Option (Text × Driver)
three_symbols (some name) (some allocate) (some deallocate) =
    some (name, record { allocate = allocate; deallocation = deallocate })
three_symbols none _ _ = none
three_symbols (some _) none _ = none
three_symbols (some _) (some _) none = none

abbrev pub driver_in : Symbols → Option (Text × Driver)
driver_in m = three_symbols m.get_device_name m.allocate_device m.deallocate_device

exported-driver_in : (m : Symbols) → exported m ≡ driver_in m
unfolding exported
exported-driver_in m = elim (Option-cases m.get_device_name) [
  | inl e ↦ rw (exported, e) refl
  | inr (n, e) ↦ elim (Option-cases m.allocate_device) [
    | inl e' ↦ rw (exported, e, e') refl
    | inr (a, e') ↦ elim (Option-cases m.deallocate_device) [
      | inl e'' ↦ rw (exported, e, e', e'')
      | inr (d, e'') ↦ rw (exported, e, e', e'')
    ]
  ]
]

-- The driver of a name after the files: that of the last file that exports it, or else the given one.
unfoldable pub last_exported : (Text → Symbols) → Text → List Text → Option Driver → Option Driver
last_exported symbols name [] old = old
last_exported symbols name (file ∷ files) old = elim (driver_in (symbols file)) [
  | none ↦ last_exported symbols name files old
  | some (n, d) ↦ last_exported symbols name files (if text_eq n name then some d else old)
]

-- The device modules, in order.
unfoldable pub device_files : (Text → Symbols) → List Text → List Text
device_files symbols [] = []
device_files symbols (file ∷ files) = elim (driver_in (symbols file)) [
  | none ↦ device_files symbols files
  | some d ↦ file ∷ device_files symbols files
]

abbrev pub Loads : (Text → Symbols) → List Text → Known → Known → Type 0
Loads symbols files s t =
    ((name : Text)
      → lookup name t.drivers ≡ last_exported symbols name files (lookup name s.drivers))
    × (t.modules ≡ s.modules ++ device_files symbols files)
    × (t.control_systems ≡ s.control_systems)

lookup-register_driver :
    (n name : Text) (d : Driver) (s : Known)
    → lookup name (register_driver n d.allocate d.deallocation s).drivers
      ≡ (if text_eq n name then some d else lookup name s.drivers)
unfolding register_driver
lookup-register_driver n name d s = lookup-insert n name d s.drivers

load_driver-none :
    (symbols : Text → Symbols) (file : Text) (s : Known)
    → driver_in (symbols file) ≡ none
    → load_driver symbols file s ≡ err driver_does_not_export_registration_functions
unfolding load_driver
load_driver-none symbols file s e = rw (load_driver, exported-driver_in (symbols file), e)

load_driver-some :
    (symbols : Text → Symbols) (file n : Text) (d : Driver) (s : Known)
    → driver_in (symbols file) ≡ some (n, d)
    → load_driver symbols file s
      ≡ ok (keep_module file (register_driver n d.allocate d.deallocation s))
unfolding load_driver
load_driver-some symbols file n d s e = rw (load_driver, exported-driver_in (symbols file), e)

-- Loading the device modules leaves each driver's name with the last module that exports all three
-- functions under it, or with the driver it had before; it keeps exactly the modules that export the
-- three functions, in their order, and does not touch the control systems.
pub load_drivers-Loads :
    (symbols : Text → Symbols) (files : List Text) (s : Known)
    → Loads symbols files s (load_drivers symbols files s)
unfolding load_drivers last_exported device_files keep_module register_driver
load_drivers-Loads symbols [] s = (λ name. refl, sym (append-nil s.modules), refl)
load_drivers-Loads symbols (file ∷ files) s = elim (Option-cases (driver_in (symbols file))) [
  | inl e ↦
      rw (load_drivers, load_driver-none symbols file s e, last_exported, device_files, e)
        (load_drivers-Loads symbols files s)
  | inr ((n, d), e) ↦
      let s' = keep_module file (register_driver n d.allocate d.deallocation s) in
      let h = load_drivers-Loads symbols files s' in
      rw (load_drivers, load_driver-some symbols file n d s e, last_exported, device_files, e)
        (
          (λ name.
              h.0 name
              ∙ ap (λ o. last_exported symbols name files o) (lookup-register_driver n name d s)),
          h.1 ∙ append_assoc s.modules (file ∷ []) (device_files symbols files),
          h.2,
        )
]

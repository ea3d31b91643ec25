-- ===== src/Registry.antt =====
-- The registered PVs of src/ndsFactoryImpl.cpp, with the lists of subscribers and replication
-- destinations that src/pvBaseInImpl.cpp keeps in each input PV.
pub mod Scan
pub mod Consistent
pub mod Links
pub mod History
use nds.Prelude.{
  ℕ, Bool, true, false, List, [], ◌∷◌, Option, none, some, if◌then◌else◌, ◌==◌, Text, Map, lookup,
  insert, erase, set_insert, set_erase, update,
}
use nds.Types.{
  Result, ok, err, pv_already_declared, missing_input_pv, missing_output_pv, missing_destination_pv,
  logic_error,
}

-- PVBaseInImpl; an address stands for each pointer to a PV.
pub record InputPv : Type 0 where
  pub full_name : Text
  pub decimation_factor : ℕ
  pub decimation_count : ℕ
  pub subscribers : List ℕ
  pub destinations : List ℕ

-- The memory of the PVs, and the two maps of the factory. The name of an output PV is all that the
-- factory reads of it. An exception leaves everything as it was: each check stands before the first
-- write.
pub record Registry : Type 0 where
  pub inputs : ℕ → InputPv
  pub output_name : ℕ → Text
  pub registered_inputs : Map ℕ
  pub registered_outputs : Map ℕ

abbrev pub is_some : {A : Type 0} → Option A → Bool
is_some none = false
is_some (some a) = true

-- The members of PVBaseInImpl.
unfoldable pub subscribe_receiver : ℕ → InputPv → InputPv
subscribe_receiver receiver p = record p { subscribers = set_insert receiver p.subscribers }

unfoldable pub unsubscribe_receiver : ℕ → InputPv → InputPv
unsubscribe_receiver receiver p = record p { subscribers = set_erase receiver p.subscribers }

unfoldable pub replicate_to : ℕ → InputPv → InputPv
replicate_to destination p = record p { destinations = set_insert destination p.destinations }

unfoldable pub stop_replication_to : ℕ → InputPv → InputPv
stop_replication_to destination p = record p { destinations = set_erase destination p.destinations }

-- The loops over all the registered input PVs.
unfoldable pub scan_inputs : Map ℕ → (InputPv → InputPv) → (ℕ → InputPv) → ℕ → InputPv
scan_inputs [] f h = h
scan_inputs ((name, i) ∷ m) f h = scan_inputs m f (update h i (f (h i)))

unfoldable pub register_input_pv : ℕ → Registry → Result Registry
register_input_pv sender s =
    let name = (s.inputs sender).full_name in
    if is_some (lookup name s.registered_inputs)
    then err pv_already_declared
    else (if is_some (lookup name s.registered_outputs)
        then err pv_already_declared
        else ok (record s { registered_inputs = insert name sender s.registered_inputs }))

unfoldable pub register_output_pv : ℕ → Registry → Result Registry
register_output_pv receiver s =
    let name = s.output_name receiver in
    if is_some (lookup name s.registered_outputs)
    then err pv_already_declared
    else (if is_some (lookup name s.registered_inputs)
        then err pv_already_declared
        else ok (record s { registered_outputs = insert name receiver s.registered_outputs }))

unfoldable pub deregister_input_pv : ℕ → Registry → Registry
deregister_input_pv sender s =
    let left = erase (s.inputs sender).full_name s.registered_inputs in
    record s {
      registered_inputs = left;
      inputs = scan_inputs left (stop_replication_to sender) s.inputs;
    }

unfoldable pub unsubscribe_pv : ℕ → Registry → Registry
unsubscribe_pv receiver s = record s {
  inputs = scan_inputs s.registered_inputs (unsubscribe_receiver receiver) s.inputs;
}

unfoldable pub deregister_output_pv : ℕ → Registry → Registry
deregister_output_pv receiver s = record s {
  registered_outputs = erase (s.output_name receiver) s.registered_outputs;
  inputs = scan_inputs s.registered_inputs (unsubscribe_receiver receiver) s.inputs;
}

unfoldable pub subscribe_pv : Text → ℕ → Registry → Result Registry
subscribe_pv push_from receiver s = elim (lookup (s.output_name receiver) s.registered_outputs) [
  | none ↦ err logic_error
  | some found ↦
      if found == receiver
      then elim (lookup push_from s.registered_inputs) [
        | none ↦ err missing_input_pv
        | some i ↦
            ok (record s { inputs = update s.inputs i (subscribe_receiver receiver (s.inputs i)) })
      ]
      else err logic_error
]

unfoldable pub subscribe : Text → Text → Registry → Result Registry
subscribe push_from push_to s = elim (lookup push_to s.registered_outputs) [
  | none ↦ err missing_output_pv
  | some receiver ↦ subscribe_pv push_from receiver s
]

unfoldable pub unsubscribe : Text → Registry → Result Registry
unsubscribe push_to s = elim (lookup push_to s.registered_outputs) [
  | none ↦ err missing_output_pv
  | some receiver ↦ ok (unsubscribe_pv receiver s)
]

unfoldable pub replicate_pv : Text → ℕ → Registry → Result Registry
replicate_pv source destination s =
    elim (lookup (s.inputs destination).full_name s.registered_inputs) [
      | none ↦ err logic_error
      | some found ↦
          if found == destination
          then elim (lookup source s.registered_inputs) [
            | none ↦ err missing_input_pv
            | some i ↦
                ok (record s { inputs = update s.inputs i (replicate_to destination (s.inputs i)) })
          ]
          else err logic_error
    ]

unfoldable pub replicate : Text → Text → Registry → Result Registry
replicate source destination s = elim (lookup destination s.registered_inputs) [
  | none ↦ err missing_destination_pv
  | some d ↦ replicate_pv source d s
]

unfoldable pub stop_replication_pv : ℕ → Registry → Registry
stop_replication_pv destination s = record s {
  inputs = scan_inputs s.registered_inputs (stop_replication_to destination) s.inputs;
}

unfoldable pub stop_replication : Text → Registry → Result Registry
stop_replication destination s = elim (lookup destination s.registered_inputs) [
  | none ↦ err missing_input_pv
  | some d ↦ ok (stop_replication_pv d s)
]

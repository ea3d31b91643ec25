-- ===== src/Commands/Tables.antt =====
-- The names in the tables are those that the objects of a tree carry.
use nds.Prelude.{ℕ, ◌≡◌, refl, List, ◌++◌, map, Text}
use nds.Types.{PvClass, input, output}
use nds.Building.{base_of, machine_commands}
use nds.Attributes.{new_base, new_pv}
use nds.Commands.{Command, define_command, base_table, pv_table, machine_table}

names_of : List Command → List Text
names_of commands = map (λ c. c.command) commands

-- A new object, and a new PV.
base_table-names : (name : Text) → names_of base_table ≡ (new_base name).commands
unfolding names_of base_table define_command new_base
base_table-names name = refl

pv_table-names :
    (name : Text) (c : PvClass) (a : ℕ)
    → names_of (pv_table c) ≡ (base_of (new_pv name c a)).commands
unfolding names_of pv_table base_table define_command new_base new_pv
pv_table-names name (input t) a = refl
pv_table-names name (output t) a = refl

-- A node with a state machine, and the state machine.
machine_table-names :
    (name : Text)
    → names_of (machine_table base_table) ≡ (new_base name).commands ++ machine_commands
unfolding names_of machine_table base_table define_command new_base
machine_table-names name = refl

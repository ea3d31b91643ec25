-- ===== src/Naming.antt =====
-- src/factoryBaseImpl.cpp: the names that the naming rules of an INI file make of the components'
-- names, and the separators between the names of the levels.
pub mod Separators
pub mod Names
use nds.Prelude.{
  ℕ, zero, suc, ◌+◌, ◌-◌, ◌/◌, ◌%◌, Bool, true, false, ◌&&◌, Option, none, some, List, [], ◌∷◌,
  ◌++◌, map, ltb, leb, ◌==◌, if◌then◌else◌, take, Text, text_eq,
}
use nds.Types.{Result, ok, err, Exception}
use nds.IniFile.{Sections, get_string, key_exists, get_sections}
use nds.Printf.{print_format, plain_text}

-- `m_namingRules`, where none is a null pointer, and `m_namingRulesName`.
pub record Rules : Type 0 where
  pub sections : Option Sections
  pub rules_name : Text

-- The keys of the rules that the code names.
pub data Rule : Type 0 where
  root_node generic_node input_node output_node source_node sink_node : Rule
  input_pv output_pv generic_pv state_machine_node : Rule
  set_state_pv get_state_pv get_global_state_pv set_decimation_pv : Rule

-- What a name is built for.
pub data NameKind : Type 0 where
  root_name generic_channel input_channel output_channel source_channel sink_channel : NameKind
  input_pv_name output_pv_name state_machine_name set_state_name get_state_name : NameKind
  get_global_state_name decimation_name : NameKind

-- The bytes of each rule's key.
unfoldable pub rule_key : Rule → Text
rule_key root_node = 114 ∷ 111 ∷ 111 ∷ 116 ∷ 78 ∷ 111 ∷ 100 ∷ 101 ∷ []
rule_key generic_node = 103 ∷ 101 ∷ 110 ∷ 101 ∷ 114 ∷ 105 ∷ 99 ∷ 78 ∷ 111 ∷ 100 ∷ 101 ∷ []
rule_key input_node = 105 ∷ 110 ∷ 112 ∷ 117 ∷ 116 ∷ 78 ∷ 111 ∷ 100 ∷ 101 ∷ []
rule_key output_node = 111 ∷ 117 ∷ 116 ∷ 112 ∷ 117 ∷ 116 ∷ 78 ∷ 111 ∷ 100 ∷ 101 ∷ []
rule_key source_node = 115 ∷ 111 ∷ 117 ∷ 114 ∷ 99 ∷ 101 ∷ 78 ∷ 111 ∷ 100 ∷ 101 ∷ []
rule_key sink_node = 115 ∷ 105 ∷ 110 ∷ 107 ∷ 78 ∷ 111 ∷ 100 ∷ 101 ∷ []
rule_key input_pv = 105 ∷ 110 ∷ 112 ∷ 117 ∷ 116 ∷ 80 ∷ 86 ∷ []
rule_key output_pv = 111 ∷ 117 ∷ 116 ∷ 112 ∷ 117 ∷ 116 ∷ 80 ∷ 86 ∷ []
rule_key generic_pv = 103 ∷ 101 ∷ 110 ∷ 101 ∷ 114 ∷ 105 ∷ 99 ∷ 80 ∷ 86 ∷ []
rule_key state_machine_node =
    115 ∷ 116 ∷ 97 ∷ 116 ∷ 101 ∷ 77 ∷ 97 ∷ 99 ∷ 104 ∷ 105 ∷ 110 ∷ 101 ∷ 78 ∷ 111 ∷ 100 ∷ 101 ∷ []
rule_key set_state_pv = 115 ∷ 101 ∷ 116 ∷ 83 ∷ 116 ∷ 97 ∷ 116 ∷ 101 ∷ 80 ∷ 86 ∷ []
rule_key get_state_pv = 103 ∷ 101 ∷ 116 ∷ 83 ∷ 116 ∷ 97 ∷ 116 ∷ 101 ∷ 80 ∷ 86 ∷ []
rule_key get_global_state_pv =
    103 ∷ 101 ∷ 116 ∷ 71 ∷ 108 ∷ 111 ∷ 98 ∷ 97 ∷ 108 ∷ 83 ∷ 116 ∷ 97 ∷ 116 ∷ 101 ∷ 80 ∷ 86 ∷ []
rule_key set_decimation_pv =
    115 ∷ 101 ∷ 116 ∷ 68 ∷ 101 ∷ 99 ∷ 105 ∷ 109 ∷ 97 ∷ 116 ∷ 105 ∷ 111 ∷ 110 ∷ 80 ∷ 86 ∷ []

-- The rules that each of the functions passes to buildNameFromRule, in order.
unfoldable pub rules_of : NameKind → List Rule
rules_of root_name = root_node ∷ generic_node ∷ []
rules_of generic_channel = generic_node ∷ []
rules_of input_channel = input_node ∷ source_node ∷ generic_node ∷ []
rules_of output_channel = output_node ∷ sink_node ∷ generic_node ∷ []
rules_of source_channel = source_node ∷ input_node ∷ generic_node ∷ []
rules_of sink_channel = sink_node ∷ output_node ∷ generic_node ∷ []
rules_of input_pv_name = input_pv ∷ generic_pv ∷ []
rules_of output_pv_name = output_pv ∷ generic_pv ∷ []
rules_of state_machine_name = state_machine_node ∷ generic_node ∷ []
rules_of set_state_name = set_state_pv ∷ output_pv ∷ generic_pv ∷ []
rules_of get_state_name = get_state_pv ∷ input_pv ∷ generic_pv ∷ []
rules_of get_global_state_name = get_global_state_pv ∷ input_pv ∷ generic_pv ∷ []
rules_of decimation_name = set_decimation_pv ∷ output_pv ∷ generic_pv ∷ []

unfoldable pub load_naming_rules : Sections → Rules
load_naming_rules parsed_file = record {
  sections = some parsed_file;
  rules_name = elim (get_sections parsed_file) [
    | [] ↦ []
    | name ∷ names ↦ elim names [ [] ↦ name | _ ∷ _ ↦ [] ]
  ];
}

unfoldable pub set_naming_rules : Text → Rules → Rules
set_naming_rules name r = record r { rules_name = name }

unfoldable pub is_empty : Text → Bool
is_empty [] = true
is_empty (c ∷ s) = false

-- The rules in force: none where no file is loaded or no section is chosen.
unfoldable pub in_force : Rules → Option Sections
in_force r = elim r.sections [
  | none ↦ none
  | some m ↦ if is_empty r.rules_name then none else some m
]

-- A chain of `getString` calls, each the default of the one before. The arguments come first, so
-- that the last call is the first to be made.
unfoldable pub first_rule : Sections → Text → List Text → Text → Result Text
first_rule m section [] default = ok default
first_rule m section (key ∷ keys) default = elim (first_rule m section keys default) [
  | ok inner ↦ get_string m section key inner
  | err e ↦ err e
]

-- "toUpper"
abbrev pub to_upper_key : Text
to_upper_key = 116 ∷ 111 ∷ 85 ∷ 112 ∷ 112 ∷ 101 ∷ 114 ∷ []

-- "toLower"
abbrev pub to_lower_key : Text
to_lower_key = 116 ∷ 111 ∷ 76 ∷ 111 ∷ 119 ∷ 101 ∷ 114 ∷ []

-- "%s"
abbrev pub default_rule : Text
default_rule = 37 ∷ 115 ∷ []

-- "separator"
abbrev pub separator_word : Text
separator_word = 115 ∷ 101 ∷ 112 ∷ 97 ∷ 114 ∷ 97 ∷ 116 ∷ 111 ∷ 114 ∷ []

-- A level is below 2 ^ 32, so that ten digits are enough.
unfoldable pub decimal : ℕ → ℕ → Text
decimal zero n = []
decimal (suc digits) n =
    let front = decimal digits (n / 10) in
    if ltb n 10 then (48 + n) ∷ [] else front ++ (48 + n % 10) ∷ []

unfoldable pub separator_key : ℕ → Text
separator_key level = separator_word ++ decimal 10 level

-- `||` of two calls of keyExists: the second is made where the first says no.
unfoldable pub either_exists : Result Bool → Result Bool → Result Bool
either_exists (ok true) other = ok true
either_exists (ok false) other = other
either_exists (err e) other = err e

-- Whether a separator rule has been defined.
unfoldable pub separators_defined : Sections → Text → Result Bool
separators_defined m section =
    either_exists (key_exists m section (separator_key 1)) (key_exists m section (separator_key 0))

-- `default` is getDefaultSeparator of the control system.
unfoldable pub get_separator : (ℕ → Text) → Rules → ℕ → Result Text
get_separator default r zero = elim (in_force r) [
  | none ↦ ok (default 0)
  | some m ↦ get_string m r.rules_name (separator_key 0) (default 0)
]
get_separator default r (suc n) = elim (in_force r) [
  | none ↦ ok (default (suc n))
  | some m ↦ elim (separators_defined m r.rules_name) [
    | err e ↦ err e
    | ok false ↦ get_string m r.rules_name (separator_key (suc n)) (default (suc n))
    | ok true ↦ elim (get_separator default r n) [
      | err e ↦ err e
      | ok above ↦ get_string m r.rules_name (separator_key (suc n)) above
    ]
  ]
]

-- toupper and tolower of the "C" locale.
unfoldable pub upper_byte : ℕ → ℕ
upper_byte c = if leb 97 c && leb c 122 then c - 32 else c

unfoldable pub lower_byte : ℕ → ℕ
lower_byte c = if leb 65 c && leb c 90 then c + 32 else c

-- std::replace of blanks by the digit 0
unfoldable pub blank_to_zero : ℕ → ℕ
blank_to_zero c = if c == 32 then 48 else c

-- `text == "1"`
unfoldable pub is_one : Text → Bool
is_one s = text_eq s (49 ∷ [])

unfoldable pub adjust : Bool → Bool → Text → Text
adjust upper true name = map lower_byte name
adjust true false name = map upper_byte name
adjust false false name = name

-- `undefined`: the rule is no format for one string.
pub data Built : Type 0 where
  built : Text → Built
  refused : Exception → Built
  undefined : Built

-- The buffer has 1024 bytes, the last of them for the zero.
unfoldable pub finish_name : Option Text → Built
finish_name none = undefined
finish_name (some printed) = built (map blank_to_zero (take 1023 printed))

unfoldable pub apply_rule : Text → Result Text → Result Text → Result Text → Built
apply_rule name (err e) upper lower = refused e
apply_rule name (ok rule) (err e) lower = refused e
apply_rule name (ok rule) (ok upper) (err e) = refused e
apply_rule name (ok rule) (ok upper) (ok lower) =
    finish_name (print_format (plain_text false) rule (adjust (is_one upper) (is_one lower) name))

unfoldable pub build_name_from_rule : Rules → Text → List Text → Built
build_name_from_rule r name rules = elim (in_force r) [
  | none ↦ built name
  | some m ↦
      apply_rule name (first_rule m r.rules_name rules default_rule)
        (get_string m r.rules_name to_upper_key (48 ∷ []))
        (get_string m r.rules_name to_lower_key (48 ∷ []))
]

-- getRootNodeName, getInputPVName and the others.
unfoldable pub get_name : Rules → NameKind → Text → Built
get_name r kind name = build_name_from_rule r name (map rule_key (rules_of kind))

-- ===== src/Tests/Names.antt =====
-- A file of naming rules, its lines, and the names and separators by it.
use nds.Prelude.{
  ℕ, ◌≡◌, refl, true, false, some, [], ◌∷◌, ◌++◌, arith, Text, text_eq, text_lt, lookup, insert,
}
use nds.IniFile.{
  next, find_from, find_last, char_at, last_index, erase_ends, trim, is_escaped, scan_unescaped,
  find_first_unescaped_char, inside_brackets, section_of, get_section, without_equal_sign, quoted,
  unquoted, value_of, with_equal_sign, split_line, get_key_value, Sections, keys_of, store,
  first_char, get_lines, parse_lines, parse, value_or, get_string, get_sections, parsed, terminated,
  loaded,
}
use nds.Printf.{format_byte, blanks, pad, before, print_format}
use nds.Naming.{
  rule_key, rules_of, load_naming_rules, is_empty, in_force, first_rule, separator_word,
  get_separator, blank_to_zero, is_one, adjust, finish_name, apply_rule, build_name_from_rule,
  get_name, generic_pv, input_pv_name, built,
}
use nds.Naming.Separators.{SeparatorCase, get_separator-SeparatorCase}
use nds.Types.{warning}
use nds.Node.{Base}
use nds.Building.{full_name_of, Step, build_full_name, behind_port, build_full_name_from_port}
use nds.Building.FullNames.{names_of, build_full_name-injective}

-- "  a b " between its spaces
abbrev spaced : Text
spaced = 32 ∷ 9 ∷ 97 ∷ 32 ∷ 98 ∷ 32 ∷ []

spaced-trim : trim spaced ≡ 97 ∷ 32 ∷ 98 ∷ []
unfolding trim find_from find_last next last_index erase_ends
spaced-trim = refl

-- "\]x]"
abbrev escaped : Text
escaped = 92 ∷ 93 ∷ 120 ∷ 93 ∷ []

escaped-find : find_first_unescaped_char escaped 93 0 ≡ some 3
unfolding find_first_unescaped_char scan_unescaped find_from next is_escaped char_at
escaped-find = refl

-- "[A]", "separator1 = /", "genericPV = 'x %3s'" and "# it"
abbrev rules_file : Text
rules_file =
    91 ∷ 65 ∷ 93 ∷ 10 ∷ 115 ∷ 101 ∷ 112 ∷ 97 ∷ 114 ∷ 97 ∷ 116 ∷ 111 ∷ 114 ∷ 49 ∷ 32 ∷ 61 ∷ 32 ∷ 47
    ∷ 10 ∷ 103 ∷ 101 ∷ 110 ∷ 101 ∷ 114 ∷ 105 ∷ 99 ∷ 80 ∷ 86 ∷ 61 ∷ 39 ∷ 120 ∷ 32 ∷ 37 ∷ 51 ∷ 115
    ∷ 39 ∷ 10 ∷ 35 ∷ 32 ∷ 105 ∷ 116 ∷ []

abbrev sections : Sections
sections =
    (
      65 ∷ [],
      (rule_key generic_pv, 120 ∷ 32 ∷ 37 ∷ 51 ∷ 115 ∷ [])
          ∷ (separator_word ++ 49 ∷ [], 47 ∷ [])
          ∷ [],
    )
    ∷ []

rules_file-parse : parse rules_file ≡ loaded sections
unfolding parse get_lines first_char parse_lines get_section section_of inside_brackets trim
    find_from find_last next last_index erase_ends find_first_unescaped_char scan_unescaped
    is_escaped char_at get_key_value split_line with_equal_sign without_equal_sign value_of quoted
    unquoted store keys_of insert lookup text_eq text_lt rule_key
rules_file-parse = refl

-- "# a=b" and "=x"
comment_is_key : get_key_value (35 ∷ 32 ∷ 97 ∷ 61 ∷ 98 ∷ []) ≡ parsed (35 ∷ 32 ∷ 97 ∷ []) (98 ∷ [])
unfolding get_key_value split_line with_equal_sign value_of unquoted trim find_from find_last next
    last_index erase_ends find_first_unescaped_char scan_unescaped is_escaped char_at
comment_is_key = refl

no_variable : get_key_value (61 ∷ 120 ∷ []) ≡ terminated
unfolding get_key_value split_line with_equal_sign trim find_from find_last next last_index
    erase_ends find_first_unescaped_char scan_unescaped is_escaped char_at
no_variable = refl

abbrev default_separator : ℕ → Text
default_separator n = 45 ∷ []

-- "ab" as an input PV is "x0_ab" with 0 for the blank of the width: "x00ab"
pv_named :
    get_name (load_naming_rules sections) input_pv_name (97 ∷ 98 ∷ [])
    ≡ built (120 ∷ 48 ∷ 48 ∷ 97 ∷ 98 ∷ [])
unfolding get_name load_naming_rules get_sections build_name_from_rule in_force is_empty first_rule
    get_string value_or lookup text_eq rules_of rule_key apply_rule is_one adjust finish_name
    print_format format_byte before pad blanks blank_to_zero
pv_named = refl

get_separator-SeparatorCase_example :
    SeparatorCase default_separator
      (load_naming_rules sections)
      3
      (get_separator default_separator (load_naming_rules sections) 3)
get_separator-SeparatorCase_example =
    get_separator-SeparatorCase default_separator (load_naming_rules sections) 3

-- A root "d", a port "p" in it, and the channel "c" in the port.
abbrev root_step : Step
root_step = record { name = 100 ∷ []; is_port = false }

abbrev port_step : Step
port_step = record { name = 112 ∷ []; is_port = true }

abbrev channel_step : Step
channel_step = record { name = 99 ∷ []; is_port = false }

-- "d-p-c", and "c" from the port
channel_full_name :
    (build_full_name channel_step (port_step ∷ root_step ∷ []) ≡ 100 ∷ 45 ∷ 112 ∷ 45 ∷ 99 ∷ [])
    × (build_full_name_from_port channel_step (port_step ∷ root_step ∷ []) ≡ 99 ∷ [])
unfolding build_full_name full_name_of build_full_name_from_port behind_port
channel_full_name = (refl, refl)

build_full_name-injective_example :
    names_of (channel_step ∷ root_step ∷ []) ≡ names_of (channel_step ∷ root_step ∷ [])
build_full_name-injective_example =
    build_full_name-injective channel_step channel_step (root_step ∷ []) (root_step ∷ [])
      (((λ e. ground arith), tt), (((λ e. ground arith), tt), tt))
      (((λ e. ground arith), tt), (((λ e. ground arith), tt), tt)) refl

abbrev fresh : ℕ → Base
fresh c = record {
  name = c ∷ [];
  has_parent = false;
  node_level = 0;
  log_level = warning;
  external_name = c ∷ [];
  full_name = c ∷ [];
  full_name_from_port = [];
  full_external_name = [];
  full_external_name_from_port = [];
  commands = [];
}

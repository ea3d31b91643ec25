-- ===== src/IniFile.antt =====
-- src/iniFileParserImpl.cpp: the INI files that hold the naming rules.
pub mod Trim
pub mod Unescaped
pub mod Lines
pub mod Written
pub mod Files
use nds.Prelude.{
  ℕ, zero, suc, ◌-◌, Bool, true, false, not, ◌&&◌, ◌||◌, Option, none, some, List, [], ◌∷◌,
  if◌then◌else◌, ltb, ◌==◌, Text, Map, lookup, insert, length, take, drop,
}
use nds.Types.{Result, ok, err, ini_parser_missing_section}

-- A position of std::string, where none is npos.
abbrev pub Position : Type 0
Position = Option ℕ

unfoldable pub next : Position → Position
next none = none
next (some i) = some (suc i)

-- std::string::find and find_first_of: the first byte with the property at or after an index.
unfoldable pub find_from : (ℕ → Bool) → ℕ → Text → Position
find_from p n [] = none
find_from p zero (c ∷ s) = if p c then some 0 else next (find_from p 0 s)
find_from p (suc n) (c ∷ s) = next (find_from p n s)

-- std::string::find_last_of
unfoldable pub find_last : (ℕ → Bool) → Text → Position
find_last p [] = none
find_last p (c ∷ s) = elim (find_last p s) [
  | some i ↦ some (suc i)
  | none ↦ if p c then some 0 else none
]

-- std::string::at; none is std::out_of_range.
unfoldable pub char_at : Text → ℕ → Option ℕ
char_at [] i = none
char_at (c ∷ s) zero = some c
char_at (c ∷ s) (suc i) = char_at s i

-- `size() - 1`, which is npos for the empty string.
unfoldable pub last_index : Text → Position
last_index [] = none
last_index (c ∷ s) = some (length s)

abbrev pub position_eq : Position → Position → Bool
position_eq none none = true
position_eq (some i) (some j) = i == j
position_eq _ _ = false

-- `m_spaces`: blank, tab, carriage return, line feed
abbrev pub is_space : ℕ → Bool
is_space c = c == 32 || c == 9 || c == 13 || c == 10

abbrev pub not_space : ℕ → Bool
not_space c = not (is_space c)

-- `m_quotes`
abbrev pub is_quote : ℕ → Bool
is_quote c = c == 39 || c == 34

-- The two calls of erase in trim: the end after the last character, then the start up to the first.
unfoldable pub erase_ends : Position → Position → Text → Text
erase_ends none first s = []
erase_ends (some l) none s = []
erase_ends (some l) (some zero) s = take (suc l) s
erase_ends (some l) (some (suc f)) s = drop (suc f) (take (suc l) s)

unfoldable pub trim : Text → Text
trim s =
    let last_char = find_last not_space s in
    let first_char = find_from not_space 0 s in
    if position_eq last_char (last_index s) && position_eq first_char (some 0)
    then s
    else erase_ends last_char first_char s

abbrev pub backslash : ℕ
backslash = 92

-- Whether the byte before a position is a backslash.
unfoldable pub is_escaped : Text → ℕ → Bool
is_escaped s zero = false
is_escaped s (suc q) = elim (char_at s q) [ some c ↦ c == backslash | none ↦ false ]

-- The loop; each round starts behind the last find, so that a round for each byte is enough.
unfoldable pub scan_unescaped : ℕ → Text → ℕ → ℕ → Position
scan_unescaped zero s c start = none
scan_unescaped (suc fuel) s c start =
    if ltb start (length s)
    then elim (find_from (λ d. d == c) start s) [
      | none ↦ none
      | some q ↦ elim (is_escaped s q) [ false ↦ some q | true ↦ scan_unescaped fuel s c (suc q) ]
    ]
    else none

unfoldable pub find_first_unescaped_char : Text → ℕ → ℕ → Position
find_first_unescaped_char s c start = scan_unescaped (length s) s c start

-- The text up to the closing bracket.
unfoldable pub inside_brackets : Position → Text → Text
inside_brackets none s = []
inside_brackets (some e) s = trim (take (e - 1) s)

-- The empty text is no section.
unfoldable pub section_of : Text → Text
section_of [] = []
section_of (c ∷ s) =
    if c == 91 then inside_brackets (find_first_unescaped_char (c ∷ s) 93 0) s else []

unfoldable pub get_section : Text → Text
get_section line = section_of (trim line)

-- `terminated`: `throw;` where no exception is handled, which ends the process.
pub data KeyValue : Type 0 where
  parsed : Text → Text → KeyValue
  syntax_error terminated : KeyValue

unfoldable pub without_equal_sign : Text → KeyValue
without_equal_sign [] = parsed [] []
without_equal_sign (c ∷ s) = if c == 35 || c == 59 then parsed [] [] else syntax_error

unfoldable pub quoted : Text → Position → Text → KeyValue
quoted variable none v = terminated
quoted variable (some e) v = parsed variable (take (e - 1) v)

unfoldable pub unquoted : Text → Position → Text → KeyValue
unquoted variable none value = parsed variable value
unquoted variable (some e) value = parsed variable (take e value)

unfoldable pub value_of : Text → Text → KeyValue
value_of variable [] = parsed variable []
value_of variable (c ∷ v) =
    if is_quote c
    then quoted variable (find_first_unescaped_char (c ∷ v) c 1) v
    else unquoted variable (find_from is_space 0 (c ∷ v)) (c ∷ v)

unfoldable pub with_equal_sign : Text → Text → KeyValue
with_equal_sign [] value = terminated
with_equal_sign (c ∷ variable) value = value_of (c ∷ variable) value

unfoldable pub split_line : Position → Text → KeyValue
split_line none line = without_equal_sign (trim line)
split_line (some e) line = with_equal_sign (trim (take e line)) (trim (drop (suc e) line))

unfoldable pub get_key_value : Text → KeyValue
get_key_value line = split_line (find_first_unescaped_char line 61 0) line

-- `m_sections`
abbrev pub Sections : Type 0
Sections = Map (Map Text)

unfoldable pub keys_of : Text → Sections → Map Text
keys_of section m = elim (lookup section m) [ some keys ↦ keys | none ↦ [] ]

-- `m_sections[section][key] = value`, which makes the section where it is new.
unfoldable pub store : Text → Text → Text → Sections → Sections
store section [] value m = m
store section (c ∷ key) value m = insert section (insert (c ∷ key) value (keys_of section m)) m

-- std::getline until it fails: the last line needs no line feed.
unfoldable pub first_char : ℕ → List Text → List Text
first_char c [] = (c ∷ []) ∷ []
first_char c (l ∷ ls) = (c ∷ l) ∷ ls

unfoldable pub get_lines : Text → List Text
get_lines [] = []
get_lines (c ∷ s) = if c == 10 then [] ∷ get_lines s else first_char c (get_lines s)

pub data Loaded : Type 0 where
  loaded : Sections → Loaded
  syntax_error_on_line : ℕ → Loaded
  process_ended : Loaded

-- The loop of the constructor, from a line count, the last section and the sections so far.
unfoldable pub parse_lines : ℕ → Text → Sections → List Text → Loaded
parse_lines n last m [] = loaded m
parse_lines n last m (line ∷ ls) = elim (get_section line) [
  | c ∷ section ↦ parse_lines (suc n) (c ∷ section) m ls
  | [] ↦ elim (get_key_value line) [
    | parsed key value ↦ parse_lines (suc n) last (store last key value m) ls
    | syntax_error ↦ syntax_error_on_line (suc n)
    | terminated ↦ process_ended
  ]
]

unfoldable pub parse : Text → Loaded
parse stream = parse_lines 0 [] [] (get_lines stream)

unfoldable pub value_or : Text → Option Text → Text
value_or default none = default
value_or default (some value) = value

unfoldable pub get_string : Sections → Text → Text → Text → Result Text
get_string m section [] default = ok default
get_string m section (c ∷ key) default = elim (lookup section m) [
  | none ↦ err ini_parser_missing_section
  | some keys ↦ ok (value_or default (lookup (c ∷ key) keys))
]

unfoldable pub key_exists : Sections → Text → Text → Result Bool
key_exists m section key = elim (lookup section m) [
  | none ↦ err ini_parser_missing_section
  | some keys ↦ elim (lookup key keys) [ none ↦ ok false | some v ↦ ok true ]
]

unfoldable pub get_sections : Sections → List Text
get_sections [] = []
get_sections ((name, keys) ∷ m) = name ∷ get_sections m

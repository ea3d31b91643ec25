-- ===== src/Folders.antt =====
-- src/ndsFactoryImpl.cpp: the lists of folders and of files from which modules are loaded.
pub mod Pieces
use nds.Prelude.{
  ℕ, suc, ◌+◌, ◌-◌, Bool, ◌&&◌, ◌||◌, Option, none, some, List, [], ◌∷◌, ◌++◌, leb, ◌==◌,
  if◌then◌else◌, length, take, drop, Text, text_eq,
}

abbrev pub is_separator : ℕ → Bool
is_separator c = c == 58 || c == 59 || c == 32

abbrev pub is_quote_mark : ℕ → Bool
is_quote_mark c = c == 39 || c == 34

-- The variables of the loop of separateFoldersList: `openQuotes`, where none is 0, `startString` and
-- `folders`.
pub record Scan : Type 0 where
  pub open_quotes : Option ℕ
  pub start_string : ℕ
  pub folders : List Text

-- `substr(start, count)`
unfoldable pub substr : Text → ℕ → ℕ → Text
substr s start count = take count (drop start s)

unfoldable pub add_folder : Text → ℕ → Scan → List Text
add_folder s position st =
    if position == st.start_string
    then st.folders
    else st.folders ++ substr s st.start_string (position - st.start_string) ∷ []

-- One round of the loop, for the byte at a position. The text has no zero byte.
unfoldable pub scan_byte : Text → ℕ → ℕ → Scan → Scan
scan_byte s position c st = elim st.open_quotes [
  | some q ↦ if c == q then record st { open_quotes = none } else st
  | none ↦
      if is_quote_mark c
      then record st { open_quotes = some c }
      else (if is_separator c
          then record {
            open_quotes = none;
            start_string = suc position;
            folders = add_folder s position st;
          }
          else st)
]

unfoldable pub scan_folders : Text → ℕ → Text → Scan → Scan
scan_folders s position [] st = st
scan_folders s position (c ∷ rest) st =
    scan_folders s (suc position) rest (scan_byte s position c st)

unfoldable pub last_folder : Text → Scan → List Text
last_folder s st =
    if st.start_string == length s then st.folders else st.folders ++ drop st.start_string s ∷ []

-- None is the null pointer.
unfoldable pub separate_folders_list : Option Text → List Text
separate_folders_list none = []
separate_folders_list (some s) =
    last_folder s
      (scan_folders s 0 s (record { open_quotes = none; start_string = 0; folders = [] }))

unfoldable pub has_affixes : Text → Text → Text → Bool
has_affixes prefix suffix name =
    leb (length prefix + length suffix) (length name)
    && text_eq (take (length prefix) name) prefix
    && text_eq (drop (length name - length suffix) name) suffix

unfoldable pub matching_files : Text → Text → Text → List Text → List Text
matching_files folder prefix suffix [] = []
matching_files folder prefix suffix (name ∷ names) =
    let rest = matching_files folder prefix suffix names in
    if has_affixes prefix suffix name then (folder ++ 47 ∷ name) ∷ rest else rest

-- `directory` reads the names in a folder, in the order of readdir; none is a folder that cannot be
-- opened, for which DirectoryNotFoundError leaves listFiles.
unfoldable pub list_files :
    (Text → Option (List Text)) → List Text → Text → Text → Option (List Text)
list_files directory [] prefix suffix = some []
list_files directory (folder ∷ folders) prefix suffix = elim (directory folder) [
  | none ↦ none
  | some names ↦ elim (list_files directory folders prefix suffix) [
    | none ↦ none
    | some rest ↦ some (matching_files folder prefix suffix names ++ rest)
  ]
]

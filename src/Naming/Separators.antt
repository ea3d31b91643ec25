-- ===== src/Naming/Separators.antt =====
-- FactoryBaseImpl::getSeparator: which separator each level gets.
use nds.Prelude.{
  ℕ, zero, suc, ◌≡◌, ◌⊎◌, inl, inr, true, false, none, some, Option-cases, Text, Map, lookup,
}
use nds.Types.{Result, ok, err, ini_parser_missing_section}
use nds.IniFile.{Sections, value_or, get_string, key_exists}
use nds.Naming.{Rules, in_force, separator_key, either_exists, separators_defined, get_separator}

-- The separator of the nearest level that defines one, from a level upwards, or else the default
-- one of level 0.
pub data Nearest (default : ℕ → Text) (keys : Map Text) : ℕ → Text → Type 0 where
  here : (n : ℕ) (s : Text) → lookup (separator_key n) keys ≡ some s → Nearest default keys n s
  above :
      (n : ℕ) (s : Text)
      → lookup (separator_key (suc n)) keys ≡ none
      → Nearest default keys n s
      → Nearest default keys (suc n) s
  top : lookup (separator_key 0) keys ≡ none → Nearest default keys 0 (default 0)

-- Whether the section defines separator0 or separator1.
pub data Defines (keys : Map Text) : Type 0 where
  zeroth : (s : Text) → lookup (separator_key 0) keys ≡ some s → Defines keys
  first : (s : Text) → lookup (separator_key 1) keys ≡ some s → Defines keys

-- The answers for the level `n`.
pub data SeparatorCase (default : ℕ → Text) (r : Rules) (n : ℕ) (a : Result Text) : Type 0 where
  no_rules : in_force r ≡ none → a ≡ ok (default n) → SeparatorCase default r n a
  no_section :
      (m : Sections)
      → in_force r ≡ some m
      → lookup r.rules_name m ≡ none
      → a ≡ err ini_parser_missing_section
      → SeparatorCase default r n a
  inherited :
      (m : Sections) (keys : Map Text) (s : Text)
      → in_force r ≡ some m
      → lookup r.rules_name m ≡ some keys
      → Defines keys
      → Nearest default keys n s
      → a ≡ ok s
      → SeparatorCase default r n a
  each_its_own :
      (m : Sections) (keys : Map Text)
      → in_force r ≡ some m
      → lookup r.rules_name m ≡ some keys
      → lookup (separator_key 0) keys ≡ none
      → lookup (separator_key 1) keys ≡ none
      → a ≡ ok (value_or (default n) (lookup (separator_key n) keys))
      → SeparatorCase default r n a

pub get_string-keys :
    (m : Sections) (section d : Text) (keys : Map Text) (n : ℕ)
    → lookup section m ≡ some keys
    → get_string m section (separator_key n) d ≡ ok (value_or d (lookup (separator_key n) keys))
unfolding get_string separator_key
get_string-keys m section d keys n e = rw (e, get_string)

get_string-missing :
    (m : Sections) (section d : Text) (n : ℕ)
    → lookup section m ≡ none
    → get_string m section (separator_key n) d ≡ err ini_parser_missing_section
unfolding get_string separator_key
get_string-missing m section d n e = rw (e, get_string)

key_exists-keys :
    (m : Sections) (section k : Text) (keys : Map Text)
    → lookup section m ≡ some keys
    → ((lookup k keys ≡ none) × (key_exists m section k ≡ ok false))
      ⊎ ((s : Text) × (lookup k keys ≡ some s) × (key_exists m section k ≡ ok true))
unfolding key_exists
key_exists-keys m section k keys e = elim (Option-cases (lookup k keys)) [
  | inl f ↦ inl (f, rw (key_exists, e, f))
  | inr (s, f) ↦ inr (s, f, rw (key_exists, e, f))
]

key_exists-missing :
    (m : Sections) (section k : Text)
    → lookup section m ≡ none
    → key_exists m section k ≡ err ini_parser_missing_section
unfolding key_exists
key_exists-missing m section k e = rw (e, key_exists)

-- What the test of the separators says.
separators_defined-keys :
    (m : Sections) (section : Text) (keys : Map Text)
    → lookup section m ≡ some keys
    → (Defines keys × (separators_defined m section ≡ ok true))
      ⊎ ((lookup (separator_key 0) keys ≡ none)
          × (lookup (separator_key 1) keys ≡ none)
          × (separators_defined m section ≡ ok false))
unfolding separators_defined either_exists
separators_defined-keys m section keys e =
    elim (key_exists-keys m section (separator_key 1) keys e) [
      | inr (s, f, g) ↦ inl (first s f, rw g)
      | inl (f, g) ↦ elim (key_exists-keys m section (separator_key 0) keys e) [
        | inr (s, f', g') ↦ inl (zeroth s f', rw (g, g'))
        | inl (f', g') ↦ inr (f', f, rw (g, g'))
      ]
    ]

separators_defined-missing :
    (m : Sections) (section : Text)
    → lookup section m ≡ none
    → separators_defined m section ≡ err ini_parser_missing_section
unfolding separators_defined either_exists
separators_defined-missing m section e = rw (key_exists-missing m section (separator_key 1) e)

value_or-Nearest :
    (default : ℕ → Text) (keys : Map Text) (n : ℕ) (s : Text)
    → Nearest default keys n s
    → Nearest default keys (suc n) (value_or s (lookup (separator_key (suc n)) keys))
unfolding value_or
value_or-Nearest default keys n s h = elim (Option-cases (lookup (separator_key (suc n)) keys)) [
  | inl f ↦ rw f (above n s f h)
  | inr (s', f) ↦ rw f (here (suc n) s' f)
]

-- Where a separator is defined, every level inherits.
get_separator-Nearest :
    (default : ℕ → Text) (r : Rules) (m : Sections) (keys : Map Text) (n : ℕ)
    → in_force r ≡ some m
    → lookup r.rules_name m ≡ some keys
    → separators_defined m r.rules_name ≡ ok true
    → (s : Text) × (get_separator default r n ≡ ok s) × Nearest default keys n s
unfolding value_or get_separator
get_separator-Nearest default r m keys zero e f g =
    elim (Option-cases (lookup (separator_key 0) keys)) [
      | inl h ↦ (
        default 0,
        rw (get_separator, e, get_string-keys m r.rules_name (default 0) keys 0 f, h),
        top h,
      )
      | inr (s, h) ↦ (
        s,
        rw (get_separator, e, get_string-keys m r.rules_name (default 0) keys 0 f, h),
        here 0 s h,
      )
    ]
get_separator-Nearest default r m keys (suc n) e f g =
    let (s, q, h) = get_separator-Nearest default r m keys n e f g in
    (
      value_or s (lookup (separator_key (suc n)) keys),
      rw (get_separator, e, g, q, get_string-keys m r.rules_name s keys (suc n) f),
      value_or-Nearest default keys n s h,
    )

pub get_separator-in_section :
    (default : ℕ → Text) (r : Rules) (n : ℕ) (m : Sections)
    → in_force r ≡ some m
    → SeparatorCase default r n (get_separator default r n)
unfolding get_separator
get_separator-in_section default r n m e = elim (Option-cases (lookup r.rules_name m)) [
  | inl f ↦ no_section m e f (get_separator-missing default r n m e f)
  | inr (keys, f) ↦ elim (separators_defined-keys m r.rules_name keys f) [
    | inl (d, g) ↦
        let (s, q, h) = get_separator-Nearest default r m keys n e f g in
        inherited m keys s e f d h q
    | inr (a, b, g) ↦ each_its_own m keys e f a b (get_separator-own default r n m keys e f g)
  ]
]
  where
    get_separator-missing :
        (default : ℕ → Text) (r : Rules) (n : ℕ) (m : Sections)
        → in_force r ≡ some m
        → lookup r.rules_name m ≡ none
        → get_separator default r n ≡ err ini_parser_missing_section
    get_separator-missing default r zero m e f =
        rw (get_separator, e, get_string-missing m r.rules_name (default 0) 0 f)
    get_separator-missing default r (suc n) m e f =
        rw (get_separator, e, separators_defined-missing m r.rules_name f)

    get_separator-own :
        (default : ℕ → Text) (r : Rules) (n : ℕ) (m : Sections) (keys : Map Text)
        → in_force r ≡ some m
        → lookup r.rules_name m ≡ some keys
        → separators_defined m r.rules_name ≡ ok false
        → get_separator default r n ≡ ok (value_or (default n) (lookup (separator_key n) keys))
    get_separator-own default r zero m keys e f g =
        rw (get_separator, e, get_string-keys m r.rules_name (default 0) keys 0 f)
    get_separator-own default r (suc n) m keys e f g =
        rw (get_separator, e, g, get_string-keys m r.rules_name (default (suc n)) keys (suc n) f)

get_separator-no_rules :
    (default : ℕ → Text) (r : Rules) (n : ℕ)
    → in_force r ≡ none
    → get_separator default r n ≡ ok (default n)
unfolding get_separator
get_separator-no_rules default r zero e = rw (get_separator, e)
get_separator-no_rules default r (suc n) e = rw (get_separator, e)

-- Every answer of getSeparator for a level: the default separator of the level where no rules are
-- in force; INIParserMissingSection where their section is missing; where the section defines
-- separator0 or separator1, the separator of the nearest level upwards that defines one, or else the
-- default one of level 0; and otherwise the level's own separator or its default one.
pub get_separator-SeparatorCase :
    (default : ℕ → Text) (r : Rules) (n : ℕ) → SeparatorCase default r n (get_separator default r n)
get_separator-SeparatorCase default r n = elim (Option-cases (in_force r)) [
  | inl e ↦ no_rules e (get_separator-no_rules default r n e)
  | inr (m, e) ↦ get_separator-in_section default r n m e
]

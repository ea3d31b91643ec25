-- ===== src/Naming/Names.antt =====
-- FactoryBaseImpl::buildNameFromRule and the functions that call it: which rule makes a name.
use nds.Prelude.{
  ◌≡◌, refl, ◌≢◌, inl, inr, Bool, false, none, some, List, [], ◌∷◌, map, arith, Option-cases, All,
  Text, Map, lookup,
}
use nds.Types.{ok, err, ini_parser_missing_section}
use nds.IniFile.{Sections, value_or, get_string}
use nds.Printf.{print_format, plain_text}
use nds.Naming.{
  Rules, Rule, NameKind, rule_key, rules_of, in_force, first_rule, to_upper_key, to_lower_key,
  default_rule, is_one, adjust, Built, finish_name, apply_rule, build_name_from_rule, get_name,
  built, refused,
}

-- The value of the first of the keys that the section defines, or else the default.
pub data FirstDefined (keys : Map Text) (default : Text) : List Text → Text → Type 0 where
  this :
      (k : Text) (ks : List Text) (v : Text)
      → lookup k keys ≡ some v
      → FirstDefined keys default (k ∷ ks) v
  later :
      (k : Text) (ks : List Text) (v : Text)
      → lookup k keys ≡ none
      → FirstDefined keys default ks v
      → FirstDefined keys default (k ∷ ks) v
  no_key : FirstDefined keys default [] default

abbrev pub NonEmpty : Text → Type 0
NonEmpty k = k ≢ []

value_or-FirstDefined :
    (keys : Map Text) (default k : Text) (ks : List Text) (v : Text)
    → FirstDefined keys default ks v
    → FirstDefined keys default (k ∷ ks) (value_or v (lookup k keys))
unfolding value_or
value_or-FirstDefined keys default k ks v h = elim (Option-cases (lookup k keys)) [
  | inl e ↦ rw e (later k ks v e h)
  | inr (s, e) ↦ rw e (this k ks s e)
]

pub get_string-section :
    (m : Sections) (section k d : Text) (keys : Map Text)
    → NonEmpty k
    → lookup section m ≡ some keys
    → get_string m section k d ≡ ok (value_or d (lookup k keys))
unfolding get_string value_or
get_string-section m section [] d keys ne e = elim (ne refl) [ ]
get_string-section m section (c ∷ k) d keys ne e = rw (get_string, e)

get_string-no_section :
    (m : Sections) (section k d : Text)
    → NonEmpty k
    → lookup section m ≡ none
    → get_string m section k d ≡ err ini_parser_missing_section
unfolding get_string
get_string-no_section m section [] d ne e = elim (ne refl) [ ]
get_string-no_section m section (c ∷ k) d ne e = rw (get_string, e)

-- The chain of defaults gives the first rule that is defined.
pub first_rule-FirstDefined :
    (m : Sections) (section : Text) (rules : List Text) (default : Text) (keys : Map Text)
    → lookup section m ≡ some keys
    → All NonEmpty rules
    → (v : Text) × (first_rule m section rules default ≡ ok v) × FirstDefined keys default rules v
unfolding first_rule
first_rule-FirstDefined m section [] default keys e ne = (default, refl, no_key)
first_rule-FirstDefined m section (k ∷ ks) default keys e ne =
    let (v, f, h) = first_rule-FirstDefined m section ks default keys e ne.1 in
    (
      value_or v (lookup k keys),
      rw (first_rule, f, get_string-section m section k v keys ne.0 e),
      value_or-FirstDefined keys default k ks v h,
    )

-- A rule is asked for, so that the missing section is an error.
first_rule-no_section :
    (m : Sections) (section k : Text) (ks : List Text) (default : Text)
    → lookup section m ≡ none
    → All NonEmpty (k ∷ ks)
    → first_rule m section (k ∷ ks) default ≡ err ini_parser_missing_section
unfolding first_rule
first_rule-no_section m section k [] default e ne =
    rw (first_rule, get_string-no_section m section k default ne.0 e)
first_rule-no_section m section k (j ∷ ks) default e ne =
    rw (first_rule, first_rule-no_section m section j ks default e ne.1)

-- Whether the section sets a key to 1.
unfoldable pub is_set : Text → Map Text → Bool
is_set k keys = is_one (value_or (48 ∷ []) (lookup k keys))

-- How a name is built from the rules with the given keys.
pub data NameCase (r : Rules) (name : Text) (rules : List Text) (a : Built) : Type 0 where
  no_rules : in_force r ≡ none → a ≡ built name → NameCase r name rules a
  no_section :
      (m : Sections)
      → in_force r ≡ some m
      → lookup r.rules_name m ≡ none
      → a ≡ refused ini_parser_missing_section
      → NameCase r name rules a
  by_rule :
      (m : Sections) (keys : Map Text) (rule : Text)
      → in_force r ≡ some m
      → lookup r.rules_name m ≡ some keys
      → FirstDefined keys default_rule rules rule
      → a
        ≡ finish_name (
            print_format
              (plain_text false)
              rule
              (adjust (is_set to_upper_key keys) (is_set to_lower_key keys) name))
      → NameCase r name rules a

pub build_name_from_rule-NameCase :
    (r : Rules) (name k : Text) (ks : List Text)
    → All NonEmpty (k ∷ ks)
    → NameCase r name (k ∷ ks) (build_name_from_rule r name (k ∷ ks))
unfolding apply_rule is_set build_name_from_rule
build_name_from_rule-NameCase r name k ks ne = elim (Option-cases (in_force r)) [
  | inl e ↦ no_rules e (rw (build_name_from_rule, e))
  | inr (m, e) ↦ elim (Option-cases (lookup r.rules_name m)) [
    | inl f ↦
        no_section m e f (
          rw (build_name_from_rule, e, first_rule-no_section m r.rules_name k ks default_rule f ne))
    | inr (keys, f) ↦
        let (rule, g, h) = first_rule-FirstDefined m r.rules_name (k ∷ ks) default_rule keys f ne in
        by_rule m keys rule e f h (
          rw (
            build_name_from_rule,
            e,
            g,
            get_string-section m r.rules_name to_upper_key (48 ∷ []) keys (λ p. ground arith) f,
            get_string-section m r.rules_name to_lower_key (48 ∷ []) keys (λ p. ground arith) f,
          ))
  ]
]

rule_key-NonEmpty : (x : Rule) → NonEmpty (rule_key x)
unfolding rule_key
rule_key-NonEmpty _ = λ p. ground arith

rule_keys-NonEmpty : (xs : List Rule) → All NonEmpty (map rule_key xs)
rule_keys-NonEmpty [] = tt
rule_keys-NonEmpty (x ∷ xs) = (rule_key-NonEmpty x, rule_keys-NonEmpty xs)

by_rules :
    (r : Rules) (name : Text) (rules : List Rule)
    → rules ≢ []
    → NameCase r name (map rule_key rules) (build_name_from_rule r name (map rule_key rules))
by_rules r name [] ne = elim (ne refl) [ ]
by_rules r name (x ∷ xs) ne =
    build_name_from_rule-NameCase r name (rule_key x) (map rule_key xs)
      (rule_keys-NonEmpty (x ∷ xs))

rules_of-NonEmpty : (kind : NameKind) → rules_of kind ≢ []
unfolding rules_of
rules_of-NonEmpty _ = λ p. ground arith

-- What getRootNodeName, getInputPVName and the others build: the name itself where no rules are in
-- force; INIParserMissingSection where their section is missing; and otherwise the name, in upper or
-- lower case where the section says so, printed by the first rule of the kind that the section
-- defines, or by "%s", cut to 1023 bytes, with the digit 0 for each blank.
pub get_name-NameCase :
    (r : Rules) (kind : NameKind) (name : Text)
    → NameCase r name (map rule_key (rules_of kind)) (get_name r kind name)
unfolding get_name
get_name-NameCase r kind name = by_rules r name (rules_of kind) (rules_of-NonEmpty kind)

-- ===== src/IniFile/Lines.antt =====
-- A line with a key and a quoted value, written out and parsed again.
use nds.Prelude.{
  ℕ, zero, suc, ◌-◌, ◌≤◌, ◌<◌, ◌≡◌, refl, sym, ap, subst, ◌≢◌, inl, inr, false, none, some, [], ◌∷◌,
  ◌++◌, arith, ltb, ◌==◌, Bool-cases, Option-cases, length, drop, take-length, All, Text,
}
use nds.IniFile.{
  Position, char_at, is_space, trim, backslash, is_escaped, find_first_unescaped_char,
  inside_brackets, section_of, get_section, quoted, value_of, with_equal_sign, split_line,
  get_key_value, parsed,
}
use nds.IniFile.Trim.{Bounded, Trimmed-trim, more}
use nds.IniFile.Unescaped.{IsFirst, find_first_unescaped_char-IsFirst}
use mathlib.Core.List.{append-nil, append_assoc}

abbrev pub Without : ℕ → Text → Type 0
Without c s = All (λ d. d ≢ c) s

char_at-middle :
    (pre : Text) (c : ℕ) (post : Text) → char_at (pre ++ c ∷ post) (length pre) ≡ some c
unfolding char_at
char_at-middle [] c post = refl
char_at-middle (d ∷ pre) c post = char_at-middle pre c post

char_at-Without :
    (c : ℕ) (pre post : Text) (r d : ℕ)
    → Without c pre
    → r < length pre
    → char_at (pre ++ post) r ≡ some d
    → d ≢ c
unfolding char_at
char_at-Without c [] post r d h lt e = let no : ⊥ = omega (arith, lt) in elim no [ ]
char_at-Without c (b ∷ pre) post zero d h lt e = λ q. ground (arith, h.0)
char_at-Without c (b ∷ pre) post (suc r) d h lt e =
    char_at-Without c pre post r d h.1 (omega (arith, lt)) e

is_escaped-Without :
    (pre post : Text) → Without backslash pre → is_escaped (pre ++ post) (length pre) ≡ false
unfolding is_escaped
is_escaped-Without [] post h = refl
is_escaped-Without (b ∷ pre) post h =
    elim (Option-cases (char_at ((b ∷ pre) ++ post) (length pre))) [
      | inl e ↦ rw (is_escaped, e)
      | inr (d, e) ↦
          let ne : d ≢ backslash =
            char_at-Without backslash (b ∷ pre) post (length pre) d h (omega arith) e in
          let off : (d == backslash) ≡ false = ground arith in rw (is_escaped, e, off)
    ]

-- The search stops behind a part that has no backslash, and from the start position on no such byte.
IsFirst-middle :
    (pre : Text) (c : ℕ) (post : Text) (start : ℕ) (p : Position)
    → Without backslash pre
    → start ≤ length pre
    → ((r : ℕ) → start ≤ r → r < length pre → char_at (pre ++ c ∷ post) r ≡ some c → ⊥)
    → IsFirst (pre ++ c ∷ post) c start p
    → p ≡ some (length pre)
IsFirst-middle pre c post start none h le free f =
    elim (f (length pre) le (char_at-middle pre c post, is_escaped-Without pre (c ∷ post) h)) [ ]
IsFirst-middle pre c post start (some q) h le free f = elim (Bool-cases (ltb q (length pre))) [
  | inl lt ↦ elim (free q f.0 (ground arith) f.1.0) [ ]
  | inr ge ↦ elim (Bool-cases (ltb (length pre) q)) [
    | inl gt ↦
        elim (f.2 (length pre) le (ground arith)
          (char_at-middle pre c post, is_escaped-Without pre (c ∷ post) h)) [ ]
    | inr le' ↦ let same : q ≡ length pre = ground arith in ap some same
  ]
]

-- key="value"
abbrev pub print_line : Text → Text → Text
print_line key value = key ++ (61 ∷ ((34 ∷ value) ++ 34 ∷ []))

trim-Bounded : (t : Text) → Bounded t → trim t ≡ t
trim-Bounded t h = Trimmed-trim t t (record {
  leading = [];
  trailing = [];
  whole = sym (append-nil t);
  leading_spaces = tt;
  trailing_spaces = tt;
  bounded = h;
})

quote_free :
    (v : Text)
    → Without 34 v
    → (r : ℕ) → 1 ≤ r
    → r < suc (length v)
    → char_at ((34 ∷ v) ++ 34 ∷ []) r ≡ some 34
    → ⊥
unfolding char_at
quote_free v h zero le lt e = omega (arith, le)
quote_free v h (suc r) le lt e = char_at-Without 34 v (34 ∷ []) r 34 h (omega (arith, lt)) e refl

find-closing :
    (v : Text)
    → Without 34 v
    → Without backslash v
    → find_first_unescaped_char ((34 ∷ v) ++ 34 ∷ []) 34 1 ≡ some (suc (length v))
find-closing v hq hb =
    IsFirst-middle (34 ∷ v) 34 [] 1 _ ((λ e. ground arith), hb) (omega arith) (quote_free v hq)
      (find_first_unescaped_char-IsFirst ((34 ∷ v) ++ 34 ∷ []) 34 1)

value_of-quoted :
    (key v : Text)
    → Without 34 v
    → Without backslash v
    → value_of key ((34 ∷ v) ++ 34 ∷ []) ≡ parsed key v
unfolding value_of quoted
value_of-quoted key v hq hb =
    let one_less : suc (length v) - 1 ≡ length v = omega arith in
    rw (find-closing v hq hb, one_less, take-length v (34 ∷ []))

drop-behind : (pre : Text) (c : ℕ) (post : Text) → drop (suc (length pre)) (pre ++ c ∷ post) ≡ post
drop-behind [] c post = refl
drop-behind (d ∷ pre) c post = drop-behind pre c post

find-equal_sign :
    (key post : Text)
    → Without 61 key
    → Without backslash key
    → find_first_unescaped_char (key ++ 61 ∷ post) 61 0 ≡ some (length key)
find-equal_sign key post he hb =
    IsFirst-middle key 61 post 0 _ hb (omega arith)
      (λ r le lt e. char_at-Without 61 key (61 ∷ post) r 61 he lt e refl)
      (find_first_unescaped_char-IsFirst (key ++ 61 ∷ post) 61 0)

-- A line of a key, an equal sign and a value in quotes is parsed into the key and the value. The key
-- is not empty and has no space at its ends, no equal sign and no backslash; the value has no quote
-- of that kind and no backslash.
pub get_key_value-print_line :
    (c : ℕ) (k v : Text)
    → Bounded (c ∷ k)
    → Without 61 (c ∷ k)
    → Without backslash (c ∷ k)
    → Without 34 v
    → Without backslash v
    → get_key_value (print_line (c ∷ k) v) ≡ parsed (c ∷ k) v
unfolding get_key_value split_line with_equal_sign
get_key_value-print_line c k v hk he hb hq hv =
    let value = (34 ∷ v) ++ 34 ∷ [] in
    rw (
      find-equal_sign (c ∷ k) value he hb,
      take-length (c ∷ k) (61 ∷ value),
      drop-behind (c ∷ k) 61 value,
      trim-Bounded (c ∷ k) hk,
      trim-Bounded value (more 34 v 34 refl refl),
      value_of-quoted (c ∷ k) v hq hv,
    )

-- [name]
abbrev pub print_section : Text → Text
print_section name = (91 ∷ name) ++ 93 ∷ []

find-bracket :
    (name : Text)
    → Without 93 name
    → Without backslash name
    → find_first_unescaped_char ((91 ∷ name) ++ 93 ∷ []) 93 0 ≡ some (suc (length name))
find-bracket name hs hb =
    IsFirst-middle (91 ∷ name) 93 [] 0 _ ((λ e. ground arith), hb) (omega arith)
      (λ r le lt e.
        char_at-Without 93 (91 ∷ name) (93 ∷ []) r 93 ((λ q. ground arith), hs) lt e refl)
      (find_first_unescaped_char-IsFirst ((91 ∷ name) ++ 93 ∷ []) 93 0)

print_line-Bounded :
    (c : ℕ) (k value : Text) → is_space c ≡ false → Bounded (print_line (c ∷ k) value)
print_line-Bounded c k value hc =
    subst Bounded (append_assoc (c ∷ k) (61 ∷ 34 ∷ value) (34 ∷ []))
      (more c (k ++ 61 ∷ 34 ∷ value) 34 hc refl)

-- A line of a name in brackets is the section of that name, and the line of a key and a quoted value
-- is no section. The name has no space at its ends, no closing bracket and no backslash; the key
-- begins with no space and no opening bracket.
pub get_section-print_section :
    (name : Text) (c : ℕ) (k value : Text)
    → Bounded name
    → Without 93 name
    → Without backslash name
    → is_space c ≡ false
    → c ≢ 91
    → (get_section (print_section name) ≡ name) × (get_section (print_line (c ∷ k) value) ≡ [])
unfolding get_section section_of inside_brackets
get_section-print_section name c k value hn hs hb hc h91 =
    let one_less : suc (length name) - 1 ≡ length name = omega arith in
    let other : (c == 91) ≡ false = ground arith in
    (
      rw (
        trim-Bounded (print_section name) (more 91 name 93 refl refl),
        find-bracket name hs hb,
        one_less,
        take-length name (93 ∷ []),
        trim-Bounded name hn,
      ),
      rw (trim-Bounded (print_line (c ∷ k) value) (print_line-Bounded c k value hc), other),
    )

-- ===== src/IniFile/Unescaped.antt =====
-- IniFileParserImpl::findFirstUnescapedChar finds the first place with the byte and no backslash.
use nds.Prelude.{
  ℕ, zero, suc, ◌+◌, ◌≤◌, ◌<◌, ◌≡◌, ap, subst, inl, inr, true, false, none, some, [], ◌∷◌, arith,
  ltb, leb, ◌==◌, Bool-cases, ==_iff, length, Text,
}
use nds.IniFile.{
  Position, next, find_from, char_at, is_escaped, scan_unescaped, find_first_unescaped_char,
}

-- The byte stands at the place, and no backslash before it.
abbrev pub Unescaped : Text → ℕ → ℕ → Type 0
Unescaped s c q = (char_at s q ≡ some c) × (is_escaped s q ≡ false)

-- The position is the first unescaped one from the start on, and npos means that there is none.
abbrev pub IsFirst : Text → ℕ → ℕ → Position → Type 0
IsFirst s c start none = (r : ℕ) → start ≤ r → Unescaped s c r → ⊥
IsFirst s c start (some q) =
    (start ≤ q) × Unescaped s c q × ((r : ℕ) → start ≤ r → r < q → Unescaped s c r → ⊥)

-- The same of std::string::find.
abbrev pub IsFound : Text → ℕ → ℕ → Position → Type 0
IsFound s c start none = (r : ℕ) → start ≤ r → char_at s r ≡ some c → ⊥
IsFound s c start (some q) =
    (start ≤ q) × (char_at s q ≡ some c) × ((r : ℕ) → start ≤ r → r < q → char_at s r ≡ some c → ⊥)

-- No find in front of a byte that is passed over, and none behind it, is none at all.
passed :
    (d : ℕ) (s : Text) (c start from : ℕ) (bound : ℕ → Type 0)
    → (start ≤ 0 → some d ≡ some c → ⊥)
    → ((r : ℕ) → start ≤ suc r → from ≤ r)
    → ((r : ℕ) → from ≤ r → bound (suc r) → char_at s r ≡ some c → ⊥)
    → (r : ℕ) → start ≤ r
    → bound r
    → char_at (d ∷ s) r ≡ some c
    → ⊥
unfolding char_at
passed d s c start from bound front shift none_behind zero le b e = front le e
passed d s c start from bound front shift none_behind (suc r) le b e =
    none_behind r (shift r le) b e

next-IsFound :
    (d : ℕ) (s : Text) (c start from : ℕ) (p : Position)
    → (start ≤ 0 → some d ≡ some c → ⊥)
    → ((r : ℕ) → start ≤ suc r → from ≤ r)
    → start ≤ suc from
    → IsFound s c from p
    → IsFound (d ∷ s) c start (next p)
unfolding next char_at
next-IsFound d s c start from none front shift le h =
    λ r l e. passed d s c start from (λ _. Unit) front shift (λ r' l' _ e'. h r' l' e') r l tt e
next-IsFound d s c start from (some q) front shift le h = (
  omega (arith, le, h.0),
  h.1,
  λ r l lt e.
      passed d s c start from (λ i. i < suc q) front shift
        (λ r' l' lt' e'. h.2 r' l' (omega (arith, lt')) e') r l lt e,
)

find-IsFound : (s : Text) (c start : ℕ) → IsFound s c start (find_from (λ d. d == c) start s)
unfolding find_from char_at
find-IsFound [] c start = λ r le e. ground arith
find-IsFound (d ∷ s) c zero = elim (Bool-cases (d == c)) [
  | inl h ↦ rw h (omega arith, ap some ((==_iff d c).0 h), λ r le lt e. omega (arith, lt))
  | inr h ↦ rw h (
      next-IsFound d s c 0 0 _ (λ le e. ground (arith, h)) (λ r le. omega arith) (omega arith)
        (find-IsFound s c 0))
]
find-IsFound (d ∷ s) c (suc n) =
    next-IsFound d s c (suc n) n _ (λ le e. omega (arith, le)) (λ r le. omega (arith, le))
      (omega arith) (find-IsFound s c n)

char_at-lt : (s : Text) (r c : ℕ) → char_at s r ≡ some c → r < length s
unfolding char_at
char_at-lt [] r c e = ground arith
char_at-lt (d ∷ s) zero c e = omega arith
char_at-lt (d ∷ s) (suc r) c e = omega (arith, char_at-lt s r c e)

-- An unescaped place is behind an escaped one that std::string::find gives.
behind :
    (s : Text) (c start q r : ℕ)
    → is_escaped s q ≡ true
    → IsFound s c start (some q)
    → start ≤ r
    → Unescaped s c r
    → (suc q ≤ r)
behind s c start q r e f le u = elim (Bool-cases (leb (suc q) r)) [
  | inl h ↦ ground arith
  | inr h ↦ elim (Bool-cases (r == q)) [
    | inl same ↦
        let plain : is_escaped s q ≡ false =
          subst (λ x. is_escaped s x ≡ false) ((==_iff r q).0 same) u.1 in
        ground arith
    | inr other ↦ let lt : r < q = ground arith in elim (f.2 r le lt u.0) [ ]
  ]
]

-- What is first behind an escaped place is first from before it on.
skip-IsFirst :
    (s : Text) (c start q : ℕ) (p : Position)
    → is_escaped s q ≡ true
    → IsFound s c start (some q)
    → IsFirst s c (suc q) p
    → IsFirst s c start p
skip-IsFirst s c start q none e f h = λ r le u. h r (behind s c start q r e f le u) u
skip-IsFirst s c start q (some p) e f h =
    (omega (arith, f.0, h.0), h.1, λ r le lt u. h.2 r (behind s c start q r e f le u) lt u)

round-IsFirst :
    (s : Text) (c start : ℕ) (rest : ℕ → Position) (p : Position)
    → IsFound s c start p
    → ((q : ℕ) → start ≤ q → IsFirst s c (suc q) (rest q))
    → IsFirst s c start
        (elim p [ none ↦ none | some q ↦ elim (is_escaped s q) [ false ↦ some q | true ↦ rest q ] ])
round-IsFirst s c start rest none f h = λ r le u. f r le u.0
round-IsFirst s c start rest (some q) f h = elim (Bool-cases (is_escaped s q)) [
  | inl e ↦ rw e (skip-IsFirst s c start q _ e f (h q f.0))
  | inr e ↦ rw e (f.0, (f.1, e), λ r le lt u. f.2 r le lt u.0)
]

scan-IsFirst :
    (fuel : ℕ) (s : Text) (c start : ℕ)
    → length s ≤ fuel + start
    → IsFirst s c start (scan_unescaped fuel s c start)
unfolding scan_unescaped
scan-IsFirst zero s c start enough = λ r le u. omega (arith, enough, le, char_at-lt s r c u.0)
scan-IsFirst (suc fuel) s c start enough = elim (Bool-cases (ltb start (length s))) [
  | inr off ↦ rw off (λ r le u. ground (arith, char_at-lt s r c u.0, off))
  | inl on ↦ rw on (
      round-IsFirst s c start (λ q. scan_unescaped fuel s c (suc q)) _ (find-IsFound s c start)
        (λ q le. scan-IsFirst fuel s c (suc q) (omega (arith, enough, le))))
]

-- findFirstUnescapedChar gives the first place, from the start position on, that holds the byte and
-- has no backslash before it, and npos where there is no such place.
pub find_first_unescaped_char-IsFirst :
    (s : Text) (c start : ℕ) → IsFirst s c start (find_first_unescaped_char s c start)
unfolding find_first_unescaped_char
find_first_unescaped_char-IsFirst s c start = scan-IsFirst (length s) s c start (omega arith)

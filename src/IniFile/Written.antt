-- ===== src/IniFile/Written.antt =====
-- A file of sections written out, and what the parser does with its lines.
use nds.Prelude.{
  ℕ, suc, ◌≡◌, refl, ◌≢◌, true, false, List, [], ◌∷◌, ◌++◌, arith, ◌==◌, All, All-append, Text,
  text_lt, Map,
}
use nds.IniFile.{is_space, backslash, Sections, store, get_lines, first_char, parse_lines}
use nds.IniFile.Trim.{Bounded, one}
use nds.IniFile.Lines.{
  Without, print_line, print_section, get_key_value-print_line, get_section-print_section,
}
use mathlib.Core.List.{append_assoc}

-- The names and values that a file can be written with.
abbrev pub IsName : Text → Type 0
IsName [] = ⊥
IsName (c ∷ n) =
    Bounded (c ∷ n) × Without 93 (c ∷ n) × Without backslash (c ∷ n) × Without 10 (c ∷ n)

abbrev pub IsKey : Text → Type 0
IsKey [] = ⊥
IsKey (c ∷ k) =
    Bounded (c ∷ k)
    × Without 61 (c ∷ k)
    × Without backslash (c ∷ k)
    × Without 10 (c ∷ k)
    × (is_space c ≡ false)
    × (c ≢ 91)

abbrev pub IsValue : Text → Type 0
IsValue v = Without 34 v × Without backslash v × Without 10 v

abbrev pub IsEntry : Text × Text → Type 0
IsEntry (k, v) = IsKey k × IsValue v

-- The keys in their order.
abbrev pub Ascending : {V : Type 0} → Map V → Type 0
Ascending [] = Unit
Ascending ((k, v) ∷ m) = All (λ e. text_lt k e.0 ≡ true) m × Ascending m

-- A section has a key: one without keys is not stored.
abbrev pub IsSection : Text × Map Text → Type 0
IsSection (name, []) = ⊥
IsSection (name, e ∷ keys) = IsName name × All IsEntry (e ∷ keys) × Ascending (e ∷ keys)

unfoldable pub print_keys : Map Text → Text
print_keys [] = []
print_keys ((k, v) ∷ m) = print_line k v ++ 10 ∷ print_keys m

unfoldable pub print_sections : Sections → Text
print_sections [] = []
print_sections ((name, keys) ∷ m) = print_section name ++ 10 ∷ (print_keys keys ++ print_sections m)

pub get_lines-line :
    (l rest : Text) → Without 10 l → get_lines (l ++ 10 ∷ rest) ≡ l ∷ get_lines rest
unfolding get_lines first_char
get_lines-line [] rest h = refl
get_lines-line (c ∷ l) rest h =
    let other : (c == 10) ≡ false = ground (arith, h.0) in rw (other, get_lines-line l rest h.1)

print_line-Without : (k v : Text) → Without 10 k → Without 10 v → Without 10 (print_line k v)
print_line-Without k v hk hv =
    All-append (λ d. d ≢ 10) k _ hk
      (
        (λ e. ground arith),
        ((λ e. ground arith), All-append (λ d. d ≢ 10) v _ hv ((λ e. ground arith), tt)),
      )

pub section_line :
    (n : ℕ) (last name : Text) (m : Sections) (ls : List Text)
    → IsName name
    → parse_lines n last m (print_section name ∷ ls) ≡ parse_lines (suc n) name m ls
unfolding parse_lines
section_line n last [] m ls h = elim h [ ]
section_line n last (c ∷ name) m ls h = rw (
  parse_lines,
  (get_section-print_section (c ∷ name) 65 [] [] h.0 h.1 h.2 refl (λ e. ground arith)).0,
)

key_line :
    (n : ℕ) (last k v : Text) (m : Sections) (ls : List Text)
    → IsEntry (k, v)
    → parse_lines n last m (print_line k v ∷ ls) ≡ parse_lines (suc n) last (store last k v m) ls
unfolding parse_lines
key_line n last [] v m ls h = elim h.0 [ ]
key_line n last (c ∷ k) v m ls ((b, eq, bs, lf, sp, br), (q, vb, vl)) = rw (
  parse_lines,
  (get_section-print_section (65 ∷ []) c k v (one 65 refl) ((λ e. ground arith), tt)
      ((λ e. ground arith), tt) sp br).1,
  get_key_value-print_line c k v b eq bs q vb,
)

IsKey-lines : (k : Text) → IsKey k → Without 10 k
IsKey-lines [] h = tt
IsKey-lines (c ∷ k) h = h.3

-- What the lines of a section do to the sections.
abbrev pub store_keys : Text → Map Text → Sections → Sections
store_keys name [] m = m
store_keys name ((k, v) ∷ keys) m = store_keys name keys (store name k v m)

abbrev pub count : ℕ → Map Text → ℕ
count n [] = n
count n (e ∷ keys) = count (suc n) keys

pub keys_lines :
    (n : ℕ) (name : Text) (keys : Map Text) (m : Sections) (rest : Text)
    → All IsEntry keys
    → parse_lines n name m (get_lines (print_keys keys ++ rest))
      ≡ parse_lines (count n keys) name (store_keys name keys m) (get_lines rest)
unfolding print_keys
keys_lines n name [] m rest h = refl
keys_lines n name ((k, v) ∷ keys) m rest h =
    rw
      (
        append_assoc (print_line k v) (10 ∷ print_keys keys) rest,
        get_lines-line (print_line k v) (print_keys keys ++ rest)
            (print_line-Without k v (IsKey-lines k h.0.0) h.0.1.2),
        key_line n name k v m (get_lines (print_keys keys ++ rest)) h.0,
      )
      (keys_lines (suc n) name keys (store name k v m) rest h.1)

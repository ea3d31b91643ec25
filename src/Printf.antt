-- ===== src/Printf.antt =====
-- The snprintf of the C library as src/factoryBaseImpl.cpp calls it: a format and one string.
use nds.Prelude.{
  ℕ, zero, suc, ◌+◌, ◌-◌, ◌*◌, Bool, true, false, ◌&&◌, ◌||◌, Option, none, some, [], ◌∷◌, ◌++◌,
  ltb, leb, ◌==◌, if◌then◌else◌, length, take, Text,
}

-- How far printf has come: in plain text, in a directive behind its flag and width, or behind its
-- precision too. `used` is whether the one argument has been printed.
pub data Printing : Type 0 where
  plain_text : (used : Bool) → Printing
  directive : (used left : Bool) (width : ℕ) → Printing
  precise : (used left : Bool) (width precision : ℕ) → Printing

pub data FormatByte : Type 0 where
  percent minus point string_directive : FormatByte
  digit : ℕ → FormatByte
  other_byte : FormatByte

unfoldable pub format_byte : ℕ → FormatByte
format_byte c =
    if c == 37
    then percent
    else (if c == 45
        then minus
        else (if c == 46
            then point
            else (if c == 115
                then string_directive
                else (if leb 48 c && leb c 57 then digit (c - 48) else other_byte))))

unfoldable pub blanks : ℕ → Text
blanks zero = []
blanks (suc n) = 32 ∷ blanks n

unfoldable pub pad : Bool → ℕ → Text → Text
pad left width s = let fill = blanks (width - length s) in if left then s ++ fill else fill ++ s

-- Put in front, where there is a result.
unfoldable pub before : Text → Option Text → Option Text
before s none = none
before s (some t) = some (s ++ t)

-- snprintf with one argument, a string: the bytes of the format, `%%`, and one `%s` with the flag
-- `-`, a width and a precision. None is a format for which the C standard defines no behaviour, or
-- one that takes an argument of another type.
unfoldable pub print_format : Printing → Text → Text → Option Text
print_format (plain_text used) [] s = some []
print_format (plain_text used) (c ∷ f) s = elim (format_byte c) [
  | percent ↦ print_format (directive used false 0) f s
  | _ ↦ before (c ∷ []) (print_format (plain_text used) f s)
]
print_format (directive used left width) [] s = none
print_format (directive used left width) (c ∷ f) s = elim (format_byte c) [
  | percent ↦
      if left || ltb 0 width then none else before (c ∷ []) (print_format (plain_text used) f s)
  | minus ↦ if ltb 0 width then none else print_format (directive used true 0) f s
  | point ↦ print_format (precise used left width 0) f s
  | digit d ↦
      if d == 0 && width == 0 then none else print_format (directive used left (10 * width + d)) f s
  | string_directive ↦
      if used then none else before (pad left width s) (print_format (plain_text true) f s)
  | other_byte ↦ none
]
print_format (precise used left width n) [] s = none
print_format (precise used left width n) (c ∷ f) s = elim (format_byte c) [
  | digit d ↦ print_format (precise used left width (10 * n + d)) f s
  | string_directive ↦
      if used then none else before (pad left width (take n s)) (print_format (plain_text true) f s)
  | _ ↦ none
]

-- ===== src/Tests/Files.antt =====
-- A file of two sections, written and parsed.
use nds.Prelude.{ℕ, ◌≡◌, refl, ◌≢◌, false, [], ◌∷◌, arith, ◌==◌, All, text_lt}
use nds.IniFile.{Sections, parse, loaded}
use nds.IniFile.Trim.{one}
use nds.IniFile.Written.{IsSection, print_sections}
use nds.IniFile.Files.{parse-print_sections}

-- [A] with k="v" and [B] with a="" and b="x y"
abbrev written : Sections
written =
    (65 ∷ [], (107 ∷ [], 118 ∷ []) ∷ [])
    ∷ (66 ∷ [], (97 ∷ [], []) ∷ (98 ∷ [], 120 ∷ 32 ∷ 121 ∷ []) ∷ [])
    ∷ []

-- A byte of these names, keys and values is none of the bytes that end or escape them.
written-IsSection : All IsSection written
unfolding text_lt
written-IsSection =
    let free : (a b : ℕ) → (a == b) ≡ false → a ≢ b = λ a b h. ground (arith, h) in
    (
      (
        (one 65 refl, (free 65 93 refl, tt), (free 65 92 refl, tt), (free 65 10 refl, tt)),
        (
          (
            (
              one 107 refl,
              (free 107 61 refl, tt),
              (free 107 92 refl, tt),
              (free 107 10 refl, tt),
              refl,
              free 107 91 refl,
            ),
            ((free 118 34 refl, tt), (free 118 92 refl, tt), (free 118 10 refl, tt)),
          ),
          tt,
        ),
        (tt, tt),
      ),
      (
        (
          (one 66 refl, (free 66 93 refl, tt), (free 66 92 refl, tt), (free 66 10 refl, tt)),
          (
            (
              (
                one 97 refl,
                (free 97 61 refl, tt),
                (free 97 92 refl, tt),
                (free 97 10 refl, tt),
                refl,
                free 97 91 refl,
              ),
              (tt, tt, tt),
            ),
            (
              (
                (
                  one 98 refl,
                  (free 98 61 refl, tt),
                  (free 98 92 refl, tt),
                  (free 98 10 refl, tt),
                  refl,
                  free 98 91 refl,
                ),
                (
                  (free 120 34 refl, (free 32 34 refl, (free 121 34 refl, tt))),
                  (free 120 92 refl, (free 32 92 refl, (free 121 92 refl, tt))),
                  (free 120 10 refl, (free 32 10 refl, (free 121 10 refl, tt))),
                ),
              ),
              tt,
            ),
          ),
          ((refl, tt), (tt, tt)),
        ),
        tt,
      ),
    )

parse-print_sections_example : parse (print_sections written) ≡ loaded written
unfolding text_lt
parse-print_sections_example = parse-print_sections written written-IsSection ((refl, tt), (tt, tt))

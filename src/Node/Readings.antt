-- ===== src/Node/Readings.antt =====
-- The order of pairs of a timestamp and a state.
use nds.Prelude.{
  ℕ, List, [], ◌∷◌, Bool, true, false, ◌≡◌, ◌⊎◌, inl, inr, refl, arith, ◌&&◌, ◌||◌, Bool-cases, ℤ,
  pos, negsuc, int_lt, int_eq, ltb, ◌==◌, All,
}
use nds.Types.{State, Timespec, to_int}
use nds.StateMachine.{outranked, newer}

-- The comparison of two pairs, by the numbers in them.
abbrev behind : ℤ → ℕ → ℕ → ℤ → ℕ → ℕ → Bool
behind z s n z' s' n' = int_lt z z' || (int_eq z z' && (ltb s s' || (s == s' && ltb n n')))

behind_irrefl : (z : ℤ) (s n : ℕ) → behind z s n z s n ≡ false
behind_irrefl (pos k) s n = ground arith
behind_irrefl (negsuc k) s n = ground arith

behind_asym :
    (z z' : ℤ) (s n s' n' : ℕ) → behind z s n z' s' n' ≡ true → behind z' s' n' z s n ≡ false
behind_asym (pos k) (pos l) s n s' n' h = ground arith
behind_asym (pos k) (negsuc l) s n s' n' h = ground arith
behind_asym (negsuc k) (pos l) s n s' n' h = ground arith
behind_asym (negsuc k) (negsuc l) s n s' n' h = ground arith

behind_trans :
    (z z' z'' : ℤ) (s n s' n' s'' n'' : ℕ)
    → behind z s n z' s' n' ≡ false
    → behind z' s' n' z'' s'' n'' ≡ false
    → behind z s n z'' s'' n'' ≡ false
behind_trans (pos k) (pos l) (pos m) s n s' n' s'' n'' g h = ground arith
behind_trans (negsuc k) (negsuc l) (negsuc m) s n s' n' s'' n'' g h = ground arith
behind_trans _ _ _ s n s' n' s'' n'' g h = ground arith

abbrev pub Reading : Type 0
Reading = Timespec × State

pub outranked_trans :
    (a b c : Reading) → outranked a b ≡ false → outranked b c ≡ false → outranked a c ≡ false
outranked_trans (t, s) (t', s') (t'', s'') g h =
    behind_trans (to_int s) (to_int s') (to_int s'') t.tv_sec t.tv_nsec t'.tv_sec t'.tv_nsec
      t''.tv_sec t''.tv_nsec g h

pub newer_left : (a b : Reading) → outranked (newer a b) a ≡ false
newer_left (t, s) (t', s') = elim (Bool-cases (outranked (t, s) (t', s'))) [
  | inl h ↦ rw h (behind_asym (to_int s) (to_int s') t.tv_sec t.tv_nsec t'.tv_sec t'.tv_nsec h)
  | inr h ↦ rw h (behind_irrefl (to_int s) t.tv_sec t.tv_nsec)
]

pub outranked_irrefl : (a : Reading) → outranked a a ≡ false
outranked_irrefl (t, s) = behind_irrefl (to_int s) t.tv_sec t.tv_nsec

pub newer_right : (a b : Reading) → outranked (newer a b) b ≡ false
newer_right (t, s) (t', s') = elim (Bool-cases (outranked (t, s) (t', s'))) [
  | inl h ↦ rw h (behind_irrefl (to_int s') t'.tv_sec t'.tv_nsec)
  | inr h ↦ rw h h
]

pub newer-or : (a b : Reading) → (newer a b ≡ a) ⊎ (newer a b ≡ b)
newer-or (t, s) (t', s') = elim (Bool-cases (outranked (t, s) (t', s'))) [
  | inl h ↦ rw h (inr refl)
  | inr h ↦ rw h (inl refl)
]

-- No entry of the list outranks the reading.
abbrev pub Tops : Reading → List Reading → Type 0
Tops r = All (λ x. outranked r x ≡ false)

pub Tops-mono : (r a : Reading) (l : List Reading) → outranked r a ≡ false → Tops a l → Tops r l
Tops-mono r a [] h t = tt
Tops-mono r a (x ∷ l) h t = (outranked_trans r a x h t.0, Tops-mono r a l h t.1)

-- ===== src/Prelude/Maps.antt =====
-- std::map<std::string, V>, std::set of pointers, and memory.
use Prim.Native.Nat.{ℕ}
use mathlib.Core.Path.{◌≡◌, refl}
use mathlib.Core.Logic.{◌↔◌}
use mathlib.Core.Bool.{Bool, true, false, ◌&&◌, ◌||◌}
use mathlib.Core.Option.{Option, none, some}
use mathlib.Core.List.{List, [], ◌∷◌}
use native.Mathlib.Omega.{arith}
use nds.Prelude.Tests.{ltb, ◌==◌, if◌then◌else◌}
use nds.Prelude.Lists.{contains}

-- A text is the list of its bytes.
abbrev pub Text : Type 0
Text = List ℕ

unfoldable pub text_eq : Text → Text → Bool
text_eq [] [] = true
text_eq (a ∷ s) (b ∷ t) = a == b && text_eq s t
text_eq _ _ = false

-- The order of std::string.
unfoldable pub text_lt : Text → Text → Bool
text_lt [] [] = false
text_lt [] (b ∷ t) = true
text_lt (a ∷ s) [] = false
text_lt (a ∷ s) (b ∷ t) = ltb a b || (a == b && text_lt s t)

pub text_eq_iff : (s t : Text) → (text_eq s t ≡ true) ↔ (s ≡ t)
unfolding text_eq
text_eq_iff (a ∷ s) (b ∷ t) = ground (arith, text_eq_iff s t)
text_eq_iff _ _ = ground arith

pub text_eq_refl : (s : Text) → text_eq s s ≡ true
text_eq_refl s = (text_eq_iff s s).1 refl

-- The entries in the order of their keys.
abbrev pub Map : Type 0 → Type 0
Map V = List (Text × V)

module _ {V : Type 0} where
  unfoldable pub lookup : Text → Map V → Option V
  lookup k [] = none
  lookup k ((j, v) ∷ m) = if text_eq j k then some v else lookup k m

  unfoldable pub insert : Text → V → Map V → Map V
  insert k v [] = (k, v) ∷ []
  insert k v ((j, w) ∷ m) =
      if text_eq j k
      then (k, v) ∷ m
      else (if text_lt k j then (k, v) ∷ (j, w) ∷ m else (j, w) ∷ insert k v m)

  unfoldable pub erase : Text → Map V → Map V
  erase k [] = []
  erase k ((j, w) ∷ m) = if text_eq j k then erase k m else (j, w) ∷ erase k m

  pub lookup-insert :
      (k j : Text) (v : V) (m : Map V)
      → lookup j (insert k v m) ≡ (if text_eq k j then some v else lookup j m)
  unfolding lookup insert
  lookup-insert k j v [] = refl
  lookup-insert k j v ((i, w) ∷ m) =
      ground (arith, text_eq_iff k j, text_eq_iff i k, text_eq_iff i j, lookup-insert k j v m)

  pub lookup-erase :
      (k j : Text) (m : Map V) → lookup j (erase k m) ≡ (if text_eq k j then none else lookup j m)
  unfolding lookup erase
  lookup-erase k j [] = ground arith
  lookup-erase k j ((i, w) ∷ m) =
      ground (arith, text_eq_iff k j, text_eq_iff i k, text_eq_iff i j, lookup-erase k j m)

-- std::set of pointers, in their order.
unfoldable pub set_insert : ℕ → List ℕ → List ℕ
set_insert a [] = a ∷ []
set_insert a (x ∷ l) = if x == a then x ∷ l else (if ltb a x then a ∷ x ∷ l else x ∷ set_insert a l)

unfoldable pub set_erase : ℕ → List ℕ → List ℕ
set_erase a [] = []
set_erase a (x ∷ l) = if x == a then set_erase a l else x ∷ set_erase a l

pub contains-set_insert :
    (a b : ℕ) (l : List ℕ) → contains b (set_insert a l) ≡ (a == b || contains b l)
unfolding set_insert
contains-set_insert a b [] = refl
contains-set_insert a b (x ∷ l) = ground (arith, contains-set_insert a b l)

pub contains-set_erase :
    (a b : ℕ) (l : List ℕ) → contains b (set_erase a l) ≡ (if a == b then false else contains b l)
unfolding set_erase
contains-set_erase a b [] = ground arith
contains-set_erase a b (x ∷ l) = ground (arith, contains-set_erase a b l)

-- Memory: what stands at each address.
abbrev pub update : {A : Type 0} → (ℕ → A) → ℕ → A → ℕ → A
update h k v j = if k == j then v else h j

-- ===== src/Devices/Held.antt =====
-- The nodes that are held for the devices: what m_heldNodes has for one of them.
use nds.Prelude.{ℕ, ◌≡◌, refl, ◌≢◌, List, [], ◌∷◌, ◌++◌, arith, All}
use nds.Devices.{nodes_of, release}
use mathlib.Core.List.{append-nil}

-- What a map of held nodes has for a pointer, and what it is without that. A pointer is in the map at
-- most once.
pub data HeldBy (p : ℕ) (held : List (ℕ × List ℕ)) (nodes : List ℕ) (rest : List (ℕ × List ℕ))
    : Type 0 where
  no_entry : All (λ entry. entry.0 ≢ p) held → nodes ≡ [] → rest ≡ held → HeldBy p held nodes rest
  entry_among :
      (before after : List (ℕ × List ℕ))
      → All (λ entry. entry.0 ≢ p) before
      → All (λ entry. entry.0 ≢ p) after
      → held ≡ before ++ (p, nodes) ∷ after
      → rest ≡ before ++ after
      → HeldBy p held nodes rest

nodes_of-none :
    (p : ℕ) (held : List (ℕ × List ℕ))
    → All (λ entry. entry.0 ≢ p) held
    → (nodes_of p held ≡ []) × (release p held ≡ held)
unfolding nodes_of release
nodes_of-none p [] h = (refl, refl)
nodes_of-none p ((q, nodes) ∷ held) h =
    let rest = nodes_of-none p held h.1 in
    (ground (arith, h.0, rest.0), ground (arith, h.0, rest.1))

nodes_of-among :
    (p : ℕ) (nodes : List ℕ) (before after : List (ℕ × List ℕ))
    → All (λ entry. entry.0 ≢ p) before
    → All (λ entry. entry.0 ≢ p) after
    → (nodes_of p (before ++ (p, nodes) ∷ after) ≡ nodes)
      × (release p (before ++ (p, nodes) ∷ after) ≡ before ++ after)
unfolding nodes_of release
nodes_of-among p nodes [] after b a =
    (ground (arith, (nodes_of-none p after a).0, append-nil nodes), ground arith)
nodes_of-among p nodes ((q, other) ∷ before) after b a =
    let rest = nodes_of-among p nodes before after b.1 a in
    (ground (arith, b.0, rest.0), ground (arith, b.0, rest.1))

pub nodes_of-HeldBy :
    (p : ℕ) (held : List (ℕ × List ℕ)) (nodes : List ℕ) (rest : List (ℕ × List ℕ))
    → HeldBy p held nodes rest
    → (nodes_of p held ≡ nodes) × (release p held ≡ rest)
nodes_of-HeldBy p held nodes rest (no_entry absent e f) = rw (e, f) (nodes_of-none p held absent)
nodes_of-HeldBy p held nodes rest (entry_among before after b a e f) =
    rw (e, f) (nodes_of-among p nodes before after b a)

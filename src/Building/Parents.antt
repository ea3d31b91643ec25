-- ===== src/Building/Parents.antt =====
-- BaseImpl::setParent: an object has one parent, once.
use nds.Prelude.{ℕ, suc, ◌≡◌, refl, sym, ap, ◌∙◌, inl, inr, true, false, arith, Bool-cases}
use nds.Types.{ok, err, logic_error}
use nds.Node.{Tree, Children, object, cons, Base, Kind}
use nds.Building.{set_parent, set_parents}

set_parent-owned : (l : ℕ) (b : Base) → b.has_parent ≡ true → set_parent l b ≡ err logic_error
unfolding set_parent
set_parent-owned l b e = rw (set_parent, e)

pub set_parents-owned :
    (l : ℕ) (b : Base) (k : Kind) (below cs : Children)
    → b.has_parent ≡ true
    → set_parents l (cons (object b k below) cs) ≡ (cons (object b k below) cs, err logic_error)
unfolding set_parents
set_parents-owned l b k below cs e = rw (set_parents, set_parent-owned l b e)

set_parents-free :
    (l : ℕ) (b : Base) (k : Kind) (below cs : Children)
    → b.has_parent ≡ false
    → set_parents l (cons (object b k below) cs) ≡ (
      cons
          (object (record b { node_level = suc l; has_parent = true }) k below)
          (set_parents l cs).0,
      (set_parents l cs).1,
    )
unfolding set_parents set_parent
set_parents-free l b k below cs e = rw (set_parents, set_parent, e)

-- A node that has given its children a parent cannot do so again: after the first loop of initialize
-- has gone through, the same loop throws at the first child and changes nothing.
set_parents_twice :
    (l l' : ℕ) (t : Tree) (cs : Children)
    → (set_parents l (cons t cs)).1 ≡ ok tt
    → set_parents l' (set_parents l (cons t cs)).0
      ≡ ((set_parents l (cons t cs)).0, err logic_error)
set_parents_twice l l' (object b k below) cs h = elim (Bool-cases b.has_parent) [
  | inl e ↦
      let refused : err logic_error ≡ ok tt =
        sym (ap (λ r. r.1) (set_parents-owned l b k below cs e)) ∙ h in
      ground arith
  | inr e ↦ rw (set_parents-free l b k below cs e) (set_parents-owned l' _ k below _ refl)
]

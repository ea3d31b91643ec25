-- ===== src/External/Ports.antt =====
-- The external name of an object below a port, in two parts.
use nds.Prelude.{ℕ, ◌≡◌, refl, sym, ap, ◌∙◌, true, false, List, [], ◌∷◌, ◌++◌, arith, All, Text}
use nds.Naming.{Rules, Built, built, refused, undefined, get_name, get_separator}
use nds.External.{
  Component, is_port_role, name_kind, joined, of_result, below_parent, build_full_external_name,
}
use mathlib.Core.List.{append_assoc, append-nil}

joined_assoc : (a b c : Built) → joined (joined a b) c ≡ joined a (joined b c)
unfolding joined
joined_assoc (built a) (built b) (built c) = ap built (append_assoc a b c)
joined_assoc (built a) (built b) (refused e) = refl
joined_assoc (built a) (built b) undefined = refl
joined_assoc (built a) (refused e) c = refl
joined_assoc (built a) undefined c = refl
joined_assoc (refused e) b c = refl
joined_assoc undefined b c = refl

below_parent-joined :
    (name front parent separator : Built) (f : Text)
    → below_parent name parent separator ≡ built f
    → below_parent name (joined front parent) separator
      ≡ joined front (below_parent name parent separator)
unfolding below_parent
below_parent-joined (built []) front parent separator f h = refl
below_parent-joined (built (c ∷ name)) front parent separator f h =
    rw (joined_assoc front parent separator)
      (joined_assoc front (joined parent separator) (built (c ∷ name)))
below_parent-joined (refused e) front parent separator f h = ground arith
below_parent-joined undefined front parent separator f h = ground arith

joined-nil : (a : Built) → joined a (built []) ≡ a
unfolding joined
joined-nil (built a) = ap built (append-nil a)
joined-nil (refused e) = refl
joined-nil undefined = refl

-- A name that was made had a parent's name to go behind.
below_parent-built :
    (name parent separator : Built) (f : Text)
    → below_parent name parent separator ≡ built f
    → (g : Text) × (parent ≡ built g)
unfolding below_parent joined
below_parent-built (built []) parent separator f h = (f, h)
below_parent-built (built (c ∷ name)) (built g) separator f h = (g, refl)
below_parent-built (built (c ∷ name)) (refused e) separator f h = absurd (ground arith)
below_parent-built (built (c ∷ name)) undefined separator f h = absurd (ground arith)
below_parent-built (refused e) parent separator f h = absurd (ground arith)
below_parent-built undefined parent separator f h = absurd (ground arith)

module _ (default : ℕ → Text) (r : Rules) where
  from_port-port :
      (p : Component) (above : List Component)
      → is_port_role p.role ≡ true
      → build_full_external_name default r true p above ≡ built []
  unfolding build_full_external_name
  from_port-port p [] h = rw h
  from_port-port p (q ∷ above) h = rw h

  below : Component → Built → Built
  below c parent =
      below_parent (get_name r (name_kind c.role) c.external_name) parent
        (of_result (get_separator default r c.node_level))

  from_port-below :
      (c q : Component) (above : List Component)
      → is_port_role c.role ≡ false
      → build_full_external_name default r true c (q ∷ above)
        ≡ below c (build_full_external_name default r true q above)
  unfolding build_full_external_name below
  from_port-below c q above h = rw h

  -- Where a name from the port goes behind that of the parent, so does the full name.
  extend :
      (c q : Component) (above : List Component) (front : Built) (g f : Text)
      → build_full_external_name default r false q above ≡ joined front (built g)
      → below c (built g) ≡ built f
      → build_full_external_name default r false c (q ∷ above) ≡ joined front (built f)
  unfolding build_full_external_name below
  extend c q above front g f e h = rw (
    e,
    below_parent-joined _ front (built g) (of_result (get_separator default r c.node_level)) f h,
    h,
  )

-- Where an object below a port, with no other port in between, has a name from the port, its full
-- external name is the port's full external name followed by the name from the port; where the port
-- has none, for its error, neither has the object.
pub build_full_external_name-port :
    (default : ℕ → Text) (r : Rules) (c p : Component) (below above : List Component) (f : Text)
    → is_port_role p.role ≡ true
    → is_port_role c.role ≡ false
    → All (λ q. is_port_role q.role ≡ false) below
    → build_full_external_name default r true c (below ++ p ∷ above) ≡ built f
    → build_full_external_name default r false c (below ++ p ∷ above)
      ≡ joined (build_full_external_name default r false p above) (built f)
unfolding below
build_full_external_name-port default r c p [] above f hp hc hb h =
    extend default r c p above (build_full_external_name default r false p above) [] f
      (sym (joined-nil _))
      (ap (below default r c) (sym (from_port-port default r p above hp))
        ∙ sym (from_port-below default r c p above hc)
        ∙ h)
build_full_external_name-port default r c p (q ∷ below') above f hp hc hb h =
    let behind = sym (from_port-below default r c q (below' ++ p ∷ above) hc) ∙ h in
    let (g, e) = below_parent-built _ _ _ f behind in
    extend default r c q (below' ++ p ∷ above) (build_full_external_name default r false p above) g
      f (build_full_external_name-port default r q p below' above g hp hb.0 hb.1 e)
      (ap (below default r c) (sym e) ∙ behind)

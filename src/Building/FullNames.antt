-- ===== src/Building/FullNames.antt =====
-- The names that the objects of a tree get, and the children of one node.
use nds.Prelude.{
  ℕ, ◌≡◌, refl, sym, subst, ◌∙◌, ◌≢◌, inl, inr, true, false, ◌||◌, none, some, List, [], ◌∷◌, ◌++◌,
  map, arith, if◌then◌else◌, Bool-cases, All, Text, text_eq, text_lt,
}
use nds.Types.{Result, ok, err, logic_error}
use nds.Node.{Tree, Children, nil, cons, Base}
use nds.Building.{
  base_of, is_machine, has_child, insert_child, machine_commands, add_child, dash, full_name_of,
  Step, build_full_name, behind_port, build_full_name_from_port,
}
use mathlib.Core.List.{append_assoc, tail-eq_of_cons-eq, head-eq_of_cons-eq, cons-eq-cons}

-- How addChild answers.
pub data AddCase (b : Base) (cs : Children) (t : Tree) (a : Result (Base × Children)) : Type 0 where
  name_taken : has_child (base_of t).name cs ≡ true → a ≡ err logic_error → AddCase b cs t a
  added :
      (b' : Base) (cs' : Children)
      → has_child (base_of t).name cs ≡ false
      → a ≡ ok (b', cs')
      → ((name : Text) → has_child name cs' ≡ (text_eq (base_of t).name name || has_child name cs))
      → (is_machine t ≡ true → b'.commands ≡ b.commands ++ machine_commands)
      → (is_machine t ≡ false → b' ≡ b)
      → AddCase b cs t a

has_child-insert_child :
    (t : Tree) (cs : Children) (name : Text)
    → has_child name (insert_child t cs) ≡ (text_eq (base_of t).name name || has_child name cs)
unfolding has_child insert_child
has_child-insert_child t nil name = refl
has_child-insert_child t (cons u cs) name =
    elim (Bool-cases (text_lt (base_of t).name (base_of u).name)) [
      | inl e ↦ rw e refl
      | inr e ↦ rw e (ground (arith, has_child-insert_child t cs name))
    ]

-- Every answer of addChild: an error where the node has a child of that name, and otherwise the child
-- is added to those that are there; a state machine adds its four commands to the node, and any other
-- child leaves the node's members as they were.
pub add_child-AddCase : (b : Base) (cs : Children) (t : Tree) → AddCase b cs t (add_child b cs t)
unfolding add_child
add_child-AddCase b cs t = elim (Bool-cases (has_child (base_of t).name cs)) [
  | inl e ↦ name_taken e (rw e)
  | inr e ↦
      added (if is_machine t then record b { commands = b.commands ++ machine_commands } else b)
        (insert_child t cs) e (rw e) (has_child-insert_child t cs) (λ m. rw m) (λ m. rw m)
]

-- No dash in the text.
abbrev pub NoDash : Text → Type 0
NoDash s = All (λ c. c ≢ 45) s

abbrev pub NoDashes : Step → List Step → Type 0
NoDashes s above = NoDash s.name × All (λ p. NoDash p.name) above

abbrev pub names_of : List Step → List Text
names_of steps = map (λ p. p.name) steps

dash-NoDash : (q n : Text) → NoDash (q ++ 45 ∷ n) → ⊥
dash-NoDash [] n h = h.0 refl
dash-NoDash (c ∷ q) n h = dash-NoDash q n h.1

-- The part before the last dash, and the part behind it, of two equal texts.
last_dash : (p q m n : Text) → NoDash m → NoDash n → p ++ 45 ∷ m ≡ q ++ 45 ∷ n → (p ≡ q) × (m ≡ n)
last_dash [] [] m n hm hn e = (refl, tail-eq_of_cons-eq e)
last_dash [] (c ∷ q) m n hm hn e =
    elim (dash-NoDash q n (subst NoDash (tail-eq_of_cons-eq e) hm)) [ ]
last_dash (c ∷ p) [] m n hm hn e =
    elim (dash-NoDash p m (subst NoDash (sym (tail-eq_of_cons-eq e)) hn)) [ ]
last_dash (c ∷ p) (d ∷ q) m n hm hn e =
    let h = last_dash p q m n hm hn (tail-eq_of_cons-eq e) in
    (cons-eq-cons.1 (head-eq_of_cons-eq e, h.0), h.1)

full_name-parent : (parent name : Text) → full_name_of (some parent) name ≡ parent ++ 45 ∷ name
unfolding full_name_of
full_name-parent parent name = append_assoc parent dash name

-- Where no component's name has a dash, two objects with the same full name have the same names all
-- the way up to their roots.
pub build_full_name-injective :
    (s t : Step) (above above' : List Step)
    → NoDashes s above
    → NoDashes t above'
    → build_full_name s above ≡ build_full_name t above'
    → names_of (s ∷ above) ≡ names_of (t ∷ above')
unfolding build_full_name full_name_of
build_full_name-injective s t [] [] hs ht e = cons-eq-cons.1 (e, refl)
build_full_name-injective s t [] (p ∷ above') hs ht e =
    elim (dash-NoDash (build_full_name p above') t.name
      (subst NoDash (e ∙ full_name-parent (build_full_name p above') t.name) hs.0)) [ ]
build_full_name-injective s t (p ∷ above) [] hs ht e =
    elim (dash-NoDash (build_full_name p above) s.name
      (subst NoDash (sym e ∙ full_name-parent (build_full_name p above) s.name) ht.0)) [ ]
build_full_name-injective s t (p ∷ above) (q ∷ above') hs ht e =
    let h = last_dash (build_full_name p above) (build_full_name q above') s.name t.name hs.0 ht.0 (
      sym (full_name-parent (build_full_name p above) s.name)
      ∙ e
      ∙ full_name-parent (build_full_name q above') t.name) in
    cons-eq-cons.1 (h.1, build_full_name-injective p q above above' hs.1 ht.1 h.0)

-- The text is not empty.
abbrev pub Named : Step → Type 0
Named s = s.name ≢ []

append_cons-nonempty : (p : Text) (c : ℕ) (n : Text) → p ++ c ∷ n ≢ []
append_cons-nonempty [] c n = λ e. ground arith
append_cons-nonempty (d ∷ p) c n = λ e. ground arith

build_full_name-Named : (s : Step) (above : List Step) → Named s → build_full_name s above ≢ []
unfolding build_full_name full_name_of
build_full_name-Named s [] h = h
build_full_name-Named s (p ∷ above) h = λ e.
    append_cons-nonempty (build_full_name p above) 45 s.name
      (sym (full_name-parent (build_full_name p above) s.name) ∙ e)

behind_port-named :
    (parent name : Text) → parent ≢ [] → behind_port parent name ≡ full_name_of (some parent) name
unfolding behind_port full_name_of
behind_port-named [] name h = elim (h refl) [ ]
behind_port-named (c ∷ parent) name h = refl

behind_port-root : (name : Text) → behind_port [] name ≡ full_name_of none name
unfolding behind_port full_name_of
behind_port-root name = refl

from_port-port :
    (p : Step) (above : List Step) → p.is_port ≡ true → build_full_name_from_port p above ≡ []
unfolding build_full_name_from_port
from_port-port p [] h = rw h refl
from_port-port p (q ∷ above) h = rw h refl

-- The name from the port, of an object below a port that has no other port in between and only named
-- objects, is the full name that it would have if the tree began below the port.
pub build_full_name_from_port-below :
    (s p : Step) (below above : List Step)
    → p.is_port ≡ true
    → s.is_port ≡ false
    → All (λ q. (q.is_port ≡ false) × Named q) below
    → build_full_name_from_port s (below ++ p ∷ above) ≡ build_full_name s below
unfolding build_full_name_from_port build_full_name
build_full_name_from_port-below s p [] above hp hs hb =
    rw (hs, from_port-port p above hp) (behind_port-root s.name)
build_full_name_from_port-below s p (q ∷ below) above hp hs hb =
    rw (hs, build_full_name_from_port-below q p below above hp hb.0.0 hb.1)
      (behind_port-named (build_full_name q below) s.name (build_full_name-Named q below hb.0.1))

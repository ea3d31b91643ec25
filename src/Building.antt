-- ===== src/Building.antt =====
-- src/baseImpl.cpp, src/nodeImpl.cpp and src/portImpl.cpp: how a tree of nodes is put together and
-- initialized.
pub mod FullNames
pub mod Parents
use nds.Prelude.{
  ℕ, suc, Bool, true, false, ◌||◌, Option, none, some, List, [], ◌∷◌, ◌++◌, if◌then◌else◌, Text,
  text_eq, text_lt,
}
use nds.Types.{Result, ok, err, logic_error}
use nds.Node.{Tree, Children, object, nil, cons, Base, machine}

abbrev pub base_of : Tree → Base
base_of (object b k cs) = b

abbrev pub is_machine : Tree → Bool
is_machine (object b (machine t s) cs) = true
is_machine (object b k cs) = false

unfoldable pub has_child : Text → Children → Bool
has_child name nil = false
has_child name (cons t cs) = text_eq (base_of t).name name || has_child name cs

-- `m_children[name] = pChild` for a name that is not there.
unfoldable pub insert_child : Tree → Children → Children
insert_child t nil = cons t nil
insert_child t (cons u cs) =
    if text_lt (base_of t).name (base_of u).name
    then cons t (cons u cs)
    else cons u (insert_child t cs)

-- "switchOn", "switchOff", "start" and "stop"
abbrev pub machine_commands : List Text
machine_commands =
    (115 ∷ 119 ∷ 105 ∷ 116 ∷ 99 ∷ 104 ∷ 79 ∷ 110 ∷ [])
    ∷ (115 ∷ 119 ∷ 105 ∷ 116 ∷ 99 ∷ 104 ∷ 79 ∷ 102 ∷ 102 ∷ [])
    ∷ (115 ∷ 116 ∷ 97 ∷ 114 ∷ 116 ∷ [])
    ∷ (115 ∷ 116 ∷ 111 ∷ 112 ∷ [])
    ∷ []

-- addChild of a node with the given members.
unfoldable pub add_child : Base → Children → Tree → Result (Base × Children)
add_child b cs t =
    if has_child (base_of t).name cs
    then err logic_error
    else ok (
      (if is_machine t then record b { commands = b.commands ++ machine_commands } else b),
      insert_child t cs,
    )

-- "-"
abbrev pub dash : Text
dash = 45 ∷ []

-- buildFullName, from that of the parent, where there is one.
unfoldable pub full_name_of : Option Text → Text → Text
full_name_of none name = name
full_name_of (some parent) name = parent ++ dash ++ name

-- BaseImpl::setParent
unfoldable pub set_parent : ℕ → Base → Result Base
set_parent parent_level b =
    if b.has_parent
    then err logic_error
    else ok (record b { node_level = suc parent_level; has_parent = true })

-- The first loop of NodeImpl::initialize; the children before one that has a parent keep theirs.
unfoldable pub set_parents : ℕ → Children → Children × Result Unit
set_parents level nil = (nil, ok tt)
set_parents level (cons (object b k cs') cs) = elim (set_parent level b) [
  | err e ↦ (cons (object b k cs') cs, err e)
  | ok b' ↦ let (rest, answer) = set_parents level cs in (cons (object b' k cs') rest, answer)
]

-- An object of the tree with those above it, the nearest first: their names, and whether each is a
-- port.
pub record Step : Type 0 where
  pub name : Text
  pub is_port : Bool

-- BaseImpl::buildFullName
unfoldable pub build_full_name : Step → List Step → Text
build_full_name s [] = full_name_of none s.name
build_full_name s (parent ∷ above) = full_name_of (some (build_full_name parent above)) s.name

-- What BaseImpl::buildFullNameFromPort makes of the parent's name.
unfoldable pub behind_port : Text → Text → Text
behind_port [] name = name
behind_port (c ∷ parent) name = c ∷ parent ++ dash ++ name

-- buildFullNameFromPort of BaseImpl, and of PortImpl, which overrides it.
unfoldable pub build_full_name_from_port : Step → List Step → Text
build_full_name_from_port s [] = if s.is_port then [] else s.name
build_full_name_from_port s (parent ∷ above) =
    let parent_name = build_full_name_from_port parent above in
    if s.is_port then [] else behind_port parent_name s.name

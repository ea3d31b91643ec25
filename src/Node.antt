-- ===== src/Node.antt =====
-- src/nodeImpl.cpp and src/baseImpl.cpp: the tree of nodes, its global states and its log levels.
pub mod Readings
pub mod Subtree
pub mod GlobalState
use nds.Prelude.{ℕ, Bool, Option, none, some, List, leb, Text}
use nds.StateMachine.{newer}
use nds.Types.{State, unknown, Timespec, LogLevel, level_value, NodeType, PvClass}

-- What an object of the tree is: a PV and its address, a state machine with the timestamp and value
-- of its local state, or another node, which may be a port, with the name for which its interface to
-- the control system was made, where it has one.
pub data Kind : Type 0 where
  pv : PvClass → ℕ → Kind
  machine : Timespec → State → Kind
  plain : NodeType → Kind
  port : NodeType → Option Text → Kind

-- The members of BaseImpl; a text is the list of its bytes. `has_parent` is whether `m_pParent` is
-- set, `commands` are the names of the commands in the order of their definition.
pub record Base : Type 0 where
  pub name : Text
  pub has_parent : Bool
  pub node_level : ℕ
  pub log_level : LogLevel
  pub external_name : Text
  pub full_name : Text
  pub full_name_from_port : Text
  pub full_external_name : Text
  pub full_external_name_from_port : Text
  pub commands : List Text

-- The children stand in the order of the map `m_children`, that is by name.
mutual
  pub data Tree : Type 0 where
    object : Base → Kind → Children → Tree

  pub data Children : Type 0 where
    nil : Children
    cons : Tree → Children → Children

-- `m_pStateMachine`: the child that is a state machine.
unfoldable pub find_machine : Children → Option (Timespec × State)
find_machine nil = none
find_machine (cons (object b (machine t s) cs') cs) = some (t, s)
find_machine (cons (object b _ cs') cs) = find_machine cs

-- What one child adds to the state found so far: PVs and the node's own state machine are passed over.
abbrev pub offer : Kind → Timespec × State → Timespec × State → Timespec × State
offer (pv c a) s found = found
offer (machine t s') s found = found
offer _ s found = newer found s

-- The local state of a node.
unfoldable pub get_local_state : Children → State
unfolding find_machine
get_local_state cs = elim (find_machine cs) [ none ↦ unknown | some (t, s) ↦ s ]

-- The children's state with that of the node's state machine, where there is one.
unfoldable pub with_own : Option (Timespec × State) → Timespec × State → Timespec × State
with_own none below = below
with_own (some own) below = newer own below

-- `uninit` is what the timestamp variables hold before the first write.
unfoldable mutual
  pub get_global_state : Timespec → Tree → Timespec × State
  get_global_state uninit (object b k cs) =
      let below = get_children_state uninit cs (uninit, unknown) in with_own (find_machine cs) below

  -- The loop of getChildrenState, from the state found so far.
  pub get_children_state : Timespec → Children → Timespec × State → Timespec × State
  get_children_state uninit nil found = found
  get_children_state uninit (cons (object b k cs') cs) found =
      get_children_state uninit cs (offer k (get_global_state uninit (object b k cs')) found)

unfoldable pub is_log_level_enabled : Base → LogLevel → Bool
is_log_level_enabled b l = leb (level_value b.log_level) (level_value l)

unfoldable mutual
  pub set_log_level : LogLevel → Tree → Tree
  set_log_level l (object b (pv c a) cs) = object (record b { log_level = l }) (pv c a) cs
  set_log_level l (object b k cs) = object (record b { log_level = l }) k (set_log_levels l cs)

  pub set_log_levels : LogLevel → Children → Children
  set_log_levels l nil = nil
  set_log_levels l (cons t cs) = cons (set_log_level l t) (set_log_levels l cs)

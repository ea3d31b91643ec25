-- ===== src/Initialize.antt =====
-- The initialization of a tree: initializeRootNode and initialize of src/nodeImpl.cpp, with the
-- overrides of src/portImpl.cpp and src/stateMachineImpl.cpp.
pub mod Plan
pub mod Runs
pub mod Keeps
pub mod Found
pub mod Again
pub mod Fresh
pub mod Lawful
use nds.Prelude.{ℕ, suc, true, none, some, List, [], ◌∷◌, if◌then◌else◌, Text}
use nds.Types.{Result, ok, err, logic_error, off}
use nds.Node.{Tree, Children, object, nil, cons, Base, Kind, machine, pv}
use nds.Building.{base_of, set_parents}
use nds.Devices.{hold_node}
use nds.World.{
  Call, new_interface, registration_terminated, push_state, World, Ending, done, failed, stopped,
  Context, Above, full_name_below, called, base_initialize, pv_initialize,
}

-- A port makes its interface where it has none.
abbrev pub opened : Text → Kind → Kind
opened full (Kind.port t none) = Kind.port t (some full)
opened full k = k

abbrev pub opening : Text → Kind → List Call
opening full (Kind.port t none) = new_interface full ∷ []
opening full k = []

-- What the overrides of a state machine and of a port do after NodeImpl::initialize.
abbrev pub closed : Context → Kind → Kind
closed ctx (machine t s) = machine ctx.now off
closed ctx k = k

abbrev pub closing : Context → Text → Kind → List Call
closing ctx full (machine t s) = push_state full ctx.now off ∷ []
closing ctx full (Kind.port t (some i)) = registration_terminated i ∷ []
closing ctx full k = []

-- What setParent makes of a child that has no parent.
abbrev pub adopted : ℕ → Base → Base
adopted level b = record b { node_level = suc level; has_parent = true }

unfoldable pub adopt_all : ℕ → Children → Children
adopt_all level nil = nil
adopt_all level (cons (object b k cs') cs) =
    cons (object (adopted level b) k cs') (adopt_all level cs)

unfoldable pub close_node :
    Context → Base → Kind → Children × World × Ending → Tree × World × Ending
close_node ctx b k (cs, w, done) =
    (object b (closed ctx k) cs, called (closing ctx b.full_name k) w, done)
close_node ctx b k (cs, w, failed e) = (object b k cs, w, failed e)
close_node ctx b k (cs, w, stopped) = (object b k cs, w, stopped)

-- NodeImpl::initialize after BaseImpl::initialize: `marked` and the answer are those of the loop that
-- sets the parents, and `rest` is what the loop that initializes the children would leave.
unfoldable pub node_initialize :
    Context
    → Kind
    → Children
    → Base × World × Ending
    → Children × Result Unit
    → Children × World × Ending
    → Tree × World × Ending
node_initialize ctx k cs (b, w, failed e) marked rest = (object b k cs, w, failed e)
node_initialize ctx k cs (b, w, stopped) marked rest = (object b k cs, w, stopped)
node_initialize ctx k cs (b, w, done) (marked, err e) rest = (object b k marked, w, failed e)
node_initialize ctx k cs (b, w, done) (marked, ok u) rest = close_node ctx b k rest

unfoldable pub next_child :
    ℕ → Tree → Children → World → Ending → Children × World × Ending → Children × World × Ending
next_child level t cs w done (rest, w', end) = (cons t rest, w', end)
next_child level t cs w (failed e) rest = (cons t (adopt_all level cs), w, failed e)
next_child level t cs w stopped rest = (cons t (adopt_all level cs), w, stopped)

-- `place` is what setParent did to the object; the children are visited with it, after setParent has
-- gone through all of them.
unfoldable mutual
  pub init_object : Context → List Above → (Base → Base) → Tree → World → Tree × World × Ending
  init_object ctx above place (object b (pv c a) cs) w =
      let (b', w', end) = pv_initialize ctx above (place b) c a w in
      (object b' (pv c a) cs, w', end)
  init_object ctx above place (object b k cs) w =
      let full = full_name_below (place b) k above in
      let named = base_initialize ctx above (place b) (opened full k) (called (opening full k) w) in
      node_initialize ctx (opened full k) cs named (set_parents named.0.node_level cs) (
        init_children ctx (record { base = named.0; kind = opened full k } ∷ above)
          named.0.node_level cs named.1)

  pub init_children : Context → List Above → ℕ → Children → World → Children × World × Ending
  init_children ctx above level nil w = (nil, w, done)
  init_children ctx above level (cons t cs) w =
      let (t', w', end) = init_object ctx above (adopted level) t w in
      next_child level t' cs w' end (init_children ctx above level cs w')

-- The end of initializeRootNode.
unfoldable pub hold_root : ℕ → ℕ → Tree × World × Ending → Tree × World × Ending
hold_root device root (t, w, done) =
    (t, record w { devices = hold_node device root w.devices }, done)
hold_root device root (t, w, failed e) = (t, w, failed e)
hold_root device root (t, w, stopped) = (t, w, stopped)

unfoldable pub initialize_root_node : Context → ℕ → ℕ → Tree → World → Tree × World × Ending
initialize_root_node ctx device root t w =
    if (base_of t).has_parent
    then (t, w, failed logic_error)
    else hold_root device root (init_object ctx [] (λ b. b) t w)

-- ===== src/Initialize/Plan.antt =====
-- The initialization of a tree as one sequence of actions, which the state of the control system and
-- of the registry does not shape.
use nds.Prelude.{ℕ, Option, none, some, List, [], ◌∷◌, ◌++◌, map, Text}
use nds.Types.{Result, ok, err, PvClass}
use nds.Node.{Tree, Children, object, nil, cons, Base, Kind, pv}
use nds.Building.{set_parents}
use nds.World.{
  Call, register_command, register_pv, World, Ending, done, failed, stopped, Context, Above,
  full_name_below, called, get_port, and_then, set_memory_name, registered, register_class,
  name_object,
}
use nds.Initialize.{opened, opening, closing, adopted}

-- One action on the world; `halt` is an end that the tree by itself leads to.
pub data Action : Type 0 where
  calls : List Call → Action
  set_name : PvClass → ℕ → Text → Action
  enroll : PvClass → ℕ → Text → Action
  halt : Ending → Action

unfoldable pub act : Action → World → World × Ending
act (calls cs) w = (called cs w, done)
act (set_name c a n) w = (record w { registry = set_memory_name c a n w.registry }, done)
act (enroll c a n) w =
    registered (record w { registry = set_memory_name c a n w.registry })
      (register_class c a (set_memory_name c a n w.registry))
act (halt end) w = (w, end)

-- The actions in order, up to the first that does not end well.
unfoldable pub run : List Action → World → World × Ending
run [] w = (w, done)
run (x ∷ xs) w = let now = act x w in let rest = run xs now.0 in and_then now rest

abbrev pub commands_of : Base → Action
commands_of b = calls (map (register_command b.full_name) b.commands)

abbrev pub enroll_at : Option Text → PvClass → ℕ → Text → List Action
enroll_at none c a n = set_name c a n ∷ halt stopped ∷ []
enroll_at (some i) c a n = calls (register_pv i a ∷ []) ∷ enroll c a n ∷ []

-- What there is to do for a PV that has these names.
abbrev pub plan_pv : List Above → PvClass → ℕ → Base × Ending → List Action
plan_pv above c a (b, done) = commands_of b ∷ enroll_at (get_port above) c a b.full_name
plan_pv above c a (b, failed e) = set_name c a b.full_name ∷ halt (failed e) ∷ []
plan_pv above c a (b, stopped) = set_name c a b.full_name ∷ halt stopped ∷ []

abbrev pub plan_children_of : Context → Kind → Base → Result Unit → List Action → List Action
plan_children_of ctx k b (err e) below = halt (failed e) ∷ []
plan_children_of ctx k b (ok u) below = below ++ calls (closing ctx b.full_name k) ∷ []

-- What there is to do for a node that has these names; `below` is what there is for its children.
abbrev pub plan_node : Context → Kind → Base × Ending → Result Unit → List Action → List Action
plan_node ctx k (b, done) marked below = commands_of b ∷ plan_children_of ctx k b marked below
plan_node ctx k (b, failed e) marked below = halt (failed e) ∷ []
plan_node ctx k (b, stopped) marked below = halt stopped ∷ []

unfoldable mutual
  pub plan_object : Context → List Above → (Base → Base) → Tree → List Action
  plan_object ctx above place (object b (pv c a) cs) =
      plan_pv above c a (name_object ctx above (place b) (pv c a))
  plan_object ctx above place (object b k cs) =
      let full = full_name_below (place b) k above in
      let named = name_object ctx above (place b) (opened full k) in
      calls (opening full k)
      ∷ plan_node ctx (opened full k) named (set_parents named.0.node_level cs).1 (
          plan_children ctx (record { base = named.0; kind = opened full k } ∷ above)
            named.0.node_level cs)

  pub plan_children : Context → List Above → ℕ → Children → List Action
  plan_children ctx above level nil = []
  plan_children ctx above level (cons t cs) =
      plan_object ctx above (adopted level) t ++ plan_children ctx above level cs

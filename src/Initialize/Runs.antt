-- ===== src/Initialize/Runs.antt =====
-- The initialization of a tree against its plan.
use nds.Prelude.{
  ℕ, ◌≡◌, refl, sym, ap, ◌∙◌, inl, inr, Option, none, some, List, [], ◌∷◌, ◌++◌, if◌then◌else◌,
  Bool-cases, Text,
}
use nds.Types.{Result, ok, err, PvClass, logic_error}
use nds.Devices.{hold_node}
use nds.Node.{Tree, Children, object, nil, cons, Base, Kind, pv, machine, plain}
use nds.Building.{set_parents, base_of}
use nds.World.{
  World, Ending, done, failed, stopped, Context, Above, full_name_below, called, base_initialize,
  get_port, pv_initialize, and_then, set_memory_name, register_at, after_naming, register_commands,
  commands_registered, name_object,
}
use nds.Initialize.{
  opened, opening, closing, adopted, close_node, node_initialize, next_child, init_object,
  init_children, initialize_root_node, hold_root,
}
use nds.Initialize.Plan.{
  Action, enroll_at, run, act, plan_pv, plan_node, plan_object, plan_children,
}

abbrev pub outcome : {A : Type 0} → A × World × Ending → World × Ending
outcome (a, w, end) = (w, end)

and_then-done : (x : World × Ending) → and_then x (x.0, done) ≡ x
and_then-done (w, done) = refl
and_then-done (w, failed e) = refl
and_then-done (w, stopped) = refl

and_then_assoc : (x y z : World × Ending) → and_then (and_then x y) z ≡ and_then x (and_then y z)
and_then_assoc (w, done) y z = refl
and_then_assoc (w, failed e) y z = refl
and_then_assoc (w, stopped) y z = refl

-- What comes after the one action and after those that follow it.
run-step :
    (x : World × Ending) (f : World → World × Ending) (xs ys : List Action)
    → run (xs ++ ys) x.0 ≡ and_then (run xs x.0) (run ys (run xs x.0).0)
    → and_then x (run (xs ++ ys) x.0)
      ≡ and_then (and_then x (run xs x.0)) (run ys (and_then x (run xs x.0)).0)
run-step (w, done) f xs ys h = h
run-step (w, failed e) f xs ys h = refl
run-step (w, stopped) f xs ys h = refl

pub run-append :
    (xs ys : List Action) (w : World) → run (xs ++ ys) w ≡ and_then (run xs w) (run ys (run xs w).0)
unfolding run
run-append [] ys w = refl
run-append (x ∷ xs) ys w = run-step (act x w) (run ys) xs ys (run-append xs ys (act x w).0)

enroll_at-runs :
    (port : Option Text) (c : PvClass) (a : ℕ) (n : Text) (w : World)
    → register_at port c a (record w { registry = set_memory_name c a n w.registry })
      ≡ run (enroll_at port c a n) w
unfolding register_at run act called
enroll_at-runs none c a n w = refl
enroll_at-runs (some i) c a n w = sym (and_then-done _)

-- A PV, from its names.
pv-runs :
    (above : List Above) (c : PvClass) (a : ℕ) (named : Base × Ending) (w : World)
    → outcome (after_naming above c a (commands_registered named w))
      ≡ run (plan_pv above c a named) w
unfolding after_naming commands_registered register_commands run act
pv-runs above c a (b, done) w = enroll_at-runs (get_port above) c a b.full_name _
pv-runs above c a (b, failed e) w = refl
pv-runs above c a (b, stopped) w = refl

close-runs :
    (ctx : Context) (b : Base) (k : Kind) (rest : Children × World × Ending)
    → outcome (close_node ctx b k rest)
      ≡ and_then (outcome rest) (called (closing ctx b.full_name k) rest.1, done)
unfolding close_node
close-runs ctx b k (cs, w, done) = refl
close-runs ctx b k (cs, w, failed e) = refl
close-runs ctx b k (cs, w, stopped) = refl

-- A node, from its names and what there is to do for its children.
node-runs :
    (ctx : Context) (k : Kind) (cs : Children) (named : Base × Ending)
    (marked : Children × Result Unit) (rest : Children × World × Ending) (below : List Action)
    (w : World)
    → (outcome rest ≡ run below (commands_registered named w).1)
    → outcome (node_initialize ctx k cs (commands_registered named w) marked rest)
      ≡ run (plan_node ctx k named marked.1 below) w
unfolding node_initialize commands_registered register_commands run act
node-runs ctx k cs (b, failed e) marked rest below w h = refl
node-runs ctx k cs (b, stopped) marked rest below w h = refl
node-runs ctx k cs (b, done) (cs', err e) rest below w h = refl
node-runs ctx k cs (b, done) (cs', ok u) rest below w h =
    close-runs ctx b k rest
    ∙ ap (λ x. and_then x (called (closing ctx b.full_name k) x.0, done)) h
    ∙ sym (run-append below _ _)

next-runs :
    (level : ℕ) (cs : Children) (now : Tree × World × Ending) (rest : Children × World × Ending)
    → outcome (next_child level now.0 cs now.1 now.2 rest) ≡ and_then (outcome now) (outcome rest)
unfolding next_child
next-runs level cs (t, w, done) (cs', w', end) = refl
next-runs level cs (t, w, failed e) rest = refl
next-runs level cs (t, w, stopped) rest = refl

-- The same, for the children that `init_children` and `plan_children` visit.
node_at :
    (ctx : Context) (above : List Above) (k : Kind) (cs : Children) (named : Base × Ending)
    (w : World)
    → ((above' : List Above)
        → (level : ℕ) → (w' : World)
        → outcome (init_children ctx above' level cs w')
          ≡ run (plan_children ctx above' level cs) w')
    → outcome (
        node_initialize ctx k cs (commands_registered named w) (set_parents named.0.node_level cs) (
          init_children ctx
            (record { base = named.0; kind = k } ∷ above)
            named.0.node_level
            cs
            (commands_registered named w).1))
      ≡ run
          (plan_node ctx k named
            (set_parents named.0.node_level cs).1
            (plan_children ctx (record { base = named.0; kind = k } ∷ above) named.0.node_level cs))
          w
node_at ctx above k cs named w h =
    node-runs ctx k cs named (set_parents named.0.node_level cs) _ _ w (h _ _ _)

mutual
  unfolding init_object init_children plan_object plan_children pv_initialize base_initialize
      commands_registered run act

  pub init_object-runs :
      (ctx : Context) (above : List Above) (place : Base → Base) (t : Tree) (w : World)
      → outcome (init_object ctx above place t w) ≡ run (plan_object ctx above place t) w
  init_object-runs ctx above place (object b (pv c a) cs) w =
      pv-runs above c a (name_object ctx above (place b) (pv c a)) w
  init_object-runs ctx above place (object b (machine t s) cs) w =
      node_at ctx above (machine t s) cs (name_object ctx above (place b) (machine t s))
        (called [] w) (λ above' level w'. init_children-runs ctx above' level cs w')
  init_object-runs ctx above place (object b (plain t) cs) w =
      node_at ctx above (plain t) cs (name_object ctx above (place b) (plain t)) (called [] w)
        (λ above' level w'. init_children-runs ctx above' level cs w')
  init_object-runs ctx above place (object b (Kind.port t i) cs) w =
      let k = opened (full_name_below (place b) (Kind.port t i) above) (Kind.port t i) in
      node_at ctx above k cs (name_object ctx above (place b) k)
        (called (opening (full_name_below (place b) (Kind.port t i) above) (Kind.port t i)) w)
        (λ above' level w'. init_children-runs ctx above' level cs w')

  pub init_children-runs :
      (ctx : Context) (above : List Above) (level : ℕ) (cs : Children) (w : World)
      → outcome (init_children ctx above level cs w) ≡ run (plan_children ctx above level cs) w
  init_children-runs ctx above level nil w = refl
  init_children-runs ctx above level (cons t cs) w =
      let now = init_object ctx above (adopted level) t w in
      next-runs level cs now (init_children ctx above level cs now.1)
      ∙ ap (λ x. and_then (outcome now) x) (init_children-runs ctx above level cs now.1)
      ∙ ap (λ x. and_then x (run (plan_children ctx above level cs) x.0))
          (init_object-runs ctx above (adopted level) t w)
      ∙ sym (run-append (plan_object ctx above (adopted level) t) _ w)

-- What holdNode adds after an initialization that ended well.
abbrev pub held : ℕ → ℕ → World × Ending → World × Ending
held device root (w, done) = (record w { devices = hold_node device root w.devices }, done)
held device root (w, failed e) = (w, failed e)
held device root (w, stopped) = (w, stopped)

hold_root-held :
    (device root : ℕ) (r : Tree × World × Ending)
    → outcome (hold_root device root r) ≡ held device root (outcome r)
unfolding hold_root
hold_root-held device root (t, w, done) = refl
hold_root-held device root (t, w, failed e) = refl
hold_root-held device root (t, w, stopped) = refl

-- initializeRootNode of a node with a parent changes nothing and fails with a logic error; of any
-- other it does to the control system and to the registry what the plan of its tree says, in order
-- and up to the first action that fails, ends as that does, and where all went well holds the node.
pub initialize_root_node-runs :
    (ctx : Context) (device root : ℕ) (t : Tree) (w : World)
    → outcome (initialize_root_node ctx device root t w) ≡ (
        if (base_of t).has_parent
        then (w, failed logic_error)
        else held device root (run (plan_object ctx [] (λ b. b) t) w))
unfolding initialize_root_node
initialize_root_node-runs ctx device root t w = elim (Bool-cases (base_of t).has_parent) [
  | inl e ↦ rw (initialize_root_node, e)
  | inr e ↦
      rw (initialize_root_node, e)
        (hold_root-held device root _
          ∙ ap (held device root) (init_object-runs ctx [] (λ b. b) t w))
]

-- ===== src/Initialize/Found.antt =====
-- The PVs of a tree, and what the registry finds after its initialization.
use nds.Prelude.{
  ℕ, ◌≡◌, refl, sym, subst, inl, inr, Option, none, some, List, [], ◌∷◌, ◌++◌, arith, Bool-cases,
  All, All-append, All-map, Text,
}
use nds.Types.{Result, NodeType, ok, err, PvClass, logic_error}
use nds.Node.{Tree, Children, object, nil, cons, Base, Kind, pv, machine, plain}
use nds.Building.{base_of, base_of}
use nds.World.{
  World, Ending, done, failed, stopped, Context, Above, full_name_below, called, base_initialize,
  get_port, pv_initialize, set_memory_name, registered, register_at, after_naming,
  register_commands, commands_registered, name_object,
}
use nds.Initialize.{
  opened, closed, adopted, close_node, node_initialize, next_child, init_object, init_children,
  initialize_root_node, hold_root,
}
use nds.Initialize.Plan.{plan_object}
use nds.Initialize.Runs.{init_object-runs}
use nds.Registry.{Registry}
use nds.Initialize.Keeps.{found, Keeps, register_class-found, run-Keeps, init_children-Keeps}

abbrev pub Entry : Type 0
Entry = PvClass × ℕ × Text

-- What an object has of PVs: itself, or those below it.
abbrev pub listed : Base → Kind → List Entry → List Entry
listed b (pv c a) below = (c, a, b.full_name) ∷ []
listed b _ below = below

-- The PVs of a tree, with the class, the address and the full name of each.
unfoldable mutual
  pub pvs_of : Tree → List Entry
  pvs_of (object b k cs) = listed b k (pvs_of_children cs)

  pub pvs_of_children : Children → List Entry
  pvs_of_children nil = []
  pvs_of_children (cons t cs) = pvs_of t ++ pvs_of_children cs

abbrev pub IsFound : Registry → Entry → Type 0
IsFound r (c, a, n) = found c n r ≡ some a

-- The same, of a result: where it ended well, all that its object has is found.
abbrev Finds : {A : Type 0} → (A → List Entry) → A × World × Ending → Type 0
Finds pvs (a, w, end) = end ≡ done → All (IsFound w.registry) (pvs a)

registered-found :
    (c : PvClass) (a : ℕ) (n : Text) (w : World) (answer : Result Registry)
    → ((s : Registry) → answer ≡ ok s → found c n s ≡ some a)
    → (registered w answer).1 ≡ done
    → found c n (registered w answer).0.registry ≡ some a
unfolding registered
registered-found c a n w (ok s) h k = h s refl
registered-found c a n w (err e) h k = absurd (ground arith)

register_at-found :
    (port : Option Text) (c : PvClass) (a : ℕ) (n : Text) (w : World)
    → (register_at port c a (record w { registry = set_memory_name c a n w.registry })).1 ≡ done
    → found c n
        (register_at port c a (record w { registry = set_memory_name c a n w.registry })).0.registry
      ≡ some a
unfolding register_at called
register_at-found none c a n w h = absurd (ground arith)
register_at-found (some i) c a n w h =
    registered-found c a n _ _ (register_class-found c a n w.registry) h

pv-Finds :
    (above : List Above) (c : PvClass) (a : ℕ) (named : Base × Ending) (w : World)
    → (after_naming above c a (commands_registered named w)).2 ≡ done
    → found c
        (after_naming above c a (commands_registered named w)).0.full_name
        (after_naming above c a (commands_registered named w)).1.registry
      ≡ some a
unfolding after_naming commands_registered register_commands
pv-Finds above c a (b, done) w h = register_at-found (get_port above) c a b.full_name _ h
pv-Finds above c a (b, failed e) w h = absurd (ground arith)
pv-Finds above c a (b, stopped) w h = absurd (ground arith)

-- A kind of object that is no PV.
abbrev pub IsNode : Kind → Type 0
IsNode k = (b : Base) → (below : List Entry) → listed b k below ≡ below

close-Finds :
    (ctx : Context) (b : Base) (k : Kind) (rest : Children × World × Ending)
    → IsNode (closed ctx k)
    → Finds pvs_of_children rest
    → Finds pvs_of (close_node ctx b k rest)
unfolding close_node called pvs_of
close-Finds ctx b k (cs, w, done) n h e = subst (All (IsFound w.registry)) (sym (n b _)) (h refl)
close-Finds ctx b k (cs, w, failed x) n h e = absurd (ground arith)
close-Finds ctx b k (cs, w, stopped) n h e = absurd (ground arith)

node-Finds :
    (ctx : Context) (k : Kind) (cs : Children) (named : Base × World × Ending)
    (marked : Children × Result Unit) (rest : Children × World × Ending)
    → IsNode (closed ctx k)
    → Finds pvs_of_children rest
    → Finds pvs_of (node_initialize ctx k cs named marked rest)
unfolding node_initialize
node-Finds ctx k cs (b, w, done) (cs', ok u) rest n h = close-Finds ctx b k rest n h
node-Finds ctx k cs (b, w, done) (cs', err e) rest n h = λ d. absurd (ground arith)
node-Finds ctx k cs (b, w, failed e) marked rest n h = λ d. absurd (ground arith)
node-Finds ctx k cs (b, w, stopped) marked rest n h = λ d. absurd (ground arith)

next-Finds :
    (level : ℕ) (cs : Children) (now : Tree × World × Ending) (rest : Children × World × Ending)
    → Finds pvs_of now
    → Keeps now.1.registry rest.1.registry
    → Finds pvs_of_children rest
    → Finds pvs_of_children (next_child level now.0 cs now.1 now.2 rest)
unfolding next_child pvs_of_children
next-Finds level cs (t, w, done) (cs', w', end) h k r e =
    All-append (IsFound w'.registry) (pvs_of t) (pvs_of_children cs')
      (All-map (λ x. k x.0 x.1 x.2) (pvs_of t) (h refl)) (r e)
next-Finds level cs (t, w, failed x) rest h k r e = absurd (ground arith)
next-Finds level cs (t, w, stopped) rest h k r e = absurd (ground arith)

pub opened-IsNode :
    (ctx : Context) (full : Text) (t : NodeType) (i : Option Text)
    → IsNode (closed ctx (opened full (Kind.port t i)))
opened-IsNode ctx full t none b below = refl
opened-IsNode ctx full t (some i) b below = refl

mutual
  unfolding init_object init_children pv_initialize base_initialize pvs_of pvs_of_children

  init_object-Finds :
      (ctx : Context) (above : List Above) (place : Base → Base) (t : Tree) (w : World)
      → Finds pvs_of (init_object ctx above place t w)
  init_object-Finds ctx above place (object b (pv c a) cs) w =
      λ h. (pv-Finds above c a (name_object ctx above (place b) (pv c a)) w h, tt)
  init_object-Finds ctx above place (object b (machine t s) cs) w =
      node-Finds ctx (machine t s) cs _ _ _ (λ b' below. refl) (init_children-Finds ctx _ _ cs _)
  init_object-Finds ctx above place (object b (plain t) cs) w =
      node-Finds ctx (plain t) cs _ _ _ (λ b' below. refl) (init_children-Finds ctx _ _ cs _)
  init_object-Finds ctx above place (object b (Kind.port t i) cs) w =
      let full = full_name_below (place b) (Kind.port t i) above in
      node-Finds ctx (opened full (Kind.port t i)) cs _ _ _ (opened-IsNode ctx full t i)
        (init_children-Finds ctx _ _ cs _)

  init_children-Finds :
      (ctx : Context) (above : List Above) (level : ℕ) (cs : Children) (w : World)
      → Finds pvs_of_children (init_children ctx above level cs w)
  init_children-Finds ctx above level nil w = λ h. tt
  init_children-Finds ctx above level (cons t cs) w =
      let now = init_object ctx above (adopted level) t w in
      next-Finds level cs now (init_children ctx above level cs now.1)
        (init_object-Finds ctx above (adopted level) t w)
        (init_children-Keeps ctx above level cs now.1)
        (init_children-Finds ctx above level cs now.1)

init_object-Keeps :
    (ctx : Context) (above : List Above) (place : Base → Base) (t : Tree) (w : World)
    → Keeps w.registry (init_object ctx above place t w).1.registry
init_object-Keeps ctx above place t w =
    subst (λ x. Keeps w.registry x.0.registry) (sym (init_object-runs ctx above place t w))
      (run-Keeps (plan_object ctx above place t) w)

hold-Finds :
    (device root : ℕ) (r : Tree × World × Ending)
    → Finds pvs_of r
    → Finds pvs_of (hold_root device root r)
unfolding hold_root
hold-Finds device root (t, w, done) h = h
hold-Finds device root (t, w, failed e) h = λ d. absurd (ground arith)
hold-Finds device root (t, w, stopped) h = λ d. absurd (ground arith)

hold-Keeps :
    (device root : ℕ) (s : Registry) (r : Tree × World × Ending)
    → Keeps s r.1.registry
    → Keeps s (hold_root device root r).1.registry
unfolding hold_root
hold-Keeps device root s (t, w, done) h = h
hold-Keeps device root s (t, w, failed e) h = h
hold-Keeps device root s (t, w, stopped) h = h

-- Where initializeRootNode ends well, the registry finds each PV of the tree under the full name that
-- the PV has then, and finds under each name registered before the PV that it found before.
pub initialize_root_node-IsFound :
    (ctx : Context) (device root : ℕ) (t : Tree) (w : World)
    → (initialize_root_node ctx device root t w).2 ≡ done
    → All
        (IsFound (initialize_root_node ctx device root t w).1.registry)
        (pvs_of (initialize_root_node ctx device root t w).0)
      × Keeps w.registry (initialize_root_node ctx device root t w).1.registry
unfolding initialize_root_node
initialize_root_node-IsFound ctx device root t w h = elim (Bool-cases (base_of t).has_parent) [
  | inl e ↦
      let refused : failed logic_error ≡ done = rw (initialize_root_node, e) at h in
      absurd (ground arith)
  | inr e ↦
      let made = init_object ctx [] (λ b. b) t w in
      let eq : hold_root device root made ≡ initialize_root_node ctx device root t w =
        rw (initialize_root_node, e) in
      (
        subst (Finds pvs_of) eq (hold-Finds device root made (init_object-Finds ctx [] _ t w)) h,
        subst (λ r. Keeps w.registry r.1.registry) eq
            (hold-Keeps device root w.registry made (init_object-Keeps ctx [] _ t w)),
      )
]

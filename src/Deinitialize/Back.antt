-- ===== src/Deinitialize/Back.antt =====
-- The initialization of a tree, and its deinitialization after that.
use nds.Prelude.{
  ℕ, ◌≡◌, refl, ap, subst, ◌∙◌, inl, inr, false, List, [], arith, Bool-cases, All, Text,
}
use nds.Types.{Result, ok, err, logic_error, PvClass}
use nds.Node.{Tree, Children, object, Base, Kind, pv, machine, plain}
use nds.Building.{base_of}
use nds.World.{
  World, Ending, done, failed, stopped, Context, Above, after_naming, commands_registered,
  register_commands, name_object, set_names, pv_initialize, base_initialize,
}
use nds.Initialize.{close_node, node_initialize, init_object, initialize_root_node, hold_root}
use nds.Devices.{hold_node}
use nds.Naming.{Built, built, refused, undefined}
use nds.Registry.{Registry}
use nds.Deinitialize.Named.{Distinct, Names}
use nds.Deinitialize.Trees.{init_object-Names}
use nds.Deinitialize.{deinitialize_root_node}
use nds.Initialize.Found.{pvs_of}
use nds.Deinitialize.Gone.{IsGone, deinitialize_root_node-IsGone}
use nds.Deinitialize.Ends.{Ends, init_object-Ends}

set_names-has_parent :
    (b : Base) (full from_port : Text) (ext ext_from_port : Built)
    → (set_names b full from_port ext ext_from_port).0.has_parent ≡ b.has_parent
unfolding set_names
set_names-has_parent b full from_port (built x) (built y) = refl
set_names-has_parent b full from_port (built x) (refused e) = refl
set_names-has_parent b full from_port (built x) undefined = refl
set_names-has_parent b full from_port (refused e) y = refl
set_names-has_parent b full from_port undefined y = refl

name_object-has_parent :
    (ctx : Context) (above : List Above) (b : Base) (k : Kind)
    → (name_object ctx above b k).0.has_parent ≡ b.has_parent
unfolding name_object
name_object-has_parent ctx above b k = set_names-has_parent b _ _ _ _

after_naming-base :
    (above : List Above) (c : PvClass) (a : ℕ) (named : Base × Ending) (w : World)
    → (after_naming above c a (commands_registered named w)).0 ≡ named.0
unfolding after_naming commands_registered register_commands
after_naming-base above c a (b, done) w = refl
after_naming-base above c a (b, failed e) w = refl
after_naming-base above c a (b, stopped) w = refl

node_initialize-base :
    (ctx : Context) (k : Kind) (cs : Children) (named : Base × World × Ending)
    (marked : Children × Result Unit) (rest : Children × World × Ending)
    → base_of (node_initialize ctx k cs named marked rest).0 ≡ named.0
unfolding node_initialize close_node
node_initialize-base ctx k cs (b, w, done) (cs', ok u) (x, y, done) = refl
node_initialize-base ctx k cs (b, w, done) (cs', ok u) (x, y, failed e) = refl
node_initialize-base ctx k cs (b, w, done) (cs', ok u) (x, y, stopped) = refl
node_initialize-base ctx k cs (b, w, done) (cs', err e) rest = refl
node_initialize-base ctx k cs (b, w, failed e) marked rest = refl
node_initialize-base ctx k cs (b, w, stopped) marked rest = refl

pub init_object-has_parent :
    (ctx : Context) (above : List Above) (place : Base → Base) (t : Tree) (w : World)
    → (base_of (init_object ctx above place t w).0).has_parent ≡ (place (base_of t)).has_parent
unfolding init_object pv_initialize base_initialize commands_registered
init_object-has_parent ctx above place (object b (pv c a) cs) w =
    ap (λ x. x.has_parent)
      (after_naming-base above c a (name_object ctx above (place b) (pv c a)) w)
    ∙ name_object-has_parent ctx above (place b) (pv c a)
init_object-has_parent ctx above place (object b (machine t s) cs) w =
    ap (λ x. x.has_parent) (node_initialize-base ctx (machine t s) cs _ _ _)
    ∙ name_object-has_parent ctx above (place b) (machine t s)
init_object-has_parent ctx above place (object b (plain t) cs) w =
    ap (λ x. x.has_parent) (node_initialize-base ctx (plain t) cs _ _ _)
    ∙ name_object-has_parent ctx above (place b) (plain t)
init_object-has_parent ctx above place (object b (Kind.port t i) cs) w =
    ap (λ x. x.has_parent) (node_initialize-base ctx _ cs _ _ _)
    ∙ name_object-has_parent ctx above (place b) _

-- What the deinitialization does after an initialization that ended well.
abbrev TurnsBack : Tree × World × Ending → Type 0
TurnsBack (t, w, end) =
    end ≡ done
    → Distinct (pvs_of t)
    → ((deinitialize_root_node t w).1 ≡ done)
      × All (IsGone (deinitialize_root_node t w).0.registry) (pvs_of t)

root-Ends :
    (t : Tree) (w : World)
    → (base_of t).has_parent ≡ false
    → Ends [] t
    → (deinitialize_root_node t w).1 ≡ done
unfolding deinitialize_root_node
root-Ends t w e h = rw (deinitialize_root_node, e) (h w)

hold-TurnsBack :
    (device root : ℕ) (r : Registry) (x : Tree × World × Ending)
    → (base_of x.0).has_parent ≡ false
    → (x.2 ≡ done → Ends [] x.0)
    → Names pvs_of r x
    → TurnsBack (hold_root device root x)
unfolding hold_root
hold-TurnsBack device root r (t, w, done) e h n = λ d distinct.
    let w' : World = record w { devices = hold_node device root w.devices } in
    let ended = root-Ends t w' e (h refl) in
    (ended, (deinitialize_root_node-IsGone t w' ((n refl).1 distinct) ended).0)
hold-TurnsBack device root r (t, w, failed x) e h n = λ d. absurd (ground arith)
hold-TurnsBack device root r (t, w, stopped) e h n = λ d. absurd (ground arith)

-- Where initializeRootNode ends well, and no PV is twice in the tree, deinitializeRootNode of the tree
-- that it left ends well too, and then the registry finds none of the PVs under its full name.
pub deinitialize_root_node-initialize_root_node :
    (ctx : Context) (device root : ℕ) (t : Tree) (w : World)
    → (initialize_root_node ctx device root t w).2 ≡ done
    → Distinct (pvs_of (initialize_root_node ctx device root t w).0)
    → let made = initialize_root_node ctx device root t w in
      let left = deinitialize_root_node made.0 made.1 in
      (left.1 ≡ done) × All (IsGone left.0.registry) (pvs_of made.0)
unfolding initialize_root_node
deinitialize_root_node-initialize_root_node ctx device root t w h =
    elim (Bool-cases (base_of t).has_parent) [
      | inl e ↦
          let refused : failed logic_error ≡ done = rw (initialize_root_node, e) at h in
          absurd (ground arith)
      | inr e ↦
          let made = init_object ctx [] (λ b. b) t w in
          let eq : hold_root device root made ≡ initialize_root_node ctx device root t w =
            rw (initialize_root_node, e) in
          subst TurnsBack eq
            (hold-TurnsBack device root w.registry made
              (init_object-has_parent ctx [] (λ b. b) t w ∙ e)
              (init_object-Ends ctx [] [] (λ b. b) t w refl)
              (init_object-Names ctx [] (λ b. b) t w))
            h
    ]

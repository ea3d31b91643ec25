-- ===== src/Deinitialize/Trees.antt =====
-- The names of the PVs of a tree, in the registry's memory and in the tree.
use nds.Prelude.{
  ℕ, ◌≡◌, refl, sym, subst, ◌∙◌, List, [], ◌∷◌, arith, All, All-append, All-append_left,
  All-append_right,
}
use nds.Types.{Result, ok, err, PvClass}
use nds.Node.{Tree, Children, object, nil, cons, Base, Kind, pv, machine, plain}
use nds.World.{
  World, Ending, done, failed, stopped, Context, Above, commands_registered, register_commands,
  name_object, pv_initialize, base_initialize, full_name_below, called,
}
use nds.Initialize.{
  opened, opening, closed, adopted, close_node, node_initialize, next_child, init_object,
  init_children,
}
use nds.Registry.{Registry}
use nds.Initialize.Found.{Entry, pvs_of, pvs_of_children, IsNode, opened-IsNode}
use nds.Deinitialize.Gone.{IsNamed, name_of}
use nds.Deinitialize.Named.{Apart, Distinct, Distinct-append, Names, pv-Names}

commands_registered-registry :
    (named : Base × Ending) (w : World) → (commands_registered named w).1.registry ≡ w.registry
unfolding commands_registered register_commands called
commands_registered-registry (b, done) w = refl
commands_registered-registry (b, failed e) w = refl
commands_registered-registry (b, stopped) w = refl

close-Names :
    (ctx : Context) (b : Base) (k : Kind) (r : Registry) (rest : Children × World × Ending)
    → IsNode (closed ctx k)
    → Names pvs_of_children r rest
    → Names pvs_of r (close_node ctx b k rest)
unfolding close_node called pvs_of
close-Names ctx b k r (cs, w, done) n h =
    subst
      (λ l.
        done ≡ done
        → ((c : PvClass)
            → (i : ℕ) → All (λ e. Apart c i e) l
            → name_of c i w.registry ≡ name_of c i r)
          × (Distinct l → All (IsNamed w.registry) l))
      (sym (n b _)) h
close-Names ctx b k r (cs, w, failed x) n h = λ e. absurd (ground arith)
close-Names ctx b k r (cs, w, stopped) n h = λ e. absurd (ground arith)

node-Names :
    (ctx : Context) (k : Kind) (cs : Children) (r : Registry) (named : Base × World × Ending)
    (marked : Children × Result Unit) (rest : Children × World × Ending)
    → IsNode (closed ctx k)
    → Names pvs_of_children r rest
    → Names pvs_of r (node_initialize ctx k cs named marked rest)
unfolding node_initialize
node-Names ctx k cs r (b, w, done) (cs', ok u) rest n h = close-Names ctx b k r rest n h
node-Names ctx k cs r (b, w, done) (cs', err e) rest n h = λ d. absurd (ground arith)
node-Names ctx k cs r (b, w, failed e) marked rest n h = λ d. absurd (ground arith)
node-Names ctx k cs r (b, w, stopped) marked rest n h = λ d. absurd (ground arith)

-- The same, from the names that the node has.
named-Names :
    (ctx : Context) (k : Kind) (cs : Children) (named : Base × Ending) (w : World)
    (marked : Children × Result Unit) (rest : Children × World × Ending)
    → IsNode (closed ctx k)
    → Names pvs_of_children (commands_registered named w).1.registry rest
    → Names pvs_of w.registry (node_initialize ctx k cs (commands_registered named w) marked rest)
named-Names ctx k cs named w marked rest n h =
    node-Names ctx k cs w.registry (commands_registered named w) marked rest n
      (subst (λ r. Names pvs_of_children r rest) (commands_registered-registry named w) h)

next-Names :
    (level : ℕ) (cs : Children) (r : Registry) (now : Tree × World × Ending)
    (rest : Children × World × Ending)
    → Names pvs_of r now
    → Names pvs_of_children now.1.registry rest
    → Names pvs_of_children r (next_child level now.0 cs now.1 now.2 rest)
unfolding next_child pvs_of_children
next-Names level cs r (t, w, done) (cs', w', end) h k = λ e. (
  λ c i apart.
      (k e).0 c i (All-append_right (Apart c i) (pvs_of t) (pvs_of_children cs') apart)
      ∙ (h refl).0 c i (All-append_left (Apart c i) (pvs_of t) (pvs_of_children cs') apart),
  λ d.
      let (dx, across, dy) = Distinct-append (pvs_of t) (pvs_of_children cs') d in
      All-append (IsNamed w'.registry) (pvs_of t) (pvs_of_children cs')
        (kept (pvs_of t) across ((h refl).1 dx) (λ c i apart. (k e).0 c i apart)) ((k e).1 dy),
)
  where
    kept :
        (xs : List Entry)
        → All (λ x. All (Apart x.0 x.1) (pvs_of_children cs')) xs
        → All (IsNamed w.registry) xs
        → ((c : PvClass)
            → (i : ℕ) → All (λ e. Apart c i e) (pvs_of_children cs')
            → name_of c i w'.registry ≡ name_of c i w.registry)
        → All (IsNamed w'.registry) xs
    kept [] a n f = tt
    kept ((c, i, m) ∷ xs) a n f = (f c i a.0 ∙ n.0, kept xs a.1 n.1 f)
next-Names level cs r (t, w, failed x) rest h k = λ e. absurd (ground arith)
next-Names level cs r (t, w, stopped) rest h k = λ e. absurd (ground arith)

mutual
  unfolding init_object init_children pv_initialize base_initialize pvs_of pvs_of_children called
      commands_registered

  pub init_object-Names :
      (ctx : Context) (above : List Above) (place : Base → Base) (t : Tree) (w : World)
      → Names pvs_of w.registry (init_object ctx above place t w)
  init_object-Names ctx above place (object b (pv c a) cs) w =
      pv-Names above c a (name_object ctx above (place b) (pv c a)) w
  init_object-Names ctx above place (object b (machine t s) cs) w =
      named-Names ctx (machine t s) cs (name_object ctx above (place b) (machine t s)) (called [] w)
        _ _ (λ b' below. refl) (init_children-Names ctx _ _ cs _)
  init_object-Names ctx above place (object b (plain t) cs) w =
      named-Names ctx (plain t) cs (name_object ctx above (place b) (plain t)) (called [] w) _ _
        (λ b' below. refl) (init_children-Names ctx _ _ cs _)
  init_object-Names ctx above place (object b (Kind.port t i) cs) w =
      let full = full_name_below (place b) (Kind.port t i) above in
      let k = opened full (Kind.port t i) in
      named-Names ctx k cs (name_object ctx above (place b) k)
        (called (opening full (Kind.port t i)) w) _ _ (opened-IsNode ctx full t i)
        (init_children-Names ctx _ _ cs _)

  init_children-Names :
      (ctx : Context) (above : List Above) (level : ℕ) (cs : Children) (w : World)
      → Names pvs_of_children w.registry (init_children ctx above level cs w)
  init_children-Names ctx above level nil w = λ h. (λ c i a. refl, λ d. tt)
  init_children-Names ctx above level (cons t cs) w =
      let now = init_object ctx above (adopted level) t w in
      next-Names level cs w.registry now (init_children ctx above level cs now.1)
        (init_object-Names ctx above (adopted level) t w)
        (init_children-Names ctx above level cs now.1)

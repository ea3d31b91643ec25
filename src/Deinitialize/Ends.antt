-- ===== src/Deinitialize/Ends.antt =====
-- How the deinitialization of a tree that was initialized ends.
use nds.Prelude.{ℕ, ◌≡◌, refl, sym, subst, Option, none, some, List, ◌∷◌, arith, Text}
use nds.Types.{Result, ok, err, PvClass}
use nds.Node.{Tree, Children, object, nil, cons, Base, Kind, pv, machine, plain}
use nds.World.{
  World, Ending, done, failed, stopped, Context, Above, get_port, register_at, after_naming,
  commands_registered, register_commands, name_object, pv_initialize, base_initialize, and_then,
}
use nds.Initialize.{
  closed, adopted, close_node, node_initialize, next_child, init_object, init_children,
}
use nds.Deinitialize.{deregister_at, deinit_object, deinit_children, pv_deinitialize}

-- The deinitialization of an object ends well, whatever the registry holds.
abbrev pub Ends : List Above → Tree → Type 0
Ends above t = (w : World) → (deinit_object above t w).1 ≡ done

abbrev pub EndsAll : List Above → Children → Type 0
EndsAll above cs = (w : World) → (deinit_children above cs w).1 ≡ done

-- A kind of object that leaves the end to its children.
abbrev Passes : List Above → Kind → Type 0
Passes above k =
    (b : Base)
    → (cs : Children) → EndsAll (record { base = b; kind = k } ∷ above) cs
    → Ends above (object b k cs)

at-done :
    (port : Option Text) (c : PvClass) (a : ℕ) (v w : World)
    → (register_at port c a v).1 ≡ done
    → (deregister_at port a w).1 ≡ done
unfolding register_at deregister_at
at-done none c a v w h = absurd (ground arith)
at-done (some i) c a v w h = refl

pv-done :
    (above : List Above) (c : PvClass) (a : ℕ) (named : Base × Ending) (v w : World)
    → (after_naming above c a (commands_registered named v)).2 ≡ done
    → (deregister_at (get_port above) a w).1 ≡ done
unfolding after_naming commands_registered register_commands
pv-done above c a (b, done) v w h = at-done (get_port above) c a _ w h
pv-done above c a (b, failed e) v w h = absurd (ground arith)
pv-done above c a (b, stopped) v w h = absurd (ground arith)

close-done :
    (ctx : Context) (above : List Above) (b : Base) (k : Kind) (rest : Children × World × Ending)
    → Passes above (closed ctx k)
    → (rest.2 ≡ done → EndsAll (record { base = b; kind = closed ctx k } ∷ above) rest.0)
    → (close_node ctx b k rest).2 ≡ done
    → Ends above (close_node ctx b k rest).0
unfolding close_node
close-done ctx above b k (cs, w, done) p h e = p b cs (h refl)
close-done ctx above b k (cs, w, failed x) p h e = absurd (ground arith)
close-done ctx above b k (cs, w, stopped) p h e = absurd (ground arith)

node-done :
    (ctx : Context) (above : List Above) (k : Kind) (cs : Children) (named : Base × World × Ending)
    (marked : Children × Result Unit) (rest : Children × World × Ending)
    → Passes above (closed ctx k)
    → (rest.2 ≡ done → EndsAll (record { base = named.0; kind = closed ctx k } ∷ above) rest.0)
    → (node_initialize ctx k cs named marked rest).2 ≡ done
    → Ends above (node_initialize ctx k cs named marked rest).0
unfolding node_initialize
node-done ctx above k cs (b, w, done) (cs', ok u) rest p h e = close-done ctx above b k rest p h e
node-done ctx above k cs (b, w, done) (cs', err x) rest p h e = absurd (ground arith)
node-done ctx above k cs (b, w, failed x) marked rest p h e = absurd (ground arith)
node-done ctx above k cs (b, w, stopped) marked rest p h e = absurd (ground arith)

and_then-ends : (x y : World × Ending) → x.1 ≡ done → y.1 ≡ done → (and_then x y).1 ≡ done
and_then-ends (w, done) y h k = k
and_then-ends (w, failed e) y h k = h
and_then-ends (w, stopped) y h k = h

next-done :
    (above : List Above) (level : ℕ) (cs : Children) (now : Tree × World × Ending)
    (rest : Children × World × Ending)
    → (now.2 ≡ done → Ends above now.0)
    → (rest.2 ≡ done → EndsAll above rest.0)
    → (next_child level now.0 cs now.1 now.2 rest).2 ≡ done
    → EndsAll above (next_child level now.0 cs now.1 now.2 rest).0
unfolding next_child deinit_children
next-done above level cs (t, w, done) (cs', w', end) h k e v =
    and_then-ends (deinit_object above t v) (deinit_children above cs' (deinit_object above t v).0)
      (h refl v) (k e _)
next-done above level cs (t, w, failed x) rest h k e v = absurd (ground arith)
next-done above level cs (t, w, stopped) rest h k e v = absurd (ground arith)

mutual
  unfolding init_object init_children pv_initialize base_initialize commands_registered
      deinit_object deinit_children pv_deinitialize get_port

  pub init_object-Ends :
      (ctx : Context) (above above' : List Above) (place : Base → Base) (t : Tree) (w : World)
      → get_port above' ≡ get_port above
      → (init_object ctx above place t w).2 ≡ done
      → Ends above' (init_object ctx above place t w).0
  init_object-Ends ctx above above' place (object b (pv c a) cs) w same = λ h v.
      subst (λ port. (x : World) → (deregister_at port a x).1 ≡ done) (sym same)
        (λ x. pv-done above c a (name_object ctx above (place b) (pv c a)) w x h) _
  init_object-Ends ctx above above' place (object b (machine t s) cs) w same =
      node-done ctx above' (machine t s) cs _ _ _ (λ b' cs' e v. e _)
        (init_children-EndsAll ctx _ _ _ cs _ same)
  init_object-Ends ctx above above' place (object b (plain t) cs) w same =
      node-done ctx above' (plain t) cs _ _ _ (λ b' cs' e v. e _)
        (init_children-EndsAll ctx _ _ _ cs _ same)
  init_object-Ends ctx above above' place (object b (Kind.port t none) cs) w same =
      node-done ctx above' (Kind.port t (some _)) cs _ _ _ (λ b' cs' e v. e _)
        (init_children-EndsAll ctx _ _ _ cs _ refl)
  init_object-Ends ctx above above' place (object b (Kind.port t (some i)) cs) w same =
      node-done ctx above' (Kind.port t (some _)) cs _ _ _ (λ b' cs' e v. e _)
        (init_children-EndsAll ctx _ _ _ cs _ refl)

  init_children-EndsAll :
      (ctx : Context) (above above' : List Above) (level : ℕ) (cs : Children) (w : World)
      → get_port above' ≡ get_port above
      → (init_children ctx above level cs w).2 ≡ done
      → EndsAll above' (init_children ctx above level cs w).0
  init_children-EndsAll ctx above above' level nil w same = λ h v. refl
  init_children-EndsAll ctx above above' level (cons t cs) w same =
      let now = init_object ctx above (adopted level) t w in
      next-done above' level cs now (init_children ctx above level cs now.1)
        (init_object-Ends ctx above above' (adopted level) t w same)
        (init_children-EndsAll ctx above above' level cs now.1 same)

-- ===== src/Initialize/Again.antt =====
-- The initialization of a tree that was initialized.
use nds.Prelude.{
  ℕ, ◌≡◌, refl, ap, subst, ◌∙◌, ◌≢◌, inl, inr, true, none, some, List, [], arith, Bool-cases,
}
use nds.Types.{Result, ok, err, logic_error, PvClass}
use nds.Node.{Tree, Children, object, nil, cons, Base, Kind, pv, machine, plain}
use nds.Building.{base_of, set_parents}
use nds.Building.Parents.{set_parents-owned}
use nds.World.{
  World, Ending, done, failed, stopped, Context, Above, pv_initialize, base_initialize,
  commands_registered, name_object, after_naming, register_at, get_port, register_commands,
}
use nds.Initialize.{
  closed, adopted, close_node, node_initialize, next_child, init_object, init_children,
  initialize_root_node, hold_root,
}
use nds.Deinitialize.Back.{init_object-has_parent}

-- The first child has a parent.
abbrev IsOwned : Children → Type 0
IsOwned nil = ⊥
IsOwned (cons t cs) = (base_of t).has_parent ≡ true

abbrev Refuses : Tree → Type 0
Refuses t = (ctx : Context) → (w : World) → (init_object ctx [] (λ b. b) t w).2 ≢ done

node-refused :
    (ctx : Context) (k : Kind) (cs : Children) (named : Base × World × Ending)
    (marked : Children × Result Unit) (rest : Children × World × Ending)
    → marked.1 ≡ err logic_error
    → (node_initialize ctx k cs named marked rest).2 ≢ done
unfolding node_initialize
node-refused ctx k cs (b, w, done) (cs', ok u) rest h = λ e. absurd (ground arith)
node-refused ctx k cs (b, w, done) (cs', err x) rest h = λ e. absurd (ground arith)
node-refused ctx k cs (b, w, failed x) marked rest h = λ e. absurd (ground arith)
node-refused ctx k cs (b, w, stopped) marked rest h = λ e. absurd (ground arith)

marked-owned : (l : ℕ) (cs : Children) → IsOwned cs → (set_parents l cs).1 ≡ err logic_error
marked-owned l nil h = elim h [ ]
marked-owned l (cons (object b k below) cs) h = ap (λ x. x.1) (set_parents-owned l b k below cs h)

Refuses-owned :
    (b : Base) (k : Kind) (cs : Children)
    → ((c : PvClass) → (a : ℕ) → k ≢ pv c a)
    → IsOwned cs
    → Refuses (object b k cs)
unfolding init_object
Refuses-owned b (pv c a) cs n h = λ ctx w e. n c a refl
Refuses-owned b (machine t s) cs n h = λ ctx w. node-refused ctx _ cs _ _ _ (marked-owned _ cs h)
Refuses-owned b (plain t) cs n h = λ ctx w. node-refused ctx _ cs _ _ _ (marked-owned _ cs h)
Refuses-owned b (Kind.port t i) cs n h = λ ctx w. node-refused ctx _ cs _ _ _ (marked-owned _ cs h)

next-IsOwned :
    (level : ℕ) (cs : Children) (now : Tree × World × Ending) (rest : Children × World × Ending)
    → (base_of now.0).has_parent ≡ true
    → IsOwned (next_child level now.0 cs now.1 now.2 rest).0
unfolding next_child
next-IsOwned level cs (t, w, done) (cs', w', end) h = h
next-IsOwned level cs (t, w, failed e) rest h = h
next-IsOwned level cs (t, w, stopped) rest h = h

node-owned :
    (ctx : Context) (k : Kind) (cs : Children) (named : Base × World × Ending)
    (marked : Children × Result Unit) (rest : Children × World × Ending)
    → ((c : PvClass) → (a : ℕ) → closed ctx k ≢ pv c a)
    → IsOwned rest.0
    → (node_initialize ctx k cs named marked rest).2 ≡ done
    → Refuses (node_initialize ctx k cs named marked rest).0
unfolding node_initialize close_node
node-owned ctx k cs (b, w, done) (cs', ok u) (x, v, done) n h e =
    Refuses-owned b (closed ctx k) x n h
node-owned ctx k cs (b, w, done) (cs', ok u) (x, v, failed y) n h e = absurd (ground arith)
node-owned ctx k cs (b, w, done) (cs', ok u) (x, v, stopped) n h e = absurd (ground arith)
node-owned ctx k cs (b, w, done) (cs', err x) rest n h e = absurd (ground arith)
node-owned ctx k cs (b, w, failed x) marked rest n h e = absurd (ground arith)
node-owned ctx k cs (b, w, stopped) marked rest n h e = absurd (ground arith)

-- A PV with nothing above it has no port.
pv-alone :
    (c : PvClass) (a : ℕ) (named : Base × Ending) (w : World)
    → (after_naming [] c a (commands_registered named w)).2 ≢ done
unfolding after_naming commands_registered register_commands register_at get_port
pv-alone c a (b, done) w = λ e. absurd (ground arith)
pv-alone c a (b, failed x) w = λ e. absurd (ground arith)
pv-alone c a (b, stopped) w = λ e. absurd (ground arith)

children-IsOwned :
    (ctx : Context) (above : List Above) (level : ℕ) (t : Tree) (cs : Children) (w : World)
    → IsOwned (init_children ctx above level (cons t cs) w).0
unfolding init_children
children-IsOwned ctx above level t cs w =
    next-IsOwned level cs (init_object ctx above (adopted level) t w) _
      (init_object-has_parent ctx above (adopted level) t w)

init_object-Refuses :
    (ctx : Context) (b : Base) (k : Kind) (t : Tree) (cs : Children) (w : World)
    → let made = init_object ctx [] (λ b. b) (object b k (cons t cs)) w in
      made.2 ≡ done → Refuses made.0
unfolding init_object pv_initialize base_initialize
init_object-Refuses ctx b (pv c a) t cs w =
    λ e. absurd (pv-alone c a (name_object ctx [] b (pv c a)) w e)
init_object-Refuses ctx b (machine ts s) t cs w =
    node-owned ctx (machine ts s) (cons t cs) _ _ _ (λ c a e. cc) (children-IsOwned ctx _ _ t cs _)
init_object-Refuses ctx b (plain nt) t cs w =
    node-owned ctx (plain nt) (cons t cs) _ _ _ (λ c a e. cc) (children-IsOwned ctx _ _ t cs _)
init_object-Refuses ctx b (Kind.port nt none) t cs w =
    node-owned ctx (Kind.port nt (some _)) (cons t cs) _ _ _ (λ c a e. cc)
      (children-IsOwned ctx _ _ t cs _)
init_object-Refuses ctx b (Kind.port nt (some i)) t cs w =
    node-owned ctx (Kind.port nt (some i)) (cons t cs) _ _ _ (λ c a e. cc)
      (children-IsOwned ctx _ _ t cs _)

hold-Refuses :
    (device root : ℕ) (x : Tree × World × Ending)
    → (x.2 ≡ done → Refuses x.0)
    → (hold_root device root x).2 ≡ done
    → Refuses (hold_root device root x).0
unfolding hold_root
hold-Refuses device root (t, w, done) h e = h refl
hold-Refuses device root (t, w, failed y) h e = absurd (ground arith)
hold-Refuses device root (t, w, stopped) h e = absurd (ground arith)

held-done :
    (device root : ℕ) (x : Tree × World × Ending) → (hold_root device root x).2 ≡ done → x.2 ≡ done
unfolding hold_root
held-done device root (t, w, done) e = refl
held-done device root (t, w, failed y) e = absurd (ground arith)
held-done device root (t, w, stopped) e = absurd (ground arith)

root_done :
    (ctx : Context) (device root : ℕ) (t : Tree) (w : World)
    → (initialize_root_node ctx device root t w).2 ≡ done
    → hold_root device root (init_object ctx [] (λ b. b) t w)
      ≡ initialize_root_node ctx device root t w
unfolding initialize_root_node
root_done ctx device root t w h = elim (Bool-cases (base_of t).has_parent) [
  | inl e ↦
      let refused : failed logic_error ≡ done = rw (initialize_root_node, e) at h in
      absurd (ground arith)
  | inr e ↦ rw (initialize_root_node, e)
]

-- A root with children is initialized only once: where initializeRootNode ended well, a second call
-- for the tree that it left does not end well, in whatever control system.
pub initialize_root_node-initialize_root_node :
    (ctx ctx' : Context) (device device' root root' : ℕ) (b : Base) (k : Kind) (t : Tree)
    (cs : Children) (w w' : World)
    → let made = initialize_root_node ctx device root (object b k (cons t cs)) w in
      made.2 ≡ done → (initialize_root_node ctx' device' root' made.0 w').2 ≢ done
initialize_root_node-initialize_root_node ctx ctx' device device' root root' b k t cs w w' =
    λ h again.
      let made = initialize_root_node ctx device root (object b k (cons t cs)) w in
      let refuses =
        subst (λ x. x.2 ≡ done → Refuses x.0) (root_done ctx device root _ w h)
          (hold-Refuses device root _ (init_object-Refuses ctx b k t cs w)) h in
      let same = root_done ctx' device' root' made.0 w' again in
      refuses ctx' w' (held-done device' root' _ (ap (λ x. x.2) same ∙ again))

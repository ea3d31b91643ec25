-- ===== src/Node/GlobalState.antt =====
-- The global state of a node is the highest and latest state of its subtree.
use nds.Prelude.{
  ◌≤◌, List, [], ◌∷◌, ◌++◌, true, false, ◌≡◌, ◌⊎◌, inl, inr, refl, sym, ◌∙◌, subst, some, pos,
  int_lt, All, In, In-append_left, In-append_right, Option-cases, ap,
}
use nds.Types.{NodeType, unknown, Timespec, to_int}
use nds.StateMachine.{outranked, newer}
use nds.Node.{
  Kind, pv, machine, plain, port, Base, object, Children, nil, cons, find_machine, with_own,
  get_global_state, get_children_state,
}
use nds.Node.Readings.{Reading, newer-or, Tops}
use nds.Node.Subtree.{
  states_below, machine_count, OneMachineEach, others, global_own, node-Tops, children-Tops,
}

In-append_map :
    (x : Reading) (l m n : List Reading) → (In x m → In x n) → In x (l ++ m) → In x (l ++ n)
In-append_map x [] m n f i = f i
In-append_map x (y ∷ l) m n f (inl e) = inl e
In-append_map x (y ∷ l) m n f (inr i) = inr (In-append_map x l m n f i)

others-In : (x : Reading) (cs : Children) → In x (others cs) → In x (states_below cs)
others-In x nil i = i
others-In x (cons (object b (pv c a) cs') cs) i = others-In x cs i
others-In x (cons (object b (machine t s) cs') cs) i = inr (others-In x cs i)
others-In x (cons (object b (plain y) cs') cs) i =
    In-append_map x (states_below cs') (others cs) (states_below cs) (others-In x cs) i
others-In x (cons (object b (port y p) cs') cs) i =
    In-append_map x (states_below cs') (others cs) (states_below cs) (others-In x cs) i

machine-In : (x : Reading) (cs : Children) → find_machine cs ≡ some x → In x (states_below cs)
unfolding find_machine
machine-In x nil e = cc
machine-In x (cons (object b (machine t s) cs') cs) e = inl (cc)
machine-In x (cons (object b (pv c a) cs') cs) e = machine-In x cs e
machine-In x (cons (object b (plain y) cs') cs) e =
    In-append_right x (states_below cs') (states_below cs) (machine-In x cs e)
machine-In x (cons (object b (port y p) cs') cs) e =
    In-append_right x (states_below cs') (states_below cs) (machine-In x cs e)

-- The reading is the one to start with, or one of the list.
abbrev Found : Reading → Reading → List Reading → Type 0
Found r start l = (r ≡ start) ⊎ In r l

node-Found :
    (uninit : Timespec) (b : Base) (k : Kind) (cs : Children)
    → Found (get_children_state uninit cs (uninit, unknown)) (uninit, unknown) (others cs)
    → Found (get_global_state uninit (object b k cs)) (uninit, unknown) (states_below cs)
unfolding with_own
node-Found uninit b k cs f = elim (Option-cases (find_machine cs)) [
  | inl e ↦ rw (global_own uninit b k cs, e) (below f)
  | inr (own, e) ↦ rw (global_own uninit b k cs, e) (either own e (newer-or own r))
]
  where
    r : Reading
    r = get_children_state uninit cs (uninit, unknown)

    below : Found r (uninit, unknown) (others cs) → Found r (uninit, unknown) (states_below cs)
    below (inl e) = inl e
    below (inr i) = inr (others-In r cs i)

    either :
        (own : Reading)
        → find_machine cs ≡ some own
        → (newer own r ≡ own) ⊎ (newer own r ≡ r)
        → Found (newer own r) (uninit, unknown) (states_below cs)
    either own e (inl h) = rw h (inr (machine-In own cs e))
    either own e (inr h) = rw h (below f)

round-Found :
    (r start found here : Reading) (l rest : List Reading)
    → Found here start l
    → (r ≡ newer found here) ⊎ Found r start rest
    → (r ≡ found) ⊎ Found r start (l ++ rest)
round-Found r start found here l rest h (inr (inl e)) = inr (inl e)
round-Found r start found here l rest h (inr (inr i)) = inr (inr (In-append_right r l rest i))
round-Found r start found here l rest h (inl e) = elim (newer-or found here) [
  | inl k ↦ inl (e ∙ k)
  | inr k ↦ inr (subst (λ x. Found x start (l ++ rest)) (sym (e ∙ k)) (earlier_round h))
]
  where
    earlier_round : Found here start l → Found here start (l ++ rest)
    earlier_round (inl e) = inl e
    earlier_round (inr i) = inr (In-append_left here l rest i)

unseen : (r start : Reading) (l : List Reading) → (r ≡ start) ⊎ Found r start l → Found r start l
unseen r start l (inl e) = inl e
unseen r start l (inr f) = f

children-Found :
    (uninit : Timespec) (cs : Children) (found : Reading)
    → let r = get_children_state uninit cs found in
      (r ≡ found) ⊎ Found r (uninit, unknown) (others cs)
unfolding get_global_state
children-Found uninit nil found = inl refl
children-Found uninit (cons (object b (pv c a) cs') cs) found = children-Found uninit cs found
children-Found uninit (cons (object b (machine t s) cs') cs) found = children-Found uninit cs found
children-Found uninit (cons (object b (plain y) cs') cs) found =
    let here = get_global_state uninit (object b (plain y) cs') in
    round-Found _ (uninit, unknown) found here (states_below cs') (others cs)
      (node-Found uninit b (plain y) cs'
        (unseen _ _ _ (children-Found uninit cs' (uninit, unknown))))
      (children-Found uninit cs (newer found here))
children-Found uninit (cons (object b (port y p) cs') cs) found =
    let here = get_global_state uninit (object b (port y p) cs') in
    round-Found _ (uninit, unknown) found here (states_below cs') (others cs)
      (node-Found uninit b (port y p) cs'
        (unseen _ _ _ (children-Found uninit cs' (uninit, unknown))))
      (children-Found uninit cs (newer found here))

-- A state that is above `unknown`, as every state is that a state machine enters.
abbrev pub Known : Reading → Type 0
Known (t, s) = int_lt (pos 0) (to_int s) ≡ true

start_loses :
    (uninit : Timespec) (r : Reading) (l : List Reading)
    → r ≡ (uninit, unknown)
    → All Known l
    → Tops r l
    → l ≡ []
start_loses uninit r [] e k t = refl
start_loses uninit r ((t', s') ∷ l) e k t =
    absurd (below (subst (λ x. outranked x (t', s') ≡ false) e t.0) k.0)
  where
    clash : true ≡ false → ⊥
    clash q = cc

    below : outranked (uninit, unknown) (t', s') ≡ false → int_lt (pos 0) (to_int s') ≡ true → ⊥
    below g h = clash (rw h at g)

-- The global state of a node is one of the states of the state machines below it, of which none is
-- higher, or as high and later; it is unknown where there is no state machine. This is given that
-- no node has two state machines and that no state machine is in the state unknown.
pub get_global_state-Tops :
    (uninit : Timespec) (b : Base) (y : NodeType) (cs : Children)
    → machine_count cs ≤ 1
    → OneMachineEach cs
    → All Known (states_below cs)
    → let r = get_global_state uninit (object b (plain y) cs) in
      ((states_below cs ≡ []) × (r.1 ≡ unknown))
      ⊎ (In r (states_below cs) × Tops r (states_below cs))
get_global_state-Tops uninit b y cs h w k =
    elim (node-Found uninit b (plain y) cs
      (unseen _ _ _ (children-Found uninit cs (uninit, unknown)))) [
        | inl e ↦ inl (start_loses uninit _ (states_below cs) e k top, ap (λ x. x.1) e)
        | inr i ↦ inr (i, top)
      ]
  where
    top : Tops (get_global_state uninit (object b (plain y) cs)) (states_below cs)
    top = node-Tops uninit b (plain y) cs h (children-Tops uninit cs (uninit, unknown) w).1

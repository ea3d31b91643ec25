-- ===== src/Node/Subtree.antt =====
-- The states below a node, and the bound that its global state is.
use nds.Prelude.{
  ℕ, ◌≤◌, suc, List, [], ◌∷◌, ◌++◌, false, ◌≡◌, inl, inr, refl, subst, arith, Option, none, some,
  All, All-append, All-append_left, All-append_right, Option-cases,
}
use nds.Types.{unknown, Timespec}
use nds.StateMachine.{outranked, newer}
use nds.Node.{
  Kind, pv, machine, plain, port, Base, object, Children, nil, cons, find_machine, with_own,
  get_global_state, get_children_state,
}
use nds.Node.Readings.{
  Reading, outranked_trans, outranked_irrefl, newer_left, newer_right, Tops, Tops-mono,
}

-- What an object adds to the states of the tree above it, given the states below it.
abbrev pub contributes : Kind → List Reading → List Reading
contributes (pv c a) l = []
contributes (machine t s) l = (t, s) ∷ []
contributes (plain y) l = l
contributes (port y p) l = l

-- The readings of all the state machines below a node, in the order of the tree.
abbrev pub states_below : Children → List Reading
states_below nil = []
states_below (cons (object b k cs') cs) = contributes k (states_below cs') ++ states_below cs

abbrev pub machine_count : Children → ℕ
machine_count nil = 0
machine_count (cons (object b (machine t s) cs') cs) = suc (machine_count cs)
machine_count (cons (object b _ cs') cs) = machine_count cs

-- No node below has two state machines, as all are named alike and `addChild` refuses a second
-- child of a name.
abbrev pub OneMachineEach : Children → Type 0
OneMachineEach nil = Unit
OneMachineEach (cons (object b k cs') cs) =
    (machine_count cs' ≤ 1) × OneMachineEach cs' × OneMachineEach cs

abbrev pub others : Children → List Reading
others nil = []
others (cons (object b (machine t s) cs') cs) = others cs
others (cons (object b k cs') cs) = contributes k (states_below cs') ++ others cs

pub no_machine : (cs : Children) → machine_count cs ≤ 0 → find_machine cs ≡ none
unfolding find_machine
no_machine nil h = refl
no_machine (cons (object b (machine t s) cs') cs) h = absurd (omega arith)
no_machine (cons (object b _ cs') cs) h = no_machine cs h

-- What holds of the other children's states and of the node's own holds of all below the node.
pub gather :
    (P : Reading → Type 0) (cs : Children)
    → machine_count cs ≤ 1
    → All P (others cs)
    → ((x : Reading) → find_machine cs ≡ some x → P x)
    → All P (states_below cs)
unfolding find_machine
gather P nil h o m = tt
gather P (cons (object b (machine t s) cs') cs) h o m = (
  m (t, s) refl,
  gather P cs (omega arith) o (λ x e. absurd (none_some (no_machine cs (omega arith)) e)),
)
  where
    none_some : {x : Reading} {o : Option Reading} → o ≡ none → o ≡ some x → ⊥
    none_some p q = cc
gather P (cons (object b (pv c a) cs') cs) h o m = gather P cs h o m
gather P (cons (object b (plain y) cs') cs) h o m =
    All-append P (states_below cs') (states_below cs)
      (All-append_left P (states_below cs') (others cs) o)
      (gather P cs h (All-append_right P (states_below cs') (others cs) o) m)
gather P (cons (object b (port y p) cs') cs) h o m =
    All-append P (states_below cs') (states_below cs)
      (All-append_left P (states_below cs') (others cs) o)
      (gather P cs h (All-append_right P (states_below cs') (others cs) o) m)

pub global_own :
    (uninit : Timespec) (b : Base) (k : Kind) (cs : Children)
    → get_global_state uninit (object b k cs)
      ≡ with_own (find_machine cs) (get_children_state uninit cs (uninit, unknown))
unfolding get_global_state
global_own uninit b k cs = refl

-- From the loop over the children of a node to the node itself.
pub node-Tops :
    (uninit : Timespec) (b : Base) (k : Kind) (cs : Children)
    → machine_count cs ≤ 1
    → Tops (get_children_state uninit cs (uninit, unknown)) (others cs)
    → Tops (get_global_state uninit (object b k cs)) (states_below cs)
unfolding with_own
node-Tops uninit b k cs h t =
    let below = get_children_state uninit cs (uninit, unknown) in
    elim (Option-cases (find_machine cs)) [
      | inl e ↦
          rw (global_own uninit b k cs, e)
            (gather (λ x. outranked below x ≡ false) cs h t (λ x q. absurd (none_some e q)))
      | inr (own, e) ↦
          rw (global_own uninit b k cs, e)
            (gather (λ x. outranked (newer own below) x ≡ false) cs h
              (Tops-mono (newer own below) below (others cs) (newer_right own below) t)
              (λ x q.
                subst (λ y. outranked (newer own below) y ≡ false) (one_some e q)
                  (newer_left own below)))
    ]
  where
    none_some : {x : Reading} {o : Option Reading} → o ≡ none → o ≡ some x → ⊥
    none_some p q = cc

    one_some : {x y : Reading} {o : Option Reading} → o ≡ some x → o ≡ some y → x ≡ y
    one_some p q = cc

-- One round of the loop, and the rounds after it.
round-Tops :
    (r found here : Reading) (l rest : List Reading)
    → Tops here l
    → (outranked r (newer found here) ≡ false) × Tops r rest
    → (outranked r found ≡ false) × Tops r (l ++ rest)
round-Tops r found here l rest t h = (
  outranked_trans r (newer found here) found h.0 (newer_left found here),
  All-append (λ x. outranked r x ≡ false) l rest
      (Tops-mono r here l (outranked_trans r (newer found here) here h.0 (newer_right found here))
        t)
      h.1,
)

pub children-Tops :
    (uninit : Timespec) (cs : Children) (found : Reading)
    → OneMachineEach cs
    → (outranked (get_children_state uninit cs found) found ≡ false)
      × Tops (get_children_state uninit cs found) (others cs)
unfolding get_global_state
children-Tops uninit nil found w = (outranked_irrefl found, tt)
children-Tops uninit (cons (object b (pv c a) cs') cs) found w = children-Tops uninit cs found w.2
children-Tops uninit (cons (object b (machine t s) cs') cs) found w =
    children-Tops uninit cs found w.2
children-Tops uninit (cons (object b (plain y) cs') cs) found w =
    let here = get_global_state uninit (object b (plain y) cs') in
    round-Tops _ found here (states_below cs') (others cs)
      (node-Tops uninit b (plain y) cs' w.0 (children-Tops uninit cs' (uninit, unknown) w.1).1)
      (children-Tops uninit cs (newer found here) w.2)
children-Tops uninit (cons (object b (port y p) cs') cs) found w =
    let here = get_global_state uninit (object b (port y p) cs') in
    round-Tops _ found here (states_below cs') (others cs)
      (node-Tops uninit b (port y p) cs' w.0 (children-Tops uninit cs' (uninit, unknown) w.1).1)
      (children-Tops uninit cs (newer found here) w.2)

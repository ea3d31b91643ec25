-- ===== src/Deinitialize/Lawful.antt =====
-- The registry after a deinitialization.
use nds.Prelude.{
  ℕ, ◌≡◌, refl, sym, ap, subst, inl, inr, Option, none, some, List, [], ◌∷◌, ◌++◌, arith,
  Bool-cases, All, Text, text_eq_iff, lookup-erase,
}
use nds.Types.{PvClass, input, output}
use nds.Node.{Tree, Children, object, nil, cons, Base, Kind, pv, machine, plain}
use nds.Building.{base_of}
use nds.World.{
  World, Ending, done, failed, stopped, Above, called, get_port, and_then, deregister_class,
}
use nds.Registry.{Registry, deregister_input_pv, deregister_output_pv}
use nds.Registry.Consistent.{
  Consistent, deregister_input_pv-Consistent, deregister_output_pv-Consistent,
}
use nds.Initialize.Keeps.{found}
use nds.Initialize.Found.{Entry, pvs_of, pvs_of_children}
use nds.Deinitialize.{
  base_deinitialize, pv_deinitialize, deregister_at, deinit_object, deinit_children,
  deinitialize_root_node,
}
use nds.Deinitialize.Gone.{name_of, deregister_class-name_of}
use nds.Deinitialize.Named.{Apart, Distinct}

-- The registry finds the PV under the full name that it has.
abbrev pub IsLive : Registry → PvClass → ℕ → Type 0
IsLive r c a = found c (name_of c a r) r ≡ some a

abbrev Live : Registry → List Entry → Type 0
Live r es = All (λ (e : Entry). IsLive r e.0 e.1) es

deregister_class-Consistent :
    (c : PvClass) (a : ℕ) (r : Registry)
    → Consistent r
    → IsLive r c a
    → Consistent (deregister_class c a r)
unfolding deregister_class
deregister_class-Consistent (input t) a r v live = deregister_input_pv-Consistent r v a live
deregister_class-Consistent (output t) a r v live = deregister_output_pv-Consistent r v a live

deregister_class-found :
    (c : PvClass) (a : ℕ) (r : Registry) (c' : PvClass) (i : ℕ) (n : Text)
    → Apart c a (c', i, n)
    → IsLive r c a
    → IsLive r c' i
    → found c' (name_of c' i r) (deregister_class c a r) ≡ some i
unfolding deregister_class deregister_input_pv deregister_output_pv
deregister_class-found (input t) a r (input t') i n apart live live' =
    let name = (r.inputs a).full_name in
    let name' = (r.inputs i).full_name in
    ground (
      arith,
      apart,
      live,
      live',
      lookup-erase name name' r.registered_inputs,
      text_eq_iff name name',
    )
deregister_class-found (input t) a r (output t') i n apart live live' = live'
deregister_class-found (output t) a r (input t') i n apart live live' = live'
deregister_class-found (output t) a r (output t') i n apart live live' = ground (
  arith,
  apart,
  live,
  live',
  lookup-erase (r.output_name a) (r.output_name i) r.registered_outputs,
  text_eq_iff (r.output_name a) (r.output_name i),
)

deregister_class-IsLive :
    (c : PvClass) (a : ℕ) (r : Registry) (c' : PvClass) (i : ℕ) (n : Text)
    → Apart c a (c', i, n)
    → IsLive r c a
    → IsLive r c' i
    → IsLive (deregister_class c a r) c' i
deregister_class-IsLive c a r c' i n apart live live' =
    subst (λ m. found c' m (deregister_class c a r) ≡ some i)
      (sym (deregister_class-name_of c a r c' i))
      (deregister_class-found c a r c' i n apart live live')

deregister_class-Live :
    (c : PvClass) (a : ℕ) (r : Registry) (es : List Entry)
    → IsLive r c a
    → All (Apart c a) es
    → Live r es
    → Live (deregister_class c a r) es
deregister_class-Live c a r [] live apart h = tt
deregister_class-Live c a r (e ∷ es) live apart h = (
  deregister_class-IsLive c a r e.0 e.1 e.2 apart.0 live h.0,
  deregister_class-Live c a r es live apart.1 h.1,
)

-- From a consistent registry that finds the PVs, and others after them, an end leaves a consistent one;
-- where it is a good end, the others are still found.
abbrev Leaves : List Entry → Registry → World × Ending → Type 0
Leaves pvs r x =
    (others : List Entry)
    → Consistent r
    → Live r (pvs ++ others)
    → Distinct (pvs ++ others)
    → Consistent x.0.registry × (x.1 ≡ done → Live x.0.registry others × Distinct others)

append_assoc : (xs ys zs : List Entry) → (xs ++ ys) ++ zs ≡ xs ++ (ys ++ zs)
append_assoc [] ys zs = refl
append_assoc (x ∷ xs) ys zs = ap (λ l. x ∷ l) (append_assoc xs ys zs)

and_then-Leaves :
    (xs ys : List Entry) (r : Registry) (x y : World × Ending)
    → Leaves xs r x
    → Leaves ys x.0.registry y
    → Leaves (xs ++ ys) r (and_then x y)
and_then-Leaves xs ys r (w, done) y h k others v live distinct =
    let live' = subst (Live r) (append_assoc xs ys others) live in
    let distinct' = subst Distinct (append_assoc xs ys others) distinct in
    let (v', rest) = h (ys ++ others) v live' distinct' in
    let (live'', distinct'') = rest refl in k others v' live'' distinct''
and_then-Leaves xs ys r (w, failed e) y h k others v live distinct =
    let live' = subst (Live r) (append_assoc xs ys others) live in
    let distinct' = subst Distinct (append_assoc xs ys others) distinct in
    ((h (ys ++ others) v live' distinct').0, λ e. absurd (ground arith))
and_then-Leaves xs ys r (w, stopped) y h k others v live distinct =
    let live' = subst (Live r) (append_assoc xs ys others) live in
    let distinct' = subst Distinct (append_assoc xs ys others) distinct in
    ((h (ys ++ others) v live' distinct').0, λ e. absurd (ground arith))

deregister_at-registry :
    (port : Option Text) (a : ℕ) (w : World) → (deregister_at port a w).0.registry ≡ w.registry
unfolding deregister_at called
deregister_at-registry none a w = refl
deregister_at-registry (some i) a w = refl

pv-Leaves :
    (above : List Above) (b : Base) (c : PvClass) (a : ℕ) (n : Text) (w : World)
    → Leaves ((c, a, n) ∷ []) w.registry (pv_deinitialize above b c a w)
unfolding pv_deinitialize base_deinitialize called
pv-Leaves above b c a n w others v live distinct = rw (deregister_at-registry (get_port above) a) (
  deregister_class-Consistent c a w.registry v live.0,
  λ e. (deregister_class-Live c a w.registry others live.0 distinct.0 live.1, distinct.1),
)

mutual
  unfolding deinit_object deinit_children pvs_of pvs_of_children base_deinitialize called

  deinit_object-Leaves :
      (above : List Above) (t : Tree) (w : World)
      → Leaves (pvs_of t) w.registry (deinit_object above t w)
  deinit_object-Leaves above (object b (pv c a) cs) w = pv-Leaves above b c a b.full_name w
  deinit_object-Leaves above (object b (machine t s) cs) w = deinit_children-Leaves _ cs _
  deinit_object-Leaves above (object b (plain t) cs) w = deinit_children-Leaves _ cs _
  deinit_object-Leaves above (object b (Kind.port t (some i)) cs) w = deinit_children-Leaves _ cs _
  deinit_object-Leaves above (object b (Kind.port t none) cs) w =
      λ others v live distinct. (v, λ e. absurd (ground arith))

  deinit_children-Leaves :
      (above : List Above) (cs : Children) (w : World)
      → Leaves (pvs_of_children cs) w.registry (deinit_children above cs w)
  deinit_children-Leaves above nil w = λ others v live distinct. (v, λ e. (live, distinct))
  deinit_children-Leaves above (cons t cs) w =
      and_then-Leaves (pvs_of t) (pvs_of_children cs) w.registry (deinit_object above t w) _
        (deinit_object-Leaves above t w) (deinit_children-Leaves above cs _)

append_nil : (es : List Entry) → es ++ [] ≡ es
append_nil [] = refl
append_nil (e ∷ es) = ap (λ l. e ∷ l) (append_nil es)

-- Where the PVs of the tree are all different, and the registry finds each under the full name that it
-- has there, the registry that was consistent before deinitializeRootNode is so afterwards, whether it
-- ends well or not.
pub deinitialize_root_node-Consistent :
    (t : Tree) (w : World)
    → Consistent w.registry
    → All (λ (e : Entry). IsLive w.registry e.0 e.1) (pvs_of t)
    → Distinct (pvs_of t)
    → Consistent (deinitialize_root_node t w).0.registry
unfolding deinitialize_root_node
deinitialize_root_node-Consistent t w v live distinct = elim (Bool-cases (base_of t).has_parent) [
  | inl e ↦ rw (deinitialize_root_node, e) v
  | inr e ↦
      rw (deinitialize_root_node, e)
        ((deinit_object-Leaves [] t w [] v
          (subst (λ es. Live w.registry es) (sym (append_nil (pvs_of t))) live)
          (subst Distinct (sym (append_nil (pvs_of t))) distinct)).0)
]

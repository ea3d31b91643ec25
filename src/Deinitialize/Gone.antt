-- ===== src/Deinitialize/Gone.antt =====
-- The PVs of a tree, and what the registry finds after its deinitialization.
use nds.Prelude.{
  ℕ, ◌≡◌, refl, sym, subst, ◌∙◌, inl, inr, Option, none, some, List, [], ◌∷◌, ◌++◌, arith,
  Bool-cases, All, All-append, All-append_left, All-append_right, All-map, Text, text_eq_refl,
  erase, lookup-erase,
}
use nds.Types.{logic_error, PvClass, input, output}
use nds.Node.{Tree, Children, object, nil, cons, Base, Kind, pv, machine, plain}
use nds.Building.{base_of}
use nds.World.{
  World, Ending, done, failed, stopped, Above, called, get_port, deregister_class, and_then,
}
use nds.Registry.{Registry, deregister_input_pv, deregister_output_pv}
use nds.Registry.Scan.{stopped_name, unsubscribed_name}
use nds.Initialize.Keeps.{found}
use nds.Initialize.Found.{Entry, pvs_of, pvs_of_children}
use nds.Deinitialize.{
  base_deinitialize, pv_deinitialize, deregister_at, deinit_object, deinit_children,
  deinitialize_root_node,
}

-- The full name that the PV at the address has.
abbrev pub name_of : PvClass → ℕ → Registry → Text
name_of (input t) a r = (r.inputs a).full_name
name_of (output t) a r = r.output_name a

-- The PVs keep their names, and a name that led nowhere still leads nowhere.
abbrev After : Registry → Registry → Type 0
After r s =
    ((c : PvClass) → (a : ℕ) → name_of c a s ≡ name_of c a r)
    × ((c : PvClass) → (n : Text) → found c n r ≡ none → found c n s ≡ none)

After-trans : (r s t : Registry) → After r s → After s t → After r t
After-trans r s t h k = (λ c a. k.0 c a ∙ h.0 c a, λ c n e. k.1 c n (h.1 c n e))

pub deregister_class-name_of :
    (c : PvClass) (a : ℕ) (r : Registry) (c' : PvClass) (i : ℕ)
    → name_of c' i (deregister_class c a r) ≡ name_of c' i r
unfolding deregister_class deregister_input_pv deregister_output_pv
deregister_class-name_of (input t) a r (input t') i =
    stopped_name (erase (r.inputs a).full_name r.registered_inputs) a r.inputs i
deregister_class-name_of (input t) a r (output t') i = refl
deregister_class-name_of (output t) a r (input t') i =
    unsubscribed_name r.registered_inputs a r.inputs i
deregister_class-name_of (output t) a r (output t') i = refl

deregister_class-none :
    (c : PvClass) (a : ℕ) (r : Registry) (c' : PvClass) (n : Text)
    → found c' n r ≡ none
    → found c' n (deregister_class c a r) ≡ none
unfolding deregister_class deregister_input_pv deregister_output_pv
deregister_class-none (input t) a r (input t') n e =
    ground (arith, lookup-erase (r.inputs a).full_name n r.registered_inputs)
deregister_class-none (input t) a r (output t') n e = e
deregister_class-none (output t) a r (input t') n e = e
deregister_class-none (output t) a r (output t') n e =
    ground (arith, lookup-erase (r.output_name a) n r.registered_outputs)

deregister_class-After : (c : PvClass) (a : ℕ) (r : Registry) → After r (deregister_class c a r)
deregister_class-After c a r = (deregister_class-name_of c a r, deregister_class-none c a r)

deregister_class-gone :
    (c : PvClass) (a : ℕ) (r : Registry) → found c (name_of c a r) (deregister_class c a r) ≡ none
unfolding deregister_class deregister_input_pv deregister_output_pv
deregister_class-gone (input t) a r =
    let name = (r.inputs a).full_name in
    ground (arith, lookup-erase name name r.registered_inputs, text_eq_refl name)
deregister_class-gone (output t) a r =
    let name = r.output_name a in
    ground (arith, lookup-erase name name r.registered_outputs, text_eq_refl name)

abbrev pub IsNamed : Registry → Entry → Type 0
IsNamed r (c, a, n) = name_of c a r ≡ n

abbrev pub IsGone : Registry → Entry → Type 0
IsGone r (c, a, n) = found c n r ≡ none

-- What an end says of the PVs that it was to clear.
abbrev Clears : List Entry → Registry → World × Ending → Type 0
Clears pvs r (w, end) =
    After r w.registry × (end ≡ done → All (IsNamed r) pvs → All (IsGone w.registry) pvs)

and_then-Clears :
    (xs ys : List Entry) (r : Registry) (x y : World × Ending)
    → Clears xs r x
    → Clears ys x.0.registry y
    → Clears (xs ++ ys) r (and_then x y)
and_then-Clears xs ys r (w, done) (w', end) h k = (
  After-trans r w.registry w'.registry h.0 k.0,
  λ e named.
      let gone = h.1 refl (All-append_left (IsNamed r) xs ys named) in
      let named' =
        All-map (λ x n. h.0.0 x.0 x.1 ∙ n) ys (All-append_right (IsNamed r) xs ys named) in
      All-append (IsGone w'.registry) xs ys (All-map (λ x g. k.0.1 x.0 x.2 g) xs gone)
        (k.1 e named'),
)
and_then-Clears xs ys r (w, failed x) y h k = (h.0, λ e. absurd (ground arith))
and_then-Clears xs ys r (w, stopped) y h k = (h.0, λ e. absurd (ground arith))

at-Clears :
    (port : Option Text) (c : PvClass) (a : ℕ) (n : Text) (r : Registry) (w : World)
    → w.registry ≡ deregister_class c a r
    → Clears ((c, a, n) ∷ []) r (deregister_at port a w)
unfolding deregister_at called
at-Clears none c a n r w e =
    (subst (After r) (sym e) (deregister_class-After c a r), λ d. absurd (ground arith))
at-Clears (some i) c a n r w e = (
  subst (After r) (sym e) (deregister_class-After c a r),
  λ d named. (
    subst (λ s. found c n s ≡ none) (sym e)
        (subst (λ m. found c m (deregister_class c a r) ≡ none) named.0
          (deregister_class-gone c a r)),
    tt,
  ),
)

pv-Clears :
    (above : List Above) (b : Base) (c : PvClass) (a : ℕ) (n : Text) (w : World)
    → Clears ((c, a, n) ∷ []) w.registry (pv_deinitialize above b c a w)
unfolding pv_deinitialize base_deinitialize called
pv-Clears above b c a n w = at-Clears (get_port above) c a n w.registry _ refl

mutual
  unfolding deinit_object deinit_children pvs_of pvs_of_children base_deinitialize called

  deinit_object-Clears :
      (above : List Above) (t : Tree) (w : World)
      → Clears (pvs_of t) w.registry (deinit_object above t w)
  deinit_object-Clears above (object b (pv c a) cs) w = pv-Clears above b c a b.full_name w
  deinit_object-Clears above (object b (machine t s) cs) w = deinit_children-Clears _ cs _
  deinit_object-Clears above (object b (plain t) cs) w = deinit_children-Clears _ cs _
  deinit_object-Clears above (object b (Kind.port t (some i)) cs) w = deinit_children-Clears _ cs _
  deinit_object-Clears above (object b (Kind.port t none) cs) w =
      ((λ c a. refl, λ c n e. e), λ e. absurd (ground arith))

  deinit_children-Clears :
      (above : List Above) (cs : Children) (w : World)
      → Clears (pvs_of_children cs) w.registry (deinit_children above cs w)
  deinit_children-Clears above nil w = ((λ c a. refl, λ c n e. e), λ e n. tt)
  deinit_children-Clears above (cons t cs) w =
      and_then-Clears (pvs_of t) (pvs_of_children cs) w.registry (deinit_object above t w) _
        (deinit_object-Clears above t w) (deinit_children-Clears above cs _)

-- Where deinitializeRootNode ends well, and each PV had the full name in the registry that it has in
-- the tree, the registry finds none of the PVs of the tree under its name any more, and no name that
-- led nowhere before leads to a PV.
pub deinitialize_root_node-IsGone :
    (t : Tree) (w : World)
    → All (IsNamed w.registry) (pvs_of t)
    → (deinitialize_root_node t w).1 ≡ done
    → All (IsGone (deinitialize_root_node t w).0.registry) (pvs_of t)
      × ((c : PvClass)
          → (n : Text) → found c n w.registry ≡ none
          → found c n (deinitialize_root_node t w).0.registry ≡ none)
unfolding deinitialize_root_node
deinitialize_root_node-IsGone t w named h = elim (Bool-cases (base_of t).has_parent) [
  | inl e ↦
      let refused : failed logic_error ≡ done = rw (deinitialize_root_node, e) at h in
      absurd (ground arith)
  | inr e ↦
      let eq : deinit_object [] t w ≡ deinitialize_root_node t w = rw (deinitialize_root_node, e) in
      let clears = subst (Clears (pvs_of t) w.registry) eq (deinit_object-Clears [] t w) in
      (clears.1 h named, clears.0.1)
]

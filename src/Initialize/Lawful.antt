-- ===== src/Initialize/Lawful.antt =====
-- The PVs that the plan of a tree names against those of the tree, and the registry afterwards.
use nds.Prelude.{
  ℕ, ◌≡◌, refl, sym, ap, subst, inl, inr, Option, none, some, List, [], ◌∷◌, ◌++◌, Bool-cases, All,
  All-append, All-append_left, All-append_right, All-map, Text,
}
use nds.Types.{Result, ok, err, PvClass, input, output}
use nds.Node.{Tree, Children, object, nil, cons, Base, Kind, pv, machine, plain}
use nds.Building.{base_of, set_parents}
use nds.World.{
  World, Ending, done, failed, stopped, Context, Above, Call, get_port, full_name_below,
  name_object,
}
use nds.Registry.Consistent.{Consistent}
use nds.Initialize.{opened, closing, adopted, initialize_root_node}
use nds.Initialize.Plan.{
  Action, run, calls, set_name, enroll, halt, enroll_at, plan_pv, plan_node, plan_object,
  plan_children,
}
use nds.Initialize.Runs.{held, initialize_root_node-runs}
use nds.Initialize.Found.{Entry, pvs_of, pvs_of_children}
use nds.Initialize.Fresh.{IsFresh, named_in, run-Consistent}
use nds.Deinitialize.Named.{Apart, Distinct, Distinct-append}

-- The first PVs are among the second, whatever their names are.
record Covered (xs ys : List Entry) : Type 1 where
  all :
      (P : PvClass → ℕ → Type 0)
      → All (λ (e : Entry). P e.0 e.1) ys
      → All (λ (e : Entry). P e.0 e.1) xs
  distinct : Distinct ys → Distinct xs

Covered-nil : (ys : List Entry) → Covered [] ys
Covered-nil ys = record { all = λ P h. tt; distinct = λ d. tt }

Covered-one : (c : PvClass) (a : ℕ) (n m : Text) → Covered ((c, a, n) ∷ []) ((c, a, m) ∷ [])
Covered-one c a n m = record { all = λ P h. h; distinct = λ d. d }

Apart-name :
    (c : PvClass) (a : ℕ) (c' : PvClass) (i : ℕ) (n m : Text)
    → Apart c a (c', i, n)
    → Apart c a (c', i, m)
Apart-name (input t) a (input t') i n m h = h
Apart-name (input t) a (output t') i n m h = tt
Apart-name (output t) a (input t') i n m h = tt
Apart-name (output t) a (output t') i n m h = h

-- The PV is apart from each of the list.
abbrev Away : List Entry → PvClass → ℕ → Type 0
Away es c a = All (Apart c a) es

Covered-Away :
    (xs ys : List Entry) (c : PvClass) (a : ℕ) → Covered xs ys → Away ys c a → Away xs c a
Covered-Away xs ys c a k h =
    All-map (λ (e : Entry) p. Apart-name c a e.0 e.1 [] e.2 p) xs
      (k.all (λ c' i. Apart c a (c', i, []))
        (All-map (λ (e : Entry) p. Apart-name c a e.0 e.1 e.2 [] p) ys h))

Distinct-join :
    (xs ys : List Entry)
    → Distinct xs
    → All (λ (e : Entry). Away ys e.0 e.1) xs
    → Distinct ys
    → Distinct (xs ++ ys)
Distinct-join [] ys d across dy = dy
Distinct-join ((c, a, n) ∷ xs) ys d across dy =
    (All-append (Apart c a) xs ys d.0 across.0, Distinct-join xs ys d.1 across.1 dy)

Covered-append :
    (xs xs' ys ys' : List Entry) → Covered xs ys → Covered xs' ys' → Covered (xs ++ xs') (ys ++ ys')
Covered-append xs xs' ys ys' k k' = record {
  all = λ P h.
      All-append (λ (e : Entry). P e.0 e.1) xs xs'
        (k.all P (All-append_left (λ (e : Entry). P e.0 e.1) ys ys' h))
        (k'.all P (All-append_right (λ (e : Entry). P e.0 e.1) ys ys' h));
  distinct = λ d.
      let (first, across, second) = Distinct-append ys ys' d in
      Distinct-join xs xs' (k.distinct first)
        (All-map (λ (e : Entry) h. Covered-Away xs' ys' e.0 e.1 k' h) xs (k.all (Away ys') across))
        (k'.distinct second);
}

named_in-append : (xs ys : List Action) → named_in (xs ++ ys) ≡ named_in xs ++ named_in ys
unfolding named_in
named_in-append [] ys = refl
named_in-append (calls cs ∷ xs) ys = named_in-append xs ys
named_in-append (set_name c a n ∷ xs) ys = ap (λ es. (c, a, n) ∷ es) (named_in-append xs ys)
named_in-append (enroll c a n ∷ xs) ys = ap (λ es. (c, a, n) ∷ es) (named_in-append xs ys)
named_in-append (halt end ∷ xs) ys = named_in-append xs ys

named_in-calls : (xs : List Action) (cs : List Call) → named_in (xs ++ calls cs ∷ []) ≡ named_in xs
unfolding named_in
named_in-calls [] cs = refl
named_in-calls (calls ds ∷ xs) cs = named_in-calls xs cs
named_in-calls (set_name c a n ∷ xs) cs = ap (λ es. (c, a, n) ∷ es) (named_in-calls xs cs)
named_in-calls (enroll c a n ∷ xs) cs = ap (λ es. (c, a, n) ∷ es) (named_in-calls xs cs)
named_in-calls (halt end ∷ xs) cs = named_in-calls xs cs

enroll_at-Covered :
    (port : Option Text) (c : PvClass) (a : ℕ) (n m : Text)
    → Covered (named_in (enroll_at port c a n)) ((c, a, m) ∷ [])
unfolding named_in
enroll_at-Covered none c a n m = Covered-one c a n m
enroll_at-Covered (some i) c a n m = Covered-one c a n m

plan_pv-Covered :
    (above : List Above) (c : PvClass) (a : ℕ) (named : Base × Ending) (m : Text)
    → Covered (named_in (plan_pv above c a named)) ((c, a, m) ∷ [])
unfolding named_in
plan_pv-Covered above c a (b, done) m = enroll_at-Covered (get_port above) c a b.full_name m
plan_pv-Covered above c a (b, failed e) m = Covered-one c a b.full_name m
plan_pv-Covered above c a (b, stopped) m = Covered-one c a b.full_name m

plan_node-Covered :
    (ctx : Context) (k : Kind) (named : Base × Ending) (marked : Result Unit) (below : List Action)
    (es : List Entry)
    → Covered (named_in below) es
    → Covered (named_in (plan_node ctx k named marked below)) es
unfolding named_in
plan_node-Covered ctx k (b, done) (ok u) below es h =
    rw (named_in-calls below (closing ctx b.full_name k)) h
plan_node-Covered ctx k (b, done) (err e) below es h = Covered-nil es
plan_node-Covered ctx k (b, failed e) marked below es h = Covered-nil es
plan_node-Covered ctx k (b, stopped) marked below es h = Covered-nil es

mutual
  unfolding plan_object plan_children pvs_of pvs_of_children named_in

  plan_object-Covered :
      (ctx : Context) (above : List Above) (place : Base → Base) (t : Tree)
      → Covered (named_in (plan_object ctx above place t)) (pvs_of t)
  plan_object-Covered ctx above place (object b (pv c a) cs) =
      plan_pv-Covered above c a (name_object ctx above (place b) (pv c a)) b.full_name
  plan_object-Covered ctx above place (object b (machine t s) cs) =
      let named = name_object ctx above (place b) (machine t s) in
      plan_node-Covered ctx (machine t s) named (set_parents named.0.node_level cs).1 _ _ (
        plan_children-Covered ctx (record { base = named.0; kind = machine t s } ∷ above)
          named.0.node_level cs)
  plan_object-Covered ctx above place (object b (plain t) cs) =
      let named = name_object ctx above (place b) (plain t) in
      plan_node-Covered ctx (plain t) named (set_parents named.0.node_level cs).1 _ _ (
        plan_children-Covered ctx (record { base = named.0; kind = plain t } ∷ above)
          named.0.node_level cs)
  plan_object-Covered ctx above place (object b (Kind.port t i) cs) =
      let k = opened (full_name_below (place b) (Kind.port t i) above) (Kind.port t i) in
      let named = name_object ctx above (place b) k in
      plan_node-Covered ctx k named (set_parents named.0.node_level cs).1 _ _ (
        plan_children-Covered ctx (record { base = named.0; kind = k } ∷ above) named.0.node_level
          cs)

  plan_children-Covered :
      (ctx : Context) (above : List Above) (level : ℕ) (cs : Children)
      → Covered (named_in (plan_children ctx above level cs)) (pvs_of_children cs)
  plan_children-Covered ctx above level nil = Covered-nil []
  plan_children-Covered ctx above level (cons t cs) =
      subst (λ es. Covered es (pvs_of t ++ pvs_of_children cs))
        (sym (
          named_in-append (plan_object ctx above (adopted level) t)
            (plan_children ctx above level cs)))
        (Covered-append _ _ (pvs_of t) (pvs_of_children cs)
          (plan_object-Covered ctx above (adopted level) t)
          (plan_children-Covered ctx above level cs))

held-registry :
    (device root : ℕ) (r : World × Ending) → (held device root r).0.registry ≡ r.0.registry
held-registry device root (w, done) = refl
held-registry device root (w, failed e) = refl
held-registry device root (w, stopped) = refl

-- Where the PVs of the tree are all different, registered under no name, and have no links, the registry
-- that was consistent before initializeRootNode is so afterwards, whether it ends well or not.
pub initialize_root_node-Consistent :
    (ctx : Context) (device root : ℕ) (t : Tree) (w : World)
    → Consistent w.registry
    → All (λ (e : Entry). IsFresh w.registry e.0 e.1) (pvs_of t)
    → Distinct (pvs_of t)
    → Consistent (initialize_root_node ctx device root t w).1.registry
initialize_root_node-Consistent ctx device root t w v fresh distinct =
    let plan = plan_object ctx [] (λ b. b) t in
    let k = plan_object-Covered ctx [] (λ b. b) t in
    let after = run-Consistent plan w v (k.all (IsFresh w.registry) fresh, k.distinct distinct) in
    subst (λ (x : World × Ending). Consistent x.0.registry)
      (sym (initialize_root_node-runs ctx device root t w))
      (elim (Bool-cases (base_of t).has_parent) [
        | inl e ↦ rw e v
        | inr e ↦ rw (e, held-registry device root (run plan w)) after
      ])

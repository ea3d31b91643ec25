-- ===== src/Initialize/Keeps.antt =====
-- The registered PVs before and after an initialization.
use nds.Prelude.{
  ℕ, ◌≡◌, refl, sym, subst, Option, some, List, [], ◌∷◌, arith, Text, text_eq_iff, text_eq_refl,
  lookup, lookup-insert,
}
use nds.Types.{Result, ok, err, PvClass, input, output}
use nds.Node.{Children}
use nds.World.{
  World, Ending, done, failed, stopped, Context, Above, called, and_then, set_memory_name,
  registered, register_class,
}
use nds.Initialize.{init_children}
use nds.Initialize.Plan.{Action, run, act, plan_children, calls, set_name, enroll, halt}
use nds.Initialize.Runs.{init_children-runs}
use nds.Registry.{Registry, register_input_pv, register_output_pv}

-- The PV that the registry has under a name, among those of the class.
abbrev pub found : PvClass → Text → Registry → Option ℕ
found (input t) n r = lookup n r.registered_inputs
found (output t) n r = lookup n r.registered_outputs

-- Each name that leads to a PV still does.
abbrev pub Keeps : Registry → Registry → Type 0
Keeps r s = (c : PvClass) → (a : ℕ) → (n : Text) → found c n r ≡ some a → found c n s ≡ some a

pub register_class-found :
    (c : PvClass) (a : ℕ) (n : Text) (r s : Registry)
    → register_class c a (set_memory_name c a n r) ≡ ok s
    → found c n s ≡ some a
unfolding register_class set_memory_name register_input_pv register_output_pv
register_class-found (input t) a n r s h =
    ground (arith, lookup-insert n n a r.registered_inputs, text_eq_refl n)
register_class-found (output t) a n r s h =
    ground (arith, lookup-insert n n a r.registered_outputs, text_eq_refl n)

register_class-Keeps :
    (c : PvClass) (a : ℕ) (r s : Registry) → register_class c a r ≡ ok s → Keeps r s
unfolding register_class register_input_pv register_output_pv
register_class-Keeps (input t) a r s h (input t') i n e =
    let name = (r.inputs a).full_name in
    ground (arith, lookup-insert name n a r.registered_inputs, text_eq_iff name n)
register_class-Keeps (input t) a r s h (output t') i n e = ground arith
register_class-Keeps (output t) a r s h (input t') i n e = ground arith
register_class-Keeps (output t) a r s h (output t') i n e =
    let name = r.output_name a in
    ground (arith, lookup-insert name n a r.registered_outputs, text_eq_iff name n)

set_memory_name-Keeps :
    (c : PvClass) (a : ℕ) (m : Text) (r : Registry) → Keeps r (set_memory_name c a m r)
unfolding set_memory_name
set_memory_name-Keeps (input t) a m r (input t') i n h = h
set_memory_name-Keeps (input t) a m r (output t') i n h = h
set_memory_name-Keeps (output t) a m r (input t') i n h = h
set_memory_name-Keeps (output t) a m r (output t') i n h = h

registered-Keeps :
    (w : World) (answer : Result Registry)
    → ((s : Registry) → answer ≡ ok s → Keeps w.registry s)
    → Keeps w.registry (registered w answer).0.registry
unfolding registered
registered-Keeps w (ok s) h = h s refl
registered-Keeps w (err e) h = λ c a n k. k

act-Keeps : (x : Action) (w : World) → Keeps w.registry (act x w).0.registry
unfolding act called
act-Keeps (calls cs) w = λ c a n h. h
act-Keeps (set_name c a m) w = set_memory_name-Keeps c a m w.registry
act-Keeps (enroll c a m) w = λ c' i n h.
    registered-Keeps (record w { registry = set_memory_name c a m w.registry }) _
      (register_class-Keeps c a (set_memory_name c a m w.registry)) c' i n
      (set_memory_name-Keeps c a m w.registry c' i n h)
act-Keeps (halt end) w = λ c a n h. h

and_then-Keeps :
    (r : Registry) (x y : World × Ending)
    → Keeps r x.0.registry
    → Keeps x.0.registry y.0.registry
    → Keeps r (and_then x y).0.registry
and_then-Keeps r (w, done) y h k = λ c a n e. k c a n (h c a n e)
and_then-Keeps r (w, failed x) y h k = h
and_then-Keeps r (w, stopped) y h k = h

pub run-Keeps : (xs : List Action) (w : World) → Keeps w.registry (run xs w).0.registry
unfolding run
run-Keeps [] w = λ c a n h. h
run-Keeps (x ∷ xs) w =
    and_then-Keeps w.registry (act x w) (run xs (act x w).0) (act-Keeps x w)
      (run-Keeps xs (act x w).0)

pub init_children-Keeps :
    (ctx : Context) (above : List Above) (level : ℕ) (cs : Children) (w : World)
    → Keeps w.registry (init_children ctx above level cs w).1.registry
init_children-Keeps ctx above level cs w =
    subst (λ x. Keeps w.registry x.0.registry) (sym (init_children-runs ctx above level cs w))
      (run-Keeps (plan_children ctx above level cs) w)

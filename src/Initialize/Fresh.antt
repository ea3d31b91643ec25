-- ===== src/Initialize/Fresh.antt =====
-- Registering PVs that are not registered yet, and what the registry is then.
use nds.Prelude.{
  ℕ, ◌≡◌, refl, ◌≢◌, some, List, [], ◌∷◌, arith, All, All-map, Text, lookup, lookup-insert,
}
use nds.Types.{Result, ok, err, PvClass, input, output}
use nds.World.{
  World, Ending, done, failed, stopped, called, and_then, set_memory_name, registered,
  register_class,
}
use nds.Registry.{Registry, register_input_pv, register_output_pv}
use nds.Registry.Consistent.{
  Consistent, register_input_pv-Consistent, register_output_pv-Consistent,
}
use nds.Initialize.Plan.{Action, run, act, calls, set_name, enroll, halt}
use nds.Initialize.Found.{Entry}
use nds.Deinitialize.Named.{Apart, Distinct}

-- The PV is registered under no name, and has no links.
abbrev pub IsFresh : Registry → PvClass → ℕ → Type 0
IsFresh r (input t) a =
    ((n : Text) → lookup n r.registered_inputs ≢ some a)
    × ((r.inputs a).subscribers ≡ [])
    × ((r.inputs a).destinations ≡ [])
IsFresh r (output t) a = (n : Text) → lookup n r.registered_outputs ≢ some a

-- The PVs that actions name.
unfoldable pub named_in : List Action → List Entry
named_in [] = []
named_in (calls cs ∷ xs) = named_in xs
named_in (set_name c a n ∷ xs) = (c, a, n) ∷ named_in xs
named_in (enroll c a n ∷ xs) = (c, a, n) ∷ named_in xs
named_in (halt end ∷ xs) = named_in xs

set_memory_name-Consistent :
    (c : PvClass) (a : ℕ) (n : Text) (r : Registry)
    → Consistent r
    → IsFresh r c a
    → Consistent (set_memory_name c a n r)
unfolding set_memory_name
set_memory_name-Consistent (input t) a n r v (free, subs, dests) = record {
  input_name = λ m i e. ground (arith, v.input_name m i e, free m);
  output_named = v.output_named;
  disjoint = v.disjoint;
  subscribers_live = λ m i o e k. ground (arith, v.subscribers_live m i o e, free m);
  destinations_live =
      λ m i d e k. ground (arith, v.destinations_live m i d e, free m, free (r.inputs d).full_name);
}
set_memory_name-Consistent (output t) a n r v free = record {
  input_name = v.input_name;
  output_named = λ m o e. ground (arith, v.output_named m o e, free m);
  disjoint = v.disjoint;
  subscribers_live =
      λ m i o e k. ground (arith, v.subscribers_live m i o e, free (r.output_name o));
  destinations_live = v.destinations_live;
}

set_memory_name-IsFresh :
    (c : PvClass) (a : ℕ) (n : Text) (r : Registry) (c' : PvClass) (i : ℕ)
    → IsFresh r c' i
    → IsFresh (set_memory_name c a n r) c' i
unfolding set_memory_name
set_memory_name-IsFresh (input t) a n r (input t') i (free, subs, dests) =
    (free, ground (arith, subs), ground (arith, dests))
set_memory_name-IsFresh (input t) a n r (output t') i free = free
set_memory_name-IsFresh (output t) a n r (input t') i free = free
set_memory_name-IsFresh (output t) a n r (output t') i free = free

register_class-Consistent :
    (c : PvClass) (a : ℕ) (r s : Registry)
    → Consistent r
    → IsFresh r c a
    → register_class c a r ≡ ok s
    → Consistent s
unfolding register_class
register_class-Consistent (input t) a r s v (free, subs, dests) e =
    register_input_pv-Consistent r v a subs dests e
register_class-Consistent (output t) a r s v free e = register_output_pv-Consistent r v a e

register_class-IsFresh :
    (c : PvClass) (a : ℕ) (r s : Registry) (c' : PvClass) (i : ℕ) (n : Text)
    → Apart c a (c', i, n)
    → register_class c a r ≡ ok s
    → IsFresh r c' i
    → IsFresh s c' i
unfolding register_class register_input_pv register_output_pv
register_class-IsFresh (input t) a r s (input t') i n apart e (free, subs, dests) = (
  λ m. ground (arith, free m, apart, lookup-insert (r.inputs a).full_name m a r.registered_inputs),
  ground (arith, subs),
  ground (arith, dests),
)
register_class-IsFresh (input t) a r s (output t') i n apart e free = λ m. ground (arith, free m)
register_class-IsFresh (output t) a r s (input t') i n apart e (free, subs, dests) =
    (λ m. ground (arith, free m), ground (arith, subs), ground (arith, dests))
register_class-IsFresh (output t) a r s (output t') i n apart e free =
    λ m. ground (arith, free m, apart, lookup-insert (r.output_name a) m a r.registered_outputs)

-- PVs that can be registered one after the other.
abbrev pub IsReady : Registry → List Entry → Type 0
IsReady r es = All (λ (e : Entry). IsFresh r e.0 e.1) es × Distinct es

-- The registry is consistent, and the PVs can be registered in it.
abbrev Allows : Registry → List Entry → Type 0
Allows r es = Consistent r × IsReady r es

set_memory_name-IsReady :
    (c : PvClass) (a : ℕ) (n : Text) (r : Registry) (es : List Entry)
    → IsReady r es
    → IsReady (set_memory_name c a n r) es
set_memory_name-IsReady c a n r es (free, distinct) =
    (All-map (λ (e : Entry) f. set_memory_name-IsFresh c a n r e.0 e.1 f) es free, distinct)

both : (P Q : Entry → Type 0) (es : List Entry) → All P es → All Q es → All (λ e. P e × Q e) es
both P Q [] p q = tt
both P Q (e ∷ es) p q = ((p.0, q.0), both P Q es p.1 q.1)

registered-Allows :
    (c : PvClass) (a : ℕ) (n : Text) (w : World) (es : List Entry) (answer : Result Registry)
    → register_class c a w.registry ≡ answer
    → Consistent w.registry
    → IsReady w.registry ((c, a, n) ∷ es)
    → Allows (registered w answer).0.registry es
unfolding registered
registered-Allows c a n w es (err e) h v ready = (v, (ready.0.1, ready.1.1))
registered-Allows c a n w es (ok s) h v ready = (
  register_class-Consistent c a w.registry s v ready.0.0 h,
  (
    All-map (λ (e : Entry) f. register_class-IsFresh c a w.registry s e.0 e.1 e.2 f.0 h f.1) es
        (both (Apart c a) (λ (e : Entry). IsFresh w.registry e.0 e.1) es ready.1.0 ready.0.1),
    ready.1.1,
  ),
)

act-Allows :
    (x : Action) (xs : List Action) (w : World)
    → Allows w.registry (named_in (x ∷ xs))
    → Allows (act x w).0.registry (named_in xs)
unfolding act called named_in
act-Allows (calls cs) xs w h = h
act-Allows (halt end) xs w h = h
act-Allows (set_name c a n) xs w (v, ready) =
    let ready' = set_memory_name-IsReady c a n w.registry (named_in xs) (ready.0.1, ready.1.1) in
    (set_memory_name-Consistent c a n w.registry v ready.0.0, ready')
act-Allows (enroll c a n) xs w (v, ready) =
    let w' : World = record w { registry = set_memory_name c a n w.registry } in
    registered-Allows c a n w' (named_in xs) (register_class c a w'.registry) refl
      (set_memory_name-Consistent c a n w.registry v ready.0.0)
      (set_memory_name-IsReady c a n w.registry ((c, a, n) ∷ named_in xs) ready)

and_then-Consistent :
    (x y : World × Ending)
    → Consistent x.0.registry
    → Consistent y.0.registry
    → Consistent (and_then x y).0.registry
and_then-Consistent (w, done) y h k = k
and_then-Consistent (w, failed e) y h k = h
and_then-Consistent (w, stopped) y h k = h

pub run-Consistent :
    (xs : List Action) (w : World)
    → Consistent w.registry
    → IsReady w.registry (named_in xs)
    → Consistent (run xs w).0.registry
unfolding run
run-Consistent [] w v ready = v
run-Consistent (x ∷ xs) w v ready =
    let (v', ready') = act-Allows x xs w (v, ready) in
    and_then-Consistent (act x w) (run xs (act x w).0) v' (run-Consistent xs (act x w).0 v' ready')

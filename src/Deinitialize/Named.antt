-- ===== src/Deinitialize/Named.antt =====
-- The full names of the PVs, in the registry's memory and in the tree, after an initialization.
use nds.Prelude.{
  ℕ, ◌≡◌, refl, ◌∙◌, ◌≢◌, Option, none, some, List, [], ◌∷◌, ◌++◌, arith, All, All-append_left,
  All-append_right, Text,
}
use nds.Types.{Result, ok, err, PvClass, input, output}
use nds.Node.{Base}
use nds.World.{
  World, Ending, done, failed, stopped, Above, get_port, register_at, registered, register_class,
  after_naming, commands_registered, register_commands, called, set_memory_name,
}
use nds.Registry.{Registry, register_input_pv, register_output_pv}
use nds.Initialize.Found.{Entry}
use nds.Deinitialize.Gone.{IsNamed, name_of}

-- Two PVs that are not the same object: input PVs, or output PVs, with different addresses.
abbrev pub Apart : PvClass → ℕ → Entry → Type 0
Apart (input t) a (input t', b, n) = a ≢ b
Apart (output t) a (output t', b, n) = a ≢ b
Apart _ a _ = Unit

-- No PV is twice in the tree.
abbrev pub Distinct : List Entry → Type 0
Distinct [] = Unit
Distinct ((c, a, n) ∷ es) = All (Apart c a) es × Distinct es

pub Distinct-append :
    (xs ys : List Entry)
    → Distinct (xs ++ ys)
    → Distinct xs × All (λ x. All (Apart x.0 x.1) ys) xs × Distinct ys
Distinct-append [] ys h = (tt, tt, h)
Distinct-append ((c, a, n) ∷ xs) ys h =
    let (dx, across, dy) = Distinct-append xs ys h.1 in
    (
      (All-append_left (Apart c a) xs ys h.0, dx),
      (All-append_right (Apart c a) xs ys h.0, across),
      dy,
    )

register_class-name_of :
    (c : PvClass) (a : ℕ) (r s : Registry) (c' : PvClass) (i : ℕ)
    → register_class c a r ≡ ok s
    → name_of c' i s ≡ name_of c' i r
unfolding register_class register_input_pv register_output_pv
register_class-name_of (input t) a r s (input t') i h = ground arith
register_class-name_of (input t) a r s (output t') i h = ground arith
register_class-name_of (output t) a r s (input t') i h = ground arith
register_class-name_of (output t) a r s (output t') i h = ground arith

set_memory_name-same :
    (c : PvClass) (a : ℕ) (n : Text) (r : Registry) → name_of c a (set_memory_name c a n r) ≡ n
unfolding set_memory_name
set_memory_name-same (input t) a n r = ground arith
set_memory_name-same (output t) a n r = ground arith

set_memory_name-Apart :
    (c : PvClass) (a : ℕ) (n m : Text) (r : Registry) (c' : PvClass) (i : ℕ)
    → Apart c' i (c, a, m)
    → name_of c' i (set_memory_name c a n r) ≡ name_of c' i r
unfolding set_memory_name
set_memory_name-Apart (input t) a n m r (input t') i h = ground (arith, h)
set_memory_name-Apart (input t) a n m r (output t') i h = refl
set_memory_name-Apart (output t) a n m r (input t') i h = refl
set_memory_name-Apart (output t) a n m r (output t') i h = ground (arith, h)

-- Where it ended well, the PVs have their names, and those apart from them keep theirs.
abbrev pub Names : {A : Type 0} → (A → List Entry) → Registry → A × World × Ending → Type 0
Names pvs r (x, w, end) =
    end ≡ done
    → ((c : PvClass)
        → (i : ℕ) → All (λ e. Apart c i e) (pvs x)
        → name_of c i w.registry ≡ name_of c i r)
      × (Distinct (pvs x) → All (IsNamed w.registry) (pvs x))

abbrev entry_of : PvClass → ℕ → Base → List Entry
entry_of c a b = (c, a, b.full_name) ∷ []

registered-Names :
    (c : PvClass) (a : ℕ) (b : Base) (w : World) (answer : Result Registry) (r : Registry)
    → ((s : Registry)
        → answer ≡ ok s
        → register_class c a (set_memory_name c a b.full_name r) ≡ ok s)
    → Names (entry_of c a) r (b, (registered w answer).0, (registered w answer).1)
unfolding registered
registered-Names c a b w (err e) r h = λ k. absurd (ground arith)
registered-Names c a b w (ok s) r h = λ k. (
  λ c' i apart.
      register_class-name_of c a _ s c' i (h s refl)
      ∙ set_memory_name-Apart c a b.full_name b.full_name r c' i apart.0,
  λ d. (register_class-name_of c a _ s c a (h s refl) ∙ set_memory_name-same c a b.full_name r, tt),
)

at-Names :
    (port : Option Text) (c : PvClass) (a : ℕ) (b : Base) (w : World)
    → let x =
        register_at port c a (record w { registry = set_memory_name c a b.full_name w.registry }) in
      Names (entry_of c a) w.registry (b, x.0, x.1)
unfolding register_at
at-Names none c a b w = λ k. absurd (ground arith)
at-Names (some i) c a b w = registered-Names c a b _ _ w.registry (λ s e. e)

pub pv-Names :
    (above : List Above) (c : PvClass) (a : ℕ) (named : Base × Ending) (w : World)
    → Names (entry_of c a) w.registry (after_naming above c a (commands_registered named w))
unfolding after_naming commands_registered register_commands called
pv-Names above c a (b, done) w = at-Names (get_port above) c a b _
pv-Names above c a (b, failed e) w = λ k. absurd (ground arith)
pv-Names above c a (b, stopped) w = λ k. absurd (ground arith)

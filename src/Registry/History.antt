-- ===== src/Registry/History.antt =====
-- Any sequence of registrations and links, from the empty registry.
use nds.Prelude.{ℕ, [], some, ◌≡◌, arith, Text, lookup, Option-cases, subst, inl, inr}
use nds.Types.{ok}
use nds.Registry.{
  InputPv, Registry, register_input_pv, register_output_pv, deregister_input_pv,
  deregister_output_pv, subscribe_pv, subscribe, unsubscribe, unsubscribe_pv, replicate_pv,
  replicate, stop_replication_pv, stop_replication,
}
use nds.Registry.Consistent.{
  Consistent, register_input_pv-Consistent, register_output_pv-Consistent,
  deregister_input_pv-Consistent, deregister_output_pv-Consistent, unsubscribe_pv-Consistent,
  stop_replication_pv-Consistent,
}
use nds.Registry.Links.{subscribe_pv-Consistent, replicate_pv-Consistent}

-- The calls of the PVs and of the user. A PV is registered before it has links, and deregistered by
-- itself: the conditions say so.
pub data Step (s : Registry) : Registry → Type 0 where
  register_in :
      (r : ℕ) {t : Registry}
      → (s.inputs r).subscribers ≡ []
      → (s.inputs r).destinations ≡ []
      → register_input_pv r s ≡ ok t
      → Step s t
  register_out : (r : ℕ) {t : Registry} → register_output_pv r s ≡ ok t → Step s t
  deregister_in :
      (r : ℕ)
      → lookup (s.inputs r).full_name s.registered_inputs ≡ some r
      → Step s (deregister_input_pv r s)
  deregister_out :
      (r : ℕ)
      → lookup (s.output_name r) s.registered_outputs ≡ some r
      → Step s (deregister_output_pv r s)
  subscribes_pv : (from : Text) (r : ℕ) {t : Registry} → subscribe_pv from r s ≡ ok t → Step s t
  subscribes : (from to : Text) {t : Registry} → subscribe from to s ≡ ok t → Step s t
  unsubscribes_pv : (r : ℕ) → Step s (unsubscribe_pv r s)
  unsubscribes : (to : Text) {t : Registry} → unsubscribe to s ≡ ok t → Step s t
  replicates_pv : (from : Text) (d : ℕ) {t : Registry} → replicate_pv from d s ≡ ok t → Step s t
  replicates : (from to : Text) {t : Registry} → replicate from to s ≡ ok t → Step s t
  stops_pv : (d : ℕ) → Step s (stop_replication_pv d s)
  stops : (to : Text) {t : Registry} → stop_replication to s ≡ ok t → Step s t

pub data Reach (s : Registry) : Registry → Type 0 where
  here : Reach s s
  next : {t u : Registry} → Reach s t → Step t u → Reach s u

-- The memory of the PVs before any is registered.
abbrev pub empty : (ℕ → InputPv) → (ℕ → Text) → Registry
empty h names = record {
  inputs = h;
  output_name = names;
  registered_inputs = [];
  registered_outputs = [];
}

module _ (s : Registry) (v : Consistent s) where
  subscribe-Consistent : (from to : Text) {t : Registry} → subscribe from to s ≡ ok t → Consistent t
  unfolding subscribe
  subscribe-Consistent from to {t} e = elim (Option-cases (lookup to s.registered_outputs)) [
    | inl k ↦ absurd (ground arith)
    | inr (r, k) ↦ subscribe_pv-Consistent s v from r (ground arith)
  ]

  replicate-Consistent : (from to : Text) {t : Registry} → replicate from to s ≡ ok t → Consistent t
  unfolding replicate
  replicate-Consistent from to {t} e = elim (Option-cases (lookup to s.registered_inputs)) [
    | inl k ↦ absurd (ground arith)
    | inr (r, k) ↦ replicate_pv-Consistent s v from r (ground arith)
  ]

  unsubscribe-Consistent : (to : Text) {t : Registry} → unsubscribe to s ≡ ok t → Consistent t
  unfolding unsubscribe
  unsubscribe-Consistent to {t} e = elim (Option-cases (lookup to s.registered_outputs)) [
    | inl k ↦ absurd (ground arith)
    | inr (r, k) ↦
        let q : unsubscribe_pv r s ≡ t = ground arith in
        subst Consistent q (unsubscribe_pv-Consistent s v r)
  ]

  stop_replication-Consistent :
      (to : Text) {t : Registry} → stop_replication to s ≡ ok t → Consistent t
  unfolding stop_replication
  stop_replication-Consistent to {t} e = elim (Option-cases (lookup to s.registered_inputs)) [
    | inl k ↦ absurd (ground arith)
    | inr (r, k) ↦
        let q : stop_replication_pv r s ≡ t = ground arith in
        subst Consistent q (stop_replication_pv-Consistent s v r)
  ]

Step-Consistent : {s t : Registry} → Step s t → Consistent s → Consistent t
Step-Consistent {s} (register_in r a b e) v = register_input_pv-Consistent s v r a b e
Step-Consistent {s} (register_out r e) v = register_output_pv-Consistent s v r e
Step-Consistent {s} (deregister_in r e) v = deregister_input_pv-Consistent s v r e
Step-Consistent {s} (deregister_out r e) v = deregister_output_pv-Consistent s v r e
Step-Consistent {s} (subscribes_pv from r e) v = subscribe_pv-Consistent s v from r e
Step-Consistent {s} (subscribes from to e) v = subscribe-Consistent s v from to e
Step-Consistent {s} (unsubscribes_pv r) v = unsubscribe_pv-Consistent s v r
Step-Consistent {s} (unsubscribes to e) v = unsubscribe-Consistent s v to e
Step-Consistent {s} (replicates_pv from d e) v = replicate_pv-Consistent s v from d e
Step-Consistent {s} (replicates from to e) v = replicate-Consistent s v from to e
Step-Consistent {s} (stops_pv d) v = stop_replication_pv-Consistent s v d
Step-Consistent {s} (stops to e) v = stop_replication-Consistent s v to e

empty-Consistent : (h : ℕ → InputPv) (names : ℕ → Text) → Consistent (empty h names)
unfolding lookup
empty-Consistent h names = record {
  input_name = λ n i e. cc;
  output_named = λ n o e. cc;
  disjoint = λ n i o e. cc;
  subscribers_live = λ n i o e c. cc;
  destinations_live = λ n i d e c. cc;
}

-- After any calls, every registered name leads to the PV of that name, no name is both an input's
-- and an output's, and every subscriber and destination of a registered input PV is registered
-- itself. A PV is taken to have no links when it is registered, and to be the registered one of its
-- name when it is deregistered.
pub Reach-Consistent :
    (h : ℕ → InputPv) (names : ℕ → Text) {s : Registry} → Reach (empty h names) s → Consistent s
Reach-Consistent h names here = empty-Consistent h names
Reach-Consistent h names (next r st) = Step-Consistent st (Reach-Consistent h names r)

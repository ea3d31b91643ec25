-- ===== src/Registry/Links.antt =====
-- Subscriptions and replications: what they add, and that they keep the registry consistent.
use nds.Prelude.{
  ℕ, List, contains, true, none, some, ◌==◌, ◌≡◌, ◌≢◌, inl, inr, subst, arith, Text, lookup,
  contains-set_insert, update, Option-cases, Bool-cases,
}
use nds.Types.{Result, ok, err, missing_input_pv, logic_error}
use nds.Registry.{Registry, subscribe_receiver, replicate_to, subscribe_pv, replicate_pv}
use nds.Registry.Consistent.{Consistent}

-- The receiver `r` is a subscriber of the input `i`, whose other subscribers and whose other fields are
-- as they were; so are the other inputs and all the rest of the registry.
pub data Subscribed (i r : ℕ) (s : Registry) : Registry → Type 0 where
  added :
      (subscribers : List ℕ)
      → (contains r subscribers ≡ true)
      → ((o : ℕ) → o ≢ r → contains o subscribers ≡ contains o (s.inputs i).subscribers)
      → Subscribed i r s (record s {
        inputs = update s.inputs i (record (s.inputs i) { subscribers = subscribers });
      })

subscribe_receiver-Subscribed :
    (i r : ℕ) (s : Registry)
    → Subscribed i r s (record s { inputs = update s.inputs i (subscribe_receiver r (s.inputs i)) })
unfolding subscribe_receiver
subscribe_receiver-Subscribed i r s =
    added _ (ground (arith, contains-set_insert r r (s.inputs i).subscribers))
      (λ o ne. ground (arith, contains-set_insert r o (s.inputs i).subscribers))

-- How `subscribe` answers for the receiver `r`: the three refusals, and the subscription.
pub data SubscribeCase (from : Text) (r : ℕ) (s : Registry) (a : Result Registry) : Type 0 where
  not_registered :
      lookup (s.output_name r) s.registered_outputs ≢ some r
      → a ≡ err logic_error
      → SubscribeCase from r s a
  no_source :
      lookup (s.output_name r) s.registered_outputs ≡ some r
      → lookup from s.registered_inputs ≡ none
      → a ≡ err missing_input_pv
      → SubscribeCase from r s a
  subscribed :
      (i : ℕ) (t : Registry)
      → lookup (s.output_name r) s.registered_outputs ≡ some r
      → lookup from s.registered_inputs ≡ some i
      → a ≡ ok t
      → Subscribed i r s t
      → SubscribeCase from r s a

-- Every answer of subscribe to a pointer: a logic error where the receiver is not the registered PV
-- of its name, else MissingInputPV where the source has no registered PV, else the receiver is a
-- subscriber of the source's PV, and its other subscribers and all the rest are as before.
pub subscribe_pv-SubscribeCase :
    (from : Text) (r : ℕ) (s : Registry) → SubscribeCase from r s (subscribe_pv from r s)
unfolding subscribe_pv
subscribe_pv-SubscribeCase from r s =
    elim (Option-cases (lookup (s.output_name r) s.registered_outputs)) [
      | inl e ↦ not_registered (λ k. cc) (ground arith)
      | inr (f, e) ↦ elim (Bool-cases (f == r)) [
        | inr d ↦ not_registered (λ k. absurd (ground arith)) (ground arith)
        | inl same ↦ elim (Option-cases (lookup from s.registered_inputs)) [
          | inl m ↦ no_source (ground arith) m (ground arith)
          | inr (i, k) ↦
              subscribed i _ (ground arith) k (ground arith) (subscribe_receiver-Subscribed i r s)
        ]
      ]
    ]

pub data ReplicateCase (from : Text) (d : ℕ) (s : Registry) (a : Result Registry) : Type 0 where
  not_registered :
      lookup (s.inputs d).full_name s.registered_inputs ≢ some d
      → a ≡ err logic_error
      → ReplicateCase from d s a
  no_source :
      lookup (s.inputs d).full_name s.registered_inputs ≡ some d
      → lookup from s.registered_inputs ≡ none
      → a ≡ err missing_input_pv
      → ReplicateCase from d s a
  replicated :
      (i : ℕ)
      → lookup (s.inputs d).full_name s.registered_inputs ≡ some d
      → lookup from s.registered_inputs ≡ some i
      → a ≡ ok (record s { inputs = update s.inputs i (replicate_to d (s.inputs i)) })
      → ReplicateCase from d s a

-- Every answer of replicate to a pointer: a logic error where the destination is not the registered
-- PV of its name, else MissingInputPV where the source has no registered PV, else the destination
-- becomes one of the source's PV and nothing else changes.
pub replicate_pv-ReplicateCase :
    (from : Text) (d : ℕ) (s : Registry) → ReplicateCase from d s (replicate_pv from d s)
unfolding replicate_pv
replicate_pv-ReplicateCase from d s =
    elim (Option-cases (lookup (s.inputs d).full_name s.registered_inputs)) [
      | inl e ↦ not_registered (λ k. cc) (ground arith)
      | inr (f, e) ↦ elim (Bool-cases (f == d)) [
        | inr c ↦ not_registered (λ k. absurd (ground arith)) (ground arith)
        | inl same ↦ elim (Option-cases (lookup from s.registered_inputs)) [
          | inl m ↦ no_source (ground arith) m (ground arith)
          | inr (i, k) ↦ replicated i (ground arith) k (ground arith)
        ]
      ]
    ]

module _ (s : Registry) (v : Consistent s) where
  linked_subscriber :
      (from : Text) (i r : ℕ) {t : Registry}
      → lookup (s.output_name r) s.registered_outputs ≡ some r
      → lookup from s.registered_inputs ≡ some i
      → Subscribed i r s t
      → Consistent t
  linked_subscriber from i r reg found (added subscribers is_in others) = record {
    input_name = λ n j k. ground (arith, v.input_name n j);
    output_named = v.output_named;
    disjoint = v.disjoint;
    subscribers_live = λ n j o k c. ground (arith, v.subscribers_live n j o, reg, others o);
    destinations_live = λ n j d k c. ground (arith, v.destinations_live n j d);
  }

  linked_destination :
      (from : Text) (i r : ℕ)
      → lookup (s.inputs r).full_name s.registered_inputs ≡ some r
      → lookup from s.registered_inputs ≡ some i
      → Consistent (record s { inputs = update s.inputs i (replicate_to r (s.inputs i)) })
  unfolding replicate_to
  linked_destination from i r reg found = record {
    input_name = λ n j k. ground (arith, v.input_name n j);
    output_named = v.output_named;
    disjoint = v.disjoint;
    subscribers_live = λ n j o k c. ground (arith, v.subscribers_live n j o);
    destinations_live = λ n j d k c.
        ground (
          arith,
          v.destinations_live n j d,
          reg,
          contains-set_insert r d (s.inputs i).destinations,
        );
  }

  pub subscribe_pv-Consistent :
      (from : Text) (r : ℕ) {t : Registry} → subscribe_pv from r s ≡ ok t → Consistent t
  subscribe_pv-Consistent from r {t} e = elim (subscribe_pv-SubscribeCase from r s) [
    | not_registered _ k ↦ cc
    | no_source _ _ k ↦ cc
    | subscribed i u reg found k ends ↦
        let q : u ≡ t = cc in subst Consistent q (linked_subscriber from i r reg found ends)
  ]

  pub replicate_pv-Consistent :
      (from : Text) (d : ℕ) {t : Registry} → replicate_pv from d s ≡ ok t → Consistent t
  replicate_pv-Consistent from d {t} e = elim (replicate_pv-ReplicateCase from d s) [
    | not_registered _ k ↦ cc
    | no_source _ _ k ↦ cc
    | replicated i reg found k ↦
        let q : record s { inputs = update s.inputs i (replicate_to d (s.inputs i)) } ≡ t = cc in
        subst Consistent q (linked_destination from i d reg found)
  ]

-- ===== src/Registry/Consistent.antt =====
-- The two maps and the lists of subscribers and destinations fit together.
use nds.Prelude.{
  ℕ, true, [], some, ◌≡◌, ◌≢◌, arith, Text, lookup, erase, lookup-insert, lookup-erase, text_eq_iff,
  contains,
}
use nds.Types.{ok}
use nds.Registry.{
  Registry, register_input_pv, register_output_pv, deregister_input_pv, deregister_output_pv,
  unsubscribe_pv, stop_replication_pv,
}
use nds.Registry.Scan.{
  lookup-has_value, unsubscribed_name, unsubscribed_destinations, unsubscribed_subscribers,
  stopped_name, stopped_subscribers, stopped_destinations,
}

-- Each name leads to the PV of that name, no name is that of an input and of an output PV, and what
-- a registered input PV pushes to is registered.
pub record Consistent (s : Registry) : Type 0 where
  pub input_name :
      (n : Text) (i : ℕ) → lookup n s.registered_inputs ≡ some i → (s.inputs i).full_name ≡ n
  pub output_named :
      (n : Text) (o : ℕ) → lookup n s.registered_outputs ≡ some o → s.output_name o ≡ n
  pub disjoint :
      (n : Text) (i o : ℕ)
      → lookup n s.registered_inputs ≡ some i
      → lookup n s.registered_outputs ≢ some o
  pub subscribers_live :
      (n : Text) (i o : ℕ)
      → lookup n s.registered_inputs ≡ some i
      → contains o (s.inputs i).subscribers ≡ true
      → lookup (s.output_name o) s.registered_outputs ≡ some o
  pub destinations_live :
      (n : Text) (i d : ℕ)
      → lookup n s.registered_inputs ≡ some i
      → contains d (s.inputs i).destinations ≡ true
      → lookup (s.inputs d).full_name s.registered_inputs ≡ some d

module _ (s : Registry) (v : Consistent s) where
  pub deregister_output_pv-Consistent :
      (r : ℕ)
      → lookup (s.output_name r) s.registered_outputs ≡ some r
      → Consistent (deregister_output_pv r s)
  unfolding deregister_output_pv
  deregister_output_pv-Consistent r reg = record {
    input_name = λ n i e.
        ground (arith, v.input_name n i e, unsubscribed_name s.registered_inputs r s.inputs i);
    output_named = λ n o e.
        ground (arith, v.output_named n o, lookup-erase (s.output_name r) n s.registered_outputs);
    disjoint = λ n i o e k.
        ground (arith, v.disjoint n i o e, lookup-erase (s.output_name r) n s.registered_outputs);
    subscribers_live = λ n i o e c. ground (
      arith,
      v.subscribers_live n i o e,
      reg,
      lookup-has_value n i s.registered_inputs e,
      unsubscribed_subscribers s.registered_inputs r s.inputs i o,
      lookup-erase (s.output_name r) (s.output_name o) s.registered_outputs,
      text_eq_iff (s.output_name r) (s.output_name o),
    );
    destinations_live = λ n i d e c. ground (
      arith,
      v.destinations_live n i d e,
      unsubscribed_destinations s.registered_inputs r s.inputs i,
      unsubscribed_name s.registered_inputs r s.inputs d,
    );
  }

  pub deregister_input_pv-Consistent :
      (r : ℕ)
      → lookup (s.inputs r).full_name s.registered_inputs ≡ some r
      → Consistent (deregister_input_pv r s)
  unfolding deregister_input_pv
  deregister_input_pv-Consistent r reg =
      let name = (s.inputs r).full_name in
      let left = erase name s.registered_inputs in
      record {
        input_name = λ n i e. ground (
          arith,
          v.input_name n i,
          lookup-erase name n s.registered_inputs,
          stopped_name left r s.inputs i,
        );
        output_named = λ n o e. v.output_named n o e;
        disjoint =
            λ n i o e k. ground (arith, v.disjoint n i o, lookup-erase name n s.registered_inputs);
        subscribers_live = λ n i o e c. ground (
          arith,
          v.subscribers_live n i o,
          lookup-erase name n s.registered_inputs,
          stopped_subscribers left r s.inputs i,
        );
        destinations_live = λ n i d e c. ground (
          arith,
          v.destinations_live n i d,
          reg,
          lookup-erase name n s.registered_inputs,
          lookup-erase name (s.inputs d).full_name s.registered_inputs,
          text_eq_iff name (s.inputs d).full_name,
          lookup-has_value n i left e,
          stopped_destinations left r s.inputs i d,
          stopped_name left r s.inputs d,
        );
      }

  pub unsubscribe_pv-Consistent : (r : ℕ) → Consistent (unsubscribe_pv r s)
  unfolding unsubscribe_pv
  unsubscribe_pv-Consistent r = record {
    input_name = λ n i e.
        ground (arith, v.input_name n i e, unsubscribed_name s.registered_inputs r s.inputs i);
    output_named = v.output_named;
    disjoint = v.disjoint;
    subscribers_live = λ n i o e c. ground (
      arith,
      v.subscribers_live n i o e,
      unsubscribed_subscribers s.registered_inputs r s.inputs i o,
    );
    destinations_live = λ n i d e c. ground (
      arith,
      v.destinations_live n i d e,
      unsubscribed_destinations s.registered_inputs r s.inputs i,
      unsubscribed_name s.registered_inputs r s.inputs d,
    );
  }

  pub stop_replication_pv-Consistent : (r : ℕ) → Consistent (stop_replication_pv r s)
  unfolding stop_replication_pv
  stop_replication_pv-Consistent r = record {
    input_name =
        λ n i e. ground (arith, v.input_name n i e, stopped_name s.registered_inputs r s.inputs i);
    output_named = v.output_named;
    disjoint = v.disjoint;
    subscribers_live = λ n i o e c.
        ground
          (arith, v.subscribers_live n i o e, stopped_subscribers s.registered_inputs r s.inputs i);
    destinations_live = λ n i d e c. ground (
      arith,
      v.destinations_live n i d e,
      stopped_destinations s.registered_inputs r s.inputs i d,
      stopped_name s.registered_inputs r s.inputs d,
    );
  }

  pub register_output_pv-Consistent :
      (r : ℕ) {t : Registry} → register_output_pv r s ≡ ok t → Consistent t
  unfolding register_output_pv
  register_output_pv-Consistent r e =
      let name = s.output_name r in
      record {
        input_name = λ n i k. ground (arith, v.input_name n i);
        output_named = λ n o k. ground (
          arith,
          v.output_named n o,
          lookup-insert name n r s.registered_outputs,
          text_eq_iff name n,
        );
        disjoint = λ n i o k l. ground (
          arith,
          v.disjoint n i o,
          lookup-insert name n r s.registered_outputs,
          text_eq_iff name n,
        );
        subscribers_live = λ n i o k c. ground (
          arith,
          v.subscribers_live n i o,
          lookup-insert name (s.output_name o) r s.registered_outputs,
          text_eq_iff name (s.output_name o),
        );
        destinations_live = λ n i d k c. ground (arith, v.destinations_live n i d);
      }

  -- A PV that is registered has pushed to nobody yet.
  pub register_input_pv-Consistent :
      (r : ℕ) {t : Registry}
      → (s.inputs r).subscribers ≡ []
      → (s.inputs r).destinations ≡ []
      → register_input_pv r s ≡ ok t
      → Consistent t
  unfolding register_input_pv
  register_input_pv-Consistent r no_subs no_dests e =
      let name = (s.inputs r).full_name in
      record {
        input_name = λ n i k. ground (
          arith,
          v.input_name n i,
          lookup-insert name n r s.registered_inputs,
          text_eq_iff name n,
        );
        output_named = λ n o k. ground (arith, v.output_named n o);
        disjoint = λ n i o k l. ground (
          arith,
          v.disjoint n i o,
          lookup-insert name n r s.registered_inputs,
          text_eq_iff name n,
        );
        subscribers_live = λ n i o k c.
            ground (arith, v.subscribers_live n i o, lookup-insert name n r s.registered_inputs);
        destinations_live = λ n i d k c. ground (
          arith,
          v.destinations_live n i d,
          lookup-insert name n r s.registered_inputs,
          lookup-insert name (s.inputs d).full_name r s.registered_inputs,
          text_eq_iff name (s.inputs d).full_name,
        );
      }

-- ===== src/Push/Circle.antt =====
-- Replication in a circle: nothing forbids it, and the next push waits for itself.
use nds.Prelude.{
  set_insert, ℕ, suc, ◌≡◌, refl, ap, ◌∙◌, some, [], ◌∷◌, arith, ==_refl, lookup, update,
}
use nds.Push.{Write, PushState, deadlock, push, push_all}
use nds.Push.Replication.{AllServed, push_open, to_control_system-links}
use nds.Registry.{Registry, replicate_pv, replicate_to}
use nds.Types.{ok, Timespec}

module _ {V : Type 0} (write : Write V) (ts : Timespec) (v : V) where
  -- A push into a PV that replicates itself waits for its own mutex.
  push_self :
      (n i : ℕ) (st : PushState V)
      → AllServed write ts v
      → (st.inputs i).destinations ≡ i ∷ []
      → (push write (suc (suc n)) [] ts v i st).1 ≡ deadlock
  unfolding push push_all
  push_self n i st h e =
      let links = (to_control_system-links ts v i st i).1 in
      ap (λ r. r.1) (push_open write (suc n) [] ts v i st (i ∷ []) h refl (links ∙ e))
      ∙ ground (arith, ==_refl i)

  -- replicate lets a registered input PV with no destinations replicate itself, and a push into it
  -- then waits for its own mutex, where the writes to the subscribed output PVs come back.
  pub self_replication_deadlocks :
      (s : Registry) (i n : ℕ)
      → AllServed write ts v
      → lookup (s.inputs i).full_name s.registered_inputs ≡ some i
      → (s.inputs i).destinations ≡ []
      → (t : Registry) × (replicate_pv (s.inputs i).full_name i s ≡ ok t)
        × ((push write (suc (suc n)) [] ts v i (record { inputs = t.inputs; effects = [] })).1
            ≡ deadlock)
  unfolding replicate_pv replicate_to set_insert
  self_replication_deadlocks s i n h reg alone =
      let t : Registry = record s { inputs = update s.inputs i (replicate_to i (s.inputs i)) } in
      (
        t,
        ground (arith, ==_refl i),
        push_self n i (record { inputs = t.inputs; effects = [] }) h (ground (arith, ==_refl i)),
      )

-- ===== src/Push/Replication.antt =====
-- Where a pushed value goes, and when the push comes back.
use mathlib.Core.List.{append-nil, append_assoc}
use nds.Prelude.{
  ℕ, zero, suc, ◌<◌, true, false, List, [], ◌∷◌, ◌++◌, map, ◌≡◌, refl, sym, ap, ◌∙◌, arith,
  contains,
}
use nds.Push.{
  decimate, Effect, to_port, to_output, PushState, PushEnd, finished, to_control_system, Write,
  to_subscribers, write_outputs, pass_on, push_all, push,
}
use nds.Registry.{InputPv}
use nds.Types.{Timespec}
use nds.Values.{served}

-- What a list of PVs passes on, one after the other.
abbrev pub spread_all : (ℕ → List ℕ) → List ℕ → List ℕ
spread_all each [] = []
spread_all each (d ∷ ds) = each d ++ spread_all each ds

-- The output PVs that a value reaches from the input PV `i`: the subscribers of `i`, and those that
-- it reaches from each PV that replicates `i`; at most `n` PVs deep.
unfoldable pub spread : ℕ → (ℕ → InputPv) → ℕ → List ℕ
spread zero h i = []
spread (suc n) h i = (h i).subscribers ++ spread_all (spread n h) (h i).destinations

-- Replication goes down in the rank: it runs in no circle.
abbrev pub Ranked : (ℕ → ℕ) → (ℕ → InputPv) → Type 0
Ranked rank h = (i d : ℕ) → contains d (h i).destinations ≡ true → rank d < rank i

abbrev SameLinks : (ℕ → InputPv) → (ℕ → InputPv) → Type 0
SameLinks h k =
    (j : ℕ) → ((k j).subscribers ≡ (h j).subscribers) × ((k j).destinations ≡ (h j).destinations)

module _ {V : Type 0} where
  -- The output PVs written to, in their order.
  abbrev pub outputs : List (Effect V) → List ℕ
  outputs [] = []
  outputs (to_port i ts v ∷ es) = outputs es
  outputs (to_output o ts v ∷ es) = o ∷ outputs es

  pub to_control_system-links :
      (ts : Timespec) (v : V) (i : ℕ) (st : PushState V)
      → SameLinks st.inputs (to_control_system ts v i st).inputs
  unfolding to_control_system decimate
  to_control_system-links ts v i st j = ground arith

  -- The call ends, the links stay, and the output PVs of `l` are written to.
  abbrev Done : (ℕ → InputPv) → List ℕ → PushState V → PushState V × PushEnd → Type 0
  Done h l st r =
      (r.1 ≡ finished) × SameLinks h r.0.inputs × (outputs r.0.effects ≡ outputs st.effects ++ l)

  -- Every write of the value to an output PV comes back.
  abbrev pub AllServed : Write V → Timespec → V → Type 0
  AllServed write ts v = (effects : List (Effect V)) (o : ℕ) → write effects o ts v ≡ served tt

  -- What the writes leave where they all come back.
  abbrev all_written : Timespec → V → ℕ → PushState V → PushState V
  all_written ts v i st = record st {
    effects = st.effects ++ map (λ o. to_output o ts v) (st.inputs i).subscribers;
  }

  write_outputs-served :
      (write : Write V) (ts : Timespec) (v : V)
      → AllServed write ts v
      → (os : List ℕ) (effects : List (Effect V))
      → write_outputs write ts v os effects ≡ (effects ++ map (λ o. to_output o ts v) os, served tt)
  unfolding write_outputs
  write_outputs-served write ts v h [] effects = ap (λ l. (l, served tt)) (sym (append-nil effects))
  write_outputs-served write ts v h (o ∷ os) effects =
      rw (write_outputs, h effects o)
        (write_outputs-served write ts v h os (effects ++ to_output o ts v ∷ [])
          ∙ ap (λ l. (l, served tt)) (append_assoc effects (to_output o ts v ∷ []) _))

  pub to_subscribers-served :
      (write : Write V) (ts : Timespec) (v : V) (i : ℕ) (st : PushState V)
      → AllServed write ts v
      → to_subscribers write ts v i st ≡ (all_written ts v i st, served tt)
  unfolding to_subscribers
  to_subscribers-served write ts v i st h =
      rw (write_outputs-served write ts v h (st.inputs i).subscribers st.effects) refl

  pub push_open :
      (write : Write V) (fuel : ℕ) (held : List ℕ) (ts : Timespec) (v : V) (i : ℕ)
      (st : PushState V) (ds : List ℕ)
      → AllServed write ts v
      → contains i held ≡ false
      → let st2 = all_written ts v i (to_control_system ts v i st) in
        (st2.inputs i).destinations ≡ ds
        → push write (suc fuel) held ts v i st ≡ push_all (push write fuel (i ∷ held) ts v) ds st2
  unfolding push pass_on
  push_open write fuel held ts v i st ds h e d =
      let each = push write fuel (i ∷ held) ts v in
      let st1 = to_control_system ts v i st in
      rw (e, push)
        (ap (pass_on each i) (to_subscribers-served write ts v i st1 h)
          ∙ ap (λ l. push_all each l (all_written ts v i st1)) d)

-- ===== src/Push.antt =====
-- PVBaseInImpl::push of src/pvBaseInImpl.cpp: what a value that a device pushes into an input PV
-- does, by way of the decimation, the subscribed output PVs and the input PVs that replicate it.
pub mod Decimation
pub mod Replication
pub mod Circle
use nds.Prelude.{
  ℕ, zero, suc, ◌+◌, ◌-◌, ◌%◌, ◌^◌, Bool, true, false, List, [], ◌∷◌, ◌++◌, if◌then◌else◌, ◌==◌,
  contains, update,
}
use nds.Registry.{InputPv}
use nds.Types.{Exception, Timespec}
use nds.Values.{Access, served, thrown, terminated}

-- uint32_t
abbrev pub u32_mod : ℕ
u32_mod = 2 ^ 32

unfoldable pub set_decimation : ℕ → InputPv → InputPv
set_decimation decimation p = record p {
  decimation_factor = decimation;
  decimation_count = decimation;
}

-- `--m_decimationCount == 0`, on 32 bits, with the reload of the count.
unfoldable pub decimate : InputPv → Bool × InputPv
decimate p =
    let count = (p.decimation_count + u32_mod - 1) % u32_mod in
    if count == 0
    then (true, record p { decimation_count = p.decimation_factor })
    else (false, record p { decimation_count = count })

-- What others see of a push: a value handed to the control system by way of the port, and a value
-- written to an output PV.
pub data Effect (V : Type 0) : Type 0 where
  to_port : ℕ → Timespec → V → Effect V
  to_output : ℕ → Timespec → V → Effect V

-- The memory of the input PVs, and the effects so far.
pub record PushState (V : Type 0) : Type 0 where
  pub inputs : ℕ → InputPv
  pub effects : List (Effect V)

-- `deadlock`: the thread waits for a subscribers' mutex that it holds. `thrown_out` is an exception of a
-- write to a subscribed output PV, and `process_ended` a write that ends the process.
pub data PushEnd : Type 0 where
  finished deadlock process_ended out_of_fuel : PushEnd
  thrown_out : Exception → PushEnd

-- How the write to an output PV ends, after the effects so far: the class of the output PV says it, by
-- its data type and, where it calls delegate functions, by what these do.
abbrev pub Write : Type 0 → Type 0
Write V = List (Effect V) → ℕ → Timespec → V → Access Unit

module _ {V : Type 0} where
  -- The first block of `push`.
  unfoldable pub to_control_system : Timespec → V → ℕ → PushState V → PushState V
  to_control_system ts v i st =
      let (hit, p) = decimate (st.inputs i) in
      record {
        inputs = update st.inputs i p;
        effects = if hit then st.effects ++ to_port i ts v ∷ [] else st.effects;
      }

  -- The loop over the subscribed output PVs.
  unfoldable pub write_outputs :
      Write V → Timespec → V → List ℕ → List (Effect V) → List (Effect V) × Access Unit
  write_outputs write ts v [] effects = (effects, served tt)
  write_outputs write ts v (o ∷ os) effects =
      let effects' = effects ++ to_output o ts v ∷ [] in
      let rest = write_outputs write ts v os effects' in
      elim (write effects o ts v) [
        | served u ↦ rest
        | thrown e ↦ (effects', thrown e)
        | terminated ↦ (effects', terminated)
      ]

  unfoldable pub to_subscribers :
      Write V → Timespec → V → ℕ → PushState V → PushState V × Access Unit
  to_subscribers write ts v i st =
      let (effects, answer) = write_outputs write ts v (st.inputs i).subscribers st.effects in
      (record st { effects = effects }, answer)

  -- The loop over the replication destinations, given the call for one of them.
  unfoldable pub push_all :
      (ℕ → PushState V → PushState V × PushEnd) → List ℕ → PushState V → PushState V × PushEnd
  push_all each [] st = (st, finished)
  push_all each (d ∷ ds) st =
      let (st', end) = each d st in
      elim end [
        | finished ↦ push_all each ds st'
        | deadlock ↦ (st', deadlock)
        | process_ended ↦ (st', process_ended)
        | out_of_fuel ↦ (st', out_of_fuel)
        | thrown_out e ↦ (st', thrown_out e)
      ]

  -- What follows the loop over the output PVs, by how that ended.
  unfoldable pub pass_on :
      (ℕ → PushState V → PushState V × PushEnd)
      → ℕ
      → PushState V × Access Unit
      → PushState V × PushEnd
  pass_on each i (st, served u) = push_all each (st.inputs i).destinations st
  pass_on each i (st, thrown e) = (st, thrown_out e)
  pass_on each i (st, terminated) = (st, process_ended)

  -- `held` are the PVs whose mutex this thread holds.
  unfoldable pub push :
      Write V → ℕ → List ℕ → Timespec → V → ℕ → PushState V → PushState V × PushEnd
  push write zero held ts v i st = (st, out_of_fuel)
  push write (suc fuel) held ts v i st =
      let st1 = to_control_system ts v i st in
      elim (contains i held) [
        | true ↦ (st1, deadlock)
        | false ↦ pass_on (push write fuel (i ∷ held) ts v) i (to_subscribers write ts v i st1)
      ]

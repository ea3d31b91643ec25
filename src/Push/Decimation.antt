-- ===== src/Push/Decimation.antt =====
-- How often a decimated PV hands a value to the control system.
use native.Mathlib.Decide.{ℕ_discrete}
use native.Mathlib.Nat.{add-div_right, div-eq_of_lt, le_refl, mod-lt}
use nds.Prelude.{
  ℕ, zero, suc, ◌+◌, ◌-◌, ◌/◌, ◌%◌, ◌≤◌, ◌<◌, ◌≡◌, ◌≢◌, sym, ap, ◌∙◌, arith, if◌then◌else◌, ◌==◌,
  true, false,
}
use nds.Push.{u32_mod, set_decimation, decimate}
use nds.Registry.{InputPv}

-- How many of `n` pushes reach the control system.
unfoldable pub delivered : ℕ → InputPv → ℕ
delivered zero p = 0
delivered (suc n) p = let (hit, p') = decimate p in (if hit then 1 else 0) + delivered n p'

-- A count of 0 wraps, and stands for 2^32.
abbrev pub period : ℕ → ℕ
period d = if d == 0 then u32_mod else d

-- The count after a push that is not handed on.
abbrev counted : ℕ → ℕ
counted c = (c + u32_mod - 1) % u32_mod

decimate_hit :
    (p : InputPv)
    → p.decimation_count ≡ 1
    → decimate p ≡ (true, record p { decimation_count = p.decimation_factor })
unfolding decimate
decimate_hit p e = ground arith

decimate_miss :
    (p : InputPv)
    → p.decimation_count < u32_mod
    → p.decimation_count ≢ 1
    → decimate p ≡ (false, record p { decimation_count = counted p.decimation_count })
unfolding decimate
decimate_miss p c ne = ground arith

period-counted : (c : ℕ) → c < u32_mod → c ≢ 1 → period (counted c) + 1 ≡ period c
period-counted c h ne = ground arith

period_pos : (c : ℕ) → 0 < period c
period_pos c = ground arith

again : (n q : ℕ) → 0 < q → 1 + (n + (q - q)) / q ≡ (suc n + (q - 1)) / q
again n q h =
    let e : suc n + (q - 1) ≡ n + q = omega arith in
    let z : n + (q - q) ≡ n = omega arith in rw (e, z, add-div_right n h) (omega arith)

delivered_lem :
    (n : ℕ) (p : InputPv)
    → p.decimation_count < u32_mod
    → p.decimation_factor < u32_mod
    → period p.decimation_count ≤ period p.decimation_factor
    → delivered n p
      ≡ (n + (period p.decimation_factor - period p.decimation_count)) / period p.decimation_factor
unfolding delivered
delivered_lem zero p c f h =
    sym
      (div-eq_of_lt (omega (arith, period_pos p.decimation_count, period_pos p.decimation_factor)))
delivered_lem (suc n) p c f h = elim (ℕ_discrete p.decimation_count 1) [
  | yes e ↦
      rw (decimate_hit p e, e)
        (rw (delivered_lem n (record p { decimation_count = p.decimation_factor }) f f (le_refl _))
          (again n (period p.decimation_factor) (period_pos p.decimation_factor)))
  | no ne ↦ rw (decimate_miss p c ne) (
      missed (period (counted p.decimation_count)) (period-counted p.decimation_count c ne) (
        delivered_lem n (record p { decimation_count = counted p.decimation_count })
          (mod-lt _ (omega arith)) f (omega (arith, period-counted p.decimation_count c ne))))
]
  where
    missed :
        (k : ℕ) {d : ℕ}
        → k + 1 ≡ period p.decimation_count
        → d ≡ (n + (period p.decimation_factor - k)) / period p.decimation_factor
        → 0 + d
          ≡ (suc n + (period p.decimation_factor - period p.decimation_count))
            / period p.decimation_factor
    missed k q e =
        let s : n + (period p.decimation_factor - k)
            ≡ suc n + (period p.decimation_factor - period p.decimation_count) =
          omega arith in
        rw (e, s) (omega arith)

-- Of the first n values that are pushed after setDecimation(d), n / d reach the control system;
-- after setDecimation(0) it is n / 2^32.
pub delivered-set_decimation :
    (n d : ℕ) (p : InputPv) → d < u32_mod → delivered n (set_decimation d p) ≡ n / period d
unfolding set_decimation
delivered-set_decimation n d p h =
    let e : n + (period d - period d) ≡ n = omega arith in
    delivered_lem n (set_decimation d p) h h (le_refl _) ∙ ap (λ x. x / period d) e

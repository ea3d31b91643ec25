-- ===== src/LogStreams/Keys.antt =====
-- The keys that the constructor of the getter makes.
use nds.Prelude.{
  ℕ, zero, suc, ◌≡◌, refl, ◌∙◌, inl, inr, true, false, none, arith, Bool-cases, length, In,
}
use nds.LogStreams.{Pthreads, Documented, make_keys}
use nds.LogStreams.OwnStream.{Distinct}

module _ {W : Type 0} (p : Pthreads W) (d : Documented p) where
  -- The keys that the constructor makes.
  pub make_keys-lem :
      (n : ℕ) (w : W)
      → let (w', ks) = make_keys p n w in
        (length ks ≡ n)
        × ((k : ℕ) → In k ks → p.in_use w k ≡ false)
        × ((k : ℕ) → p.in_use w k ≡ true → p.in_use w' k ≡ true)
        × ((t k : ℕ) → p.in_use w k ≡ true → p.get_specific w' t k ≡ p.get_specific w t k)
        × Distinct ks
        × ((t k : ℕ) → In k ks → p.get_specific w' t k ≡ none)
  unfolding make_keys
  make_keys-lem zero w = (refl, λ k i. elim i [ ], λ k u. u, λ t k u. refl, tt, λ t k i. elim i [ ])
  make_keys-lem (suc n) w =
      let (w1, key) = p.key_create w in
      let (size, unused, used, same, distinct, null) = make_keys-lem n w1 in
      (
        omega (arith, size),
        λ k i. elim i [
          | inl e ↦ rw e (d.create_unused w)
          | inr i' ↦ elim (Bool-cases (p.in_use w k)) [
            | inl u ↦ absurd (cc (d.create_keeps w k u, unused k i'))
            | inr u ↦ u
          ]
        ],
        λ k u. used k (d.create_keeps w k u),
        λ t k u. same t k (d.create_keeps w k u) ∙ d.create_others w t k u,
        ((λ i. absurd (cc (d.create_used w, unused key i))), distinct),
        λ t k i. elim i [
          | inl e ↦ rw e (same t key (d.create_used w) ∙ d.create_null w t)
          | inr i' ↦ null t k i'
        ],
      )

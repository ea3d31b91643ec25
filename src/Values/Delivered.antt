-- ===== src/Values/Delivered.antt =====
-- What setValue of an input PV leaves in the output PVs that subscribe to it.
use nds.Prelude.{
  ℕ, ◌≡◌, refl, sym, ap, subst, ◌∙◌, inl, inr, List, [], ◌∷◌, arith, ◌==◌, Bool-cases, ==_iff,
  ==_refl, All, update,
}
use nds.Types.{Timespec}
use nds.Values.{
  DataType, Data, Access, served, thrown, terminated, Writer, write, Variable, variable_write,
  OutputPv, variable_pv, delegate_pv, Written, write_output, after_write, write_all, set_value,
}
use nds.Values.Served.{
  Serves, same, text_as_bytes, bytes_as_signed, text_as_signed, write-same, read_variable,
  write-served, served_or_not,
}

-- What an output PV does with what is written to it.
pub data Manner (F W : Type 0) : Type 0 where
  stores : DataType → Manner F W
  hands : (t : DataType) → Writer F W t → Manner F W

abbrev pub manner_of : {F W : Type 0} → OutputPv F W → Manner F W
manner_of (variable_pv t x) = stores t
manner_of (delegate_pv t own) = hands t own

-- The value of a call as the PV takes it.
abbrev pub taken : (F : Type 0) → {t r : DataType} → Serves t r → Data F r → Data F t
taken F same v = v
taken F text_as_bytes v = v
taken F bytes_as_signed v = v
taken F text_as_signed v = v

write-taken :
    (F W : Type 0) {t r : DataType} (s : Serves t r) (own : Writer F W t) (ts : Timespec)
    (v : Data F r) (w : W)
    → write F W t r own ts v w ≡ own ts (taken F s v) w
unfolding write
write-taken F W (same {t}) own ts v w = ap (λ f. f ts v w) (write-same F W t own)
write-taken F W text_as_bytes own ts v w = refl
write-taken F W bytes_as_signed own ts v w = refl
write-taken F W text_as_signed own ts v w = refl

module _ (F W : Type 0) (t : DataType) (ts : Timespec) (v : Data F t) where
  -- A read of a variable output PV with the type of the input PV gives what was set.
  abbrev pub HasValue : OutputPv F W → Type 0
  HasValue (variable_pv r x) =
      (slot : Timespec × Data F t) → read_variable F r t slot x ≡ (x, served (ts, v))
  HasValue (delegate_pv r own) = Unit

  abbrev pub Accepts : Manner F W → Type 0
  Accepts (stores r) = Serves r t
  Accepts (hands r own) = Serves r t

  -- The function of the device returns.
  abbrev pub Returns : Manner F W → Type 0
  Returns (stores r) = Unit
  Returns (hands r own) = (when : Timespec) (d : Data F r) (w : W) → (own when d w).1 ≡ served tt

  -- The device, once the functions of the PVs that have one were called in turn, each with the timestamp
  -- and the value.
  pub data Informed (h : ℕ → OutputPv F W) : List ℕ → W → W → Type 0 where
    nobody : (w : W) → Informed h [] w w
    kept :
        {o : ℕ} {os : List ℕ} {w u : W} (r : DataType)
        → manner_of (h o) ≡ stores r
        → Informed h os w u
        → Informed h (o ∷ os) w u
    handed :
        {o : ℕ} {os : List ℕ} {w u : W} (r : DataType) (own : Writer F W r) (s : Serves r t)
        → manner_of (h o) ≡ hands r own
        → Informed h os (own ts (taken F s v) w).0 u
        → Informed h (o ∷ os) w u

  -- One write.
  data Wrote (c : OutputPv F W) (w : W) : OutputPv F W × W × Access Unit → Type 0 where
    stored_in :
        (d : OutputPv F W) (r : DataType)
        → manner_of c ≡ stores r
        → manner_of d ≡ stores r
        → Serves r t
        → HasValue d
        → Wrote c w (d, w, served tt)
    handed_to :
        (r : DataType) (own : Writer F W r) (s : Serves r t)
        → manner_of c ≡ hands r own
        → HasValue c
        → (u : W) (a : Access Unit) → own ts (taken F s v) w ≡ (u, a)
        → Wrote c w (c, u, a)
    refused : ¬ Accepts (manner_of c) → Wrote c w (c, w, terminated)

  no_serving :
      (V : Type 0) (x : V) (r : DataType)
      → ((own : Writer F V r)
          → (when : Timespec) → (d : Data F t) → (y : V)
          → write F V r t own when d y ≡ (y, terminated))
      → ¬ Serves r t
  no_serving V x r refuses s =
      let own : Writer F V r = λ when d y. (y, served tt) in
      let both = sym (write-taken F V s own ts v x) ∙ refuses own ts v x in
      let ends : served tt ≡ terminated = ap (λ a. a.1) both in absurd (ground arith)

  write_output-Wrote : (c : OutputPv F W) (w : W) → Wrote c w (write_output F W t ts v c w)
  unfolding write_output
  write_output-Wrote (variable_pv r x) w = elim (served_or_not F (Variable F r) r t) [
    | inl s ↦
        let (y, wrote, reads) = write-served F s ts v x in
        subst (λ z. Wrote (variable_pv r x) w (variable_pv r z.0, w, z.1)) (sym wrote)
          (stored_in (variable_pv r y) r refl refl s reads)
    | inr refuses ↦
        subst (λ z. Wrote (variable_pv r x) w (variable_pv r z.0, w, z.1))
          (sym (refuses.1 (variable_write F r) ts v x))
          (refused (no_serving (Variable F r) x r refuses.1))
  ]
  write_output-Wrote (delegate_pv r own) w = elim (served_or_not F W r t) [
    | inl s ↦
        subst (λ z. Wrote (delegate_pv r own) w (delegate_pv r own, z.0, z.1))
          (sym (write-taken F W s own ts v w)) (handed_to r own s refl tt _ _ refl)
    | inr refuses ↦
        subst (λ z. Wrote (delegate_pv r own) w (delegate_pv r own, z.0, z.1))
          (sym (refuses.1 own ts v w)) (refused (no_serving W w r refuses.1))
  ]

  update-holds :
      (P : OutputPv F W → Type 0) (h : ℕ → OutputPv F W) (o : ℕ) (d : OutputPv F W) (j : ℕ)
      → P d
      → P (h j)
      → P (update h o d j)
  update-holds P h o d j new old = elim (Bool-cases (o == j)) [
    | inl e ↦ subst P (rw e) new
    | inr e ↦ subst P (rw e) old
  ]

  module _ (h0 : ℕ → OutputPv F W) where
    -- No write makes an output PV one of another kind.
    abbrev SameManners : (ℕ → OutputPv F W) → Type 0
    SameManners h = (j : ℕ) → manner_of (h j) ≡ manner_of (h0 j)

    -- What the writes to `os` have done, where they come back.
    abbrev Delivers : List ℕ → (ℕ → OutputPv F W) → W → Written F W → Type 0
    Delivers os h w (h', u, answer) =
        answer ≡ served tt
        → All (λ o. Accepts (manner_of (h0 o))) os
          × Informed h0 os w u
          × All (λ o. HasValue (h' o)) os
          × ((j : ℕ) → HasValue (h j) → HasValue (h' j))

    abbrev Ready : ℕ → Type 0
    Ready o = Accepts (manner_of (h0 o)) × Returns (manner_of (h0 o))

    abbrev ComesBack : List ℕ → Written F W → Type 0
    ComesBack os res = All Ready os → res.2 ≡ served tt

    update-SameManners :
        (h : ℕ → OutputPv F W) (o : ℕ) (d : OutputPv F W)
        → SameManners h
        → manner_of d ≡ manner_of (h o)
        → SameManners (update h o d)
    update-SameManners h o d alike e j = elim (Bool-cases (o == j)) [
      | inl q ↦
          let k : update h o d j ≡ d = rw q in
          ap manner_of k ∙ e ∙ ap (λ i. manner_of (h i)) ((==_iff o j).0 q) ∙ alike j
      | inr q ↦ let k : update h o d j ≡ h j = rw q in ap manner_of k ∙ alike j
    ]

    -- A write and those that follow it.
    one_more :
        (o : ℕ) (os : List ℕ) (h : ℕ → OutputPv F W) (w : W) (r : OutputPv F W × W × Access Unit)
        (rest : Written F W)
        → SameManners h
        → Wrote (h o) w r
        → (SameManners (update h o r.0) → Delivers os (update h o r.0) r.1 rest × ComesBack os rest)
        → Delivers (o ∷ os) h w (after_write (update h o r.0) r.1 r.2 rest)
          × ComesBack (o ∷ os) (after_write (update h o r.0) r.1 r.2 rest)
    one_more o os h w _ rest alike (stored_in d r at now s has) next =
        let k = sym (alike o) ∙ at in
        let (delivers, comes) = next (update-SameManners h o d alike (now ∙ sym at)) in
        (
          λ e.
              let (accepts, told, all, keeps) = delivers e in
              (
                (subst Accepts (sym k) s, accepts),
                kept r k told,
                (keeps o (subst HasValue (rw (==_refl o)) has), all),
                λ j old. keeps j (update-holds HasValue h o d j has old),
              ),
          λ a. comes a.1,
        )
    one_more o os h w _ rest alike (handed_to r own s at has u (served ok) e) next =
        let k = sym (alike o) ∙ at in
        let (delivers, comes) = next (update-SameManners h o (h o) alike refl) in
        (
          λ q.
              let (accepts, told, all, keeps) = delivers q in
              (
                (subst Accepts (sym k) s, accepts),
                handed r own s k
                    (subst (λ x. Informed h0 os x rest.1) (sym (ap (λ a. a.0) e)) told),
                (keeps o (subst HasValue (rw (==_refl o)) has), all),
                λ j old. keeps j (update-holds HasValue h o (h o) j has old),
              ),
          λ a. comes a.1,
        )
    one_more o os h w _ rest alike (handed_to r own s at has u (thrown x) e) next =
        (λ q. absurd (ground arith), λ a. absurd (fails a.0.1))
      where
        fails : Returns (manner_of (h0 o)) → ⊥
        fails returns =
            let k = sym (alike o) ∙ at in
            let back = subst Returns k returns ts (taken F s v) w in
            let both : thrown x ≡ served tt = sym (ap (λ a. a.1) e) ∙ back in ground arith
    one_more o os h w _ rest alike (handed_to r own s at has u terminated e) next =
        (λ q. absurd (ground arith), λ a. absurd (fails a.0.1))
      where
        fails : Returns (manner_of (h0 o)) → ⊥
        fails returns =
            let k = sym (alike o) ∙ at in
            let back = subst Returns k returns ts (taken F s v) w in
            let both : terminated ≡ served tt = sym (ap (λ a. a.1) e) ∙ back in ground arith
    one_more o os h w _ rest alike (refused never) next =
        (λ q. absurd (ground arith), λ a. absurd (never (subst Accepts (sym (alike o)) a.0.0)))

    write_all-Delivers :
        (os : List ℕ) (h : ℕ → OutputPv F W) (w : W)
        → SameManners h
        → Delivers os h w (write_all F W t ts v os h w) × ComesBack os (write_all F W t ts v os h w)
    unfolding write_all
    write_all-Delivers [] h w alike = (λ e. (tt, nobody w, tt, λ j k. k), λ a. refl)
    write_all-Delivers (o ∷ os) h w alike =
        let r = write_output F W t ts v (h o) w in
        one_more o os h w r (write_all F W t ts v os (update h o r.0) r.1) alike
          (write_output-Wrote (h o) w) (λ alike2. write_all-Delivers os (update h o r.0) r.1 alike2)

  -- setValue of an input PV stores the value with its timestamp. Where it comes back, each of the subscribed
  -- output PVs accepts the type, the functions of those that have one were called in turn with the
  -- timestamp and the value, and a read of each variable one with that type gives the value and the
  -- timestamp. It comes back where each accepts the type and the functions of those that have one return.
  pub set_value-HasValue :
      (os : List ℕ) (x : Variable F t) (h : ℕ → OutputPv F W) (w : W)
      → let (y, (h', u, answer)) = set_value F W t ts v os x h w in
        (y ≡ (record { value = v; timestamp = ts }))
        × (answer ≡ served tt
            → All (λ o. Accepts (manner_of (h o))) os
              × Informed h os w u
              × All (λ o. HasValue (h' o)) os)
        × (All (λ o. Accepts (manner_of (h o)) × Returns (manner_of (h o))) os → answer ≡ served tt)
  unfolding set_value
  set_value-HasValue os x h w =
      let (delivers, comes) = write_all-Delivers h os h w (λ j. refl) in
      (refl, (λ e. let (a, b, c, d) = delivers e in (a, b, c)), comes)

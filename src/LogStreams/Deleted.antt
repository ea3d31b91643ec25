-- ===== src/LogStreams/Deleted.antt =====
-- The streams that the destructor of the getter deletes.
use nds.Prelude.{
  ℕ, ◌≡◌, refl, sym, ap, subst, ◌∙◌, ◌≢◌, ◌↔◌, ◌⊎◌, inl, inr, Option, none, some, List, [], ◌∷◌,
  Option-cases, All, In,
}
use nds.Types.{LogLevel}
use nds.LogStreams.{Pthreads, Documented, stream, new_log_stream_getter, get_logger, delete_keys}
use nds.LogStreams.OwnStream.{some_inj, Distinct, ThreadEvent, Stays, run}
use nds.LogStreams.Calls.{logger-Holds}

module _ {W : Type 0} (p : Pthreads W) (d : Documented p) where
  -- What a thread has under the other keys stays when the destructor is done with one.
  other_kept :
      (w : W) (t k : ℕ) (v : Option ℕ) (u j : ℕ)
      → k ≢ j
      → p.get_specific (p.key_delete (p.set_specific w t k v) k) u j ≡ p.get_specific w u j
  other_kept w t k v u j h =
      d.delete_others (p.set_specific w t k v) k u j h ∙ d.get_set_other w t k v u j (λ e. h e.1)

  abbrev Deletes : List ℕ → ℕ → W → ℕ → Type 0
  Deletes keys t w s = (k : ℕ) × In k keys × (p.get_specific w t k ≡ some s)

  Deletes-cons :
      (k : ℕ) (ks : List ℕ) (t s : ℕ) (w w' : W)
      → (In k ks → ⊥)
      → ((u j : ℕ) → k ≢ j → p.get_specific w' u j ≡ p.get_specific w u j)
      → (Deletes ks t w' s → Deletes (k ∷ ks) t w s)
        × (Deletes (k ∷ ks) t w s → (p.get_specific w t k ≡ some s) ⊎ Deletes ks t w' s)
  Deletes-cons k ks t s w w' absent same = (
    (λ (j, i, h). (j, inr i, sym (same t j (λ e. absent (subst (λ x. In x ks) (sym e) i))) ∙ h)),
    (λ (j, i, h). elim i [
      | inl e ↦ inl (subst (λ x. p.get_specific w t x ≡ some s) e h)
      | inr i' ↦ inr (j, i', same t j (λ e. absent (subst (λ x. In x ks) (sym e) i')) ∙ h)
    ]),
  )

  delete_keys-Deletes :
      (keys : List ℕ) (t s : ℕ) (w : W)
      → Distinct keys
      → In s (delete_keys p keys t w).1 ↔ Deletes keys t w s
  unfolding delete_keys
  delete_keys-Deletes [] t s w h = ((λ i. elim i [ ]), (λ (k, i, e). elim i [ ]))
  delete_keys-Deletes (k ∷ ks) t s w h = elim (Option-cases (p.get_specific w t k)) [
    | inl empty ↦
        let w' = p.key_delete w k in
        let (into, back) = Deletes-cons k ks t s w w' h.0 (λ u j n. d.delete_others w k u j n) in
        let (to, from) = delete_keys-Deletes ks t s w' h.1 in
        rw (delete_keys, empty)
          (
            (λ i. into (to i)),
            (λ x. elim (back x) [ inl e ↦ absurd (cc (empty, e)) | inr y ↦ from y ]),
          )
    | inr (r, there) ↦
        let w' = p.key_delete (p.set_specific w t k none) k in
        let (into, back) = Deletes-cons k ks t s w w' h.0 (λ u j n. other_kept w t k none u j n) in
        let (to, from) = delete_keys-Deletes ks t s w' h.1 in
        rw (delete_keys, there)
          (
            (λ i. elim i [
              | inl e ↦ (k, inl refl, there ∙ ap some (sym e))
              | inr i' ↦ into (to i')
            ]),
            (λ x. elim (back x) [ inl e ↦ inl (some_inj (sym e ∙ there)) | inr y ↦ inr (from y) ]),
          )
  ]

  -- The destructor, run in a thread, deletes the stream that an earlier call of getLogger gave just where
  -- that call was made in the same thread, at a level other than none; the thread of the call has not
  -- ended in between.
  pub delete_keys-get_logger :
      (w : W) (before after : List ThreadEvent) (t u : ℕ) (l : LogLevel)
      → l ≢ LogLevel.none
      → All (Stays t) after
      → let (w0, keys) = new_log_stream_getter p w in
        (w1 : W) × (s : ℕ) × (get_logger p keys t l (run p keys before w0) ≡ stream w1 s)
        × (In s (delete_keys p keys u (run p keys after w1)).1 ↔ (u ≡ t))
  delete_keys-get_logger w before after t u l hl stays =
      let (w0, keys) = new_log_stream_getter p w in
      let (size, distinct, w1, s, gives, h) = logger-Holds p d w before after t l hl stays in
      let (to, from) = delete_keys-Deletes keys u s (run p keys after w1) distinct in
      (
        w1,
        s,
        gives,
        (
          (λ i. let (k, ik, e) = to i in (h.owned u t k h.key s ik h.inside e h.stands).0),
          (λ e. from (
            h.key,
            h.inside,
            subst (λ x. p.get_specific (run p keys after w1) x h.key ≡ some s) (sym e) h.stands,
          )),
        ),
      )

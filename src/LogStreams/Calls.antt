-- ===== src/LogStreams/Calls.antt =====
-- The streams that the calls of getLogger give after the constructor, in whatever threads.
use nds.Prelude.{
  ℕ, ◌≡◌, refl, sym, ap, ◌∙◌, ◌≢◌, ◌↔◌, ◌⊎◌, inl, inr, some, List, [], ◌∷◌, arith, ◌==◌, Bool-cases,
  ==_iff, length, get_elem?, All, In,
}
use nds.Types.{LogLevel, debug, info, warning, error, level_value}
use nds.LogStreams.{
  Pthreads, Documented, stream, make_keys, new_log_stream_getter, get_log_stream, get_logger,
}
use nds.LogStreams.Keys.{make_keys-lem}
use nds.LogStreams.OwnStream.{
  level_value-injective, level_below, get_elem?-length, Distinct-get_elem?, some_inj, Distinct,
  Gives, Owned, stream_under-Gives, ThreadEvent, logs, exits, Stays, happen, run,
}

module _ {W : Type 0} (p : Pthreads W) (d : Documented p) where
  Gives-Owned :
      (keys : List ℕ) (w w' : W) (t k s : ℕ)
      → Gives p w t k w' s
      → In k keys
      → Owned p keys w
      → Owned p keys w'
  Gives-Owned keys w w' t k s g i o u v j m r ij im h h' = elim (g.only u j r h) [
    | inl (e, f) ↦ elim (g.only v m r h') [
      | inl (e', f') ↦ (sym e ∙ e', sym f ∙ f')
      | inr old ↦
          let mine : p.get_specific w' t k ≡ some r = cc (e, f, h) in
          let same : s ≡ r = some_inj (sym g.has ∙ mine) in
          let there = g.own v m (cc (old, same)) in
          let (e', f') = o t v k m r i im (there ∙ ap some same) old in (sym e ∙ e', sym f ∙ f')
    ]
    | inr old ↦ elim (g.only v m r h') [
      | inl (e', f') ↦
          let mine : p.get_specific w' t k ≡ some r = cc (e', f', h') in
          let same : s ≡ r = some_inj (sym g.has ∙ mine) in
          let there = g.own u j (cc (old, same)) in
          let (e, f) = o u t j k r ij i old (there ∙ ap some same) in (e ∙ e', f ∙ f')
      | inr old' ↦ o u v j m r ij im old old'
    ]
  ]

  exit_kept :
      (w : W) (t u j r : ℕ)
      → p.get_specific (p.exit_thread w t) u j ≡ some r
      → p.get_specific w u j ≡ some r
  exit_kept w t u j r h = elim (Bool-cases (t == u)) [
    | inl e ↦
        let same = (==_iff t u).0 e in let null = d.exit_null w t j in absurd (cc (same, null, h))
    | inr e ↦ sym (d.exit_others w t u j (λ same. absurd (ground arith))) ∙ h
  ]

  -- getLogger at a level that has a stream.
  logger-Gives :
      (keys : List ℕ) (w : W) (t : ℕ) (l : LogLevel)
      → length keys ≡ 4
      → l ≢ LogLevel.none
      → (k : ℕ) × (get_elem? keys (level_value l) ≡ some k)
        × In k keys
        × (w' : W) × (s : ℕ) × (get_logger p keys t l w ≡ stream w' s)
        × Gives p w t k w' s
  unfolding get_logger get_log_stream
  logger-Gives keys w t LogLevel.none n h = absurd (h refl)
  logger-Gives keys w t l n h =
      let (k, at, i) = get_elem?-length keys (level_value l) (omega (arith, level_below l h, n)) in
      let (w', s, e, g) = stream_under-Gives p d t k l w in
      (k, at, i, w', s, rw (get_logger, get_log_stream, at) e, g)

  is_none : (l : LogLevel) → (l ≡ LogLevel.none) ⊎ (l ≢ LogLevel.none)
  is_none LogLevel.none = inl refl
  is_none debug = inr (λ e. cc e)
  is_none info = inr (λ e. cc e)
  is_none warning = inr (λ e. cc e)
  is_none error = inr (λ e. cc e)

  happen-Owned :
      (keys : List ℕ) (e : ThreadEvent) (w : W)
      → length keys ≡ 4
      → Owned p keys w
      → Owned p keys (happen p keys e w)
  unfolding get_logger
  happen-Owned keys (exits t) w n o =
      λ u v j m r ij im h h'. o u v j m r ij im (exit_kept w t u j r h) (exit_kept w t v m r h')
  happen-Owned keys (logs t l) w n o = elim (is_none l) [
    | inl e ↦ rw e o
    | inr e ↦
        let (k, at, i, w', s, gives, g) = logger-Gives keys w t l n e in
        rw gives (Gives-Owned keys w w' t k s g i o)
  ]

  happen-keeps :
      (keys : List ℕ) (e : ThreadEvent) (w : W) (t k s : ℕ)
      → length keys ≡ 4
      → Stays t e
      → p.get_specific w t k ≡ some s
      → p.get_specific (happen p keys e w) t k ≡ some s
  unfolding get_logger
  happen-keeps keys (exits u) w t k s n stays h = d.exit_others w u t k stays ∙ h
  happen-keeps keys (logs u l) w t k s n stays h = elim (is_none l) [
    | inl e ↦ rw e h
    | inr e ↦
        let (j, at, i, w', r, gives, g) = logger-Gives keys w u l n e in rw gives (g.keeps t k s h)
  ]

  run-Owned :
      (keys : List ℕ) (es : List ThreadEvent) (w : W)
      → length keys ≡ 4
      → Owned p keys w
      → Owned p keys (run p keys es w)
  unfolding run
  run-Owned keys [] w n o = o
  run-Owned keys (e ∷ es) w n o =
      run-Owned keys es (happen p keys e w) n (happen-Owned keys e w n o)

  run-keeps :
      (keys : List ℕ) (es : List ThreadEvent) (w : W) (t k s : ℕ)
      → length keys ≡ 4
      → All (Stays t) es
      → p.get_specific w t k ≡ some s
      → p.get_specific (run p keys es w) t k ≡ some s
  unfolding run
  run-keeps keys [] w t k s n a h = h
  run-keeps keys (e ∷ es) w t k s n a h =
      run-keeps keys es (happen p keys e w) t k s n a.1 (happen-keeps keys e w t k s n a.0 h)

  -- The getter's keys, when there is a stream under one of them: a stream stands under one key.
  pub record Holds (keys : List ℕ) (t : ℕ) (l : LogLevel) (w : W) (s : ℕ) : Type 0 where
    pub key : ℕ
    pub at : get_elem? keys (level_value l) ≡ some key
    pub inside : In key keys
    pub stands : p.get_specific w t key ≡ some s
    pub owned : Owned p keys w

  pub logger-Holds :
      (w : W) (before after : List ThreadEvent) (t : ℕ) (l : LogLevel)
      → l ≢ LogLevel.none
      → All (Stays t) after
      → let (w0, keys) = new_log_stream_getter p w in
        (length keys ≡ 4)
        × Distinct keys
        × (w1 : W) × (s : ℕ) × (get_logger p keys t l (run p keys before w0) ≡ stream w1 s)
        × Holds keys t l (run p keys after w1) s
  unfolding new_log_stream_getter
  logger-Holds w before after t l hl stays =
      let (w0, keys) = make_keys p 4 w in
      let (size, unused, used, same, distinct, null) = make_keys-lem p d 4 w in
      let o0 : Owned p keys w0 = λ t u k j s i ij h h'. absurd (cc (null t k i, h)) in
      let o = run-Owned keys before w0 size o0 in
      let (k, at, i, w1, s, gives, g) = logger-Gives keys (run p keys before w0) t l size hl in
      let o1 = Gives-Owned keys (run p keys before w0) w1 t k s g i o in
      (
        size,
        distinct,
        w1,
        s,
        gives,
        record {
          key = k;
          at = at;
          inside = i;
          stands = run-keeps keys after w1 t k s size stays g.has;
          owned = run-Owned keys after w1 size o1;
        },
      )

  -- Of two calls of getLogger that any other calls and ends of threads come before or between, at levels
  -- other than none, the second gives the same stream as the first just where it is made in the same
  -- thread and at the same level; the thread of the first has not ended in between.
  pub get_logger-get_logger :
      (w : W) (before after : List ThreadEvent) (t u : ℕ) (l m : LogLevel)
      → l ≢ LogLevel.none
      → m ≢ LogLevel.none
      → All (Stays t) after
      → let (w0, keys) = new_log_stream_getter p w in
        (w1 : W) × (s : ℕ) × (get_logger p keys t l (run p keys before w0) ≡ stream w1 s)
        × (w2 : W) × (r : ℕ) × (get_logger p keys u m (run p keys after w1) ≡ stream w2 r)
        × ((r ≡ s) ↔ ((u ≡ t) × (l ≡ m)))
  get_logger-get_logger w before after t u l m hl hm stays =
      let (w0, keys) = new_log_stream_getter p w in
      let (size, distinct, w1, s, gives, h) = logger-Holds w before after t l hl stays in
      let (j, at', i', w2, r, gives', g') = logger-Gives keys (run p keys after w1) u m size hm in
      (
        w1,
        s,
        gives,
        w2,
        r,
        gives',
        (
          (λ e.
              let same = h.stands ∙ ap some (sym e) in
              let (thread, key) = h.owned u t j h.key r i' h.inside (g'.own t h.key same) same in
              let at'' = at' ∙ ap some key in
              (
                thread,
                level_value-injective l m (
                    Distinct-get_elem? keys distinct (level_value l) (level_value m) h.key h.at
                      at''),
              )),
          (λ e.
              let level : get_elem? keys (level_value l) ≡ get_elem? keys (level_value m) =
                ap (λ n. get_elem? keys (level_value n)) e.1 in
              let key : h.key ≡ j = some_inj (sym h.at ∙ level ∙ at') in
              let there : p.get_specific w2 u j ≡ some s =
                cc (g'.keeps t h.key s h.stands, e.0, key) in
              some_inj (sym g'.has ∙ there)),
        ),
      )

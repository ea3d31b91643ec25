-- ===== src/LogStreams/OwnStream.antt =====
-- Which thread and level a stream belongs to.
use nds.Prelude.{
  ℕ, zero, suc, ◌<◌, ◌≡◌, refl, sym, ap, subst, ◌∙◌, ◌≢◌, ◌⊎◌, inl, inr, Option, none, some, List,
  [], ◌∷◌, arith, ◌==◌, if◌then◌else◌, Bool-cases, Option-cases, ==_iff, length, get_elem?, In,
}
use nds.Types.{LogLevel, debug, info, warning, error, level_value}
use nds.LogStreams.{
  Pthreads, Documented, Logged, stream, refused, outside, stream_under, get_logger,
}

level_of : ℕ → LogLevel
level_of n =
    if n == 0
    then debug
    else (if n == 1
        then info
        else (if n == 2 then warning else (if n == 3 then error else LogLevel.none)))

level_of-level_value : (l : LogLevel) → level_of (level_value l) ≡ l
unfolding level_of
level_of-level_value debug = refl
level_of-level_value info = refl
level_of-level_value warning = refl
level_of-level_value error = refl
level_of-level_value LogLevel.none = refl

pub level_value-injective : (l m : LogLevel) → level_value l ≡ level_value m → l ≡ m
level_value-injective l m e = sym (level_of-level_value l) ∙ ap level_of e ∙ level_of-level_value m

pub level_below : (l : LogLevel) → l ≢ LogLevel.none → level_value l < 4
level_below LogLevel.none h = absurd (h refl)
level_below debug h = omega arith
level_below info h = omega arith
level_below warning h = omega arith
level_below error h = omega arith

pub get_elem?-length :
    (xs : List ℕ) (n : ℕ) → n < length xs → (k : ℕ) × (get_elem? xs n ≡ some k) × In k xs
get_elem?-length [] n h = absurd (omega arith)
get_elem?-length (x ∷ xs) zero h = (x, refl, inl refl)
get_elem?-length (x ∷ xs) (suc n) h =
    let (k, e, i) = get_elem?-length xs n (omega arith) in (k, e, inr i)

-- No entry is twice in the list.
abbrev pub Distinct : List ℕ → Type 0
Distinct [] = Unit
Distinct (x ∷ xs) = (In x xs → ⊥) × Distinct xs

pub some_inj : {a b : ℕ} → ◌≡◌ {A = Option ℕ} (some a) (some b) → a ≡ b
some_inj h = cc

get_elem?-In : (xs : List ℕ) (n k : ℕ) → get_elem? xs n ≡ some k → In k xs
get_elem?-In [] n k h = absurd (ground arith)
get_elem?-In (x ∷ xs) zero k h = inl (sym (some_inj h))
get_elem?-In (x ∷ xs) (suc n) k h = inr (get_elem?-In xs n k h)

pub Distinct-get_elem? :
    (xs : List ℕ)
    → Distinct xs
    → (m n k : ℕ) → get_elem? xs m ≡ some k
    → get_elem? xs n ≡ some k
    → m ≡ n
Distinct-get_elem? [] d m n k g h = absurd (ground arith)
Distinct-get_elem? (x ∷ xs) d zero zero k g h = refl
Distinct-get_elem? (x ∷ xs) d zero (suc n) k g h =
    absurd (d.0 (subst (λ j. In j xs) (sym (some_inj g)) (get_elem?-In xs n k h)))
Distinct-get_elem? (x ∷ xs) d (suc m) zero k g h =
    absurd (d.0 (subst (λ j. In j xs) (sym (some_inj h)) (get_elem?-In xs m k g)))
Distinct-get_elem? (x ∷ xs) d (suc m) (suc n) k g h = ap suc (Distinct-get_elem? xs d.1 m n k g h)

-- What goes on in the threads: a call of getLogger, or a thread's end.
pub data ThreadEvent : Type 0 where
  logs : (thread : ℕ) → LogLevel → ThreadEvent
  exits : (thread : ℕ) → ThreadEvent

-- The thread does not end.
abbrev pub Stays : ℕ → ThreadEvent → Type 0
Stays t (logs u l) = Unit
Stays t (exits u) = u ≢ t

abbrev pub world_after : {W : Type 0} → W → Logged W → W
world_after w (stream w' s) = w'
world_after w (refused e) = w
world_after w outside = w

module _ {W : Type 0} (p : Pthreads W) where
  abbrev pub happen : List ℕ → ThreadEvent → W → W
  happen keys (logs t l) w = world_after w (get_logger p keys t l w)
  happen keys (exits t) w = p.exit_thread w t

  unfoldable pub run : List ℕ → List ThreadEvent → W → W
  run keys [] w = w
  run keys (e ∷ es) w = run keys es (happen keys e w)

  -- The call in `t` gives the stream that stands under `k` from then on, a new one where there was none.
  pub record Gives (w : W) (t k : ℕ) (w' : W) (s : ℕ) : Type 0 where
    pub has : p.get_specific w' t k ≡ some s
    pub only :
        (u j r : ℕ)
        → p.get_specific w' u j ≡ some r
        → ((t ≡ u) × (k ≡ j)) ⊎ (p.get_specific w u j ≡ some r)
    pub keeps : (u j r : ℕ) → p.get_specific w u j ≡ some r → p.get_specific w' u j ≡ some r
    pub own : (u j : ℕ) → p.get_specific w u j ≡ some s → p.get_specific w t k ≡ some s

  -- A stream stands under one key of one thread.
  abbrev pub Owned : List ℕ → W → Type 0
  Owned keys w =
      (t u k j s : ℕ)
      → In k keys
      → In j keys
      → p.get_specific w t k ≡ some s
      → p.get_specific w u j ≡ some s
      → (t ≡ u) × (k ≡ j)

  module _ (d : Documented p) where
    pub same_or_not : (t k u j : ℕ) → ((t ≡ u) × (k ≡ j)) ⊎ ((t ≡ u) × (k ≡ j) → ⊥)
    same_or_not t k u j = elim (Bool-cases (t == u)) [
      | inr e ↦ inr (λ h. absurd (ground arith))
      | inl e ↦ elim (Bool-cases (k == j)) [
        | inr f ↦ inr (λ h. absurd (ground arith))
        | inl f ↦ inl ((==_iff t u).0 e, (==_iff k j).0 f)
      ]
    ]

    made-Gives :
        (t k : ℕ) (l : LogLevel) (w : W)
        → p.get_specific w t k ≡ none
        → let (w', s) = p.create_log_stream w t l in Gives w t k (p.set_specific w' t k (some s)) s
    made-Gives t k l w empty =
        let (w', s) = p.create_log_stream w t l in
        record {
          has = d.get_set w' t k (some s);
          only = λ u j r h. elim (same_or_not t k u j) [
            | inl same ↦ inl same
            | inr other ↦ inr (
                sym (d.stream_keeps w t l u j)
                ∙ sym (d.get_set_other w' t k (some s) u j other)
                ∙ h)
          ];
          keeps = λ u j r h. elim (same_or_not t k u j) [
            | inl (e, f) ↦ absurd (cc (e, f, h, empty))
            | inr other ↦ d.get_set_other w' t k (some s) u j other ∙ d.stream_keeps w t l u j ∙ h
          ];
          own = λ u j h. absurd (d.stream_new w t l u j h);
        }

    pub stream_under-Gives :
        (t k : ℕ) (l : LogLevel) (w : W)
        → (w' : W) × (s : ℕ) × (stream_under p t l w k ≡ stream w' s) × Gives w t k w' s
    unfolding stream_under
    stream_under-Gives t k l w = elim (Option-cases (p.get_specific w t k)) [
      | inl empty ↦ (_, _, rw (stream_under, empty), made-Gives t k l w empty)
      | inr (s, there) ↦ (
        w,
        s,
        rw (stream_under, there),
        record { has = there; only = λ u j r h. inr h; keeps = λ u j r h. h; own = λ u j h. there },
      )
    ]

-- ===== src/Tests/Logs.antt =====
-- Threads' values and streams that behave as documented, and calls of getLogger with them.
use nds.Prelude.{
  ℕ, ◌+◌, ◌≤◌, ◌≡◌, refl, ◌∙◌, ◌↔◌, inl, inr, Bool, true, false, ◌&&◌, Option, none, some, List, [],
  ◌∷◌, arith, ◌==◌, if◌then◌else◌, Bool-cases, In, contains, set_erase,
}
use nds.Types.{warning, error}
use nds.LogStreams.{Pthreads, Documented, stream, new_log_stream_getter, get_logger, delete_keys}
use nds.LogStreams.OwnStream.{ThreadEvent, logs, exits, run}
use nds.LogStreams.Calls.{get_logger-get_logger}
use nds.LogStreams.Deleted.{delete_keys-get_logger}

-- What the threads have under the keys, and the keys in use.
record Memory : Type 0 where
  values : List (ℕ × ℕ × ℕ)
  keys : List ℕ

abbrev find : ℕ → ℕ → List (ℕ × ℕ × ℕ) → Option ℕ
find t k [] = none
find t k ((u, j, s) ∷ l) = if u == t && j == k then some s else find t k l

abbrev erase_if : (ℕ → ℕ → Bool) → List (ℕ × ℕ × ℕ) → List (ℕ × ℕ × ℕ)
erase_if f [] = []
erase_if f ((u, j, s) ∷ l) = if f u j then erase_if f l else (u, j, s) ∷ erase_if f l

find-erase_if :
    (f : ℕ → ℕ → Bool) (t k : ℕ) (l : List (ℕ × ℕ × ℕ))
    → find t k (erase_if f l) ≡ (if f t k then none else find t k l)
find-erase_if f t k [] = ground arith
find-erase_if f t k ((u, j, s) ∷ l) =
    let rest = find-erase_if f t k l in
    elim (Bool-cases (u == t && j == k)) [
      | inl e ↦
          let eu : u ≡ t = ground arith in
          let ej : j ≡ k = ground arith in
          let same : f u j ≡ f t k = cc (eu, ej) in
          elim (Bool-cases (f t k)) [
            | inl g ↦ rw (same, g) (rest ∙ rw g refl)
            | inr g ↦ rw (same, g, e) refl
          ]
      | inr e ↦ elim (Bool-cases (f u j)) [ inl g ↦ rw (g, e) rest | inr g ↦ rw (g, e) rest ]
    ]

abbrev total : List (ℕ × ℕ × ℕ) → ℕ
total [] = 0
total ((u, j, s) ∷ l) = s + total l

find-total : (t k s : ℕ) (l : List (ℕ × ℕ × ℕ)) → find t k l ≡ some s → s ≤ total l
find-total t k s [] h = absurd (ground arith)
find-total t k s ((u, j, r) ∷ l) h = ground (arith, find-total t k s l)

abbrev sum : List ℕ → ℕ
sum [] = 0
sum (x ∷ xs) = x + sum xs

contains-sum : (k : ℕ) (l : List ℕ) → contains k l ≡ true → k ≤ sum l
contains-sum k [] h = absurd (ground arith)
contains-sum k (x ∷ xs) h = ground (arith, contains-sum k xs)

abbrev put : Memory → ℕ → ℕ → Option ℕ → Memory
put m t k none = record m { values = erase_if (λ u j. u == t && j == k) m.values }
put m t k (some s) = record m { values = (t, k, s) ∷ m.values }

abbrev threads : Pthreads Memory
threads = record {
  in_use = λ m k. contains k m.keys;
  key_create = λ m. (
    record {
      values = erase_if (λ u j. j == 1 + sum m.keys) m.values;
      keys = (1 + sum m.keys) ∷ m.keys;
    },
    1 + sum m.keys,
  );
  key_delete = λ m k. record m { keys = set_erase k m.keys };
  get_specific = λ m t k. find t k m.values;
  set_specific = put;
  exit_thread = λ m t. record m { values = erase_if (λ u j. u == t) m.values };
  create_log_stream = λ m t l. (m, 1 + total m.values);
}

-- The number after all the numbers of a list is none of them.
contains-next : (l : List ℕ) → contains (1 + sum l) l ≡ false
contains-next l = elim (Bool-cases (contains (1 + sum l) l)) [
  | inl h ↦ absurd (omega (arith, contains-sum (1 + sum l) l h))
  | inr h ↦ h
]

find-put :
    (m : Memory) (t k : ℕ) (v : Option ℕ) (u j : ℕ)
    → find u j (put m t k v).values ≡ (if t == u && k == j then v else find u j m.values)
find-put m t k none u j = find-erase_if (λ u j. u == t && j == k) u j m.values ∙ ground arith
find-put m t k (some s) u j = refl

threads-Documented : Documented threads
threads-Documented = record {
  create_unused = λ m. contains-next m.keys;
  create_used = λ m. ground arith;
  create_keeps = λ m k h. ground arith;
  create_null =
      λ m t. find-erase_if (λ u j. j == 1 + sum m.keys) t (1 + sum m.keys) m.values ∙ ground arith;
  create_others = λ m t k h.
      let bound = contains-sum k m.keys h in
      find-erase_if (λ u j. j == 1 + sum m.keys) t k m.values ∙ ground arith;
  get_set = λ m t k v. find-put m t k v t k ∙ ground arith;
  get_set_other = λ m t k v u j h. find-put m t k v u j ∙ elim (Bool-cases (t == u && k == j)) [
    | inl e ↦ let eu : t ≡ u = ground arith in let ej : k ≡ j = ground arith in absurd (h (eu, ej))
    | inr e ↦ rw e refl
  ];
  delete_others = λ m k u j h. refl;
  exit_null = λ m t k. find-erase_if (λ u j. u == t) t k m.values ∙ ground arith;
  exit_others = λ m t u k h. find-erase_if (λ v j. v == t) u k m.values ∙ ground arith;
  stream_new =
      λ m t l u k h. absurd (omega (arith, find-total u k (1 + total m.values) m.values h));
  stream_keeps = λ m t l u k. refl;
}

abbrev nothing : Memory
nothing = record { values = []; keys = 9 ∷ [] }

-- Thread 1 logs warnings and an error, thread 2 comes and goes.
abbrev earlier_calls : List ThreadEvent
earlier_calls = logs 1 warning ∷ logs 2 error ∷ exits 2 ∷ []

abbrev later_calls : List ThreadEvent
later_calls = logs 2 warning ∷ logs 1 error ∷ []

get_logger-get_logger_example :
    let (w0, keys) = new_log_stream_getter threads nothing in
    (w1 : Memory) × (s : ℕ) × (get_logger threads keys 1 warning (run threads keys earlier_calls w0)
      ≡ stream w1 s)
    × (w2 : Memory) × (r : ℕ) × (get_logger threads keys 2 warning (run threads keys later_calls w1)
        ≡ stream w2 r)
    × ((r ≡ s) ↔ ((◌≡◌ {A = ℕ} 2 1) × (warning ≡ warning)))
get_logger-get_logger_example =
    get_logger-get_logger threads threads-Documented nothing earlier_calls later_calls 1 2 warning
      warning (λ e. cc e) (λ e. cc e) (tt, (tt, tt))

delete_keys-get_logger_example :
    let (w0, keys) = new_log_stream_getter threads nothing in
    (w1 : Memory) × (s : ℕ) × (get_logger threads keys 1 warning (run threads keys earlier_calls w0)
      ≡ stream w1 s)
    × (In s (delete_keys threads keys 2 (run threads keys later_calls w1)).1 ↔ (◌≡◌ {A = ℕ} 2 1))
delete_keys-get_logger_example =
    delete_keys-get_logger threads threads-Documented nothing earlier_calls later_calls 1 2 warning
      (λ e. cc e) (tt, (tt, tt))

-- ===== src/Registry/Scan.antt =====
-- What the loops over all the registered input PVs do to each PV in memory.
use nds.Prelude.{
  ℕ, Bool, true, false, List, [], ◌∷◌, some, if◌then◌else◌, ◌==◌, ◌||◌, ◌&&◌, ◌≡◌, refl, arith,
  Text, Map, lookup, set_erase, contains, contains-set_erase, update, ap,
}
use nds.Registry.{InputPv, scan_inputs, stop_replication_to, unsubscribe_receiver}

-- Whether the map leads to the address.
abbrev pub has_value : ℕ → Map ℕ → Bool
has_value i [] = false
has_value i ((n, j) ∷ m) = j == i || has_value i m

pub lookup-has_value : (n : Text) (i : ℕ) (m : Map ℕ) → lookup n m ≡ some i → has_value i m ≡ true
unfolding lookup
lookup-has_value n i [] h = cc
lookup-has_value n i ((k, j) ∷ m) h = ground (arith, lookup-has_value n i m)

-- A change that says the same when made twice is made once to each PV in the map, and to no other.
pub scan_inputs_lem :
    (m : Map ℕ) (f : InputPv → InputPv) (h : ℕ → InputPv) (i : ℕ)
    → ((p : InputPv) → f (f p) ≡ f p)
    → scan_inputs m f h i ≡ (if has_value i m then f (h i) else h i)
unfolding scan_inputs
scan_inputs_lem [] f h i twice = refl
scan_inputs_lem ((n, j) ∷ m) f h i twice =
    ground (arith, scan_inputs_lem m f (update h j (f (h j))) i twice, twice (h i))

set_erase-set_erase : (a : ℕ) (l : List ℕ) → set_erase a (set_erase a l) ≡ set_erase a l
unfolding set_erase
set_erase-set_erase a [] = refl
set_erase-set_erase a (x ∷ l) = ground (arith, set_erase-set_erase a l)

pub unsubscribe_twice :
    (r : ℕ) (p : InputPv)
    → unsubscribe_receiver r (unsubscribe_receiver r p) ≡ unsubscribe_receiver r p
unfolding unsubscribe_receiver
unsubscribe_twice r p = ap (λ l. record p { subscribers = l }) (set_erase-set_erase r p.subscribers)

pub stop_twice :
    (d : ℕ) (p : InputPv)
    → stop_replication_to d (stop_replication_to d p) ≡ stop_replication_to d p
unfolding stop_replication_to
stop_twice d p = ap (λ l. record p { destinations = l }) (set_erase-set_erase d p.destinations)

-- A PV in memory after the two loops.
unsubscribed :
    (m : Map ℕ) (r : ℕ) (h : ℕ → InputPv) (i : ℕ)
    → scan_inputs m (unsubscribe_receiver r) h i
      ≡ (if has_value i m then unsubscribe_receiver r (h i) else h i)
unsubscribed m r h i = scan_inputs_lem m (unsubscribe_receiver r) h i (unsubscribe_twice r)

stopped :
    (m : Map ℕ) (d : ℕ) (h : ℕ → InputPv) (i : ℕ)
    → scan_inputs m (stop_replication_to d) h i
      ≡ (if has_value i m then stop_replication_to d (h i) else h i)
stopped m d h i = scan_inputs_lem m (stop_replication_to d) h i (stop_twice d)

module _ (m : Map ℕ) (r : ℕ) (h : ℕ → InputPv) (i : ℕ) where
  pub unsubscribed_name : (scan_inputs m (unsubscribe_receiver r) h i).full_name ≡ (h i).full_name
  unfolding unsubscribe_receiver
  unsubscribed_name = ground (arith, unsubscribed m r h i)

  pub unsubscribed_destinations :
      (scan_inputs m (unsubscribe_receiver r) h i).destinations ≡ (h i).destinations
  unfolding unsubscribe_receiver
  unsubscribed_destinations = ground (arith, unsubscribed m r h i)

  pub unsubscribed_subscribers :
      (x : ℕ)
      → contains x (scan_inputs m (unsubscribe_receiver r) h i).subscribers
        ≡ (if has_value i m && r == x then false else contains x (h i).subscribers)
  unfolding unsubscribe_receiver
  unsubscribed_subscribers x =
      ground (arith, unsubscribed m r h i, contains-set_erase r x (h i).subscribers)

  pub stopped_name : (scan_inputs m (stop_replication_to r) h i).full_name ≡ (h i).full_name
  unfolding stop_replication_to
  stopped_name = ground (arith, stopped m r h i)

  pub stopped_subscribers :
      (scan_inputs m (stop_replication_to r) h i).subscribers ≡ (h i).subscribers
  unfolding stop_replication_to
  stopped_subscribers = ground (arith, stopped m r h i)

  pub stopped_destinations :
      (x : ℕ)
      → contains x (scan_inputs m (stop_replication_to r) h i).destinations
        ≡ (if has_value i m && r == x then false else contains x (h i).destinations)
  unfolding stop_replication_to
  stopped_destinations x =
      ground (arith, stopped m r h i, contains-set_erase r x (h i).destinations)

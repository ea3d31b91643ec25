-- ===== src/LogStreams.antt =====
-- src/logStreamGetterImpl.cpp, and getLogger of src/baseImpl.cpp: the streams for the log lines, one
-- for each thread and level. The keys for the threads' own values, and the streams that a control
-- system makes, are not code of the repository: they are the operations of `Pthreads`.
pub mod OwnStream
pub mod Keys
pub mod Calls
pub mod Deleted
use nds.Prelude.{
  ℕ, zero, suc, ◌≡◌, ◌≢◌, Bool, true, false, Option, none, some, List, [], ◌∷◌, get_elem?,
}
use nds.Types.{LogLevel, level_value, Exception, logic_error}

-- `get_specific` and `set_specific` read and write what a thread has under a key; `in_use` tells the
-- keys that were made. `exit_thread` is the end of a thread, and `create_log_stream` what the control
-- system's createLogStream does, called in a thread.
pub record Pthreads (W : Type 0) : Type 0 where
  pub in_use : W → ℕ → Bool
  pub key_create : W → W × ℕ
  pub key_delete : W → ℕ → W
  pub get_specific : W → (thread key : ℕ) → Option ℕ
  pub set_specific : W → (thread key : ℕ) → Option ℕ → W
  pub exit_thread : W → ℕ → W
  pub create_log_stream : W → ℕ → LogLevel → W × ℕ

-- A new key is not in use before, and no thread has a value under it. Values stay where nothing is
-- written to them; a thread that ends loses its own. A new stream is none that a thread has.
pub record Documented {W : Type 0} (p : Pthreads W) : Type 0 where
  pub create_unused : (w : W) → p.in_use w (p.key_create w).1 ≡ false
  pub create_used : (w : W) → p.in_use (p.key_create w).0 (p.key_create w).1 ≡ true
  pub create_keeps : (w : W) (k : ℕ) → p.in_use w k ≡ true → p.in_use (p.key_create w).0 k ≡ true
  pub create_null : (w : W) (t : ℕ) → p.get_specific (p.key_create w).0 t (p.key_create w).1 ≡ none
  pub create_others :
      (w : W) (t k : ℕ)
      → p.in_use w k ≡ true
      → p.get_specific (p.key_create w).0 t k ≡ p.get_specific w t k
  pub get_set : (w : W) (t k : ℕ) (v : Option ℕ) → p.get_specific (p.set_specific w t k v) t k ≡ v
  pub get_set_other :
      (w : W) (t k : ℕ) (v : Option ℕ) (u j : ℕ)
      → ((t ≡ u) × (k ≡ j) → ⊥)
      → p.get_specific (p.set_specific w t k v) u j ≡ p.get_specific w u j
  pub delete_others :
      (w : W) (k u j : ℕ) → k ≢ j → p.get_specific (p.key_delete w k) u j ≡ p.get_specific w u j
  pub exit_null : (w : W) (t k : ℕ) → p.get_specific (p.exit_thread w t) t k ≡ none
  pub exit_others :
      (w : W) (t u k : ℕ) → t ≢ u → p.get_specific (p.exit_thread w t) u k ≡ p.get_specific w u k
  pub stream_new :
      (w : W) (t : ℕ) (l : LogLevel) (u k : ℕ)
      → p.get_specific w u k ≢ some (p.create_log_stream w t l).1
  pub stream_keeps :
      (w : W) (t : ℕ) (l : LogLevel) (u k : ℕ)
      → p.get_specific (p.create_log_stream w t l).0 u k ≡ p.get_specific w u k

-- How a call for a stream ends; `outside` is an index beyond the array, which is undefined.
pub data Logged (W : Type 0) : Type 0 where
  stream : W → ℕ → Logged W
  refused : Exception → Logged W
  outside : Logged W

module _ {W : Type 0} (p : Pthreads W) where
  -- The loop of the constructor over the array of the keys.
  unfoldable pub make_keys : ℕ → W → W × List ℕ
  make_keys zero w = (w, [])
  make_keys (suc n) w =
      let (w', k) = p.key_create w in let (w'', ks) = make_keys n w' in (w'', k ∷ ks)

  -- The constructor; the array has a key for each level below `none`.
  unfoldable pub new_log_stream_getter : W → W × List ℕ
  new_log_stream_getter w = make_keys (level_value LogLevel.none) w

  -- The stream under a key, made where there is none.
  unfoldable pub stream_under : ℕ → LogLevel → W → ℕ → Logged W
  stream_under t l w k = elim (p.get_specific w t k) [
    | some s ↦ stream w s
    | none ↦ let (w', s) = p.create_log_stream w t l in stream (p.set_specific w' t k (some s)) s
  ]

  unfoldable pub get_log_stream : List ℕ → ℕ → LogLevel → W → Logged W
  get_log_stream keys t l w = elim (get_elem? keys (level_value l)) [
    | none ↦ outside
    | some k ↦ stream_under t l w k
  ]

  -- BaseImpl::getLogger, called in the thread `t`.
  unfoldable pub get_logger : List ℕ → ℕ → LogLevel → W → Logged W
  get_logger keys t LogLevel.none w = refused logic_error
  get_logger keys t l w = get_log_stream keys t l w

  -- The loop of the destructor, called in the thread `t`: the streams that it deletes.
  unfoldable pub delete_keys : List ℕ → ℕ → W → W × List ℕ
  delete_keys [] t w = (w, [])
  delete_keys (k ∷ ks) t w = elim (p.get_specific w t k) [
    | none ↦ delete_keys ks t (p.key_delete w k)
    | some s ↦
        let (w', deleted) = delete_keys ks t (p.key_delete (p.set_specific w t k none) k) in
        (w', s ∷ deleted)
  ]

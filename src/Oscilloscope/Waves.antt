-- ===== src/Oscilloscope/Waves.antt =====
-- What the acquisition threads push.
use nds.Prelude.{
  ℕ, zero, suc, ◌+◌, ◌*◌, ◌^◌, ◌<◌, ℤ, pos, negsuc, ◌≡◌, refl, sym, ap, subst, ◌∙◌, Bool, true,
  false, List, [], ◌∷◌, ◌++◌, map, arith, length, All,
}
use nds.Acquisition.{to_size}
use nds.Oscilloscope.{
  of_size, square_sample, fill_square, fill_sinusoidal, acquire, acquire_square_wave,
  acquire_sinusoidal_wave,
}

-- The thread reads amplitudes with the flag cleared, and then the flag set.
abbrev pub until_stopped : List ℤ → ℤ → List (Bool × ℤ) → List (Bool × ℤ)
until_stopped amplitudes last rest = map (λ a. (false, a)) amplitudes ++ (true, last) ∷ rest

abbrev pub repeat : ℕ → ℤ → List ℤ
repeat zero a = []
repeat (suc n) a = a ∷ repeat n a

-- The values of an int32_t.
abbrev pub IsInt32 : ℤ → Type 0
IsInt32 (pos n) = n < 2 ^ 31
IsInt32 (negsuc n) = n < 2 ^ 31

of_size-to_size : (a : ℤ) → IsInt32 a → of_size (to_size a) ≡ a
of_size-to_size (pos n) h = ground arith
of_size-to_size (negsuc n) h = ground arith

fill_square-repeat : (n : ℕ) (a : ℤ) → IsInt32 a → fill_square n 0 (to_size a) ≡ (repeat n a, 0)
unfolding fill_square square_sample
fill_square-repeat zero a h = refl
fill_square-repeat (suc n) a h = rw (fill_square-repeat n a h, of_size-to_size a h) refl

-- acquireSquareWave ends when it finds the flag set. Each vector that it has pushed by then holds the
-- amplitude that it had read, an int32_t, in all of its elements: the wave never goes to the other side.
pub acquire_square_wave-repeat :
    (n : ℕ) (amplitudes : List ℤ) (last : ℤ) (rest : List (Bool × ℤ))
    → All IsInt32 amplitudes
    → acquire_square_wave n (until_stopped amplitudes last rest) ≡ (map (repeat n) amplitudes, true)
unfolding acquire_square_wave acquire
acquire_square_wave-repeat n [] last rest h = refl
acquire_square_wave-repeat n (a ∷ more) last rest h =
    rw (fill_square-repeat n a h.0, acquire_square_wave-repeat n more last rest h.1) refl

-- The values of a function from a number on.
abbrev pub samples : (ℕ → ℤ) → ℕ → ℕ → List ℤ
samples f start zero = []
samples f start (suc n) = f start ∷ samples f (1 + start) n

abbrev pub concat : List (List ℤ) → List ℤ
concat [] = []
concat (v ∷ vs) = v ++ concat vs

samples-append :
    (f : ℕ → ℤ) (start m n : ℕ)
    → samples f start (m + n) ≡ samples f start m ++ samples f (start + m) n
samples-append f start zero n =
    let e : start + 0 ≡ start = omega arith in let e' : 0 + n ≡ n = omega arith in rw (e, e') refl
samples-append f start (suc m) n =
    let e : (1 + start) + m ≡ start + suc m = omega arith in
    let e' : suc m + n ≡ suc (m + n) = omega arith in
    rw (e', ← e) (ap (λ l. f start ∷ l) (samples-append f (1 + start) m n))

fill_sinusoidal-samples :
    (sample : ℕ → ℕ → ℤ) (n angle amplitude : ℕ)
    → fill_sinusoidal sample n angle amplitude ≡ (samples (sample amplitude) angle n, angle + n)
unfolding fill_sinusoidal
fill_sinusoidal-samples sample zero angle amplitude =
    let e : angle + 0 ≡ angle = omega arith in rw e refl
fill_sinusoidal-samples sample (suc n) angle amplitude =
    let e : (1 + angle) + n ≡ angle + suc n = omega arith in
    rw (fill_sinusoidal-samples sample n (1 + angle) amplitude, e) refl

length-samples : (f : ℕ → ℤ) (start n : ℕ) → length (samples f start n) ≡ n
length-samples f start zero = refl
length-samples f start (suc n) = omega (arith, length-samples f (1 + start) n)

-- What the loop pushes, from an angle on.
abbrev Sampled : (ℕ → ℕ → ℤ) → ℕ → ℤ → ℕ → ℕ → List (List ℤ) × Bool → Type 0
Sampled sample n a angle k r =
    (r.1 ≡ true)
    × All (λ v. length v ≡ n) r.0
    × (concat r.0 ≡ samples (sample (to_size a)) angle (k * n))

-- One pass of the loop.
acquire-pass :
    (fill : ℕ → ℕ → List ℤ × ℕ) (angle angle' : ℕ) (a : ℤ) (v : List ℤ) (reads : List (Bool × ℤ))
    → fill angle (to_size a) ≡ (v, angle')
    → acquire fill angle ((false, a) ∷ reads)
      ≡ (v ∷ (acquire fill angle' reads).0, (acquire fill angle' reads).1)
unfolding acquire
acquire-pass fill angle angle' a v reads h =
    ap (λ p. (p.0 ∷ (acquire fill p.1 reads).0, (acquire fill p.1 reads).1)) h

Sampled-pass :
    (sample : ℕ → ℕ → ℤ) (n : ℕ) (a : ℤ) (angle k : ℕ) (pushed : List (List ℤ)) (ended : Bool)
    → Sampled sample n a (angle + n) k (pushed, ended)
    → Sampled sample n a angle (suc k) (samples (sample (to_size a)) angle n ∷ pushed, ended)
Sampled-pass sample n a angle k pushed ended h =
    let e : suc k * n ≡ n + k * n = omega arith in
    (
      h.0,
      (length-samples (sample (to_size a)) angle n, h.1),
      ap (λ l. samples (sample (to_size a)) angle n ++ l) h.2
          ∙ sym (samples-append (sample (to_size a)) angle n (k * n))
          ∙ ap (samples (sample (to_size a)) angle) (sym e),
    )

acquire-Sampled :
    (sample : ℕ → ℕ → ℤ) (n : ℕ) (a last : ℤ) (rest : List (Bool × ℤ)) (k angle : ℕ)
    → Sampled sample n a angle k
        (acquire (fill_sinusoidal sample n) angle (until_stopped (repeat k a) last rest))
unfolding acquire
acquire-Sampled sample n a last rest zero angle =
    let e : 0 * n ≡ 0 = omega arith in (refl, tt, ap (samples (sample (to_size a)) angle) (sym e))
acquire-Sampled sample n a last rest (suc k) angle =
    let reads = until_stopped (repeat k a) last rest in
    let pass =
      acquire-pass (fill_sinusoidal sample n) angle (angle + n) a _ reads
        (fill_sinusoidal-samples sample n angle (to_size a)) in
    subst (Sampled sample n a angle (suc k)) (sym pass)
      (Sampled-pass sample n a angle k _ _ (acquire-Sampled sample n a last rest k (angle + n)))

-- acquireSinusoidalWave ends when it finds the flag set. Where it has read the same amplitude each time,
-- the vectors that it has pushed by then have the size of the buffer, and put end to end they are the
-- samples of the wave at all the angles from 0 on, without a gap.
pub acquire_sinusoidal_wave-samples :
    (sample : ℕ → ℕ → ℤ) (n k : ℕ) (a last : ℤ) (rest : List (Bool × ℤ))
    → let (pushed, ended) =
        acquire_sinusoidal_wave sample n (until_stopped (repeat k a) last rest) in
      (ended ≡ true)
      × All (λ v. length v ≡ n) pushed
      × (concat pushed ≡ samples (sample (to_size a)) 0 (k * n))
unfolding acquire_sinusoidal_wave
acquire_sinusoidal_wave-samples sample n k a last rest = acquire-Sampled sample n a last rest k 0

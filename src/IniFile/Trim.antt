-- ===== src/IniFile/Trim.antt =====
-- IniFileParserImpl::trim: what is cut off and what is left.
use nds.Prelude.{
  ℕ, zero, suc, ◌+◌, ◌≡◌, refl, sym, ap, subst, ◌∙◌, ◌⊎◌, inl, inr, Bool, true, false, ◌&&◌, none,
  some, [], ◌∷◌, ◌++◌, arith, ◌==◌, if◌then◌else◌, Bool-cases, length, take, drop, length-append,
  take-length, take-all, All, All-append, Text,
}
use nds.IniFile.{next, find_from, find_last, last_index, is_space, not_space, erase_ends, trim}
use mathlib.Core.List.{append_assoc}

abbrev pub Spaces : Text → Type 0
Spaces s = All (λ c. is_space c ≡ true) s

-- Empty, or with no space at either end.
pub data Bounded : Text → Type 0 where
  empty : Bounded []
  one : (c : ℕ) → is_space c ≡ false → Bounded (c ∷ [])
  more :
      (c : ℕ) (t : Text) (d : ℕ)
      → is_space c ≡ false
      → is_space d ≡ false
      → Bounded (c ∷ t ++ d ∷ [])

-- How the text `t` stands in `s`: between spaces, and with none at its ends.
pub record Trimmed (s t : Text) : Type 0 where
  pub leading : Text
  pub trailing : Text
  pub whole : s ≡ leading ++ (t ++ trailing)
  pub leading_spaces : Spaces leading
  pub trailing_spaces : Spaces trailing
  pub bounded : Bounded t

pub find_last-Spaces : (s : Text) → Spaces s → find_last not_space s ≡ none
unfolding find_last
find_last-Spaces [] h = refl
find_last-Spaces (c ∷ s) h = rw (find_last-Spaces s h.1, h.0)

pub find_last-end :
    (t : Text) (d : ℕ) (post : Text)
    → is_space d ≡ false
    → Spaces post
    → find_last not_space ((t ++ d ∷ []) ++ post) ≡ some (length t)
unfolding find_last
find_last-end [] d post hd hp = rw (find_last-Spaces post hp, hd)
find_last-end (c ∷ t) d post hd hp = rw (find_last-end t d post hd hp)

shift_suc : (n l : ℕ) → some (suc (n + l)) ≡ some (suc n + l)
shift_suc n l = ground arith

pub find_last-shift :
    (pre s : Text) (l : ℕ)
    → find_last not_space s ≡ some l
    → find_last not_space (pre ++ s) ≡ some (length pre + l)
unfolding find_last
find_last-shift [] s l e = ground arith
find_last-shift (b ∷ pre) s l e = rw (find_last-shift pre s l e) (shift_suc (length pre) l)

pub find_from-start :
    (pre : Text) (c : ℕ) (t : Text)
    → is_space c ≡ false
    → Spaces pre
    → find_from not_space 0 (pre ++ c ∷ t) ≡ some (length pre)
unfolding find_from next
find_from-start [] c t hc hp = rw (hc)
find_from-start (b ∷ pre) c t hc hp = rw (hp.0, find_from-start pre c t hc hp.1)

pub trim-nothing : (s : Text) → find_last not_space s ≡ none → trim s ≡ []
unfolding trim erase_ends last_index find_from find_last
trim-nothing [] e = refl
trim-nothing (c ∷ s) e = rw (e)

trim-cut_here :
    (c : ℕ) (s : Text) (l : ℕ)
    → (if l == length s && true then c ∷ s else take (suc l) (c ∷ s)) ≡ take (suc l) (c ∷ s)
trim-cut_here c s l = elim (Bool-cases (l == length s)) [
  | inl h ↦ ground (arith, take-all s)
  | inr h ↦ ground arith
]

trim-cut_there :
    (f : ℕ) (b : Bool) (s t : Text)
    → (if b && suc f == 0 then s else drop (suc f) t) ≡ drop (suc f) t
trim-cut_there f true s t = ground arith
trim-cut_there f false s t = refl

-- Both ways through trim cut from the first to the last character.
pub trim-cut :
    (s : Text) (l f : ℕ)
    → find_last not_space s ≡ some l
    → find_from not_space 0 s ≡ some f
    → trim s ≡ drop f (take (suc l) s)
unfolding trim erase_ends last_index
trim-cut [] l f e g = ground arith
trim-cut (c ∷ s) l zero e g = rw (e, g, trim-cut_here c s l)
trim-cut (c ∷ s) l (suc f) e g =
    rw (e, g) (trim-cut_there f (l == length s) (c ∷ s) (take (suc l) (c ∷ s)))

pub cut-middle :
    (pre t post : Text) (n : ℕ)
    → n ≡ length pre + length t
    → drop (length pre) (take n (pre ++ (t ++ post))) ≡ t
cut-middle [] t post n e = let e' : n ≡ length t = omega (arith, e) in rw (e', take-length t post)
cut-middle (b ∷ pre) t post zero e = let no : ⊥ = omega (arith, e) in elim no [ ]
cut-middle (b ∷ pre) t post (suc n) e = cut-middle pre t post n (omega (arith, e))

-- A text between spaces is what trim leaves.
pub trim-around :
    (pre t post : Text) → Spaces pre → Spaces post → Bounded t → trim (pre ++ (t ++ post)) ≡ t
trim-around pre _ post hp hq empty =
    trim-nothing (pre ++ post) (find_last-Spaces (pre ++ post) (All-append _ pre post hp hq))
trim-around pre _ post hp hq (one c hc) = rw (
  trim-cut (pre ++ c ∷ post) (length pre + 0) (length pre)
      (find_last-shift pre (c ∷ post) 0 (find_last-end [] c post hc hq))
      (find_from-start pre c post hc hp),
  cut-middle pre (c ∷ []) post (suc (length pre + 0)) (omega arith),
)
trim-around pre _ post hp hq (more c t' d hc hd) = rw (
  trim-cut (pre ++ ((c ∷ t' ++ d ∷ []) ++ post)) (length pre + suc (length t')) (length pre)
      (find_last-shift pre ((c ∷ t' ++ d ∷ []) ++ post) (suc (length t'))
        (find_last-end (c ∷ t') d post hd hq))
      (find_from-start pre c ((t' ++ d ∷ []) ++ post) hc hp),
  cut-middle pre (c ∷ t' ++ d ∷ []) post (suc (length pre + suc (length t')))
      (omega (arith, length-append t' (d ∷ []))),
)

-- A byte in front of a bounded text, with what stands between them.
Bounded-front :
    (c : ℕ) (lead t : Text) → is_space c ≡ false → Bounded t → (t ≡ []) ⊎ Bounded (c ∷ lead ++ t)
Bounded-front c lead _ hc empty = inl refl
Bounded-front c lead _ hc (one d hd) = inr (more c lead d hc hd)
Bounded-front c lead _ hc (more b t d hb hd) = inr (
    subst Bounded (ap (λ r. c ∷ r) (append_assoc lead (b ∷ t) (d ∷ [])))
      (more c (lead ++ b ∷ t) d hc hd))

Trimmed-front : (c : ℕ) (s t : Text) → Trimmed s t → (u : Text) × Trimmed (c ∷ s) u
Trimmed-front c s t h = elim (Bool-cases (is_space c)) [
  | inl e ↦ (
    t,
    record {
      leading = c ∷ h.leading;
      trailing = h.trailing;
      whole = ap (λ r. c ∷ r) h.whole;
      leading_spaces = (e, h.leading_spaces);
      trailing_spaces = h.trailing_spaces;
      bounded = h.bounded;
    },
  )
  | inr e ↦ elim (Bounded-front c h.leading t e h.bounded) [
    | inl none_left ↦ (
      c ∷ [],
      record {
        leading = [];
        trailing = h.leading ++ h.trailing;
        whole = ap (λ r. c ∷ r) (subst (λ u. s ≡ h.leading ++ (u ++ h.trailing)) none_left h.whole);
        leading_spaces = tt;
        trailing_spaces = All-append _ h.leading h.trailing h.leading_spaces h.trailing_spaces;
        bounded = one c e;
      },
    )
    | inr b ↦ (
      c ∷ h.leading ++ t,
      record {
        leading = [];
        trailing = h.trailing;
        whole = ap (λ r. c ∷ r) (h.whole ∙ sym (append_assoc h.leading t h.trailing));
        leading_spaces = tt;
        trailing_spaces = h.trailing_spaces;
        bounded = b;
      },
    )
  ]
]

split : (s : Text) → (t : Text) × Trimmed s t
split [] = (
  [],
  record {
    leading = [];
    trailing = [];
    whole = refl;
    leading_spaces = tt;
    trailing_spaces = tt;
    bounded = empty;
  },
)
split (c ∷ s) = let (t, h) = split s in Trimmed-front c s t h

-- There is one way to trim a text.
pub Trimmed-trim : (s t : Text) → Trimmed s t → trim s ≡ t
Trimmed-trim s t h =
    ap trim h.whole
    ∙ trim-around h.leading t h.trailing h.leading_spaces h.trailing_spaces h.bounded

-- Every text is spaces, what trim returns, and spaces, and what trim returns is empty or has no
-- space at either end.
pub trim-Trimmed : (s : Text) → Trimmed s (trim s)
trim-Trimmed s = let (t, h) = split s in subst (λ u. Trimmed s u) (sym (Trimmed-trim s t h)) h

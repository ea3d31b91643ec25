-- ===== src/Folders/Pieces.antt =====
-- separateFoldersList cuts the text at the separators that stand outside quotes.
use nds.Prelude.{
  ℕ, suc, ◌+◌, ◌-◌, ◌≡◌, refl, sym, ap, ◌∙◌, inl, inr, true, false, Option, none, some, List, [],
  ◌∷◌, ◌++◌, arith, ◌==◌, if◌then◌else◌, Bool-cases, length, drop, length-append, take-length,
  drop-length, Text,
}
use nds.Folders.{
  is_separator, is_quote_mark, Scan, substr, add_folder, scan_byte, scan_folders, last_folder,
  separate_folders_list,
}
use mathlib.Core.List.{append_assoc, append-nil}

unfoldable pub add_piece : Text → List Text → List Text
add_piece [] pieces = pieces
add_piece (c ∷ s) pieces = (c ∷ s) ∷ pieces

-- The pieces without positions: from the open quote and the piece so far.
unfoldable pub pieces : Option ℕ → Text → Text → List Text
pieces quote current [] = add_piece current []
pieces (some q) current (c ∷ rest) =
    if c == q
    then pieces none (current ++ c ∷ []) rest
    else pieces (some q) (current ++ c ∷ []) rest
pieces none current (c ∷ rest) =
    let quoted = pieces (some c) (current ++ c ∷ []) rest in
    let cut = add_piece current (pieces none [] rest) in
    let same = pieces none (current ++ c ∷ []) rest in
    if is_quote_mark c then quoted else (if is_separator c then cut else same)

-- Where the loop stands: the text is what is done with, the piece so far, and the rest.
pub record At (s : Text) (position start : ℕ) (current rest : Text) : Type 0 where
  pub done : Text
  pub whole : s ≡ done ++ (current ++ rest)
  pub from : start ≡ length done
  pub place : position ≡ length done + length current

abbrev state : Option ℕ → ℕ → List Text → Scan
state q a f = record { open_quotes = q; start_string = a; folders = f }

At-length :
    (s : Text) (position start : ℕ) (current rest : Text)
    → At s position start current rest
    → length s ≡ start + (length current + length rest)
At-length s position start current rest h =
    let total : length (h.done ++ (current ++ rest)) ≡ length h.done + length (current ++ rest) =
      length-append h.done (current ++ rest) in
    omega (arith, ap length h.whole, total, length-append current rest, h.from)

At-drop :
    (s : Text) (position start : ℕ) (current rest : Text)
    → At s position start current rest
    → drop start s ≡ current ++ rest
At-drop s position start current rest h =
    rw (h.whole, h.from) (drop-length h.done (current ++ rest))

At-keep :
    (s : Text) (position start c : ℕ) (current rest : Text)
    → At s position start current (c ∷ rest)
    → At s (suc position) start (current ++ c ∷ []) rest
At-keep s position start c current rest h = record {
  done = h.done;
  whole = h.whole ∙ ap (λ x. h.done ++ x) (sym (append_assoc current (c ∷ []) rest));
  from = h.from;
  place = omega (arith, h.place, length-append current (c ∷ []));
}

At-cut :
    (s : Text) (position start c : ℕ) (current rest : Text)
    → At s position start current (c ∷ rest)
    → At s (suc position) (suc position) [] rest
At-cut s position start c current rest h = record {
  done = h.done ++ (current ++ c ∷ []);
  whole =
      h.whole
      ∙ ap (λ x. h.done ++ x) (sym (append_assoc current (c ∷ []) rest))
      ∙ sym (append_assoc h.done (current ++ c ∷ []) rest);
  from =
      omega
        (arith, h.place, length-append h.done (current ++ c ∷ []), length-append current (c ∷ []));
  place =
      omega
        (arith, h.place, length-append h.done (current ++ c ∷ []), length-append current (c ∷ []));
}

add_piece-append : (s : Text) (xs : List Text) → add_piece s xs ≡ add_piece s [] ++ xs
unfolding add_piece
add_piece-append [] xs = refl
add_piece-append (c ∷ s) xs = refl

last_folder-add_piece :
    (s : Text) (position : ℕ) (q : Option ℕ) (a : ℕ) (f : List Text) (current : Text)
    → At s position a current []
    → last_folder s (state q a f) ≡ f ++ add_piece current []
unfolding add_piece last_folder
last_folder-add_piece s position q a f [] h =
    let same : (a == length s) ≡ true = ground (arith, At-length s position a [] [] h) in
    rw (last_folder, same) (sym (append-nil f))
last_folder-add_piece s position q a f (c ∷ current) h =
    let other : (a == length s) ≡ false =
      ground (arith, At-length s position a (c ∷ current) [] h) in
    rw (last_folder, other, At-drop s position a (c ∷ current) [] h, append-nil (c ∷ current))

add_folder-add_piece :
    (s : Text) (position c : ℕ) (q : Option ℕ) (a : ℕ) (f : List Text) (current rest : Text)
    → At s position a current (c ∷ rest)
    → add_folder s position (state q a f) ≡ f ++ add_piece current []
unfolding add_piece substr add_folder
add_folder-add_piece s position c q a f [] rest h =
    let same : (position == a) ≡ true = ground (arith, h.place, h.from) in
    rw (add_folder, same) (sym (append-nil f))
add_folder-add_piece s position c q a f (d ∷ current) rest h =
    let other : (position == a) ≡ false = ground (arith, h.place, h.from) in
    let count : position - a ≡ length (d ∷ current) = omega (arith, h.place, h.from) in
    rw (
      add_folder,
      other,
      count,
      At-drop s position a (d ∷ current) (c ∷ rest) h,
      take-length (d ∷ current) (c ∷ rest),
    )

scan_folders-pieces :
    (rest s : Text) (position : ℕ) (q : Option ℕ) (a : ℕ) (f : List Text) (current : Text)
    → At s position a current rest
    → last_folder s (scan_folders s position rest (state q a f)) ≡ f ++ pieces q current rest
unfolding scan_folders scan_byte pieces
scan_folders-pieces [] s position q a f current h = last_folder-add_piece s position q a f current h
scan_folders-pieces (c ∷ rest) s position (some q) a f current h = elim (Bool-cases (c == q)) [
  | inl e ↦ rw e (
      scan_folders-pieces rest s (suc position) none a f (current ++ c ∷ [])
        (At-keep s position a c current rest h))
  | inr e ↦ rw e (
      scan_folders-pieces rest s (suc position) (some q) a f (current ++ c ∷ [])
        (At-keep s position a c current rest h))
]
scan_folders-pieces (c ∷ rest) s position none a f current h =
    let keep = At-keep s position a c current rest h in
    elim (Bool-cases (is_quote_mark c)) [
      | inl e ↦
          rw e (scan_folders-pieces rest s (suc position) (some c) a f (current ++ c ∷ []) keep)
      | inr e ↦ elim (Bool-cases (is_separator c)) [
        | inr g ↦
            rw (e, g) (scan_folders-pieces rest s (suc position) none a f (current ++ c ∷ []) keep)
        | inl g ↦
            rw
              (
                e,
                g,
                add_folder-add_piece s position c none a f current rest h,
                scan_folders-pieces rest s (suc position) none (suc position)
                    (f ++ add_piece current []) [] (At-cut s position a c current rest h),
              )
              (append_assoc f (add_piece current []) (pieces none [] rest)
                ∙ ap (λ x. f ++ x) (sym (add_piece-append current (pieces none [] rest))))
      ]
    ]

-- separateFoldersList gives the non-empty pieces of the text, cut at each `:`, `;` and blank that
-- stands outside quotes, in their order and with their quotes; a quote that is not closed goes on to
-- the end.
pub separate_folders_list-pieces : (s : Text) → separate_folders_list (some s) ≡ pieces none [] s
unfolding separate_folders_list
separate_folders_list-pieces s =
    scan_folders-pieces s s 0 none 0 [] []
      (record { done = []; whole = refl; from = refl; place = refl })

-- ===== src/IniFile/Files.antt =====
-- A file of sections written out and parsed again.
use nds.Prelude.{
  ℕ, suc, ◌≡◌, refl, sym, ap, subst, ◌∙◌, ◌≢◌, true, false, none, some, [], ◌∷◌, ◌++◌, arith, All,
  All-append, All-append_right, Text, text_eq, text_eq_refl, text_lt, Map, lookup, insert,
}
use nds.IniFile.{Sections, keys_of, store, get_lines, parse_lines, parse, loaded}
use nds.IniFile.Lines.{Without, print_section}
use nds.IniFile.Written.{
  IsName, IsKey, IsEntry, Ascending, IsSection, print_keys, print_sections, get_lines-line,
  section_line, store_keys, count, keys_lines,
}
use mathlib.Core.List.{append_assoc, append-nil}

text_lt-excludes : (s t : Text) → text_lt s t ≡ true → (text_eq s t ≡ false) × (text_lt t s ≡ false)
unfolding text_lt text_eq
text_lt-excludes [] [] h = absurd (ground arith)
text_lt-excludes [] (b ∷ t) h = (refl, refl)
text_lt-excludes (a ∷ s) [] h = absurd (ground arith)
text_lt-excludes (a ∷ s) (b ∷ t) h =
    (ground (arith, text_lt-excludes s t), ground (arith, text_lt-excludes s t))

module _ {V : Type 0} where
  -- All the keys come before this one.
  abbrev Below : Text → Map V → Type 0
  Below k m = All (λ e. text_lt e.0 k ≡ true) m

  insert-end : (k : Text) (v : V) (m : Map V) → Below k m → insert k v m ≡ m ++ (k, v) ∷ []
  unfolding insert
  insert-end k v [] h = refl
  insert-end k v ((j, w) ∷ m) h =
      let (differs, not_before) = text_lt-excludes j k h.0 in
      rw (differs, not_before, insert-end k v m h.1)

  insert-last :
      (k : Text) (v w : V) (m : Map V)
      → Below k m
      → insert k v (m ++ (k, w) ∷ []) ≡ m ++ (k, v) ∷ []
  unfolding insert
  insert-last k v w [] h = rw (text_eq_refl k)
  insert-last k v w ((j, x) ∷ m) h =
      let (differs, not_before) = text_lt-excludes j k h.0 in
      rw (differs, not_before, insert-last k v w m h.1)

  lookup-last : (k : Text) (v : V) (m : Map V) → Below k m → lookup k (m ++ (k, v) ∷ []) ≡ some v
  unfolding lookup
  lookup-last k v [] h = rw (text_eq_refl k)
  lookup-last k v ((j, x) ∷ m) h =
      let (differs, _) = text_lt-excludes j k h.0 in rw (differs, lookup-last k v m h.1)

  lookup-none : (k : Text) (m : Map V) → Below k m → lookup k m ≡ none
  unfolding lookup
  lookup-none k [] h = refl
  lookup-none k ((j, x) ∷ m) h =
      let (differs, _) = text_lt-excludes j k h.0 in rw (differs, lookup-none k m h.1)

  Ascending-Below :
      (m : Map V) (k : Text) (v : V) (rest : Map V) → Ascending (m ++ (k, v) ∷ rest) → Below k m
  Ascending-Below [] k v rest h = tt
  Ascending-Below ((j, x) ∷ m) k v rest h = (
    (All-append_right (λ e. text_lt j e.0 ≡ true) m ((k, v) ∷ rest) h.0).0,
    Ascending-Below m k v rest h.1,
  )

keys_of-last :
    (name : Text) (ks : Map Text) (m : Sections)
    → Below name m
    → keys_of name (m ++ (name, ks) ∷ []) ≡ ks
unfolding keys_of
keys_of-last name ks m b = rw (keys_of, lookup-last name ks m b)

keys_of-new : (name : Text) (m : Sections) → Below name m → keys_of name m ≡ []
unfolding keys_of
keys_of-new name m b = rw (keys_of, lookup-none name m b)

-- Storing a key in the last section, behind its keys.
store-last :
    (name k v : Text) (ks : Map Text) (m : Sections)
    → IsKey k
    → Below name m
    → Below k ks
    → store name k v (m ++ (name, ks) ∷ []) ≡ m ++ (name, ks ++ (k, v) ∷ []) ∷ []
unfolding store
store-last name [] v ks m h b c = elim h [ ]
store-last name (x ∷ k) v ks m h b c =
    rw (keys_of-last name ks m b, insert-end (x ∷ k) v ks c)
      (insert-last name (ks ++ (x ∷ k, v) ∷ []) ks m b)

store-first :
    (name k v : Text) (m : Sections)
    → IsKey k
    → Below name m
    → store name k v m ≡ m ++ (name, (k, v) ∷ []) ∷ []
unfolding store insert
store-first name [] v m h b = elim h [ ]
store-first name (x ∷ k) v m h b = rw (keys_of-new name m b) (insert-end name ((x ∷ k, v) ∷ []) m b)

store_keys-last :
    (name : Text) (ks keys : Map Text) (m : Sections)
    → Below name m
    → All IsEntry keys
    → Ascending (ks ++ keys)
    → store_keys name keys (m ++ (name, ks) ∷ []) ≡ m ++ (name, ks ++ keys) ∷ []
store_keys-last name ks [] m b h asc = ap (λ l. m ++ (name, l) ∷ []) (sym (append-nil ks))
store_keys-last name ks ((k, v) ∷ keys) m b h asc =
    let onward = sym (append_assoc ks ((k, v) ∷ []) keys) in
    ap (store_keys name keys) (store-last name k v ks m h.0.0 b (Ascending-Below ks k v keys asc))
    ∙ store_keys-last name (ks ++ (k, v) ∷ []) keys m b h.1 (subst Ascending onward asc)
    ∙ ap (λ l. m ++ (name, l) ∷ []) (sym onward)

print_section-Without : (name : Text) → IsName name → Without 10 (print_section name)
print_section-Without [] h = elim h [ ]
print_section-Without (c ∷ n) h =
    ((λ e. ground arith), All-append (λ d. d ≢ 10) (c ∷ n) _ h.3 ((λ e. ground arith), tt))

sections_lines :
    (n : ℕ) (last : Text) (m ss : Sections)
    → All IsSection ss
    → Ascending (m ++ ss)
    → parse_lines n last m (get_lines (print_sections ss)) ≡ loaded (m ++ ss)
unfolding print_sections parse_lines get_lines
sections_lines n last m [] h asc = ap loaded (sym (append-nil m))
sections_lines n last m ((name, []) ∷ ss) h asc = elim h.0 [ ]
sections_lines n last m ((name, (k, v) ∷ keys) ∷ ss) ((h, entries, keys_asc), hs) asc =
    let below = Ascending-Below m name ((k, v) ∷ keys) ss asc in
    let stored : store_keys name keys (store name k v m) ≡ m ++ (name, (k, v) ∷ keys) ∷ [] =
      ap (store_keys name keys) (store-first name k v m entries.0.0 below)
      ∙ store_keys-last name ((k, v) ∷ []) keys m below entries.1 keys_asc in
    rw
      (
        get_lines-line (print_section name) (print_keys ((k, v) ∷ keys) ++ print_sections ss)
            (print_section-Without name h),
        section_line n last name m (get_lines (print_keys ((k, v) ∷ keys) ++ print_sections ss)) h,
        keys_lines (suc n) name ((k, v) ∷ keys) m (print_sections ss) entries,
        stored,
        sections_lines (count (suc n) ((k, v) ∷ keys)) name (m ++ (name, (k, v) ∷ keys) ∷ []) ss hs
            (subst Ascending (sym (append_assoc m ((name, (k, v) ∷ keys) ∷ []) ss)) asc),
      )
      (ap loaded (append_assoc m ((name, (k, v) ∷ keys) ∷ []) ss))

-- A file of sections is parsed into the sections that it was written from: their names and the keys
-- of each are in order, each section has a key, each value is in quotes, and the names, keys and
-- values are free of the bytes that end or escape them, and the names and keys of spaces at their ends.
pub parse-print_sections :
    (ss : Sections) → All IsSection ss → Ascending ss → parse (print_sections ss) ≡ loaded ss
unfolding parse
parse-print_sections ss h asc = sections_lines 0 [] [] ss h asc

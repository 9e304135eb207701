-- ===== src/Json/Read.antt =====
-- Reading back a printed value: `canonical_json` of remembrance-consent/app/consent/audit.py maps
-- no two documents with different contents to one text.
use mathlib.Core.List.{append_assoc}
use the_st.Prelude.{
  ℕ, zero, suc, ◌+◌, ◌-◌, ◌<◌, ◌≤◌, ◌≡◌, refl, ap, ◌∙◌, Bool, true, false, ◌&&◌, [], ◌∷◌, ◌++◌,
  arith, Text, codes, ◌==◌, if◌then◌else◌, Option, none, some, drop, and_left, and_right,
}
use the_st.Format.Decimal.{is_digit, NoDigit, read_digits, read_digits-decimal, decimal_head}
use the_st.Json.{
  ℤ, pos, negsuc, Value, Items, Entries, quote, int_text, print, print_items, print_entries,
}
use the_st.Json.Strings.{plain, read_chars, read_escape_all}

-- Values that consist of what JSON has, less floating-point numbers.
unfoldable mutual
  pub is_plain : Value → Bool
  is_plain (Value.float r) = false
  is_plain Value.other = false
  is_plain (Value.list xs) = plain_items xs
  is_plain (Value.dict es) = plain_entries es
  is_plain _ = true

  pub plain_items : Items → Bool
  plain_items Items.nil = true
  plain_items (Items.item v xs) = is_plain v && plain_items xs

  pub plain_entries : Entries → Bool
  plain_entries Entries.end = true
  plain_entries (Entries.entry k v es) = is_plain v && plain_entries es
  plain_entries (Entries.bad_entry v es) = false

-- Enough fuel to read a value.
unfoldable mutual
  pub size : Value → ℕ
  size (Value.list xs) = suc (size_items xs)
  size (Value.dict es) = suc (size_entries es)
  size _ = 1

  pub size_items : Items → ℕ
  size_items Items.nil = 1
  size_items (Items.item v xs) = suc (size v + size_items xs)

  pub size_entries : Entries → ℕ
  size_entries Entries.end = 1
  size_entries (Entries.entry k v es) = suc (size v + size_entries es)
  size_entries (Entries.bad_entry v es) = suc (size v + size_entries es)

abbrev read_int : (ℕ → ℤ) → ℕ × Text → Option (Value × Text)
read_int sign (n, rest) = some (Value.int (sign n), rest)

abbrev as_str : Option (Text × Text) → Option (Value × Text)
as_str none = none
as_str (some (t, rest)) = some (Value.str t, rest)

abbrev as_list : Option (Items × Text) → Option (Value × Text)
as_list none = none
as_list (some (xs, rest)) = some (Value.list xs, rest)

abbrev as_dict : Option (Entries × Text) → Option (Value × Text)
as_dict none = none
as_dict (some (es, rest)) = some (Value.dict es, rest)

abbrev add_item : Value → Option (Items × Text) → Option (Items × Text)
add_item v none = none
add_item v (some (xs, rest)) = some (Items.item v xs, rest)

abbrev add_entry : Text → Value → Option (Entries × Text) → Option (Entries × Text)
add_entry k v none = none
add_entry k v (some (es, rest)) = some (Entries.entry k v es, rest)

-- What follows an item: the end of the list, or a comma and more.
abbrev after_item : (Text → Option (Items × Text)) → Option (Value × Text) → Option (Items × Text)
after_item more none = none
after_item more (some (v, [])) = none
after_item more (some (v, c ∷ rest)) =
    if c == b']' then some (Items.item v Items.nil, rest) else add_item v (more rest)

abbrev after_entry :
    Text → (Text → Option (Entries × Text)) → Option (Value × Text) → Option (Entries × Text)
after_entry k more none = none
after_entry k more (some (v, [])) = none
after_entry k more (some (v, c ∷ rest)) =
    if c == b'}' then some (Entries.entry k v Entries.end, rest) else add_entry k v (more rest)

-- The value of an entry, after its key and the colon.
abbrev after_key :
    (Text → Option (Value × Text))
    → (Text → Option (Entries × Text))
    → Option (Text × Text)
    → Option (Entries × Text)
after_key value more none = none
after_key value more (some (k, rest)) = after_entry k more (value (drop 1 rest))

-- A reader of the printed form, on fuel.
unfoldable mutual
  pub read : ℕ → Text → Option (Value × Text)
  read zero t = none
  read (suc f) [] = none
  read (suc f) (c ∷ t) =
      let items = read_items f t in
      let entries = read_entries f t in
      if is_digit c
      then read_int pos (read_digits 0 (c ∷ t))
      else if c == b'-'
      then read_int (λ n. negsuc (n - 1)) (read_digits 0 t)
      else if c == b'n'
      then some (Value.null, drop 3 t)
      else if c == b't'
      then some (Value.bool true, drop 3 t)
      else if c == b'f'
      then some (Value.bool false, drop 4 t)
      else if c == b'"'
      then as_str (read_chars plain t)
      else if c == b'['
      then as_list items
      else as_dict entries

  pub read_items : ℕ → Text → Option (Items × Text)
  read_items zero t = none
  read_items (suc f) [] = none
  read_items (suc f) (c ∷ t) =
      let parts = after_item (read_items f) (read f (c ∷ t)) in
      if c == b']' then some (Items.nil, t) else parts

  pub read_entries : ℕ → Text → Option (Entries × Text)
  read_entries zero t = none
  read_entries (suc f) [] = none
  read_entries (suc f) (c ∷ t) =
      let parts = after_key (read f) (read_entries f) (read_chars plain t) in
      if c == b'}' then some (Entries.end, t) else parts

-- A printed value begins with a character that closes no list.
print_head :
    (v : Value)
    → is_plain v ≡ true
    → (c : ℕ) × (t : Text) × (print v ≡ c ∷ t) × ((c == b']') ≡ false)
unfolding print is_plain quote int_text
print_head Value.null h = (b'n', codes "ull", refl, refl)
print_head (Value.bool true) h = (b't', codes "rue", refl, refl)
print_head (Value.bool false) h = (b'f', codes "alse", refl, refl)
print_head (Value.int (pos n)) h = let (c, t, e, digit) = decimal_head n in (c, t, e, ground arith)
print_head (Value.int (negsuc n)) h = (b'-', _, refl, refl)
print_head (Value.float r) h = absurd (ground arith)
print_head (Value.str s) h = (b'"', _, refl, refl)
print_head (Value.list xs) h = (b'[', _, refl, refl)
print_head (Value.dict es) h = (b'{', _, refl, refl)
print_head Value.other h = absurd (ground arith)

-- Integers.
read_int-print :
    (f : ℕ) (n : ℤ) (rest : Text)
    → NoDigit rest
    → read (suc f) (int_text n ++ rest) ≡ some (Value.int n, rest)
unfolding int_text read
read_int-print f (pos n) rest h =
    let (c, t, e, digit) = decimal_head n in
    rw (e, digit) (ap (read_int pos) (rw e at (read_digits-decimal n rest h)))
read_int-print f (negsuc n) rest h =
    ap (read_int (λ k. negsuc (k - 1))) (read_digits-decimal (suc n) rest h)
    ∙ ap (λ k. some (Value.int (negsuc k), rest)) (omega arith)

read_str-print : (f : ℕ) (s rest : Text) → read (suc f) (quote s ++ rest) ≡ some (Value.str s, rest)
unfolding read quote
read_str-print f s rest = rw (append_assoc, read_escape_all) refl

-- What a printed item is followed by.
after_item-close :
    (more : Text → Option (Items × Text)) (v : Value) (rest : Text)
    → after_item more (some (v, b']' ∷ rest)) ≡ some (Items.item v Items.nil, rest)
after_item-close more v rest = refl

read_items-head :
    (f : ℕ) (v : Value) (rest : Text)
    → is_plain v ≡ true
    → read_items (suc f) (print v ++ rest) ≡ after_item (read_items f) (read f (print v ++ rest))
unfolding read_items
read_items-head f v rest h =
    let (c, t, e, open_bracket) = print_head v h in rw (e, open_bracket) refl

read_entries-head :
    (f : ℕ) (k : Text) (v : Value) (rest : Text)
    → read_entries (suc f) (quote k ++ (b':' ∷ rest)) ≡ after_entry k (read_entries f) (read f rest)
unfolding read_entries quote
read_entries-head f k v rest = rw (append_assoc, read_escape_all) refl

mutual
  unfolding size

  size-pos : (v : Value) → 0 < size v
  size-pos (Value.list xs) = omega arith
  size-pos (Value.dict es) = omega arith
  size-pos _ = omega arith

  size_items-pos : (xs : Items) → 0 < size_items xs
  size_items-pos Items.nil = omega arith
  size_items-pos (Items.item v xs) = omega arith

  size_entries-pos : (es : Entries) → 0 < size_entries es
  size_entries-pos Entries.end = omega arith
  size_entries-pos _ = omega arith

assoc_entry :
    (a p tail rest : Text) (c : ℕ)
    → (a ++ (c ∷ (p ++ tail))) ++ rest ≡ a ++ (c ∷ (p ++ (tail ++ rest)))
assoc_entry a p tail rest c =
    append_assoc a (c ∷ (p ++ tail)) rest ∙ ap (λ t. a ++ (c ∷ t)) (append_assoc p tail rest)

read_entry :
    (f : ℕ) (k : Text) (v : Value) (tail rest : Text) {r : Option (Value × Text)}
    → read f (print v ++ (tail ++ rest)) ≡ r
    → read_entries (suc f) ((quote k ++ (b':' ∷ (print v ++ tail))) ++ rest)
      ≡ after_entry k (read_entries f) r
read_entry f k v tail rest e =
    ap (read_entries (suc f)) (assoc_entry (quote k) (print v) tail rest b':')
    ∙ (read_entries-head f k v (print v ++ (tail ++ rest)) ∙ ap (after_entry k (read_entries f)) e)

read_item :
    (f : ℕ) (v : Value) (tail rest : Text) {r : Option (Value × Text)}
    → is_plain v ≡ true
    → read f (print v ++ (tail ++ rest)) ≡ r
    → read_items (suc f) ((print v ++ tail) ++ rest) ≡ after_item (read_items f) r
read_item f v tail rest h e =
    ap (read_items (suc f)) (append_assoc (print v) tail rest)
    ∙ (read_items-head f v (tail ++ rest) h ∙ ap (after_item (read_items f)) e)

-- With enough fuel the reader returns the printed value and what follows it.
mutual
  unfolding is_plain size print read

  pub read-print :
      (v : Value) (f : ℕ) (rest : Text)
      → is_plain v ≡ true
      → size v ≤ f
      → NoDigit rest
      → read f (print v ++ rest) ≡ some (v, rest)
  read-print v zero rest h fuel d = absurd (omega (arith, size-pos v))
  read-print Value.null (suc f) rest h fuel d = refl
  read-print (Value.bool true) (suc f) rest h fuel d = refl
  read-print (Value.bool false) (suc f) rest h fuel d = refl
  read-print (Value.int n) (suc f) rest h fuel d = read_int-print f n rest d
  read-print (Value.float r) (suc f) rest h fuel d = absurd (ground arith)
  read-print (Value.str s) (suc f) rest h fuel d = read_str-print f s rest
  read-print (Value.list xs) (suc f) rest h fuel d =
      ap as_list (read_items-print xs f rest h (omega arith))
  read-print (Value.dict es) (suc f) rest h fuel d =
      ap as_dict (read_entries-print es f rest h (omega arith))
  read-print Value.other (suc f) rest h fuel d = absurd (ground arith)

  pub read_items-print :
      (xs : Items) (f : ℕ) (rest : Text)
      → plain_items xs ≡ true
      → size_items xs ≤ f
      → read_items f (print_items xs ++ rest) ≡ some (xs, rest)
  read_items-print xs zero rest h fuel = absurd (omega (arith, size_items-pos xs))
  read_items-print Items.nil (suc f) rest h fuel = refl
  read_items-print (Items.item v Items.nil) (suc f) rest h fuel =
      let hv = and_left (is_plain v) true h in
      read_item f v (b']' ∷ []) rest hv (read-print v f (b']' ∷ rest) hv (omega arith) refl)
  read_items-print (Items.item v (Items.item w xs)) (suc f) rest h fuel =
      let hv = and_left (is_plain v) (plain_items (Items.item w xs)) h in
      let tail = print_items (Items.item w xs) in
      read_item f v (b',' ∷ tail) rest hv
        (read-print v f (b',' ∷ (tail ++ rest)) hv (omega arith) refl)
      ∙ ap (add_item v) (
          read_items-print (Items.item w xs) f rest
            (and_right (is_plain v) (plain_items (Items.item w xs)) h) (omega arith))

  pub read_entries-print :
      (es : Entries) (f : ℕ) (rest : Text)
      → plain_entries es ≡ true
      → size_entries es ≤ f
      → read_entries f (print_entries es ++ rest) ≡ some (es, rest)
  read_entries-print es zero rest h fuel = absurd (omega (arith, size_entries-pos es))
  read_entries-print Entries.end (suc f) rest h fuel = refl
  read_entries-print (Entries.entry k v Entries.end) (suc f) rest h fuel =
      let hv = and_left (is_plain v) true h in
      read_entry f k v (b'}' ∷ []) rest (read-print v f (b'}' ∷ rest) hv (omega arith) refl)
  read_entries-print (Entries.entry k v (Entries.entry j w es)) (suc f) rest h fuel =
      let hv = and_left (is_plain v) (plain_entries (Entries.entry j w es)) h in
      let tail = print_entries (Entries.entry j w es) in
      read_entry f k v (b',' ∷ tail) rest
        (read-print v f (b',' ∷ (tail ++ rest)) hv (omega arith) refl)
      ∙ ap (add_entry k v) (
          read_entries-print (Entries.entry j w es) f rest
            (and_right (is_plain v) (plain_entries (Entries.entry j w es)) h) (omega arith))
  read_entries-print (Entries.entry k v (Entries.bad_entry w es)) (suc f) rest h fuel =
      absurd (ground arith)
  read_entries-print (Entries.bad_entry v es) (suc f) rest h fuel = absurd (ground arith)

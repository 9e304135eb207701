-- ===== src/Tests/Loads.antt =====
-- A reader of JSON that is faithful to what `canonical_json` prints, for the tests.
use the_st.Prelude.{
  ◌+◌, ◌≤◌, ◌≡◌, ap, true, false, [], ◌∷◌, ◌++◌, Option, none, some, arith, Text, length,
  length-append, and_left, and_right,
}
use mathlib.Core.List.{append-nil}
use the_st.Json.{
  ℤ, Value, Items, Entries, pos, negsuc, quote, int_text, print, print_items, print_entries, sorted,
  canonical_json,
}
use the_st.Format.Decimal.{decimal_head}
use the_st.Json.Canonical.{sorted-plain}
use the_st.Json.Read.{
  is_plain, plain_items, plain_entries, size, size_items, size_entries, read, read-print,
}

abbrev fst_of : Option (Value × Text) → Option Value
fst_of none = none
fst_of (some (v, rest)) = some v

unfoldable pub loads : Text → Option Value
loads t = fst_of (read (length t + length t) t)

length-int_text : (n : ℤ) → 1 ≤ length (int_text n)
unfolding int_text
length-int_text (pos n) = let (c, t, eq, d) = decimal_head n in rw eq (omega arith)
length-int_text (negsuc n) = omega arith

-- A printed value is long enough to be read on fuel twice its length.
mutual
  unfolding is_plain size print quote

  size-print : (v : Value) → is_plain v ≡ true → size v ≤ length (print v) + length (print v)
  size-print Value.null h = omega arith
  size-print (Value.bool true) h = omega arith
  size-print (Value.bool false) h = omega arith
  size-print (Value.int n) h = omega (arith, length-int_text n)
  size-print (Value.float r) h = absurd (ground arith)
  size-print (Value.str s) h = omega arith
  size-print (Value.list xs) h = omega (arith, size_items-print xs h)
  size-print (Value.dict es) h = omega (arith, size_entries-print es h)
  size-print Value.other h = absurd (ground arith)

  size_items-print :
      (xs : Items)
      → plain_items xs ≡ true
      → size_items xs ≤ length (print_items xs) + length (print_items xs)
  size_items-print Items.nil h = omega arith
  size_items-print (Items.item v Items.nil) h =
      let here = size-print v (and_left (is_plain v) true h) in
      omega (arith, here, length-append (print v) (b']' ∷ []))
  size_items-print (Items.item v (Items.item w xs)) h =
      let tail = print_items (Items.item w xs) in
      let here = size-print v (and_left (is_plain v) (plain_items (Items.item w xs)) h) in
      let rest =
        size_items-print (Items.item w xs)
          (and_right (is_plain v) (plain_items (Items.item w xs)) h) in
      omega (arith, here, rest, length-append (print v) (b',' ∷ tail))

  size_entries-print :
      (es : Entries)
      → plain_entries es ≡ true
      → size_entries es ≤ length (print_entries es) + length (print_entries es)
  size_entries-print Entries.end h = omega arith
  size_entries-print (Entries.entry k v Entries.end) h =
      let here = size-print v (and_left (is_plain v) true h) in
      let all_ = length-append (quote k) (b':' ∷ (print v ++ (b'}' ∷ []))) in
      omega (arith, here, all_, length-append (print v) (b'}' ∷ []))
  size_entries-print (Entries.entry k v (Entries.entry j w es)) h =
      let tail = print_entries (Entries.entry j w es) in
      let here = size-print v (and_left (is_plain v) (plain_entries (Entries.entry j w es)) h) in
      let rest =
        size_entries-print (Entries.entry j w es)
          (and_right (is_plain v) (plain_entries (Entries.entry j w es)) h) in
      let all_ = length-append (quote k) (b':' ∷ (print v ++ (b',' ∷ tail))) in
      omega (arith, here, rest, all_, length-append (print v) (b',' ∷ tail))
  size_entries-print (Entries.entry k v (Entries.bad_entry w es)) h = absurd (ground arith)
  size_entries-print (Entries.bad_entry v es) h = absurd (ground arith)

pub loads-canonical_json :
    (v : Value) → is_plain v ≡ true → loads (canonical_json v) ≡ some (sorted v)
unfolding loads canonical_json
loads-canonical_json v h =
    let plain = sorted-plain v h in
    let t = print (sorted v) in
    let eq =
      read-print (sorted v) (length t + length t) [] plain (size-print (sorted v) plain) tt in
    let whole : read (length t + length t) t ≡ some (sorted v, []) = rw (append-nil t) at eq in
    ap fst_of whole

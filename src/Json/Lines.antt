-- ===== src/Json/Lines.antt =====
-- JSON texts stand on one line: `json.dumps` escapes every line break.
use the_st.Prelude.{
  ℕ, zero, suc, ◌+◌, ◌/◌, ◌%◌, ◌≡◌, refl, Bool, true, false, not, ◌&&◌, [], ◌∷◌, ◌++◌, arith, Text,
  all, ltb, ◌==◌, Bool-cases, inl, inr, and_left, and_right,
}
use the_st.Format.{decimal, decimal_from, hex, hex_digit}
use the_st.Json.{
  Value, Items, Entries, ℤ, escape, escape_all, quote, int_text, print, print_items, print_entries,
  canonical_json, sorted,
}
use the_st.Json.Read.{is_plain, plain_items, plain_entries}
use the_st.Json.Canonical.{sorted-plain}

-- Neither `\n` nor `\r`.
abbrev pub is_inline : ℕ → Bool
is_inline c = not (c == 10) && not (c == 13)

abbrev pub OneLine : Text → Type 0
OneLine t = all is_inline t ≡ true

all-append : (xs ys : Text) → OneLine xs → OneLine ys → OneLine (xs ++ ys)
all-append [] ys hx hy = hy
all-append (x ∷ xs) ys hx hy = ground (arith, all-append xs ys)

hex-OneLine : (width n : ℕ) → OneLine (hex width n)
unfolding hex
hex-OneLine zero n = refl
hex-OneLine (suc width) n =
    all-append (hex width (n / 16)) (hex_digit (n % 16) ∷ []) (hex-OneLine width (n / 16))
      (ground arith)

decimal_from-OneLine : (fuel n : ℕ) → OneLine (decimal_from fuel n)
unfolding decimal_from
decimal_from-OneLine zero n = refl
decimal_from-OneLine (suc fuel) n = elim (Bool-cases (ltb n 10)) [
  | inl e ↦ rw e (ground arith)
  | inr e ↦ rw e (
      all-append (decimal_from fuel (n / 10)) ((b'0' + n % 10) ∷ [])
        (decimal_from-OneLine fuel (n / 10)) (ground arith))
]

int_text-OneLine : (n : ℤ) → OneLine (int_text n)
unfolding int_text decimal
int_text-OneLine (ℤ.pos n) = decimal_from-OneLine (suc n) n
int_text-OneLine (ℤ.negsuc n) = ground (arith, decimal_from-OneLine (suc (suc n)) (suc n))

escape-OneLine : (c : ℕ) → OneLine (escape c)
unfolding escape
escape-OneLine c = let digits = hex-OneLine 4 c in ground (arith, digits)

escape_all-OneLine : (t : Text) → OneLine (escape_all t)
unfolding escape_all
escape_all-OneLine [] = refl
escape_all-OneLine (c ∷ t) =
    all-append (escape c) (escape_all t) (escape-OneLine c) (escape_all-OneLine t)

quote-OneLine : (t : Text) → OneLine (quote t)
unfolding quote
quote-OneLine t = all-append (escape_all t) (b'"' ∷ []) (escape_all-OneLine t) refl

mutual
  unfolding print is_plain

  print-OneLine : (v : Value) → is_plain v ≡ true → OneLine (print v)
  print-OneLine Value.null h = refl
  print-OneLine (Value.bool true) h = refl
  print-OneLine (Value.bool false) h = refl
  print-OneLine (Value.int n) h = int_text-OneLine n
  print-OneLine (Value.float r) h = absurd (ground arith)
  print-OneLine (Value.str t) h = quote-OneLine t
  print-OneLine (Value.list xs) h = print_items-OneLine xs h
  print-OneLine (Value.dict es) h = print_entries-OneLine es h
  print-OneLine Value.other h = absurd (ground arith)

  print_items-OneLine : (xs : Items) → plain_items xs ≡ true → OneLine (print_items xs)
  print_items-OneLine Items.nil h = refl
  print_items-OneLine (Items.item v Items.nil) h =
      all-append (print v) (b']' ∷ [])
        (print-OneLine v (and_left (is_plain v) (plain_items Items.nil) h)) refl
  print_items-OneLine (Items.item v (Items.item w xs)) h =
      all-append (print v) (b',' ∷ print_items (Items.item w xs))
        (print-OneLine v (and_left (is_plain v) (plain_items (Items.item w xs)) h))
        (print_items-OneLine (Items.item w xs)
          (and_right (is_plain v) (plain_items (Items.item w xs)) h))

  print_entries-OneLine : (es : Entries) → plain_entries es ≡ true → OneLine (print_entries es)
  print_entries-OneLine Entries.end h = refl
  print_entries-OneLine (Entries.entry k v Entries.end) h =
      all-append (quote k) (b':' ∷ (print v ++ (b'}' ∷ []))) (quote-OneLine k) (
        all-append (print v) (b'}' ∷ [])
          (print-OneLine v (and_left (is_plain v) (plain_entries Entries.end) h)) refl)
  print_entries-OneLine (Entries.entry k v (Entries.entry j w es)) h =
      all-append (quote k) (b':' ∷ (print v ++ (b',' ∷ print_entries (Entries.entry j w es))))
        (quote-OneLine k)
        (all-append (print v) (b',' ∷ print_entries (Entries.entry j w es))
          (print-OneLine v (and_left (is_plain v) (plain_entries (Entries.entry j w es)) h))
          (print_entries-OneLine (Entries.entry j w es)
            (and_right (is_plain v) (plain_entries (Entries.entry j w es)) h)))
  print_entries-OneLine (Entries.entry k v (Entries.bad_entry w es)) h = absurd (ground arith)
  print_entries-OneLine (Entries.bad_entry v es) h = absurd (ground arith)

-- The canonical text of a document has no line break.
pub canonical_json-OneLine : (v : Value) → is_plain v ≡ true → OneLine (canonical_json v)
unfolding canonical_json
canonical_json-OneLine v h = print-OneLine (sorted v) (sorted-plain v h)

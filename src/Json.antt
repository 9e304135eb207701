-- ===== src/Json.antt =====
-- The values that audit payloads are made of, and `canonical_json` of
-- remembrance-consent/app/consent/audit.py, which is `json.dumps` with sorted keys, no spaces and
-- no escapes beyond those that JSON demands.
pub mod Strings
pub mod Read
pub mod Canonical
pub mod Lines
use the_st.Prelude.{
  ℕ, zero, suc, ◌+◌, ◌-◌, ◌%◌, ◌/◌, Bool, true, false, ◌&&◌, ◌||◌, List, [], ◌∷◌, ◌++◌, Text, codes,
  ltb, leb, ◌==◌, if◌then◌else◌,
}
use the_st.Format.{decimal, hex}

-- `negsuc n` is -(n + 1).
pub data ℤ : Type 0 where
  pos : ℕ → ℤ
  negsuc : ℕ → ℤ

-- `float` holds its `repr`; `other` is a value of any type that JSON has not.
mutual
  pub data Value : Type 0 where
    null : Value
    bool : Bool → Value
    int : ℤ → Value
    float : Text → Value
    str : Text → Value
    list : Items → Value
    dict : Entries → Value
    other : Value

  pub data Items : Type 0 where
    nil : Items
    item : Value → Items → Items

  -- A key is a text; `bad_entry` has a key of another type.
  pub data Entries : Type 0 where
    end : Entries
    entry : Text → Value → Entries → Entries
    bad_entry : Value → Entries → Entries

-- One character inside a JSON string.
unfoldable pub escape : ℕ → Text
escape c =
    if c == b'"'
    then codes "\\\""
    else if c == 92
    then 92 ∷ 92 ∷ []
    else if c == 10
    then codes "\\n"
    else if c == 13
    then codes "\\r"
    else if c == 9
    then codes "\\t"
    else if c == 12
    then codes "\\f"
    else if c == 8
    then codes "\\b"
    else if ltb c 32
    then codes "\\u" ++ hex 4 c
    else c ∷ []

unfoldable pub escape_all : Text → Text
escape_all [] = []
escape_all (c ∷ cs) = escape c ++ escape_all cs

unfoldable pub quote : Text → Text
quote t = b'"' ∷ (escape_all t ++ (b'"' ∷ []))

unfoldable pub int_text : ℤ → Text
int_text (pos n) = decimal n
int_text (negsuc n) = b'-' ∷ decimal (suc n)

-- `a < b` on strings, by code points.
unfoldable pub text_lt : Text → Text → Bool
text_lt [] [] = false
text_lt [] (_ ∷ _) = true
text_lt (_ ∷ _) [] = false
text_lt (x ∷ xs) (y ∷ ys) = ltb x y || (x == y && text_lt xs ys)

-- An entry put in its place among sorted ones.
unfoldable pub insert_entry : Text → Value → Entries → Entries
unfolding text_lt
insert_entry k v end = entry k v end
insert_entry k v (entry j w es) =
    if text_lt j k then entry j w (insert_entry k v es) else entry k v (entry j w es)
insert_entry k v (bad_entry w es) = bad_entry w (insert_entry k v es)

-- `sort_keys=True`, at every depth.
unfoldable mutual
  unfolding insert_entry

  pub sorted : Value → Value
  sorted null = null
  sorted (bool b) = bool b
  sorted (int n) = int n
  sorted (float r) = float r
  sorted (str t) = str t
  sorted (list xs) = list (sorted_items xs)
  sorted (dict es) = dict (sorted_entries es)
  sorted other = other

  pub sorted_items : Items → Items
  sorted_items nil = nil
  sorted_items (item v xs) = item (sorted v) (sorted_items xs)

  pub sorted_entries : Entries → Entries
  sorted_entries end = end
  sorted_entries (entry k v es) = insert_entry k (sorted v) (sorted_entries es)
  sorted_entries (bad_entry v es) = bad_entry (sorted v) (sorted_entries es)

-- The text of a value as it stands. Python raises on `other` and on a key that is no text, and no
-- payload that has passed `_check_value` has either.
unfoldable mutual
  pub print : Value → Text
  print null = codes "null"
  print (bool true) = codes "true"
  print (bool false) = codes "false"
  print (int n) = int_text n
  print (float r) = r
  print (str t) = quote t
  print (list xs) = b'[' ∷ print_items xs
  print (dict es) = b'{' ∷ print_entries es
  print other = []

  pub print_items : Items → Text
  print_items nil = b']' ∷ []
  print_items (item v nil) = print v ++ (b']' ∷ [])
  print_items (item v (item w xs)) = print v ++ (b',' ∷ print_items (item w xs))

  pub print_entries : Entries → Text
  print_entries end = b'}' ∷ []
  print_entries (entry k v end) = quote k ++ (b':' ∷ (print v ++ (b'}' ∷ [])))
  print_entries (entry k v es) = quote k ++ (b':' ∷ (print v ++ (b',' ∷ print_entries es)))
  print_entries (bad_entry v es) = print_entries es

unfoldable pub canonical_json : Value → Text
unfolding sorted print quote escape_all escape hex int_text decimal
canonical_json v = print (sorted v)

-- ===== src/Audit/Payload.antt =====
-- Which payloads `validate_payload` of remembrance-consent/app/consent/audit.py accepts.
use Prim.Native.Nat.{max}
use the_st.Prelude.{
  ℕ, suc, ◌+◌, ◌≤◌, ◌≡◌, refl, ◌↔◌, Bool, true, false, not, ◌&&◌, List, sym, length, Option, none,
  some, arith, ltb, leb, if◌then◌else◌, and_left, and_right, and_intro,
}
use the_st.Json.{Value, Items, Entries, canonical_json}
use the_st.Json.Read.{is_plain, plain_items, plain_entries}
use the_st.Utf8.{encode}
use the_st.Audit.{
  PayloadError, too_deep, bad_key, or_else, magnitude, has_nul, max_payload_depth, max_safe_integer,
  max_payload_bytes, check_value, check_items, check_entries, check_length, validate_payload,
}

-- How many levels of lists and dicts stand above the deepest part of a value.
unfoldable mutual
  pub nesting : Value → ℕ
  nesting (Value.list xs) = nesting_items xs
  nesting (Value.dict es) = nesting_entries es
  nesting _ = 0

  pub nesting_items : Items → ℕ
  nesting_items Items.nil = 0
  nesting_items (Items.item v xs) = max (suc (nesting v)) (nesting_items xs)

  pub nesting_entries : Entries → ℕ
  nesting_entries Entries.end = 0
  nesting_entries (Entries.entry k v es) = max (suc (nesting v)) (nesting_entries es)
  nesting_entries (Entries.bad_entry v es) = max (suc (nesting v)) (nesting_entries es)

-- What each part of a payload may be.
unfoldable mutual
  pub is_safe : Value → Bool
  is_safe (Value.int n) = leb (magnitude n) max_safe_integer
  is_safe (Value.float r) = false
  is_safe (Value.str t) = not (has_nul t)
  is_safe (Value.list xs) = safe_items xs
  is_safe (Value.dict es) = safe_entries es
  is_safe Value.other = false
  is_safe _ = true

  pub safe_items : Items → Bool
  safe_items Items.nil = true
  safe_items (Items.item v xs) = is_safe v && safe_items xs

  pub safe_entries : Entries → Bool
  safe_entries Entries.end = true
  safe_entries (Entries.entry k v es) = not (has_nul k) && (is_safe v && safe_entries es)
  safe_entries (Entries.bad_entry v es) = false

or_else-none : (a b : Option PayloadError) → (or_else a b ≡ none) ↔ ((a ≡ none) × (b ≡ none))
or_else-none none b = ((λ h. (refl, h)), (λ h. h.1))
or_else-none (some e) b = ((λ h. cc), (λ h. cc (h.0)))

-- A container at depth `d` with a rest of the check for its parts.
container_none :
    (d n : ℕ) (safe : Bool) (parts : Option PayloadError)
    → ((parts ≡ none) × (d ≤ max_payload_depth)) ↔ ((safe ≡ true) × (d + n ≤ max_payload_depth))
    → ((if ltb max_payload_depth d then some too_deep else parts) ≡ none)
      ↔ ((safe ≡ true) × (d + n ≤ max_payload_depth))
container_none d n safe parts h = ground arith

-- One part, one level deeper, and the parts after it.
part_none :
    (d m n : ℕ) (here later : Bool) (one rest : Option PayloadError)
    → (one ≡ none) ↔ ((here ≡ true) × (suc d + m ≤ max_payload_depth))
    → ((rest ≡ none) × (d ≤ max_payload_depth)) ↔ ((later ≡ true) × (d + n ≤ max_payload_depth))
    → ((or_else one rest ≡ none) × (d ≤ max_payload_depth))
      ↔ (((here && later) ≡ true) × (d + max (suc m) n ≤ max_payload_depth))
part_none d m n here later one rest h k = ground (arith, or_else-none one rest)

key_none :
    (d n : ℕ) (nul safe : Bool) (rest : Option PayloadError)
    → ((rest ≡ none) × (d ≤ max_payload_depth)) ↔ ((safe ≡ true) × (d + n ≤ max_payload_depth))
    → (((if nul then some bad_key else rest) ≡ none) × (d ≤ max_payload_depth))
      ↔ (((not nul && safe) ≡ true) × (d + n ≤ max_payload_depth))
key_none d n nul safe rest h = ground arith

mutual
  unfolding check_value is_safe nesting

  check_value-none :
      (v : Value) (d : ℕ)
      → (check_value v d ≡ none) ↔ ((is_safe v ≡ true) × (d + nesting v ≤ max_payload_depth))
  check_value-none Value.null d = ground arith
  check_value-none (Value.bool b) d = ground arith
  check_value-none (Value.int n) d = ground arith
  check_value-none (Value.float r) d = ground arith
  check_value-none (Value.str t) d = ground arith
  check_value-none (Value.list xs) d =
      container_none d _ _ (check_items xs (suc d)) (check_items-none xs d)
  check_value-none (Value.dict es) d =
      container_none d _ _ (check_entries es (suc d)) (check_entries-none es d)
  check_value-none Value.other d = ground arith

  -- The parts of a container at depth `d`, which itself is within bounds.
  check_items-none :
      (xs : Items) (d : ℕ)
      → ((check_items xs (suc d) ≡ none) × (d ≤ max_payload_depth))
        ↔ ((safe_items xs ≡ true) × (d + nesting_items xs ≤ max_payload_depth))
  check_items-none Items.nil d = ground arith
  check_items-none (Items.item v xs) d =
      part_none d (nesting v) (nesting_items xs) (is_safe v) (safe_items xs) (check_value v (suc d))
        (check_items xs (suc d)) (check_value-none v (suc d)) (check_items-none xs d)

  check_entries-none :
      (es : Entries) (d : ℕ)
      → ((check_entries es (suc d) ≡ none) × (d ≤ max_payload_depth))
        ↔ ((safe_entries es ≡ true) × (d + nesting_entries es ≤ max_payload_depth))
  check_entries-none Entries.end d = ground arith
  check_entries-none (Entries.entry k v es) d =
      let n = max (suc (nesting v)) (nesting_entries es) in
      key_none d n (has_nul k) (is_safe v && safe_entries es) _ (
        part_none d (nesting v) (nesting_entries es) (is_safe v) (safe_entries es)
          (check_value v (suc d)) (check_entries es (suc d)) (check_value-none v (suc d))
          (check_entries-none es d))
  check_entries-none (Entries.bad_entry v es) d = ground arith

check_length-none :
    (o : Option (List ℕ))
    → (check_length o ≡ none)
      ↔ ((bytes : List ℕ) × (o ≡ some bytes) × (length bytes ≤ max_payload_bytes))
check_length-none none = ((λ h. cc), λ (bytes, e, le). cc)
check_length-none (some bytes) = (
  (λ h. (bytes, refl, ground arith)),
  λ (bytes', e, le).
      let eq : bytes ≡ bytes' = cc e in let short = rw (sym eq) at le in ground arith,
)

-- A payload is accepted exactly when no part is a float or of a type that JSON lacks, every key is a
-- text, no text or key holds a NUL, every integer is of at most 53 bits, nothing stands more than
-- eight levels deep, and the canonical text has an encoding in UTF-8, of at most 16,384 bytes.
pub validate_payload-none :
    (payload : Entries)
    → (validate_payload payload ≡ none) ↔ (
        (is_safe (Value.dict payload) ≡ true)
        × (nesting (Value.dict payload) ≤ max_payload_depth)
        × ((bytes : List ℕ) × (encode (canonical_json (Value.dict payload)) ≡ some bytes)
            × (length bytes ≤ max_payload_bytes)))
unfolding validate_payload
validate_payload-none payload =
    let v = Value.dict payload in
    let parts = check_value-none v 0 in
    let text = check_length-none (encode (canonical_json v)) in
    let both = or_else-none (check_value v 0) (check_length (encode (canonical_json v))) in
    (
      (λ h.
          let (a, b) = both.0 h in
          let (safe, deep) = parts.0 a in (safe, omega (arith, deep), text.0 b)),
      λ (safe, deep, short). both.1 (parts.1 (safe, omega (arith, deep)), text.1 short),
    )

mutual
  unfolding is_safe is_plain

  safe-plain : (v : Value) → is_safe v ≡ true → is_plain v ≡ true
  safe-plain (Value.float r) h = h
  safe-plain Value.other h = h
  safe-plain (Value.list xs) h = safe_items-plain xs h
  safe-plain (Value.dict es) h = safe_entries-plain es h
  safe-plain _ h = refl

  safe_items-plain : (xs : Items) → safe_items xs ≡ true → plain_items xs ≡ true
  safe_items-plain Items.nil h = refl
  safe_items-plain (Items.item v xs) h =
      and_intro (safe-plain v (and_left (is_safe v) (safe_items xs) h))
        (safe_items-plain xs (and_right (is_safe v) (safe_items xs) h))

  safe_entries-plain : (es : Entries) → safe_entries es ≡ true → plain_entries es ≡ true
  safe_entries-plain Entries.end h = refl
  safe_entries-plain (Entries.entry k v es) h =
      let h' = and_right (not (has_nul k)) (is_safe v && safe_entries es) h in
      and_intro (safe-plain v (and_left (is_safe v) (safe_entries es) h'))
        (safe_entries-plain es (and_right (is_safe v) (safe_entries es) h'))
  safe_entries-plain (Entries.bad_entry v es) h = h

-- An accepted payload is free of floating-point numbers.
pub validate_payload-plain :
    (payload : Entries) → validate_payload payload ≡ none → plain_entries payload ≡ true
unfolding is_safe
validate_payload-plain payload h =
    safe_entries-plain payload ((validate_payload-none payload).0 h).0

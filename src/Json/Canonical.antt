-- ===== src/Json/Canonical.antt =====
-- `canonical_json` of remembrance-consent/app/consent/audit.py tells documents apart.
use the_st.Prelude.{
  ◌+◌, ◌≡◌, refl, sym, ap, ◌∙◌, true, ◌&&◌, [], ◌++◌, arith, Text, Option, some, and_left,
  and_right,
}
use the_st.Json.{
  Value, Items, Entries, sorted, sorted_items, sorted_entries, insert_entry, print, canonical_json,
}
use the_st.Json.Read.{is_plain, plain_items, plain_entries, size, read, read-print}

plain_entry :
    (k : Text) (v : Value) (es : Entries)
    → plain_entries (Entries.entry k v es) ≡ (is_plain v && plain_entries es)
unfolding is_plain
plain_entry k v es = refl

insert_entry-plain :
    (k : Text) (v : Value) (es : Entries)
    → is_plain v ≡ true
    → plain_entries es ≡ true
    → plain_entries (insert_entry k v es) ≡ true
unfolding insert_entry
insert_entry-plain k v Entries.end hv h = ground (arith, plain_entry k v Entries.end)
insert_entry-plain k v (Entries.entry j w es) hv h = ground (
  arith,
  insert_entry-plain k v es hv,
  plain_entry j w es,
  plain_entry k v (Entries.entry j w es),
  plain_entry j w (insert_entry k v es),
)
insert_entry-plain k v (Entries.bad_entry w es) hv h = absurd (unfold is_plain in ground arith)

mutual
  unfolding is_plain sorted

  pub sorted-plain : (v : Value) → is_plain v ≡ true → is_plain (sorted v) ≡ true
  sorted-plain (Value.float r) h = h
  sorted-plain Value.other h = h
  sorted-plain (Value.list xs) h = sorted_items-plain xs h
  sorted-plain (Value.dict es) h = sorted_entries-plain es h
  sorted-plain _ h = refl

  sorted_items-plain : (xs : Items) → plain_items xs ≡ true → plain_items (sorted_items xs) ≡ true
  sorted_items-plain Items.nil h = refl
  sorted_items-plain (Items.item v xs) h = ground (
    arith,
    sorted-plain v (and_left (is_plain v) (plain_items xs) h),
    sorted_items-plain xs (and_right (is_plain v) (plain_items xs) h),
  )

  sorted_entries-plain :
      (es : Entries) → plain_entries es ≡ true → plain_entries (sorted_entries es) ≡ true
  sorted_entries-plain Entries.end h = refl
  sorted_entries-plain (Entries.entry k v es) h =
      insert_entry-plain k (sorted v) (sorted_entries es)
        (sorted-plain v (and_left (is_plain v) (plain_entries es) h))
        (sorted_entries-plain es (and_right (is_plain v) (plain_entries es) h))
  sorted_entries-plain (Entries.bad_entry v es) h = absurd (ground arith)

print-injective : (v w : Value) → is_plain v ≡ true → is_plain w ≡ true → print v ≡ print w → v ≡ w
print-injective v w hv hw e =
    let fuel = size v + size w in
    let one = read-print v fuel [] hv (omega arith) tt in
    let two = read-print w fuel [] hw (omega arith) tt in
    let same : ◌≡◌ {A = Option (Value × Text)} (some (v, [])) (some (w, [])) =
      sym one ∙ (ap (λ t. read fuel (t ++ [])) e ∙ two) in
    cc same

-- Two documents without floating-point numbers that have one canonical text are the same up to the
-- order of the keys.
pub canonical_json-injective :
    (v w : Value)
    → is_plain v ≡ true
    → is_plain w ≡ true
    → canonical_json v ≡ canonical_json w
    → sorted v ≡ sorted w
unfolding canonical_json
canonical_json-injective v w hv hw e =
    print-injective (sorted v) (sorted w) (sorted-plain v hv) (sorted-plain w hw) e

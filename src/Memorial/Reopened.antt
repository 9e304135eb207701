-- ===== src/Memorial/Reopened.antt =====
-- The ledger's file of remembrance/erasure.py: what `append` writes, `Ledger.__init__` reads.
use mathlib.Core.List.{reverse, reverse-append, append_assoc, append-nil}
use the_st.Prelude.{
  ℕ, suc, ◌+◌, ◌≡◌, refl, sym, ap, ◌∙◌, true, false, not, ◌&&◌, List, [], ◌∷◌, ◌++◌, map, some,
  arith, Text, codes, text_eq, text_eq_refl, length, is_some, inl, inr, ◌==◌,
}
use the_st.Json.{Value, canonical_json, sorted, insert_entry, text_lt}
use the_st.Json.Read.{is_plain}
use the_st.Json.Lines.{OneLine, canonical_json-OneLine}
use the_st.Fallible.{ok, ok-inj, ◌>>=◌, raise_if, or_fail, Fallible-cases}
use the_st.Memorial.{is_hex64}
use the_st.Memorial.Ledger.{
  Entry, Reader, ledger_format, ledger_fields, entry_document, field, as_text, as_nat, read_entry,
  is_memorial_id, starts_with, lines_from, splitlines, ends_line, last_hash, entry_for, is_valid,
  verify_line, read_lines, open_ledger, next_entry, line_of,
}

abbrev body : Entry → Text
body e = canonical_json (entry_document e)

-- A whole file.
abbrev file_of : List Entry → Text
file_of [] = []
file_of (e ∷ es) = line_of e ++ file_of es

file_of-snoc : (es : List Entry) (e : Entry) → file_of (es ++ (e ∷ [])) ≡ file_of es ++ line_of e
file_of-snoc [] e = append-nil (line_of e)
file_of-snoc (x ∷ es) e =
    ap (◌++◌ (line_of x)) (file_of-snoc es e)
    ∙ sym (append_assoc (line_of x) (file_of es) (line_of e))

-- A line without breaks is one line.
lines_from-line :
    (acc t rest : Text)
    → OneLine t
    → lines_from false acc (t ++ (10 ∷ rest)) ≡ (reverse acc ++ t) ∷ lines_from false [] rest
lines_from-line acc [] rest h =
    ap (λ l. l ∷ lines_from false [] rest) (sym (append-nil (reverse acc)))
lines_from-line acc (c ∷ t) rest h =
    let lf : (c == 10) ≡ false = ground arith in
    let cr : (c == 13) ≡ false = ground arith in
    let same : reverse (c ∷ acc) ++ t ≡ reverse acc ++ (c ∷ t) =
      ap (λ l. l ++ t) (reverse-append (c ∷ []) acc) ∙ append_assoc (reverse acc) (c ∷ []) t in
    rw (lf, cr)
      (lines_from-line (c ∷ acc) t rest (ground arith)
        ∙ ap (λ l. l ∷ lines_from false [] rest) same)

entry_document-plain : (e : Entry) → is_plain (entry_document e) ≡ true
unfolding entry_document is_plain
entry_document-plain e = refl

splitlines-file_of : (es : List Entry) → splitlines (file_of es) ≡ map body es
unfolding splitlines
splitlines-file_of [] = refl
splitlines-file_of (e ∷ es) =
    ap (lines_from false []) (append_assoc (body e) (10 ∷ []) (file_of es))
    ∙ (lines_from-line [] (body e) (file_of es)
          (canonical_json-OneLine (entry_document e) (entry_document-plain e))
        ∙ ap (◌∷◌ (body e)) (splitlines-file_of es))

ends_line-snoc : (t : Text) → ends_line (t ++ (10 ∷ [])) ≡ true
unfolding ends_line
ends_line-snoc [] = refl
ends_line-snoc (c ∷ []) = refl
ends_line-snoc (c ∷ d ∷ t) = ends_line-snoc (d ∷ t)

-- What Python reads from what it has written: `json.loads` undoes `json.dumps`, with the keys in the
-- order in which they stand, and the time that `now` shows is a time.
pub record Faithful (sha256 : Text → Text) (r : Reader) : Type 0 where
  pub loads : (v : Value) → is_plain v ≡ true → r.loads (canonical_json v) ≡ some (sorted v)
  pub hex : (t : Text) → is_hex64 (sha256 t) ≡ true

-- An entry is read back from its document.
read_entry-sorted : (n : ℕ) (e : Entry) → read_entry n (sorted (entry_document e)) ≡ ok e
unfolding read_entry entry_document sorted insert_entry text_lt field text_eq as_text as_nat ◌>>=◌
    raise_if ledger_format
read_entry-sorted n e = refl

map-snoc : (es : List Entry) (e : Entry) → map body (es ++ (e ∷ [])) ≡ map body es ++ (body e ∷ [])
map-snoc [] e = refl
map-snoc (x ∷ es) e = ap (◌∷◌ (body x)) (map-snoc es e)

length-map : (es : List Entry) → length (map body es) ≡ length es
length-map [] = refl
length-map (x ∷ es) = ap suc (length-map es)

module _ (sha256 : Text → Text) (r : Reader) where
  -- The ledgers that calls of `append` lead to, with their files, where each call is for a memorial
  -- without an entry, with an id, an actor, evidence and a time that `_verify` lets through.
  pub data Appended : List Entry → Text → Type 0 where
    empty : Appended [] []
    append :
        {entries : List Entry} {raw : Text} (now mid actor evidence : Text)
        → Appended entries raw
        → is_some (entry_for mid entries) ≡ false
        → is_memorial_id mid ≡ true
        → starts_with (codes "operator:") actor ≡ true
        → is_hex64 evidence ≡ true
        → r.is_datetime now ≡ true
        → Appended
            (entries ++ (next_entry sha256 now mid actor evidence entries ∷ []))
            (raw ++ line_of (next_entry sha256 now mid actor evidence entries))

  read_lines-snoc :
      (n : ℕ) (entries : List Entry) (lines : List Text) (line : Text) (es : List Entry)
      → read_lines sha256 r n entries lines ≡ ok es
      → read_lines sha256 r n entries (lines ++ (line ∷ []))
        ≡ (verify_line sha256 r (n + length lines) es line >>= λ e. ok (es ++ (e ∷ [])))
  unfolding read_lines ◌>>=◌
  read_lines-snoc n entries [] line es h =
      let same : entries ≡ es = ok-inj h in
      let count : n + 0 ≡ n = omega arith in rw (count, same) refl
  read_lines-snoc n entries (l ∷ lines) line es h =
      elim (Fallible-cases (verify_line sha256 r n entries l)) [
        | inl (error, eq) ↦ absurd (let stop = rw eq at h in cc stop)
        | inr (e, eq) ↦
            let later : read_lines sha256 r (suc n) (entries ++ (e ∷ [])) lines ≡ ok es =
              rw eq at h in
            let count : n + suc (length lines) ≡ suc n + length lines = omega arith in
            let rest = read_lines-snoc (suc n) (entries ++ (e ∷ [])) lines line es later in
            rw (count, eq) rest
      ]

  is_valid-next :
      (now mid actor evidence : Text) (entries : List Entry)
      → Faithful sha256 r
      → is_memorial_id mid ≡ true
      → starts_with (codes "operator:") actor ≡ true
      → is_hex64 evidence ≡ true
      → r.is_datetime now ≡ true
      → is_valid sha256 r
          (next_entry sha256 now mid actor evidence entries)
          (1 + length entries)
          (last_hash entries)
        ≡ true
  unfolding is_valid next_entry ledger_fields
  is_valid-next now mid actor evidence entries faithful id operator hex time =
      let e = next_entry sha256 now mid actor evidence entries in
      let count : (length entries + 1 == 1 + length entries) ≡ true = ground arith in
      let last = text_eq_refl (last_hash entries) in
      let hash = text_eq_refl (sha256 (canonical_json (ledger_fields e))) in
      let digest = faithful.hex (canonical_json (ledger_fields e)) in
      rw (count, last, id, operator, hex, digest, time, hash) refl

  -- The line of a new entry passes the tests of `_verify`.
  verify_line-next :
      (now mid actor evidence : Text) (entries : List Entry)
      → Faithful sha256 r
      → is_some (entry_for mid entries) ≡ false
      → is_memorial_id mid ≡ true
      → starts_with (codes "operator:") actor ≡ true
      → is_hex64 evidence ≡ true
      → r.is_datetime now ≡ true
      → verify_line sha256 r
          (1 + length entries)
          entries
          (body (next_entry sha256 now mid actor evidence entries))
        ≡ ok (next_entry sha256 now mid actor evidence entries)
  unfolding verify_line or_fail raise_if ◌>>=◌ next_entry
  verify_line-next now mid actor evidence entries faithful new id operator hex time =
      let e = next_entry sha256 now mid actor evidence entries in
      let valid : is_valid sha256 r e (1 + length entries) (last_hash entries) ≡ true =
        is_valid-next now mid actor evidence entries faithful id operator hex time in
      rw
        (
          faithful.loads (entry_document e) (entry_document-plain e),
          read_entry-sorted (1 + length entries) e,
          valid,
          new,
        )
        refl

  Appended-file : {entries : List Entry} {raw : Text} → Appended entries raw → raw ≡ file_of entries
  Appended-file empty = refl
  Appended-file (append {entries} {raw} now mid actor evidence a new id operator hex time) =
      let e = next_entry sha256 now mid actor evidence entries in
      ap (λ t. t ++ line_of e) (Appended-file a) ∙ sym (file_of-snoc entries e)

  Appended-lines :
      {entries : List Entry} {raw : Text}
      → Faithful sha256 r
      → Appended entries raw
      → read_lines sha256 r 1 [] (map body entries) ≡ ok entries
  Appended-lines faithful empty = unfold read_lines in refl
  Appended-lines faithful
        (append {entries} {raw} now mid actor evidence a new id operator hex time) =
      let e = next_entry sha256 now mid actor evidence entries in
      let before = Appended-lines faithful a in
      let step = read_lines-snoc 1 [] (map body entries) (body e) entries before in
      let line =
        verify_line-next now mid actor evidence entries faithful new id operator hex time in
      rw (map-snoc entries e) (step ∙ (rw (length-map entries) (unfold ◌>>=◌ in rw line refl)))

  Appended-ends :
      {entries : List Entry} {raw : Text}
      → Appended entries raw
      → (not (text_eq raw []) && not (ends_line raw)) ≡ false
  Appended-ends empty = unfold text_eq in refl
  Appended-ends (append {entries} {raw} now mid actor evidence a new id operator hex time) =
      let e = next_entry sha256 now mid actor evidence entries in
      let ends : ends_line (raw ++ line_of e) ≡ true =
        rw (sym (append_assoc raw (body e) (10 ∷ []))) (ends_line-snoc (raw ++ body e)) in
      ground (arith, ends)

  -- `Ledger.__init__` reads, from the file that calls of `append` have written, the entries that they
  -- have added, in their order, and raises nothing: where each call was for a memorial that had no
  -- entry and whose id has the form that `_verify` wants, for an actor that starts with `operator:`,
  -- with evidence of 64 hexadecimal digits and at a time that `datetime.fromisoformat` takes; and
  -- where `json.loads` undoes `json.dumps` and SHA-256 gives 64 hexadecimal digits.
  pub open_ledger-Appended :
      {entries : List Entry} {raw : Text}
      → Faithful sha256 r
      → Appended entries raw
      → open_ledger sha256 r raw ≡ ok entries
  unfolding open_ledger raise_if ◌>>=◌
  open_ledger-Appended {entries} {raw} faithful a =
      rw (Appended-ends a, Appended-file a, splitlines-file_of entries) (Appended-lines faithful a)

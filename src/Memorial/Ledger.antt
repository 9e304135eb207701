-- ===== src/Memorial/Ledger.antt =====
-- The erasure ledger: `Ledger`, `_verify` and `checked_ledger` of remembrance/erasure.py. The file
-- is the text that its UTF-8 bytes stand for; `none` is a file that does not exist. What Python
-- reads from a line is the parameter `Reader`.
use mathlib.Core.List.{reverse}
use the_st.Prelude.{
  ℕ, zero, suc, ◌+◌, Bool, true, false, not, ◌&&◌, ◌||◌, List, [], ◌∷◌, ◌++◌, Option, none, some,
  Text, codes, text_eq, leb, ◌==◌, if◌then◌else◌, all, find, length, take, drop, mem_text, is_some,
}
use the_st.Json.{pos, Value, Entries, canonical_json}
use the_st.Fallible.{ok, fail, ◌>>=◌, ◌>>◌, raise_if, or_fail, payload}
use the_st.Memorial.{MemorialError, Try, is_alphanumeric, is_hex64}
use the_st.Memorial.Consent.{zero_hash}

unfoldable pub ledger_format : Text
ledger_format = codes "remembrance-erasure-ledger"

-- An entry that `_verify` has let through: its format is `ledger_format`, its version 1.
pub record Entry : Type 0 where
  pub sequence : ℕ
  pub memorial_id : Text
  pub decided_at : Text
  pub actor : Text
  pub evidence_digest : Text
  pub previous_hash : Text
  pub entry_hash : Text

-- `json.loads` of a line, none where it raises `ValueError`, and whether `datetime.fromisoformat`
-- takes a text.
pub record Reader : Type 0 where
  pub loads : Text → Option Value
  pub is_datetime : Text → Bool

-- `LEDGER_FIELDS`, with the values of an entry.
abbrev fields : Entry → List (Text × Value)
fields e =
    (codes "format", Value.str ledger_format)
    ∷ (codes "version", Value.int (pos 1))
    ∷ (codes "sequence", Value.int (pos e.sequence))
    ∷ (codes "memorial_id", Value.str e.memorial_id)
    ∷ (codes "decided_at", Value.str e.decided_at)
    ∷ (codes "actor", Value.str e.actor)
    ∷ (codes "evidence_digest", Value.str e.evidence_digest)
    ∷ (codes "previous_hash", Value.str e.previous_hash)
    ∷ []

-- What the hash of an entry is over.
unfoldable pub ledger_fields : Entry → Value
ledger_fields e = Value.dict (payload (fields e))

-- The whole entry, as it is written.
unfoldable pub entry_document : Entry → Value
entry_document e =
    Value.dict (payload (fields e ++ ((codes "entry_hash", Value.str e.entry_hash) ∷ [])))

-- `entry[key]`.
unfoldable pub field : Text → Entries → Option Value
field k Entries.end = none
field k (Entries.entry j v es) = let rest = field k es in if text_eq k j then some v else rest
field k (Entries.bad_entry v es) = field k es

-- The keys of a dict that are texts, and whether all are.
abbrev pub has_only : List Text → Entries → Bool
has_only ks Entries.end = true
has_only ks (Entries.entry k v es) = mem_text k ks && has_only ks es
has_only ks (Entries.bad_entry v es) = false

unfoldable pub as_text : ℕ → Option Value → Try Text
as_text sequence (some (Value.str t)) = ok t
as_text sequence _ = fail (MemorialError.bad_entry sequence)

unfoldable pub as_nat : ℕ → Option Value → Try ℕ
as_nat sequence (some (Value.int (pos n))) = ok n
as_nat sequence _ = fail (MemorialError.bad_entry sequence)

abbrev pub entry_keys : List Text
entry_keys =
    codes "format"
    ∷ codes "version"
    ∷ codes "sequence"
    ∷ codes "memorial_id"
    ∷ codes "decided_at"
    ∷ codes "actor"
    ∷ codes "evidence_digest"
    ∷ codes "previous_hash"
    ∷ codes "entry_hash"
    ∷ []

-- The fields of a line, where they are of their types, and format and version are right. No
-- sequence is negative, so that of a negative one is refused at once.
unfoldable pub read_entry : ℕ → Value → Try Entry
read_entry n (Value.dict es) = do
  format ← as_text n (field (codes "format") es)
  version ← as_nat n (field (codes "version") es)
  sequence ← as_nat n (field (codes "sequence") es)
  memorial_id ← as_text n (field (codes "memorial_id") es)
  decided_at ← as_text n (field (codes "decided_at") es)
  actor ← as_text n (field (codes "actor") es)
  evidence_digest ← as_text n (field (codes "evidence_digest") es)
  previous_hash ← as_text n (field (codes "previous_hash") es)
  entry_hash ← as_text n (field (codes "entry_hash") es)
  raise_if (not (has_only entry_keys es && text_eq format ledger_format && version == 1))
      (MemorialError.bad_entry n)
  ok (record {
    sequence = sequence;
    memorial_id = memorial_id;
    decided_at = decided_at;
    actor = actor;
    evidence_digest = evidence_digest;
    previous_hash = previous_hash;
    entry_hash = entry_hash;
  })
read_entry n _ = fail (MemorialError.bad_entry n)

-- `[A-Za-z0-9][A-Za-z0-9_-]{0,63}`.
unfoldable pub is_memorial_id : Text → Bool
is_memorial_id [] = false
is_memorial_id (c ∷ cs) =
    is_alphanumeric c
    && leb (length cs) 63
    && all (λ d. is_alphanumeric d || d == b'_' || d == b'-') cs

-- `t.startswith(prefix)`.
abbrev pub starts_with : Text → Text → Bool
starts_with [] t = true
starts_with (c ∷ cs) [] = false
starts_with (c ∷ cs) (d ∷ t) = c == d && starts_with cs t

-- `splitlines` of bytes, with the line that is being read: `\n`, `\r` and `\r\n` end one. The flag
-- says that the previous character was `\r`.
abbrev pub lines_from : Bool → Text → Text → List Text
lines_from after_cr [] [] = []
lines_from after_cr (c ∷ line) [] = reverse (c ∷ line) ∷ []
lines_from after_cr line (c ∷ t) =
    let fresh = lines_from false [] t in
    let cr = lines_from true [] t in
    let more = lines_from false (c ∷ line) t in
    if c == 10
    then (if after_cr then fresh else reverse line ∷ fresh)
    else if c == 13
    then reverse line ∷ cr
    else more

unfoldable pub splitlines : Text → List Text
splitlines = lines_from false []

-- `raw.endswith(b'\n')`.
unfoldable pub ends_line : Text → Bool
ends_line [] = false
ends_line (c ∷ []) = c == 10
ends_line (c ∷ d ∷ t) = ends_line (d ∷ t)

-- `self.entries[-1]['entry_hash'] if self.entries else ZERO_HASH`.
unfoldable pub last_hash : List Entry → Text
last_hash [] = zero_hash
last_hash (e ∷ []) = e.entry_hash
last_hash (e ∷ f ∷ es) = last_hash (f ∷ es)

unfoldable pub entry_for : Text → List Entry → Option Entry
entry_for mid = find (λ e. text_eq e.memorial_id mid)

-- `path == data or data in path.parents`, of paths as their parts.
unfoldable pub is_within : List Text → List Text → Bool
is_within [] path = true
is_within (d ∷ ds) [] = false
is_within (d ∷ ds) (p ∷ ps) = text_eq d p && is_within ds ps

unfoldable pub checked_ledger : List Text → List Text → Try (List Text)
checked_ledger path data_dir = do
  raise_if (is_within data_dir path) MemorialError.inside_data
  ok path

-- The loop of `append` that writes the bytes of a line: the k-th `os.write` takes `taken k` of those
-- that remain. The last argument is the bytes of the file.
unfoldable pub write_all : (ℕ → List ℕ → ℕ) → ℕ → ℕ → List ℕ → List ℕ → Option (List ℕ)
write_all taken zero k remaining file = none
write_all taken (suc fuel) k [] file = some file
write_all taken (suc fuel) k (b ∷ bs) file =
    let n = taken k (b ∷ bs) in
    write_all taken fuel (suc k) (drop n (b ∷ bs)) (file ++ take n (b ∷ bs))

-- The line of an entry.
abbrev pub line_of : Entry → Text
line_of e = canonical_json (entry_document e) ++ (10 ∷ [])

module _ (sha256 : Text → Text) where
  -- `_verify`, but for what `read_entry` has tested.
  unfoldable pub is_valid : Reader → Entry → ℕ → Text → Bool
  is_valid r e sequence previous_hash =
      e.sequence == sequence
      && text_eq e.previous_hash previous_hash
      && is_memorial_id e.memorial_id
      && starts_with (codes "operator:") e.actor
      && is_hex64 e.evidence_digest
      && is_hex64 e.entry_hash
      && r.is_datetime e.decided_at
      && text_eq e.entry_hash (sha256 (canonical_json (ledger_fields e)))

  -- One line of the file, after the entries that have been read.
  unfoldable pub verify_line : Reader → ℕ → List Entry → Text → Try Entry
  verify_line r sequence entries line = do
    value ← or_fail (r.loads line) (MemorialError.bad_entry sequence)
    e ← read_entry sequence value
    raise_if (not (is_valid r e sequence (last_hash entries))) (MemorialError.bad_entry sequence)
    raise_if (is_some (entry_for e.memorial_id entries))
        (MemorialError.repeats e.memorial_id sequence)
    ok e

  unfoldable pub read_lines : Reader → ℕ → List Entry → List Text → Try (List Entry)
  read_lines r sequence entries [] = ok entries
  read_lines r sequence entries (line ∷ lines) = verify_line r sequence entries line >>= λ e.
      read_lines r (suc sequence) (entries ++ (e ∷ [])) lines

  -- `Ledger.__init__`: the entries of a file.
  unfoldable pub open_ledger : Reader → Text → Try (List Entry)
  open_ledger r raw = do
    raise_if (not (text_eq raw []) && not (ends_line raw)) MemorialError.incomplete_ledger
    read_lines r 1 [] (splitlines raw)

  -- The entry that `append` adds.
  unfoldable pub next_entry : Text → Text → Text → Text → List Entry → Entry
  next_entry now mid actor evidence entries =
      let draft : Entry = record {
        sequence = length entries + 1;
        memorial_id = mid;
        decided_at = now;
        actor = actor;
        evidence_digest = evidence;
        previous_hash = last_hash entries;
        entry_hash = [];
      } in
      record draft { entry_hash = sha256 (canonical_json (ledger_fields draft)) }

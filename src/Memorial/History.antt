-- ===== src/Memorial/History.antt =====
-- `verify_history` of remembrance/consent.py. The rows are those of its query: of each memorial, the
-- events in the order of their sequences. A checkpoint is JSON.
use the_st.Prelude.{
  ℕ, ◌+◌, Bool, false, not, ◌&&◌, List, [], ◌∷◌, Option, none, some, Text, codes, text_eq, leb,
  ◌==◌, if◌then◌else◌, all, mem_text,
}
use the_st.Prelude.Dicts.{TextDict, get, set}
use the_st.Json.{pos, Value, Entries}
use the_st.Fallible.{ok, fail, ◌>>=◌, ◌>>◌, raise_if, payload}
use the_st.Memorial.{Event, MemorialError, Try, is_hex64}
use the_st.Memorial.Consent.{zero_hash, hashed}
use the_st.Memorial.Ledger.{field}

pub record Head : Type 0 where
  pub sequence : ℕ
  pub hash : Text

abbrev pub no_head : Head
no_head = record { sequence = 0; hash = zero_hash }

abbrev pub head_or : Option Head → Head
head_or none = no_head
head_or (some h) = h

-- `heads.get(mid, {'sequence': 0, 'hash': ZERO_HASH})`.
abbrev pub head_of : Text → TextDict Head → Head
head_of mid heads = head_or (get mid heads)

abbrev pub head_at : Event → Head
head_at e = record { sequence = e.sequence; hash = e.event_hash }

-- The heads, and the memorials of the checkpoint that have been matched.
pub record Progress : Type 0 where
  pub heads : TextDict Head
  pub matched : List Text

-- The test of a row against the checkpoint.
unfoldable pub match_head : Option Head → Event → List Text → Try (List Text)
match_head none e matched = ok matched
match_head (some h) e matched =
    if e.sequence == h.sequence
    then (raise_if (not (text_eq e.event_hash h.hash)) MemorialError.checkpoint_differs
        >> ok (e.memorial_id ∷ matched))
    else ok matched

-- `checkpoint.get('version') == 1`, which `True` and `1.0` pass as well.
abbrev is_one : Option Value → Bool
is_one (some (Value.int (pos n))) = n == 1
is_one (some (Value.bool b)) = b
is_one (some (Value.float t)) = text_eq t (codes "1.0")
is_one _ = false

abbrev is_text : Text → Option Value → Bool
is_text t (some (Value.str u)) = text_eq u t
is_text t _ = false

-- A head of a checkpoint.
unfoldable pub read_head : Value → Try Head
read_head (Value.dict es) = elim (field (codes "sequence") es) [
  | some (Value.int (pos n)) ↦ elim (field (codes "hash") es) [
    | some (Value.str hash) ↦
        if leb 1 n && is_hex64 hash
        then ok (record { sequence = n; hash = hash })
        else fail MemorialError.bad_head
    | _ ↦ fail MemorialError.bad_head
  ]
  | _ ↦ fail MemorialError.bad_head
]
read_head _ = fail MemorialError.bad_head

unfoldable pub read_heads : Entries → Try (TextDict Head)
read_heads Entries.end = ok []
read_heads (Entries.entry mid v es) =
    read_head v >>= λ h. read_heads es >>= λ heads. ok ((mid, h) ∷ heads)
read_heads (Entries.bad_entry v es) = read_heads es

-- The heads that a checkpoint expects.
unfoldable pub read_checkpoint : Value → Try (TextDict Head)
read_checkpoint (Value.dict es) =
    if is_text (codes "remembrance-consent-checkpoint") (field (codes "format") es)
      && is_one (field (codes "version") es)
    then elim (field (codes "profiles") es) [
      | some (Value.dict profiles) ↦ read_heads profiles
      | _ ↦ fail MemorialError.bad_checkpoint
    ]
    else fail MemorialError.bad_checkpoint
read_checkpoint _ = fail MemorialError.bad_checkpoint

unfoldable pub expected_of : Option Value → Try (TextDict Head)
expected_of none = ok []
expected_of (some v) = read_checkpoint v

-- The profiles of the checkpoint that is returned.
abbrev pub write_heads : TextDict Head → Entries
write_heads [] = Entries.end
write_heads ((mid, h) ∷ heads) =
    Entries.entry mid
      (Value.dict (
        payload
          ((codes "sequence", Value.int (pos h.sequence)) ∷ (codes "hash", Value.str h.hash) ∷ [])))
      (write_heads heads)

unfoldable pub write_checkpoint : TextDict Head → Value
write_checkpoint heads = Value.dict (
    payload (
      (codes "format", Value.str (codes "remembrance-consent-checkpoint"))
      ∷ (codes "version", Value.int (pos 1))
      ∷ (codes "profiles", Value.dict (write_heads heads))
      ∷ []))

module _ (sha256 : Text → Text) where
  -- Whether a row extends a head.
  unfoldable pub extends : Head → Event → Bool
  extends previous e =
      e.sequence == previous.sequence + 1
      && text_eq e.previous_hash previous.hash
      && text_eq e.event_hash (hashed sha256 e)

  unfoldable pub verify_row : TextDict Head → Progress → Event → Try Progress
  verify_row expected p e = do
    raise_if (not (extends (head_of e.memorial_id p.heads) e))
        (MemorialError.bad_history e.memorial_id e.sequence)
    matched ← match_head (get e.memorial_id expected) e p.matched
    ok (record { heads = set e.memorial_id (head_at e) p.heads; matched = matched })

  unfoldable pub verify_rows : TextDict Head → Progress → List Event → Try Progress
  verify_rows expected p [] = ok p
  verify_rows expected p (e ∷ es) = verify_row expected p e >>= λ p'. verify_rows expected p' es

  -- `set(expected) != matched`; what is matched is expected.
  unfoldable pub verify_expected : TextDict Head → List Event → Try Value
  verify_expected expected rows = do
    p ← verify_rows expected (record { heads = []; matched = [] }) rows
    raise_if (not (all (λ (mid, h). mem_text mid p.matched) expected)) MemorialError.events_missing
    ok (write_checkpoint p.heads)

  unfoldable pub verify_history : Option Value → List Event → Try Value
  verify_history checkpoint rows =
      expected_of checkpoint >>= λ expected. verify_expected expected rows

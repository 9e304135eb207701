-- ===== src/Audit.antt =====
-- The audit trail: remembrance-consent/app/consent/audit.py. Each profile has a chain of events,
-- each of which holds the hash of the one before it. SHA-256 over the UTF-8 text, as a hexadecimal
-- text, is the parameter `sha256`. A table of events stands newest first.
use the_st.Prelude.{
  ℕ, zero, suc, ◌+◌, ◌-◌, ◌^◌, ◌≤◌, Bool, true, false, not, ◌&&◌, ◌||◌, ◌⊎◌, inl, inr, List, [],
  ◌∷◌, ◌++◌, Option, none, some, Text, codes, ltb, leb, ◌==◌, if◌then◌else◌, text_eq, any, find,
  length,
}
use the_st.Prelude.Dicts.{Dict, lookup, insert}
use the_st.Format.{uuid_text, isoformat}
use the_st.Json.{ℤ, pos, negsuc, Value, Items, Entries, canonical_json}
use the_st.Utf8.{encode}
use the_st.Vocabulary.{AuditEventType, event_value}
pub mod Payload
pub mod Links
pub mod Append
pub mod Tamper

-- `AuditPayloadError`, by what it says, and `not_encodable`, the `UnicodeEncodeError` of `encode`.
pub data PayloadError : Type 0 where
  too_deep too_large_integer float_value nul_in_text bad_key unsupported too_large : PayloadError
  not_encodable : PayloadError

abbrev pub max_payload_bytes : ℕ
max_payload_bytes = 16384

abbrev pub max_payload_depth : ℕ
max_payload_depth = 8

abbrev pub max_safe_integer : ℕ
max_safe_integer = 2 ^ 53 - 1

-- `abs(value)`.
abbrev pub magnitude : ℤ → ℕ
magnitude (pos n) = n
magnitude (negsuc n) = suc n

-- `"\x00" in value`.
abbrev pub has_nul : Text → Bool
has_nul = any (λ c. c == 0)

-- The first error, if there is one.
abbrev pub or_else : Option PayloadError → Option PayloadError → Option PayloadError
or_else (some e) _ = some e
or_else none later = later

-- `_check_value`: the error it raises. The parts of a list and of a dict are one level deeper.
unfoldable mutual
  pub check_value : Value → ℕ → Option PayloadError
  check_value Value.null depth = if ltb max_payload_depth depth then some too_deep else none
  check_value (Value.bool b) depth = if ltb max_payload_depth depth then some too_deep else none
  check_value (Value.int n) depth =
      if ltb max_payload_depth depth
      then some too_deep
      else if ltb max_safe_integer (magnitude n)
      then some too_large_integer
      else none
  check_value (Value.float r) depth =
      if ltb max_payload_depth depth then some too_deep else some float_value
  check_value (Value.str t) depth =
      if ltb max_payload_depth depth
      then some too_deep
      else if has_nul t
      then some nul_in_text
      else none
  check_value (Value.list xs) depth =
      let parts = check_items xs (suc depth) in
      if ltb max_payload_depth depth then some too_deep else parts
  check_value (Value.dict es) depth =
      let parts = check_entries es (suc depth) in
      if ltb max_payload_depth depth then some too_deep else parts
  check_value Value.other depth =
      if ltb max_payload_depth depth then some too_deep else some unsupported

  pub check_items : Items → ℕ → Option PayloadError
  check_items Items.nil depth = none
  check_items (Items.item v xs) depth = or_else (check_value v depth) (check_items xs depth)

  pub check_entries : Entries → ℕ → Option PayloadError
  check_entries Entries.end depth = none
  check_entries (Entries.entry k v es) depth =
      if has_nul k then some bad_key else or_else (check_value v depth) (check_entries es depth)
  check_entries (Entries.bad_entry v es) depth = some bad_key

-- `len(text.encode()) > MAX_PAYLOAD_BYTES`, of the bytes, if there are any.
abbrev pub check_length : Option (List ℕ) → Option PayloadError
check_length none = some not_encodable
check_length (some bytes) = if ltb max_payload_bytes (length bytes) then some too_large else none

-- `validate_payload`, of a mapping: the error it raises.
unfoldable pub validate_payload : Entries → Option PayloadError
unfolding check_value
validate_payload payload =
    or_else (check_value (Value.dict payload) 0)
      (check_length (encode (canonical_json (Value.dict payload))))

-- `EventRecord`, and a row of the table `audit_event`.
pub record EventRecord : Type 0 where
  pub id : ℕ
  pub event_type : Text
  pub actor_id : Text
  pub consent_grant_id : Option ℕ
  pub deceased_profile_id : ℕ
  pub payload : Entries
  pub previous_hash : Text
  pub event_hash : Text
  pub created_at : ℕ

-- `str(uuid) if uuid else None`.
abbrev pub uuid_or_null : Option ℕ → Value
uuid_or_null none = Value.null
uuid_or_null (some n) = Value.str (uuid_text n)

-- What `compute_event_hash` hashes.
unfoldable pub event_document : EventRecord → Value
event_document e = Value.dict (
    Entries.entry (codes "v") (Value.int (pos 1)) (
      Entries.entry (codes "event_type") (Value.str e.event_type) (
        Entries.entry (codes "actor_id") (Value.str e.actor_id) (
          Entries.entry (codes "deceased_profile_id") (Value.str (uuid_text e.deceased_profile_id))
            (Entries.entry (codes "consent_grant_id") (uuid_or_null e.consent_grant_id) (
              Entries.entry (codes "payload") (Value.dict e.payload) (
                Entries.entry (codes "previous_hash") (Value.str e.previous_hash) (
                  Entries.entry (codes "created_at") (Value.str (isoformat e.created_at))
                    Entries.end))))))))

-- `"0" * 64`.
abbrev pub zeros : ℕ → Text
zeros zero = []
zeros (suc n) = b'0' ∷ zeros n

unfoldable pub genesis_hash : Text
genesis_hash = zeros 64

pub data ChainErrorKind : Type 0 where
  bad_genesis broken_link hash_mismatch timestamp_regression anchor_mismatch anchor_missing :
      ChainErrorKind

-- `ChainError`, less its text for people.
pub record ChainError : Type 0 where
  pub deceased_profile_id : ℕ
  pub event_id : Option ℕ
  pub kind : ChainErrorKind

pub record Anchor : Type 0 where
  pub length : ℕ
  pub head_hash : Text

pub record ChainSummary : Type 0 where
  pub deceased_profile_id : ℕ
  pub length : ℕ
  pub head_hash : Text
  pub head_event_id : Option ℕ
  pub last_created_at : Option ℕ

pub record ChainReport : Type 0 where
  pub chains : Dict ChainSummary
  pub errors : List ChainError

abbrev pub new_summary : ℕ → ChainSummary
new_summary pid = record {
  deceased_profile_id = pid;
  length = 0;
  head_hash = genesis_hash;
  head_event_id = none;
  last_created_at = none;
}

-- `report.chains[pid]`, made anew where there is none.
unfoldable pub summary_of : ℕ → Dict ChainSummary → ChainSummary
summary_of pid chains = elim (lookup pid chains) [ none ↦ new_summary pid | some c ↦ c ]

abbrev pub error_at : EventRecord → ChainErrorKind → List ChainError
error_at e kind =
    record { deceased_profile_id = e.deceased_profile_id; event_id = some e.id; kind = kind } ∷ []

unfoldable pub check_link : ChainSummary → EventRecord → List ChainError
check_link chain e =
    if text_eq e.previous_hash chain.head_hash
    then []
    else error_at e (if chain.length == 0 then bad_genesis else broken_link)

unfoldable pub check_time : ChainSummary → EventRecord → List ChainError
check_time chain e = elim (chain.last_created_at) [
  | none ↦ []
  | some last ↦ if ltb e.created_at last then error_at e timestamp_regression else []
]

abbrev pub advance : ChainSummary → EventRecord → ChainSummary
advance chain e = record chain {
  length = chain.length + 1;
  head_hash = e.event_hash;
  head_event_id = some e.id;
  last_created_at = some e.created_at;
}

-- The test against an anchor, after the event has been counted.
unfoldable pub check_anchor : Option Anchor → ChainSummary → EventRecord → List ChainError
check_anchor none chain e = []
check_anchor (some a) chain e =
    if chain.length == a.length && not (text_eq e.event_hash a.head_hash)
    then error_at e anchor_mismatch
    else []

-- The last loop: anchors that no chain has reached.
unfoldable pub check_missing : Dict ChainSummary → Dict Anchor → List ChainError
unfolding summary_of
check_missing chains [] = []
check_missing chains ((pid, a) ∷ anchors) =
    let rest = check_missing chains anchors in
    if ltb (summary_of pid chains).length a.length
    then record { deceased_profile_id = pid; event_id = none; kind = anchor_missing } ∷ rest
    else rest

-- `append_event` finds the head of the chain: the newest event of the profile.
unfoldable pub find_head : ℕ → List EventRecord → Option EventRecord
find_head pid = find (λ e. e.deceased_profile_id == pid)

-- `max(now, head.created_at)`, where there is a head.
unfoldable pub stamp : Option EventRecord → ℕ → ℕ
stamp none now = now
stamp (some head) now = if ltb now head.created_at then head.created_at else now

unfoldable pub previous_of : Option EventRecord → Text
previous_of none = genesis_hash
previous_of (some head) = head.event_hash

module _ (sha256 : Text → Text) where
  -- `compute_event_hash`, and `recomputed_hash`.
  unfoldable pub compute_event_hash : EventRecord → Text
  compute_event_hash e = sha256 (canonical_json (event_document e))

  unfoldable pub check_hash : EventRecord → List ChainError
  check_hash e =
      if text_eq (compute_event_hash e) e.event_hash then [] else error_at e hash_mismatch

  -- One round of the loop of `verify_chain`.
  unfoldable pub verify_event : Dict Anchor → ChainReport → EventRecord → ChainReport
  verify_event anchors report e =
      let chain = summary_of e.deceased_profile_id report.chains in
      let chain' = advance chain e in
      record {
        chains = insert e.deceased_profile_id chain' report.chains;
        errors =
            report.errors
            ++ (check_link chain e
                ++ (check_hash e
                    ++ (check_time chain e
                        ++ check_anchor (lookup e.deceased_profile_id anchors) chain' e)));
      }

  unfoldable pub verify_events : Dict Anchor → ChainReport → List EventRecord → ChainReport
  unfolding verify_event
  verify_events anchors report [] = report
  verify_events anchors report (e ∷ es) = verify_events anchors (verify_event anchors report e) es

  unfoldable pub verify_chain : Dict Anchor → List EventRecord → ChainReport
  unfolding verify_events check_missing
  verify_chain anchors events =
      let report = verify_events anchors (record { chains = []; errors = [] }) events in
      record report { errors = report.errors ++ check_missing report.chains anchors }

  -- The event that `append_event` writes on a table.
  unfoldable pub next_event :
      ℕ → AuditEventType → Text → ℕ → Option ℕ → Entries → List EventRecord → EventRecord
  unfolding find_head previous_of stamp
  next_event now event_type actor_id pid grant_id payload table =
      let head = find_head pid table in
      let draft : EventRecord = record {
        id = length table + 1;
        event_type = event_value event_type;
        actor_id = actor_id;
        consent_grant_id = grant_id;
        deceased_profile_id = pid;
        payload = payload;
        previous_hash = previous_of head;
        event_hash = [];
        created_at = stamp head now;
      } in
      record draft { event_hash = compute_event_hash draft }

  -- `append_event`: the table with the new event, or the error that the payload raises.
  unfoldable pub append_event :
      ℕ
      → AuditEventType
      → Text
      → ℕ
      → Option ℕ
      → Entries
      → List EventRecord
      → PayloadError ⊎ List EventRecord
  unfolding next_event
  append_event now event_type actor_id pid grant_id payload table =
      elim (validate_payload payload) [
        | some e ↦ inl e
        | none ↦ inr (next_event now event_type actor_id pid grant_id payload table ∷ table)
      ]

-- ===== src/Tests/Trail.antt =====
-- The theorems on the audit trail of remembrance-consent/app/consent/audit.py, on the test data.
use mathlib.Core.List.{reverse}
use the_st.Prelude.{
  ℕ, suc, ◌+◌, ◌<◌, ◌≤◌, ◌≡◌, refl, ◌↔◌, ◌⊎◌, inl, inr, Bool, true, false, List, [], ◌∷◌, ◌++◌,
  Option, some, none, codes, Any, All, Text, arith, take, keep, length,
}
use the_st.Prelude.Dicts.{Dict, lookup}
use the_st.Vocabulary.{AuditEventType}
use the_st.Json.{Value, Entries, pos, canonical_json, sorted}
use the_st.Json.Read.{is_plain, plain_entries}
use the_st.Json.Canonical.{canonical_json-injective}
use the_st.Audit.{
  PayloadError, EventRecord, Anchor, genesis_hash, append_event, next_event, verify_chain,
  validate_payload, max_payload_depth, max_payload_bytes, compute_event_hash, event_document,
}
use the_st.Audit.Links.{own, Linked, LongEnough, verify_chain-ok_iff}
use the_st.Audit.Append.{Written, empty, append, Written-verifies}
use the_st.Audit.Payload.{nesting, is_safe, validate_payload-none}
use the_st.Audit.Tamper.{Collision, SameAll, chain_of, anchored_history}
use the_st.Tests.{fingerprint, clock}
use the_st.Utf8.{encode, utf8}

-- A payload with one number.
abbrev note : Entries
note = Entries.entry (codes "n") (Value.int (pos 12)) Entries.end

-- A payload with two keys, in both orders.
abbrev forth : Value
forth =
    Value.dict
      (Entries.entry (codes "b") Value.null (Entries.entry (codes "a") Value.null Entries.end))

abbrev back : Value
back =
    Value.dict
      (Entries.entry (codes "a") Value.null (Entries.entry (codes "b") Value.null Entries.end))

abbrev events_or : List EventRecord → PayloadError ⊎ List EventRecord → List EventRecord
events_or default (inl e) = default
events_or default (inr es) = es

-- One event, as `append_event` writes it.
abbrev one_event : List EventRecord
one_event = events_or [] (
    append_event fingerprint (clock 0) AuditEventType.consent_created (codes "ada") 5 (some 7) note
      [])

one_event-Written : Written fingerprint one_event
unfolding append_event validate_payload encode utf8 canonical_json
one_event-Written =
    append (clock 0) AuditEventType.consent_created (codes "ada") 5 (some 7) note empty refl

verify_chain-ok_iff_example : ((verify_chain fingerprint [] one_event).errors ≡ []) ↔ (
    ((pid : ℕ) → Linked fingerprint (lookup pid []) 0 genesis_hash none (keep (own pid) one_event))
    × All (LongEnough one_event) [])
verify_chain-ok_iff_example = verify_chain-ok_iff fingerprint [] one_event

Written-verifies_example : (verify_chain fingerprint [] (reverse one_event)).errors ≡ []
Written-verifies_example = Written-verifies fingerprint one_event-Written

validate_payload-none_example : (validate_payload note ≡ none) ↔ (
    (is_safe (Value.dict note) ≡ true)
    × (nesting (Value.dict note) ≤ max_payload_depth)
    × ((bytes : List ℕ) × (encode (canonical_json (Value.dict note)) ≡ some bytes)
        × (length bytes ≤ max_payload_bytes)))
validate_payload-none_example = validate_payload-none note

canonical_json-injective_example : sorted forth ≡ sorted back
unfolding canonical_json sorted is_plain
canonical_json-injective_example = canonical_json-injective forth back refl refl refl

abbrev head_of : List EventRecord → Text
head_of [] = []
head_of (e ∷ es) = e.event_hash

abbrev one_anchor : Anchor
one_anchor = record { length = 1; head_hash = head_of one_event }

anchored_history_example :
    SameAll fingerprint
      (take 1 (chain_of fingerprint 5 one_event))
      (take 1 (chain_of fingerprint 5 one_event))
    ⊎ Collision fingerprint
unfolding append_event validate_payload encode utf8 canonical_json verify_chain
    the_st.Audit.check_link the_st.Prelude.text_eq genesis_hash lookup the_st.Audit.check_hash
    compute_event_hash event_document the_st.Audit.check_time the_st.Audit.check_anchor
    the_st.Prelude.Dicts.insert plain_entries
anchored_history_example =
    anchored_history fingerprint 5 one_anchor one_event one_event (omega arith) refl refl (refl, tt)
      (refl, tt)

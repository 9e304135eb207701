-- ===== src/Service/Rights.antt =====
-- The endpoints that verify and acknowledge a grant: remembrance-consent/app/consent/router.py, with
-- the statement of acknowledgments.py.
use the_st.Prelude.{ℕ, not, List, [], ◌∷◌, map, some, Text, codes, is_some, any, find, text_eq}
use the_st.Format.{uuid_text}
use the_st.Json.{pos, Value, canonical_json}
use the_st.Vocabulary.{AuditEventType, Role}
use the_st.Kernel.{Actor, grant_quorum}
use the_st.Store.{Beneficiary, Acknowledgment, Grant, Db, from_row, update_grant}
use the_st.Service.{
  Failure, Result, ok, ◌>>=◌, ◌>>◌, raise_if, or_fail, payload, sorted_texts, audit, require_human,
  grant_and_facts, require,
}
use the_st.Service.Grants.{scope_value, grantor_value, texts}

-- `grant.authority_verified_at = now` and `authority_verified_by`.
abbrev pub verified_by : ℕ → Text → Grant → Grant
verified_by now by g = record g {
  authority_verified_at = some now;
  authority_verified_by = some by;
}

abbrev pub acknowledged_with : Acknowledgment → Grant → Grant
acknowledged_with ack g = record g { acknowledgments = ack ∷ g.acknowledgments }

abbrev pub set_grant : ℕ → (Grant → Grant) → Db → Db
set_grant id change db = record db { grants = update_grant id change db.grants }

-- `TERMS` of acknowledgments.py.
abbrev terms : List Text
terms =
    codes "Consent covers memorialization only."
    ∷ codes "It never permits financial, property, legal-representation or commercial use."
    ∷ codes
        "Any synthesized voice must be presented as synthetic; it does not speak as the deceased."
    ∷ codes
        "Consent can be revoked at any time by any authorized party; revocation deletes derived voice data."
    ∷ []

-- `statement_for`.
unfoldable pub statement_for : Grant → Text → Value
statement_for g email = Value.dict (
    payload (
      (codes "version", Value.str (codes "remembrance-ack/v1"))
      ∷ (codes "consent_grant_id", Value.str (uuid_text g.id))
      ∷ (codes "deceased_profile_id", Value.str (uuid_text g.deceased_profile_id))
      ∷ (codes "grantor_type", Value.str (grantor_value g.grantor_type))
      ∷ (codes "grantor_legal_name", Value.str g.grantor_legal_name)
      ∷ (codes "purpose_scope", texts (sorted_texts (map scope_value g.purpose_scope)))
      ∷ (codes "beneficiary_email", Value.str email)
      ∷ (codes "terms", texts terms)
      ∷ []))

module _ (sha256 : Text → Text) where
  abbrev statement_digest : Value → Text
  statement_digest statement = sha256 (canonical_json statement)

  unfoldable pub signature_hash : Value → Text → Text
  signature_hash statement signature = sha256 (
      canonical_json (
        Value.dict (
          payload
            ((codes "statement", statement) ∷ (codes "signature", Value.str signature) ∷ []))))

  -- `verify_authority`.
  unfoldable pub verify_authority : (ℕ → ℕ) → ℕ → Text → Actor → Db → Result Db
  verify_authority clock grant_id document_sha256 actor db = do
    raise_if (not actor.is_admin) Failure.admin_required
    require_human actor
    (grant, facts) ← grant_and_facts grant_id db
    raise_if (text_eq grant.grantor_user_id actor.user_id) Failure.self_verification
    raise_if (is_some grant.revoked_at) Failure.grant_revoked
    raise_if (is_some grant.authority_verified_at) Failure.already_verified
    audit sha256 (clock 1) AuditEventType.authority_verified actor.user_id grant.deceased_profile_id
        (some grant.id) (payload ((codes "document_sha256", Value.str document_sha256) ∷ []))
        (set_grant grant.id (verified_by (clock 0) actor.user_id) db)

  -- The part of `acknowledge` after the beneficiary's row has been found.
  unfoldable pub sign :
      (ℕ → ℕ) → ℕ → Text → Actor → Grant → Beneficiary → Text → Db → Result (Acknowledgment × Db)
  unfolding signature_hash
  sign clock fresh_id signature actor grant named email db =
      let statement = statement_for grant email in
      let ack : Acknowledgment = record {
        id = fresh_id;
        beneficiary_name = named.beneficiary_name;
        beneficiary_email = email;
        signature_hash = signature_hash statement signature;
        acknowledged_at = clock 0;
      } in
      let q = grant_quorum (from_row (acknowledged_with ack grant)) in
      audit sha256 (clock 1) AuditEventType.beneficiary_acknowledged actor.user_id
        grant.deceased_profile_id (some grant.id)
        (payload (
          (codes "acknowledgment_id", Value.str (uuid_text fresh_id))
          ∷ (codes "grant_beneficiary_id", Value.str (uuid_text named.id))
          ∷ (codes "statement_sha256", Value.str (statement_digest statement))
          ∷ (codes "quorum_required", Value.int (pos q.required))
          ∷ (codes "quorum_acknowledged", Value.int (pos q.acknowledged))
          ∷ []))
        (set_grant grant.id (acknowledged_with ack) db)
      >>= λ written. ok (ack, written)

  -- `acknowledge`. A beneficiary has an email; without one, `_require` has already refused.
  unfoldable pub acknowledge : (ℕ → ℕ) → ℕ → ℕ → Text → Actor → Db → Result (Acknowledgment × Db)
  unfolding sign
  acknowledge clock fresh_id grant_id signature actor db = do
    require_human actor
    (grant, facts) ← grant_and_facts grant_id db
    roles ← require actor facts grant (Role.beneficiary ∷ [])
    email ← or_fail actor.email Failure.not_found
    raise_if (is_some grant.revoked_at) Failure.grant_revoked
    raise_if (any (λ a. text_eq a.beneficiary_email email) grant.acknowledgments)
        Failure.already_acknowledged
    named ←
        or_fail (find (λ b. text_eq b.beneficiary_email email) grant.beneficiaries)
          Failure.not_found
    sign clock fresh_id signature actor grant named email db

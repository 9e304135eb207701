-- ===== src/Tests/Requests.antt =====
-- The theorems on the requests to the consent service (remembrance-consent/app/consent/router.py,
-- kernel.py and tokens.py), on the test data.
use mathlib.Core.List.{reverse}
use the_st.Prelude.{
  ℕ, ◌+◌, ◌==◌, ◌≤◌, ◌≡◌, ◌≢◌, refl, ◌↔◌, ◌⊎◌, inl, inr, Bool, true, false, List, [], ◌∷◌, Option,
  some, none, codes, All, Text, arith, find, text_eq,
}
use the_st.Vocabulary.{ConsentAction, DeclaredPurpose, RevocationStatus}
use the_st.Audit.Append.{empty}
use the_st.Audit.{
  verify_chain, append_event, validate_payload, next_event, compute_event_hash, stamp, find_head,
}
use the_st.Json.{canonical_json}
use the_st.Kernel.{ProfileFacts}
use the_st.Kernel.Permission.{Permitted}
use the_st.Store.{
  Grant, AuthorizationToken, RevocationRequest, Db, find_grant, load_profile_facts, find_profile,
  update_grant,
}
use the_st.Token.{
  Issuer, IssuedToken, make_issuer, issue, Validator, check_claims, Jwt, validate, status,
}
use the_st.Token.Validity.{
  Acceptable, DecodedBy, check_claims-none_iff, validate-accepts, issue-Acceptable,
}
use the_st.Service.{
  Result, ok, fail, audit, raise_if, or_fail, ◌>>=◌, grant_and_facts, sorted_texts,
}
use the_st.Service.Grants.{
  create_grant, new_grant, is_consistent, distinct, later_than, target_profile, admit_profile,
  beneficiary_rows, audit_profile, scope_value, grantor_value,
}
use the_st.Service.Rights.{verify_authority}
use the_st.Service.Revocation.{revoke}
use the_st.Service.Authorize.{AuthorizationResult, Outcome, answered, violation, authorize}
use the_st.Service.Trail.{Sound, WellFormed}
use the_st.Service.Endpoints.{Ended}
use the_st.Service.Steps.{Step, created, verified, start, step, Reached-WellFormed, Step-WellFormed}
use the_st.Service.Revoked.{revoke-Ended, revoke-tokens_refused}
use the_st.Service.Issued.{authorize-token}
use the_st.Tests.{ascii, fingerprint, ada, admin, empty_db, ada_request, clock, fresh, result_or}
use the_st.Utf8.{encode, utf8}

-- A validator with five seconds of leeway, and the claims of a token that it knows.
abbrev validator : Validator
validator = record {
  keys = codes "k" ∷ [];
  issuer = codes "i";
  audience = codes "a";
  leeway = 5;
  algorithm = codes "EdDSA";
  token_type = codes "t";
}

abbrev row : AuthorizationToken
row = record {
  jti = 9;
  consent_grant_id = some 7;
  deceased_profile_id = 5;
  action = ConsentAction.view_memorial;
  purpose = DeclaredPurpose.memorial_view;
  actor_id = codes "ada";
  issued_at = 0;
  expires_at = 0;
  revoked_at = none;
}

abbrev token_db : Db
token_db = record empty_db { tokens = row ∷ [] }

abbrev issuer : Issuer
issuer = record { issuer = codes "i"; audience = codes "a"; ttl = 300 }

abbrev token : IssuedToken
token =
    issue issuer 9 (codes "ada") ConsentAction.view_memorial 5 (some 7)
      DeclaredPurpose.memorial_view 4500000

-- A JWT library that knows one token.
abbrev jwt : Jwt
jwt = record {
  header = λ t. some (codes "EdDSA", codes "t", codes "k");
  decode = λ t key name audience. inr token.claims;
}

check_claims-none_iff_example :
    (check_claims validator token_db 6000000 ConsentAction.view_memorial 5 token.claims ≡ none)
    ↔ Acceptable validator token_db 6000000 ConsentAction.view_memorial 5 token.claims
check_claims-none_iff_example =
    check_claims-none_iff validator token_db 6000000 ConsentAction.view_memorial 5 token.claims

validate-accepts_example :
    Acceptable validator token_db 6000000 ConsentAction.view_memorial 5 token.claims
    × DecodedBy jwt validator (some (codes "x")) token.claims
unfolding validate check_claims issue the_st.Prelude.text_eq status
validate-accepts_example =
    validate-accepts jwt validator token_db 6000000 (some (codes "x")) ConsentAction.view_memorial 5
      token.claims refl

issue-Acceptable_example :
    Acceptable validator token_db 6000000 ConsentAction.view_memorial 5 token.claims
unfolding make_issuer issue status
issue-Acceptable_example =
    issue-Acceptable (codes "i") (codes "a") 300 issuer 9 (codes "ada") ConsentAction.view_memorial
      5 (some 7) DeclaredPurpose.memorial_view 4500000 6000000 validator token_db refl (omega arith)
      (omega arith) refl

-- Ada's grant, as `create_grant` makes it, with the tables that it leaves.
abbrev no_grant : Grant
no_grant = new_grant fresh 0 ada ada_request (record {
  id = 0;
  full_name = [];
  date_of_birth = none;
  date_of_death = none;
  jurisdiction_state = [];
  created_at = 0;
})

abbrev granted : Grant × Db
granted =
    result_or (no_grant, empty_db) (create_grant fingerprint clock fresh ada_request ada empty_db)

-- The tables once the grant is verified.
abbrev verified_db : Db
verified_db =
    result_or empty_db (verify_authority fingerprint clock 101 (codes "d") admin granted.1)

granted-Step : Step fingerprint empty_db granted.1
unfolding create_grant is_consistent distinct later_than target_profile admit_profile new_grant
    beneficiary_rows audit_profile audit raise_if or_fail append_event validate_payload encode utf8
    canonical_json sorted_texts scope_value grantor_value next_event compute_event_hash stamp
    find_head ◌>>=◌
granted-Step = created {db = empty_db} clock fresh ada_request ada granted refl refl

verified-Step : Step fingerprint granted.1 verified_db
unfolding create_grant is_consistent distinct later_than target_profile admit_profile new_grant
    beneficiary_rows audit_profile audit raise_if or_fail append_event validate_payload encode utf8
    canonical_json sorted_texts scope_value grantor_value next_event compute_event_hash stamp
    find_head verify_authority grant_and_facts load_profile_facts find_grant find_profile
    update_grant text_eq ◌>>=◌
verified-Step = verified {db = granted.1} clock 101 (codes "d") admin verified_db refl

Reached-WellFormed_example :
    ((verify_chain fingerprint [] (reverse verified_db.audit)).errors ≡ [])
    × All Sound verified_db.grants
Reached-WellFormed_example =
    Reached-WellFormed fingerprint (step (step (start refl refl) granted-Step) verified-Step)

verified_WellFormed : WellFormed fingerprint verified_db
verified_WellFormed =
    Step-WellFormed fingerprint verified-Step (Step-WellFormed fingerprint granted-Step (empty, tt))

-- Ada takes out the data of the profile, and gets a token for it.
abbrev no_result : AuthorizationResult
no_result = record {
  allowed = false;
  action = ConsentAction.export_data;
  profile_id = 0;
  purpose_code = [];
  reason = none;
  consent_grant_id = none;
  issued = none;
  actor_related = false;
}

abbrev answer_of : Outcome → AuthorizationResult × Db
answer_of (violation code db) = (no_result, db)
answer_of (answered r db) = (r, db)

-- Tables with Ada's verified grant on one profile, and no event.
abbrev small_db : Db
small_db = record empty_db {
  profiles =
      record {
        id = 100;
        full_name = [];
        date_of_birth = none;
        date_of_death = some 738000;
        jurisdiction_state = [];
        created_at = 0;
      }
      ∷ [];
  grants =
      record no_grant {
        deceased_profile_id = 100;
        authority_verified_at = some 0;
        beneficiaries = [];
      }
      ∷ [];
}

abbrev exported : AuthorizationResult × Db
exported = answer_of (
    result_or (violation [] empty_db) (
      authorize fingerprint ascii issuer clock 900 ConsentAction.export_data 100 ada
        (codes "DATA_PORTABILITY") small_db))

abbrev export_token : IssuedToken
export_token =
    issue issuer 900 (codes "ada") ConsentAction.export_data 100 (some 101)
      DeclaredPurpose.data_portability (clock 0)

authorize-token_example :
    ((facts : ProfileFacts) × (load_profile_facts 100 small_db ≡ some facts)
      × Permitted ascii ConsentAction.export_data (codes "DATA_PORTABILITY") ada facts)
    × Acceptable validator exported.1 (clock 0) ConsentAction.export_data 100 export_token.claims
unfolding create_grant new_grant beneficiary_rows audit raise_if or_fail append_event
    validate_payload encode utf8 canonical_json next_event compute_event_hash stamp find_head
    load_profile_facts find_grant find_profile text_eq ◌>>=◌ authorize make_issuer issue
    the_st.Service.Authorize.conclude the_st.Service.Authorize.issue_for
    the_st.Service.Authorize.decision_entries the_st.Service.Authorize.decision_event
    the_st.Service.Authorize.audited_purpose the_st.Purpose.is_banned_purpose
    the_st.Purpose.is_banned_normal the_st.Purpose.normalize_purpose the_st.Purpose.strip
    the_st.Purpose.sub_separators the_st.Purpose.is_separator the_st.Purpose.banned_tokens
    the_st.Purpose.contains_tokens the_st.Purpose.has_window the_st.Purpose.texts_eq
    the_st.Purpose.split the_st.Kernel.decide the_st.Kernel.decide_parsed
    the_st.Purpose.parse_declared_purpose the_st.Purpose.purpose_of_value
    the_st.Vocabulary.action_purpose the_st.Kernel.decide_known the_st.Kernel.is_deceased_actor
    the_st.Audit.check_value the_st.Audit.event_document the_st.Audit.genesis_hash
    the_st.Audit.previous_of the_st.Format.civil the_st.Format.datetime_text the_st.Format.decimal
    the_st.Format.decimal_from the_st.Format.hex the_st.Format.isoformat the_st.Format.padded
    the_st.Format.uuid_text the_st.Json.escape the_st.Json.escape_all the_st.Json.insert_entry
    the_st.Json.int_text the_st.Json.print the_st.Json.quote the_st.Json.sorted the_st.Json.text_lt
    the_st.Kernel.decide_rights the_st.Kernel.is_successor the_st.Kernel.scan_rights
    the_st.Vocabulary.is_use the_st.Vocabulary.is_synthesis the_st.Store.from_row
    the_st.Store.ordered the_st.Store.insert_ordered the_st.Prelude.frozenset
    the_st.Kernel.is_related the_st.Kernel.roles_for
authorize-token_example =
    authorize-token fingerprint ascii (codes "i") (codes "a") 300 issuer clock 900
      ConsentAction.export_data 100 ada (codes "DATA_PORTABILITY") small_db exported.1 exported.0
      export_token validator (clock 0) refl refl refl (omega arith) (omega arith)

-- Then Ada revokes the grant.
abbrev no_request : RevocationRequest
no_request = record {
  id = 0;
  consent_grant_id = 0;
  requested_by = [];
  reason = [];
  status = RevocationStatus.pending;
  created_at = 0;
  updated_at = 0;
  attempts = 0;
  last_error = none;
  cascade_completed_at = none;
}

abbrev token_held : Db
token_held = record verified_db {
  tokens = record row { jti = 900; consent_grant_id = some 101 } ∷ [];
}

abbrev revoked : RevocationRequest × ℕ × Bool × Db
revoked =
    result_or (no_request, 0, false, empty_db)
      (revoke fingerprint clock 800 101 (codes "no") ada token_held)

abbrev the_grant : Grant
the_grant = record granted.0 {
  authority_verified_at = some (clock 0);
  authority_verified_by = some (codes "root");
}

revoke-Ended_example : Ended fingerprint 101 revoked.3
unfolding create_grant is_consistent distinct later_than target_profile admit_profile new_grant
    beneficiary_rows audit_profile audit raise_if or_fail append_event validate_payload encode utf8
    canonical_json sorted_texts scope_value grantor_value next_event compute_event_hash stamp
    find_head verify_authority grant_and_facts load_profile_facts find_grant find_profile
    update_grant text_eq ◌>>=◌ revoke the_st.Service.Revocation.revoke_now
    the_st.Service.Revocation.earlier_request the_st.Service.Revocation.revoke_grant_tokens
    the_st.Service.require the_st.Kernel.roles_for the_st.Kernel.is_grantor the_st.Store.from_row
    the_st.Kernel.is_deceased_actor the_st.Store.ordered the_st.Format.uuid_text
    the_st.Prelude.frozenset the_st.Service.Revocation.role_value
revoke-Ended_example =
    revoke-Ended fingerprint clock 800 101 (codes "no") ada token_held the_grant revoked
      verified_WellFormed refl refl refl

revoke-tokens_refused_example :
    check_claims validator revoked.3 (clock 0) ConsentAction.export_data 100 export_token.claims
    ≢ none
unfolding create_grant is_consistent distinct later_than target_profile admit_profile new_grant
    beneficiary_rows audit_profile audit raise_if or_fail append_event validate_payload encode utf8
    canonical_json sorted_texts scope_value grantor_value next_event compute_event_hash stamp
    find_head verify_authority grant_and_facts load_profile_facts find_grant find_profile
    update_grant text_eq ◌>>=◌ revoke the_st.Service.Revocation.revoke_now
    the_st.Service.Revocation.earlier_request the_st.Service.Revocation.revoke_grant_tokens
    the_st.Service.require the_st.Kernel.roles_for the_st.Kernel.is_grantor the_st.Store.from_row
    the_st.Kernel.is_deceased_actor the_st.Store.ordered the_st.Format.uuid_text
    the_st.Prelude.frozenset the_st.Service.Revocation.role_value issue
revoke-tokens_refused_example =
    revoke-tokens_refused fingerprint clock 800 101 (codes "no") ada token_held the_grant revoked
      (record row { jti = 900; consent_grant_id = some 101; revoked_at = some (clock 0) }) validator
      (clock 0) ConsentAction.export_data 100 export_token.claims verified_WellFormed refl refl refl
      refl refl

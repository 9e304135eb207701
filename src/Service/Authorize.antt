-- ===== src/Service/Authorize.antt =====
-- The authorization service: `record_purpose_violation` and `authorize` of
-- remembrance-consent/app/consent/kernel.py, around its pure `decide`.
use the_st.Prelude.{
  ℕ, Bool, true, false, ◌++◌, List, [], ◌∷◌, map, Option, none, some, Text, codes, if◌then◌else◌,
  is_some, take, frozenset,
}
use the_st.Format.{uuid_text, datetime_text}
use the_st.Json.{Value}
use the_st.Vocabulary.{
  AuditEventType, ConsentAction, action_value, is_synthesis, DenialReason, reason_value,
}
use the_st.Purpose.{Unicode, normalize_purpose, is_banned_purpose}
use the_st.Kernel.{Actor, ActorKind, Decision, decide}
use the_st.Store.{AuthorizationToken, Db, find_profile, load_profile_facts}
use the_st.Token.{Issuer, IssuedToken, issue}
use the_st.Service.{Result, ok, ◌>>=◌, payload, sorted_texts, audit}
use the_st.Service.Grants.{texts}

-- `MAX_AUDITED_PURPOSE_LENGTH`.
abbrev max_audited_purpose_length : ℕ
max_audited_purpose_length = 64

-- `UNATTRIBUTED_PROFILE_ID`.
abbrev pub unattributed_profile_id : ℕ
unattributed_profile_id = 0

unfoldable pub audited_purpose : Unicode → Text → Text
audited_purpose u code = take max_audited_purpose_length (normalize_purpose u code)

unfoldable pub kind_value : ActorKind → Text
kind_value ActorKind.human = codes "HUMAN"
kind_value ActorKind.service = codes "SERVICE"

-- `AuthorizationResult`.
pub record AuthorizationResult : Type 0 where
  pub allowed : Bool
  pub action : ConsentAction
  pub profile_id : ℕ
  pub purpose_code : Text
  pub reason : Option DenialReason
  pub consent_grant_id : Option ℕ
  pub issued : Option IssuedToken
  pub actor_related : Bool

-- What a call of `authorize` commits and gives: `PurposeViolationError`, or a result.
pub data Outcome : Type 0 where
  violation : Text → Db → Outcome
  answered : AuthorizationResult → Db → Outcome

abbrev pub add_token : Option (IssuedToken × AuthorizationToken) → Db → Db
add_token none db = db
add_token (some (t, row)) db = record db { tokens = row ∷ db.tokens }

abbrev pub token_of : Option (IssuedToken × AuthorizationToken) → Option IssuedToken
token_of none = none
token_of (some (t, row)) = some t

module _ (sha256 : Text → Text) (u : Unicode) where
  -- `record_purpose_violation`.
  unfoldable pub record_purpose_violation :
      ℕ → Actor → List Text → Option ℕ → Text → Text → Db → Result Db
  record_purpose_violation now actor purpose_codes profile_id detected_by route db =
      let known : Bool = elim profile_id [
        | none ↦ false
        | some id ↦ is_some (find_profile id db)
      ] in
      let chain : ℕ = elim profile_id [
        | none ↦ unattributed_profile_id
        | some id ↦ if known then id else unattributed_profile_id
      ] in
      let requested : List (Text × Value) = elim profile_id [
        | none ↦ []
        | some id ↦
            if known then [] else (codes "requested_profile_id", Value.str (uuid_text id)) ∷ []
      ] in
      audit sha256 now AuditEventType.purpose_violation_attempt actor.user_id chain none
        (payload (
          (
            codes "purpose_codes",
            texts (sorted_texts (frozenset (map (audited_purpose u) purpose_codes))),
          )
          ∷ (codes "detected_by", Value.str detected_by)
          ∷ (codes "route", Value.str route)
          ∷ (codes "actor_kind", Value.str (kind_value actor.kind))
          ∷ requested))
        db

  -- The token of a decision that allows, if it does.
  unfoldable pub issue_for :
      Issuer
      → ℕ
      → Actor
      → ConsentAction
      → ℕ
      → ℕ
      → Decision
      → Option (IssuedToken × AuthorizationToken)
  issue_for issuer jti actor action profile_id now decision =
      if decision.allowed
      then elim (decision.purpose) [
        | none ↦ none
        | some purpose ↦
            let t =
              issue issuer jti actor.user_id action profile_id decision.grant_id purpose now in
            some (
              t,
              record {
                jti = t.jti;
                consent_grant_id = decision.grant_id;
                deceased_profile_id = profile_id;
                action = action;
                purpose = purpose;
                actor_id = actor.user_id;
                issued_at = t.issued_at;
                expires_at = t.expires_at;
                revoked_at = none;
              },
            )
      ]
      else none

  -- The part of the payload that depends on the decision.
  unfoldable pub decision_entries :
      Option (IssuedToken × AuthorizationToken) → Option DenialReason → List (Text × Value)
  decision_entries (some (t, row)) reason =
      (codes "jti", Value.str (uuid_text t.jti))
      ∷ (codes "expires_at", Value.str (datetime_text t.expires_at))
      ∷ []
  decision_entries none none = []
  decision_entries none (some reason) = (codes "reason", Value.str (reason_value reason)) ∷ []

  unfoldable pub decision_event : ConsentAction → Bool → AuditEventType
  decision_event action true =
      if is_synthesis action
      then AuditEventType.synthesis_requested
      else AuditEventType.authorization_granted
  decision_event action false =
      if is_synthesis action
      then AuditEventType.synthesis_blocked
      else AuditEventType.authorization_denied

  -- The unit of work of `authorize` after its decision.
  unfoldable pub conclude :
      Issuer
      → (ℕ → ℕ)
      → ℕ
      → ConsentAction
      → ℕ
      → Actor
      → Text
      → Bool
      → Decision
      → Db
      → Result Outcome
  unfolding issue_for decision_entries decision_event
  conclude issuer clock jti action profile_id actor purpose_code known decision db =
      let issued = issue_for issuer jti actor action profile_id (clock 0) decision in
      let requested =
        if known
        then []
        else (codes "requested_profile_id", Value.str (uuid_text profile_id)) ∷ [] in
      let chain = if known then profile_id else unattributed_profile_id in
      audit sha256 (clock 1) (decision_event action decision.allowed) actor.user_id chain
        decision.grant_id
        (payload (
          (codes "action", Value.str (action_value action))
          ∷ (codes "purpose", Value.str (audited_purpose u purpose_code))
          ∷ (decision_entries issued decision.reason ++ requested)))
        (add_token issued db)
      >>= λ written. ok (
          answered
            (record {
              allowed = decision.allowed;
              action = action;
              profile_id = profile_id;
              purpose_code = audited_purpose u purpose_code;
              reason = decision.reason;
              consent_grant_id = decision.grant_id;
              issued = token_of issued;
              actor_related = decision.actor_related;
            })
            written)

  -- `authorize`.
  unfoldable pub authorize :
      Issuer → (ℕ → ℕ) → ℕ → ConsentAction → ℕ → Actor → Text → Db → Result Outcome
  unfolding record_purpose_violation conclude
  authorize issuer clock jti action profile_id actor purpose_code db =
      if is_banned_purpose u purpose_code
      then (record_purpose_violation (clock 0) actor (purpose_code ∷ []) (some profile_id)
            (codes "kernel") (codes "kernel.authorize") db
          >>= λ written. ok (violation (audited_purpose u purpose_code) written))
      else (let facts = load_profile_facts profile_id db in
          conclude issuer clock jti action profile_id actor purpose_code (is_some facts)
            (decide u action purpose_code actor facts) db)

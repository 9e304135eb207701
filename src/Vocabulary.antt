-- ===== src/Vocabulary.antt =====
-- The closed vocabulary of the consent layer: remembrance-consent/app/consent/constants.py.
use the_st.Prelude.{Bool, true, false, List, [], ◌∷◌, Text, codes}

pub data GrantorType : Type 0 where
  executor administrator beneficiary self_pre_need : GrantorType

-- `g in ESTATE_GRANTOR_TYPES`.
abbrev pub is_estate : GrantorType → Bool
is_estate GrantorType.self_pre_need = false
is_estate _ = true

-- `g is GrantorType.SELF_PRE_NEED`.
abbrev pub is_self_pre_need : GrantorType → Bool
is_self_pre_need GrantorType.self_pre_need = true
is_self_pre_need _ = false

pub data PurposeScope : Type 0 where
  memorial_view voice_synthesis script_generation : PurposeScope

pub data DeclaredPurpose : Type 0 where
  memorial_view voice_synthesis script_generation data_portability erasure : DeclaredPurpose

-- `p.value`.
abbrev pub purpose_value : DeclaredPurpose → Text
purpose_value DeclaredPurpose.memorial_view = codes "MEMORIAL_VIEW"
purpose_value DeclaredPurpose.voice_synthesis = codes "VOICE_SYNTHESIS"
purpose_value DeclaredPurpose.script_generation = codes "SCRIPT_GENERATION"
purpose_value DeclaredPurpose.data_portability = codes "DATA_PORTABILITY"
purpose_value DeclaredPurpose.erasure = codes "ERASURE"

abbrev pub purpose_eq : DeclaredPurpose → DeclaredPurpose → Bool
purpose_eq DeclaredPurpose.memorial_view DeclaredPurpose.memorial_view = true
purpose_eq DeclaredPurpose.voice_synthesis DeclaredPurpose.voice_synthesis = true
purpose_eq DeclaredPurpose.script_generation DeclaredPurpose.script_generation = true
purpose_eq DeclaredPurpose.data_portability DeclaredPurpose.data_portability = true
purpose_eq DeclaredPurpose.erasure DeclaredPurpose.erasure = true
purpose_eq _ _ = false

abbrev pub scope_eq : PurposeScope → PurposeScope → Bool
scope_eq PurposeScope.memorial_view PurposeScope.memorial_view = true
scope_eq PurposeScope.voice_synthesis PurposeScope.voice_synthesis = true
scope_eq PurposeScope.script_generation PurposeScope.script_generation = true
scope_eq _ _ = false

pub data BannedPurpose : Type 0 where
  financial property_claim legal_representation commercial_impersonation : BannedPurpose

abbrev pub banned_value : BannedPurpose → Text
banned_value BannedPurpose.financial = codes "FINANCIAL"
banned_value BannedPurpose.property_claim = codes "PROPERTY_CLAIM"
banned_value BannedPurpose.legal_representation = codes "LEGAL_REPRESENTATION"
banned_value BannedPurpose.commercial_impersonation = codes "COMMERCIAL_IMPERSONATION"

-- `BANNED_PURPOSES`, in the order of `sorted`.
abbrev pub banned_purposes : List Text
banned_purposes =
    codes "COMMERCIAL_IMPERSONATION"
    ∷ codes "FINANCIAL"
    ∷ codes "LEGAL_REPRESENTATION"
    ∷ codes "PROPERTY_CLAIM"
    ∷ []

pub data ConsentAction : Type 0 where
  view_memorial initiate_voice_synthesis generate_script : ConsentAction
  deliver_message export_data delete_voice_model : ConsentAction

abbrev pub action_value : ConsentAction → Text
action_value ConsentAction.view_memorial = codes "VIEW_MEMORIAL"
action_value ConsentAction.initiate_voice_synthesis = codes "INITIATE_VOICE_SYNTHESIS"
action_value ConsentAction.generate_script = codes "GENERATE_SCRIPT"
action_value ConsentAction.deliver_message = codes "DELIVER_MESSAGE"
action_value ConsentAction.export_data = codes "EXPORT_DATA"
action_value ConsentAction.delete_voice_model = codes "DELETE_VOICE_MODEL"

abbrev pub action_eq : ConsentAction → ConsentAction → Bool
action_eq ConsentAction.view_memorial ConsentAction.view_memorial = true
action_eq ConsentAction.initiate_voice_synthesis ConsentAction.initiate_voice_synthesis = true
action_eq ConsentAction.generate_script ConsentAction.generate_script = true
action_eq ConsentAction.deliver_message ConsentAction.deliver_message = true
action_eq ConsentAction.export_data ConsentAction.export_data = true
action_eq ConsentAction.delete_voice_model ConsentAction.delete_voice_model = true
action_eq _ _ = false

-- `ACTION_PURPOSE[action]`.
unfoldable pub action_purpose : ConsentAction → DeclaredPurpose
action_purpose ConsentAction.view_memorial = DeclaredPurpose.memorial_view
action_purpose ConsentAction.initiate_voice_synthesis = DeclaredPurpose.voice_synthesis
action_purpose ConsentAction.generate_script = DeclaredPurpose.script_generation
action_purpose ConsentAction.deliver_message = DeclaredPurpose.voice_synthesis
action_purpose ConsentAction.export_data = DeclaredPurpose.data_portability
action_purpose ConsentAction.delete_voice_model = DeclaredPurpose.erasure

-- `action in USE_ACTIONS`.
unfoldable pub is_use : ConsentAction → Bool
is_use ConsentAction.view_memorial = true
is_use ConsentAction.initiate_voice_synthesis = true
is_use ConsentAction.generate_script = true
is_use ConsentAction.deliver_message = true
is_use ConsentAction.export_data = false
is_use ConsentAction.delete_voice_model = false

-- `action in SYNTHESIS_ACTIONS`: the use actions without VIEW_MEMORIAL.
unfoldable pub is_synthesis : ConsentAction → Bool
unfolding is_use
is_synthesis ConsentAction.view_memorial = false
is_synthesis action = is_use action

pub data AuditEventType : Type 0 where
  consent_created consent_revoked authority_verified synthesis_requested : AuditEventType
  synthesis_blocked model_deleted data_exported purpose_violation_attempt : AuditEventType
  profile_created death_recorded beneficiary_acknowledged : AuditEventType
  successor_designated authorization_granted authorization_denied : AuditEventType
  delivery_cancelled revocation_cascade_completed : AuditEventType

abbrev pub event_value : AuditEventType → Text
event_value AuditEventType.consent_created = codes "CONSENT_CREATED"
event_value AuditEventType.consent_revoked = codes "CONSENT_REVOKED"
event_value AuditEventType.authority_verified = codes "AUTHORITY_VERIFIED"
event_value AuditEventType.synthesis_requested = codes "SYNTHESIS_REQUESTED"
event_value AuditEventType.synthesis_blocked = codes "SYNTHESIS_BLOCKED"
event_value AuditEventType.model_deleted = codes "MODEL_DELETED"
event_value AuditEventType.data_exported = codes "DATA_EXPORTED"
event_value AuditEventType.purpose_violation_attempt = codes "PURPOSE_VIOLATION_ATTEMPT"
event_value AuditEventType.profile_created = codes "PROFILE_CREATED"
event_value AuditEventType.death_recorded = codes "DEATH_RECORDED"
event_value AuditEventType.beneficiary_acknowledged = codes "BENEFICIARY_ACKNOWLEDGED"
event_value AuditEventType.successor_designated = codes "SUCCESSOR_DESIGNATED"
event_value AuditEventType.authorization_granted = codes "AUTHORIZATION_GRANTED"
event_value AuditEventType.authorization_denied = codes "AUTHORIZATION_DENIED"
event_value AuditEventType.delivery_cancelled = codes "DELIVERY_CANCELLED"
event_value AuditEventType.revocation_cascade_completed = codes "REVOCATION_CASCADE_COMPLETED"

pub data RevocationStatus : Type 0 where
  pending processing complete : RevocationStatus

abbrev pub is_complete : RevocationStatus → Bool
is_complete RevocationStatus.complete = true
is_complete _ = false

pub data Role : Type 0 where
  owner beneficiary successor admin public : Role

pub data DenialReason : Type 0 where
  purpose_violation unknown_purpose purpose_action_mismatch profile_not_found : DenialReason
  non_human_actor deceased_cannot_act subject_not_deceased no_grant : DenialReason
  role_not_permitted grant_revoked grant_inactive authority_not_verified : DenialReason
  purpose_not_in_scope acknowledgment_quorum_not_met : DenialReason

abbrev pub reason_value : DenialReason → Text
reason_value DenialReason.purpose_violation = codes "PURPOSE_VIOLATION"
reason_value DenialReason.unknown_purpose = codes "UNKNOWN_PURPOSE"
reason_value DenialReason.purpose_action_mismatch = codes "PURPOSE_ACTION_MISMATCH"
reason_value DenialReason.profile_not_found = codes "PROFILE_NOT_FOUND"
reason_value DenialReason.non_human_actor = codes "NON_HUMAN_ACTOR"
reason_value DenialReason.deceased_cannot_act = codes "DECEASED_CANNOT_ACT"
reason_value DenialReason.subject_not_deceased = codes "SUBJECT_NOT_DECEASED"
reason_value DenialReason.no_grant = codes "NO_GRANT"
reason_value DenialReason.role_not_permitted = codes "ROLE_NOT_PERMITTED"
reason_value DenialReason.grant_revoked = codes "GRANT_REVOKED"
reason_value DenialReason.grant_inactive = codes "GRANT_INACTIVE"
reason_value DenialReason.authority_not_verified = codes "AUTHORITY_NOT_VERIFIED"
reason_value DenialReason.purpose_not_in_scope = codes "PURPOSE_NOT_IN_SCOPE"
reason_value DenialReason.acknowledgment_quorum_not_met = codes "ACKNOWLEDGMENT_QUORUM_NOT_MET"

-- `reason in PUBLIC_DENIAL_REASONS`.
unfoldable pub is_public_reason : DenialReason → Bool
is_public_reason DenialReason.purpose_violation = true
is_public_reason DenialReason.unknown_purpose = true
is_public_reason DenialReason.purpose_action_mismatch = true
is_public_reason DenialReason.non_human_actor = true
is_public_reason _ = false

abbrev pub generic_public_denial : Text
generic_public_denial = codes "NOT_AUTHORIZED"

-- ===== src/Kernel.antt =====
-- The decision of the consent kernel: remembrance-consent/app/consent/kernel.py, from the facts of
-- a profile to `decide`, and what of the reason a caller may see. Dates are day numbers.
pub mod Quorums
pub mod Grants
pub mod Permission
pub mod Reasons
pub mod Revoked
use the_st.Prelude.{
  ℕ, ◌≡◌, Bool, true, false, not, ◌&&◌, ◌||◌, List, [], ◌∷◌, Option, none, some, Text, leb, ltb,
  if◌then◌else◌, is_none, is_some, text_eq, mem_text, keep, any, length,
}
use the_st.Vocabulary.{
  GrantorType, is_self_pre_need, PurposeScope, scope_eq, DeclaredPurpose, purpose_eq, ConsentAction,
  action_eq, action_purpose, is_use, Role, DenialReason, reason_value, is_public_reason,
  generic_public_denial,
}
use the_st.Purpose.{Unicode, parse_declared_purpose}

pub data ActorKind : Type 0 where
  human service : ActorKind

abbrev pub is_human : ActorKind → Bool
is_human ActorKind.human = true
is_human ActorKind.service = false

-- `Actor` of remembrance-consent/app/auth.py.
pub record Actor : Type 0 where
  pub user_id : Text
  pub email : Option Text
  pub kind : ActorKind
  pub is_admin : Bool

pub record Quorum : Type 0 where
  pub required : ℕ
  pub acknowledged : ℕ

-- `Quorum.satisfied`.
unfoldable pub satisfied : Quorum → Bool
satisfied q = leb q.required q.acknowledged

-- `quorum`; the sets are lists without repetition.
unfoldable pub quorum : List Text → List Text → Option ℕ → Quorum
quorum named acknowledged required = record {
  required = elim required [ none ↦ length named | some n ↦ n ];
  acknowledged = length (keep (λ e. mem_text e acknowledged) named);
}

pub record GrantFacts : Type 0 where
  pub id : ℕ
  pub grantor_type : GrantorType
  pub grantor_user_id : Text
  pub purpose_scope : List PurposeScope
  pub is_active : Bool
  pub revoked : Bool
  pub verified : Bool
  pub named_emails : List Text
  pub acknowledged_emails : List Text
  pub required_acknowledgments : Option ℕ

abbrev pub grant_quorum : GrantFacts → Quorum
grant_quorum g = quorum g.named_emails g.acknowledged_emails g.required_acknowledgments

pub record ProfileFacts : Type 0 where
  pub id : ℕ
  pub date_of_death : Option ℕ
  pub successor_user_ids : List Text
  pub grants : List GrantFacts

pub record Decision : Type 0 where
  pub allowed : Bool
  pub reason : Option DenialReason
  pub grant_id : Option ℕ
  pub purpose : Option DeclaredPurpose
  pub actor_related : Bool

-- `actor.email is not None and actor.email in grant.named_emails`.
unfoldable pub is_named : Actor → GrantFacts → Bool
is_named actor g = elim (actor.email) [ none ↦ false | some e ↦ mem_text e g.named_emails ]

unfoldable pub is_grantor : Actor → GrantFacts → Bool
is_grantor actor g = text_eq actor.user_id g.grantor_user_id

unfoldable pub is_successor : Actor → ProfileFacts → Bool
is_successor actor facts = mem_text actor.user_id facts.successor_user_ids

-- `(grant,) if grant else facts.grants`.
abbrev pub candidates : ProfileFacts → Option GrantFacts → List GrantFacts
candidates facts none = facts.grants
candidates facts (some g) = g ∷ []

-- `roles_for`: the set of roles, as its membership test.
unfoldable pub roles_for : Actor → ProfileFacts → Option GrantFacts → Role → Bool
unfolding is_named is_grantor is_successor
roles_for actor facts grant Role.public = true
roles_for actor facts grant Role.admin = actor.is_admin
roles_for actor facts grant Role.successor = is_successor actor facts
roles_for actor facts grant Role.owner = any (is_grantor actor) (candidates facts grant)
roles_for actor facts grant Role.beneficiary = any (is_named actor) (candidates facts grant)

-- `roles_for(actor, facts) != {Role.PUBLIC}`.
unfoldable pub is_related : Actor → ProfileFacts → Bool
unfolding roles_for
is_related actor facts =
    any (roles_for actor facts none)
      (Role.owner ∷ Role.beneficiary ∷ Role.successor ∷ Role.admin ∷ [])

unfoldable pub is_deceased_actor : Actor → ProfileFacts → Bool
is_deceased_actor actor facts =
    is_some facts.date_of_death
    && any (λ g. is_self_pre_need g.grantor_type && text_eq g.grantor_user_id actor.user_id)
        facts.grants

unfoldable pub may_use : ConsentAction → Actor → GrantFacts → ProfileFacts → Bool
unfolding is_grantor is_successor
may_use action actor grant facts =
    if action_eq action ConsentAction.view_memorial
    then true
    else if is_self_pre_need grant.grantor_type
    then is_successor actor facts
    else is_grantor actor grant

-- `_GRANT_STAGES.index(reason)`, for the reasons that `_grant_failure` returns.
unfoldable pub grant_stage : DenialReason → ℕ
grant_stage DenialReason.role_not_permitted = 0
grant_stage DenialReason.grant_revoked = 1
grant_stage DenialReason.grant_inactive = 2
grant_stage DenialReason.authority_not_verified = 3
grant_stage DenialReason.purpose_not_in_scope = 4
grant_stage DenialReason.acknowledgment_quorum_not_met = 5
grant_stage _ = 0

-- `PurposeScope(purpose.value)`; `none` is its `ValueError`, which no use action meets.
unfoldable pub scope_of : DeclaredPurpose → Option PurposeScope
scope_of DeclaredPurpose.memorial_view = some PurposeScope.memorial_view
scope_of DeclaredPurpose.voice_synthesis = some PurposeScope.voice_synthesis
scope_of DeclaredPurpose.script_generation = some PurposeScope.script_generation
scope_of DeclaredPurpose.data_portability = none
scope_of DeclaredPurpose.erasure = none

unfoldable pub in_scope : DeclaredPurpose → GrantFacts → Bool
in_scope purpose grant = elim (scope_of purpose) [
  | none ↦ false
  | some s ↦ any (scope_eq s) grant.purpose_scope
]

-- `_grant_failure`.
unfoldable pub grant_failure :
    ConsentAction → DeclaredPurpose → Actor → ProfileFacts → GrantFacts → Option DenialReason
grant_failure action purpose actor facts grant =
    if not (may_use action actor grant facts)
    then some DenialReason.role_not_permitted
    else if grant.revoked
    then some DenialReason.grant_revoked
    else if not grant.is_active
    then some DenialReason.grant_inactive
    else if not grant.verified
    then some DenialReason.authority_not_verified
    else if not (in_scope purpose grant)
    then some DenialReason.purpose_not_in_scope
    else if not (satisfied (grant_quorum grant))
    then some DenialReason.acknowledgment_quorum_not_met
    else none

abbrev pub refuse : Option DenialReason → Option DeclaredPurpose → Bool → Decision
refuse reason purpose related = record {
  allowed = false;
  reason = reason;
  grant_id = none;
  purpose = purpose;
  actor_related = related;
}

abbrev pub permit : Option ℕ → DeclaredPurpose → Bool → Decision
permit grant_id purpose related = record {
  allowed = true;
  reason = none;
  grant_id = grant_id;
  purpose = some purpose;
  actor_related = related;
}

-- `best` after a grant has failed.
unfoldable pub furthest : Option DenialReason → DenialReason → DenialReason
unfolding grant_stage
furthest none failure = failure
furthest (some best) failure =
    if ltb (grant_stage best) (grant_stage failure) then failure else best

-- The loop over the grants of a use action.
unfoldable pub scan_grants :
    ConsentAction
    → DeclaredPurpose
    → Actor
    → ProfileFacts
    → Option DenialReason
    → List GrantFacts
    → Decision
scan_grants action purpose actor facts best [] = refuse best (some purpose) (is_related actor facts)
scan_grants action purpose actor facts best (grant ∷ rest) =
    elim (grant_failure action purpose actor facts grant) [
      | none ↦ permit (some grant.id) purpose (is_related actor facts)
      | some failure ↦ scan_grants action purpose actor facts (some (furthest best failure)) rest
    ]

-- The loop over the grants of a rights action.
unfoldable pub scan_rights : DeclaredPurpose → Actor → ProfileFacts → List GrantFacts → Decision
scan_rights purpose actor facts [] =
    refuse (some DenialReason.role_not_permitted) (some purpose) (is_related actor facts)
scan_rights purpose actor facts (grant ∷ rest) =
    let later = scan_rights purpose actor facts rest in
    if grant.verified && text_eq grant.grantor_user_id actor.user_id
    then permit (some grant.id) purpose true
    else later

unfoldable pub decide_rights : DeclaredPurpose → Actor → ProfileFacts → Decision
decide_rights purpose actor facts =
    if actor.is_admin || is_successor actor facts
    then permit none purpose true
    else scan_rights purpose actor facts facts.grants

unfoldable pub decide_use : ConsentAction → DeclaredPurpose → Actor → ProfileFacts → Decision
decide_use action purpose actor facts =
    if is_none facts.date_of_death
    then refuse (some DenialReason.subject_not_deceased) (some purpose) (is_related actor facts)
    else elim (facts.grants) [
      | [] ↦ refuse (some DenialReason.no_grant) (some purpose) (is_related actor facts)
      | _ ↦ scan_grants action purpose actor facts none facts.grants
    ]

-- The part of `decide` after the profile has been found.
unfoldable pub decide_known : ConsentAction → DeclaredPurpose → Actor → ProfileFacts → Decision
decide_known action purpose actor facts =
    if not (is_human actor.kind)
    then refuse (some DenialReason.non_human_actor) (some purpose) (is_related actor facts)
    else if is_deceased_actor actor facts
    then refuse (some DenialReason.deceased_cannot_act) (some purpose) (is_related actor facts)
    else if not (is_use action)
    then decide_rights purpose actor facts
    else decide_use action purpose actor facts

unfoldable pub decide_parsed :
    ConsentAction → Option DeclaredPurpose → Actor → Option ProfileFacts → Decision
decide_parsed action none actor facts = refuse (some DenialReason.unknown_purpose) none false
decide_parsed action (some purpose) actor facts =
    if not (purpose_eq (action_purpose action) purpose)
    then refuse (some DenialReason.purpose_action_mismatch) (some purpose) false
    else elim facts [
      | none ↦ refuse (some DenialReason.profile_not_found) (some purpose) false
      | some known ↦ decide_known action purpose actor known
    ]

unfoldable pub decide : Unicode → ConsentAction → Text → Actor → Option ProfileFacts → Decision
decide u action purpose_code actor facts =
    decide_parsed action (parse_declared_purpose u purpose_code) actor facts

-- `AuthorizationResult.disclosed_reason`.
unfoldable pub disclosed_reason : Option DenialReason → Bool → Option Text
disclosed_reason none actor_related = none
disclosed_reason (some reason) actor_related =
    if actor_related || is_public_reason reason
    then some (reason_value reason)
    else some generic_public_denial

-- ===== src/Service/Grants.antt =====
-- The endpoints that create, verify and acknowledge a grant: remembrance-consent/app/consent/router.py,
-- with the request checks of schemas.py and the statement of acknowledgments.py.
use the_st.Prelude.{
  ℕ, suc, ◌/◌, Bool, true, false, not, ◌&&◌, List, [], ◌∷◌, map, Option, none, some, Text, codes,
  ltb, leb, is_none, is_some, any, length, text_eq,
}
use the_st.Json.{pos, Value, Items}
use the_st.Vocabulary.{
  GrantorType, is_estate, is_self_pre_need, PurposeScope, scope_eq, AuditEventType,
}
use the_st.Kernel.{Actor, ProfileFacts, is_deceased_actor}
use the_st.Store.{Profile, Beneficiary, Grant, Db, find_profile, load_profile_facts}
use the_st.Service.{
  Failure, Result, ok, fail, ◌>>=◌, ◌>>◌, raise_if, or_fail, payload, sorted_texts, audit,
  require_human,
}

pub record ProfileIn : Type 0 where
  pub full_name : Text
  pub date_of_birth : Option ℕ
  pub date_of_death : Option ℕ
  pub jurisdiction_state : Text

pub record BeneficiaryIn : Type 0 where
  pub name : Text
  pub email : Text

pub record GrantCreate : Type 0 where
  pub deceased_profile_id : Option ℕ
  pub deceased_profile : Option ProfileIn
  pub grantor_type : GrantorType
  pub grantor_legal_name : Text
  pub grantor_contact_email : Text
  pub legal_authority_document_url : Text
  pub purpose_scope : List PurposeScope
  pub beneficiaries : List BeneficiaryIn
  pub required_acknowledgments : Option ℕ

-- `len(set(xs)) == len(xs)`: no element comes again later.
unfoldable pub distinct : {A : Type 0} → (A → A → Bool) → List A → Bool
distinct eq [] = true
distinct eq (x ∷ xs) = not (any (eq x) xs) && distinct eq xs

-- `(a is None) == (b is None)` is false.
abbrev exactly_one : {A B : Type 0} → Option A → Option B → Bool
exactly_one none none = false
exactly_one none (some b) = true
exactly_one (some a) none = true
exactly_one (some a) (some b) = false

-- `first and second and first > second`, of dates.
unfoldable pub later_than : Option ℕ → Option ℕ → Bool
later_than none second = false
later_than (some a) none = false
later_than (some a) (some b) = ltb b a

-- `GrantCreate._consistent`, and `ProfileIn._dates_ordered` of its profile.
unfoldable pub is_consistent : GrantCreate → Bool
unfolding distinct later_than
is_consistent body =
    exactly_one body.deceased_profile_id body.deceased_profile
    && distinct scope_eq body.purpose_scope
    && distinct text_eq (map (λ b. b.email) body.beneficiaries)
    && elim (body.required_acknowledgments) [
      | none ↦ true
      | some n ↦ leb n (length body.beneficiaries)
    ]
    && elim (body.deceased_profile) [
      | none ↦ true
      | some p ↦ not (later_than p.date_of_birth p.date_of_death)
    ]

-- `now.date()`.
abbrev pub date_of : ℕ → ℕ
date_of moment = moment / 86400000000

-- The profile of the new grant, and whether it is new as well.
unfoldable pub target_profile : ℕ → ℕ → GrantCreate → Db → Result (Profile × Bool)
unfolding later_than
target_profile now new_id body db = elim (body.deceased_profile) [
  | some p ↦
      raise_if (later_than p.date_of_death (some (date_of now))) Failure.date_of_death_in_future
      >> ok (
        record {
          id = new_id;
          full_name = p.full_name;
          date_of_birth = p.date_of_birth;
          date_of_death = p.date_of_death;
          jurisdiction_state = p.jurisdiction_state;
          created_at = now;
        },
        true,
      )
  | none ↦ elim (body.deceased_profile_id) [
    | none ↦ fail Failure.not_found
    | some id ↦ or_fail (find_profile id db) Failure.not_found >>= λ p. ok (p, false)
  ]
]

-- Pre-need consent of another account.
unfoldable pub has_other_subject : Actor → ProfileFacts → Bool
has_other_subject actor facts =
    any (λ g. is_self_pre_need g.grantor_type && not (text_eq g.grantor_user_id actor.user_id))
      facts.grants

-- The new profile is added; an old one must admit the actor.
unfoldable pub admit_profile : GrantorType → Actor → Profile → Bool → Db → Result Db
unfolding has_other_subject
admit_profile grantor_type actor profile true db =
    ok (record db { profiles = profile ∷ db.profiles })
admit_profile grantor_type actor profile false db = do
  facts ← or_fail (load_profile_facts profile.id db) Failure.not_found
  raise_if (is_deceased_actor actor facts) Failure.deceased_cannot_act
  raise_if (is_self_pre_need grantor_type && has_other_subject actor facts)
      Failure.pre_need_subject_conflict
  ok db

unfoldable pub beneficiary_rows : (ℕ → ℕ) → ℕ → List BeneficiaryIn → List Beneficiary
beneficiary_rows fresh n [] = []
beneficiary_rows fresh n (b ∷ bs) =
    record { id = fresh n; beneficiary_name = b.name; beneficiary_email = b.email }
    ∷ beneficiary_rows fresh (suc n) bs

-- The row of the new grant, with the rows of its beneficiaries.
unfoldable pub new_grant : (ℕ → ℕ) → ℕ → Actor → GrantCreate → Profile → Grant
unfolding beneficiary_rows
new_grant fresh now actor body profile = record {
  id = fresh 1;
  deceased_profile_id = profile.id;
  grantor_type = body.grantor_type;
  grantor_user_id = actor.user_id;
  grantor_legal_name = body.grantor_legal_name;
  grantor_contact_email = body.grantor_contact_email;
  legal_authority_document_url = body.legal_authority_document_url;
  authority_verified_at = none;
  authority_verified_by = none;
  purpose_scope = body.purpose_scope;
  required_acknowledgments = body.required_acknowledgments;
  is_active = true;
  granted_at = now;
  revoked_at = none;
  revocation_reason = none;
  beneficiaries = beneficiary_rows fresh 2 body.beneficiaries;
  acknowledgments = [];
}

unfoldable pub scope_value : PurposeScope → Text
scope_value PurposeScope.memorial_view = codes "MEMORIAL_VIEW"
scope_value PurposeScope.voice_synthesis = codes "VOICE_SYNTHESIS"
scope_value PurposeScope.script_generation = codes "SCRIPT_GENERATION"

unfoldable pub grantor_value : GrantorType → Text
grantor_value GrantorType.executor = codes "EXECUTOR"
grantor_value GrantorType.administrator = codes "ADMINISTRATOR"
grantor_value GrantorType.beneficiary = codes "BENEFICIARY"
grantor_value GrantorType.self_pre_need = codes "SELF_PRE_NEED"

abbrev text_items : List Text → Items
text_items [] = Items.nil
text_items (t ∷ ts) = Items.item (Value.str t) (text_items ts)

abbrev pub texts : List Text → Value
texts ts = Value.list (text_items ts)

abbrev int_or_null : Option ℕ → Value
int_or_null none = Value.null
int_or_null (some n) = Value.int (pos n)

module _ (sha256 : Text → Text) where
  -- The event of a new profile.
  unfoldable pub audit_profile : ℕ → Actor → Profile → Bool → Db → Result Db
  audit_profile now actor profile false db = ok db
  audit_profile now actor profile true db =
      audit sha256 now AuditEventType.profile_created actor.user_id profile.id none
        (payload (
          (codes "jurisdiction_state", Value.str profile.jurisdiction_state)
          ∷ (codes "death_recorded", Value.bool (is_some profile.date_of_death))
          ∷ []))
        db

  -- `create_grant`.
  unfoldable pub create_grant : (ℕ → ℕ) → (ℕ → ℕ) → GrantCreate → Actor → Db → Result (Grant × Db)
  unfolding target_profile admit_profile new_grant audit_profile
  create_grant clock fresh body actor db = do
    require_human actor
    (profile, profile_created) ← target_profile (clock 0) (fresh 0) body db
    raise_if (is_self_pre_need body.grantor_type && is_some profile.date_of_death)
        Failure.pre_need_after_death
    raise_if (is_estate body.grantor_type && is_none profile.date_of_death)
        Failure.estate_before_death
    admitted ← admit_profile body.grantor_type actor profile profile_created db
    let grant = new_grant fresh (clock 0) actor body profile
    noted ←
        audit_profile (clock 1) actor profile profile_created
          (record admitted { grants = grant ∷ admitted.grants })
    written ←
        audit sha256 (clock 2) AuditEventType.consent_created actor.user_id profile.id
          (some grant.id)
          (payload (
            (codes "grantor_type", Value.str (grantor_value body.grantor_type))
            ∷ (codes "purpose_scope", texts (sorted_texts (map scope_value body.purpose_scope)))
            ∷ (codes "beneficiary_count", Value.int (pos (length body.beneficiaries)))
            ∷ (codes "required_acknowledgments", int_or_null body.required_acknowledgments)
            ∷ (
              codes "legal_authority_document_url_sha256",
              Value.str (sha256 body.legal_authority_document_url),
            )
            ∷ []))
          noted
    ok (grant, written)

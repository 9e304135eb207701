-- ===== src/Store.antt =====
-- The tables of the consent service (remembrance-consent/app/consent/models.py, successors/models.py
-- and downstream/models.py), and the facts that `load_profile_facts` of kernel.py reads from them.
-- UUIDs and dates are numbers, a `datetime` its microseconds. The rows of `grant_beneficiary` and
-- `beneficiary_acknowledgment` stand with the grant that they belong to. A unit of work is a
-- function from the tables to a result that holds the new ones: an error has none, as a rollback.
use the_st.Prelude.{
  ℕ, Bool, ◌&&◌, ◌||◌, List, [], ◌∷◌, map, Option, none, some, Text, ltb, ◌==◌, if◌then◌else◌,
  is_some, keep, find, frozenset, All, Bool-cases, inl, inr, arith, ◌≡◌,
}
use the_st.Vocabulary.{GrantorType, PurposeScope, ConsentAction, DeclaredPurpose, RevocationStatus}
use the_st.Audit.{EventRecord}
use the_st.Kernel.{GrantFacts, ProfileFacts}

pub record Profile : Type 0 where
  pub id : ℕ
  pub full_name : Text
  pub date_of_birth : Option ℕ
  pub date_of_death : Option ℕ
  pub jurisdiction_state : Text
  pub created_at : ℕ

pub record Beneficiary : Type 0 where
  pub id : ℕ
  pub beneficiary_name : Text
  pub beneficiary_email : Text

pub record Acknowledgment : Type 0 where
  pub id : ℕ
  pub beneficiary_name : Text
  pub beneficiary_email : Text
  pub signature_hash : Text
  pub acknowledged_at : ℕ

pub record Grant : Type 0 where
  pub id : ℕ
  pub deceased_profile_id : ℕ
  pub grantor_type : GrantorType
  pub grantor_user_id : Text
  pub grantor_legal_name : Text
  pub grantor_contact_email : Text
  pub legal_authority_document_url : Text
  pub authority_verified_at : Option ℕ
  pub authority_verified_by : Option Text
  pub purpose_scope : List PurposeScope
  pub required_acknowledgments : Option ℕ
  pub is_active : Bool
  pub granted_at : ℕ
  pub revoked_at : Option ℕ
  pub revocation_reason : Option Text
  pub beneficiaries : List Beneficiary
  pub acknowledgments : List Acknowledgment

pub record Successor : Type 0 where
  pub id : ℕ
  pub deceased_profile_id : ℕ
  pub successor_user_id : Text
  pub priority_order : ℕ
  pub designated_at : ℕ
  pub designated_by : Text

pub record AuthorizationToken : Type 0 where
  pub jti : ℕ
  pub consent_grant_id : Option ℕ
  pub deceased_profile_id : ℕ
  pub action : ConsentAction
  pub purpose : DeclaredPurpose
  pub actor_id : Text
  pub issued_at : ℕ
  pub expires_at : ℕ
  pub revoked_at : Option ℕ

pub record RevocationRequest : Type 0 where
  pub id : ℕ
  pub consent_grant_id : ℕ
  pub requested_by : Text
  pub reason : Text
  pub status : RevocationStatus
  pub created_at : ℕ
  pub updated_at : ℕ
  pub attempts : ℕ
  pub last_error : Option Text
  pub cascade_completed_at : Option ℕ

pub data DeliveryStatus : Type 0 where
  scheduled sent cancelled failed : DeliveryStatus

pub record VoiceModel : Type 0 where
  pub id : ℕ
  pub consent_grant_id : ℕ
  pub deceased_profile_id : ℕ
  pub storage_key : Option Text
  pub created_at : ℕ
  pub deleted_at : Option ℕ

pub record AudioArtifact : Type 0 where
  pub id : ℕ
  pub consent_grant_id : ℕ
  pub voice_model_id : Option ℕ
  pub storage_key : Option Text
  pub created_at : ℕ
  pub deleted_at : Option ℕ

pub record ScheduledDelivery : Type 0 where
  pub id : ℕ
  pub consent_grant_id : ℕ
  pub audio_artifact_id : Option ℕ
  pub scheduled_for : ℕ
  pub status : DeliveryStatus
  pub cancelled_at : Option ℕ

pub record Db : Type 0 where
  pub profiles : List Profile
  pub grants : List Grant
  pub successors : List Successor
  pub tokens : List AuthorizationToken
  pub requests : List RevocationRequest
  pub voice_models : List VoiceModel
  pub audio_artifacts : List AudioArtifact
  pub deliveries : List ScheduledDelivery
  -- Newest first.
  pub audit : List EventRecord

-- `session.get(DeceasedProfile, id)`.
unfoldable pub find_profile : ℕ → Db → Option Profile
find_profile id db = find (λ p. p.id == id) db.profiles

unfoldable pub find_grant : ℕ → Db → Option Grant
find_grant id db = find (λ g. g.id == id) db.grants

unfoldable pub find_request : ℕ → Db → Option RevocationRequest
find_request grant_id db = find (λ r. r.consent_grant_id == grant_id) db.requests

-- `GrantFacts.from_row`.
unfoldable pub from_row : Grant → GrantFacts
from_row g = record {
  id = g.id;
  grantor_type = g.grantor_type;
  grantor_user_id = g.grantor_user_id;
  purpose_scope = g.purpose_scope;
  is_active = g.is_active;
  revoked = is_some g.revoked_at;
  verified = is_some g.authority_verified_at;
  named_emails = frozenset (map (λ b. b.beneficiary_email) g.beneficiaries);
  acknowledged_emails = frozenset (map (λ a. a.beneficiary_email) g.acknowledgments);
  required_acknowledgments = g.required_acknowledgments;
}

-- `.order_by(granted_at, id)`.
unfoldable pub comes_before : Grant → Grant → Bool
comes_before g h = ltb g.granted_at h.granted_at || (g.granted_at == h.granted_at && ltb g.id h.id)

unfoldable pub insert_ordered : Grant → List Grant → List Grant
unfolding comes_before
insert_ordered g [] = g ∷ []
insert_ordered g (h ∷ hs) = if comes_before h g then h ∷ insert_ordered g hs else g ∷ h ∷ hs

unfoldable pub ordered : List Grant → List Grant
unfolding insert_ordered
ordered [] = []
ordered (g ∷ gs) = insert_ordered g (ordered gs)

-- `load_profile_facts`.
unfoldable pub load_profile_facts : ℕ → Db → Option ProfileFacts
unfolding find_profile
load_profile_facts id db = elim (find_profile id db) [
  | none ↦ none
  | some p ↦ some (record {
    id = p.id;
    date_of_death = p.date_of_death;
    successor_user_ids =
        frozenset
          (map (λ s. s.successor_user_id) (keep (λ s. s.deceased_profile_id == id) db.successors));
    grants = map from_row (ordered (keep (λ g. g.deceased_profile_id == id) db.grants));
  })
]

-- An assignment to fields of the row that `session.scalars(... id == ...)` has found.
unfoldable pub update_grant : ℕ → (Grant → Grant) → List Grant → List Grant
update_grant id change [] = []
update_grant id change (g ∷ gs) =
    if g.id == id then change g ∷ gs else g ∷ update_grant id change gs

-- What every row keeps that the row found keeps.
pub All-update_grant :
    (P : Grant → Type 0) (id : ℕ) (change : Grant → Grant) (gs : List Grant) (g : Grant)
    → find (λ h. h.id == id) gs ≡ some g
    → P (change g)
    → All P gs
    → All P (update_grant id change gs)
unfolding update_grant
All-update_grant P id change [] g found new all = tt
All-update_grant P id change (h ∷ hs) g found new all = elim (Bool-cases (h.id == id)) [
  | inl e ↦ let same : h ≡ g = ground arith in rw e (rw same new, all.1)
  | inr e ↦ rw e (all.0, All-update_grant P id change hs g (rw e at found) new all.1)
]

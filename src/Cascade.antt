-- ===== src/Cascade.antt =====
-- The revocation cascade: remembrance-consent/app/consent/cascade.py. Each step commits on its own,
-- so an error of a later one leaves what the earlier ones have done: it carries the tables. Deleting
-- a key from the object storage is a parameter, which tells whether it succeeds.
use the_st.Prelude.{
  ℕ, suc, ◌+◌, ◌-◌, Bool, true, false, not, ◌&&◌, ◌||◌, List, [], ◌∷◌, map, Option, none, some,
  Text, codes, ltb, leb, ◌==◌, if◌then◌else◌, is_none, is_some, any, keep, find, length, take,
}
use the_st.Format.{uuid_text}
use the_st.Json.{pos, Value, Entries}
use the_st.Vocabulary.{AuditEventType, RevocationStatus, is_complete}
use the_st.Store.{
  Grant, AuthorizationToken, RevocationRequest, DeliveryStatus, VoiceModel, AudioArtifact,
  ScheduledDelivery, Db, find_grant, find_request,
}
use the_st.Service.{Failure, Result, ok, fail, ◌>>=◌, ◌>>◌, raise_if, or_fail, payload, audit}
use the_st.Service.Revocation.{is_live, revoke_grant_tokens}
pub mod Complete
pub mod Loops
pub mod Run
pub mod Covered
pub mod Emptied
pub mod Ends

abbrev pub cascade_actor : Text
cascade_actor = codes "system:revocation-cascade"

abbrev pub is_scheduled : DeliveryStatus → Bool
is_scheduled DeliveryStatus.scheduled = true
is_scheduled _ = false

-- `column.in_(ids)`, of a column that may be null.
abbrev pub is_in : Option ℕ → List ℕ → Bool
is_in none ids = false
is_in (some x) ids = any (λ id. id == x) ids

-- `_grant_models`.
unfoldable pub grant_models : ℕ → Db → List ℕ
grant_models grant_id db =
    map (λ m. m.id) (keep (λ m. m.consent_grant_id == grant_id) db.voice_models)

-- `_audio_scope`.
unfoldable pub audio_scope : ℕ → Db → AudioArtifact → Bool
unfolding grant_models
audio_scope grant_id db a =
    a.consent_grant_id == grant_id || is_in a.voice_model_id (grant_models grant_id db)

-- `_delivery_scope`.
unfoldable pub delivery_scope : ℕ → Db → ScheduledDelivery → Bool
unfolding audio_scope
delivery_scope grant_id db d =
    d.consent_grant_id == grant_id
    || is_in d.audio_artifact_id
        (map (λ a. a.id) (keep (audio_scope grant_id db) db.audio_artifacts))

abbrev pub open_delivery : ℕ → Db → ScheduledDelivery → Bool
open_delivery grant_id db d = delivery_scope grant_id db d && is_scheduled d.status

abbrev pub open_audio : ℕ → Db → AudioArtifact → Bool
open_audio grant_id db a = audio_scope grant_id db a && is_none a.deleted_at

abbrev pub open_model : ℕ → VoiceModel → Bool
open_model grant_id m = m.consent_grant_id == grant_id && is_none m.deleted_at

-- `_remaining`: tokens, deliveries, audio artifacts and voice models.
pub record Remaining : Type 0 where
  pub tokens : ℕ
  pub deliveries : ℕ
  pub audio_artifacts : ℕ
  pub voice_models : ℕ

unfoldable pub remaining : ℕ → Db → Remaining
remaining grant_id db = record {
  tokens = length (keep (is_live grant_id) db.tokens);
  deliveries = length (keep (open_delivery grant_id db) db.deliveries);
  audio_artifacts = length (keep (open_audio grant_id db) db.audio_artifacts);
  voice_models = length (keep (open_model grant_id) db.voice_models);
}

-- `any(left.values())`.
unfoldable pub any_left : Remaining → Bool
any_left r =
    not (r.tokens == 0 && r.deliveries == 0 && r.audio_artifacts == 0 && r.voice_models == 0)

-- The fields that are assigned on the row of a request.
unfoldable pub update_request :
    ℕ → (RevocationRequest → RevocationRequest) → List RevocationRequest → List RevocationRequest
update_request id change [] = []
update_request id change (r ∷ rs) =
    if r.id == id then change r ∷ rs else r ∷ update_request id change rs

-- The request that `claim` works on: the one there is, or one for a revocation out of band.
unfoldable pub claimed_request : ℕ → ℕ → Grant → Db → RevocationRequest × Db
claimed_request now fresh_id grant db = elim (find_request grant.id db) [
  | some request ↦ (request, db)
  | none ↦
      let request : RevocationRequest = record {
        id = fresh_id;
        consent_grant_id = grant.id;
        requested_by = cascade_actor;
        reason = elim (grant.revocation_reason) [
          | none ↦ codes "revoked"
          | some [] ↦ codes "revoked"
          | some r ↦ r
        ];
        status = RevocationStatus.pending;
        created_at = now;
        updated_at = now;
        attempts = 0;
        last_error = none;
        cascade_completed_at = none;
      } in
      (request, record db { requests = request ∷ db.requests })
]

abbrev processing : ℕ → RevocationRequest → RevocationRequest
processing now r = record r {
  status = RevocationStatus.processing;
  attempts = r.attempts + 1;
  updated_at = now;
  last_error = none;
}

-- The last part of `claim`.
unfoldable pub work_on :
    ℕ → Grant → RevocationRequest → Db → Result (Bool × Grant × RevocationRequest × Db)
unfolding update_request
work_on now grant request db =
    if is_complete request.status
    then ok (false, grant, request, db)
    else ok (
      true,
      grant,
      processing now request,
      record db { requests = update_request request.id (processing now) db.requests },
    )

-- `claim`: whether there is work to do, the grant, and the request.
unfoldable pub claim : ℕ → ℕ → ℕ → Db → Result (Bool × Grant × RevocationRequest × Db)
unfolding claimed_request work_on
claim now fresh_id grant_id db = do
  grant ← or_fail (find_grant grant_id db) Failure.permanent
  raise_if (is_none grant.revoked_at) Failure.permanent
  let (request, held) = claimed_request now fresh_id grant db
  work_on now grant request held

-- `CascadeReport`.
pub record CascadeReport : Type 0 where
  pub consent_grant_id : ℕ
  pub already_complete : Bool
  pub tokens_revoked : ℕ
  pub deliveries_cancelled : ℕ
  pub audio_artifacts_deleted : ℕ
  pub voice_models_deleted : ℕ

abbrev pub completed : ℕ → RevocationRequest → RevocationRequest
completed now r = record r {
  status = RevocationStatus.complete;
  cascade_completed_at = some now;
  updated_at = now;
}

module _ (sha256 : Text → Text) where
  -- `finish`.
  unfoldable pub finish : (ℕ → ℕ) → ℕ → ℕ → ℕ → CascadeReport → Db → Result Db
  unfolding remaining any_left update_request
  finish clock profile_id grant_id request_id report db = do
    raise_if (any_left (remaining grant_id db)) Failure.transient
    request ← or_fail (find (λ r. r.id == request_id) db.requests) Failure.transient
    audit sha256 (clock 1) AuditEventType.revocation_cascade_completed cascade_actor profile_id
        (some grant_id)
        (payload (
          (codes "revocation_request_id", Value.str (uuid_text request.id))
          ∷ (codes "attempts", Value.int (pos request.attempts))
          ∷ (codes "tokens_revoked", Value.int (pos report.tokens_revoked))
          ∷ (codes "deliveries_cancelled", Value.int (pos report.deliveries_cancelled))
          ∷ (codes "audio_artifacts_deleted", Value.int (pos report.audio_artifacts_deleted))
          ∷ (codes "voice_models_deleted", Value.int (pos report.voice_models_deleted))
          ∷ []))
        (record db { requests = update_request request_id (completed (clock 0)) db.requests })

-- `record_failure`.
unfoldable pub record_failure : ℕ → ℕ → Text → Db → Db
record_failure now request_id message db = elim (find (λ r. r.id == request_id) db.requests) [
  | none ↦ db
  | some request ↦ if is_complete request.status then db else record db {
    requests =
        update_request request_id
          (λ r. record r { last_error = some (take 2000 message); updated_at = now }) db.requests;
  }
]

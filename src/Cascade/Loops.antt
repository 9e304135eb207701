-- ===== src/Cascade/Loops.antt =====
-- The loops of remembrance-consent/app/consent/cascade.py: `cancel_deliveries` and `delete_artifacts`.
use the_st.Prelude.{
  ℕ, Bool, true, not, ◌&&◌, List, [], ◌∷◌, map, Option, none, some, Text, codes, ltb, ◌==◌,
  if◌then◌else◌, suc, is_none, keep, find,
}
use the_st.Format.{uuid_text}
use the_st.Json.{Value}
use the_st.Vocabulary.{AuditEventType}
use the_st.Store.{DeliveryStatus, VoiceModel, AudioArtifact, ScheduledDelivery, Db}
use the_st.Service.{Failure, Result, ok, fail, payload, audit}
use the_st.Cascade.{
  cascade_actor, is_scheduled, audio_scope, delivery_scope, open_delivery, open_audio, open_model,
}

-- What a loop has done: how many rows, and the tables; or the error that stopped it, with the tables
-- that the units of work before it have committed.
pub data Progress : Type 0 where
  done : ℕ → Db → Progress
  stopped : Failure → Db → Progress

-- The ids that a loop starts from, in their order.
unfoldable pub insert_id : ℕ → List ℕ → List ℕ
insert_id id [] = id ∷ []
insert_id id (x ∷ xs) = if ltb x id then x ∷ insert_id id xs else id ∷ x ∷ xs

unfoldable pub sorted_ids : List ℕ → List ℕ
unfolding insert_id
sorted_ids [] = []
sorted_ids (id ∷ ids) = insert_id id (sorted_ids ids)

-- One unit of work of a loop: nothing to do, or new tables, or an error.
pub data Work : Type 0 where
  skip : Work
  commit : Db → Work
  raise : Failure → Work

abbrev pub work_of : Result Db → Work
work_of (ok db) = Work.commit db
work_of (fail e) = Work.raise e

-- A loop over ids, each in a unit of work of its own.
unfoldable pub each_id : (ℕ → Db → Work) → List ℕ → ℕ → Db → Progress
each_id work [] count db = Progress.done count db
each_id work (id ∷ ids) count db = elim (work id db) [
  | Work.skip ↦ each_id work ids count db
  | Work.commit db' ↦ each_id work ids (suc count) db'
  | Work.raise e ↦ Progress.stopped e db
]

-- An assignment to the row of a delivery, of an artifact or of a model: `UPDATE ... WHERE id=`.
unfoldable pub update_delivery :
    ℕ → (ScheduledDelivery → ScheduledDelivery) → List ScheduledDelivery → List ScheduledDelivery
update_delivery id change = map (λ d. if d.id == id then change d else d)

unfoldable pub update_audio :
    ℕ → (AudioArtifact → AudioArtifact) → List AudioArtifact → List AudioArtifact
update_audio id change = map (λ a. if a.id == id then change a else a)

unfoldable pub update_model : ℕ → (VoiceModel → VoiceModel) → List VoiceModel → List VoiceModel
update_model id change = map (λ m. if m.id == id then change m else m)

-- `_key_digest(key) if key else None`.
abbrev digest_or_null : (Text → Text) → Option Text → Value
digest_or_null sha256 none = Value.null
digest_or_null sha256 (some []) = Value.null
digest_or_null sha256 (some (c ∷ cs)) = Value.str (sha256 (c ∷ cs))

-- `if key: self.storage.delete(key)`: whether it goes well.
abbrev pub delete_key : (Text → Bool) → Option Text → Bool
delete_key storage none = true
delete_key storage (some []) = true
delete_key storage (some (c ∷ cs)) = storage (c ∷ cs)

module _ (sha256 : Text → Text) where
  -- One round of `cancel_deliveries`; `clock 0` and `clock 1` are its own readings.
  unfoldable pub cancel_delivery : (ℕ → ℕ) → ℕ → ℕ → ℕ → Db → Work
  unfolding update_delivery
  cancel_delivery clock profile_id grant_id id db =
      elim (find (λ d. d.id == id && is_scheduled d.status) db.deliveries) [
        | none ↦ Work.skip
        | some delivery ↦ work_of (
            audit sha256 (clock 1) AuditEventType.delivery_cancelled cascade_actor profile_id
              (some grant_id) (payload ((codes "delivery_id", Value.str (uuid_text id)) ∷ []))
              (record db {
                deliveries =
                    update_delivery id
                      (λ d. record d {
                        status = DeliveryStatus.cancelled;
                        cancelled_at = some (clock 0);
                      })
                      db.deliveries;
              }))
      ]

  -- `cancel_deliveries`; `clocks id` is the clock of the round for `id`.
  unfoldable pub cancel_deliveries : (ℕ → ℕ → ℕ) → ℕ → ℕ → Db → Progress
  unfolding each_id sorted_ids cancel_delivery delivery_scope
  cancel_deliveries clocks profile_id grant_id db =
      each_id (λ id. cancel_delivery (clocks id) profile_id grant_id id)
        (sorted_ids (map (λ d. d.id) (keep (open_delivery grant_id db) db.deliveries))) 0 db

  -- The event of a deletion.
  abbrev audit_deleted : ℕ → ℕ → ℕ → Text → ℕ → Option Text → Db → Result Db
  audit_deleted now profile_id grant_id kind id key db =
      audit sha256 now AuditEventType.model_deleted cascade_actor profile_id (some grant_id)
        (payload (
          (codes "artifact_kind", Value.str kind)
          ∷ (codes "artifact_id", Value.str (uuid_text id))
          ∷ (codes "storage_key_sha256", digest_or_null sha256 key)
          ∷ (codes "reason", Value.str (codes "CONSENT_REVOKED"))
          ∷ []))
        db

  -- One round of `delete_artifacts`, on the artifacts and on the models.
  unfoldable pub delete_audio : (Text → Bool) → (ℕ → ℕ) → ℕ → ℕ → ℕ → Db → Work
  unfolding update_audio
  delete_audio storage clock profile_id grant_id id db =
      elim (find (λ a. a.id == id && is_none a.deleted_at) db.audio_artifacts) [
        | none ↦ Work.skip
        | some a ↦
            if not (delete_key storage a.storage_key)
            then Work.raise Failure.transient
            else work_of (
                audit_deleted (clock 1) profile_id grant_id (codes "AUDIO_ARTIFACT") id
                  a.storage_key
                  (record db {
                    audio_artifacts =
                        update_audio id
                          (λ a. record a { storage_key = none; deleted_at = some (clock 0) })
                          db.audio_artifacts;
                  }))
      ]

  unfoldable pub delete_model : (Text → Bool) → (ℕ → ℕ) → ℕ → ℕ → ℕ → Db → Work
  unfolding update_model
  delete_model storage clock profile_id grant_id id db =
      elim (find (λ m. m.id == id && is_none m.deleted_at) db.voice_models) [
        | none ↦ Work.skip
        | some m ↦
            if not (delete_key storage m.storage_key)
            then Work.raise Failure.transient
            else work_of (
                audit_deleted (clock 1) profile_id grant_id (codes "VOICE_MODEL") id m.storage_key
                  (record db {
                    voice_models =
                        update_model id
                          (λ m. record m { storage_key = none; deleted_at = some (clock 0) })
                          db.voice_models;
                  }))
      ]

  -- `delete_artifacts`, for each of its two models.
  unfoldable pub delete_audio_artifacts : (Text → Bool) → (ℕ → ℕ → ℕ) → ℕ → ℕ → Db → Progress
  unfolding each_id sorted_ids delete_audio audio_scope
  delete_audio_artifacts storage clocks profile_id grant_id db =
      each_id (λ id. delete_audio storage (clocks id) profile_id grant_id id)
        (sorted_ids (map (λ a. a.id) (keep (open_audio grant_id db) db.audio_artifacts))) 0 db

  unfoldable pub delete_voice_models : (Text → Bool) → (ℕ → ℕ → ℕ) → ℕ → ℕ → Db → Progress
  unfolding each_id sorted_ids delete_model
  delete_voice_models storage clocks profile_id grant_id db =
      each_id (λ id. delete_model storage (clocks id) profile_id grant_id id)
        (sorted_ids (map (λ m. m.id) (keep (open_model grant_id) db.voice_models))) 0 db

-- ===== src/Cascade/Emptied.antt =====
-- What each loop of remembrance-consent/app/consent/cascade.py leaves when it is not stopped, and what
-- may stop it.
use the_st.Prelude.{
  ℕ, ◌≡◌, refl, ap, ◌∙◌, ◌⊎◌, inl, inr, Bool, true, false, ◌&&◌, ◌||◌, List, [], ◌∷◌, map, Option,
  none, some, Text, ◌==◌, find, keep, length, is_none, Bool-cases, Option-cases,
}
use the_st.Json.{Entries}
use the_st.Vocabulary.{AuditEventType}
use the_st.Audit.{PayloadError, EventRecord, append_event}
use the_st.Store.{VoiceModel, AudioArtifact, ScheduledDelivery, Db}
use the_st.Service.{Failure, fail, audit}
use the_st.Service.Trail.{audit-ok}
use the_st.Fallible.{Fallible-cases}
use the_st.Cascade.{
  is_in, is_scheduled, grant_models, audio_scope, delivery_scope, open_delivery, open_audio,
  open_model,
}
use the_st.Cascade.Loops.{
  Progress, work_of, delete_key, update_delivery, update_audio, update_model, cancel_delivery,
  cancel_deliveries, delete_audio, delete_model, delete_audio_artifacts, delete_voice_models,
}
use the_st.Cascade.Covered.{
  covered, covered-start, covered-skip, covered-change, covered-none, ids-change, Keeps, EndsWith,
  each_id-EndsWith,
}

-- The audit trail has refused a payload, or the storage a key.
abbrev pub Excused : (Text → Bool) → Failure → Type 0
Excused storage e =
    ((p : PayloadError) × (e ≡ Failure.bad_payload p)) ⊎ ((key : Text) × (storage key ≡ false))

pub audit-Excused :
    (sha256 : Text → Text) (storage : Text → Bool) (now : ℕ) (event_type : AuditEventType)
    (actor_id : Text) (pid : ℕ) (grant_id : Option ℕ) (document : Entries) (db : Db) (e : Failure)
    → audit sha256 now event_type actor_id pid grant_id document db ≡ fail e
    → Excused storage e
unfolding audit
audit-Excused sha256 storage now event_type actor_id pid grant_id document db e h =
    go (append_event sha256 now event_type actor_id pid grant_id document db.audit) refl
  where
    go :
        (r : PayloadError ⊎ List EventRecord)
        → append_event sha256 now event_type actor_id pid grant_id document db.audit ≡ r
        → Excused storage e
    go (inl p) eq = inl (p, let same = rw (eq, audit) at h in cc same)
    go (inr table) eq = absurd (let same = rw (eq, audit) at h in cc same)

pub EndsWith-map :
    (Q Q' : Db → Type 0) (Bad : Failure → Type 0) (p : Progress)
    → ((db : Db) → Q db → Q' db)
    → EndsWith Q Bad p
    → EndsWith Q' Bad p
EndsWith-map Q Q' Bad (Progress.done n db) f h = f db h
EndsWith-map Q Q' Bad (Progress.stopped e db) f h = h

-- Nothing of a table is open.
abbrev pub NoDelivery : ℕ → Db → Type 0
NoDelivery g db = length (keep (open_delivery g db) db.deliveries) ≡ 0

abbrev pub NoAudio : ℕ → Db → Type 0
NoAudio g db = length (keep (open_audio g db) db.audio_artifacts) ≡ 0

abbrev pub NoModel : ℕ → Db → Type 0
NoModel g db = length (keep (open_model g) db.voice_models) ≡ 0

module _ (sha256 : Text → Text) (storage : Text → Bool) where
  audit-Keeps :
      (R : Db → Type 0) (now : ℕ) (event_type : AuditEventType) (actor_id : Text) (pid : ℕ)
      (grant_id : Option ℕ) (document : Entries) (before db : Db)
      → ((table : List EventRecord) → R (record db { audit = table }))
      → Keeps R
          (Excused storage)
          before
          (work_of (audit sha256 now event_type actor_id pid grant_id document db))
  audit-Keeps R now event_type actor_id pid grant_id document before db kept =
      elim (Fallible-cases (audit sha256 now event_type actor_id pid grant_id document db)) [
        | inl (e, eq) ↦
            rw eq
              (audit-Excused sha256 storage now event_type actor_id pid grant_id document db e eq)
        | inr (db', eq) ↦
            let (table, adds, same) =
              audit-ok sha256 now event_type actor_id pid grant_id document db db' eq in
            rw eq (rw same (kept table))
      ]

  delete_key-refused :
      (o : Option Text) → delete_key storage o ≡ false → (key : Text) × (storage key ≡ false)
  delete_key-refused none h = absurd (cc h)
  delete_key-refused (some []) h = absurd (cc h)
  delete_key-refused (some (c ∷ cs)) h = (c ∷ cs, h)

  -- What a loop on one table leaves of the others.
  pub record SameDeliveries (db db' : Db) : Type 0 where
    pub tokens : db'.tokens ≡ db.tokens
    pub requests : db'.requests ≡ db.requests
    pub audio_artifacts : db'.audio_artifacts ≡ db.audio_artifacts
    pub voice_models : db'.voice_models ≡ db.voice_models

  -- The tables during `cancel_deliveries`, with the ids that remain.
  abbrev Cancelling : ℕ → Db → List ℕ → Db → Type 0
  Cancelling g db0 ids db =
      (covered (λ d. d.id) (delivery_scope g db0) (λ d. is_scheduled d.status) ids db.deliveries
        ≡ true)
      × SameDeliveries db0 db

  cancel_delivery-Keeps :
      (clock : ℕ → ℕ) (profile_id g : ℕ) (db0 : Db) (i : ℕ) (ids : List ℕ) (db : Db)
      → Cancelling g db0 (i ∷ ids) db
      → Keeps
          (Cancelling g db0 ids)
          (Excused storage)
          db
          (cancel_delivery sha256 clock profile_id g i db)
  unfolding cancel_delivery update_delivery
  cancel_delivery-Keeps clock profile_id g db0 i ids db (c, same) =
      elim (Option-cases (find (λ d. d.id == i && is_scheduled d.status) db.deliveries)) [
        | inl e ↦
            rw (e, cancel_delivery)
              (
                covered-skip (λ d. d.id) (delivery_scope g db0) (λ d. is_scheduled d.status) i ids
                    db.deliveries e c,
                same,
              )
        | inr (d, e) ↦
            rw (e, cancel_delivery)
              (audit-Keeps (Cancelling g db0 ids) _ _ _ _ _ _ db _ λ table. (
                covered-change (λ d. d.id) (delivery_scope g db0) (λ d. is_scheduled d.status) _ i
                    ids db.deliveries (λ d. refl) c,
                record {
                  tokens = same.tokens;
                  requests = same.requests;
                  audio_artifacts = same.audio_artifacts;
                  voice_models = same.voice_models;
                },
              ))
      ]

  delivery_scope-same :
      (g : ℕ) (db db' : Db)
      → map (λ a. a.id) (keep (audio_scope g db') db'.audio_artifacts)
        ≡ map (λ a. a.id) (keep (audio_scope g db) db.audio_artifacts)
      → delivery_scope g db' ≡ delivery_scope g db
  unfolding delivery_scope
  delivery_scope-same g db db' e =
      ap
        (λ ids. λ (d : ScheduledDelivery). d.consent_grant_id == g || is_in d.audio_artifact_id ids)
        e

  audio_scope-same :
      (g : ℕ) (db db' : Db)
      → grant_models g db' ≡ grant_models g db
      → audio_scope g db' ≡ audio_scope g db
  unfolding audio_scope
  audio_scope-same g db db' e =
      ap (λ ids. λ (a : AudioArtifact). a.consent_grant_id == g || is_in a.voice_model_id ids) e

  delivery_scope-NoDelivery :
      (g : ℕ) (db db' : Db)
      → delivery_scope g db' ≡ delivery_scope g db
      → length (keep (λ d. delivery_scope g db d && is_scheduled d.status) db'.deliveries) ≡ 0
      → NoDelivery g db'
  delivery_scope-NoDelivery g db db' e none_ =
      ap
        (λ s.
          length (keep (λ (d : ScheduledDelivery). s d && is_scheduled d.status) db'.deliveries))
        e
      ∙ none_

  audio_scope-NoAudio :
      (g : ℕ) (db db' : Db)
      → audio_scope g db' ≡ audio_scope g db
      → length (keep (λ a. audio_scope g db a && is_none a.deleted_at) db'.audio_artifacts) ≡ 0
      → NoAudio g db'
  audio_scope-NoAudio g db db' e none_ =
      ap
        (λ s.
          length (keep (λ (a : AudioArtifact). s a && is_none a.deleted_at) db'.audio_artifacts))
        e
      ∙ none_

  SameDeliveries-scope :
      (g : ℕ) (db db' : Db) → SameDeliveries db db' → delivery_scope g db' ≡ delivery_scope g db
  unfolding grant_models
  SameDeliveries-scope g db db' same =
      let models : grant_models g db' ≡ grant_models g db =
        ap (λ ms. map (λ (m : VoiceModel). m.id) (keep (λ m. m.consent_grant_id == g) ms))
          same.voice_models in
      delivery_scope-same g db db' (
        ap (λ s. map (λ (a : AudioArtifact). a.id) (keep s db'.audio_artifacts))
          (audio_scope-same g db db' models)
        ∙ ap (λ xs. map (λ (a : AudioArtifact). a.id) (keep (audio_scope g db) xs))
            same.audio_artifacts)

  pub cancel_deliveries-EndsWith :
      (clocks : ℕ → ℕ → ℕ) (profile_id g : ℕ) (db : Db)
      → EndsWith
          (λ db'. NoDelivery g db' × SameDeliveries db db')
          (Excused storage)
          (cancel_deliveries sha256 clocks profile_id g db)
  unfolding cancel_deliveries
  cancel_deliveries-EndsWith clocks profile_id g db =
      EndsWith-map (Cancelling g db []) _ (Excused storage) _
        (λ db' (c, same). (
          delivery_scope-NoDelivery g db db' (SameDeliveries-scope g db db' same) (
              covered-none (λ d. d.id) (delivery_scope g db) (λ d. is_scheduled d.status)
                db'.deliveries c),
          same,
        ))
        (each_id-EndsWith _ (Cancelling g db) (Excused storage) _ 0 db
          (λ i ids d h. cancel_delivery-Keeps (clocks i) profile_id g db i ids d h)
          (
            covered-start (λ d. d.id) (delivery_scope g db) (λ d. is_scheduled d.status)
                db.deliveries,
            record { tokens = refl; requests = refl; audio_artifacts = refl; voice_models = refl },
          ))

  pub record SameAudio (g : ℕ) (db db' : Db) : Type 0 where
    pub tokens : db'.tokens ≡ db.tokens
    pub requests : db'.requests ≡ db.requests
    pub deliveries : db'.deliveries ≡ db.deliveries
    pub voice_models : db'.voice_models ≡ db.voice_models
    pub ids :
        map (λ a. a.id) (keep (audio_scope g db) db'.audio_artifacts)
        ≡ map (λ a. a.id) (keep (audio_scope g db) db.audio_artifacts)

  -- The tables during `delete_artifacts` on the audio, with the ids that remain.
  abbrev DeletingAudio : ℕ → Db → List ℕ → Db → Type 0
  DeletingAudio g db0 ids db =
      (covered (λ a. a.id) (audio_scope g db0) (λ a. is_none a.deleted_at) ids db.audio_artifacts
        ≡ true)
      × SameAudio g db0 db

  delete_audio-Keeps :
      (clock : ℕ → ℕ) (profile_id g : ℕ) (db0 : Db) (i : ℕ) (ids : List ℕ) (db : Db)
      → DeletingAudio g db0 (i ∷ ids) db
      → Keeps
          (DeletingAudio g db0 ids)
          (Excused storage)
          db
          (delete_audio sha256 storage clock profile_id g i db)
  unfolding delete_audio update_audio audio_scope
  delete_audio-Keeps clock profile_id g db0 i ids db (c, same) =
      elim (Option-cases (find (λ a. a.id == i && is_none a.deleted_at) db.audio_artifacts)) [
        | inl e ↦
            rw (e, delete_audio)
              (
                covered-skip (λ a. a.id) (audio_scope g db0) (λ a. is_none a.deleted_at) i ids
                    db.audio_artifacts e c,
                same,
              )
        | inr (a, e) ↦ elim (Bool-cases (delete_key storage a.storage_key)) [
          | inr f ↦ rw (e, f, delete_audio) (inr (delete_key-refused a.storage_key f))
          | inl f ↦
              rw (e, f, delete_audio) (audio_changed (clock 0) i ids db db0 c same _ _ _ _ _ _)
        ]
      ]
    where
      audio_changed :
          (now i : ℕ) (ids : List ℕ) (db db0 : Db)
          → (covered
                (λ a. a.id)
                (audio_scope g db0)
                (λ a. is_none a.deleted_at)
                (i ∷ ids)
                db.audio_artifacts
              ≡ true)
          → SameAudio g db0 db
          → (t : ℕ) (kind : AuditEventType) (actor : Text) (pid : ℕ) (grant_id : Option ℕ)
            (document : Entries)
          → Keeps (DeletingAudio g db0 ids) (Excused storage) db (
              work_of (
                audit sha256 t kind actor pid grant_id document (record db {
                  audio_artifacts =
                      update_audio i
                        (λ a. record a { storage_key = none; deleted_at = some now })
                        db.audio_artifacts;
                })))
      audio_changed now i ids db db0 c same t kind actor pid grant_id document =
          audit-Keeps (DeletingAudio g db0 ids) t kind actor pid grant_id document db _ λ table. (
            covered-change (λ a. a.id) (audio_scope g db0) (λ a. is_none a.deleted_at)
                (λ a. record a { storage_key = none; deleted_at = some now }) i ids
                db.audio_artifacts (λ a. refl) c,
            record {
              tokens = same.tokens;
              requests = same.requests;
              deliveries = same.deliveries;
              voice_models = same.voice_models;
              ids =
                  ids-change (λ a. a.id) (audio_scope g db0) (λ a. is_none a.deleted_at)
                    (λ a. record a { storage_key = none; deleted_at = some now }) i
                    db.audio_artifacts (λ a. refl) (λ a. refl)
                  ∙ same.ids;
            },
          )

  SameAudio-audio_scope :
      (g : ℕ) (db db' : Db) → SameAudio g db db' → audio_scope g db' ≡ audio_scope g db
  unfolding grant_models
  SameAudio-audio_scope g db db' same = audio_scope-same g db db' (
      ap (λ ms. map (λ (m : VoiceModel). m.id) (keep (λ m. m.consent_grant_id == g) ms))
        same.voice_models)

  pub delete_audio_artifacts-EndsWith :
      (clocks : ℕ → ℕ → ℕ) (profile_id g : ℕ) (db : Db)
      → NoDelivery g db
      → EndsWith
          (λ db'. NoAudio g db' × NoDelivery g db' × SameAudio g db db')
          (Excused storage)
          (delete_audio_artifacts sha256 storage clocks profile_id g db)
  unfolding delete_audio_artifacts
  delete_audio_artifacts-EndsWith clocks profile_id g db none_ =
      EndsWith-map (DeletingAudio g db []) _ (Excused storage) _
        (λ db' (c, same).
          let scope = SameAudio-audio_scope g db db' same in
          (
            audio_scope-NoAudio g db db' scope (
                covered-none (λ a. a.id) (audio_scope g db) (λ a. is_none a.deleted_at)
                  db'.audio_artifacts c),
            delivery_scope-NoDelivery g db db'
                (delivery_scope-same g db db' (
                  ap (λ s. map (λ (a : AudioArtifact). a.id) (keep s db'.audio_artifacts)) scope
                  ∙ same.ids))
                (rw same.deliveries none_),
            same,
          ))
        (each_id-EndsWith _ (DeletingAudio g db) (Excused storage) _ 0 db
          (λ i ids d h. delete_audio-Keeps (clocks i) profile_id g db i ids d h)
          (
            covered-start (λ a. a.id) (audio_scope g db) (λ a. is_none a.deleted_at)
                db.audio_artifacts,
            record {
              tokens = refl;
              requests = refl;
              deliveries = refl;
              voice_models = refl;
              ids = refl;
            },
          ))

  pub record SameModels (g : ℕ) (db db' : Db) : Type 0 where
    pub tokens : db'.tokens ≡ db.tokens
    pub requests : db'.requests ≡ db.requests
    pub deliveries : db'.deliveries ≡ db.deliveries
    pub audio_artifacts : db'.audio_artifacts ≡ db.audio_artifacts
    pub ids : grant_models g db' ≡ grant_models g db

  -- The tables during `delete_artifacts` on the models, with the ids that remain.
  abbrev DeletingModels : ℕ → Db → List ℕ → Db → Type 0
  DeletingModels g db0 ids db =
      (covered (λ m. m.id) (λ m. m.consent_grant_id == g) (λ m. is_none m.deleted_at) ids
          db.voice_models
        ≡ true)
      × SameModels g db0 db

  delete_model-Keeps :
      (clock : ℕ → ℕ) (profile_id g : ℕ) (db0 : Db) (i : ℕ) (ids : List ℕ) (db : Db)
      → DeletingModels g db0 (i ∷ ids) db
      → Keeps
          (DeletingModels g db0 ids)
          (Excused storage)
          db
          (delete_model sha256 storage clock profile_id g i db)
  unfolding delete_model update_model grant_models
  delete_model-Keeps clock profile_id g db0 i ids db (c, same) =
      elim (Option-cases (find (λ m. m.id == i && is_none m.deleted_at) db.voice_models)) [
        | inl e ↦
            rw (e, delete_model)
              (
                covered-skip (λ m. m.id) (λ m. m.consent_grant_id == g) (λ m. is_none m.deleted_at)
                    i ids db.voice_models e c,
                same,
              )
        | inr (m, e) ↦ elim (Bool-cases (delete_key storage m.storage_key)) [
          | inr f ↦ rw (e, f, delete_model) (inr (delete_key-refused m.storage_key f))
          | inl f ↦
              rw (e, f, delete_model) (model_changed (clock 0) i ids db db0 c same _ _ _ _ _ _)
        ]
      ]
    where
      model_changed :
          (now i : ℕ) (ids : List ℕ) (db db0 : Db)
          → (covered
                (λ m. m.id)
                (λ m. m.consent_grant_id == g)
                (λ m. is_none m.deleted_at)
                (i ∷ ids)
                db.voice_models
              ≡ true)
          → SameModels g db0 db
          → (t : ℕ) (kind : AuditEventType) (actor : Text) (pid : ℕ) (grant_id : Option ℕ)
            (document : Entries)
          → Keeps (DeletingModels g db0 ids) (Excused storage) db (
              work_of (
                audit sha256 t kind actor pid grant_id document (record db {
                  voice_models =
                      update_model i
                        (λ m. record m { storage_key = none; deleted_at = some now })
                        db.voice_models;
                })))
      model_changed now i ids db db0 c same t kind actor pid grant_id document =
          audit-Keeps (DeletingModels g db0 ids) t kind actor pid grant_id document db _ λ table. (
            covered-change (λ m. m.id) (λ m. m.consent_grant_id == g) (λ m. is_none m.deleted_at)
                (λ m. record m { storage_key = none; deleted_at = some now }) i ids db.voice_models
                (λ m. refl) c,
            record {
              tokens = same.tokens;
              requests = same.requests;
              deliveries = same.deliveries;
              audio_artifacts = same.audio_artifacts;
              ids =
                  ids-change (λ m. m.id) (λ m. m.consent_grant_id == g) (λ m. is_none m.deleted_at)
                    (λ m. record m { storage_key = none; deleted_at = some now }) i db.voice_models
                    (λ m. refl) (λ m. refl)
                  ∙ same.ids;
            },
          )

  pub delete_voice_models-EndsWith :
      (clocks : ℕ → ℕ → ℕ) (profile_id g : ℕ) (db : Db)
      → NoDelivery g db
      → NoAudio g db
      → EndsWith
          (λ db'. NoModel g db' × NoAudio g db' × NoDelivery g db' × SameModels g db db')
          (Excused storage)
          (delete_voice_models sha256 storage clocks profile_id g db)
  unfolding delete_voice_models
  delete_voice_models-EndsWith clocks profile_id g db no_delivery no_audio =
      EndsWith-map (DeletingModels g db []) _ (Excused storage) _
        (λ db' (c, same).
          let scope = audio_scope-same g db db' same.ids in
          (
            covered-none (λ m. m.id) (λ m. m.consent_grant_id == g) (λ m. is_none m.deleted_at)
                db'.voice_models c,
            audio_scope-NoAudio g db db' scope (rw same.audio_artifacts no_audio),
            delivery_scope-NoDelivery g db db'
                (delivery_scope-same g db db' (
                  ap (λ s. map (λ (a : AudioArtifact). a.id) (keep s db'.audio_artifacts)) scope
                  ∙ ap (λ xs. map (λ (a : AudioArtifact). a.id) (keep (audio_scope g db) xs))
                      same.audio_artifacts))
                (rw same.deliveries no_delivery),
            same,
          ))
        (each_id-EndsWith _ (DeletingModels g db) (Excused storage) _ 0 db
          (λ i ids d h. delete_model-Keeps (clocks i) profile_id g db i ids d h)
          (
            covered-start (λ m. m.id) (λ m. m.consent_grant_id == g) (λ m. is_none m.deleted_at)
                db.voice_models,
            record {
              tokens = refl;
              requests = refl;
              deliveries = refl;
              audio_artifacts = refl;
              ids = refl;
            },
          ))

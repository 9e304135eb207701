-- ===== src/Cascade/Complete.antt =====
-- When `finish` of remembrance-consent/app/consent/cascade.py marks a revocation as complete.
use the_st.Prelude.{
  ℕ, ◌==◌, ◌≡◌, ◌≢◌, ◌⊎◌, refl, Bool, Option, none, map, keep, length, All, Any, true, false, some,
  arith, Text, find, List, [], ◌∷◌, Bool-cases, inl, inr, ap, ◌∙◌,
}
use the_st.Vocabulary.{RevocationStatus}
use the_st.Store.{
  RevocationRequest, AuthorizationToken, DeliveryStatus, VoiceModel, AudioArtifact,
  ScheduledDelivery, Db,
}
use the_st.Service.Revocation.{is_live}
use the_st.Service.{Post, Post-bind, Post-guard, or_fail-eq-ok}
use the_st.Service.Trail.{audit-ok}
use the_st.Cascade.{
  is_in, grant_models, open_delivery, open_audio, open_model, remaining, any_left, update_request,
  CascadeReport, completed, finish, audio_scope, delivery_scope,
}

-- The audio of a grant: under the grant, or made from one of its voice models.
abbrev pub IsAudioOf : ℕ → Db → AudioArtifact → Type 0
IsAudioOf grant_id db a =
    (a.consent_grant_id ≡ grant_id)
    ⊎ Any (λ m. (m.consent_grant_id ≡ grant_id) × (a.voice_model_id ≡ some m.id)) db.voice_models

-- The deliveries of a grant: under the grant, or of its audio.
abbrev pub IsDeliveryOf : ℕ → Db → ScheduledDelivery → Type 0
IsDeliveryOf grant_id db d =
    (d.consent_grant_id ≡ grant_id)
    ⊎ Any (λ a. IsAudioOf grant_id db a × (d.audio_artifact_id ≡ some a.id)) db.audio_artifacts

-- Nothing of the grant is live, scheduled or stored any more.
pub record IsEmpty (grant_id : ℕ) (db : Db) : Type 0 where
  pub tokens : All (λ t. t.consent_grant_id ≡ some grant_id → t.revoked_at ≢ none) db.tokens
  pub deliveries :
      All (λ d. IsDeliveryOf grant_id db d → d.status ≢ DeliveryStatus.scheduled) db.deliveries
  pub audio_artifacts : All (λ a. IsAudioOf grant_id db a → a.deleted_at ≢ none) db.audio_artifacts
  pub voice_models : All (λ m. m.consent_grant_id ≡ grant_id → m.deleted_at ≢ none) db.voice_models

-- What no row passes, no row is.
none-All :
    {A : Type 0} (test : A → Bool) (P : A → Type 0) (xs : List A)
    → ((x : A) → test x ≡ false → P x)
    → length (keep test xs) ≡ 0
    → All P xs
none-All test P [] h none_ = tt
none-All test P (x ∷ xs) h none_ = elim (Bool-cases (test x)) [
  | inl e ↦ absurd (ground arith)
  | inr e ↦ (h x e, none-All test P xs h (ground arith))
]

is_in-models :
    (grant_id : ℕ) (o : Option ℕ) (ms : List VoiceModel)
    → Any (λ m. (m.consent_grant_id ≡ grant_id) × (o ≡ some m.id)) ms
    → is_in o (map (λ m. m.id) (keep (λ m. m.consent_grant_id == grant_id) ms)) ≡ true
is_in-models grant_id o [] h = absurd h
is_in-models grant_id o (m ∷ ms) (inl (g, e)) = rw e (ground arith)
is_in-models grant_id none (m ∷ ms) (inr later) = absurd (is_none_Any ms later)
  where
    is_none_Any :
        (xs : List VoiceModel)
        → ¬ Any (λ m. (m.consent_grant_id ≡ grant_id) × (none ≡ some m.id)) xs
    is_none_Any [] h = h
    is_none_Any (x ∷ xs) (inl (g, e)) = absurd (cc e)
    is_none_Any (x ∷ xs) (inr h) = is_none_Any xs h
is_in-models grant_id (some i) (m ∷ ms) (inr later) =
    let rest = is_in-models grant_id (some i) ms later in ground (arith, rest)

audio_scope-IsAudioOf :
    (grant_id : ℕ) (db : Db) (a : AudioArtifact)
    → IsAudioOf grant_id db a
    → audio_scope grant_id db a ≡ true
unfolding audio_scope grant_models
audio_scope-IsAudioOf grant_id db a (inl own) = ground arith
audio_scope-IsAudioOf grant_id db a (inr made) =
    let h = is_in-models grant_id a.voice_model_id db.voice_models made in ground (arith, h)

is_in-audio :
    (grant_id : ℕ) (db : Db) (o : Option ℕ) (xs : List AudioArtifact)
    → Any (λ a. IsAudioOf grant_id db a × (o ≡ some a.id)) xs
    → is_in o (map (λ a. a.id) (keep (audio_scope grant_id db) xs)) ≡ true
is_in-audio grant_id db o [] h = absurd h
is_in-audio grant_id db o (a ∷ xs) (inl (mine, e)) =
    rw (e, audio_scope-IsAudioOf grant_id db a mine) (ground arith)
is_in-audio grant_id db none (a ∷ xs) (inr later) = absurd (is_none_Any xs later)
  where
    is_none_Any :
        (ys : List AudioArtifact) → ¬ Any (λ a. IsAudioOf grant_id db a × (none ≡ some a.id)) ys
    is_none_Any [] h = h
    is_none_Any (y ∷ ys) (inl (g, e)) = absurd (cc e)
    is_none_Any (y ∷ ys) (inr h) = is_none_Any ys h
is_in-audio grant_id db (some i) (a ∷ xs) (inr later) =
    let rest = is_in-audio grant_id db (some i) xs later in ground (arith, rest)

delivery_scope-IsDeliveryOf :
    (grant_id : ℕ) (db : Db) (d : ScheduledDelivery)
    → IsDeliveryOf grant_id db d
    → delivery_scope grant_id db d ≡ true
unfolding delivery_scope
delivery_scope-IsDeliveryOf grant_id db d (inl own) = ground arith
delivery_scope-IsDeliveryOf grant_id db d (inr made) =
    let h = is_in-audio grant_id db d.audio_artifact_id db.audio_artifacts made in ground (arith, h)

any_left-IsEmpty :
    (grant_id : ℕ) (db : Db) → any_left (remaining grant_id db) ≡ false → IsEmpty grant_id db
unfolding any_left remaining is_live delivery_scope
any_left-IsEmpty grant_id db h = record {
  tokens = none-All (is_live grant_id) _ db.tokens (λ t no_ e f. not_live t no_ e f) (ground arith);
  deliveries =
      none-All (open_delivery grant_id db) _ db.deliveries
        (λ d no_ mine e.
          let scope = delivery_scope-IsDeliveryOf grant_id db d mine in
          absurd (let bad = rw (e, scope) at no_ in cc bad))
        (ground arith);
  audio_artifacts =
      none-All (open_audio grant_id db) _ db.audio_artifacts
        (λ a no_ mine e.
          let scope = audio_scope-IsAudioOf grant_id db a mine in
          absurd (let bad = rw (e, scope) at no_ in cc bad))
        (ground arith);
  voice_models =
      none-All (open_model grant_id) _ db.voice_models
        (λ m no_ mine e. absurd (let bad = rw e at no_ in ground arith)) (ground arith);
}
  where
    not_live :
        (t : AuthorizationToken)
        → is_live grant_id t ≡ false
        → t.consent_grant_id ≡ some grant_id
        → ¬ (t.revoked_at ≡ none)
    not_live t no_ e f = let bad = rw (e, f) at no_ in ground arith

pub find-update_request :
    (id : ℕ) (change : RevocationRequest → RevocationRequest) (rs : List RevocationRequest)
    (r : RevocationRequest)
    → ((q : RevocationRequest) → (change q).id ≡ q.id)
    → find (λ q. q.id == id) rs ≡ some r
    → find (λ q. q.id == id) (update_request id change rs) ≡ some (change r)
unfolding update_request
find-update_request id change [] r keeps found = absurd (ground arith)
find-update_request id change (q ∷ qs) r keeps found = elim (Bool-cases (q.id == id)) [
  | inl e ↦
      let same : q ≡ r = ground arith in
      let changed : ((change q).id == id) ≡ true = ap (λ i. i == id) (keeps q) ∙ e in
      rw (e, changed) (ap (λ x. some (change x)) same)
  | inr e ↦ rw e (rw e (find-update_request id change qs r keeps (rw e at found)))
]

module _ (sha256 : Text → Text) where
  -- What a completed revocation is: nothing is left, and its request is marked as complete.
  abbrev pub IsFinished : ℕ → ℕ → Db → Type 0
  IsFinished grant_id request_id db =
      IsEmpty grant_id db
      × ((r : RevocationRequest) × (find (λ q. q.id == request_id) db.requests ≡ some r)
          × (r.status ≡ RevocationStatus.complete))

  -- When `finish` succeeds, no live token, scheduled delivery, audio artifact or voice model of the
  -- grant is left in the tables, and the request is marked as complete.
  pub finish-IsFinished :
      (clock : ℕ → ℕ) (profile_id grant_id request_id : ℕ) (report : CascadeReport) (db : Db)
      → Post
          (IsFinished grant_id request_id)
          (finish sha256 clock profile_id grant_id request_id report db)
  unfolding finish remaining audio_scope delivery_scope
  finish-IsFinished clock profile_id grant_id request_id report db = Post-guard _ _ λ none_left.
      Post-bind λ request found. record {
        holds = λ db' writes.
            let (table, adds, eq) = audit-ok sha256 _ _ _ _ _ _ _ db' writes in
            let empty = any_left-IsEmpty grant_id db none_left in
            (
              rw eq (record {
                tokens = empty.tokens;
                deliveries = empty.deliveries;
                audio_artifacts = empty.audio_artifacts;
                voice_models = empty.voice_models;
              }),
              (
                completed (clock 0) request,
                rw eq (
                    find-update_request request_id _ db.requests request (λ q. refl)
                      (or_fail-eq-ok _ _ found)),
                refl,
              ),
            );
      }

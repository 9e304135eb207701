-- ===== src/Cascade/Run.antt =====
-- `run_cascade` and `sweep_stale_revocations` of remembrance-consent/app/consent/cascade.py.
use the_st.Prelude.{
  ℕ, ◌+◌, Bool, true, false, not, ◌&&◌, List, [], ◌∷◌, map, keep, Text, ltb, if◌then◌else◌,
}
use the_st.Vocabulary.{is_complete}
use the_st.Store.{Grant, RevocationRequest, Db}
use the_st.Service.{Failure, Result, ok, fail}
use the_st.Service.Revocation.{revoke_grant_tokens}
use the_st.Cascade.{claim, CascadeReport, finish, record_failure}
use the_st.Cascade.Loops.{Progress, cancel_deliveries, delete_audio_artifacts, delete_voice_models}

-- What a run gives: a report, or an error, which has left the tables as the units of work before it
-- have committed them.
pub data Run : Type 0 where
  finished : CascadeReport → Db → Run
  aborted : Failure → Db → Run

-- The clock of each part of a run, the storage, and the text that `record_failure` keeps of an error.
pub record Environment : Type 0 where
  pub clock : ℕ → ℕ
  pub rounds : ℕ → ℕ → ℕ
  pub storage : Text → Bool
  pub message : Failure → Text

module _ (sha256 : Text → Text) (env : Environment) (grant : Grant) (request_id : ℕ) where
  -- `except Exception`: the failure is recorded and raised again.
  unfoldable pub give_up : Failure → Db → Run
  unfolding record_failure
  give_up e db = Run.aborted e (record_failure (env.clock 5) request_id (env.message e) db)

  -- What follows from the result of `finish`.
  unfoldable pub close : CascadeReport → Db → Result Db → Run
  unfolding give_up
  close report db (fail e) = give_up e db
  close report db (ok db') = Run.finished report db'

  -- The end of the run, once the voice models have been deleted.
  unfoldable pub after_models : ℕ → ℕ → ℕ → Progress → Run
  unfolding give_up close finish
  after_models tokens cancelled audio (Progress.stopped e db) = give_up e db
  after_models tokens cancelled audio (Progress.done models db) =
      let report : CascadeReport = record {
        consent_grant_id = grant.id;
        already_complete = false;
        tokens_revoked = tokens;
        deliveries_cancelled = cancelled;
        audio_artifacts_deleted = audio;
        voice_models_deleted = models;
      } in
      close report db (
        finish sha256 (λ n. env.clock (3 + n)) grant.deceased_profile_id grant.id request_id report
          db)

  unfoldable pub after_audio : ℕ → ℕ → Progress → Run
  unfolding give_up after_models delete_voice_models
  after_audio tokens cancelled (Progress.stopped e db) = give_up e db
  after_audio tokens cancelled (Progress.done audio db) =
      after_models tokens cancelled audio
        (delete_voice_models sha256 env.storage env.rounds grant.deceased_profile_id grant.id db)

  unfoldable pub after_deliveries : ℕ → Progress → Run
  unfolding give_up after_audio delete_audio_artifacts
  after_deliveries tokens (Progress.stopped e db) = give_up e db
  after_deliveries tokens (Progress.done cancelled db) =
      after_audio tokens cancelled
        (delete_audio_artifacts sha256 env.storage env.rounds grant.deceased_profile_id grant.id db)

  -- The part of `run_cascade` after the request has been claimed.
  unfoldable pub work : Db → Run
  unfolding after_deliveries cancel_deliveries revoke_grant_tokens
  work db =
      let (tokens, cleared) = revoke_grant_tokens grant.id (env.clock 1) db in
      after_deliveries tokens
        (cancel_deliveries sha256 env.rounds grant.deceased_profile_id grant.id cleared)

-- The report of a run that has found the revocation complete.
abbrev pub nothing_to_do : ℕ → CascadeReport
nothing_to_do grant_id = record {
  consent_grant_id = grant_id;
  already_complete = true;
  tokens_revoked = 0;
  deliveries_cancelled = 0;
  audio_artifacts_deleted = 0;
  voice_models_deleted = 0;
}

-- `run_cascade` once its claim is known.
unfoldable pub run_claimed :
    (Text → Text) → Environment → Db → Result (Bool × Grant × RevocationRequest × Db) → Run
unfolding work
run_claimed sha256 env db (fail e) = Run.aborted e db
run_claimed sha256 env db (ok (false, grant, request, claimed)) =
    Run.finished (nothing_to_do grant.id) claimed
run_claimed sha256 env db (ok (true, grant, request, claimed)) =
    work sha256 env grant request.id claimed

-- `run_cascade`.
unfoldable pub run_cascade : (Text → Text) → Environment → ℕ → ℕ → Db → Run
unfolding run_claimed claim
run_cascade sha256 env fresh_id grant_id db =
    run_claimed sha256 env db (claim (env.clock 0) fresh_id grant_id db)

-- `.order_by(updated_at)`.
unfoldable pub insert_request : RevocationRequest → List RevocationRequest → List RevocationRequest
insert_request r [] = r ∷ []
insert_request r (q ∷ qs) =
    if ltb q.updated_at r.updated_at then q ∷ insert_request r qs else r ∷ q ∷ qs

unfoldable pub sorted_requests : List RevocationRequest → List RevocationRequest
unfolding insert_request
sorted_requests [] = []
sorted_requests (r ∷ rs) = insert_request r (sorted_requests rs)

-- `sweep_stale_revocations`: the grants that it dispatches, in their order.
unfoldable pub sweep_stale_revocations : ℕ → ℕ → Db → List ℕ
unfolding sorted_requests
sweep_stale_revocations now stale_after db =
    map (λ r. r.consent_grant_id)
      (sorted_requests (
        keep (λ r. not (is_complete r.status) && ltb (r.updated_at + stale_after) now) db.requests))

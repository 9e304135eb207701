-- ===== src/Tests/Cascades.antt =====
-- The theorem on remembrance-consent/app/consent/cascade.py, on a grant with one voice model.
use the_st.Prelude.{◌≡◌, ◌+◌, refl, true, false, [], ◌∷◌, some, none, codes}
use the_st.Vocabulary.{RevocationStatus}
use the_st.Store.{Grant, RevocationRequest, VoiceModel, Db}
use the_st.Service.Grants.{new_grant, beneficiary_rows}
use the_st.Cascade.{CascadeReport}
use the_st.Cascade.Run.{Run, finished, aborted, Environment, run_cascade}
use the_st.Tests.{fingerprint, ada, empty_db, ada_request, clock, fresh}

abbrev environment : Environment
environment = record {
  clock = clock;
  rounds = λ id n. clock (10 + n);
  storage = λ key. true;
  message = λ e. codes "error";
}

-- A revoked grant of Ada's.
abbrev revoked_grant : Grant
revoked_grant =
    record (new_grant fresh 0 ada ada_request (record {
      id = 100;
      full_name = [];
      date_of_birth = none;
      date_of_death = none;
      jurisdiction_state = [];
      created_at = 0;
    })) { is_active = false; revoked_at = some 0 }

abbrev pending : RevocationRequest
pending = record {
  id = 800;
  consent_grant_id = 101;
  requested_by = codes "ada";
  reason = codes "no";
  status = RevocationStatus.pending;
  created_at = 0;
  updated_at = 0;
  attempts = 0;
  last_error = none;
  cascade_completed_at = none;
}

abbrev voice : VoiceModel
voice = record {
  id = 3;
  consent_grant_id = 101;
  deceased_profile_id = 100;
  storage_key = some (codes "k");
  created_at = 0;
  deleted_at = none;
}

abbrev revoked_db : Db
revoked_db = record empty_db {
  grants = revoked_grant ∷ [];
  requests = pending ∷ [];
  voice_models = voice ∷ [];
}

abbrev erasing : Run
erasing = run_cascade fingerprint environment 900 101 revoked_db

abbrev db_of : Run → Db
db_of (finished report db) = db
db_of (aborted e db) = db

abbrev erased : Db
erased = db_of erasing

abbrev report : CascadeReport
report = record {
  consent_grant_id = 101;
  already_complete = false;
  tokens_revoked = 0;
  deliveries_cancelled = 0;
  audio_artifacts_deleted = 0;
  voice_models_deleted = 1;
}

-- That run ends with a report.
erasing-finishes : erasing ≡ finished report erased
unfolding new_grant beneficiary_rows run_cascade the_st.Cascade.Run.run_claimed
    the_st.Cascade.Run.work the_st.Cascade.Run.give_up the_st.Cascade.Run.close
    the_st.Cascade.Run.after_models the_st.Cascade.Run.after_audio
    the_st.Cascade.Run.after_deliveries the_st.Cascade.claim the_st.Cascade.claimed_request
    the_st.Cascade.work_on the_st.Cascade.update_request the_st.Cascade.finish
    the_st.Cascade.remaining the_st.Cascade.any_left the_st.Cascade.grant_models
    the_st.Cascade.audio_scope the_st.Cascade.delivery_scope the_st.Cascade.Loops.each_id
    the_st.Cascade.Loops.sorted_ids the_st.Cascade.Loops.insert_id the_st.Cascade.Loops.delete_model
    the_st.Cascade.Loops.delete_audio the_st.Cascade.Loops.cancel_delivery
    the_st.Cascade.Loops.update_model the_st.Cascade.Loops.delete_voice_models
    the_st.Cascade.Loops.delete_audio_artifacts the_st.Cascade.Loops.cancel_deliveries
    the_st.Service.Revocation.revoke_grant_tokens the_st.Service.Revocation.revoke_token
    the_st.Service.Revocation.is_live the_st.Service.audit the_st.Service.raise_if
    the_st.Service.or_fail the_st.Service.◌>>=◌ the_st.Audit.append_event
    the_st.Audit.validate_payload the_st.Utf8.encode the_st.Utf8.utf8 the_st.Json.canonical_json
    the_st.Store.find_grant the_st.Store.find_request the_st.Audit.check_value
    the_st.Audit.event_document the_st.Audit.genesis_hash the_st.Audit.previous_of
    the_st.Format.civil the_st.Format.decimal the_st.Format.decimal_from the_st.Format.hex
    the_st.Format.isoformat the_st.Format.padded the_st.Format.uuid_text the_st.Json.escape
    the_st.Json.escape_all the_st.Json.insert_entry the_st.Json.int_text the_st.Json.print
    the_st.Json.quote the_st.Json.sorted the_st.Json.text_lt the_st.Audit.next_event
    the_st.Audit.compute_event_hash the_st.Audit.stamp the_st.Audit.find_head
erasing-finishes = refl

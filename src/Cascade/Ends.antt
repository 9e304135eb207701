-- ===== src/Cascade/Ends.antt =====
-- How a run of remembrance-consent/app/consent/cascade.py ends.
use the_st.Prelude.{ℕ, ◌≡◌, ◌⊎◌, true, false, none, some, Text, ◌==◌, find, keep, length}
use the_st.Vocabulary.{RevocationStatus}
use the_st.Store.{RevocationRequest, Grant, Db, find_grant, find_request}
use the_st.Service.{Failure}
use the_st.Service.Revocation.{is_live}
use the_st.Cascade.Emptied.{Excused}
use the_st.Cascade.Complete.{IsFinished}
use the_st.Cascade.Run.{Run, Environment}

abbrev NoToken : ℕ → Db → Type 0
NoToken g db = length (keep (is_live g) db.tokens) ≡ 0

-- The request of the run stands in the table.
abbrev HasRequest : ℕ → Db → Type 0
HasRequest request_id db =
    (r : RevocationRequest) × (find (λ q. q.id == request_id) db.requests ≡ some r)

module _ (sha256 : Text → Text) (env : Environment) (grant : Grant) (request_id : ℕ) where
  -- How the part of a run after the claim ends.
  abbrev Concludes : Run → Type 0
  Concludes (Run.finished report db) =
      (report.already_complete ≡ false) × IsFinished sha256 grant.id request_id db
  Concludes (Run.aborted e db) = Excused env.storage e

-- How a run may end. A report says that the revocation was complete before, and then nothing has
-- changed, or that it is now. An error says that there is no such grant or that it is not revoked,
-- and then nothing has changed, or the audit trail has refused a payload or the storage a key.
abbrev pub Outcome : (Text → Text) → Environment → ℕ → Db → Run → Type 0
Outcome sha256 env grant_id db (Run.finished report db') =
    ((report.already_complete ≡ true)
      × (db' ≡ db)
      × ((r : RevocationRequest) × (find_request grant_id db ≡ some r)
          × (r.status ≡ RevocationStatus.complete)))
    ⊎ ((report.already_complete ≡ false)
        × ((request_id : ℕ) × IsFinished sha256 grant_id request_id db'))
Outcome sha256 env grant_id db (Run.aborted e db') =
    ((e ≡ Failure.permanent)
      × (db' ≡ db)
      × ((find_grant grant_id db ≡ none)
          ⊎ ((g : Grant) × (find_grant grant_id db ≡ some g) × (g.revoked_at ≡ none))))
    ⊎ Excused env.storage e

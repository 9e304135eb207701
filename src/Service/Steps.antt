-- ===== src/Service/Steps.antt =====
-- Sequences of requests to the consent service (remembrance-consent/app/consent/router.py,
-- successors/router.py and profiles/router.py), in any order and by any actors.
use mathlib.Core.List.{reverse}
use the_st.Prelude.{ℕ, Bool, true, [], Text, ◌≡◌, All}
use the_st.Vocabulary.{ConsentAction}
use the_st.Purpose.{Unicode}
use the_st.Audit.{verify_chain}
use the_st.Audit.Append.{Written-verifies, empty}
use the_st.Kernel.{Actor}
use the_st.Store.{Acknowledgment, Grant, Successor, RevocationRequest, Db}
use the_st.Token.{Issuer}
use the_st.Service.{ok}
use the_st.Service.Grants.{GrantCreate, is_consistent, create_grant}
use the_st.Service.Rights.{verify_authority, acknowledge}
use the_st.Service.Revocation.{revoke}
use the_st.Service.Profiles.{designate_successor, record_death}
use the_st.Service.Authorize.{Outcome, authorize}
use the_st.Service.Trail.{Sound, WellFormed}
use the_st.Service.Endpoints.{
  committed, verify_authority-Post, acknowledge-Post, revoke-Post, designate_successor-Post,
  record_death-Post, create_grant-Post, authorize-Post,
}

module _ (sha256 : Text → Text) where
  -- One request that succeeds, whoever makes it and whatever the clock shows.
  pub data Step : Db → Db → Type 0 where
    created :
        {db : Db} (clock fresh : ℕ → ℕ) (body : GrantCreate) (actor : Actor) (r : Grant × Db)
        → is_consistent body ≡ true
        → create_grant sha256 clock fresh body actor db ≡ ok r
        → Step db r.1
    verified :
        {db : Db} (clock : ℕ → ℕ) (grant_id : ℕ) (document : Text) (actor : Actor) (db' : Db)
        → verify_authority sha256 clock grant_id document actor db ≡ ok db'
        → Step db db'
    acknowledged :
        {db : Db} (clock : ℕ → ℕ) (fresh_id grant_id : ℕ) (signature : Text) (actor : Actor)
        (r : Acknowledgment × Db)
        → acknowledge sha256 clock fresh_id grant_id signature actor db ≡ ok r
        → Step db r.1
    revoked :
        {db : Db} (clock : ℕ → ℕ) (fresh_id grant_id : ℕ) (reason : Text) (actor : Actor)
        (r : RevocationRequest × ℕ × Bool × Db)
        → revoke sha256 clock fresh_id grant_id reason actor db ≡ ok r
        → Step db r.3
    designated :
        {db : Db} (clock : ℕ → ℕ) (fresh_id pid : ℕ) (user_id : Text) (priority : ℕ) (actor : Actor)
        (r : Successor × Db)
        → designate_successor sha256 clock fresh_id pid user_id priority actor db ≡ ok r
        → Step db r.1
    died :
        {db : Db} (clock : ℕ → ℕ) (pid day : ℕ) (certificate : Text) (actor : Actor) (db' : Db)
        → record_death sha256 clock pid day certificate actor db ≡ ok db'
        → Step db db'
    authorized :
        {db : Db} (u : Unicode) (issuer : Issuer) (clock : ℕ → ℕ) (jti : ℕ) (action : ConsentAction)
        (profile_id : ℕ) (actor : Actor) (purpose_code : Text) (outcome : Outcome)
        → authorize sha256 u issuer clock jti action profile_id actor purpose_code db ≡ ok outcome
        → Step db (committed outcome)

  -- Every request that succeeds keeps the invariant.
  pub Step-WellFormed : {db db' : Db} → Step db db' → WellFormed sha256 db → WellFormed sha256 db'
  Step-WellFormed (created clock fresh body actor r valid h) w =
      (create_grant-Post sha256 clock fresh body actor _ w).holds r h
  Step-WellFormed (verified clock id document actor db' h) w =
      (verify_authority-Post sha256 clock id document actor _ w).holds db' h
  Step-WellFormed (acknowledged clock fresh_id id signature actor r h) w =
      (acknowledge-Post sha256 clock fresh_id id signature actor _ w).holds r h
  Step-WellFormed (revoked clock fresh_id id reason actor r h) w =
      (revoke-Post sha256 clock fresh_id id reason actor _ w).holds r h
  Step-WellFormed (designated clock fresh_id pid user_id priority actor r h) w =
      (designate_successor-Post sha256 clock fresh_id pid user_id priority actor _ w).holds r h
  Step-WellFormed (died clock pid day certificate actor db' h) w =
      (record_death-Post sha256 clock pid day certificate actor _ w).holds db' h
  Step-WellFormed (authorized u issuer clock jti action pid actor code outcome h) w =
      (authorize-Post sha256 u issuer clock jti action pid actor code _ w).holds outcome h

  pub data Reached : Db → Type 0 where
    start : {db : Db} → db.audit ≡ [] → db.grants ≡ [] → Reached db
    step : {db db' : Db} → Reached db → Step db db' → Reached db'

  -- Whatever requests have succeeded since a state without grants and without events, in any order
  -- and by any actors, the verification of the audit trail finds no error, and each grant is active
  -- exactly while it is not revoked, has not been verified by its own grantor, and has been
  -- acknowledged by beneficiaries that it names only, by each at most once.
  pub Reached-WellFormed :
      {db : Db}
      → Reached db
      → ((verify_chain sha256 [] (reverse db.audit)).errors ≡ []) × All Sound db.grants
  Reached-WellFormed r = let w = invariant r in (Written-verifies sha256 w.0, w.1)
    where
      invariant : {db : Db} → Reached db → WellFormed sha256 db
      invariant (start trail grants) = (rw trail empty, rw grants tt)
      invariant (step r s) = Step-WellFormed s (invariant r)

-- ===== src/Service/Endpoints.antt =====
-- What each endpoint of the consent service (remembrance-consent/app/consent/router.py,
-- successors/router.py and profiles/router.py) keeps, when it succeeds.
use the_st.Prelude.{
  ℕ, Bool, true, false, [], Option, none, some, Text, ◌≡◌, refl, inl, inr, find, any, is_some,
  text_eq, ◌==◌, Bool-cases, Option-cases,
}
use the_st.Vocabulary.{ConsentAction, GrantorType, Role}
use the_st.Purpose.{Unicode, is_banned_purpose}
use the_st.Kernel.{Actor, Decision}
use the_st.Store.{
  Profile, Beneficiary, Acknowledgment, Grant, AuthorizationToken, Db, All-update_grant, find_grant,
}
use the_st.Token.{Issuer, IssuedToken}
use the_st.Service.{or_fail-eq-ok, Post, Post-bind, Post-ok, Post-guard}
use the_st.Service.Grants.{
  GrantCreate, create_grant, admit_profile, audit_profile, new_grant, distinct,
}
use the_st.Service.Rights.{acknowledged_with, verify_authority, sign, acknowledge}
use the_st.Service.Revocation.{
  is_live, revoked_for, revoke_grant_tokens, revoke_now, earlier_request, revoke,
}
use the_st.Service.Profiles.{designate_successor, record_death}
use the_st.Service.Authorize.{
  Outcome, violation, answered, record_purpose_violation, issue_for, add_token, conclude, authorize,
}
use the_st.Service.Trail.{
  Sound, WellFormed, audit-ok, audit-Post, find-All, grant_and_facts-found, distinct-cons,
  named-mem, find-update_grant, is_live-revoke_token,
}

-- An acknowledgment, of which only the email matters here.
abbrev signed_by : Text → Acknowledgment
signed_by email = record {
  id = 0;
  beneficiary_name = [];
  beneficiary_email = email;
  signature_hash = [];
  acknowledged_at = 0;
}

-- The tables that a call of `authorize` commits.
abbrev pub committed : Outcome → Db
committed (violation code db) = db
committed (answered result db) = db

module _ (sha256 : Text → Text) where
  pub verify_authority-Post :
      (clock : ℕ → ℕ) (grant_id : ℕ) (document : Text) (actor : Actor) (db : Db)
      → WellFormed sha256 db
      → Post (WellFormed sha256) (verify_authority sha256 clock grant_id document actor db)
  unfolding verify_authority
  verify_authority-Post clock grant_id document actor db (w, sound) = Post-guard _ _ λ _.
      Post-guard _ _ λ _. Post-bind λ (grant, facts) found. Post-guard _ _ λ other.
        Post-guard _ _ λ _. Post-guard _ _ λ _.
          let row = (grant_and_facts-found grant_id db).holds (grant, facts) found in
          let old = find-All Sound grant.id db.grants grant row sound in
          audit-Post sha256 _ _ _ _ _ _ _ (
            w,
            All-update_grant Sound grant.id _ db.grants grant row (old.0, other, old.2, old.3)
                sound,
          )

  Sound-acknowledged :
      (ack : Acknowledgment) (named : Beneficiary) (g : Grant)
      → Sound g
      → find (λ b. text_eq b.beneficiary_email ack.beneficiary_email) g.beneficiaries ≡ some named
      → any (λ a. text_eq a.beneficiary_email ack.beneficiary_email) g.acknowledgments ≡ false
      → Sound (acknowledged_with ack g)
  unfolding distinct
  Sound-acknowledged ack named g (active, other, members, once) found new = (
    active,
    other,
    (named-mem _ g.beneficiaries named found, members),
    rw (distinct-cons ack.beneficiary_email g.acknowledgments new) once,
  )

  pub acknowledge-Post :
      (clock : ℕ → ℕ) (fresh_id grant_id : ℕ) (signature : Text) (actor : Actor) (db : Db)
      → WellFormed sha256 db
      → Post
          (λ r. WellFormed sha256 r.1)
          (acknowledge sha256 clock fresh_id grant_id signature actor db)
  unfolding acknowledge sign
  acknowledge-Post clock fresh_id grant_id signature actor db (w, sound) = Post-guard _ _ λ _.
      Post-bind λ (grant, facts) found. Post-bind λ roles _. Post-bind λ email _.
        Post-guard _ _ λ _. Post-guard _ _ λ new. Post-bind λ named is_named.
          Post-bind λ written writes. Post-ok (
            let row = (grant_and_facts-found grant_id db).holds (grant, facts) found in
            let old = find-All Sound grant.id db.grants grant row sound in
            (audit-Post sha256 _ _ _ _ _ _ _ (
              w,
              All-update_grant Sound grant.id _ db.grants grant row
                  (Sound-acknowledged (signed_by email) named grant old (or_fail-eq-ok _ _ is_named)
                    new)
                  sound,
            )).holds
              written writes)

  -- What a revocation leaves: sound tables, no live token of the grant, and its row revoked.
  abbrev pub Ended : ℕ → Db → Type 0
  Ended grant_id db =
      WellFormed sha256 db
      × (any (is_live grant_id) db.tokens ≡ false)
      × ((g : Grant) × (find_grant grant_id db ≡ some g)
          × (g.is_active ≡ false)
          × (is_some g.revoked_at ≡ true))

  pub revoke_now-Post :
      (clock : ℕ → ℕ) (fresh_id : ℕ) (reason : Text) (actor : Actor) (grant : Grant)
      (roles : Role → Bool) (db : Db)
      → find (λ h. h.id == grant.id) db.grants ≡ some grant
      → WellFormed sha256 db
      → Post
          (λ r. Ended grant.id r.2)
          (revoke_now sha256 clock fresh_id reason actor grant roles db)
  unfolding revoke_now revoke_grant_tokens find_grant
  revoke_now-Post clock fresh_id reason actor grant roles db row (w, sound) =
      Post-bind λ written writes. Post-ok (
        let old = find-All Sound grant.id db.grants grant row sound in
        let (table, adds, eq) = audit-ok sha256 _ _ _ _ _ _ _ written writes in
        let trail =
          (audit-Post sha256 _ _ _ _ _ _ _ (
            w,
            All-update_grant Sound grant.id _ db.grants grant row (refl, old.1, old.2, old.3) sound,
          )).holds
            written writes in
        (
          trail,
          rw eq (is_live-revoke_token grant.id (clock 0) db.tokens),
          (
            revoked_for (clock 0) reason grant,
            rw eq (find-update_grant grant.id _ db.grants grant (λ h. refl) row),
            refl,
            refl,
          ),
        ))

  pub revoke-Post :
      (clock : ℕ → ℕ) (fresh_id grant_id : ℕ) (reason : Text) (actor : Actor) (db : Db)
      → WellFormed sha256 db
      → Post (λ r. WellFormed sha256 r.3) (revoke sha256 clock fresh_id grant_id reason actor db)
  unfolding revoke
  revoke-Post clock fresh_id grant_id reason actor db w = Post-guard _ _ λ _.
      Post-bind λ (grant, facts) found. Post-bind λ roles _.
        elim (Option-cases (earlier_request grant db)) [
          | inl e ↦ rw e (
              Post-bind λ r done.
                Post-ok
                  ((revoke_now-Post clock fresh_id reason actor grant roles db
                      ((grant_and_facts-found grant_id db).holds (grant, facts) found) w).holds
                    r done).0)
          | inr (request, e) ↦ rw e (Post-ok w)
        ]

  pub designate_successor-Post :
      (clock : ℕ → ℕ) (fresh_id pid : ℕ) (user_id : Text) (priority : ℕ) (actor : Actor) (db : Db)
      → WellFormed sha256 db
      → Post
          (λ r. WellFormed sha256 r.1)
          (designate_successor sha256 clock fresh_id pid user_id priority actor db)
  unfolding designate_successor
  designate_successor-Post clock fresh_id pid user_id priority actor db w = Post-guard _ _ λ _.
      Post-bind λ facts _. Post-guard _ _ λ _. Post-guard _ _ λ _. Post-guard _ _ λ _.
        Post-guard _ _ λ _.
          Post-bind
            λ written writes. Post-ok ((audit-Post sha256 _ _ _ _ _ _ _ w).holds written writes)

  pub record_death-Post :
      (clock : ℕ → ℕ) (pid day : ℕ) (certificate : Text) (actor : Actor) (db : Db)
      → WellFormed sha256 db
      → Post (WellFormed sha256) (record_death sha256 clock pid day certificate actor db)
  unfolding record_death
  record_death-Post clock pid day certificate actor db w = Post-guard _ _ λ _.
      Post-bind λ profile _.
        Post-guard _ _
          λ _. Post-guard _ _ λ _. Post-guard _ _ λ _. audit-Post sha256 _ _ _ _ _ _ _ w

  -- The new rows leave those of the grants and of the trail.
  admit_profile-Post :
      (grantor_type : GrantorType) (actor : Actor) (profile : Profile) (profile_created : Bool)
      (db : Db)
      → WellFormed sha256 db
      → Post (WellFormed sha256) (admit_profile grantor_type actor profile profile_created db)
  unfolding admit_profile
  admit_profile-Post grantor_type actor profile true db w = Post-ok w
  admit_profile-Post grantor_type actor profile false db w =
      Post-bind λ facts _. Post-guard _ _ λ _. Post-guard _ _ λ _. Post-ok w

  audit_profile-Post :
      (now : ℕ) (actor : Actor) (profile : Profile) (profile_created : Bool) (db : Db)
      → WellFormed sha256 db
      → Post (WellFormed sha256) (audit_profile sha256 now actor profile profile_created db)
  unfolding audit_profile
  audit_profile-Post now actor profile false db w = Post-ok w
  audit_profile-Post now actor profile true db w = audit-Post sha256 _ _ _ _ _ _ _ w

  pub create_grant-Post :
      (clock fresh : ℕ → ℕ) (body : GrantCreate) (actor : Actor) (db : Db)
      → WellFormed sha256 db
      → Post (λ r. WellFormed sha256 r.1) (create_grant sha256 clock fresh body actor db)
  unfolding create_grant new_grant distinct
  create_grant-Post clock fresh body actor db w = Post-guard _ _ λ _.
      Post-bind λ (profile, profile_created) _. Post-guard _ _ λ _. Post-guard _ _ λ _.
        Post-bind λ admitted admits. Post-bind λ noted notes. Post-bind λ written writes. Post-ok (
          let first =
            (admit_profile-Post body.grantor_type actor profile profile_created db w).holds admitted
              admits in
          let second =
            (audit_profile-Post (clock 1) actor profile profile_created _
                (first.0, ((refl, tt, tt, refl), first.1))).holds
              noted notes in
          (audit-Post sha256 _ _ _ _ _ _ _ second).holds written writes)

  WellFormed-add_token :
      (issued : Option (IssuedToken × AuthorizationToken)) (db : Db)
      → WellFormed sha256 db
      → WellFormed sha256 (add_token issued db)
  WellFormed-add_token none db w = w
  WellFormed-add_token (some (t, row)) db w = w

  conclude-Post :
      (u : Unicode) (issuer : Issuer) (clock : ℕ → ℕ) (jti : ℕ) (action : ConsentAction)
      (profile_id : ℕ) (actor : Actor) (purpose_code : Text) (known : Bool) (decision : Decision)
      (db : Db)
      → WellFormed sha256 db
      → Post
          (λ r. WellFormed sha256 (committed r))
          (conclude sha256 u issuer clock jti action profile_id actor purpose_code known decision
            db)
  unfolding conclude
  conclude-Post u issuer clock jti action profile_id actor purpose_code known decision db w =
      Post-bind λ written writes. Post-ok (
        let added =
          WellFormed-add_token
            (issue_for sha256 u issuer jti actor action profile_id (clock 0) decision) db w in
        (audit-Post sha256 _ _ _ _ _ _ _ added).holds written writes)

  pub authorize-Post :
      (u : Unicode) (issuer : Issuer) (clock : ℕ → ℕ) (jti : ℕ) (action : ConsentAction)
      (profile_id : ℕ) (actor : Actor) (purpose_code : Text) (db : Db)
      → WellFormed sha256 db
      → Post
          (λ r. WellFormed sha256 (committed r))
          (authorize sha256 u issuer clock jti action profile_id actor purpose_code db)
  unfolding authorize record_purpose_violation
  authorize-Post u issuer clock jti action profile_id actor purpose_code db w =
      elim (Bool-cases (is_banned_purpose u purpose_code)) [
        | inl e ↦ rw e (
            Post-bind
              λ written writes. Post-ok ((audit-Post sha256 _ _ _ _ _ _ _ w).holds written writes))
        | inr e ↦
            rw e (conclude-Post u issuer clock jti action profile_id actor purpose_code _ _ db w)
      ]

-- ===== src/Service/Revoked.antt =====
-- What a revocation (remembrance-consent/app/consent/router.py, `revoke`) leaves of the tokens that
-- the grant has given.
use the_st.Prelude.{
  ℕ, ◌==◌, ◌≡◌, ◌≢◌, sym, ap, ◌∙◌, Bool, false, List, [], ◌∷◌, none, some, arith, Text, any, find,
  is_some, inl, inr, Bool-cases,
}
use the_st.Vocabulary.{ConsentAction}
use the_st.Kernel.{Actor}
use the_st.Store.{Grant, AuthorizationToken, RevocationRequest, Db, find_grant}
use the_st.Token.{Claims, Validator, TokenStatus, status, check_claims}
use the_st.Token.Validity.{check_claims-none_iff}
use the_st.Service.{ok, Post, Post-ok, Post-bind, Post-guard}
use the_st.Service.Revocation.{is_live, earlier_request, revoke}
use the_st.Service.Trail.{WellFormed, grant_and_facts-found, grant_and_facts-row, find-id}
use the_st.Service.Endpoints.{Ended, revoke_now-Post}

-- A token of the grant that is found has been revoked.
not_live :
    (grant_id jti : ℕ) (tokens : List AuthorizationToken) (t : AuthorizationToken)
    → any (is_live grant_id) tokens ≡ false
    → find (λ t. t.jti == jti) tokens ≡ some t
    → is_live grant_id t ≡ false
not_live grant_id jti [] t dead found = absurd (ground arith)
not_live grant_id jti (x ∷ xs) t dead found = elim (Bool-cases (x.jti == jti)) [
  | inl e ↦ let same : x ≡ t = ground arith in rw (sym same) (ground arith)
  | inr e ↦ not_live grant_id jti xs t (ground arith) (rw e at found)
]

revoked_status :
    (grant_id jti : ℕ) (db : Db) (t : AuthorizationToken)
    → any (is_live grant_id) db.tokens ≡ false
    → find (λ t. t.jti == jti) db.tokens ≡ some t
    → t.consent_grant_id ≡ some grant_id
    → status db jti ≡ TokenStatus.revoked
unfolding status is_live
revoked_status grant_id jti db t dead found of_grant =
    let gone = not_live grant_id jti db.tokens t dead found in ground (arith, gone, found, of_grant)

module _ (sha256 : Text → Text) where
  -- When `revoke` succeeds for a grant that is not revoked yet, in tables with the invariant, then
  -- in the tables that it leaves the grant is revoked and not active, no token of it is live, and
  -- the invariant holds.
  pub revoke-Ended :
      (clock : ℕ → ℕ) (fresh_id grant_id : ℕ) (reason : Text) (actor : Actor) (db : Db) (g : Grant)
      (r : RevocationRequest × ℕ × Bool × Db)
      → WellFormed sha256 db
      → find_grant grant_id db ≡ some g
      → g.revoked_at ≡ none
      → revoke sha256 clock fresh_id grant_id reason actor db ≡ ok r
      → Ended sha256 grant_id r.3
  unfolding revoke earlier_request find_grant
  revoke-Ended clock fresh_id grant_id reason actor db g r w found unrevoked h = ended.holds r h
    where
      ended :
          Post
            (λ r. Ended sha256 grant_id r.3)
            (revoke sha256 clock fresh_id grant_id reason actor db)
      ended = Post-guard _ _ λ _. Post-bind λ pair finds. Post-bind λ roles _.
          let row = (grant_and_facts-row grant_id db).holds pair finds in
          let same : g ≡ pair.0 = ground (arith, row) in
          rw (ap (λ x. is_some x.revoked_at) (sym same) ∙ ap is_some unrevoked) (
            Post-bind λ q done. Post-ok (
              rw (find-id grant_id db.grants pair.0 row) at (
                (revoke_now-Post sha256 clock fresh_id reason actor pair.0 roles db
                    ((grant_and_facts-found grant_id db).holds pair finds) w).holds
                  q done)))

  -- When `revoke` succeeds for a grant that is not revoked yet, in tables with the invariant, then
  -- the validator accepts no claims under the id of a token of that grant, at any time and for any
  -- action and profile.
  pub revoke-tokens_refused :
      (clock : ℕ → ℕ) (fresh_id grant_id : ℕ) (reason : Text) (actor : Actor) (db : Db) (g : Grant)
      (r : RevocationRequest × ℕ × Bool × Db) (t : AuthorizationToken) (v : Validator) (now : ℕ)
      (action : ConsentAction) (profile_id : ℕ) (c : Claims)
      → WellFormed sha256 db
      → find_grant grant_id db ≡ some g
      → g.revoked_at ≡ none
      → revoke sha256 clock fresh_id grant_id reason actor db ≡ ok r
      → find (λ t. t.jti == c.jti) r.3.tokens ≡ some t
      → t.consent_grant_id ≡ some grant_id
      → check_claims v r.3 now action profile_id c ≢ none
  revoke-tokens_refused clock fresh_id grant_id reason actor db g r t v now action profile_id c w
        found unrevoked h row of_grant accepted =
      let ended = revoke-Ended clock fresh_id grant_id reason actor db g r w found unrevoked h in
      let gone = revoked_status grant_id c.jti r.3 t ended.1 row of_grant in
      let active = ((check_claims-none_iff v r.3 now action profile_id c).0 accepted).6 in cc

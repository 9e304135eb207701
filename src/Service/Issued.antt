-- ===== src/Service/Issued.antt =====
-- The tokens that `authorize` of remembrance-consent/app/consent/kernel.py issues, against the
-- decision and against the validator of tokens.py.
use the_st.Prelude.{
  ℕ, ◌≤◌, ◌==◌, ◌≡◌, refl, sym, ◌∙◌, Bool, true, false, Option, none, some, arith, Text, inl, inr,
  Bool-cases, Option-cases, ==_iff,
}
use the_st.Vocabulary.{ConsentAction, DeclaredPurpose}
use the_st.Purpose.{Unicode, is_banned_purpose}
use the_st.Kernel.{Actor, ProfileFacts, Decision, decide, decide_parsed}
use the_st.Kernel.Permission.{Permitted, decide-allowed_iff}
use the_st.Store.{AuthorizationToken, Db, load_profile_facts}
use the_st.Token.{Issuer, IssuedToken, make_issuer, issue, Validator, TokenStatus, status}
use the_st.Token.Validity.{Acceptable, issue-Acceptable}
use the_st.Service.{ok, Post, Post-ok, Post-bind}
use the_st.Service.Authorize.{
  Outcome, AuthorizationResult, violation, answered, issue_for, add_token, token_of, conclude,
  authorize,
}
use the_st.Service.Trail.{audit-ok}

decide-unknown :
    (u : Unicode) (action : ConsentAction) (code : Text) (actor : Actor)
    → (decide u action code actor none).allowed ≡ false
unfolding decide decide_parsed
decide-unknown u action code actor = ground arith

module _ (sha256 : Text → Text) (u : Unicode) where
  -- What `issue_for` gives: a token for a decision that allows, and a row for it that is not revoked.
  abbrev Issues :
      Issuer
      → ℕ
      → Actor
      → ConsentAction
      → ℕ
      → ℕ
      → Decision
      → Option (IssuedToken × AuthorizationToken)
      → Type 0
  Issues issuer jti actor action profile_id now decision none = Unit
  Issues issuer jti actor action profile_id now decision (some (t, row)) =
      (decision.allowed ≡ true)
      × (row.jti ≡ jti)
      × (row.revoked_at ≡ none)
      × ((purpose : DeclaredPurpose) × (t
            ≡ issue issuer jti actor.user_id action profile_id decision.grant_id purpose now))

  issue_for-Issues :
      (issuer : Issuer) (jti : ℕ) (actor : Actor) (action : ConsentAction) (profile_id now : ℕ)
      (decision : Decision)
      → Issues issuer jti actor action profile_id now decision
          (issue_for sha256 u issuer jti actor action profile_id now decision)
  unfolding issue_for issue
  issue_for-Issues issuer jti actor action profile_id now decision =
      elim (Bool-cases decision.allowed) [
        | inr e ↦ rw e tt
        | inl e ↦ elim (Option-cases decision.purpose) [
          | inl p ↦ rw (e, p) tt
          | inr (purpose, p) ↦ rw (e, p) (refl, refl, refl, (purpose, refl))
        ]
      ]

  status-add_token :
      (issuer : Issuer) (jti : ℕ) (actor : Actor) (action : ConsentAction) (profile_id now : ℕ)
      (decision : Decision) (issued : Option (IssuedToken × AuthorizationToken)) (t : IssuedToken)
      (db : Db)
      → Issues issuer jti actor action profile_id now decision issued
      → token_of issued ≡ some t
      → (decision.allowed ≡ true)
        × (status (add_token issued db) jti ≡ TokenStatus.active)
        × ((purpose : DeclaredPurpose) × (t
              ≡ issue issuer jti actor.user_id action profile_id decision.grant_id purpose now))
  unfolding status
  status-add_token issuer jti actor action profile_id now decision none t db given h =
      absurd (ground arith)
  status-add_token issuer jti actor action profile_id now decision (some (x, row)) t db
        (allowed, id, live, (purpose, eq)) h =
      let same : x ≡ t = ground arith in
      let found : (row.jti == jti) ≡ true = (==_iff row.jti jti).1 id in
      (allowed, ground (arith, found, live), (purpose, sym same ∙ eq))

  -- What an outcome says of its token.
  abbrev Sound : Issuer → ℕ → Actor → ConsentAction → ℕ → ℕ → Decision → Outcome → Type 0
  Sound issuer jti actor action profile_id now decision (violation code db) = Unit
  Sound issuer jti actor action profile_id now decision (answered r db) =
      (t : IssuedToken)
      → r.issued ≡ some t
      → (decision.allowed ≡ true)
        × (status db jti ≡ TokenStatus.active)
        × ((purpose : DeclaredPurpose) × (t
              ≡ issue issuer jti actor.user_id action profile_id decision.grant_id purpose now))

  conclude-Sound :
      (issuer : Issuer) (clock : ℕ → ℕ) (jti : ℕ) (action : ConsentAction) (profile_id : ℕ)
      (actor : Actor) (purpose_code : Text) (known : Bool) (decision : Decision) (db : Db)
      → Post (Sound issuer jti actor action profile_id (clock 0) decision) (
          conclude sha256 u issuer clock jti action profile_id actor purpose_code known decision db)
  unfolding conclude status
  conclude-Sound issuer clock jti action profile_id actor purpose_code known decision db =
      Post-bind λ written writes. Post-ok λ t h.
        let issued = issue_for sha256 u issuer jti actor action profile_id (clock 0) decision in
        let given = issue_for-Issues issuer jti actor action profile_id (clock 0) decision in
        let sound =
          status-add_token issuer jti actor action profile_id (clock 0) decision issued t db given
            h in
        let (table, adds, eq) = audit-ok sha256 _ _ _ _ _ _ _ written writes in
        (sound.0, rw eq sound.1, sound.2)

  authorize-Sound :
      (issuer : Issuer) (clock : ℕ → ℕ) (jti : ℕ) (action : ConsentAction) (profile_id : ℕ)
      (actor : Actor) (purpose_code : Text) (db : Db)
      → Post
          (Sound issuer jti actor action profile_id
            (clock 0)
            (decide u action purpose_code actor (load_profile_facts profile_id db)))
          (authorize sha256 u issuer clock jti action profile_id actor purpose_code db)
  unfolding authorize
  authorize-Sound issuer clock jti action profile_id actor purpose_code db =
      elim (Bool-cases (is_banned_purpose u purpose_code)) [
        | inl e ↦ rw e (Post-bind λ written writes. Post-ok tt)
        | inr e ↦ rw e (conclude-Sound issuer clock jti action profile_id actor purpose_code _ _ db)
      ]

  -- When `authorize` answers with a token, the profile is known, the request is permitted, and in
  -- the tables that it leaves the claims of the token are acceptable to a validator from the moment
  -- of issue until the token expires. The issuer is one that its constructor makes.
  pub authorize-token :
      (name audience : Text) (ttl : ℕ) (issuer : Issuer) (clock : ℕ → ℕ) (jti : ℕ)
      (action : ConsentAction) (profile_id : ℕ) (actor : Actor) (purpose_code : Text) (db db' : Db)
      (r : AuthorizationResult) (t : IssuedToken) (v : Validator) (now : ℕ)
      → make_issuer name audience ttl ≡ some issuer
      → authorize sha256 u issuer clock jti action profile_id actor purpose_code db
        ≡ ok (answered r db')
      → r.issued ≡ some t
      → clock 0 ≤ now
      → now ≤ t.expires_at
      → ((facts : ProfileFacts) × (load_profile_facts profile_id db ≡ some facts)
          × Permitted u action purpose_code actor facts)
        × Acceptable v db' now action profile_id t.claims
  authorize-token name audience ttl issuer clock jti action profile_id actor purpose_code db db' r t
        v now made h issued after before =
      let sound =
        (authorize-Sound issuer clock jti action profile_id actor purpose_code db).holds
          (answered r db') h t issued in
      (
        elim (Option-cases (load_profile_facts profile_id db)) [
          | inl e ↦
              absurd (let no = decide-unknown u action purpose_code actor in cc (sound.0, e, no))
          | inr (facts, e) ↦
              (facts, e, (decide-allowed_iff u action purpose_code actor facts).0 (rw e at sound.0))
        ],
        rw sound.2.1 (
            issue-Acceptable name audience ttl issuer jti actor.user_id action profile_id _
              sound.2.0 (clock 0) now v db' made after (rw sound.2.1 at before) sound.1),
      )

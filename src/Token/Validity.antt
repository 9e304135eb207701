-- ===== src/Token/Validity.antt =====
-- What the checks of remembrance-consent/app/consent/tokens.py accept.
use the_st.Prelude.{
  ℕ, ◌+◌, ◌*◌, ◌≤◌, ◌<◌, ◌≡◌, refl, sym, ap, ◌&&◌, ◌↔◌, inl, inr, true, [], ◌∷◌, Option, none, some,
  arith, Text, leb, ==_iff, Bool-cases, mem_text, text_eq, text_eq_refl, find, List, Option-cases,
}
use the_st.Vocabulary.{ConsentAction, action_eq, DeclaredPurpose}
use the_st.Store.{Db}
use the_st.Token.{
  Claims, Issuer, make_issuer, issue, max_token_ttl_seconds, TokenStatus, status, Jwt, Validator,
  check_claims, validate,
}

-- What a token must be for its claims to be accepted.
abbrev pub Acceptable : Validator → Db → ℕ → ConsentAction → ℕ → Claims → Type 0
Acceptable v db now action profile_id c =
    (c.exp ≤ c.iat + 300)
    × (c.iat < c.exp)
    × (now ≤ (c.exp + v.leeway) * 1000000)
    × (c.nbf * 1000000 ≤ now + v.leeway * 1000000)
    × (action_eq c.act action ≡ true)
    × (c.pid ≡ profile_id)
    × (status db c.jti ≡ TokenStatus.active)

-- The checks on the claims of a token find nothing wrong exactly when its lifetime is positive and
-- at most 300 seconds, the current time lies in its validity with the leeway on both sides, it is
-- for this action and this profile, and the revocation table holds its id as active.
pub check_claims-none_iff :
    (v : Validator) (db : Db) (now : ℕ) (action : ConsentAction) (profile_id : ℕ) (c : Claims)
    → (check_claims v db now action profile_id c ≡ none) ↔ Acceptable v db now action profile_id c
unfolding check_claims
check_claims-none_iff v db now action profile_id c = ground (arith, ==_iff c.pid profile_id)

-- The claims are what the JWT library has decoded of the token, under one of the validator's keys.
abbrev pub DecodedBy : Jwt → Validator → Option Text → Claims → Type 0
DecodedBy jwt v none c = ⊥
DecodedBy jwt v (some t) c =
    (key : Text) × (mem_text key v.keys ≡ true) × (jwt.decode t key v.issuer v.audience ≡ inr c)

find-mem :
    (kid key : Text) (keys : List Text)
    → find (text_eq kid) keys ≡ some key
    → mem_text key keys ≡ true
find-mem kid key [] h = absurd (ground arith)
find-mem kid key (k ∷ ks) h = elim (Bool-cases (text_eq kid k)) [
  | inl e ↦ let same : k ≡ key = ground arith in rw same (ground (arith, text_eq_refl key))
  | inr e ↦ ground (arith, find-mem kid key ks (rw e at h))
]

-- A token that `validate` accepts has acceptable claims, and they are what the JWT library has
-- decoded of it under one of the validator's keys.
pub validate-accepts :
    (jwt : Jwt) (v : Validator) (db : Db) (now : ℕ) (token : Option Text) (action : ConsentAction)
    (profile_id : ℕ) (c : Claims)
    → validate jwt v db now token action profile_id ≡ inr c
    → Acceptable v db now action profile_id c × DecodedBy jwt v token c
unfolding validate
validate-accepts jwt v db now none action profile_id c h = absurd (ground arith)
validate-accepts jwt v db now (some []) action profile_id c h = absurd (ground arith)
validate-accepts jwt v db now (some (ch ∷ rest)) action profile_id c h =
    ((check_claims-none_iff v db now action profile_id c).0 (ground arith), decoded)
  where
    decoded : DecodedBy jwt v (some (ch ∷ rest)) c
    decoded = elim (Option-cases (jwt.header (ch ∷ rest))) [
      | inl e ↦ absurd (ground arith)
      | inr ((alg, typ, kid), e) ↦ elim (Option-cases (find (text_eq kid) v.keys)) [
        | inl f ↦ absurd (ground arith)
        | inr (key, f) ↦ (key, find-mem kid key v.keys f, ground arith)
      ]
    ]

pub action_eq_refl : (a : ConsentAction) → action_eq a a ≡ true
action_eq_refl a = ground arith

-- The lifetime of an issuer.
make_issuer-ttl :
    (issuer audience : Text) (ttl : ℕ) (i : Issuer)
    → make_issuer issuer audience ttl ≡ some i
    → (1 ≤ i.ttl) × (i.ttl ≤ 300)
unfolding make_issuer
make_issuer-ttl issuer audience ttl i h =
    elim (Bool-cases (leb 1 ttl && leb ttl max_token_ttl_seconds)) [
      | inl e ↦
          let same : i.ttl ≡ ttl =
            ap (λ o. elim o [ none ↦ ttl | some j ↦ j.ttl ]) (sym (rw e at h)) in
          rw same (ground arith)
      | inr e ↦ absurd (ground arith)
    ]

-- What an issuer that `make_issuer` has made issues has acceptable claims from the moment of issue
-- until its expiry, for the action and the profile that it was issued for, while the revocation
-- table holds it as active.
pub issue-Acceptable :
    (issuer audience : Text) (ttl : ℕ) (i : Issuer) (jti : ℕ) (actor_id : Text)
    (action : ConsentAction) (profile_id : ℕ) (grant_id : Option ℕ) (purpose : DeclaredPurpose)
    (at now : ℕ) (v : Validator) (db : Db)
    → make_issuer issuer audience ttl ≡ some i
    → at ≤ now
    → now ≤ (issue i jti actor_id action profile_id grant_id purpose at).expires_at
    → status db jti ≡ TokenStatus.active
    → Acceptable v db now action profile_id
        (issue i jti actor_id action profile_id grant_id purpose at).claims
unfolding issue
issue-Acceptable issuer audience ttl i jti actor_id action profile_id grant_id purpose at now v db
      made after before active =
    let (low, high) = make_issuer-ttl issuer audience ttl i made in
    (omega arith, omega arith, omega arith, omega arith, action_eq_refl action, refl, active)

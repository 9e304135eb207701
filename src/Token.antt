-- ===== src/Token.antt =====
-- Authorization tokens: remembrance-consent/app/consent/tokens.py. The JWT library is a parameter. A
-- `datetime` is its microseconds, and the seconds of the claims count from the same start as they, not
-- from 1970: only differences and comparisons of them are ever taken.
use the_st.Prelude.{
  ℕ, zero, suc, ◌+◌, ◌-◌, ◌*◌, ◌/◌, Bool, true, false, not, ◌&&◌, ◌||◌, List, [], ◌∷◌, Option, none,
  some, Text, ltb, leb, ◌==◌, ◌⊎◌, inl, inr, if◌then◌else◌, is_some, find, text_eq,
}
use the_st.Vocabulary.{ConsentAction, action_eq, is_synthesis, DeclaredPurpose, purpose_value}
use the_st.Store.{AuthorizationToken, Db}
pub mod Validity

abbrev pub max_token_ttl_seconds : ℕ
max_token_ttl_seconds = 300

abbrev pub clock_skew_seconds : ℕ
clock_skew_seconds = 5

abbrev pub microseconds : ℕ
microseconds = 1000000

-- The claims of a token; `iat`, `nbf` and `exp` are whole seconds.
pub record Claims : Type 0 where
  pub iss : Text
  pub aud : Text
  pub sub : Text
  pub jti : ℕ
  pub iat : ℕ
  pub nbf : ℕ
  pub exp : ℕ
  pub act : ConsentAction
  pub pid : ℕ
  pub gid : Option ℕ
  pub pur : Text
  pub dsc : Bool

-- `TokenIssuer`: the settings that `__init__` keeps.
pub record Issuer : Type 0 where
  pub issuer : Text
  pub audience : Text
  pub ttl : ℕ

-- `TokenIssuer.__init__`; `none` is its `ValueError`.
unfoldable pub make_issuer : Text → Text → ℕ → Option Issuer
make_issuer issuer audience ttl =
    if leb 1 ttl && leb ttl max_token_ttl_seconds
    then some (record { issuer = issuer; audience = audience; ttl = ttl })
    else none

pub record IssuedToken : Type 0 where
  pub claims : Claims
  pub jti : ℕ
  pub issued_at : ℕ
  pub expires_at : ℕ

-- `TokenIssuer.issue`, up to the signature: whole seconds, and `ttl` of them.
unfoldable pub issue :
    Issuer → ℕ → Text → ConsentAction → ℕ → Option ℕ → DeclaredPurpose → ℕ → IssuedToken
issue i jti actor_id action profile_id grant_id purpose now =
    let seconds = now / microseconds in
    record {
      claims = record {
        iss = i.issuer;
        aud = i.audience;
        sub = actor_id;
        jti = jti;
        iat = seconds;
        nbf = seconds;
        exp = seconds + i.ttl;
        act = action;
        pid = profile_id;
        gid = grant_id;
        pur = purpose_value purpose;
        dsc = is_synthesis action;
      };
      jti = jti;
      issued_at = seconds * microseconds;
      expires_at = (seconds + i.ttl) * microseconds;
    }

pub data TokenFailure : Type 0 where
  missing malformed unsupported_algorithm wrong_type unknown_key bad_signature wrong_issuer :
      TokenFailure
  wrong_audience expired not_yet_valid ttl_exceeds_limit action_mismatch profile_mismatch :
      TokenFailure
  unknown_token revoked : TokenFailure

pub data TokenStatus : Type 0 where
  unknown active revoked : TokenStatus

-- `SqlRevocationChecker.status`.
unfoldable pub status : Db → ℕ → TokenStatus
status db jti = elim (find (λ t. t.jti == jti) db.tokens) [
  | none ↦ TokenStatus.unknown
  | some t ↦ if is_some t.revoked_at then TokenStatus.revoked else TokenStatus.active
]

-- What `jwt.get_unverified_header` and `jwt.decode` give for a token: the fields of the header that
-- the validator reads, and the claims or a failure of the kinds in `_PYJWT_FAILURES`, with the key
-- id, the issuer and the audience that it hands over.
pub record Jwt : Type 0 where
  pub header : Text → Option (Text × Text × Text)
  pub decode : Text → Text → Text → Text → TokenFailure ⊎ Claims

pub record Validator : Type 0 where
  pub keys : List Text
  pub issuer : Text
  pub audience : Text
  pub leeway : ℕ
  pub algorithm : Text
  pub token_type : Text

-- The checks on the claims, in their order; `now` in microseconds, as the clock has fractions.
unfoldable pub check_claims : Validator → Db → ℕ → ConsentAction → ℕ → Claims → Option TokenFailure
check_claims v db now action profile_id c =
    if ltb (c.iat + max_token_ttl_seconds) c.exp || leb c.exp c.iat
    then some TokenFailure.ttl_exceeds_limit
    else if ltb ((c.exp + v.leeway) * microseconds) now
    then some TokenFailure.expired
    else if ltb (now + v.leeway * microseconds) (c.nbf * microseconds)
    then some TokenFailure.not_yet_valid
    else if not (action_eq c.act action)
    then some TokenFailure.action_mismatch
    else if not (c.pid == profile_id)
    then some TokenFailure.profile_mismatch
    else elim (status db c.jti) [
      | TokenStatus.unknown ↦ some TokenFailure.unknown_token
      | TokenStatus.revoked ↦ some TokenFailure.revoked
      | TokenStatus.active ↦ none
    ]

-- `TokenValidator.validate`; the claims stand for the `VerifiedAuthorization` that is made of them.
unfoldable pub validate :
    Jwt → Validator → Db → ℕ → Option Text → ConsentAction → ℕ → TokenFailure ⊎ Claims
validate jwt v db now none action profile_id = inl TokenFailure.missing
validate jwt v db now (some []) action profile_id = inl TokenFailure.missing
validate jwt v db now (some (ch ∷ rest)) action profile_id = elim (jwt.header (ch ∷ rest)) [
  | none ↦ inl TokenFailure.malformed
  | some (alg, typ, kid) ↦
      if not (text_eq alg v.algorithm)
      then inl TokenFailure.unsupported_algorithm
      else if not (text_eq typ v.token_type)
      then inl TokenFailure.wrong_type
      else elim (find (text_eq kid) v.keys) [
        | none ↦ inl TokenFailure.unknown_key
        | some key ↦ elim (jwt.decode (ch ∷ rest) key v.issuer v.audience) [
          | inl failure ↦ inl failure
          | inr c ↦ elim (check_claims v db now action profile_id c) [
            | some failure ↦ inl failure
            | none ↦ inr c
          ]
        ]
      ]
]

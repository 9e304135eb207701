-- ===== src/Kernel/Grants.antt =====
-- One grant under one request: `_grant_failure` of remembrance-consent/app/consent/kernel.py.
use the_st.Prelude.{◌≡◌, ◌↔◌, true, false, none, arith}
use the_st.Vocabulary.{DeclaredPurpose, ConsentAction}
use the_st.Kernel.{
  Actor, GrantFacts, ProfileFacts, may_use, in_scope, satisfied, grant_quorum, grant_failure,
}

-- What a grant must satisfy before a use action may rest on it.
pub record Passes (action : ConsentAction) (purpose : DeclaredPurpose) (actor : Actor)
    (facts : ProfileFacts) (grant : GrantFacts) : Type 0 where
  pub role : may_use action actor grant facts ≡ true
  pub live : grant.revoked ≡ false
  pub active : grant.is_active ≡ true
  pub verified : grant.verified ≡ true
  pub scoped : in_scope purpose grant ≡ true
  pub quorum : satisfied (grant_quorum grant) ≡ true

module _ (action : ConsentAction) (purpose : DeclaredPurpose) (actor : Actor)
    (facts : ProfileFacts) where
  -- A grant has no failure exactly when it satisfies every one of the six conditions.
  pub grant_failure-none_iff :
      (grant : GrantFacts)
      → (grant_failure action purpose actor facts grant ≡ none)
        ↔ Passes action purpose actor facts grant
  unfolding grant_failure
  grant_failure-none_iff grant = (λ h. ground arith, λ p. ground arith)

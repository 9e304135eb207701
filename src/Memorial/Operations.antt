-- ===== src/Memorial/Operations.antt =====
-- What each operation of remembrance/consent.py, succession.py and erasure.py keeps of the
-- invariant, when it raises nothing.
use the_st.Prelude.{ℕ, refl, Option, arith, Text, codes, text_eq, Bool-cases, inl, inr}
use the_st.Purpose.{strip}
use the_st.Fallible.{or_fail-eq-ok, Post, Post-ok, Post-bind, Post-guard}
use the_st.Memorial.{Platform, Site}
use the_st.Memorial.Consent.{
  Revoker, record_grant, verify_grant, revoke_grant, confirm_death, clear_death, authorize,
  current_grant, append_event, pending_grant,
}
use the_st.Memorial.Append.{grow}
use the_st.Memorial.Invariant.{
  GoodGrants-add, GoodGrants-verify, GoodGrants-revoke, Sound, operator_identity-IsOperator,
}

module _ (sha256 : Text → Text) where
  pub record_grant-Sound :
      (u : Platform) (clock : ℕ → Text) (fresh mid owner_id signed_name audience activation : Text)
      (site : Site)
      → Sound sha256 site
      → Post
          (λ r. Sound sha256 r.1)
          (record_grant sha256 u clock fresh mid owner_id signed_name audience activation site)
  unfolding record_grant current_grant append_event text_eq
  record_grant-Sound u clock fresh mid owner_id signed_name audience activation site
        (grown, grants, nominations, requests) =
      Post-guard _ _ λ _. Post-bind λ memorial _. Post-guard _ _ λ _. Post-guard _ _ λ unset.
        Post-guard _ _ λ new. Post-ok (
          grow _ _ _ _ _ _ grown,
          GoodGrants-add
              (pending_grant (clock 0) fresh mid owner_id (strip u.is_space signed_name) audience
                activation memorial)
              site.grants (ground arith) new refl grants,
          nominations,
          requests,
        )

  pub verify_grant-Sound :
      (u : Platform) (clock : ℕ → Text) (gid reviewer reference : Text) (site : Site)
      → Sound sha256 site
      → Post (Sound sha256) (verify_grant sha256 u clock gid reviewer reference site)
  unfolding verify_grant append_event
  verify_grant-Sound u clock gid reviewer reference site (grown, grants, nominations, requests) =
      Post-bind λ (actor, evidence) who. Post-bind λ grant found. Post-guard _ _ λ pending.
        Post-ok (
          grow _ _ _ _ _ _ grown,
          GoodGrants-verify gid _ actor evidence grant site.grants (or_fail-eq-ok _ _ found)
              (ground arith)
              ((operator_identity-IsOperator sha256 u reviewer reference).holds (actor, evidence)
                who)
              grants,
          nominations,
          requests,
        )

  pub revoke_grant-Sound :
      (u : Platform) (clock : ℕ → Text) (mid gid : Text) (who : Revoker) (site : Site)
      → Sound sha256 site
      → Post (λ r. Sound sha256 r.1) (revoke_grant sha256 u clock mid gid who site)
  unfolding revoke_grant append_event
  revoke_grant-Sound u clock mid gid who site (grown, grants, nominations, requests) =
      Post-bind λ (actor, document) _. Post-bind λ memorial _. Post-guard _ _ λ _.
        Post-bind λ grant _. elim (Bool-cases (text_eq grant.status (codes "revoked"))) [
          | inl e ↦ rw e (Post-ok (grown, grants, nominations, requests))
          | inr e ↦ rw e (
              Post-ok (
                grow _ _ _ _ _ _ grown,
                GoodGrants-revoke gid _ actor site.grants grants,
                nominations,
                requests,
              ))
        ]

  pub confirm_death-Sound :
      (u : Platform) (clock : ℕ → Text) (today : ℕ) (mid death_date reviewer reference : Text)
      (site : Site)
      → Sound sha256 site
      → Post
          (Sound sha256)
          (confirm_death sha256 u clock today mid death_date reviewer reference site)
  unfolding confirm_death append_event
  confirm_death-Sound u clock today mid death_date reviewer reference site
        (grown, grants, nominations, requests) =
      Post-bind λ who _. Post-bind λ parsed _. Post-guard _ _ λ _. Post-bind λ control _.
        Post-guard _ _ λ _. Post-bind λ memorial _.
          Post-guard _ _ λ _. Post-ok (grow _ _ _ _ _ _ grown, grants, nominations, requests)

  pub clear_death-Sound :
      (u : Platform) (clock : ℕ → Text) (mid reviewer reference : Text) (site : Site)
      → Sound sha256 site
      → Post (Sound sha256) (clear_death sha256 u clock mid reviewer reference site)
  unfolding clear_death append_event
  clear_death-Sound u clock mid reviewer reference site (grown, grants, nominations, requests) =
      Post-bind λ who _. Post-bind λ control _.
        Post-guard _ _ λ _. Post-ok (grow _ _ _ _ _ _ grown, grants, nominations, requests)

  pub authorize-Sound :
      (clock : ℕ → Text) (mid role : Text) (actor_id : Option Text) (action purpose : Text)
      (site : Site)
      → Sound sha256 site
      → Sound sha256 (authorize sha256 clock mid role actor_id action purpose site).1
  unfolding authorize append_event
  authorize-Sound clock mid role actor_id action purpose site
        (grown, grants, nominations, requests) =
      (grow _ _ _ _ _ _ grown, grants, nominations, requests)

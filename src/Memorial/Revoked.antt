-- ===== src/Memorial/Revoked.antt =====
-- What a revocation by remembrance/consent.py takes from the visitors of a memorial.
use the_st.Prelude.{
  ℕ, ◌≡◌, refl, inl, inr, Bool, true, false, ◌&&◌, List, Option, none, some, arith, Text, codes,
  text_eq, find, Bool-cases,
}
use the_st.Fallible.{ok, or_fail-eq-ok, Post, Post-ok, Post-bind, Post-guard}
use the_st.Memorial.{Platform, User, Memorial, Control, Grant, Site, update, find_control}
use the_st.Memorial.Rows.{count-update_lt, count-zero_find, find-key, find-passes}
use the_st.Memorial.Consent.{
  Revoker, is_current, current_grant, revoked_with, revoke_grant, append_event, decide, decide_with,
  authorize,
}
use the_st.Memorial.Invariant.{Sound, GoodGrants, is_grant}
use the_st.Memorial.Erase.{Machine}
use the_st.Memorial.Steps.{Reached, Reached-Sound}
use the_st.Memorial.Access.{served, get_memorial, is_owner, get_memorial-permitted}

module _ (sha256 : Text → Text) where
  revoked-unset :
      (mid gid now actor : Text) (g : Grant) (gs : List Grant)
      → GoodGrants gs
      → find (λ x. text_eq x.id gid && text_eq x.memorial_id mid) gs ≡ some g
      → text_eq g.status (codes "revoked") ≡ false
      → find (is_current mid) (update (is_grant gid) (revoked_with now actor) gs) ≡ none
  unfolding text_eq
  revoked-unset mid gid now actor g gs (current, ids, reviewed) found live =
      let change = revoked_with now actor in
      let passes = find-passes _ gs g found in
      let lt =
        count-update_lt (is_current mid) (is_grant gid) change gs g
          (find-key (is_grant gid) (λ x. text_eq x.memorial_id mid) gs g (ids gid) found)
          (ground (arith, passes, live)) (λ x. ground arith) in
      let one = current mid in
      count-zero_find (is_current mid) (update (is_grant gid) change gs) (omega arith)

  revoke_grant-unset :
      (u : Platform) (clock : ℕ → Text) (mid gid : Text) (who : Revoker) (site : Site)
      → Sound sha256 site
      → Post
          (λ r. r.0 ≡ true → current_grant mid r.1 ≡ none)
          (revoke_grant sha256 u clock mid gid who site)
  unfolding revoke_grant append_event current_grant
  revoke_grant-unset u clock mid gid who site (grown, grants, rest, more) =
      Post-bind λ (actor, document) _. Post-bind λ memorial _. Post-guard _ _ λ _.
        Post-bind λ g found. elim (Bool-cases (text_eq g.status (codes "revoked"))) [
          | inl e ↦ rw e (Post-ok λ new. absurd (ground arith))
          | inr e ↦ rw e (
              Post-ok λ new.
                revoked-unset mid gid (clock 0) actor g site.grants grants (or_fail-eq-ok _ _ found)
                  e)
        ]

  decide_with-none :
      (control : Option Control) (role action purpose : Text)
      → (decide_with control none role action purpose).0.allowed ≡ false
  unfolding decide_with decide
  decide_with-none none role action purpose = refl
  decide_with-none (some control) role action purpose = ground arith

  -- After a call of `revoke_grant` that has revoked a grant, in a state that operations have led to,
  -- `authorize` allows no request on that memorial.
  pub revoke_grant-denies :
      (m : Machine) (u : Platform) (clock clock' : ℕ → Text) (mid gid : Text) (who : Revoker)
      (site : Site) (role : Text) (actor_id : Option Text) (action purpose : Text)
      → Reached sha256 m
      → revoke_grant sha256 u clock mid gid who m.world.site ≡ ok (true, site)
      → (authorize sha256 clock' mid role actor_id action purpose site).0.allowed ≡ false
  unfolding authorize
  revoke_grant-denies m u clock clock' mid gid who site role actor_id action purpose reached run =
      let unset =
        (revoke_grant-unset u clock mid gid who m.world.site (Reached-Sound sha256 reached)).holds
          (true, site) run refl in
      rw unset (decide_with-none (find_control mid site) role action purpose)

  -- After a call of `revoke_grant` that has revoked a grant, in a state that operations have led to,
  -- `get_memorial` serves a memorial that has consent controls to its owner only.
  pub revoke_grant-hides :
      (m : Machine) (u : Platform) (clock clock' : ℕ → Text) (mid gid : Text) (who : Revoker)
      (site : Site) (control : Control) (user : Option User) (owner : Bool) (memorial : Memorial)
      (role : Text)
      → Reached sha256 m
      → revoke_grant sha256 u clock mid gid who m.world.site ≡ ok (true, site)
      → find_control mid site ≡ some control
      → (get_memorial sha256 clock' user mid owner site).0 ≡ served memorial role
      → is_owner user memorial ≡ true
  revoke_grant-hides m u clock clock' mid gid who site control user owner memorial role reached run
        controlled visit =
      let unset =
        (revoke_grant-unset u clock mid gid who m.world.site (Reached-Sound sha256 reached)).holds
          (true, site) run refl in
      elim ((get_memorial-permitted sha256 clock' user mid owner site memorial role visit).2) [
        | inl mine ↦ mine
        | inr (plain, shared) ↦ elim (shared.permitted) [
          | inl free ↦ absurd (ground (arith, free, controlled))
          | inr (c, g, e, found, covers) ↦ absurd (ground (arith, found, unset))
        ]
      ]

-- ===== src/Memorial/Care.antt =====
-- What the operations of remembrance/succession.py, and the requests and the erasure of
-- remembrance/erasure.py, keep of the invariant, when they raise nothing.
use the_st.Prelude.{
  ℕ, ◌≡◌, refl, true, false, List, some, arith, Text, codes, text_eq, text_eq_iff, find, Bool-cases,
  inl, inr,
}
use the_st.Json.{Value}
use the_st.Purpose.{strip}
use the_st.Fallible.{or_fail-eq-ok, Post, Post-ok, Post-bind, Post-guard}
use the_st.Memorial.{Platform, Nomination, Site, one_of}
use the_st.Memorial.Rows.{find-key, count-any-false, count-add}
use the_st.Memorial.Consent.{append_event}
use the_st.Memorial.Succession.{
  Answer, offered, is_active, is_nomination, is_pending, has_pending_erasure, activity, nominate,
  respond, answer_with, cancel, complete, transfer, accepted_with, closed_with, completed_with,
}
use the_st.Memorial.Erasures.{
  request, withdraw, decline_request, pending_request, withdrawn_with, declined_with,
}
use the_st.Memorial.Append.{grow}
use the_st.Memorial.Invariant.{
  GoodNominations-add, GoodNominations-update, GoodRequests-close, Sound,
}

module _ (sha256 : Text → Text) where
  -- The two writes of `activity` keep the invariant.
  pub activity-Sound :
      (now later mid event_type actor_id request_id : Text) (document : List (Text × Value))
      (site : Site)
      → Sound sha256 site
      → Sound sha256 (activity sha256 now later mid event_type actor_id request_id document site)
  unfolding activity append_event
  activity-Sound now later mid event_type actor_id request_id document site
        (grown, grants, nominations, requests) =
      (grow _ _ _ _ _ _ grown, grants, nominations, requests)

  pub nominate-Sound :
      (u : Platform) (clock : ℕ → Text) (fresh mid owner_id email account_code : Text) (site : Site)
      → Sound sha256 site
      → Post
          (λ r. Sound sha256 r.1)
          (nominate sha256 u clock fresh mid owner_id email account_code site)
  unfolding nominate
  nominate-Sound u clock fresh mid owner_id email account_code site
        (grown, grants, nominations, requests) =
      Post-bind λ memorial _. Post-bind λ nominee _. Post-guard _ _ λ _. Post-guard _ _ λ unset.
        Post-bind λ owner _. Post-guard _ _ λ new. Post-ok (
          activity-Sound _ _ _ _ _ _ _ _ (
            grown,
            grants,
            GoodNominations-add (offered (clock 0) fresh mid owner_id nominee memorial owner)
                site.nominations unset new nominations,
            requests,
          ))

  -- A nomination that is closed is active no more.
  closed-inactive :
      (status now : Text) (n : Nomination) (mid : Text)
      → one_of (codes "offered") (codes "accepted") status ≡ false
      → is_active mid (closed_with status now n) ≡ true
      → is_active mid n ≡ true
  unfolding is_active
  closed-inactive status now n mid closed active = absurd (ground arith)

  answer_with-Sound :
      (clock : ℕ → Text) (request_id nominee_id : Text) (n : Nomination) (answer : Answer)
      (site : Site)
      → find (is_nomination request_id) site.nominations ≡ some n
      → one_of (codes "offered") (codes "accepted") n.status ≡ true
      → Sound sha256 site
      → Sound sha256 (answer_with sha256 clock request_id nominee_id n answer site).1
  unfolding answer_with is_active one_of text_eq
  answer_with-Sound clock request_id nominee_id n (Answer.accept name authority) site found live
        (grown, grants, nominations, requests) =
      elim (Bool-cases (text_eq n.status (codes "accepted"))) [
        | inl e ↦ rw e (grown, grants, nominations, requests)
        | inr e ↦ rw e (
            activity-Sound _ _ _ _ _ _ _ _ (
              grown,
              grants,
              GoodNominations-update request_id (accepted_with (clock 0) name authority) n
                  site.nominations found (λ x. refl) (λ mid active. ground (arith, live))
                  nominations,
              requests,
            ))
      ]
  answer_with-Sound clock request_id nominee_id n Answer.decline site found live
        (grown, grants, nominations, requests) =
      activity-Sound _ _ _ _ _ _ _ _ (
        grown,
        grants,
        GoodNominations-update request_id (closed_with (codes "declined") (clock 0)) n
            site.nominations found (λ x. refl)
            (λ mid. closed-inactive (codes "declined") (clock 0) n mid refl) nominations,
        requests,
      )

  pub respond-Sound :
      (u : Platform) (clock : ℕ → Text) (request_id nominee_id action signed_name authority : Text)
      (site : Site)
      → Sound sha256 site
      → Post
          (λ r. Sound sha256 r.1)
          (respond sha256 u clock request_id nominee_id action signed_name authority site)
  unfolding respond
  respond-Sound u clock request_id nominee_id action signed_name authority site
        (grown, grants, nominations, requests) =
      Post-bind λ answer _. Post-bind λ n found. Post-bind λ memorial _. Post-guard _ _ λ live.
        Post-ok (
          answer_with-Sound clock request_id nominee_id n answer site
            (find-key (is_nomination request_id) _ site.nominations n (nominations.1 request_id)
              (or_fail-eq-ok _ _ found))
            (ground arith) (grown, grants, nominations, requests))

  pub cancel-Sound :
      (clock : ℕ → Text) (mid request_id owner_id : Text) (site : Site)
      → Sound sha256 site
      → Post (λ r. Sound sha256 r.1) (cancel sha256 clock mid request_id owner_id site)
  unfolding cancel one_of text_eq
  cancel-Sound clock mid request_id owner_id site (grown, grants, nominations, requests) =
      Post-bind λ memorial _. Post-bind λ n found.
        elim (Bool-cases (one_of (codes "cancelled") (codes "declined") n.status)) [
          | inl e ↦ rw e (Post-ok (grown, grants, nominations, requests))
          | inr e ↦ rw e (
              Post-guard _ _ λ _. Post-ok (
                activity-Sound _ _ _ _ _ _ _ _ (
                  grown,
                  grants,
                  GoodNominations-update request_id (closed_with (codes "cancelled") (clock 0)) n
                      site.nominations
                      (find-key (is_nomination request_id) _ site.nominations n
                        (nominations.1 request_id) (or_fail-eq-ok _ _ found))
                      (λ x. refl) (λ m. closed-inactive (codes "cancelled") (clock 0) n m refl)
                      nominations,
                  requests,
                )))
        ]

  complete-Sound :
      (clock : ℕ → Text) (request_id actor evidence from_owner_id to_account_id : Text)
      (n : Nomination) (site : Site)
      → find (is_nomination request_id) site.nominations ≡ some n
      → Sound sha256 site
      → Post
          (λ r. Sound sha256 r.1)
          (complete sha256 clock request_id actor evidence from_owner_id to_account_id n site)
  unfolding complete is_active one_of text_eq
  complete-Sound clock request_id actor evidence from_owner_id to_account_id n site found
        (grown, grants, nominations, requests) =
      Post-guard _ _ λ _. Post-bind λ memorial _. Post-guard _ _ λ _.
        Post-bind λ (name, authority) _. Post-bind λ accepted_at _. Post-ok (
          activity-Sound _ _ _ _ _ _ _ _ (
            grown,
            grants,
            GoodNominations-update request_id (completed_with (clock 0) actor evidence memorial) n
                site.nominations found (λ x. refl) (λ mid active. absurd (ground arith))
                nominations,
            requests,
          ))

  pub transfer-Sound :
      (u : Platform) (clock : ℕ → Text)
      (request_id from_owner_id to_account_id reviewer reference : Text) (site : Site)
      → Sound sha256 site
      → Post
          (λ r. Sound sha256 r.1)
          (transfer sha256 u clock request_id from_owner_id to_account_id reviewer reference site)
  unfolding transfer
  transfer-Sound u clock request_id from_owner_id to_account_id reviewer reference site sound =
      Post-bind λ (actor, evidence) _. Post-bind λ n found. Post-guard _ _ λ _.
        elim (Bool-cases (text_eq n.status (codes "completed"))) [
          | inl e ↦ rw e (Post-ok sound)
          | inr e ↦ rw e (
              complete-Sound clock request_id actor evidence from_owner_id to_account_id n site
                (or_fail-eq-ok _ _ found) sound)
        ]

  pub request-Sound :
      (u : Platform) (clock : ℕ → Text) (fresh mid owner_id signed_name : Text) (site : Site)
      → Sound sha256 site
      → Post (λ r. Sound sha256 r.1) (request sha256 u clock fresh mid owner_id signed_name site)
  unfolding request has_pending_erasure
  request-Sound u clock fresh mid owner_id signed_name site (grown, grants, nominations, requests) =
      Post-guard _ _ λ _. Post-bind λ memorial _. Post-guard _ _ λ unset. Post-guard _ _ λ _.
        Post-ok (
          activity-Sound _ _ _ _ _ _ _ _ (
            grown,
            grants,
            nominations,
            count-add mid is_pending
                (pending_request (clock 0) fresh mid owner_id (strip u.is_space signed_name))
                site.erasure_requests (count-any-false (is_pending mid) site.erasure_requests unset)
                (λ m pending. (text_eq_iff mid m).0 (ground arith)) requests,
          ))

  pub withdraw-Sound :
      (clock : ℕ → Text) (mid request_id owner_id : Text) (site : Site)
      → Sound sha256 site
      → Post (λ r. Sound sha256 r.1) (withdraw sha256 clock mid request_id owner_id site)
  unfolding withdraw text_eq
  withdraw-Sound clock mid request_id owner_id site (grown, grants, nominations, requests) =
      Post-bind λ memorial _. Post-bind λ row _.
        elim (Bool-cases (text_eq row.status (codes "pending"))) [
          | inr e ↦ rw e (Post-ok (grown, grants, nominations, requests))
          | inl e ↦ rw e (
              Post-ok (
                activity-Sound _ _ _ _ _ _ _ _ (
                  grown,
                  grants,
                  nominations,
                  GoodRequests-close request_id (withdrawn_with (clock 0) owner_id)
                      site.erasure_requests (λ x. refl) requests,
                )))
        ]

  pub decline_request-Sound :
      (u : Platform) (clock : ℕ → Text) (request_id reviewer reference : Text) (site : Site)
      → Sound sha256 site
      → Post
          (λ r. Sound sha256 r.1)
          (decline_request sha256 u clock request_id reviewer reference site)
  unfolding decline_request text_eq
  decline_request-Sound u clock request_id reviewer reference site
        (grown, grants, nominations, requests) =
      Post-bind λ (actor, evidence) _. Post-bind λ row _.
        elim (Bool-cases (text_eq row.status (codes "declined"))) [
          | inl e ↦ rw e (Post-ok (grown, grants, nominations, requests))
          | inr e ↦ rw e (
              Post-guard _ _ λ _. Post-ok (
                activity-Sound _ _ _ _ _ _ _ _ (
                  grown,
                  grants,
                  nominations,
                  GoodRequests-close request_id (declined_with (clock 0) actor evidence)
                      site.erasure_requests (λ x. refl) requests,
                )))
        ]

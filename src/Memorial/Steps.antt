-- ===== src/Memorial/Steps.antt =====
-- Sequences of operations on the memorial site, of remembrance/consent.py, succession.py and
-- erasure.py, in any order and by anyone.
use the_st.Prelude.{ℕ, ◌≤◌, ◌≡◌, Bool, List, [], Option, none, Text, All, arith}
use the_st.Json.{Value}
use the_st.Fallible.{ok}
use the_st.Memorial.{Platform, Site, Event}
use the_st.Memorial.Rows.{count}
use the_st.Memorial.Consent.{
  Revoker, is_current, record_grant, verify_grant, revoke_grant, confirm_death, clear_death,
  authorize,
}
use the_st.Memorial.Succession.{is_active, is_pending, nominate, respond, cancel, transfer}
use the_st.Memorial.Ledger.{Reader}
use the_st.Memorial.Erasures.{request, withdraw, decline_request}
use the_st.Memorial.Erase.{Machine, erase, reapply_ledger}
use the_st.Memorial.History.{verify_history}
use the_st.Memorial.Chains.{own}
use the_st.Memorial.Append.{story, empty, Grown-verifies}
use the_st.Memorial.Invariant.{Sound, Reviewed}
use the_st.Memorial.Kept.{erase_identified-Sound, reapply_ledger-Sound}
use the_st.Memorial.Operations.{
  record_grant-Sound, verify_grant-Sound, revoke_grant-Sound, confirm_death-Sound,
  clear_death-Sound, authorize-Sound,
}
use the_st.Memorial.Care.{
  nominate-Sound, respond-Sound, cancel-Sound, transfer-Sound, request-Sound, withdraw-Sound,
  decline_request-Sound,
}

-- The tables of a machine replaced.
abbrev with_site : Site → Machine → Machine
with_site site m = record m { world = record (m.world) { site = site } }

module _ (sha256 : Text → Text) where
  -- One operation. Those on the tables raise nothing; `erase` and `reapply` may also end in an error,
  -- after which what they have done stays.
  pub data Step : Machine → Machine → Type 0 where
    recorded :
        {m : Machine} (u : Platform) (clock : ℕ → Text)
        (fresh mid owner_id signed_name audience activation : Text) (r : Text × Site)
        → record_grant sha256 u clock fresh mid owner_id signed_name audience activation
            m.world.site
          ≡ ok r
        → Step m (with_site r.1 m)
    verified :
        {m : Machine} (u : Platform) (clock : ℕ → Text) (gid reviewer reference : Text)
        (site : Site)
        → verify_grant sha256 u clock gid reviewer reference m.world.site ≡ ok site
        → Step m (with_site site m)
    revoked :
        {m : Machine} (u : Platform) (clock : ℕ → Text) (mid gid : Text) (who : Revoker)
        (r : Bool × Site)
        → revoke_grant sha256 u clock mid gid who m.world.site ≡ ok r
        → Step m (with_site r.1 m)
    confirmed :
        {m : Machine} (u : Platform) (clock : ℕ → Text) (today : ℕ)
        (mid death_date reviewer reference : Text) (site : Site)
        → confirm_death sha256 u clock today mid death_date reviewer reference m.world.site
          ≡ ok site
        → Step m (with_site site m)
    cleared :
        {m : Machine} (u : Platform) (clock : ℕ → Text) (mid reviewer reference : Text)
        (site : Site)
        → clear_death sha256 u clock mid reviewer reference m.world.site ≡ ok site
        → Step m (with_site site m)
    authorized :
        {m : Machine} (clock : ℕ → Text) (mid role : Text) (actor_id : Option Text)
        (action purpose : Text)
        → Step m
            (with_site (authorize sha256 clock mid role actor_id action purpose m.world.site).1 m)
    nominated :
        {m : Machine} (u : Platform) (clock : ℕ → Text)
        (fresh mid owner_id email account_code : Text) (r : Text × Site)
        → nominate sha256 u clock fresh mid owner_id email account_code m.world.site ≡ ok r
        → Step m (with_site r.1 m)
    responded :
        {m : Machine} (u : Platform) (clock : ℕ → Text)
        (request_id nominee_id action signed_name authority : Text) (r : Bool × Site)
        → respond sha256 u clock request_id nominee_id action signed_name authority m.world.site
          ≡ ok r
        → Step m (with_site r.1 m)
    cancelled :
        {m : Machine} (clock : ℕ → Text) (mid request_id owner_id : Text) (r : Bool × Site)
        → cancel sha256 clock mid request_id owner_id m.world.site ≡ ok r
        → Step m (with_site r.1 m)
    transferred :
        {m : Machine} (u : Platform) (clock : ℕ → Text)
        (request_id from_owner_id to_account_id reviewer reference : Text) (r : Bool × Site)
        → transfer sha256 u clock request_id from_owner_id to_account_id reviewer reference
            m.world.site
          ≡ ok r
        → Step m (with_site r.1 m)
    requested :
        {m : Machine} (u : Platform) (clock : ℕ → Text) (fresh mid owner_id signed_name : Text)
        (r : Text × Site)
        → request sha256 u clock fresh mid owner_id signed_name m.world.site ≡ ok r
        → Step m (with_site r.1 m)
    withdrawn :
        {m : Machine} (clock : ℕ → Text) (mid request_id owner_id : Text) (r : Bool × Site)
        → withdraw sha256 clock mid request_id owner_id m.world.site ≡ ok r
        → Step m (with_site r.1 m)
    declined :
        {m : Machine} (u : Platform) (clock : ℕ → Text) (request_id reviewer reference : Text)
        (r : Bool × Site)
        → decline_request sha256 u clock request_id reviewer reference m.world.site ≡ ok r
        → Step m (with_site r.1 m)
    erased :
        {m : Machine} (u : Platform) (r : Reader) (clock : ℕ → Text)
        (mid owner_id reviewer reference : Text) (path data_dir : List Text)
        → Step m (erase sha256 u r clock mid owner_id reviewer reference path data_dir m).0
    reapplied :
        {m : Machine} (r : Reader) (clock : ℕ → Text) (path data_dir : List Text)
        → Step m (reapply_ledger sha256 r clock path data_dir m).0

  pub Step-Sound :
      {m m' : Machine} → Step m m' → Sound sha256 m.world.site → Sound sha256 m'.world.site
  Step-Sound (recorded u clock fresh mid owner_id name audience activation r h) w =
      (record_grant-Sound sha256 u clock fresh mid owner_id name audience activation _ w).holds r h
  Step-Sound (verified u clock gid reviewer reference site h) w =
      (verify_grant-Sound sha256 u clock gid reviewer reference _ w).holds site h
  Step-Sound (revoked u clock mid gid who r h) w =
      (revoke_grant-Sound sha256 u clock mid gid who _ w).holds r h
  Step-Sound (confirmed u clock today mid day reviewer reference site h) w =
      (confirm_death-Sound sha256 u clock today mid day reviewer reference _ w).holds site h
  Step-Sound (cleared u clock mid reviewer reference site h) w =
      (clear_death-Sound sha256 u clock mid reviewer reference _ w).holds site h
  Step-Sound (authorized clock mid role actor_id action purpose) w =
      authorize-Sound sha256 clock mid role actor_id action purpose _ w
  Step-Sound (nominated u clock fresh mid owner_id email account_code r h) w =
      (nominate-Sound sha256 u clock fresh mid owner_id email account_code _ w).holds r h
  Step-Sound (responded u clock request_id nominee_id action name authority r h) w =
      (respond-Sound sha256 u clock request_id nominee_id action name authority _ w).holds r h
  Step-Sound (cancelled clock mid request_id owner_id r h) w =
      (cancel-Sound sha256 clock mid request_id owner_id _ w).holds r h
  Step-Sound (transferred u clock request_id from to reviewer reference r h) w =
      (transfer-Sound sha256 u clock request_id from to reviewer reference _ w).holds r h
  Step-Sound (requested u clock fresh mid owner_id name r h) w =
      (request-Sound sha256 u clock fresh mid owner_id name _ w).holds r h
  Step-Sound (withdrawn clock mid request_id owner_id r h) w =
      (withdraw-Sound sha256 clock mid request_id owner_id _ w).holds r h
  Step-Sound (declined u clock request_id reviewer reference r h) w =
      (decline_request-Sound sha256 u clock request_id reviewer reference _ w).holds r h
  Step-Sound (erased u r clock mid owner_id reviewer reference path data_dir) w =
      unfold erase in erase_identified-Sound sha256 r clock mid owner_id _ _ w
  Step-Sound (reapplied r clock path data_dir) w =
      reapply_ledger-Sound sha256 r clock path data_dir _ w

  pub data Reached : Machine → Type 0 where
    start :
        {m : Machine}
        → m.world.site.history ≡ []
        → m.world.site.grants ≡ []
        → m.world.site.nominations ≡ []
        → m.world.site.erasure_requests ≡ []
        → Reached m
    step : {m m' : Machine} → Reached m → Step m m' → Reached m'

  pub Reached-Sound : {m : Machine} → Reached m → Sound sha256 m.world.site
  Reached-Sound (start history grants nominations requests) = (
    rw history empty,
    rw grants ((λ mid. omega arith), (λ id. omega arith), tt),
    rw nominations ((λ mid. omega arith), λ id. omega arith),
    rw requests (λ mid. omega arith),
  )
  Reached-Sound (step r s) = Step-Sound s (Reached-Sound r)

  -- Whatever operations have run since a site without history, grants, nominations and requests, in
  -- any order and by anyone: no memorial has two grants that are not revoked, two nominations that
  -- are offered or accepted, or two erasure requests that wait; every verified grant was verified by
  -- an operator; and `verify_history` without a checkpoint raises nothing on the rows of the history,
  -- when these are, of each memorial, its events from the oldest on.
  pub Reached-sound :
      {m : Machine} (rows : List Event)
      → Reached m
      → ((mid : Text) → own mid rows ≡ story mid m.world.site.history)
      → ((mid : Text)
          → (count (is_current mid) m.world.site.grants ≤ 1)
            × (count (is_active mid) m.world.site.nominations ≤ 1)
            × (count (is_pending mid) m.world.site.erasure_requests ≤ 1))
        × All Reviewed m.world.site.grants
        × ((v : Value) × (verify_history sha256 none rows ≡ ok v))
  Reached-sound rows reached ordered =
      let (grown, grants, nominations, requests) = Reached-Sound reached in
      (
        (λ mid. (grants.0 mid, nominations.0 mid, requests mid)),
        grants.2,
        Grown-verifies sha256 rows grown ordered,
      )

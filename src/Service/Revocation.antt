-- ===== src/Service/Revocation.antt =====
-- The endpoint that revokes a grant (remembrance-consent/app/consent/router.py), and the invalidation
-- of its tokens (cascade.py).
use the_st.Prelude.{
  ℕ, Bool, true, false, not, ◌&&◌, List, [], ◌∷◌, map, Option, none, some, Text, codes, ◌==◌,
  if◌then◌else◌, is_none, is_some, length, keep,
}
use the_st.Format.{uuid_text}
use the_st.Json.{pos, Value}
use the_st.Vocabulary.{AuditEventType, Role, RevocationStatus, is_complete}
use the_st.Kernel.{Actor}
use the_st.Store.{Grant, AuthorizationToken, RevocationRequest, Db, find_request}
use the_st.Service.{
  Result, ok, ◌>>=◌, ◌>>◌, payload, sorted_texts, audit, require_human, grant_and_facts, require,
}
use the_st.Service.Grants.{texts}
use the_st.Service.Rights.{set_grant}

-- The grant as `revoke` leaves it.
abbrev pub revoked_for : ℕ → Text → Grant → Grant
revoked_for now reason g = record g {
  is_active = false;
  revoked_at = some now;
  revocation_reason = some reason;
}

-- The rows that the update of `revoke_grant_tokens` meets.
unfoldable pub is_live : ℕ → AuthorizationToken → Bool
is_live grant_id t =
    elim (t.consent_grant_id) [ none ↦ false | some g ↦ g == grant_id ] && is_none t.revoked_at

unfoldable pub revoke_token : ℕ → ℕ → AuthorizationToken → AuthorizationToken
unfolding is_live
revoke_token grant_id now t = if is_live grant_id t then record t { revoked_at = some now } else t

-- `revoke_grant_tokens` of cascade.py: the number of rows, and the tables.
unfoldable pub revoke_grant_tokens : ℕ → ℕ → Db → ℕ × Db
unfolding is_live revoke_token
revoke_grant_tokens grant_id now db = (
  length (keep (is_live grant_id) db.tokens),
  record db { tokens = map (revoke_token grant_id now) db.tokens },
)

-- The roles that may revoke: `REVOKE_ROLES`.
abbrev revoke_roles : List Role
revoke_roles = Role.owner ∷ Role.beneficiary ∷ Role.successor ∷ Role.admin ∷ []

unfoldable pub role_value : Role → Text
role_value Role.public = codes "PUBLIC"
role_value Role.owner = codes "OWNER"
role_value Role.beneficiary = codes "BENEFICIARY"
role_value Role.successor = codes "SUCCESSOR"
role_value Role.admin = codes "ADMIN"

-- `sorted(r.value for r in roles - {Role.PUBLIC})`.
abbrev role_values : (Role → Bool) → List Text
role_values roles =
    sorted_texts (
      map role_value
        (keep roles (Role.owner ∷ Role.beneficiary ∷ Role.successor ∷ Role.admin ∷ [])))

-- The request that has revoked the grant already.
unfoldable pub earlier_request : Grant → Db → Option RevocationRequest
earlier_request grant db = if is_some grant.revoked_at then find_request grant.id db else none

module _ (sha256 : Text → Text) where
  -- The part of `revoke` for a grant that no request has revoked; also the tokens it invalidates.
  unfoldable pub revoke_now :
      (ℕ → ℕ) → ℕ → Text → Actor → Grant → (Role → Bool) → Db → Result (RevocationRequest × ℕ × Db)
  unfolding revoke_grant_tokens
  revoke_now clock fresh_id reason actor grant roles db =
      let now = clock 0 in
      let (invalidated, cleared) =
        revoke_grant_tokens grant.id now (set_grant grant.id (revoked_for now reason) db) in
      let request : RevocationRequest = record {
        id = fresh_id;
        consent_grant_id = grant.id;
        requested_by = actor.user_id;
        reason = reason;
        status = RevocationStatus.pending;
        created_at = now;
        updated_at = now;
        attempts = 0;
        last_error = none;
        cascade_completed_at = none;
      } in
      audit sha256 (clock 1) AuditEventType.consent_revoked actor.user_id grant.deceased_profile_id
        (some grant.id)
        (payload (
          (codes "revocation_request_id", Value.str (uuid_text fresh_id))
          ∷ (codes "revoked_by_roles", texts (role_values roles))
          ∷ (codes "tokens_invalidated", Value.int (pos invalidated))
          ∷ (codes "reason_sha256", Value.str (sha256 reason))
          ∷ []))
        (record cleared { requests = request ∷ cleared.requests })
      >>= λ written. ok (request, invalidated, written)

  -- `revoke`: its request, the tokens it has invalidated, whether the cascade is dispatched, and the
  -- tables.
  unfoldable pub revoke :
      (ℕ → ℕ) → ℕ → ℕ → Text → Actor → Db → Result (RevocationRequest × ℕ × Bool × Db)
  unfolding revoke_now earlier_request
  revoke clock fresh_id grant_id reason actor db = do
    require_human actor
    (grant, facts) ← grant_and_facts grant_id db
    roles ← require actor facts grant revoke_roles
    elim (earlier_request grant db) [
      | some request ↦ ok (request, 0, not (is_complete request.status), db)
      | none ↦ do
        (request, invalidated, written) ← revoke_now clock fresh_id reason actor grant roles db
        ok (request, invalidated, true, written)
    ]

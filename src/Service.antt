-- ===== src/Service.antt =====
-- What the endpoints of the consent service share: errors, the audit write, and the access checks
-- `_grant_and_facts`, `_require` and `_require_human` of remembrance-consent/app/consent/router.py.
-- A request is a function of the tables, of the readings of its clock (`clock n` is what the n-th
-- `clock.now()` of its text gives) and of the UUIDs that it draws (`fresh n`, in the same way).
use the_st.Prelude.{
  ℕ, Bool, true, false, not, ◌&&◌, ◌||◌, ◌⊎◌, inl, inr, List, [], ◌∷◌, Option, none, some, Text,
  any, if◌then◌else◌, ◌≡◌, refl, sym, ap, arith, String, codes,
}
use the_st.Vocabulary.{AuditEventType, Role}
use the_st.Json.{Value, Entries, text_lt}
use the_st.Kernel.{Actor, is_human, ProfileFacts, roles_for, is_deceased_actor}
use the_st.Audit.{PayloadError, append_event}
use the_st.Store.{Grant, Db, find_grant, load_profile_facts, from_row}
pub use the_st.Fallible.{
  Fallible, ok, fail, ◌>>◌, ok-inj, or_fail-eq-ok, Post, Post-ok, Post-bind, Post-guard, payload,
}
unfoldable pub use the_st.Fallible.{◌>>=◌, raise_if, or_fail}
pub mod Grants
pub mod Rights
pub mod Revocation
pub mod Profiles
pub mod Authorize
pub mod Trail
pub mod Endpoints
pub mod Steps
pub mod Revoked
pub mod Issued

-- The `ApiError`s, by their codes, and an error that the audit trail raises.
pub data Failure : Type 0 where
  not_found non_human_actor deceased_cannot_act admin_required owner_required : Failure
  date_of_death_in_future date_of_death_before_birth death_already_recorded : Failure
  pre_need_after_death estate_before_death pre_need_subject_conflict : Failure
  self_verification grant_revoked already_verified already_acknowledged successor_conflict : Failure
  purpose_violation : Failure
  bad_payload : PayloadError → Failure
  -- Errors of the cascade: retrying cannot succeed, or may.
  permanent transient : Failure

-- What an endpoint returns or raises.
abbrev pub Result {ℓ} : Type ℓ → Type ℓ
Result A = Fallible Failure A

-- `sorted` on strings.
unfoldable pub insert_text : Text → List Text → List Text
insert_text t [] = t ∷ []
insert_text t (u ∷ us) = if text_lt u t then u ∷ insert_text t us else t ∷ u ∷ us

unfoldable pub sorted_texts : List Text → List Text
unfolding insert_text
sorted_texts [] = []
sorted_texts (t ∷ ts) = insert_text t (sorted_texts ts)

-- `append_event(session, ...)` on the tables.
unfoldable pub audit :
    (Text → Text) → ℕ → AuditEventType → Text → ℕ → Option ℕ → Entries → Db → Result Db
audit sha256 now event_type actor_id profile_id grant_id document db =
    elim (append_event sha256 now event_type actor_id profile_id grant_id document db.audit) [
      | inl e ↦ fail (Failure.bad_payload e)
      | inr events ↦ ok (record db { audit = events })
    ]

-- `_require_human`.
abbrev pub require_human : Actor → Result (Unit {0})
require_human actor = raise_if (not (is_human actor.kind)) Failure.non_human_actor

-- `_grant_and_facts`; the foreign key gives the profile.
unfoldable pub grant_and_facts : ℕ → Db → Result (Grant × ProfileFacts)
grant_and_facts grant_id db = do
  grant ← or_fail (find_grant grant_id db) Failure.not_found
  facts ← or_fail (load_profile_facts grant.deceased_profile_id db) Failure.not_found
  ok (grant, facts)

-- `_require`: the roles of the actor, as their membership test.
unfoldable pub require : Actor → ProfileFacts → Grant → List Role → Result (Role → Bool)
require actor facts grant allowed = do
  let roles = roles_for actor facts (some (from_row grant))
  raise_if (not (any roles allowed)) Failure.not_found
  raise_if (is_deceased_actor actor facts) Failure.deceased_cannot_act
  ok roles

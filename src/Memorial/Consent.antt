-- ===== src/Memorial/Consent.antt =====
-- Consent to share a memorial: the operations of remembrance/consent.py. SHA-256 over the UTF-8
-- text, as a hexadecimal text, is the parameter `sha256`; it is what `digest` computes.
use the_st.Prelude.{
  ℕ, suc, Bool, true, false, not, ◌&&◌, ◌||◌, List, [], ◌∷◌, ◌++◌, Option, none, some, Text, codes,
  text_eq, ltb, ◌==◌, if◌then◌else◌, any, all, find, length, is_some, leb,
}
use the_st.Purpose.{strip}
use the_st.Json.{pos, Value, Entries, canonical_json, text_lt}
use the_st.Fallible.{ok, ◌>>=◌, ◌>>◌, raise_if, or_fail, payload}
use the_st.Audit.{zeros}
use the_st.Memorial.{
  Platform, Memorial, Control, Grant, Event, Site, MemorialError, Try, find_memorial, find_control,
  update, one_of, within, is_alphanumeric,
}

unfoldable pub zero_hash : Text
zero_hash = zeros 64

unfoldable pub declaration_text : Text
declaration_text =
    codes
      "I authorize viewing of this memorial and its current and future original media, stories and tributes "
    ++ codes
        "by the audience and at the release time selected in this grant. Existing visibility settings may further "
    ++ codes
        "restrict access. This permission excludes voice synthesis, generated messages, advertising and model "
    ++ codes
        "training. I can revoke this grant to pause future visitor access; copies already downloaded cannot be recalled."

pub record Decision : Type 0 where
  pub allowed : Bool
  pub code : Text

abbrev denied : Text → Decision
denied code = record { allowed = false; code = code }

-- What a grant says, in the order of the tests of `decide`.
unfoldable pub decide_grant : Grant → Bool → Text → Text → Decision
unfolding one_of
decide_grant g death_confirmed role action =
    if text_eq g.status (codes "revoked")
    then denied (codes "revoked")
    else if not (text_eq g.status (codes "verified"))
    then denied (codes "awaiting_review")
    else if not (text_eq g.scope action) || not (g.policy_version == 1)
    then denied (codes "unsupported_use")
    else if not (one_of (codes "now") (codes "after_death") g.activation)
    then denied (codes "invalid_activation")
    else if text_eq g.activation (codes "after_death") && not death_confirmed
    then denied (codes "awaiting_death_confirmation")
    else if not (one_of (codes "family") (codes "public") g.audience)
        || (text_eq g.audience (codes "family") && not (text_eq role (codes "family")))
    then denied (codes "audience_restricted")
    else record { allowed = true; code = codes "allowed" }

unfoldable pub decide : Option Grant → Bool → Text → Text → Text → Decision
unfolding one_of
decide grant death_confirmed role action purpose =
    if not (text_eq action (codes "memorial_view")) || not (text_eq purpose (codes "memorial"))
    then denied (codes "unsupported_use")
    else if not (one_of (codes "public") (codes "family") role)
    then denied (codes "unsupported_role")
    else elim grant [
      | none ↦ denied (codes "no_grant")
      | some g ↦ decide_grant g death_confirmed role action
    ]

-- The newest event of a memorial.
unfoldable pub find_head : Text → List Event → Option Event
find_head mid = find (λ e. text_eq mid e.memorial_id)

abbrev pub next_sequence : Option Event → ℕ
next_sequence none = 1
next_sequence (some head) = suc head.sequence

abbrev pub previous_hash : Option Event → Text
previous_hash none = zero_hash
previous_hash (some head) = head.event_hash

abbrev pub text_or_null : Option Text → Value
text_or_null none = Value.null
text_or_null (some t) = Value.str t

-- The fields that are hashed: `EVENT_FIELDS`.
unfoldable pub event_fields : Event → Value
event_fields e = Value.dict (
    payload (
      (codes "memorial_id", Value.str e.memorial_id)
      ∷ (codes "sequence", Value.int (pos e.sequence))
      ∷ (codes "event_type", Value.str e.event_type)
      ∷ (codes "actor_id", text_or_null e.actor_id)
      ∷ (codes "grant_id", text_or_null e.grant_id)
      ∷ (codes "payload", Value.str e.payload)
      ∷ (codes "created_at", Value.str e.created_at)
      ∷ (codes "previous_hash", Value.str e.previous_hash)
      ∷ []))

-- `status != 'revoked'`, of a memorial's grants.
abbrev pub is_current : Text → Grant → Bool
is_current mid g = text_eq g.memorial_id mid && not (text_eq g.status (codes "revoked"))

unfoldable pub current_grant : Text → Site → Option Grant
current_grant mid site = find (is_current mid) site.grants

-- `[A-Za-z0-9][A-Za-z0-9_.-]{0,63}`.
unfoldable pub is_reviewer : Text → Bool
is_reviewer [] = false
is_reviewer (c ∷ cs) =
    is_alphanumeric c
    && leb (length cs) 63
    && all (λ d. is_alphanumeric d || d == b'_' || d == b'.' || d == b'-') cs

-- `INSERT OR IGNORE INTO consent_controls`.
unfoldable pub enable : Text → Text → Site → List Control
enable mid now site =
    if any (λ c. text_eq c.memorial_id mid) site.controls
    then site.controls
    else record {
      memorial_id = mid;
      enabled_at = now;
      death_date = none;
      death_confirmed_at = none;
      death_confirmed_by = none;
      death_evidence_digest = none;
    }
      ∷ site.controls

-- The row that `verify_grant` leaves.
abbrev pub verified_with : Text → Text → Text → Grant → Grant
verified_with now actor evidence g = record g {
  status = codes "verified";
  verified_at = some now;
  verified_by = some actor;
  evidence_digest = some evidence;
}

abbrev pub revoked_with : Text → Text → Grant → Grant
revoked_with now actor g = record g {
  status = codes "revoked";
  revoked_at = some now;
  revoked_by = some actor;
}

-- Whether there is a death confirmation: `control['death_confirmed_at']` is true.
abbrev pub is_confirmed : Control → Bool
is_confirmed c = elim (c.death_confirmed_at) [ none ↦ false | some t ↦ not (text_eq t []) ]

-- The row that `record_grant` inserts.
abbrev pub pending_grant : Text → Text → Text → Text → Text → Text → Text → Memorial → Grant
pending_grant now fresh mid owner_id signed_name audience activation memorial = record {
  id = fresh;
  memorial_id = mid;
  created_by = owner_id;
  authority = memorial.authority;
  signed_name = signed_name;
  scope = codes "memorial_view";
  policy_version = 1;
  declaration_text = declaration_text;
  audience = audience;
  activation = activation;
  status = codes "pending";
  created_at = now;
  verified_at = none;
  verified_by = none;
  evidence_digest = none;
  revoked_at = none;
  revoked_by = none;
}

-- Who revokes: the owner, or an operator with a reviewer's name and a reference.
pub data Revoker : Type 0 where
  owner : Text → Revoker
  operator : Text → Text → Revoker

-- `owner_id is not None and memorial['owner_id'] != owner_id`.
abbrev is_other : Revoker → Memorial → Bool
is_other (owner id) m = not (text_eq m.owner_id id)
is_other (operator reviewer reference) m = false

-- The decision, from the row of the controls and the current grant, with the grant that it is on.
unfoldable pub decide_with :
    Option Control → Option Grant → Text → Text → Text → Decision × Option Grant
decide_with none current role action purpose = (denied (codes "no_grant"), none)
decide_with (some control) current role action purpose =
    (decide current (is_confirmed control) role action purpose, current)

abbrev pub decide_for : Text → Text → Text → Text → Site → Decision × Option Grant
decide_for mid role action purpose site =
    decide_with (find_control mid site) (current_grant mid site) role action purpose

module _ (sha256 : Text → Text) where
  abbrev pub hashed : Event → Text
  hashed e = sha256 (canonical_json (event_fields e))

  -- The event that `append_event` writes.
  unfoldable pub next_event :
      Text → Text → Text → Option Text → Option Text → Entries → List Event → Event
  next_event now mid kind actor grant_id document history =
      let head = find_head mid history in
      let draft : Event = record {
        memorial_id = mid;
        sequence = next_sequence head;
        event_type = kind;
        actor_id = actor;
        grant_id = grant_id;
        payload = canonical_json (Value.dict document);
        created_at = now;
        previous_hash = previous_hash head;
        event_hash = [];
      } in
      record draft { event_hash = hashed draft }

  unfoldable pub append_event :
      Text → Text → Text → Option Text → Option Text → Entries → Site → Site
  append_event now mid kind actor grant_id document site = record site {
    history = next_event now mid kind actor grant_id document site.history ∷ site.history;
  }

  unfoldable pub operator_identity : Platform → Text → Text → Try (Text × Text)
  operator_identity u reviewer reference = do
    raise_if (not (is_reviewer reviewer)) MemorialError.bad_reviewer
    let reference' = strip u.is_space reference
    raise_if (not (within 200 reference')) MemorialError.bad_reference
    ok (codes "operator:" ++ reviewer, sha256 reference')

  -- The id of the new grant, and the site with it.
  unfoldable pub record_grant :
      Platform → (ℕ → Text) → Text → Text → Text → Text → Text → Text → Site → Try (Text × Site)
  record_grant u clock fresh mid owner_id signed_name audience activation site = do
    let name = strip u.is_space signed_name
    raise_if
        (not (within 120 name)
          || not (one_of (codes "family") (codes "public") audience)
          || not (one_of (codes "now") (codes "after_death") activation))
        MemorialError.bad_choice
    memorial ← or_fail (find_memorial mid site) MemorialError.not_owner
    raise_if (not (text_eq memorial.owner_id owner_id) || memorial.demo) MemorialError.not_owner
    raise_if (is_some (current_grant mid site)) MemorialError.current_grant_exists
    raise_if (any (λ g. text_eq g.id fresh) site.grants) MemorialError.integrity
    let grant = pending_grant (clock 0) fresh mid owner_id name audience activation memorial
    let signed = Value.dict (
        payload
          ((codes "signed_name", Value.str name) ∷ (codes "text", Value.str declaration_text) ∷ []))
    ok (
      fresh,
      append_event (clock 1) mid (codes "grant_recorded") (some owner_id) (some fresh)
          (payload (
            (codes "audience", Value.str audience)
            ∷ (codes "activation", Value.str activation)
            ∷ (codes "scope", Value.str (codes "memorial_view"))
            ∷ (codes "policy_version", Value.int (pos 1))
            ∷ (codes "authority", Value.str memorial.authority)
            ∷ (codes "declaration_digest", Value.str (sha256 (canonical_json signed)))
            ∷ []))
          (record site { controls = enable mid (clock 0) site; grants = grant ∷ site.grants }),
    )

  unfoldable pub verify_grant : Platform → (ℕ → Text) → Text → Text → Text → Site → Try Site
  verify_grant u clock gid reviewer reference site = do
    (actor, evidence) ← operator_identity u reviewer reference
    grant ← or_fail (find (λ g. text_eq g.id gid) site.grants) MemorialError.not_pending
    raise_if (not (text_eq grant.status (codes "pending"))) MemorialError.not_pending
    ok (
        append_event (clock 1) grant.memorial_id (codes "grant_verified") (some actor) (some gid)
          (payload ((codes "evidence_digest", Value.str evidence) ∷ []))
          (record site {
            grants =
                update (λ g. text_eq g.id gid) (verified_with (clock 0) actor evidence) site.grants;
          }))

  -- The actor, and the payload of the event.
  unfoldable pub revoker_identity : Platform → Revoker → Try (Text × Entries)
  revoker_identity u (owner id) = ok (id, Entries.end)
  revoker_identity u (operator reviewer reference) = do
    (actor, evidence) ← operator_identity u reviewer reference
    ok (actor, payload ((codes "evidence_digest", Value.str evidence) ∷ []))

  -- Whether the grant was revoked by this call, and the site.
  unfoldable pub revoke_grant :
      Platform → (ℕ → Text) → Text → Text → Revoker → Site → Try (Bool × Site)
  revoke_grant u clock mid gid who site = do
    (actor, document) ← revoker_identity u who
    memorial ← or_fail (find_memorial mid site) MemorialError.no_memorial
    raise_if (memorial.demo || is_other who memorial) MemorialError.no_memorial
    grant ←
        or_fail (find (λ g. text_eq g.id gid && text_eq g.memorial_id mid) site.grants)
          MemorialError.no_grant
    if text_eq grant.status (codes "revoked")
        then ok (false, site)
        else ok (
          true,
          append_event (clock 1) mid (codes "grant_revoked") (some actor) (some gid) document
              (record site {
                grants = update (λ g. text_eq g.id gid) (revoked_with (clock 0) actor) site.grants;
              }),
        )

  -- The day `today` is that of `datetime.now(timezone.utc)`.
  unfoldable pub confirm_death :
      Platform → (ℕ → Text) → ℕ → Text → Text → Text → Text → Site → Try Site
  confirm_death u clock today mid death_date reviewer reference site = do
    (actor, evidence) ← operator_identity u reviewer reference
    parsed ← or_fail (u.read_date death_date) MemorialError.bad_death_date
    raise_if (ltb today parsed) MemorialError.bad_death_date
    control ← or_fail (find_control mid site) MemorialError.not_enabled
    raise_if (is_confirmed control) MemorialError.death_confirmed
    memorial ← or_fail (find_memorial mid site) MemorialError.crash
    let day = u.date_text parsed
    raise_if (not (text_eq memorial.born []) && text_lt day memorial.born)
        MemorialError.before_birth
    ok (
        append_event (clock 1) mid (codes "death_confirmed") (some actor) none
          (payload (
            (codes "evidence_digest", Value.str evidence)
            ∷ (codes "date_digest", Value.str (sha256 day))
            ∷ []))
          (record site {
            controls =
                update (λ c. text_eq c.memorial_id mid)
                  (λ c. record c {
                    death_date = some day;
                    death_confirmed_at = some (clock 0);
                    death_confirmed_by = some actor;
                    death_evidence_digest = some evidence;
                  })
                  site.controls;
          }))

  unfoldable pub clear_death : Platform → (ℕ → Text) → Text → Text → Text → Site → Try Site
  clear_death u clock mid reviewer reference site = do
    (actor, evidence) ← operator_identity u reviewer reference
    control ← or_fail (find_control mid site) MemorialError.no_confirmation
    raise_if (not (is_confirmed control)) MemorialError.no_confirmation
    ok (
        append_event (clock 0) mid (codes "death_confirmation_cleared") (some actor) none
          (payload ((codes "evidence_digest", Value.str evidence) ∷ []))
          (record site {
            controls =
                update (λ c. text_eq c.memorial_id mid)
                  (λ c. record c {
                    death_date = none;
                    death_confirmed_at = none;
                    death_confirmed_by = none;
                    death_evidence_digest = none;
                  })
                  site.controls;
          }))

  unfoldable pub authorize :
      (ℕ → Text) → Text → Text → Option Text → Text → Text → Site → Decision × Site
  authorize clock mid role actor_id action purpose site =
      let (result, grant) = decide_for mid role action purpose site in
      (
        result,
        append_event (clock 0) mid (if result.allowed then codes "authorized" else codes "denied")
            actor_id (elim grant [ none ↦ none | some g ↦ some g.id ])
            (payload ((codes "reason", Value.str result.code) ∷ [])) site,
      )

-- ===== src/Memorial/Succession.antt =====
-- Nominations and the transfer of care: the operations of remembrance/succession.py.
use the_st.Prelude.{
  ℕ, Bool, true, false, not, ◌&&◌, ◌||◌, List, [], ◌∷◌, ◌++◌, map, Option, none, some, Text, codes,
  text_eq, ◌==◌, if◌then◌else◌, any, find, keep,
}
use the_st.Purpose.{strip}
use the_st.Json.{Value, canonical_json}
use the_st.Fallible.{ok, ◌>>=◌, ◌>>◌, raise_if, or_fail, payload}
use the_st.Memorial.{
  Platform, User, Memorial, Member, Activity, Nomination, ErasureRequest, Site, MemorialError, Try,
  find_memorial, update, one_of, within,
}
use the_st.Memorial.Consent.{append_event, operator_identity}

unfoldable pub care_text : Text
care_text =
    codes
      "I am willing to care for this memorial if the operator confirms my authority and completes the transfer. "
    ++ codes "I will respect the recorded wishes, sharing permissions and other people’s rights. "
    ++ codes
        "Accepting this nomination does not give me access to private memories or permission to edit them."

-- `status IN ('offered','accepted')`, of a memorial's nominations.
unfoldable pub is_active : Text → Nomination → Bool
is_active mid n = text_eq n.memorial_id mid && one_of (codes "offered") (codes "accepted") n.status

abbrev pub is_nomination : Text → Nomination → Bool
is_nomination id n = text_eq n.id id

-- `status='pending'`, of a memorial's erasure requests.
abbrev pub is_pending : Text → ErasureRequest → Bool
is_pending mid r = text_eq r.memorial_id mid && text_eq r.status (codes "pending")

unfoldable pub has_pending_erasure : Text → Site → Bool
has_pending_erasure mid site = any (is_pending mid) site.erasure_requests

unfoldable pub owner_record : Text → Text → Site → Try Memorial
owner_record mid actor_id site = do
  memorial ← or_fail (find_memorial mid site) MemorialError.not_owner
  raise_if (not (text_eq memorial.owner_id actor_id) || memorial.demo) MemorialError.not_owner
  ok memorial

-- `t.replace('_', '-')`.
unfoldable pub dashed : Text → Text
dashed = map (λ c. if c == b'_' then b'-' else c)

abbrev pub with_successor : Text → Memorial → Memorial
with_successor email m = record m { successor = email }

-- `SELECT id FROM users WHERE email=? AND id=?`.
unfoldable pub find_account : Text → Text → Site → Option User
find_account email id site = find (λ u. text_eq u.email email && text_eq u.id id) site.users

-- The declared name, authority and time of an acceptance that `transfer` lets through.
unfoldable pub acceptance : Nomination → Option (Text × Text)
acceptance n = elim (n.accepted_name) [
  | none ↦ none
  | some name ↦ elim (n.accepted_authority) [
    | none ↦ none
    | some authority ↦ elim (n.declaration_text) [
      | none ↦ none
      | some text ↦
          if text_eq name []
            || not (one_of (codes "executor") (codes "family-authorized") authority)
            || not (text_eq text care_text)
          then none
          else some (name, authority)
    ]
  ]
]

-- `DELETE FROM members WHERE memorial_id=? AND email=(SELECT email FROM users WHERE id=?)`.
unfoldable pub members_without : Text → Text → Site → List Member
members_without mid user_id site = elim (find (λ u. text_eq u.id user_id) site.users) [
  | none ↦ site.members
  | some user ↦
      keep (λ m. not (text_eq m.memorial_id mid && text_eq m.email user.email)) site.members
]

-- The row that `nominate` inserts.
abbrev pub offered : Text → Text → Text → Text → User → Memorial → User → Nomination
offered now fresh mid owner_id nominee memorial owner = record {
  id = fresh;
  memorial_id = mid;
  from_owner_id = owner_id;
  nominee_id = nominee.id;
  memorial_name = memorial.name;
  inviter_name = owner.name;
  status = codes "offered";
  created_at = now;
  accepted_at = none;
  accepted_name = none;
  accepted_authority = none;
  declaration_text = none;
  closed_at = none;
  completed_by = none;
  evidence_digest = none;
  previous_authority = none;
  previous_authority_name = none;
  previous_consent_at = none;
}

-- The row that an acceptance leaves.
abbrev pub accepted_with : Text → Text → Text → Nomination → Nomination
accepted_with now name authority n = record n {
  status = codes "accepted";
  accepted_at = some now;
  accepted_name = some name;
  accepted_authority = some authority;
  declaration_text = some care_text;
}

abbrev pub closed_with : Text → Text → Nomination → Nomination
closed_with status now n = record n { status = status; closed_at = some now }

abbrev pub completed_with : Text → Text → Text → Memorial → Nomination → Nomination
completed_with now actor evidence memorial n = record n {
  status = codes "completed";
  closed_at = some now;
  completed_by = some actor;
  evidence_digest = some evidence;
  previous_authority = some memorial.authority;
  previous_authority_name = some memorial.authority_name;
  previous_consent_at = some memorial.consent_at;
}

-- The memorial in its new owner's care.
abbrev pub owned_by : Text → Text → Text → Text → Text → Memorial → Memorial
owned_by to_account_id authority name accepted_at now m = record m {
  owner_id = to_account_id;
  authority = authority;
  authority_name = name;
  consent_at = accepted_at;
  successor = [];
  updated = now;
}

-- What the nominee answers.
pub data Answer : Type 0 where
  accept : Text → Text → Answer
  decline : Answer

module _ (sha256 : Text → Text) where
  -- The clock shows the first time to the history, the second to the table `audit`.
  unfoldable pub activity :
      Text → Text → Text → Text → Text → Text → List (Text × Value) → Site → Site
  activity now later mid event_type actor_id request_id document site =
      let row : Activity = record {
        memorial_id = mid;
        actor_id = actor_id;
        action = dashed event_type;
        target_id = request_id;
        created = later;
      } in
      let site' =
        append_event sha256 now mid event_type (some actor_id) none
          (payload ((codes "request_id", Value.str request_id) ∷ document)) site in
      record site' { audit = row ∷ site'.audit }

  unfoldable pub nominate :
      Platform → (ℕ → Text) → Text → Text → Text → Text → Text → Site → Try (Text × Site)
  nominate u clock fresh mid owner_id email account_code site = do
    memorial ← owner_record mid owner_id site
    let address = u.lower (strip u.is_space email)
    nominee ←
        or_fail (find_account address (strip u.is_space account_code) site) MemorialError.no_account
    raise_if (text_eq nominee.id owner_id) MemorialError.no_account
    raise_if (any (is_active mid) site.nominations) MemorialError.already_nominated
    owner ← or_fail (find (λ x. text_eq x.id owner_id) site.users) MemorialError.crash
    raise_if (any (is_nomination fresh) site.nominations) MemorialError.integrity
    ok (
      fresh,
      activity (clock 1) (clock 2) mid (codes "successor_nominated") owner_id fresh
          ((codes "nominee_id", Value.str nominee.id) ∷ [])
          (record site {
            nominations =
                offered (clock 0) fresh mid owner_id nominee memorial owner ∷ site.nominations;
            memorials =
                update (λ m. text_eq m.id mid)
                  (λ m. record m { successor = address; updated = clock 0 }) site.memorials;
          }),
    )

  -- `action` and the form's fields before the transaction: the answer, with its name stripped.
  unfoldable pub read_answer : Platform → Text → Text → Text → Try Answer
  read_answer u action signed_name authority = do
    raise_if (not (one_of (codes "accept") (codes "decline") action)) MemorialError.bad_answer
    let name = strip u.is_space signed_name
    raise_if
        (text_eq action (codes "accept")
          && (not (within 120 name)
              || not (one_of (codes "executor") (codes "family-authorized") authority)))
        MemorialError.bad_acceptance
    ok (if text_eq action (codes "accept") then accept name authority else decline)

  -- Whether the answer is new, and the site with it.
  unfoldable pub answer_with : (ℕ → Text) → Text → Text → Nomination → Answer → Site → Bool × Site
  answer_with clock request_id nominee_id invitation (accept name authority) site =
      let signed = Value.dict (
        payload
          ((codes "signed_name", Value.str name) ∷ (codes "text", Value.str care_text) ∷ [])) in
      if text_eq invitation.status (codes "accepted") then (false, site) else (
        true,
        activity (clock 1) (clock 2) invitation.memorial_id (codes "successor_accepted") nominee_id
            request_id
            ((codes "authority", Value.str authority)
              ∷ (codes "declaration_digest", Value.str (sha256 (canonical_json signed)))
              ∷ [])
            (record site {
              nominations =
                  update (is_nomination request_id) (accepted_with (clock 0) name authority)
                    site.nominations;
            }),
      )
  answer_with clock request_id nominee_id invitation decline site = (
    true,
    activity (clock 1) (clock 2) invitation.memorial_id (codes "successor_declined") nominee_id
        request_id []
        (record site {
          nominations =
              update (is_nomination request_id) (closed_with (codes "declined") (clock 0))
                site.nominations;
          memorials =
              update (λ m. text_eq m.id invitation.memorial_id) (with_successor []) site.memorials;
        }),
  )

  unfoldable pub respond :
      Platform → (ℕ → Text) → Text → Text → Text → Text → Text → Site → Try (Bool × Site)
  respond u clock request_id nominee_id action signed_name authority site = do
    answer ← read_answer u action signed_name authority
    invitation ←
        or_fail
          (find (λ n. is_nomination request_id n && text_eq n.nominee_id nominee_id)
            site.nominations)
          MemorialError.no_nomination
    _ ← owner_record invitation.memorial_id invitation.from_owner_id site
    raise_if (not (one_of (codes "offered") (codes "accepted") invitation.status))
        MemorialError.closed
    ok (answer_with clock request_id nominee_id invitation answer site)

  unfoldable pub cancel : (ℕ → Text) → Text → Text → Text → Site → Try (Bool × Site)
  cancel clock mid request_id owner_id site = do
    _ ← owner_record mid owner_id site
    invitation ←
        or_fail
          (find
            (λ n.
              is_nomination request_id n
              && (text_eq n.memorial_id mid && text_eq n.from_owner_id owner_id))
            site.nominations)
          MemorialError.no_nomination
    if one_of (codes "cancelled") (codes "declined") invitation.status
        then ok (false, site)
        else (raise_if (text_eq invitation.status (codes "completed")) MemorialError.completed
            >> ok (
              true,
              activity (clock 1) (clock 2) mid (codes "successor_cancelled") owner_id request_id []
                  (record site {
                    nominations =
                        update (is_nomination request_id)
                          (closed_with (codes "cancelled") (clock 0)) site.nominations;
                    memorials = update (λ m. text_eq m.id mid) (with_successor []) site.memorials;
                  }),
            ))

  -- `transfer` after the tests on the nomination that name the case.
  unfoldable pub complete :
      (ℕ → Text) → Text → Text → Text → Text → Text → Nomination → Site → Try (Bool × Site)
  complete clock request_id actor evidence from_owner_id to_account_id invitation site = do
    raise_if (not (text_eq invitation.status (codes "accepted"))) MemorialError.not_accepted
    memorial ← owner_record invitation.memorial_id from_owner_id site
    raise_if (has_pending_erasure memorial.id site) MemorialError.erasure_pending
    (name, authority) ← or_fail (acceptance invitation) MemorialError.bad_declaration
    accepted_at ← or_fail invitation.accepted_at MemorialError.integrity
    ok (
      true,
      activity (clock 1) (clock 2) memorial.id (codes "ownership_transferred") actor request_id
          ((codes "from_owner_id", Value.str from_owner_id)
            ∷ (codes "to_account_id", Value.str to_account_id)
            ∷ (codes "evidence_digest", Value.str evidence)
            ∷ [])
          (record site {
            memorials =
                update (λ m. text_eq m.id memorial.id)
                  (owned_by to_account_id authority name accepted_at (clock 0)) site.memorials;
            members = members_without memorial.id from_owner_id site;
            nominations =
                update (is_nomination request_id) (completed_with (clock 0) actor evidence memorial)
                  site.nominations;
          }),
    )

  unfoldable pub transfer :
      Platform → (ℕ → Text) → Text → Text → Text → Text → Text → Site → Try (Bool × Site)
  transfer u clock request_id from_owner_id to_account_id reviewer reference site = do
    (actor, evidence) ← operator_identity sha256 u reviewer reference
    invitation ←
        or_fail (find (is_nomination request_id) site.nominations) MemorialError.case_differs
    raise_if
        (not (text_eq invitation.from_owner_id from_owner_id)
          || not (text_eq invitation.nominee_id to_account_id))
        MemorialError.case_differs
    if text_eq invitation.status (codes "completed")
        then ok (false, site)
        else complete clock request_id actor evidence from_owner_id to_account_id invitation site

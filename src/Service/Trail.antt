-- ===== src/Service/Trail.antt =====
-- The invariants of the tables of the consent service, and what the audit write of each endpoint
-- (remembrance-consent/app/consent/router.py) keeps.
use the_st.Prelude.{
  ℕ, true, false, not, List, [], ◌∷◌, map, Option, none, some, Text, ◌≡◌, refl, sym, ap, ◌∙◌, arith,
  ◌⊎◌, inl, inr, All, find, any, is_some, text_eq, text_eq_iff, mem_text, ◌==◌, Bool-cases,
}
use the_st.Json.{Entries}
use the_st.Vocabulary.{AuditEventType}
use the_st.Audit.{PayloadError, EventRecord, append_event}
use the_st.Audit.Append.{Written, append}
use the_st.Store.{
  Beneficiary, Acknowledgment, AuthorizationToken, Grant, Db, find_grant, update_grant,
}
use the_st.Service.{ok, audit, grant_and_facts, Post, Post-ok, Post-bind, or_fail-eq-ok, ok-inj}
use the_st.Service.Grants.{distinct}
use the_st.Service.Revocation.{is_live, revoke_token}

-- The verifier of a grant is not its grantor.
abbrev pub OtherThan : Text → Option Text → Type 0
OtherThan grantor none = Unit
OtherThan grantor (some by) = text_eq grantor by ≡ false

abbrev pub acknowledged_email : Acknowledgment → Text
acknowledged_email a = a.beneficiary_email

abbrev pub named_email : Beneficiary → Text
named_email b = b.beneficiary_email

-- A grant is active exactly while it is not revoked, its verifier is not its grantor, and those who
-- have acknowledged it are beneficiaries that it names, each once.
abbrev pub Sound : Grant → Type 0
Sound g =
    (g.is_active ≡ not (is_some g.revoked_at))
    × OtherThan g.grantor_user_id g.authority_verified_by
    × All (λ e. mem_text e (map named_email g.beneficiaries) ≡ true)
        (map acknowledged_email g.acknowledgments)
    × (distinct text_eq (map acknowledged_email g.acknowledgments) ≡ true)

module _ (sha256 : Text → Text) where
  -- The audit trail is one that `append_event` has written, and each grant is sound.
  abbrev pub WellFormed : Db → Type 0
  WellFormed db = Written sha256 db.audit × All Sound db.grants

  -- An audit write that succeeds changes the trail only, and leaves it one that `append_event` writes.
  pub audit-ok :
      (now : ℕ) (event_type : AuditEventType) (actor_id : Text) (pid : ℕ) (grant_id : Option ℕ)
      (document : Entries) (db db' : Db)
      → audit sha256 now event_type actor_id pid grant_id document db ≡ ok db'
      → (table : List EventRecord) × (append_event sha256 now event_type actor_id pid grant_id
            document db.audit
          ≡ inr table)
        × (db' ≡ record db { audit = table })
  unfolding audit
  audit-ok now event_type actor_id pid grant_id document db db' h =
      split (append_event sha256 now event_type actor_id pid grant_id document db.audit) refl
    where
      split :
          (r : PayloadError ⊎ List EventRecord)
          → append_event sha256 now event_type actor_id pid grant_id document db.audit ≡ r
          → (table : List EventRecord) × (append_event sha256 now event_type actor_id pid grant_id
                document db.audit
              ≡ inr table)
            × (db' ≡ record db { audit = table })
      split (inl e) eq = absurd (ground arith)
      split (inr table) eq = (table, eq, sym (ok-inj (rw (eq, audit) at h)))

  pub audit-WellFormed :
      (now : ℕ) (event_type : AuditEventType) (actor_id : Text) (pid : ℕ) (grant_id : Option ℕ)
      (document : Entries) (db db' : Db)
      → audit sha256 now event_type actor_id pid grant_id document db ≡ ok db'
      → WellFormed db
      → WellFormed db'
  audit-WellFormed now event_type actor_id pid grant_id document db db' h (w, sound) =
      let (table, adds, eq) = audit-ok now event_type actor_id pid grant_id document db db' h in
      rw eq (append now event_type actor_id pid grant_id document w adds, sound)

  pub audit-Post :
      (now : ℕ) (event_type : AuditEventType) (actor_id : Text) (pid : ℕ) (grant_id : Option ℕ)
      (document : Entries) (db : Db)
      → WellFormed db
      → Post WellFormed (audit sha256 now event_type actor_id pid grant_id document db)
  audit-Post now event_type actor_id pid grant_id document db w = record {
    holds = λ db' e. audit-WellFormed now event_type actor_id pid grant_id document db db' e w;
  }

-- The grant that a request is about stands in the table, so what holds of all of them holds of it.
pub find-All :
    (P : Grant → Type 0) (id : ℕ) (gs : List Grant) (g : Grant)
    → find (λ h. h.id == id) gs ≡ some g
    → All P gs
    → P g
find-All P id [] g found all = absurd (ground arith)
find-All P id (h ∷ hs) g found all = elim (Bool-cases (h.id == id)) [
  | inl e ↦ let same : h ≡ g = ground arith in rw (sym same) all.0
  | inr e ↦ find-All P id hs g (rw e at found) all.1
]

pub find-id :
    (id : ℕ) (gs : List Grant) (g : Grant) → find (λ h. h.id == id) gs ≡ some g → g.id ≡ id
find-id id [] g found = absurd (ground arith)
find-id id (h ∷ hs) g found = elim (Bool-cases (h.id == id)) [
  | inl e ↦ let same : h ≡ g = ground arith in rw (sym same) (ground arith)
  | inr e ↦ find-id id hs g (rw e at found)
]

-- The grant of `grant_and_facts` is the row with that id.
pub grant_and_facts-row :
    (id : ℕ) (db : Db) → Post (λ pair. find_grant id db ≡ some pair.0) (grant_and_facts id db)
unfolding grant_and_facts
grant_and_facts-row id db =
    Post-bind λ row found. Post-bind λ facts loaded. Post-ok (or_fail-eq-ok _ _ found)

pub grant_and_facts-found :
    (id : ℕ) (db : Db)
    → Post (λ pair. find (λ h. h.id == pair.0.id) db.grants ≡ some pair.0) (grant_and_facts id db)
unfolding find_grant
grant_and_facts-found id db = record {
  holds = λ pair found.
      let at_id = (grant_and_facts-row id db).holds pair found in
      rw (sym (find-id id db.grants pair.0 at_id)) at at_id;
}

-- Nobody whom the list does not hold comes twice when it is added.
pub distinct-cons :
    (e : Text) (acks : List Acknowledgment)
    → any (λ a. text_eq a.beneficiary_email e) acks ≡ false
    → any (text_eq e) (map acknowledged_email acks) ≡ false
distinct-cons e [] h = refl
distinct-cons e (a ∷ acks) h = ground (
  arith,
  text_eq_iff e a.beneficiary_email,
  text_eq_iff a.beneficiary_email e,
  distinct-cons e acks,
)

pub named-mem :
    (e : Text) (bs : List Beneficiary) (b : Beneficiary)
    → find (λ b. text_eq b.beneficiary_email e) bs ≡ some b
    → mem_text e (map named_email bs) ≡ true
named-mem e [] b h = absurd (ground arith)
named-mem e (x ∷ bs) b h =
    ground (
      arith,
      text_eq_iff e x.beneficiary_email,
      text_eq_iff x.beneficiary_email e,
      named-mem e bs b,
    )

-- The row that an assignment has changed.
pub find-update_grant :
    (id : ℕ) (change : Grant → Grant) (gs : List Grant) (g : Grant)
    → ((h : Grant) → (change h).id ≡ h.id)
    → find (λ h. h.id == id) gs ≡ some g
    → find (λ h. h.id == id) (update_grant id change gs) ≡ some (change g)
unfolding update_grant
find-update_grant id change [] g keeps found = absurd (ground arith)
find-update_grant id change (h ∷ hs) g keeps found = elim (Bool-cases (h.id == id)) [
  | inl e ↦
      let same : h ≡ g = ground arith in
      let changed : ((change h).id == id) ≡ true = ap (λ i. i == id) (keeps h) ∙ e in
      rw (e, changed) (ap (λ x. some (change x)) same)
  | inr e ↦ rw e (rw e (find-update_grant id change hs g keeps (rw e at found)))
]

-- The update of `revoke_grant_tokens` leaves no row that it would meet.
pub is_live-revoke_token :
    (id now : ℕ) (tokens : List AuthorizationToken)
    → any (is_live id) (map (revoke_token id now) tokens) ≡ false
unfolding revoke_token is_live
is_live-revoke_token id now [] = refl
is_live-revoke_token id now (t ∷ ts) = ground (arith, is_live-revoke_token id now ts)

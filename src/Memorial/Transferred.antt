-- ===== src/Memorial/Transferred.antt =====
-- What a transfer by remembrance/succession.py rests on, and what it does.
use the_st.Prelude.{
  ℕ, ◌≡◌, ◌≢◌, refl, ◌⊎◌, inl, inr, true, false, List, [], ◌∷◌, some, arith, Text, codes, text_eq,
  find, All, Bool-cases,
}
use the_st.Fallible.{
  ok, ◌>>=◌, raise_if, or_fail, or_fail-eq-ok, Post, Post-ok, Post-bind, Post-guard,
}
use the_st.Memorial.{Platform, User, Memorial, Nomination, Site, find_memorial, update}
use the_st.Memorial.Consent.{append_event, operator_identity}
use the_st.Memorial.Succession.{
  care_text, is_nomination, completed_with, activity, complete, transfer,
}

-- The case for a transfer: an accepted nomination from the owner to the new owner, with a signed
-- declaration, of a memorial that is no example and whose erasure nobody waits for; and the memorial
-- in its new owner's care, whose former owner is not on its list of members.
pub record Transfers (request_id from_owner_id to_account_id now : Text) (site site' : Site)
    : Type 0 where
  pub nomination : Nomination
  pub memorial : Memorial
  pub name : Text
  pub authority : Text
  pub accepted_at : Text
  pub found : find (is_nomination request_id) site.nominations ≡ some nomination
  pub from_owner : nomination.from_owner_id ≡ from_owner_id
  pub to_nominee : nomination.nominee_id ≡ to_account_id
  pub accepted : nomination.status ≡ codes "accepted"
  pub named : (nomination.accepted_name ≡ some name) × (name ≢ [])
  pub authorized :
      (nomination.accepted_authority ≡ some authority)
      × ((authority ≡ codes "executor") ⊎ (authority ≡ codes "family-authorized"))
  pub declared : nomination.declaration_text ≡ some care_text
  pub dated : nomination.accepted_at ≡ some accepted_at
  pub owned : find_memorial nomination.memorial_id site ≡ some memorial
  pub owner : memorial.owner_id ≡ from_owner_id
  pub real : memorial.demo ≡ false
  pub free :
      All (λ r. r.memorial_id ≡ memorial.id → r.status ≢ codes "pending") site.erasure_requests
  pub moved :
      find_memorial nomination.memorial_id site'
      ≡ some (record memorial {
        owner_id = to_account_id;
        authority = authority;
        authority_name = name;
        consent_at = accepted_at;
        successor = [];
        updated = now;
      })
  pub others :
      (mid : Text) → mid ≢ nomination.memorial_id → find_memorial mid site' ≡ find_memorial mid site
  pub left :
      (u : User)
      → find (λ x. text_eq x.id from_owner_id) site.users ≡ some u
      → All (λ x. x.memorial_id ≡ memorial.id → x.email ≢ u.email) site'.members

module _ (sha256 : Text → Text) where
  find-update :
      (id : Text) (change : Nomination → Nomination) (ns : List Nomination) (n : Nomination)
      → ((x : Nomination) → (change x).id ≡ x.id)
      → find (is_nomination id) ns ≡ some n
      → find (is_nomination id) (update (is_nomination id) change ns) ≡ some (change n)
  unfolding update
  find-update id change [] n same found = absurd (ground arith)
  find-update id change (x ∷ xs) n same found = elim (Bool-cases (is_nomination id x)) [
    | inl e ↦
        let eq : x ≡ n = ground arith in
        let mine : text_eq (change x).id id ≡ true = rw (same x) e in rw (e, mine, eq) refl
    | inr e ↦ rw (e, e) (find-update id change xs n same (rw e at found))
  ]

  -- What a second call finds.
  Completed : Text → Text → Text → Text → Text → Platform → Site → Type 0
  Completed request_id from_owner_id to_account_id reviewer reference u site =
      (who : Text × Text) × (n : Nomination) × (operator_identity sha256 u reviewer reference
        ≡ ok who)
      × (find (is_nomination request_id) site.nominations ≡ some n)
      × (text_eq n.from_owner_id from_owner_id ≡ true)
      × (text_eq n.nominee_id to_account_id ≡ true)
      × (text_eq n.status (codes "completed") ≡ true)

  transfer-Completed :
      (u : Platform) (clock : ℕ → Text)
      (request_id from_owner_id to_account_id reviewer reference : Text) (site : Site)
      → Post
          (λ r.
            r.0 ≡ true → Completed request_id from_owner_id to_account_id reviewer reference u r.1)
          (transfer sha256 u clock request_id from_owner_id to_account_id reviewer reference site)
  unfolding transfer complete activity append_event Completed text_eq
  transfer-Completed u clock request_id from_owner_id to_account_id reviewer reference site =
      Post-bind λ (actor, evidence) who. Post-bind λ n found. Post-guard _ _ λ case_.
        elim (Bool-cases (text_eq n.status (codes "completed"))) [
          | inl e ↦ rw e (Post-ok λ new. absurd (ground arith))
          | inr e ↦ rw e (
              Post-guard _ _ λ accepted. Post-bind λ m owned. Post-guard _ _ λ free.
                Post-bind λ (name, authority) declared. Post-bind λ accepted_at _. Post-ok λ new. (
                  (actor, evidence),
                  completed_with (clock 0) actor evidence m n,
                  who,
                  find-update request_id (completed_with (clock 0) actor evidence m)
                      site.nominations n (λ x. refl) (or_fail-eq-ok _ _ found),
                  ground arith,
                  ground arith,
                  refl,
                ))
        ]

  -- A transfer that has returned true, called again with the same arguments, returns false and changes
  -- nothing, whatever the clock shows.
  pub transfer-twice :
      (u : Platform) (clock clock' : ℕ → Text)
      (request_id from_owner_id to_account_id reviewer reference : Text) (site site' : Site)
      → transfer sha256 u clock request_id from_owner_id to_account_id reviewer reference site
        ≡ ok (true, site')
      → transfer sha256 u clock' request_id from_owner_id to_account_id reviewer reference site'
        ≡ ok (false, site')
  unfolding transfer Completed raise_if or_fail ◌>>=◌
  transfer-twice u clock clock' request_id from_owner_id to_account_id reviewer reference site site'
        run =
      let (who, n, identity, found, from_, to_, completed) =
        (transfer-Completed u clock request_id from_owner_id to_account_id reviewer reference
            site).holds
          (true, site') run refl in
      rw (identity, found, from_, to_, completed) refl

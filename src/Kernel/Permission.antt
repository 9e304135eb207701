-- ===== src/Kernel/Permission.antt =====
-- When `decide` of remembrance-consent/app/consent/kernel.py allows a request, and on which grant.
use the_st.Prelude.{
  ◌≡◌, refl, ◌↔◌, ◌⊎◌, inl, inr, Bool, true, false, Option, none, some, arith, List, [], ◌∷◌,
  is_some, Any, Option-cases, Bool-cases, Text, text_eq,
}
use the_st.Vocabulary.{
  DeclaredPurpose, purpose_eq, ConsentAction, action_purpose, is_use, DenialReason,
}
use the_st.Purpose.{Unicode, parse_declared_purpose, is_banned_purpose}
use the_st.Purpose.Banned.{parse-is_banned}
use the_st.Kernel.{
  ActorKind, Actor, GrantFacts, ProfileFacts, is_successor, is_deceased_actor, grant_failure,
  furthest, scan_grants, scan_rights, decide_rights, decide_use, decide_known, decide_parsed,
  decide,
}
use the_st.Kernel.Grants.{Passes, grant_failure-none_iff}

-- A verified grant of the actor's own, be it active or revoked.
abbrev pub OwnsVerified : Actor → GrantFacts → Type 0
OwnsVerified actor g = (g.verified ≡ true) × (text_eq g.grantor_user_id actor.user_id ≡ true)

-- What entitles an actor who may act at all, by the kind of the action.
abbrev pub Entitled : Bool → ConsentAction → DeclaredPurpose → Actor → ProfileFacts → Type 0
Entitled true action purpose actor facts =
    (is_some facts.date_of_death ≡ true) × Any (Passes action purpose actor facts) facts.grants
Entitled false action purpose actor facts =
    (actor.is_admin ≡ true)
    ⊎ (is_successor actor facts ≡ true)
    ⊎ Any (OwnsVerified actor) facts.grants

-- The whole rule, with no order of evaluation.
pub record Permitted (u : Unicode) (action : ConsentAction) (code : Text) (actor : Actor)
    (facts : ProfileFacts) : Type 0 where
  pub purpose : parse_declared_purpose u code ≡ some (action_purpose action)
  pub person : actor.kind ≡ ActorKind.human
  pub living : is_deceased_actor actor facts ≡ false
  pub entitled : Entitled (is_use action) action (action_purpose action) actor facts

purpose_eq_iff : (p q : DeclaredPurpose) → (purpose_eq p q ≡ true) ↔ (p ≡ q)
purpose_eq_iff p q = (λ h. ground arith, λ h. ground arith)

module _ (action : ConsentAction) (purpose : DeclaredPurpose) (actor : Actor)
    (facts : ProfileFacts) where
  scan_grants-allowed_iff :
      (best : Option DenialReason) (gs : List GrantFacts)
      → ((scan_grants action purpose actor facts best gs).allowed ≡ true)
        ↔ Any (Passes action purpose actor facts) gs
  unfolding scan_grants
  scan_grants-allowed_iff best [] = ground arith
  scan_grants-allowed_iff best (g ∷ gs) =
      elim (Option-cases (grant_failure action purpose actor facts g)) [
        | inl e ↦ ground (arith, grant_failure-none_iff action purpose actor facts g)
        | inr (r, e) ↦ ground (
          arith,
          grant_failure-none_iff action purpose actor facts g,
          scan_grants-allowed_iff (some (furthest best r)) gs,
        )
      ]

  scan_rights-allowed_iff :
      (gs : List GrantFacts)
      → ((scan_rights purpose actor facts gs).allowed ≡ true) ↔ Any (OwnsVerified actor) gs
  unfolding scan_rights
  scan_rights-allowed_iff [] = ground arith
  scan_rights-allowed_iff (g ∷ gs) = ground (arith, scan_rights-allowed_iff gs)

  decide_use-allowed_iff :
      ((decide_use action purpose actor facts).allowed ≡ true)
      ↔ Entitled true action purpose actor facts
  unfolding decide_use
  decide_use-allowed_iff = ground (arith, scan_grants-allowed_iff none facts.grants)

  decide_rights-allowed_iff :
      ((decide_rights purpose actor facts).allowed ≡ true)
      ↔ Entitled false action purpose actor facts
  unfolding decide_rights
  decide_rights-allowed_iff = ground (arith, scan_rights-allowed_iff facts.grants)

  decide_known-allowed_iff : ((decide_known action purpose actor facts).allowed ≡ true) ↔ (
      (actor.kind ≡ ActorKind.human)
      × (is_deceased_actor actor facts ≡ false)
      × Entitled (is_use action) action purpose actor facts)
  unfolding decide_known
  decide_known-allowed_iff = elim (Bool-cases (is_use action)) [
    | inl e ↦ rw e (ground (arith, decide_use-allowed_iff))
    | inr e ↦ rw e (ground (arith, decide_rights-allowed_iff))
  ]

decide_parsed-allowed_iff :
    (action : ConsentAction) (parsed : Option DeclaredPurpose) (actor : Actor)
    (facts : ProfileFacts)
    → ((decide_parsed action parsed actor (some facts)).allowed ≡ true) ↔ (
        (parsed ≡ some (action_purpose action))
        × ((decide_known action (action_purpose action) actor facts).allowed ≡ true))
unfolding decide_parsed
decide_parsed-allowed_iff action none actor facts = (λ h. cc, λ h. cc (h.0))
decide_parsed-allowed_iff action (some p) actor facts =
    elim (Bool-cases (purpose_eq (action_purpose action) p)) [
      | inl e ↦
          let same : action_purpose action ≡ p = (purpose_eq_iff (action_purpose action) p).0 e in
          rw (e, same) ((λ h. (refl, h)), (λ h. h.1))
      | inr e ↦
          rw e (
            (λ h. cc),
            (λ h. absurd (ground (arith, purpose_eq_iff (action_purpose action) p, h.0))),
          )
    ]

-- A request on a known profile is allowed exactly when the code parses as the one purpose of the
-- action, the actor is a person who is not the deceased, and the actor is entitled: for a use
-- action, death is recorded and some grant passes all six conditions; for a rights action, the
-- actor is an administrator, a designated successor, or the grantor of a verified grant.
pub decide-allowed_iff :
    (u : Unicode) (action : ConsentAction) (code : Text) (actor : Actor) (facts : ProfileFacts)
    → ((decide u action code actor (some facts)).allowed ≡ true)
      ↔ Permitted u action code actor facts
unfolding decide decide_parsed
decide-allowed_iff u action code actor facts =
    let parsed = decide_parsed-allowed_iff action (parse_declared_purpose u code) actor facts in
    let known = decide_known-allowed_iff action (action_purpose action) actor facts in
    (
      (λ h.
          let (p, k) = parsed.0 h in
          let (person, living, entitled) = known.0 k in
          record { purpose = p; person = person; living = living; entitled = entitled }),
      (λ p. parsed.1 (p.purpose, known.1 (p.person, p.living, p.entitled))),
    )

-- No request under a banned purpose, by a service, or by the deceased is
-- ever allowed.
pub decide-forbidden :
    (u : Unicode) (action : ConsentAction) (code : Text) (actor : Actor) (facts : ProfileFacts)
    → (is_banned_purpose u code ≡ true)
      ⊎ (actor.kind ≡ ActorKind.service)
      ⊎ (is_deceased_actor actor facts ≡ true)
    → (decide u action code actor (some facts)).allowed ≡ false
decide-forbidden u action code actor facts h =
    elim (Bool-cases (decide u action code actor (some facts)).allowed) [
      | inl e ↦ absurd (
          let p = (decide-allowed_iff u action code actor facts).0 e in
          ground (arith, parse-is_banned u code))
      | inr e ↦ e
    ]

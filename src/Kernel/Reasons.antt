-- ===== src/Kernel/Reasons.antt =====
-- Which grant a use action rests on, which reason a refusal reports, and what of it is disclosed:
-- the loop of `decide` and `disclosed_reason` of remembrance-consent/app/consent/kernel.py.
use the_st.Prelude.{
  ◌≤◌, ◌≡◌, ◌≢◌, refl, ap, ◌⊎◌, inl, inr, true, false, Option, none, some, arith, List, [], ◌∷◌,
  ◌++◌, is_some, All, Any, Option-cases, List-cases, Bool-cases, Text,
}
use the_st.Vocabulary.{
  DeclaredPurpose, purpose_eq, ConsentAction, action_purpose, DenialReason, is_public_reason,
  generic_public_denial,
}
use the_st.Purpose.{Unicode, parse_declared_purpose}
use the_st.Kernel.{
  ActorKind, Actor, GrantFacts, ProfileFacts, Decision, is_related, grant_stage, grant_failure,
  furthest, scan_grants, scan_rights, decide_rights, decide_use, decide_known, decide_parsed,
  decide, disclosed_reason,
}
use the_st.Kernel.Grants.{Passes, grant_failure-none_iff}

-- No further than a reason, where one has been found yet.
abbrev NoFurther : Option DenialReason → DenialReason → Type 0
NoFurther none r = Unit
NoFurther (some b) r = grant_stage b ≤ grant_stage r

furthest_bounds :
    (best : Option DenialReason) (f r : DenialReason)
    → grant_stage (furthest best f) ≤ grant_stage r
    → NoFurther best r × (grant_stage f ≤ grant_stage r)
unfolding furthest
furthest_bounds none f r h = (tt, ground arith)
furthest_bounds (some b) f r h = ground arith

furthest_cases :
    (best : Option DenialReason) (f : DenialReason)
    → (best ≡ some (furthest best f)) ⊎ (f ≡ furthest best f)
unfolding furthest
furthest_cases none f = inr (ground arith)
furthest_cases (some b) f = ground arith

module _ (action : ConsentAction) (purpose : DeclaredPurpose) (actor : Actor)
    (facts : ProfileFacts) where
  -- The grant of a decision is the first that passes.
  abbrev pub RestsOnFirst : List GrantFacts → Decision → Type 0
  RestsOnFirst gs d =
      (before : List GrantFacts) × (g : GrantFacts) × (after : List GrantFacts) × (gs
        ≡ before ++ (g ∷ after))
      × All (λ b. ¬ Passes action purpose actor facts b) before
      × Passes action purpose actor facts g
      × (d.grant_id ≡ some g.id)

  pub scan_grants-RestsOnFirst :
      (best : Option DenialReason) (gs : List GrantFacts)
      → (scan_grants action purpose actor facts best gs).allowed ≡ true
      → RestsOnFirst gs (scan_grants action purpose actor facts best gs)
  unfolding scan_grants
  scan_grants-RestsOnFirst best [] h = absurd (ground arith)
  scan_grants-RestsOnFirst best (g ∷ gs) h =
      elim (Option-cases (grant_failure action purpose actor facts g)) [
        | inl e ↦
            rw (e, scan_grants)
              ([], g, gs, refl, tt, (grant_failure-none_iff action purpose actor facts g).0 e, refl)
        | inr (r, e) ↦
            let (before, chosen, after, split, failed, passes, id) =
              scan_grants-RestsOnFirst (some (furthest best r)) gs (ground arith) in
            rw (e, scan_grants)
              (
                g ∷ before,
                chosen,
                after,
                ap (◌∷◌ g) split,
                (
                  (λ p.
                      absurd (ground (arith, grant_failure-none_iff action purpose actor facts g))),
                  failed,
                ),
                passes,
                id,
              )
      ]

  -- A refusal that is as far as any grant of the list got, and as far as `best`.
  abbrev AsFar : DenialReason → Option DenialReason → List GrantFacts → Type 0
  AsFar r best gs =
      NoFurther best r
      × All
          (λ g.
            (f : DenialReason)
            → grant_failure action purpose actor facts g ≡ some f
            → grant_stage f ≤ grant_stage r)
          gs

  abbrev Reported : DenialReason → Option DenialReason → List GrantFacts → Type 0
  Reported r best gs =
      (best ≡ some r) ⊎ Any (λ g. grant_failure action purpose actor facts g ≡ some r) gs

  scan_grants-reason :
      (best : Option DenialReason) (gs : List GrantFacts) (r : DenialReason)
      → (scan_grants action purpose actor facts best gs).reason ≡ some r
      → AsFar r best gs × Reported r best gs
  unfolding scan_grants
  scan_grants-reason best [] r h = rw h ((ground arith, tt), inl refl)
  scan_grants-reason best (g ∷ gs) r h =
      elim (Option-cases (grant_failure action purpose actor facts g)) [
        | inl e ↦ absurd (ground arith)
        | inr (f, e) ↦
            let (far, reported) = scan_grants-reason (some (furthest best f)) gs r (ground arith) in
            let (far_best, far_f) = furthest_bounds best f r far.0 in
            ((far_best, ((λ f' e'. ground arith), far.1)), ground (arith, furthest_cases best f))
      ]

-- When a use action on a dead subject with grants is refused past the check of the actor, the
-- reason reported is the failure of one of the grants, and no grant got further than it.
pub decide_use-reason :
    (action : ConsentAction) (actor : Actor) (facts : ProfileFacts) (r : DenialReason)
    → is_some facts.date_of_death ≡ true
    → facts.grants ≢ []
    → (decide_use action (action_purpose action) actor facts).reason ≡ some r
    → Any (λ g. grant_failure action (action_purpose action) actor facts g ≡ some r) facts.grants
      × All
          (λ g.
            (f : DenialReason)
            → grant_failure action (action_purpose action) actor facts g ≡ some f
            → grant_stage f ≤ grant_stage r)
          facts.grants
unfolding decide_use
decide_use-reason action actor facts r dead some_grant h =
    let p = action_purpose action in
    let (far, reported) =
      scan_grants-reason action p actor facts none facts.grants r (ground arith) in
    (ground arith, far.1)

decide_use-scan :
    (action : ConsentAction) (actor : Actor) (facts : ProfileFacts)
    → (decide_use action (action_purpose action) actor facts).allowed ≡ true
    → decide_use action (action_purpose action) actor facts
      ≡ scan_grants action (action_purpose action) actor facts none facts.grants
unfolding decide_use
decide_use-scan action actor facts h = ground arith

-- The grant that an allowed use action rests on is the first of the profile's grants, in their
-- order, that passes every condition.
pub decide_use-RestsOnFirst :
    (action : ConsentAction) (actor : Actor) (facts : ProfileFacts)
    → (decide_use action (action_purpose action) actor facts).allowed ≡ true
    → RestsOnFirst action
        (action_purpose action)
        actor
        facts
        facts.grants
        (decide_use action (action_purpose action) actor facts)
decide_use-RestsOnFirst action actor facts h =
    let p = action_purpose action in
    let e = decide_use-scan action actor facts h in
    rw e (scan_grants-RestsOnFirst action p actor facts none facts.grants (rw e at h))

-- What a request on some facts discloses of its reason.
abbrev pub disclosed : Decision → Option Text
disclosed d = disclosed_reason d.reason d.actor_related

abbrev pub IsStranger : Actor → Option ProfileFacts → Type 0
IsStranger actor none = Unit
IsStranger actor (some facts) = is_related actor facts ≡ false

grant_failure-private :
    (action : ConsentAction) (purpose : DeclaredPurpose) (actor : Actor) (facts : ProfileFacts)
    (g : GrantFacts) (r : DenialReason)
    → grant_failure action purpose actor facts g ≡ some r
    → is_public_reason r ≡ false
unfolding grant_failure is_public_reason
grant_failure-private action purpose actor facts g r h = ground arith

furthest-private :
    (b f : DenialReason)
    → is_public_reason b ≡ false
    → is_public_reason f ≡ false
    → is_public_reason (furthest (some b) f) ≡ false
unfolding furthest
furthest-private b f hb hf = ground arith

module _ (action : ConsentAction) (actor : Actor) (facts : ProfileFacts)
    (stranger : is_related actor facts ≡ false) where
  -- A refusal, if it is one, discloses the generic reason.
  abbrev IsPrivate : Decision → Type 0
  IsPrivate d = d.allowed ≡ false → disclosed d ≡ some generic_public_denial

  scan_grants-IsPrivate :
      (purpose : DeclaredPurpose) (best : DenialReason) (gs : List GrantFacts)
      → is_public_reason best ≡ false
      → IsPrivate (scan_grants action purpose actor facts (some best) gs)
  unfolding scan_grants disclosed_reason
  scan_grants-IsPrivate purpose best [] h d = ground arith
  scan_grants-IsPrivate purpose best (g ∷ gs) h d =
      elim (Option-cases (grant_failure action purpose actor facts g)) [
        | inl e ↦ absurd (ground arith)
        | inr (r, e) ↦ ground (
          arith,
          scan_grants-IsPrivate purpose (furthest (some best) r) gs
              (furthest-private best r h (grant_failure-private action purpose actor facts g r e)),
        )
      ]

  scan_rights-IsPrivate :
      (purpose : DeclaredPurpose) (gs : List GrantFacts)
      → IsPrivate (scan_rights purpose actor facts gs)
  unfolding scan_rights disclosed_reason is_public_reason
  scan_rights-IsPrivate purpose [] d = ground arith
  scan_rights-IsPrivate purpose (g ∷ gs) d = ground (arith, scan_rights-IsPrivate purpose gs)

  decide_rights-IsPrivate :
      (purpose : DeclaredPurpose) → IsPrivate (decide_rights purpose actor facts)
  unfolding decide_rights
  decide_rights-IsPrivate purpose d = ground (arith, scan_rights-IsPrivate purpose facts.grants)

  start_scan-IsPrivate :
      (purpose : DeclaredPurpose) (g : GrantFacts) (gs : List GrantFacts)
      → IsPrivate (scan_grants action purpose actor facts none (g ∷ gs))
  unfolding scan_grants furthest
  start_scan-IsPrivate purpose g gs d =
      elim (Option-cases (grant_failure action purpose actor facts g)) [
        | inl e ↦ absurd (ground arith)
        | inr (r, e) ↦ ground (
          arith,
          scan_grants-IsPrivate purpose r gs
              (grant_failure-private action purpose actor facts g r e),
        )
      ]

  decide_use-IsPrivate :
      (purpose : DeclaredPurpose) → IsPrivate (decide_use action purpose actor facts)
  unfolding decide_use disclosed_reason is_public_reason
  decide_use-IsPrivate purpose d = elim (List-cases facts.grants) [
    | inl e ↦ ground arith
    | inr (g, gs, e) ↦ ground (arith, start_scan-IsPrivate purpose g gs)
  ]

  decide_known-IsPrivate :
      (purpose : DeclaredPurpose)
      → actor.kind ≡ ActorKind.human
      → IsPrivate (decide_known action purpose actor facts)
  unfolding decide_known disclosed_reason is_public_reason
  decide_known-IsPrivate purpose person d =
      ground (arith, decide_rights-IsPrivate purpose, decide_use-IsPrivate purpose)

-- The answer to a person who is a stranger to a profile, or names none that exists, once the
-- purpose fits the action.
stranger_refused :
    (action : ConsentAction) (p : DeclaredPurpose) (actor : Actor) (facts : Option ProfileFacts)
    → actor.kind ≡ ActorKind.human
    → IsStranger actor facts
    → purpose_eq (action_purpose action) p ≡ true
    → (decide_parsed action (some p) actor facts).allowed ≡ false
    → disclosed (decide_parsed action (some p) actor facts) ≡ some generic_public_denial
unfolding decide_parsed disclosed_reason is_public_reason
stranger_refused action p actor none person stranger e d = ground arith
stranger_refused action p actor (some facts) person stranger e d =
    ground (arith, decide_known-IsPrivate action actor facts stranger p person)

-- A refusal tells a person who is no relation nothing about the profile: with the same request,
-- whatever two profiles hold, and also where one does not exist, what is disclosed is the same.
pub stranger_learns_nothing :
    (u : Unicode) (action : ConsentAction) (code : Text) (actor : Actor)
    (one two : Option ProfileFacts)
    → actor.kind ≡ ActorKind.human
    → IsStranger actor one
    → IsStranger actor two
    → (decide u action code actor one).allowed ≡ false
    → (decide u action code actor two).allowed ≡ false
    → disclosed (decide u action code actor one) ≡ disclosed (decide u action code actor two)
unfolding decide
stranger_learns_nothing u action code actor one two person s1 s2 d1 d2 =
    go (parse_declared_purpose u code) d1 d2
  where
    go :
        (parsed : Option DeclaredPurpose)
        → (decide_parsed action parsed actor one).allowed ≡ false
        → (decide_parsed action parsed actor two).allowed ≡ false
        → disclosed (decide_parsed action parsed actor one)
          ≡ disclosed (decide_parsed action parsed actor two)
    go none d1 d2 = unfold decide_parsed in refl
    go (some p) d1 d2 = elim (Bool-cases (purpose_eq (action_purpose action) p)) [
      | inl e ↦ ground (
        arith,
        stranger_refused action p actor one person s1 e d1,
        stranger_refused action p actor two person s2 e d2,
      )
      | inr e ↦ unfold decide_parsed in rw e refl
    ]

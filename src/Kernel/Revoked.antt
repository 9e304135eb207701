-- ===== src/Kernel/Revoked.antt =====
-- What revocation does to the decisions of remembrance-consent/app/consent/kernel.py: consent ends,
-- access and erasure stay.
use the_st.Prelude.{
  ◌≡◌, refl, sym, ◌∙◌, inl, inr, Bool, true, false, ◌&&◌, Option, none, some, arith, if◌then◌else◌,
  List, [], ◌∷◌, map, any, Any, Text, text_eq,
}
use the_st.Vocabulary.{DeclaredPurpose, ConsentAction, action_purpose, is_use, is_self_pre_need}
use the_st.Purpose.{Unicode, parse_declared_purpose}
use the_st.Kernel.{
  Actor, GrantFacts, ProfileFacts, is_named, is_grantor, is_successor, is_related,
  is_deceased_actor, may_use, in_scope, scan_rights, decide_rights, decide_known, decide_parsed,
  decide,
}
use the_st.Kernel.Grants.{Passes}
use the_st.Kernel.Permission.{decide-allowed_iff}

-- A grant as a revocation leaves it.
abbrev pub withdrawn : GrantFacts → GrantFacts
withdrawn g = record g { is_active = false; revoked = true }

abbrev pub withdraw_if : (GrantFacts → Bool) → GrantFacts → GrantFacts
withdraw_if test g = if test g then withdrawn g else g

-- The profile with the grants that a test picks revoked.
abbrev pub withdraw : (GrantFacts → Bool) → ProfileFacts → ProfileFacts
withdraw test facts = record facts { grants = map (withdraw_if test) facts.grants }

-- A test that reads no field which revocation writes.
any-withdraw :
    (same : GrantFacts → Bool) (test : GrantFacts → Bool) (gs : List GrantFacts)
    → ((g : GrantFacts) → same (withdraw_if test g) ≡ same g)
    → any same (map (withdraw_if test) gs) ≡ any same gs
any-withdraw same test [] h = refl
any-withdraw same test (g ∷ gs) h = ground (arith, h g, any-withdraw same test gs h)

module _ (actor : Actor) (test : GrantFacts → Bool) (facts : ProfileFacts) where
  is_related-withdraw : is_related actor (withdraw test facts) ≡ is_related actor facts
  unfolding is_related
  is_related-withdraw =
      rw
        (
          any-withdraw (is_grantor actor) test facts.grants
              (λ g. unfold is_grantor in ground arith),
          any-withdraw (is_named actor) test facts.grants (λ g. unfold is_named in ground arith),
        )
        refl

  is_deceased_actor-withdraw :
      is_deceased_actor actor (withdraw test facts) ≡ is_deceased_actor actor facts
  unfolding is_deceased_actor
  is_deceased_actor-withdraw =
      rw
        (any-withdraw
          (λ g. is_self_pre_need g.grantor_type && text_eq g.grantor_user_id actor.user_id) test
          facts.grants (λ g. ground arith))
        refl

  scan_rights-withdraw :
      (purpose : DeclaredPurpose) (gs : List GrantFacts)
      → scan_rights purpose actor (withdraw test facts) (map (withdraw_if test) gs)
        ≡ scan_rights purpose actor facts gs
  unfolding scan_rights
  scan_rights-withdraw purpose [] = rw is_related-withdraw refl
  scan_rights-withdraw purpose (g ∷ gs) = ground (arith, scan_rights-withdraw purpose gs)

  decide_rights-withdraw :
      (purpose : DeclaredPurpose)
      → decide_rights purpose actor (withdraw test facts) ≡ decide_rights purpose actor facts
  unfolding decide_rights is_successor
  decide_rights-withdraw purpose = rw (scan_rights-withdraw purpose facts.grants) refl

-- Access and erasure outlive consent: revoking any of the grants changes no decision on a rights
-- action.
pub decide-rights_withdraw :
    (u : Unicode) (action : ConsentAction) (code : Text) (actor : Actor) (test : GrantFacts → Bool)
    (facts : ProfileFacts)
    → is_use action ≡ false
    → decide u action code actor (some (withdraw test facts))
      ≡ decide u action code actor (some facts)
unfolding decide
decide-rights_withdraw u action code actor test facts h = go (parse_declared_purpose u code)
  where
    go :
        (parsed : Option DeclaredPurpose)
        → decide_parsed action parsed actor (some (withdraw test facts))
          ≡ decide_parsed action parsed actor (some facts)
    go none = unfold decide_parsed in refl
    go (some p) =
        unfold decide_parsed in
        unfold decide_known in
        ground (
          arith,
          is_related-withdraw actor test facts,
          is_deceased_actor-withdraw actor test facts,
          decide_rights-withdraw actor test facts p,
        )

Passes-withdraw :
    (action : ConsentAction) (purpose : DeclaredPurpose) (actor : Actor) (test : GrantFacts → Bool)
    (facts : ProfileFacts) (g : GrantFacts)
    → Passes action purpose actor (withdraw test facts) (withdraw_if test g)
    → (test g ≡ false) × Passes action purpose actor facts g
unfolding may_use in_scope is_grantor is_successor
Passes-withdraw action purpose actor test facts g p = ground arith

Any-withdraw :
    (action : ConsentAction) (purpose : DeclaredPurpose) (actor : Actor) (test : GrantFacts → Bool)
    (facts : ProfileFacts) (gs : List GrantFacts)
    → Any (Passes action purpose actor (withdraw test facts)) (map (withdraw_if test) gs)
    → Any (λ g. (test g ≡ false) × Passes action purpose actor facts g) gs
Any-withdraw action purpose actor test facts (g ∷ gs) (inl p) =
    inl (Passes-withdraw action purpose actor test facts g p)
Any-withdraw action purpose actor test facts (g ∷ gs) (inr h) =
    inr (Any-withdraw action purpose actor test facts gs h)
Any-withdraw action purpose actor test facts [] h = absurd h

Any-second : (P Q : GrantFacts → Type 0) (gs : List GrantFacts) → Any (λ g. P g × Q g) gs → Any Q gs
Any-second P Q (g ∷ gs) (inl p) = inl p.1
Any-second P Q (g ∷ gs) (inr h) = inr (Any-second P Q gs h)
Any-second P Q [] h = absurd h

-- A use action that is still allowed once some grants are revoked rests on a grant that is not one
-- of them and that would have served before as well; revocation never enables a use action.
pub decide-use_withdraw :
    (u : Unicode) (action : ConsentAction) (code : Text) (actor : Actor) (test : GrantFacts → Bool)
    (facts : ProfileFacts)
    → is_use action ≡ true
    → (decide u action code actor (some (withdraw test facts))).allowed ≡ true
    → Any (λ g. (test g ≡ false) × Passes action (action_purpose action) actor facts g) facts.grants
      × ((decide u action code actor (some facts)).allowed ≡ true)
decide-use_withdraw u action code actor test facts h allowed =
    let after = (decide-allowed_iff u action code actor (withdraw test facts)).0 allowed in
    let (dead, passing) = rw h at after.entitled in
    let kept = Any-withdraw action (action_purpose action) actor test facts facts.grants passing in
    (
      kept,
      (decide-allowed_iff u action code actor facts).1 (record {
        purpose = after.purpose;
        person = after.person;
        living = sym (is_deceased_actor-withdraw actor test facts) ∙ after.living;
        entitled = rw h (
          dead,
          Any-second (λ g. test g ≡ false) (Passes action (action_purpose action) actor facts)
              facts.grants kept,
        );
      }),
    )

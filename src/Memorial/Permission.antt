-- ===== src/Memorial/Permission.antt =====
-- When `decide` of remembrance/consent.py allows, and when `authorize` does.
use the_st.Prelude.{
  ◌==◌, ◌≡◌, refl, sym, ◌∙◌, ◌↔◌, ◌⊎◌, inl, inr, Bool, true, false, ◌&&◌, ◌||◌, Option, none, some,
  arith, Text, codes, text_eq, text_eq_iff, Bool-cases, Option-cases, ==_iff, and_left, and_right,
  and_intro,
}
use the_st.Memorial.{Grant, one_of}
use the_st.Memorial.Consent.{decide, decide_grant}

-- What a visitor of a role may rest a request on: a verified grant of the first policy for viewing,
-- released by now, to an audience that the role belongs to.
pub record Covers (g : Grant) (death_confirmed : Bool) (role : Text) : Type 0 where
  pub status : g.status ≡ codes "verified"
  pub scope : g.scope ≡ codes "memorial_view"
  pub policy : g.policy_version ≡ 1
  pub released :
      (g.activation ≡ codes "now")
      ⊎ ((g.activation ≡ codes "after_death") × (death_confirmed ≡ true))
  pub audience :
      (g.audience ≡ codes "public") ⊎ ((g.audience ≡ codes "family") × (role ≡ codes "family"))

-- The tests of `decide_grant`, as one condition.
abbrev covers : Grant → Bool → Text → Text → Bool
covers g death_confirmed role action =
    text_eq g.status (codes "verified")
    && text_eq g.scope action
    && g.policy_version == 1
    && (text_eq g.activation (codes "now")
        || (text_eq g.activation (codes "after_death") && death_confirmed))
    && (text_eq g.audience (codes "public")
        || (text_eq g.audience (codes "family") && text_eq role (codes "family")))

-- No text is two.
apart : (a b t : Text) → text_eq a b ≡ false → text_eq t a ≡ true → text_eq t b ≡ false
apart a b t h e = ground (arith, text_eq_iff t a, text_eq_iff t b, text_eq_iff a b)

decide_grant-covers :
    (g : Grant) (death_confirmed : Bool) (role action : Text)
    → (decide_grant g death_confirmed role action).allowed ≡ covers g death_confirmed role action
unfolding decide_grant one_of text_eq
decide_grant-covers g death_confirmed role action =
    let r = apart (codes "revoked") (codes "verified") g.status refl in
    let f = apart (codes "family") (codes "public") g.audience refl in
    let n = apart (codes "after_death") (codes "now") g.activation refl in ground (arith, r, f, n)

covers-Covers :
    (g : Grant) (death_confirmed : Bool) (role : Text)
    → (covers g death_confirmed role (codes "memorial_view") ≡ true) ↔ Covers g death_confirmed role
covers-Covers g death_confirmed role = (
  (λ h. record {
    status = (text_eq_iff g.status _).0 (ground arith);
    scope = (text_eq_iff g.scope _).0 (ground arith);
    policy = ground arith;
    released = elim (Bool-cases (text_eq g.activation (codes "now"))) [
      | inl e ↦ inl ((text_eq_iff g.activation _).0 e)
      | inr e ↦ inr ((text_eq_iff g.activation _).0 (ground arith), ground arith)
    ];
    audience = elim (Bool-cases (text_eq g.audience (codes "public"))) [
      | inl e ↦ inl ((text_eq_iff g.audience _).0 e)
      | inr e ↦
          inr ((text_eq_iff g.audience _).0 (ground arith), (text_eq_iff role _).0 (ground arith))
    ];
  }),
  (λ c.
      let status = (text_eq_iff g.status (codes "verified")).1 c.status in
      let scope = (text_eq_iff g.scope (codes "memorial_view")).1 c.scope in
      let policy = (==_iff g.policy_version 1).1 c.policy in
      let now = text_eq_iff g.activation (codes "now") in
      let later = text_eq_iff g.activation (codes "after_death") in
      let all = text_eq_iff g.audience (codes "public") in
      let some_ = text_eq_iff g.audience (codes "family") in
      let family = text_eq_iff role (codes "family") in
      let released : (text_eq g.activation (codes "now")
            || (text_eq g.activation (codes "after_death") && death_confirmed))
          ≡ true =
        elim (c.released) [
          | inl e ↦ let a = now.1 e in ground arith
          | inr (e, d) ↦ let a = later.1 e in ground arith
        ] in
      let audience : (text_eq g.audience (codes "public")
            || (text_eq g.audience (codes "family") && text_eq role (codes "family")))
          ≡ true =
        elim (c.audience) [
          | inl e ↦ let a = all.1 e in ground arith
          | inr (e, d) ↦ let a = some_.1 e in let b = family.1 d in ground arith
        ] in
      ground (arith, status, scope, policy, released, audience)),
)

-- The tests on the request, before the grant is looked at.
abbrev asks : Text → Text → Text → Bool
asks role action purpose =
    text_eq action (codes "memorial_view")
    && text_eq purpose (codes "memorial")
    && (text_eq role (codes "public") || text_eq role (codes "family"))

asks_iff :
    (role action purpose : Text)
    → (asks role action purpose ≡ true) ↔ (
        (action ≡ codes "memorial_view")
        × (purpose ≡ codes "memorial")
        × ((role ≡ codes "public") ⊎ (role ≡ codes "family")))
asks_iff role action purpose = ground (
  arith,
  text_eq_iff action (codes "memorial_view"),
  text_eq_iff purpose (codes "memorial"),
  text_eq_iff role (codes "public"),
  text_eq_iff role (codes "family"),
)

abbrev allows : Option Grant → Bool → Text → Text → Bool
allows none death_confirmed role action = false
allows (some g) death_confirmed role action = (decide_grant g death_confirmed role action).allowed

decide-asks :
    (grant : Option Grant) (death_confirmed : Bool) (role action purpose : Text)
    → (decide grant death_confirmed role action purpose).allowed
      ≡ (asks role action purpose && allows grant death_confirmed role action)
unfolding decide one_of
decide-asks none death_confirmed role action purpose = ground arith
decide-asks (some g) death_confirmed role action purpose = ground arith

-- `decide` allows exactly when the action is to view, the purpose is the memorial, the role is that
-- of the public or the family, and there is a grant that covers the role: it is verified, of the
-- first policy, released now or after a confirmed death, and for an audience that the role is of.
pub decide-Covers :
    (grant : Option Grant) (death_confirmed : Bool) (role action purpose : Text)
    → ((decide grant death_confirmed role action purpose).allowed ≡ true) ↔ (
        (action ≡ codes "memorial_view")
        × (purpose ≡ codes "memorial")
        × ((role ≡ codes "public") ⊎ (role ≡ codes "family"))
        × ((g : Grant) × (grant ≡ some g) × Covers g death_confirmed role))
decide-Covers grant death_confirmed role action purpose = (
  (λ h.
      let tests = rw (decide-asks grant death_confirmed role action purpose) at h in
      let grants =
        and_right (asks role action purpose) (allows grant death_confirmed role action) tests in
      let (a, p, r) =
        (asks_iff role action purpose).0
          (and_left (asks role action purpose) (allows grant death_confirmed role action) tests) in
      (
        a,
        p,
        r,
        elim (Option-cases grant) [
          | inl e ↦ absurd (let no = rw e at grants in ground arith)
          | inr (g, e) ↦
              let yes =
                sym (decide_grant-covers g death_confirmed role (codes "memorial_view"))
                ∙ (rw (e, a) at grants) in
              (g, e, (covers-Covers g death_confirmed role).0 yes)
        ],
      )),
  (λ (a, p, r, (g, e, c)).
      let tests = (asks_iff role action purpose).1 (a, p, r) in
      let yes = (covers-Covers g death_confirmed role).1 c in
      rw (decide-asks grant death_confirmed role action purpose, e)
        (and_intro tests (rw (decide_grant-covers g death_confirmed role action, a) yes))),
)

-- ===== src/Memorial/Access.antt =====
-- Who may see a memorial: `get_memorial`, `sharing_allowed`, `visible` and `owned_action` of
-- remembrance/app.py. A visitor is the account that is signed in, if one is.
use the_st.Prelude.{
  ℕ, ◌≡◌, refl, ap, sym, ◌∙◌, ◌⊎◌, inl, inr, Bool, true, false, not, ◌&&◌, ◌||◌, Option, none, some,
  arith, Text, codes, text_eq, any, if◌then◌else◌, Bool-cases, Option-cases,
}
use the_st.Memorial.{User, Memorial, Control, Grant, Site, find_memorial, find_control}
use the_st.Memorial.Consent.{decide_with, is_confirmed, current_grant, authorize}
use the_st.Memorial.Permission.{Covers, decide-Covers}

-- What a request for a memorial gets: the memorial with the visitor's role, or an HTTP error.
pub data Access : Type 0 where
  served : Memorial → Text → Access
  not_found forbidden : Access

abbrev account_of : Option User → Option Text
account_of none = none
account_of (some user) = some user.id

unfoldable pub is_owner : Option User → Memorial → Bool
is_owner none m = false
is_owner (some user) m = text_eq user.id m.owner_id

unfoldable pub is_member : Option User → Text → Site → Bool
is_member none mid site = false
is_member (some user) mid site =
    any (λ x. text_eq x.memorial_id mid && text_eq x.email user.email) site.members

unfoldable pub role_of : Option User → Memorial → Text → Site → Text
role_of user m mid site =
    if is_owner user m
    then codes "owner"
    else if is_member user mid site
    then codes "family"
    else codes "public"

-- What a memorial's own settings keep from a visitor who is not its owner.
unfoldable pub is_hidden : Memorial → Text → Bool
is_hidden m role =
    m.archived
    || text_eq m.visibility (codes "private")
    || (text_eq m.visibility (codes "family") && not (text_eq role (codes "family")))

-- `visible`, of an item that is archived or not and has a visibility.
unfoldable pub visible : Bool → Text → Text → Bool
visible archived visibility role =
    text_eq role (codes "owner")
    || (not archived
        && (text_eq visibility (codes "public")
            || (text_eq role (codes "family") && text_eq visibility (codes "family"))))

-- What a visitor gets, by whether an owner is asked for, whether the visitor is the owner, whether
-- the memorial is hidden, and whether its sharing is allowed.
abbrev admit_by : Bool → Bool → Bool → Bool → Memorial → Text → Access
admit_by owner mine hidden allowed m role =
    if owner && not mine
    then forbidden
    else if mine
    then served m role
    else if hidden
    then not_found
    else if allowed
    then served m role
    else not_found

-- The example memorial is read-only.
abbrev pub writable : Access → Access
writable (served m role) = if m.demo then forbidden else served m role
writable not_found = not_found
writable forbidden = forbidden

module _ (sha256 : Text → Text) where
  -- From the row of the controls, if there is one.
  unfoldable pub sharing_with :
      (ℕ → Text) → Option User → Text → Text → Site → Option Control → Bool × Site
  sharing_with clock user mid role site none = (true, site)
  sharing_with clock user mid role site (some control) =
      let (result, site') =
        authorize sha256 clock mid role (account_of user) (codes "memorial_view") (codes "memorial")
          site in
      (result.allowed, site')

  unfoldable pub sharing_allowed : (ℕ → Text) → Option User → Text → Text → Site → Bool × Site
  sharing_allowed clock user mid role site =
      sharing_with clock user mid role site (find_control mid site)

  -- The end of `get_memorial`, for a memorial that there is.
  unfoldable pub admit :
      (ℕ → Text) → Option User → Text → Bool → Memorial → Text → Site → Access × Site
  admit clock user mid owner m role site =
      let (allowed, site') = sharing_allowed clock user mid role site in
      let mine = text_eq role (codes "owner") in
      (
        admit_by owner mine (is_hidden m role) allowed m role,
        if owner || mine || is_hidden m role then site else site',
      )

  unfoldable pub get_memorial : (ℕ → Text) → Option User → Text → Bool → Site → Access × Site
  get_memorial clock user mid owner site = elim (find_memorial mid site) [
    | none ↦ (not_found, site)
    | some m ↦ admit clock user mid owner m (role_of user m mid site) site
  ]

  unfoldable pub owned_action : (ℕ → Text) → Option User → Text → Site → Access × Site
  owned_action clock user mid site =
      let (access, site') = get_memorial clock user mid true site in (writable access, site')

  -- What a visitor who is not the owner rests a visit on.
  pub record Shared (mid : Text) (m : Memorial) (role : Text) (site : Site) : Type 0 where
    pub shown : is_hidden m role ≡ false
    pub permitted :
        (find_control mid site ≡ none)
        ⊎ ((control : Control) × (g : Grant) × (find_control mid site ≡ some control)
            × (current_grant mid site ≡ some g)
            × Covers g (is_confirmed control) role)

  sharing_allowed-permitted :
      (clock : ℕ → Text) (user : Option User) (mid role : Text) (site : Site)
      → (sharing_allowed clock user mid role site).0 ≡ true
      → (find_control mid site ≡ none)
        ⊎ ((control : Control) × (g : Grant) × (find_control mid site ≡ some control)
            × (current_grant mid site ≡ some g)
            × Covers g (is_confirmed control) role)
  unfolding sharing_allowed sharing_with authorize decide_with
  sharing_allowed-permitted clock user mid role site h =
      elim (Option-cases (find_control mid site)) [
        | inl e ↦ inl e
        | inr (control, e) ↦
            let asked : (decide_with (find_control mid site) (current_grant mid site) role
                  (codes "memorial_view") (codes "memorial")).0.allowed
                ≡ true =
              rw e at h in
            let allowed = rw e at asked in
            let (a, p, r, (g, found, covers)) =
              (decide-Covers (current_grant mid site) (is_confirmed control) role
                  (codes "memorial_view") (codes "memorial")).0
                allowed in
            inr (control, g, e, found, covers)
      ]

  role_of-owner :
      (user : Option User) (m : Memorial) (mid : Text) (site : Site)
      → text_eq (role_of user m mid site) (codes "owner") ≡ true
      → is_owner user m ≡ true
  unfolding role_of text_eq
  role_of-owner user m mid site h = elim (Bool-cases (is_owner user m)) [
    | inl e ↦ e
    | inr e ↦ elim (Bool-cases (is_member user mid site)) [
      | inl f ↦ absurd (let other = rw (e, f, role_of) at h in ground arith)
      | inr f ↦ absurd (let other = rw (e, f, role_of) at h in ground arith)
    ]
  ]

  admit_by-served :
      (owner mine hidden allowed : Bool) (x m : Memorial) (r role : Text)
      → admit_by owner mine hidden allowed x r ≡ served m role
      → (x ≡ m)
        × (r ≡ role)
        × ((mine ≡ true) ⊎ ((owner ≡ false) × (hidden ≡ false) × (allowed ≡ true)))
  admit_by-served true false hidden allowed x m r role h = absurd (cc h)
  admit_by-served true true hidden allowed x m r role h = (cc h, cc h, inl refl)
  admit_by-served false true hidden allowed x m r role h = (cc h, cc h, inl refl)
  admit_by-served false false true allowed x m r role h = absurd (cc h)
  admit_by-served false false false false x m r role h = absurd (cc h)
  admit_by-served false false false true x m r role h = (cc h, cc h, inr (refl, refl, refl))

  -- What a visitor who is served has passed.
  pub get_memorial-permitted :
      (clock : ℕ → Text) (user : Option User) (mid : Text) (owner : Bool) (site : Site)
      (m : Memorial) (role : Text)
      → (get_memorial clock user mid owner site).0 ≡ served m role
      → (find_memorial mid site ≡ some m)
        × (role_of user m mid site ≡ role)
        × ((is_owner user m ≡ true) ⊎ ((owner ≡ false) × Shared mid m role site))
  unfolding get_memorial admit
  get_memorial-permitted clock user mid owner site m role h =
      elim (Option-cases (find_memorial mid site)) [
        | inl e ↦ absurd (let none_ = rw (e, get_memorial) at h in cc none_)
        | inr (x, e) ↦
            let admitted = rw (e, get_memorial) at h in
            let r = role_of user x mid site in
            let (same, role_, how) =
              admit_by-served owner (text_eq r (codes "owner")) (is_hidden x r)
                ((sharing_allowed clock user mid r site).0) x m r role admitted in
            rw (← same) (
              rw (← role_) (
                e,
                refl,
                elim how [
                  | inl mine ↦ inl (role_of-owner user x mid site mine)
                  | inr (plain, shown, allowed) ↦ inr (
                    plain,
                    record {
                      shown = shown;
                      permitted = sharing_allowed-permitted clock user mid r site allowed;
                    },
                  )
                ],
              ))
      ]

  writable_if-served :
      (demo : Bool) (x m : Memorial) (r role : Text)
      → (if demo then forbidden else served x r) ≡ served m role
      → (x ≡ m) × (r ≡ role) × (demo ≡ false)
  writable_if-served true x m r role h = absurd (cc h)
  writable_if-served false x m r role h = (cc h, cc h, refl)

  writable-served :
      (a : Access) (m : Memorial) (role : Text)
      → writable a ≡ served m role
      → (a ≡ served m role) × (m.demo ≡ false)
  writable-served (served x r) m role h =
      let (eq, same, real) = writable_if-served x.demo x m r role h in
      let demo : x.demo ≡ m.demo = ap (λ y. y.demo) eq in (rw (eq, same) refl, sym demo ∙ real)
  writable-served not_found m role h = absurd (cc h)
  writable-served forbidden m role h = absurd (cc h)

  -- Whom `owned_action` lets through, on any request: the owner of a memorial that is no example; and
  -- it leaves the site as it is.
  pub owned_action-serves :
      (clock : ℕ → Text) (user : Option User) (mid : Text) (site : Site) (m : Memorial)
      (role : Text)
      → (owned_action clock user mid site).0 ≡ served m role
      → (find_memorial mid site ≡ some m)
        × (is_owner user m ≡ true)
        × (m.demo ≡ false)
        × ((owned_action clock user mid site).1 ≡ site)
  unfolding owned_action get_memorial admit
  owned_action-serves clock user mid site m role h =
      let (access, real) = writable-served ((get_memorial clock user mid true site).0) m role h in
      let (found, role_, who) = get_memorial-permitted clock user mid true site m role access in
      let mine : is_owner user m ≡ true = elim who [
        | inl owner ↦ owner
        | inr (plain, shared) ↦ absurd (cc plain)
      ] in
      (found, mine, real, rw (found, get_memorial) refl)

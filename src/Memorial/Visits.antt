-- ===== src/Memorial/Visits.antt =====
-- Whom `get_memorial` of remembrance/app.py serves, said of the tables.
use the_st.Prelude.{
  ℕ, ◌≡◌, ◌≢◌, refl, ap, ◌∙◌, ◌⊎◌, inl, inr, Bool, true, false, ◌&&◌, Option, none, some, arith,
  Text, codes, text_eq, text_eq_iff, any, Any, List, [], ◌∷◌, Bool-cases,
}
use the_st.Memorial.{User, Memorial, Member, Control, Grant, Site, find_memorial, find_control}
use the_st.Memorial.Consent.{is_confirmed, current_grant}
use the_st.Memorial.Permission.{Covers}
use the_st.Memorial.Access.{
  served, is_owner, is_member, role_of, is_hidden, get_memorial, get_memorial-permitted,
}

-- The visitor is the account of the memorial's owner.
abbrev pub IsOwner : Option User → Memorial → Type 0
IsOwner user m = (u : User) × (user ≡ some u) × (u.id ≡ m.owner_id)

-- The visitor's address is on the memorial's own list of its family.
abbrev pub IsMember : Option User → Text → Site → Type 0
IsMember user mid site =
    (u : User) × (user ≡ some u)
    × Any (λ x. (x.memorial_id ≡ mid) × (x.email ≡ u.email)) site.members

is_owner-IsOwner : (user : Option User) (m : Memorial) → is_owner user m ≡ true → IsOwner user m
unfolding is_owner
is_owner-IsOwner none m h = absurd (cc h)
is_owner-IsOwner (some u) m h = (u, refl, (text_eq_iff u.id m.owner_id).0 h)

not-IsOwner : (user : Option User) (m : Memorial) → is_owner user m ≡ false → ¬ IsOwner user m
unfolding is_owner
not-IsOwner none m h (u, e, same) = absurd (cc e)
not-IsOwner (some v) m h (u, e, same) =
    let eq : v ≡ u = cc e in
    let mine : v.id ≡ m.owner_id = ap (λ x. x.id) eq ∙ same in
    let test = (text_eq_iff v.id m.owner_id).1 mine in absurd (ground arith)

any-Any :
    (mid email : Text) (xs : List Member)
    → any (λ x. text_eq x.memorial_id mid && text_eq x.email email) xs ≡ true
    → Any (λ x. (x.memorial_id ≡ mid) × (x.email ≡ email)) xs
any-Any mid email [] h = absurd (ground arith)
any-Any mid email (x ∷ xs) h =
    elim (Bool-cases (text_eq x.memorial_id mid && text_eq x.email email)) [
      | inl e ↦ inl (
        (text_eq_iff x.memorial_id mid).0 (ground arith),
        (text_eq_iff x.email email).0 (ground arith),
      )
      | inr e ↦ inr (any-Any mid email xs (ground arith))
    ]

Any-any :
    (mid email : Text) (xs : List Member)
    → Any (λ x. (x.memorial_id ≡ mid) × (x.email ≡ email)) xs
    → any (λ x. text_eq x.memorial_id mid && text_eq x.email email) xs ≡ true
Any-any mid email [] h = absurd h
Any-any mid email (x ∷ xs) (inl (a, b)) =
    let p = (text_eq_iff x.memorial_id mid).1 a in
    let q = (text_eq_iff x.email email).1 b in ground arith
Any-any mid email (x ∷ xs) (inr later) =
    let rest = Any-any mid email xs later in ground (arith, rest)

is_member-IsMember :
    (user : Option User) (mid : Text) (site : Site)
    → is_member user mid site ≡ true
    → IsMember user mid site
unfolding is_member
is_member-IsMember none mid site h = absurd (cc h)
is_member-IsMember (some u) mid site h = (u, refl, any-Any mid u.email site.members h)

not-IsMember :
    (user : Option User) (mid : Text) (site : Site)
    → is_member user mid site ≡ false
    → ¬ IsMember user mid site
unfolding is_member
not-IsMember none mid site h (u, e, on) = absurd (cc e)
not-IsMember (some v) mid site h (u, e, on) =
    let eq : u ≡ v = cc e in
    let listed = Any-any mid v.email site.members (rw eq at on) in absurd (cc (listed, h))

-- Who comes as what: the owner, the family, or the public.
abbrev pub ComesAs : Option User → Memorial → Text → Site → Text → Type 0
ComesAs user m mid site role =
    (IsOwner user m × (role ≡ codes "owner"))
    ⊎ (¬ IsOwner user m × IsMember user mid site × (role ≡ codes "family"))
    ⊎ (¬ IsOwner user m × ¬ IsMember user mid site × (role ≡ codes "public"))

role_of-ComesAs :
    (user : Option User) (m : Memorial) (mid : Text) (site : Site)
    → ComesAs user m mid site (role_of user m mid site)
unfolding role_of
role_of-ComesAs user m mid site = elim (Bool-cases (is_owner user m)) [
  | inl e ↦ inl (is_owner-IsOwner user m e, rw e refl)
  | inr e ↦ elim (Bool-cases (is_member user mid site)) [
    | inl f ↦ inr (inl (not-IsOwner user m e, is_member-IsMember user mid site f, rw (e, f) refl))
    | inr f ↦ inr (inr (not-IsOwner user m e, not-IsMember user mid site f, rw (e, f) refl))
  ]
]

-- The memorial's own settings, for a visitor who comes as `role`.
abbrev pub IsOpen : Memorial → Text → Type 0
IsOpen m role =
    (m.archived ≡ false)
    × (m.visibility ≢ codes "private")
    × ((m.visibility ≡ codes "family") → role ≡ codes "family")

is_hidden-IsOpen : (m : Memorial) (role : Text) → is_hidden m role ≡ false → IsOpen m role
unfolding is_hidden
is_hidden-IsOpen m role h = (
  ground arith,
  (λ e. let test = (text_eq_iff m.visibility (codes "private")).1 e in absurd (ground arith)),
  λ e.
      let test = (text_eq_iff m.visibility (codes "family")).1 e in
      (text_eq_iff role (codes "family")).0 (ground arith),
)

-- The sharing of a memorial is not under consent, or its current grant covers the role.
abbrev pub MayShare : Text → Text → Site → Type 0
MayShare mid role site =
    (find_control mid site ≡ none)
    ⊎ ((control : Control) × (g : Grant) × (find_control mid site ≡ some control)
        × (current_grant mid site ≡ some g)
        × Covers g (is_confirmed control) role)

module _ (sha256 : Text → Text) where
  -- Whom `get_memorial` serves, and as what: the account that owns the memorial, as its owner; where
  -- no owner is asked for, anyone else, as family if the visitor's address is on that memorial's list
  -- of members, else as the public. Who is not the owner is served only a memorial that is not
  -- archived and not private, if it is the family's then only as family, and only if its sharing is
  -- not under consent or a current grant covers the role.
  pub get_memorial-serves :
      (clock : ℕ → Text) (user : Option User) (mid : Text) (owner : Bool) (site : Site)
      (m : Memorial) (role : Text)
      → (get_memorial sha256 clock user mid owner site).0 ≡ served m role
      → (find_memorial mid site ≡ some m)
        × ComesAs user m mid site role
        × (IsOwner user m ⊎ ((owner ≡ false) × IsOpen m role × MayShare mid role site))
  get_memorial-serves clock user mid owner site m role h =
      let (found, as_, how) = get_memorial-permitted sha256 clock user mid owner site m role h in
      (
        found,
        rw as_ at (role_of-ComesAs user m mid site),
        elim how [
          | inl mine ↦ inl (is_owner-IsOwner user m mine)
          | inr (plain, shared) ↦
              inr (plain, is_hidden-IsOpen m role shared.shown, shared.permitted)
        ],
      )

-- ===== src/Memorial/Invariant.antt =====
-- The invariant of the memorial site's tables that remembrance/consent.py, succession.py and
-- erasure.py keep, table by table.
use the_st.Prelude.{
  ◌≤◌, ◌≡◌, refl, Bool, true, false, List, ◌∷◌, ◌++◌, Option, none, some, arith, Text, codes,
  text_eq, text_eq_iff, keep, find, any, All,
}
use the_st.Fallible.{Post, Post-ok, Post-guard}
use the_st.Memorial.{Platform, Grant, Nomination, ErasureRequest, Site, update}
use the_st.Memorial.Rows.{
  count, count-update_le, count-find-none, count-any-false, count-keep_le, count-update_key,
  count-add, All-update, All-keep,
}
use the_st.Memorial.Consent.{is_current, verified_with, revoked_with, operator_identity}
use the_st.Memorial.Succession.{is_active, is_nomination, is_pending}
use the_st.Memorial.Erasures.{is_request}
use the_st.Memorial.Append.{Grown}

abbrev pub is_grant : Text → Grant → Bool
is_grant id g = text_eq g.id id

abbrev pub IsOperator : Option Text → Type 0
IsOperator who = (name : Text) × (who ≡ some (codes "operator:" ++ name))

-- A verified grant has been verified by an operator.
abbrev pub Reviewed : Grant → Type 0
Reviewed g = text_eq g.status (codes "verified") ≡ true → IsOperator g.verified_by

-- At most one grant of a memorial is not revoked, no two have one id, and operators alone verify.
abbrev pub GoodGrants : List Grant → Type 0
GoodGrants gs =
    ((mid : Text) → count (is_current mid) gs ≤ 1)
    × ((id : Text) → count (is_grant id) gs ≤ 1)
    × All Reviewed gs

-- At most one nomination of a memorial is offered or accepted, and no two have one id.
abbrev pub GoodNominations : List Nomination → Type 0
GoodNominations ns =
    ((mid : Text) → count (is_active mid) ns ≤ 1) × ((id : Text) → count (is_nomination id) ns ≤ 1)

-- At most one request of a memorial waits for review.
abbrev pub GoodRequests : List ErasureRequest → Type 0
GoodRequests rs = (mid : Text) → count (is_pending mid) rs ≤ 1

pub GoodGrants-add :
    (g : Grant) (gs : List Grant)
    → find (is_current g.memorial_id) gs ≡ none
    → any (is_grant g.id) gs ≡ false
    → text_eq g.status (codes "verified") ≡ false
    → GoodGrants gs
    → GoodGrants (g ∷ gs)
GoodGrants-add g gs unset fresh pending (current, ids, reviewed) = (
  count-add g.memorial_id is_current g gs (count-find-none (is_current g.memorial_id) gs unset)
      (λ mid e. (text_eq_iff g.memorial_id mid).0 (ground arith)) current,
  count-add g.id is_grant g gs (count-any-false (is_grant g.id) gs fresh)
      (λ id e. (text_eq_iff g.id id).0 e) ids,
  ((λ verified. absurd (ground arith)), reviewed),
)

pub GoodGrants-verify :
    (gid now actor evidence : Text) (g : Grant) (gs : List Grant)
    → find (is_grant gid) gs ≡ some g
    → text_eq g.status (codes "pending") ≡ true
    → IsOperator (some actor)
    → GoodGrants gs
    → GoodGrants (update (is_grant gid) (verified_with now actor evidence) gs)
unfolding text_eq
GoodGrants-verify gid now actor evidence g gs found pending operator (current, ids, reviewed) =
    let change = verified_with now actor evidence in
    let status : g.status ≡ codes "pending" = (text_eq_iff g.status (codes "pending")).0 pending in
    (
      (λ mid.
          let le =
            count-update_key (is_current mid) (is_grant gid) change gs g found (ids gid)
              λ passed. rw status (ground arith) in
          let one = current mid in omega arith),
      (λ id.
          let le = count-update_le (is_grant id) (is_grant gid) change gs λ x _ passed. passed in
          let one = ids id in omega arith),
      All-update Reviewed (is_grant gid) change gs (λ x _ _ _. operator) reviewed,
    )

pub GoodGrants-revoke :
    (gid now actor : Text) (gs : List Grant)
    → GoodGrants gs
    → GoodGrants (update (is_grant gid) (revoked_with now actor) gs)
unfolding text_eq
GoodGrants-revoke gid now actor gs (current, ids, reviewed) =
    let change = revoked_with now actor in
    (
      (λ mid.
          let le =
            count-update_le (is_current mid) (is_grant gid) change gs
              λ x _ passed. absurd (ground arith) in
          let one = current mid in omega arith),
      (λ id.
          let le = count-update_le (is_grant id) (is_grant gid) change gs λ x _ passed. passed in
          let one = ids id in omega arith),
      All-update Reviewed (is_grant gid) change gs (λ x _ _ verified. absurd (ground arith))
          reviewed,
    )

pub GoodGrants-keep :
    (kept : Grant → Bool) (gs : List Grant) → GoodGrants gs → GoodGrants (keep kept gs)
GoodGrants-keep kept gs (current, ids, reviewed) = (
  (λ mid. let le = count-keep_le (is_current mid) kept gs in let one = current mid in omega arith),
  (λ id. let le = count-keep_le (is_grant id) kept gs in let one = ids id in omega arith),
  All-keep Reviewed kept gs reviewed,
)

pub GoodNominations-add :
    (n : Nomination) (ns : List Nomination)
    → any (is_active n.memorial_id) ns ≡ false
    → any (is_nomination n.id) ns ≡ false
    → GoodNominations ns
    → GoodNominations (n ∷ ns)
unfolding is_active
GoodNominations-add n ns unset fresh (active, ids) = (
  count-add n.memorial_id is_active n ns (count-any-false (is_active n.memorial_id) ns unset)
      (λ mid e. (text_eq_iff n.memorial_id mid).0 (ground arith)) active,
  count-add n.id is_nomination n ns (count-any-false (is_nomination n.id) ns fresh)
      (λ id e. (text_eq_iff n.id id).0 e) ids,
)

-- A change of the nomination with an id, which makes none active that was not.
pub GoodNominations-update :
    (id : Text) (change : Nomination → Nomination) (n : Nomination) (ns : List Nomination)
    → find (is_nomination id) ns ≡ some n
    → ((x : Nomination) → (change x).id ≡ x.id)
    → ((mid : Text) → is_active mid (change n) ≡ true → is_active mid n ≡ true)
    → GoodNominations ns
    → GoodNominations (update (is_nomination id) change ns)
GoodNominations-update id change n ns found same keeps (active, ids) = (
  (λ mid.
      let le =
        count-update_key (is_active mid) (is_nomination id) change ns n found (ids id)
          (keeps mid) in
      let one = active mid in omega arith),
  (λ i.
      let le =
        count-update_le (is_nomination i) (is_nomination id) change ns
          λ x _ passed. rw (same x) at passed in
      let one = ids i in omega arith),
)

pub GoodRequests-close :
    (id : Text) (change : ErasureRequest → ErasureRequest) (rs : List ErasureRequest)
    → ((x : ErasureRequest) → text_eq (change x).status (codes "pending") ≡ false)
    → GoodRequests rs
    → GoodRequests (update (is_request id) change rs)
GoodRequests-close id change rs closed good mid =
    let le =
      count-update_le (is_pending mid) (is_request id) change rs
        λ x _ passed. absurd (ground (arith, closed x)) in
    let one = good mid in omega arith

pub GoodNominations-keep :
    (kept : Nomination → Bool) (ns : List Nomination)
    → GoodNominations ns
    → GoodNominations (keep kept ns)
GoodNominations-keep kept ns (active, ids) = (
  (λ mid. let le = count-keep_le (is_active mid) kept ns in let one = active mid in omega arith),
  (λ id. let le = count-keep_le (is_nomination id) kept ns in let one = ids id in omega arith),
)

pub GoodRequests-keep :
    (kept : ErasureRequest → Bool) (rs : List ErasureRequest)
    → GoodRequests rs
    → GoodRequests (keep kept rs)
GoodRequests-keep kept rs good mid =
    let le = count-keep_le (is_pending mid) kept rs in let one = good mid in omega arith

module _ (sha256 : Text → Text) where
  -- The invariant of a site.
  abbrev pub Sound : Site → Type 0
  Sound site =
      Grown sha256 site.history
      × GoodGrants site.grants
      × GoodNominations site.nominations
      × GoodRequests site.erasure_requests

  pub operator_identity-IsOperator :
      (u : Platform) (reviewer reference : Text)
      → Post (λ r. IsOperator (some r.0)) (operator_identity sha256 u reviewer reference)
  unfolding operator_identity
  operator_identity-IsOperator u reviewer reference =
      Post-guard _ _ λ _. Post-guard _ _ λ _. Post-ok (reviewer, refl)

-- ===== src/Memorial/Rows.antt =====
-- Rows of a table that pass a test, under the updates, inserts and deletes of remembrance/consent.py,
-- succession.py and erasure.py.
use the_st.Prelude.{
  ℕ, suc, ◌≤◌, ◌≡◌, refl, arith, Bool, true, false, ◌&&◌, List, [], ◌∷◌, none, some, keep, any,
  find, All, Bool-cases, inl, inr, if◌then◌else◌, Text,
}
use the_st.Memorial.{update}

module _ {ℓ} {A : Type ℓ} where
  -- How many rows pass.
  abbrev pub count : (A → Bool) → List A → ℕ
  count test [] = 0
  count test (x ∷ xs) = let rest = count test xs in if test x then suc rest else rest

  -- An update that lets no new row pass.
  pub count-update_le :
      (test where_ : A → Bool) (change : A → A) (xs : List A)
      → ((x : A) → where_ x ≡ true → test (change x) ≡ true → test x ≡ true)
      → count test (update where_ change xs) ≤ count test xs
  unfolding update
  count-update_le test where_ change [] h = omega arith
  count-update_le test where_ change (x ∷ xs) h =
      ground (arith, h x, count-update_le test where_ change xs h)

  pub count-find-none : (test : A → Bool) (xs : List A) → find test xs ≡ none → count test xs ≡ 0
  count-find-none test [] h = refl
  count-find-none test (x ∷ xs) h = ground (arith, count-find-none test xs)

  pub count-zero_find : (test : A → Bool) (xs : List A) → count test xs ≡ 0 → find test xs ≡ none
  count-zero_find test [] h = refl
  count-zero_find test (x ∷ xs) h = ground (arith, count-zero_find test xs)

  pub count-keep_le :
      (test kept : A → Bool) (xs : List A) → count test (keep kept xs) ≤ count test xs
  count-keep_le test kept [] = omega arith
  count-keep_le test kept (x ∷ xs) = ground (arith, count-keep_le test kept xs)

  -- A row that is found is counted.
  pub count-find-some :
      (test found : A → Bool) (xs : List A) (x : A)
      → find found xs ≡ some x
      → test x ≡ true
      → 1 ≤ count test xs
  count-find-some test found [] x h t = absurd (ground arith)
  count-find-some test found (y ∷ ys) x h t = ground (arith, count-find-some test found ys x)

  -- An update of rows, one of which passed and none of which passes any more.
  pub count-update_lt :
      (test where_ : A → Bool) (change : A → A) (xs : List A) (x : A)
      → find where_ xs ≡ some x
      → test x ≡ true
      → ((y : A) → test (change y) ≡ false)
      → suc (count test (update where_ change xs)) ≤ count test xs
  unfolding update
  count-update_lt test where_ change [] x found t h = absurd (ground arith)
  count-update_lt test where_ change (y ∷ ys) x found t h = elim (Bool-cases (where_ y)) [
    | inl e ↦
        let same : y ≡ x = ground arith in
        let le = count-update_le test where_ change ys λ z _ p. absurd (ground (arith, h z)) in
        ground (arith, e, same, t, h y, le)
    | inr e ↦ ground (arith, e, count-update_lt test where_ change ys x)
  ]

  pub count-any-false : (test : A → Bool) (xs : List A) → any test xs ≡ false → count test xs ≡ 0
  count-any-false test [] h = refl
  count-any-false test (x ∷ xs) h = ground (arith, count-any-false test xs)

  update-none :
      (where_ : A → Bool) (change : A → A) (xs : List A)
      → count where_ xs ≡ 0
      → update where_ change xs ≡ xs
  unfolding update
  update-none where_ change [] h = refl
  update-none where_ change (x ∷ xs) h = ground (arith, update-none where_ change xs)

  -- An update by a key, where the row found has passed if it passes afterwards.
  pub count-update_key :
      (test where_ : A → Bool) (change : A → A) (xs : List A) (x : A)
      → find where_ xs ≡ some x
      → count where_ xs ≤ 1
      → (test (change x) ≡ true → test x ≡ true)
      → count test (update where_ change xs) ≤ count test xs
  unfolding update
  count-update_key test where_ change [] x found once h = omega arith
  count-update_key test where_ change (y ∷ ys) x found once h = elim (Bool-cases (where_ y)) [
    | inl e ↦
        let same : y ≡ x = ground arith in
        let rest = update-none where_ change ys (ground arith) in
        let passed = rw (← same) at h in ground (arith, e, rest, passed)
    | inr e ↦ ground (arith, e, count-update_key test where_ change ys x)
  ]

  -- At most one row for each key, with a new row for a key that has none.
  pub count-add :
      (key : Text) (test : Text → A → Bool) (x : A) (xs : List A)
      → count (test key) xs ≡ 0
      → ((k : Text) → test k x ≡ true → key ≡ k)
      → ((k : Text) → count (test k) xs ≤ 1)
      → (k : Text) → count (test k) (x ∷ xs) ≤ 1
  count-add key test x xs unset only h k = elim (Bool-cases (test k x)) [
    | inl e ↦ let same = only k e in let zero_ = rw same at unset in ground (arith, e, zero_)
    | inr e ↦ ground (arith, e, h k)
  ]

  find-none_and :
      (where_ test : A → Bool) (xs : List A)
      → count where_ xs ≡ 0
      → find (λ y. where_ y && test y) xs ≡ none
  find-none_and where_ test [] h = refl
  find-none_and where_ test (x ∷ xs) h = ground (arith, find-none_and where_ test xs)

  -- The row that a key and another test find is the row that the key finds.
  pub find-key :
      (where_ test : A → Bool) (xs : List A) (x : A)
      → count where_ xs ≤ 1
      → find (λ y. where_ y && test y) xs ≡ some x
      → find where_ xs ≡ some x
  find-key where_ test [] x once h = absurd (ground arith)
  find-key where_ test (y ∷ ys) x once h = elim (Bool-cases (where_ y)) [
    | inr e ↦ rw e (find-key where_ test ys x (rw e at once) (rw e at h))
    | inl e ↦ elim (Bool-cases (test y)) [
      | inl t ↦ rw e (rw (e, t) at h)
      | inr t ↦
          let none_ = find-none_and where_ test ys (ground (arith, once, e)) in
          absurd (let later = rw (e, t) at h in ground (arith, none_, later))
    ]
  ]

  pub find-passes : (test : A → Bool) (xs : List A) (x : A) → find test xs ≡ some x → test x ≡ true
  find-passes test [] x h = absurd (ground arith)
  find-passes test (y ∷ ys) x h = ground (arith, find-passes test ys x)

  -- What holds of every row holds of a row that is found.
  pub All-find {κ} :
      (P : A → Type κ) (test : A → Bool) (xs : List A) (x : A)
      → find test xs ≡ some x
      → All P xs
      → P x
  All-find P test [] x h a = absurd (ground arith)
  All-find P test (y ∷ ys) x h a = elim (Bool-cases (test y)) [
    | inl e ↦ let same : y ≡ x = ground arith in rw same at (a.0)
    | inr e ↦ All-find P test ys x (rw e at h) a.1
  ]

  -- What an update of some rows keeps of each, it keeps of all.
  pub All-update {κ} :
      (P : A → Type κ) (where_ : A → Bool) (change : A → A) (xs : List A)
      → ((x : A) → where_ x ≡ true → P x → P (change x))
      → All P xs
      → All P (update where_ change xs)
  unfolding update
  All-update P where_ change [] h a = tt
  All-update P where_ change (x ∷ xs) h a = elim (Bool-cases (where_ x)) [
    | inl e ↦ rw e (h x e a.0, All-update P where_ change xs h a.1)
    | inr e ↦ rw e (a.0, All-update P where_ change xs h a.1)
  ]

  pub All-keep {κ} :
      (P : A → Type κ) (kept : A → Bool) (xs : List A) → All P xs → All P (keep kept xs)
  All-keep P kept [] a = tt
  All-keep P kept (x ∷ xs) a = elim (Bool-cases (kept x)) [
    | inl e ↦ rw e (a.0, All-keep P kept xs a.1)
    | inr e ↦ rw e (All-keep P kept xs a.1)
  ]

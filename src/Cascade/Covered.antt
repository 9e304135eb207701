-- ===== src/Cascade/Covered.antt =====
-- The loops of remembrance-consent/app/consent/cascade.py on any kind of row: a loop over the ids of
-- the rows in its scope leaves none of them live.
use the_st.Prelude.{
  ℕ, suc, ◌≡◌, refl, ap, ◌∙◌, ◌⊎◌, inl, inr, Bool, true, false, not, ◌&&◌, ◌||◌, List, [], ◌∷◌, map,
  none, arith, ◌==◌, if◌then◌else◌, any, all, keep, find, length, Bool-cases,
}
use the_st.Store.{Db}
use the_st.Service.{Failure}
use the_st.Cascade.Loops.{Progress, Work, insert_id, sorted_ids, each_id}

abbrev pub has : ℕ → List ℕ → Bool
has x = any (λ i. i == x)

has-insert_id : (x id : ℕ) (ids : List ℕ) → has x (insert_id id ids) ≡ ((id == x) || has x ids)
unfolding insert_id
has-insert_id x id [] = refl
has-insert_id x id (i ∷ ids) = ground (arith, has-insert_id x id ids)

has-sorted_ids : (x : ℕ) (ids : List ℕ) → has x (sorted_ids ids) ≡ has x ids
unfolding sorted_ids
has-sorted_ids x [] = refl
has-sorted_ids x (i ∷ ids) =
    has-insert_id x i (sorted_ids ids) ∙ ap (λ b. (i == x) || b) (has-sorted_ids x ids)

module _ {A : Type 0} (id : A → ℕ) (scope live : A → Bool) where
  -- Every live row of the scope has one of the ids.
  abbrev pub covered : List ℕ → List A → Bool
  covered ids = all (λ a. not (scope a && live a) || has (id a) ids)

  covered-more :
      (i : ℕ) (ids : List ℕ) (rows : List A)
      → covered ids rows ≡ true
      → covered (i ∷ ids) rows ≡ true
  covered-more i ids [] h = refl
  covered-more i ids (a ∷ rows) h = ground (arith, covered-more i ids rows)

  covered-if :
      (a : A) (b : Bool) (kept rows : List A)
      → (scope a && live a) ≡ b
      → covered (map id kept) rows ≡ true
      → covered (map id (if b then a ∷ kept else kept)) (a ∷ rows) ≡ true
  covered-if a true kept rows e h =
      let rest = covered-more (id a) (map id kept) rows h in ground (arith, rest)
  covered-if a false kept rows e h = ground arith

  covered-ids : (rows : List A) → covered (map id (keep (λ a. scope a && live a) rows)) rows ≡ true
  covered-ids [] = refl
  covered-ids (a ∷ rows) =
      covered-if a (scope a && live a) (keep (λ a. scope a && live a) rows) rows refl
        (covered-ids rows)

  covered-same :
      (ids ids' : List ℕ) (rows : List A)
      → ((x : ℕ) → has x ids ≡ has x ids')
      → covered ids rows ≡ covered ids' rows
  covered-same ids ids' [] h = refl
  covered-same ids ids' (a ∷ rows) h = rw (h (id a), covered-same ids ids' rows h) refl

  pub covered-start :
      (rows : List A)
      → covered (sorted_ids (map id (keep (λ a. scope a && live a) rows))) rows ≡ true
  covered-start rows =
      let ids = map id (keep (λ a. scope a && live a) rows) in
      covered-same (sorted_ids ids) ids rows (λ x. has-sorted_ids x ids) ∙ covered-ids rows

  -- No row has the id and is live: nothing to do.
  pub covered-skip :
      (i : ℕ) (ids : List ℕ) (rows : List A)
      → find (λ a. id a == i && live a) rows ≡ none
      → covered (i ∷ ids) rows ≡ true
      → covered ids rows ≡ true
  covered-skip i ids [] none_ h = refl
  covered-skip i ids (a ∷ rows) none_ h = elim (Bool-cases (id a == i && live a)) [
    | inl e ↦ absurd (let bad = rw e at none_ in cc bad)
    | inr e ↦
        let rest = covered-skip i ids rows (rw e at none_) (ground arith) in ground (arith, rest)
  ]

  -- The rows with the id are changed, and no longer live.
  pub covered-change :
      (change : A → A) (i : ℕ) (ids : List ℕ) (rows : List A)
      → ((a : A) → live (change a) ≡ false)
      → covered (i ∷ ids) rows ≡ true
      → covered ids (map (λ a. if id a == i then change a else a) rows) ≡ true
  covered-change change i ids [] dead h = refl
  covered-change change i ids (a ∷ rows) dead h = elim (Bool-cases (id a == i)) [
    | inl e ↦
        let rest = covered-change change i ids rows dead (ground arith) in
        rw e (ground (arith, rest, dead a))
    | inr e ↦
        let rest = covered-change change i ids rows dead (ground arith) in
        rw e (ground (arith, rest))
  ]

  pub covered-none :
      (rows : List A) → covered [] rows ≡ true → length (keep (λ a. scope a && live a) rows) ≡ 0
  covered-none [] h = refl
  covered-none (a ∷ rows) h = ground (arith, covered-none rows)

  -- The ids of the rows in scope are those of before.
  pub ids-change :
      (change : A → A) (i : ℕ) (rows : List A)
      → ((a : A) → id (change a) ≡ id a)
      → ((a : A) → scope (change a) ≡ scope a)
      → map id (keep scope (map (λ a. if id a == i then change a else a) rows))
        ≡ map id (keep scope rows)
  ids-change change i [] same kept = refl
  ids-change change i (a ∷ rows) same kept =
      let rest = ids-change change i rows same kept in
      elim (Bool-cases (id a == i)) [
        | inl e ↦ elim (Bool-cases (scope a)) [
          | inl f ↦ rw (e, kept a, f, same a, rest) refl
          | inr f ↦ rw (e, kept a, f, rest) refl
        ]
        | inr e ↦ elim (Bool-cases (scope a)) [
          | inl f ↦ rw (e, f, rest) refl
          | inr f ↦ rw (e, f, rest) refl
        ]
      ]

Work-cases :
    (w : Work)
    → (w ≡ Work.skip) ⊎ ((db : Db) × (w ≡ Work.commit db)) ⊎ ((e : Failure) × (w ≡ Work.raise e))
Work-cases Work.skip = inl refl
Work-cases (Work.commit db) = inr (inl (db, refl))
Work-cases (Work.raise e) = inr (inr (e, refl))

-- What a unit of work keeps, and what a loop ends with.
abbrev pub Keeps : (Db → Type 0) → (Failure → Type 0) → Db → Work → Type 0
Keeps R Bad db Work.skip = R db
Keeps R Bad db (Work.commit db') = R db'
Keeps R Bad db (Work.raise e) = Bad e

abbrev pub EndsWith : (Db → Type 0) → (Failure → Type 0) → Progress → Type 0
EndsWith Q Bad (Progress.done n db) = Q db
EndsWith Q Bad (Progress.stopped e db) = Bad e

pub each_id-EndsWith :
    (work : ℕ → Db → Work) (R : List ℕ → Db → Type 0) (Bad : Failure → Type 0) (ids : List ℕ)
    (count : ℕ) (db : Db)
    → ((i : ℕ) (rest : List ℕ) (d : Db) → R (i ∷ rest) d → Keeps (R rest) Bad d (work i d))
    → R ids db
    → EndsWith (R []) Bad (each_id work ids count db)
unfolding each_id
each_id-EndsWith work R Bad [] count db round r = r
each_id-EndsWith work R Bad (i ∷ ids) count db round r =
    let kept = round i ids db r in
    elim (Work-cases (work i db)) [
      | inl e ↦ rw (e, each_id) (each_id-EndsWith work R Bad ids count db round (rw e at kept))
      | inr (inl (db', e)) ↦
          rw (e, each_id) (each_id-EndsWith work R Bad ids (suc count) db' round (rw e at kept))
      | inr (inr (x, e)) ↦ rw (e, each_id) (rw e at kept)
    ]

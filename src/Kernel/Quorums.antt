-- ===== src/Kernel/Quorums.antt =====
-- The acknowledgment quorum: `Quorum` and `quorum` of remembrance-consent/app/consent/kernel.py.
use the_st.Prelude.{
  ℕ, ◌≤◌, ◌≡◌, ◌↔◌, Bool, true, List, [], ◌∷◌, none, some, arith, Text, mem_text, keep, length,
  length-keep-le, All, Bool-cases, inl, inr, leb→le, le→leb,
}
use the_st.Kernel.{quorum, satisfied}

All-kept :
    {A : Type 0} (test : A → Bool) (xs : List A)
    → length xs ≤ length (keep test xs)
    → All (λ x. test x ≡ true) xs
All-kept test [] h = tt
All-kept test (x ∷ xs) h = elim (Bool-cases (test x)) [
  | inl e ↦ (e, All-kept test xs (ground arith))
  | inr e ↦ absurd (omega (arith, length-keep-le test xs, rw e at h))
]

keep-All :
    {A : Type 0} (test : A → Bool) (xs : List A)
    → All (λ x. test x ≡ true) xs
    → length xs ≤ length (keep test xs)
keep-All test [] h = omega arith
keep-All test (x ∷ xs) h = ground (arith, keep-All test xs h.1)

-- With no number required, the quorum is met exactly when every named beneficiary has
-- acknowledged; with none named it is met at once.
pub satisfied-All :
    (named acknowledged : List Text)
    → (satisfied (quorum named acknowledged none) ≡ true)
      ↔ All (λ e. mem_text e acknowledged ≡ true) named
unfolding satisfied quorum
satisfied-All named acknowledged =
    let test : Text → Bool = λ e. mem_text e acknowledged in
    (λ h. All-kept test named (leb→le _ _ h), λ h. le→leb _ _ (keep-All test named h))

-- A quorum with a given number is met only where at least that many beneficiaries are named,
-- whoever has acknowledged.
pub satisfied-le-named :
    (named acknowledged : List Text) (n : ℕ)
    → satisfied (quorum named acknowledged (some n)) ≡ true
    → n ≤ length named
unfolding satisfied quorum
satisfied-le-named named acknowledged n h =
    omega (arith, leb→le _ _ h, length-keep-le (λ e. mem_text e acknowledged) named)

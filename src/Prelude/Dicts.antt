-- ===== src/Prelude/Dicts.antt =====
-- Python dicts whose keys are numbers, or texts, in insertion order.
use Prim.Native.Nat.{ℕ}
use mathlib.Core.Path.{◌≡◌, refl}
use mathlib.Core.Option.{Option, none, some}
use mathlib.Core.List.{List, [], ◌∷◌}
use native.Mathlib.Omega.{arith}
use mathlib.Core.Logic.{inl, inr}
use the_st.Prelude.Tests.{◌==◌, if◌then◌else◌, Bool-cases}
use the_st.Prelude.Texts.{Text, text_eq, text_eq_iff}

abbrev pub Dict {ℓ} : Type ℓ → Type ℓ
Dict V = List (ℕ × V)

module _ {ℓ} {V : Type ℓ} where
  -- `d.get(k)`
  unfoldable pub lookup : ℕ → Dict V → Option V
  lookup k [] = none
  lookup k ((j, v) ∷ d) = if k == j then some v else lookup k d

  -- `d[k] = v`
  unfoldable pub insert : ℕ → V → Dict V → Dict V
  insert k v [] = (k, v) ∷ []
  insert k v ((j, w) ∷ d) = if k == j then (k, v) ∷ d else (j, w) ∷ insert k v d

  pub lookup-insert :
      (q k : ℕ) (v : V) (d : Dict V)
      → lookup q (insert k v d) ≡ (if q == k then some v else lookup q d)
  unfolding lookup insert
  lookup-insert q k v [] = refl
  lookup-insert q k v ((j, w) ∷ d) = ground (arith, lookup-insert q k v d)

abbrev pub TextDict {ℓ} : Type ℓ → Type ℓ
TextDict V = List (Text × V)

module _ {ℓ} {V : Type ℓ} where
  unfoldable pub get : Text → TextDict V → Option V
  get k [] = none
  get k ((j, v) ∷ d) = if text_eq k j then some v else get k d

  unfoldable pub set : Text → V → TextDict V → TextDict V
  set k v [] = (k, v) ∷ []
  set k v ((j, w) ∷ d) = if text_eq k j then (k, v) ∷ d else (j, w) ∷ set k v d

  pub get-set :
      (q k : Text) (v : V) (d : TextDict V)
      → get q (set k v d) ≡ (if text_eq q k then some v else get q d)
  unfolding get set
  get-set q k v [] = refl
  get-set q k v ((j, w) ∷ d) = elim (Bool-cases (text_eq k j)) [
    | inl e ↦ let same : k ≡ j = (text_eq_iff k j).0 e in ground (arith, e, same)
    | inr e ↦ elim (Bool-cases (text_eq q j)) [
      | inl f ↦
          let same : q ≡ j = (text_eq_iff q j).0 f in
          ground (arith, e, f, same, text_eq_iff q k, text_eq_iff k j)
      | inr f ↦ ground (arith, e, f, get-set q k v d)
    ]
  ]

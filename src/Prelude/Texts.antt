-- ===== src/Prelude/Texts.antt =====
-- Texts as lists of code points, with their equality, and sets of texts without repetition.
use Prim.Native.Nat.{ℕ}
use Prim.Native.Char.{code}
use Prim.Native.String.{String}
use mathlib.Core.Path.{◌≡◌, refl, subst, sym}
use mathlib.Core.Logic.{◌↔◌, inl, inr}
use mathlib.Core.Bool.{Bool, true, false, ◌&&◌}
use mathlib.Core.List.{List, [], ◌∷◌}
use native.Mathlib.Omega.{arith}
use the_st.Prelude.Tests.{◌==◌, if◌then◌else◌, Bool-cases}
use the_st.Prelude.Lists.{any, All}

-- A `str`: its code points.
abbrev pub Text : Type 0
Text = List ℕ

-- A literal of the source.
abbrev pub codes : String → Text
codes String.[] = []
codes (String.◌∷◌ c s) = code c ∷ codes s

-- `a == b` on strings.
unfoldable pub text_eq : Text → Text → Bool
text_eq [] [] = true
text_eq [] (_ ∷ _) = false
text_eq (_ ∷ _) [] = false
text_eq (x ∷ xs) (y ∷ ys) = x == y && text_eq xs ys

pub text_eq_iff : (a b : Text) → (text_eq a b ≡ true) ↔ (a ≡ b)
unfolding text_eq
text_eq_iff [] [] = ground arith
text_eq_iff [] (_ ∷ _) = ground arith
text_eq_iff (_ ∷ _) [] = ground arith
text_eq_iff (x ∷ xs) (y ∷ ys) = ground (arith, text_eq_iff xs ys)

pub text_eq_refl : (a : Text) → text_eq a a ≡ true
text_eq_refl a = (text_eq_iff a a).1 refl

-- `x in xs`.
abbrev pub mem_text : Text → List Text → Bool
mem_text x = any (text_eq x)

-- `frozenset(xs)`: each text once.
unfoldable pub frozenset : List Text → List Text
frozenset [] = []
frozenset (x ∷ xs) = let rest = frozenset xs in if mem_text x rest then rest else x ∷ rest

pub mem_text-frozenset : (x : Text) (xs : List Text) → mem_text x (frozenset xs) ≡ mem_text x xs
unfolding frozenset
mem_text-frozenset x [] = refl
mem_text-frozenset x (y ∷ ys) = elim (Bool-cases (mem_text y (frozenset ys))) [
  | inl old ↦ ground (arith, text_eq_iff x y, mem_text-frozenset x ys)
  | inr new ↦ ground (arith, mem_text-frozenset x ys)
]

-- What holds of every member of a list holds of a text in it.
pub All-mem_text :
    (P : Text → Type 0) (t : Text) (xs : List Text) → mem_text t xs ≡ true → All P xs → P t
All-mem_text P t [] h a = absurd (ground arith)
All-mem_text P t (x ∷ xs) h a = elim (Bool-cases (text_eq t x)) [
  | inl e ↦ subst P (sym ((text_eq_iff t x).0 e)) a.0
  | inr e ↦ All-mem_text P t xs (rw e at h) a.1
]

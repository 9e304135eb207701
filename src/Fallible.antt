-- ===== src/Fallible.antt =====
-- Code that returns or raises, for every component: the chains of such code, and what holds of the
-- result when nothing is raised. A payload is written as a list of keys with values.
use the_st.Prelude.{
  Bool, true, false, ◌⊎◌, inl, inr, Option, none, some, ◌≡◌, refl, sym, ap, Text, List, [], ◌∷◌,
}
use the_st.Json.{Value, Entries}

pub data Fallible {ℓ} (E : Type 0) (A : Type ℓ) : Type ℓ where
  ok : A → Fallible E A
  fail : E → Fallible E A

infixl 5 ◌>>=◌ ◌>>◌
unfoldable pub ◌>>=◌ {ℓ κ} :
    {E : Type 0} {A : Type ℓ} {B : Type κ} → Fallible E A → (A → Fallible E B) → Fallible E B
ok a >>= f = f a
fail e >>= f = fail e

abbrev pub ◌>>◌ {ℓ} :
    {E : Type 0} {B : Type ℓ} → Fallible E (Unit {0}) → Fallible E B → Fallible E B
m >> k = m >>= λ _. k

-- `if test: raise error`.
unfoldable pub raise_if : {E : Type 0} → Bool → E → Fallible E (Unit {0})
raise_if true e = fail e
raise_if false e = ok tt

unfoldable pub or_fail : {E A : Type 0} → Option A → E → Fallible E A
or_fail none e = fail e
or_fail (some a) e = ok a

-- Inversion of a chain that has succeeded.
pub ok-inj : {E A : Type 0} {a b : A} → ◌≡◌ {A = Fallible E A} (ok a) (ok b) → a ≡ b
ok-inj h = cc

pub or_fail-eq-ok : {E A : Type 0} (o : Option A) (e : E) {a : A} → or_fail o e ≡ ok a → o ≡ some a
unfolding or_fail
or_fail-eq-ok none e h = cc
or_fail-eq-ok (some x) e h = ap some (ok-inj h)

pub Fallible-cases :
    {E A : Type 0} (m : Fallible E A) → ((e : E) × (m ≡ fail e)) ⊎ ((a : A) × (m ≡ ok a))
Fallible-cases (ok a) = inr (a, refl)
Fallible-cases (fail e) = inl (e, refl)

-- What holds of the result, if there is one.
pub record Post {E A : Type 0} (P : A → Type 0) (m : Fallible E A) : Type 0 where
  pub holds : (a : A) → m ≡ ok a → P a

pub Post-ok : {E A : Type 0} {P : A → Type 0} {a : A} → P a → Post {E = E} P (ok a)
Post-ok {P = P} p = record { holds = λ b e. rw (sym (ok-inj e)) p }

pub Post-bind :
    {E A B : Type 0} {P : B → Type 0} {m : Fallible E A} {f : A → Fallible E B}
    → ((a : A) → m ≡ ok a → Post P (f a))
    → Post P (m >>= f)
unfolding ◌>>=◌
Post-bind {m = ok a} h = h a refl
Post-bind {m = fail e} h = record { holds = λ b eq. cc }

raise_if-passes :
    {E : Type 0} (test : Bool) (e : E) {a : Unit {0}} → raise_if test e ≡ ok a → test ≡ false
unfolding raise_if
raise_if-passes true e h = cc
raise_if-passes false e h = refl

pub Post-guard :
    {E B : Type 0} {P : B → Type 0} {test : Bool} (e : E) (f : Unit {0} → Fallible E B)
    → (test ≡ false → Post P (f tt))
    → Post P (raise_if test e >>= f)
Post-guard {test = test} e f h = Post-bind λ a passed. h (raise_if-passes test e passed)

-- A result that is no error.
pub record Returns {E A : Type 0} (m : Fallible E A) : Type 0 where
  pub value : A
  pub returned : m ≡ ok value

pub Returns-ok : {E A : Type 0} {a : A} → Returns {E = E} (ok a)
Returns-ok {a = a} = record { value = a; returned = refl }

pub Returns-bind :
    {E A B : Type 0} {m : Fallible E A} {f : A → Fallible E B}
    → Returns m
    → ((a : A) → m ≡ ok a → Returns (f a))
    → Returns (m >>= f)
unfolding ◌>>=◌
Returns-bind {m = ok a} r h = h a refl
Returns-bind {m = fail e} r h = absurd (let stop = r.returned in cc stop)

pub Returns-guard :
    {E B : Type 0} {test : Bool} (e : E) (f : Unit {0} → Fallible E B)
    → test ≡ false
    → Returns (f tt)
    → Returns (raise_if test e >>= f)
unfolding raise_if ◌>>=◌
Returns-guard {test = true} e f passed h = absurd (cc passed)
Returns-guard {test = false} e f passed h = h

-- A payload written as a dict.
abbrev pub payload : List (Text × Value) → Entries
payload [] = Entries.end
payload ((k, v) ∷ rest) = Entries.entry k v (payload rest)

-- ===== src/Utf8.antt =====
-- `t.encode()`: the UTF-8 of a text. A lone surrogate has none, and Python raises
-- `UnicodeEncodeError`.
use the_st.Prelude.{
  ℕ, ◌+◌, ◌/◌, ◌%◌, ◌≡◌, refl, sym, ap, ◌∙◌, Bool, true, false, ◌&&◌, List, [], ◌∷◌, ◌++◌, Option,
  none, some, Text, ltb, leb, if◌then◌else◌,
}
use mathlib.Core.List.{append_assoc}

abbrev pub is_surrogate : ℕ → Bool
is_surrogate c = leb 0xD800 c && leb c 0xDFFF

-- The bytes of a character.
unfoldable pub utf8 : ℕ → List ℕ
utf8 c =
    if ltb c 0x80
    then c ∷ []
    else if ltb c 0x800
    then (192 + c / 64) ∷ (128 + c % 64) ∷ []
    else if ltb c 0x10000
    then (224 + c / 4096) ∷ (128 + c / 64 % 64) ∷ (128 + c % 64) ∷ []
    else (240 + c / 262144) ∷ (128 + c / 4096 % 64) ∷ (128 + c / 64 % 64) ∷ (128 + c % 64) ∷ []

-- A character before the bytes of the rest.
abbrev prepend : Bool → List ℕ → Option (List ℕ) → Option (List ℕ)
prepend true bytes rest = none
prepend false bytes none = none
prepend false bytes (some rest) = some (bytes ++ rest)

unfoldable pub encode : Text → Option (List ℕ)
encode [] = some []
encode (c ∷ cs) = prepend (is_surrogate c) (utf8 c) (encode cs)

prepend-append :
    (bad : Bool) (bytes a b : List ℕ) (st os : Option (List ℕ))
    → prepend bad bytes os ≡ some a
    → ((x : List ℕ) → os ≡ some x → st ≡ some (x ++ b))
    → prepend bad bytes st ≡ some (a ++ b)
prepend-append true bytes a b st os h k = absurd (cc h)
prepend-append false bytes a b st none h k = absurd (cc h)
prepend-append false bytes a b st (some x) h k =
    let eq : bytes ++ x ≡ a = cc h in
    rw (k x refl) (ap some (sym (append_assoc bytes x b) ∙ ap (λ y. y ++ b) eq))

pub encode-append :
    (s t : Text) (a b : List ℕ)
    → encode s ≡ some a
    → encode t ≡ some b
    → encode (s ++ t) ≡ some (a ++ b)
unfolding encode
encode-append [] t a b h k = let eq : [] ≡ a = cc h in rw (← eq) k
encode-append (c ∷ s) t a b h k =
    prepend-append (is_surrogate c) (utf8 c) a b (encode (s ++ t)) (encode s) h
      λ x e. encode-append s t x b e k

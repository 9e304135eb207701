-- ===== src/Format/Decimal.antt =====
-- Reading back a printed number.
use mathlib.Core.List.{append_assoc}
use the_st.Prelude.{
  ℕ, zero, suc, ◌+◌, ◌-◌, ◌*◌, ◌/◌, ◌%◌, ◌<◌, ◌≡◌, refl, ap, ◌∙◌, Bool, true, false, ◌&&◌, [], ◌∷◌,
  ◌++◌, arith, Text, ltb, leb, if◌then◌else◌, Bool-cases, inl, inr,
}
use the_st.Format.{decimal, decimal_from}

abbrev pub is_digit : ℕ → Bool
is_digit c = leb b'0' c && leb c b'9'

-- The digits at the head of a text, after a number read so far, and what follows them.
unfoldable pub read_digits : ℕ → Text → ℕ × Text
read_digits n [] = (n, [])
read_digits n (c ∷ cs) =
    let rest = read_digits (n * 10 + (c - b'0')) cs in if is_digit c then rest else (n, c ∷ cs)

abbrev pub NoDigit : Text → Type 0
NoDigit [] = Unit
NoDigit (c ∷ _) = is_digit c ≡ false

read_digits-NoDigit : (n : ℕ) (t : Text) → NoDigit t → read_digits n t ≡ (n, t)
unfolding read_digits
read_digits-NoDigit n [] h = refl
read_digits-NoDigit n (c ∷ t) h = rw h refl

read_digit :
    (n d : ℕ) (t : Text) → d < 10 → read_digits n ((b'0' + d) ∷ t) ≡ read_digits (n * 10 + d) t
unfolding read_digits
read_digit n d t h =
    let digit : is_digit (b'0' + d) ≡ true = ground arith in
    let value : b'0' + d - b'0' ≡ d = omega arith in rw (digit, value) refl

read_decimal_from :
    (fuel n : ℕ) (t : Text) → n < fuel → read_digits 0 (decimal_from fuel n ++ t) ≡ read_digits n t
unfolding decimal_from
read_decimal_from zero n t h = elim h [ ]
read_decimal_from (suc fuel) n t h = elim (Bool-cases (ltb n 10)) [
  | inl small ↦
      let d : n < 10 = ground arith in
      let e : 0 * 10 + n ≡ n = omega arith in
      rw small (read_digit 0 n t d ∙ ap (λ k. read_digits k t) e)
  | inr large ↦
      let d : n % 10 < 10 = omega arith in
      let e : n / 10 * 10 + n % 10 ≡ n = omega arith in
      rw (large, append_assoc)
        (read_decimal_from fuel (n / 10) ((b'0' + n % 10) ∷ t) (ground arith)
          ∙ (read_digit (n / 10) (n % 10) t d ∙ ap (λ k. read_digits k t) e))
]

-- A printed number is read back, up to the first character that is no digit.
pub read_digits-decimal : (n : ℕ) (t : Text) → NoDigit t → read_digits 0 (decimal n ++ t) ≡ (n, t)
unfolding decimal
read_digits-decimal n t h = read_decimal_from (suc n) n t (omega arith) ∙ read_digits-NoDigit n t h

-- A printed number begins with a digit.
pub decimal_head : (n : ℕ) → (c : ℕ) × (t : Text) × (decimal n ≡ c ∷ t) × (is_digit c ≡ true)
unfolding decimal
decimal_head n = go (suc n) n (omega arith)
  where
    go :
        (fuel n : ℕ)
        → n < fuel
        → (c : ℕ) × (t : Text) × (decimal_from fuel n ≡ c ∷ t) × (is_digit c ≡ true)
    go zero n h = elim h [ ]
    go (suc fuel) n h = elim (Bool-cases (ltb n 10)) [
      | inl small ↦ (b'0' + n, [], rw small refl, ground arith)
      | inr large ↦
          let (c, t, e, digit) = go fuel (n / 10) (ground arith) in
          (c, t ++ ((b'0' + n % 10) ∷ []), rw (large, e) refl, digit)
    ]

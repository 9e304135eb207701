-- ===== src/Json/Strings.antt =====
-- Reading back a quoted string: the escapes of `json.dumps` lose nothing.
use mathlib.Core.List.{append_assoc}
use the_st.Prelude.{
  ℕ, zero, suc, ◌+◌, ◌-◌, ◌*◌, ◌/◌, ◌%◌, ◌<◌, ◌≡◌, refl, sym, ap, ◌∙◌, true, false, [], ◌∷◌, ◌++◌,
  arith, Text, codes, ltb, ◌==◌, if◌then◌else◌, Bool-cases, ==_iff, ltb→lt, inl, inr, Option, none,
  some,
}
use the_st.Format.{hex, hex_digit}
use the_st.Json.{escape, escape_all, quote}

-- Where the reader stands: in the text, after a backslash, or in the digits after `\u`.
pub data Mode : Type 0 where
  plain escaped : Mode
  digits : ℕ → ℕ → Mode

abbrev hex_value : ℕ → ℕ
hex_value c = if ltb c 58 then c - 48 else c - 87

-- The character that an escape of one letter stands for.
abbrev unescape : ℕ → ℕ
unescape c =
    if c == b'n'
    then 10
    else if c == b'r'
    then 13
    else if c == b't'
    then 9
    else if c == b'f'
    then 12
    else if c == b'b'
    then 8
    else c

abbrev pub push : ℕ → Option (Text × Text) → Option (Text × Text)
push c none = none
push c (some (t, rest)) = some (c ∷ t, rest)

-- The text up to the closing quote, and what follows.
unfoldable pub read_chars : Mode → Text → Option (Text × Text)
read_chars mode [] = none
read_chars plain (c ∷ t) =
    let later = read_chars plain t in
    let after = read_chars escaped t in
    if c == b'"' then some ([], t) else if c == 92 then after else push c later
read_chars escaped (c ∷ t) =
    let later = read_chars plain t in
    let after = read_chars (digits 3 0) t in if c == b'u' then after else push (unescape c) later
read_chars (digits zero acc) (c ∷ t) = push (acc * 16 + hex_value c) (read_chars plain t)
read_chars (digits (suc k) acc) (c ∷ t) = read_chars (digits k (acc * 16 + hex_value c)) t

hex_value-digit : (d : ℕ) → d < 16 → hex_value (hex_digit d) ≡ d
hex_value-digit d h = ground arith

read_control :
    (c : ℕ) (t : Text)
    → c < 32
    → read_chars escaped (b'u' ∷ (hex 4 c ++ t)) ≡ push c (read_chars plain t)
unfolding read_chars hex
read_control c t h =
    let e : (((0 + c / 16 / 16 / 16 % 16) * 16 + c / 16 / 16 % 16) * 16 + c / 16 % 16) * 16 + c % 16
        ≡ c =
      omega arith in
    rw
      (
        hex_value-digit (c / 16 / 16 / 16 % 16) (omega arith),
        hex_value-digit (c / 16 / 16 % 16) (omega arith),
        hex_value-digit (c / 16 % 16) (omega arith),
        hex_value-digit (c % 16) (omega arith),
      )
      (ap (λ k. push k (read_chars plain t)) e)

-- One character after the other tests have failed: a control character or any other.
read_rest :
    (c : ℕ) (t : Text)
    → (c == b'"') ≡ false
    → (c == 92) ≡ false
    → read_chars plain ((if ltb c 32 then codes "\\u" ++ hex 4 c else c ∷ []) ++ t)
      ≡ push c (read_chars plain t)
unfolding read_chars
read_rest c t quote slash = elim (Bool-cases (ltb c 32)) [
  | inl e ↦ rw e (read_control c t (ltb→lt c 32 e))
  | inr e ↦ rw (e, quote, slash) refl
]

-- A test for a character that has an escape of one letter.
read_letter :
    (c k l : ℕ) (other t : Text)
    → ((c == k) ≡ true → read_chars plain (92 ∷ l ∷ t) ≡ push k (read_chars plain t))
    → ((c == k) ≡ false → read_chars plain (other ++ t) ≡ push c (read_chars plain t))
    → read_chars plain ((if c == k then 92 ∷ l ∷ [] else other) ++ t) ≡ push c (read_chars plain t)
read_letter c k l other t here there = elim (Bool-cases (c == k)) [
  | inl e ↦ rw e (here e ∙ ap (λ d. push d (read_chars plain t)) (sym ((==_iff c k).0 e)))
  | inr e ↦ rw e (there e)
]

read_escape : (c : ℕ) (t : Text) → read_chars plain (escape c ++ t) ≡ push c (read_chars plain t)
unfolding read_chars escape
read_escape c t =
    read_letter c 34 34 _ t (λ _. refl)
      λ quote.
        read_letter c 92 92 _ t (λ _. refl)
          λ slash.
            read_letter c 10 b'n' _ t (λ _. refl)
              λ _.
                read_letter c 13 b'r' _ t (λ _. refl)
                  λ _.
                    read_letter c 9 b't' _ t (λ _. refl)
                      λ _.
                        read_letter c 12 b'f' _ t (λ _. refl)
                          λ _. read_letter c 8 b'b' _ t (λ _. refl) λ _. read_rest c t quote slash

pub read_escape_all : (s t : Text) → read_chars plain (escape_all s ++ (b'"' ∷ t)) ≡ some (s, t)
unfolding escape_all
read_escape_all [] t = unfold read_chars in refl
read_escape_all (c ∷ s) t =
    rw append_assoc (read_escape c (escape_all s ++ (b'"' ∷ t)) ∙ ap (push c) (read_escape_all s t))

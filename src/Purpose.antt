-- ===== src/Purpose.antt =====
-- Purpose codes: `normalize_purpose`, `is_banned_purpose` and `parse_declared_purpose` of
-- remembrance-consent/app/consent/constants.py. Python's Unicode tables are the parameter `Unicode`.
use mathlib.Core.List.{reverse}
use the_st.Prelude.{
  ℕ, zero, suc, ◌+◌, ◌-◌, Bool, true, false, not, ◌&&◌, ◌||◌, List, [], ◌∷◌, map, Option, none,
  some, Text, codes, ◌==◌, if◌then◌else◌, text_eq, mem_text, keep, any, length, take, ◌++◌,
}
use the_st.Vocabulary.{DeclaredPurpose, purpose_value, banned_purposes}
pub mod Banned

-- `unicodedata.normalize("NFKC", _)`, the category test for Cf, `str.isspace` of one character
-- (which `str.strip` and `\s` share), and `str.upper` of one character.
pub record Unicode : Type 0 where
  pub nfkc : Text → Text
  pub is_format : ℕ → Bool
  pub is_space : ℕ → Bool
  pub upper : ℕ → Text

-- `str.strip` by a test on characters.
abbrev pub drop_while : (ℕ → Bool) → Text → Text
drop_while test [] = []
drop_while test (c ∷ cs) = let rest = drop_while test cs in if test c then rest else c ∷ cs

unfoldable pub strip : (ℕ → Bool) → Text → Text
strip test t = reverse (drop_while test (reverse (drop_while test t)))

abbrev pub upper_text : Unicode → Text → Text
upper_text u [] = []
upper_text u (c ∷ cs) = u.upper c ++ upper_text u cs

-- One character of the class `[\s\-./:]`.
unfoldable pub is_separator : Unicode → ℕ → Bool
is_separator u c = u.is_space c || c == b'-' || c == b'.' || c == b'/' || c == b':'

-- `_SEPARATORS.sub("_", t)`; the flag says that the previous character was a separator.
unfoldable pub sub_separators : Unicode → Bool → Text → Text
sub_separators u in_run [] = []
sub_separators u in_run (c ∷ cs) =
    let rest = sub_separators u (is_separator u c) cs in
    if is_separator u c then (if in_run then rest else b'_' ∷ rest) else c ∷ rest

unfoldable pub normalize_purpose : Unicode → Text → Text
normalize_purpose u code =
    let text = keep (λ c. not (u.is_format c)) (u.nfkc code) in
    let text' = sub_separators u false (upper_text u (strip u.is_space text)) in
    strip (λ c. c == b'_') text'

abbrev pub push : ℕ → List Text → List Text
push c [] = (c ∷ []) ∷ []
push c (w ∷ ws) = (c ∷ w) ∷ ws

-- `t.split("_")`.
unfoldable pub split : Text → List Text
split [] = [] ∷ []
split (c ∷ cs) = let rest = split cs in if c == b'_' then [] ∷ rest else push c rest

-- `_BANNED_TOKENS`.
unfoldable pub banned_tokens : List (List Text)
unfolding split
banned_tokens = map split banned_purposes

unfoldable pub texts_eq : List Text → List Text → Bool
texts_eq [] [] = true
texts_eq [] (_ ∷ _) = false
texts_eq (_ ∷ _) [] = false
texts_eq (x ∷ xs) (y ∷ ys) = text_eq x y && texts_eq xs ys

-- `any(tokens[i : i + width] == banned for i in range(n))`, from the position that `tokens` starts at.
unfoldable pub has_window : ℕ → List Text → List Text → Bool
has_window zero banned tokens = false
has_window (suc n) banned [] = texts_eq (take (length banned) []) banned
has_window (suc n) banned (t ∷ ts) =
    texts_eq (take (length banned) (t ∷ ts)) banned || has_window n banned ts

unfoldable pub contains_tokens : List Text → List Text → Bool
contains_tokens tokens banned = has_window (length tokens + 1 - length banned) banned tokens

-- `is_banned_purpose` on the normalized code.
unfoldable pub is_banned_normal : Text → Bool
is_banned_normal normalized =
    mem_text normalized banned_purposes || any (contains_tokens (split normalized)) banned_tokens

unfoldable pub is_banned_purpose : Unicode → Text → Bool
is_banned_purpose u code = is_banned_normal (normalize_purpose u code)

-- `DeclaredPurpose(text)`, with `None` for the `ValueError`.
unfoldable pub purpose_of_value : Text → Option DeclaredPurpose
purpose_of_value t =
    if text_eq t (purpose_value DeclaredPurpose.memorial_view)
    then some DeclaredPurpose.memorial_view
    else if text_eq t (purpose_value DeclaredPurpose.voice_synthesis)
    then some DeclaredPurpose.voice_synthesis
    else if text_eq t (purpose_value DeclaredPurpose.script_generation)
    then some DeclaredPurpose.script_generation
    else if text_eq t (purpose_value DeclaredPurpose.data_portability)
    then some DeclaredPurpose.data_portability
    else if text_eq t (purpose_value DeclaredPurpose.erasure)
    then some DeclaredPurpose.erasure
    else none

unfoldable pub parse_declared_purpose : Unicode → Text → Option DeclaredPurpose
parse_declared_purpose u code = purpose_of_value (normalize_purpose u code)

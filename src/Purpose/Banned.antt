-- ===== src/Purpose/Banned.antt =====
-- Banned purpose codes: which they are, and that none of them is a declared purpose.
use the_st.Prelude.{
  ℕ, zero, suc, ◌+◌, ◌-◌, ◌<◌, ◌≡◌, refl, ◌↔◌, inl, inr, true, false, List, [], ◌∷◌, ◌++◌, Option,
  none, some, arith, Text, text_eq, text_eq_iff, mem_text, any, length, take, drop,
  take-append-drop, take-length-append, length-append, Any, All-mem_text, ap, sym, Bool-cases,
}
use the_st.Vocabulary.{DeclaredPurpose, purpose_value, banned_purposes}
use the_st.Purpose.{
  Unicode, normalize_purpose, split, banned_tokens, texts_eq, has_window, contains_tokens,
  is_banned_normal, is_banned_purpose, purpose_of_value, parse_declared_purpose,
}

pub purpose_of_value-some :
    (t : Text) (p : DeclaredPurpose) → purpose_of_value t ≡ some p → t ≡ purpose_value p
unfolding purpose_of_value
purpose_of_value-some t p h = ground (
  arith,
  text_eq_iff t (purpose_value DeclaredPurpose.memorial_view),
  text_eq_iff t (purpose_value DeclaredPurpose.voice_synthesis),
  text_eq_iff t (purpose_value DeclaredPurpose.script_generation),
  text_eq_iff t (purpose_value DeclaredPurpose.data_portability),
  text_eq_iff t (purpose_value DeclaredPurpose.erasure),
)

texts_eq_iff : (xs ys : List Text) → (texts_eq xs ys ≡ true) ↔ (xs ≡ ys)
unfolding texts_eq
texts_eq_iff [] [] = ground arith
texts_eq_iff [] (_ ∷ _) = ground arith
texts_eq_iff (_ ∷ _) [] = ground arith
texts_eq_iff (x ∷ xs) (y ∷ ys) = ground (arith, text_eq_iff x y, texts_eq_iff xs ys)

-- `banned` stands in `tokens` as a run of whole tokens.
abbrev pub Contains : List Text → List Text → Type 0
Contains tokens banned = (pre : List Text) × (post : List Text) × (tokens ≡ pre ++ (banned ++ post))

at_head : (b ts : List Text) → take (length b) ts ≡ b → Contains ts b
at_head b ts e = ([], drop (length b) ts, sym (rw e at (take-append-drop (length b) ts)))

Contains-cons : (t : Text) (b ts : List Text) → Contains ts b → Contains (t ∷ ts) b
Contains-cons t b ts (pre, post, e) = (t ∷ pre, post, ap (◌∷◌ t) e)

has_window_sound : (n : ℕ) (b ts : List Text) → has_window n b ts ≡ true → Contains ts b
unfolding has_window
has_window_sound zero b ts h = absurd (ground arith)
has_window_sound (suc n) b [] h = at_head b [] ((texts_eq_iff _ b).0 h)
has_window_sound (suc n) b (t ∷ ts) h = elim (Bool-cases (texts_eq (take (length b) (t ∷ ts)) b)) [
  | inl e ↦ at_head b (t ∷ ts) ((texts_eq_iff _ b).0 e)
  | inr e ↦ Contains-cons t b ts (has_window_sound n b ts (rw e at h))
]

has_window_complete :
    (pre b post : List Text) (n : ℕ) → length pre < n → has_window n b (pre ++ (b ++ post)) ≡ true
unfolding has_window
has_window_complete pre b post zero h = absurd (omega arith)
has_window_complete [] [] [] (suc n) h = (texts_eq_iff [] []).1 refl
has_window_complete [] [] (p ∷ ps) (suc n) h = rw ((texts_eq_iff [] []).1 refl) refl
has_window_complete [] (b ∷ bs) post (suc n) h =
    rw (take-length-append bs post, (texts_eq_iff (b ∷ bs) (b ∷ bs)).1 refl) refl
has_window_complete (p ∷ pre) b post (suc n) h =
    ground (arith, has_window_complete pre b post n (omega arith))

contains_tokens_iff : (ts b : List Text) → (contains_tokens ts b ≡ true) ↔ Contains ts b
unfolding contains_tokens
contains_tokens_iff ts b = (has_window_sound _ b ts, complete)
  where
    complete : Contains ts b → has_window (length ts + 1 - length b) b ts ≡ true
    complete (pre, post, e) = rw e (
        has_window_complete pre b post _
          (omega (arith, length-append {0} pre (b ++ post), length-append {0} b post)))

declared_not_banned : (p : DeclaredPurpose) → is_banned_normal (purpose_value p) ≡ false
unfolding is_banned_normal contains_tokens has_window texts_eq banned_tokens split text_eq
declared_not_banned DeclaredPurpose.memorial_view = refl
declared_not_banned DeclaredPurpose.voice_synthesis = refl
declared_not_banned DeclaredPurpose.script_generation = refl
declared_not_banned DeclaredPurpose.data_portability = refl
declared_not_banned DeclaredPurpose.erasure = refl

any_tokens_iff :
    (ts : List Text) (bs : List (List Text))
    → (any (contains_tokens ts) bs ≡ true) ↔ Any (Contains ts) bs
any_tokens_iff ts [] = (λ h. cc, λ h. absurd h)
any_tokens_iff ts (b ∷ bs) = ground (arith, contains_tokens_iff ts b, any_tokens_iff ts bs)

-- Equality with a whole banned code is the case of a run with nothing round it.
whole_code :
    (t : Text)
    → mem_text t banned_purposes ≡ true
    → any (contains_tokens (split t)) banned_tokens ≡ true
unfolding contains_tokens has_window texts_eq banned_tokens split text_eq
whole_code t h =
    All-mem_text (λ b. any (contains_tokens (split b)) banned_tokens ≡ true) t banned_purposes h
      (refl, (refl, (refl, (refl, tt))))

-- A code counts as banned exactly when its normal form, split at underscores, has one of the
-- banned codes as a run of whole tokens, wherever that run stands.
pub is_banned_purpose_iff :
    (u : Unicode) (code : Text)
    → (is_banned_purpose u code ≡ true)
      ↔ Any (Contains (split (normalize_purpose u code))) banned_tokens
unfolding is_banned_purpose is_banned_normal
is_banned_purpose_iff u code =
    let t = normalize_purpose u code in
    ground (arith, whole_code t, any_tokens_iff (split t) banned_tokens)

-- A code that counts as banned never parses as a declared purpose.
pub parse-is_banned :
    (u : Unicode) (code : Text)
    → is_banned_purpose u code ≡ true
    → parse_declared_purpose u code ≡ none
unfolding is_banned_purpose parse_declared_purpose
parse-is_banned u code h = go (purpose_of_value (normalize_purpose u code)) refl
  where
    go : (o : Option DeclaredPurpose) → purpose_of_value (normalize_purpose u code) ≡ o → o ≡ none
    go none e = refl
    go (some p) e = absurd (
        ground (arith, purpose_of_value-some (normalize_purpose u code) p e, declared_not_banned p))

-- ===== src/Memorial/Entries.antt =====
-- The entries that `Ledger.__init__` of remembrance/erasure.py reads.
use the_st.Prelude.{
  ℕ, suc, ◌+◌, ◌≤◌, ◌≡◌, sym, ◌∙◌, Bool, true, false, List, [], ◌∷◌, ◌++◌, some, arith, Text,
  text_eq, text_eq_refl, find, is_some, Bool-cases, inl, inr, All, All-map, length, length-append,
}
use the_st.Fallible.{Post, Post-ok, Post-bind, Post-guard}
use the_st.Memorial.Ledger.{
  Entry, Reader, entry_for, is_valid, verify_line, read_lines, open_ledger, splitlines,
}

-- Each entry is the one that `entry_for` finds for its memorial.
abbrev pub Indexed : List Entry → Type 0
Indexed entries = All (λ e. entry_for e.memorial_id entries ≡ some e) entries

All-snoc :
    (P : Entry → Type 0) (xs : List Entry) (x : Entry) → All P xs → P x → All P (xs ++ (x ∷ []))
All-snoc P [] x a p = (p, tt)
All-snoc P (y ∷ ys) x (a, as_) p = (a, All-snoc P ys x as_ p)

find-snoc_some :
    (test : Entry → Bool) (xs : List Entry) (x y : Entry)
    → find test xs ≡ some y
    → find test (xs ++ (x ∷ [])) ≡ some y
find-snoc_some test [] x y h = absurd (ground arith)
find-snoc_some test (z ∷ zs) x y h = ground (arith, find-snoc_some test zs x y)

find-snoc_none :
    (test : Entry → Bool) (xs : List Entry) (x : Entry)
    → is_some (find test xs) ≡ false
    → test x ≡ true
    → find test (xs ++ (x ∷ [])) ≡ some x
find-snoc_none test [] x h t = ground (arith, t)
find-snoc_none test (z ∷ zs) x h t = ground (arith, find-snoc_none test zs x)

-- The sequences of the entries count up.
abbrev pub Numbered : ℕ → List Entry → Type 0
Numbered n [] = Unit
Numbered n (e ∷ es) = (e.sequence ≡ n) × Numbered (suc n) es

Numbered-snoc :
    (n : ℕ) (es : List Entry) (e : Entry)
    → Numbered n es
    → e.sequence ≡ n + length es
    → Numbered n (es ++ (e ∷ []))
Numbered-snoc n [] e h eq = (omega arith, tt)
Numbered-snoc n (x ∷ es) e (h, hs) eq = (h, Numbered-snoc (suc n) es e hs (omega arith))

Numbered-found :
    (n : ℕ) (test : Entry → Bool) (es : List Entry) (e : Entry)
    → Numbered n es
    → find test es ≡ some e
    → n ≤ e.sequence
Numbered-found n test [] e h found = absurd (ground arith)
Numbered-found n test (x ∷ es) e (h, hs) found = elim (Bool-cases (test x)) [
  | inl t ↦ let same : x ≡ e = ground arith in rw (← same) (omega arith)
  | inr t ↦ let later = Numbered-found (suc n) test es e hs (rw t at found) in omega arith
]

-- Two entries of one sequence are one.
pub Numbered-same :
    (n : ℕ) (p q : Entry → Bool) (es : List Entry) (d e : Entry)
    → Numbered n es
    → find p es ≡ some d
    → find q es ≡ some e
    → d.sequence ≡ e.sequence
    → d ≡ e
Numbered-same n p q [] d e h fd fe same = absurd (ground arith)
Numbered-same n p q (x ∷ es) d e (h, hs) fd fe same = elim (Bool-cases (p x)) [
  | inl a ↦
      let xd : x ≡ d = ground arith in
      elim (Bool-cases (q x)) [
        | inl b ↦ let xe : x ≡ e = ground arith in sym xd ∙ xe
        | inr b ↦
            let later = Numbered-found (suc n) q es e hs (rw b at fe) in
            let first : d.sequence ≡ n = rw xd at h in absurd (omega arith)
      ]
  | inr a ↦ elim (Bool-cases (q x)) [
    | inl b ↦
        let xe : x ≡ e = ground arith in
        let later = Numbered-found (suc n) p es d hs (rw a at fd) in
        let first : e.sequence ≡ n = rw xe at h in absurd (omega arith)
    | inr b ↦ Numbered-same (suc n) p q es d e hs (rw a at fd) (rw b at fe) same
  ]
]

module _ (sha256 : Text → Text) (r : Reader) where
  verify_line-new :
      (sequence : ℕ) (entries : List Entry) (line : Text)
      → Post
          (λ e. is_some (entry_for e.memorial_id entries) ≡ false)
          (verify_line sha256 r sequence entries line)
  unfolding verify_line
  verify_line-new sequence entries line =
      Post-bind λ value _. Post-bind λ e _. Post-guard _ _ λ _. Post-guard _ _ λ new. Post-ok new

  Indexed-snoc :
      (entries : List Entry) (e : Entry)
      → is_some (entry_for e.memorial_id entries) ≡ false
      → Indexed entries
      → Indexed (entries ++ (e ∷ []))
  unfolding entry_for
  Indexed-snoc entries e new indexed =
      All-snoc (λ x. entry_for x.memorial_id (entries ++ (e ∷ [])) ≡ some x) entries e
        (All-map entries
          (λ x found. find-snoc_some (λ y. text_eq y.memorial_id x.memorial_id) entries e x found)
          indexed)
        (find-snoc_none (λ y. text_eq y.memorial_id e.memorial_id) entries e new
          (text_eq_refl e.memorial_id))

  read_lines-Indexed :
      (sequence : ℕ) (entries : List Entry) (lines : List Text)
      → Indexed entries
      → Post Indexed (read_lines sha256 r sequence entries lines)
  unfolding read_lines
  read_lines-Indexed sequence entries [] indexed = Post-ok indexed
  read_lines-Indexed sequence entries (line ∷ lines) indexed = Post-bind λ e run.
      let new = (verify_line-new sequence entries line).holds e run in
      read_lines-Indexed (suc sequence) (entries ++ (e ∷ [])) lines
        (Indexed-snoc entries e new indexed)

  -- No two entries of a ledger that opens are of one memorial.
  pub open_ledger-Indexed : (raw : Text) → Post Indexed (open_ledger sha256 r raw)
  unfolding open_ledger
  open_ledger-Indexed raw = Post-guard _ _ λ _. read_lines-Indexed 1 [] (splitlines raw) tt

  verify_line-sequence :
      (sequence : ℕ) (entries : List Entry) (line : Text)
      → Post (λ e. e.sequence ≡ sequence) (verify_line sha256 r sequence entries line)
  unfolding verify_line is_valid
  verify_line-sequence sequence entries line =
      Post-bind λ value _.
        Post-bind λ e _. Post-guard _ _ λ valid. Post-guard _ _ λ _. Post-ok (ground arith)

  read_lines-Numbered :
      (entries : List Entry) (lines : List Text)
      → Numbered 1 entries
      → Post (Numbered 1) (read_lines sha256 r (1 + length entries) entries lines)
  unfolding read_lines
  read_lines-Numbered entries [] numbered = Post-ok numbered
  read_lines-Numbered entries (line ∷ lines) numbered = Post-bind λ e run.
      let eq = (verify_line-sequence (1 + length entries) entries line).holds e run in
      let count : suc (1 + length entries) ≡ 1 + length (entries ++ (e ∷ [])) =
        omega (arith, length-append entries (e ∷ [])) in
      rw count
        (read_lines-Numbered (entries ++ (e ∷ [])) lines (Numbered-snoc 1 entries e numbered eq))

  pub open_ledger-Numbered : (raw : Text) → Post (Numbered 1) (open_ledger sha256 r raw)
  unfolding open_ledger
  open_ledger-Numbered raw = Post-guard _ _ λ _. read_lines-Numbered [] (splitlines raw) tt

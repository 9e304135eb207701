-- ===== src/Memorial/Chains.antt =====
-- When the loop of `verify_history` in remembrance/consent.py raises nothing, and what it finds.
use the_st.Prelude.{
  ◌≡◌, refl, Bool, true, false, ◌&&◌, ◌||◌, List, [], ◌∷◌, Option, none, some, arith, Text, text_eq,
  text_eq_iff, text_eq_refl, mem_text, any, keep, All, Bool-cases, inl, inr, ◌==◌, if◌then◌else◌,
}
use the_st.Prelude.Dicts.{TextDict, get, set, get-set}
use the_st.Fallible.{ok, ◌>>=◌, raise_if, Post, Post-ok, Post-bind, Post-guard}
use the_st.Memorial.{Event}
use the_st.Memorial.History.{
  Head, head_of, head_at, Progress, match_head, extends, verify_row, verify_rows,
}

abbrev pub is_of : Text → Event → Bool
is_of mid e = text_eq mid e.memorial_id

-- The events of one memorial.
abbrev pub own : Text → List Event → List Event
own mid = keep (is_of mid)

-- The last head that a run sets, from a given one on.
abbrev pub last_head : Option Head → List Event → Option Head
last_head o [] = o
last_head o (e ∷ es) = last_head (some (head_at e)) es

-- The heads of all memorials after a run.
abbrev pub heads_after : TextDict Head → List Event → TextDict Head
heads_after heads [] = heads
heads_after heads (e ∷ es) = heads_after (set e.memorial_id (head_at e) heads) es

-- The row is the one that the checkpoint's head of its memorial names.
abbrev pub hits : Option Head → Event → Bool
hits none e = false
hits (some h) e = e.sequence == h.sequence

-- A row that a head of the checkpoint names has the hash of that head.
abbrev pub Agrees : TextDict Head → Event → Type 0
Agrees expected e =
    (h : Head)
    → get e.memorial_id expected ≡ some h
    → e.sequence ≡ h.sequence
    → e.event_hash ≡ h.hash

-- Whether a row matches a memorial of the checkpoint.
abbrev pub matches : TextDict Head → Text → Event → Bool
matches expected mid e = text_eq mid e.memorial_id && hits (get e.memorial_id expected) e

-- What the test against a head of the checkpoint says of a row.
abbrev Matched : Option Head → Event → List Text → List Text → Type 0
Matched o e matched after =
    ((h : Head) → o ≡ some h → e.sequence ≡ h.sequence → e.event_hash ≡ h.hash)
    × ((mid : Text)
        → mem_text mid after ≡ (mem_text mid matched || (text_eq mid e.memorial_id && hits o e)))

match_head-Matched :
    (o : Option Head) (e : Event) (matched : List Text)
    → Post (Matched o e matched) (match_head o e matched)
unfolding match_head
match_head-Matched none e matched = Post-ok ((λ h same. absurd (ground arith)), λ mid. ground arith)
match_head-Matched (some head) e matched = elim (Bool-cases (e.sequence == head.sequence)) [
  | inl found ↦ rw found (
      Post-guard _ _ λ same. Post-ok (
        (λ h eq _.
            let hash = (text_eq_iff e.event_hash head.hash).0 (ground arith) in
            let k : head ≡ h = ground arith in rw (← k) hash),
        λ mid. ground (arith, found),
      ))
  | inr other ↦ rw other (
      Post-ok (
        (λ h eq seq. absurd (
            let k : head ≡ h = ground arith in
            let seq' = rw (← k) at seq in ground (arith, other, seq'))),
        λ mid. ground (arith, other),
      ))
]

match_head-ok :
    (o : Option Head) (e : Event) (matched : List Text)
    → ((h : Head) → o ≡ some h → e.sequence ≡ h.sequence → e.event_hash ≡ h.hash)
    → (after : List Text) × (match_head o e matched ≡ ok after)
unfolding match_head raise_if ◌>>=◌
match_head-ok none e matched h = (matched, refl)
match_head-ok (some head) e matched h = elim (Bool-cases (e.sequence == head.sequence)) [
  | inl found ↦
      let same = (text_eq_iff e.event_hash head.hash).1 (h head refl (ground arith)) in
      (e.memorial_id ∷ matched, rw (found, same) refl)
  | inr other ↦ (matched, rw other refl)
]

module _ (sha256 : Text → Text) where
  -- Each event extends the one before.
  abbrev pub Chained : Head → List Event → Type 0
  Chained h [] = Unit
  Chained h (e ∷ es) = (extends sha256 h e ≡ true) × Chained (head_at e) es

  -- The first row extends its memorial's head, and the other rows extend the heads after it.
  pub Chained-step :
      (heads : TextDict Head) (e : Event) (es : List Event)
      → ((mid : Text) → Chained (head_of mid heads) (own mid (e ∷ es)))
      → (extends sha256 (head_of e.memorial_id heads) e ≡ true)
        × ((mid : Text) → Chained (head_of mid (set e.memorial_id (head_at e) heads)) (own mid es))
  Chained-step heads e es chained = (
    (rw (text_eq_refl e.memorial_id) at (chained e.memorial_id)).0,
    λ mid. elim (Bool-cases (is_of mid e)) [
      | inl mine ↦
          rw (get-set mid e.memorial_id (head_at e) heads, mine) ((rw mine at (chained mid)).1)
      | inr other ↦
          rw (get-set mid e.memorial_id (head_at e) heads, other) (rw other at (chained mid))
    ],
  )

  -- What a run of the loop says of the rows, and where it ends.
  pub record Verified (expected : TextDict Head) (p : Progress) (rows : List Event) (p' : Progress)
      : Type 0 where
    pub chained : (mid : Text) → Chained (head_of mid p.heads) (own mid rows)
    pub agrees : All (Agrees expected) rows
    pub heads : p'.heads ≡ heads_after p.heads rows
    pub last : (mid : Text) → get mid p'.heads ≡ last_head (get mid p.heads) (own mid rows)
    pub matched :
        (mid : Text)
        → mem_text mid p'.matched ≡ (mem_text mid p.matched || any (matches expected mid) rows)

  -- What one round of the loop says of its row.
  abbrev Round : TextDict Head → Progress → Event → Progress → Type 0
  Round expected p e p' =
      (extends sha256 (head_of e.memorial_id p.heads) e ≡ true)
      × (p'.heads ≡ set e.memorial_id (head_at e) p.heads)
      × Matched (get e.memorial_id expected) e p.matched p'.matched

  verify_row-Round :
      (expected : TextDict Head) (p : Progress) (e : Event)
      → Post (Round expected p e) (verify_row sha256 expected p e)
  unfolding verify_row
  verify_row-Round expected p e = Post-guard _ _ λ linked. Post-bind λ matched eq. Post-ok (
    ground arith,
    refl,
    (match_head-Matched (get e.memorial_id expected) e p.matched).holds matched eq,
  )

  Verified-cons :
      (expected : TextDict Head) (p : Progress) (e : Event) (es : List Event) (p' q : Progress)
      → Round expected p e p'
      → Verified expected p' es q
      → Verified expected p (e ∷ es) q
  Verified-cons expected p e es p' q (linked, heads, (agrees, matched)) rest =
      let get_after : (mid : Text)
          → get mid p'.heads
            ≡ (if text_eq mid e.memorial_id then some (head_at e) else get mid p.heads) =
        λ mid. rw heads (get-set mid e.memorial_id (head_at e) p.heads) in
      record {
        chained = λ mid. elim (Bool-cases (is_of mid e)) [
          | inl mine ↦
              let same : mid ≡ e.memorial_id = (text_eq_iff mid e.memorial_id).0 mine in
              rw mine (rw same linked, rw (get_after mid, mine) at (rest.chained mid))
          | inr other ↦ rw other (rw (get_after mid, other) at (rest.chained mid))
        ];
        agrees = (agrees, rest.agrees);
        heads = rw (← heads) rest.heads;
        last = λ mid. elim (Bool-cases (is_of mid e)) [
          | inl mine ↦ rw mine (rw (get_after mid, mine) at (rest.last mid))
          | inr other ↦ rw other (rw (get_after mid, other) at (rest.last mid))
        ];
        matched = λ mid. ground (arith, matched mid, rest.matched mid);
      }

  pub verify_rows-Verified :
      (expected : TextDict Head) (p : Progress) (rows : List Event)
      → Post (Verified expected p rows) (verify_rows sha256 expected p rows)
  unfolding verify_rows
  verify_rows-Verified expected p [] = Post-ok (record {
    chained = λ mid. tt;
    agrees = tt;
    heads = refl;
    last = λ mid. refl;
    matched = λ mid. ground arith;
  })
  verify_rows-Verified expected p (e ∷ es) = Post-bind λ p' first. record {
    holds = λ q rest.
        Verified-cons expected p e es p' q ((verify_row-Round expected p e).holds p' first)
          ((verify_rows-Verified expected p' es).holds q rest);
  }

  verify_row-ok :
      (expected : TextDict Head) (p : Progress) (e : Event)
      → extends sha256 (head_of e.memorial_id p.heads) e ≡ true
      → Agrees expected e
      → (p' : Progress) × (verify_row sha256 expected p e ≡ ok p')
  unfolding verify_row raise_if ◌>>=◌
  verify_row-ok expected p e linked agrees =
      let (matched, eq) = match_head-ok (get e.memorial_id expected) e p.matched agrees in
      (
        record { heads = set e.memorial_id (head_at e) p.heads; matched = matched },
        rw (linked, eq) refl,
      )

  -- The loop raises nothing on rows that extend the heads, memorial by memorial, and agree with the
  -- checkpoint.
  pub verify_rows-ok :
      (expected : TextDict Head) (p : Progress) (rows : List Event)
      → ((mid : Text) → Chained (head_of mid p.heads) (own mid rows))
      → All (Agrees expected) rows
      → (q : Progress) × (verify_rows sha256 expected p rows ≡ ok q)
  unfolding verify_rows ◌>>=◌
  verify_rows-ok expected p [] chained agrees = (p, refl)
  verify_rows-ok expected p (e ∷ es) chained (agree, agrees) =
      let (link, later) = Chained-step p.heads e es chained in
      let (p', first) = verify_row-ok expected p e link agree in
      let round = (verify_row-Round expected p e).holds p' first in
      let (q, rest) = verify_rows-ok expected p' es (rw round.1 later) agrees in
      (q, rw (first, rest) refl)

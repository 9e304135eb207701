-- ===== src/Memorial/Append.antt =====
-- `append_event` of remembrance/consent.py against `verify_history`: the histories that it writes.
use mathlib.Core.List.{reverse, reverse-append, append-nil}
use the_st.Prelude.{
  ◌+◌, ◌≡◌, refl, ap, ◌∙◌, true, List, [], ◌∷◌, ◌++◌, Option, none, some, arith, Text, text_eq,
  text_eq_iff, text_eq_refl, Bool-cases, and_intro, ◌==◌, inl, inr,
}
use the_st.Json.{Value, Entries}
use the_st.Fallible.{ok}
use the_st.Memorial.{Event}
use the_st.Memorial.Consent.{
  find_head, next_event, hashed, event_fields, next_sequence, previous_hash, zero_hash,
}
use the_st.Memorial.History.{
  Head, no_head, head_or, head_at, extends, verify_history, write_checkpoint,
}
use the_st.Memorial.Chains.{is_of, own, last_head, heads_after, Chained}
use the_st.Memorial.Checkpoints.{verify_history-none}

pub own-append : (mid : Text) (xs ys : List Event) → own mid (xs ++ ys) ≡ own mid xs ++ own mid ys
own-append mid [] ys = refl
own-append mid (x ∷ xs) ys = ground (arith, own-append mid xs ys)

last_head-append :
    (o : Option Head) (xs ys : List Event) → last_head o (xs ++ ys) ≡ last_head (last_head o xs) ys
last_head-append o [] ys = refl
last_head-append o (x ∷ xs) ys = last_head-append (some (head_at x)) xs ys

-- The head of an event, if there is one.
abbrev event_head : Option Event → Option Head
event_head none = none
event_head (some e) = some (head_at e)

-- The events of one memorial, oldest first.
abbrev pub story : Text → List Event → List Event
story mid history = own mid (reverse history)

story-cons :
    (mid : Text) (e : Event) (history : List Event)
    → story mid (e ∷ history) ≡ story mid history ++ own mid (e ∷ [])
story-cons mid e history =
    ap (own mid) (reverse-append (e ∷ []) history) ∙ own-append mid (reverse history) (e ∷ [])

-- The head that `append_event` finds is where the memorial's events end.
find_head-last :
    (mid : Text) (history : List Event)
    → last_head none (story mid history) ≡ event_head (find_head mid history)
unfolding find_head
find_head-last mid [] = refl
find_head-last mid (e ∷ history) = elim (Bool-cases (is_of mid e)) [
  | inl mine ↦
      rw
        (
          story-cons mid e history,
          last_head-append none (story mid history) (own mid (e ∷ [])),
          mine,
        )
        refl
  | inr other ↦ rw (story-cons mid e history, other, append-nil) (find_head-last mid history)
]

module _ (sha256 : Text → Text) where
  -- The histories that calls of `append_event` lead to, whatever the clock shows.
  pub data Grown : List Event → Type 0 where
    empty : Grown []
    grow :
        {history : List Event} (now mid kind : Text) (actor grant_id : Option Text)
        (document : Entries)
        → Grown history
        → Grown (next_event sha256 now mid kind actor grant_id document history ∷ history)

  Chained-snoc :
      (g : Head) (xs : List Event) (e : Event)
      → Chained sha256 g xs
      → extends sha256 (head_or (last_head (some g) xs)) e ≡ true
      → Chained sha256 g (xs ++ (e ∷ []))
  Chained-snoc g [] e chained link = (link, tt)
  Chained-snoc g (x ∷ xs) e (first, chained) link =
      (first, Chained-snoc (head_at x) xs e chained link)

  last_head-or :
      (xs : List Event) → head_or (last_head (some no_head) xs) ≡ head_or (last_head none xs)
  last_head-or [] = refl
  last_head-or (x ∷ xs) = refl

  next_links :
      (head : Option Event)
      → ((next_sequence head == (head_or (event_head head)).sequence + 1) ≡ true)
        × (text_eq (previous_hash head) (head_or (event_head head)).hash ≡ true)
  next_links none = (refl, text_eq_refl zero_hash)
  next_links (some e) = (ground arith, text_eq_refl e.event_hash)

  next_event-extends :
      (now mid kind : Text) (actor grant_id : Option Text) (document : Entries)
      (history : List Event)
      → extends sha256
          (head_or (event_head (find_head mid history)))
          (next_event sha256 now mid kind actor grant_id document history)
        ≡ true
  unfolding extends next_event event_fields
  next_event-extends now mid kind actor grant_id document history =
      let e = next_event sha256 now mid kind actor grant_id document history in
      let (sequence, previous) = next_links (find_head mid history) in
      let hash = text_eq_refl (hashed sha256 e) in and_intro (and_intro sequence previous) hash

  -- Every memorial's part of a history that `append_event` has written is a chain.
  Grown-Chained :
      {history : List Event}
      → Grown history
      → (mid : Text) → Chained sha256 no_head (story mid history)
  Grown-Chained empty mid = tt
  Grown-Chained (grow {history} now m kind actor grant_id document g) mid =
      let e = next_event sha256 now m kind actor grant_id document history in
      let before = Grown-Chained g mid in
      elim (Bool-cases (is_of mid e)) [
        | inl mine ↦
            let same : mid ≡ m = (text_eq_iff mid m).0 (unfold next_event in mine) in
            let link = next_event-extends now m kind actor grant_id document history in
            rw (story-cons mid e history, mine)
              (Chained-snoc no_head (story mid history) e before
                (rw (last_head-or (story mid history), find_head-last mid history, same) link))
        | inr other ↦ rw (story-cons mid e history, other, append-nil) before
      ]

  -- Whatever calls of `append_event` have written a history, for several memorials in any order,
  -- `verify_history` without a checkpoint raises nothing on its rows, when these are, of each
  -- memorial, its events from the oldest on.
  pub Grown-verifies :
      {history : List Event} (rows : List Event)
      → Grown history
      → ((mid : Text) → own mid rows ≡ story mid history)
      → (v : Value) × (verify_history sha256 none rows ≡ ok v)
  Grown-verifies rows g ordered = (
    write_checkpoint (heads_after [] rows),
    verify_history-none sha256 rows λ mid. rw (ordered mid) (Grown-Chained g mid),
  )

-- ===== src/Memorial/Checkpoints.antt =====
-- What the checkpoint that `verify_history` of remembrance/consent.py returns says of a later
-- history.
use the_st.Prelude.{
  ℕ, ◌+◌, ◌<◌, ◌≤◌, ◌≡◌, refl, ◌∙◌, true, ◌&&◌, ◌||◌, List, [], ◌∷◌, ◌++◌, none, some, arith, Text,
  text_eq, text_eq_iff, mem_text, any, All, Option-cases, inl, inr, ◌==◌, is_some, All-map,
}
use the_st.Prelude.Dicts.{TextDict, get, set}
use the_st.Json.{Value}
use the_st.Fallible.{ok, ◌>>=◌, raise_if, Post, Post-ok, Post-bind, Post-guard}
use the_st.Memorial.{Event, is_hex64}
use the_st.Memorial.Consent.{hashed}
use the_st.Memorial.History.{
  Head, head_of, no_head, head_at, Progress, extends, expected_of, write_checkpoint,
  verify_expected, verify_history,
}
use the_st.Memorial.Chains.{
  Chained-step, own, last_head, heads_after, hits, Agrees, Chained, verify_rows-Verified,
  verify_rows-ok,
}
use the_st.Memorial.Heads.{
  IsHead, AreHeads, read_checkpoint-write, AreHeads-set, All-own, All-always, any-own, all-keys,
  key-all, own-All, any-both,
}

module _ (sha256 : Text → Text) where
  AreHeads-after :
      (rows : List Event) (heads : TextDict Head)
      → ((t : Text) → is_hex64 (sha256 t) ≡ true)
      → ((mid : Text) → Chained sha256 (head_of mid heads) (own mid rows))
      → AreHeads heads
      → AreHeads (heads_after heads rows)
  AreHeads-after [] heads hex chained good = good
  AreHeads-after (e ∷ es) heads hex chained good =
      let (link, later) = Chained-step sha256 heads e es chained in
      let hash : text_eq e.event_hash (hashed sha256 e) ≡ true = unfold extends in ground arith in
      let same = (text_eq_iff e.event_hash (hashed sha256 e)).0 hash in
      let first : IsHead (head_at e) = (unfold extends in ground arith, rw same (hex _)) in
      AreHeads-after es (set e.memorial_id (head_at e) heads) hex later
        (AreHeads-set e.memorial_id (head_at e) heads first good)

  -- Every event of a chain comes after the head that it starts from.
  Chained-later :
      (n : ℕ) (g : Head) (es : List Event)
      → n ≤ g.sequence
      → Chained sha256 g es
      → All (λ e. n < e.sequence) es
  Chained-later n g [] le chained = tt
  Chained-later n g (e ∷ es) le (link, chained) =
      let first : e.sequence ≡ g.sequence + 1 = unfold extends in ground arith in
      (omega arith, Chained-later n (head_at e) es (omega arith) chained)

  -- The sequence of a chain's last head is that of no other event, however the chain goes on.
  last_unique :
      (g h : Head) (xs ys : List Event)
      → Chained sha256 g (xs ++ ys)
      → last_head (some g) xs ≡ some h
      → (g.sequence ≤ h.sequence)
        × (g.sequence ≡ h.sequence → g.hash ≡ h.hash)
        × All (λ e. e.sequence ≡ h.sequence → e.event_hash ≡ h.hash) (xs ++ ys)
  last_unique g h [] ys chained e =
      let same : g ≡ h = ground arith in
      rw (← same) (
        omega arith,
        (λ _. refl),
        All-map ys (λ z later eq. absurd (omega arith))
            (Chained-later g.sequence g ys (omega arith) chained),
      )
  last_unique g h (x ∷ xs) ys (link, chained) e =
      let first : x.sequence ≡ g.sequence + 1 = unfold extends in ground arith in
      let (le, same, all_) = last_unique (head_at x) h xs ys chained e in
      (omega arith, (λ eq. absurd (omega arith)), (same, all_))

  last-hits :
      (g h : Head) (xs ys : List Event)
      → last_head (some g) xs ≡ some h
      → (g.sequence == h.sequence || any (hits (some h)) (xs ++ ys)) ≡ true
  last-hits g h [] ys e = let same : g ≡ h = ground arith in ground arith
  last-hits g h (x ∷ xs) ys e = ground (arith, last-hits (head_at x) h xs ys e)

  -- Of each memorial, the events of the second history go on from those of the first.
  abbrev pub Extends : List Event → List Event → Type 0
  Extends rows later = (mid : Text) → (more : List Event) × (own mid later ≡ own mid rows ++ more)

  last_head-some :
      (g h : Head) (xs : List Event) → last_head none xs ≡ some h → last_head (some g) xs ≡ some h
  last_head-some g h [] e = absurd (ground arith)
  last_head-some g h (x ∷ xs) e = e

  last_head-hits :
      (h : Head) (xs ys : List Event)
      → last_head none xs ≡ some h
      → any (hits (some h)) (xs ++ ys) ≡ true
  last_head-hits h [] ys e = absurd (ground arith)
  last_head-hits h (x ∷ xs) ys e = last-hits (head_at x) h xs ys e

  -- What a verification without a checkpoint says.
  record Verifies (rows : List Event) (v : Value) : Type 0 where
    result : v ≡ write_checkpoint (heads_after [] rows)
    chained : (mid : Text) → Chained sha256 no_head (own mid rows)
    last : (mid : Text) → get mid (heads_after [] rows) ≡ last_head none (own mid rows)

  abbrev start : Progress
  start = record { heads = []; matched = [] }

  verify_history-Verifies :
      (rows : List Event) → Post (Verifies rows) (verify_history sha256 none rows)
  unfolding verify_history expected_of verify_expected get
  verify_history-Verifies rows = Post-bind λ expected none_. Post-bind λ p run. Post-guard _ _ λ _.
      let v = (verify_rows-Verified sha256 expected start rows).holds p run in
      Post-ok (record {
        result = rw v.heads refl;
        chained = v.chained;
        last = λ mid. rw v.heads at (v.last mid);
      })

  verify_expected-ok :
      (expected : TextDict Head) (rows : List Event)
      → ((mid : Text) → Chained sha256 no_head (own mid rows))
      → All (Agrees expected) rows
      → ((mid : Text)
          → is_some (get mid expected) ≡ true
          → any (hits (get mid expected)) (own mid rows) ≡ true)
      → verify_expected sha256 expected rows ≡ ok (write_checkpoint (heads_after [] rows))
  unfolding verify_expected get raise_if ◌>>=◌
  verify_expected-ok expected rows chained agrees found =
      let (q, run) = verify_rows-ok sha256 expected start rows chained agrees in
      let v = (verify_rows-Verified sha256 expected start rows).holds q run in
      let all_ =
        all-keys (λ mid. mem_text mid q.matched) expected
          λ mid key. rw (v.matched mid, any-own expected mid rows) (found mid key) in
      rw (run, all_, v.heads) refl

  -- Without a checkpoint, `verify_history` raises nothing on chains.
  pub verify_history-none :
      (rows : List Event)
      → ((mid : Text) → Chained sha256 no_head (own mid rows))
      → verify_history sha256 none rows ≡ ok (write_checkpoint (heads_after [] rows))
  unfolding verify_history expected_of ◌>>=◌ get
  verify_history-none rows chained =
      verify_expected-ok [] rows chained (All-always rows λ e h found. absurd (ground arith))
        (λ mid found. absurd (ground arith))

  -- The events of one memorial agree with a checkpoint of a history that they go on from.
  own-Agrees :
      (heads : TextDict Head) (mid : Text) (xs ys : List Event)
      → Chained sha256 no_head (xs ++ ys)
      → get mid heads ≡ last_head none xs
      → All (λ e. mid ≡ e.memorial_id → Agrees heads e) (xs ++ ys)
  own-Agrees heads mid xs ys chained last = elim (Option-cases (last_head none xs)) [
    | inl nil ↦ All-always (xs ++ ys) λ e same h found. absurd (
        let none_ : get e.memorial_id heads ≡ none = rw (← same) (rw nil at last) in
        ground (arith, none_, found))
    | inr (k, got) ↦
        let (le, same, all_) =
          last_unique no_head k xs ys chained (last_head-some no_head k xs got) in
        All-map (xs ++ ys)
          (λ e unique here h found seq.
            let k_found : get e.memorial_id heads ≡ some k = rw (← here) (rw got at last) in
            let eq : k ≡ h = ground (arith, k_found, found) in
            rw (← eq) (unique (rw (← eq) at seq)))
          all_
  ]

  verify_expected-Kept :
      (expected : TextDict Head) (rows : List Event) (mid : Text) (h : Head)
      → get mid expected ≡ some h
      → Post
          (λ v.
            any (λ e. e.sequence == h.sequence && text_eq e.event_hash h.hash) (own mid rows)
            ≡ true)
          (verify_expected sha256 expected rows)
  unfolding verify_expected
  verify_expected-Kept expected rows mid h found = Post-bind λ q run. Post-guard _ _ λ all_.
      Post-ok (
        let v = (verify_rows-Verified sha256 expected start rows).holds q run in
        let mem : mem_text mid q.matched ≡ true =
          key-all (λ m. mem_text m q.matched) expected mid h (ground arith) found in
        let hit = rw (v.matched mid, any-own expected mid rows, found) at mem in
        any-both h (own mid rows) hit (own-All expected mid h rows found v.agrees))

  -- A checkpoint that `verify_history` returns on a history, it accepts on every later one that
  -- verifies without a checkpoint and in which each memorial's events go on from those of the first,
  -- and it returns what it returns without a checkpoint. SHA-256 gives 64 hexadecimal digits.
  pub verify_history-later :
      (rows later : List Event) (v v' : Value)
      → ((t : Text) → is_hex64 (sha256 t) ≡ true)
      → verify_history sha256 none rows ≡ ok v
      → verify_history sha256 none later ≡ ok v'
      → Extends rows later
      → verify_history sha256 (some v) later ≡ ok v'
  verify_history-later rows later v v' hex first second extended =
      let one = (verify_history-Verifies rows).holds v first in
      let two = (verify_history-Verifies later).holds v' second in
      let heads = heads_after [] rows in
      let read =
        read_checkpoint-write heads (unfold get in AreHeads-after rows [] hex one.chained tt) in
      let agrees = All-own (Agrees heads) later λ mid.
        let (more, eq) = extended mid in
        rw eq
          (own-Agrees heads mid (own mid rows) more (rw eq at (two.chained mid)) (one.last mid)) in
      let found : (mid : Text)
          → is_some (get mid heads) ≡ true
          → any (hits (get mid heads)) (own mid later) ≡ true =
        λ mid key. elim (Option-cases (last_head none (own mid rows))) [
          | inl nil ↦ absurd (let none_ = rw (one.last mid, nil) at key in ground arith)
          | inr (k, got) ↦
              let (more, eq) = extended mid in
              rw (one.last mid, got, eq) (last_head-hits k (own mid rows) more got)
        ] in
      rw (one.result, two.result)
        (unfold verify_history expected_of ◌>>=◌ in
          rw read (verify_expected-ok heads later two.chained agrees found))

  -- A checkpoint that `verify_history` returns on a history, it accepts only on a history in which,
  -- of each memorial with events in the first, an event has the sequence and the hash of the last of
  -- those. SHA-256 gives 64 hexadecimal digits.
  pub verify_history-keeps :
      (rows later : List Event) (v v' : Value) (mid : Text) (h : Head)
      → ((t : Text) → is_hex64 (sha256 t) ≡ true)
      → verify_history sha256 none rows ≡ ok v
      → verify_history sha256 (some v) later ≡ ok v'
      → last_head none (own mid rows) ≡ some h
      → any (λ e. e.sequence == h.sequence && text_eq e.event_hash h.hash) (own mid later) ≡ true
  verify_history-keeps rows later v v' mid h hex first second last =
      let one = (verify_history-Verifies rows).holds v first in
      let heads = heads_after [] rows in
      let read =
        read_checkpoint-write heads (unfold get in AreHeads-after rows [] hex one.chained tt) in
      let accepted : verify_expected sha256 heads later ≡ ok v' =
        unfold verify_history expected_of ◌>>=◌ in rw (read) at (rw one.result at second) in
      let found : get mid heads ≡ some h = one.last mid ∙ last in
      (verify_expected-Kept heads later mid h found).holds v' accepted

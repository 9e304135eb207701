-- ===== src/Audit/Links.antt =====
-- What `verify_chain` of remembrance-consent/app/consent/audit.py decides, chain by chain.
use mathlib.Core.Path.{transport, subst}
use the_st.Prelude.{
  ℕ, ◌+◌, ◌≤◌, ◌≡◌, refl, sym, ◌↔◌, Bool, true, false, List, [], ◌∷◌, ◌++◌, Option, none, some,
  arith, Text, ◌==◌, if◌then◌else◌, text_eq_iff, keep, length, All, Bool-cases, Option-cases, inl,
  inr,
}
use the_st.Prelude.Dicts.{Dict, lookup, insert, lookup-insert}
use the_st.Audit.{
  EventRecord, Anchor, ChainSummary, ChainReport, genesis_hash, summary_of, advance, check_link,
  check_time, check_anchor, check_missing, check_hash, compute_event_hash, verify_event,
  verify_events, verify_chain,
}

-- The events of one profile.
abbrev pub own : ℕ → EventRecord → Bool
own pid e = e.deceased_profile_id == pid

abbrev pub NotBefore : Option ℕ → ℕ → Type 0
NotBefore none moment = Unit
NotBefore (some last) moment = last ≤ moment

-- The event that brings the chain to the anchored length has the anchored hash.
abbrev pub Agrees : Option Anchor → ℕ → EventRecord → Type 0
Agrees none count e = Unit
Agrees (some a) count e = count ≡ a.length → e.event_hash ≡ a.head_hash

-- The events of an anchored chain are no fewer than the anchor has seen.
abbrev pub LongEnough : List EventRecord → ℕ × Anchor → Type 0
LongEnough es (pid, a) = a.length ≤ length (keep (own pid) es)

summary-insert :
    (q k : ℕ) (c : ChainSummary) (d : Dict ChainSummary)
    → summary_of q (insert k c d) ≡ (if q == k then c else summary_of q d)
unfolding summary_of
summary-insert q k c d = ground (arith, lookup-insert q k c d)

append-eq-nil : {A : Type 0} (xs ys : List A) → (xs ++ ys ≡ []) ↔ ((xs ≡ []) × (ys ≡ []))
append-eq-nil [] ys = ((λ h. (refl, h)), (λ h. h.1))
append-eq-nil (x ∷ xs) ys = ((λ h. cc), (λ h. cc (h.0)))

check_link-nil :
    (c : ChainSummary) (e : EventRecord) → (check_link c e ≡ []) ↔ (e.previous_hash ≡ c.head_hash)
unfolding check_link
check_link-nil c e = ground (arith, text_eq_iff e.previous_hash c.head_hash)

check_time-nil :
    (c : ChainSummary) (e : EventRecord)
    → (check_time c e ≡ []) ↔ NotBefore c.last_created_at e.created_at
unfolding check_time
check_time-nil c e = elim (Option-cases c.last_created_at) [
  | inl n ↦ rw (n, check_time) ((λ h. tt), (λ h. refl))
  | inr (last, n) ↦ rw (n, check_time) (ground arith)
]

check_anchor-nil :
    (a : Option Anchor) (c : ChainSummary) (e : EventRecord)
    → (check_anchor a c e ≡ []) ↔ Agrees a c.length e
unfolding check_anchor
check_anchor-nil none c e = ((λ h. tt), (λ h. refl))
check_anchor-nil (some a) c e = ground (arith, text_eq_iff e.event_hash a.head_hash)

module _ (sha256 : Text → Text) where
  -- One chain from a given state on: every event names the hash of the one before it, holds the
  -- hash of its own contents, is not earlier than the one before, and agrees with the anchor.
  abbrev pub Linked : Option Anchor → ℕ → Text → Option ℕ → List EventRecord → Type 0
  Linked anchor count previous last [] = Unit
  Linked anchor count previous last (e ∷ es) =
      (e.previous_hash ≡ previous)
      × (compute_event_hash sha256 e ≡ e.event_hash)
      × NotBefore last e.created_at
      × Agrees anchor (count + 1) e
      × Linked anchor (count + 1) e.event_hash (some e.created_at) es

  abbrev pub LinkedAt : Option Anchor → ChainSummary → List EventRecord → Type 0
  LinkedAt anchor c es = Linked anchor c.length c.head_hash c.last_created_at es

  check_hash-nil :
      (e : EventRecord) → (check_hash sha256 e ≡ []) ↔ (compute_event_hash sha256 e ≡ e.event_hash)
  unfolding check_hash
  check_hash-nil e = ground (arith, text_eq_iff (compute_event_hash sha256 e) e.event_hash)

  module _ (anchors : Dict Anchor) where
    -- The chain of a profile, as a report finds it.
    abbrev pub Continues : ChainReport → ℕ → List EventRecord → Type 0
    Continues report pid es =
        LinkedAt (lookup pid anchors) (summary_of pid report.chains) (keep (own pid) es)

    -- What one event must satisfy for no error to be added.
    abbrev StepOk : ChainReport → EventRecord → Type 0
    StepOk report e =
        let c = summary_of e.deceased_profile_id report.chains in
        (e.previous_hash ≡ c.head_hash)
        × (compute_event_hash sha256 e ≡ e.event_hash)
        × NotBefore c.last_created_at e.created_at
        × Agrees (lookup e.deceased_profile_id anchors) (c.length + 1) e

    verify_event-errors :
        (report : ChainReport) (e : EventRecord)
        → ((verify_event sha256 anchors report e).errors ≡ [])
          ↔ ((report.errors ≡ []) × StepOk report e)
    unfolding verify_event
    verify_event-errors report e =
        let c = summary_of e.deceased_profile_id report.chains in
        let a = lookup e.deceased_profile_id anchors in
        ground (
          arith,
          append-eq-nil report.errors (
              check_link c e
              ++ (check_hash sha256 e ++ (check_time c e ++ check_anchor a (advance c e) e))),
          append-eq-nil (check_link c e)
              (check_hash sha256 e ++ (check_time c e ++ check_anchor a (advance c e) e)),
          append-eq-nil (check_hash sha256 e) (check_time c e ++ check_anchor a (advance c e) e),
          append-eq-nil (check_time c e) (check_anchor a (advance c e) e),
          check_link-nil c e,
          check_hash-nil e,
          check_time-nil c e,
          check_anchor-nil a (advance c e) e,
        )

    verify_event-summary :
        (report : ChainReport) (e : EventRecord) (pid : ℕ)
        → summary_of pid (verify_event sha256 anchors report e).chains ≡ (
            if pid == e.deceased_profile_id
            then advance (summary_of e.deceased_profile_id report.chains) e
            else summary_of pid report.chains)
    unfolding verify_event
    verify_event-summary report e pid = summary-insert pid e.deceased_profile_id _ report.chains

    Continues-own :
        (report : ChainReport) (e : EventRecord) (es : List EventRecord)
        → StepOk report e
        → Continues report e.deceased_profile_id (e ∷ es)
          ↔ Continues (verify_event sha256 anchors report e) e.deceased_profile_id es
    Continues-own report e es ok =
        let mine : (e.deceased_profile_id == e.deceased_profile_id) ≡ true = ground arith in
        rw (verify_event-summary report e e.deceased_profile_id, mine)
          ((λ h. h.4), (λ h. (ok.0, ok.1, ok.2, ok.3, h)))

    -- An event matters to its own chain alone.
    Continues-cons :
        (report : ChainReport) (e : EventRecord) (es : List EventRecord) (pid : ℕ)
        → StepOk report e
        → Continues report pid (e ∷ es) ↔ Continues (verify_event sha256 anchors report e) pid es
    Continues-cons report e es pid ok = elim (Bool-cases (own pid e)) [
      | inl mine ↦
          let same : e.deceased_profile_id ≡ pid = ground arith in
          subst
            (λ q.
              Continues report q (e ∷ es) ↔ Continues (verify_event sha256 anchors report e) q es)
            same (Continues-own report e es ok)
      | inr other ↦
          let other' : (pid == e.deceased_profile_id) ≡ false = ground arith in
          rw (verify_event-summary report e pid, other', other) ((λ h. h), (λ h. h))
    ]

    StepOk-of_Continues :
        (report : ChainReport) (e : EventRecord) (es : List EventRecord)
        → Continues report e.deceased_profile_id (e ∷ es)
        → StepOk report e
    StepOk-of_Continues report e es h =
        let mine : own e.deceased_profile_id e ≡ true = ground arith in
        let h' = rw mine at h in (h'.0, h'.1, h'.2, h'.3)

    -- The loop adds no error exactly when each chain goes on without one.
    pub verify_events-errors :
        (es : List EventRecord) (report : ChainReport)
        → ((verify_events sha256 anchors report es).errors ≡ [])
          ↔ ((report.errors ≡ []) × ((pid : ℕ) → Continues report pid es))
    unfolding verify_events
    verify_events-errors [] report = ((λ h. (h, λ pid. tt)), (λ h. h.0))
    verify_events-errors (e ∷ es) report =
        let report' = verify_event sha256 anchors report e in
        let later = verify_events-errors es report' in
        let now = verify_event-errors report e in
        (
          (λ h.
              let (clean, rest) = later.0 h in
              let (before, ok) = now.0 clean in
              (before, λ pid. (Continues-cons report e es pid ok).1 (rest pid))),
          (λ (before, all).
              let ok = StepOk-of_Continues report e es (all e.deceased_profile_id) in
              later.1 (now.1 (before, ok), λ pid. (Continues-cons report e es pid ok).0 (all pid))),
        )

    -- The length of a chain in the report is the number of its events.
    verify_events-length :
        (es : List EventRecord) (report : ChainReport) (pid : ℕ)
        → (summary_of pid (verify_events sha256 anchors report es).chains).length
          ≡ (summary_of pid report.chains).length + length (keep (own pid) es)
    unfolding verify_events
    verify_events-length [] report pid = omega arith
    verify_events-length (e ∷ es) report pid = ground (
      arith,
      verify_events-length es (verify_event sha256 anchors report e) pid,
      verify_event-summary report e pid,
    )

  abbrev empty_report : ChainReport
  empty_report = record { chains = []; errors = [] }

  start_length :
      (anchors : Dict Anchor) (es : List EventRecord) (pid : ℕ)
      → (summary_of pid (verify_events sha256 anchors empty_report es).chains).length
        ≡ length (keep (own pid) es)
  unfolding summary_of lookup
  start_length anchors es pid = omega (arith, verify_events-length anchors es empty_report pid)

  start_Continues :
      (anchors : Dict Anchor) (pid : ℕ) (es : List EventRecord)
      → Continues anchors empty_report pid es
        ≡ Linked (lookup pid anchors) 0 genesis_hash none (keep (own pid) es)
  unfolding summary_of lookup
  start_Continues anchors pid es = refl

  check_missing-nil :
      (chains : Dict ChainSummary) (es : List EventRecord) (anchors : Dict Anchor)
      → ((pid : ℕ) → (summary_of pid chains).length ≡ length (keep (own pid) es))
      → (check_missing chains anchors ≡ []) ↔ All (LongEnough es) anchors
  unfolding check_missing
  check_missing-nil chains es [] h = ((λ e. tt), (λ e. refl))
  check_missing-nil chains es ((pid, a) ∷ anchors) h =
      ground (arith, h pid, check_missing-nil chains es anchors h)

  -- A verification reports no error exactly when, for every profile, the events of that profile in
  -- their order form a linked chain from the genesis hash that agrees with the profile's anchor, and
  -- no anchored chain is shorter than its anchor, however the chains are interleaved.
  pub verify_chain-ok_iff :
      (anchors : Dict Anchor) (es : List EventRecord)
      → ((verify_chain sha256 anchors es).errors ≡ []) ↔ (
          ((pid : ℕ) → Linked (lookup pid anchors) 0 genesis_hash none (keep (own pid) es))
          × All (LongEnough es) anchors)
  unfolding verify_chain
  verify_chain-ok_iff anchors es =
      let report = verify_events sha256 anchors empty_report es in
      let loop = verify_events-errors anchors es empty_report in
      let missing = check_missing-nil report.chains es anchors (start_length anchors es) in
      let joined = append-eq-nil report.errors (check_missing report.chains anchors) in
      (
        (λ h.
            let (a, b) = joined.0 h in
            ((λ pid. transport (start_Continues anchors pid es) ((loop.0 a).1 pid)), missing.0 b)),
        (λ h. joined.1 (
          loop.1 (refl, λ pid. transport (sym (start_Continues anchors pid es)) (h.0 pid)),
          missing.1 h.1,
        )),
      )

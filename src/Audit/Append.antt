-- ===== src/Audit/Append.antt =====
-- `append_event` of remembrance-consent/app/consent/audit.py against `verify_chain`.
use mathlib.Core.List.{reverse, reverse-append, append-nil}
use the_st.Prelude.{
  ℕ, ◌+◌, ◌≡◌, refl, ap, ◌∙◌, Bool, List, [], ◌∷◌, ◌++◌, Option, none, some, arith, Text, inl, inr,
  keep, Bool-cases, Option-cases,
}
use the_st.Prelude.Dicts.{lookup}
use the_st.Json.{Entries}
use the_st.Vocabulary.{AuditEventType}
use the_st.Audit.{
  EventRecord, genesis_hash, find_head, stamp, previous_of, compute_event_hash, verify_chain,
  next_event, append_event, validate_payload, event_document,
}
use the_st.Audit.Links.{own, NotBefore, Linked, verify_chain-ok_iff}

-- Where a chain from a given state ends.
abbrev end_hash : Text → List EventRecord → Text
end_hash previous [] = previous
end_hash previous (e ∷ es) = end_hash e.event_hash es

abbrev end_time : Option ℕ → List EventRecord → Option ℕ
end_time last [] = last
end_time last (e ∷ es) = end_time (some e.created_at) es

abbrev last_time : Option EventRecord → Option ℕ
last_time none = none
last_time (some e) = some e.created_at

keep-append :
    (test : EventRecord → Bool) (xs ys : List EventRecord)
    → keep test (xs ++ ys) ≡ keep test xs ++ keep test ys
keep-append test [] ys = refl
keep-append test (x ∷ xs) ys = ground (arith, keep-append test xs ys)

end-snoc :
    (p : Text) (l : Option ℕ) (xs : List EventRecord) (e : EventRecord)
    → (end_hash p (xs ++ (e ∷ [])) ≡ e.event_hash)
      × (end_time l (xs ++ (e ∷ [])) ≡ some e.created_at)
end-snoc p l [] e = (refl, refl)
end-snoc p l (x ∷ xs) e = end-snoc x.event_hash (some x.created_at) xs e

module _ (sha256 : Text → Text) where
  Linked-snoc :
      (count : ℕ) (p : Text) (l : Option ℕ) (xs : List EventRecord) (e : EventRecord)
      → Linked sha256 none count p l xs
      → e.previous_hash ≡ end_hash p xs
      → compute_event_hash sha256 e ≡ e.event_hash
      → NotBefore (end_time l xs) e.created_at
      → Linked sha256 none count p l (xs ++ (e ∷ []))
  Linked-snoc count p l [] e h link hash time = (link, hash, time, tt, tt)
  Linked-snoc count p l (x ∷ xs) e h link hash time = (
    h.0,
    h.1,
    h.2,
    tt,
    Linked-snoc (count + 1) x.event_hash (some x.created_at) xs e h.4 link hash time,
  )

  -- The tables that calls of `append_event` lead to, whatever the clock shows at each call.
  pub data Written : List EventRecord → Type 0 where
    empty : Written []
    append :
        {table table' : List EventRecord} (now : ℕ) (event_type : AuditEventType) (actor_id : Text)
        (pid : ℕ) (grant_id : Option ℕ) (payload : Entries)
        → Written table
        → append_event sha256 now event_type actor_id pid grant_id payload table ≡ inr table'
        → Written table'

  -- One chain of a table, oldest event first.
  abbrev chain : ℕ → List EventRecord → List EventRecord
  chain pid table = keep (own pid) (reverse table)

  chain-cons :
      (pid : ℕ) (e : EventRecord) (table : List EventRecord)
      → chain pid (e ∷ table) ≡ chain pid table ++ keep (own pid) (e ∷ [])
  chain-cons pid e table =
      ap (keep (own pid)) (reverse-append (e ∷ []) table)
      ∙ keep-append (own pid) (reverse table) (e ∷ [])

  -- The head that `append_event` finds is the end of the chain.
  find_head-end :
      (pid : ℕ) (table : List EventRecord)
      → (end_hash genesis_hash (chain pid table) ≡ previous_of (find_head pid table))
        × (end_time none (chain pid table) ≡ last_time (find_head pid table))
  unfolding find_head previous_of
  find_head-end pid [] = (refl, refl)
  find_head-end pid (e ∷ table) = elim (Bool-cases (own pid e)) [
    | inl mine ↦ rw (chain-cons pid e table, mine) (end-snoc genesis_hash none (chain pid table) e)
    | inr other ↦ rw (chain-cons pid e table, other, append-nil) (find_head-end pid table)
  ]

  next_event_links :
      (now : ℕ) (event_type : AuditEventType) (actor_id : Text) (pid : ℕ) (grant_id : Option ℕ)
      (payload : Entries) (table : List EventRecord)
      → let e = next_event sha256 now event_type actor_id pid grant_id payload table in
        (e.deceased_profile_id ≡ pid)
        × (e.previous_hash ≡ previous_of (find_head pid table))
        × (compute_event_hash sha256 e ≡ e.event_hash)
        × NotBefore (last_time (find_head pid table)) e.created_at
  unfolding next_event compute_event_hash event_document
  next_event_links now event_type actor_id pid grant_id payload table =
      (refl, refl, refl, not_before (find_head pid table))
    where
      not_before : (head : Option EventRecord) → NotBefore (last_time head) (stamp head now)
      not_before none = tt
      not_before (some h) = unfold stamp in ground arith

  chain-next :
      (e : EventRecord) (pid : ℕ) (table : List EventRecord)
      → e.previous_hash ≡ previous_of (find_head e.deceased_profile_id table)
      → compute_event_hash sha256 e ≡ e.event_hash
      → NotBefore (last_time (find_head e.deceased_profile_id table)) e.created_at
      → Linked sha256 none 0 genesis_hash none (chain pid table)
      → Linked sha256 none 0 genesis_hash none (chain pid (e ∷ table))
  chain-next e pid table link hash time h = elim (Bool-cases (own pid e)) [
    | inl mine ↦
        let same : e.deceased_profile_id ≡ pid = ground arith in
        let (ends, late) = find_head-end pid table in
        rw (chain-cons pid e table, mine)
          (Linked-snoc 0 genesis_hash none (chain pid table) e h (rw ends (rw same at link)) hash
            (rw late (rw same at time)))
    | inr other ↦ rw (chain-cons pid e table, other, append-nil) h
  ]

  -- A call that raises nothing puts one event on top of the table.
  pub append_event-adds :
      (now : ℕ) (event_type : AuditEventType) (actor_id : Text) (pid : ℕ) (grant_id : Option ℕ)
      (payload : Entries) (table table' : List EventRecord)
      → append_event sha256 now event_type actor_id pid grant_id payload table ≡ inr table'
      → table' ≡ next_event sha256 now event_type actor_id pid grant_id payload table ∷ table
  unfolding append_event
  append_event-adds now event_type actor_id pid grant_id payload table table' h =
      elim (Option-cases (validate_payload payload)) [
        | inl e ↦ ground arith
        | inr (x, e) ↦ absurd (ground arith)
      ]

  -- Every chain of a table that `append_event` has written is linked.
  Written-Linked :
      {table : List EventRecord}
      → Written table
      → (pid : ℕ) → Linked sha256 none 0 genesis_hash none (chain pid table)
  Written-Linked empty pid = tt
  Written-Linked (append {table} {table'} now event_type actor_id p grant_id payload w eq) pid =
      let e = next_event sha256 now event_type actor_id p grant_id payload table in
      let (own_pid, link, hash, time) =
        next_event_links now event_type actor_id p grant_id payload table in
      rw (append_event-adds now event_type actor_id p grant_id payload table table' eq)
        (chain-next e pid table (rw own_pid link) hash (rw own_pid time) (Written-Linked w pid))

  -- Whatever sequence of calls has written a table, with whatever readings of the clock, and with
  -- the calls for several profiles in any order, the verification of the table finds no error.
  pub Written-verifies :
      {table : List EventRecord}
      → Written table
      → (verify_chain sha256 [] (reverse table)).errors ≡ []
  unfolding lookup
  Written-verifies w = (verify_chain-ok_iff sha256 [] _).1 (Written-Linked w, tt)

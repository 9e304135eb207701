-- ===== src/Audit/Tamper.antt =====
-- What the anchors of `verify_chain` in remembrance-consent/app/consent/audit.py protect: two
-- histories that both verify against one anchor are the same up to it, or SHA-256 has collided.
use the_st.Prelude.{
  ℕ, zero, suc, ◌+◌, ◌-◌, ◌<◌, ◌≤◌, ◌≡◌, ◌≢◌, refl, sym, ap, ◌∙◌, ◌⊎◌, inl, inr, true, List, [],
  ◌∷◌, Option, none, some, arith, Text, text_eq, text_eq_iff, keep, length, take, All, Bool-cases,
}
use the_st.Prelude.Dicts.{lookup}
use the_st.Format.{uuid_text, isoformat}
use the_st.Json.{Value, Entries, canonical_json, sorted, sorted_entries, insert_entry}
use the_st.Json.Read.{is_plain, plain_entries}
use the_st.Json.Canonical.{canonical_json-injective}
use the_st.Audit.{
  EventRecord, Anchor, uuid_or_null, event_document, genesis_hash, compute_event_hash, verify_chain,
}
use the_st.Audit.Links.{own, Linked, verify_chain-ok_iff}

-- Two texts that SHA-256 does not tell apart.
abbrev pub Collision : (Text → Text) → Type 0
Collision sha256 = (a : Text) × (b : Text) × (a ≢ b) × (sha256 a ≡ sha256 b)

-- Two events with the same contents, but for the order of the keys of the payload.
pub record SameContents (x y : EventRecord) : Type 0 where
  pub event_type : x.event_type ≡ y.event_type
  pub actor_id : x.actor_id ≡ y.actor_id
  pub deceased_profile_id : uuid_text x.deceased_profile_id ≡ uuid_text y.deceased_profile_id
  pub consent_grant_id :
      sorted (uuid_or_null x.consent_grant_id) ≡ sorted (uuid_or_null y.consent_grant_id)
  pub payload : sorted_entries x.payload ≡ sorted_entries y.payload
  pub previous_hash : x.previous_hash ≡ y.previous_hash
  pub created_at : isoformat x.created_at ≡ isoformat y.created_at

abbrev pub IsPlain : EventRecord → Type 0
IsPlain e = plain_entries e.payload ≡ true

event_document-plain : (e : EventRecord) → IsPlain e → is_plain (event_document e) ≡ true
unfolding event_document is_plain
event_document-plain e h = ground arith

-- The parts of a document, by position.
abbrev nth : ℕ → Entries → Value
nth n Entries.end = Value.null
nth zero (Entries.entry k v es) = v
nth (suc n) (Entries.entry k v es) = nth n es
nth n (Entries.bad_entry v es) = Value.null

abbrev part : ℕ → Value → Value
part n (Value.dict es) = nth n es
part n _ = Value.null

abbrev text_of : Value → Text
text_of (Value.str t) = t
text_of _ = []

abbrev entries_of : Value → Entries
entries_of (Value.dict es) = es
entries_of _ = Entries.end

SameContents-of_sorted :
    (x y : EventRecord) → sorted (event_document x) ≡ sorted (event_document y) → SameContents x y
unfolding event_document sorted insert_entry
SameContents-of_sorted x y h = record {
  event_type = ap (λ v. text_of (part 4 v)) h;
  actor_id = ap (λ v. text_of (part 0 v)) h;
  deceased_profile_id = ap (λ v. text_of (part 3 v)) h;
  consent_grant_id = ap (part 1) h;
  payload = ap (λ v. entries_of (part 5 v)) h;
  previous_hash = ap (λ v. text_of (part 6 v)) h;
  created_at = ap (λ v. text_of (part 2 v)) h;
}

module _ (sha256 : Text → Text) where
  -- Equal hashes mean equal contents, or a collision.
  same_hash :
      (x y : EventRecord)
      → IsPlain x
      → IsPlain y
      → compute_event_hash sha256 x ≡ compute_event_hash sha256 y
      → SameContents x y ⊎ Collision sha256
  unfolding compute_event_hash
  same_hash x y hx hy e =
      let a = canonical_json (event_document x) in
      let b = canonical_json (event_document y) in
      elim (Bool-cases (text_eq a b)) [
        | inl same ↦ inl (
            SameContents-of_sorted x y (
              canonical_json-injective (event_document x) (event_document y)
                (event_document-plain x hx) (event_document-plain y hy) ((text_eq_iff a b).0 same)))
        | inr other ↦ inr (a, b, (λ p. absurd (ground (arith, text_eq_iff a b))), e)
      ]

  abbrev pub SameAll : List EventRecord → List EventRecord → Type 0
  SameAll [] [] = Unit
  SameAll [] (_ ∷ _) = ⊥
  SameAll (_ ∷ _) [] = ⊥
  SameAll (x ∷ xs) (y ∷ ys) = SameContents x y × SameAll xs ys

  -- Where a chain from a given hash on ends.
  abbrev head_after : Text → List EventRecord → Text
  head_after previous [] = previous
  head_after previous (e ∷ es) = head_after e.event_hash es

  -- From a common head the chains agree backwards, event by event.
  same_chain :
      (anchor other : Option Anchor) (m n : ℕ) (p q : Text) (s t : Option ℕ)
      (xs ys : List EventRecord)
      → Linked sha256 anchor m p s xs
      → Linked sha256 other n q t ys
      → All IsPlain xs
      → All IsPlain ys
      → length xs ≡ length ys
      → head_after p xs ≡ head_after q ys
      → (SameAll xs ys × (p ≡ q)) ⊎ Collision sha256
  same_chain anchor other m n p q s t [] [] lx ly px py len e = inl (tt, e)
  same_chain anchor other m n p q s t [] (y ∷ ys) lx ly px py len e = absurd (omega arith)
  same_chain anchor other m n p q s t (x ∷ xs) [] lx ly px py len e = absurd (omega arith)
  same_chain anchor other m n p q s t (x ∷ xs) (y ∷ ys) lx ly px py len e = later (
      same_chain anchor other (m + 1) (n + 1) x.event_hash y.event_hash (some x.created_at)
        (some y.created_at) xs ys lx.4 ly.4 px.1 py.1 (omega arith) e)
    where
      here :
          SameAll xs ys
          → SameContents x y ⊎ Collision sha256
          → (SameAll (x ∷ xs) (y ∷ ys) × (p ≡ q)) ⊎ Collision sha256
      here rest (inl same) = inl ((same, rest), sym lx.0 ∙ (same.previous_hash ∙ ly.0))
      here rest (inr c) = inr c

      later :
          (SameAll xs ys × (x.event_hash ≡ y.event_hash)) ⊎ Collision sha256
          → (SameAll (x ∷ xs) (y ∷ ys) × (p ≡ q)) ⊎ Collision sha256
      later (inl (rest, h)) = here rest (same_hash x y px.0 py.0 (lx.1 ∙ (h ∙ sym ly.1)))
      later (inr c) = inr c

  -- A prefix of a linked chain is linked, and at the anchored length it ends in the anchored hash.
  Linked-take :
      (n : ℕ) (anchor : Option Anchor) (count : ℕ) (p : Text) (s : Option ℕ) (xs : List EventRecord)
      → Linked sha256 anchor count p s xs
      → Linked sha256 anchor count p s (take n xs)
  Linked-take zero anchor count p s xs h = tt
  Linked-take (suc n) anchor count p s [] h = tt
  Linked-take (suc n) anchor count p s (x ∷ xs) h =
      (h.0, h.1, h.2, h.3, Linked-take n anchor (count + 1) x.event_hash (some x.created_at) xs h.4)

  anchored_head :
      (n : ℕ) (a : Anchor) (count : ℕ) (p : Text) (s : Option ℕ) (xs : List EventRecord)
      → Linked sha256 (some a) count p s xs
      → count + suc n ≡ a.length
      → suc n ≤ length xs
      → head_after p (take (suc n) xs) ≡ a.head_hash
  anchored_head n a count p s [] h e long = absurd (omega arith)
  anchored_head zero a count p s (x ∷ xs) h e long = h.3 (omega arith)
  anchored_head (suc n) a count p s (x ∷ xs) h e long =
      anchored_head n a (count + 1) x.event_hash (some x.created_at) xs h.4 (omega arith)
        (omega arith)

  All-take : (n : ℕ) (xs : List EventRecord) → All IsPlain xs → All IsPlain (take n xs)
  All-take zero xs h = tt
  All-take (suc n) [] h = tt
  All-take (suc n) (x ∷ xs) h = (h.0, All-take n xs h.1)

  length-take_le : (n : ℕ) (xs : List EventRecord) → n ≤ length xs → length (take n xs) ≡ n
  length-take_le zero xs h = refl
  length-take_le (suc n) [] h = absurd (omega arith)
  length-take_le (suc n) (x ∷ xs) h = ap suc (length-take_le n xs (omega arith))

  -- The events of one profile in a history.
  abbrev pub chain_of : ℕ → List EventRecord → List EventRecord
  chain_of pid = keep (own pid)

  anchored_chain :
      (pid : ℕ) (a : Anchor) (xs : List EventRecord)
      → 0 < a.length
      → (verify_chain sha256 ((pid, a) ∷ []) xs).errors ≡ []
      → Linked sha256 (some a) 0 genesis_hash none (chain_of pid xs)
        × (head_after genesis_hash (take a.length (chain_of pid xs)) ≡ a.head_hash)
        × (a.length ≤ length (chain_of pid xs))
  unfolding lookup
  anchored_chain pid a xs pos ex =
      let (linked, long) = (verify_chain-ok_iff sha256 ((pid, a) ∷ []) xs).0 ex in
      let found : lookup pid ((pid, a) ∷ []) ≡ some a = ground arith in
      let link = rw found at (linked pid) in
      let e : a.length ≡ suc (a.length - 1) = omega arith in
      let head =
        anchored_head (a.length - 1) a 0 genesis_hash none (chain_of pid xs) link (omega arith)
          (omega arith) in
      (link, rw (← e) at head, long.0)

  -- Two histories that both verify without error against one anchor of a profile hold, for that
  -- profile and up to the anchored length, the same events with the same contents, or else they
  -- exhibit two different texts with one SHA-256 hash. Payloads are without floating-point numbers,
  -- as `_check_value` demands.
  pub anchored_history :
      (pid : ℕ) (a : Anchor) (xs ys : List EventRecord)
      → 0 < a.length
      → (verify_chain sha256 ((pid, a) ∷ []) xs).errors ≡ []
      → (verify_chain sha256 ((pid, a) ∷ []) ys).errors ≡ []
      → All IsPlain (chain_of pid xs)
      → All IsPlain (chain_of pid ys)
      → SameAll (take a.length (chain_of pid xs)) (take a.length (chain_of pid ys))
        ⊎ Collision sha256
  anchored_history pid a xs ys pos ex ey px py =
      let e : a.length ≡ suc (a.length - 1) = omega arith in
      let (lx, hx, long_x) = anchored_chain pid a xs pos ex in
      let (ly, hy, long_y) = anchored_chain pid a ys pos ey in
      let same =
        same_chain (some a) (some a) 0 0 genesis_hash genesis_hash none none
          (take a.length (chain_of pid xs)) (take a.length (chain_of pid ys))
          (Linked-take a.length (some a) 0 genesis_hash none (chain_of pid xs) lx)
          (Linked-take a.length (some a) 0 genesis_hash none (chain_of pid ys) ly)
          (All-take a.length (chain_of pid xs) px) (All-take a.length (chain_of pid ys) py)
          (length-take_le a.length _ long_x ∙ sym (length-take_le a.length _ long_y))
          (hx ∙ sym hy) in
      elim same [ inl s ↦ inl s.0 | inr c ↦ inr c ]

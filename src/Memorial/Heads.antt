-- ===== src/Memorial/Heads.antt =====
-- The heads of a checkpoint, of `verify_history` in remembrance/consent.py: what is written is read
-- back, and what holds of each memorial's events and head.
use the_st.Prelude.{
  ◌≤◌, ◌≡◌, refl, Bool, true, ◌&&◌, List, [], ◌∷◌, some, arith, Text, text_eq, text_eq_iff,
  text_eq_refl, any, all, leb, All, Bool-cases, inl, inr, ◌==◌, is_some, and_intro,
}
use the_st.Prelude.Dicts.{TextDict, get, set}
use the_st.Fallible.{ok, ◌>>=◌}
use the_st.Memorial.{Event, is_hex64}
use the_st.Memorial.Ledger.{field}
use the_st.Memorial.History.{
  Head, read_head, read_heads, read_checkpoint, write_heads, write_checkpoint,
}
use the_st.Memorial.Chains.{is_of, own, hits, Agrees, matches}

-- A head that a checkpoint admits.
abbrev pub IsHead : Head → Type 0
IsHead h = (1 ≤ h.sequence) × (is_hex64 h.hash ≡ true)

abbrev pub AreHeads : TextDict Head → Type 0
AreHeads = All λ (mid, h). IsHead h

read_head-write :
    (mid : Text) (h : Head) (heads : TextDict Head)
    → IsHead h
    → read_heads (write_heads heads) ≡ ok heads
    → read_heads (write_heads ((mid, h) ∷ heads)) ≡ ok ((mid, h) ∷ heads)
unfolding read_heads read_head field text_eq ◌>>=◌
read_head-write mid h heads (positive, hex) rest =
    let test : leb 1 h.sequence ≡ true = ground arith in rw (test, hex, rest) refl

read_heads-write :
    (heads : TextDict Head) → AreHeads heads → read_heads (write_heads heads) ≡ ok heads
unfolding read_heads
read_heads-write [] good = refl
read_heads-write ((mid, h) ∷ heads) (g, good) =
    read_head-write mid h heads g (read_heads-write heads good)

-- A checkpoint is read back as it was written.
pub read_checkpoint-write :
    (heads : TextDict Head) → AreHeads heads → read_checkpoint (write_checkpoint heads) ≡ ok heads
unfolding read_checkpoint write_checkpoint field text_eq
read_checkpoint-write heads good = read_heads-write heads good

pub AreHeads-set :
    (mid : Text) (h : Head) (heads : TextDict Head)
    → IsHead h
    → AreHeads heads
    → AreHeads (set mid h heads)
unfolding set
AreHeads-set mid h [] g good = (g, tt)
AreHeads-set mid h ((m, k) ∷ heads) g good = elim (Bool-cases (text_eq mid m)) [
  | inl e ↦ rw e (g, good.1)
  | inr e ↦ rw e (good.0, AreHeads-set mid h heads g good.1)
]

-- What holds of every memorial's events holds of all.
pub All-own :
    (P : Event → Type 0) (rows : List Event)
    → ((mid : Text) → All (λ e. mid ≡ e.memorial_id → P e) (own mid rows))
    → All P rows
All-own P [] h = tt
All-own P (e ∷ es) h = (
  (rw (text_eq_refl e.memorial_id) at (h e.memorial_id)).0 refl,
  All-own P es λ mid. elim (Bool-cases (is_of mid e)) [
    | inl mine ↦ (rw mine at (h mid)).1
    | inr other ↦ rw other at (h mid)
  ],
)

pub All-always : {P : Event → Type 0} (xs : List Event) → ((x : Event) → P x) → All P xs
All-always [] h = tt
All-always (x ∷ xs) h = (h x, All-always xs h)

pub any-own :
    (expected : TextDict Head) (mid : Text) (rows : List Event)
    → any (matches expected mid) rows ≡ any (hits (get mid expected)) (own mid rows)
any-own expected mid [] = refl
any-own expected mid (e ∷ es) = elim (Bool-cases (is_of mid e)) [
  | inl mine ↦
      let same : mid ≡ e.memorial_id = (text_eq_iff mid e.memorial_id).0 mine in
      rw (mine, any-own expected mid es, ← same) refl
  | inr other ↦ rw (other, any-own expected mid es) refl
]

-- A test of the keys of a dict that holds of every key that is found.
pub all-keys :
    (test : Text → Bool) (d : TextDict Head)
    → ((mid : Text) → is_some (get mid d) ≡ true → test mid ≡ true)
    → all (λ (mid, h). test mid) d ≡ true
unfolding get
all-keys test [] h = refl
all-keys test ((k, v) ∷ d) h =
    and_intro (h k (ground (arith, text_eq_refl k)))
      (all-keys test d λ mid found. h mid (ground (arith, found)))

pub key-all :
    (test : Text → Bool) (d : TextDict Head) (mid : Text) (h : Head)
    → all (λ (m, k). test m) d ≡ true
    → get mid d ≡ some h
    → test mid ≡ true
unfolding get
key-all test [] mid h a e = absurd (ground arith)
key-all test ((k, v) ∷ d) mid h a e = elim (Bool-cases (text_eq mid k)) [
  | inl same ↦ let eq : mid ≡ k = (text_eq_iff mid k).0 same in rw eq (ground arith)
  | inr other ↦ key-all test d mid h (ground arith) (rw other at e)
]

pub own-All :
    (expected : TextDict Head) (mid : Text) (h : Head) (rows : List Event)
    → get mid expected ≡ some h
    → All (Agrees expected) rows
    → All (λ e. e.sequence ≡ h.sequence → e.event_hash ≡ h.hash) (own mid rows)
own-All expected mid h [] found a = tt
own-All expected mid h (e ∷ es) found (a, as_) = elim (Bool-cases (is_of mid e)) [
  | inl mine ↦
      let same : mid ≡ e.memorial_id = (text_eq_iff mid e.memorial_id).0 mine in
      rw mine (a h (rw same at found), own-All expected mid h es found as_)
  | inr other ↦ rw other (own-All expected mid h es found as_)
]

pub any-both :
    (h : Head) (es : List Event)
    → any (hits (some h)) es ≡ true
    → All (λ e. e.sequence ≡ h.sequence → e.event_hash ≡ h.hash) es
    → any (λ e. e.sequence == h.sequence && text_eq e.event_hash h.hash) es ≡ true
any-both h [] hit a = absurd (ground arith)
any-both h (e ∷ es) hit (a, as_) = elim (Bool-cases (e.sequence == h.sequence)) [
  | inl same ↦
      let hash = (text_eq_iff e.event_hash h.hash).1 (a (ground arith)) in
      ground (arith, same, hash)
  | inr other ↦ let rest = any-both h es (ground arith) as_ in ground (arith, other, rest)
]

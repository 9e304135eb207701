-- ===== src/Memorial/Reread.antt =====
-- The ledger's file that `erase` of remembrance/erasure.py leaves, read again.
use mathlib.Core.List.{append-nil}
use the_st.Prelude.{
  ℕ, ◌≡◌, refl, ap, ◌⊎◌, inl, inr, Bool, true, false, List, [], ◌∷◌, ◌++◌, some, Text, codes,
  Option-cases, is_some,
}
use the_st.Fallible.{ok, fail, ◌>>=◌, Post, Post-ok, Post-bind, Post-guard}
use the_st.Memorial.{Platform, Try, is_hex64}
use the_st.Memorial.Consent.{operator_identity}
use the_st.Memorial.Ledger.{
  Entry, Reader, entry_for, is_memorial_id, starts_with, checked_ledger, open_ledger, next_entry,
  line_of,
}
use the_st.Memorial.Erasures.{apply}
use the_st.Memorial.Erase.{
  Machine, commit, contents, review, erase, erase_identified, erase_opened, erase_reviewed,
  erase_entry,
}
use the_st.Memorial.Reopened.{Faithful, Appended, append, open_ledger-Appended}
use the_st.Memorial.Written.{commit-ledger}

module _ (sha256 : Text → Text) (r : Reader) where
  -- What an operator's identity is.
  abbrev Identifies : Text × Text → Type 0
  Identifies (actor, evidence) =
      (starts_with (codes "operator:") actor ≡ true) × ((t : Text) × (evidence ≡ sha256 t))

  identity-Identifies :
      (u : Platform) (reviewer reference : Text) (path data_dir : List Text)
      → Post Identifies (
          operator_identity sha256 u reviewer reference >>= λ who.
          checked_ledger path data_dir >>= λ _. ok who)
  identity-Identifies u reviewer reference path data_dir = Post-bind λ who identified.
      Post-bind
        λ _ _. Post-ok ((operator_identity-Identifies u reviewer reference).holds who identified)
    where
      operator_identity-Identifies :
          (u : Platform) (reviewer reference : Text)
          → Post Identifies (operator_identity sha256 u reviewer reference)
      operator_identity-Identifies u reviewer reference =
          unfold operator_identity in
          Post-guard _ _ λ _. Post-guard _ _ λ _. Post-ok (refl, (_, refl))

  -- The ledger that is left: the one before, or with one more entry.
  abbrev Extended : Text → List Entry → Machine → Type 0
  Extended mid entries m =
      (more : List Entry) × ((more ≡ []) ⊎ ((e : Entry) × (more ≡ e ∷ []) × (e.memorial_id ≡ mid)))
      × Appended sha256 r (entries ++ more) (contents m.ledger)

  unchanged :
      (mid : Text) (entries : List Entry) (m m' : Machine)
      → contents m'.ledger ≡ contents m.ledger
      → Appended sha256 r entries (contents m.ledger)
      → Extended mid entries m'
  unchanged mid entries m m' same a = ([], inl refl, rw (same, append-nil entries) a)

  erase_entry-Extended :
      (clock : ℕ → Text) (mid actor evidence : Text) (entries : List Entry) (m : Machine)
      → Faithful sha256 r
      → is_memorial_id mid ≡ true
      → r.is_datetime (clock 0) ≡ true
      → Identifies (actor, evidence)
      → Appended sha256 r entries (contents m.ledger)
      → Extended mid entries
          ((erase_entry sha256 clock mid actor evidence entries (entry_for mid entries) m).0)
  unfolding erase_entry
  erase_entry-Extended clock mid actor evidence entries m faithful id time (operator, (t, digest))
        a =
      elim (Option-cases (entry_for mid entries)) [
        | inr (e, eq) ↦
            rw (eq, erase_entry)
              (unchanged mid entries m
                ((commit (apply sha256 (clock 0) (clock 1) e true m.world) m).0)
                (ap contents (commit-ledger (apply sha256 (clock 0) (clock 1) e true m.world) m)) a)
        | inl eq ↦
            let e = next_entry sha256 (clock 0) mid actor evidence entries in
            let new : is_some (entry_for mid entries) ≡ false = ap is_some eq in
            let hex : is_hex64 evidence ≡ true = rw digest (faithful.hex t) in
            rw (eq, erase_entry)
              (
                e ∷ [],
                inr (e, refl, unfold next_entry in refl),
                rw
                    (commit-ledger (apply sha256 (clock 1) (clock 2) e false m.world)
                      (record m { ledger = some (contents m.ledger ++ line_of e) }))
                    (append (clock 0) mid actor evidence a new id operator hex time),
              )
      ]

  erase_reviewed-Extended :
      (clock : ℕ → Text) (mid actor evidence : Text) (entries : List Entry) (b : Try Bool)
      (m : Machine)
      → Faithful sha256 r
      → is_memorial_id mid ≡ true
      → r.is_datetime (clock 0) ≡ true
      → Identifies (actor, evidence)
      → Appended sha256 r entries (contents m.ledger)
      → Extended mid entries ((erase_reviewed sha256 clock mid actor evidence entries b m).0)
  unfolding erase_reviewed
  erase_reviewed-Extended clock mid actor evidence entries (fail e) m faithful id time who a =
      unchanged mid entries m m refl a
  erase_reviewed-Extended clock mid actor evidence entries (ok false) m faithful id time who a =
      unchanged mid entries m m refl a
  erase_reviewed-Extended clock mid actor evidence entries (ok true) m faithful id time who a =
      erase_entry-Extended clock mid actor evidence entries m faithful id time who a

  erase_identified-Extended :
      (clock : ℕ → Text) (mid owner_id : Text) (who : Try (Text × Text)) (entries : List Entry)
      (m : Machine)
      → Faithful sha256 r
      → is_memorial_id mid ≡ true
      → r.is_datetime (clock 0) ≡ true
      → Post Identifies who
      → Appended sha256 r entries (contents m.ledger)
      → Extended mid entries ((erase_identified sha256 r clock mid owner_id who m).0)
  unfolding erase_identified erase_opened
  erase_identified-Extended clock mid owner_id (fail e) entries m faithful id time who a =
      unchanged mid entries m m refl a
  erase_identified-Extended clock mid owner_id (ok (actor, evidence)) entries m faithful id time who
        a =
      let raw = contents m.ledger in
      rw (open_ledger-Appended sha256 r faithful a) (
        erase_reviewed-Extended clock mid actor evidence entries
          (review entries mid owner_id m.world.site) (record m { ledger = some raw }) faithful id
          time (who.holds (actor, evidence) refl) a)

  -- From a ledger that is empty, or whose file was written by calls of `append` that were each for a
  -- memorial without an entry, with an id of the form that `_verify` wants, an actor that starts with
  -- `operator:`, evidence of 64 hexadecimal digits and a time that `datetime.fromisoformat` takes:
  -- however a call of `erase` ends, the file it leaves is again such a one, from which
  -- `Ledger.__init__` reads without an error the entries that were there, followed by at most one
  -- more, which is of the memorial of the call. The conditions are that the id of that memorial has
  -- that form, that `datetime.fromisoformat` takes the first reading of the clock, that `json.loads`
  -- undoes `json.dumps`, and that SHA-256 gives 64 hexadecimal digits.
  pub erase-reopens :
      (u : Platform) (clock : ℕ → Text) (mid owner_id reviewer reference : Text)
      (path data_dir : List Text) (m : Machine) (entries : List Entry)
      → Faithful sha256 r
      → is_memorial_id mid ≡ true
      → r.is_datetime (clock 0) ≡ true
      → Appended sha256 r entries (contents m.ledger)
      → (more : List Entry) × ((more ≡ [])
          ⊎ ((e : Entry) × (more ≡ e ∷ []) × (e.memorial_id ≡ mid)))
        × Appended sha256 r (entries ++ more) (
            contents
              (erase sha256 u r clock mid owner_id reviewer reference path data_dir m).0.ledger)
        × (open_ledger sha256 r (
              contents
                (erase sha256 u r clock mid owner_id reviewer reference path data_dir m).0.ledger)
            ≡ ok (entries ++ more))
  unfolding erase
  erase-reopens u clock mid owner_id reviewer reference path data_dir m entries faithful id time a =
      let (more, one, written) =
        erase_identified-Extended clock mid owner_id _ entries m faithful id time
          (identity-Identifies u reviewer reference path data_dir) a in
      (more, one, written, open_ledger-Appended sha256 r faithful written)

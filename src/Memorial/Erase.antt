-- ===== src/Memorial/Erase.antt =====
-- `erase`, `reapply` and `create_ledger` of remembrance/erasure.py, with the file of the ledger. The
-- stages of `erase` are functions of what the stage before has given, since the ledger keeps what
-- has been written to it when a later stage fails.
use the_st.Prelude.{
  ℕ, Bool, true, false, not, List, [], ◌++◌, Option, none, some, Text, text_eq, ◌==◌, length,
  is_some,
}
use the_st.Fallible.{ok, fail, ◌>>=◌, ◌>>◌, raise_if, or_fail}
use the_st.Memorial.{Platform, Site, MemorialError, Try, find_memorial}
use the_st.Memorial.Consent.{operator_identity}
use the_st.Memorial.Ledger.{
  Entry, Reader, entry_for, checked_ledger, open_ledger, next_entry, line_of,
}
use the_st.Memorial.Erasures.{
  World, Summary, is_registered, check_registry, apply, reapply, reapply_check,
}

-- The ledger's file, none where there is no such file.
pub record Machine : Type 0 where
  pub world : World
  pub ledger : Option Text

-- `os.O_CREAT`.
abbrev pub contents : Option Text → Text
contents none = []
contents (some raw) = raw

-- The tests of `erase` in its transaction: whether there is anything to erase.
unfoldable pub review : List Entry → Text → Text → Site → Try Bool
review entries mid owner_id site = do
  check_registry entries site.erasures
  elim (find_memorial mid site) [
    | none ↦ raise_if (not (is_registered mid site)) MemorialError.no_memorial >> ok false
    | some memorial ↦
        raise_if (not (text_eq memorial.owner_id owner_id)) MemorialError.case_differs >> ok true
  ]

-- The end of the transaction.
abbrev pub commit : Try World → Machine → Machine × Try Bool
commit (ok w) m = (record m { world = w }, ok true)
commit (fail e) m = (m, fail e)

module _ (sha256 : Text → Text) where
  -- The entry, from the ledger or new, and the erasure.
  unfoldable pub erase_entry :
      (ℕ → Text) → Text → Text → Text → List Entry → Option Entry → Machine → Machine × Try Bool
  erase_entry clock mid actor evidence entries (some e) m =
      commit (apply sha256 (clock 0) (clock 1) e true m.world) m
  erase_entry clock mid actor evidence entries none m =
      let e = next_entry sha256 (clock 0) mid actor evidence entries in
      commit (apply sha256 (clock 1) (clock 2) e false m.world)
        (record m { ledger = some (contents m.ledger ++ line_of e) })

  unfoldable pub erase_reviewed :
      (ℕ → Text) → Text → Text → Text → List Entry → Try Bool → Machine → Machine × Try Bool
  erase_reviewed clock mid actor evidence entries (fail error) m = (m, fail error)
  erase_reviewed clock mid actor evidence entries (ok false) m = (m, ok false)
  erase_reviewed clock mid actor evidence entries (ok true) m =
      erase_entry clock mid actor evidence entries (entry_for mid entries) m

  unfoldable pub erase_opened :
      (ℕ → Text) → Text → Text → Text → Text → Try (List Entry) → Machine → Machine × Try Bool
  erase_opened clock mid owner_id actor evidence (fail error) m = (m, fail error)
  erase_opened clock mid owner_id actor evidence (ok entries) m =
      erase_reviewed clock mid actor evidence entries (review entries mid owner_id m.world.site) m

  unfoldable pub erase_identified :
      Reader → (ℕ → Text) → Text → Text → Try (Text × Text) → Machine → Machine × Try Bool
  erase_identified r clock mid owner_id (fail error) m = (m, fail error)
  erase_identified r clock mid owner_id (ok (actor, evidence)) m =
      let raw = contents m.ledger in
      erase_opened clock mid owner_id actor evidence (open_ledger sha256 r raw)
        (record m { ledger = some raw })

  -- Whether the memorial was erased by this call.
  unfoldable pub erase :
      Platform
      → Reader
      → (ℕ → Text)
      → Text
      → Text
      → Text
      → Text
      → List Text
      → List Text
      → Machine
      → Machine × Try Bool
  erase u r clock mid owner_id reviewer reference ledger_path data_dir m =
      erase_identified r clock mid owner_id
        (operator_identity sha256 u reviewer reference >>= λ who.
          checked_ledger ledger_path data_dir >>= λ _. ok who)
        m

  -- The entries of the ledger, which must be there.
  unfoldable pub open_existing : Reader → List Text → List Text → Option Text → Try (List Entry)
  open_existing r ledger_path data_dir file = do
    _ ← checked_ledger ledger_path data_dir
    raw ← or_fail file MemorialError.no_ledger
    open_ledger sha256 r raw

  -- `reapply` and `reapply(check=True)`, with the ledger's file.
  unfoldable pub reapply_ledger :
      Reader → (ℕ → Text) → List Text → List Text → Machine → Machine × Try Summary
  reapply_ledger r clock ledger_path data_dir m =
      elim (open_existing r ledger_path data_dir m.ledger) [
        | fail error ↦ (m, fail error)
        | ok entries ↦
            let (w, summary) = reapply sha256 clock entries m.world in
            (record m { world = w }, summary)
      ]

  unfoldable pub check_ledger : Reader → List Text → List Text → Machine → Try (List Text)
  check_ledger r ledger_path data_dir m =
      open_existing r ledger_path data_dir m.ledger >>= λ entries. reapply_check entries m.world

-- The machine with an empty ledger, where there was none.
unfoldable pub create_ledger : List Text → List Text → Machine → Try Machine
create_ledger ledger_path data_dir m = do
  _ ← checked_ledger ledger_path data_dir
  raise_if (not (length m.world.site.erasures == 0)) MemorialError.has_erasures
  raise_if (is_some m.ledger) MemorialError.ledger_exists
  ok (record m { ledger = some [] })

-- ===== src/Memorial/Finished.antt =====
-- What `erase` of remembrance/erasure.py has done when it returns true.
use the_st.Prelude.{
  ℕ, ◌≡◌, ap, Bool, true, false, List, [], ◌∷◌, some, Text, codes, text_eq_iff, any, mem_text,
  Option-cases, inl, inr,
}
use the_st.Fallible.{ok, fail, Fallible-cases}
use the_st.Memorial.{Platform, Event, Try}
use the_st.Memorial.Rows.{find-passes}
use the_st.Memorial.Ledger.{Entry, Reader, entry_for, next_entry}
use the_st.Memorial.Erasures.{World, apply, filenames_of, is_registered}
use the_st.Memorial.Erase.{
  Machine, commit, contents, erase, erase_identified, erase_opened, erase_reviewed, erase_entry,
}
use the_st.Memorial.Erased.{Gone, apply-Applied}

module _ (sha256 : Text → Text) where
  -- What an erasure leaves of a memorial.
  pub record Erased (mid : Text) (w w' : World) : Type 0 where
    pub gone : Gone mid w'.site
    pub registered : is_registered mid w'.site ≡ true
    pub files : any (λ f. mem_text f (filenames_of mid w.site)) w'.files ≡ false
    pub history :
        (event : Event) × (w'.site.history ≡ event ∷ w.site.history)
        × (event.memorial_id ≡ mid)
        × (event.event_type ≡ codes "memorial_erased")

  commit-Erased :
      (now later : Text) (e : Entry) (reapplied : Bool) (m m' : Machine)
      → commit (apply sha256 now later e reapplied m.world) m ≡ (m', ok true)
      → Erased e.memorial_id m.world m'.world
  commit-Erased now later e reapplied m m' run =
      elim (Fallible-cases (apply sha256 now later e reapplied m.world)) [
        | inl (error, eq) ↦ absurd (let stop = rw eq at run in cc (ap (λ x. x.1) stop))
        | inr (w, eq) ↦
            let a = (apply-Applied sha256 [] now later e reapplied m.world).holds w eq in
            let done : w ≡ m'.world = ap (λ x. x.0.world) (rw eq at run) in
            rw (← done) (record {
              gone = a.gone;
              registered = a.settled.1;
              files = a.files;
              history = a.history;
            })
      ]

  erase_entry-Erased :
      (clock : ℕ → Text) (mid actor evidence : Text) (entries : List Entry) (m m' : Machine)
      → erase_entry sha256 clock mid actor evidence entries (entry_for mid entries) m
        ≡ (m', ok true)
      → Erased mid m.world m'.world
  unfolding erase_entry next_entry entry_for
  erase_entry-Erased clock mid actor evidence entries m m' run =
      elim (Option-cases (entry_for mid entries)) [
        | inl e ↦ commit-Erased _ _ _ false _ m' (rw (e, erase_entry) at run)
        | inr (x, e) ↦
            let same : x.memorial_id ≡ mid =
              (text_eq_iff x.memorial_id mid).0 (find-passes _ entries x e) in
            rw (← same) (commit-Erased _ _ x true m m' (rw (e, erase_entry) at run))
      ]

  erase_reviewed-Erased :
      (clock : ℕ → Text) (mid actor evidence : Text) (entries : List Entry) (go : Try Bool)
      (m m' : Machine)
      → erase_reviewed sha256 clock mid actor evidence entries go m ≡ (m', ok true)
      → Erased mid m.world m'.world
  unfolding erase_reviewed
  erase_reviewed-Erased clock mid actor evidence entries (ok true) m m' run =
      erase_entry-Erased clock mid actor evidence entries m m' run
  erase_reviewed-Erased clock mid actor evidence entries (ok false) m m' run =
      absurd (cc (ap (λ x. x.1) run))
  erase_reviewed-Erased clock mid actor evidence entries (fail e) m m' run =
      absurd (cc (ap (λ x. x.1) run))

  erase_opened-Erased :
      (clock : ℕ → Text) (mid owner_id actor evidence : Text) (entries : Try (List Entry))
      (m m' : Machine)
      → erase_opened sha256 clock mid owner_id actor evidence entries m ≡ (m', ok true)
      → Erased mid m.world m'.world
  unfolding erase_opened
  erase_opened-Erased clock mid owner_id actor evidence (ok entries) m m' run =
      erase_reviewed-Erased clock mid actor evidence entries _ m m' run
  erase_opened-Erased clock mid owner_id actor evidence (fail e) m m' run =
      absurd (cc (ap (λ x. x.1) run))

  erase_identified-Erased :
      (r : Reader) (clock : ℕ → Text) (mid owner_id : Text) (who : Try (Text × Text))
      (m m' : Machine)
      → erase_identified sha256 r clock mid owner_id who m ≡ (m', ok true)
      → Erased mid m.world m'.world
  unfolding erase_identified
  erase_identified-Erased r clock mid owner_id (ok (actor, evidence)) m m' run =
      erase_opened-Erased clock mid owner_id actor evidence _
        (record m { ledger = some (contents m.ledger) }) m' run
  erase_identified-Erased r clock mid owner_id (fail e) m m' run = absurd (cc (ap (λ x. x.1) run))

  -- When `erase` returns true, no table of content has a row of the memorial, the erasure is on
  -- record, none of the memorial's media files is left, and the history has gained one event, which
  -- says that the memorial was erased, and lost none.
  pub erase-Erased :
      (u : Platform) (r : Reader) (clock : ℕ → Text) (mid owner_id reviewer reference : Text)
      (path data_dir : List Text) (m m' : Machine)
      → erase sha256 u r clock mid owner_id reviewer reference path data_dir m ≡ (m', ok true)
      → Erased mid m.world m'.world
  unfolding erase
  erase-Erased u r clock mid owner_id reviewer reference path data_dir m m' run =
      erase_identified-Erased r clock mid owner_id _ m m' run

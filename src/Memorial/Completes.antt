-- ===== src/Memorial/Completes.antt =====
-- That `reapply` of remembrance/erasure.py comes to its end.
use the_st.Prelude.{
  ℕ, suc, ◌≡◌, refl, Bool, true, false, List, [], ◌∷◌, map, Option, some, arith, Text, text_eq,
  text_eq_iff, text_eq_refl, any, keep, Bool-cases, Option-cases, inl, inr, All, length, ◌==◌,
}
use the_st.Fallible.{ok, Post, Post-bind, Returns, Returns-ok, Returns-bind, Returns-guard}
use the_st.Memorial.{Erasure, Medium, Site}
use the_st.Memorial.Rows.{find-passes}
use the_st.Memorial.Consent.{append_event}
use the_st.Memorial.Ledger.{Entry, Reader, entry_for}
use the_st.Memorial.Erasures.{
  World, Summary, is_unsafe, delete_rows, is_erasure_of, is_registered, exists_memorial, register,
  is_same, is_recorded, apply, reapply_entry, reapply_entries, reapply,
}
use the_st.Memorial.Erase.{Machine, open_existing, reapply_ledger}
use the_st.Memorial.Erased.{AllRecorded, SafeMedia, reapply_entry-Settled}
use the_st.Memorial.Entries.{Numbered, Numbered-same, open_ledger-Numbered}
use the_st.Memorial.Reapplied.{open_existing-Indexed, check_registry-ok}

-- No row of `erasures` has the sequence of an entry whose memorial is not on record.
fresh_sequence :
    (entries : List Entry) (e : Entry) (rows : List Erasure)
    → Numbered 1 entries
    → entry_for e.memorial_id entries ≡ some e
    → All (λ row. is_recorded entries row ≡ true) rows
    → any (is_erasure_of e.memorial_id) rows ≡ false
    → any (λ row. row.ledger_sequence == e.sequence) rows ≡ false
unfolding entry_for
fresh_sequence entries e [] numbered found recorded new = refl
fresh_sequence entries e (row ∷ rows) numbered found (known, recorded) new =
    elim (Bool-cases (row.ledger_sequence == e.sequence)) [
      | inr other ↦ rw other (fresh_sequence entries e rows numbered found recorded (ground arith))
      | inl same ↦ absurd (elim (Option-cases (entry_for row.memorial_id entries)) [
        | inl none_ ↦ let bad = rw none_ at known in ground arith
        | inr (d, found_d) ↦
            let held : is_same (some d) row ≡ true = rw found_d at known in
            let sequence : d.sequence ≡ e.sequence = ground arith in
            let eq : d ≡ e = Numbered-same 1 _ _ entries d e numbered found_d found sequence in
            let mine : d.memorial_id ≡ row.memorial_id =
              (text_eq_iff d.memorial_id row.memorial_id).0 (find-passes _ entries d found_d) in
            let here = text_eq_refl row.memorial_id in
            let there : text_eq row.memorial_id e.memorial_id ≡ true = rw (← eq) (rw mine here) in
            ground arith
      ])
    ]

register-Returns :
    (entries : List Entry) (now : Text) (e : Entry) (site : Site)
    → Numbered 1 entries
    → entry_for e.memorial_id entries ≡ some e
    → AllRecorded entries site
    → Returns (register now e site)
unfolding register is_registered
register-Returns entries now e site numbered found recorded =
    elim (Bool-cases (is_registered e.memorial_id site)) [
      | inl old ↦ rw old Returns-ok
      | inr new ↦ rw new (
          Returns-guard _ _ (fresh_sequence entries e site.erasures numbered found recorded new)
            Returns-ok)
    ]

safe_filenames :
    (mid : Text) (media : List Medium)
    → All (λ m. is_unsafe m.filename ≡ false) media
    → any is_unsafe (map (λ m. m.filename) (keep (λ m. text_eq m.memorial_id mid) media)) ≡ false
safe_filenames mid [] h = refl
safe_filenames mid (m ∷ media) (safe, h) = ground (arith, safe, safe_filenames mid media h)

module _ (sha256 : Text → Text) where
  apply-Returns :
      (entries : List Entry) (now later : Text) (e : Entry) (reapplied : Bool) (w : World)
      → Numbered 1 entries
      → entry_for e.memorial_id entries ≡ some e
      → AllRecorded entries w.site
      → SafeMedia w.site
      → Returns (apply sha256 now later e reapplied w)
  unfolding apply append_event delete_rows
  apply-Returns entries now later e reapplied w numbered found recorded safe =
      Returns-guard _ _ (safe_filenames e.memorial_id w.site.media safe) (
        Returns-bind (register-Returns entries later e _ numbered found recorded)
          λ site _. Returns-ok)

  reapply_entry-Returns :
      (entries : List Entry) (now later : Text) (e : Entry) (w : World) (s : Summary)
      → Numbered 1 entries
      → entry_for e.memorial_id entries ≡ some e
      → AllRecorded entries w.site
      → SafeMedia w.site
      → Returns (reapply_entry sha256 now later e (w, s))
  unfolding reapply_entry
  reapply_entry-Returns entries now later e w s numbered found recorded safe =
      elim (Bool-cases (exists_memorial e.memorial_id w.site)) [
        | inl here ↦ rw here (
            Returns-bind (apply-Returns entries now later e true w numbered found recorded safe)
              λ w' _. Returns-ok)
        | inr away ↦ rw away (elim (Bool-cases (is_registered e.memorial_id w.site)) [
          | inl old ↦ rw old Returns-ok
          | inr new ↦ rw new (
              Returns-bind (register-Returns entries now e w.site numbered found recorded)
                λ site _. Returns-ok)
        ])
      ]

  reapply_entries-ends :
      (entries : List Entry) (clock : ℕ → Text) (n : ℕ) (es : List Entry) (w : World) (s : Summary)
      → Numbered 1 entries
      → All (λ e. entry_for e.memorial_id entries ≡ some e) es
      → AllRecorded entries w.site
      → SafeMedia w.site
      → (w' : World) × (s' : Summary) × (reapply_entries sha256 clock n es (w, s) ≡ (w', ok s'))
  unfolding reapply_entries
  reapply_entries-ends entries clock n [] w s numbered found recorded safe = (w, s, refl)
  reapply_entries-ends entries clock n (e ∷ es) w s numbered (f, fs) recorded safe =
      let one =
        reapply_entry-Returns entries (clock n) (clock (suc n)) e w s numbered f recorded safe in
      let (settled, (stays, keeps, clean)) =
        (reapply_entry-Settled sha256 entries (clock n) (clock (suc n)) e w s f).holds one.value
          one.returned in
      rw (one.returned, reapply_entries)
        (reapply_entries-ends entries clock (suc (suc n)) es (one.value).0 (one.value).1 numbered fs
          (keeps recorded) (clean safe))

  open_existing-Numbered :
      (r : Reader) (path data_dir : List Text) (file : Option Text)
      → Post (Numbered 1) (open_existing sha256 r path data_dir file)
  unfolding open_existing
  open_existing-Numbered r path data_dir file =
      Post-bind λ _ _. Post-bind λ raw _. open_ledger-Numbered sha256 r raw

  -- `reapply` ends with a summary, and raises nothing, where the ledger opens, holds every erasure
  -- that is on record, and no media file has an unsafe name.
  pub reapply_ledger-completes :
      (r : Reader) (clock : ℕ → Text) (path data_dir : List Text) (m : Machine)
      (entries : List Entry)
      → open_existing sha256 r path data_dir m.ledger ≡ ok entries
      → AllRecorded entries m.world.site
      → SafeMedia m.world.site
      → (m' : Machine) × (s : Summary) × (reapply_ledger sha256 r clock path data_dir m
          ≡ (m', ok s))
  unfolding reapply_ledger reapply
  reapply_ledger-completes r clock path data_dir m entries opens recorded safe =
      let indexed = (open_existing-Indexed sha256 r path data_dir m.ledger).holds entries opens in
      let numbered = (open_existing-Numbered r path data_dir m.ledger).holds entries opens in
      let start : Summary = record { ledger_entries = length entries; erased = 0; recorded = 0 } in
      let (w, s, run) =
        reapply_entries-ends entries clock 0 entries m.world start numbered indexed recorded safe in
      (
        record m { world = w },
        s,
        rw (opens, reapply_ledger)
            (rw (check_registry-ok entries m.world.site recorded, reapply) (rw run refl)),
      )

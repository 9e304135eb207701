-- ===== src/Memorial/Reapplied.antt =====
-- `reapply` of remembrance/erasure.py, and what a check after it reports.
use the_st.Prelude.{
  ℕ, suc, ◌≡◌, refl, ap, true, not, List, [], ◌∷◌, Option, none, some, arith, Text, find,
  Bool-cases, Option-cases, inl, inr, All, length,
}
use the_st.Fallible.{ok, ◌>>=◌, Post, Post-ok, Post-bind, Fallible-cases}
use the_st.Memorial.{Erasure, Site}
use the_st.Memorial.Ledger.{Entry, Reader, entry_for}
use the_st.Memorial.Erasures.{
  World, Summary, is_recorded, check_registry, reapply_entry, reapply_entries, reapply, outstanding,
  reapply_check,
}
use the_st.Memorial.Erase.{Machine, open_existing, reapply_ledger, check_ledger}
use the_st.Memorial.Erased.{Stays, Settled, AllRecorded, Progressed, reapply_entry-Settled}
use the_st.Memorial.Entries.{Indexed, open_ledger-Indexed}

find-none-All :
    (entries : List Entry) (rows : List Erasure)
    → find (λ row. not (is_recorded entries row)) rows ≡ none
    → All (λ row. is_recorded entries row ≡ true) rows
find-none-All entries [] h = tt
find-none-All entries (row ∷ rows) h = elim (Bool-cases (is_recorded entries row)) [
  | inl e ↦ (e, find-none-All entries rows (rw e at h))
  | inr e ↦ absurd (let found = rw e at h in ground (arith, found))
]

All-find-none :
    (entries : List Entry) (rows : List Erasure)
    → All (λ row. is_recorded entries row ≡ true) rows
    → find (λ row. not (is_recorded entries row)) rows ≡ none
All-find-none entries [] h = refl
All-find-none entries (row ∷ rows) (e, h) = rw e (All-find-none entries rows h)

check_registry-AllRecorded :
    (entries : List Entry) (site : Site)
    → Post (λ _. AllRecorded entries site) (check_registry entries site.erasures)
unfolding check_registry
check_registry-AllRecorded entries site =
    elim (Option-cases (find (λ row. not (is_recorded entries row)) site.erasures)) [
      | inl e ↦ rw (e, check_registry) (Post-ok (find-none-All entries site.erasures e))
      | inr (row, e) ↦ rw (e, check_registry) (record { holds = λ a h. absurd (cc h) })
    ]

pub check_registry-ok :
    (entries : List Entry) (site : Site)
    → AllRecorded entries site
    → check_registry entries site.erasures ≡ ok tt
unfolding check_registry
check_registry-ok entries site h = rw (All-find-none entries site.erasures h, check_registry) refl

outstanding-Settled :
    (entries : List Entry) (site : Site)
    → All (Settled site) entries
    → outstanding entries site ≡ []
unfolding outstanding
outstanding-Settled [] site h = refl
outstanding-Settled (e ∷ es) site ((away, registered), h) =
    ground (arith, away, registered, outstanding-Settled es site h)

Settled-Stays :
    (site site' : Site) (e : Entry) → Stays site site' → Settled site e → Settled site' e
Settled-Stays site site' e (away, kept) (a, r) = (away e.memorial_id a, kept e.memorial_id r)

module _ (sha256 : Text → Text) where
  reapply_entries-Settled :
      (entries : List Entry) (clock : ℕ → Text) (n : ℕ) (es : List Entry) (w w' : World)
      (s s' : Summary)
      → All (λ e. entry_for e.memorial_id entries ≡ some e) es
      → reapply_entries sha256 clock n es (w, s) ≡ (w', ok s')
      → All (Settled w'.site) es × Progressed sha256 entries w.site w'.site
  unfolding reapply_entries
  reapply_entries-Settled entries clock n [] w w' s s' found run =
      let same : w ≡ w' = ap (λ x. x.0) run in
      rw same (tt, (((λ m h. h), (λ m h. h)), (λ h. h), λ h. h))
  reapply_entries-Settled entries clock n (e ∷ es) w w' s s' (f, fs) run =
      elim (Fallible-cases (reapply_entry sha256 (clock n) (clock (suc n)) e (w, s))) [
        | inl (error, eq) ↦
            absurd (let stop = rw (eq, reapply_entries) at run in cc (ap (λ x. x.1) stop))
        | inr ((w1, s1), eq) ↦
            let (settled, (stays, recorded, safe)) =
              (reapply_entry-Settled sha256 entries (clock n) (clock (suc n)) e w s f).holds
                (w1, s1) eq in
            let (later, (stays', recorded', safe')) =
              reapply_entries-Settled entries clock (suc (suc n)) es w1 w' s1 s' fs
                (rw (eq, reapply_entries) at run) in
            (
              (Settled-Stays w1.site w'.site e stays' settled, later),
              (
                ((λ m h. stays'.0 m (stays.0 m h)), (λ m h. stays'.1 m (stays.1 m h))),
                (λ h. recorded' (recorded h)),
                λ h. safe' (safe h),
              ),
            )
      ]

  reapply-Settled :
      (clock : ℕ → Text) (entries : List Entry) (w w' : World) (s : Summary)
      → Indexed entries
      → reapply sha256 clock entries w ≡ (w', ok s)
      → All (Settled w'.site) entries × AllRecorded entries w'.site
  unfolding reapply
  reapply-Settled clock entries w w' s indexed run =
      elim (Fallible-cases (check_registry entries w.site.erasures)) [
        | inl (error, eq) ↦ absurd (let stop = rw (eq, reapply) at run in cc (ap (λ x. x.1) stop))
        | inr (u, eq) ↦
            let recorded = (check_registry-AllRecorded entries w.site).holds u eq in
            let (settled, (stays, keeps, safe)) =
              reapply_entries-Settled entries clock 0 entries w w' _ s indexed
                (rw (eq, reapply) at run) in
            (settled, keeps recorded)
      ]

  -- Entries that are settled are passed over.
  reapply_entry-passes :
      (now later : Text) (e : Entry) (w : World) (s : Summary)
      → Settled w.site e
      → reapply_entry sha256 now later e (w, s) ≡ ok (w, s)
  unfolding reapply_entry
  reapply_entry-passes now later e w s (away, registered) = rw (away, registered) refl

  reapply_entries-pass :
      (clock : ℕ → Text) (n : ℕ) (es : List Entry) (w : World) (s : Summary)
      → All (Settled w.site) es
      → reapply_entries sha256 clock n es (w, s) ≡ (w, ok s)
  unfolding reapply_entries
  reapply_entries-pass clock n [] w s h = refl
  reapply_entries-pass clock n (e ∷ es) w s (h, hs) =
      rw (reapply_entry-passes (clock n) (clock (suc n)) e w s h, reapply_entries)
        (reapply_entries-pass clock (suc (suc n)) es w s hs)

  pub open_existing-Indexed :
      (r : Reader) (path data_dir : List Text) (file : Option Text)
      → Post Indexed (open_existing sha256 r path data_dir file)
  unfolding open_existing
  open_existing-Indexed r path data_dir file =
      Post-bind λ _ _. Post-bind λ raw _. open_ledger-Indexed sha256 r raw

  -- What a `reapply` that succeeds leaves: a ledger whose entries are all settled.
  record Finished (r : Reader) (path data_dir : List Text) (m m' : Machine) : Type 0 where
    entries : List Entry
    opens : open_existing sha256 r path data_dir m'.ledger ≡ ok entries
    settled : All (Settled m'.world.site) entries
    recorded : AllRecorded entries m'.world.site

  reapply_ledger-Finished :
      (r : Reader) (clock : ℕ → Text) (path data_dir : List Text) (m m' : Machine) (s : Summary)
      → reapply_ledger sha256 r clock path data_dir m ≡ (m', ok s)
      → Finished r path data_dir m m'
  unfolding reapply_ledger open_existing
  reapply_ledger-Finished r clock path data_dir m m' s run =
      elim (Fallible-cases (open_existing sha256 r path data_dir m.ledger)) [
        | inl (error, eq) ↦
            absurd (let stop = rw (eq, reapply_ledger) at run in cc (ap (λ x. x.1) stop))
        | inr (entries, eq) ↦
            let done = rw (eq, reapply_ledger) at run in
            let indexed = (open_existing-Indexed r path data_dir m.ledger).holds entries eq in
            let (w', summary) = reapply sha256 clock entries m.world in
            let same : record m { world = w' } ≡ m' = ap (λ x. x.0) done in
            let both =
              reapply-Settled clock entries m.world w' s indexed
                (ap (λ t. (w', t)) (ap (λ x. x.1) done)) in
            rw (← same)
              (record { entries = entries; opens = eq; settled = both.0; recorded = both.1 })
      ]

  -- After a `reapply` that raises nothing, a check of the same ledger reports nothing outstanding.
  pub reapply_ledger-check :
      (r : Reader) (clock : ℕ → Text) (path data_dir : List Text) (m m' : Machine) (s : Summary)
      → reapply_ledger sha256 r clock path data_dir m ≡ (m', ok s)
      → check_ledger sha256 r path data_dir m' ≡ ok []
  unfolding check_ledger reapply_check ◌>>=◌
  reapply_ledger-check r clock path data_dir m m' s run =
      let f = reapply_ledger-Finished r clock path data_dir m m' s run in
      rw
        (
          f.opens,
          check_registry-ok f.entries m'.world.site f.recorded,
          outstanding-Settled f.entries m'.world.site f.settled,
        )
        refl

  -- A second `reapply`, whatever its clock shows, erases and records nothing and changes nothing.
  pub reapply_ledger-twice :
      (r : Reader) (clock clock' : ℕ → Text) (path data_dir : List Text) (m m' : Machine)
      (s : Summary)
      → reapply_ledger sha256 r clock path data_dir m ≡ (m', ok s)
      → (k : ℕ) × (reapply_ledger sha256 r clock' path data_dir m'
          ≡ (m', ok (record { ledger_entries = k; erased = 0; recorded = 0 })))
  unfolding reapply_ledger reapply
  reapply_ledger-twice r clock clock' path data_dir m m' s run =
      let f = reapply_ledger-Finished r clock path data_dir m m' s run in
      (
        length f.entries,
        rw (f.opens, reapply_ledger)
            (rw (check_registry-ok f.entries m'.world.site f.recorded, reapply)
              (rw
                (reapply_entries-pass clock' 0 f.entries m'.world
                  (record { ledger_entries = length f.entries; erased = 0; recorded = 0 })
                  f.settled)
                refl)),
      )

-- ===== src/Memorial/Erased.antt =====
-- What `_apply` and `reapply` of remembrance/erasure.py leave in the tables.
use mathlib.Core.Path.{subst}
use the_st.Prelude.{
  ◌≡◌, refl, sym, ap, ◌∙◌, Bool, true, false, not, List, [], ◌∷◌, some, arith, Text, codes, text_eq,
  text_eq_refl, find, any, is_some, Bool-cases, inl, inr, keep, mem_text, All,
}
use the_st.Fallible.{Post, Post-ok, Post-bind, Post-guard}
use the_st.Memorial.{Memorial, Event, Site, find_memorial}
use the_st.Memorial.Rows.{All-keep}
use the_st.Memorial.Consent.{append_event, next_event}
use the_st.Memorial.Ledger.{Entry, entry_for}
use the_st.Memorial.Erasures.{
  World, Summary, is_unsafe, filenames_of, delete_rows, is_registered, exists_memorial, register,
  is_recorded, apply, reapply_entry,
}

any-keep-not :
    {A : Type 0} (test : A → Bool) (xs : List A) → any test (keep (λ x. not (test x)) xs) ≡ false
any-keep-not test [] = refl
any-keep-not test (x ∷ xs) = ground (arith, any-keep-not test xs)

find-any : {A : Type 0} (test : A → Bool) (xs : List A) → is_some (find test xs) ≡ any test xs
find-any test [] = refl
find-any test (x ∷ xs) = ground (arith, find-any test xs)

any-keep-false :
    {A : Type 0} (test kept : A → Bool) (xs : List A)
    → any test xs ≡ false
    → any test (keep kept xs) ≡ false
any-keep-false test kept [] h = refl
any-keep-false test kept (x ∷ xs) h = ground (arith, any-keep-false test kept xs)

-- No table of content has a row of the memorial.
pub record Gone (mid : Text) (site : Site) : Type 0 where
  pub memorials : any (λ m. text_eq m.id mid) site.memorials ≡ false
  pub members : any (λ m. text_eq m.memorial_id mid) site.members ≡ false
  pub media : any (λ m. text_eq m.memorial_id mid) site.media ≡ false
  pub events : any (λ m. text_eq m.memorial_id mid) site.events ≡ false
  pub tributes : any (λ m. text_eq m.memorial_id mid) site.tributes ≡ false
  pub candles : any (λ m. text_eq m.memorial_id mid) site.candles ≡ false
  pub reports : any (λ m. text_eq m.memorial_id mid) site.reports ≡ false
  pub audit : any (λ m. text_eq m.memorial_id mid) site.audit ≡ false
  pub controls : any (λ m. text_eq m.memorial_id mid) site.controls ≡ false
  pub grants : any (λ m. text_eq m.memorial_id mid) site.grants ≡ false
  pub nominations : any (λ m. text_eq m.memorial_id mid) site.nominations ≡ false
  pub erasure_requests : any (λ m. text_eq m.memorial_id mid) site.erasure_requests ≡ false

delete_rows-Gone : (mid : Text) (site : Site) → Gone mid (delete_rows mid site)
unfolding delete_rows
delete_rows-Gone mid site = record {
  memorials = any-keep-not (λ m. text_eq m.id mid) site.memorials;
  members = any-keep-not (λ m. text_eq m.memorial_id mid) site.members;
  media = any-keep-not (λ m. text_eq m.memorial_id mid) site.media;
  events = any-keep-not (λ m. text_eq m.memorial_id mid) site.events;
  tributes = any-keep-not (λ m. text_eq m.memorial_id mid) site.tributes;
  candles = any-keep-not (λ m. text_eq m.memorial_id mid) site.candles;
  reports = any-keep-not (λ m. text_eq m.memorial_id mid) site.reports;
  audit = any-keep-not (λ m. text_eq m.memorial_id mid) site.audit;
  controls = any-keep-not (λ m. text_eq m.memorial_id mid) site.controls;
  grants = any-keep-not (λ m. text_eq m.memorial_id mid) site.grants;
  nominations = any-keep-not (λ m. text_eq m.memorial_id mid) site.nominations;
  erasure_requests = any-keep-not (λ m. text_eq m.memorial_id mid) site.erasure_requests;
}

-- Memorials that are away stay away, and what is registered stays so.
abbrev pub Stays : Site → Site → Type 0
Stays site site' =
    ((m : Text) → exists_memorial m site ≡ false → exists_memorial m site' ≡ false)
    × ((m : Text) → is_registered m site ≡ true → is_registered m site' ≡ true)

-- The erasure of an entry is done and on record.
abbrev pub Settled : Site → Entry → Type 0
Settled site e =
    (exists_memorial e.memorial_id site ≡ false) × (is_registered e.memorial_id site ≡ true)

-- Every row of `erasures` stands in the ledger.
abbrev pub AllRecorded : List Entry → Site → Type 0
AllRecorded entries site = All (λ row. is_recorded entries row ≡ true) site.erasures

-- No file of the media is unsafe to delete.
abbrev pub SafeMedia : Site → Type 0
SafeMedia site = All (λ m. is_unsafe m.filename ≡ false) site.media

-- What `register` does: the row of the entry, and nothing else.
abbrev pub Registered : List Entry → Entry → Site → Site → Type 0
Registered entries e site site' =
    (site' ≡ record site { erasures = site'.erasures })
    × (is_registered e.memorial_id site' ≡ true)
    × ((m : Text) → is_registered m site ≡ true → is_registered m site' ≡ true)
    × (entry_for e.memorial_id entries ≡ some e
        → AllRecorded entries site
        → AllRecorded entries site')

pub register-Registered :
    (entries : List Entry) (now : Text) (e : Entry) (site : Site)
    → Post (Registered entries e site) (register now e site)
unfolding register is_registered
register-Registered entries now e site = elim (Bool-cases (is_registered e.memorial_id site)) [
  | inl old ↦ rw old (Post-ok (refl, old, (λ m h. h), λ found all_. all_))
  | inr new ↦ rw new (
      Post-guard _ _ λ _. Post-ok (
        refl,
        ground (arith, text_eq_refl e.memorial_id),
        (λ m h. ground (arith, h)),
        λ found all_. (rw found (ground (arith, text_eq_refl e.entry_hash)), all_),
      ))
]

delete_rows-Stays :
    (mid : Text) (site : Site) (m : Text)
    → exists_memorial m site ≡ false
    → exists_memorial m (delete_rows mid site) ≡ false
unfolding delete_rows exists_memorial find_memorial
delete_rows-Stays mid site m h =
    let test = λ (x : Memorial). text_eq x.id m in
    let away : any test site.memorials ≡ false = sym (find-any test site.memorials) ∙ h in
    find-any test (keep (λ (x : Memorial). not (text_eq x.id mid)) site.memorials)
    ∙ any-keep-false test (λ (x : Memorial). not (text_eq x.id mid)) site.memorials away

module _ (sha256 : Text → Text) where
  -- What `apply` leaves.
  pub record Applied (entries : List Entry) (e : Entry) (w w' : World) : Type 0 where
    pub gone : Gone e.memorial_id w'.site
    pub settled : Settled w'.site e
    pub stays : Stays w.site w'.site
    pub recorded :
        entry_for e.memorial_id entries ≡ some e
        → AllRecorded entries w.site
        → AllRecorded entries w'.site
    pub safe : SafeMedia w.site → SafeMedia w'.site
    pub files : any (λ f. mem_text f (filenames_of e.memorial_id w.site)) w'.files ≡ false
    pub history :
        (event : Event) × (w'.site.history ≡ event ∷ w.site.history)
        × (event.memorial_id ≡ e.memorial_id)
        × (event.event_type ≡ codes "memorial_erased")

  Gone-away : (mid : Text) (site : Site) → Gone mid site → exists_memorial mid site ≡ false
  unfolding exists_memorial find_memorial
  Gone-away mid site g = find-any (λ (m : Memorial). text_eq m.id mid) site.memorials ∙ g.memorials

  pub apply-Applied :
      (entries : List Entry) (now later : Text) (e : Entry) (reapplied : Bool) (w : World)
      → Post (Applied entries e w) (apply sha256 now later e reapplied w)
  unfolding apply append_event next_event delete_rows exists_memorial find_memorial is_registered
  apply-Applied entries now later e reapplied w = Post-guard _ _ λ safe. Post-bind λ site' run.
      let (same, registered, keeps, recorded) =
        (register-Registered entries later e _).holds site' run in
      let mid = e.memorial_id in
      let gone : Gone mid site' = subst (Gone mid) (sym same) (
        let g = delete_rows-Gone mid w.site in
        record {
          memorials = g.memorials;
          members = g.members;
          media = g.media;
          events = g.events;
          tributes = g.tributes;
          candles = g.candles;
          reports = g.reports;
          audit = g.audit;
          controls = g.controls;
          grants = g.grants;
          nominations = g.nominations;
          erasure_requests = g.erasure_requests;
        }) in
      Post-ok (record {
        gone = gone;
        settled = (Gone-away mid site' gone, registered);
        stays = (
          (λ m away.
              subst (λ s. exists_memorial m s ≡ false) (sym same)
                (delete_rows-Stays mid w.site m away)),
          keeps,
        );
        recorded = recorded;
        safe = λ h. subst SafeMedia (sym same) (
            All-keep (λ m. is_unsafe m.filename ≡ false) (λ m. not (text_eq m.memorial_id mid))
              w.site.media h);
        files = any-keep-not (λ f. mem_text f (filenames_of mid w.site)) w.files;
        history = (_, ap (λ s. s.history) same, refl, refl);
      })

  -- What a round, or several, of `reapply` leave.
  abbrev pub Progressed : List Entry → Site → Site → Type 0
  Progressed entries site site' =
      Stays site site'
      × (AllRecorded entries site → AllRecorded entries site')
      × (SafeMedia site → SafeMedia site')

  pub reapply_entry-Settled :
      (entries : List Entry) (now later : Text) (e : Entry) (w : World) (s : Summary)
      → entry_for e.memorial_id entries ≡ some e
      → Post
          (λ r. Settled r.0.site e × Progressed entries w.site r.0.site)
          (reapply_entry sha256 now later e (w, s))
  unfolding reapply_entry
  reapply_entry-Settled entries now later e w s found =
      elim (Bool-cases (exists_memorial e.memorial_id w.site)) [
        | inl back ↦ rw back (
            Post-bind λ w' run. Post-ok (
              let a = (apply-Applied entries now later e true w).holds w' run in
              (a.settled, (a.stays, a.recorded found, a.safe))))
        | inr away ↦ elim (Bool-cases (is_registered e.memorial_id w.site)) [
          | inl old ↦
              rw (away, old)
                (Post-ok ((away, old), (((λ m h. h), (λ m h. h)), (λ all_. all_), λ h. h)))
          | inr new ↦
              rw (away, new)
                (Post-bind λ site' run. Post-ok (
                  let (same, registered, keeps, recorded) =
                    (register-Registered entries now e w.site).holds site' run in
                  let stays : (m : Text)
                      → exists_memorial m w.site ≡ false
                      → exists_memorial m site' ≡ false =
                    λ m h.
                      unfold exists_memorial find_memorial in
                      subst (λ x. exists_memorial m x ≡ false) (sym same) h in
                  (
                    (stays e.memorial_id away, registered),
                    ((stays, keeps), recorded found, λ h. subst SafeMedia (sym same) h),
                  )))
        ]
      ]

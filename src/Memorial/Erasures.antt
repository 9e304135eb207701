-- ===== src/Memorial/Erasures.antt =====
-- Requests for erasure, and erasure itself: the operations of remembrance/erasure.py. The files of
-- the media directory are their names; an error of the file system, and a crash, are not modelled.
use the_st.Prelude.{
  ℕ, suc, ◌+◌, Bool, true, false, not, ◌&&◌, ◌||◌, List, [], ◌∷◌, ◌++◌, map, Option, none, some,
  Text, codes, text_eq, ◌==◌, if◌then◌else◌, any, find, keep, mem_text, is_some, length,
}
use the_st.Purpose.{strip}
use the_st.Json.{pos, Value, Entries}
use the_st.Fallible.{ok, fail, ◌>>=◌, ◌>>◌, raise_if, or_fail, payload}
use the_st.Memorial.{
  Platform, ErasureRequest, Erasure, Site, MemorialError, Try, find_memorial, update, within,
}
use the_st.Memorial.Consent.{append_event, operator_identity}
use the_st.Memorial.Succession.{owner_record, activity, has_pending_erasure}
use the_st.Memorial.Ledger.{Entry, entry_for}

unfoldable pub erasure_text : Text
erasure_text =
    codes
      "I ask the operator to permanently erase this memorial after reviewing my request: its life story, "
    ++ codes
        "private and archived memories, media files, timeline, tributes, family access, reports, sharing grants "
    ++ codes
        "and nominations. Recording this request archives the memorial now. Erasure cannot be undone. Copies "
    ++ codes
        "already downloaded or shared cannot be recalled, and server backups expire on the operator’s published schedule."

abbrev pub is_request : Text → ErasureRequest → Bool
is_request id r = text_eq r.id id

-- The row that `request` inserts.
abbrev pub pending_request : Text → Text → Text → Text → Text → ErasureRequest
pending_request now fresh mid owner_id signed_name = record {
  id = fresh;
  memorial_id = mid;
  requested_by = owner_id;
  signed_name = signed_name;
  declaration_text = erasure_text;
  status = codes "pending";
  created_at = now;
  closed_at = none;
  closed_by = none;
  evidence_digest = none;
}

abbrev pub withdrawn_with : Text → Text → ErasureRequest → ErasureRequest
withdrawn_with now actor r = record r {
  status = codes "withdrawn";
  closed_at = some now;
  closed_by = some actor;
}

abbrev pub declined_with : Text → Text → Text → ErasureRequest → ErasureRequest
declined_with now actor evidence r = record r {
  status = codes "declined";
  closed_at = some now;
  closed_by = some actor;
  evidence_digest = some evidence;
}

-- `Path(name).name != name or name in ('', '.', '..')`: a name without a slash is its own last part.
unfoldable pub is_unsafe : Text → Bool
is_unsafe name = any (λ c. c == b'/') name || mem_text name ([] ∷ codes "." ∷ codes ".." ∷ [])

-- The files of a memorial's media.
abbrev pub filenames_of : Text → Site → List Text
filenames_of mid site = map (λ m. m.filename) (keep (λ m. text_eq m.memorial_id mid) site.media)

-- What erasure deletes from the tables, `MEMORIAL_TABLES` and `memorials`.
unfoldable pub delete_rows : Text → Site → Site
delete_rows mid site = record site {
  memorials = keep (λ m. not (text_eq m.id mid)) site.memorials;
  members = keep (λ m. not (text_eq m.memorial_id mid)) site.members;
  media = keep (λ m. not (text_eq m.memorial_id mid)) site.media;
  events = keep (λ m. not (text_eq m.memorial_id mid)) site.events;
  tributes = keep (λ m. not (text_eq m.memorial_id mid)) site.tributes;
  candles = keep (λ m. not (text_eq m.memorial_id mid)) site.candles;
  reports = keep (λ m. not (text_eq m.memorial_id mid)) site.reports;
  audit = keep (λ m. not (text_eq m.memorial_id mid)) site.audit;
  controls = keep (λ m. not (text_eq m.memorial_id mid)) site.controls;
  grants = keep (λ m. not (text_eq m.memorial_id mid)) site.grants;
  nominations = keep (λ m. not (text_eq m.memorial_id mid)) site.nominations;
  erasure_requests = keep (λ m. not (text_eq m.memorial_id mid)) site.erasure_requests;
}

-- How many rows of a table are a memorial's.
abbrev rows_of : {A : Type 0} → (A → Text) → Text → List A → Value
rows_of key mid xs = Value.int (pos (length (keep (λ x. text_eq (key x) mid) xs)))

-- The counts of the event `memorial_erased`.
unfoldable pub removed : Text → Site → ℕ → Entries
removed mid site media_files = payload (
    (codes "candles", rows_of (λ r. r.memorial_id) mid site.candles)
    ∷ (codes "tributes", rows_of (λ r. r.memorial_id) mid site.tributes)
    ∷ (codes "events", rows_of (λ r. r.memorial_id) mid site.events)
    ∷ (codes "media", rows_of (λ r. r.memorial_id) mid site.media)
    ∷ (codes "members", rows_of (λ r. r.memorial_id) mid site.members)
    ∷ (codes "reports", rows_of (λ r. r.memorial_id) mid site.reports)
    ∷ (codes "audit", rows_of (λ r. r.memorial_id) mid site.audit)
    ∷ (codes "succession_requests", rows_of (λ r. r.memorial_id) mid site.nominations)
    ∷ (codes "erasure_requests", rows_of (λ r. r.memorial_id) mid site.erasure_requests)
    ∷ (codes "consent_grants", rows_of (λ r. r.memorial_id) mid site.grants)
    ∷ (codes "consent_controls", rows_of (λ r. r.memorial_id) mid site.controls)
    ∷ (codes "memorials", rows_of (λ r. r.id) mid site.memorials)
    ∷ (codes "media_files", Value.int (pos media_files))
    ∷ [])

abbrev pub is_erasure_of : Text → Erasure → Bool
is_erasure_of mid e = text_eq e.memorial_id mid

unfoldable pub is_registered : Text → Site → Bool
is_registered mid site = any (is_erasure_of mid) site.erasures

unfoldable pub exists_memorial : Text → Site → Bool
exists_memorial mid site = is_some (find_memorial mid site)

-- The row that `_register` inserts.
abbrev pub erasure_row : Text → Entry → Erasure
erasure_row now e = record {
  memorial_id = e.memorial_id;
  decided_at = e.decided_at;
  erased_at = now;
  erased_by = e.actor;
  evidence_digest = e.evidence_digest;
  ledger_sequence = e.sequence;
  ledger_hash = e.entry_hash;
}

-- `_register`: the sequence of a ledger is a key of `erasures`.
unfoldable pub register : Text → Entry → Site → Try Site
register now e site =
    if is_registered e.memorial_id site
    then ok site
    else (raise_if (any (λ r. r.ledger_sequence == e.sequence) site.erasures)
          MemorialError.integrity
        >> ok (record site { erasures = erasure_row now e ∷ site.erasures }))

-- Whether a row of `erasures` stands, unchanged, in the ledger.
abbrev pub is_same : Option Entry → Erasure → Bool
is_same none row = false
is_same (some e) row = e.sequence == row.ledger_sequence && text_eq e.entry_hash row.ledger_hash

abbrev pub is_recorded : List Entry → Erasure → Bool
is_recorded entries row = is_same (entry_for row.memorial_id entries) row

-- `_check_registry`, on the rows as they stand.
unfoldable pub check_registry : List Entry → List Erasure → Try (Unit {0})
check_registry entries rows = elim (find (λ row. not (is_recorded entries row)) rows) [
  | none ↦ ok tt
  | some row ↦ fail (MemorialError.ledger_lacks row.memorial_id)
]

-- The tables, and the names of the files of the media directory.
pub record World : Type 0 where
  pub site : Site
  pub files : List Text

-- The counts that `reapply` returns.
pub record Summary : Type 0 where
  pub ledger_entries : ℕ
  pub erased : ℕ
  pub recorded : ℕ

module _ (sha256 : Text → Text) where
  unfoldable pub request :
      Platform → (ℕ → Text) → Text → Text → Text → Text → Site → Try (Text × Site)
  request u clock fresh mid owner_id signed_name site = do
    let name = strip u.is_space signed_name
    raise_if (not (within 120 name)) MemorialError.no_name
    _ ← owner_record mid owner_id site
    raise_if (has_pending_erasure mid site) MemorialError.already_requested
    raise_if (any (is_request fresh) site.erasure_requests) MemorialError.integrity
    ok (
      fresh,
      activity sha256 (clock 1) (clock 2) mid (codes "erasure_requested") owner_id fresh
          ((codes "declaration_digest", Value.str (sha256 erasure_text)) ∷ [])
          (record site {
            erasure_requests =
                pending_request (clock 0) fresh mid owner_id name ∷ site.erasure_requests;
            memorials =
                update (λ m. text_eq m.id mid)
                  (λ m. record m { archived = true; updated = clock 0 }) site.memorials;
          }),
    )

  unfoldable pub withdraw : (ℕ → Text) → Text → Text → Text → Site → Try (Bool × Site)
  withdraw clock mid request_id owner_id site = do
    _ ← owner_record mid owner_id site
    row ←
        or_fail
          (find (λ r. is_request request_id r && text_eq r.memorial_id mid) site.erasure_requests)
          MemorialError.no_request
    if not (text_eq row.status (codes "pending"))
        then ok (false, site)
        else ok (
          true,
          activity sha256 (clock 1) (clock 2) mid (codes "erasure_withdrawn") owner_id request_id []
              (record site {
                erasure_requests =
                    update (is_request request_id) (withdrawn_with (clock 0) owner_id)
                      site.erasure_requests;
              }),
        )

  unfoldable pub decline_request :
      Platform → (ℕ → Text) → Text → Text → Text → Site → Try (Bool × Site)
  decline_request u clock request_id reviewer reference site = do
    (actor, evidence) ← operator_identity sha256 u reviewer reference
    row ← or_fail (find (is_request request_id) site.erasure_requests) MemorialError.no_request
    if text_eq row.status (codes "declined")
        then ok (false, site)
        else (raise_if (not (text_eq row.status (codes "pending"))) MemorialError.closed
            >> ok (
              true,
              activity sha256 (clock 1) (clock 2) row.memorial_id (codes "erasure_declined") actor
                  request_id ((codes "evidence_digest", Value.str evidence) ∷ [])
                  (record site {
                    erasure_requests =
                        update (is_request request_id) (declined_with (clock 0) actor evidence)
                          site.erasure_requests;
                  }),
            ))

  -- `_apply`: the clock shows the first time to the history, the second to `_register`.
  unfoldable pub apply : Text → Text → Entry → Bool → World → Try World
  apply now later e reapplied w = do
    let mid = e.memorial_id
    let filenames = filenames_of mid w.site
    raise_if (any is_unsafe filenames) MemorialError.unsafe_filename
    site ← register later e (
        append_event sha256 now mid (codes "memorial_erased") (some e.actor) none
          (payload (
            (codes "evidence_digest", Value.str e.evidence_digest)
            ∷ (codes "ledger_sequence", Value.int (pos e.sequence))
            ∷ (codes "ledger_hash", Value.str e.entry_hash)
            ∷ (codes "reapplied", Value.bool reapplied)
            ∷ (codes "removed", Value.dict (removed mid w.site (length filenames)))
            ∷ []))
          (delete_rows mid w.site))
    ok (record { site = site; files = keep (λ f. not (mem_text f filenames)) w.files })

  -- One round of `reapply`, with what it counts.
  unfoldable pub reapply_entry : Text → Text → Entry → World × Summary → Try (World × Summary)
  reapply_entry now later e (w, s) =
      if exists_memorial e.memorial_id w.site
      then (apply now later e true w >>= λ w'. ok (w', record s { erased = s.erased + 1 }))
      else if is_registered e.memorial_id w.site
      then ok (w, s)
      else (register now e w.site >>= λ site.
          ok (record w { site = site }, record s { recorded = s.recorded + 1 }))

  -- The loop of `reapply`: what is done when it ends, or when an entry fails, with the error. Each
  -- entry has a transaction of its own.
  unfoldable pub reapply_entries :
      (ℕ → Text) → ℕ → List Entry → World × Summary → World × Try Summary
  reapply_entries clock n [] (w, s) = (w, ok s)
  reapply_entries clock n (e ∷ es) (w, s) =
      elim (reapply_entry (clock n) (clock (suc n)) e (w, s)) [
        | fail error ↦ (w, fail error)
        | ok done ↦ reapply_entries clock (suc (suc n)) es done
      ]

  -- `reapply`, on the entries of the ledger that it has opened.
  unfoldable pub reapply : (ℕ → Text) → List Entry → World → World × Try Summary
  reapply clock entries w = elim (check_registry entries w.site.erasures) [
    | fail error ↦ (w, fail error)
    | ok _ ↦
        reapply_entries clock 0 entries
          (w, record { ledger_entries = length entries; erased = 0; recorded = 0 })
  ]

-- `reapply(check=True)`: the memorials of the ledger that are back, or are not on record.
unfoldable pub outstanding : List Entry → Site → List Text
outstanding [] site = []
outstanding (e ∷ es) site =
    let rest = outstanding es site in
    if exists_memorial e.memorial_id site || not (is_registered e.memorial_id site)
    then e.memorial_id ∷ rest
    else rest

unfoldable pub reapply_check : List Entry → World → Try (List Text)
reapply_check entries w =
    check_registry entries w.site.erasures >>= λ _. ok (outstanding entries w.site)

-- ===== src/Tests/Memorials.antt =====
-- The theorems on remembrance/consent.py, succession.py, erasure.py and the access rules of app.py,
-- on a memorial of Ada's.
use the_st.Prelude.{
  ℕ, ◌+◌, ◌≤◌, ◌≡◌, refl, ◌⊎◌, ◌↔◌, inl, inr, Bool, true, false, List, [], ◌∷◌, ◌++◌, ◌&&◌, Option,
  none, some, Text, codes, ◌==◌, any, all, text_eq, arith, All, length,
}
use the_st.Json.{Value}
use the_st.Fallible.{Fallible, ok, fail}
use the_st.Audit.{zeros}
use the_st.Memorial.{
  Platform, User, Memorial, Medium, Item, Control, Grant, Event, Nomination, Site, MemorialError,
  Try, find_memorial, find_control, is_hex64,
}
use the_st.Memorial.Rows.{count}
use the_st.Memorial.Consent.{
  Revoker, owner, decide, is_current, current_grant, is_confirmed, declaration_text, record_grant,
  revoke_grant, authorize, append_event,
}
use the_st.Memorial.Permission.{Covers, decide-Covers}
use the_st.Memorial.History.{Head, verify_history, write_checkpoint}
use the_st.Memorial.Chains.{own}
use the_st.Memorial.Append.{own-append}
use the_st.Memorial.Checkpoints.{verify_history-later, verify_history-keeps}
use the_st.Memorial.Invariant.{Reviewed}
use the_st.Memorial.Succession.{is_active, is_pending, care_text, transfer}
use the_st.Memorial.Ledger.{
  Entry, Reader, ledger_format, write_all, open_ledger, line_of, next_entry, entry_document,
}
use the_st.Memorial.Erasures.{World, Summary}
use the_st.Memorial.Erase.{Machine, contents, erase_entry, erase, reapply_ledger, check_ledger}
use the_st.Memorial.Reapplied.{reapply_ledger-check, reapply_ledger-twice}
use the_st.Memorial.Completes.{reapply_ledger-completes}
use the_st.Memorial.Reopened.{Faithful, Appended, empty}
use the_st.Memorial.Reread.{erase-reopens}
use the_st.Memorial.Steps.{recorded, Reached, start, step, Reached-sound}
use the_st.Memorial.Access.{served, is_owner, get_memorial, owned_action, owned_action-serves}
use the_st.Memorial.Revoked.{revoke_grant-denies, revoke_grant-hides}
use the_st.Memorial.Transferred.{transfer-twice}
use the_st.Tests.Loads.{loads, loads-canonical_json}
use the_st.Memorial.Finished.{Erased, erase-Erased}
use the_st.Memorial.Written.{write_all-refines}
use the_st.Memorial.Visits.{ComesAs, IsOwner, IsOpen, MayShare, get_memorial-serves}
use the_st.Utf8.{encode}

-- In place of SHA-256.
abbrev zero_digest : Text → Text
zero_digest t = zeros 64

zero_digest-hex : (t : Text) → is_hex64 (zero_digest t) ≡ true
unfolding is_hex64
zero_digest-hex t = refl

abbrev ascii_platform : Platform
ascii_platform = record {
  is_space = λ c. c == b' ';
  lower = λ t. t;
  read_date = λ t. none;
  date_text = λ n. [];
}

abbrev clock : ℕ → Text
clock n = codes "t"

abbrev ada : User
ada = record { id = codes "a"; email = codes "a@x"; name = codes "Ada" }

abbrev ben : User
ben = record { id = codes "b"; email = codes "b@x"; name = codes "Ben" }

abbrev memorial : Memorial
memorial = record {
  id = codes "m";
  owner_id = codes "a";
  name = codes "Eve";
  born = [];
  visibility = codes "public";
  authority = codes "executor";
  authority_name = codes "Ada";
  consent_at = codes "t";
  successor = [];
  updated = codes "t";
  archived = false;
  demo = false;
}

abbrev new_site : Site
new_site = record {
  users = ada ∷ ben ∷ [];
  memorials = memorial ∷ [];
  members = [];
  media = record { id = codes "p"; memorial_id = codes "m"; filename = codes "p.jpg" } ∷ [];
  events = [];
  tributes = record { memorial_id = codes "m"; contents = [] } ∷ [];
  candles = [];
  reports = [];
  audit = [];
  controls = [];
  grants = [];
  history = [];
  nominations = [];
  erasure_requests = [];
  erasures = [];
}

abbrev machine_with : Option Text → Site → Machine
machine_with file site = record {
  world = record { site = site; files = codes "p.jpg" ∷ [] };
  ledger = file;
}

-- A grant of Ada's to the public, verified.
abbrev public_grant : Grant
public_grant = record {
  id = codes "g";
  memorial_id = codes "m";
  created_by = codes "a";
  authority = codes "executor";
  signed_name = codes "Ada";
  scope = codes "memorial_view";
  policy_version = 1;
  declaration_text = declaration_text;
  audience = codes "public";
  activation = codes "now";
  status = codes "verified";
  created_at = codes "t";
  verified_at = some (codes "t");
  verified_by = some (codes "operator:r");
  evidence_digest = some (zeros 64);
  revoked_at = none;
  revoked_by = none;
}

abbrev enabled : Control
enabled = record {
  memorial_id = codes "m";
  enabled_at = codes "t";
  death_date = none;
  death_confirmed_at = none;
  death_confirmed_by = none;
  death_evidence_digest = none;
}

abbrev shared_site : Site
shared_site = record new_site { controls = enabled ∷ []; grants = public_grant ∷ [] }

decide-Covers_example :
    ((decide
        (some public_grant)
        false
        (codes "public")
        (codes "memorial_view")
        (codes "memorial")).allowed
      ≡ true)
    ↔ ((codes "memorial_view" ≡ codes "memorial_view")
        × (codes "memorial" ≡ codes "memorial")
        × ((codes "public" ≡ codes "public") ⊎ (codes "public" ≡ codes "family"))
        × ((g : Grant) × (some public_grant ≡ some g) × Covers g false (codes "public")))
decide-Covers_example =
    decide-Covers (some public_grant) false (codes "public") (codes "memorial_view")
      (codes "memorial")

get_memorial-serves_example :
    (find_memorial (codes "m") shared_site ≡ some memorial)
    × ComesAs none memorial (codes "m") shared_site (codes "public")
    × (IsOwner none memorial
        ⊎ ((false ≡ false)
            × IsOpen memorial (codes "public")
            × MayShare (codes "m") (codes "public") shared_site))
unfolding get_memorial find_memorial text_eq the_st.Memorial.Access.admit
    the_st.Memorial.Access.role_of is_owner the_st.Memorial.Access.is_member
    the_st.Memorial.Access.is_hidden the_st.Memorial.Access.sharing_allowed
    the_st.Memorial.Access.sharing_with find_control authorize the_st.Memorial.Consent.decide_with
    decide current_grant the_st.Memorial.Consent.decide_grant
get_memorial-serves_example =
    get_memorial-serves zero_digest clock none (codes "m") false shared_site memorial
      (codes "public") refl

-- What `record_grant` leaves.
abbrev pair_or : {A : Type 0} → A → Try A → A
pair_or default (ok a) = a
pair_or default (fail e) = default

abbrev record_for_ada : Site → Try (Text × Site)
record_for_ada site =
    record_grant zero_digest ascii_platform clock (codes "g") (codes "m") (codes "a") (codes "Ada")
      (codes "public") (codes "now") site

abbrev recorded_site : Site
recorded_site = (pair_or ([], new_site) (record_for_ada new_site)).1

recorded-Reached : Reached zero_digest (machine_with none recorded_site)
unfolding record_grant the_st.Fallible.◌>>=◌ the_st.Fallible.raise_if the_st.Purpose.strip
    the_st.Memorial.one_of text_eq the_st.Fallible.or_fail find_memorial current_grant
recorded-Reached = step (start {m = machine_with none new_site} refl refl refl refl) (
    recorded {m = machine_with none new_site} ascii_platform clock (codes "g") (codes "m")
      (codes "a") (codes "Ada") (codes "public") (codes "now")
      (pair_or ([], new_site) (record_for_ada new_site)) refl)

Reached-sound_example :
    ((mid : Text)
      → (count (is_current mid) recorded_site.grants ≤ 1)
        × (count (is_active mid) recorded_site.nominations ≤ 1)
        × (count (is_pending mid) recorded_site.erasure_requests ≤ 1))
    × All Reviewed recorded_site.grants
    × ((v : Value) × (verify_history zero_digest none recorded_site.history ≡ ok v))
unfolding record_grant the_st.Fallible.◌>>=◌ the_st.Fallible.raise_if the_st.Purpose.strip
    the_st.Memorial.one_of text_eq the_st.Fallible.or_fail find_memorial current_grant append_event
Reached-sound_example =
    Reached-sound zero_digest recorded_site.history recorded-Reached (λ mid. refl)

-- What `revoke_grant` leaves.
abbrev revoke_for_ada : Site → Try (Bool × Site)
revoke_for_ada site =
    revoke_grant zero_digest ascii_platform clock (codes "m") (codes "g") (owner (codes "a")) site

abbrev revoked_site : Site
revoked_site = (pair_or (false, new_site) (revoke_for_ada recorded_site)).1

revoke_grant-denies_example :
    (authorize zero_digest clock
      (codes "m")
      (codes "public")
      none
      (codes "memorial_view")
      (codes "memorial")
      revoked_site).0.allowed
    ≡ false
unfolding revoke_grant the_st.Fallible.◌>>=◌ the_st.Memorial.Consent.revoker_identity
    the_st.Fallible.or_fail find_memorial record_grant the_st.Fallible.raise_if the_st.Purpose.strip
    the_st.Memorial.one_of text_eq current_grant append_event
revoke_grant-denies_example =
    revoke_grant-denies zero_digest (machine_with none recorded_site) ascii_platform clock clock
      (codes "m") (codes "g") (owner (codes "a")) revoked_site (codes "public") none
      (codes "memorial_view") (codes "memorial") recorded-Reached refl

revoke_grant-hides_example : is_owner (some ada) memorial ≡ true
unfolding revoke_grant the_st.Fallible.◌>>=◌ the_st.Memorial.Consent.revoker_identity
    the_st.Fallible.or_fail find_memorial record_grant the_st.Fallible.raise_if the_st.Purpose.strip
    the_st.Memorial.one_of text_eq current_grant append_event find_control
    the_st.Memorial.Consent.enable get_memorial the_st.Memorial.Access.admit
    the_st.Memorial.Access.role_of is_owner the_st.Memorial.Access.is_hidden
    the_st.Memorial.Access.is_member the_st.Memorial.Access.sharing_allowed
    the_st.Memorial.Access.sharing_with
revoke_grant-hides_example =
    revoke_grant-hides zero_digest (machine_with none recorded_site) ascii_platform clock clock
      (codes "m") (codes "g") (owner (codes "a")) revoked_site enabled (some ada) false memorial
      (codes "owner") recorded-Reached refl refl refl

abbrev event_at : ℕ → Event
event_at n = record {
  memorial_id = codes "m";
  sequence = n;
  event_type = codes "denied";
  actor_id = none;
  grant_id = none;
  payload = codes "{}";
  created_at = codes "t";
  previous_hash = zeros 64;
  event_hash = zeros 64;
}

abbrev checkpoint_at : ℕ → Value
checkpoint_at n = write_checkpoint ((codes "m", record { sequence = n; hash = zeros 64 }) ∷ [])

verify_history-later_example :
    verify_history zero_digest (some (checkpoint_at 1)) (event_at 1 ∷ event_at 2 ∷ [])
    ≡ ok (checkpoint_at 2)
unfolding verify_history the_st.Fallible.◌>>=◌ the_st.Memorial.History.expected_of
    the_st.Memorial.History.verify_expected the_st.Memorial.History.verify_rows
    the_st.Memorial.History.verify_row the_st.Fallible.raise_if the_st.Memorial.History.extends
    the_st.Prelude.Dicts.get text_eq the_st.Memorial.Consent.zero_hash
    the_st.Memorial.History.match_head the_st.Prelude.Dicts.set
verify_history-later_example =
    verify_history-later zero_digest (event_at 1 ∷ []) (event_at 1 ∷ event_at 2 ∷ [])
      (checkpoint_at 1) (checkpoint_at 2) zero_digest-hex refl refl
      (λ mid. (own mid (event_at 2 ∷ []), own-append mid (event_at 1 ∷ []) (event_at 2 ∷ [])))

verify_history-keeps_example :
    any
      (λ e. e.sequence == 1 && text_eq e.event_hash (zeros 64))
      (own (codes "m") (event_at 1 ∷ event_at 2 ∷ []))
    ≡ true
unfolding verify_history the_st.Fallible.◌>>=◌ the_st.Memorial.History.expected_of
    the_st.Memorial.History.verify_expected the_st.Memorial.History.verify_rows
    the_st.Memorial.History.verify_row the_st.Fallible.raise_if the_st.Memorial.History.extends
    the_st.Prelude.Dicts.get text_eq the_st.Memorial.Consent.zero_hash
    the_st.Memorial.History.match_head the_st.Prelude.Dicts.set
    the_st.Memorial.History.read_checkpoint write_checkpoint the_st.Memorial.Ledger.field
    the_st.Memorial.History.read_heads the_st.Memorial.Consent.event_fields
    the_st.Memorial.History.read_head is_hex64
verify_history-keeps_example =
    verify_history-keeps zero_digest (event_at 1 ∷ []) (event_at 1 ∷ event_at 2 ∷ [])
      (checkpoint_at 1) (checkpoint_at 2) (codes "m") (record { sequence = 1; hash = zeros 64 })
      zero_digest-hex refl refl refl

-- Ben has accepted the care of Ada's memorial.
abbrev nomination : Nomination
nomination = record {
  id = codes "n";
  memorial_id = codes "m";
  from_owner_id = codes "a";
  nominee_id = codes "b";
  memorial_name = codes "Eve";
  inviter_name = codes "Ada";
  status = codes "accepted";
  created_at = codes "t";
  accepted_at = some (codes "t");
  accepted_name = some (codes "Ben");
  accepted_authority = some (codes "executor");
  declaration_text = some care_text;
  closed_at = none;
  completed_by = none;
  evidence_digest = none;
  previous_authority = none;
  previous_authority_name = none;
  previous_consent_at = none;
}

abbrev offered_site : Site
offered_site = record new_site { nominations = nomination ∷ [] }

abbrev transfer_to_ben : Site → Try (Bool × Site)
transfer_to_ben site =
    transfer zero_digest ascii_platform clock (codes "n") (codes "a") (codes "b") (codes "r")
      (codes "x") site

abbrev transferred_site : Site
transferred_site = (pair_or (false, new_site) (transfer_to_ben offered_site)).1

transfer-twice_example : transfer_to_ben transferred_site ≡ ok (false, transferred_site)
unfolding transfer the_st.Fallible.◌>>=◌ the_st.Memorial.Consent.operator_identity
    the_st.Fallible.raise_if the_st.Memorial.Consent.is_reviewer the_st.Purpose.strip
    the_st.Fallible.or_fail text_eq the_st.Memorial.Succession.complete
    the_st.Memorial.Succession.owner_record find_memorial
    the_st.Memorial.Succession.has_pending_erasure the_st.Memorial.Succession.acceptance
    the_st.Memorial.one_of care_text
transfer-twice_example =
    transfer-twice zero_digest ascii_platform clock clock (codes "n") (codes "a") (codes "b")
      (codes "r") (codes "x") offered_site transferred_site refl

-- The entry of the erasure of Ada's memorial, and who reads nothing else.
abbrev erasure_entry : Entry
erasure_entry = next_entry zero_digest (codes "t") (codes "m") (codes "operator:r") (zeros 64) []

abbrev reader : Reader
reader = record { loads = loads; is_datetime = λ t. true }

reader-Faithful : Faithful zero_digest reader
reader-Faithful = record { loads = loads-canonical_json; hex = zero_digest-hex }

abbrev shared_machine : Machine
shared_machine = machine_with none shared_site

abbrev erase_for_ada : Machine → Machine × Try Bool
erase_for_ada m =
    erase zero_digest ascii_platform reader clock (codes "m") (codes "a") (codes "r") (codes "x")
      (codes "l" ∷ []) (codes "d" ∷ []) m

erase-reopens_example :
    (more : List Entry) × ((more ≡ [])
      ⊎ ((e : Entry) × (more ≡ e ∷ []) × (e.memorial_id ≡ codes "m")))
    × Appended zero_digest reader more (contents (erase_for_ada shared_machine).0.ledger)
    × (open_ledger zero_digest reader (contents (erase_for_ada shared_machine).0.ledger) ≡ ok more)
unfolding the_st.Memorial.Ledger.is_memorial_id
erase-reopens_example =
    erase-reopens zero_digest reader ascii_platform clock (codes "m") (codes "a") (codes "r")
      (codes "x") (codes "l" ∷ []) (codes "d" ∷ []) shared_machine [] reader-Faithful refl refl
      empty

erase-Erased_example :
    Erased zero_digest (codes "m") shared_machine.world (erase_for_ada shared_machine).0.world
unfolding erase the_st.Memorial.Erase.erase_identified the_st.Fallible.◌>>=◌
    the_st.Memorial.Consent.operator_identity the_st.Fallible.raise_if
    the_st.Memorial.Consent.is_reviewer the_st.Purpose.strip the_st.Memorial.Ledger.checked_ledger
    the_st.Memorial.Ledger.is_within text_eq the_st.Memorial.Erase.erase_opened open_ledger
    the_st.Memorial.Ledger.read_lines the_st.Memorial.Ledger.splitlines
    the_st.Memorial.Erase.erase_reviewed the_st.Memorial.Erase.review
    the_st.Memorial.Erasures.check_registry the_st.Fallible.or_fail append_event
    the_st.Memorial.Consent.event_fields the_st.Memorial.Consent.find_head
    the_st.Memorial.Consent.next_event the_st.Memorial.Consent.zero_hash
    the_st.Memorial.Erase.erase_entry the_st.Memorial.Erasures.apply
    the_st.Memorial.Erasures.delete_rows the_st.Memorial.Erasures.is_registered
    the_st.Memorial.Erasures.is_unsafe the_st.Memorial.Erasures.register
    the_st.Memorial.Erasures.removed the_st.Memorial.Ledger.as_nat the_st.Memorial.Ledger.as_text
    the_st.Memorial.Ledger.ends_line entry_document the_st.Memorial.Ledger.entry_for
    the_st.Memorial.Ledger.field the_st.Memorial.Ledger.is_memorial_id
    the_st.Memorial.Ledger.is_valid the_st.Memorial.Ledger.last_hash
    the_st.Memorial.Ledger.ledger_fields ledger_format next_entry the_st.Memorial.Ledger.read_entry
    the_st.Memorial.Ledger.verify_line find_memorial is_hex64
erase-Erased_example =
    erase-Erased zero_digest ascii_platform reader clock (codes "m") (codes "a") (codes "r")
      (codes "x") (codes "l" ∷ []) (codes "d" ∷ []) shared_machine
      ((erase_for_ada shared_machine).0) refl

-- The bytes of that entry's line.
abbrev bytes_or_none : Option (List ℕ) → List ℕ
bytes_or_none none = []
bytes_or_none (some bytes) = bytes

abbrev entry_bytes : List ℕ
entry_bytes = bytes_or_none (encode (line_of erasure_entry))

write_all-refines_example :
    (text : Text) × ((erase_entry zero_digest clock
        (codes "m")
        (codes "operator:r")
        (zeros 64)
        []
        none
        shared_machine).0.ledger
      ≡ some text)
    × (write_all (λ k bs. 2) (length entry_bytes + 1) 0 entry_bytes [] ≡ encode text)
unfolding encode the_st.Json.canonical_json entry_document next_entry ledger_format
    the_st.Memorial.Ledger.last_hash the_st.Memorial.Consent.zero_hash
write_all-refines_example =
    write_all-refines zero_digest (λ k bs. 2) (length entry_bytes + 1) clock (codes "m")
      (codes "operator:r") (zeros 64) [] shared_machine [] entry_bytes (λ k bs. omega arith) refl
      refl (omega arith)

-- A reader that takes every line for that entry.
abbrev one_entry : Reader
one_entry = record { loads = λ t. some (entry_document erasure_entry); is_datetime = λ t. true }

-- The site of a backup from before the erasure.
abbrev restored : Machine
restored = machine_with (some (codes "e" ++ (10 ∷ []))) shared_site

abbrev reapplied : Machine
reapplied =
    (reapply_ledger zero_digest one_entry clock (codes "l" ∷ []) (codes "d" ∷ []) restored).0

abbrev one_erased : Summary
one_erased = record { ledger_entries = 1; erased = 1; recorded = 0 }

reapply_ledger-check_example :
    check_ledger zero_digest one_entry (codes "l" ∷ []) (codes "d" ∷ []) reapplied ≡ ok []
unfolding reapply_ledger the_st.Memorial.Erase.open_existing the_st.Fallible.◌>>=◌
    the_st.Memorial.Ledger.checked_ledger the_st.Fallible.raise_if the_st.Memorial.Ledger.is_within
    text_eq the_st.Fallible.or_fail open_ledger the_st.Memorial.Ledger.ends_line
    the_st.Memorial.Ledger.read_lines the_st.Memorial.Ledger.splitlines
    the_st.Memorial.Ledger.verify_line the_st.Memorial.Ledger.read_entry entry_document
    the_st.Memorial.Ledger.as_text the_st.Memorial.Ledger.field append_event
    the_st.Memorial.Consent.event_fields the_st.Memorial.Consent.find_head
    the_st.Memorial.Consent.next_event the_st.Memorial.Consent.zero_hash
    the_st.Memorial.Erasures.apply the_st.Memorial.Erasures.check_registry
    the_st.Memorial.Erasures.delete_rows the_st.Memorial.Erasures.exists_memorial
    the_st.Memorial.Erasures.is_registered the_st.Memorial.Erasures.is_unsafe
    the_st.Memorial.Erasures.reapply the_st.Memorial.Erasures.reapply_entries
    the_st.Memorial.Erasures.reapply_entry the_st.Memorial.Erasures.register
    the_st.Memorial.Erasures.removed the_st.Memorial.Ledger.as_nat the_st.Memorial.Ledger.entry_for
    the_st.Memorial.Ledger.is_memorial_id the_st.Memorial.Ledger.is_valid
    the_st.Memorial.Ledger.last_hash the_st.Memorial.Ledger.ledger_fields ledger_format
    find_memorial is_hex64 next_entry
reapply_ledger-check_example =
    reapply_ledger-check zero_digest one_entry clock (codes "l" ∷ []) (codes "d" ∷ []) restored
      reapplied one_erased refl

reapply_ledger-twice_example :
    (k : ℕ) × (reapply_ledger zero_digest one_entry clock
        (codes "l" ∷ [])
        (codes "d" ∷ [])
        reapplied
      ≡ (reapplied, ok (record { ledger_entries = k; erased = 0; recorded = 0 })))
unfolding reapply_ledger the_st.Memorial.Erase.open_existing the_st.Fallible.◌>>=◌
    the_st.Memorial.Ledger.checked_ledger the_st.Fallible.raise_if the_st.Memorial.Ledger.is_within
    text_eq the_st.Fallible.or_fail open_ledger the_st.Memorial.Ledger.ends_line
    the_st.Memorial.Ledger.read_lines the_st.Memorial.Ledger.splitlines
    the_st.Memorial.Ledger.verify_line the_st.Memorial.Ledger.read_entry entry_document
    the_st.Memorial.Ledger.as_text the_st.Memorial.Ledger.field append_event
    the_st.Memorial.Consent.event_fields the_st.Memorial.Consent.find_head
    the_st.Memorial.Consent.next_event the_st.Memorial.Consent.zero_hash
    the_st.Memorial.Erasures.apply the_st.Memorial.Erasures.check_registry
    the_st.Memorial.Erasures.delete_rows the_st.Memorial.Erasures.exists_memorial
    the_st.Memorial.Erasures.is_registered the_st.Memorial.Erasures.is_unsafe
    the_st.Memorial.Erasures.reapply the_st.Memorial.Erasures.reapply_entries
    the_st.Memorial.Erasures.reapply_entry the_st.Memorial.Erasures.register
    the_st.Memorial.Erasures.removed the_st.Memorial.Ledger.as_nat the_st.Memorial.Ledger.entry_for
    the_st.Memorial.Ledger.is_memorial_id the_st.Memorial.Ledger.is_valid
    the_st.Memorial.Ledger.last_hash the_st.Memorial.Ledger.ledger_fields ledger_format
    find_memorial is_hex64 next_entry
reapply_ledger-twice_example =
    reapply_ledger-twice zero_digest one_entry clock clock (codes "l" ∷ []) (codes "d" ∷ [])
      restored reapplied one_erased refl

reapply_ledger-completes_example :
    (m' : Machine) × (summary : Summary) × (reapply_ledger zero_digest one_entry clock
        (codes "l" ∷ [])
        (codes "d" ∷ [])
        restored
      ≡ (m', ok summary))
unfolding the_st.Memorial.Erase.open_existing the_st.Fallible.◌>>=◌
    the_st.Memorial.Ledger.checked_ledger the_st.Fallible.raise_if the_st.Memorial.Ledger.is_within
    text_eq the_st.Fallible.or_fail open_ledger the_st.Memorial.Ledger.ends_line
    the_st.Memorial.Ledger.read_lines the_st.Memorial.Ledger.splitlines
    the_st.Memorial.Ledger.verify_line the_st.Memorial.Ledger.read_entry entry_document
    the_st.Memorial.Ledger.as_text the_st.Memorial.Ledger.field the_st.Memorial.Ledger.as_nat
    the_st.Memorial.Consent.zero_hash the_st.Memorial.Ledger.entry_for
    the_st.Memorial.Ledger.is_memorial_id the_st.Memorial.Ledger.is_valid
    the_st.Memorial.Ledger.last_hash the_st.Memorial.Ledger.ledger_fields ledger_format is_hex64
    next_entry the_st.Memorial.Erasures.is_unsafe
reapply_ledger-completes_example =
    reapply_ledger-completes zero_digest one_entry clock (codes "l" ∷ []) (codes "d" ∷ []) restored
      (erasure_entry ∷ []) refl tt (refl, tt)

owned_action-serves_example :
    (find_memorial (codes "m") shared_site ≡ some memorial)
    × (is_owner (some ada) memorial ≡ true)
    × (memorial.demo ≡ false)
    × ((owned_action zero_digest clock (some ada) (codes "m") shared_site).1 ≡ shared_site)
unfolding owned_action get_memorial find_memorial text_eq the_st.Memorial.Access.admit
    the_st.Memorial.Access.role_of is_owner
owned_action-serves_example =
    owned_action-serves zero_digest clock (some ada) (codes "m") shared_site memorial
      (codes "owner") refl

-- ===== src/Memorial.antt =====
-- The memorial site's database: remembrance/schema.sql with remembrance/migrations, and what
-- remembrance/consent.py, succession.py and erasure.py share. A site is its tables. An operation is
-- a function from a site to a result that holds the new one: an error has none, as the rollback of
-- `transaction`. The n-th `now()` of an operation's text reads `clock n`; `fresh` is the id that
-- `secrets.token_hex` draws. `consent_events` stands newest first: its triggers let no other row
-- in than one that extends the head of its memorial's history.
use the_st.Prelude.{
  ℕ, Bool, true, false, not, ◌&&◌, ◌||◌, List, [], ◌∷◌, Option, none, some, Text, codes, text_eq,
  ltb, leb, ◌==◌, if◌then◌else◌, any, all, find, keep, length, drop, is_some, ◌≡◌,
}
use the_st.Fallible.{Fallible}
pub mod Rows
pub mod Consent
pub mod Permission
pub mod History
pub mod Chains
pub mod Heads
pub mod Checkpoints
pub mod Append
pub mod Invariant
pub mod Operations
pub mod Care
pub mod Erased
pub mod Entries
pub mod Reapplied
pub mod Reopened
pub mod Kept
pub mod Steps
pub mod Access
pub mod Visits
pub mod Revoked
pub mod Transferred
pub mod Finished
pub mod Written
pub mod Reread
pub mod Completes
pub mod Succession
pub mod Ledger
pub mod Erasures
pub mod Erase

-- What an operation uses of Python's tables and calendar: `str.isspace` of one
-- character, `str.lower`, `date.fromisoformat` as a day number, and `date.isoformat`.
pub record Platform : Type 0 where
  pub is_space : ℕ → Bool
  pub lower : Text → Text
  pub read_date : Text → Option ℕ
  pub date_text : ℕ → Text

pub record User : Type 0 where
  pub id : Text
  pub email : Text
  pub name : Text

-- Less the columns of presentation, which these operations neither read nor change.
pub record Memorial : Type 0 where
  pub id : Text
  pub owner_id : Text
  pub name : Text
  pub born : Text
  pub visibility : Text
  pub authority : Text
  pub authority_name : Text
  pub consent_at : Text
  pub successor : Text
  pub updated : Text
  pub archived : Bool
  pub demo : Bool

pub record Member : Type 0 where
  pub memorial_id : Text
  pub email : Text

pub record Medium : Type 0 where
  pub id : Text
  pub memorial_id : Text
  pub filename : Text

-- A row of `events`, `tributes`, `candles` or `reports`, with its other columns as one text.
pub record Item : Type 0 where
  pub memorial_id : Text
  pub contents : Text

-- A row of `audit`.
pub record Activity : Type 0 where
  pub memorial_id : Text
  pub actor_id : Text
  pub action : Text
  pub target_id : Text
  pub created : Text

-- A row of `consent_controls`.
pub record Control : Type 0 where
  pub memorial_id : Text
  pub enabled_at : Text
  pub death_date : Option Text
  pub death_confirmed_at : Option Text
  pub death_confirmed_by : Option Text
  pub death_evidence_digest : Option Text

-- A row of `consent_grants`.
pub record Grant : Type 0 where
  pub id : Text
  pub memorial_id : Text
  pub created_by : Text
  pub authority : Text
  pub signed_name : Text
  pub scope : Text
  pub policy_version : ℕ
  pub declaration_text : Text
  pub audience : Text
  pub activation : Text
  pub status : Text
  pub created_at : Text
  pub verified_at : Option Text
  pub verified_by : Option Text
  pub evidence_digest : Option Text
  pub revoked_at : Option Text
  pub revoked_by : Option Text

-- A row of `consent_events`.
pub record Event : Type 0 where
  pub memorial_id : Text
  pub sequence : ℕ
  pub event_type : Text
  pub actor_id : Option Text
  pub grant_id : Option Text
  pub payload : Text
  pub created_at : Text
  pub previous_hash : Text
  pub event_hash : Text

-- A row of `succession_requests`.
pub record Nomination : Type 0 where
  pub id : Text
  pub memorial_id : Text
  pub from_owner_id : Text
  pub nominee_id : Text
  pub memorial_name : Text
  pub inviter_name : Text
  pub status : Text
  pub created_at : Text
  pub accepted_at : Option Text
  pub accepted_name : Option Text
  pub accepted_authority : Option Text
  pub declaration_text : Option Text
  pub closed_at : Option Text
  pub completed_by : Option Text
  pub evidence_digest : Option Text
  pub previous_authority : Option Text
  pub previous_authority_name : Option Text
  pub previous_consent_at : Option Text

-- A row of `erasure_requests`.
pub record ErasureRequest : Type 0 where
  pub id : Text
  pub memorial_id : Text
  pub requested_by : Text
  pub signed_name : Text
  pub declaration_text : Text
  pub status : Text
  pub created_at : Text
  pub closed_at : Option Text
  pub closed_by : Option Text
  pub evidence_digest : Option Text

-- A row of `erasures`.
pub record Erasure : Type 0 where
  pub memorial_id : Text
  pub decided_at : Text
  pub erased_at : Text
  pub erased_by : Text
  pub evidence_digest : Text
  pub ledger_sequence : ℕ
  pub ledger_hash : Text

pub record Site : Type 0 where
  pub users : List User
  pub memorials : List Memorial
  pub members : List Member
  pub media : List Medium
  pub events : List Item
  pub tributes : List Item
  pub candles : List Item
  pub reports : List Item
  pub audit : List Activity
  pub controls : List Control
  pub grants : List Grant
  -- Newest first.
  pub history : List Event
  pub nominations : List Nomination
  pub erasure_requests : List ErasureRequest
  pub erasures : List Erasure

-- `ConsentError`, `SuccessionError` and `ErasureError`, by what they say. `integrity` is SQLite's
-- error on a key that is not new, `crash` a `TypeError` that nothing catches.
pub data MemorialError : Type 0 where
  integrity crash : MemorialError
  bad_choice not_owner current_grant_exists bad_reviewer bad_reference not_pending : MemorialError
  no_memorial no_grant bad_death_date not_enabled death_confirmed before_birth : MemorialError
  no_confirmation bad_checkpoint bad_head checkpoint_differs events_missing : MemorialError
  bad_history : Text → ℕ → MemorialError
  no_account already_nominated bad_answer bad_acceptance no_nomination closed : MemorialError
  completed case_differs not_accepted erasure_pending bad_declaration : MemorialError
  no_name already_requested no_request unsafe_filename has_erasures : MemorialError
  ledger_lacks : Text → MemorialError
  inside_data no_ledger ledger_exists incomplete_ledger : MemorialError
  bad_entry : ℕ → MemorialError
  repeats : Text → ℕ → MemorialError

abbrev pub Try {ℓ} : Type ℓ → Type ℓ
Try A = Fallible MemorialError A

-- `SELECT * FROM memorials WHERE id=?`.
unfoldable pub find_memorial : Text → Site → Option Memorial
find_memorial mid site = find (λ m. text_eq m.id mid) site.memorials

unfoldable pub find_control : Text → Site → Option Control
find_control mid site = find (λ c. text_eq c.memorial_id mid) site.controls

-- `UPDATE ... WHERE`.
unfoldable pub update {ℓ} : {A : Type ℓ} → (A → Bool) → (A → A) → List A → List A
update test change [] = []
update test change (x ∷ xs) =
    let rest = update test change xs in if test x then change x ∷ rest else x ∷ rest

-- `x in (a, b)`.
unfoldable pub one_of : Text → Text → Text → Bool
one_of a b x = text_eq x a || text_eq x b

-- `1 <= len(t) <= most`.
abbrev pub within : ℕ → Text → Bool
within most t = leb 1 (length t) && leb (length t) most

-- `[A-Za-z0-9]`.
abbrev pub is_alphanumeric : ℕ → Bool
is_alphanumeric c =
    (leb b'A' c && leb c b'Z') || (leb b'a' c && leb c b'z') || (leb b'0' c && leb c b'9')

-- `[0-9a-f]{64}`.
unfoldable pub is_hex64 : Text → Bool
is_hex64 t = length t == 64 && all (λ c. (leb b'0' c && leb c b'9') || (leb b'a' c && leb c b'f')) t

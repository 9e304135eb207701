-- ===== src/Lib.antt =====
-- A verification library for the two programs of this repository that guard what has been left of a
-- person who has died: the consent service (remembrance-consent/app/) and the memorial site
-- (remembrance/). The service decides who may use it: grants of consent, their verification,
-- acknowledgment and revocation, short-lived authorization tokens, and an audit trail that is a
-- hash chain for each profile. The site keeps memorials: their owner's sharing grants, the transfer
-- of their care, and their erasure, on record in a ledger outside the database.
--
-- The parts, and the files that model them:
--   Prelude     names of the libraries, Boolean tests, lists, texts, dicts
--   Vocabulary  consent/constants.py: the enumerations and the tables on them
--   Purpose     consent/constants.py: normalize_purpose, is_banned_purpose, parse_declared_purpose
--   Kernel      consent/kernel.py: the facts, roles_for, may_use, _grant_failure, decide,
--               disclosed_reason; Kernel/* holds the theorems on the decision
--   Format      str(int), str(UUID), datetime.isoformat; Json: json.dumps as canonical_json calls it,
--               with a reader (Json/Strings, Json/Read) that takes a canonical text apart again
--   Audit       consent/audit.py: validate_payload, compute_event_hash, append_event, verify_chain
--   Store       consent/models.py, successors/models.py, downstream/models.py, and load_profile_facts
--   Token       consent/tokens.py: TokenIssuer, TokenValidator, SqlRevocationChecker
--   Service     the endpoints: Grants (create_grant with schemas.py), Rights (verify_authority,
--               acknowledge), Revocation (revoke, revoke_grant_tokens of cascade.py), Profiles
--               (record_death, designate_successor), Authorize (authorize of kernel.py); Trail and
--               Endpoints hold what each keeps, Steps the sequences of requests
--   Cascade     consent/cascade.py: claim, finish, record_failure; Loops: cancel_deliveries and
--               delete_artifacts; Run: run_cascade and the sweeper; Complete: what finish leaves;
--               Covered, Emptied and Ends: what the loops leave, and how a run ends
--   Utf8        str.encode, which audit.py and erasure.py call
--   Fallible    results of code that raises, with a calculus of what a result has
--   Memorial    the site's tables (schema.sql, migrations/) and errors. Consent, History: consent.py;
--               Succession: succession.py; Ledger (class Ledger, _verify), Erasures (request to
--               _apply, reapply's loop), Erase (erase, reapply, create_ledger): erasure.py; Access:
--               get_memorial, sharing_allowed, visible, owned_action of app.py. Permission, Revoked,
--               Transferred, Visits, Checkpoints, Erased, Finished, Written, Reopened, Reread,
--               Reapplied and Completes hold theorems on them, with lemmas in Rows, Chains, Heads
--               and Entries; Invariant, Append, Operations, Care, Kept and Steps the invariant of
--               the site
--   Tests       runs and instances on concrete data
--
-- How the parts interact: an endpoint reads the tables (Store), asks the kernel for roles or a
-- decision, changes rows, and writes one or two events (Audit). Its model is a function from the
-- tables to a result: an error carries no tables, as the transaction is rolled back. The cascade,
-- which a revocation sets off, commits after each step, so its errors carry tables. An operation of
-- the site is such a function too; erase also writes the ledger's file, which no rollback restores,
-- and reapply commits after each entry, so theirs return the machine with the result. A visit
-- (Access) reads the site's own settings, then asks authorize of consent.py, which records the
-- question in the history. The readings of the clock and the UUIDs drawn are functions of the place
-- of the call, so no invariant rests on a clock that runs forward or on UUIDs that differ.
--
-- Representation: a str is the list of its code points; a UUID and a date are numbers; a datetime
-- is its microseconds since the start of 1 March of the year 0; a frozenset of texts is a list in
-- which each text stands once; a table is a list, that of the events newest first. The site's ids
-- and times are texts, as `now` writes them.
--
-- Bounds and fuel: decimal_from takes one more step than the number it prints, which is more than
-- the number has digits; the reader of Json/Read takes the size of the value as fuel, and its
-- theorems are stated for that fuel and more. `write_all` of Memorial/Ledger takes fuel for its
-- rounds, one more than the line has bytes being enough. Every other recursion is structural.
--
-- Not modelled: SHA-256, Unicode normalization, the JWT library, the object storage, json.loads and
-- Python's tables of characters and dates are parameters of the definitions that use them. Locks of
-- the databases, HTTP, the pydantic field formats, the exports, the rate limiter, errors of the
-- file system and crashes between the ledger and the commit, the site's other routes, its client of
-- the consent service, and the signal archive at the repository's root have no model here. Nor has
-- the UnicodeEncodeError of hashing a text with a lone surrogate (that of validate_payload is
-- modelled): a text that is hashed is taken to have an encoding. The conversion of decoded claims
-- to their types, and the options that validate gives to the JWT library, stand in the parameter
-- for that library.
pub mod Prelude
pub mod Vocabulary
pub mod Purpose
pub mod Kernel
pub mod Format
pub mod Json
pub mod Audit
pub mod Store
pub mod Token
pub mod Utf8
pub mod Fallible
pub mod Memorial
pub mod Service
pub mod Cascade
pub mod Tests

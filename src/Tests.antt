-- ===== src/Tests.antt =====
-- The data on which the theorems of the library are tried: a profile, its grants and its people, as
-- the consent service (remembrance-consent/app/) would hold them.
use the_st.Prelude.{
  ℕ, Bool, true, false, List, [], ◌∷◌, Option, none, some, Text, codes, take, ◌==◌, ◌+◌, ltb, ◌&&◌,
  if◌then◌else◌, ◌-◌,
}
use the_st.Vocabulary.{GrantorType, PurposeScope, RevocationStatus, Role}
use the_st.Purpose.{Unicode}
use the_st.Kernel.{ActorKind, Actor, GrantFacts, ProfileFacts}
use the_st.Store.{Db}
use the_st.Service.{Result, ok, fail}
use the_st.Service.Grants.{ProfileIn, BeneficiaryIn, GrantCreate}
mod Decisions
mod Trail
mod Requests
mod Cascades
mod Memorials
mod Loads

-- Unicode on ASCII.
abbrev pub ascii : Unicode
ascii = record {
  nfkc = λ t. t;
  is_format = λ c. false;
  is_space = λ c. c == b' ';
  upper = λ c. (if ltb 96 c && ltb c 123 then c - 32 else c) ∷ [];
}

-- In place of SHA-256.
abbrev pub fingerprint : Text → Text
fingerprint t = take 8 t

abbrev pub ada : Actor
ada = record {
  user_id = codes "ada";
  email = some (codes "ada@x.org");
  kind = ActorKind.human;
  is_admin = false;
}

abbrev pub ben : Actor
ben = record {
  user_id = codes "ben";
  email = some (codes "ben@x.org");
  kind = ActorKind.human;
  is_admin = false;
}

abbrev pub admin : Actor
admin = record { user_id = codes "root"; email = none; kind = ActorKind.human; is_admin = true }

abbrev pub robot : Actor
robot = record { user_id = codes "bot"; email = none; kind = ActorKind.service; is_admin = false }

-- No relation.
abbrev pub zoe : Actor
zoe = record {
  user_id = codes "zoe";
  email = some (codes "zoe@x.org");
  kind = ActorKind.human;
  is_admin = false;
}

-- A grant of Ada's, verified, with Ben named and his acknowledgment given.
abbrev pub served : GrantFacts
served = record {
  id = 7;
  grantor_type = GrantorType.executor;
  grantor_user_id = codes "ada";
  purpose_scope = PurposeScope.memorial_view ∷ PurposeScope.voice_synthesis ∷ [];
  is_active = true;
  revoked = false;
  verified = true;
  named_emails = codes "ben@x.org" ∷ [];
  acknowledged_emails = codes "ben@x.org" ∷ [];
  required_acknowledgments = none;
}

-- The same, but not verified.
abbrev pub unverified : GrantFacts
unverified = record served { id = 6; verified = false }

abbrev pub facts : ProfileFacts
facts = record {
  id = 5;
  date_of_death = some 740000;
  successor_user_ids = [];
  grants = unverified ∷ served ∷ [];
}

-- A profile whose only grant has not been verified.
abbrev pub waiting : ProfileFacts
waiting = record facts { grants = unverified ∷ [] }

-- The grant that has not been verified.
abbrev pub first_only : GrantFacts → Bool
first_only g = g.id == 6

abbrev pub empty_db : Db
empty_db = record {
  profiles = [];
  grants = [];
  successors = [];
  tokens = [];
  requests = [];
  voice_models = [];
  audio_artifacts = [];
  deliveries = [];
  audit = [];
}

-- Ada's request for a grant on a new profile.
abbrev pub ada_request : GrantCreate
ada_request = record {
  deceased_profile_id = none;
  deceased_profile = some (record {
    full_name = codes "Eve";
    date_of_birth = some 700000;
    date_of_death = some 738000;
    jurisdiction_state = codes "CA";
  });
  grantor_type = GrantorType.executor;
  grantor_legal_name = codes "Ada";
  grantor_contact_email = codes "ada@x.org";
  legal_authority_document_url = codes "https://x.org/d";
  purpose_scope = PurposeScope.memorial_view ∷ [];
  beneficiaries = record { name = codes "Ben"; email = codes "ben@x.org" } ∷ [];
  required_acknowledgments = none;
}

-- The clock's readings, a microsecond apart, and fresh ids.
abbrev pub clock : ℕ → ℕ
clock n = 63875520000000000 + n

abbrev pub fresh : ℕ → ℕ
fresh n = 100 + n

abbrev pub result_or : {A : Type 0} → A → Result A → A
result_or default (ok a) = a
result_or default (fail e) = default

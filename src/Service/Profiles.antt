-- ===== src/Service/Profiles.antt =====
-- The endpoints that designate a successor (remembrance-consent/app/successors/router.py) and record a
-- death (profiles/router.py).
use the_st.Prelude.{
  ℕ, Bool, not, ◌&&◌, ◌||◌, List, [], ◌∷◌, none, some, Text, codes, ltb, ◌==◌, if◌then◌else◌,
  is_some, any, find, text_eq,
}
use the_st.Format.{uuid_text}
use the_st.Json.{pos, Value}
use the_st.Vocabulary.{AuditEventType}
use the_st.Kernel.{Actor, is_deceased_actor, is_related}
use the_st.Store.{Profile, Successor, Db, find_profile, load_profile_facts}
use the_st.Service.{
  Failure, Result, ok, ◌>>=◌, ◌>>◌, raise_if, or_fail, payload, audit, require_human,
}
use the_st.Service.Grants.{date_of, later_than}

module _ (sha256 : Text → Text) where
  -- The designation that a new one clashes with.
  abbrev pub clashes : ℕ → Text → ℕ → Successor → Bool
  clashes pid user_id priority s =
      s.deceased_profile_id == pid
      && (s.priority_order == priority || text_eq s.successor_user_id user_id)

  -- `designate_successor`.
  unfoldable pub designate_successor :
      (ℕ → ℕ) → ℕ → ℕ → Text → ℕ → Actor → Db → Result (Successor × Db)
  designate_successor clock fresh_id pid user_id priority actor db = do
    require_human actor
    facts ← or_fail (load_profile_facts pid db) Failure.not_found
    raise_if (not (is_related actor facts)) Failure.not_found
    raise_if (is_deceased_actor actor facts) Failure.deceased_cannot_act
    raise_if
        (not (
          actor.is_admin
          || any (λ g. g.verified && not g.revoked && text_eq g.grantor_user_id actor.user_id)
              facts.grants))
        Failure.owner_required
    raise_if (is_some (find (clashes pid user_id priority) db.successors))
        Failure.successor_conflict
    let designation : Successor = record {
      id = fresh_id;
      deceased_profile_id = pid;
      successor_user_id = user_id;
      priority_order = priority;
      designated_at = clock 0;
      designated_by = actor.user_id;
    }
    written ←
        audit sha256 (clock 1) AuditEventType.successor_designated actor.user_id pid none
          (payload (
            (codes "successor_designation_id", Value.str (uuid_text fresh_id))
            ∷ (codes "successor_user_id", Value.str user_id)
            ∷ (codes "priority_order", Value.int (pos priority))
            ∷ []))
          (record db { successors = designation ∷ db.successors })
    ok (designation, written)

  -- The row of a profile rewritten with its date of death.
  unfoldable pub set_death : ℕ → ℕ → List Profile → List Profile
  set_death id day [] = []
  set_death id day (p ∷ ps) =
      (if p.id == id then record p { date_of_death = some day } else p) ∷ set_death id day ps

  -- `record_death`.
  unfoldable pub record_death : (ℕ → ℕ) → ℕ → ℕ → Text → Actor → Db → Result Db
  unfolding set_death
  record_death clock pid day certificate actor db = do
    raise_if (not actor.is_admin) Failure.admin_required
    profile ← or_fail (find_profile pid db) Failure.not_found
    raise_if (is_some profile.date_of_death) Failure.death_already_recorded
    raise_if (ltb (date_of (clock 0)) day) Failure.date_of_death_in_future
    raise_if (later_than profile.date_of_birth (some day)) Failure.date_of_death_before_birth
    audit sha256 (clock 1) AuditEventType.death_recorded actor.user_id pid none
        (payload ((codes "death_certificate_sha256", Value.str certificate) ∷ []))
        (record db { profiles = set_death pid day db.profiles })

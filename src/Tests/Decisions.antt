-- ===== src/Tests/Decisions.antt =====
-- The theorems on the decision of remembrance-consent/app/consent/kernel.py, on the test data.
use the_st.Prelude.{
  ◌≡◌, refl, ◌↔◌, inl, inr, true, false, [], ◌∷◌, some, none, codes, Any, All, ◌≤◌, mem_text,
  text_eq,
}
use the_st.Vocabulary.{ConsentAction, action_purpose, DenialReason, is_use}
use the_st.Purpose.{
  is_banned_purpose, normalize_purpose, split, banned_tokens, parse_declared_purpose,
  purpose_of_value, is_banned_normal, contains_tokens, has_window, texts_eq, sub_separators,
}
use the_st.Purpose.Banned.{Contains, is_banned_purpose_iff, parse-is_banned}
use the_st.Kernel.{
  decide, decide_parsed, decide_known, decide_use, is_deceased_actor, scan_grants, grant_failure,
  may_use, in_scope, scope_of, satisfied, quorum, furthest, grant_stage, is_related, roles_for,
}
use the_st.Kernel.Grants.{Passes}
use the_st.Kernel.Quorums.{satisfied-All, satisfied-le-named}
use the_st.Kernel.Permission.{Permitted, decide-allowed_iff, decide-forbidden}
use the_st.Kernel.Reasons.{
  decide_use-reason, stranger_learns_nothing, disclosed, RestsOnFirst, decide_use-RestsOnFirst,
}
use the_st.Kernel.Revoked.{withdraw, decide-rights_withdraw, decide-use_withdraw}
use the_st.Tests.{ascii, ada, zoe, robot, facts, waiting, first_only}

decide-allowed_iff_example :
    ((decide ascii ConsentAction.view_memorial (codes "memorial_view") ada (some facts)).allowed
      ≡ true)
    ↔ Permitted ascii ConsentAction.view_memorial (codes "memorial_view") ada facts
decide-allowed_iff_example =
    decide-allowed_iff ascii ConsentAction.view_memorial (codes "memorial_view") ada facts

decide-forbidden_example :
    (decide ascii ConsentAction.view_memorial (codes "memorial_view") robot (some facts)).allowed
    ≡ false
decide-forbidden_example =
    decide-forbidden ascii ConsentAction.view_memorial (codes "memorial_view") robot facts
      (inr (inl refl))

decide_use-reason_example :
    Any
      (λ g.
        grant_failure ConsentAction.view_memorial
          (action_purpose ConsentAction.view_memorial)
          ada
          waiting
          g
        ≡ some DenialReason.authority_not_verified)
      waiting.grants
    × All
        (λ g.
          (f : DenialReason)
          → grant_failure ConsentAction.view_memorial
              (action_purpose ConsentAction.view_memorial)
              ada
              waiting
              g
            ≡ some f
          → grant_stage f ≤ grant_stage DenialReason.authority_not_verified)
        waiting.grants
unfolding decide_use scan_grants grant_failure may_use furthest
decide_use-reason_example =
    decide_use-reason ConsentAction.view_memorial ada waiting DenialReason.authority_not_verified
      refl (λ e. cc) refl

stranger_learns_nothing_example :
    disclosed (
      decide ascii ConsentAction.initiate_voice_synthesis
        (codes "VOICE_SYNTHESIS")
        zoe
        (some facts))
    ≡ disclosed
        (decide ascii ConsentAction.initiate_voice_synthesis (codes "VOICE_SYNTHESIS") zoe none)
unfolding decide is_related roles_for parse_declared_purpose normalize_purpose decide_parsed
    decide_known decide_use scan_grants grant_failure may_use is_deceased_actor text_eq
    purpose_of_value the_st.Purpose.strip sub_separators the_st.Purpose.is_separator action_purpose
    is_use
stranger_learns_nothing_example =
    stranger_learns_nothing ascii ConsentAction.initiate_voice_synthesis (codes "VOICE_SYNTHESIS")
      zoe (some facts) none refl refl tt refl refl

decide_use-RestsOnFirst_example :
    RestsOnFirst ConsentAction.view_memorial
      (action_purpose ConsentAction.view_memorial)
      ada
      facts
      facts.grants
      (decide_use ConsentAction.view_memorial
        (action_purpose ConsentAction.view_memorial)
        ada
        facts)
unfolding decide_use scan_grants grant_failure may_use in_scope satisfied quorum is_related
    roles_for furthest scope_of action_purpose text_eq
decide_use-RestsOnFirst_example = decide_use-RestsOnFirst ConsentAction.view_memorial ada facts refl

decide-rights_withdraw_example :
    decide ascii ConsentAction.export_data
      (codes "DATA_PORTABILITY")
      ada
      (some (withdraw first_only facts))
    ≡ decide ascii ConsentAction.export_data (codes "DATA_PORTABILITY") ada (some facts)
unfolding is_use
decide-rights_withdraw_example =
    decide-rights_withdraw ascii ConsentAction.export_data (codes "DATA_PORTABILITY") ada first_only
      facts refl

decide-use_withdraw_example :
    Any
      (λ g.
        (first_only g ≡ false)
        × Passes ConsentAction.view_memorial
            (action_purpose ConsentAction.view_memorial)
            ada
            facts
            g)
      facts.grants
    × ((decide ascii ConsentAction.view_memorial (codes "memorial_view") ada (some facts)).allowed
        ≡ true)
unfolding decide is_related roles_for parse_declared_purpose normalize_purpose decide_parsed
    decide_known decide_use scan_grants grant_failure may_use is_deceased_actor in_scope satisfied
    quorum purpose_of_value is_banned_normal is_use text_eq the_st.Purpose.strip sub_separators
    the_st.Purpose.is_separator action_purpose scope_of
decide-use_withdraw_example =
    decide-use_withdraw ascii ConsentAction.view_memorial (codes "memorial_view") ada first_only
      facts refl refl

satisfied-All_example :
    (satisfied (quorum (codes "a" ∷ codes "b" ∷ []) (codes "b" ∷ []) none) ≡ true)
    ↔ All (λ e. mem_text e (codes "b" ∷ []) ≡ true) (codes "a" ∷ codes "b" ∷ [])
satisfied-All_example = satisfied-All (codes "a" ∷ codes "b" ∷ []) (codes "b" ∷ [])

satisfied-le-named_example : 1 ≤ 2
unfolding satisfied quorum text_eq
satisfied-le-named_example = satisfied-le-named (codes "a" ∷ codes "b" ∷ []) (codes "b" ∷ []) 1 refl

is_banned_purpose_iff_example :
    (is_banned_purpose ascii (codes "ad marketing!") ≡ true)
    ↔ Any (Contains (split (normalize_purpose ascii (codes "ad marketing!")))) banned_tokens
is_banned_purpose_iff_example = is_banned_purpose_iff ascii (codes "ad marketing!")

parse-is_banned_example : parse_declared_purpose ascii (codes "a property-claim") ≡ none
unfolding is_banned_purpose is_banned_normal normalize_purpose contains_tokens has_window texts_eq
    banned_tokens text_eq the_st.Purpose.strip sub_separators the_st.Purpose.is_separator
parse-is_banned_example = parse-is_banned ascii (codes "a property-claim") refl

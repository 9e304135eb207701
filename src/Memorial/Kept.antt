-- ===== src/Memorial/Kept.antt =====
-- What `erase` and `reapply` of remembrance/erasure.py keep of the invariant, whether they succeed or
-- end in an error.
use mathlib.Core.Path.{subst}
use the_st.Prelude.{
  ℕ, suc, refl, sym, Bool, true, false, List, [], ◌∷◌, Option, none, some, Text, Bool-cases, inl,
  inr,
}
use the_st.Fallible.{ok, fail, Post, Post-ok, Post-bind, Post-guard, Fallible-cases}
use the_st.Memorial.{Site, Try}
use the_st.Memorial.Consent.{append_event}
use the_st.Memorial.Ledger.{Entry, Reader, entry_for, open_ledger}
use the_st.Memorial.Erasures.{
  World, Summary, delete_rows, exists_memorial, is_registered, register, check_registry, apply,
  reapply_entry, reapply_entries, reapply,
}
use the_st.Memorial.Erase.{
  Machine, contents, commit, erase_identified, erase_opened, erase_reviewed, erase_entry,
  open_existing, reapply_ledger,
}
use the_st.Memorial.Append.{grow}
use the_st.Memorial.Erased.{register-Registered}
use the_st.Memorial.Invariant.{Sound, GoodGrants-keep, GoodNominations-keep, GoodRequests-keep}

module _ (sha256 : Text → Text) where
  register-Sound :
      (now : Text) (e : Entry) (site : Site)
      → Sound sha256 site
      → Post (Sound sha256) (register now e site)
  register-Sound now e site sound = record {
    holds = λ site' run.
        let registered = (register-Registered [] now e site).holds site' run in
        subst (Sound sha256) (sym registered.0) sound;
  }

  apply-Sound :
      (now later : Text) (e : Entry) (reapplied : Bool) (w : World)
      → Sound sha256 w.site
      → Post (λ w'. Sound sha256 w'.site) (apply sha256 now later e reapplied w)
  unfolding apply append_event delete_rows
  apply-Sound now later e reapplied w (grown, grants, nominations, requests) = Post-guard _ _ λ _.
      Post-bind λ site' run. Post-ok (
        (register-Sound later e _ (
          grow _ _ _ _ _ _ grown,
          GoodGrants-keep _ w.site.grants grants,
          GoodNominations-keep _ w.site.nominations nominations,
          GoodRequests-keep _ w.site.erasure_requests requests,
        )).holds
          site' run)

  commit-Sound :
      (run : Try World) (m : Machine)
      → Sound sha256 m.world.site
      → Post (λ w. Sound sha256 w.site) run
      → Sound sha256 (commit run m).0.world.site
  commit-Sound (ok w) m sound post = post.holds w refl
  commit-Sound (fail e) m sound post = sound

  erase_entry-Sound :
      (clock : ℕ → Text) (mid actor evidence : Text) (entries : List Entry) (found : Option Entry)
      (m : Machine)
      → Sound sha256 m.world.site
      → Sound sha256 (erase_entry sha256 clock mid actor evidence entries found m).0.world.site
  unfolding erase_entry
  erase_entry-Sound clock mid actor evidence entries (some e) m sound =
      commit-Sound _ m sound (apply-Sound _ _ e true m.world sound)
  erase_entry-Sound clock mid actor evidence entries none m sound =
      commit-Sound _ _ sound (apply-Sound _ _ _ false m.world sound)

  erase_reviewed-Sound :
      (clock : ℕ → Text) (mid actor evidence : Text) (entries : List Entry) (go : Try Bool)
      (m : Machine)
      → Sound sha256 m.world.site
      → Sound sha256 (erase_reviewed sha256 clock mid actor evidence entries go m).0.world.site
  unfolding erase_reviewed
  erase_reviewed-Sound clock mid actor evidence entries (ok true) m sound =
      erase_entry-Sound clock mid actor evidence entries (entry_for mid entries) m sound
  erase_reviewed-Sound clock mid actor evidence entries (ok false) m sound = sound
  erase_reviewed-Sound clock mid actor evidence entries (fail e) m sound = sound

  erase_opened-Sound :
      (clock : ℕ → Text) (mid owner_id actor evidence : Text) (entries : Try (List Entry))
      (m : Machine)
      → Sound sha256 m.world.site
      → Sound sha256 (erase_opened sha256 clock mid owner_id actor evidence entries m).0.world.site
  unfolding erase_opened
  erase_opened-Sound clock mid owner_id actor evidence (ok entries) m sound =
      erase_reviewed-Sound clock mid actor evidence entries _ m sound
  erase_opened-Sound clock mid owner_id actor evidence (fail e) m sound = sound

  pub erase_identified-Sound :
      (r : Reader) (clock : ℕ → Text) (mid owner_id : Text) (who : Try (Text × Text)) (m : Machine)
      → Sound sha256 m.world.site
      → Sound sha256 (erase_identified sha256 r clock mid owner_id who m).0.world.site
  unfolding erase_identified
  erase_identified-Sound r clock mid owner_id (ok (actor, evidence)) m sound =
      erase_opened-Sound clock mid owner_id actor evidence
        (open_ledger sha256 r (contents m.ledger)) (record m { ledger = some (contents m.ledger) })
        sound
  erase_identified-Sound r clock mid owner_id (fail e) m sound = sound

  reapply_entry-Sound :
      (now later : Text) (e : Entry) (w : World) (s : Summary)
      → Sound sha256 w.site
      → Post (λ r. Sound sha256 r.0.site) (reapply_entry sha256 now later e (w, s))
  unfolding reapply_entry
  reapply_entry-Sound now later e w s sound =
      elim (Bool-cases (exists_memorial e.memorial_id w.site)) [
        | inl back ↦
            rw back
              (Post-bind λ w' run. Post-ok ((apply-Sound now later e true w sound).holds w' run))
        | inr away ↦ elim (Bool-cases (is_registered e.memorial_id w.site)) [
          | inl old ↦ rw (away, old) (Post-ok sound)
          | inr new ↦
              rw (away, new)
                (Post-bind
                  λ site' run. Post-ok ((register-Sound now e w.site sound).holds site' run))
        ]
      ]

  reapply_entries-Sound :
      (clock : ℕ → Text) (n : ℕ) (es : List Entry) (w : World) (s : Summary)
      → Sound sha256 w.site
      → Sound sha256 (reapply_entries sha256 clock n es (w, s)).0.site
  unfolding reapply_entries
  reapply_entries-Sound clock n [] w s sound = sound
  reapply_entries-Sound clock n (e ∷ es) w s sound =
      elim (Fallible-cases (reapply_entry sha256 (clock n) (clock (suc n)) e (w, s))) [
        | inl (error, eq) ↦ rw (eq, reapply_entries) sound
        | inr ((w', s'), eq) ↦
            rw (eq, reapply_entries)
              (reapply_entries-Sound clock (suc (suc n)) es w' s'
                ((reapply_entry-Sound (clock n) (clock (suc n)) e w s sound).holds (w', s') eq))
      ]

  reapply-Sound :
      (clock : ℕ → Text) (entries : List Entry) (w : World)
      → Sound sha256 w.site
      → Sound sha256 (reapply sha256 clock entries w).0.site
  unfolding reapply
  reapply-Sound clock entries w sound =
      elim (Fallible-cases (check_registry entries w.site.erasures)) [
        | inl (error, eq) ↦ rw (eq, reapply) sound
        | inr (u, eq) ↦ rw (eq, reapply) (reapply_entries-Sound clock 0 entries w _ sound)
      ]

  pub reapply_ledger-Sound :
      (r : Reader) (clock : ℕ → Text) (path data_dir : List Text) (m : Machine)
      → Sound sha256 m.world.site
      → Sound sha256 (reapply_ledger sha256 r clock path data_dir m).0.world.site
  unfolding reapply_ledger
  reapply_ledger-Sound r clock path data_dir m sound =
      elim (Fallible-cases (open_existing sha256 r path data_dir m.ledger)) [
        | inl (error, eq) ↦ rw (eq, reapply_ledger) sound
        | inr (entries, eq) ↦ rw (eq, reapply_ledger) (reapply-Sound clock entries m.world sound)
      ]

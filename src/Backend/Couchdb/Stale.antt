-- ===== src/Backend/Couchdb/Stale.antt =====
-- backend/couchdb/health_check.go: the check that does not end.
use bricks.Prelude.{ℕ, zero, suc, ◌≡◌, refl, ap, ◌∙◌, ◌≢◌, Bool, true, false, [], ◌∷◌, none, some}
use bricks.Prelude.Int.{ℤ}
use bricks.Prelude.Text.{Text, is_empty}
use bricks.Backend.Objstore.{TimeFormat, was_concurrent_health_check}
use bricks.Backend.Couchdb.{
  Doc, get_failed, row, put_failed, Environment, at_check, at_put, goto, Config, not_found,
  conflict, no_doc, updated, run, stored, health_check,
}
use bricks.Health.{ConnectionState}
use bricks.Backend.Cached.{is_fresh}
use bricks.Backend.Couchdb.Jumps.{run-goto, jump-row, jump-not_found, jump-conflict}

-- The document is deleted for good, and a put of an older revision is a conflict.
pub record IsDeleted {E : Type 0} (env : Environment E) : Type 0 where
  pub alive : (e : E) → env.done e ≡ none
  pub deleted : E → Bool
  pub get-deleted :
      (e : E) → deleted e ≡ true → (text : Text) × (env.get e ≡ get_failed not_found text)
  pub put-deleted :
      (e : E) (d : Doc)
      → deleted e ≡ true
      → d.rev ≢ []
      → (text : Text) × (e' : E) × (env.put d e ≡ (put_failed conflict text, e'))
        × (deleted e' ≡ true)

module _ {E : Type 0} (f : TimeFormat) (cfg : Config) (env : Environment E) (check_time : ℤ)
    (gone : IsDeleted env) where
  open gone use {deleted}

  -- From either label the next two jumps lead back to it.
  check_goes_on :
      (fuel : ℕ) (d : Doc) (e : E)
      → deleted e ≡ true
      → d.rev ≢ []
      → run f cfg env fuel check_time (goto at_check d e) ≡ none
  check_goes_on zero d e h r = unfold run in refl
  check_goes_on (suc zero) d e h r =
      let (text, g) = gone.get-deleted e h in
      run-goto f cfg env check_time 0 at_check d e (goto at_put d e)
        (jump-not_found f cfg env check_time d e text (gone.alive e) g)
      ∙ (unfold run in refl)
  check_goes_on (suc (suc fuel)) d e h r =
      let (text, g) = gone.get-deleted e h in
      let (text', e', p, h') = gone.put-deleted e (updated f cfg env d e) h r in
      run-goto f cfg env check_time (suc fuel) at_check d e (goto at_put d e)
        (jump-not_found f cfg env check_time d e text (gone.alive e) g)
      ∙ run-goto f cfg env check_time fuel at_put d e (goto at_check (updated f cfg env d e) e')
          (jump-conflict f cfg env check_time d e e' text' p)
      ∙ check_goes_on fuel (updated f cfg env d e) e' h' r

nonempty : (s : Text) → is_empty s ≡ false → s ≢ []
unfolding is_empty
nonempty [] h e = cc
nonempty (c ∷ s) h e = cc

-- If the check has read an older document, which is then deleted, so that its put is a conflict: as
-- long as the document stays deleted and the context is not done, no number of jumps ends the check.
pub health_check-stale_revision :
    {E : Type 0} (f : TimeFormat) (cfg : Config) (env : Environment E) (e e' : E) (d : Doc)
    (text : Text) (cs : ConnectionState) (fuel : ℕ) (gone : IsDeleted env)
    → is_fresh cfg.ttl (env.now e) cs ≡ false
    → env.get e ≡ row d.rev (some d)
    → is_empty d.rev ≡ false
    → was_concurrent_health_check f (env.now e) d.time ≡ false
    → env.put (updated f cfg env d e) e ≡ (put_failed conflict text, e')
    → gone.deleted e' ≡ true
    → health_check f cfg env fuel cs e ≡ none
unfolding health_check
health_check-stale_revision f cfg env e e' d text cs fuel gone stale g r old p h =
    rw stale (ap (λ x. stored f cfg env x cs) (goes_on fuel))
  where
    goes_on : (fuel : ℕ) → run f cfg env fuel (env.now e) (goto at_check no_doc e) ≡ none
    goes_on zero = unfold run in refl
    goes_on (suc zero) =
        run-goto f cfg env (env.now e) 0 at_check no_doc e (goto at_put d e)
          (jump-row f cfg env (env.now e) no_doc d e (gone.alive e) g r ∙ rw old)
        ∙ (unfold run in refl)
    goes_on (suc (suc fuel)) =
        run-goto f cfg env (env.now e) (suc fuel) at_check no_doc e (goto at_put d e)
          (jump-row f cfg env (env.now e) no_doc d e (gone.alive e) g r ∙ rw old)
        ∙ run-goto f cfg env (env.now e) fuel at_put d e (goto at_check (updated f cfg env d e) e')
            (jump-conflict f cfg env (env.now e) d e e' text p)
        ∙ check_goes_on f cfg env (env.now e) gone fuel (updated f cfg env d e) e' h
            (nonempty d.rev r)

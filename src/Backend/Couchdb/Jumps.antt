-- ===== src/Backend/Couchdb/Jumps.antt =====
-- backend/couchdb/health_check.go: the steps of its jumps.
use bricks.Prelude.{
  arith, ℕ, zero, suc, ◌≡◌, refl, ap, true, false, Option, none, some, if◌then◌else◌,
}
use bricks.Prelude.Int.{ℤ}
use bricks.Prelude.Text.{Text, is_empty}
use bricks.Backend.Objstore.{TimeFormat, was_concurrent_health_check}
use bricks.Backend.Couchdb.{
  Doc, get_failed, row, put_done, put_failed, Environment, Label, at_check, at_put, Jump, goto,
  finish, Config, not_found, conflict, updated, run, jump, scanned, got, check_step, created,
  put_result, put_step,
}

module _ {E : Type 0} (f : TimeFormat) (cfg : Config) (env : Environment E) (check_time : ℤ) where
  pub run-finish :
      (fuel : ℕ) (r : Option Text) (e : E)
      → run f cfg env fuel check_time (finish r e) ≡ some (r, e)
  unfolding run
  run-finish zero r e = refl
  run-finish (suc fuel) r e = refl

  pub run-goto :
      (fuel : ℕ) (l : Label) (d : Doc) (e : E) (j : Jump E)
      → jump f cfg env check_time l d e ≡ j
      → run f cfg env (suc fuel) check_time (goto l d e) ≡ run f cfg env fuel check_time j
  unfolding run
  run-goto fuel l d e j h = ap (run f cfg env fuel check_time) h

  -- The check of a document with a revision
  pub jump-row :
      (d d' : Doc) (e : E)
      → env.done e ≡ none
      → env.get e ≡ row d'.rev (some d')
      → is_empty d'.rev ≡ false
      → jump f cfg env check_time at_check d e ≡ (
          if was_concurrent_health_check f check_time d'.time
          then finish none e
          else goto at_put d' e)
  unfolding jump check_step got scanned
  jump-row d d' e a g r = rw (a, g, r) refl

  pub jump-not_found :
      (d : Doc) (e : E) (text : Text)
      → env.done e ≡ none
      → env.get e ≡ get_failed not_found text
      → jump f cfg env check_time at_check d e ≡ goto at_put d e
  unfolding jump check_step got
  jump-not_found d e text a g = rw (a, g) refl

  pub jump-put_done :
      (d : Doc) (e e' : E)
      → env.put (updated f cfg env d e) e ≡ (put_done, e')
      → jump f cfg env check_time at_put d e ≡ goto at_check (updated f cfg env d e) e'
  unfolding jump put_step put_result
  jump-put_done d e e' p = rw p refl

  pub jump-create :
      (d : Doc) (e e' e'' : E) (text : Text)
      → env.put (updated f cfg env d e) e ≡ (put_failed not_found text, e')
      → cfg.auto_create ≡ true
      → env.create_db e' ≡ (none, e'')
      → jump f cfg env check_time at_put d e ≡ goto at_put (updated f cfg env d e) e''
  unfolding jump put_step put_result created
  jump-create d e e' e'' text p a c = rw (p, a, c) refl

  pub jump-conflict :
      (d : Doc) (e e' : E) (text : Text)
      → env.put (updated f cfg env d e) e ≡ (put_failed conflict text, e')
      → jump f cfg env check_time at_put d e ≡ goto at_check (updated f cfg env d e) e'
  unfolding jump put_step put_result
  jump-conflict d e e' text p = rw p (ground arith)

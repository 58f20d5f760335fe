-- ===== src/Backend/Couchdb/Ends.antt =====
-- backend/couchdb/health_check.go: when the check ends.
use bricks.Prelude.{
  Bool-cases, Option-cases, ℕ, suc, ◌≡◌, refl, sym, ◌∙◌, ◌⊎◌, inl, inr, Bool, true, false, [],
  Option, none, some,
}
use bricks.Prelude.Int.{ℤ}
use bricks.Prelude.Text.{Text, is_empty}
use bricks.Backend.Objstore.{TimeFormat, was_concurrent_health_check}
use bricks.Backend.Couchdb.{
  Doc, get_failed, row, put_done, put_failed, Environment, Label, at_check, at_put, goto, finish,
  Config, not_found, no_doc, updated, run, jump, health_check,
}
use bricks.Health.{ConnectionState, set_healthy}
use bricks.Backend.Cached.{is_fresh}
use bricks.Backend.Objstore.Healthy.{IsNear, IsNear→was_concurrent}
use bricks.Backend.Couchdb.Jumps.{
  run-finish, run-goto, jump-row, jump-not_found, jump-put_done, jump-create,
}

-- What is known of a couchdb that works and that nobody else writes to: it holds the document or not,
-- and it exists or not. A put of the present revision succeeds, and is read back.
pub record IsDatabase {E : Type 0} (env : Environment E) : Type 0 where
  pub doc : E → Option Doc
  pub missing : E → Bool
  pub get-none : (e : E) → doc e ≡ none → (text : Text) × (env.get e ≡ get_failed not_found text)
  pub get-some : (e : E) (d : Doc) → doc e ≡ some d → env.get e ≡ row d.rev (some d)
  pub rev_nonempty : (e : E) (d : Doc) → doc e ≡ some d → is_empty d.rev ≡ false
  pub empty_if_missing : (e : E) → missing e ≡ true → doc e ≡ none
  pub put-missing :
      (e : E) (d : Doc)
      → missing e ≡ true
      → (text : Text) × (e' : E) × (env.put d e ≡ (put_failed not_found text, e'))
        × (missing e' ≡ true)
  pub create :
      (e : E)
      → missing e ≡ true
      → (e' : E) × (env.create_db e ≡ (none, e')) × (missing e' ≡ false) × (doc e' ≡ none)
  pub put-new :
      (e : E) (d : Doc)
      → missing e ≡ false
      → doc e ≡ none
      → d.rev ≡ []
      → (e' : E) × (env.put d e ≡ (put_done, e'))
        × (d' : Doc) × (doc e' ≡ some d')
        × (d'.time ≡ d.time)
  pub put-over :
      (e : E) (d old : Doc)
      → missing e ≡ false
      → doc e ≡ some old
      → d.rev ≡ old.rev
      → (e' : E) × (env.put d e ≡ (put_done, e'))
        × (d' : Doc) × (doc e' ≡ some d')
        × (d'.time ≡ d.time)

module _ {E : Type 0} (f : TimeFormat) (cfg : Config) (env : Environment E) (check_time : ℤ)
    (db : IsDatabase env) (alive : (e : E) → env.done e ≡ none)
    (near : (e : E) → IsNear f check_time (f.format (env.now e))) where
  open db use {doc, missing}

  abbrev Ends : ℕ → Label → Doc → E → Type 0
  Ends fuel l d e = (e' : E) × (run f cfg env fuel check_time (goto l d e) ≡ some (none, e'))

  continues :
      (fuel : ℕ) (l m : Label) (d d' : Doc) (e e' : E)
      → jump f cfg env check_time l d e ≡ goto m d' e'
      → Ends fuel m d' e'
      → Ends (suc fuel) l d e
  continues fuel l m d d' e e' h (e'', r) =
      (e'', run-goto f cfg env check_time fuel l d e (goto m d' e') h ∙ r)

  -- A document with such a time ends the check.
  reads_back :
      (fuel : ℕ) (d d' : Doc) (e : E)
      → doc e ≡ some d'
      → IsNear f check_time d'.time
      → Ends (suc fuel) at_check d e
  reads_back fuel d d' e h n =
      let found : jump f cfg env check_time at_check d e ≡ finish none e =
        jump-row f cfg env check_time d d' e (alive e) (db.get-some e d' h) (db.rev_nonempty e d' h)
        ∙ rw (IsNear→was_concurrent f check_time d'.time n) in
      (
        e,
        run-goto f cfg env check_time fuel at_check d e (finish none e) found
            ∙ run-finish f cfg env check_time fuel none e,
      )

  -- From what a put has left
  after_put :
      (fuel : ℕ) (d : Doc) (e : E) (e' : E)
      → env.put (updated f cfg env d e) e ≡ (put_done, e')
      → (d' : Doc) (h : doc e' ≡ some d') (t : d'.time ≡ f.format (env.now e))
      → Ends (suc (suc fuel)) at_put d e
  after_put fuel d e e' p d' h t =
      continues (suc fuel) at_put at_check d (updated f cfg env d e) e e'
        (jump-put_done f cfg env check_time d e e' p)
        (reads_back fuel (updated f cfg env d e) d' e' h (rw t (near e)))

  put_new :
      (fuel : ℕ) (d : Doc) (e : E)
      → missing e ≡ false
      → doc e ≡ none
      → d.rev ≡ []
      → Ends (suc (suc fuel)) at_put d e
  put_new fuel d e m h r =
      let (e', p, d', h', t) = db.put-new e (updated f cfg env d e) m h r in
      after_put fuel d e e' p d' h' t

  put_over :
      (fuel : ℕ) (d old : Doc) (e : E)
      → missing e ≡ false
      → doc e ≡ some old
      → d.rev ≡ old.rev
      → Ends (suc (suc fuel)) at_put d e
  put_over fuel d old e m h r =
      let (e', p, d', h', t) = db.put-over e (updated f cfg env d e) old m h r in
      after_put fuel d e e' p d' h' t

  put_missing :
      (fuel : ℕ) (d : Doc) (e : E)
      → missing e ≡ true
      → cfg.auto_create ≡ true
      → d.rev ≡ []
      → Ends (suc (suc (suc fuel))) at_put d e
  put_missing fuel d e m a r =
      let (text, e', p, m') = db.put-missing e (updated f cfg env d e) m in
      let (e'', c, m'', h) = db.create e' m' in
      continues (suc (suc fuel)) at_put at_put d (updated f cfg env d e) e e''
        (jump-create f cfg env check_time d e e' e'' text p a c)
        (put_new fuel (updated f cfg env d e) e'' m'' h r)

  -- The database exists, or the check may create it.
  abbrev Usable : E → Type 0
  Usable e = (missing e ≡ false) ⊎ (cfg.auto_create ≡ true)

  from_none : (e : E) → Usable e → doc e ≡ none → Ends 4 at_check no_doc e
  from_none e u h =
      let (text, g) = db.get-none e h in
      continues 3 at_check at_put no_doc no_doc e e
        (jump-not_found f cfg env check_time no_doc e text (alive e) g) (put u)
    where
      put : Usable e → Ends 3 at_put no_doc e
      put (inl m) = put_new 1 no_doc e m h refl
      put (inr a) = elim (Bool-cases (missing e)) [
        | inl m ↦ put_missing 0 no_doc e m a refl
        | inr m ↦ put_new 1 no_doc e m h refl
      ]

  exists_if_some : (e : E) (d : Doc) → doc e ≡ some d → missing e ≡ false
  exists_if_some e d h = elim (Bool-cases (missing e)) [
    | inl m ↦ absurd (let n : none ≡ some d = sym (db.empty_if_missing e m) ∙ h in cc)
    | inr m ↦ m
  ]

  from_some : (e : E) (d : Doc) → doc e ≡ some d → Ends 4 at_check no_doc e
  from_some e d h = elim (Bool-cases (was_concurrent_health_check f check_time d.time)) [
    | inl n ↦ (
      e,
      run-goto f cfg env check_time 3 at_check no_doc e (finish none e) (
            jump-row f cfg env check_time no_doc d e (alive e) (db.get-some e d h)
              (db.rev_nonempty e d h)
            ∙ rw n)
          ∙ run-finish f cfg env check_time 3 none e,
    )
    | inr n ↦
        continues 3 at_check at_put no_doc d e e
          (jump-row f cfg env check_time no_doc d e (alive e) (db.get-some e d h)
              (db.rev_nonempty e d h)
            ∙ rw n)
          (put_over 1 d d e (exists_if_some e d h) h refl)
  ]

  ends : (e : E) → Usable e → Ends 4 at_check no_doc e
  ends e u = elim (Option-cases (doc e)) [ inl h ↦ from_none e u h | inr (d, h) ↦ from_some e d h ]

-- On a database that works, that nobody else writes to and that exists or may be created, with a
-- context that is not done and a clock that shows less than ten seconds from the start of the check:
-- a check that is due makes at most four jumps, whatever document the database held before, and the
-- state is healthy.
pub health_check-Ends :
    {E : Type 0} (f : TimeFormat) (cfg : Config) (env : Environment E) (e : E)
    (cs : ConnectionState) (db : IsDatabase env)
    → ((e' : E) → env.done e' ≡ none)
    → ((e' : E) → IsNear f (env.now e) (f.format (env.now e')))
    → (db.missing e ≡ false) ⊎ (cfg.auto_create ≡ true)
    → is_fresh cfg.ttl (env.now e) cs ≡ false
    → (e' : E) × (health_check f cfg env 4 cs e ≡ some (set_healthy (env.now e') cs, e'))
unfolding health_check
health_check-Ends f cfg env e cs db alive near u stale =
    let (e', r) = ends f cfg env (env.now e) db alive near e u in (e', rw (stale, r) refl)

-- ===== src/Backend/Couchdb/Tests.antt =====
-- Runs of the health check of couchdb, on a database that works and on one that lost the document.
use bricks.Prelude.{
  arith, ℕ, suc, ◌≡◌, refl, ap, ◌≢◌, inl, inr, Bool, true, false, List, [], ◌∷◌, Option, none, some,
  if◌then◌else◌,
}
use bricks.Prelude.Int.{ℤ, pos, negsuc}
use bricks.Prelude.Text.{Text, codes, is_empty, text_eq}
use bricks.Health.{ConnectionState, zero_state, set_healthy}
use bricks.Backend.Cached.{is_fresh}
use bricks.Backend.Objstore.{TimeFormat, was_concurrent_health_check}
use bricks.Backend.Couchdb.{
  Doc, Got, get_failed, row, Put, put_done, put_failed, Environment, Config, not_found, conflict,
}
use bricks.Backend.Couchdb.Stale.{IsDeleted, health_check-stale_revision}
use bricks.Backend.Couchdb.Ends.{IsDatabase, health_check-Ends}
use bricks.Backend.Couchdb

-- A clock in seconds, which is written as one number
abbrev now : ℤ
now = pos 9_300_000_000_000_000_000

abbrev seconds : TimeFormat
seconds = record { format = λ t. write t; parse = read }
  where
    write : ℤ → Text
    write (pos n) = n ∷ []
    write (negsuc n) = []

    read : Text → Option ℤ
    read [] = none
    read (n ∷ s) = some (pos n)

-- A database that does not exist, is empty, or holds the document of a time
data Store : Type 0 where
  absent empty : Store
  holds : Text → Store

abbrev doc_of : Store → Option Doc
doc_of absent = none
doc_of empty = none
doc_of (holds t) = some (record { id = codes "key"; rev = codes "1"; time = t })

abbrev got_of : Option Doc → Got
got_of none = get_failed 404 (codes "missing")
got_of (some d) = row d.rev (some d)

abbrev store_put : Doc → Store → Put × Store
store_put d absent = (put_failed 404 (codes "no db"), absent)
store_put d empty =
    if is_empty d.rev then (put_done, holds d.time) else (put_failed 409 (codes "conflict"), empty)
store_put d (holds t) =
    if text_eq d.rev (codes "1")
    then (put_done, holds d.time)
    else (put_failed 409 (codes "conflict"), holds t)

abbrev store_create : Store → Option Text × Store
store_create absent = (none, empty)
store_create empty = (some (codes "exists"), empty)
store_create (holds t) = (some (codes "exists"), holds t)

abbrev is_absent : Store → Bool
is_absent absent = true
is_absent empty = false
is_absent (holds t) = false

abbrev couch : Environment Store
couch = record {
  done = λ e. none;
  now = λ e. now;
  get = λ e. got_of (doc_of e);
  put = store_put;
  create_db = store_create;
}

get-none :
    (e : Store) → doc_of e ≡ none → (text : Text) × (got_of (doc_of e) ≡ get_failed not_found text)
get-none absent h = (codes "missing", refl)
get-none empty h = (codes "missing", refl)
get-none (holds t) h = absurd (cc)

get-some : (e : Store) (d : Doc) → doc_of e ≡ some d → got_of (doc_of e) ≡ row d.rev (some d)
get-some e d h = rw h

rev_nonempty : (e : Store) (d : Doc) → doc_of e ≡ some d → is_empty d.rev ≡ false
unfolding is_empty
rev_nonempty absent d h = absurd (cc)
rev_nonempty empty d h = absurd (cc)
rev_nonempty (holds t) d h = let r : d.rev ≡ codes "1" = ground arith in rw r

empty_if_missing : (e : Store) → is_absent e ≡ true → doc_of e ≡ none
empty_if_missing absent h = refl
empty_if_missing empty h = refl
empty_if_missing (holds t) h = absurd (cc)

put-missing :
    (e : Store) (d : Doc)
    → is_absent e ≡ true
    → (text : Text) × (e' : Store) × (store_put d e ≡ (put_failed not_found text, e'))
      × (is_absent e' ≡ true)
put-missing absent d h = (codes "no db", absent, refl, refl)
put-missing empty d h = absurd (cc)
put-missing (holds t) d h = absurd (cc)

create :
    (e : Store)
    → is_absent e ≡ true
    → (e' : Store) × (store_create e ≡ (none, e')) × (is_absent e' ≡ false) × (doc_of e' ≡ none)
create absent h = (empty, refl, refl, refl)
create empty h = absurd (cc)
create (holds t) h = absurd (cc)

put-new :
    (e : Store) (d : Doc)
    → is_absent e ≡ false
    → doc_of e ≡ none
    → d.rev ≡ []
    → (e' : Store) × (store_put d e ≡ (put_done, e'))
      × (d' : Doc) × (doc_of e' ≡ some d')
      × (d'.time ≡ d.time)
unfolding is_empty
put-new absent d h n r = absurd (cc)
put-new (holds t) d h n r = absurd (cc)
put-new empty d h n r = (
  holds d.time,
  rw (ap is_empty r),
  record { id = codes "key"; rev = codes "1"; time = d.time },
  refl,
  refl,
)

put-over :
    (e : Store) (d old : Doc)
    → is_absent e ≡ false
    → doc_of e ≡ some old
    → d.rev ≡ old.rev
    → (e' : Store) × (store_put d e ≡ (put_done, e'))
      × (d' : Doc) × (doc_of e' ≡ some d')
      × (d'.time ≡ d.time)
unfolding text_eq
put-over absent d old h n r = absurd (cc)
put-over empty d old h n r = absurd (cc)
put-over (holds t) d old h n r =
    let e : d.rev ≡ codes "1" = ground arith in
    (
      holds d.time,
      rw (ap (λ x. text_eq x (codes "1")) e),
      record { id = codes "key"; rev = codes "1"; time = d.time },
      refl,
      refl,
    )

couch-IsDatabase : IsDatabase couch
couch-IsDatabase = record {
  doc = doc_of;
  missing = is_absent;
  get-none = get-none;
  get-some = get-some;
  rev_nonempty = rev_nonempty;
  empty_if_missing = empty_if_missing;
  put-missing = put-missing;
  create = create;
  put-new = put-new;
  put-over = put-over;
}

abbrev config : Config
config = record { key = codes "key"; auto_create = true; ttl = pos 1000 }

stale_now : is_fresh config.ttl now zero_state ≡ false
unfolding is_fresh bricks.Prelude.Time.sub_time bricks.Prelude.Int.◌-ℤ◌ bricks.Health.last_checked
stale_now = refl

health_check-Ends_example :
    (e' : Store) × (Couchdb.health_check seconds config couch 4 zero_state absent
      ≡ some (set_healthy now zero_state, e'))
unfolding bricks.Prelude.Int.◌-ℤ◌ bricks.Prelude.Int.◌+ℤ◌
health_check-Ends_example =
    health_check-Ends seconds config couch absent zero_state couch-IsDatabase (λ e. refl)
      (λ e. (now, refl, omega arith, omega arith)) (inr refl) stale_now

-- The document is read once, and then it is deleted.
data Lost : Type 0 where
  before after : Lost

abbrev old_doc : Doc
old_doc = record { id = codes "key"; rev = codes "1"; time = 5 ∷ [] }

abbrev lost_get : Lost → Got
lost_get before = row old_doc.rev (some old_doc)
lost_get after = get_failed 404 (codes "deleted")

abbrev lost_put : Doc → Put × Lost
lost_put d =
    if is_empty d.rev then (put_done, before) else (put_failed 409 (codes "conflict"), after)

abbrev losing : Environment Lost
losing = record {
  done = λ e. none;
  now = λ e. now;
  get = lost_get;
  put = λ d e. lost_put d;
  create_db = λ e. (none, e);
}

abbrev is_after : Lost → Bool
is_after before = false
is_after after = true

get-deleted :
    (e : Lost) → is_after e ≡ true → (text : Text) × (lost_get e ≡ get_failed not_found text)
get-deleted before h = absurd (cc)
get-deleted after h = (codes "deleted", refl)

put-deleted :
    (d : Doc) (s : Text)
    → d.rev ≡ s
    → s ≢ []
    → (text : Text) × (e' : Lost) × (lost_put d ≡ (put_failed conflict text, e'))
      × (is_after e' ≡ true)
unfolding is_empty
put-deleted d [] e n = absurd (n refl)
put-deleted d (c ∷ s) e n = (codes "conflict", after, rw (ap is_empty e), refl)

losing-IsDeleted : IsDeleted losing
losing-IsDeleted = record {
  alive = λ e. refl;
  deleted = is_after;
  get-deleted = get-deleted;
  put-deleted = λ e d h n. put-deleted d d.rev refl n;
}

health_check-stale_revision_example :
    Couchdb.health_check seconds config losing 1000 zero_state before ≡ none
unfolding bricks.Prelude.Int.◌-ℤ◌ bricks.Prelude.Int.◌+ℤ◌ was_concurrent_health_check is_empty
    losing-IsDeleted
health_check-stale_revision_example =
    health_check-stale_revision seconds config losing before after old_doc (codes "conflict")
      zero_state 1000 losing-IsDeleted stale_now refl refl refl refl refl

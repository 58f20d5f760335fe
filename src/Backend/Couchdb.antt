-- ===== src/Backend/Couchdb.antt =====
-- backend/couchdb/health_check.go: a document with the time is put and read back. The jumps of the
-- function are the steps of a machine with two labels. The database, the clock and the context are
-- operations on an environment, a parameter; the quotes of %#v are left out.
pub mod Jumps
pub mod Ends
pub mod Stale
mod Tests
use bricks.Prelude.{
  ℕ, zero, suc, ◌≡◌, Bool, true, false, ◌&&◌, List, [], ◌∷◌, ◌++◌, Option, none, some,
  if◌then◌else◌, ◌==◌,
}
use bricks.Prelude.Int.{ℤ}
use bricks.Prelude.Text.{Text, codes, is_empty}
use bricks.Health.{ConnectionState, set_error_state, set_healthy}
use bricks.Backend.Cached.{is_fresh}
use bricks.Backend.Objstore.{TimeFormat, was_concurrent_health_check}

pub record Doc : Type 0 where
  pub id : Text
  pub rev : Text
  pub time : Text

abbrev pub no_doc : Doc
no_doc = record { id = []; rev = []; time = [] }

-- h.DB.Get: its error with the status, or the revision and what ScanDoc makes of the document (an
-- error is `none`)
pub data Got : Type 0 where
  get_failed : (status : ℕ) (text : Text) → Got
  row : (rev : Text) (scan : Option Doc) → Got

-- h.DB.Put: nothing, or the status and the text of its error
pub data Put : Type 0 where
  put_done : Put
  put_failed : (status : ℕ) (text : Text) → Put

-- What surrounds the check: ctx.Done() with its error, the clock, and the calls of kivik.
pub record Environment (E : Type 0) : Type 0 where
  pub done : E → Option Text
  pub now : E → ℤ
  pub get : E → Got
  pub put : Doc → E → Put × E
  pub create_db : E → Option Text × E

pub data Label : Type 0 where
  at_check at_put : Label

-- A jump, or the end: with the error, or healthy.
pub data Jump (E : Type 0) : Type 0 where
  goto : Label → Doc → E → Jump E
  finish : Option Text → E → Jump E

pub record Config : Type 0 where
  pub key : Text
  pub auto_create : Bool
  pub ttl : ℤ

abbrev pub not_found : ℕ
not_found = 404

abbrev pub conflict : ℕ
conflict = 409

module _ {E : Type 0} (f : TimeFormat) (cfg : Config) (env : Environment E) where
  unfoldable pub scanned : ℤ → Option Doc → E → Jump E
  scanned check_time none e = finish (some (codes "failed to get: <nil>")) e
  scanned check_time (some d) e =
      if was_concurrent_health_check f check_time d.time then finish none e else goto at_put d e

  unfoldable pub got : ℤ → Doc → Got → E → Jump E
  unfolding scanned
  got check_time doc (get_failed status text) e =
      if status == not_found
      then goto at_put doc e
      else finish (some (codes "failed to get: " ++ text)) e
  got check_time doc (row rev scan) e =
      if is_empty rev then goto at_put doc e else scanned check_time scan e

  unfoldable pub check_step : ℤ → Doc → Option Text → E → Jump E
  unfolding got
  check_step check_time doc (some cause) e = finish (some (codes "failed: " ++ cause)) e
  check_step check_time doc none e = got check_time doc (env.get e) e

  unfoldable pub created : Doc → Option Text × E → Jump E
  created doc (some text, e) = finish (some (codes "failed to put object: " ++ text)) e
  created doc (none, e) = goto at_put doc e

  unfoldable pub put_result : Doc → Put × E → Jump E
  unfolding created
  put_result doc (put_done, e) = goto at_check doc e
  put_result doc (put_failed status text, e) =
      if cfg.auto_create && status == not_found
      then created doc (env.create_db e)
      else if status == conflict
      then goto at_check doc e
      else finish (some (codes "failed to put object: " ++ text)) e

  -- doc.ID = …; doc.Time = …
  abbrev pub updated : Doc → E → Doc
  updated doc e = record { id = cfg.key; rev = doc.rev; time = f.format (env.now e) }

  unfoldable pub put_step : Doc → E → Jump E
  unfolding put_result
  put_step doc e = put_result (updated doc e) (env.put (updated doc e) e)

  unfoldable pub jump : ℤ → Label → Doc → E → Jump E
  unfolding check_step put_step
  jump check_time at_check doc e = check_step check_time doc (env.done e) e
  jump check_time at_put doc e = put_step doc e

  -- The jumps, with fuel for so many; `none` is out of fuel. What it ends with is the error, if any.
  unfoldable pub run : ℕ → ℤ → Jump E → Option (Option Text × E)
  run fuel check_time (finish r e) = some (r, e)
  run zero check_time (goto l doc e) = none
  run (suc fuel) check_time (goto l doc e) = run fuel check_time (jump check_time l doc e)

  abbrev pub stored : Option (Option Text × E) → ConnectionState → Option (ConnectionState × E)
  stored none cs = none
  stored (some (none, e)) cs = some (set_healthy (env.now e) cs, e)
  stored (some (some text, e)) cs = some (set_error_state text (env.now e) cs, e)

  -- HealthCheck, whose result is that of the state
  unfoldable pub health_check : ℕ → ConnectionState → E → Option (ConnectionState × E)
  unfolding run
  health_check fuel cs e =
      if is_fresh cfg.ttl (env.now e) cs
      then some (cs, e)
      else stored (run fuel (env.now e) (goto at_check no_doc e)) cs

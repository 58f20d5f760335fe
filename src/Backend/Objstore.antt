-- ===== src/Backend/Objstore.antt =====
-- backend/objstore/health_objstore.go: the time is put into an object and read back. The two calls of
-- the package time that format and parse it are parameters; the quotes of %q are left out.
pub mod Healthy
use bricks.Prelude.{
  arith, ℕ, ◌≡◌, refl, ap, ◌∙◌, Bool, true, false, ◌&&◌, ◌||◌, List, [], ◌∷◌, ◌++◌, Option, none,
  some, if◌then◌else◌,
}
use bricks.Prelude.Int.{ℤ, pos, ◌+ℤ◌, ◌-ℤ◌, ltb_ℤ}
use bricks.Prelude.Text.{Text, codes, text_eq, is_empty}
use bricks.Prelude.Result.{Result, ok, err}
use bricks.Health.{ConnectionState, set_error_state, set_healthy, set_connection_state}
use bricks.Backend.Cached.{is_fresh, shown, CachedCheck}

-- t.Format(time.RFC3339) and time.Parse(time.RFC3339, s); an error of Parse is `none`.
pub record TimeFormat : Type 0 where
  pub format : ℤ → Text
  pub parse : Text → Option ℤ

-- healthCheckConcurrentSpan
abbrev pub concurrent_span : ℤ
concurrent_span = pos 10_000_000_000

abbrev pub in_span : ℤ → Option ℤ → Bool
in_span check_time none = false
in_span check_time (some t) =
    ltb_ℤ (check_time -ℤ concurrent_span) t && ltb_ℤ t (check_time +ℤ concurrent_span)

-- A call of HealthCheck: the clock when it starts, when it makes the content, and when a result is
-- stored; the version or the error of PutObject, the error of GetObject, and what is read.
pub record Call : Type 0 where
  pub now : ℤ
  pub check_time : ℤ
  pub stored : ℤ
  pub put : Result Text Text
  pub got : Option Text
  pub read : Result Text Text

-- The state, and the version that the deferred function removes
pub record Checked : Type 0 where
  pub state : ConnectionState
  pub removed : Option Text

module _ (f : TimeFormat) where
  -- wasConcurrentHealthCheck
  unfoldable pub was_concurrent_health_check : ℤ → Text → Bool
  was_concurrent_health_check check_time observed = in_span check_time (f.parse observed)

  unfoldable pub compare_content : Call → Result Text Text → ConnectionState → ConnectionState
  compare_content c (err e) cs =
      set_error_state (codes "failed to compare object: " ++ e) c.stored cs
  compare_content c (ok buf) cs =
      if text_eq buf (f.format c.check_time)
      then set_healthy c.stored cs
      else if was_concurrent_health_check c.check_time buf
      then set_healthy c.stored cs
      else set_error_state
          (codes "unexpected content: " ++ buf ++ codes " <-> " ++ f.format c.check_time) c.stored
          cs

  unfoldable pub get_object : Call → Option Text → ConnectionState → ConnectionState
  unfolding compare_content
  get_object c (some e) cs = set_error_state (codes "failed to get object: " ++ e) c.stored cs
  get_object c none cs = compare_content c c.read cs

  -- if info.VersionID != ""
  abbrev pub version_to_remove : Text → Option Text
  version_to_remove version = if is_empty version then none else some version

  unfoldable pub put_object : Call → Result Text Text → ConnectionState → Checked
  unfolding get_object
  put_object c (err e) cs = record {
    state = set_error_state (codes "failed to put object: " ++ e) c.stored cs;
    removed = none;
  }
  put_object c (ok version) cs = record {
    state = get_object c c.got cs;
    removed = version_to_remove version;
  }

  -- HealthCheck, whose result is that of the state
  unfoldable pub health_check : ℤ → Call → ConnectionState → Checked
  unfolding put_object
  health_check ttl c cs =
      if is_fresh ttl c.now cs then record { state = cs; removed = none } else put_object c c.put cs

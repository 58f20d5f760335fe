-- ===== src/Cache/Memory.antt =====
-- pkg/cache/memory.go. A call is one step here; `Cache.Memory.Race` takes Get apart.
pub mod Laws
pub mod Race
use bricks.Prelude.{Bool, List, [], Option, none, some, if◌then◌else◌, not}
use bricks.Prelude.Int.{ℤ, pos, ◌+ℤ◌, leb_ℤ, eqb_ℤ}
use bricks.Prelude.Text.{Text}
use bricks.Prelude.Assoc.{lookup, insert, remove}
use bricks.Prelude.Result.{ok, err}
use bricks.Prelude.Time.{is_zero, sub_time}
use bricks.Cache.Spec.{Found, not_found, Call, put, get, forget, Reply, done, got}

pub record InMemoryValue : Type 0 where
  pub value : Text
  pub expires_at : ℤ

pub record Memory : Type 0 where
  pub values : List (Text × InMemoryValue)

unfoldable pub in_memory : Memory
in_memory = record { values = [] }

abbrev pub expires : ℤ → ℤ → ℤ
expires now ttl = if not (eqb_ℤ ttl (pos 0)) then now +ℤ ttl else pos 0

put_value : ℤ → Text → Text → ℤ → Memory → Memory
put_value now key value ttl c = record {
  values = insert key (record { value = value; expires_at = expires now ttl }) c.values;
}

forget_key : Text → Memory → Memory
forget_key key c = record { values = remove key c.values }

-- What Get reads under the lock, and makes of it; `none` is a value that has expired.
unfoldable pub checked : ℤ → Option InMemoryValue → Option Found
checked now none = some (err not_found)
checked now (some v) =
    let ttl = sub_time v.expires_at now in
    if not (is_zero v.expires_at)
    then if leb_ℤ ttl (pos 0) then none else some (ok (v.value, ttl))
    else some (ok (v.value, pos 0))

-- The rest of Get: an expired value is forgotten.
unfoldable pub conclude : Text → Option Found → Memory → Memory × Found
unfolding forget_key
conclude key none c = (forget_key key c, err not_found)
conclude key (some found) c = (c, found)

get_value : ℤ → Text → Memory → Memory × Found
unfolding checked conclude
get_value now key c = conclude key (checked now (lookup key c.values)) c

unfoldable pub step : ℤ → Call → Memory → Memory × Reply
unfolding put_value forget_key get_value
step now (put key value ttl) c = (put_value now key value ttl c, done)
step now (get key) c = let (d, found) = get_value now key c in (d, got found)
step now (forget key) c = (forget_key key c, done)

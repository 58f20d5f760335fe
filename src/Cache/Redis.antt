-- ===== src/Cache/Redis.antt =====
-- pkg/cache/redis.go. The redis server is outside of the program: its answers are the argument of
-- the part that reads them, and an interface with the laws that are needed for the rest.
pub mod Laws
use bricks.Prelude.{ℕ, ◌++◌, Bool, true, false, List, [], ◌∷◌, Option, none, some, if◌then◌else◌}
use bricks.Prelude.Int.{ℤ, pos, negsuc, ◌*ℤ◌, ltb_ℤ, eqb_ℤ}
use bricks.Prelude.Text.{Text}
use bricks.Prelude.Result.{Result, ok, err}
use bricks.Prelude.Time.{wrap}
use bricks.Cache.Spec.{Found, CacheError, not_found, backend}

-- A value of redis, as an interface{}.
pub data Value : Type 0 where
  nil other : Value
  text : Text → Value
  int64 : ℤ → Value

-- What running the script GETAndPTTL gives: an error, a list, or something else.
pub data Answer : Type 0 where
  failed unexpected : Answer
  list : List Value → Answer

read_ttl : Text → Value → Found
read_ttl value (int64 ttl) =
    if eqb_ℤ ttl (negsuc 0)
    then ok (value, pos 0)
    else if eqb_ℤ ttl (pos 0)
    then ok (value, pos 1)
    else if ltb_ℤ (pos 0) ttl
    then ok (value, wrap (ttl *ℤ pos 1_000_000))
    else err backend
read_ttl value _ = err backend

-- result[1] is read only for a text; an index out of range is a panic, `none`.
read_values : Value → List Value → Option Found
unfolding read_ttl
read_values nil rest = some (err not_found)
read_values (text value) (ttl ∷ rest) = some (read_ttl value ttl)
read_values (text value) [] = none
read_values _ rest = some (err backend)

unfoldable pub read_answer : Answer → Option Found
unfolding read_values
read_answer failed = some (err backend)
read_answer unexpected = some (err backend)
read_answer (list []) = none
read_answer (list (v ∷ rest)) = read_values v rest

pub record RedisClient : Type 1 where
  pub Server : Type 0
  -- The Boolean tells whether the command succeeded.
  pub set : Text → Text → ℤ → Server → Server × Bool
  pub get_and_pttl : Text → Server → Answer
  pub del : Text → Server → Server × Bool

module _ (client : RedisClient) (prefix : Text) where
  open client use {Server, set, get_and_pttl, del}

  succeeded : Server × Bool → Server × Result CacheError (Unit {0})
  succeeded (s, true) = (s, ok tt)
  succeeded (s, false) = (s, err backend)

  unfoldable pub put : Text → Text → ℤ → Server → Server × Result CacheError (Unit {0})
  unfolding succeeded
  put key value ttl s = succeeded (set (prefix ++ key) value ttl s)

  unfoldable pub get : Text → Server → Option Found
  get key s = read_answer (get_and_pttl (prefix ++ key) s)

  unfoldable pub forget : Text → Server → Server × Result CacheError (Unit {0})
  unfolding succeeded
  forget key s = succeeded (del (prefix ++ key) s)

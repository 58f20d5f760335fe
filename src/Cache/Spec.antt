-- ===== src/Cache/Spec.antt =====
-- What the interface Cache of pkg/cache/cache.go promises, with the errors of
-- pkg/cache/errors.go: a map whose values may have a deadline.
use bricks.Prelude.{Option, none, some, if◌then◌else◌}
use bricks.Prelude.Int.{ℤ, pos, ◌+ℤ◌, ◌-ℤ◌, ltb_ℤ, eqb_ℤ}
use bricks.Prelude.Text.{Text, text_eq}
use bricks.Prelude.Result.{Result, ok, err}

pub data CacheError : Type 0 where
  not_found backend : CacheError

-- The reply of Get: the value and the remaining ttl, zero for a value that does not expire.
abbrev pub Found : Type 0
Found = Result CacheError (Text × ℤ)

pub data Call : Type 0 where
  put : Text → Text → ℤ → Call
  get : Text → Call
  forget : Text → Call

pub data Reply : Type 0 where
  done : Reply
  got : Found → Reply

-- What is stored under a key: the value, and the deadline if there is one.
pub record Entry : Type 0 where
  pub value : Text
  pub deadline : Option ℤ

abbrev pub Contents : Type 0
Contents = Text → Option Entry

abbrev pub deadline_of : ℤ → ℤ → Option ℤ
deadline_of now ttl = if eqb_ℤ ttl (pos 0) then none else some (now +ℤ ttl)

abbrev pub read_until : ℤ → Text → Option ℤ → Found
read_until now v none = ok (v, pos 0)
read_until now v (some d) = if ltb_ℤ now d then ok (v, d -ℤ now) else err not_found

abbrev pub read : ℤ → Option Entry → Found
read now none = err not_found
read now (some e) = read_until now e.value e.deadline

abbrev pub write : Text → Option Entry → Contents → Contents
write k e c j = if text_eq k j then e else c j

-- The reply to a call at a time, and the contents after it. A read changes nothing.
abbrev pub spec : ℤ → Call → Contents → Contents × Reply
spec now (put k v ttl) c =
    (write k (some (record { value = v; deadline = deadline_of now ttl })) c, done)
spec now (get k) c = (c, got (read now (c k)))
spec now (forget k) c = (write k none c, done)

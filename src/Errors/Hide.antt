-- ===== src/Errors/Hide.antt =====
-- maintenance/errors/context.go. An error is one of the two of a context, another one with its text, or
-- one that wraps another and has a text of its own.
pub mod Exposed
use bricks.Prelude.{
  ℕ, ◌==◌, Bool, true, false, ◌&&◌, ◌||◌, List, [], ◌∷◌, ◌++◌, Option, none, some, if◌then◌else◌,
}
use bricks.Prelude.Text.{Text, codes, trim_suffix}

pub data GoError : Type 0 where
  canceled deadline_exceeded : GoError
  plain : (address : ℕ) (text : Text) → GoError
  wraps : (text : Text) → GoError → GoError

abbrev pub canceled_text : Text
canceled_text = codes "context canceled"

abbrev pub deadline_text : Text
deadline_text = codes "context deadline exceeded"

-- err.Error()
unfoldable pub text_of : GoError → Text
text_of canceled = canceled_text
text_of deadline_exceeded = deadline_text
text_of (plain address text) = text
text_of (wraps text e) = text

-- errors.Is, for the three kinds that wrap nothing
unfoldable pub is_canceled : GoError → Bool
is_canceled canceled = true
is_canceled deadline_exceeded = false
is_canceled (plain address text) = false
is_canceled (wraps text e) = is_canceled e

unfoldable pub is_deadline_exceeded : GoError → Bool
is_deadline_exceeded canceled = false
is_deadline_exceeded deadline_exceeded = true
is_deadline_exceeded (plain address text) = false
is_deadline_exceeded (wraps text e) = is_deadline_exceeded e

unfoldable pub is_plain : ℕ → GoError → Bool
is_plain a canceled = false
is_plain a deadline_exceeded = false
is_plain a (plain address text) = address == a
is_plain a (wraps text e) = is_plain a e

-- ctx.Err(), of which == is asked
pub data ContextError : Type 0 where
  not_done was_canceled was_exceeded : ContextError

-- fmt.Errorf("%w: %s", exposedErr, err)
abbrev pub prefixed : Option GoError → GoError → GoError
prefixed none e = e
prefixed (some x) e = wraps (text_of x ++ (codes ": " ++ text_of e)) x

-- fmt.Errorf("%s%w", s, c), for the text without its suffix
abbrev pub suffixed : GoError → GoError → GoError
suffixed ret c = wraps (trim_suffix (text_of ret) (text_of c) ++ text_of c) c

-- Hide, for an error that is not nil
unfoldable pub hide_error : ContextError → GoError → Option GoError → GoError
hide_error not_done e exposed = prefixed exposed e
hide_error was_canceled e exposed =
    if is_canceled e then suffixed (prefixed exposed e) canceled else prefixed exposed e
hide_error was_exceeded e exposed =
    if is_deadline_exceeded e
    then suffixed (prefixed exposed e) deadline_exceeded
    else prefixed exposed e

unfoldable pub hide : ContextError → Option GoError → Option GoError → Option GoError
unfolding hide_error
hide ctx none exposed = none
hide ctx (some e) exposed = some (hide_error ctx e exposed)

-- IsStdLibContextError
unfoldable pub is_std_lib_context_error : GoError → Bool
unfolding is_canceled is_deadline_exceeded
is_std_lib_context_error e = is_canceled e || is_deadline_exceeded e

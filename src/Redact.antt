-- ===== src/Redact.antt =====
-- pkg/redact: the schemes (scheme.go), the redactor with its slice of patterns (redact.go), and the
-- redactor of a context (context.go, middleware/middleware.go). A regular expression is a parameter;
-- a slice is a window on an array in a store, since redactors may share an array.
pub mod Schemes
pub mod Isolation
mod Tests
use bricks.Prelude.{
  ℕ, zero, suc, ◌+◌, ◌-◌, ltb, leb, ◌==◌, Bool, true, false, not, ◌&&◌, ◌||◌, List, [], ◌∷◌, ◌++◌,
  Option, none, some, if◌then◌else◌, length, set,
}
use bricks.Prelude.Int.{ℤ, pos, negsuc, pos_part, ◌-ℤ◌}
use bricks.Prelude.Text.{Text, text_eq, split, join}

-- Runes are their code points.
abbrev pub star : ℕ
star = 42

-- runes[i] = '*'; out of range it panics.
abbrev pub put_star : Text → ℕ → Option Text
put_star runes i = if ltb i (length runes) then some (set runes i star) else none

abbrev pub and_then {ℓ κ} : {A : Type ℓ} {B : Type κ} → Option A → (A → Option B) → Option B
and_then none go = none
and_then (some a) go = go a

-- The loop, for the rounds that are left
unfoldable pub put_stars : ℕ → ℕ → Text → Option Text
put_stars zero i runes = some runes
put_stars (suc rounds) i runes = and_then (put_star runes i) (put_stars rounds (i + 1))

abbrev pub rounds : ℤ → ℕ → ℕ
rounds num len = pos_part (pos len -ℤ num)

-- RedactionSchemeKeepLast; `none` is a panic.
unfoldable pub keep_last : ℤ → Text → Option Text
unfolding put_stars
keep_last num old = put_stars (rounds num (length old)) 0 old

abbrev pub Scheme : Type 0
Scheme = Text → Option Text

-- RedactionSchemeDoNothing
unfoldable pub do_nothing : Scheme
do_nothing old = some old

-- parts[2] = defaultScheme(parts[2])
unfoldable pub redact_third : Scheme → List Text → Option (List Text)
redact_third scheme (a ∷ b ∷ c ∷ rest) = and_then (scheme c) (λ d. some (a ∷ b ∷ d ∷ rest))
redact_third scheme (a ∷ b ∷ []) = none
redact_third scheme (a ∷ []) = none
redact_third scheme [] = none

-- RedactionSchemeKeepLastJWTNoSignature, for PatternJWT.Match
unfoldable pub keep_last_jwt_no_signature : (Text → Bool) → ℤ → Scheme
unfolding redact_third
keep_last_jwt_no_signature is_jwt num s =
    if is_jwt s
    then and_then (redact_third (keep_last num) (split s 46)) (λ parts. some (join parts 46))
    else keep_last num s

-- A *regexp.Regexp: its address and its text
pub record Regexp : Type 0 where
  pub address : ℕ
  pub string : Text

abbrev pub Pattern : Type 0
Pattern = Option Regexp

-- The arrays of patterns: what they hold, and the next new one
pub record Store : Type 0 where
  pub next : ℕ
  pub cells : ℕ → ℕ → Pattern

-- A slice; a nil slice has the capacity zero.
pub record Slice : Type 0 where
  pub array : ℕ
  pub len : ℕ
  pub cap : ℕ

abbrev pub read_from : Store → ℕ → ℕ → ℕ → List Pattern
read_from s array i zero = []
read_from s array i (suc n) = s.cells array i ∷ read_from s array (i + 1) n

-- The patterns of a slice
abbrev pub view : Store → Slice → List Pattern
view s p = read_from s p.array 0 p.len

unfoldable pub write_cell : ℕ → ℕ → Pattern → Store → Store
write_cell array i v s = record {
  next = s.next;
  cells = λ a j. if a == array && j == i then v else s.cells a j;
}

unfoldable pub write_from : ℕ → ℕ → List Pattern → Store → Store
unfolding write_cell
write_from array i [] s = s
write_from array i (v ∷ vs) s = write_from array (i + 1) vs (write_cell array i v s)

-- An array that nothing refers to
abbrev pub new_array : Store → Store
new_array s = record { next = s.next + 1; cells = s.cells }

-- append: in place if the capacity is enough, or else in a new array, whose capacity beyond the length
-- is the runtime's choice.
unfoldable pub append : ℕ → Slice → List Pattern → Store → Slice × Store
unfolding write_from
append spare p vs s =
    let n = p.len + length vs in
    if leb n p.cap
    then (record { array = p.array; len = n; cap = p.cap }, write_from p.array p.len vs s)
    else (
      record { array = s.next; len = n; cap = n + spare },
      write_from s.next 0 (view s p ++ vs) (new_array s),
    )

pub record PatternRedactor : Type 0 where
  pub patterns : Slice
  pub scheme : Scheme

-- NewPatternRedactor
unfoldable pub new_pattern_redactor : Scheme → PatternRedactor
new_pattern_redactor scheme = record {
  patterns = record { array = 0; len = 0; cap = 0 };
  scheme = scheme;
}

-- AddPatterns
unfoldable pub add_patterns : ℕ → List Pattern → PatternRedactor → Store → PatternRedactor × Store
unfolding append
add_patterns spare vs r s =
    let (p, s') = append spare r.patterns vs s in (record { patterns = p; scheme = r.scheme }, s')

-- p == pattern || p.String() == pattern.String(): String panics on nil.
unfoldable pub is_same : Pattern → Pattern → Option Bool
is_same none none = some true
is_same none (some q) = none
is_same (some p) none = none
is_same (some p) (some q) = some (p.address == q.address || text_eq p.string q.string)

abbrev pub or_next : Option Bool → ℕ → Option (Option ℕ) → Option (Option ℕ)
or_next none i rest = none
or_next (some true) i rest = some (some i)
or_next (some false) i rest = rest

-- The loop that finds the index; `none` is a panic.
unfoldable pub index_of : Pattern → ℕ → List Pattern → Option (Option ℕ)
unfolding is_same
index_of pattern i [] = some none
index_of pattern i (p ∷ ps) = or_next (is_same p pattern) i (index_of pattern (i + 1) ps)

-- append(r.patterns[:index], r.patterns[index+1:]...), which stays in its array
unfoldable pub remove_at : ℕ → PatternRedactor → Store → PatternRedactor × Store
unfolding append
remove_at i r s =
    let p = r.patterns in
    let (p', s') =
      append 0 (record { array = p.array; len = i; cap = p.cap })
        (read_from s p.array (i + 1) (p.len - (i + 1))) s in
    (record { patterns = p'; scheme = r.scheme }, s')

unfoldable pub remove_found : Option ℕ → PatternRedactor → Store → PatternRedactor × Store
unfolding remove_at
remove_found none r s = (r, s)
remove_found (some i) r s = remove_at i r s

-- RemovePattern; `none` is a panic.
unfoldable pub remove_pattern : Pattern → PatternRedactor → Store → Option (PatternRedactor × Store)
unfolding index_of remove_found
remove_pattern pattern r s =
    and_then (index_of pattern 0 (view s r.patterns)) (λ found. some (remove_found found r s))

-- SetScheme
unfoldable pub set_scheme : Scheme → PatternRedactor → PatternRedactor
set_scheme scheme r = record { patterns = r.patterns; scheme = scheme }

-- Clone: make and copy
unfoldable pub clone : PatternRedactor → Store → PatternRedactor × Store
unfolding write_from
clone r s = (
  record {
    patterns = record { array = s.next; len = r.patterns.len; cap = r.patterns.len };
    scheme = r.scheme;
  },
  write_from s.next 0 (view s r.patterns) (new_array s),
)

-- pattern.ReplaceAllStringFunc(data, scheme), where the scheme may panic
abbrev pub ReplaceAll : Type 0
ReplaceAll = Regexp → Scheme → Text → Option Text

-- Mask: a nil pattern is passed over.
unfoldable pub mask_with : ReplaceAll → Scheme → List Pattern → Text → Option Text
mask_with replace scheme [] text = some text
mask_with replace scheme (none ∷ ps) text = mask_with replace scheme ps text
mask_with replace scheme (some p ∷ ps) text =
    and_then (replace p scheme text) (mask_with replace scheme ps)

unfoldable pub mask : ReplaceAll → PatternRedactor → Store → Text → Option Text
unfolding mask_with
mask replace r s text = mask_with replace r.scheme (view s r.patterns) text

-- Ctx, for the redactor under the context's key
unfoldable pub ctx : Option PatternRedactor → Store → PatternRedactor × Store
unfolding clone
ctx (some r) s = clone r s
ctx none s = (new_pattern_redactor do_nothing, s)

-- ContextTransfer: Ctx is never nil.
unfoldable pub context_transfer : Option PatternRedactor → Store → Option PatternRedactor × Store
unfolding ctx
context_transfer found s = let (r, s') = ctx found s in (some r, s')

-- RedactWithScheme: the redactor itself is put into the context, not a clone.
unfoldable pub redact_with_scheme :
    PatternRedactor → Option PatternRedactor → Option PatternRedactor
redact_with_scheme redactor found = some redactor

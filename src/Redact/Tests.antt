-- ===== src/Redact/Tests.antt =====
-- Runs of pkg/redact.
use bricks.Prelude.{arith, ◌≡◌, refl, List, [], ◌∷◌, some}
use bricks.Prelude.Int.{pos, ◌-ℤ◌}
use bricks.Prelude.Text.{codes}
use bricks.Redact.{keep_last, Store, PatternRedactor, ReplaceAll, mask, ctx, do_nothing}
use bricks.Redact.Isolation.{Operation, removes, sets, apply_all, ctx-isolated}

short_text : keep_last (pos 4) (codes "abc") ≡ some (codes "abc")
unfolding keep_last ◌-ℤ◌
short_text = refl

-- A redactor with one pattern, and a replacement of the whole text
abbrev store : Store
store = record { next = 1; cells = λ a i. some (record { address = 7; string = codes "[0-9]" }) }

abbrev redactor : PatternRedactor
redactor = record { patterns = record { array = 0; len = 1; cap = 1 }; scheme = keep_last (pos 1) }

abbrev replace : ReplaceAll
replace = λ p scheme s. scheme s

abbrev changes : List Operation
changes = removes (some (record { address = 9; string = codes "[0-9]" })) ∷ sets do_nothing ∷ []

ctx-isolated_example :
    (mask replace (ctx (some redactor) store).0 (ctx (some redactor) store).1 (codes "abc")
      ≡ mask replace redactor store (codes "abc"))
    × (mask replace redactor
          (apply_all changes (ctx (some redactor) store).0 (ctx (some redactor) store).1).1
          (codes "abc")
        ≡ mask replace redactor store (codes "abc"))
    × (mask replace
          (ctx (some redactor) store).0
          (apply_all changes redactor (ctx (some redactor) store).1).1
          (codes "abc")
        ≡ mask replace redactor store (codes "abc"))
ctx-isolated_example = ctx-isolated replace redactor store changes (codes "abc") (omega arith)

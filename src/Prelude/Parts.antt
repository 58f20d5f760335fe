-- ===== src/Prelude/Parts.antt =====
-- The parts of a text between its separators.
use Prim.Native.Nat.{ℕ}
use mathlib.Core.Path.{◌≡◌, refl, ap, ◌∙◌}
use mathlib.Core.Logic.{◌≢◌, inl, inr}
use mathlib.Core.Bool.{Bool, true}
use mathlib.Core.List.{List, [], ◌∷◌, ◌++◌}
use native.Mathlib.Omega.{arith}
use bricks.Prelude.Tests.{◌==◌, Bool-cases}
use bricks.Prelude.Lists.{any_of}
use bricks.Prelude.Text.{Text, has_prefix, split, first_part}

any_first_part :
    (p : Text → Bool) (c : ℕ) (ps qs : List Text)
    → ps ≢ []
    → first_part c (ps ++ qs) ≡ first_part c ps ++ qs
any_first_part p c [] qs h = absurd (h refl)
any_first_part p c (x ∷ ps) qs h = refl

split_nonempty : (s : Text) (sep : ℕ) → split s sep ≢ []
unfolding split
split_nonempty [] sep e = cc
split_nonempty (c ∷ s) sep e = elim (Bool-cases (c == sep)) [
  | inl q ↦ (let f : [] ∷ split s sep ≡ [] = rw q at e in cc)
  | inr q ↦ first_nonempty (split s sep) (rw q at e)
]
  where
    first_nonempty : (ps : List Text) → first_part c ps ≢ []
    first_nonempty [] f = cc
    first_nonempty (x ∷ ps) f = cc

pub split-append_sep :
    (s t : Text) (sep : ℕ) → split (s ++ sep ∷ t) sep ≡ split s sep ++ split t sep
unfolding split
split-append_sep [] t sep = ground arith
split-append_sep (c ∷ s) t sep = elim (Bool-cases (c == sep)) [
  | inl q ↦ rw q (ap (◌∷◌ []) (split-append_sep s t sep))
  | inr q ↦ rw q (
      ap (first_part c) (split-append_sep s t sep)
      ∙ any_first_part (λ x. true) c (split s sep) (split t sep) (split_nonempty s sep))
]

pub any_of-append :
    (p : Text → Bool) (ps qs : List Text) → any_of p ps ≡ true → any_of p (ps ++ qs) ≡ true
any_of-append p [] qs h = cc
any_of-append p (x ∷ ps) qs h = ground (arith, any_of-append p ps qs)

-- Every text has a part with the empty prefix.
pub any_empty : (s : Text) → any_of (λ v. has_prefix v []) (split s 44) ≡ true
unfolding has_prefix
any_empty s = nonempty (split s 44) (split_nonempty s 44)
  where
    nonempty : (ps : List Text) → ps ≢ [] → any_of (λ v. has_prefix v []) ps ≡ true
    nonempty [] h = absurd (h refl)
    nonempty (x ∷ ps) h = refl

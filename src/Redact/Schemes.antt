-- ===== src/Redact/Schemes.antt =====
-- What the schemes leave of a text.
use mathlib.Core.List.{append_assoc}
use bricks.Prelude.{
  arith, ℕ, zero, suc, ◌+◌, ◌-◌, ◌≤◌, ◌<◌, ltb, ◌≡◌, refl, ap, ◌∙◌, Bool, true, false, [], ◌∷◌,
  ◌++◌, Option, none, some, if◌then◌else◌, length, set, drop, Bool-cases, inl, inr, All,
}
use bricks.Prelude.Int.{ℤ, pos, negsuc, ◌-ℤ◌}
use bricks.Prelude.Text.{Text, join, Lacks, split-join}
use bricks.Redact.{star, put_stars, rounds, keep_last, redact_third, keep_last_jwt_no_signature}

abbrev pub stars : ℕ → Text
stars zero = []
stars (suc n) = star ∷ stars n

set_next :
    (front rest : Text) (c v : ℕ)
    → set (front ++ c ∷ rest) (length front) v ≡ (front ++ v ∷ []) ++ rest
set_next [] rest c v = refl
set_next (d ∷ front) rest c v = ap (◌∷◌ d) (set_next front rest c v)

length-front : (front rest : Text) → length (front ++ rest) ≡ length front + length rest
length-front [] rest = omega arith
length-front (d ∷ front) rest = omega (arith, length-front front rest)

in_range : (front rest : Text) (c : ℕ) → ltb (length front) (length (front ++ c ∷ rest)) ≡ true
in_range front rest c = ground (arith, length-front front (c ∷ rest))

out_of_range : (front : Text) → ltb (length front) (length (front ++ [])) ≡ false
out_of_range front = ground (arith, length-front front [])

-- The rounds put stars as far as there are runes.
put_stars-some :
    (n i : ℕ) (front rest : Text)
    → i ≡ length front
    → n ≤ length rest
    → put_stars n i (front ++ rest) ≡ some (front ++ (stars n ++ drop n rest))
unfolding put_stars
put_stars-some zero i front rest h k = refl
put_stars-some (suc n) i front [] h k = absurd (omega arith)
put_stars-some (suc n) i front (c ∷ rest) h k =
    rw (h, in_range front rest c, set_next front rest c star)
      (put_stars-some n (length front + 1) (front ++ star ∷ []) rest
          (omega (arith, length-front front (star ∷ []))) (omega arith)
        ∙ ap some (append_assoc front (star ∷ []) (stars n ++ drop n rest)))

put_stars-none :
    (n i : ℕ) (front rest : Text)
    → i ≡ length front
    → length rest < n
    → put_stars n i (front ++ rest) ≡ none
unfolding put_stars
put_stars-none zero i front rest h k = absurd (omega arith)
put_stars-none (suc n) i front [] h k = rw (h, out_of_range front)
put_stars-none (suc n) i front (c ∷ rest) h k =
    rw (h, in_range front rest c, set_next front rest c star)
      (put_stars-none n (length front + 1) (front ++ star ∷ []) rest
        (omega (arith, length-front front (star ∷ []))) (omega arith))

-- What is left of a text, for the number of runes to keep
abbrev pub kept : ℤ → Text → Option Text
kept (pos k) s = some (stars (length s - k) ++ drop (length s - k) s)
kept (negsuc k) s = none

-- All runes but the last ones become stars, as many as there are, if that number is not negative;
-- with a negative one the scheme panics on every text, the empty one included.
pub keep_last-kept : (num : ℤ) (s : Text) → keep_last num s ≡ kept num s
unfolding keep_last
keep_last-kept (pos k) s =
    let e : rounds (pos k) (length s) ≡ length s - k = unfold ◌-ℤ◌ in ground arith in
    rw e (put_stars-some (length s - k) 0 [] s refl (omega arith))
keep_last-kept (negsuc k) s =
    let e : rounds (negsuc k) (length s) ≡ length s + suc k = unfold ◌-ℤ◌ in ground arith in
    rw e (put_stars-none (length s + suc k) 0 [] s refl (omega arith))

abbrev pub token : Text → Text → Text → Text
token header payload signature = join (header ∷ payload ∷ signature ∷ []) 46

-- Of a token that the pattern of JWT matches, the header and the payload stay and the signature is
-- redacted, if none of the three has a dot; a text that it does not match is redacted whole.
pub keep_last_jwt_lem :
    (is_jwt : Text → Bool) (k : ℕ) (header payload signature : Text)
    → All (Lacks 46) (header ∷ payload ∷ signature ∷ [])
    → keep_last_jwt_no_signature is_jwt (pos k) (token header payload signature) ≡ (
        if is_jwt (token header payload signature)
        then some (
            token header payload
              (stars (length signature - k) ++ drop (length signature - k) signature))
        else kept (pos k) (token header payload signature))
unfolding keep_last_jwt_no_signature redact_third
keep_last_jwt_lem is_jwt k header payload signature h =
    elim (Bool-cases (is_jwt (token header payload signature))) [
      | inl e ↦
          rw
            (e, split-join header (payload ∷ signature ∷ []) 46 h, keep_last-kept (pos k) signature)
            refl
      | inr e ↦ rw e (keep_last-kept (pos k) (token header payload signature))
    ]

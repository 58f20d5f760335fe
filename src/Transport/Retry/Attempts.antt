-- ===== src/Transport/Retry/Attempts.antt =====
-- The attempts of a request, and the errors that its caller sees.
use mathlib.Core.Path.{subst}
use bricks.Prelude.{arith, ℕ, zero, suc, ◌+◌, ◌<◌, ◌≡◌, refl, sym, ap, List, [], ◌∷◌, length}
use bricks.Prelude.Int.{ℤ, pos, ◌+ℤ◌}
use bricks.Transport.Retry.{
  Returned, Retries, give, send, two_31, wrap32, attempt_round_trip, retried, round_trip,
}

-- k, k + 1, and so on
abbrev pub numbered : ℕ → ℕ → List ℤ
numbered k zero = []
numbered k (suc n) = pos k ∷ numbered (k + 1) n

next_attempt : (k : ℕ) → k + 1 < two_31 → wrap32 (pos k +ℤ pos 1) ≡ pos (k + 1)
unfolding wrap32 ◌+ℤ◌
next_attempt k h = ground arith

module _ {W : Type 0} (transport : ℤ → W → Returned × W) where
  retried-numbered :
      (p : Retries) (k : ℕ) (w : W)
      → k + length (retried transport p (pos k) w).attempts < two_31
      → (retried transport p (pos k) w).attempts
        ≡ numbered (k + 1) (length (retried transport p (pos k) w).attempts)
  unfolding retried attempt_round_trip
  retried-numbered (give r) k w h = refl
  retried-numbered (send next) k w h =
      let e : wrap32 (pos k +ℤ pos 1) ≡ pos (k + 1) = next_attempt k (omega arith) in
      subst (Numbered next) (sym e)
        (λ h'. ap (◌∷◌ (pos (k + 1))) (
          retried-numbered (next (transport (pos (k + 1)) w).0) (k + 1)
            (transport (pos (k + 1)) w).1 (omega arith)))
        h
    where
      Numbered : (Returned → Retries) → ℤ → Type 0
      Numbered next a =
          let s = retried transport (next (transport a w).0) a (transport a w).1 in
          k + suc (length s.attempts) < two_31
          → a ∷ s.attempts ≡ pos (k + 1) ∷ numbered (k + 1 + 1) (length s.attempts)

-- However often a request is sent again: the calls behind have the attempts 1, 2, 3 and so on in their
-- contexts, in this order and from 1 for each request anew, as long as these are below two to the 31st.
pub round_trip-attempts :
    {W : Type 0} (transport : ℤ → W → Returned × W) (p : Retries) (w : W)
    → length (round_trip transport p w).attempts < two_31
    → (round_trip transport p w).attempts ≡ numbered 1 (length (round_trip transport p w).attempts)
unfolding round_trip
round_trip-attempts transport p w h = retried-numbered transport p 0 w (omega arith)

-- ===== src/Errors/Hide/Exposed.antt =====
-- What a caller can find in a hidden error.
use bricks.Prelude.{arith, ℕ, ◌≡◌, refl, Bool, false, not, ◌||◌, some, Bool-cases, inl, inr}
use bricks.Prelude.Text.{Text}
use bricks.Errors.Hide.{
  GoError, plain, is_canceled, is_deadline_exceeded, is_plain, ContextError, not_done, was_canceled,
  was_exceeded, hide_error,
}

-- The context was canceled and so was the error, or its deadline was exceeded and so was that of the
-- error.
abbrev pub both_canceled : ContextError → GoError → Bool
both_canceled was_canceled e = is_canceled e
both_canceled was_exceeded e = false
both_canceled not_done e = false

abbrev pub both_exceeded : ContextError → GoError → Bool
both_exceeded was_exceeded e = is_deadline_exceeded e
both_exceeded was_canceled e = false
both_exceeded not_done e = false

-- Behind an exposed error of its own, an error is hidden: a caller finds that the context was canceled,
-- or its deadline exceeded, exactly if the context and the error both say so, and finds the exposed
-- error exactly if neither is found.
pub hide_error-Exposed :
    (ctx : ContextError) (e : GoError) (a : ℕ) (text : Text)
    → (is_canceled (hide_error ctx e (some (plain a text))) ≡ both_canceled ctx e)
      × (is_deadline_exceeded (hide_error ctx e (some (plain a text))) ≡ both_exceeded ctx e)
      × (is_plain a (hide_error ctx e (some (plain a text)))
          ≡ not (both_canceled ctx e || both_exceeded ctx e))
unfolding hide_error is_canceled is_deadline_exceeded is_plain
hide_error-Exposed not_done e a text = (refl, refl, ground arith)
hide_error-Exposed was_canceled e a text = elim (Bool-cases (is_canceled e)) [
  | inl c ↦ rw c (refl, refl, refl)
  | inr c ↦ rw c (refl, refl, ground arith)
]
hide_error-Exposed was_exceeded e a text = elim (Bool-cases (is_deadline_exceeded e)) [
  | inl c ↦ rw c (refl, refl, refl)
  | inr c ↦ rw c (refl, refl, ground arith)
]

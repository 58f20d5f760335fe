-- ===== src/Prelude/Store.antt =====
-- A function on the numbers as a store.
use bricks.Prelude.Tests.{◌==◌, if◌then◌else◌, Bool-cases, ==_iff}
use Prim.Native.Nat.{ℕ}
use mathlib.Core.Path.{◌≡◌, refl, sym, ap, ◌∙◌}
use mathlib.Core.Logic.{◌≢◌, ◌⊎◌, inl, inr}

-- The store with one place set
abbrev pub put {ℓ} : {A : Type ℓ} → ℕ → A → (ℕ → A) → ℕ → A
put n a f m = if m == n then a else f m

module _ {A : Type 0} (k : ℕ) (a : A) (f : ℕ → A) where
  pub put-cases : (n : ℕ) → ((n ≡ k) × (put k a f n ≡ a)) ⊎ (put k a f n ≡ f n)
  put-cases n = elim (Bool-cases (n == k)) [
    | inl h ↦ inl ((==_iff n k).0 h, rw h refl)
    | inr h ↦ inr (rw h refl)
  ]

  pub put-same : put k a f k ≡ a
  put-same = rw ((==_iff k k).1 refl) refl

  -- What is found in the store and was not put there was there.
  pub put_back : (n : ℕ) (x : A) → a ≢ x → put k a f n ≡ x → f n ≡ x
  put_back n x d h = elim (put-cases n) [ inl (_, e) ↦ absurd (d (sym e ∙ h)) | inr e ↦ sym e ∙ h ]

  -- What is in the store stays there, except at the place that is set.
  pub put_kept : (n : ℕ) (x : A) → f k ≢ x → f n ≡ x → put k a f n ≡ x
  put_kept n x d h = elim (put-cases n) [
    | inl (q, _) ↦ absurd (d (ap f (sym q) ∙ h))
    | inr e ↦ e ∙ h
  ]

  pub put_never : (n : ℕ) (x : A) → a ≢ x → f n ≢ x → put k a f n ≢ x
  put_never n x d e h = e (put_back n x d h)

-- ===== src/Log/Ring/Rotation.antt =====
-- Lists turned by an index: what overwriting the oldest entry of a full ring does.
use mathlib.Core.List.{append-nil, append_assoc}
use bricks.Prelude.{
  ℕ, zero, suc, ◌-◌, ◌≤◌, ◌<◌, ◌≡◌, refl, ap, ◌∙◌, sym, List, [], ◌∷◌, ◌++◌, arith, length, set,
  take, drop, drop_all, take_all, drop-append, length-append,
}

module _ {ℓ} {A : Type ℓ} where
  -- The last `n` entries.
  abbrev pub last : ℕ → List A → List A
  last n xs = drop (length xs - n) xs

  -- The entries from position `p` on, and then those before it.
  abbrev pub turn : ℕ → List A → List A
  turn p xs = drop p xs ++ take p xs

  drop-set : (p : ℕ) (xs : List A) (c : A) → drop (suc p) (set xs p c) ≡ drop (suc p) xs
  drop-set zero [] c = refl
  drop-set zero (x ∷ xs) c = refl
  drop-set (suc p) [] c = refl
  drop-set (suc p) (x ∷ xs) c = drop-set p xs c

  take-set :
      (p : ℕ) (xs : List A) (c : A)
      → p < length xs
      → take (suc p) (set xs p c) ≡ take p xs ++ c ∷ []
  take-set zero [] c h = absurd (omega arith)
  take-set zero (x ∷ xs) c h = refl
  take-set (suc p) [] c h = absurd (omega arith)
  take-set (suc p) (x ∷ xs) c h = ap (◌∷◌ x) (take-set p xs c (omega arith))

  drop_one :
      (p : ℕ) (xs ys : List A) → p < length xs → drop 1 (drop p xs ++ ys) ≡ drop (suc p) xs ++ ys
  drop_one zero [] ys h = absurd (omega arith)
  drop_one zero (x ∷ xs) ys h = refl
  drop_one (suc p) [] ys h = absurd (omega arith)
  drop_one (suc p) (x ∷ xs) ys h = drop_one p xs ys (omega arith)

  -- Overwriting position `p` and going on behind it drops the oldest entry and adds the newest.
  pub turn-set :
      (p : ℕ) (xs : List A) (c : A)
      → p < length xs
      → turn (suc p) (set xs p c) ≡ drop 1 (turn p xs) ++ c ∷ []
  turn-set p xs c h =
      rw (drop-set p xs c, take-set p xs c h, drop_one p xs (take p xs) h)
        (sym (append_assoc (drop (suc p) xs) (take p xs) (c ∷ [])))

  -- A turn by the whole length is none.
  pub turn-length : (xs : List A) → turn (length xs) xs ≡ turn 0 xs
  turn-length xs =
      rw (drop_all (length xs) xs (omega arith), take_all (length xs) xs (omega arith))
        (sym (append-nil xs))

  pub last_short : (n : ℕ) (xs : List A) → length xs ≤ n → last n xs ≡ xs
  last_short n xs h = let e : length xs - n ≡ 0 = omega arith in ap (λ k. drop k xs) e

  drop-suc : (k : ℕ) (xs : List A) → drop 1 (drop k xs) ≡ drop (suc k) xs
  drop-suc zero xs = refl
  drop-suc (suc k) [] = refl
  drop-suc (suc k) (x ∷ xs) = drop-suc k xs

  -- A further entry pushes out the oldest of the last `n`.
  pub last-append :
      (n : ℕ) (xs : List A) (c : A)
      → 0 < n
      → n ≤ length xs
      → last n (xs ++ c ∷ []) ≡ drop 1 (last n xs) ++ c ∷ []
  last-append n xs c p h =
      let e : length (xs ++ c ∷ []) - n ≡ suc (length xs - n) =
        omega (arith, length-append xs (c ∷ [])) in
      ap (λ k. drop k (xs ++ c ∷ [])) e
      ∙ drop-append (suc (length xs - n)) xs (c ∷ []) (omega arith)
      ∙ ap (λ l. l ++ c ∷ []) (sym (drop-suc (length xs - n) xs))

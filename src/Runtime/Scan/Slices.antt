-- ===== src/Runtime/Scan/Slices.antt =====
-- The loop that scans the values of a slice, and a plain description of what it comes to.
use mathlib.Core.List.{append_assoc, append-nil}
use bricks.Prelude.{
  arith, ℕ, zero, suc, ◌+◌, ◌-◌, lt→ltb, ◌≡◌, refl, sym, ap, ◌∙◌, List, [], ◌∷◌, ◌++◌, Option, none,
  some, if◌then◌else◌, length, set, take, Bool-cases, Option-cases, inl, inr, length-append,
}
use bricks.Prelude.Text.{Text, is_empty}
use bricks.Prelude.Result.{Result, ok, err}
use bricks.Runtime.Scan.{Kind, Scanners, scan, scan_elements, make_slice, shortened, scan_slice}

module _ {V : Type 0} (sc : Scanners V) (kind : Kind) where
  abbrev pub in_front : V → Result Text (List V) → Result Text (List V)
  in_front x (err v) = err v
  in_front x (ok xs) = ok (x ∷ xs)

  abbrev pub scanned_first : Text → Option V → Result Text (List V) → Result Text (List V)
  scanned_first v none rest = err v
  scanned_first v (some x) rest = in_front x rest

  -- The values that are not empty, scanned in order, or the first of them that cannot be scanned
  pub values : List Text → Result Text (List V)
  values [] = ok []
  values (v ∷ input) =
      let rest = values input in if is_empty v then rest else scanned_first v (scan sc kind v) rest

  set_next :
      (filled rest : List V) (x z : V)
      → set (filled ++ z ∷ rest) (length filled) x ≡ (filled ++ x ∷ []) ++ rest
  set_next [] rest x z = refl
  set_next (y ∷ filled) rest x z = ap (◌∷◌ y) (set_next filled rest x z)

  take_front : (n : ℕ) (front rest : List V) → n ≡ length front → take n (front ++ rest) ≡ front
  take_front zero [] rest h = refl
  take_front zero (x ∷ front) rest h = absurd (omega arith)
  take_front (suc n) [] rest h = absurd (omega arith)
  take_front (suc n) (x ∷ front) rest h = ap (◌∷◌ x) (take_front n front rest (omega arith))

  abbrev behind : List V → Result Text (List V) → Result Text (List V)
  behind filled (err v) = err v
  behind filled (ok xs) = ok (filled ++ xs)

  behind-in_front :
      (filled : List V) (x : V) (r : Result Text (List V))
      → behind (filled ++ x ∷ []) r ≡ behind filled (in_front x r)
  behind-in_front filled x (err v) = refl
  behind-in_front filled x (ok xs) = ap ok (append_assoc filled (x ∷ []) xs)

  -- At the end the array holds what was filled, and a zero value for each that was empty.
  all_scanned :
      (size inv m : ℕ) (filled : List V)
      → m ≡ inv
      → size ≡ length filled + inv
      → shortened sc size (ok (filled ++ make_slice sc m, inv)) ≡ ok (filled ++ [])
  all_scanned size zero zero filled h e = refl
  all_scanned size zero (suc m) filled h e = absurd (omega arith)
  all_scanned size (suc inv) m filled h e =
      let kept : take (size - suc inv) (filled ++ make_slice sc m) ≡ filled =
        take_front (size - suc inv) filled (make_slice sc m) (omega arith) in
      rw (lt→ltb 0 (suc inv) (omega arith)) (ap ok (kept ∙ sym (append-nil filled)))

  from_filled :
      (input : List Text) (size i inv m : ℕ) (filled : List V)
      → m ≡ length input + inv
      → i ≡ length filled + inv
      → size ≡ i + length input
      → shortened sc size (scan_elements sc kind input i inv (filled ++ make_slice sc m))
        ≡ behind filled (values input)
  unfolding scan_elements values
  from_filled [] size i inv m filled h k e =
      all_scanned size inv m filled (omega arith) (omega arith)
  from_filled (v ∷ input) size i inv zero filled h k e = absurd (omega arith)
  from_filled (v ∷ input) size i inv (suc m) filled h k e = elim (Bool-cases (is_empty v)) [
    | inl empty ↦ rw empty (
        from_filled input size (i + 1) (inv + 1) (suc m) filled (omega arith) (omega arith)
          (omega arith))
    | inr full ↦ rw full (elim (Option-cases (scan sc kind v)) [
      | inl failed ↦ rw failed
      | inr (x, scans) ↦ rw scans (
          let at : i - inv ≡ length filled = omega arith in
          rw (at, set_next filled (make_slice sc m) x sc.zero_value)
            (from_filled input size (i + 1) inv m (filled ++ x ∷ []) (omega arith)
                (omega (arith, length-append filled (x ∷ []))) (omega arith)
              ∙ behind-in_front filled x (values input)))
    ])
  ]

  behind-nil : (r : Result Text (List V)) → behind [] r ≡ r
  behind-nil (err v) = refl
  behind-nil (ok xs) = refl

-- A slice is scanned to the values that are not empty, in order, or to the first of them that cannot
-- be scanned: the loop stores each in front of the zero values that it drops in the end.
pub scan_slice-values :
    {V : Type 0} (sc : Scanners V) (kind : Kind) (input : List Text)
    → scan_slice sc kind input ≡ values sc kind input
unfolding scan_slice
scan_slice-values sc kind input =
    from_filled sc kind input (length input) 0 0 (length input) [] (omega arith) refl (omega arith)
    ∙ behind-nil sc kind (values sc kind input)

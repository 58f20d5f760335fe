-- ===== src/Params/Pages.antt =====
-- http/jsonapi/runtime/standard_params.go: the pages that are read and the rows that they show.
use native.Mathlib.Nat.{mul-add}
use bricks.Prelude.{
  ℕ, ◌+◌, ◌-◌, ◌*◌, ◌≤◌, ◌<◌, ◌≡◌, refl, ap, ◌∙◌, true, false, ◌||◌, Option, none, some, if_cases,
  arith,
}
use bricks.Prelude.Int.{ℤ, pos, ◌+ℤ◌, ◌*ℤ◌, ◌-ℤ◌, ◌≤ℤ◌, ◌<ℤ◌, ltb_ℤ, eqb_ℤ, -ℤ_parts, eq_of_parts}
use bricks.Prelude.Text.{codes, is_empty}
use bricks.Prelude.Decimal.{parse_int}
use bricks.Prelude.Time.{wrap, wrap_exact, two_63}
use bricks.Params.{
  Config, Query, get, UrlQueryParameters, ParamError, check_page_size, read_size, with_size,
  with_number, read_pagination,
}
use bricks.Params.Reading.{page_offset}

-- What the query says of the page, within the bounds of the configuration.
pub record IsPage {V : Type 0} (cfg : Config) (q : Query) (p : UrlQueryParameters V) : Type 0 where
  pub number : parse_int (get q (codes "page[number]")) ≡ some p.page_nr
  pub size : read_size cfg (get q (codes "page[size]")) ≡ some p.page_size
  pub at_least : cfg.min_page_size ≤ℤ p.page_size
  pub at_most : p.page_size ≤ℤ cfg.max_page_size

module _ {V : Type 0} (cfg : Config) (q : Query) where
  abbrev Holds : UrlQueryParameters V × Option ParamError → Type 0
  Holds r = r.1 ≡ none → r.0.has_pagination ≡ true → IsPage cfg q r.0

  check_page_size-Holds :
      (u : UrlQueryParameters V) (n m : ℤ)
      → parse_int (get q (codes "page[number]")) ≡ some n
      → read_size cfg (get q (codes "page[size]")) ≡ some m
      → Holds (check_page_size cfg n m u)
  unfolding check_page_size
  check_page_size-Holds u n m e f =
      if_cases Holds (ltb_ℤ m cfg.min_page_size || ltb_ℤ cfg.max_page_size m) _ _ (λ _ h. cc)
        (λ h _ _. record { number = e; size = f; at_least = ground arith; at_most = ground arith })

  with_size-Holds :
      (u : UrlQueryParameters V) (n : ℤ) (o : Option ℤ)
      → parse_int (get q (codes "page[number]")) ≡ some n
      → read_size cfg (get q (codes "page[size]")) ≡ o
      → Holds (with_size cfg (get q (codes "page[size]")) n o u)
  unfolding with_size
  with_size-Holds u n none e f = λ h. cc
  with_size-Holds u n (some m) e f = check_page_size-Holds u n m e f

  with_number-Holds :
      (u : UrlQueryParameters V) (o : Option ℤ)
      → parse_int (get q (codes "page[number]")) ≡ o
      → Holds (with_number cfg (get q (codes "page[number]")) (get q (codes "page[size]")) o u)
  unfolding with_number
  with_number-Holds u none e = λ h. cc
  with_number-Holds u (some n) e =
      with_size-Holds u n (read_size cfg (get q (codes "page[size]"))) e refl

  -- A pagination that is read without an error has the number of the query, and its size or else the
  -- default, which is within the bounds of the configuration.
  pub read_pagination-IsPage :
      (u : UrlQueryParameters V)
      → (read_pagination cfg q u).1 ≡ none
      → (read_pagination cfg q u).0.has_pagination ≡ true
      → IsPage cfg q (read_pagination cfg q u).0
  unfolding read_pagination
  read_pagination-IsPage u =
      if_cases Holds (is_empty (get q (codes "page[number]"))) _ _ (λ _ _ h. cc)
        (λ _.
          with_number-Holds (record u { has_pagination = true })
            (parse_int (get q (codes "page[number]"))) refl)

-- The rows that a page of a size shows, counted from zero.
abbrev pub InPage : ℤ → ℤ → ℤ → Type 0
InPage page_size page_nr row =
    (page_offset page_size page_nr ≤ℤ row) × (row <ℤ page_offset page_size page_nr +ℤ page_size)

pos_mul : (a b : ℕ) → pos a *ℤ pos b ≡ pos (a * b)
unfolding ◌*ℤ◌
pos_mul a b = eq_of_parts (pos a *ℤ pos b) (pos (a * b)) (ground arith)

page_offset-later :
    (a b : ℕ) → 1 ≤ a → 1 ≤ b → a * b < two_63 → page_offset (pos a) (pos b) ≡ pos (a * b) -ℤ pos 1
unfolding page_offset
page_offset-later a b h k l =
    let n : eqb_ℤ (pos b) (pos 0) ≡ false = ground arith in
    let w : wrap (pos a *ℤ pos b) ≡ pos (a * b) =
      rw (pos_mul a b) (wrap_exact (pos (a * b)) (omega arith, omega arith)) in
    rw (n, w)
      (wrap_exact (pos (a * b) -ℤ pos 1) (
        omega (arith, -ℤ_parts (pos (a * b)) (pos 1)),
        omega (arith, -ℤ_parts (pos (a * b)) (pos 1)),
      ))

-- Every later page starts where the one before it ends, the page of number one excepted: it starts
-- at the last row of the page of number zero, which both pages show.
pub pages_overlap :
    (s n : ℕ)
    → 1 ≤ s
    → 1 ≤ n
    → s * (n + 1) < two_63
    → (page_offset (pos s) (pos (n + 1)) ≡ page_offset (pos s) (pos n) +ℤ pos s)
      × InPage (pos s) (pos 0) (pos s -ℤ pos 1)
      × InPage (pos s) (pos 1) (pos s -ℤ pos 1)
pages_overlap s n h k l =
    let first : page_offset (pos s) (pos 0) ≡ pos 0 = unfold page_offset in refl in
    let one : s * 1 ≡ s = omega arith in
    let more : s * (n + 1) ≡ s * n + s = omega (arith, mul-add s n 1) in
    let last : n ≡ n - 1 + 1 = omega arith in
    let more_rows : s * n ≡ s * (n - 1) + s * 1 = ap (λ m. s * m) last ∙ mul-add s (n - 1) 1 in
    let some_rows : 1 ≤ s * n = omega (arith, more_rows) in
    let second : page_offset (pos s) (pos 1) ≡ pos (s * 1) -ℤ pos 1 =
      page_offset-later s 1 h (omega arith) (omega arith) in
    let this : page_offset (pos s) (pos n) ≡ pos (s * n) -ℤ pos 1 =
      page_offset-later s n h k (omega arith) in
    let next : page_offset (pos s) (pos (n + 1)) ≡ pos (s * (n + 1)) -ℤ pos 1 =
      page_offset-later s (n + 1) h (omega arith) l in
    rw (first, second, this, next)
      (
        (unfold ◌+ℤ◌ ◌-ℤ◌ in ground arith),
        ((unfold ◌-ℤ◌ in ground arith), (unfold ◌+ℤ◌ ◌-ℤ◌ in ground arith)),
        ((unfold ◌-ℤ◌ in ground arith), (unfold ◌+ℤ◌ ◌-ℤ◌ in ground arith)),
      )

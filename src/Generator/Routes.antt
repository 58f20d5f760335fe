-- ===== src/Generator/Routes.antt =====
-- http/jsonapi/generator/route.go: Less, by which sort.Stable orders the routes.
use bricks.Prelude.{
  arith, ℕ, ◌+◌, ◌<◌, ltb, ◌==◌, ◌≡◌, ◌↔◌, ◌⊎◌, Bool, true, false, not, [], ◌∷◌, if◌then◌else◌,
}
use bricks.Prelude.Text.{Text}

-- A route: the path of its URL, and how many query values that has
pub record Route : Type 0 where
  pub path : Text
  pub query_values : ℕ

-- strings.Count(s, sep), for a separator of one byte
unfoldable pub count : Text → ℕ → ℕ
count [] sep = 0
count (c ∷ s) sep = (if c == sep then 1 else 0) + count s sep

-- pathLen: the slashes and the dots
unfoldable pub path_len : Text → ℕ
path_len s = count s 47 + count s 46

unfoldable pub less : Route → Route → Bool
less i j =
    if not (path_len i.path == path_len j.path)
    then ltb (path_len j.path) (path_len i.path)
    else if not (count j.path 123 == count i.path 123)
    then ltb (count i.path 123) (count j.path 123)
    else ltb j.query_values i.query_values

-- A route is as specific as another.
abbrev pub equal : Route → Route → Bool
equal i j = if less i j then false else not (less j i)

-- What sort.Stable asks of Less
pub record IsStrictWeakOrder : Type 0 where
  pub irreflexive : (a : Route) → less a a ≡ false
  pub transitive : (a b c : Route) → less a b ≡ true → less b c ≡ true → less a c ≡ true
  pub equal_transitive : (a b c : Route) → equal a b ≡ true → equal b c ≡ true → equal a c ≡ true

-- Less is a strict weak order.
pub less-IsStrictWeakOrder : IsStrictWeakOrder
unfolding less
less-IsStrictWeakOrder = record {
  irreflexive = λ a. ground arith;
  transitive = λ a b c h k. ground arith;
  equal_transitive = λ a b c h k. ground arith;
}

-- A route comes first exactly if its path has more separators; or as many, and fewer parameters; or as
-- many of both, and it has more query values.
pub less_iff :
    (i j : Route)
    → (less i j ≡ true) ↔ (
        (path_len j.path < path_len i.path)
        ⊎ ((path_len i.path ≡ path_len j.path)
            × ((count i.path 123 < count j.path 123)
                ⊎ ((count i.path 123 ≡ count j.path 123) × (j.query_values < i.query_values)))))
unfolding less
less_iff i j = ground arith

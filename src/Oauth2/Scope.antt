-- ===== src/Oauth2/Scope.antt =====
-- http/oauth2/scope.go: scopes, and when the permissions of one are included in another.
use bricks.Prelude.{
  ◌≡◌, refl, ◌↔◌, Bool, true, false, List, [], ◌∷◌, if◌then◌else◌, Bool-cases, inl, inr, arith, All,
}
use bricks.Prelude.Text.{Text, fields, has, Has, has→Has, Has→has}

unfoldable pub to_slice : Text → List Text
to_slice s = fields s

-- The two loops of IsIncludedIn; the inner one is `has`.
unfoldable pub all_found : List Text → List Text → Bool
all_found [] pts = true
all_found (ps ∷ pss) pts = let rest = all_found pss pts in if has ps pts then rest else false

unfoldable pub is_included_in : Text → Text → Bool
unfolding to_slice all_found
is_included_in s t = all_found (to_slice s) (to_slice t)

pub found_iff : (pss pts : List Text) → (all_found pss pts ≡ true) ↔ All (λ p. Has p pts) pss
unfolding all_found
found_iff [] pts = (λ _. tt, λ _. refl)
found_iff (p ∷ ps) pts = elim (Bool-cases (has p pts)) [
  | inl e ↦ (
    λ h. (has→Has p pts e, (found_iff ps pts).0 (ground arith)),
    λ h. rw e ((found_iff ps pts).1 h.1),
  )
  | inr e ↦ (λ h. absurd (ground arith), λ h. absurd (ground (arith, Has→has p pts h.0)))
]

-- A scope is included in another exactly if each of its permissions is one of the other's.
pub is_included_in_iff :
    (s t : Text) → (is_included_in s t ≡ true) ↔ All (λ p. Has p (to_slice t)) (to_slice s)
unfolding is_included_in
is_included_in_iff s t = found_iff (to_slice s) (to_slice t)

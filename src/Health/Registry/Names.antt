-- ===== src/Health/Registry/Names.antt =====
-- The names of the registered health checks.
use bricks.Prelude.{
  ℕ, suc, ◌≡◌, refl, sym, ap, ◌∙◌, Bool, true, false, List, [], ◌∷◌, Option, some, none,
  if◌then◌else◌, if_cases, length, ltb,
}
use bricks.Prelude.Text.{Text, text_eq, text_eq_iff, text_eq_refl}
use bricks.Prelude.Assoc.{lookup, lookup-insert, lookup-insert_self}
use bricks.Health.{ConnectionState, zero_state}
use bricks.Health.Registry.{
  Registry, is_some, is_registered, Kind, is_required, is_optional, store_check, widen, start_check,
  register_health_check, register_all,
}

-- Where a name is registered.
pub data Place : Type 0 where
  nowhere twice : Place
  once : Kind → Place

abbrev place : Bool → Bool → Place
place false false = nowhere
place true false = once is_required
place false true = once is_optional
place true true = twice

abbrev or_state : Option ConnectionState → Option ConnectionState → Option ConnectionState
or_state none o = o
or_state (some s) o = some s

-- What is registered under a name: where, with which state, and how many goroutines check it.
pub record View : Type 0 where
  pub at : Place
  pub state : Option ConnectionState
  pub goroutines : ℕ

abbrev view_of : Option ConnectionState → Option ConnectionState → ℕ → View
view_of a b c = record { at = place (is_some a) (is_some b); state = or_state a b; goroutines = c }

unfoldable pub count : Text → List Text → ℕ
count name [] = 0
count name (n ∷ ns) = if text_eq n name then suc (count name ns) else count name ns

unfoldable pub view : Text → Registry → View
view name r = view_of (lookup name r.required) (lookup name r.optional) (count name r.background)

-- The kind of the first registration of a name.
unfoldable pub first_place : Text → List (Kind × Text) → Place
first_place name [] = nowhere
first_place name ((kind, n) ∷ rest) = if text_eq n name then once kind else first_place name rest

abbrev added : Kind → Place → View → View
added k nowhere v = record { at = once k; state = some zero_state; goroutines = suc v.goroutines }
added k twice v = v
added k (once j) v = v

-- The one registration of a name that counts: it adds a zero state and a goroutine to a name that
-- is not registered, and nothing to one that is.
abbrev pub after : Place → View → View
after nowhere v = v
after twice v = v
after (once k) v = added k v.at v

-- The registrations that follow the one that counts do nothing.
after_again : (q p : Place) (k : Kind) (v : View) → p ≡ v.at → after q (added k p v) ≡ added k p v
after_again nowhere p k v h = refl
after_again twice p k v h = refl
after_again (once j) nowhere k v h = refl
after_again (once j) twice k v h = ap (λ x. added j x v) (sym h)
after_again (once j) (once i) k v h = ap (λ x. added j x v) (sym h)

after_if :
    (b : Bool) (q : Place) (k : Kind) (v : View)
    → after q (after (if b then once k else nowhere) v) ≡ after (if b then once k else q) v
after_if true q k v = after_again q v.at k v refl
after_if false q k v = refl

required_kept : (k : Kind) (a b : Bool) (v : View) → a ≡ true → added k (place a b) v ≡ v
required_kept k true true v h = refl
required_kept k true false v h = refl
required_kept k false b v h = cc

optional_kept : (k : Kind) (a b : Bool) (v : View) → b ≡ true → added k (place a b) v ≡ v
optional_kept k true true v h = refl
optional_kept k false true v h = refl
optional_kept k a false v h = cc

stored : Kind → Option ConnectionState → Option ConnectionState → ℕ → View
stored is_required a b c = view_of (some zero_state) b c
stored is_optional a b c = view_of a (some zero_state) c

stored-fresh :
    (k : Kind) (a b : Option ConnectionState) (c : ℕ)
    → is_some a ≡ false
    → is_some b ≡ false
    → stored k a b (suc c) ≡ added k (place (is_some a) (is_some b)) (view_of a b c)
unfolding stored
stored-fresh k (some s) b c g h = cc
stored-fresh k none (some s) c g h = cc
stored-fresh is_required none none c g h = refl
stored-fresh is_optional none none c g h = refl

view-widen :
    (name n : Text) (k : Kind) (r : Registry)
    → view name (start_check n (store_check k n (widen n r)))
      ≡ view name (start_check n (store_check k n r))
unfolding view widen start_check store_check
view-widen name n is_required r =
    if_cases
      (λ (q : Registry).
        view name (start_check n (store_check is_required n q))
        ≡ view name (start_check n (store_check is_required n r)))
      (ltb r.longest_check_name (length n)) _ _ (λ _. refl) (λ _. refl)
view-widen name n is_optional r =
    if_cases
      (λ (q : Registry).
        view name (start_check n (store_check is_optional n q))
        ≡ view name (start_check n (store_check is_optional n r)))
      (ltb r.longest_check_name (length n)) _ _ (λ _. refl) (λ _. refl)

-- What is stored under another name is not seen.
view-store_other :
    (name n : Text) (k : Kind) (r : Registry)
    → text_eq n name ≡ false
    → view name (start_check n (store_check k n r)) ≡ view name r
unfolding view start_check store_check count
view-store_other name n is_required r h = simp (lookup-insert, h)
view-store_other name n is_optional r h = simp (lookup-insert, h)

view-store :
    (name : Text) (k : Kind) (r : Registry)
    → view name (start_check name (store_check k name r))
      ≡ stored k (lookup name r.required) (lookup name r.optional) (suc (count name r.background))
unfolding view start_check store_check count stored
view-store name is_required r = simp (lookup-insert_self, text_eq_refl)
view-store name is_optional r = simp (lookup-insert_self, text_eq_refl)

view-register_same :
    (name : Text) (k : Kind) (r : Registry)
    → view name (register_health_check k name r) ≡ added k (view name r).at (view name r)
unfolding register_health_check is_registered view
view-register_same name k r =
    if_cases (λ (q : Registry). view name q ≡ added k (view name r).at (view name r))
      (is_some (lookup name r.required)) _ _ (λ a. sym (required_kept k _ _ (view name r) a))
      (λ a.
        if_cases (λ (q : Registry). view name q ≡ added k (view name r).at (view name r))
          (is_some (lookup name r.optional)) _ _ (λ b. sym (optional_kept k _ _ (view name r) b))
          (λ b.
            view-widen name name k r
            ∙ view-store name k r
            ∙ stored-fresh k (lookup name r.required) (lookup name r.optional)
                (count name r.background) a b))

view-register_other :
    (name n : Text) (k : Kind) (r : Registry)
    → text_eq n name ≡ false
    → view name (register_health_check k n r) ≡ view name r
unfolding register_health_check
view-register_other name n k r h =
    if_cases (λ (q : Registry). view name q ≡ view name r) (is_registered n r.required) _ _
      (λ _. refl)
      (λ _.
        if_cases (λ (q : Registry). view name q ≡ view name r) (is_registered n r.optional) _ _
          (λ _. refl) (λ _. view-widen name n k r ∙ view-store_other name n k r h))

view-register :
    (name n : Text) (k : Kind) (r : Registry)
    → view name (register_health_check k n r)
      ≡ after (if text_eq n name then once k else nowhere) (view name r)
view-register name n k r = by_name (text_eq n name) refl
  where
    by_name :
        (e : Bool)
        → text_eq n name ≡ e
        → view name (register_health_check k n r)
          ≡ after (if e then once k else nowhere) (view name r)
    by_name true h = rw ((text_eq_iff n name).0 h) (view-register_same name k r)
    by_name false h = view-register_other name n k r h

-- Whatever is registered already, and whatever is registered then, required or optional: of a name
-- only the first registration counts, and only if the name is not registered yet. It puts the name
-- into the list of its kind with a zero state and starts one goroutine for it; every other
-- registration of the name leaves its list, its state and its goroutines as they are.
pub view-register_all :
    (name : Text) (regs : List (Kind × Text)) (r : Registry)
    → view name (register_all regs r) ≡ after (first_place name regs) (view name r)
unfolding register_all first_place
view-register_all name [] r = refl
view-register_all name ((k, n) ∷ regs) r =
    view-register_all name regs (register_health_check k n r)
    ∙ ap (after (first_place name regs)) (view-register name n k r)
    ∙ after_if (text_eq n name) (first_place name regs) k (view name r)

-- ===== src/Cache/Memory/Race.antt =====
-- Get of pkg/cache/memory.go reads under one lock and forgets an expired value under another.
use bricks.Prelude.{◌≡◌, ap, ◌∙◌, none}
use bricks.Prelude.Int.{ℤ, pos}
use bricks.Prelude.Text.{Text, text_eq_refl}
use bricks.Prelude.Assoc.{lookup, lookup-insert_self, lookup-remove}
use bricks.Prelude.Result.{ok, err}
use bricks.Cache.Spec.{not_found, put, get, got}
use bricks.Cache.Memory.{Memory, checked, conclude, step, forget_key}

-- What happens if a Put comes between the two sections of a Get.
abbrev pub after_race : ℤ → Text → Text → Memory → Memory
after_race now key value m =
    let seen_by_get = checked now (lookup key m.values) in
    (conclude key seen_by_get (step now (put key value (pos 0)) m).0).0

get-forget_key :
    (u : ℤ) (key : Text) (m : Memory)
    → (step u (get key) (forget_key key m)).1 ≡ got (err not_found)
unfolding step forget_key
get-forget_key u key m = rw (lookup-remove, text_eq_refl)

get-put_lasting :
    (now u : ℤ) (key value : Text) (m : Memory)
    → (step u (get key) (step now (put key value (pos 0)) m).0).1 ≡ got (ok (value, pos 0))
unfolding step
get-put_lasting now u key value m =
    rw (lookup-insert_self key (record { value = value; expires_at = pos 0 }) m.values)

-- If the value under a key has expired, and a Put of a value that is never to be forgotten comes
-- between the two sections of a Get of that key, then the new value is lost: without the Get it is
-- found at every later time, and with it nothing is.
pub lost_put :
    (now u : ℤ) (key value : Text) (m : Memory)
    → checked now (lookup key m.values) ≡ none
    → ((step u (get key) (step now (put key value (pos 0)) m).0).1 ≡ got (ok (value, pos 0)))
      × ((step u (get key) (after_race now key value m)).1 ≡ got (err not_found))
unfolding conclude
lost_put now u key value m expired = (
  get-put_lasting now u key value m,
  ap (λ o. (step u (get key) (conclude key o (step now (put key value (pos 0)) m).0).0).1) expired
      ∙ get-forget_key u key _,
)

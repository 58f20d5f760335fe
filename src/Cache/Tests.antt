-- ===== src/Cache/Tests.antt =====
-- Runs of the caches of pkg/cache.
use bricks.Prelude.{
  ◌+◌, ◌≡◌, refl, ◌↔◌, ◌⊎◌, inl, inr, Bool, true, List, [], ◌∷◌, Option, none, some, arith,
  if◌then◌else◌,
}
use bricks.Prelude.Int.{ℤ, pos, negsuc, ◌≤ℤ◌, ◌<ℤ◌}
use bricks.Prelude.Text.{Text, codes, text_eq, text_eq_iff}
use bricks.Prelude.Assoc.{lookup, insert}
use bricks.Prelude.Result.{ok, err}
use bricks.Prelude.Time.{sub_time}
use bricks.Cache.Spec.{not_found, Call, put, get, done, got}
use bricks.Cache.Memory.{Memory, in_memory, step, checked}
use bricks.Cache.Memory.Laws.{replies, spec_replies, replies-spec_replies}
use bricks.Cache.Memory.Race.{after_race, lost_put}
use bricks.Cache.Redis.{nil, text, int64, Answer, list, RedisClient}
use bricks.Cache.Redis.Laws.{IsStore}

-- A time of the year 2022, in nanoseconds, and so many nanoseconds later.
abbrev at : ℤ → ℤ
at (pos n) = pos (63_780_000_000_000_000_000 + n)
at z = z

abbrev key : Text
key = codes "k"

abbrev calls : List (ℤ × Call)
calls =
    (at (pos 0), put key (codes "v") (pos 10))
    ∷ (at (pos 4), get key)
    ∷ (at (pos 10), get key)
    ∷ (at (pos 11), put key (codes "w") (pos 0))
    ∷ (at (pos 99), get key)
    ∷ []

calls_run :
    replies calls in_memory
    ≡ done
      ∷ got (ok (codes "v", pos 6))
      ∷ got (err not_found)
      ∷ done
      ∷ got (ok (codes "w", pos 0))
      ∷ []
unfolding replies in_memory step lookup insert text_eq sub_time bricks.Prelude.Int.◌+ℤ◌
    bricks.Prelude.Int.◌-ℤ◌ bricks.Prelude.Assoc.remove
calls_run = refl

replies-spec_replies_example : replies calls in_memory ≡ spec_replies calls (λ _. none)
replies-spec_replies_example = replies-spec_replies calls (at (pos 0)) (omega arith)

-- A memory with a value that has expired.
abbrev stale : Memory
stale = record { values = (key, record { value = codes "v"; expires_at = at (pos 1) }) ∷ [] }

lost_put_example :
    ((step (at (pos 9)) (get key) (step (at (pos 5)) (put key (codes "w") (pos 0)) stale).0).1
      ≡ got (ok (codes "w", pos 0)))
    × ((step (at (pos 9)) (get key) (after_race (at (pos 5)) key (codes "w") stale)).1
        ≡ got (err not_found))
lost_put_example =
    lost_put (at (pos 5)) (at (pos 9)) key (codes "w") stale
      (unfold checked lookup text_eq sub_time bricks.Prelude.Int.◌-ℤ◌ in refl)

-- A redis that is a function from keys to values, with no ttl.
answer : Option Text → Answer
answer none = list (nil ∷ int64 (negsuc 1) ∷ [])
answer (some v) = list (text v ∷ int64 (negsuc 0) ∷ [])

abbrev table : RedisClient
table = record {
  Server = Text → Option Text;
  set = λ k v ttl s. ((λ j. if text_eq k j then some v else s j), true);
  get_and_pttl = λ k s. answer (s k);
  del = λ k s. ((λ j. if text_eq k j then none else s j), true);
}

text_ne : (j k : Text) → ¬ (j ≡ k) → text_eq k j ≡ bricks.Prelude.Bool.false
text_ne j k h = ground (arith, text_eq_iff k j)

table-IsStore : IsStore table
unfolding answer
table-IsStore = record {
  get_set = λ k v s e. rw (bricks.Prelude.Text.text_eq_refl k);
  get_set_ne = λ j k v ttl s h. rw (text_ne j k h);
  get_del = λ k s e. rw (bricks.Prelude.Text.text_eq_refl k);
  get_del_ne = λ j k s h. rw (text_ne j k h);
}

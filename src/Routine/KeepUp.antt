-- ===== src/Routine/KeepUp.antt =====
-- pkg/routine/redis_lock.go: how keeping up a lock ends.
use bricks.Prelude.{
  ℕ, ◌/◌, ◌<◌, ◌≡◌, refl, Bool, true, List, [], ◌∷◌, Option, none, some, if_cases, arith,
}
use bricks.Prelude.Int.{ℤ, pos, ◌≤ℤ◌}
use bricks.Routine.{
  Refresh, refreshed, failed, refused, Round, Ended, ran_out, runs_out, keep_up_lock, after_refresh,
}

-- Before the lock runs out, Refresh was refused, and the TTL of the lock is at most the interval of
-- the refreshes.
abbrev pub IsRefused : ℕ → Option Refresh → Type 0
IsRefused ttl last = (t : ℤ) × (last ≡ some (refused (some t))) × (t ≤ℤ pos (ttl / 5))

-- The lock runs out later than the next refresh, unless that is so.
abbrev Known : ℕ → ℤ → Option Refresh → Type 0
Known ttl lock_runs_out_in last = lock_runs_out_in ≤ℤ pos (ttl / 5) → IsRefused ttl last

not_later : (a b : ℤ) (f : Bool) → runs_out a b f ≡ true → a ≤ℤ b
not_later a b f h = ground arith

abbrev GoodEnd : ℕ → Ended × Option Refresh → Type 0
GoodEnd ttl w = w.0 ≡ ran_out → IsRefused ttl w.1

after_refresh-GoodEnd :
    (ttl : ℕ)
    → 0 < ttl
    → (next : ℤ → Option Refresh → Ended × Option Refresh)
    → ((t : ℤ) (last : Option Refresh) → Known ttl t last → GoodEnd ttl (next t last))
    → (r : Refresh) → GoodEnd ttl (after_refresh next ttl r)
unfolding after_refresh
after_refresh-GoodEnd ttl p next k refreshed =
    k (pos ttl) (some refreshed) (λ h. absurd (omega arith))
after_refresh-GoodEnd ttl p next k failed = λ h. cc
after_refresh-GoodEnd ttl p next k (refused none) = λ h. cc
after_refresh-GoodEnd ttl p next k (refused (some t)) =
    k t (some (refused (some t))) (λ h. (t, refl, h))

keep_up_lock-GoodEnd :
    (ttl : ℕ)
    → 0 < ttl
    → (rs : List Round) (t : ℤ) (last : Option Refresh) → Known ttl t last
    → GoodEnd ttl (keep_up_lock ttl rs t last)
unfolding keep_up_lock
keep_up_lock-GoodEnd ttl p [] t last k = λ h. cc
keep_up_lock-GoodEnd ttl p (r ∷ rs) t last k =
    if_cases (GoodEnd ttl) r.is_done _ _ (λ _ h. cc)
      (λ _.
        if_cases (GoodEnd ttl) (runs_out t (pos (ttl / 5)) r.runs_out_first) _ _
          (λ e _. k (not_later t (pos (ttl / 5)) r.runs_out_first e))
          (λ _.
            after_refresh-GoodEnd ttl p (keep_up_lock ttl rs) (keep_up_lock-GoodEnd ttl p rs)
              r.reply))

-- A lock that was obtained with a TTL above zero is given up for running out only right after a
-- refresh that was refused, when its remaining TTL is at most the interval of the refreshes: as long
-- as the refreshes succeed, the next one always comes first.
pub keep_up_lock-ran_out :
    (ttl : ℕ)
    → 0 < ttl
    → (rs : List Round) → (keep_up_lock ttl rs (pos ttl) none).0 ≡ ran_out
    → IsRefused ttl (keep_up_lock ttl rs (pos ttl) none).1
keep_up_lock-ran_out ttl p rs =
    keep_up_lock-GoodEnd ttl p rs (pos ttl) none (λ h. absurd (omega arith))

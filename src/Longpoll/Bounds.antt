-- ===== src/Longpoll/Bounds.antt =====
-- http/longpoll/longpoll.go: how long it polls.
use bricks.Prelude.{
  ℕ, zero, suc, ◌+◌, ◌≤◌, ◌<◌, ◌≡◌, ◌≢◌, refl, sym, ◌∙◌, Bool, true, false, not, List, [], ◌∷◌,
  Option, none, some, if◌then◌else◌, if_cases, ltb, length, arith,
}
use bricks.Prelude.Int.{ℤ, pos, leb_ℤ, ◌≤ℤ◌}
use bricks.Longpoll.{
  Config, deadline, Polled, polling, finished, Round, wait, after_fn, poll, long_poll_until,
}

-- So many retries.
unfoldable pub retries : ℕ → ℕ → ℕ
retries retry zero = 0
retries retry (suc n) = retry + retries retry n

-- The clock does not go back, and at least the time of a retry passes from one round to the next.
abbrev pub Clocked : {E : Type 0} → ℕ → ℕ → List (Round E) → Type 0
Clocked retry t [] = Unit
Clocked retry t (r ∷ rs) = (t ≤ r.now) × Clocked retry (r.now + retry) rs

abbrev Ends : {E : Type 0} → Polled E → Type 0
Ends p = p ≢ polling

module _ {E : Type 0} (c : Config) (d : ℤ) (until : ℕ) where
  wait-Ends : (e : Option E) (rest : Polled E) → Ends rest → Ends (wait c d e rest)
  unfolding wait
  wait-Ends none rest h = h
  wait-Ends (some e) rest h = λ k. cc

  after_fn-Ends :
      (r : Round E) (e : Option E) (rest : Polled E)
      → (r.now + c.retry_time < until → Ends rest)
      → Ends (after_fn c d until r e rest)
  unfolding after_fn
  after_fn-Ends r (some e) rest h = λ k. cc
  after_fn-Ends r none rest h =
      if_cases Ends r.ok _ _ (λ _ k. cc)
        (λ _.
          if_cases Ends (leb_ℤ d (pos 0)) _ _ (λ _ k. cc)
            (λ _.
              if_cases Ends (not (ltb (r.now + c.retry_time) until)) _ _ (λ _ k. cc)
                (λ e. wait-Ends r.canceled rest (h (ground arith)))))

  poll-Ends :
      (t : ℕ) (r : Round E) (rs : List (Round E))
      → Clocked c.retry_time t (r ∷ rs)
      → until ≤ t + retries c.retry_time (length (r ∷ rs))
      → Ends (poll c d until (r ∷ rs))
  unfolding poll retries
  poll-Ends t r [] (h, _) k = after_fn-Ends r r.err polling (λ l. absurd (omega arith))
  poll-Ends t r (s ∷ rs) (h, hs) k =
      after_fn-Ends r r.err (poll c d until (s ∷ rs))
        (λ l. poll-Ends (r.now + c.retry_time) s rs hs (omega arith))

-- A long poll that starts at a time returns, if its function does: it does so within as many rounds
-- as the time of a retry goes into its time budget, rounded up, and one round at least.
pub long_poll_until-Ends :
    {E : Type 0} (c : Config) (d : ℤ) (start : ℕ) (r : Round E) (rs : List (Round E))
    → Clocked c.retry_time start (r ∷ rs)
    → deadline c start d ≤ start + retries c.retry_time (length (r ∷ rs))
    → long_poll_until c d start (r ∷ rs) ≢ polling
unfolding long_poll_until
long_poll_until-Ends c d start r rs h k = poll-Ends c d (deadline c start d) start r rs h k

pick :
    {A : Type 0} (a b : Bool) (x y z w : A)
    → b ≡ true
    → (if a then x else if b then y else z) ≡ (if a then x else if b then y else w)
pick true b x y z w h = refl
pick false true x y z w h = refl
pick false false x y z w h = cc

after_fn_once :
    {E : Type 0} (c : Config) (d : ℤ) (until : ℕ) (r : Round E) (e : Option E)
    (rest other : Polled E)
    → d ≤ℤ pos 0
    → after_fn c d until r e rest ≡ after_fn c d until r e other
unfolding after_fn
after_fn_once c d until r (some e) rest other h = refl
after_fn_once c d until r none rest other h = pick r.ok (leb_ℤ d (pos 0)) _ _ _ _ (ground arith)

-- Without a duration, or with a negative one, the function is executed exactly once, whatever it
-- returns: the long poll returns after the first round.
pub once_without_duration :
    {E : Type 0} (c : Config) (d : ℤ) (start : ℕ) (r : Round E) (rs : List (Round E))
    → d ≤ℤ pos 0
    → (long_poll_until c d start (r ∷ rs) ≡ long_poll_until c d start (r ∷ []))
      × (long_poll_until c d start (r ∷ []) ≢ polling)
unfolding long_poll_until poll
once_without_duration c d start r rs h =
    let stop : after_fn c d (deadline c start d) r r.err polling
        ≡ after_fn c d (deadline c start d) r r.err (finished false none) =
      after_fn_once c d (deadline c start d) r r.err polling (finished false none) h in
    (
      after_fn_once c d (deadline c start d) r r.err (poll c d (deadline c start d) rs) polling h,
      λ k.
          after_fn-Ends c d (deadline c start d) r r.err (finished false none) (λ _ l. cc)
            (sym stop ∙ k),
    )

-- ===== src/Cache/Redis/Laws.antt =====
-- What the cache of pkg/cache/redis.go makes of the answers of redis.
use mathlib.Core.List.{append_cancel_left}
use bricks.Prelude.{
  ℕ, zero, suc, ◌*◌, ◌≡◌, refl, ap, sym, ◌≢◌, ◌↔◌, ◌⊎◌, inl, inr, ◌++◌, Bool, true, false, [], ◌∷◌,
  some, arith, if◌then◌else◌, Bool-cases,
}
use bricks.Prelude.Int.{ℤ, pos, negsuc, ◌*ℤ◌, ◌≤ℤ◌, ◌<ℤ◌}
use bricks.Prelude.Text.{Text, text_eq, text_eq_iff}
use bricks.Prelude.Result.{ok, err}
use bricks.Prelude.Time.{wrap_exact}
use bricks.Cache.Spec.{not_found, backend}
use bricks.Cache.Redis.{
  nil, text, int64, list, read_answer, RedisClient, put, get, forget, succeeded,
}

in_nanoseconds : (n : ℕ) → pos (suc n) *ℤ pos 1_000_000 ≡ pos (suc n * 1_000_000)
unfolding ◌*ℤ◌
in_nanoseconds n = ground arith

read_positive :
    (v : Text) (n : ℕ)
    → pos (suc n) ≤ℤ pos 9_223_372_036_854
    → read_answer (list (text v ∷ int64 (pos (suc n)) ∷ []))
      ≡ some (ok (v, pos (suc n * 1_000_000)))
unfolding read_answer
read_positive v n h =
    ground
      (arith, in_nanoseconds n, wrap_exact (pos (suc n * 1_000_000)) (omega arith, omega arith))

-- The ttl in milliseconds that is read for a text is at most the longest duration. Then the answer
-- is an error exactly if the ttl is below -1, and otherwise the value with a duration that is
-- not negative, and zero exactly if the ttl is -1: the value does not expire.
pub read_answer_text :
    (v : Text) (ttl : ℤ)
    → ttl ≤ℤ pos 9_223_372_036_854
    → ((ttl <ℤ negsuc 0) × (read_answer (list (text v ∷ int64 ttl ∷ [])) ≡ some (err backend)))
      ⊎ ((d : ℤ) × (read_answer (list (text v ∷ int64 ttl ∷ [])) ≡ some (ok (v, d)))
          × (pos 0 ≤ℤ d)
          × ((d ≡ pos 0) ↔ (ttl ≡ negsuc 0)))
unfolding read_answer
read_answer_text v (pos zero) h = inr (pos 1, refl, omega arith, ((λ e. cc), (λ e. cc)))
read_answer_text v (pos (suc n)) h =
    inr
      (pos (suc n * 1_000_000), read_positive v n h, omega arith, ((λ e. ground arith), (λ e. cc)))
read_answer_text v (negsuc zero) h = inr (pos 0, refl, omega arith, ((λ e. refl), (λ e. refl)))
read_answer_text v (negsuc (suc n)) h = inl (omega arith, ground arith)

-- What the cache relies on: redis keeps what was set under a key, and the other keys, as long as
-- no time passes.
pub record IsStore (client : RedisClient) : Type 0 where
  pub get_set :
      (k v : Text) (s : client.Server)
      → (client.set k v (pos 0) s).1 ≡ true
      → client.get_and_pttl k (client.set k v (pos 0) s).0 ≡ list (text v ∷ int64 (negsuc 0) ∷ [])
  pub get_set_ne :
      (j k v : Text) (ttl : ℤ) (s : client.Server)
      → j ≢ k
      → client.get_and_pttl j (client.set k v ttl s).0 ≡ client.get_and_pttl j s
  pub get_del :
      (k : Text) (s : client.Server)
      → (client.del k s).1 ≡ true
      → client.get_and_pttl k (client.del k s).0 ≡ list (nil ∷ int64 (negsuc 1) ∷ [])
  pub get_del_ne :
      (j k : Text) (s : client.Server)
      → j ≢ k
      → client.get_and_pttl j (client.del k s).0 ≡ client.get_and_pttl j s

module _ (client : RedisClient) (laws : IsStore client) (prefix : Text) where
  prefixed_ne : (j k : Text) → text_eq k j ≡ false → (prefix ++ j) ≢ (prefix ++ k)
  prefixed_ne j k h e =
      let same : j ≡ k = append_cancel_left prefix j k e in cc (h, (text_eq_iff k j).1 (sym same))

  succeeded_facts :
      (r : client.Server × Bool)
      → ((succeeded client prefix r).0 ≡ r.0) × ((succeeded client prefix r).1 ≡ ok tt → r.1 ≡ true)
  unfolding succeeded
  succeeded_facts (s, true) = (refl, λ e. refl)
  succeeded_facts (s, false) = (refl, λ e. cc)

  -- After a Put with no ttl that succeeds, the key has the value, with a ttl of zero, and a Get of
  -- any other key has the reply that it had before.
  pub get-put :
      (j k v : Text) (s : client.Server)
      → (put client prefix k v (pos 0) s).1 ≡ ok tt
      → get client prefix j (put client prefix k v (pos 0) s).0
        ≡ (if text_eq k j then some (ok (v, pos 0)) else get client prefix j s)
  unfolding get put read_answer
  get-put j k v s e =
      let (state, success) = succeeded_facts (client.set (prefix ++ k) v (pos 0) s) in
      rw state (elim (Bool-cases (text_eq k j)) [
        | inl same ↦
            rw (same, ← (text_eq_iff k j).0 same)
              (ap read_answer (laws.get_set (prefix ++ k) v s (success e)))
        | inr other ↦ rw other (
            ap read_answer
              (laws.get_set_ne (prefix ++ j) (prefix ++ k) v (pos 0) s (prefixed_ne j k other)))
      ])

  -- After a Forget that succeeds, the key is not found, and a Get of any other key has the reply
  -- that it had before.
  pub get-forget :
      (j k : Text) (s : client.Server)
      → (forget client prefix k s).1 ≡ ok tt
      → get client prefix j (forget client prefix k s).0
        ≡ (if text_eq k j then some (err not_found) else get client prefix j s)
  unfolding get forget read_answer
  get-forget j k s e =
      let (state, success) = succeeded_facts (client.del (prefix ++ k) s) in
      rw state (elim (Bool-cases (text_eq k j)) [
        | inl same ↦
            rw (same, ← (text_eq_iff k j).0 same)
              (ap read_answer (laws.get_del (prefix ++ k) s (success e)))
        | inr other ↦
            rw other (
              ap read_answer
                (laws.get_del_ne (prefix ++ j) (prefix ++ k) s (prefixed_ne j k other)))
      ])

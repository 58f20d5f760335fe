-- ===== src/Backend/Objstore/Healthy.antt =====
-- When the check of the object store shows that it is healthy.
use bricks.Prelude.{
  arith, ◌≡◌, refl, sym, ap, ◌∙◌, ◌↔◌, ◌⊎◌, inl, inr, Bool, true, false, Option, none, some,
  Bool-cases,
}
use bricks.Prelude.Int.{ℤ, ◌+ℤ◌, ◌-ℤ◌, ◌<ℤ◌}
use bricks.Prelude.Text.{Text, text_eq, text_eq_iff}
use bricks.Prelude.Result.{Result, ok, err}
use bricks.Health.{ConnectionState, set_error_state, set_healthy, set_connection_state}
use bricks.Backend.Cached.{is_fresh, shown}
use bricks.Backend.Objstore.{
  TimeFormat, concurrent_span, in_span, Call, was_concurrent_health_check, compare_content,
  get_object, put_object, health_check,
}

module _ (f : TimeFormat) where
  -- A time less than the span away from the check
  abbrev pub IsNear : ℤ → Text → Type 0
  IsNear check_time buf =
      (t : ℤ) × (f.parse buf ≡ some t)
      × (check_time -ℤ concurrent_span <ℤ t)
      × (t <ℤ check_time +ℤ concurrent_span)

  -- The content that was put, or that of another check at about the same time
  abbrev pub IsExpected : ℤ → Text → Type 0
  IsExpected check_time buf = (buf ≡ f.format check_time) ⊎ IsNear check_time buf

  abbrev pub IsRead : Call → Result Text Text → Type 0
  IsRead c r = (buf : Text) × (r ≡ ok buf) × IsExpected c.check_time buf

  abbrev pub IsStored : Result Text Text → Type 0
  IsStored r = (version : Text) × (r ≡ ok version)

  in_span→ :
      (check_time : ℤ) (buf : Text) (o : Option ℤ)
      → f.parse buf ≡ o
      → in_span check_time o ≡ true
      → IsNear check_time buf
  in_span→ check_time buf none e h = cc
  in_span→ check_time buf (some t) e h = (t, e, ground arith, ground arith)

  -- A state says that the service is healthy, or what error there is.
  is_healthy : ConnectionState → Bool
  is_healthy s = text_eq s.result.state bricks.Health.ok

  healthy_set : (t : ℤ) (cs : ConnectionState) → is_healthy (set_healthy t cs) ≡ true
  unfolding is_healthy set_healthy set_connection_state text_eq
  healthy_set t cs = refl

  error_set :
      (e : Text) (t : ℤ) (cs : ConnectionState) → is_healthy (set_error_state e t cs) ≡ false
  unfolding is_healthy set_error_state set_connection_state text_eq
  error_set e t cs = refl

  near→ :
      (check_time : ℤ) (buf : Text) (o : Option ℤ)
      → o ≡ f.parse buf
      → IsNear check_time buf
      → in_span check_time o ≡ true
  near→ check_time buf none e (t, p, l, r) = absurd (let q : none ≡ some t = e ∙ p in cc)
  near→ check_time buf (some u) e (t, p, l, r) =
      let q : some u ≡ some t = e ∙ p in let u-t : u ≡ t = cc in rw u-t (ground arith)

  pub IsNear→was_concurrent :
      (check_time : ℤ) (buf : Text)
      → IsNear check_time buf
      → was_concurrent_health_check f check_time buf ≡ true
  unfolding was_concurrent_health_check
  IsNear→was_concurrent check_time buf n = near→ check_time buf (f.parse buf) refl n

  expected→ :
      (c : Call) (buf : Text) (cs : ConnectionState)
      → is_healthy (compare_content f c (ok buf) cs) ≡ true
      → IsExpected c.check_time buf
  unfolding compare_content was_concurrent_health_check
  expected→ c buf cs h = elim (Bool-cases (text_eq buf (f.format c.check_time))) [
    | inl e ↦ inl ((text_eq_iff buf (f.format c.check_time)).0 e)
    | inr n ↦ elim (Bool-cases (in_span c.check_time (f.parse buf))) [
      | inl e ↦ inr (in_span→ c.check_time buf (f.parse buf) refl e)
      | inr m ↦
          absurd (let q : false ≡ true = sym (error_set _ c.stored cs) ∙ (rw (n, m) at h) in cc)
    ]
  ]

  expected← :
      (c : Call) (buf : Text) (cs : ConnectionState)
      → IsExpected c.check_time buf
      → compare_content f c (ok buf) cs ≡ set_healthy c.stored cs
  unfolding compare_content was_concurrent_health_check
  expected← c buf cs (inl e) = rw ((text_eq_iff buf (f.format c.check_time)).1 e)
  expected← c buf cs (inr near) =
      let e : in_span c.check_time (f.parse buf) ≡ true =
        near→ c.check_time buf (f.parse buf) refl near in
      ground arith

  -- Of a call that is not cut short by a fresh result: the object is put, got and read, and its content
  -- is as expected.
  abbrev pub IsGood : Call → Type 0
  IsGood c = IsStored c.put × (c.got ≡ none) × IsRead c c.read

  good→ :
      (c : Call) (p : Result Text Text) (o : Option Text) (r : Result Text Text)
      (cs : ConnectionState)
      → c.put ≡ p
      → c.got ≡ o
      → c.read ≡ r
      → is_healthy (put_object f c c.put cs).state ≡ true
      → IsGood c
  unfolding put_object get_object
  good→ c (err e) o r cs p q s h =
      absurd (let n : false ≡ true = sym (error_set _ c.stored cs) ∙ (rw p at h) in cc)
  good→ c (ok v) (some e) r cs p q s h =
      absurd (let n : false ≡ true = sym (error_set _ c.stored cs) ∙ (rw (p, q) at h) in cc)
  good→ c (ok v) none (err e) cs p q s h = absurd (
      unfold compare_content in
      let n : false ≡ true = sym (error_set _ c.stored cs) ∙ (rw (p, q, s) at h) in cc)
  good→ c (ok v) none (ok buf) cs p q s h =
      ((v, p), q, (buf, s, expected→ c buf cs (rw (p, q, s) at h)))

  good← :
      (c : Call) (cs : ConnectionState)
      → IsGood c
      → (put_object f c c.put cs).state ≡ set_healthy c.stored cs
  unfolding put_object get_object
  good← c cs ((v, p), q, (buf, s, e)) = rw (p, q, s) (expected← c buf cs e)

-- If the last result is not fresh: the check makes the state healthy exactly if the object was put, got
-- and read, and what was read is the time that was put or another one less than ten seconds away from
-- it.
pub health_check-healthy_iff :
    (f : TimeFormat) (ttl : ℤ) (c : Call) (cs : ConnectionState)
    → is_fresh ttl c.now cs ≡ false
    → ((health_check f ttl c cs).state ≡ record { last_check = c.stored; result = shown none })
      ↔ IsGood f c
unfolding health_check set_healthy
health_check-healthy_iff f ttl c cs stale = (
  λ h.
      good→ f c c.put c.got c.read cs refl refl refl
        (ap (is_healthy f) (rw stale at h) ∙ healthy_set f c.stored cs),
  λ good. rw stale (unfold set_healthy set_connection_state in good← f c cs good),
)

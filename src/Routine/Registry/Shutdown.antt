-- ===== src/Routine/Registry/Shutdown.antt =====
-- pkg/routine/routine.go: what a shutdown does to the routines, in every interleaving.
use bricks.Prelude.{
  Bool-cases, ◌⊎◌, inl, inr, arith, ℕ, ◌≡◌, refl, sym, ◌∙◌, Bool, true, false, not,
}
use bricks.Routine.Registry.{
  Phase, absent, created, registered, started, cancel, is_canceled, Routines, no_routines, Step,
  begins, registers, starts, cancels, ends, deregisters, receives, shutdown, shutdown_cancels,
  Steps, start, and_then,
}

-- Run has put the routine's context into the map.
abbrev pub is_registered : Phase → Bool
is_registered absent = false
is_registered created = false
is_registered (registered canceled) = true
is_registered (started canceled ended) = true

-- Its context was registered and is not canceled.
abbrev is_live : Phase → Bool
is_live absent = false
is_live created = false
is_live (registered canceled) = not canceled
is_live (started canceled ended) = not canceled

cancel_lem : (p : Phase) → is_live (cancel p) ≡ false
cancel_lem absent = refl
cancel_lem created = refl
cancel_lem (registered c) = refl
cancel_lem (started c e) = refl

not_live : (p : Phase) → is_canceled p ≡ true → is_live p ≡ false
not_live absent h = cc
not_live created h = cc
not_live (registered c) h = ground arith
not_live (started c e) h = ground arith

-- A context that is not canceled is in the map, or is one that the shutdown has yet to cancel.
pub record IsTracked (s : Routines) : Type 0 where
  pub in_map : (n : ℕ) → s.shut ≡ false → is_live (s.phase n) ≡ true → s.contexts n ≡ true
  pub to_cancel : (n : ℕ) → s.shut ≡ true → is_live (s.phase n) ≡ true → s.pending n ≡ true

Step-IsTracked : {s t : Routines} → Step s t → IsTracked s → IsTracked t
Step-IsTracked {s} begins v = record {
  in_map = λ n h p. ground (arith, v.in_map n h);
  to_cancel = λ n h p. ground (arith, v.to_cancel n h);
}
Step-IsTracked {s} (registers m o c) v = record {
  in_map = λ n h p. ground (arith, v.in_map n h);
  to_cancel = λ n h p. absurd (let e : true ≡ false = sym h ∙ o in cc);
}
Step-IsTracked {s} (starts m c q) v = record {
  in_map = λ n h p. ground (arith, v.in_map n h);
  to_cancel = λ n h p. ground (arith, v.to_cancel n h);
}
Step-IsTracked {s} (cancels m) v = record {
  in_map = λ n h p. ground (arith, v.in_map n h, cancel_lem (s.phase m));
  to_cancel = λ n h p. ground (arith, v.to_cancel n h, cancel_lem (s.phase m));
}
Step-IsTracked {s} (ends m c q) v = record {
  in_map = λ n h p. ground (arith, v.in_map n h);
  to_cancel = λ n h p. ground (arith, v.to_cancel n h);
}
Step-IsTracked {s} (deregisters m o q) v = record {
  in_map = λ n h p. ground (arith, v.in_map n h, not_live (s.phase m) q);
  to_cancel = λ n h p. absurd (let e : true ≡ false = sym h ∙ o in cc);
}
Step-IsTracked {s} (receives o) v = record { in_map = v.in_map; to_cancel = v.to_cancel }
Step-IsTracked {s} (shutdown g o) v = record {
  in_map = λ n h p. cc;
  to_cancel = λ n h p. v.in_map n o p;
}
Step-IsTracked {s} (shutdown_cancels m o w) v = record {
  in_map = λ n h p. absurd (let e : true ≡ false = sym o ∙ h in cc);
  to_cancel = λ n h p. ground (arith, v.to_cancel n h, cancel_lem (s.phase m));
}

Steps-IsTracked : {s t : Routines} → IsTracked s → Steps s t → IsTracked t
Steps-IsTracked v start = v
Steps-IsTracked v (and_then t u steps step) = Step-IsTracked step (Steps-IsTracked v steps)

no_routines-IsTracked : IsTracked no_routines
no_routines-IsTracked = record { in_map = λ n h p. cc; to_cancel = λ n h p. cc }

-- The mutex stays locked, and no routine is registered that was not.
abbrev Stays : ℕ → Routines → Routines → Type 0
Stays n s t =
    (t.shut ≡ true) × (is_registered (t.phase n) ≡ true → is_registered (s.phase n) ≡ true)

cancel-registered : (p : Phase) → is_registered (cancel p) ≡ is_registered p
cancel-registered absent = refl
cancel-registered created = refl
cancel-registered (registered c) = refl
cancel-registered (started c e) = refl

Step-Stays : {s t : Routines} → Step s t → s.shut ≡ true → (n : ℕ) → Stays n s t
Step-Stays begins o n = (o, λ h. ground arith)
Step-Stays (registers m f c) o n = absurd (let e : true ≡ false = sym o ∙ f in cc)
Step-Stays (starts m c q) o n = (o, λ h. ground arith)
Step-Stays {s} (cancels m) o n = (o, λ h. ground (arith, cancel-registered (s.phase m)))
Step-Stays (ends m c q) o n = (o, λ h. ground arith)
Step-Stays (deregisters m f q) o n = (o, λ h. h)
Step-Stays (receives f) o n = (o, λ h. h)
Step-Stays (shutdown g f) o n = absurd (let e : true ≡ false = sym o ∙ f in cc)
Step-Stays {s} (shutdown_cancels m f w) o n =
    (o, λ h. ground (arith, cancel-registered (s.phase m)))

Steps-Stays : {s t : Routines} → Steps s t → s.shut ≡ true → (n : ℕ) → Stays n s t
Steps-Stays start o n = (o, λ h. h)
Steps-Stays (and_then t u steps step) o n =
    let (o', h) = Steps-Stays steps o n in
    let (o'', h') = Step-Stays step o' n in (o'', λ k. h (h' k))

canceled_unless_live :
    (p : Phase) → is_registered p ≡ true → is_live p ≡ false → is_canceled p ≡ true
canceled_unless_live absent r h = cc
canceled_unless_live created r h = cc
canceled_unless_live (registered c) r h = ground arith
canceled_unless_live (started c e) r h = ground arith

-- In every interleaving: once the shutdown holds the mutex and has canceled what was in the map, every
-- routine that is registered, whether its function is yet to start, runs or has ended, has its context
-- canceled, and was registered before the mutex was locked: a routine that was not is never registered,
-- and so never started.
pub shutdown-canceled :
    (s t : Routines)
    → Steps no_routines s
    → s.shut ≡ true
    → Steps s t
    → ((n : ℕ) → t.pending n ≡ false)
    → (n : ℕ) → is_registered (t.phase n) ≡ true
    → (is_registered (s.phase n) ≡ true) × (is_canceled (t.phase n) ≡ true)
shutdown-canceled s t before o after none_left n r =
    let (o', h) = Steps-Stays after o n in
    let tracked : IsTracked t =
      Steps-IsTracked (Steps-IsTracked no_routines-IsTracked before) after in
    (
      h r,
      canceled_unless_live (t.phase n) r
          (not_live_any (Bool-cases (is_live (t.phase n))) o' tracked),
    )
  where
    not_live_any :
        (is_live (t.phase n) ≡ true) ⊎ (is_live (t.phase n) ≡ false)
        → t.shut ≡ true
        → IsTracked t
        → is_live (t.phase n) ≡ false
    not_live_any (inr f) o' v = f
    not_live_any (inl l) o' v =
        absurd (let e : false ≡ true = sym (none_left n) ∙ v.to_cancel n o' l in cc)

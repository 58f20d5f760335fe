-- ===== src/Cache/Memory/Laws.antt =====
-- The cache of pkg/cache/memory.go implements what the interface promises.
use bricks.Prelude.{
  ◌≡◌, refl, ap, sym, ◌∙◌, List, [], ◌∷◌, Option, none, some, arith, Bool-cases, inl, inr,
}
use bricks.Prelude.Int.{ℤ, pos, ◌+ℤ◌, ◌-ℤ◌, ◌≤ℤ◌, ◌<ℤ◌, eqb_ℤ, ≤ℤ-or-<ℤ, +ℤ_parts, -ℤ_parts}
use bricks.Prelude.Text.{Text, text_eq, text_eq_iff}
use bricks.Prelude.Assoc.{lookup, lookup-insert, lookup-remove}
use bricks.Prelude.Result.{ok, err}
use bricks.Prelude.Time.{IsDuration, IsNow, max_duration, sub_time_later, sub_time_passed}
use bricks.Cache.Spec.{
  Found, not_found, Call, put, get, forget, Reply, got, Entry, Contents, deadline_of, read,
  read_until, write, spec,
}
use bricks.Cache.Memory.{
  InMemoryValue, Memory, in_memory, expires, put_value, forget_key, checked, conclude, step,
}

-- What Get replies for a stored value.
seen : Option Found → Found
seen none = err not_found
seen (some f) = f

abbrev held : Text → ℤ → Option InMemoryValue
held v t = some (record { value = v; expires_at = t })

checked_live :
    (u t : ℤ) (v : Text)
    → pos 0 <ℤ t
    → u <ℤ t
    → t -ℤ u ≤ℤ max_duration
    → checked u (held v t) ≡ some (ok (v, t -ℤ u))
unfolding checked
checked_live u t v h k l = rw (sub_time_later t u k l) (ground (arith, -ℤ_parts t u))

checked_expired : (u t : ℤ) (v : Text) → pos 0 <ℤ t → t ≤ℤ u → checked u (held v t) ≡ none
unfolding checked
checked_expired u t v h k = ground (arith, sub_time_passed t u k)

checked_lasting : (u : ℤ) (v : Text) → checked u (held v (pos 0)) ≡ some (ok (v, pos 0))
unfolding checked
checked_lasting u v = refl

read_live : (u t : ℤ) (v : Text) → u <ℤ t → read_until u v (some t) ≡ ok (v, t -ℤ u)
read_live u t v h = ground arith

read_expired : (u t : ℤ) (v : Text) → t ≤ℤ u → read_until u v (some t) ≡ err not_found
read_expired u t v h = ground arith

-- A value stored by Put is seen at a later time like the entry of the specification.
seen-read :
    (now u ttl : ℤ) (v : Text)
    → IsNow now
    → IsDuration ttl
    → now ≤ℤ u
    → seen (checked u (held v (expires now ttl))) ≡ read_until u v (deadline_of now ttl)
unfolding seen
seen-read now u ttl v hn hd hu = elim (Bool-cases (eqb_ℤ ttl (pos 0))) [
  | inl e ↦ rw (e, checked_lasting u v)
  | inr e ↦ rw e (elim (≤ℤ-or-<ℤ (now +ℤ ttl) u) [
    | inl passed ↦ rw (
      checked_expired u (now +ℤ ttl) v (omega (arith, +ℤ_parts now ttl)) passed,
      read_expired u (now +ℤ ttl) v passed,
    )
    | inr live ↦ rw (
      checked_live u (now +ℤ ttl) v (omega (arith, +ℤ_parts now ttl)) live
          (omega (arith, +ℤ_parts now ttl, -ℤ_parts (now +ℤ ttl) u)),
      read_live u (now +ℤ ttl) v live,
    )
  ])
]

-- What has expired stays expired.
read_mono :
    (t u : ℤ) (e : Option Entry) → t ≤ℤ u → read t e ≡ err not_found → read u e ≡ err not_found
read_mono t u none h r = refl
read_mono t u (some e) h r = read_until_mono e.deadline r
  where
    read_until_mono :
        (d : Option ℤ)
        → read_until t e.value d ≡ err not_found
        → read_until u e.value d ≡ err not_found
    read_until_mono none q = cc
    read_until_mono (some d) q = ground arith

-- The values `m` are seen from time `t` on as the contents `c` of the specification are.
abbrev Agrees : ℤ → Memory → Contents → Type 0
Agrees t m c = (k : Text) (u : ℤ) → t ≤ℤ u → seen (checked u (lookup k m.values)) ≡ read u (c k)

put-Agrees :
    (t now ttl : ℤ) (key v : Text) (m : Memory) (c : Contents)
    → IsNow now
    → IsDuration ttl
    → t ≤ℤ now
    → Agrees t m c
    → Agrees now
        (put_value now key v ttl m)
        (write key (some (record { value = v; deadline = deadline_of now ttl })) c)
unfolding put_value
put-Agrees t now ttl key v m c hn hd ht a k u hu =
    rw (lookup-insert key k (record { value = v; expires_at = expires now ttl }) m.values)
      (elim (Bool-cases (text_eq key k)) [
        | inl e ↦ rw e (seen-read now u ttl v hn hd hu)
        | inr e ↦ rw e (a k u (omega arith))
      ])

forget-Agrees :
    (t now : ℤ) (key : Text) (m : Memory) (c : Contents)
    → t ≤ℤ now
    → Agrees t m c
    → Agrees now (forget_key key m) (write key none c)
unfolding forget_key seen checked
forget-Agrees t now key m c ht a k u hu =
    rw (lookup-remove key k m.values)
      (elim (Bool-cases (text_eq key k)) [ inl e ↦ rw e | inr e ↦ rw e (a k u (omega arith)) ])

-- Forgetting what has expired is not seen.
expire-Agrees :
    (t now : ℤ) (key : Text) (m : Memory) (c : Contents)
    → t ≤ℤ now
    → read now (c key) ≡ err not_found
    → Agrees t m c
    → Agrees now (forget_key key m) c
unfolding forget_key seen checked
expire-Agrees t now key m c ht gone a k u hu =
    rw (lookup-remove key k m.values) (elim (Bool-cases (text_eq key k)) [
      | inl e ↦
          let same : key ≡ k = (text_eq_iff key k).0 e in
          rw e (sym (read_mono now u (c k) hu (rw same at gone)))
      | inr e ↦ rw e (a k u (omega arith))
    ])

-- The two results of a step.
abbrev Matches : ℤ → Memory × Reply → Contents × Reply → Type 0
Matches now (m, r) (c, q) = Agrees now m c × (r ≡ q)

get-Matches :
    (t now : ℤ) (key : Text) (m : Memory) (c : Contents) (o : Option Found)
    → t ≤ℤ now
    → seen o ≡ read now (c key)
    → Agrees t m c
    → Agrees now (conclude key o m).0 c × ((conclude key o m).1 ≡ read now (c key))
unfolding conclude seen
get-Matches t now key m c none ht e a = (expire-Agrees t now key m c ht (sym e) a, e)
get-Matches t now key m c (some f) ht e a = (λ k u hu. a k u (omega arith), e)

-- The durations that a call is given are durations.
abbrev pub IsCall : Call → Type 0
IsCall (put k v ttl) = IsDuration ttl
IsCall _ = Unit

step-Matches :
    (t now : ℤ) (call : Call) (m : Memory) (c : Contents)
    → IsNow now
    → IsCall call
    → t ≤ℤ now
    → Agrees t m c
    → Matches now (step now call m) (spec now call c)
unfolding step
step-Matches t now (put k v ttl) m c hn hd ht a = (put-Agrees t now ttl k v m c hn hd ht a, refl)
step-Matches t now (get k) m c hn hd ht a =
    let (after, e) =
      get-Matches t now k m c (checked now (lookup k m.values)) ht (a k now (omega arith)) a in
    (after, ap got e)
step-Matches t now (forget k) m c hn hd ht a = (forget-Agrees t now k m c ht a, refl)

-- Calls with their times, that do not go back behind `t`.
abbrev pub Ordered : ℤ → List (ℤ × Call) → Type 0
Ordered t [] = Unit
Ordered t ((now, call) ∷ rest) = (t ≤ℤ now) × IsNow now × IsCall call × Ordered now rest

unfoldable pub replies : List (ℤ × Call) → Memory → List Reply
replies [] m = []
replies ((now, call) ∷ rest) m = let (n, r) = step now call m in r ∷ replies rest n

unfoldable pub spec_replies : List (ℤ × Call) → Contents → List Reply
spec_replies [] c = []
spec_replies ((now, call) ∷ rest) c = let (d, r) = spec now call c in r ∷ spec_replies rest d

replies-Agrees :
    (calls : List (ℤ × Call)) (t : ℤ) (m : Memory) (c : Contents)
    → Ordered t calls
    → Agrees t m c
    → replies calls m ≡ spec_replies calls c
unfolding replies spec_replies
replies-Agrees [] t m c o a = refl
replies-Agrees ((now, call) ∷ rest) t m c (ht, hn, hd, o) a =
    let (after, e) = step-Matches t now call m c hn hd ht a in
    ap (λ r. r ∷ replies rest (step now call m).0) e
    ∙ ap (◌∷◌ (spec now call c).1)
        (replies-Agrees rest now (step now call m).0 (spec now call c).0 o after)

-- A cache in memory, used by one call after the other at times that do not go back, replies to
-- every call as the specification does: a map in which a value stored with a ttl other than zero is
-- found up to its deadline and no longer, with the time that is left. That the code forgets an
-- expired value only when it is read is not seen.
pub replies-spec_replies :
    (calls : List (ℤ × Call)) (t : ℤ)
    → Ordered t calls
    → replies calls in_memory ≡ spec_replies calls (λ _. none)
unfolding in_memory
replies-spec_replies calls t o =
    replies-Agrees calls t _ _ o (λ k u hu. unfold lookup checked seen in refl)

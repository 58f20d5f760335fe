-- ===== src/Redact/Isolation.antt =====
-- Redactors that were cloned do not change one another, although slices share arrays.
use mathlib.Core.Path.{subst}
use bricks.Prelude.{
  arith, ℕ, zero, suc, ◌+◌, ◌-◌, ◌≤◌, ◌<◌, leb, ◌≡◌, ◌≢◌, refl, sym, ap, ◌∙◌, ◌⊎◌, inl, inr, List,
  [], ◌∷◌, ◌++◌, Option, none, some, length, Bool-cases,
}
use bricks.Prelude.Text.{Text}
use bricks.Redact.{
  Pattern, Store, Slice, read_from, view, write_cell, write_from, new_array, append,
  PatternRedactor, Scheme, add_patterns, index_of, remove_at, remove_found, remove_pattern,
  set_scheme, clone, ctx, and_then, ReplaceAll, mask, mask_with,
}

write_from-next : (a i : ℕ) (vs : List Pattern) (s : Store) → (write_from a i vs s).next ≡ s.next
unfolding write_from write_cell
write_from-next a i [] s = refl
write_from-next a i (v ∷ vs) s = write_from-next a (i + 1) vs (write_cell a i v s)

-- A write leaves the other arrays alone, and what is in front of it.
write_from-elsewhere :
    (a i : ℕ) (vs : List Pattern) (s : Store) (b j : ℕ)
    → (b ≢ a) ⊎ (j < i)
    → (write_from a i vs s).cells b j ≡ s.cells b j
unfolding write_from write_cell
write_from-elsewhere a i [] s b j h = refl
write_from-elsewhere a i (v ∷ vs) s b j (inl h) =
    write_from-elsewhere a (i + 1) vs (write_cell a i v s) b j (inl h) ∙ ground arith
write_from-elsewhere a i (v ∷ vs) s b j (inr h) =
    write_from-elsewhere a (i + 1) vs (write_cell a i v s) b j (inr (omega arith)) ∙ ground arith

read_from-same :
    (s t : Store) (b i n : ℕ)
    → ((j : ℕ) → t.cells b j ≡ s.cells b j)
    → read_from t b i n ≡ read_from s b i n
read_from-same s t b i zero h = refl
read_from-same s t b i (suc n) h =
    ap (λ x. x ∷ read_from t b (i + 1) n) (h i)
    ∙ ap (◌∷◌ (s.cells b i)) (read_from-same s t b (i + 1) n h)

-- What was written is read back.
read_from-write_from :
    (a i : ℕ) (vs : List Pattern) (s : Store) (n : ℕ)
    → n ≡ length vs
    → read_from (write_from a i vs s) a i n ≡ vs
unfolding write_from
read_from-write_from a i [] s zero h = refl
read_from-write_from a i [] s (suc n) h = absurd (omega arith)
read_from-write_from a i (v ∷ vs) s zero h = absurd (omega arith)
read_from-write_from a i (v ∷ vs) s (suc n) h =
    let first : (write_from a (i + 1) vs (write_cell a i v s)).cells a i ≡ v =
      write_from-elsewhere a (i + 1) vs (write_cell a i v s) a i (inr (omega arith))
      ∙ (unfold write_cell in ground arith) in
    ap (λ x. x ∷ read_from (write_from a (i + 1) vs (write_cell a i v s)) a (i + 1) n) first
    ∙ ap (◌∷◌ v) (read_from-write_from a (i + 1) vs (write_cell a i v s) n (omega arith))

length-read_from : (s : Store) (a i n : ℕ) → length (read_from s a i n) ≡ n
length-read_from s a i zero = refl
length-read_from s a i (suc n) = ap suc (length-read_from s a (i + 1) n)

-- A slice that no write through `p` reaches: its array was there before, and `p` is empty-handed or on
-- another one.
abbrev Apart : Slice → Slice → Store → Type 0
Apart p q s = (q.array < s.next) × ((p.cap ≡ 0) ⊎ (q.array ≢ p.array))

abbrev Kept : Slice → Store → Slice × Store → Type 0
Kept q s (p', s') = Apart p' q s' × ((j : ℕ) → s'.cells q.array j ≡ s.cells q.array j)

nothing_to_write : (n : ℕ) (vs : List Pattern) → n + length vs ≤ 0 → vs ≡ []
nothing_to_write n [] h = refl
nothing_to_write n (v ∷ vs) h = absurd (omega arith)

in_place :
    (p q : Slice) (vs : List Pattern) (s : Store) (n : ℕ)
    → Apart p q s
    → p.len + length vs ≤ p.cap
    → Kept q s (record { array = p.array; len = n; cap = p.cap }, write_from p.array p.len vs s)
in_place p q vs s n (l, inr h) k = (
  (rw (write_from-next p.array p.len vs s) l, inr h),
  λ j. write_from-elsewhere p.array p.len vs s q.array j (inl h),
)
in_place p q vs s n (l, inl h) k =
    let e : vs ≡ [] = nothing_to_write p.len vs (omega arith) in
    subst
      (λ us.
        Kept q s (record { array = p.array; len = n; cap = p.cap }, write_from p.array p.len us s))
      (sym e) (unfold write_from in ((l, inl h), λ j. refl))

in_new_array :
    (p q : Slice) (vs : List Pattern) (s : Store) (n cap : ℕ)
    → Apart p q s
    → Kept q s (record { array = s.next; len = n; cap = cap }, write_from s.next 0 vs (new_array s))
in_new_array p q vs s n cap (l, h) = (
  (rw (write_from-next s.next 0 vs (new_array s)) (omega arith), inr (λ e. omega arith)),
  λ j. write_from-elsewhere s.next 0 vs (new_array s) q.array j (inl (λ e. omega arith)),
)

append-Kept :
    (spare : ℕ) (p q : Slice) (vs : List Pattern) (s : Store)
    → Apart p q s
    → Kept q s (append spare p vs s)
unfolding append
append-Kept spare p q vs s h = elim (Bool-cases (leb (p.len + length vs) p.cap)) [
  | inl fits ↦ rw fits (in_place p q vs s (p.len + length vs) h (ground arith))
  | inr grows ↦
      rw grows
        (in_new_array p q (view s p ++ vs) s (p.len + length vs) (p.len + length vs + spare) h)
]

-- What the code does with a redactor that it has
pub data Operation : Type 0 where
  adds : (spare : ℕ) (patterns : List Pattern) → Operation
  removes : Pattern → Operation
  sets : Scheme → Operation

abbrev pub apply : Operation → PatternRedactor → Store → Option (PatternRedactor × Store)
apply (adds spare ps) r s = some (add_patterns spare ps r s)
apply (removes p) r s = remove_pattern p r s
apply (sets scheme) r s = some (set_scheme scheme r, s)

-- The operations up to one that panics
abbrev pub continued :
    Option (PatternRedactor × Store)
    → PatternRedactor
    → Store
    → (PatternRedactor → Store → PatternRedactor × Store)
    → PatternRedactor × Store
continued none r s go = (r, s)
continued (some (r', s')) r s go = go r' s'

abbrev pub apply_all : List Operation → PatternRedactor → Store → PatternRedactor × Store
apply_all [] r s = (r, s)
apply_all (o ∷ os) r s = continued (apply o r s) r s (apply_all os)

abbrev KeptBy : Slice → Store → PatternRedactor × Store → Type 0
KeptBy q s (r, s') = Apart r.patterns q s' × ((j : ℕ) → s'.cells q.array j ≡ s.cells q.array j)

removed-Kept :
    (found : Option ℕ) (r : PatternRedactor) (q : Slice) (s : Store)
    → Apart r.patterns q s
    → KeptBy q s (remove_found found r s)
unfolding remove_found remove_at
removed-Kept none r q s h = (h, λ j. refl)
removed-Kept (some i) r q s h =
    append-Kept 0 (record { array = r.patterns.array; len = i; cap = r.patterns.cap }) q
      (read_from s r.patterns.array (i + 1) (r.patterns.len - (i + 1))) s h

abbrev KeptIfDone : Slice → Store → Option (PatternRedactor × Store) → Type 0
KeptIfDone q s none = Unit
KeptIfDone q s (some x) = KeptBy q s x

found-Kept :
    (o : Option (Option ℕ)) (r : PatternRedactor) (q : Slice) (s : Store)
    → Apart r.patterns q s
    → KeptIfDone q s (and_then o (λ found. some (remove_found found r s)))
found-Kept none r q s h = tt
found-Kept (some found) r q s h = removed-Kept found r q s h

apply-Kept :
    (o : Operation) (r : PatternRedactor) (q : Slice) (s : Store)
    → Apart r.patterns q s
    → KeptIfDone q s (apply o r s)
unfolding add_patterns remove_pattern set_scheme
apply-Kept (adds spare ps) r q s h = append-Kept spare r.patterns q ps s h
apply-Kept (removes p) r q s h = found-Kept (index_of p 0 (view s r.patterns)) r q s h
apply-Kept (sets scheme) r q s h = (h, λ j. refl)

-- One operation in front of others that keep the slice
continued-Kept :
    (os : List Operation) (r : PatternRedactor) (q : Slice) (s : Store)
    (x : Option (PatternRedactor × Store))
    → Apart r.patterns q s
    → KeptIfDone q s x
    → ((r' : PatternRedactor) (s' : Store)
        → Apart r'.patterns q s'
        → KeptBy q s' (apply_all os r' s'))
    → KeptBy q s (continued x r s (apply_all os))
continued-Kept os r q s none h k rest = (h, λ j. refl)
continued-Kept os r q s (some (r', s')) h (h', same) rest =
    let (h'', same') = rest r' s' h' in (h'', λ j. same' j ∙ same j)

apply_all-Kept :
    (os : List Operation) (r : PatternRedactor) (q : Slice) (s : Store)
    → Apart r.patterns q s
    → KeptBy q s (apply_all os r s)
apply_all-Kept [] r q s h = (h, λ j. refl)
apply_all-Kept (o ∷ os) r q s h =
    continued-Kept os r q s (apply o r s) h (apply-Kept o r q s h)
      (λ r' s' h'. apply_all-Kept os r' q s' h')

mask-kept :
    (replace : ReplaceAll) (r : PatternRedactor) (s t : Store) (text : Text)
    → ((j : ℕ) → t.cells r.patterns.array j ≡ s.cells r.patterns.array j)
    → mask replace r t text ≡ mask replace r s text
unfolding mask
mask-kept replace r s t text h =
    ap (λ ps. mask_with replace r.scheme ps text)
      (read_from-same s t r.patterns.array 0 r.patterns.len h)

-- A clone masks as what it is cloned of.
pub mask-clone :
    (replace : ReplaceAll) (r : PatternRedactor) (s : Store) (text : Text)
    → mask replace (clone r s).0 (clone r s).1 text ≡ mask replace r s text
unfolding mask clone
mask-clone replace r s text =
    ap (λ ps. mask_with replace r.scheme ps text)
      (read_from-write_from s.next 0 (view s r.patterns) (new_array s) r.patterns.len
        (sym (length-read_from s r.patterns.array 0 r.patterns.len)))

-- The redactor that Ctx gives masks as the one in the context. Whatever patterns are then added to it
-- and removed from it, and whatever schemes are set, up to an operation that panics: the one in the
-- context masks every text as before. And so the other way round: what is done with the one in the
-- context has no effect on the one that Ctx gave.
pub ctx-isolated :
    (replace : ReplaceAll) (r : PatternRedactor) (s : Store) (os : List Operation) (text : Text)
    → r.patterns.array < s.next
    → (mask replace (ctx (some r) s).0 (ctx (some r) s).1 text ≡ mask replace r s text)
      × (mask replace r (apply_all os (ctx (some r) s).0 (ctx (some r) s).1).1 text
          ≡ mask replace r s text)
      × (mask replace (ctx (some r) s).0 (apply_all os r (ctx (some r) s).1).1 text
          ≡ mask replace r s text)
unfolding ctx clone
ctx-isolated replace r s os text l =
    let c = (clone r s).0 in
    let t = (clone r s).1 in
    let grown : t.next ≡ s.next + 1 = write_from-next s.next 0 (view s r.patterns) (new_array s) in
    let same : (j : ℕ) → t.cells r.patterns.array j ≡ s.cells r.patterns.array j = λ j.
      write_from-elsewhere s.next 0 (view s r.patterns) (new_array s) r.patterns.array j
        (inl (λ e. omega arith)) in
    let through_clone : KeptBy r.patterns t (apply_all os c t) =
      apply_all-Kept os c r.patterns t (rw grown (omega arith), inr (λ e. omega arith)) in
    let through_r : KeptBy c.patterns t (apply_all os r t) =
      apply_all-Kept os r c.patterns t (rw grown (omega arith), inr (λ e. omega arith)) in
    (
      mask-clone replace r s text,
      mask-kept replace r t (apply_all os c t).1 text through_clone.1
          ∙ mask-kept replace r s t text same,
      mask-kept replace c t (apply_all os r t).1 text through_r.1 ∙ mask-clone replace r s text,
    )

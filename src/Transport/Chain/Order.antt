-- ===== src/Transport/Chain/Order.antt =====
-- http/transport/chainable.go: the order of the round trippers.
use bricks.Prelude.{
  ℕ, suc, ◌≡◌, ◌≢◌, refl, sym, ap, ◌∙◌, List, [], ◌∷◌, ◌++◌, some, All, length, length-append,
  arith,
}
use mathlib.Core.List.{append_assoc, append-nil}
use mathlib.Core.Path.{subst}
use bricks.Transport.Chain.{
  in_front, RoundTripper, final, tripper, Transports, set_transport, link, RoundTripperChain,
  new_chain, use_after, use_tripper, use_all, chain, passed, round_trip,
}

abbrev Fresh : ℕ → List ℕ → Type 0
Fresh y = All (λ x. x ≢ y)

-- No tripper comes twice, and none is among those before.
abbrev pub AreNew : List ℕ → List ℕ → Type 0
AreNew used [] = Unit {0}
AreNew used (y ∷ ys) = All (λ x. x ≢ y) used × AreNew (used ++ y ∷ []) ys

abbrev head_of : List ℕ → ℕ → ℕ
head_of [] l = l
head_of (p ∷ ps) l = p

-- The trippers follow each other, and the last is followed by the final one.
abbrev Linked : Transports → List ℕ → ℕ → Type 0
Linked t [] l = t l ≡ final
Linked t (p ∷ ps) l = (t p ≡ tripper (head_of ps l)) × Linked t ps l

other : (i j : ℕ) (r : RoundTripper) (t : Transports) → j ≢ i → set_transport i r t j ≡ t j
unfolding set_transport
other i j r t n = ground arith

same : (i : ℕ) (r : RoundTripper) (t : Transports) → set_transport i r t i ≡ r
unfolding set_transport
same i r t = ground arith

head_snoc : (ps : List ℕ) (l y : ℕ) → head_of (ps ++ l ∷ []) y ≡ head_of ps l
head_snoc [] l y = refl
head_snoc (p ∷ ps) l y = refl

relinked :
    (t : Transports) (ps : List ℕ) (l y : ℕ)
    → Linked t ps l
    → Fresh l ps
    → Fresh y ps
    → l ≢ y
    → Linked (set_transport y final (set_transport l (tripper y) t)) (ps ++ l ∷ []) y
relinked t [] l y h a b n = (
  other y l final (set_transport l (tripper y) t) n ∙ same l (tripper y) t,
  same y final (set_transport l (tripper y) t),
)
relinked t (p ∷ ps) l y (h, hs) (a, more) (b, bs) n = (
  other y p final (set_transport l (tripper y) t) b
      ∙ other l p (tripper y) t a
      ∙ h
      ∙ ap tripper (sym (head_snoc ps l y)),
  relinked t ps l y hs more bs n,
)

record IsChain (c : RoundTripperChain) (ps : List ℕ) (l : ℕ) : Type 0 where
  starts : c.first ≡ tripper (head_of ps l)
  ends : c.current ≡ tripper l
  links : Linked c.transports ps l
  is_last : Fresh l ps

split-Fresh : (ps : List ℕ) (l y : ℕ) → Fresh y (ps ++ l ∷ []) → Fresh y ps × (l ≢ y)
split-Fresh [] l y (h, _) = (tt, h)
split-Fresh (p ∷ ps) l y (h, hs) = let r = split-Fresh ps l y hs in ((h, r.0), r.1)

use_tripper-IsChain :
    (c : RoundTripperChain) (ps : List ℕ) (l y : ℕ)
    → IsChain c ps l
    → Fresh y (ps ++ l ∷ [])
    → IsChain (use_tripper y c) (ps ++ l ∷ []) y
unfolding use_tripper use_after link
use_tripper-IsChain c ps l y h f =
    let (fresh, n) = split-Fresh ps l y f in
    rw (h.starts, h.ends)
      (record {
        starts = ap tripper (sym (head_snoc ps l y));
        ends = refl;
        links = relinked c.transports ps l y h.links h.is_last fresh n;
        is_last = f;
      })

passed-Linked :
    (t : Transports) (ps : List ℕ) (l : ℕ)
    → Linked t ps l
    → passed (suc (suc (length ps))) (tripper (head_of ps l)) t ≡ some (ps ++ l ∷ [])
unfolding passed
passed-Linked t [] l h = rw h refl
passed-Linked t (p ∷ ps) l (h, hs) =
    ap (λ r. in_front p (passed (suc (suc (length ps))) r t)) h
    ∙ ap (in_front p) (passed-Linked t ps l hs)

made_passed :
    (c : RoundTripperChain) (ps : List ℕ) (l : ℕ)
    → IsChain c ps l
    → round_trip (suc (length (ps ++ l ∷ []))) c ≡ some (ps ++ l ∷ [])
unfolding round_trip
made_passed c ps l h =
    let long : length (ps ++ l ∷ []) ≡ suc (length ps) = omega (arith, length-append ps (l ∷ [])) in
    ap (λ n. passed (suc n) c.first c.transports) long
    ∙ ap (λ r. passed (suc (suc (length ps))) r c.transports) h.starts
    ∙ passed-Linked c.transports ps l h.links

use_all-passed :
    (c : RoundTripperChain) (ps : List ℕ) (l : ℕ) (ys : List ℕ)
    → IsChain c ps l
    → AreNew (ps ++ l ∷ []) ys
    → round_trip (suc (length ((ps ++ l ∷ []) ++ ys))) (use_all ys c) ≡ some ((ps ++ l ∷ []) ++ ys)
unfolding use_all
use_all-passed c ps l [] h n =
    subst (λ zs. round_trip (suc (length zs)) c ≡ some zs) (sym (append-nil (ps ++ l ∷ [])))
      (made_passed c ps l h)
use_all-passed c ps l (y ∷ ys) h (f, n) =
    subst (λ zs. round_trip (suc (length zs)) (use_all ys (use_tripper y c)) ≡ some zs)
      (append_assoc (ps ++ l ∷ []) (y ∷ []) ys)
      (use_all-passed (use_tripper y c) (ps ++ l ∷ []) y ys (use_tripper-IsChain c ps l y h f) n)

-- A request that is sent through a chain of round trippers, none of which comes twice, passes them
-- in the order in which the chain was made of them, and then reaches the final one.
pub round_trip-chain :
    (t : Transports) (rt : List ℕ)
    → AreNew [] rt
    → round_trip (suc (length rt)) (chain t rt) ≡ some rt
unfolding chain new_chain
round_trip-chain t [] n = unfold use_all round_trip passed in refl
round_trip-chain t (r ∷ rt) (_, n) =
    unfold use_all in
    use_all-passed (use_tripper r (new_chain t)) [] r rt
      (unfold use_tripper use_after in
        record { starts = refl; ends = refl; links = same r final t; is_last = tt })
      n

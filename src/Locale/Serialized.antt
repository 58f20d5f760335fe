-- ===== src/Locale/Serialized.antt =====
-- locale/locale.go: locales that are serialized and parsed.
use bricks.Prelude.{
  ℕ, suc, ◌+◌, ◌≡◌, refl, ap, ◌∙◌, ◌↔◌, List, [], ◌∷◌, ◌++◌, some, length, if◌then◌else◌, ◌==◌,
  Bool-cases, inl, inr, arith,
}
use bricks.Prelude.Text.{Text, split, first_part, Lacks, split-Lacks, split-append}
use bricks.Locale.{Locale, new_locale, serialize, serialize_sep, parse_parts, parse_locale}

-- How often a byte is in a text.
unfoldable count : ℕ → Text → ℕ
count b [] = 0
count b (c ∷ s) = let rest = count b s in if c == b then suc rest else rest

count-append : (b : ℕ) (s t : Text) → count b (s ++ t) ≡ count b s + count b t
unfolding count
count-append b [] t = omega arith
count-append b (c ∷ s) t = ground (arith, count-append b s t)

count-Lacks : (b : ℕ) (s : Text) → count b s ≡ 0 → Lacks b s
unfolding count
count-Lacks b [] h = tt
count-Lacks b (c ∷ s) h = elim (Bool-cases (c == b)) [
  | inl e ↦ absurd (ground arith)
  | inr e ↦ ((λ q. ground arith), count-Lacks b s (ground arith))
]

-- Text is split into one part more than it has separators.
length-split : (s : Text) (sep : ℕ) → length (split s sep) ≡ suc (count sep s)
unfolding split count
length-split [] sep = refl
length-split (c ∷ s) sep = elim (Bool-cases (c == sep)) [
  | inl e ↦ rw e (ap suc (length-split s sep))
  | inr e ↦ rw e (grown (split s sep) (length-split s sep))
]
  where
    grown : (ps : List Text) {n : ℕ} → length ps ≡ suc n → length (first_part c ps) ≡ suc n
    grown [] h = absurd (omega arith)
    grown (p ∷ ps) h = h

parse_parts-length : (ps : List Text) (l : Locale) → parse_parts ps ≡ some l → length ps ≡ 2
unfolding parse_parts
parse_parts-length [] l h = cc
parse_parts-length (p ∷ []) l h = cc
parse_parts-length (p ∷ q ∷ []) l h = refl
parse_parts-length (p ∷ q ∷ r ∷ ps) l h = cc

one_separator : (l m : Locale) → parse_locale (serialize l) ≡ some m → count 124 (serialize l) ≡ 1
unfolding parse_locale
one_separator l m h =
    let two : length (split (serialize l) 124) ≡ 2 =
      parse_parts-length (split (serialize l) 124) m h in
    omega (arith, length-split (serialize l) 124)

separators : (s t : Text) → count 124 (s ++ 124 ∷ t) ≡ 1 → (count 124 s ≡ 0) × (count 124 t ≡ 0)
separators s t h =
    let here : count 124 (124 ∷ t) ≡ suc (count 124 t) = unfold count in refl in
    (omega (arith, count-append 124 s (124 ∷ t)), omega (arith, count-append 124 s (124 ∷ t)))

-- A locale is parsed back from its serialized form exactly if its language and its time zone have no
-- separator; otherwise parsing it is an error.
pub parse_locale-serialize :
    (l : Locale)
    → (parse_locale (serialize l) ≡ some l)
      ↔ (Lacks serialize_sep l.accept_language × Lacks serialize_sep l.accept_timezone)
parse_locale-serialize l = (lacks, parsed)
  where
    lacks :
        parse_locale (serialize l) ≡ some l
        → Lacks 124 l.accept_language × Lacks 124 l.accept_timezone
    lacks h =
        let none_else : (count 124 l.accept_language ≡ 0) × (count 124 l.accept_timezone ≡ 0) =
          separators l.accept_language l.accept_timezone
            (unfold serialize in one_separator l l h) in
        (
          count-Lacks 124 l.accept_language none_else.0,
          count-Lacks 124 l.accept_timezone none_else.1,
        )

    parsed :
        Lacks 124 l.accept_language × Lacks 124 l.accept_timezone
        → parse_locale (serialize l) ≡ some l
    parsed (a, b) =
        unfold parse_locale serialize parse_parts new_locale in
        ap parse_parts (
          split-append l.accept_language l.accept_timezone 124 a
          ∙ ap (◌∷◌ l.accept_language) (split-Lacks l.accept_timezone 124 b))

-- ===== src/Prelude/Text.antt =====
-- Go strings, as the lists of their bytes, and what the program uses of Go's package strings.
use Prim.Native.Char.{code}
use Prim.Native.String.{String}
use Prim.Native.Nat.{ℕ, ◌-◌}
use mathlib.Core.Path.{◌≡◌, refl, ap, ◌∙◌}
use mathlib.Core.Logic.{◌↔◌, ◌≢◌, ◌⊎◌, inl, inr}
use mathlib.Core.Bool.{Bool, true, false, ◌&&◌, ◌||◌}
use mathlib.Core.List.{List, [], ◌∷◌, ◌++◌}
use native.Mathlib.Omega.{arith}
use bricks.Prelude.Tests.{◌==◌, leb, if◌then◌else◌, Bool-cases}
use bricks.Prelude.Lists.{All, length, drop, take}

abbrev pub Text : Type 0
Text = List ℕ

-- The bytes of an ASCII literal.
abbrev pub codes : String → Text
codes String.[] = []
codes (String.◌∷◌ c s) = code c ∷ codes s

-- s == t
unfoldable pub text_eq : Text → Text → Bool
text_eq [] [] = true
text_eq (a ∷ s) (b ∷ t) = a == b && text_eq s t
text_eq _ _ = false

text_eq_sound : (s t : Text) → text_eq s t ≡ true → s ≡ t
unfolding text_eq
text_eq_sound [] [] h = refl
text_eq_sound (a ∷ s) (b ∷ t) h = ground (arith, text_eq_sound s t)
text_eq_sound [] (b ∷ t) h = cc
text_eq_sound (a ∷ s) [] h = cc

pub text_eq_refl : (s : Text) → text_eq s s ≡ true
unfolding text_eq
text_eq_refl [] = refl
text_eq_refl (a ∷ s) = ground (arith, text_eq_refl s)

pub text_eq_iff : (s t : Text) → (text_eq s t ≡ true) ↔ (s ≡ t)
text_eq_iff s t = (text_eq_sound s t, λ e. rw (← e) (text_eq_refl s))

-- strings.HasPrefix(s, prefix)
unfoldable pub has_prefix : Text → Text → Bool
has_prefix s [] = true
has_prefix [] (p ∷ prefix) = false
has_prefix (a ∷ s) (p ∷ prefix) = a == p && has_prefix s prefix

pub has_prefix-append : (prefix s : Text) → has_prefix (prefix ++ s) prefix ≡ true
unfolding has_prefix
has_prefix-append [] s = refl
has_prefix-append (p ∷ prefix) s = ground (arith, has_prefix-append prefix s)

-- A separator of one byte: the part before the first one, and the rest behind it in parts.
abbrev pub first_part : ℕ → List Text → List Text
first_part c [] = (c ∷ []) ∷ []
first_part c (p ∷ ps) = (c ∷ p) ∷ ps

-- strings.Split(s, sep) for a separator of one byte
unfoldable pub split : Text → ℕ → List Text
split [] sep = [] ∷ []
split (c ∷ s) sep = if c == sep then [] ∷ split s sep else first_part c (split s sep)

-- strings.Join(parts, sep) for a separator of one byte
unfoldable pub join : List Text → ℕ → Text
join [] sep = []
join (p ∷ []) sep = p
join (p ∷ q ∷ ps) sep = p ++ sep ∷ join (q ∷ ps) sep

abbrev pub Lacks : ℕ → Text → Type 0
Lacks b = All (λ c. c ≢ b)

-- Text free of the separator is one part.
pub split-Lacks : (s : Text) (sep : ℕ) → Lacks sep s → split s sep ≡ s ∷ []
unfolding split
split-Lacks [] sep h = refl
split-Lacks (c ∷ s) sep (h, hs) = ground (arith, split-Lacks s sep hs)

-- Text free of the separator, in front of one, is the first part.
pub split-append : (s t : Text) (sep : ℕ) → Lacks sep s → split (s ++ sep ∷ t) sep ≡ s ∷ split t sep
unfolding split
split-append [] t sep h = ground arith
split-append (c ∷ s) t sep (h, hs) = ground (arith, split-append s t sep hs)

pub split-join :
    (p : Text) (ps : List Text) (sep : ℕ)
    → All (Lacks sep) (p ∷ ps)
    → split (join (p ∷ ps) sep) sep ≡ p ∷ ps
unfolding join
split-join p [] sep (h, _) = split-Lacks p sep h
split-join p (q ∷ ps) sep (h, hs) =
    split-append p (join (q ∷ ps) sep) sep h ∙ ap (◌∷◌ p) (split-join q ps sep hs)

-- strings.TrimPrefix(s, prefix)
abbrev without : Text → Text → Text
without s [] = s
without [] (p ∷ prefix) = []
without (a ∷ s) (p ∷ prefix) = without s prefix

unfoldable pub trim_prefix : Text → Text → Text
trim_prefix s prefix = if has_prefix s prefix then without s prefix else s

without-append : (prefix s : Text) → without (prefix ++ s) prefix ≡ s
without-append [] s = refl
without-append (p ∷ prefix) s = without-append prefix s

pub trim_prefix-append : (prefix s : Text) → trim_prefix (prefix ++ s) prefix ≡ s
unfolding trim_prefix
trim_prefix-append prefix s = rw (has_prefix-append prefix s) (without-append prefix s)

append-without : (s prefix : Text) → has_prefix s prefix ≡ true → prefix ++ without s prefix ≡ s
unfolding has_prefix
append-without s [] h = refl
append-without [] (p ∷ prefix) h = cc
append-without (a ∷ s) (p ∷ prefix) h = ground (arith, append-without s prefix)

pub append-trim_prefix :
    (s prefix : Text) → has_prefix s prefix ≡ true → prefix ++ trim_prefix s prefix ≡ s
unfolding trim_prefix
append-trim_prefix s prefix h = rw h (append-without s prefix h)

-- A list of texts has a text.
unfoldable pub has : Text → List Text → Bool
has p [] = false
has p (q ∷ qs) = text_eq p q || has p qs

abbrev pub Has : Text → List Text → Type 0
Has p [] = ⊥
Has p (q ∷ qs) = (p ≡ q) ⊎ Has p qs

pub has→Has : (p : Text) (qs : List Text) → has p qs ≡ true → Has p qs
unfolding has
has→Has p [] h = cc
has→Has p (q ∷ qs) h = elim (Bool-cases (text_eq p q)) [
  | inl e ↦ inl ((text_eq_iff p q).0 e)
  | inr e ↦ inr (has→Has p qs (rw e at h))
]

pub Has→has : (p : Text) (qs : List Text) → Has p qs → has p qs ≡ true
unfolding has
Has→has p [] h = absurd h
Has→has p (q ∷ qs) (inl e) = rw ((text_eq_iff p q).1 e)
Has→has p (q ∷ qs) (inr h) = ground (arith, Has→has p qs h)

-- strings.Fields(s), for text with no white space outside of ASCII
abbrev pub is_space : ℕ → Bool
is_space c = c == 32 || (leb 9 c && leb c 13)

unfoldable pub add_field : Text → List Text → List Text
add_field [] parts = parts
add_field (c ∷ cur) parts = (c ∷ cur) ∷ parts

unfoldable pub fields_from : Text → Text → List Text
unfolding add_field
fields_from cur [] = add_field cur []
fields_from cur (c ∷ s) =
    let inside = fields_from (cur ++ c ∷ []) s in
    if is_space c then add_field cur (fields_from [] s) else inside

unfoldable pub fields : Text → List Text
unfolding fields_from
fields s = fields_from [] s

-- s == ""
unfoldable pub is_empty : Text → Bool
is_empty [] = true
is_empty (c ∷ s) = false

-- The byte is in the text.
abbrev pub has_byte : ℕ → Text → Bool
has_byte b [] = false
has_byte b (c ∷ s) = c == b || has_byte b s

pub has_byte-Lacks : (b : ℕ) (s : Text) → has_byte b s ≡ false → Lacks b s
has_byte-Lacks b [] h = tt
has_byte-Lacks b (c ∷ s) h = elim (Bool-cases (c == b)) [
  | inl e ↦ absurd (ground arith)
  | inr e ↦ ((λ q. ground arith), has_byte-Lacks b s (ground arith))
]

-- strings.HasSuffix(s, suffix)
unfoldable pub has_suffix : Text → Text → Bool
unfolding text_eq
has_suffix s suffix =
    leb (length suffix) (length s) && text_eq (drop (length s - length suffix) s) suffix

-- strings.TrimSuffix(s, suffix)
unfoldable pub trim_suffix : Text → Text → Text
unfolding has_suffix
trim_suffix s suffix = if has_suffix s suffix then take (length s - length suffix) s else s

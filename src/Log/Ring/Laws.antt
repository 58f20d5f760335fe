-- ===== src/Log/Ring/Laws.antt =====
-- The ring buffer of maintenance/log/sink.go holds the last `size` strings written to it.
use mathlib.Core.List.{append-nil}
use native.Mathlib.Nat.{mod-lt, mod-eq_of_lt, mod_self}
use native.Mathlib.Decide.{dec_lt}
use bricks.Prelude.{
  ℕ, suc, drop, ◌%◌, ◌≤◌, ◌<◌, ◌≡◌, refl, ap, ◌∙◌, sym, List, [], ◌∷◌, ◌++◌, some, arith, length,
  length-append, length-set, set, ltb, leb, true, false,
}
use bricks.Prelude.Text.{Text}
use bricks.Log.Ring.{StringRing, new_string_ring, write_string, get_content}
use bricks.Log.Ring.Rotation.{last, turn, turn-set, turn-length, last_short, last-append}

-- The ring `r` after the strings `h` were written: it grows up to its size, and is then full.
pub record Holds (h : List Text) (r : StringRing) : Type 0 where
  pub has_room : 0 < r.size
  pub in_range : r.next_pos ≤ r.size
  pub growing : length h < r.size → (r.items ≡ h) × (r.next_pos ≡ 0)
  pub full :
      r.size ≤ length h → (length r.items ≡ r.size) × (turn r.next_pos r.items ≡ last r.size h)

pub new-Holds : (n : ℕ) → 0 < n → Holds [] (new_string_ring n)
unfolding new_string_ring
new-Holds n p = ground arith

module _ (h : List Text) (r : StringRing) (c : Text) (v : Holds h r) where
  grown : StringRing
  grown = record r { items = r.items ++ c ∷ [] }

  write-Holds_growing :
      length h < r.size → (write_string r c ≡ some grown) × Holds (h ++ c ∷ []) grown
  unfolding write_string grown
  write-Holds_growing lt =
      let (same, start) = v.growing lt in
      (
        ground arith,
        record {
          has_room = v.has_room;
          in_range = v.in_range;
          growing = λ _. (ap (λ l. l ++ c ∷ []) same, start);
          full = λ le. (
            omega (arith, length-append r.items (c ∷ []), ap length same, length-append h (c ∷ [])),
            rw (start, same)
                (append-nil (h ++ c ∷ [])
                  ∙ sym
                      (last_short r.size (h ++ c ∷ []) (omega (arith, length-append h (c ∷ []))))),
          );
        },
      )

  place : ℕ
  place = r.next_pos % r.size

  turned : StringRing
  unfolding place
  turned = record r { items = set r.items place c; next_pos = suc place }

  place-lt : place < r.size
  unfolding place
  place-lt = mod-lt r.next_pos v.has_room

  turn-place : length r.items ≡ r.size → turn place r.items ≡ turn r.next_pos r.items
  unfolding place
  turn-place e = elim (dec_lt r.next_pos r.size) [
    | yes lt ↦ ap (λ k. turn k r.items) (mod-eq_of_lt lt)
    | no ge ↦
        let at_end : r.next_pos ≡ length r.items = omega (arith, v.in_range) in
        let back : r.next_pos % r.size ≡ 0 = rw (at_end, e) (mod_self r.size) in
        rw (back, at_end) (sym (turn-length r.items))
  ]

  write-Holds_full :
      r.size ≤ length h → (write_string r c ≡ some turned) × Holds (h ++ c ∷ []) turned
  unfolding write_string turned place
  write-Holds_full le =
      let (len, same) = v.full le in
      (
        ground arith,
        record {
          has_room = v.has_room;
          in_range = omega (arith, place-lt);
          growing = λ lt. absurd (omega (arith, length-append h (c ∷ [])));
          full = λ _. (
            length-set r.items place c ∙ len,
            turn-set place r.items c (omega (arith, place-lt))
                ∙ ap (λ l. drop 1 l ++ c ∷ []) (turn-place len ∙ same)
                ∙ sym (last-append r.size h c v.has_room le),
          );
        },
      )

-- One write, on a ring that may be growing or full.
pub write-Holds :
    (h : List Text) (r : StringRing) (c : Text)
    → Holds h r
    → (r' : StringRing) × (write_string r c ≡ some r') × (r'.size ≡ r.size) × Holds (h ++ c ∷ []) r'
unfolding grown turned
write-Holds h r c v = elim (dec_lt (length h) r.size) [
  | yes lt ↦ let (e, w) = write-Holds_growing h r c v lt in (grown h r c v, e, refl, w)
  | no ge ↦ let (e, w) = write-Holds_full h r c v (omega arith) in (turned h r c v, e, refl, w)
]

-- A ring is read without a panic, and what is read are the last strings written, oldest first.
pub get_content-Holds :
    (h : List Text) (r : StringRing) → Holds h r → get_content r ≡ some (last r.size h)
unfolding get_content
get_content-Holds h r v = elim (dec_lt (length h) r.size) [
  | yes lt ↦
      let (same, start) = v.growing lt in
      let short = last_short r.size h (omega arith) in
      let small : ltb (length r.items) r.size ≡ true = ground (arith, ap length same) in
      rw (small, short, same)
  | no ge ↦
      let (len, same) = v.full (omega arith) in
      let big : ltb (length r.items) r.size ≡ false = ground arith in
      let fits : leb r.next_pos (length r.items) ≡ true = ground (arith, v.in_range) in
      rw (big, fits) (ap some same)
]

pub get_content_empty : (r : StringRing) → r.items ≡ [] → r.next_pos ≡ 0 → get_content r ≡ some []
unfolding get_content
get_content_empty r e f = ground arith

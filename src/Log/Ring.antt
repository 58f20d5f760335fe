-- ===== src/Log/Ring.antt =====
-- The type stringRing of maintenance/log/sink.go. `none` is a panic of the Go code: an index or a
-- slice out of range, or a division by zero.
pub mod Rotation
pub mod Laws
use bricks.Prelude.{
  ℕ, ◌+◌, ◌%◌, ◌++◌, List, [], ◌∷◌, Option, none, some, length, set, take, drop, ltb, leb, ◌==◌,
  if◌then◌else◌,
}
use bricks.Prelude.Text.{Text}

pub record StringRing : Type 0 where
  pub items : List Text
  pub next_pos : ℕ
  pub size : ℕ

unfoldable pub new_string_ring : ℕ → StringRing
new_string_ring size = record { items = []; next_pos = 0; size = size }

-- r.data[r.nextPos] = c; r.nextPos++
put_at : StringRing → ℕ → Text → Option StringRing
put_at r i c =
    if ltb i (length r.items)
    then some (record r { items = set r.items i c; next_pos = i + 1 })
    else none

-- `len(r.data) < r.size-1` is written without the subtraction.
unfoldable pub write_string : StringRing → Text → Option StringRing
unfolding put_at
write_string r c =
    if ltb (length r.items) r.size
    then some (record r { items = r.items ++ c ∷ [] })
    else if ltb (length r.items + 1) r.size
    then put_at r r.next_pos c
    else if r.size == 0
    then none
    else put_at r (r.next_pos % r.size) c

unfoldable pub get_content : StringRing → Option (List Text)
get_content r =
    if ltb (length r.items) r.size
    then some r.items
    else if leb r.next_pos (length r.items)
    then some (drop r.next_pos r.items ++ take r.next_pos r.items)
    else none

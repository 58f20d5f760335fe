-- ===== src/Log/Remote/Private.antt =====
-- maintenance/log/handler.go: the private addresses as ranges.
use bricks.Prelude.{arith, ℕ, ◌+◌, ◌*◌, ◌<◌, ◌≤◌, ◌≡◌, ◌↔◌, ◌⊎◌, true, [], ◌∷◌, ◌++◌}
use bricks.Prelude.Text.{has_prefix}
use bricks.Log.Remote.{is_private, v4_in_v6_prefix, is_private4}

-- The number of an IPv4 address
abbrev pub number : ℕ → ℕ → ℕ → ℕ → ℕ
number a b c d = ((a * 256 + b) * 256 + c) * 256 + d

-- From the first of two addresses to the second
abbrev pub Within : ℕ → ℕ → ℕ → Type 0
Within n first last = (first ≤ n) × (n ≤ last)

is_private4_iff :
    (a b c d : ℕ)
    → a < 256
    → b < 256
    → c < 256
    → d < 256
    → (is_private4 (a ∷ b ∷ c ∷ d ∷ []) ≡ true) ↔ (
        Within (number a b c d) (number 10 0 0 0) (number 10 255 255 255)
        ⊎ Within (number a b c d) (number 172 16 0 0) (number 172 31 255 255)
        ⊎ Within (number a b c d) (number 192 168 0 0) (number 192 168 255 255))
is_private4_iff a b c d ha hb hc hd = ground arith

-- Of the IPv4 addresses, as net.ParseIP gives them, the private ones are the three ranges of RFC 1918:
-- 10.0.0.0 to 10.255.255.255, 172.16.0.0 to 172.31.255.255, and 192.168.0.0 to 192.168.255.255.
pub is_private_iff :
    (a b c d : ℕ)
    → a < 256
    → b < 256
    → c < 256
    → d < 256
    → (is_private (v4_in_v6_prefix ++ a ∷ b ∷ c ∷ d ∷ []) ≡ true) ↔ (
        Within (number a b c d) (number 10 0 0 0) (number 10 255 255 255)
        ⊎ Within (number a b c d) (number 172 16 0 0) (number 172 31 255 255)
        ⊎ Within (number a b c d) (number 192 168 0 0) (number 192 168 255 255))
unfolding is_private has_prefix
is_private_iff = is_private4_iff

-- ===== src/Log/Remote.antt =====
-- maintenance/log/handler.go: the remote address of a request (ProxyAwareRemote, isPrivate). What the
-- package net parses is a parameter; an IP address is the list of its bytes.
pub mod Private
use bricks.Prelude.{
  ℕ, ◌/◌, ◌*◌, ◌==◌, Bool, true, false, not, ◌&&◌, ◌||◌, List, [], ◌∷◌, ◌++◌, Option, none, some,
  if◌then◌else◌, length, drop,
}
use bricks.Prelude.Text.{Text, codes, split, is_space, has_prefix}

-- net.ParseIP, IP.IsGlobalUnicast and net.SplitHostPort
pub record Net : Type 0 where
  pub parse_ip : Text → Option (List ℕ)
  pub is_global_unicast : List ℕ → Bool
  pub split_host_port : Text → Option (Text × Text)

pub record Request : Type 0 where
  pub header : Text → Text
  pub remote_addr : Text

-- strings.TrimSpace, of ASCII spaces
abbrev pub reverse : Text → Text
reverse [] = []
reverse (c ∷ s) = reverse s ++ c ∷ []

abbrev pub trim_left : Text → Text
trim_left [] = []
trim_left (c ∷ s) = let rest = trim_left s in if is_space c then rest else c ∷ s

abbrev pub trim_space : Text → Text
trim_space s = reverse (trim_left (reverse (trim_left s)))

-- IP.To4
abbrev pub v4_in_v6_prefix : List ℕ
v4_in_v6_prefix = 0 ∷ 0 ∷ 0 ∷ 0 ∷ 0 ∷ 0 ∷ 0 ∷ 0 ∷ 0 ∷ 0 ∷ 255 ∷ 255 ∷ []

abbrev pub to4 : List ℕ → Option (List ℕ)
to4 ip =
    if length ip == 4
    then some ip
    else if length ip == 16 && has_prefix ip v4_in_v6_prefix
    then some (drop 12 ip)
    else none

-- Of the bytes of a mask: b & 0xf0 and b & 0xfe
abbrev pub is_private4 : List ℕ → Bool
is_private4 (a ∷ b ∷ ip) = a == 10 || a == 172 && b / 16 * 16 == 16 || a == 192 && b == 168
is_private4 _ = false

abbrev pub is_unique_local : List ℕ → Bool
is_unique_local [] = false
is_unique_local (a ∷ ip) = length (a ∷ ip) == 16 && a / 2 * 2 == 252

abbrev pub private_of : Option (List ℕ) → List ℕ → Bool
private_of (some ip4) ip = is_private4 ip4
private_of none ip = is_unique_local ip

-- isPrivate
unfoldable pub is_private : List ℕ → Bool
is_private ip = private_of (to4 ip) ip

module _ (net : Net) where
  -- One address of a header: `none` is a bad one.
  abbrev pub unless_bad : Text → Option (List ℕ) → Option Text
  unless_bad ip none = none
  unless_bad ip (some real_ip) =
      if not (net.is_global_unicast real_ip) || is_private real_ip then none else some ip

  unfoldable pub address : Text → Option Text
  address s = unless_bad (trim_space s) (net.parse_ip (trim_space s))

  abbrev pub or_else : Option Text → Option Text → Option Text
  or_else none o = o
  or_else (some ip) o = some ip

  -- The loop over the addresses, from the last one to the first
  unfoldable pub last_address : List Text → Option Text
  unfolding address
  last_address [] = none
  last_address (s ∷ addresses) = or_else (last_address addresses) (address s)

  abbrev pub host_of : Option (Text × Text) → Text
  host_of none = []
  host_of (some (host, port)) = host

  -- The loop over the headers
  abbrev pub first_address : List Text → Request → Option Text
  first_address [] r = none
  first_address (h ∷ headers) r =
      or_else (last_address (split (r.header h) 44)) (first_address headers r)

  abbrev pub found_or : Option Text → Text → Text
  found_or none host = host
  found_or (some ip) host = ip

  -- ProxyAwareRemote
  unfoldable pub proxy_aware_remote : Request → Text
  proxy_aware_remote r =
      found_or (first_address (codes "X-Forwarded-For" ∷ codes "X-Real-Ip" ∷ []) r)
        (host_of (net.split_host_port r.remote_addr))

-- ===== src/Transport/Chain.antt =====
-- http/transport/chainable.go: the chain of round trippers. A round tripper is a number, its
-- address, and what its method Transport gives is kept in a store, which SetTransport changes.
pub mod Order
use bricks.Prelude.{
  ℕ, zero, suc, Bool, true, false, List, [], ◌∷◌, Option, none, some, if◌then◌else◌, ◌==◌,
}

-- The chain's final round tripper, or another one
pub data RoundTripper : Type 0 where
  final : RoundTripper
  tripper : ℕ → RoundTripper

abbrev pub Transports : Type 0
Transports = ℕ → RoundTripper

unfoldable pub set_transport : ℕ → RoundTripper → Transports → Transports
set_transport i t transports j = if j == i then t else transports j

-- RoundTripperChain, with the store of the transports
pub record RoundTripperChain : Type 0 where
  pub first : RoundTripper
  pub current : RoundTripper
  pub transports : Transports

-- A new chain; the trippers' transports are not set yet.
unfoldable pub new_chain : Transports → RoundTripperChain
new_chain transports = record { first = final; current = final; transports = transports }

-- c.current.SetTransport(rt)
unfoldable pub link : RoundTripper → ℕ → Transports → Transports
unfolding set_transport
link final rt transports = transports
link (tripper i) rt transports = set_transport i (tripper rt) transports

unfoldable pub use_after : RoundTripper → ℕ → RoundTripperChain → RoundTripperChain
unfolding link set_transport
use_after final rt c = record {
  first = tripper rt;
  current = tripper rt;
  transports = set_transport rt final c.transports;
}
use_after (tripper i) rt c = record {
  first = tripper i;
  current = tripper rt;
  transports = set_transport rt final (link c.current rt c.transports);
}

-- Use
unfoldable pub use_tripper : ℕ → RoundTripperChain → RoundTripperChain
unfolding use_after
use_tripper rt c = use_after c.first rt c

unfoldable pub use_all : List ℕ → RoundTripperChain → RoundTripperChain
unfolding use_tripper
use_all [] c = c
use_all (r ∷ rt) c = use_all rt (use_tripper r c)

-- Chain
unfoldable pub chain : Transports → List ℕ → RoundTripperChain
unfolding new_chain use_all
chain transports rt = use_all rt (new_chain transports)

abbrev pub in_front : ℕ → Option (List ℕ) → Option (List ℕ)
in_front i none = none
in_front i (some ts) = some (i ∷ ts)

-- The trippers that a request passes until it reaches the final one, if each passes it on to its
-- transport; `none` is out of fuel.
unfoldable pub passed : ℕ → RoundTripper → Transports → Option (List ℕ)
passed zero t transports = none
passed (suc fuel) final transports = some []
passed (suc fuel) (tripper i) transports = in_front i (passed fuel (transports i) transports)

-- RoundTrip, with fuel for so many steps
unfoldable pub round_trip : ℕ → RoundTripperChain → Option (List ℕ)
unfolding passed
round_trip fuel c = passed fuel c.first c.transports

-- ===== src/Utm/Carried.antt =====
-- pkg/tracking/utm: what data a request carries.
use bricks.Prelude.{ℕ, ◌≡◌, refl, ap, ◌∙◌, false, some, arith}
use bricks.Prelude.Text.{is_empty, text_eq}
use bricks.Prelude.Assoc.{lookup}
use bricks.Utm.{
  UtmData, is_empty_data, to_map, from_map, context_with_utm_data, from_context, Query, Store,
  Request, read_query, found_data, from_request, set_query, write_url, attach_to_request,
  with_client, served_context, middleware, clone_request, send, round_trip,
}

read_query-set_query : (d : UtmData) (q : Query) → read_query (set_query d q) ≡ d
unfolding read_query set_query text_eq
read_query-set_query d q = refl

-- Data is the same after it was made a map and read from that.
pub from_map-to_map : (d : UtmData) → from_map (to_map d) ≡ d
unfolding from_map to_map lookup text_eq
from_map-to_map d = refl

written : (u : ℕ) (q : Query) (s : Store) → write_url u q s u ≡ q
unfolding write_url
written u q s = ground arith

-- A request that has the URL that data was attached to has the data.
attached :
    (d : UtmData) (r : Request) (s : Store)
    → is_empty_data d ≡ false
    → from_request r (attach_to_request d r s) ≡ some d
unfolding from_request attach_to_request found_data is_empty text_eq
attached d r s h =
    rw (h, written r.url (set_query d (s r.url)) s, read_query-set_query d (s r.url), h) refl

-- The service that is called, behind its middleware, has in its context the data that was in the
-- context of the caller's request, if that is not empty, whatever the query was; a client that is
-- missing is the one of the service's own token.
pub middleware-round_trip :
    (d : UtmData) (r received : Request) (s t : Store)
    → from_context r.context ≡ some d
    → is_empty_data d ≡ false
    → t received.url ≡ (round_trip r s).1 (round_trip r s).0.url
    → from_context (middleware received t) ≡ some (with_client received.context.client_id d)
unfolding is_empty set_query text_eq
middleware-round_trip d r received s t e h u =
    let sent : (round_trip r s).1 (round_trip r s).0.url ≡ set_query d (s r.url) =
      unfold round_trip send clone_request attach_to_request in
      rw (e, h) (written r.url (set_query d (s r.url)) s) in
    let found : from_request received t ≡ some d =
      unfold from_request found_data in rw (u, sent, read_query-set_query d (s r.url), h) refl in
    unfold middleware in
    ap (λ o. from_context (served_context received.context o)) found
    ∙ (unfold from_context served_context context_with_utm_data in refl)

-- The round tripper changes the URL of the request that it is given, although it passes on a clone:
-- afterwards the caller's own request has the data of its context in its query, whatever UTM data was
-- there before.
pub round_trip_changes_url :
    (d : UtmData) (r : Request) (s : Store)
    → from_context r.context ≡ some d
    → is_empty_data d ≡ false
    → from_request r (round_trip r s).1 ≡ some d
unfolding round_trip send clone_request attach_to_request from_request
round_trip_changes_url d r s e h = rw e (attached d r s h)

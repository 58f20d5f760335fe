-- ===== src/Utm/Tests.antt =====
-- Runs of pkg/tracking/utm.
use bricks.Prelude.{◌≡◌, refl, [], none, some}
use bricks.Prelude.Text.{codes, is_empty}
use bricks.Utm.{
  UtmData, is_empty_data, Store, Request, from_context, from_request, middleware, with_client,
  round_trip, send, clone_request,
}
use bricks.Utm.Carried.{middleware-round_trip, round_trip_changes_url}

abbrev campaign : UtmData
campaign = record {
  source = codes "app";
  medium = [];
  campaign = codes "spring";
  term = [];
  content = [];
  client = [];
}

abbrev sent : Request
sent = record { url = 1; context = record { utm_data = some campaign; client_id = none } }

abbrev received : Request
received = record { url = 5; context = record { utm_data = none; client_id = some (codes "c") } }

abbrev empty_urls : Store
empty_urls url name = []

-- The server's store: the query that was sent is that of its URL.
abbrev server_urls : Store
server_urls url = (round_trip sent empty_urls).1 1

middleware-round_trip_example :
    from_context (middleware received server_urls) ≡ some (with_client (some (codes "c")) campaign)
middleware-round_trip_example =
    middleware-round_trip campaign sent received empty_urls server_urls
      (unfold from_context in refl) (unfold is_empty_data is_empty in refl)
      (unfold round_trip send from_context clone_request in refl)

round_trip_changes_url_example : from_request sent (round_trip sent empty_urls).1 ≡ some campaign
round_trip_changes_url_example =
    round_trip_changes_url campaign sent empty_urls (unfold from_context in refl)
      (unfold is_empty_data is_empty in refl)

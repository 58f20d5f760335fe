-- ===== src/Log/RequestId/Passed.antt =====
-- maintenance/log/handler.go and http/transport/request_id.go: one id for all requests of a request.
use bricks.Prelude.{◌≡◌, refl, ap, ◌∙◌, false, Option, none, some, if◌then◌else◌}
use bricks.Prelude.Text.{Text, codes, is_empty}
use bricks.Prelude.Assoc.{lookup-insert_self}
use bricks.Runtime.Errors.{Response, set_header, get_header, or_empty}
use bricks.Log.RequestId.{
  Xid, from_header, or_context, request_id, request_id_handler, request_id_from_context, round_trip,
  context_transfer,
}

module _ {A : Type 0} (xid : Xid A) where
  -- An id that is read back from what it is written as
  pub record IsId (id : A) : Type 0 where
    pub read_back : xid.from_string (xid.string id) ≡ id
    pub not_nil : xid.is_nil id ≡ false
    pub written : is_empty (xid.string id) ≡ false

  abbrev kept : Option A → A → A
  kept context id = if xid.is_nil id then (or_context xid context id) else id

  or_context_lem :
      (context : Option A) (id : A) → xid.is_nil id ≡ false → or_context xid context id ≡ id
  or_context_lem none id h = refl
  or_context_lem (some nid) id h = ap (λ b. if b then nid else id) h

  from_header_lem : (id : A) → IsId id → from_header xid (xid.string id) ≡ id
  from_header_lem id p =
      ap (λ b. if b then xid.nil_id else xid.from_string (xid.string id)) p.written ∙ p.read_back

  request_id_lem :
      (id : A) (context : Option A) (new : A)
      → IsId id
      → request_id xid (xid.string id) context new ≡ id
  unfolding request_id
  request_id_lem id context new p =
      let given : or_context xid context (from_header xid (xid.string id)) ≡ id =
        ap (or_context xid context) (from_header_lem id p) ∙ or_context_lem context id p.not_nil in
      ap (λ i. if xid.is_nil i then new else i) given ∙ ap (λ b. if b then new else id) p.not_nil

  round_trip_lem :
      (id : A) (header : Text) → IsId id → round_trip xid (some id) header ≡ xid.string id
  unfolding round_trip request_id_from_context
  round_trip_lem id header p = ap (λ b. if b then header else xid.string id) p.written

  -- A request that is sent with the id of a context, to a service behind RequestIDHandler: whatever header
  -- it had and whatever id that service had or would make, the service's context has the sender's id,
  -- also behind a transfer to another context, and its response has that id in its header.
  pub request_id_handler-round_trip :
      (id : A) (header : Text) (context out : Option A) (new : A) (w : Response)
      → IsId id
      → (context_transfer xid
            (request_id_handler xid (round_trip xid (some id) header) context new w).context
            out
          ≡ some id)
        × (get_header
              (codes "Request-Id")
              (request_id_handler xid (round_trip xid (some id) header) context new w).response
            ≡ xid.string id)
  unfolding request_id_handler context_transfer set_header
  request_id_handler-round_trip id header context out new w p =
      let same : request_id xid (round_trip xid (some id) header) context new ≡ id =
        ap (λ h. request_id xid h context new) (round_trip_lem id header p)
        ∙ request_id_lem id context new p in
      (
        ap some same,
        ap or_empty (lookup-insert_self (codes "Request-Id") _ w.header) ∙ ap xid.string same,
      )

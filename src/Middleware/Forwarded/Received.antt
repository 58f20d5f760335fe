-- ===== src/Middleware/Forwarded/Received.antt =====
-- http/middleware/context.go and maintenance/log/handler.go: the address that a forwarded request shows.
use bricks.Prelude.{arith, ◌≡◌, sym, ap, ◌∙◌, List, [], ◌∷◌, ◌++◌, some, Bool-cases, inl, inr}
use bricks.Prelude.Text.{Text, codes, split, Lacks, split-Lacks, is_empty}
use bricks.Prelude.Parts.{split-append_sep}
use bricks.Prelude.Result.{ok, err}
use bricks.Log.Remote.{
  Net, Request, address, or_else, last_address, first_address, proxy_aware_remote, found_or,
  host_of,
}
use bricks.Middleware.Forwarded.{
  invalid_request, request_in_context, forwarded_for, extended,
  get_x_forwarded_for_header_from_context,
}

module _ (net : Net) where
  -- An address without commas and outer spaces, that is neither bad nor private
  pub record IsPublic (ip : Text) : Type 0 where
    pub no_comma : Lacks 44 ip
    pub good : address net ip ≡ some ip

  last_address-append :
      (ss ts : List Text) (ip : Text)
      → last_address net ts ≡ some ip
      → last_address net (ss ++ ts) ≡ some ip
  unfolding last_address
  last_address-append [] ts ip h = h
  last_address-append (s ∷ ss) ts ip h =
      ap (λ o. or_else net o (address net s)) (last_address-append ss ts ip h)

  spaced_good : (ip : Text) → IsPublic ip → address net (32 ∷ ip) ≡ some ip
  unfolding address
  spaced_good ip p = p.good

  last_of_written :
      (xff ip : Text) → IsPublic ip → last_address net (split (extended xff ip) 44) ≡ some ip
  unfolding last_address
  last_of_written [] ip p = ap (last_address net) (split-Lacks ip 44 p.no_comma) ∙ p.good
  last_of_written (c ∷ xff) ip p =
      ap (last_address net) (
        split-append_sep (c ∷ xff) (32 ∷ ip) 44
        ∙ ap (λ ps. split (c ∷ xff) 44 ++ ps)
            (split-Lacks (32 ∷ ip) 44 ((λ e. omega arith), p.no_comma)))
      ∙ last_address-append (split (c ∷ xff) 44) ((32 ∷ ip) ∷ []) ip (spaced_good ip p)

  header_of :
      (xff ip port header : Text)
      → forwarded_for xff (some (ip, port)) ≡ ok header
      → header ≡ extended xff ip
  header_of xff ip port header h = elim (Bool-cases (is_empty ip)) [
    | inl q ↦ (let f : err invalid_request ≡ ok header = rw q at h in cc)
    | inr q ↦ (let f : ok (extended xff ip) ≡ ok header = rw q at h in cc)
  ]

  -- A service forwards a request with the header that GetXForwardedForHeaderFromContext gives, whatever
  -- that request had in this header: the next service takes the address that the request came from as
  -- the remote one, if that is public.
  pub proxy_aware_remote-get_x_forwarded_for_header_from_context :
      (r r' : Request) (ip port header : Text)
      → net.split_host_port r.remote_addr ≡ some (ip, port)
      → IsPublic ip
      → get_x_forwarded_for_header_from_context net (some (request_in_context r)) ≡ ok header
      → r'.header (codes "X-Forwarded-For") ≡ header
      → proxy_aware_remote net r' ≡ ip
  unfolding proxy_aware_remote
  proxy_aware_remote-get_x_forwarded_for_header_from_context r r' ip port header s p h e =
      let given = header_of (r.header (codes "X-Forwarded-For")) ip port header (
        ap (forwarded_for (r.header (codes "X-Forwarded-For"))) (sym s)
        ∙ unfold get_x_forwarded_for_header_from_context request_in_context in h) in
      let found : last_address net (split (r'.header (codes "X-Forwarded-For")) 44) ≡ some ip =
        ap (λ v. last_address net (split v 44)) (e ∙ given)
        ∙ last_of_written (r.header (codes "X-Forwarded-For")) ip p in
      ap
        (λ o.
          found_or net (or_else net o (first_address net (codes "X-Real-Ip" ∷ []) r'))
            (host_of net (net.split_host_port r'.remote_addr)))
        found

-- ===== src/Site/Passing.antt =====
-- Which requests the middleware lets through to their endpoints.
use iot_ephemeral_value_stor.Base.{
  ◌≡◌, refl, sym, ap, ◌∙◌, inl, inr, true, false, some, Option-cases, [], ◌∷◌, Text, codes, text_eq,
  Bool-cases, is_empty, compare_text,
}
use iot_ephemeral_value_stor.Http.{text_body}
use iot_ephemeral_value_stor.Middleware.{
  Net, Incoming, Config, World, Handler, chain, over_limit, real_ip, is_local, get_limiter,
  rate_limit, limited, set_client, enable_cors, limit_request_size,
}
use iot_ephemeral_value_stor.Router.{Vars, Endpoint, routes, find_route}
use iot_ephemeral_value_stor.Router.Reached.{find_route-ne-none}
use iot_ephemeral_value_stor.Site.{Outside, Settings, Inbound, Backend, Site}
use iot_ephemeral_value_stor.Site.Serving.{endpoint, serve}

-- The middleware lets a request through in a state: it is no preflight request, it is not too large,
-- it has an address, and the limiter of the address, if it is not local, grants it.
pub record IsGranted (net : Net) (T : Type 0) (c : Config net) (r : Incoming) (w : World net T)
    : Type 0 where
  pub no_preflight : text_eq r.http_method (codes "OPTIONS") ≡ false
  pub small : over_limit net T c.max_request_size r.content_length ≡ false
  pub addressed : is_empty (real_ip net r c.trusted_proxies) ≡ false
  pub granted :
      is_local net T (real_ip net r c.trusted_proxies) ≡ false
      → (net.allow r.arrived (get_limiter net c (real_ip net r c.trusted_proxies) w.clients)).0
        ≡ true

-- The handler runs in a state that differs at most in the limiters.
chain-granted :
    (net : Net) (T : Type 0) (c : Config net) (next : Handler net T) (r : Incoming)
    (w : World net T)
    → IsGranted net T c r w
    → (w' : World net T) × (w'.stats ≡ w.stats)
      × (w'.rest ≡ w.rest)
      × (chain net T c next r w ≡ next r w')
unfolding chain enable_cors limit_request_size rate_limit limited
chain-granted net T c next r w g = elim (Bool-cases (is_empty r.remote_addr)) [
  | inl e ↦ (w, refl, refl, rw (g.no_preflight, g.small, e) refl)
  | inr e ↦ elim (Bool-cases (is_local net T (real_ip net r c.trusted_proxies))) [
    | inl here ↦ (w, refl, refl, rw (g.no_preflight, g.small, e, g.addressed, here) refl)
    | inr away ↦ (
      served,
      refl,
      refl,
      rw (g.no_preflight, g.small, e, g.addressed, away, g.granted away) refl,
    )
  ]
]
  where
    ip : Text
    ip = real_ip net r c.trusted_proxies

    served : World net T
    served = record w {
      clients =
          set_client net ip (net.allow r.arrived (get_limiter net c ip w.clients)).1 w.clients;
    }

module _ (out : Outside) (settings : Settings) (config : Config out.net) where
  -- A granted request is served by its endpoint.
  pub serve-granted :
      (r : Inbound) (w : Site out settings) (place : Endpoint) (vars : Vars)
      → find_route out.mux routes r.incoming.http_method r.path ≡ some (place, vars)
      → IsGranted out.net (Backend out settings) config r.incoming w
      → (w' : Site out settings) × (w'.stats ≡ w.stats)
        × (w'.rest ≡ w.rest)
        × (serve out settings config r w ≡ endpoint out settings place vars r w')
  unfolding serve
  serve-granted r w place vars e g =
      let (w', stats, rest, passed) =
        chain-granted out.net (Backend out settings) config
          (λ _ w'. endpoint out settings place vars r w') r.incoming w g in
      (w', stats, rest, rw (serve, e) passed)

  -- A preflight request of any path is answered at once with 200, and changes nothing.
  serve-preflight :
      (p : Text) (r : Inbound) (w : Site out settings)
      → r.path ≡ b'/' ∷ p
      → r.incoming.http_method ≡ codes "OPTIONS"
      → serve out settings config r w
        ≡ (some (record { status = 200; content_type = []; body = text_body [] }), w)
  unfolding serve chain enable_cors compare_text
  serve-preflight p r w at_root options =
      elim (Option-cases (find_route out.mux routes r.incoming.http_method r.path)) [
        | inl e ↦ absurd (
            find_route-ne-none out.mux r.incoming.http_method p
              (ap (find_route out.mux routes r.incoming.http_method) (sym at_root) ∙ e))
        | inr (x, e) ↦ rw (serve, e) (rw options refl)
      ]

-- ===== src/Site/Keeps.antt =====
-- Requests that leave the storage as it was.
use iot_ephemeral_value_stor.Base.{
  ◌≡◌, refl, ap, ◌∙◌, Bool, true, false, ◌||◌, ◌&&◌, Option, none, some, List, [], ◌∷◌, Text, codes,
  text_eq, All, arith, has_prefix, Result, ok, err, panic, if◌then◌else◌,
}
use iot_ephemeral_value_stor.Service.{generate_key_pair}
use iot_ephemeral_value_stor.Http.{Reply, http_error}
use iot_ephemeral_value_stor.Domain.{derive_download_key, generate_random_key}
use iot_ephemeral_value_stor.Middleware.{Incoming, Config, Handler, chain}
use iot_ephemeral_value_stor.Middleware.Passage.{
  Passage, passes, preflight, refused, over, chain-Passage,
}
use iot_ephemeral_value_stor.Mcp.Server.{serve_http, handle_info_request}
use iot_ephemeral_value_stor.Handlers.{
  key_pair_handler, pair_reply, download_json_handler, download_plain_handler,
  download_root_handler,
}
use iot_ephemeral_value_stor.Router.{
  Vars, Endpoint, mcp, oauth_stub, health, key_pair, llm_text, viewer, upload, download_json,
  download_plain, download_base64, download_root, upload_and_patch, delete, index, static_files,
  routes, find_route, allows,
}
use iot_ephemeral_value_stor.Router.Reached.{place_of, methods_of, find_route-place}
use iot_ephemeral_value_stor.Site.{
  Outside, Settings, Inbound, by_rest, RestServer, rest_server, Backend, Site, Answered,
}
use iot_ephemeral_value_stor.Site.Endpoints.{
  page_for, health_handler, oauth_handler, llm_handler, viewer_handler, template_handler,
}
use iot_ephemeral_value_stor.Site.Serving.{endpoint, key_pair_endpoint, serve, serve_all}

-- Uploads, patches and removals by GET, and tool calls by POST.
abbrev pub may_write : Text → Text → Bool
may_write http_method path =
    (allows (codes "GET" ∷ []) http_method
      && (has_prefix (codes "/u/") path
          || (has_prefix (codes "/patch/") path || has_prefix (codes "/delete/") path)))
    || (text_eq http_method (codes "POST") && has_prefix (codes "/mcp") path)

not_one :
    (get first second third other : Bool)
    → get ≡ true
    → ((get && (first || (second || third))) || other) ≡ false
    → (first ≡ false) × (second ≡ false) × (third ≡ false)
not_one get first second third other g h = ground arith

not_posted : (x post here : Bool) → here ≡ true → (x || (post && here)) ≡ false → post ≡ false
not_posted x post here p h = ground arith

module _ (out : Outside) (settings : Settings) where
  abbrev pub Keeps : Site out settings → Answered out settings → Type 0
  Keeps w x = x.1.rest.storage ≡ w.rest.storage

  pub template-Keeps :
      (r : Inbound) (w : Site out settings) → Keeps w (template_handler out settings r w)
  unfolding template_handler
  template-Keeps r w = by_key (generate_random_key r.random_bytes)
    where
      by_pair :
          (key : Text) (derived : Result Text)
          → Keeps w (elim derived [
            | err e ↦ (some (http_error 500 (codes "Error deriving download key")), w)
            | panic ↦ (none, w)
            | ok key_down ↦ page_for out settings r key key_down w
          ])
      by_pair key (ok key_down) = refl
      by_pair key (err e) = refl
      by_pair key panic = refl

      by_key :
          (o : Option Text)
          → Keeps w (elim o [
            | none ↦ (none, w)
            | some key ↦ elim (derive_download_key out.platform key) [
              | err e ↦ (some (http_error 500 (codes "Error deriving download key")), w)
              | panic ↦ (none, w)
              | ok key_down ↦ page_for out settings r key key_down w
            ]
          ])
      by_key none = refl
      by_key (some key) = by_pair key (derive_download_key out.platform key)

  pub key_pair-Keeps :
      (r : Inbound) (w : Site out settings)
      → Keeps w (by_rest out settings (key_pair_endpoint out settings r) w)
  unfolding key_pair_handler
  key_pair-Keeps r w = by_pair (generate_key_pair out.platform r.random_bytes)
    where
      sv : RestServer out settings
      sv = rest_server out settings w

      reply : Result (Text × Text) → Option Reply × RestServer out settings
      reply pair =
          let x = pair_reply out.platform out.badger out.codec r.visit.counted_at w.stats pair in
          (x.0, record sv { stats = x.1 })

      by_pair :
          (o : Option (Result (Text × Text)))
          → (elim (elim o as (λ _. Option (Option Reply × RestServer out settings)) [
            | none ↦ none
            | some pair ↦ some (reply pair)
          ])
              as (λ _. Option Reply × RestServer out settings) [
                | none ↦ (none, sv)
                | some x ↦ x
              ]).1.storage
            ≡ w.rest.storage
      by_pair none = refl
      by_pair (some pair) = refl

  not_get :
      (r : Inbound)
      → allows (codes "GET" ∷ []) r.incoming.http_method ≡ true
      → may_write r.incoming.http_method r.path ≡ false
      → (has_prefix (codes "/u/") r.path ≡ false)
        × (has_prefix (codes "/patch/") r.path ≡ false)
        × (has_prefix (codes "/delete/") r.path ≡ false)
  not_get r a h = not_one _ _ _ _ _ a h

  endpoint-Keeps :
      (e : Endpoint) (vars : Vars) (r : Inbound) (w : Site out settings)
      → has_prefix (place_of e) r.path ≡ true
      → allows (methods_of e) r.incoming.http_method ≡ true
      → may_write r.incoming.http_method r.path ≡ false
      → Keeps w (endpoint out settings e vars r w)
  unfolding endpoint health_handler oauth_handler llm_handler viewer_handler download_json_handler
      download_plain_handler download_root_handler serve_http
  endpoint-Keeps mcp vars r w p a h =
      rw (not_posted _ _ _ p h) (by_get (text_eq r.incoming.http_method (codes "GET")))
    where
      by_get :
          (get : Bool)
          → Keeps w (
              if get then (some (handle_info_request settings.version), w) else (
                some (
                    http_error 405 (
                      codes
                        "Method not allowed. Use POST for MCP requests or GET for server information.")),
                w,
              ))
      by_get true = refl
      by_get false = refl
  endpoint-Keeps oauth_stub vars r w p a h = refl
  endpoint-Keeps health vars r w p a h = refl
  endpoint-Keeps key_pair vars r w p a h = key_pair-Keeps r w
  endpoint-Keeps llm_text vars r w p a h = refl
  endpoint-Keeps viewer vars r w p a h = refl
  endpoint-Keeps upload vars r w p a h = ground (arith, p, (not_get r a h).0)
  endpoint-Keeps download_json vars r w p a h = refl
  endpoint-Keeps download_plain vars r w p a h = refl
  endpoint-Keeps download_base64 vars r w p a h = refl
  endpoint-Keeps download_root vars r w p a h = refl
  endpoint-Keeps upload_and_patch vars r w p a h = ground (arith, p, (not_get r a h).1)
  endpoint-Keeps delete vars r w p a h = ground (arith, p, (not_get r a h).2)
  endpoint-Keeps index vars r w p a h = template-Keeps r w
  endpoint-Keeps static_files vars r w p a h = refl

  Passage-Keeps :
      (config : Config out.net) (next : Handler out.net (Backend out settings)) (r : Incoming)
      (w : Site out settings) (x : Answered out settings)
      → Passage out.net (Backend out settings) config next r w x
      → ((w' : Site out settings) → Keeps w' (next r w'))
      → Keeps w x
  Passage-Keeps config next r w _ (passes w' stats rest others) h = h w' ∙ ap (λ b. b.storage) rest
  Passage-Keeps config next r w _ (preflight reply m s) h = refl
  Passage-Keeps config next r w _ (refused reply s) h = refl
  Passage-Keeps config next r w _ (over reply clients s others) h = refl

  -- A request leaves the storage as it was, unless it is a GET whose path begins with "/u/",
  -- "/patch/" or "/delete/", or a POST whose path begins with "/mcp".
  serve-keeps_storage :
      (config : Config out.net) (r : Inbound) (w : Site out settings)
      → may_write r.incoming.http_method r.path ≡ false
      → (serve out settings config r w).1.rest.storage ≡ w.rest.storage
  unfolding serve
  serve-keeps_storage config r w h =
      by_route (find_route out.mux routes r.incoming.http_method r.path) refl
    where
      by_route :
          (o : Option (Endpoint × Vars))
          → find_route out.mux routes r.incoming.http_method r.path ≡ o
          → Keeps w (serve out settings config r w)
      by_route none e = rw (serve, e) refl
      by_route (some (place, vars)) e =
          let (p, a) = find_route-place out.mux r.incoming.http_method r.path place vars e in
          let next : Handler out.net (Backend out settings) =
            λ _ w'. endpoint out settings place vars r w' in
          rw (serve, e)
            (Passage-Keeps config next r.incoming w
              (chain out.net (Backend out settings) config next r.incoming w)
              (chain-Passage out.net (Backend out settings) config next r.incoming w)
              (λ w'. endpoint-Keeps place vars r w' p a h))

  -- So does a sequence of such requests.
  pub serve_all-keeps_storage :
      (config : Config out.net) (rs : List Inbound) (w : Site out settings)
      → All (λ r. may_write r.incoming.http_method r.path ≡ false) rs
      → (serve_all out settings config rs w).rest.storage ≡ w.rest.storage
  unfolding serve_all
  serve_all-keeps_storage config [] w h = refl
  serve_all-keeps_storage config (r ∷ rs) w h =
      serve_all-keeps_storage config rs (serve out settings config r w).1 h.1
      ∙ serve-keeps_storage config r w h.0

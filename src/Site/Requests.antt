-- ===== src/Site/Requests.antt =====
-- What requests keep, of both interfaces: a property of the storage that the operations of the
-- service keep which they may perform.
use iot_ephemeral_value_stor.Base.{
  ◌≡◌, refl, sym, subst, Bool, true, false, Option, none, some, List, [], ◌∷◌, Text, codes, All,
  if◌then◌else◌, text_eq,
}
use iot_ephemeral_value_stor.Http.{http_error}
use iot_ephemeral_value_stor.Service.Spec.{Op, uploads, patches, removes, perform}
use iot_ephemeral_value_stor.Service.{Params}
use iot_ephemeral_value_stor.Handlers.{
  request_params, upload_handler, upload_and_patch_handler, handle_upload, delete_handler,
  download_json_handler, download_plain_handler, download_root_handler,
}
use iot_ephemeral_value_stor.Middleware.{Incoming, Config, Handler, chain}
use iot_ephemeral_value_stor.Middleware.Passage.{
  Passage, passes, preflight, refused, over, chain-Passage,
}
use iot_ephemeral_value_stor.Mcp.Server.{serve_http, handle_info_request}
use iot_ephemeral_value_stor.Router.{
  Vars, var_of, Endpoint, mcp, oauth_stub, health, key_pair, llm_text, viewer, upload,
  download_json, download_plain, download_base64, download_root, upload_and_patch, delete, index,
  static_files, routes, find_route,
}
use iot_ephemeral_value_stor.Storage.{StorageInstance}
use iot_ephemeral_value_stor.Site.{Outside, Settings, Inbound, Backend, Site, Answered}
use iot_ephemeral_value_stor.Site.Endpoints.{
  health_handler, oauth_handler, llm_handler, viewer_handler,
}
use iot_ephemeral_value_stor.Site.Serving.{endpoint, serve, serve_all, streamable_handler}
use iot_ephemeral_value_stor.Site.Keeps.{template-Keeps, key_pair-Keeps}
use iot_ephemeral_value_stor.Site.Calls.{ToolCallMay, run_calls_keep}

module _ (out : Outside) (settings : Settings) (P : StorageInstance out.badger → Type 1)
    (May : Op → Type 0)
    (keeps : (op : Op) (s : StorageInstance out.badger)
      → May op
      → P s
      → P (perform out.platform out.badger out.codec op s).1) where
  abbrev given : Inbound → Text → Params
  given r path = request_params out.platform out.badger out.codec r.visit r.request path

  abbrev key_of : Vars → Text
  key_of vars = var_of (codes "uploadKey") vars

  -- The operations of a request, behind its endpoint.
  abbrev pub EndpointMay : Endpoint → Vars → Inbound → Type 0
  EndpointMay mcp vars r = All (ToolCallMay out settings P May keeps) r.tool_calls
  EndpointMay upload vars r = May (uploads r.visit.run (key_of vars) (given r []))
  EndpointMay upload_and_patch vars r =
      let path : Text = var_of (codes "param") vars in
      May (patches r.visit.run (key_of vars) path (given r path))
  EndpointMay delete vars r = May (removes r.visit.run (key_of vars))
  EndpointMay _ vars r = Unit

  abbrev pub RequestMay : Inbound → Type 0
  RequestMay r =
      (place : Endpoint) (vars : Vars)
      → find_route out.mux routes r.incoming.http_method r.path ≡ some (place, vars)
      → EndpointMay place vars r

  endpoint_keep :
      (e : Endpoint) (vars : Vars) (r : Inbound) (w : Site out settings)
      → EndpointMay e vars r
      → P w.rest.storage
      → P (endpoint out settings e vars r w).1.rest.storage
  unfolding endpoint health_handler oauth_handler llm_handler viewer_handler download_json_handler
      download_plain_handler download_root_handler serve_http upload_handler handle_upload
      upload_and_patch_handler delete_handler streamable_handler
  endpoint_keep mcp vars r w v h =
      by_method (text_eq r.incoming.http_method (codes "POST"))
        (text_eq r.incoming.http_method (codes "GET"))
    where
      by_method :
          (post get : Bool)
          → P
              (if post
                then streamable_handler out settings r w
                else if get
                then (some (handle_info_request settings.version), w)
                else (
                  some (
                      http_error 405 (
                        codes
                          "Method not allowed. Use POST for MCP requests or GET for server information.")),
                  w,
                )).1.rest.storage
      by_method true get =
          run_calls_keep out settings P May keeps r.tool_calls
            (record { storage = w.rest.storage; stats = w.rest.mcp_stats }) v h
      by_method false true = h
      by_method false false = h
  endpoint_keep oauth_stub vars r w v h = h
  endpoint_keep health vars r w v h = h
  endpoint_keep key_pair vars r w v h = subst P (sym (key_pair-Keeps out settings r w)) h
  endpoint_keep llm_text vars r w v h = h
  endpoint_keep viewer vars r w v h = h
  endpoint_keep upload vars r w v h = keeps _ w.rest.storage v h
  endpoint_keep download_json vars r w v h = h
  endpoint_keep download_plain vars r w v h = h
  endpoint_keep download_base64 vars r w v h = h
  endpoint_keep download_root vars r w v h = h
  endpoint_keep upload_and_patch vars r w v h = keeps _ w.rest.storage v h
  endpoint_keep delete vars r w v h = keeps _ w.rest.storage v h
  endpoint_keep index vars r w v h = subst P (sym (template-Keeps out settings r w)) h
  endpoint_keep static_files vars r w v h = h

  passage_keep :
      (config : Config out.net) (next : Handler out.net (Backend out settings)) (r : Incoming)
      (w : Site out settings) (x : Answered out settings)
      → Passage out.net (Backend out settings) config next r w x
      → ((w' : Site out settings) → P w'.rest.storage → P (next r w').1.rest.storage)
      → P w.rest.storage
      → P x.1.rest.storage
  passage_keep config next r w _ (passes w' stats rest others) h reached =
      h w' (subst (λ b. P b.storage) (sym rest) reached)
  passage_keep config next r w _ (preflight reply m s) h reached = reached
  passage_keep config next r w _ (refused reply s) h reached = reached
  passage_keep config next r w _ (over reply clients s others) h reached = reached

  serve_keep :
      (config : Config out.net) (r : Inbound) (w : Site out settings)
      → RequestMay r
      → P w.rest.storage
      → P (serve out settings config r w).1.rest.storage
  unfolding serve
  serve_keep config r w v reached =
      by_route (find_route out.mux routes r.incoming.http_method r.path) refl
    where
      by_route :
          (o : Option (Endpoint × Vars))
          → find_route out.mux routes r.incoming.http_method r.path ≡ o
          → P (serve out settings config r w).1.rest.storage
      by_route none e = rw (serve, e) reached
      by_route (some (place, vars)) e =
          let next : Handler out.net (Backend out settings) =
            λ _ w'. endpoint out settings place vars r w' in
          rw (serve, e)
            (passage_keep config next r.incoming w
              (chain out.net (Backend out settings) config next r.incoming w)
              (chain-Passage out.net (Backend out settings) config next r.incoming w)
              (λ w' h. endpoint_keep place vars r w' (v place vars e) h) reached)

  pub serve_all_keep :
      (config : Config out.net) (rs : List Inbound) (w : Site out settings)
      → All RequestMay rs
      → P w.rest.storage
      → P (serve_all out settings config rs w).rest.storage
  unfolding serve_all
  serve_all_keep config [] w v reached = reached
  serve_all_keep config (r ∷ rs) w v reached =
      serve_all_keep config rs (serve out settings config r w).1 v.1
        (serve_keep config r w v.0 reached)

-- ===== src/Site/Serving.antt =====
-- main.go, createRouter: the endpoint of each route, behind the middleware.
use iot_ephemeral_value_stor.Base.{
  ℕ, ◌*◌, Option, none, some, List, [], ◌∷◌, Text, codes, Result, true, false,
}
use iot_ephemeral_value_stor.Http.{Reply, text_body}
use iot_ephemeral_value_stor.Handlers.{
  upload_handler, upload_and_patch_handler, delete_handler, key_pair_handler, download_json_handler,
  download_plain_handler, download_root_handler,
}
use iot_ephemeral_value_stor.Middleware.{Config, chain}
use iot_ephemeral_value_stor.Mcp.{Host, call_tool}
use iot_ephemeral_value_stor.Mcp.Server.{serve_http}
use iot_ephemeral_value_stor.Router.{
  Vars, var_of, Endpoint, mcp, oauth_stub, health, key_pair, llm_text, viewer, upload,
  download_json, download_plain, download_base64, download_root, upload_and_patch, delete, index,
  static_files, routes, find_route,
}
use iot_ephemeral_value_stor.Site.{
  Outside, Settings, ToolCall, Inbound, Backend, Site, Answered, RestServer, by_rest,
}
use iot_ephemeral_value_stor.Site.Endpoints.{
  health_handler, oauth_handler, llm_handler, viewer_handler, template_handler,
}

abbrev pub max_request_size : ℕ
max_request_size = 1024 * 10

abbrev pub rate_limit_per_second : ℕ
rate_limit_per_second = 100

abbrev pub rate_limit_burst : ℕ
rate_limit_burst = 10

module _ (out : Outside) (settings : Settings) where
  abbrev pub McpHost : Type 0
  McpHost = Host out.platform out.badger out.codec out.marshal_indent

  -- The tool calls of one request, one after the other. `none` ends the process.
  unfoldable pub run_calls : List ToolCall → McpHost → List (Option (Result Text)) × McpHost
  unfolding call_tool
  run_calls [] h = ([], h)
  run_calls (c ∷ calls) h =
      elim (call_tool out.platform out.badger out.codec out.marshal_indent c.cause c.run
        c.counted_at c.call h) [
          | none ↦ (none ∷ [], h)
          | some (result, h') ↦
              let (results, h'') = run_calls calls h' in (some result ∷ results, h'')
        ]

  -- The handler of the library, over the counters of the MCP interface.
  unfoldable pub streamable_handler : Inbound → Site out settings → Answered out settings
  unfolding run_calls
  streamable_handler r w =
      let (results, h) =
        run_calls r.tool_calls (record { storage = w.rest.storage; stats = w.rest.mcp_stats }) in
      (
        out.pages.mcp_answer results,
        record w { rest = record { storage = h.storage; mcp_stats = h.stats } },
      )

  abbrev pub key_pair_endpoint :
      Inbound → RestServer out settings → Option Reply × RestServer out settings
  key_pair_endpoint r sv =
      elim (key_pair_handler out.platform out.badger out.codec r.visit r.random_bytes sv) [
        | none ↦ (none, sv)
        | some x ↦ x
      ]

  abbrev upload_key : Vars → Text
  upload_key vars = var_of (codes "uploadKey") vars

  abbrev download_key : Vars → Text
  download_key vars = var_of (codes "downloadKey") vars

  abbrev param : Vars → Text
  param vars = var_of (codes "param") vars

  unfoldable pub endpoint : Endpoint → Vars → Inbound → Site out settings → Answered out settings
  unfolding upload_handler upload_and_patch_handler delete_handler key_pair_handler
      download_json_handler download_plain_handler download_root_handler streamable_handler
      health_handler oauth_handler llm_handler viewer_handler template_handler serve_http
  endpoint mcp vars r = serve_http (streamable_handler r) settings.version r.incoming.http_method
  endpoint oauth_stub vars r = oauth_handler out settings r
  endpoint health vars r = health_handler out settings r
  endpoint key_pair vars r = by_rest out settings (key_pair_endpoint r)
  endpoint llm_text vars r = llm_handler out settings
  endpoint viewer vars r = viewer_handler out settings
  endpoint upload vars r =
      by_rest out settings
        (upload_handler out.platform out.badger out.codec r.visit r.request (upload_key vars))
  endpoint download_json vars r =
      by_rest out settings
        (download_json_handler out.platform out.badger out.codec r.visit (download_key vars))
  endpoint download_plain vars r = by_rest out settings (
      download_plain_handler out.platform out.badger out.codec out.web false r.visit
        (download_key vars) (param vars))
  endpoint download_base64 vars r = by_rest out settings (
      download_plain_handler out.platform out.badger out.codec out.web true r.visit
        (download_key vars) (param vars))
  endpoint download_root vars r =
      by_rest out settings (
        download_root_handler out.platform out.badger out.codec out.web r.visit (download_key vars))
  endpoint upload_and_patch vars r = by_rest out settings (
      upload_and_patch_handler out.platform out.badger out.codec r.visit r.request (upload_key vars)
        (param vars))
  endpoint delete vars r =
      by_rest out settings
        (delete_handler out.platform out.badger out.codec r.visit (upload_key vars))
  endpoint index vars r = template_handler out settings r
  endpoint static_files vars r = λ w. (some (out.pages.file_server r.path), w)

  -- The configuration that main makes of its constants and its flag.
  unfoldable pub middleware_config : List (out.net.Network) → Config out.net
  middleware_config trusted_proxies = record {
    max_request_size = max_request_size;
    rate_limit_per_second = out.rate rate_limit_per_second;
    rate_limit_burst = rate_limit_burst;
    trusted_proxies = trusted_proxies;
  }

  -- The middleware applies where a route matches.
  unfoldable pub serve : Config out.net → Inbound → Site out settings → Answered out settings
  unfolding find_route endpoint chain
  serve config r w = elim (find_route out.mux routes r.incoming.http_method r.path) [
    | none ↦ (
      some (record { status = 404; content_type = []; body = text_body (codes "404 Not Found") }),
      w,
    )
    | some (e, vars) ↦
        chain out.net (Backend out settings) config (λ _ w'. endpoint e vars r w') r.incoming w
  ]

  -- Requests one after the other.
  unfoldable pub serve_all : Config out.net → List Inbound → Site out settings → Site out settings
  unfolding serve
  serve_all config [] w = w
  serve_all config (r ∷ rs) w = serve_all config rs (serve config r w).1

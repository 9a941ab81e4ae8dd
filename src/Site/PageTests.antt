-- ===== src/Site/PageTests.antt =====
-- What the endpoints of main.go answer.
use iot_ephemeral_value_stor.Base.{
  ◌≡◌, refl, true, false, some, codes, compare_text, decimal, has_prefix, drop_text,
}
use iot_ephemeral_value_stor.Json.{bool, str, field, end}
use iot_ephemeral_value_stor.Storage.{check_health}
use iot_ephemeral_value_stor.Middleware.{real_ip}
use iot_ephemeral_value_stor.Http.{http_error, text_body, json_body}
use iot_ephemeral_value_stor.Mcp.Server.{handle_info_request}
use iot_ephemeral_value_stor.Router.{find_route}
use iot_ephemeral_value_stor.Router.Matching.{match_pieces}
use iot_ephemeral_value_stor.Site.Serving.{serve, middleware_config}
use iot_ephemeral_value_stor.Site.Tests.{toy, settings, asks, config, site, monitor}

-- A healthy storage, the stub of OAuth, an embedded file, one that is missing, the information of the
-- MCP server, and a path of no route of its own.
pages_run :
    ((serve toy settings config monitor site).0
      ≡ some (record {
        status = 200;
        content_type = codes "application/json";
        body = json_body (
            field (codes "healthy") (bool true) (
              field
                (codes "degraded")
                (bool false)
                (field (codes "message") (str (codes "ok")) end)));
      }))
    × ((serve toy settings config
          (asks (codes "GET") (codes "/.well-known/oauth-authorization-server"))
          site).0
        ≡ some (record {
          status = 200;
          content_type = codes "application/json";
          body = text_body (codes "{\"issuer\":https://h,\"response_types_supported\":[\"none\"]}");
        }))
    × ((serve toy settings config (asks (codes "GET") (codes "/llm.txt")) site).0
        ≡ some (record {
          status = 200;
          content_type = codes "text/plain; charset=utf-8";
          body = text_body (codes "llm");
        }))
    × ((serve toy settings config (asks (codes "GET") (codes "/viewer")) site).0
        ≡ some (http_error 404 (codes "Viewer page not found")))
    × ((serve toy settings config (asks (codes "GET") (codes "/mcp")) site).0
        ≡ some (handle_info_request (codes "dev")))
    × ((serve toy settings config (asks (codes "PUT") (codes "/u/k")) site).0
        ≡ some (http_error 404 (codes "/u/k")))
unfolding serve find_route match_pieces has_prefix drop_text compare_text decimal middleware_config
    check_health real_ip
pages_run = (refl, refl, refl, refl, refl, refl)

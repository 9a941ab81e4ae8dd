-- ===== src/Site/Tests.antt =====
-- Requests to the whole program, and its theorems there.
use iot_ephemeral_value_stor.Base.{
  replicate, ◌≡◌, refl, ap, ◌↔◌, ◌⊎◌, none, some, List, [], ◌∷◌, ◌++◌, Text, codes, arith,
  compare_text, has_prefix, length, length-append, text_eq_iff, key_not_found,
}
use iot_ephemeral_value_stor.Json.{str}
use iot_ephemeral_value_stor.Domain.Tests.{toy_platform, lower_key, lower_key-valid}
use iot_ephemeral_value_stor.Codec.Tests.{toy_codec}
use iot_ephemeral_value_stor.Stats.{new_stats}
use iot_ephemeral_value_stor.Storage.{WriteRun, unknown}
use iot_ephemeral_value_stor.Storage.Health.{IsWell}
use iot_ephemeral_value_stor.Storage.Tests.{toy_badger, start}
use iot_ephemeral_value_stor.Service.{timestamp}
use iot_ephemeral_value_stor.Service.Params.{value_of}
use iot_ephemeral_value_stor.Service.Rejects.{download_key_of}
use iot_ephemeral_value_stor.Http.{
  page_body, Reply, http_error, line_body, collect_params, sanitize_input,
  add_timestamp_to_this_data, timestamp_suffix,
}
use iot_ephemeral_value_stor.Handlers.Tests.{toy_web, visit, request}
use iot_ephemeral_value_stor.Middleware.{Incoming, Config, real_ip}
use iot_ephemeral_value_stor.Middleware.Tests.{toy_net}
use iot_ephemeral_value_stor.Mcp.Tests.{toy_indent}
use iot_ephemeral_value_stor.Router.Matching.{documented}
use iot_ephemeral_value_stor.Site.{Outside, Settings, Inbound, Backend, Site, PageData, Pages}
use iot_ephemeral_value_stor.Site.Serving.{serve, serve_all, middleware_config}
use iot_ephemeral_value_stor.Site.Keeps.{serve_all-keeps_storage}
use iot_ephemeral_value_stor.Site.Passing.{IsGranted}
use iot_ephemeral_value_stor.Site.Health.{serve-health, serve-health_timed_out}
use iot_ephemeral_value_stor.Site.Index.{AreKeys, serve-index}
use iot_ephemeral_value_stor.Site.Visits.{serve-upload_then_plain}

abbrev toy_pages : Pages
toy_pages = record {
  llm_file = some (codes "llm");
  viewer_file = none;
  index_page = λ page. page.upload_key;
  file_server = λ path. http_error 404 path;
  quoted = λ t. t;
  mcp_answer = λ results. none;
}

abbrev pub toy : Outside
toy = record {
  platform = toy_platform;
  badger = toy_badger;
  codec = toy_codec;
  marshal_indent = toy_indent;
  net = toy_net;
  rate = λ n. tt;
  web = toy_web;
  mux = documented;
  pages = toy_pages;
}

abbrev pub settings : Settings
settings = record {
  port = 8080;
  persist_duration_text = codes "24h";
  version = codes "dev";
  build_time = codes "unknown";
}

abbrev local : Text → Incoming
local http_method = record {
  http_method = http_method;
  remote_addr = codes "127.0.0.1";
  x_real_ip = [];
  x_forwarded_for = [];
  content_length = none;
  arrived = 0;
}

abbrev pub asks : Text → Text → Inbound
asks http_method path = record {
  incoming = local http_method;
  request = request;
  path = path;
  forwarded_proto = [];
  visit = visit;
  random_bytes = none;
  uptime_at = 0;
  stats_at = 0;
  mcp_stats_at = 0;
  tool_calls = [];
  probe = none;
  disk_free = unknown key_not_found;
}

abbrev pub config : Config toy_net
config = middleware_config toy settings []

abbrev pub site : Site toy settings
site = record {
  stats = new_stats 1;
  clients = [];
  rest = record { storage = start; mcp_stats = new_stats 1 };
}

abbrev pub device : Inbound
device = asks (codes "GET") (codes "/u/" ++ lower_key)

abbrev pub visitor : Inbound
visitor =
    asks (codes "GET")
      (codes "/d/" ++ (download_key_of toy_platform lower_key ++ (codes "/plain/" ++ codes "temp")))

abbrev in_between : List Inbound
in_between = asks (codes "GET") (codes "/viewer") ∷ asks (codes "POST") (codes "/u/a") ∷ []

local-IsGranted :
    (w : Site toy settings) (path : Text)
    → IsGranted toy_net (Backend toy settings) config (asks (codes "GET") path).incoming w
unfolding compare_text real_ip middleware_config
local-IsGranted w path = record {
  no_preflight = refl;
  small = refl;
  addressed = refl;
  granted = λ e. ground (arith, e);
}

serve-upload_then_plain_example :
    (serve toy settings config visitor
      (serve_all toy settings config in_between (serve toy settings config device site).1)).0
    ≡ some (record {
      status = 200;
      content_type = codes "text/plain";
      body = line_body (str (codes "&lt;21&gt;"));
    })
unfolding collect_params sanitize_input add_timestamp_to_this_data value_of compare_text has_prefix
serve-upload_then_plain_example =
    serve-upload_then_plain toy settings config device visitor in_between site lower_key
      (codes "temp") (codes "&lt;21&gt;") lower_key-valid
      ((refl, refl), ((refl, refl), ((refl, refl), tt))) refl refl refl (omega arith) (omega arith)
      refl (λ e. ground (arith, (text_eq_iff timestamp (codes "temp")).1 e))
      (λ k e. omega (arith, ap length e, length-append k timestamp_suffix)) refl refl refl
      (local-IsGranted site device.path) (refl, (refl, tt)) refl refl
      (local-IsGranted _ visitor.path)

serve_all-keeps_storage_example :
    (serve_all toy settings config in_between site).rest.storage ≡ start
unfolding compare_text has_prefix
serve_all-keeps_storage_example =
    serve_all-keeps_storage toy settings config in_between site (refl, (refl, tt))

abbrev pub monitor : Inbound
monitor = asks (codes "GET") (codes "/health")

pub monitor-IsGranted :
    (w : Site toy settings) → IsGranted toy_net (Backend toy settings) config monitor.incoming w
monitor-IsGranted w = local-IsGranted w monitor.path

abbrev slow_device : Inbound
slow_device = record device {
  visit = record visit { run = record visit.run { write = WriteRun.times_out } };
}

serve-health_timed_out_example :
    (reply : Reply) × ((serve toy settings config monitor
        (serve_all toy settings config in_between (serve toy settings config slow_device site).1)).0
      ≡ some reply)
    × (reply.status ≡ 503)
unfolding collect_params sanitize_input add_timestamp_to_this_data compare_text has_prefix
serve-health_timed_out_example =
    serve-health_timed_out toy settings config slow_device monitor in_between site lower_key
      lower_key-valid ((refl, refl), ((refl, refl), ((refl, refl), tt))) refl refl refl refl
      (local-IsGranted site slow_device.path) (refl, (refl, tt)) refl refl
      (local-IsGranted _ monitor.path)

serve-health_example :
    (reply : Reply) × ((serve toy settings config monitor site).0 ≡ some reply)
    × ((reply.status ≡ 200) ↔ IsWell toy_badger none (unknown key_not_found) start)
    × ((reply.status ≡ 200) ⊎ (reply.status ≡ 503))
serve-health_example =
    serve-health toy settings config monitor site refl refl (local-IsGranted site monitor.path)

abbrev newcomer : Inbound
newcomer = record (asks (codes "GET") (codes "/")) { random_bytes = some (replicate 32 7) }

serve-index_example :
    (page : PageData) × ((serve toy settings config newcomer site).0
      ≡ some (record {
        status = 200;
        content_type = [];
        body = page_body (toy_pages.index_page page);
      }))
    × AreKeys toy settings config page
serve-index_example =
    serve-index toy settings config newcomer site (replicate 32 7) refl refl (ground arith) refl
      refl (local-IsGranted site newcomer.path)

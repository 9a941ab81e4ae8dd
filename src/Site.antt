-- ===== src/Site.antt =====
-- main.go: the requests from the router through the middleware to their endpoints. A reply that is
-- `none` is a panic of the handler or the end of the process.
pub mod Endpoints
pub mod Serving
pub mod Keeps
pub mod Passing
pub mod Visits
pub mod Health
pub mod Calls
pub mod Requests
pub mod Index
pub mod Histories
pub mod Isolation
pub mod Answers
pub mod Steady
pub mod Tests
pub mod HistoryTests
pub mod PageTests
use iot_ephemeral_value_stor.Base.{
  ℕ, Bool, true, false, Option, none, some, List, [], ◌∷◌, ◌++◌, Text, codes, if◌then◌else◌,
  is_empty, Result, ok, err, panic, Cause, Error, decimal, ◌==◌,
}
use iot_ephemeral_value_stor.Json.{Value, Fields, end, field, bool, str, number}
use iot_ephemeral_value_stor.Domain.{
  Platform, generate_random_key, derive_download_key, add_upload_prefix, add_download_prefix,
}
use iot_ephemeral_value_stor.Codec.{Codec}
use iot_ephemeral_value_stor.Stats.{Stats, StatsData, get_current_stats, get_uptime}
use iot_ephemeral_value_stor.Storage.{Badger, StorageInstance, HealthStatus, DiskFree, check_health}
use iot_ephemeral_value_stor.Service.{Run}
use iot_ephemeral_value_stor.Http.{Reply, Request, http_error, text_body, page_body, json_body}
use iot_ephemeral_value_stor.Handlers.{
  Web, Visit, Server, upload_handler, upload_and_patch_handler, delete_handler, key_pair_handler,
  download_json_handler, download_plain_handler, download_root_handler,
}
use iot_ephemeral_value_stor.Middleware.{Net, Incoming, Config, World, chain}
use iot_ephemeral_value_stor.Mcp.{Host, Call, call_tool}
use iot_ephemeral_value_stor.Mcp.Server.{serve_http}
use iot_ephemeral_value_stor.Router.{
  Mux, Vars, var_of, Endpoint, mcp, oauth_stub, health, key_pair, llm_text, viewer, upload,
  download_json, download_plain, download_base64, download_root, upload_and_patch, delete, index,
  static_files, routes, find_route,
}

-- What the index page shows.
pub record PageData : Type 0 where
  pub upload_key : Text
  pub download_key : Text
  pub data_retention : Text
  pub version : Text
  pub build_time : Text
  pub base_url : Text
  pub uptime : ℕ
  pub state_data : StatsData
  pub mcp_state_data : StatsData

-- The packages and files that the endpoints use: the embedded files, where `none` is an error, the
-- index page as far as its template gets, the file server, `%q`, and the library that answers the
-- results of the tool calls of a request.
pub record Pages : Type 0 where
  pub llm_file : Option Text
  pub viewer_file : Option Text
  pub index_page : PageData → Text
  pub file_server : Text → Reply
  pub quoted : Text → Text
  pub mcp_answer : List (Option (Result Text)) → Option Reply

-- What the program uses of others.
pub record Outside : Type 1 where
  pub platform : Platform
  pub badger : Badger
  pub codec : Codec
  pub marshal_indent : Fields → Option Text
  pub net : Net
  pub rate : ℕ → net.Rate
  pub web : Web
  pub mux : Mux
  pub pages : Pages

-- The flags and what the build sets.
pub record Settings : Type 0 where
  pub port : ℕ
  pub persist_duration_text : Text
  pub version : Text
  pub build_time : Text

-- A call of a tool by the library: the context's error, how the call goes, and the call.
pub record ToolCall : Type 0 where
  pub cause : Option Cause
  pub run : Run
  pub counted_at : ℕ
  pub call : Call

-- A request, and what happens while it is served: random bytes, the clocks, the tool calls that the
-- library reads from it, what the health check reads, and the free space.
pub record Inbound : Type 0 where
  pub incoming : Incoming
  pub request : Request
  pub path : Text
  pub forwarded_proto : Text
  pub visit : Visit
  pub random_bytes : Option Text
  pub uptime_at : ℕ
  pub stats_at : ℕ
  pub mcp_stats_at : ℕ
  pub tool_calls : List ToolCall
  pub probe : Option Error
  pub disk_free : DiskFree

module _ (out : Outside) (settings : Settings) where
  -- What the endpoints keep beside the counters of the REST interface.
  pub record Backend : Type 0 where
    pub storage : StorageInstance out.badger
    pub mcp_stats : Stats

  abbrev pub Site : Type 0
  Site = World out.net Backend

  abbrev pub Answered : Type 0
  Answered = Option Reply × Site

  abbrev pub RestServer : Type 0
  RestServer = Server out.platform out.badger out.codec

  -- A handler of httphandler works on the storage and the counters of the REST interface.
  abbrev pub rest_server : Site → RestServer
  rest_server w = record { storage = w.rest.storage; stats = w.stats }

  abbrev pub with_server : Site → RestServer → Site
  with_server w sv = record w { stats = sv.stats; rest = record w.rest { storage = sv.storage } }

  abbrev pub by_rest : (RestServer → Option Reply × RestServer) → Site → Answered
  by_rest handler w = let x = handler (rest_server w) in (x.0, with_server w x.1)

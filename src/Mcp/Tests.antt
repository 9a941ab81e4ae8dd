-- ===== src/Mcp/Tests.antt =====
-- Calls of the tools, and their theorems there.
use iot_ephemeral_value_stor.Base.{
  ◌≡◌, refl, Option, none, some, [], ◌∷◌, Text, codes, compare_text,
}
use iot_ephemeral_value_stor.Json.{Fields}
use iot_ephemeral_value_stor.Domain.Tests.{toy_platform, lower_key}
use iot_ephemeral_value_stor.Codec.Tests.{toy_codec}
use iot_ephemeral_value_stor.Stats.{new_stats}
use iot_ephemeral_value_stor.Storage.{ReadRun, WriteRun}
use iot_ephemeral_value_stor.Storage.Tests.{toy_badger, start}
use iot_ephemeral_value_stor.Service.{Run, Params}
use iot_ephemeral_value_stor.Mcp.{Host, upload_data, call_tool, upload_data_handler}
use mathlib.Core.Option
use iot_ephemeral_value_stor.Mcp.Server.{
  new_mcp_server, offered, register_tools, extract_tool_names, tool_registry,
}
use iot_ephemeral_value_stor.Mcp.Counters.{AreTold, call_tool-AreTold}

abbrev at_once : Run
at_once = record {
  read = ReadRun.completes;
  read_at = 0;
  now = 0;
  write = WriteRun.completes;
  write_at = 0;
}

abbrev readings : Params
readings = (codes "temp", codes "21") ∷ []

abbrev pub toy_indent : Fields → Option Text
toy_indent m = some (codes "json")

abbrev host : Host toy_platform toy_badger toy_codec toy_indent
host = record { storage = start; stats = new_stats 1 }

abbrev uploaded_host : Host toy_platform toy_badger toy_codec toy_indent
uploaded_host =
    (upload_data_handler toy_platform toy_badger toy_codec toy_indent at_once 0 lower_key readings
      host).1

call_tool-AreTold_example :
    AreTold toy_platform toy_badger toy_codec toy_indent none at_once 0
      (upload_data lower_key readings)
      host
      (call_tool toy_platform toy_badger toy_codec toy_indent none at_once 0
        (upload_data lower_key readings)
        host)
call_tool-AreTold_example =
    call_tool-AreTold toy_platform toy_badger toy_codec toy_indent none at_once 0
      (upload_data lower_key readings) host

-- Every tool that the server's information names is registered.
register_runs :
    (offered register_tools
      ≡ codes "delete_data"
        ∷ codes "download_data"
        ∷ codes "patch_data"
        ∷ codes "upload_data"
        ∷ codes "generate_key_pair"
        ∷ [])
    × (extract_tool_names tool_registry
        ≡ codes "generate_key_pair"
          ∷ codes "upload_data"
          ∷ codes "patch_data"
          ∷ codes "download_data"
          ∷ codes "delete_data"
          ∷ [])
unfolding register_tools extract_tool_names compare_text
register_runs = (refl, refl)

-- The server starts, and a missing version is "dev".
server_runs :
    (Option.map (λ s. s.version) (new_mcp_server []) ≡ some (codes "dev"))
    × (Option.map (λ s. s.version) (new_mcp_server (codes "1.2")) ≡ some (codes "1.2"))
unfolding new_mcp_server compare_text
server_runs = (refl, refl)

-- ===== src/Mcp/Server.antt =====
-- mcphandler/server.go and the registry of tools.go: which tools the server offers, and the requests
-- that reach it.
use iot_ephemeral_value_stor.Base.{
  Option, none, some, List, [], ◌∷◌, map, Text, codes, if◌then◌else◌, is_empty, text_eq,
}
use iot_ephemeral_value_stor.Json.{Fields, str, obj, arr, Items, nil, cons, end, insert}
use iot_ephemeral_value_stor.Http.{Reply, http_error, json_response}

-- The descriptions, which only the library reads, are left out.
pub record ToolDescriptor : Type 0 where
  pub name : Text

abbrev tool : Text → ToolDescriptor
tool n = record { name = n }

abbrev pub tool_registry : List ToolDescriptor
tool_registry =
    tool (codes "generate_key_pair")
    ∷ tool (codes "upload_data")
    ∷ tool (codes "patch_data")
    ∷ tool (codes "download_data")
    ∷ tool (codes "delete_data")
    ∷ []

unfoldable pub extract_tool_names : List ToolDescriptor → List Text
extract_tool_names [] = []
extract_tool_names (t ∷ tools) = t.name ∷ extract_tool_names tools

-- `none` ends the process.
unfoldable pub get_tool_by_name : Text → List ToolDescriptor → Option ToolDescriptor
get_tool_by_name n [] = none
get_tool_by_name n (t ∷ tools) = if text_eq t.name n then some t else get_tool_by_name n tools

-- The handlers of the tools.
pub data ToolHandler : Type 0 where
  generate_key_pair upload_data patch_data download_data delete_data : ToolHandler

-- The tools that a server offers, after some were added.
abbrev Tools : Type 0
Tools = Option (List (ToolDescriptor × ToolHandler))

abbrev pub add_tool : Text → ToolHandler → Tools → Tools
add_tool n handler none = none
add_tool n handler (some tools) = elim (get_tool_by_name n tool_registry) [
  | none ↦ none
  | some t ↦ some ((t, handler) ∷ tools)
]

-- The last tool that is added stands first.
unfoldable pub register_tools : Tools
unfolding get_tool_by_name
register_tools = add_tool (codes "delete_data") delete_data (
    add_tool (codes "download_data") download_data (
      add_tool (codes "patch_data") patch_data (
        add_tool (codes "upload_data") upload_data
          (add_tool (codes "generate_key_pair") generate_key_pair (some [])))))

-- What the library's server is told: the implementation and its tools. The handler of MCP requests
-- is the library's.
pub record McpServer : Type 0 where
  pub name : Text
  pub version : Text
  pub tools : List (ToolDescriptor × ToolHandler)

abbrev pub version_or_dev : Text → Text
version_or_dev version = if is_empty version then codes "dev" else version

unfoldable pub new_mcp_server : Text → Option McpServer
unfolding register_tools
new_mcp_server version = elim register_tools [
  | none ↦ none
  | some tools ↦ some (record {
    name = codes "iot-ephemeral-value-store";
    version = version_or_dev version;
    tools = tools;
  })
]

abbrev pub offered : Tools → List Text
offered none = []
offered (some tools) = map (λ t. t.0.name) tools

abbrev texts : List Text → Items
texts [] = nil
texts (t ∷ ts) = cons (str t) (texts ts)

abbrev pub server_info : Text → Fields
server_info version = insert (codes "protocol") (str (codes "Model Context Protocol (MCP)")) (
    insert (codes "server")
      (obj (
        insert (codes "name") (str (codes "iot-ephemeral-value-store"))
          (insert (codes "version") (str version) end)))
      (insert (codes "capabilities")
        (obj (
          insert (codes "tools")
            (obj (insert (codes "available") (arr (texts (extract_tool_names tool_registry))) end))
            end))
        (insert (codes "transport") (str (codes "HTTP Streamable (SSE)")) (
          insert (codes "usage")
            (str (
              codes
                "Send POST requests to interact with the server. See documentation at /llm.txt"))
            end))))

unfoldable pub handle_info_request : Text → Reply
unfolding insert extract_tool_names json_response
handle_info_request version = json_response (server_info (version_or_dev version))

-- The first argument is what the library's handler does with a request.
unfoldable pub serve_http {ℓ} :
    {S : Type ℓ} → (S → Option Reply × S) → Text → Text → S → Option Reply × S
unfolding handle_info_request
serve_http handler version http_method s =
    if text_eq http_method (codes "POST")
    then handler s
    else if text_eq http_method (codes "GET")
    then (some (handle_info_request version), s)
    else (
      some (
          http_error 405
            (codes "Method not allowed. Use POST for MCP requests or GET for server information.")),
      s,
    )

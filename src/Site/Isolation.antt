-- ===== src/Site/Isolation.antt =====
-- Requests and the entries of upload keys that they do not give.
use iot_ephemeral_value_stor.Base.{
  ℕ, ◌≡◌, refl, ap, ◌≢◌, Option, some, List, [], ◌∷◌, Text, All, ok, codes,
}
use iot_ephemeral_value_stor.Storage.{StorageInstance, ReadRun, get_json, found_json}
use iot_ephemeral_value_stor.Service.{authorised}
use iot_ephemeral_value_stor.Service.Spec.{Op, upload_key_of, perform}
use iot_ephemeral_value_stor.Service.Isolation.{perform-Keeps}
use iot_ephemeral_value_stor.Middleware.{Config}
use iot_ephemeral_value_stor.Mcp.{
  Call, generate_key_pair_call, upload_data, patch_data, download_data, delete_data,
}
use iot_ephemeral_value_stor.Router.{
  Vars, var_of, Endpoint, mcp, oauth_stub, health, key_pair, llm_text, viewer, upload,
  download_json, download_plain, download_base64, download_root, upload_and_patch, delete, index,
  static_files, routes, find_route,
}
use iot_ephemeral_value_stor.Site.{Outside, Settings, Inbound, ToolCall, Site}
use iot_ephemeral_value_stor.Site.Serving.{serve_all}
use iot_ephemeral_value_stor.Site.Calls.{ToolCallMay, CallMay}
use iot_ephemeral_value_stor.Site.Requests.{EndpointMay, RequestMay, serve_all_keep}

module _ (out : Outside) (settings : Settings) (down : Text) where
  -- The key does not lead to the download key: it is refused, or leads to another.
  abbrev pub IsForeign : Text → Type 0
  IsForeign key = authorised out.platform key ≢ ok down

  abbrev pub CallIsForeign : Call → Type 0
  CallIsForeign (upload_data key params) = IsForeign key
  CallIsForeign (patch_data key path params) = IsForeign key
  CallIsForeign (delete_data key) = IsForeign key
  CallIsForeign _ = Unit

  abbrev pub ToolCallIsForeign : ToolCall → Type 0
  ToolCallIsForeign c = CallIsForeign c.call

  -- The upload key in the path of a request, if there is one, and those of its tool calls.
  abbrev pub RequestIsForeign : Inbound → Type 0
  RequestIsForeign r =
      ((place : Endpoint) (vars : Vars)
        → find_route out.mux routes r.incoming.http_method r.path ≡ some (place, vars)
        → IsForeign (var_of (codes "uploadKey") vars))
      × All ToolCallIsForeign r.tool_calls

  abbrev OpIsForeign : Op → Type 0
  OpIsForeign op = IsForeign (upload_key_of op)

  module _ (now : ℕ) (found : Option Text) where
    record Finds (s : StorageInstance out.badger) : Type 1 where
      pub finds : out.badger.get now down s.db ≡ found

    perform-Finds :
        (op : Op) (s : StorageInstance out.badger)
        → OpIsForeign op
        → Finds s
        → Finds (perform out.platform out.badger out.codec op s).1
    perform-Finds op s apart h = record {
      finds = perform-Keeps out.platform out.badger out.codec now down found op s apart h.finds;
    }

    calls_may :
        (calls : List ToolCall)
        → All ToolCallIsForeign calls
        → All (ToolCallMay out settings Finds OpIsForeign perform-Finds) calls
    calls_may [] v = tt
    calls_may (c ∷ calls) v = (one c.call v.0, calls_may calls v.1)
      where
        one :
            (x : Call)
            → CallIsForeign x
            → CallMay out settings Finds OpIsForeign perform-Finds c.run x
        one (generate_key_pair_call random_bytes) h = tt
        one (upload_data key params) h = h
        one (patch_data key path params) h = h
        one (download_data key parameter) h = tt
        one (delete_data key) h = h

    foreign_may :
        (r : Inbound)
        → RequestIsForeign r
        → RequestMay out settings Finds OpIsForeign perform-Finds r
    foreign_may r v place vars e = of_place place (v.0 place vars e)
      where
        of_place :
            (x : Endpoint)
            → IsForeign (var_of (codes "uploadKey") vars)
            → EndpointMay out settings Finds OpIsForeign perform-Finds x vars r
        of_place mcp p = calls_may r.tool_calls v.1
        of_place upload p = p
        of_place upload_and_patch p = p
        of_place delete p = p
        of_place oauth_stub p = tt
        of_place health p = tt
        of_place key_pair p = tt
        of_place llm_text p = tt
        of_place viewer p = tt
        of_place download_json p = tt
        of_place download_plain p = tt
        of_place download_base64 p = tt
        of_place download_root p = tt
        of_place index p = tt
        of_place static_files p = tt

    requests_may :
        (rs : List Inbound)
        → All RequestIsForeign rs
        → All (RequestMay out settings Finds OpIsForeign perform-Finds) rs
    requests_may [] v = tt
    requests_may (r ∷ rs) v = (foreign_may r v.0, requests_may rs v.1)

  -- A sequence of requests of both interfaces leaves what a read that completes finds under a
  -- download key as it was, if none of the upload keys in their paths and tool calls leads to that
  -- download key, however the calls of the database go.
  pub serve_all-foreign :
      (config : Config out.net) (rs : List Inbound) (w : Site out settings) (now : ℕ)
      → All RequestIsForeign rs
      → get_json out.badger ReadRun.completes now down
          (serve_all out settings config rs w).rest.storage
        ≡ get_json out.badger ReadRun.completes now down w.rest.storage
  unfolding get_json
  serve_all-foreign config rs w now v =
      let found : Option Text = out.badger.get now down w.rest.storage.db in
      let kept : Finds now found (serve_all out settings config rs w).rest.storage =
        serve_all_keep out settings (Finds now found) OpIsForeign (perform-Finds now found) config
          rs w (requests_may now found rs v) (record { finds = refl }) in
      ap (found_json out.badger) kept.finds

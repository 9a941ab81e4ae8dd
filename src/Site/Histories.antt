-- ===== src/Site/Histories.antt =====
-- Sequences of requests, of both interfaces, as histories of the service.
use iot_ephemeral_value_stor.Base.{ℕ, ◌≡◌, true, some, List, [], ◌∷◌, Text, codes, All, ok, ◌⊎◌}
use iot_ephemeral_value_stor.Json.{Fields}
use iot_ephemeral_value_stor.Storage.{ReadRun, retrieve}
use iot_ephemeral_value_stor.Service.Params.{AreValid}
use iot_ephemeral_value_stor.Service.Spec.{Op, perform}
use iot_ephemeral_value_stor.Service.Documents.{IsDocument}
use iot_ephemeral_value_stor.Service.History.{
  Reached, uploads, patches, removes, starts, follows, IsTooDeep, retrieve-IsDocument,
}
use iot_ephemeral_value_stor.Handlers.{request_params}
use iot_ephemeral_value_stor.Middleware.{Config}
use iot_ephemeral_value_stor.Router.{
  Vars, var_of, Endpoint, mcp, oauth_stub, health, key_pair, llm_text, viewer, upload,
  download_json, download_plain, download_base64, download_root, upload_and_patch, delete, index,
  static_files, routes, find_route,
}
use iot_ephemeral_value_stor.Storage.{StorageInstance}
use iot_ephemeral_value_stor.Mcp.{
  Call, generate_key_pair_call, upload_data, patch_data, download_data, delete_data,
}
use iot_ephemeral_value_stor.Site.{ToolCall, Outside, Settings, Inbound, Site}
use iot_ephemeral_value_stor.Site.Serving.{serve_all}
use iot_ephemeral_value_stor.Site.Calls.{ToolCallMay, CallMay}
use iot_ephemeral_value_stor.Site.Requests.{EndpointMay, RequestMay, serve_all_keep}

module _ (out : Outside) (settings : Settings) where
  abbrev pub IsText : Text → Type 0
  IsText t = out.codec.valid_text t ≡ true

  abbrev CallTexts : Call → Type 0
  CallTexts (upload_data key params) = AreValid out.codec.valid_text params
  CallTexts (patch_data key path params) = IsText path × AreValid out.codec.valid_text params
  CallTexts _ = Unit

  abbrev HasTexts : ToolCall → Type 0
  HasTexts c = CallTexts c.call

  abbrev pub IsReached : StorageInstance out.badger → Type 1
  IsReached = Reached out.platform out.badger out.codec

  -- The parameters of a request, its variable `param`, and those of its tool calls are valid UTF-8.
  pub record IsReadable (r : Inbound) : Type 0 where
    pub params :
        (path : Text)
        → AreValid out.codec.valid_text
            (request_params out.platform out.badger out.codec r.visit r.request path)
    pub param :
        (place : Endpoint) (vars : Vars)
        → find_route out.mux routes r.incoming.http_method r.path ≡ some (place, vars)
        → IsText (var_of (codes "param") vars)
    pub calls : All HasTexts r.tool_calls

  abbrev OpTexts : Op → Type 0
  OpTexts (Op.uploads run key params) = AreValid out.codec.valid_text params
  OpTexts (Op.patches run key path params) = IsText path × AreValid out.codec.valid_text params
  OpTexts (Op.removes run key) = Unit

  perform-IsReached :
      (op : Op) (s : StorageInstance out.badger)
      → OpTexts op
      → IsReached s
      → IsReached (perform out.platform out.badger out.codec op s).1
  perform-IsReached (Op.uploads run key params) s v h = follows h (uploads run key params v)
  perform-IsReached (Op.patches run key path params) s v h =
      follows h (patches run key path params v.0 v.1)
  perform-IsReached (Op.removes run key) s v h = follows h (removes run key)

  calls_may :
      (calls : List ToolCall)
      → All HasTexts calls
      → All (ToolCallMay out settings IsReached OpTexts perform-IsReached) calls
  calls_may [] v = tt
  calls_may (c ∷ calls) v = (one c.call v.0, calls_may calls v.1)
    where
      one :
          (x : Call)
          → CallTexts x
          → CallMay out settings IsReached OpTexts perform-IsReached c.run x
      one (generate_key_pair_call random_bytes) h = tt
      one (upload_data key params) h = h
      one (patch_data key path params) h = h
      one (download_data key parameter) h = tt
      one (delete_data key) h = tt

  readable_may :
      (r : Inbound) → IsReadable r → RequestMay out settings IsReached OpTexts perform-IsReached r
  readable_may r v place vars e = of_place place (v.param place vars e)
    where
      of_place :
          (x : Endpoint)
          → IsText (var_of (codes "param") vars)
          → EndpointMay out settings IsReached OpTexts perform-IsReached x vars r
      of_place mcp p = calls_may r.tool_calls v.calls
      of_place upload p = v.params []
      of_place upload_and_patch p = (p, v.params (var_of (codes "param") vars))
      of_place delete p = tt
      of_place oauth_stub p = tt
      of_place health p = tt
      of_place key_pair p = tt
      of_place llm_text p = tt
      of_place viewer p = tt
      of_place download_json p = tt
      of_place download_plain p = tt
      of_place download_base64 p = tt
      of_place download_root p = tt
      of_place index p = tt
      of_place static_files p = tt

  requests_may :
      (rs : List Inbound)
      → All IsReadable rs
      → All (RequestMay out settings IsReached OpTexts perform-IsReached) rs
  requests_may [] v = tt
  requests_may (r ∷ rs) v = (readable_may r v.0, requests_may rs v.1)

  pub serve_all-IsReached :
      (config : Config out.net) (rs : List Inbound) (w : Site out settings)
      → All IsReadable rs
      → IsReached w.rest.storage
      → IsReached (serve_all out settings config rs w).rest.storage
  serve_all-IsReached config rs w v reached =
      serve_all_keep out settings IsReached OpTexts perform-IsReached config rs w
        (requests_may rs v) reached

  -- After any sequence of requests of both interfaces whose texts are valid UTF-8, from a storage
  -- with an empty database and no goroutine left behind, under every key is a document, or none,
  -- which reads as the empty map: strings and maps only, with valid texts and no key twice at any
  -- depth. A read that completes finds it, except where it is one of more than 10000 maps inside one
  -- another that can be read as text and not be decoded.
  pub serve_all-IsDocument :
      (config : Config out.net) (rs : List Inbound) (w : Site out settings)
      → All IsReadable rs
      → w.rest.storage.db ≡ out.badger.empty
      → w.rest.storage.pending ≡ []
      → (now : ℕ) (key : Text)
      → let storage = (serve_all out settings config rs w).rest.storage in
        (m : Fields) × IsDocument out.badger out.codec m
        × ((retrieve out.badger out.codec ReadRun.completes now key storage ≡ ok (some m))
            ⊎ IsTooDeep out.platform out.badger out.codec storage now key m)
  serve_all-IsDocument config rs w v fresh quiet now key =
      retrieve-IsDocument out.platform out.badger out.codec
        (serve_all-IsReached config rs w v (starts fresh quiet)) now key

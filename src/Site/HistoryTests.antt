-- ===== src/Site/HistoryTests.antt =====
-- Sequences of requests, and their theorems there.
use iot_ephemeral_value_stor.Base.{
  ℕ, Option, Result, ◌⊎◌, ap, sym, subst, ◌∙◌, arith, length, ◌≡◌, refl, ◌≢◌, none, [], ◌∷◌, Text,
  codes, ok, some, compare_text, has_prefix, drop_text,
}
use iot_ephemeral_value_stor.Json.{Fields}
use iot_ephemeral_value_stor.Domain.Tests.{toy_platform, lower_key, lower_key-valid}
use iot_ephemeral_value_stor.Codec.Tests.{toy_codec}
use iot_ephemeral_value_stor.Storage.{ReadRun, retrieve, get_json}
use iot_ephemeral_value_stor.Storage.Tests.{toy_badger}
use iot_ephemeral_value_stor.Service.Params.{AreValid}
use iot_ephemeral_value_stor.Service.Documents.{IsDocument}
use iot_ephemeral_value_stor.Service.History.{IsTooDeep}
use iot_ephemeral_value_stor.Mcp.{upload_data}
use iot_ephemeral_value_stor.Handlers.{request_params}
use iot_ephemeral_value_stor.Handlers.Tests.{visit, request}
use iot_ephemeral_value_stor.Http.{collect_params, sanitize_input, add_timestamp_to_this_data}
use iot_ephemeral_value_stor.Router.{Endpoint, Vars, var_of, upload, find_route}
use iot_ephemeral_value_stor.Router.Matching.{match_pieces}
use iot_ephemeral_value_stor.Site.{Inbound}
use iot_ephemeral_value_stor.Site.Serving.{serve, serve_all}
use iot_ephemeral_value_stor.Site.Histories.{IsReadable, serve_all-IsDocument}
use iot_ephemeral_value_stor.Site.Steady.{serve_all-answered}
use iot_ephemeral_value_stor.Site.Isolation.{IsForeign, RequestIsForeign, serve_all-foreign}
use iot_ephemeral_value_stor.Service.Rejects.{authorised_of_valid}
use iot_ephemeral_value_stor.Hex.{length-encode_to_string}
use iot_ephemeral_value_stor.Domain.{strip_upload_prefix}
use iot_ephemeral_value_stor.Site.Tests.{toy, settings, asks, config, site, device}

device_params :
    (path : Text)
    → AreValid toy_codec.valid_text
        (request_params toy_platform toy_badger toy_codec visit request path)
unfolding collect_params sanitize_input add_timestamp_to_this_data
device_params [] = ((refl, refl), ((refl, refl), ((refl, refl), tt)))
device_params (c ∷ path) = ((refl, refl), ((refl, refl), tt))

asks-IsReadable : (http_method path : Text) → IsReadable toy settings (asks http_method path)
asks-IsReadable http_method path = record {
  params = device_params;
  param = λ place vars e. refl;
  calls = tt;
}

-- An agent that uploads by the MCP interface.
abbrev agent : Inbound
agent = record (asks (codes "POST") (codes "/mcp")) {
  tool_calls =
      record {
        cause = none;
        run = visit.run;
        counted_at = 0;
        call = upload_data lower_key ((codes "temp", codes "21") ∷ []);
      }
      ∷ [];
}

agent-IsReadable : IsReadable toy settings agent
agent-IsReadable = record {
  params = device_params;
  param = λ place vars e. refl;
  calls = (((refl, refl), tt), tt);
}

serve_all-IsDocument_example :
    let storage = (serve_all toy settings config (device ∷ agent ∷ []) site).rest.storage in
    (m : Fields) × IsDocument toy_badger toy_codec m
    × ((retrieve toy_badger toy_codec ReadRun.completes 0 (codes "k") storage ≡ ok (some m))
        ⊎ IsTooDeep toy_platform toy_badger toy_codec storage 0 (codes "k") m)
serve_all-IsDocument_example =
    serve_all-IsDocument toy settings config (device ∷ agent ∷ []) site
      (asks-IsReadable _ _, (agent-IsReadable, tt)) refl refl 0 (codes "k")

serve_all-answered_example :
    (serve toy settings config device (serve_all toy settings config (device ∷ agent ∷ []) site)).0
    ≢ none
unfolding find_route match_pieces has_prefix drop_text compare_text
serve_all-answered_example =
    serve_all-answered toy settings config (device ∷ agent ∷ []) device site upload
      ((codes "uploadKey", lower_key) ∷ []) (asks-IsReadable _ _, (agent-IsReadable, tt))
      (asks-IsReadable _ _) refl refl refl refl

-- The key of the device leads to a download key of 64 digits, not to "k".
lower_key-IsForeign : IsForeign toy settings (codes "k") lower_key
lower_key-IsForeign e = omega (
  arith,
  ap text_length (sym (authorised_of_valid toy_platform lower_key lower_key-valid) ∙ e),
  length-encode_to_string (toy_platform.sum256 (strip_upload_prefix lower_key)),
  toy_platform.length-sum256 (strip_upload_prefix lower_key),
)
  where
    text_length : Result Text → ℕ
    text_length (ok t) = length t
    text_length _ = 0

abbrev key_taken : Option (Endpoint × Vars) → Text
key_taken none = []
key_taken (some (place, vars)) = var_of (codes "uploadKey") vars

device-RequestIsForeign : RequestIsForeign toy settings (codes "k") device
unfolding find_route match_pieces has_prefix drop_text compare_text
device-RequestIsForeign = (
  λ place vars e. subst (IsForeign toy settings (codes "k")) (ap key_taken e) lower_key-IsForeign,
  tt,
)

serve_all-foreign_example :
    get_json toy_badger ReadRun.completes 0
      (codes "k")
      (serve_all toy settings config (device ∷ device ∷ []) site).rest.storage
    ≡ get_json toy_badger ReadRun.completes 0 (codes "k") site.rest.storage
serve_all-foreign_example =
    serve_all-foreign toy settings (codes "k") config (device ∷ device ∷ []) site 0
      (device-RequestIsForeign, (device-RequestIsForeign, tt))

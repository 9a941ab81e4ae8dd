-- ===== src/Handlers.antt =====
-- httphandler: the handlers of the REST interface over the service and its counters. The variables
-- of a route are arguments. A handler whose reply is `none` panics.
pub mod Counters
pub mod Readers
pub mod Inert
pub mod Tests
use iot_ephemeral_value_stor.Base.{
  ℕ, Bool, true, false, Option, none, some, List, [], ◌∷◌, ◌++◌, map, Text, codes, if◌then◌else◌,
  is_empty, contains, Result, ok, err, panic, error_text, Error,
}
use iot_ephemeral_value_stor.Json.{Value, Fields, str, end, insert, null, bool, number, arr, obj}
use iot_ephemeral_value_stor.Domain.{Platform, add_upload_prefix, add_download_prefix}
use iot_ephemeral_value_stor.Data.{traverse_field}
use iot_ephemeral_value_stor.Codec.{Codec}
use iot_ephemeral_value_stor.Stats.{
  Stats, increment_downloads, increment_uploads, increment_http_errors,
}
use iot_ephemeral_value_stor.Storage.{Badger, StorageInstance}
use iot_ephemeral_value_stor.Service.{
  Run, Params, readable, upload, patch, delete, download_json, generate_key_pair,
}
use iot_ephemeral_value_stor.Http.{
  Reply, Request, text_body, raw_body, line_body, page_body, http_error, json_response,
  collect_params, add_timestamp_to_this_data, construct_and_return_response, collect_all_paths,
  sort_texts,
}

-- One visit of a handler: the calls of the service, and what the other clocks read.
pub record Visit : Type 0 where
  pub run : Run
  pub key_time : ℕ
  pub time : ℕ
  pub counted_at : ℕ

-- Packages base64, net/url and html/template: the decoders of the standard and the URL alphabet, the
-- standard one without padding, the escaping of a path, and the page of a key and its fields, which
-- is `none` where the template fails.
pub record Web : Type 0 where
  pub std_encoding : Text → Option Text
  pub url_encoding : Text → Option Text
  pub raw_std_encoding : Text → Option Text
  pub path_escape : Text → Text
  pub download_page : Text → List (Text × Text) → Option Text

abbrev pub decode_base64_url : Web → Text → Option Text
decode_base64_url web encoded = elim (web.std_encoding encoded) [
  | some decoded ↦ some decoded
  | none ↦ elim (web.url_encoding encoded) [
    | some decoded ↦ some decoded
    | none ↦ web.raw_std_encoding encoded
  ]
]

-- What a reader's handler does with the counters: an error counts, an answer counts as a download.
-- `late` is an error after the download was counted.
pub data Outcome : Type 0 where
  answers : Reply → Outcome
  fails : ℕ → Text → Outcome
  fails_late : ℕ → Text → Outcome
  panics : Outcome

unfoldable pub settle : ℕ → Stats → Outcome → Option Reply × Stats
settle t stats (answers reply) = (some reply, increment_downloads t stats)
settle t stats (fails status message) =
    (some (http_error status message), increment_http_errors t stats)
settle t stats (fails_late status message) =
    (some (http_error status message), increment_http_errors t (increment_downloads t stats))
settle t stats panics = (none, stats)

-- The answer of the plain and the base64 handler to the value of the parameter. Only a string has
-- a decoding: the type assertion panics on any other value.
abbrev pub plain_reply : Value → Outcome
plain_reply v =
    answers (record { status = 200; content_type = codes "text/plain"; body = line_body v })

unfoldable pub value_outcome : Web → Bool → Value → Outcome
value_outcome web false v = plain_reply v
value_outcome web true (str encoded) = elim (decode_base64_url web encoded) [
  | none ↦ fails 500 (codes "Error decoding base64url")
  | some decoded ↦ plain_reply (str decoded)
]
value_outcome web true _ = panics

abbrev pub field_outcome : Web → Bool → Result Value → Outcome
field_outcome web base64mode (ok v) = value_outcome web base64mode v
field_outcome web base64mode (err e) =
    if contains (error_text e) (codes "not found")
    then fails 404 (codes "Parameter not found")
    else fails 400 (codes "Invalid parameter path")
field_outcome web base64mode panic = panics

abbrev pub page_outcome : Web → Text → Fields → Outcome
page_outcome web download_key param_map =
    let paths = sort_texts (collect_all_paths param_map []) in
    elim (web.download_page download_key (map (λ path. (web.path_escape path, path)) paths)) [
      | none ↦ fails_late 500 (codes "Error rendering template")
      | some page ↦ answers (record {
        status = 200;
        content_type = codes "text/html; charset=utf-8";
        body = page_body page;
      })
    ]

-- What follows the reading of the JSON, and its decoding into a map.
abbrev pub with_json : (Text → Outcome) → Result Text → Outcome
with_json answer (ok json_data) = answer json_data
with_json answer (err e) = fails 404 (codes "Invalid download key or database error")
with_json answer panic = panics

abbrev pub with_map : (Fields → Outcome) → Result (Option Fields) → Outcome
with_map answer (ok param_map) = answer (readable param_map)
with_map answer (err e) = fails 500 (codes "Error decoding JSON")
with_map answer panic = panics

module _ (platform : Platform) (badger : Badger) (codec : Codec) where
  pub record Server : Type 0 where
    pub storage : StorageInstance badger
    pub stats : Stats

  abbrev pub Handler : Type 0
  Handler = Server → Option Reply × Server

  -- A handler that reads: it changes the counters only.
  abbrev pub reading : ℕ → (StorageInstance badger → Outcome) → Handler
  reading t outcome sv =
      let r = settle t sv.stats (outcome sv.storage) in (r.0, record sv { stats = r.1 })

  unfoldable pub plain_outcome : Web → Bool → Run → Text → Text → StorageInstance badger → Outcome
  plain_outcome web base64mode run download_key param s =
      with_json
        (λ json_data.
          with_map (λ m. field_outcome web base64mode (traverse_field m param))
            (codec.unmarshal json_data))
        (download_json platform badger codec run download_key s)

  unfoldable pub download_plain_handler : Web → Bool → Visit → Text → Text → Handler
  unfolding settle plain_outcome
  download_plain_handler web base64mode visit download_key param =
      reading visit.counted_at (plain_outcome web base64mode visit.run download_key param)

  unfoldable pub json_outcome : Run → Text → StorageInstance badger → Outcome
  json_outcome run download_key s =
      with_json
        (λ json_data. answers (record {
          status = 200;
          content_type = codes "application/json";
          body = raw_body json_data;
        }))
        (download_json platform badger codec run download_key s)

  unfoldable pub download_json_handler : Visit → Text → Handler
  unfolding settle json_outcome
  download_json_handler visit download_key =
      reading visit.counted_at (json_outcome visit.run download_key)

  unfoldable pub root_outcome : Web → Run → Text → StorageInstance badger → Outcome
  root_outcome web run download_key s =
      with_json (λ json_data. with_map (page_outcome web download_key) (codec.unmarshal json_data))
        (download_json platform badger codec run download_key s)

  unfoldable pub download_root_handler : Web → Visit → Text → Handler
  unfolding settle root_outcome
  download_root_handler web visit download_key =
      reading visit.counted_at (root_outcome web visit.run download_key)

  -- The end of handleUpload: the reply and the counters.
  unfoldable pub upload_reply :
      ℕ → Request → Params → Stats → Result (Text × Fields) → Option Reply × Stats
  upload_reply t r params stats (ok (download_key, _)) =
      (some (construct_and_return_response r download_key params), increment_uploads t stats)
  upload_reply t r params stats (err e) =
      (some (http_error 400 (error_text e)), increment_http_errors t stats)
  upload_reply t r params stats panic = (none, stats)

  abbrev pub request_params : Visit → Request → Text → Params
  request_params visit r path =
      add_timestamp_to_this_data (platform.rfc3339 visit.key_time) (platform.rfc3339 visit.time)
        (collect_params r.query) path

  unfoldable pub handle_upload : Visit → Request → Text → Text → Bool → Handler
  unfolding upload_reply
  handle_upload visit r upload_key path is_patch sv =
      let params = request_params visit r path in
      let (result, s') =
        if is_patch
        then patch platform badger codec visit.run upload_key path params sv.storage
        else upload platform badger codec visit.run upload_key params sv.storage in
      let (reply, stats') = upload_reply visit.counted_at r params sv.stats result in
      (reply, record { storage = s'; stats = stats' })

  unfoldable pub upload_handler : Visit → Request → Text → Handler
  unfolding handle_upload
  upload_handler visit r upload_key = handle_upload visit r upload_key [] false

  unfoldable pub upload_and_patch_handler : Visit → Request → Text → Text → Handler
  unfolding handle_upload
  upload_and_patch_handler visit r upload_key path = handle_upload visit r upload_key path true

  unfoldable pub delete_reply : ℕ → Stats → Result Text → Option Reply × Stats
  delete_reply t stats (ok _) = (
    some (record { status = 200; content_type = []; body = text_body (codes "OK" ++ 10 ∷ []) }),
    stats,
  )
  delete_reply t stats (err e) =
      (some (http_error 500 (error_text e)), increment_http_errors t stats)
  delete_reply t stats panic = (none, stats)

  unfoldable pub delete_handler : Visit → Text → Handler
  unfolding delete_reply
  delete_handler visit upload_key sv =
      let (result, s') = delete platform badger codec visit.run upload_key sv.storage in
      let (reply, stats') = delete_reply visit.counted_at sv.stats result in
      (reply, record { storage = s'; stats = stats' })

  unfoldable pub pair_reply : ℕ → Stats → Result (Text × Text) → Option Reply × Stats
  pair_reply t stats (ok (upload_key, download_key)) = (
    some (
        json_response (
          insert (codes "upload-key") (str (add_upload_prefix upload_key))
            (insert (codes "download-key") (str (add_download_prefix download_key)) end))),
    stats,
  )
  pair_reply t stats (err e) =
      (some (http_error 500 (codes "Error generating key pair")), increment_http_errors t stats)
  pair_reply t stats panic = (none, stats)

  -- `none` is the end of the process, where no random bytes are to be had.
  unfoldable pub key_pair_handler : Visit → Option Text → Server → Option (Option Reply × Server)
  unfolding pair_reply
  key_pair_handler visit random_bytes sv = elim (generate_key_pair platform random_bytes) [
    | none ↦ none
    | some pair ↦
        let r = pair_reply visit.counted_at sv.stats pair in some (r.0, record sv { stats = r.1 })
  ]

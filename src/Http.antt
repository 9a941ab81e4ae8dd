-- ===== src/Http.antt =====
-- httphandler/utils.go, datahandling.go, and the replies and paths of uploadHandler.go and
-- downloadHandler.go: what the handlers of the REST interface make of texts and maps.
pub mod Input
pub mod Listing
pub mod Complete
pub mod Tests
use Prim.Native.Nat.{Ordering}
use iot_ephemeral_value_stor.Base.{
  ℕ, ◌+◌, Bool, true, false, Option, none, some, List, [], ◌∷◌, ◌++◌, map, Text, codes, ◌==◌,
  if◌then◌else◌, is_empty, contains, Result, ok, err, panic, error_text, Error, leb, compare_text,
  ltb, text_eq,
}
use iot_ephemeral_value_stor.Json.{
  Value, Fields, str, end, field, insert, obj, null, bool, number, arr,
}
use iot_ephemeral_value_stor.Domain.{Platform, add_upload_prefix, add_download_prefix}
use iot_ephemeral_value_stor.Data.{traverse_field}
use iot_ephemeral_value_stor.Codec.{Codec}
use iot_ephemeral_value_stor.Stats.{
  Stats, increment_downloads, increment_uploads, increment_http_errors,
}
use iot_ephemeral_value_stor.Storage.{Badger, StorageInstance}
use iot_ephemeral_value_stor.Service.{
  Run, Params, timestamp, readable, upload, patch, delete, download_json, generate_key_pair,
}

-- What a handler writes: a text, the encoding of a map, stored JSON, a page, or the line that
-- fmt.Fprintln makes of a value.
pub data Body : Type 0 where
  text_body : Text → Body
  json_body : Fields → Body
  raw_body : Text → Body
  page_body : Text → Body
  line_body : Value → Body

pub record Reply : Type 0 where
  pub status : ℕ
  pub content_type : Text
  pub body : Body

-- `http.Error`
abbrev pub http_error : ℕ → Text → Reply
http_error status message = record {
  status = status;
  content_type = codes "text/plain; charset=utf-8";
  body = text_body (message ++ 10 ∷ []);
}

unfoldable pub json_response : Fields → Reply
json_response m = record {
  status = 200;
  content_type = codes "application/json";
  body = json_body m;
}

-- `html.EscapeString`
abbrev pub escape_byte : ℕ → Text
escape_byte c =
    if c == b'&'
    then codes "&amp;"
    else if c == 39
    then codes "&#39;"
    else if c == b'<'
    then codes "&lt;"
    else if c == b'>'
    then codes "&gt;"
    else if c == 34
    then codes "&#34;"
    else c ∷ []

unfoldable pub sanitize_input : Text → Text
sanitize_input [] = []
sanitize_input (c ∷ input) = escape_byte c ++ sanitize_input input

-- The first value of each parameter of the query.
unfoldable pub collect_params : List (Text × List Text) → Params
collect_params [] = []
collect_params ((key, []) ∷ params) = collect_params params
collect_params ((key, value ∷ _) ∷ params) = (key, sanitize_input value) ∷ collect_params params

abbrev pub timestamp_suffix : Text
timestamp_suffix = codes "_timestamp"

abbrev pub key_stamps : Text → Params → Params
key_stamps now [] = []
key_stamps now ((key, value) ∷ params) = (key ++ timestamp_suffix, now) ∷ key_stamps now params

-- The two texts are the formatted times of the two readings of the clock. A later entry of a key
-- hides an earlier one, as an assignment does.
unfoldable pub add_timestamp_to_this_data : Text → Text → Params → Text → Params
add_timestamp_to_this_data key_time time params path =
    (if is_empty path then params ++ key_stamps key_time params else params)
    ++ (timestamp, time) ∷ []

pub record Request : Type 0 where
  pub host : Text
  pub tls : Bool
  pub query : List (Text × List Text)

abbrev pub server_url : Request → Text
server_url r = (if r.tls then codes "https" else codes "http") ++ codes "://" ++ r.host

unfoldable pub parameter_urls : Text → Params → Fields → Fields
parameter_urls base [] urls = urls
parameter_urls base ((key, value) ∷ params) urls =
    parameter_urls base params (insert key (str (base ++ codes "/plain/" ++ key)) urls)

unfoldable pub construct_and_return_response : Request → Text → Params → Reply
unfolding json_response parameter_urls insert
construct_and_return_response r download_key params =
    let base : Text = server_url r ++ codes "/d/" ++ download_key in
    json_response (
      insert (codes "message") (str (codes "Data uploaded successfully")) (
        insert (codes "download_url") (str (base ++ codes "/json"))
          (insert (codes "parameter_urls") (obj (parameter_urls base params end)) end)))

-- The paths of a document's leaves, under a prefix.
abbrev pub current_path : Text → Text → Text
current_path prefix key = if is_empty prefix then key else prefix ++ b'/' ∷ key

unfoldable pub collect_all_paths : Fields → Text → List Text
collect_all_paths end prefix = []
collect_all_paths (field key (obj nested) m) prefix =
    collect_all_paths nested (current_path prefix key) ++ collect_all_paths m prefix
collect_all_paths (field key _ m) prefix = current_path prefix key ∷ collect_all_paths m prefix

-- `sort.Strings`
abbrev before : Text → Text → Bool
before t u = elim (compare_text t u) [ Ordering.gt ↦ false | _ ↦ true ]

unfoldable pub insert_text : Text → List Text → List Text
insert_text t [] = t ∷ []
insert_text t (u ∷ us) = if before t u then t ∷ u ∷ us else u ∷ insert_text t us

unfoldable pub sort_texts : List Text → List Text
unfolding insert_text
sort_texts [] = []
sort_texts (t ∷ ts) = insert_text t (sort_texts ts)

-- ===== src/Mcp.antt =====
-- mcphandler/tools.go: the five tools of the MCP interface over the service and its counters. The
-- first argument of a tool is the context's error when it is called. The parameters of an upload
-- are a decoded map, in which no key stands twice. A tool whose result is `panic` panics.
pub mod Counters
pub mod Readers
pub mod Server
pub mod Tests
use iot_ephemeral_value_stor.Base.{
  ℕ, Bool, Option, none, some, List, [], ◌∷◌, ◌++◌, true, Text, codes, length, decimal, is_empty,
  if◌then◌else◌, Cause, Error, wrap, context_done, encoding_error, Result, ok, err, panic,
}
use iot_ephemeral_value_stor.Json.{Value, Fields, null, bool, number, str, obj, end, insert}
use iot_ephemeral_value_stor.Domain.{Platform, add_upload_prefix, add_download_prefix}
use iot_ephemeral_value_stor.Codec.{Codec}
use iot_ephemeral_value_stor.Stats.{
  Stats, increment_downloads, increment_uploads, increment_http_errors,
}
use iot_ephemeral_value_stor.Storage.{Badger, StorageInstance}
use iot_ephemeral_value_stor.Service.{
  Run, Params, wrapped, readable, upload, patch, delete, download_json, download_field,
  generate_key_pair,
}

-- What a tool counts.
pub data Counts : Type 0 where
  an_upload a_download nothing : Counts

abbrev pub count : Counts → ℕ → Stats → Stats
count an_upload t stats = increment_uploads t stats
count a_download t stats = increment_downloads t stats
count nothing t stats = stats

-- `json.MarshalIndent` is the parameter.
unfoldable pub tool_result : (Fields → Option Text) → Fields → Result Text
tool_result marshal_indent fields = elim (marshal_indent fields) [
  | none ↦ err (wrap (codes "error marshaling result") encoding_error)
  | some result ↦ ok result
]

-- The end of a tool: a failed call of the service counts as an error, a successful one as what the
-- tool does, and then the result is made.
unfoldable pub finish {ℓ} :
    {A : Type ℓ}
    → (Fields → Option Text)
    → Counts
    → (A → Fields)
    → ℕ
    → Stats
    → Result A
    → Result Text × Stats
unfolding tool_result
finish marshal_indent counts answer t stats (ok a) =
    (tool_result marshal_indent (answer a), count counts t stats)
finish marshal_indent counts answer t stats (err e) = (err e, increment_http_errors t stats)
finish marshal_indent counts answer t stats panic = (panic, stats)

-- `map[string]interface{}{…}` of a message and what goes with it.
abbrev pub message : Text → Fields → Fields
message text fields = insert (codes "message") (str text) fields

abbrev pub parameter_count : Params → Value
parameter_count params = number (decimal (length params))

abbrev pub pair_answer : Text × Text → Fields
pair_answer pair = insert (codes "upload_key") (str (add_upload_prefix pair.0)) (
    insert (codes "download_key") (str (add_download_prefix pair.1)) (
      message
        (codes
          "Key pair generated successfully. Use the upload key to store data and the download key to retrieve it. The upload key must be kept secret.")
        end))

abbrev pub upload_answer : Params → Text × Fields → Fields
upload_answer params stored = message (codes "Data uploaded successfully") (
    insert (codes "download_key") (str (add_download_prefix stored.0))
      (insert (codes "parameter_count") (parameter_count params) end))

abbrev pub patch_answer : Text → Params → Text × Fields → Fields
patch_answer path params stored = message (codes "Data merged successfully") (
    insert (codes "download_key") (str (add_download_prefix stored.0)) (
      insert (codes "path") (str path)
        (insert (codes "parameter_count") (parameter_count params) end)))

abbrev pub json_answer : Option Fields → Fields
json_answer none = message (codes "Retrieved all data as JSON") (insert (codes "data") null end)
json_answer (some m) =
    message (codes "Retrieved all data as JSON") (insert (codes "data") (obj m) end)

abbrev pub field_answer : Text → Value → Fields
field_answer parameter v =
    message (codes "Retrieved parameter '" ++ parameter ++ codes "'")
      (insert (codes "data") v (insert (codes "parameter") (str parameter) end))

abbrev pub delete_answer : Bool → Fields
delete_answer success =
    message (codes "Data deleted successfully") (insert (codes "success") (bool success) end)

-- The decoding that follows the reading of the JSON.
abbrev pub decoded : Codec → Result Text → Result (Option Fields)
decoded codec (ok json_data) = wrapped (codes "error decoding JSON") (codec.unmarshal json_data)
decoded codec (err e) = err e
decoded codec panic = panic

-- Which tool is called, and with what.
pub data Call : Type 0 where
  generate_key_pair_call : Option Text → Call
  upload_data : Text → Params → Call
  patch_data : Text → Text → Params → Call
  download_data : Text → Text → Call
  delete_data : Text → Call

module _ (platform : Platform) (badger : Badger) (codec : Codec)
    (marshal_indent : Fields → Option Text) where
  pub record Host : Type 0 where
    pub storage : StorageInstance badger
    pub stats : Stats

  -- A tool that writes, and one that reads.
  abbrev pub writing {ℓ} :
      {A : Type ℓ}
      → Counts
      → (A → Fields)
      → ℕ
      → Stats
      → Result A × StorageInstance badger
      → Result Text × Host
  writing counts answer t stats (result, s') =
      let x = finish marshal_indent counts answer t stats result in
      (x.0, record { storage = s'; stats = x.1 })

  unfoldable pub upload_data_handler : Run → ℕ → Text → Params → Host → Result Text × Host
  unfolding finish insert decimal
  upload_data_handler run t upload_key params h =
      writing an_upload (upload_answer params) t h.stats
        (upload platform badger codec run upload_key params h.storage)

  unfoldable pub patch_data_handler : Run → ℕ → Text → Text → Params → Host → Result Text × Host
  unfolding finish insert decimal
  patch_data_handler run t upload_key path params h =
      writing an_upload (patch_answer path params) t h.stats
        (patch platform badger codec run upload_key path params h.storage)

  unfoldable pub download_data_handler : Run → ℕ → Text → Text → Host → Result Text × Host
  unfolding finish insert
  download_data_handler run t download_key parameter h =
      if is_empty parameter
      then writing a_download json_answer t h.stats (
        decoded codec (download_json platform badger codec run download_key h.storage),
        h.storage,
      )
      else writing a_download (field_answer parameter) t h.stats
          (download_field platform badger codec run download_key parameter h.storage, h.storage)

  unfoldable pub delete_data_handler : Run → ℕ → Text → Host → Result Text × Host
  unfolding finish insert
  delete_data_handler run t upload_key h =
      writing nothing (λ _. delete_answer true) t h.stats
        (delete platform badger codec run upload_key h.storage)

  -- `none` is the end of the process, where no random bytes are to be had.
  unfoldable pub generate_key_pair_handler : ℕ → Option Text → Host → Option (Result Text × Host)
  unfolding finish insert
  generate_key_pair_handler t random_bytes h = elim (generate_key_pair platform random_bytes) [
    | none ↦ none
    | some pair ↦ some (writing nothing pair_answer t h.stats (pair, h.storage))
  ]

  abbrev pub dispatched : Run → ℕ → Call → Host → Option (Result Text × Host)
  dispatched run t (generate_key_pair_call random_bytes) h =
      generate_key_pair_handler t random_bytes h
  dispatched run t (upload_data upload_key params) h =
      some (upload_data_handler run t upload_key params h)
  dispatched run t (patch_data upload_key path params) h =
      some (patch_data_handler run t upload_key path params h)
  dispatched run t (download_data download_key parameter) h =
      some (download_data_handler run t download_key parameter h)
  dispatched run t (delete_data upload_key) h = some (delete_data_handler run t upload_key h)

  -- Every tool begins with the test of its context.
  unfoldable pub call_tool : Option Cause → Run → ℕ → Call → Host → Option (Result Text × Host)
  unfolding upload_data_handler patch_data_handler download_data_handler delete_data_handler
      generate_key_pair_handler
  call_tool (some c) run t call h = some (err (context_done c), h)
  call_tool none run t call h = dispatched run t call h

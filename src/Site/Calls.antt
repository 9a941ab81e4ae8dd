-- ===== src/Site/Calls.antt =====
-- What tool calls keep: a property of the storage that the operations of the service keep which they
-- may perform.
use iot_ephemeral_value_stor.Base.{
  ℕ, Bool, true, false, Option, none, some, List, [], ◌∷◌, Text, All, Result, if◌then◌else◌,
  is_empty, Cause,
}
use iot_ephemeral_value_stor.Storage.{StorageInstance}
use iot_ephemeral_value_stor.Service.{Run, generate_key_pair, download_field}
use iot_ephemeral_value_stor.Service
use iot_ephemeral_value_stor.Service.Spec.{Op, uploads, patches, removes, perform}
use iot_ephemeral_value_stor.Mcp.{
  Call, generate_key_pair_call, upload_data, patch_data, download_data, delete_data, call_tool,
  dispatched, writing, nothing, a_download, pair_answer, json_answer, field_answer, decoded,
  generate_key_pair_handler, upload_data_handler, patch_data_handler, download_data_handler,
  delete_data_handler,
}
use iot_ephemeral_value_stor.Site.{Outside, Settings, ToolCall}
use iot_ephemeral_value_stor.Site.Serving.{run_calls, McpHost}

module _ (out : Outside) (settings : Settings) (P : StorageInstance out.badger → Type 1)
    (May : Op → Type 0)
    (keeps : (op : Op) (s : StorageInstance out.badger)
      → May op
      → P s
      → P (perform out.platform out.badger out.codec op s).1) where
  abbrev pub CallMay : Run → Call → Type 0
  CallMay run (upload_data key params) = May (uploads run key params)
  CallMay run (patch_data key path params) = May (patches run key path params)
  CallMay run (delete_data key) = May (removes run key)
  CallMay run _ = Unit

  abbrev pub ToolCallMay : ToolCall → Type 0
  ToolCallMay c = CallMay c.run c.call

  abbrev CallLeaves : Option (Result Text × McpHost out settings) → Type 1
  CallLeaves none = Unit
  CallLeaves (some (result, h)) = P h.storage

  pair_call :
      (t : ℕ) (random_bytes : Option Text) (h : McpHost out settings)
      → P h.storage
      → CallLeaves (
          generate_key_pair_handler out.platform out.badger out.codec out.marshal_indent t
            random_bytes h)
  unfolding generate_key_pair_handler
  pair_call t random_bytes h reached = of_pair (generate_key_pair out.platform random_bytes)
    where
      of_pair :
          (o : Option (Result (Text × Text)))
          → CallLeaves (elim o [
            | none ↦ none
            | some pair ↦ some (
                writing out.platform out.badger out.codec out.marshal_indent nothing pair_answer t
                  h.stats
                  (pair, h.storage))
          ])
      of_pair none = tt
      of_pair (some pair) = reached

  dispatched-CallLeaves :
      (run : Run) (t : ℕ) (c : Call) (h : McpHost out settings)
      → CallMay run c
      → P h.storage
      → CallLeaves (dispatched out.platform out.badger out.codec out.marshal_indent run t c h)
  unfolding upload_data_handler patch_data_handler download_data_handler delete_data_handler
  dispatched-CallLeaves run t (generate_key_pair_call random_bytes) h v reached =
      pair_call t random_bytes h reached
  dispatched-CallLeaves run t (upload_data key params) h v reached =
      keeps (uploads run key params) h.storage v reached
  dispatched-CallLeaves run t (patch_data key path params) h v reached =
      keeps (patches run key path params) h.storage v reached
  dispatched-CallLeaves run t (download_data key parameter) h v reached =
      by_parameter (is_empty parameter)
    where
      by_parameter :
          (whole : Bool)
          → CallLeaves (
              some (
                if whole
                then writing out.platform out.badger out.codec out.marshal_indent a_download
                    json_answer t h.stats
                    (
                      decoded out.codec (
                          Service.download_json out.platform out.badger out.codec run key
                            h.storage),
                      h.storage,
                    )
                else writing out.platform out.badger out.codec out.marshal_indent a_download
                    (field_answer parameter)
                    t
                    h.stats
                    (
                      download_field out.platform out.badger out.codec run key parameter h.storage,
                      h.storage,
                    )))
      by_parameter true = reached
      by_parameter false = reached
  dispatched-CallLeaves run t (delete_data key) h v reached =
      keeps (removes run key) h.storage v reached

  call-CallLeaves :
      (cause : Option Cause) (run : Run) (t : ℕ) (c : Call) (h : McpHost out settings)
      → CallMay run c
      → P h.storage
      → CallLeaves (call_tool out.platform out.badger out.codec out.marshal_indent cause run t c h)
  unfolding call_tool
  call-CallLeaves (some x) run t c h v reached = reached
  call-CallLeaves none run t c h v reached = dispatched-CallLeaves run t c h v reached

  pub run_calls_keep :
      (calls : List ToolCall) (h : McpHost out settings)
      → All ToolCallMay calls
      → P h.storage
      → P (run_calls out settings calls h).1.storage
  unfolding run_calls
  run_calls_keep [] h v reached = reached
  run_calls_keep (c ∷ calls) h v reached =
      by_call
        (call_tool out.platform out.badger out.codec out.marshal_indent c.cause c.run c.counted_at
          c.call h)
        (call-CallLeaves c.cause c.run c.counted_at c.call h v.0 reached)
        (λ h' left. run_calls_keep calls h' v.1 left)
    where
      by_call :
          (o : Option (Result Text × McpHost out settings))
          → CallLeaves o
          → ((h' : McpHost out settings)
              → P h'.storage
              → P (run_calls out settings calls h').1.storage)
          → P
              (elim o as (λ _. List (Option (Result Text)) × McpHost out settings) [
                | none ↦ (none ∷ [], h)
                | some (result, h') ↦
                    let (results, h'') = run_calls out settings calls h' in
                    (some result ∷ results, h'')
              ]).1.storage
      by_call none left rest = reached
      by_call (some (result, h')) left rest = rest h' left

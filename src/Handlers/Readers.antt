-- ===== src/Handlers/Readers.antt =====
-- A visitor who reads what another has uploaded.
use iot_ephemeral_value_stor.Base.{
  ◌+◌, ◌≤◌, ◌≡◌, refl, ap, ◌∙◌, ◌≢◌, false, some, Text, [], ◌++◌, codes, ok, LacksByte, text_eq_ne,
}
use iot_ephemeral_value_stor.Json.{str}
use iot_ephemeral_value_stor.Domain.{Platform, validate_upload_key}
use iot_ephemeral_value_stor.Data.{traverse_field}
use iot_ephemeral_value_stor.Codec.{Codec}
use iot_ephemeral_value_stor.Stats.{increment_downloads}
use iot_ephemeral_value_stor.Storage.{Badger, second, ReadRun, WriteRun}
use iot_ephemeral_value_stor.Service.{timestamp, uploaded, upload}
use iot_ephemeral_value_stor.Service.Params.{AreValid, value_of}
use iot_ephemeral_value_stor.Service.Rejects.{download_key_of}
use iot_ephemeral_value_stor.Service.Upload.{
  found, traverse_field_of_name, lookup-uploaded, download_json-upload,
}
use iot_ephemeral_value_stor.Http.{Request, line_body, collect_params, timestamp_suffix}
use iot_ephemeral_value_stor.Http.Input.{add_timestamp_to_this_data-kept}
use iot_ephemeral_value_stor.Handlers.{
  Visit, Web, Server, request_params, upload_handler, download_plain_handler, plain_outcome, settle,
  value_outcome, plain_reply, field_outcome,
}

module _ (platform : Platform) (badger : Badger) (codec : Codec) (web : Web) (visit later : Visit)
    (r : Request) (key : Text) (sv : Server platform badger codec) where
  -- What the upload handler stores for a parameter that is no time stamp.
  field-uploaded :
      (name v : Text)
      → LacksByte b'/' name
      → timestamp ≢ name
      → ((k : Text) → k ++ timestamp_suffix ≢ name)
      → value_of name (collect_params r.query) ≡ some v
      → traverse_field
          (uploaded platform visit.run.now (request_params platform badger codec visit r []))
          name
        ≡ ok (str v)
  field-uploaded name v slash_free no_stamp no_suffix given =
      traverse_field_of_name
        (uploaded platform visit.run.now (request_params platform badger codec visit r [])) name
        slash_free
      ∙ ap (found name) (
          lookup-uploaded platform codec visit.run.now
            (request_params platform badger codec visit r []) name)
      ∙ rw
          (
            text_eq_ne timestamp name no_stamp,
            add_timestamp_to_this_data-kept (platform.rfc3339 visit.key_time)
                (platform.rfc3339 visit.time) name [] (collect_params r.query) no_stamp no_suffix,
            given,
          )
          refl

  -- After an upload of valid UTF-8 by the REST interface with a valid key whose write completes,
  -- where the breaker is closed, the plain handler answers a reader whose read completes, while the
  -- time to live has a second to go, with 200 and the sanitized value of the parameter, and counts
  -- a download. The parameter's name has no slash, and is neither "timestamp" nor ends in
  -- "_timestamp".
  pub download_plain-upload :
      (name v : Text)
      → validate_upload_key platform key ≡ ok tt
      → AreValid codec.valid_text (request_params platform badger codec visit r [])
      → sv.storage.degraded ≡ 0
      → visit.run.write ≡ WriteRun.completes
      → later.run.read ≡ ReadRun.completes
      → later.run.read_at + second ≤ visit.run.write_at + sv.storage.persist_duration
      → LacksByte b'/' name
      → timestamp ≢ name
      → ((k : Text) → k ++ timestamp_suffix ≢ name)
      → value_of name (collect_params r.query) ≡ some v
      → let sv' = (upload_handler platform badger codec visit r key sv).1 in
        download_plain_handler platform badger codec web false later
          (download_key_of platform key)
          name
          sv'
        ≡ (
          some (record {
            status = 200;
            content_type = codes "text/plain";
            body = line_body (str v);
          }),
          record sv' { stats = increment_downloads later.counted_at sv'.stats },
        )
  unfolding upload_handler download_plain_handler plain_outcome settle value_outcome
  download_plain-upload name v valid plain up writes reads live slash_free no_stamp no_suffix
        given =
      let (b, there, decoded) =
        download_json-upload platform codec badger visit.run later.run key
          (request_params platform badger codec visit r []) sv.storage valid plain up writes reads
          live in
      let outcome : plain_outcome platform badger codec web false later.run
            (download_key_of platform key) name
            (upload platform badger codec visit.run key
              (request_params platform badger codec visit r []) sv.storage).1
          ≡ plain_reply (str v) =
        rw (plain_outcome, there, decoded)
          (ap (field_outcome web false)
            (field-uploaded name v slash_free no_stamp no_suffix given)) in
      ap
        (λ o.
          let sv' = (upload_handler platform badger codec visit r key sv).1 in
          let x = settle later.counted_at sv'.stats o in (x.0, record sv' { stats = x.1 }))
        outcome

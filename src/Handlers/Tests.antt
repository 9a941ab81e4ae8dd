-- ===== src/Handlers/Tests.antt =====
-- Visits of the handlers, and their theorems there.
use iot_ephemeral_value_stor.Base.{
  ap, length, length-append, text_eq_iff, arith, false, none, some, [], ◌∷◌, ◌++◌, Text, codes,
  compare_text, split,
}
use iot_ephemeral_value_stor.Json.{obj, end, lookup}
use iot_ephemeral_value_stor.Data.View.{get, target}
use iot_ephemeral_value_stor.Service.{timestamp, uploaded, patched}
use iot_ephemeral_value_stor.Handlers.Inert.{IsInertOrOld, stored-IsInert}
use iot_ephemeral_value_stor.Domain.Tests.{toy_platform, lower_key}
use iot_ephemeral_value_stor.Codec.Tests.{toy_codec}
use iot_ephemeral_value_stor.Stats.{new_stats, increment_downloads, increment_uploads}
use iot_ephemeral_value_stor.Storage.{ReadRun, WriteRun}
use iot_ephemeral_value_stor.Storage.Tests.{toy_badger, start}
use iot_ephemeral_value_stor.Http.{Request, timestamp_suffix}
use iot_ephemeral_value_stor.Handlers.{
  Visit, Web, Server, upload_handler, download_plain_handler, delete_handler, handle_upload,
  download_json_handler, request_params,
}
use iot_ephemeral_value_stor.Handlers.Counters.{Counted, handlers-Counted}

abbrev pub toy_web : Web
toy_web = record {
  std_encoding = λ t. none;
  url_encoding = λ t. none;
  raw_std_encoding = λ t. some t;
  path_escape = λ t. t;
  download_page = λ k ps. some k;
}

abbrev pub visit : Visit
visit = record {
  run = record {
    read = ReadRun.completes;
    read_at = 0;
    now = 0;
    write = WriteRun.completes;
    write_at = 0;
  };
  key_time = 0;
  time = 0;
  counted_at = 0;
}

abbrev pub request : Request
request = record { host = codes "h"; tls = false; query = (codes "temp", codes "<21>" ∷ []) ∷ [] }

abbrev server : Server toy_platform toy_badger toy_codec
server = record { storage = start; stats = new_stats 1 }

abbrev after_upload : Server toy_platform toy_badger toy_codec
after_upload = (upload_handler toy_platform toy_badger toy_codec visit request lower_key server).1

abbrev first_key : Text
first_key = codes "abc"

handlers-Counted_example :
    let up =
      handle_upload toy_platform toy_badger toy_codec visit request first_key [] false server in
    let del = delete_handler toy_platform toy_badger toy_codec visit first_key server in
    let plain =
      download_plain_handler toy_platform toy_badger toy_codec toy_web false visit first_key []
        server in
    let json = download_json_handler toy_platform toy_badger toy_codec visit first_key server in
    Counted (increment_uploads 0) 0 server.stats up.0 up.1.stats
    × Counted (λ s. s) 0 server.stats del.0 del.1.stats
    × Counted (increment_downloads 0) 0 server.stats plain.0 plain.1.stats
    × Counted (increment_downloads 0) 0 server.stats json.0 json.1.stats
handlers-Counted_example =
    handlers-Counted toy_platform toy_badger toy_codec toy_web visit request first_key [] false
      server

stored-IsInert_example :
    IsInertOrOld
      (lookup (codes "temp") (
        uploaded toy_platform 0
          (request_params toy_platform toy_badger toy_codec visit request [])))
      none
    × IsInertOrOld
        (get (target (codes "p") ++ codes "temp" ∷ []) (
          obj (
            patched toy_platform 0 end
              (codes "p")
              (request_params toy_platform toy_badger toy_codec visit request (codes "p")))))
        (get (target (codes "p") ++ codes "temp" ∷ []) (obj end))
unfolding compare_text split
stored-IsInert_example =
    stored-IsInert toy_platform toy_badger toy_codec visit request 0 end (codes "p") (codes "temp")
      (λ e. ground (arith, (text_eq_iff timestamp (codes "temp")).1 e))
      (λ k e. omega (arith, ap length e, length-append k timestamp_suffix))
      (λ e. ground (arith, (text_eq_iff timestamp (codes "p")).1 e))

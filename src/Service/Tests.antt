-- ===== src/Service/Tests.antt =====
-- Runs of the service, and its theorems there.
use iot_ephemeral_value_stor.Base.{
  ◌≡◌, refl, ◌*◌, List, [], ◌∷◌, Text, codes, arith, ok, err, wrap, Error, compare_text, replicate,
  text_eq_iff, split,
}
use iot_ephemeral_value_stor.Json.{str, end, field, insert}
use iot_ephemeral_value_stor.Domain.{strip_upload_prefix}
use iot_ephemeral_value_stor.Domain.Tests.{toy_platform, lower_key, lower_key-valid}
use iot_ephemeral_value_stor.Codec.Tests.{toy_codec}
use iot_ephemeral_value_stor.Storage.{StorageInstance, second, ReadRun, WriteRun, retrieve}
use iot_ephemeral_value_stor.Storage.Tests.{toy_badger, start}
use iot_ephemeral_value_stor.Service.{
  Run, Params, timestamp, patched, upload, patch, download_field, delete,
}
use iot_ephemeral_value_stor.Service.History.{Reached, starts, follows, uploads}
use iot_ephemeral_value_stor.Service.Spec
use iot_ephemeral_value_stor.Service.Spec.{Spec, Op, DoesAll, nothing_stored, perform_all}
use iot_ephemeral_value_stor.Service.Refines.{Refines}
use iot_ephemeral_value_stor.Service.Simulates.{perform_all-DoesAll}
use iot_ephemeral_value_stor.Service.Params.{value_of}
use iot_ephemeral_value_stor.Service.Rejects.{download_key_of}
use iot_ephemeral_value_stor.Service.Malformed.{malformed_key_rejected}
use iot_ephemeral_value_stor.Service.Patch.{patched-timestamp, download_field-patch}

abbrev pub at_once : Run
at_once = record {
  read = ReadRun.completes;
  read_at = 0;
  now = 0;
  write = WriteRun.completes;
  write_at = 0;
}

abbrev pub readings : Params
readings = (codes "temp", codes "21") ∷ []

abbrev pub down_key : Text
down_key = download_key_of toy_platform lower_key

abbrev stamp : Text
stamp = replicate 20 b'0'

malformed_key_rejected_example :
    (e : Error) × (upload toy_platform toy_badger toy_codec at_once (codes "abc") readings start
      ≡ (err (wrap (codes "invalid upload key") e), start))
    × (patch toy_platform toy_badger toy_codec at_once (codes "abc") (codes "p") readings start
        ≡ (err (wrap (codes "invalid upload key") e), start))
    × (delete toy_platform toy_badger toy_codec at_once (codes "abc") start
        ≡ (err (wrap (codes "invalid upload key") e), start))
unfolding strip_upload_prefix
malformed_key_rejected_example =
    malformed_key_rejected toy_platform toy_badger toy_codec at_once (codes "abc") (codes "p")
      readings start (λ h. omega (arith, h.0))

patched-timestamp_example :
    patched toy_platform 0 end (codes "timestamp/p") readings ≡ field timestamp (str stamp) end
unfolding insert split
patched-timestamp_example = patched-timestamp toy_platform 0 end (codes "timestamp/p") readings refl

download_field-patch_example :
    download_field toy_platform toy_badger toy_codec at_once down_key
      (codes "p/temp")
      (patch toy_platform toy_badger toy_codec at_once lower_key (codes "p") readings start).1
    ≡ ok (str (codes "21"))
unfolding retrieve value_of compare_text split
download_field-patch_example =
    download_field-patch toy_platform toy_badger toy_codec at_once lower_key (codes "p") readings
      end start at_once (codes "temp") (codes "21") lower_key-valid (refl, omega arith)
      ((refl, refl), tt) tt tt refl refl refl refl (omega arith) refl (omega arith)
      (λ e. ground (arith, (text_eq_iff timestamp (codes "p")).1 e))

-- An upload whose caller is timed out.
abbrev slow : Run
slow = record at_once { write = WriteRun.times_out }

abbrev waiting : StorageInstance toy_badger
waiting = (upload toy_platform toy_badger toy_codec slow lower_key readings start).1

Reached-waiting : Reached toy_platform toy_badger toy_codec waiting
Reached-waiting = follows (starts refl refl) (uploads slow lower_key readings ((refl, refl), tt))

abbrev some_ops : List Op
some_ops =
    Spec.uploads at_once lower_key readings
    ∷ Spec.patches at_once lower_key (codes "p") readings
    ∷ Spec.removes at_once (codes "abc")
    ∷ []

perform_all-DoesAll_example :
    (spec : Spec) × DoesAll toy_platform
      (60 * second)
      nothing_stored
      some_ops
      (perform_all toy_platform toy_badger toy_codec some_ops start).0
      spec
    × Refines toy_platform toy_badger toy_codec
        (60 * second)
        spec
        (perform_all toy_platform toy_badger toy_codec some_ops start).1
unfolding split
perform_all-DoesAll_example =
    perform_all-DoesAll toy_platform toy_badger toy_codec (60 * second) some_ops start
      (
        (refl, ((refl, refl), tt)),
        ((refl, refl, (refl, omega arith), ((refl, refl), tt)), (refl, tt)),
      )
      refl refl refl

-- ===== src/Service/Rejects.antt =====
-- Calls that fail.
use iot_ephemeral_value_stor.Base.{◌≡◌, refl, ap, ◌∙◌, Text, codes, ok, err, wrap, Error}
use iot_ephemeral_value_stor.Hex.{encode_to_string}
use iot_ephemeral_value_stor.Domain.{
  Platform, strip_upload_prefix, strip_download_prefix, validate_upload_key,
}
use iot_ephemeral_value_stor.Domain.Derive.{
  derive_download_key_of_valid, strip_download_prefix-derive_download_key,
}
use iot_ephemeral_value_stor.Codec.{Codec}
use iot_ephemeral_value_stor.Storage.{Badger, StorageInstance}
use iot_ephemeral_value_stor.Service.{Run, Params, authorised, upload, patch, delete}

-- The download key of a valid upload key.
abbrev pub download_key_of : Platform → Text → Text
download_key_of platform key = encode_to_string (platform.sum256 (strip_upload_prefix key))

pub authorised_of_valid :
    (platform : Platform) (key : Text)
    → validate_upload_key platform key ≡ ok tt
    → authorised platform key ≡ ok (download_key_of platform key)
unfolding authorised validate_upload_key encode_to_string
authorised_of_valid platform key h =
    let (down, e, same, _, _) = derive_download_key_of_valid platform key h in
    rw (h, e) (ap ok same)

pub strip_download_key :
    (platform : Platform) (key : Text)
    → validate_upload_key platform key ≡ ok tt
    → strip_download_prefix (download_key_of platform key) ≡ download_key_of platform key
strip_download_key platform key h =
    let (d, e, same, _, _) = derive_download_key_of_valid platform key h in
    (strip_download_prefix-derive_download_key platform key (download_key_of platform key) h
      (e ∙ ap ok same)).0

-- With an invalid upload key, uploading, patching and deleting all fail with the error of the
-- validation, whatever the database does, and leave the storage as it was.
pub invalid_key_rejected :
    (platform : Platform) (badger : Badger) (codec : Codec) (run : Run) (key path : Text)
    (params : Params) (s : StorageInstance badger) (e : Error)
    → validate_upload_key platform key ≡ err e
    → (upload platform badger codec run key params s
        ≡ (err (wrap (codes "invalid upload key") e), s))
      × (patch platform badger codec run key path params s
          ≡ (err (wrap (codes "invalid upload key") e), s))
      × (delete platform badger codec run key s ≡ (err (wrap (codes "invalid upload key") e), s))
unfolding upload patch delete authorised validate_upload_key
invalid_key_rejected platform badger codec run key path params s e h = rw h (refl, refl, refl)

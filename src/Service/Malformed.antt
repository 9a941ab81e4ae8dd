-- ===== src/Service/Malformed.antt =====
-- Calls with an upload key that is none.
use iot_ephemeral_value_stor.Base.{◌≡◌, Text, codes, length, all, true, Error, err, wrap, inl, inr}
use iot_ephemeral_value_stor.Hex.{is_hex_digit}
use iot_ephemeral_value_stor.Domain.{Platform, strip_upload_prefix}
use iot_ephemeral_value_stor.Domain.Keys.{validate_upload_key_iff}
use iot_ephemeral_value_stor.Codec.{Codec}
use iot_ephemeral_value_stor.Storage.{Badger, StorageInstance}
use iot_ephemeral_value_stor.Service.{Run, Params, upload, patch, delete}
use iot_ephemeral_value_stor.Service.Rejects.{invalid_key_rejected}
use iot_ephemeral_value_stor.Service.Sound.{validate_upload_key-cases}

-- 64 hexadecimal digits behind the optional prefix.
abbrev pub IsUploadKey : Text → Type 0
IsUploadKey key =
    (length (strip_upload_prefix key) ≡ 64) × (all is_hex_digit (strip_upload_prefix key) ≡ true)

-- With a key that does not have 64 hexadecimal digits behind its optional prefix, uploading, patching
-- and deleting return an error, the same that says that the key is invalid, whatever the database
-- does, and leave the storage as it was.
pub malformed_key_rejected :
    (platform : Platform) (badger : Badger) (codec : Codec) (run : Run) (key path : Text)
    (params : Params) (s : StorageInstance badger)
    → (IsUploadKey key → ⊥)
    → (e : Error) × (upload platform badger codec run key params s
        ≡ (err (wrap (codes "invalid upload key") e), s))
      × (patch platform badger codec run key path params s
          ≡ (err (wrap (codes "invalid upload key") e), s))
      × (delete platform badger codec run key s ≡ (err (wrap (codes "invalid upload key") e), s))
malformed_key_rejected platform badger codec run key path params s bad =
    elim (validate_upload_key-cases platform key) [
      | inl valid ↦ absurd (bad ((validate_upload_key_iff platform key).0 valid))
      | inr (e, h) ↦
          let (u, p, d) = invalid_key_rejected platform badger codec run key path params s e h in
          (e, u, p, d)
    ]

-- ===== src/Service/Upload.antt =====
-- What an upload stores, and what its readers get.
use iot_ephemeral_value_stor.Base.{
  ℕ, ◌+◌, ◌≤◌, ◌≡◌, refl, ap, ◌∙◌, Option, none, some, Text, text_eq, codes, Result, ok, err, arith,
  inl, inr, if◌then◌else◌, LacksByte, split_lacking, parameter_not_found, Option-cases,
}
use iot_ephemeral_value_stor.Json.{Value, Fields, str, end, lookup, insert}
use iot_ephemeral_value_stor.Json.Entries.{lookup-insert}
use iot_ephemeral_value_stor.Json.Sorted.{IsSorted, insert-IsSorted}
use iot_ephemeral_value_stor.Domain.{Platform, add_download_prefix, validate_upload_key}
use iot_ephemeral_value_stor.Domain.Derive.{
  derive_download_key_of_valid, strip_download_prefix-derive_download_key,
}
use iot_ephemeral_value_stor.Data.{traverse_field, traverse_keys}
use iot_ephemeral_value_stor.Codec.{Codec, ArePlain, max_nested}
use iot_ephemeral_value_stor.Codec.Plain.{insert-ArePlain}
use iot_ephemeral_value_stor.Storage.{Badger, StorageInstance, second, ReadRun, WriteRun, store}
use iot_ephemeral_value_stor.Storage.Entries.{retrieve-store, get_json-store}
use iot_ephemeral_value_stor.Service.{
  Run, Params, copy_params, timestamp, uploaded, upload, download_field, download_json, field_of,
}
use iot_ephemeral_value_stor.Service.Params.{
  AreValid, value_of, as_value, lookup-copy_params, copy_params-IsSorted, copy_params-ArePlain,
  last_state,
}
use iot_ephemeral_value_stor.Service.Rejects.{
  download_key_of, authorised_of_valid, strip_download_key,
}

-- What a reader of one field is told, where the field's name has no slash.
abbrev pub found : Text → Option Value → Result Value
found name none = err (parameter_not_found name)
found name (some v) = ok v

pub traverse_field_of_name :
    (m : Fields) (name : Text)
    → LacksByte b'/' name
    → traverse_field m name ≡ found name (lookup name m)
unfolding traverse_field
traverse_field_of_name m name h =
    rw (split_lacking b'/' name h) (elim (Option-cases (lookup name m)) [
      | inl e ↦ rw (e, traverse_keys) refl
      | inr (v, e) ↦ rw (e, traverse_keys) refl
    ])

abbrev pub stamped : Platform → ℕ → Option Value → Text → Option Value
stamped platform now o name =
    if text_eq timestamp name then some (str (platform.rfc3339 now)) else o

module _ (platform : Platform) (codec : Codec) where
  open platform use {rfc3339, rfc3339-ascii}
  open codec use {valid_text, valid_text-ascii}

  pub stamp-ArePlain :
      (n now : ℕ) (m : Fields)
      → ArePlain valid_text n m
      → ArePlain valid_text n (insert timestamp (str (rfc3339 now)) m)
  stamp-ArePlain n now m h =
      insert-ArePlain valid_text n timestamp (str (rfc3339 now)) m (valid_text-ascii timestamp refl)
        (valid_text-ascii (rfc3339 now) (rfc3339-ascii now)) h

  pub uploaded-ArePlain :
      (now : ℕ) (params : Params)
      → AreValid valid_text params
      → ArePlain valid_text max_nested (uploaded platform now params)
  uploaded-ArePlain now params v =
      stamp-ArePlain max_nested now (copy_params end params)
        (copy_params-ArePlain valid_text max_nested end params v tt)

  pub uploaded-IsSorted : (now : ℕ) (params : Params) → IsSorted (uploaded platform now params)
  uploaded-IsSorted now params =
      insert-IsSorted timestamp (str (rfc3339 now)) (copy_params end params) tt
        (copy_params-IsSorted end params tt)

  pub lookup-uploaded :
      (now : ℕ) (params : Params) (name : Text)
      → lookup name (uploaded platform now params)
        ≡ stamped platform now (as_value (value_of name params)) name
  unfolding lookup
  lookup-uploaded now params name = ground (
    arith,
    lookup-insert timestamp name (str (rfc3339 now)) (copy_params end params),
    lookup-copy_params name end params,
  )

  module _ (badger : Badger) where
    -- After an upload with a valid key, the storage is as its store leaves it, whatever the run.
    upload-state :
        (run : Run) (key : Text) (params : Params) (s : StorageInstance badger)
        → validate_upload_key platform key ≡ ok tt
        → (upload platform badger codec run key params s).1
          ≡ (store badger codec run.write run.write_at
              (download_key_of platform key)
              (uploaded platform run.now params)
              s).1
    unfolding upload
    upload-state run key params s valid = rw (authorised_of_valid platform key valid) (
        last_state
          (store badger codec run.write run.write_at (download_key_of platform key)
            (uploaded platform run.now params))
          (codes "error storing data") _ s)

  module _ (badger : Badger) (up down : Run) (key : Text) (params : Params)
      (s : StorageInstance badger) where
    -- An upload of valid UTF-8 with a valid key whose write completes, where the breaker is closed:
    -- a reader whose read completes, while the time to live has a second to go, gets for each name
    -- without a slash the time of the upload if the name is "timestamp", else the parameter's
    -- value, or the error of a missing parameter; and the same if the download key has its prefix.
    pub download_field-upload :
        (name : Text)
        → validate_upload_key platform key ≡ ok tt
        → AreValid valid_text params
        → LacksByte b'/' name
        → s.degraded ≡ 0
        → up.write ≡ WriteRun.completes
        → down.read ≡ ReadRun.completes
        → down.read_at + second ≤ up.write_at + s.persist_duration
        → let s' = (upload platform badger codec up key params s).1 in
          let answer : Result Value =
            found name (stamped platform up.now (as_value (value_of name params)) name) in
          (download_field platform badger codec down (download_key_of platform key) name s'
            ≡ answer)
          × (download_field platform badger codec down
                (add_download_prefix (download_key_of platform key))
                name
                s'
              ≡ answer)
    unfolding download_field
    download_field-upload name valid plain slash_free up_ok writes reads live =
        let (d, e, same, _, _) = derive_download_key_of_valid platform key valid in
        let (bare, prefixed) =
          strip_download_prefix-derive_download_key platform key (download_key_of platform key)
            valid (e ∙ ap ok same) in
        let stored =
          retrieve-store badger codec up.write_at down.read_at (download_key_of platform key)
            (uploaded platform up.now params) s up_ok (uploaded-ArePlain up.now params plain)
            (uploaded-IsSorted up.now params) live in
        rw (upload-state badger up key params s valid, writes, reads, bare, prefixed, stored)
          (value, value)
      where
        value :
            field_of platform badger codec name (ok (some (uploaded platform up.now params)))
            ≡ found name (stamped platform up.now (as_value (value_of name params)) name)
        value =
            traverse_field_of_name (uploaded platform up.now params) name slash_free
            ∙ ap (found name) (lookup-uploaded up.now params name)

    -- The JSON that such a reader gets decodes to the uploaded document.
    pub download_json-upload :
        validate_upload_key platform key ≡ ok tt
        → AreValid valid_text params
        → s.degraded ≡ 0
        → up.write ≡ WriteRun.completes
        → down.read ≡ ReadRun.completes
        → down.read_at + second ≤ up.write_at + s.persist_duration
        → (b : Text) × (download_json platform badger codec down
              (download_key_of platform key)
              (upload platform badger codec up key params s).1
            ≡ ok b)
          × (codec.unmarshal b ≡ ok (some (uploaded platform up.now params)))
    unfolding download_json
    download_json-upload valid plain up_ok writes reads live =
        let (b, there, decoded) =
          get_json-store badger codec up.write_at down.read_at (download_key_of platform key)
            (uploaded platform up.now params) s up_ok (uploaded-ArePlain up.now params plain)
            (uploaded-IsSorted up.now params) live in
        (
          b,
          rw
              (
                upload-state badger up key params s valid,
                writes,
                reads,
                strip_download_key platform key valid,
                there,
              )
              refl,
          decoded,
        )

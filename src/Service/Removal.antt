-- ===== src/Service/Removal.antt =====
-- What readers get after a deletion.
use iot_ephemeral_value_stor.Base.{
  ℕ, ◌≡◌, refl, none, Text, codes, ok, err, wrap, LacksByte, key_not_found, parameter_not_found,
}
use iot_ephemeral_value_stor.Json.{end, lookup}
use iot_ephemeral_value_stor.Domain.{Platform, validate_upload_key}
use iot_ephemeral_value_stor.Codec.{Codec}
use iot_ephemeral_value_stor.Storage.{
  Badger, StorageInstance, ReadRun, WriteRun, update_with_context, delete_key, get_json, retrieve,
}
use iot_ephemeral_value_stor.Service.{Run, delete, download_json, download_field}
use iot_ephemeral_value_stor.Service.Params.{last_state}
use iot_ephemeral_value_stor.Service.Rejects.{
  download_key_of, authorised_of_valid, strip_download_key,
}
use iot_ephemeral_value_stor.Service.Upload.{traverse_field_of_name}

module _ (platform : Platform) (badger : Badger) (codec : Codec) where
  delete-state :
      (run : Run) (key : Text) (s : StorageInstance badger)
      → validate_upload_key platform key ≡ ok tt
      → (delete platform badger codec run key s).1
        ≡ (delete_key badger run.write (download_key_of platform key) s).1
  unfolding delete
  delete-state run key s valid = rw (authorised_of_valid platform key valid) (
      last_state (delete_key badger run.write (download_key_of platform key))
        (codes "error deleting data") (download_key_of platform key) s)

  get-deleted :
      (now : ℕ) (key : Text) (run : WriteRun) (s : StorageInstance badger)
      → s.degraded ≡ 0
      → run ≡ WriteRun.completes
      → badger.get now key (delete_key badger run key s).1.db ≡ none
  unfolding delete_key update_with_context
  get-deleted now key run s up writes = rw (writes, up) (badger.get-delete now key s.db)

  -- After a deletion with a valid key that completes, where the breaker is closed, every reader
  -- whose read completes fails: of the JSON with the error for a missing key, of a field whose name
  -- has no slash with the error of a missing parameter.
  download-delete :
      (run down : Run) (key name : Text) (s : StorageInstance badger)
      → validate_upload_key platform key ≡ ok tt
      → LacksByte b'/' name
      → s.degraded ≡ 0
      → run.write ≡ WriteRun.completes
      → down.read ≡ ReadRun.completes
      → let s' = (delete platform badger codec run key s).1 in
        (download_json platform badger codec down (download_key_of platform key) s'
          ≡ err (wrap (codes "invalid download key or data not found") key_not_found))
        × (download_field platform badger codec down (download_key_of platform key) name s'
            ≡ err (parameter_not_found name))
  unfolding download_json download_field get_json retrieve lookup
  download-delete run down key name s valid slash_free up writes reads =
      let gone = get-deleted down.read_at (download_key_of platform key) run.write s up writes in
      rw (delete-state run key s valid, strip_download_key platform key valid, reads, gone)
        (refl, traverse_field_of_name end name slash_free)

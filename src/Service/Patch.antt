-- ===== src/Service/Patch.antt =====
-- What a patch stores over the document that was there, and what its readers get.
use iot_ephemeral_value_stor.Base.{
  ℕ, zero, ◌+◌, ◌≤◌, ◌≡◌, ap, ◌∙◌, length, true, none, some, Text, codes, ok, LacksByte, List, [],
  ◌∷◌, ◌++◌,
}
use iot_ephemeral_value_stor.Json.{Value, Fields, str, end, obj, lookup, insert}
use iot_ephemeral_value_stor.Json.Entries.{lookup-insert_ne, insert-insert_self}
use iot_ephemeral_value_stor.Json.Sorted.{IsSorted, insert-IsSorted, or_else}
use iot_ephemeral_value_stor.Domain.{Platform, validate_upload_key}
use iot_ephemeral_value_stor.Data.{traverse_field}
use iot_ephemeral_value_stor.Data.View.{
  get, get-obj, merge_at, merge_data_at_path-eq, target, traverse_keys_iff,
}
use iot_ephemeral_value_stor.Data.Merge.{merge_data_at_path-IsSorted, merge_data_at_path-written}
use iot_ephemeral_value_stor.Data.Field.{field_path, split-field_path}
use iot_ephemeral_value_stor.Codec.{Codec, ArePlain, max_nested}
use iot_ephemeral_value_stor.Codec.Plain.{
  merge_data_at_path-ArePlain, merge_data_at_path-nested, IsPatchPath,
}
use iot_ephemeral_value_stor.Storage.{
  Badger, StorageInstance, second, ReadRun, WriteRun, store, retrieve,
}
use iot_ephemeral_value_stor.Storage.Entries.{retrieve-store}
use iot_ephemeral_value_stor.Service.{
  Run, Params, copy_params, timestamp, patched, patch_onto, patch, download_field,
}
use iot_ephemeral_value_stor.Service.Params.{
  AreValid, value_of, as_value, lookup-copy_params, copy_params-IsSorted, copy_params-ArePlain,
  last_state, then_read,
}
use iot_ephemeral_value_stor.Service.Rejects.{
  download_key_of, authorised_of_valid, strip_download_key,
}
use iot_ephemeral_value_stor.Service.Upload.{stamp-ArePlain}

-- The keys begin with the one that the service writes its time stamp under.
abbrev pub StartsAtTimestamp : List Text → Type 0
StartsAtTimestamp [] = ⊥
StartsAtTimestamp (key ∷ keys) = timestamp ≡ key

pub get-stamp :
    (v : Value) (m : Fields) (keys : List Text) (key : Text)
    → (StartsAtTimestamp (keys ++ key ∷ []) → ⊥)
    → get (keys ++ key ∷ []) (obj (insert timestamp v m)) ≡ get (keys ++ key ∷ []) (obj m)
get-stamp v m [] key h = rw (get-obj, get-obj, lookup-insert_ne timestamp key v m h)
get-stamp v m (x ∷ keys) key h = rw (get-obj, get-obj, lookup-insert_ne timestamp x v m h)

module _ (platform : Platform) where
  open platform use {rfc3339}

  pub patched-IsSorted :
      (now : ℕ) (m : Fields) (path : Text) (params : Params)
      → IsSorted m
      → IsSorted (patched platform now m path params)
  patched-IsSorted now m path params h = insert-IsSorted timestamp (str (rfc3339 now)) _ tt (
      merge_data_at_path-IsSorted m (copy_params end params) path h
        (copy_params-IsSorted end params tt))

  pub patched-ArePlain :
      (codec : Codec) (now : ℕ) (m : Fields) (path : Text) (params : Params)
      → IsPatchPath codec path
      → AreValid codec.valid_text params
      → ArePlain codec.valid_text max_nested m
      → ArePlain codec.valid_text max_nested (patched platform now m path params)
  patched-ArePlain codec now m path params p v h = stamp-ArePlain platform codec max_nested now _ (
      merge_data_at_path-ArePlain codec m (copy_params end params) path p h
        (copy_params-ArePlain codec.valid_text zero end params v tt))

  pub patched-nested :
      (codec : Codec) (n now : ℕ) (m : Fields) (path : Text) (params : Params)
      → codec.valid_text path ≡ true
      → AreValid codec.valid_text params
      → ArePlain codec.valid_text n m
      → ArePlain codec.valid_text (n + length (target path)) (patched platform now m path params)
  patched-nested codec n now m path params p v h = stamp-ArePlain platform codec _ now _ (
      merge_data_at_path-nested codec n m (copy_params end params) path p h
        (copy_params-ArePlain codec.valid_text zero end params v tt))

  -- A patch at a path whose first segment is "timestamp" keeps nothing of its parameters: the
  -- service's time stamp takes their place, as it does without a patch.
  pub patched-timestamp :
      (now : ℕ) (m : Fields) (path : Text) (params : Params)
      → StartsAtTimestamp (target path)
      → patched platform now m path params ≡ insert timestamp (str (rfc3339 now)) m
  unfolding merge_at
  patched-timestamp now m path params starts =
      ap (insert timestamp (str (rfc3339 now)))
        (merge_data_at_path-eq m path (copy_params end params))
      ∙ overwritten (target path) starts
    where
      overwritten :
          (keys : List Text)
          → StartsAtTimestamp keys
          → insert timestamp (str (rfc3339 now)) (merge_at m keys (copy_params end params))
            ≡ insert timestamp (str (rfc3339 now)) m
      overwritten [] h = absurd h
      overwritten (key ∷ keys) h = rw (← h) (insert-insert_self timestamp _ _ m)

  -- A parameter of a patch, under its path.
  patched-field :
      (now : ℕ) (m : Fields) (path name v : Text) (params : Params)
      → value_of name params ≡ some v
      → LacksByte b'/' name
      → (StartsAtTimestamp (target path ++ name ∷ []) → ⊥)
      → traverse_field (patched platform now m path params) (field_path path name) ≡ ok (str v)
  unfolding traverse_field lookup
  patched-field now m path name v params given slash_free apart =
      rw (split-field_path path name slash_free) (
        (traverse_keys_iff (field_path path name) _ (str v) (target path ++ name ∷ [])).1 (
          get-stamp (str (rfc3339 now)) _ (target path) name apart
          ∙ merge_data_at_path-written m (copy_params end params) path name
              (copy_params-IsSorted end params tt)
          ∙ ap (λ o. or_else o (get (target path ++ name ∷ []) (obj m))) {y = some (str v)}
              (lookup-copy_params name end params ∙ ap (λ o. or_else (as_value o) none) given)))

  module _ (badger : Badger) (codec : Codec) (run : Run) (key path : Text) (params : Params)
      (m : Fields) (s : StorageInstance badger) where
    -- With a valid key and where the document is read, the storage is as the store of the patched
    -- document leaves it.
    patch-state :
        validate_upload_key platform key ≡ ok tt
        → retrieve badger codec run.read run.read_at (download_key_of platform key) s ≡ ok (some m)
        → (patch platform badger codec run key path params s).1
          ≡ (store badger codec run.write run.write_at
              (download_key_of platform key)
              (patched platform run.now m path params)
              s).1
    unfolding patch patch_onto store
    patch-state valid there = rw (authorised_of_valid platform key valid) (
        ap (λ p. p.1)
          (then_read (retrieve badger codec run.read run.read_at (download_key_of platform key))
            (codes "error retrieving existing data")
            (patch_onto platform badger codec run (download_key_of platform key) path params) s
            (some m) there)
        ∙ last_state {B = Text × Fields}
            (store badger codec run.write run.write_at (download_key_of platform key)
              (patched platform run.now m path params))
            (codes "error storing data")
            (download_key_of platform key, patched platform run.now m path params) s)

    -- A patch of valid UTF-8 with a valid key, where the breaker is closed, that reads m, a well-
    -- formed document of strings and maps of valid UTF-8, of at most 10000 maps inside one another, at
    -- a path of fewer than 10000 segments, and whose write completes, leaves m with
    -- the parameters merged at the path and a new time stamp, and the next patch or reader whose
    -- read completes finds just that, as long as the time to live has a second to go.
    retrieve-patch :
        (now : ℕ)
        → validate_upload_key platform key ≡ ok tt
        → IsPatchPath codec path
        → AreValid codec.valid_text params
        → ArePlain codec.valid_text max_nested m
        → IsSorted m
        → s.degraded ≡ 0
        → retrieve badger codec run.read run.read_at (download_key_of platform key) s ≡ ok (some m)
        → run.write ≡ WriteRun.completes
        → now + second ≤ run.write_at + s.persist_duration
        → retrieve badger codec ReadRun.completes now
            (download_key_of platform key)
            (patch platform badger codec run key path params s).1
          ≡ ok (some (patched platform run.now m path params))
    retrieve-patch now valid valid_path plain doc_plain sorted up there writes live =
        rw (patch-state valid there, writes)
          (retrieve-store badger codec run.write_at now (download_key_of platform key)
            (patched platform run.now m path params) s up
            (patched-ArePlain codec run.now m path params valid_path plain doc_plain)
            (patched-IsSorted run.now m path params sorted) live)

    -- After such a patch, a reader whose read completes in that time gets a parameter's value back
    -- under the path and the parameter's name, if the name has no slash and the keys do not begin
    -- with "timestamp".
    pub download_field-patch :
        (down : Run) (name v : Text)
        → validate_upload_key platform key ≡ ok tt
        → IsPatchPath codec path
        → AreValid codec.valid_text params
        → ArePlain codec.valid_text max_nested m
        → IsSorted m
        → s.degraded ≡ 0
        → retrieve badger codec run.read run.read_at (download_key_of platform key) s ≡ ok (some m)
        → run.write ≡ WriteRun.completes
        → down.read ≡ ReadRun.completes
        → down.read_at + second ≤ run.write_at + s.persist_duration
        → value_of name params ≡ some v
        → LacksByte b'/' name
        → (StartsAtTimestamp (target path ++ name ∷ []) → ⊥)
        → download_field platform badger codec down
            (download_key_of platform key)
            (field_path path name)
            (patch platform badger codec run key path params s).1
          ≡ ok (str v)
    unfolding download_field
    download_field-patch down name v valid valid_path plain doc_plain sorted up there writes reads
          live given slash_free apart =
        rw
          (
            reads,
            strip_download_key platform key valid,
            retrieve-patch down.read_at valid valid_path plain doc_plain sorted up there writes
                live,
          )
          (patched-field run.now m path name v params given slash_free apart)

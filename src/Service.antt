-- ===== src/Service.antt =====
-- data/data.go: the service that the HTTP and the MCP handlers share. A method that may write takes
-- the storage to the storage that it leaves.
pub mod Params
pub mod Rejects
pub mod Upload
pub mod Patch
pub mod Removal
pub mod Ensures
pub mod Documents
pub mod Sound
pub mod Malformed
pub mod History
pub mod Spec
pub mod Refines
pub mod Simulates
pub mod Isolation
pub mod Waiting
pub mod Interleaved
pub mod Tests
mod OverlapTests
use iot_ephemeral_value_stor.Base.{
  ℕ, Bool, Option, none, some, List, [], ◌∷◌, Text, codes, Result, ok, err, panic, wrap,
}
use iot_ephemeral_value_stor.Json.{Value, Fields, str, end, insert}
use iot_ephemeral_value_stor.Domain.{
  Platform, generate_random_key, derive_download_key, validate_upload_key, strip_download_prefix,
}
use iot_ephemeral_value_stor.Data.{merge_data_at_path, traverse_field}
use iot_ephemeral_value_stor.Codec.{Codec}
use iot_ephemeral_value_stor.Storage.{
  Badger, StorageInstance, ReadRun, WriteRun, get_json, store, retrieve, delete_key,
}

-- `map[string]string`, of which a later entry of a key hides an earlier one.
abbrev pub Params : Type 0
Params = List (Text × Text)

-- `for k, v := range params { data[k] = v }`
unfoldable pub copy_params : Fields → Params → Fields
copy_params m [] = m
copy_params m ((k, v) ∷ params) = copy_params (insert k (str v) m) params

-- How the database calls of one method go, and what its clocks read: when it reads, when it makes
-- the time stamp, and when it writes.
pub record Run : Type 0 where
  pub read : ReadRun
  pub read_at : ℕ
  pub now : ℕ
  pub write : WriteRun
  pub write_at : ℕ

-- `if err != nil { return …, fmt.Errorf("context: %w", err) }`
abbrev pub wrapped {ℓ} : {A : Type ℓ} → Text → Result A → Result A
wrapped context (ok a) = ok a
wrapped context (err e) = err (wrap context e)
wrapped context panic = panic

abbrev pub timestamp : Text
timestamp = codes "timestamp"

-- A call that may change the state and may fail. An error leaves the state that the call reached.
abbrev pub M : Type 0 → Type 0 → Type 0
M S A = S → Result A × S

abbrev pub pure : {S A : Type 0} → Result A → M S A
pure r s = (r, s)

infixl 5 ◌>>=◌
abbrev pub ◌>>=◌ : {S A B : Type 0} → M S A → (A → M S B) → M S B
◌>>=◌ m f s = elim ((m s).0) [
  | ok a ↦ f a (m s).1
  | err e ↦ (err e, (m s).1)
  | panic ↦ (panic, (m s).1)
]

abbrev pub wrapped_call : {S A : Type 0} → Text → M S A → M S A
wrapped_call context m s = (wrapped context (m s).0, (m s).1)

-- An assignment to an entry of a nil map panics; reading one finds nothing.
abbrev pub writable : Option Fields → Result Fields
writable none = panic
writable (some m) = ok m

abbrev pub readable : Option Fields → Fields
readable none = end
readable (some m) = m

module _ (platform : Platform) where
  open platform use {rfc3339}

  -- The beginning that Upload, Patch and Delete share.
  unfoldable pub authorised : Text → Result Text
  authorised upload_key = elim (validate_upload_key platform upload_key) [
    | ok _ ↦ wrapped (codes "error deriving download key") (derive_download_key platform upload_key)
    | err e ↦ err (wrap (codes "invalid upload key") e)
    | panic ↦ panic
  ]

  -- `none` is the end of the process where no random bytes are to be had.
  unfoldable pub generate_key_pair : Option Text → Option (Result (Text × Text))
  generate_key_pair random_bytes = elim (generate_random_key random_bytes) [
    | none ↦ none
    | some upload_key ↦ some (pair_with upload_key (derive_download_key platform upload_key))
  ]
    where
      pair_with : Text → Result Text → Result (Text × Text)
      pair_with upload_key (ok download_key) = ok (upload_key, download_key)
      pair_with upload_key (err e) = err (wrap (codes "error deriving download key") e)
      pair_with upload_key panic = panic

  -- What Upload stores, and what Patch stores over the document that was there.
  abbrev pub uploaded : ℕ → Params → Fields
  uploaded now params = insert timestamp (str (rfc3339 now)) (copy_params end params)

  abbrev pub patched : ℕ → Fields → Text → Params → Fields
  patched now existing_data path params =
      insert timestamp (str (rfc3339 now))
        (merge_data_at_path existing_data path (copy_params end params))

  module _ (badger : Badger) (codec : Codec) where
    abbrev pub Call : Type 0 → Type 0
    Call A = M (StorageInstance badger) A

    unfoldable pub upload : Run → Text → Params → Call (Text × Fields)
    unfolding copy_params
    upload run upload_key params = do
      download_key ← pure (authorised upload_key)
      stored ←
          wrapped_call (codes "error storing data")
            (store badger codec run.write run.write_at download_key (uploaded run.now params))
      pure (ok (download_key, uploaded run.now params))

    -- The rest of Patch, from the document that it read.
    unfoldable pub patch_onto : Run → Text → Text → Params → Option Fields → Call (Text × Fields)
    unfolding copy_params
    patch_onto run download_key path params existing = do
      existing_data ← pure (writable existing)
      stored ← wrapped_call (codes "error storing data") (
          store badger codec run.write run.write_at download_key
            (patched run.now existing_data path params))
      pure (ok (download_key, patched run.now existing_data path params))

    unfoldable pub patch : Run → Text → Text → Params → Call (Text × Fields)
    patch run upload_key path params = do
      download_key ← pure (authorised upload_key)
      existing ← λ s. (
        wrapped (codes "error retrieving existing data")
            (retrieve badger codec run.read run.read_at download_key s),
        s,
      )
      patch_onto run download_key path params existing

    unfoldable pub download_json : Run → Text → StorageInstance badger → Result Text
    download_json run download_key s =
        wrapped (codes "invalid download key or data not found")
          (get_json badger run.read run.read_at (strip_download_prefix download_key) s)

    abbrev pub field_of : Text → Result (Option Fields) → Result Value
    field_of field_path (ok m) = traverse_field (readable m) field_path
    field_of field_path (err e) = err (wrap (codes "invalid download key or data not found") e)
    field_of field_path panic = panic

    unfoldable pub download_field : Run → Text → Text → StorageInstance badger → Result Value
    download_field run download_key field_path s =
        field_of field_path
          (retrieve badger codec run.read run.read_at (strip_download_prefix download_key) s)

    unfoldable pub delete : Run → Text → Call Text
    delete run upload_key = do
      download_key ← pure (authorised upload_key)
      deleted ←
          wrapped_call (codes "error deleting data") (delete_key badger run.write download_key)
      pure (ok download_key)

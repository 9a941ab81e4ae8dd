-- ===== src/Service/Sound.antt =====
-- The calls of the service and the soundness of the database.
use iot_ephemeral_value_stor.Base.{
  ◌≡◌, refl, ◌⊎◌, Error, not_hex_key, true, Option, none, some, Text, inl, inr, Bool-cases, Result,
  ok, err, panic, ◌==◌, wrap, codes, length, to_lower,
}
use iot_ephemeral_value_stor.Json.{Fields}
use iot_ephemeral_value_stor.Domain.{
  Platform, strip_upload_prefix, validate_upload_key, derive_download_key, check_decoded,
}
use iot_ephemeral_value_stor.Hex.{decode_string}
use iot_ephemeral_value_stor.Codec.{Codec, max_nested}
use iot_ephemeral_value_stor.Storage.{Badger, deletes, delete_key}
use iot_ephemeral_value_stor.Service.{
  Run, Params, authorised, uploaded, patched, upload, patch, patch_onto, delete, wrapped,
}
use iot_ephemeral_value_stor.Service.Ensures.{
  Returns, Ensures, Ensures-pure, Ensures-bind, Returns-wrapped, Ensures-last,
}
use iot_ephemeral_value_stor.Service.Documents.{
  IsSound, IsFound, store-IsSound, retrieve-IsFound, update_with_context-IsSound,
}
use iot_ephemeral_value_stor.Service.Params.{AreValid}
use iot_ephemeral_value_stor.Service.Upload.{uploaded-ArePlain, uploaded-IsSorted}
use iot_ephemeral_value_stor.Service.Patch.{patched-nested, patched-IsSorted}

-- The key's test and its derivation fail with an error at worst.
check_decoded-cases :
    (o : Option Text) → (check_decoded o ≡ ok tt) ⊎ ((e : Error) × (check_decoded o ≡ err e))
unfolding check_decoded
check_decoded-cases none = inr (not_hex_key, refl)
check_decoded-cases (some decoded) = elim (Bool-cases (length decoded == 32)) [
  | inl e ↦ inl (rw e refl)
  | inr e ↦ inr (not_hex_key, rw e refl)
]

-- A key is accepted or refused.
pub validate_upload_key-cases :
    (platform : Platform) (key : Text)
    → (validate_upload_key platform key ≡ ok tt)
      ⊎ ((e : Error) × (validate_upload_key platform key ≡ err e))
unfolding validate_upload_key
validate_upload_key-cases platform key =
    check_decoded-cases (decode_string (to_lower platform.unicode_lower (strip_upload_prefix key)))

check_decoded-Returns : (o : Option Text) → Returns (λ _. Unit) (check_decoded o)
unfolding check_decoded
check_decoded-Returns none = tt
check_decoded-Returns (some decoded) = elim (Bool-cases (length decoded == 32)) [
  | inl e ↦ rw e tt
  | inr e ↦ rw e tt
]

derive_download_key-Returns :
    (platform : Platform) (key : Text) → Returns (λ _. Unit) (derive_download_key platform key)
unfolding derive_download_key
derive_download_key-Returns platform key =
    elim (Bool-cases (length (strip_upload_prefix key) == 64)) [ inl e ↦ rw e tt | inr e ↦ rw e tt ]

authorised-Returns :
    (platform : Platform) (key : Text) → Returns (λ _. Unit) (authorised platform key)
unfolding authorised validate_upload_key
authorised-Returns platform key =
    of_results (validate_upload_key platform key) (derive_download_key platform key)
      (check_decoded-Returns
        (decode_string (to_lower platform.unicode_lower (strip_upload_prefix key))))
      (derive_download_key-Returns platform key)
  where
    of_results :
        (r : Result (Unit {0})) (q : Result Text)
        → Returns (λ _. Unit) r
        → Returns (λ _. Unit) q
        → Returns
            (λ _. Unit)
            (elim r as (λ _. Result Text) [
              | ok _ ↦ wrapped (codes "error deriving download key") q
              | err e ↦ err (wrap (codes "invalid upload key") e)
              | panic ↦ panic
            ])
    of_results (ok _) (ok k) h g = tt
    of_results (ok _) (err e) h g = tt
    of_results (ok _) panic h g = absurd g
    of_results (err e) q h g = tt
    of_results panic q h g = absurd h

module _ (badger : Badger) (codec : Codec) (platform : Platform) where
  open codec use {valid_text}

  pub upload-IsSound :
      (run : Run) (key : Text) (params : Params)
      → AreValid valid_text params
      → Ensures (IsSound badger codec) (upload platform badger codec run key params) (λ _. Unit)
  unfolding upload
  upload-IsSound run key params v =
      Ensures-bind (IsSound badger codec) (λ _. Unit) (λ _. Unit) _ _
        (Ensures-pure (IsSound badger codec) (λ _. Unit) (authorised platform key)
          (authorised-Returns platform key))
        (λ download_key _. Ensures-last (IsSound badger codec) (codes "error storing data") _ _ (
          store-IsSound badger codec run.write run.write_at download_key
            (uploaded platform run.now params)
            (
              (max_nested, uploaded-ArePlain platform codec run.now params v),
              uploaded-IsSorted platform codec run.now params,
            )))

  patch_onto-IsSound :
      (run : Run) (download_key path : Text) (params : Params) (found : Option Fields)
      → valid_text path ≡ true
      → AreValid valid_text params
      → IsFound badger codec found
      → Ensures
          (IsSound badger codec)
          (patch_onto platform badger codec run download_key path params found)
          (λ _. Unit)
  unfolding patch_onto
  patch_onto-IsSound run download_key path params none p v h = absurd h
  patch_onto-IsSound run download_key path params (some m) p v h =
      Ensures-last (IsSound badger codec) (codes "error storing data") _ _ (
        store-IsSound badger codec run.write run.write_at download_key
          (patched platform run.now m path params)
          (
            (_, patched-nested platform codec h.0.0 run.now m path params p v h.0.1),
            patched-IsSorted platform run.now m path params h.1,
          ))

  pub patch-IsSound :
      (run : Run) (key path : Text) (params : Params)
      → valid_text path ≡ true
      → AreValid valid_text params
      → Ensures (IsSound badger codec) (patch platform badger codec run key path params) (λ _. Unit)
  unfolding patch
  patch-IsSound run key path params p v =
      Ensures-bind (IsSound badger codec) (λ _. Unit) (λ _. Unit) _ _
        (Ensures-pure (IsSound badger codec) (λ _. Unit) (authorised platform key)
          (authorised-Returns platform key))
        (λ download_key _.
          Ensures-bind (IsSound badger codec) (IsFound badger codec) (λ _. Unit) _ _
            (λ s h. (
              h,
              Returns-wrapped (IsSound badger codec) (IsFound badger codec)
                  (codes "error retrieving existing data") _
                  (retrieve-IsFound badger codec run.read run.read_at download_key s h),
            ))
            (λ found f. patch_onto-IsSound run download_key path params found p v f))

  pub delete-IsSound :
      (run : Run) (key : Text)
      → Ensures (IsSound badger codec) (delete platform badger codec run key) (λ _. Unit)
  unfolding delete delete_key
  delete-IsSound run key =
      Ensures-bind (IsSound badger codec) (λ _. Unit) (λ _. Unit) _ _
        (Ensures-pure (IsSound badger codec) (λ _. Unit) (authorised platform key)
          (authorised-Returns platform key))
        (λ download_key _.
          Ensures-last (IsSound badger codec) (codes "error deleting data") _ _
            (update_with_context-IsSound badger codec run.write (deletes download_key) tt))

-- ===== src/Service/Interleaved/Halves.antt =====
-- The two halves of Patch.
use iot_ephemeral_value_stor.Base.{◌≡◌, ◌≢◌, refl, ap, Option, Text, codes, Result, ok, err, panic}
use iot_ephemeral_value_stor.Json.{Fields}
use iot_ephemeral_value_stor.Domain.{Platform}
use iot_ephemeral_value_stor.Codec.{Codec}
use iot_ephemeral_value_stor.Storage.{Badger, StorageInstance, retrieve}
use iot_ephemeral_value_stor.Service.{authorised, patch, patch_onto, pure, ◌>>=◌, wrapped}
use iot_ephemeral_value_stor.Service.Interleaved.{Patching, read_half, write_half}

module _ (platform : Platform) (badger : Badger) (codec : Codec) where
  pub read_half_of_valid :
      (h : Patching) (s : StorageInstance badger) (down : Text)
      → authorised platform h.upload_key ≡ ok down
      → read_half platform badger codec h s ≡ retrieve badger codec h.run.read h.run.read_at down s
  unfolding read_half
  read_half_of_valid h s down e = rw (e, read_half) refl

  pub read_half_of_invalid :
      (h : Patching) (s t : StorageInstance badger)
      → ((down : Text) → authorised platform h.upload_key ≢ ok down)
      → read_half platform badger codec h s ≡ read_half platform badger codec h t
  unfolding read_half
  read_half_of_invalid h s t apart = by_key (authorised platform h.upload_key) refl
    where
      by_key :
          (a : Result Text)
          → authorised platform h.upload_key ≡ a
          → read_half platform badger codec h s ≡ read_half platform badger codec h t
      by_key (ok down) e = absurd (apart down e)
      by_key (err x) e = rw (e, read_half) refl
      by_key panic e = rw (e, read_half) refl

  -- The two halves on one storage are the patch.
  pub write_half-read_half :
      (h : Patching) (s : StorageInstance badger)
      → write_half platform badger codec h (read_half platform badger codec h s) s
        ≡ patch platform badger codec h.run h.upload_key h.path h.params s
  unfolding patch write_half
  write_half-read_half h s = by_key (authorised platform h.upload_key) refl
    where
      by_key :
          (a : Result Text)
          → authorised platform h.upload_key ≡ a
          → write_half platform badger codec h (read_half platform badger codec h s) s
            ≡ patch platform badger codec h.run h.upload_key h.path h.params s
      by_key (ok down) e = rw e (
          ap
            (λ (r : Result (Option Fields)).
              (pure {S = StorageInstance badger}
                    (wrapped (codes "error retrieving existing data") r)
                  >>= patch_onto platform badger codec h.run down h.path h.params)
                s)
            (read_half_of_valid h s down e))
      by_key (err x) e = rw e
      by_key panic e = rw e

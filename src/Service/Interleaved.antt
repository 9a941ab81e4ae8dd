-- ===== src/Service/Interleaved.antt =====
-- data/data.go under concurrent requests: a Patch reads the document and then stores its own, and
-- other calls may come between. The other methods call the database once. No write that a caller has
-- left behind lands here.
pub mod Halves
pub mod Serial
pub mod Lost
use iot_ephemeral_value_stor.Base.{
  ℕ, ◌==◌, if◌then◌else◌, Option, none, some, List, [], ◌∷◌, ◌++◌, Text, codes, Result, ok, err,
  panic,
}
use iot_ephemeral_value_stor.Json.{Value, Fields}
use iot_ephemeral_value_stor.Domain.{Platform}
use iot_ephemeral_value_stor.Codec.{Codec}
use iot_ephemeral_value_stor.Storage.{Badger, StorageInstance, retrieve}
use iot_ephemeral_value_stor.Service.{
  M, Run, Params, pure, ◌>>=◌, wrapped, authorised, patch_onto, download_json, download_field,
}
use iot_ephemeral_value_stor.Service.Spec.{Op, patches, Answer, stored_answer, perform}

-- A patch that is on its way.
pub record Patching : Type 0 where
  pub run : Run
  pub upload_key : Text
  pub path : Text
  pub params : Params

-- What happens next: a call that writes, from beginning to end; a reader's call; a patch begins,
-- under a number, and reads; or it goes on and ends.
pub data Act : Type 0 where
  whole : Op → Act
  asks_json : Run → Text → Act
  asks_field : Run → Text → Text → Act
  begins : ℕ → Patching → Act
  ends : ℕ → Act

-- What the callers are told.
pub data Said : Type 0 where
  answered : Answer → Said
  json : Result Text → Said
  field : Result Value → Said

abbrev pub put {ℓ} : {A : Type ℓ} → ℕ → A → (ℕ → A) → ℕ → A
put i a f j = if i == j then a else f j

module _ (platform : Platform) (badger : Badger) (codec : Codec) where
  -- The storage, the patches on their way, and what each of them has read.
  pub record Concurrent : Type 0 where
    pub storage : StorageInstance badger
    pub patching : ℕ → Option Patching
    pub found : ℕ → Result (Option Fields)

  -- The first half of Patch, up to what it reads, and the second.
  unfoldable pub read_half : Patching → StorageInstance badger → Result (Option Fields)
  read_half h s = elim (authorised platform h.upload_key) [
    | ok down ↦ retrieve badger codec h.run.read h.run.read_at down s
    | err e ↦ err e
    | panic ↦ panic
  ]

  unfoldable pub write_half :
      Patching → Result (Option Fields) → M (StorageInstance badger) (Text × Fields)
  write_half h found = do
    download_key ← pure (authorised platform h.upload_key)
    existing ← pure (wrapped (codes "error retrieving existing data") found)
    patch_onto platform badger codec h.run download_key h.path h.params existing

  abbrev pub op_of : Patching → Op
  op_of h = patches h.run h.upload_key h.path h.params

  -- What ends a patch: of the one that is on its way, the second half; or all of it, at once.
  abbrev pub in_halves :
      Patching → Result (Option Fields) → StorageInstance badger → Answer × StorageInstance badger
  in_halves h found s = let r = write_half h found s in (stored_answer r.0, r.1)

  abbrev pub at_once :
      Patching → Result (Option Fields) → StorageInstance badger → Answer × StorageInstance badger
  at_once h found s = perform platform badger codec (op_of h) s

  abbrev Ending : Type 0
  Ending =
      Patching → Result (Option Fields) → StorageInstance badger → Answer × StorageInstance badger

  abbrev pub ended : Ending → ℕ → Option Patching → Concurrent → List Said × Concurrent
  ended ending i none c = ([], record c { patching = put i none c.patching })
  ended ending i (some h) c =
      let r = ending h (c.found i) c.storage in
      (answered r.0 ∷ [], record c { storage = r.1; patching = put i none c.patching })

  unfoldable pub act : Ending → Act → Concurrent → List Said × Concurrent
  act ending (whole op) c =
      let r = perform platform badger codec op c.storage in
      (answered r.0 ∷ [], record c { storage = r.1 })
  act ending (asks_json run download_key) c =
      (json (download_json platform badger codec run download_key c.storage) ∷ [], c)
  act ending (asks_field run download_key field_path) c =
      (field (download_field platform badger codec run download_key field_path c.storage) ∷ [], c)
  act ending (begins i h) c = (
    [],
    record c {
      patching = put i (some h) c.patching;
      found = put i (read_half h c.storage) c.found;
    },
  )
  act ending (ends i) c = ended ending i (c.patching i) c

  unfoldable pub act_all : Ending → List Act → Concurrent → List Said × Concurrent
  act_all ending [] c = ([], c)
  act_all ending (a ∷ acts) c =
      let now = act ending a c in
      let later = act_all ending acts now.1 in (now.0 ++ later.0, later.1)

-- ===== src/Service/Isolation.antt =====
-- Operations of the service and the entries of other keys.
use iot_ephemeral_value_stor.Base.{
  ℕ, ◌≡◌, refl, ap, ◌∙◌, ◌≢◌, Option, none, some, Option-cases, inl, inr, Text, codes, Result, ok,
  err, panic,
}
use iot_ephemeral_value_stor.Json.{Fields}
use iot_ephemeral_value_stor.Domain.{Platform}
use iot_ephemeral_value_stor.Codec.{Codec}
use iot_ephemeral_value_stor.Storage.{
  Badger, StorageInstance, WriteRun, sets, deletes, store, delete_key,
}
use iot_ephemeral_value_stor.Storage.Entries.{get-update_with_context}
use iot_ephemeral_value_stor.Service.{
  M, pure, wrapped_call, ◌>>=◌, Run, Params, authorised, upload, patch, patch_onto, delete,
}
use iot_ephemeral_value_stor.Service.Params.{last_state}
use iot_ephemeral_value_stor.Service.Spec.{Op, uploads, patches, removes, upload_key_of, perform}

-- A call that keeps a property of the state, whatever it returns.
module _ {S : Type 0} (P : S → Type 0) where
  abbrev Keeps : {A : Type 0} → M S A → Type 0
  Keeps m = (s : S) → P s → P (m s).1

  bind-pure-Keeps :
      {A B : Type 0} (r : Result A) (f : A → M S B)
      → ((a : A) → r ≡ ok a → Keeps (f a))
      → Keeps (pure r >>= f)
  bind-pure-Keeps (ok a) f h s p = h a refl s p
  bind-pure-Keeps (err e) f h s p = p
  bind-pure-Keeps panic f h s p = p

  -- A read and what follows it.
  bind-read-Keeps :
      {A B : Type 0} (read : S → Result A) (f : A → M S B)
      → ((a : A) → Keeps (f a))
      → Keeps ((λ s. (read s, s)) >>= f)
  bind-read-Keeps read f h s p = bind-pure-Keeps (read s) f (λ a e. h a) s p

module _ (platform : Platform) (badger : Badger) (codec : Codec) (now : ℕ) (other : Text)
    (found : Option Text) where
  abbrev Finds : StorageInstance badger → Type 0
  Finds s = badger.get now other s.db ≡ found

  store-Keeps :
      (run : WriteRun) (at : ℕ) (key : Text) (m : Fields)
      → key ≢ other
      → Keeps Finds (store badger codec run at key m)
  unfolding store
  store-Keeps run at key m apart s p = elim (Option-cases (codec.marshal m)) [
    | inl e ↦ rw (e, store) p
    | inr (b, e) ↦
        rw (e, store)
          (get-update_with_context badger run (sets at s.persist_duration key b) now other s apart
            ∙ p)
  ]

  last-Keeps :
      {A B : Type 0} (context : Text) (m : M (StorageInstance badger) A) (b : B)
      → Keeps Finds m
      → Keeps Finds (wrapped_call context m >>= λ _. pure (ok b))
  last-Keeps context m b h s p = rw (last_state m context b s) (h s p)

  upload-Keeps :
      (run : Run) (key : Text) (params : Params)
      → authorised platform key ≢ ok other
      → Keeps Finds (upload platform badger codec run key params)
  unfolding upload
  upload-Keeps run key params apart = bind-pure-Keeps Finds (authorised platform key) _ (λ down e.
      last-Keeps (codes "error storing data") _ _
        (store-Keeps run.write run.write_at down _ (λ same. apart (e ∙ ap ok same))))

  patch_onto-Keeps :
      (run : Run) (down path : Text) (params : Params) (existing : Option Fields)
      → down ≢ other
      → Keeps Finds (patch_onto platform badger codec run down path params existing)
  unfolding patch_onto
  patch_onto-Keeps run down path params none apart = λ s p. p
  patch_onto-Keeps run down path params (some m) apart =
      last-Keeps (codes "error storing data") _ _ (store-Keeps run.write run.write_at down _ apart)

  patch-Keeps :
      (run : Run) (key path : Text) (params : Params)
      → authorised platform key ≢ ok other
      → Keeps Finds (patch platform badger codec run key path params)
  unfolding patch
  patch-Keeps run key path params apart =
      bind-pure-Keeps Finds (authorised platform key) _ (λ down e.
        bind-read-Keeps Finds _ _ (λ existing.
          patch_onto-Keeps run down path params existing (λ same. apart (e ∙ ap ok same))))

  delete-Keeps :
      (run : Run) (key : Text)
      → authorised platform key ≢ ok other
      → Keeps Finds (delete platform badger codec run key)
  unfolding delete delete_key
  delete-Keeps run key apart = bind-pure-Keeps Finds (authorised platform key) _ (λ down e.
      last-Keeps (codes "error deleting data") _ _ (λ s p.
        get-update_with_context badger run.write (deletes down) now other s
          (λ same. apart (e ∙ ap ok same))
        ∙ p))

  -- An operation whose key is none of those that lead to a download key leaves what the database
  -- finds under that download key as it was, however its calls of the database go.
  pub perform-Keeps :
      (op : Op) (s : StorageInstance badger)
      → authorised platform (upload_key_of op) ≢ ok other
      → badger.get now other s.db ≡ found
      → badger.get now other (perform platform badger codec op s).1.db ≡ found
  perform-Keeps (uploads run key params) s apart p = upload-Keeps run key params apart s p
  perform-Keeps (patches run key path params) s apart p = patch-Keeps run key path params apart s p
  perform-Keeps (removes run key) s apart p = delete-Keeps run key apart s p

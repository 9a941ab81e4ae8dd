-- ===== src/Service/Simulates.antt =====
-- Calls of the service, one by one and in sequence, against the promise of Service.Spec.
use iot_ephemeral_value_stor.Base.{
  ℕ, ◌≡◌, refl, ◌∙◌, inl, inr, some, List, [], ◌∷◌, Text, codes, ok, err, All,
}
use iot_ephemeral_value_stor.Json.{Fields, end}
use iot_ephemeral_value_stor.Domain.{Platform, validate_upload_key}
use iot_ephemeral_value_stor.Codec.{Codec}
use iot_ephemeral_value_stor.Storage.{
  Badger, StorageInstance, WriteRun, store, retrieve, delete_key, update_with_context,
}
use iot_ephemeral_value_stor.Storage.Entries.{store-encoded}
use iot_ephemeral_value_stor.Service.{
  Run, Params, uploaded, patched, upload, patch, patch_onto, delete,
}
use iot_ephemeral_value_stor.Service.Params.{last_ok, then_read}
use iot_ephemeral_value_stor.Service.Rejects.{
  download_key_of, authorised_of_valid, invalid_key_rejected,
}
use iot_ephemeral_value_stor.Service.Upload.{uploaded-ArePlain, uploaded-IsSorted}
use iot_ephemeral_value_stor.Service.Patch.{patched-ArePlain, patched-IsSorted}
use iot_ephemeral_value_stor.Service.Documents.{IsShallow}
use iot_ephemeral_value_stor.Service.Sound.{validate_upload_key-cases}
use iot_ephemeral_value_stor.Service.Refines.{
  Refines, Completes, Sees-IsShallow, put_at, set_entry-Refines, delete-Refines,
}
use iot_ephemeral_value_stor.Service.Spec.{
  Spec, nothing_stored, Op, uploads, patches, removes, Answer, upload_key_of, Does, refuses,
  replaces, writes_over, clears, DoesAll, done, does, perform, perform_all,
}

module _ (platform : Platform) (badger : Badger) (codec : Codec) (ttl : ℕ) where
  -- Calls with a valid key whose database calls complete.
  upload_completes :
      (run : Run) (key : Text) (params : Params) (s s' : StorageInstance badger)
      → validate_upload_key platform key ≡ ok tt
      → store badger codec run.write run.write_at
          (download_key_of platform key)
          (uploaded platform run.now params)
          s
        ≡ (ok tt, s')
      → upload platform badger codec run key params s
        ≡ (ok (download_key_of platform key, uploaded platform run.now params), s')
  unfolding upload
  upload_completes run key params s s' valid e = rw (authorised_of_valid platform key valid) (
      last_ok
        (store badger codec run.write run.write_at (download_key_of platform key)
          (uploaded platform run.now params))
        (codes "error storing data")
        (download_key_of platform key, uploaded platform run.now params) s s' tt e)

  patch_completes :
      (run : Run) (key path : Text) (params : Params) (m : Fields) (s s' : StorageInstance badger)
      → validate_upload_key platform key ≡ ok tt
      → retrieve badger codec run.read run.read_at (download_key_of platform key) s ≡ ok (some m)
      → store badger codec run.write run.write_at
          (download_key_of platform key)
          (patched platform run.now m path params)
          s
        ≡ (ok tt, s')
      → patch platform badger codec run key path params s
        ≡ (ok (download_key_of platform key, patched platform run.now m path params), s')
  unfolding patch patch_onto
  patch_completes run key path params m s s' valid there e =
      rw (authorised_of_valid platform key valid) (
        then_read (retrieve badger codec run.read run.read_at (download_key_of platform key))
          (codes "error retrieving existing data")
          (patch_onto platform badger codec run (download_key_of platform key) path params) s
          (some m) there
        ∙ last_ok
            (store badger codec run.write run.write_at (download_key_of platform key)
              (patched platform run.now m path params))
            (codes "error storing data")
            (download_key_of platform key, patched platform run.now m path params) s s' tt e)

  delete_completes :
      (run : Run) (key : Text) (s : StorageInstance badger)
      → validate_upload_key platform key ≡ ok tt
      → s.degraded ≡ 0
      → run.write ≡ WriteRun.completes
      → delete platform badger codec run key s ≡ (
        ok (download_key_of platform key),
        record s { db = badger.delete (download_key_of platform key) s.db },
      )
  unfolding delete delete_key update_with_context
  delete_completes run key s valid up writes = rw (authorised_of_valid platform key valid) (
      last_ok (delete_key badger run.write (download_key_of platform key))
        (codes "error deleting data") (download_key_of platform key) s _ tt (rw (writes, up) refl))

  -- One call: it answers as promised, and what it leaves refines the promise.
  abbrev pub Simulates : Spec → Op → Answer × StorageInstance badger → Type 0
  Simulates spec op r =
      (spec' : Spec) × Does platform ttl spec op r.0 spec'
      × Refines platform badger codec ttl spec' r.1

  valid_perform :
      (op : Op) (spec : Spec) (s : StorageInstance badger)
      → validate_upload_key platform (upload_key_of op) ≡ ok tt
      → Completes platform badger codec ttl op
      → Refines platform badger codec ttl spec s
      → Simulates spec op (perform platform badger codec op s)
  unfolding retrieve
  valid_perform (uploads run key params) spec s valid (writes, v) h =
      let down : Text = download_key_of platform key in
      let m : Fields = uploaded platform run.now params in
      let doc : IsShallow badger codec m = (
        uploaded-ArePlain platform codec run.now params v,
        uploaded-IsSorted platform codec run.now params,
      ) in
      let (b, decoded, e) = store-encoded badger codec run.write_at down m s h.up doc.0 doc.1 in
      rw
        (upload_completes run key params s (put_at platform badger codec ttl run.write_at down b s)
          valid (rw writes e))
        (
          _,
          replaces run key params valid,
          set_entry-Refines platform badger codec ttl run.write_at down b m spec s decoded doc h,
        )
  valid_perform (patches run key path params) spec s valid (writes, reads, p, v) h =
      let down : Text = download_key_of platform key in
      let (old, there, sees) = h.reads down run.read_at in
      let old_doc =
        Sees-IsShallow platform badger codec ttl (spec down) run.read_at old (h.documents down)
          sees in
      let m : Fields = patched platform run.now old path params in
      let doc : IsShallow badger codec m = (
        patched-ArePlain platform codec run.now old path params p v old_doc.0,
        patched-IsSorted platform run.now old path params old_doc.1,
      ) in
      let (b, decoded, e) = store-encoded badger codec run.write_at down m s h.up doc.0 doc.1 in
      rw
        (patch_completes run key path params old s
          (put_at platform badger codec ttl run.write_at down b s) valid (rw reads there)
          (rw writes e))
        (
          _,
          writes_over run key path params old valid sees,
          set_entry-Refines platform badger codec ttl run.write_at down b m spec s decoded doc h,
        )
  valid_perform (removes run key) spec s valid writes h =
      rw (delete_completes run key s valid h.up writes) (
        _,
        clears run key valid,
        delete-Refines platform badger codec ttl (download_key_of platform key) spec s h,
      )

  refused_perform :
      (op : Op) (spec : Spec) (s : StorageInstance badger) (x : _)
      → validate_upload_key platform (upload_key_of op) ≡ err x
      → Refines platform badger codec ttl spec s
      → Simulates spec op (perform platform badger codec op s)
  refused_perform (uploads run key params) spec s x e h =
      rw (invalid_key_rejected platform badger codec run key [] params s x e).0
        (spec, refuses (uploads run key params) x e, h)
  refused_perform (patches run key path params) spec s x e h =
      rw (invalid_key_rejected platform badger codec run key path params s x e).1
        (spec, refuses (patches run key path params) x e, h)
  refused_perform (removes run key) spec s x e h =
      rw (invalid_key_rejected platform badger codec run key [] [] s x e).2
        (spec, refuses (removes run key) x e, h)

  -- A call whose database calls complete does what is promised, and the storage that it leaves
  -- refines the promise that is left.
  perform-Refines :
      (op : Op) (spec : Spec) (s : StorageInstance badger)
      → Completes platform badger codec ttl op
      → Refines platform badger codec ttl spec s
      → Simulates spec op (perform platform badger codec op s)
  perform-Refines op spec s c h = elim (validate_upload_key-cases platform (upload_key_of op)) [
    | inl valid ↦ valid_perform op spec s valid c h
    | inr (x, e) ↦ refused_perform op spec s x e h
  ]

  starts-Refines :
      (s : StorageInstance badger)
      → s.db ≡ badger.empty
      → s.degraded ≡ 0
      → s.persist_duration ≡ ttl
      → Refines platform badger codec ttl nothing_stored s
  starts-Refines s e up lifetime = record {
    up = up;
    lifetime = lifetime;
    reads = λ key now. (end, rw (e, badger.get-empty now key) refl, refl);
    documents = λ key. tt;
  }

  -- Any sequence of calls that start with an empty database, whose database calls complete, whose
  -- texts are valid UTF-8 and whose patches are at paths of fewer than 10000 segments answers as
  -- promised, and in the end each read that completes finds what the promise lets it
  -- see: the last document stored under its key while that lives, and nothing after its life, with
  -- either in the second between.
  pub perform_all-DoesAll :
      (ops : List Op) (s : StorageInstance badger)
      → All (Completes platform badger codec ttl) ops
      → s.db ≡ badger.empty
      → s.degraded ≡ 0
      → s.persist_duration ≡ ttl
      → (spec : Spec) × DoesAll platform ttl nothing_stored ops
          (perform_all platform badger codec ops s).0
          spec
        × Refines platform badger codec ttl spec (perform_all platform badger codec ops s).1
  unfolding perform_all
  perform_all-DoesAll ops s c e up lifetime =
      from ops nothing_stored s c (starts-Refines s e up lifetime)
    where
      from :
          (ops : List Op) (spec : Spec) (s : StorageInstance badger)
          → All (Completes platform badger codec ttl) ops
          → Refines platform badger codec ttl spec s
          → (spec' : Spec) × DoesAll platform ttl spec ops
              (perform_all platform badger codec ops s).0
              spec'
            × Refines platform badger codec ttl spec' (perform_all platform badger codec ops s).1
      from [] spec s c h = (spec, done, h)
      from (op ∷ ops) spec s c h =
          let (middle, one, h') = perform-Refines op spec s c.0 h in
          let (last, rest, h'') = from ops middle (perform platform badger codec op s).1 c.1 h' in
          (last, does one rest, h'')

-- ===== src/Service/Spec.antt =====
-- What the service promises, without a database: for each download key a document and the time at
-- which its life ends. Within the last second before that time the document may be gone already.
use iot_ephemeral_value_stor.Base.{
  ℕ, ◌+◌, ◌<◌, ◌≡◌, ◌⊎◌, Option, none, some, List, [], ◌∷◌, Text, text_eq, if◌then◌else◌, Result,
  ok, err, panic, Error,
}
use iot_ephemeral_value_stor.Json.{Fields, end}
use iot_ephemeral_value_stor.Domain.{Platform, validate_upload_key}
use iot_ephemeral_value_stor.Codec.{Codec}
use iot_ephemeral_value_stor.Storage.{Badger, StorageInstance, second}
use iot_ephemeral_value_stor.Service.{Run, Params, uploaded, patched, upload, patch, delete}
use iot_ephemeral_value_stor.Service.Rejects.{download_key_of}

pub record Entry : Type 0 where
  pub document : Fields
  pub until : ℕ

abbrev pub Spec : Type 0
Spec = Text → Option Entry

abbrev pub nothing_stored : Spec
nothing_stored key = none

abbrev pub assign : Text → Option Entry → Spec → Spec
assign key o spec other = if text_eq key other then o else spec other

-- What a reader of an entry at a time may find, where the empty map stands for nothing.
abbrev pub Sees : Option Entry → ℕ → Fields → Type 0
Sees none now m = m ≡ end
Sees (some e) now m = ((m ≡ e.document) × (now < e.until)) ⊎ ((m ≡ end) × (e.until < now + second))

pub data Op : Type 0 where
  uploads : Run → Text → Params → Op
  patches : Run → Text → Text → Params → Op
  removes : Run → Text → Op

pub data Answer : Type 0 where
  stored : Text → Fields → Answer
  removed : Text → Answer
  refused : Answer
  crashed : Answer

abbrev pub upload_key_of : Op → Text
upload_key_of (uploads run key params) = key
upload_key_of (patches run key path params) = key
upload_key_of (removes run key) = key

abbrev pub stored_answer : Result (Text × Fields) → Answer
stored_answer (ok (key, m)) = stored key m
stored_answer (err e) = refused
stored_answer panic = crashed

abbrev pub removed_answer : Result Text → Answer
removed_answer (ok key) = removed key
removed_answer (err e) = refused
removed_answer panic = crashed

module _ (platform : Platform) (ttl : ℕ) where
  -- One call, by the promise: a call with an invalid key is refused; an upload replaces the
  -- document; a patch writes over what it may see; a removal leaves nothing.
  pub data Does (spec : Spec) : Op → Answer → Spec → Type 0 where
    refuses :
        (op : Op) (e : Error)
        → validate_upload_key platform (upload_key_of op) ≡ err e
        → Does spec op refused spec
    replaces :
        (run : Run) (key : Text) (params : Params)
        → validate_upload_key platform key ≡ ok tt
        → Does spec
            (uploads run key params)
            (stored (download_key_of platform key) (uploaded platform run.now params))
            (assign
              (download_key_of platform key)
              (some (record {
                document = uploaded platform run.now params;
                until = run.write_at + ttl;
              }))
              spec)
    writes_over :
        (run : Run) (key path : Text) (params : Params) (m : Fields)
        → validate_upload_key platform key ≡ ok tt
        → Sees (spec (download_key_of platform key)) run.read_at m
        → Does spec
            (patches run key path params)
            (stored (download_key_of platform key) (patched platform run.now m path params))
            (assign
              (download_key_of platform key)
              (some (record {
                document = patched platform run.now m path params;
                until = run.write_at + ttl;
              }))
              spec)
    clears :
        (run : Run) (key : Text)
        → validate_upload_key platform key ≡ ok tt
        → Does spec
            (removes run key)
            (removed (download_key_of platform key))
            (assign (download_key_of platform key) none spec)

  pub data DoesAll : Spec → List Op → List Answer → Spec → Type 0 where
    done : {spec : Spec} → DoesAll spec [] [] spec
    does :
        {op : Op} {answer : Answer} {ops : List Op} {answers : List Answer}
        {spec middle last : Spec}
        → Does spec op answer middle
        → DoesAll middle ops answers last
        → DoesAll spec (op ∷ ops) (answer ∷ answers) last

module _ (platform : Platform) (badger : Badger) (codec : Codec) where
  -- The same call of the service.
  abbrev pub perform : Op → StorageInstance badger → Answer × StorageInstance badger
  perform (uploads run key params) s =
      let r = upload platform badger codec run key params s in (stored_answer r.0, r.1)
  perform (patches run key path params) s =
      let r = patch platform badger codec run key path params s in (stored_answer r.0, r.1)
  perform (removes run key) s =
      let r = delete platform badger codec run key s in (removed_answer r.0, r.1)

  unfoldable pub perform_all :
      List Op → StorageInstance badger → List Answer × StorageInstance badger
  perform_all [] s = ([], s)
  perform_all (op ∷ ops) s =
      let now = perform op s in let later = perform_all ops now.1 in (now.0 ∷ later.0, later.1)

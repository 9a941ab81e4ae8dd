-- ===== src/Service/Waiting/Calls.antt =====
-- data/data.go by the clock: the methods that call the database once, and all of them together.
use iot_ephemeral_value_stor.Base.{
  ℕ, ◌+◌, refl, Option, none, some, Text, arith, Result, ok, err, panic,
}
use iot_ephemeral_value_stor.Json.{Value, Fields}
use iot_ephemeral_value_stor.Domain.{Platform}
use iot_ephemeral_value_stor.Codec.{Codec}
use iot_ephemeral_value_stor.Storage.{Badger, StorageInstance, ReadRun, WriteRun}
use iot_ephemeral_value_stor.Storage.Deadlines.{Context, read_run, latest}
use iot_ephemeral_value_stor.Storage.Deadlines.Returns.{read_run-Waits}
use iot_ephemeral_value_stor.Service.{
  Run, Params, authorised, upload, patch, delete, download_json, download_field,
}
use iot_ephemeral_value_stor.Service.Waiting.{
  Pace, run_of, paced_write, after_write, paced_patch, InTime, paced_write-Waits,
  paced_patch-InTime,
}

module _ (platform : Platform) (badger : Badger) (codec : Codec) where
  abbrev Outcome : Type 0 → Type 0
  Outcome A = Result A × StorageInstance badger

  abbrev read_only : Pace → ℕ → ReadRun → Run
  read_only pace start read = run_of platform badger codec pace start read start WriteRun.completes

  abbrev write_only : Pace → ℕ → WriteRun → Run
  write_only pace start write =
      run_of platform badger codec pace start ReadRun.completes start write

  -- A call that is refused for its key does not come to the database.
  abbrev pub checked_write :
      {A : Type 0}
      → Pace
      → ℕ
      → Context
      → StorageInstance badger
      → (Run → A)
      → Result Text
      → Option (ℕ × A)
  checked_write pace start ctx s call (ok down) =
      after_write platform badger codec (paced_write platform badger codec pace start ctx s)
        (λ write. call (write_only pace start write))
  checked_write pace start ctx s call _ =
      some (start, call (write_only pace start WriteRun.completes))

  unfoldable pub paced_upload :
      Pace
      → ℕ
      → Context
      → Text
      → Params
      → StorageInstance badger
      → Option (ℕ × Outcome (Text × Fields))
  paced_upload pace start ctx upload_key params s =
      checked_write pace start ctx s (λ run. upload platform badger codec run upload_key params s)
        (authorised platform upload_key)

  unfoldable pub paced_delete :
      Pace → ℕ → Context → Text → StorageInstance badger → Option (ℕ × Outcome Text)
  paced_delete pace start ctx upload_key s =
      checked_write pace start ctx s (λ run. delete platform badger codec run upload_key s)
        (authorised platform upload_key)

  abbrev pub when_read : {A : Type 0} → Option (ℕ × ReadRun) → (ReadRun → A) → Option (ℕ × A)
  when_read none f = none
  when_read (some (time, read)) f = some (time, f read)

  unfoldable pub paced_download_json :
      Pace → ℕ → Context → Text → StorageInstance badger → Option (ℕ × Result Text)
  paced_download_json pace start ctx download_key s =
      when_read (read_run pace.read_choice start ctx pace.reading)
        (λ read. download_json platform badger codec (read_only pace start read) download_key s)

  unfoldable pub paced_download_field :
      Pace → ℕ → Context → Text → Text → StorageInstance badger → Option (ℕ × Result Value)
  paced_download_field pace start ctx download_key field_path s =
      when_read (read_run pace.read_choice start ctx pace.reading) (λ read.
        download_field platform badger codec (read_only pace start read) download_key field_path s)

  module _ (pace : Pace) (start : ℕ) (ctx : Context) (s : StorageInstance badger) where
    abbrev AtMost : {A : Type 0} → (Run → A) → ℕ → Option (ℕ × A) → Type 0
    AtMost call end r = InTime platform badger codec call start end r

    checked_write-InTime :
        {A : Type 0} (call : Run → A) (checked : Result Text)
        → AtMost call (start + s.write_timeout) (checked_write pace start ctx s call checked)
    checked_write-InTime call (ok down) =
        let (time, write, e, low, high) =
          paced_write-Waits platform badger codec pace start ctx s in
        rw e (time, write_only pace start write, refl, low, high)
    checked_write-InTime call (err e) =
        (start, write_only pace start WriteRun.completes, refl, omega arith, omega arith)
    checked_write-InTime call panic =
        (start, write_only pace start WriteRun.completes, refl, omega arith, omega arith)

    when_read-InTime :
        {A : Type 0} (call : Run → A)
        → AtMost call (latest start ctx.deadline) (
            when_read
              (read_run pace.read_choice start ctx pace.reading)
              (λ read. call (read_only pace start read)))
    when_read-InTime call =
        let (time, read, e, low, high) = read_run-Waits pace.read_choice start ctx pace.reading in
        rw e (time, read_only pace start read, refl, low, high)

    -- Whatever the database does, also if it hangs, each method returns, with the result of the call
    -- for some course of its calls of the database, and not before its start. An upload and a
    -- deletion are over after one write timeout; a download by its context's deadline; and a patch
    -- one write timeout after that. A context without a deadline is given ten seconds, and one whose
    -- deadline is over counts from the start.
    pub paced_calls-InTime :
        (key path : Text) (params : Params)
        → AtMost
            (λ run. upload platform badger codec run key params s)
            (start + s.write_timeout)
            (paced_upload pace start ctx key params s)
          × AtMost
              (λ run. delete platform badger codec run key s)
              (start + s.write_timeout)
              (paced_delete pace start ctx key s)
          × AtMost
              (λ run. patch platform badger codec run key path params s)
              (latest start ctx.deadline + s.write_timeout)
              (paced_patch platform badger codec pace start ctx key path params s)
          × AtMost
              (λ run. download_json platform badger codec run key s)
              (latest start ctx.deadline)
              (paced_download_json pace start ctx key s)
          × AtMost
              (λ run. download_field platform badger codec run key path s)
              (latest start ctx.deadline)
              (paced_download_field pace start ctx key path s)
    unfolding paced_upload paced_delete paced_download_json paced_download_field
    paced_calls-InTime key path params = (
      checked_write-InTime _ (authorised platform key),
      checked_write-InTime _ (authorised platform key),
      paced_patch-InTime platform badger codec pace start ctx key path params s,
      when_read-InTime _,
      when_read-InTime _,
    )

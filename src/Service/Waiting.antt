-- ===== src/Service/Waiting.antt =====
-- data/data.go by the clock: how long Patch waits for the storage, which it reads and then writes.
pub mod Calls
use iot_ephemeral_value_stor.Base.{
  ℕ, ◌+◌, ◌≤◌, ◌≡◌, refl, sym, ap, Bool, Option, none, some, Text, codes, if◌then◌else◌, arith,
  Result, ok, err, panic, ◌==◌, Bool-cases, inl, inr,
}
use iot_ephemeral_value_stor.Json.{Fields}
use iot_ephemeral_value_stor.Domain.{Platform}
use iot_ephemeral_value_stor.Codec.{Codec}
use iot_ephemeral_value_stor.Storage.{Badger, StorageInstance, ReadRun, WriteRun, retrieve}
use iot_ephemeral_value_stor.Storage.Deadlines.{Context, Course, read_run, write_run, latest}
use iot_ephemeral_value_stor.Storage.Deadlines.Returns.{Waits, read_run-Waits, write_run-Waits}
use iot_ephemeral_value_stor.Service.{
  Run, Params, wrapped, pure, ◌>>=◌, authorised, patch, patch_onto,
}

-- How the transactions of one call go, which case Go takes where two are ready, and what the clock
-- reads for the time stamp.
pub record Pace : Type 0 where
  pub reading : Course
  pub writing : Course
  pub now : ℕ
  pub read_choice : Bool
  pub write_choice : Bool
  pub other_choice : Bool

module _ (platform : Platform) (badger : Badger) (codec : Codec) where
  -- What a call returns, and when.
  abbrev pub Outcome : Type 0
  Outcome = Result (Text × Fields) × StorageInstance badger

  abbrev pub Timed : Type 0
  Timed = Option (ℕ × Outcome)

  abbrev pub run_of : Pace → ℕ → ReadRun → ℕ → WriteRun → Run
  run_of pace start read time write = record {
    read = read;
    read_at = start;
    now = pace.now;
    write = write;
    write_at = time;
  }

  -- A write that the breaker refuses is not waited for.
  abbrev pub paced_write : Pace → ℕ → Context → StorageInstance badger → Option (ℕ × WriteRun)
  paced_write pace time ctx s =
      if s.degraded == 0
      then write_run pace.write_choice pace.other_choice time s.write_timeout ctx pace.writing
      else some (time, WriteRun.completes)

  abbrev pub after_write : {A : Type 0} → Option (ℕ × WriteRun) → (WriteRun → A) → Option (ℕ × A)
  after_write none f = none
  after_write (some (time, write)) f = some (time, f write)

  abbrev pub after_read :
      Pace
      → ℕ
      → Context
      → Text
      → Text
      → Params
      → StorageInstance badger
      → ReadRun
      → ℕ
      → Result (Option Fields)
      → Timed
  after_read pace start ctx down path params s read time (ok none) = some (time, (panic, s))
  after_read pace start ctx down path params s read time (ok (some m)) =
      after_write (paced_write pace time ctx s) (λ write.
        patch_onto platform badger codec (run_of pace start read time write) down path params
          (some m) s)
  after_read pace start ctx down path params s read time (err e) = some (time, (err e, s))
  after_read pace start ctx down path params s read time panic = some (time, (panic, s))

  abbrev pub paced_read :
      Pace
      → ℕ
      → Context
      → Text
      → Text
      → Params
      → StorageInstance badger
      → Option (ℕ × ReadRun)
      → Timed
  paced_read pace start ctx down path params s none = none
  paced_read pace start ctx down path params s (some (time, read)) =
      after_read pace start ctx down path params s read time
        (wrapped (codes "error retrieving existing data") (retrieve badger codec read start down s))

  abbrev pub after_check :
      Pace → ℕ → Context → Text → Params → StorageInstance badger → Result Text → Timed
  after_check pace start ctx path params s (ok down) =
      paced_read pace start ctx down path params s
        (read_run pace.read_choice start ctx pace.reading)
  after_check pace start ctx path params s (err e) = some (start, (err e, s))
  after_check pace start ctx path params s panic = some (start, (panic, s))

  -- Patch, begun at a time: `none` is never. A write is counted as waited for also where the document
  -- cannot be encoded.
  unfoldable pub paced_patch :
      Pace → ℕ → Context → Text → Text → Params → StorageInstance badger → Timed
  paced_patch pace start ctx upload_key path params s =
      after_check pace start ctx path params s (authorised platform upload_key)

  -- The result is that of the call for a course of its database calls, and comes in time.
  abbrev pub InTime : {A : Type 0} → (Run → A) → ℕ → ℕ → Option (ℕ × A) → Type 0
  InTime call start end r =
      (time : ℕ) × (run : Run) × (r ≡ some (time, call run)) × (start ≤ time) × (time ≤ end)

  pub paced_write-Waits :
      (pace : Pace) (time : ℕ) (ctx : Context) (s : StorageInstance badger)
      → Waits (paced_write pace time ctx s) time (time + s.write_timeout)
  paced_write-Waits pace time ctx s = elim (Bool-cases (s.degraded == 0)) [
    | inl e ↦
        rw e (
          write_run-Waits pace.write_choice pace.other_choice time s.write_timeout ctx pace.writing)
    | inr e ↦ (time, WriteRun.completes, rw e, omega arith, omega arith)
  ]

  module _ (pace : Pace) (start : ℕ) (ctx : Context) (upload_key path : Text) (params : Params)
      (s : StorageInstance badger) where
    abbrev end_of_patch : ℕ
    end_of_patch = latest start ctx.deadline + s.write_timeout

    abbrev patch_with : Run → Outcome
    patch_with run = patch platform badger codec run upload_key path params s

    patch-read :
        (run : Run) (down : Text) (r : Result (Option Fields))
        → authorised platform upload_key ≡ ok down
        → wrapped
            (codes "error retrieving existing data")
            (retrieve badger codec run.read run.read_at down s)
          ≡ r
        → patch_with run ≡ (pure r >>= patch_onto platform badger codec run down path params) s
    unfolding patch
    patch-read run down r valid e = rw valid (
        ap
          (λ (found : Result (Option Fields)).
            (pure {S = StorageInstance badger} found
                >>= patch_onto platform badger codec run down path params)
              s)
          e)

    found-InTime :
        (down : Text) (read : ReadRun) (time : ℕ) (r : Result (Option Fields))
        → authorised platform upload_key ≡ ok down
        → wrapped (codes "error retrieving existing data") (retrieve badger codec read start down s)
          ≡ r
        → start ≤ time
        → time ≤ latest start ctx.deadline
        → InTime patch_with start end_of_patch
            (after_read pace start ctx down path params s read time r)
    unfolding patch_onto
    found-InTime down read time (ok none) valid e low high = (
      time,
      run_of pace start read time WriteRun.completes,
      ap (λ o. some (time, o)) (sym (patch-read _ down (ok none) valid e)),
      low,
      omega arith,
    )
    found-InTime down read time (ok (some m)) valid e low high =
        let (t, write, returns, from, to) = paced_write-Waits pace time ctx s in
        rw returns (
          t,
          run_of pace start read time write,
          ap (λ o. some (t, o)) (sym (patch-read _ down (ok (some m)) valid e)),
          omega arith,
          omega arith,
        )
    found-InTime down read time (err x) valid e low high = (
      time,
      run_of pace start read time WriteRun.completes,
      ap (λ o. some (time, o)) (sym (patch-read _ down (err x) valid e)),
      low,
      omega arith,
    )
    found-InTime down read time panic valid e low high = (
      time,
      run_of pace start read time WriteRun.completes,
      ap (λ o. some (time, o)) (sym (patch-read _ down panic valid e)),
      low,
      omega arith,
    )

    abbrev immediate : Run
    immediate = run_of pace start ReadRun.completes start WriteRun.completes

    checked-InTime :
        (a : Result Text)
        → authorised platform upload_key ≡ a
        → InTime patch_with start end_of_patch (after_check pace start ctx path params s a)
    unfolding patch
    checked-InTime (ok down) e =
        let (time, read, returns, low, high) =
          read_run-Waits pace.read_choice start ctx pace.reading in
        rw returns (found-InTime down read time _ e refl low high)
    checked-InTime (err x) e = (start, immediate, rw e refl, omega arith, ground arith)
    checked-InTime panic e = (start, immediate, rw e refl, omega arith, ground arith)

    -- Whatever the database does, a patch returns, with the result of the call for some course of its
    -- calls of the database, and not after its context's deadline and one write timeout; if it has no
    -- deadline, not after ten seconds and one write timeout.
    pub paced_patch-InTime :
        InTime patch_with start end_of_patch (paced_patch pace start ctx upload_key path params s)
    unfolding paced_patch
    paced_patch-InTime = checked-InTime (authorised platform upload_key) refl

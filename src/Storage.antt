-- ===== src/Storage.antt =====
-- storage/storage.go: the database behind a circuit breaker. A transaction runs in a goroutine while
-- the caller waits for it, for its context and, if it writes, for the write timeout. Which of these
-- comes first is the caller's argument of type `ReadRun` or `WriteRun`. A write whose caller has
-- gone away stays in `pending` until it lands or is lost.
pub mod Entries
pub mod Breaker
pub mod Provenance
pub mod Opening
pub mod Health
pub mod Disk
pub mod Deadlines
pub mod Collection
pub mod Flight
pub mod Tests
mod ProcessTests
use iot_ephemeral_value_stor.Base.{
  ℕ, ◌+◌, ◌*◌, ◌≤◌, ◌<◌, ◌≡◌, ◌≢◌, Bool, true, false, Option, none, some, List, [], ◌∷◌, ◌++◌, Text,
  codes, ltb, if◌then◌else◌, ◌==◌, Cause, Error, wrap, storage_timeout, storage_degraded,
  context_done, key_not_found, database_error, encoding_error, Result, ok, err, is_empty,
  error_text,
}
use iot_ephemeral_value_stor.Base.Int.{ℤ, pos, ltb_ℤ, decimal_ℤ}
use iot_ephemeral_value_stor.Json.{Fields, end}
use iot_ephemeral_value_stor.Codec.{Codec}

-- One second, in the nanoseconds of time.Duration.
abbrev pub second : ℕ
second = 1000000000

abbrev pub default_write_timeout : ℕ
default_write_timeout = 10 * second

abbrev pub default_operation_timeout : ℕ
default_operation_timeout = 10 * second

-- The database, badger v4, by its keys: what a committed transaction does, and what a read at a
-- time finds. An entry expires at a whole second, when its time to live is over or up to a second
-- before.
pub record Badger : Type 1 where
  pub Db : Type 0
  pub empty : Db
  pub get : ℕ → Text → Db → Option Text
  pub set_entry : ℕ → ℕ → Text → Text → Db → Db
  pub delete : Text → Db → Db
  pub expires_at : ℕ → ℕ → ℕ
  pub expires_at-le : (now ttl : ℕ) → expires_at now ttl ≤ now + ttl
  pub lt-expires_at : (now ttl : ℕ) → now + ttl < expires_at now ttl + second
  pub get-empty : (now : ℕ) (key : Text) → get now key empty ≡ none
  pub get-set_entry :
      (now at ttl : ℕ) (key v : Text) (db : Db)
      → get now key (set_entry at ttl key v db)
        ≡ (if ltb now (expires_at at ttl) then some v else none)
  pub get-set_entry_ne :
      (now at ttl : ℕ) (key other v : Text) (db : Db)
      → key ≢ other
      → get now other (set_entry at ttl key v db) ≡ get now other db
  pub get-delete : (now : ℕ) (key : Text) (db : Db) → get now key (delete key db) ≡ none
  pub get-delete_ne :
      (now : ℕ) (key other : Text) (db : Db)
      → key ≢ other
      → get now other (delete key db) ≡ get now other db

-- How a read goes: the context is done before it starts; the transaction runs to its end; the
-- database fails; or the context is done first.
pub data ReadRun : Type 0 where
  done_before : Cause → ReadRun
  completes : ReadRun
  fails : Text → ReadRun
  interrupted : Cause → ReadRun

-- How a write goes: as a read, or the write timeout comes first. A transaction that fails is
-- discarded.
pub data WriteRun : Type 0 where
  done_before : Cause → WriteRun
  completes : WriteRun
  fails : Text → WriteRun
  interrupted : Cause → WriteRun
  times_out : WriteRun

-- The body of a write transaction: an entry with the time of its making and its time to live.
pub data Write : Type 0 where
  sets : ℕ → ℕ → Text → Text → Write
  deletes : Text → Write

abbrev pub read_cancelled : Cause → Error
read_cancelled c = wrap (codes "database read operation cancelled") (context_done c)

abbrev pub write_cancelled : Cause → Error
write_cancelled c = wrap (codes "database write operation cancelled") (context_done c)

-- What diskFreeBytes returns.
pub data DiskFree : Type 0 where
  bytes : ℤ → DiskFree
  unknown : Error → DiskFree

pub record HealthStatus : Type 0 where
  pub healthy : Bool
  pub degraded : Bool
  pub message : Text
  pub disk_free_bytes : ℤ

module _ (badger : Badger) where
  open badger use {Db, get, set_entry, delete}

  -- `degraded` is the atomic integer, and `pending` the goroutines that nobody waits for.
  pub record StorageInstance : Type 0 where
    pub db : Db
    pub persist_duration : ℕ
    pub write_timeout : ℕ
    pub store_path : Text
    pub degraded : ℕ
    pub pending : List Write

  unfoldable pub commit : Write → Db → Db
  commit (sets now ttl key v) db = set_entry now ttl key v db
  commit (deletes key) db = delete key db

  unfoldable pub view_with_context {ℓ} :
      {A : Type ℓ} → ReadRun → (Db → Result A) → StorageInstance → Result A
  view_with_context (ReadRun.done_before c) fn s = err (read_cancelled c)
  view_with_context ReadRun.completes fn s = fn s.db
  view_with_context (ReadRun.fails e) fn s = err (database_error e)
  view_with_context (ReadRun.interrupted c) fn s = err (read_cancelled c)

  -- The body of updateWithContext behind the test of the breaker.
  unfoldable pub run_write :
      WriteRun → Write → StorageInstance → Result (Unit {0}) × StorageInstance
  unfolding commit
  run_write (WriteRun.done_before c) w s = (err (write_cancelled c), s)
  run_write WriteRun.completes w s = (ok tt, record s { db = commit w s.db })
  run_write (WriteRun.fails e) w s = (err (database_error e), s)
  run_write (WriteRun.interrupted c) w s =
      (err (write_cancelled c), record s { pending = w ∷ s.pending })
  run_write WriteRun.times_out w s =
      (err storage_timeout, record s { degraded = 1; pending = w ∷ s.pending })

  unfoldable pub update_with_context :
      WriteRun → Write → StorageInstance → Result (Unit {0}) × StorageInstance
  unfolding run_write
  update_with_context run w s =
      if s.degraded == 0 then run_write run w s else (err storage_degraded, s)

  unfoldable pub reset_degraded : StorageInstance → StorageInstance
  reset_degraded s = record s { degraded = 0 }

  unfoldable pub is_degraded : StorageInstance → Bool
  is_degraded s = if s.degraded == 0 then false else true

  abbrev pub found_json : Option Text → Result Text
  found_json none = err key_not_found
  found_json (some json_data) = ok json_data

  unfoldable pub get_json : ReadRun → ℕ → Text → StorageInstance → Result Text
  unfolding view_with_context
  get_json run now download_key s =
      view_with_context run (λ db. found_json (get now download_key db)) s

  module _ (codec : Codec) where
    open codec use {marshal, unmarshal}

    unfoldable pub store :
        WriteRun → ℕ → Text → Fields → StorageInstance → Result (Unit {0}) × StorageInstance
    store run now download_key data_to_store s = elim (marshal data_to_store) [
      | none ↦ (err encoding_error, s)
      | some updated_json ↦
          update_with_context run (sets now s.persist_duration download_key updated_json) s
    ]

    -- A missing key reads as the empty map.
    abbrev pub retrieved : Option Text → Result (Option Fields)
    retrieved none = ok (some end)
    retrieved (some json_data) = unmarshal json_data

    unfoldable pub retrieve : ReadRun → ℕ → Text → StorageInstance → Result (Option Fields)
    unfolding view_with_context
    retrieve run now download_key s =
        view_with_context run (λ db. retrieved (get now download_key db)) s

  unfoldable pub delete_key :
      WriteRun → Text → StorageInstance → Result (Unit {0}) × StorageInstance
  delete_key run download_key s = update_with_context run (deletes download_key) s

  abbrev pub min_free_bytes : ℕ
  min_free_bytes = 104857600

  abbrev pub disk_status : DiskFree → HealthStatus → HealthStatus
  disk_status (unknown e) status = status
  disk_status (bytes free) status =
      if ltb_ℤ free (pos min_free_bytes)
      then record status {
        healthy = false;
        message = codes "low disk space: " ++ decimal_ℤ free ++ codes " bytes free";
        disk_free_bytes = free;
      }
      else record status { disk_free_bytes = free }

  -- The arguments are what the read of the probe key returned, where `none` is success or a missing
  -- key, and what diskFreeBytes returned, which is not asked of a database in memory.
  unfoldable pub check_health : Option Error → DiskFree → StorageInstance → HealthStatus
  check_health probe free s =
      if s.degraded == 0
      then elim probe [
        | none ↦
            let status : HealthStatus = record {
              healthy = true;
              degraded = false;
              message = codes "ok";
              disk_free_bytes = pos 0;
            } in
            if is_empty s.store_path then status else disk_status free status
        | some e ↦ record {
          healthy = false;
          degraded = false;
          message = codes "database read check failed: " ++ error_text e;
          disk_free_bytes = pos 0;
        }
      ]
      else record {
        healthy = false;
        degraded = true;
        message = codes "storage is degraded after a write timeout";
        disk_free_bytes = pos 0;
      }

-- ===== src/Storage/Opening.antt =====
-- Opening a storage, in memory or at a path. `none` ends the process.
use iot_ephemeral_value_stor.Base.{
  ℕ, ◌*◌, Bool, Option, none, some, [], Text, if◌then◌else◌, Result,
}
use iot_ephemeral_value_stor.Storage.{
  Badger, StorageInstance, second, default_write_timeout, sets, WriteRun, update_with_context,
}

module _ (badger : Badger) where
  -- How opening at a path goes: the absolute path, whether the directory is missing, whether it can
  -- be made, and the database.
  pub record Opening : Type 0 where
    pub absolute : Option Text
    pub missing : Bool
    pub made : Bool
    pub opened : Option (badger.Db)

  abbrev instance_of : ℕ → Text → badger.Db → StorageInstance badger
  instance_of ttl path db = record {
    db = db;
    persist_duration = ttl;
    write_timeout = default_write_timeout;
    store_path = path;
    degraded = 0;
    pending = [];
  }

  unfoldable pub new_in_memory_storage : Option (badger.Db) → Option (StorageInstance badger)
  new_in_memory_storage none = none
  new_in_memory_storage (some db) = some (instance_of (60 * second) [] db)

  abbrev opened_at : ℕ → Text → Option (badger.Db) → Option (StorageInstance badger)
  opened_at ttl path none = none
  opened_at ttl path (some db) = some (instance_of ttl path db)

  unfoldable pub new_persistent_storage : ℕ → Opening → Option (StorageInstance badger)
  new_persistent_storage ttl o = elim o.absolute [
    | none ↦ none
    | some path ↦
        let storage = opened_at ttl path o.opened in
        if o.missing then (if o.made then storage else none) else storage
  ]

  unfoldable pub store_raw_for_testing :
      WriteRun
      → ℕ
      → Text
      → Text
      → StorageInstance badger
      → Result (Unit {0}) × StorageInstance badger
  unfolding update_with_context
  store_raw_for_testing run now download_key data_text s =
      update_with_context badger run (sets now s.persist_duration download_key data_text) s

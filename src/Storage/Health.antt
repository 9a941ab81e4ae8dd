-- ===== src/Storage/Health.antt =====
-- When the health check is content.
use iot_ephemeral_value_stor.Base.{
  ◌≡◌, ◌⊎◌, ◌↔◌, true, Option, none, some, Text, arith, is_empty, Error,
}
use iot_ephemeral_value_stor.Base.Int.{pos, negsuc, ◌≤ℤ◌}
use iot_ephemeral_value_stor.Storage.{
  DiskFree, bytes, unknown, Badger, StorageInstance, check_health, min_free_bytes,
}

module _ (badger : Badger) where
  -- There is room on the disk, where the storage is on one and its free space is known.
  abbrev pub HasRoom : Text → DiskFree → Type 0
  HasRoom path (unknown e) = Unit
  HasRoom path (bytes free) = (is_empty path ≡ true) ⊎ (pos (min_free_bytes badger) ≤ℤ free)

  abbrev pub IsWell : Option Error → DiskFree → StorageInstance badger → Type 0
  IsWell probe free s = (s.degraded ≡ 0) × (probe ≡ none) × HasRoom s.store_path free

  -- The status is healthy exactly if the breaker is closed, the probe was read, and there is room.
  pub check_health_iff :
      (probe : Option Error) (free : DiskFree) (s : StorageInstance badger)
      → ((check_health badger probe free s).healthy ≡ true) ↔ IsWell probe free s
  unfolding check_health
  check_health_iff (some e) free s = ground arith
  check_health_iff none (unknown e) s = ground arith
  check_health_iff none (bytes (pos n)) s = ground arith
  check_health_iff none (bytes (negsuc n)) s = ground arith

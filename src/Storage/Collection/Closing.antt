-- ===== src/Storage/Collection/Closing.antt =====
-- What Close changes.
use iot_ephemeral_value_stor.Base.{◌≡◌, refl, Bool, true, false, if◌then◌else◌, arith, ok, panic}
use iot_ephemeral_value_stor.Storage.{Badger}
use iot_ephemeral_value_stor.Storage.Collection.{
  after_close, close_channel, ValueLog, Collector, absent, waiting, collecting, stopped, Process,
}

module _ (badger : Badger) (log : ValueLog badger) where
  -- Close changes nothing but that the process is closed.
  pub closed-close :
      (p : Process badger log) (c : Collector)
      → let q = after_close badger log (close_channel badger log c p) p in
        (q.storage ≡ p.storage) × (q.closed ≡ true) × (q.collector ≡ p.collector)
  closed-close p absent = (refl, refl, refl)
  closed-close p waiting = by_closed p.closed refl
    where
      by_closed :
          (b : Bool)
          → p.closed ≡ b
          → let q =
              after_close badger log (if b then panic else ok (record p { closed = true })) p in
            (q.storage ≡ p.storage) × (q.closed ≡ true) × (q.collector ≡ p.collector)
      by_closed true e = (refl, e, refl)
      by_closed false e = (refl, refl, refl)
  closed-close p collecting = ground arith
  closed-close p stopped = ground arith

-- ===== src/Storage/Collection/Loop.antt =====
-- The loop of one collection.
use iot_ephemeral_value_stor.Base.{
  ℕ, zero, suc, ◌<◌, ◌≡◌, refl, sym, subst, Bool, true, false, Option, none, some, replicate, arith,
}
use iot_ephemeral_value_stor.Storage.{Badger, StorageInstance}
use iot_ephemeral_value_stor.Storage.Collection.{
  after_gc, ValueLog, waiting, collecting, collects, Process, step, run_all,
}

module _ (badger : Badger) (log : ValueLog badger) where
  idle :
      (n : ℕ) (s : StorageInstance badger) (b : Bool)
      → (run_all badger log
          (replicate n collects)
          (record { storage = s; closed = b; collector = waiting })).collector
        ≡ waiting
  unfolding run_all step
  idle zero s b = refl
  idle (suc n) s b = idle n s b

  loop_ends :
      (n : ℕ) (s : StorageInstance badger) (b : Bool)
      → log.discardable s.db < n
      → (run_all badger log
          (replicate n collects)
          (record { storage = s; closed = b; collector = collecting })).collector
        ≡ waiting
  unfolding run_all step
  loop_ends zero s b h = absurd (omega arith)
  loop_ends (suc n) s true h = idle n s true
  loop_ends (suc n) s false h = by_result (log.run_value_log_gc s.db) (λ db e.
      loop_ends n (record s { db = db }) false
        (omega (arith, log.discardable-run_value_log_gc s.db db e)))
    where
      by_result :
          (o : Option (badger.Db))
          → ((db : badger.Db)
              → o ≡ some db
              → (run_all badger log (replicate n collects) (record {
                storage = record s { db = db };
                closed = false;
                collector = collecting;
              })).collector
                ≡ waiting)
          → (run_all badger log (replicate n collects) (
              after_gc badger log o
                (record { storage = s; closed = false; collector = collecting }))).collector
            ≡ waiting
      by_result none smaller = idle n s false
      by_result (some db) smaller = smaller db refl

  -- A collection that nothing comes between ends: the loop returns to its select once
  -- `RunValueLogGC` has been called more often than there is to discard.
  pub run_all-collects :
      (n : ℕ) (p : Process badger log)
      → p.collector ≡ collecting
      → log.discardable p.storage.db < n
      → (run_all badger log (replicate n collects) p).collector ≡ waiting
  run_all-collects n p at h =
      subst
        (λ c.
          (run_all badger log (replicate n collects)
            (record { storage = p.storage; closed = p.closed; collector = c })).collector
          ≡ waiting)
        (sym at) (loop_ends n p.storage p.closed h)

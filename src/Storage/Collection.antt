-- ===== src/Storage/Collection.antt =====
-- storage/storage.go: the goroutine that collects the value log, and Close. The process runs by
-- events, in any order: an event that cannot happen changes nothing. A collection is a loop of calls
-- of `RunValueLogGC`, each an event of its own, and requests may come between them.
pub mod Closing
pub mod Loop
use iot_ephemeral_value_stor.Base.{
  ℕ, zero, suc, ◌<◌, ◌≡◌, Bool, true, false, Option, none, some, List, [], ◌∷◌, Text, if◌then◌else◌,
  Result, ok, panic,
}
use iot_ephemeral_value_stor.Storage.{
  Badger, StorageInstance, Write, WriteRun, commit, update_with_context, reset_degraded,
}

-- The value log of badger, and what a transaction of a database that is closed returns. A call of
-- `RunValueLogGC` with the ratio 0.5 rewrites a file, which frees space, or returns an error, `none`:
-- there is nothing to rewrite.
pub record ValueLog (badger : Badger) : Type 0 where
  pub closed_error : Text
  pub run_value_log_gc : badger.Db → Option (badger.Db)
  pub discardable : badger.Db → ℕ
  pub discardable-run_value_log_gc :
      (db db' : badger.Db) → run_value_log_gc db ≡ some db' → discardable db' < discardable db

-- Where the goroutine stands: at its select, in the loop, or returned. In memory there is none.
pub data Collector : Type 0 where
  absent waiting collecting stopped : Collector

pub data Event : Type 0 where
  writes : WriteRun → Write → Event
  lands : ℕ → Event
  is_lost : ℕ → Event
  resets : Event
  closes : Event
  ticks : Event
  collects : Event
  sees_stop : Event

abbrev pub get_elem? : {A : Type 0} → List A → ℕ → Option A
get_elem? [] n = none
get_elem? (x ∷ l) zero = some x
get_elem? (x ∷ l) (suc n) = get_elem? l n

abbrev pub remove_at : {A : Type 0} → ℕ → List A → List A
remove_at n [] = []
remove_at zero (x ∷ l) = l
remove_at (suc n) (x ∷ l) = x ∷ remove_at n l

module _ (badger : Badger) (log : ValueLog badger) where
  -- `closed` says that Close has closed the channel, if there is one, and the database.
  pub record Process : Type 0 where
    pub storage : StorageInstance badger
    pub closed : Bool
    pub collector : Collector

  -- The goroutine of startValueLogGC takes one step. Where its channel is closed and the ticker has
  -- fired too, the select takes either. A closed database returns an error.
  abbrev pub ticked : Collector → Collector
  ticked waiting = collecting
  ticked c = c

  abbrev pub stop_seen : Bool → Collector → Collector
  stop_seen true waiting = stopped
  stop_seen closed c = c

  abbrev pub after_gc : Option (badger.Db) → Process → Process
  after_gc none p = record p { collector = waiting }
  after_gc (some db) p = record p { storage = record p.storage { db = db } }

  abbrev pub collected : Collector → Process → Process
  collected collecting p = after_gc (if p.closed then none else log.run_value_log_gc p.storage.db) p
  collected c p = p

  -- Close. Closing a channel that is closed panics.
  abbrev pub close_channel : Collector → Process → Result Process
  close_channel absent p = ok (record p { closed = true })
  close_channel c p = if p.closed then panic else ok (record p { closed = true })

  unfoldable pub close : Process → Result Process
  close p = close_channel p.collector p

  abbrev pub after_close : Result Process → Process → Process
  after_close (ok q) p = q
  after_close _ p = p

  -- The n-th of the writes left behind ends; a closed database returns an error instead of committing it.
  abbrev pub landed : Bool → Option Write → ℕ → StorageInstance badger → StorageInstance badger
  landed closed none n s = s
  landed true (some w) n s = record s { pending = remove_at n s.pending }
  landed false (some w) n s = record s {
    db = commit badger w s.db;
    pending = remove_at n s.pending;
  }

  -- A transaction of a database that is closed returns an error, whenever else it would complete.
  abbrev pub transaction : Bool → WriteRun → WriteRun
  transaction true WriteRun.completes = WriteRun.fails log.closed_error
  transaction closed run = run

  unfoldable pub step : Event → Process → Process
  unfolding update_with_context reset_degraded close
  step (writes run w) p = record p {
    storage = (update_with_context badger (transaction p.closed run) w p.storage).1;
  }
  step (lands n) p = record p {
    storage = landed p.closed (get_elem? p.storage.pending n) n p.storage;
  }
  step (is_lost n) p = record p {
    storage = record p.storage { pending = remove_at n p.storage.pending };
  }
  step resets p = record p { storage = reset_degraded badger p.storage }
  step closes p = after_close (close p) p
  step ticks p = record p { collector = ticked p.collector }
  step collects p = collected p.collector p
  step sees_stop p = record p { collector = stop_seen p.closed p.collector }

  unfoldable pub run_all : List Event → Process → Process
  run_all [] p = p
  run_all (e ∷ events) p = run_all events (step e p)

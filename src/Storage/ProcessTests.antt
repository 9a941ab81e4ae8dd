-- ===== src/Storage/ProcessTests.antt =====
-- Runs of the storage with its goroutine, its clock and its disk, and its theorems there.
use mathlib.Core.Option.{some-ne-none}
use iot_ephemeral_value_stor.Base.{
  length, ◌+◌, ℕ, ◌*◌, ◌≤◌, ◌<◌, ◌≡◌, zero, suc, refl, sym, subst, true, false, Option, none, some,
  [], List, ◌∷◌, Text, codes, compare_text, arith, key_not_found, ok, err, panic, deadline_exceeded,
  canceled,
}
use iot_ephemeral_value_stor.Base.Int.{mul_int64}
use iot_ephemeral_value_stor.Storage.{
  Write, run_write, StorageInstance, sets, WriteRun, ReadRun, second, check_health, get_json,
}
use iot_ephemeral_value_stor.Storage.Disk.{Statfs, fills, disk_free_bytes_unix}
use iot_ephemeral_value_stor.Storage.Deadlines.{Context, succeeds, hangs, read_run, write_run}
use iot_ephemeral_value_stor.Storage.Collection.{
  ValueLog, waiting, stopped, Event, writes, lands, closes, ticks, collects, sees_stop, Process,
  step, run_all, close,
}
use iot_ephemeral_value_stor.Storage.Flight
use iot_ephemeral_value_stor.Storage.Flight.{fly, fly_all, reset_count, cancelled, fly_all-bound}
use iot_ephemeral_value_stor.Storage.Tests.{ToyDb, toy_badger, toy_set, toy_delete, start}

abbrev on_disk : StorageInstance toy_badger
on_disk = record start { store_path = codes "/data" }

abbrev volume : Statfs
volume = record { bavail = 1000000; bsize = 4096 }

-- A file system that reports 2 ^ 51 free blocks of 4096 bytes has no room.
huge_volume :
    ((check_health toy_badger none
        (disk_free_bytes_unix (fills (record { bavail = 0x8_0000_0000_0000; bsize = 4096 })))
        on_disk).healthy
      ≡ false)
    × ((check_health toy_badger none (disk_free_bytes_unix (fills volume)) on_disk).healthy ≡ true)
unfolding check_health disk_free_bytes_unix mul_int64
huge_volume = (refl, refl)

-- A value log that can drop one entry, if it is dead from its beginning.
abbrev garbage : Text
garbage = codes "garbage"

abbrev dropped : Option (Text × ℕ) → ToyDb → Option ToyDb
dropped (some (v, zero)) db = some (toy_delete garbage db)
dropped _ db = none

abbrev weight : Option (Text × ℕ) → ℕ
weight (some (v, zero)) = 1
weight _ = 0

weight-dropped :
    (o : Option (Text × ℕ)) (db db' : ToyDb)
    → dropped o db ≡ some db'
    → weight (db' garbage) < weight o
unfolding compare_text
weight-dropped none db db' e = absurd (some-ne-none db' (sym e))
weight-dropped (some (v, suc n)) db db' e = absurd (some-ne-none db' (sym e))
weight-dropped (some (v, zero)) db db' e =
    let same : toy_delete garbage db ≡ db' = cc in
    subst (λ d. weight (d garbage) < 1) same (omega arith)

abbrev toy_log : ValueLog toy_badger
toy_log = record {
  closed_error = codes "DB Closed";
  run_value_log_gc = λ db. dropped (db garbage) db;
  discardable = λ db. weight (db garbage);
  discardable-run_value_log_gc = λ db db' e. weight-dropped (db garbage) db db' e;
}

abbrev opened : Process toy_badger toy_log
opened = record {
  storage = record on_disk { db = toy_set 0 0 garbage (codes "v") on_disk.db };
  closed = false;
  collector = waiting;
}

abbrev one_write : Event
one_write = writes WriteRun.times_out (sets 0 (60 * second) (codes "k") (codes "v"))

-- The goroutine finds something to drop, and between two steps of its loop a write times out, which
-- lands afterwards.
abbrev busy : List Event
busy = ticks ∷ collects ∷ one_write ∷ collects ∷ lands 0 ∷ []

busy_run :
    ((run_all toy_badger toy_log busy opened).storage.db garbage ≡ none)
    × ((run_all toy_badger toy_log busy opened).collector ≡ waiting)
    × (get_json toy_badger ReadRun.completes 0
          (codes "k")
          (run_all toy_badger toy_log busy opened).storage
        ≡ ok (codes "v"))
unfolding run_all step compare_text get_json
busy_run = (refl, refl, refl)

-- Close while a collection runs: a later write is refused, and the goroutine returns.
abbrev closed_while_collecting : Process toy_badger toy_log
closed_while_collecting =
    run_all toy_badger toy_log
      (ticks ∷ closes ∷ writes WriteRun.completes (sets 0 second (codes "k") (codes "v")) ∷ [])
      opened

closing_runs :
    (get_json toy_badger ReadRun.completes 0 (codes "k") closed_while_collecting.storage
      ≡ err key_not_found)
    × ((run_all toy_badger toy_log (collects ∷ sees_stop ∷ []) closed_while_collecting).collector
        ≡ stopped)
unfolding run_all step compare_text get_json
closing_runs = (refl, refl)

-- Close a second time panics.
closed_twice : close toy_badger toy_log (step toy_badger toy_log closes opened) ≡ panic
unfolding step close
closed_twice = refl

-- A context without deadline: a read that hangs is given up after ten seconds, and so is a write.
abbrev patient : Context
patient = record { deadline = none; cancelled_at = none }

hanging :
    (read_run true 0 patient hangs ≡ some (10 * second, ReadRun.interrupted deadline_exceeded))
    × (write_run true true 0 (10 * second) patient hangs ≡ some (10 * second, WriteRun.times_out))
    × (read_run true 0 patient (succeeds second) ≡ some (second, ReadRun.completes))
    × (write_run true true 0 (10 * second) (record patient { cancelled_at = some second }) hangs
        ≡ some (second, WriteRun.interrupted canceled))
unfolding read_run write_run
hanging = (refl, refl, refl, refl)

-- Two writes in flight at once time out; the next is turned away.
abbrev first_write : Write
first_write = sets 0 (60 * second) (codes "k") (codes "v")

abbrev hanging_writes : List Flight.Event
hanging_writes =
    Flight.begins first_write
    ∷ Flight.begins first_write
    ∷ Flight.ends 0 WriteRun.times_out
    ∷ Flight.ends 0 WriteRun.times_out
    ∷ Flight.begins first_write
    ∷ []

abbrev ready : Flight.Flight toy_badger
ready = record { storage = start; flying = [] }

fly_all-bound_example :
    length (fly_all toy_badger hanging_writes ready).storage.pending
    ≤ 2 + 2 * reset_count hanging_writes + cancelled hanging_writes
unfolding fly run_write
fly_all-bound_example = fly_all-bound toy_badger 2 hanging_writes ready refl (omega arith)

turned_away :
    ((fly_all toy_badger hanging_writes ready).storage.pending ≡ first_write ∷ first_write ∷ [])
    × ((fly_all toy_badger hanging_writes ready).flying ≡ [])
unfolding fly_all fly run_write
turned_away = (refl, refl)

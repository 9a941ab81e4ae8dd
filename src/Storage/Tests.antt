-- ===== src/Storage/Tests.antt =====
-- A database that meets the interface, runs of the storage, and its theorems there.
use iot_ephemeral_value_stor.Base.{
  ℕ, ◌+◌, ◌*◌, ◌≤◌, ◌<◌, ◌≡◌, refl, ◌≢◌, Option, none, some, [], Text, codes, text_eq, compare_text,
  compare_text_refl, eq_of_compare_text, ltb, if◌then◌else◌, arith,
}
use iot_ephemeral_value_stor.Json.{Fields, str, end, field}
use iot_ephemeral_value_stor.Codec.Tests.{toy_codec}
use iot_ephemeral_value_stor.Storage.{
  default_write_timeout, Badger, StorageInstance, Write, sets, second, WriteRun, commit,
  update_with_context, get_json, store,
}
use iot_ephemeral_value_stor.Storage.Breaker.{Reach, Requested, here, next, writes, lands}
use iot_ephemeral_value_stor.Storage.Provenance.{get_json-Requested}

abbrev pub ToyDb : Type 0
ToyDb = Text → Option (Text × ℕ)

abbrev pub alive : ℕ → Option (Text × ℕ) → Option Text
alive now none = none
alive now (some (v, until)) = if ltb now until then some v else none

abbrev pub toy_set : ℕ → ℕ → Text → Text → ToyDb → ToyDb
toy_set at ttl key v db k = if text_eq key k then some (v, at + ttl) else db k

abbrev pub toy_delete : Text → ToyDb → ToyDb
toy_delete key db k = if text_eq key k then none else db k

pub toy_get-toy_set :
    (now at ttl : ℕ) (key v : Text) (db : ToyDb)
    → alive now (toy_set at ttl key v db key) ≡ (if ltb now (at + ttl) then some v else none)
toy_get-toy_set now at ttl key v db = ground (arith, compare_text_refl key)

pub toy_get-toy_set_ne :
    (now at ttl : ℕ) (key other v : Text) (db : ToyDb)
    → key ≢ other
    → alive now (toy_set at ttl key v db other) ≡ alive now (db other)
toy_get-toy_set_ne now at ttl key other v db apart = ground (arith, eq_of_compare_text key other)

pub toy_get-toy_delete :
    (now : ℕ) (key : Text) (db : ToyDb) → alive now (toy_delete key db key) ≡ none
toy_get-toy_delete now key db = ground (arith, compare_text_refl key)

pub toy_get-toy_delete_ne :
    (now : ℕ) (key other : Text) (db : ToyDb)
    → key ≢ other
    → alive now (toy_delete key db other) ≡ alive now (db other)
toy_get-toy_delete_ne now key other db apart = ground (arith, eq_of_compare_text key other)

pub toy_expiry : (now ttl : ℕ) → (now + ttl ≤ now + ttl) × (now + ttl < now + ttl + second)
toy_expiry now ttl = (omega arith, omega arith)

abbrev pub toy_badger : Badger
toy_badger = record {
  Db = ToyDb;
  empty = λ k. none;
  get = λ now key db. alive now (db key);
  set_entry = toy_set;
  delete = toy_delete;
  expires_at = λ now ttl. now + ttl;
  expires_at-le = λ now ttl. (toy_expiry now ttl).0;
  lt-expires_at = λ now ttl. (toy_expiry now ttl).1;
  get-empty = λ now key. refl;
  get-set_entry = toy_get-toy_set;
  get-set_entry_ne = toy_get-toy_set_ne;
  get-delete = toy_get-toy_delete;
  get-delete_ne = toy_get-toy_delete_ne;
}

abbrev pub start : StorageInstance toy_badger
start = record {
  db = λ k. none;
  persist_duration = 60 * second;
  write_timeout = default_write_timeout;
  store_path = [];
  degraded = 0;
  pending = [];
}

abbrev doc : Fields
doc = field (codes "temp") (str (codes "21")) end

abbrev stored : StorageInstance toy_badger
stored = (store toy_badger toy_codec WriteRun.completes 0 (codes "k") doc start).1

abbrev slow_write : Write
slow_write = sets 0 (60 * second) (codes "k") (codes "v")

-- A write times out, and lands afterwards.
abbrev landed : StorageInstance toy_badger
landed = record start { db = commit toy_badger slow_write (λ k. none); degraded = 1; pending = [] }

late_landing : Reach toy_badger start landed
unfolding update_with_context
late_landing = next (next here (writes WriteRun.times_out slow_write)) (lands [] [] slow_write refl)

get_json-Requested_example :
    (at : ℕ) × (ttl : ℕ) × Requested toy_badger start late_landing
      (sets at ttl (codes "k") (codes "v"))
    × (59 * second < at + ttl)
unfolding get_json commit compare_text
get_json-Requested_example =
    get_json-Requested toy_badger start late_landing (59 * second) (codes "k") (codes "v") refl refl
      refl

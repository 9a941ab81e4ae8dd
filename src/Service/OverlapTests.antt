-- ===== src/Service/OverlapTests.antt =====
-- Patches that wait and that overlap, and their theorems there.
use iot_ephemeral_value_stor.Base.{
  ℕ, ◌==◌, ==_iff, ◌≢◌, ◌*◌, ◌≡◌, refl, sym, ap, ◌∙◌, true, false, Bool, Option, none, some, List,
  [], ◌∷◌, Text, codes, Result, ok, panic, arith, compare_text, split, if◌then◌else◌,
}
use iot_ephemeral_value_stor.Json.{end}
use iot_ephemeral_value_stor.Domain.{validate_upload_key, derive_download_key}
use iot_ephemeral_value_stor.Domain.Tests.{toy_platform, lower_key, upper_key, lower_key-valid}
use iot_ephemeral_value_stor.Codec.Tests.{toy_codec, toy_marshal}
use iot_ephemeral_value_stor.Storage.{second, retrieve}
use iot_ephemeral_value_stor.Storage.Deadlines.{Context, succeeds, hangs, read_run, write_run}
use iot_ephemeral_value_stor.Storage.Tests.{toy_badger, start}
use iot_ephemeral_value_stor.Service.{
  Run, authorised, patched, upload, delete, download_json, download_field, patch,
}
use iot_ephemeral_value_stor.Service.Rejects.{authorised_of_valid}
use iot_ephemeral_value_stor.Service.Spec.{uploads, perform}
use iot_ephemeral_value_stor.Service.Waiting.{Pace, InTime, paced_patch}
use iot_ephemeral_value_stor.Service.Waiting.Calls.{
  paced_upload, paced_delete, paced_download_json, paced_download_field, paced_calls-InTime,
}
use iot_ephemeral_value_stor.Service.Interleaved.{
  Patching, Act, whole, asks_json, asks_field, begins, ends, Concurrent, in_halves, at_once,
  act_all, op_of,
}
use iot_ephemeral_value_stor.Service.Interleaved.Serial.{KeepsApart, AreApart, act_all-serial}
use iot_ephemeral_value_stor.Service.Interleaved.Lost.{overlapping_patches-lost}
use iot_ephemeral_value_stor.Service.Tests
use iot_ephemeral_value_stor.Service.Tests.{readings, down_key}

abbrev patient : Context
patient = record { deadline = none; cancelled_at = none }

-- The read takes nine seconds, and the write hangs.
abbrev slow : Pace
slow = record {
  reading = succeeds (9 * second);
  writing = hangs;
  now = 0;
  read_choice = true;
  write_choice = true;
  other_choice = true;
}

abbrev InTimeOf : {A : Type 0} → (Run → A) → ℕ → Option (ℕ × A) → Type 0
InTimeOf call latest r = InTime toy_platform toy_badger toy_codec call 0 latest r

paced_calls-InTime_example :
    InTimeOf
      (λ run. upload toy_platform toy_badger toy_codec run lower_key readings start)
      (10 * second)
      (paced_upload toy_platform toy_badger toy_codec slow 0 patient lower_key readings start)
    × InTimeOf
        (λ run. delete toy_platform toy_badger toy_codec run lower_key start)
        (10 * second)
        (paced_delete toy_platform toy_badger toy_codec slow 0 patient lower_key start)
    × InTimeOf
        (λ run. patch toy_platform toy_badger toy_codec run lower_key (codes "p") readings start)
        (20 * second)
        (paced_patch toy_platform toy_badger toy_codec slow 0 patient lower_key
          (codes "p")
          readings
          start)
    × InTimeOf
        (λ run. download_json toy_platform toy_badger toy_codec run lower_key start)
        (10 * second)
        (paced_download_json toy_platform toy_badger toy_codec slow 0 patient lower_key start)
    × InTimeOf
        (λ run. download_field toy_platform toy_badger toy_codec run lower_key (codes "p") start)
        (10 * second)
        (paced_download_field toy_platform toy_badger toy_codec slow 0 patient lower_key
          (codes "p")
          start)
paced_calls-InTime_example =
    paced_calls-InTime toy_platform toy_badger toy_codec slow 0 patient start lower_key (codes "p")
      readings

abbrev time_of : {A : Type 0} → Option (ℕ × A) → ℕ
time_of none = 0
time_of (some (time, a)) = time

-- It returns after nineteen seconds, later than the fifteen that the server has for its answer.
outlasts :
    time_of (
      paced_patch toy_platform toy_badger toy_codec slow 0 patient lower_key
        (codes "p")
        readings
        start)
    ≡ 19 * second
unfolding paced_patch read_run write_run authorised validate_upload_key derive_download_key retrieve
outlasts = refl

abbrev patching : Text → Patching
patching path = record {
  run = Tests.at_once;
  upload_key = lower_key;
  path = path;
  params = readings;
}

abbrev second_byte : Result Text → ℕ
second_byte (ok (a ∷ b ∷ text)) = b
second_byte _ = 0

keys_apart : KeepsApart toy_platform toy_badger toy_codec (some (patching (codes "p"))) upper_key
unfolding authorised validate_upload_key derive_download_key
keys_apart down e f =
    let same : ◌≡◌ {A = ℕ} b'a' b'b' = ap second_byte (e ∙ sym f) in absurd (omega arith)

-- A patch, while readers read and another device uploads.
abbrev overlapping : List Act
overlapping =
    begins 0 (patching (codes "p"))
    ∷ asks_json Tests.at_once down_key
    ∷ whole (uploads Tests.at_once upper_key readings)
    ∷ asks_field Tests.at_once down_key (codes "p/temp")
    ∷ ends 0
    ∷ []

abbrev idle : Concurrent toy_platform toy_badger toy_codec
idle = record { storage = start; patching = λ i. none; found = λ i. panic }

overlapping-AreApart : AreApart toy_platform toy_badger toy_codec (λ i. none) overlapping
overlapping-AreApart = (λ i. by_number (0 == i), ((λ j apart. by_other j apart (0 == j) refl), tt))
  where
    by_number :
        (b : Bool)
        → KeepsApart toy_platform toy_badger toy_codec
            (if b then some (patching (codes "p")) else none)
            upper_key
    by_number true = keys_apart
    by_number false = tt

    by_other :
        (j : ℕ)
        → j ≢ 0
        → (b : Bool) → (0 == j) ≡ b
        → KeepsApart toy_platform toy_badger toy_codec
            (if b then some (patching (codes "p")) else none)
            lower_key
    by_other j apart true hit = absurd (apart (sym ((==_iff 0 j).0 hit)))
    by_other j apart false miss = tt

act_all-serial_example :
    act_all toy_platform toy_badger toy_codec
      (in_halves toy_platform toy_badger toy_codec)
      overlapping
      idle
    ≡ act_all toy_platform toy_badger toy_codec
        (at_once toy_platform toy_badger toy_codec)
        overlapping
        idle
act_all-serial_example =
    act_all-serial toy_platform toy_badger toy_codec overlapping start (λ i. panic)
      overlapping-AreApart

abbrev encoded : Option Text → Text
encoded none = []
encoded (some text) = text

overlapping_patches-lost_example :
    toy_badger.get 0 down_key
      (act_all toy_platform toy_badger toy_codec
        (in_halves toy_platform toy_badger toy_codec)
        (begins 0 (patching (codes "p")) ∷ begins 1 (patching (codes "q")) ∷ ends 0 ∷ ends 1 ∷ [])
        idle).1.storage.db
    ≡ toy_badger.get 0 down_key
        (perform toy_platform toy_badger toy_codec
          (op_of toy_platform toy_badger toy_codec (patching (codes "q")))
          start).1.db
unfolding retrieve split compare_text toy_marshal
overlapping_patches-lost_example =
    overlapping_patches-lost toy_platform toy_badger toy_codec 0 1 (patching (codes "p"))
      (patching (codes "q")) down_key
      (encoded (toy_codec.marshal (patched toy_platform 0 end (codes "q") readings))) end start
      (λ i. panic) 0 refl (authorised_of_valid toy_platform lower_key lower_key-valid)
      (authorised_of_valid toy_platform lower_key lower_key-valid) refl refl refl refl refl

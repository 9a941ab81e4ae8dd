-- ===== src/Service/Interleaved/Serial.antt =====
-- Overlapping calls whose keys keep apart.
use mathlib.Core.Option.{some-ne-none}
use iot_ephemeral_value_stor.Base.{
  ℕ, ◌==◌, if◌then◌else◌, ◌≡◌, ◌≢◌, refl, sym, ap, ◌∙◌, Option, none, some, List, [], ◌∷◌, ◌++◌,
  Text, Result, ok, err, panic, arith, subst, true, false, Bool,
}
use iot_ephemeral_value_stor.Json.{Fields}
use iot_ephemeral_value_stor.Domain.{Platform}
use iot_ephemeral_value_stor.Codec.{Codec}
use iot_ephemeral_value_stor.Storage.{Badger, StorageInstance, ReadRun, retrieve}
use iot_ephemeral_value_stor.Service.{authorised, download_json, download_field}
use iot_ephemeral_value_stor.Service.Spec.{Op, Answer, upload_key_of, stored_answer, perform}
use iot_ephemeral_value_stor.Service.Isolation.{perform-Keeps}
use iot_ephemeral_value_stor.Service.Interleaved.{
  Patching, Act, whole, asks_json, asks_field, Said, answered, json, field, begins, ends, put,
  Concurrent, read_half, op_of, in_halves, at_once, ended, act, act_all,
}
use iot_ephemeral_value_stor.Service.Interleaved.Halves.{
  read_half_of_valid, read_half_of_invalid, write_half-read_half,
}

module _ (platform : Platform) (badger : Badger) (codec : Codec) where
  -- A call with an upload key keeps apart from a patch on its way: the two keys do not lead to one
  -- download key.
  abbrev pub KeepsApart : Option Patching → Text → Type 0
  KeepsApart none upload_key = Unit
  KeepsApart (some h) upload_key =
      (down : Text)
      → authorised platform h.upload_key ≡ ok down
      → authorised platform upload_key ≢ ok down

  abbrev pub EndsApart : (ℕ → Option Patching) → ℕ → Option Patching → Type 0
  EndsApart patching i none = Unit
  EndsApart patching i (some h) = (j : ℕ) → j ≢ i → KeepsApart (patching j) h.upload_key

  -- No call writes where a patch on its way, other than itself, has read and will write.
  abbrev pub AreApart : (ℕ → Option Patching) → List Act → Type 0
  AreApart patching [] = Unit
  AreApart patching (whole op ∷ acts) =
      ((i : ℕ) → KeepsApart (patching i) (upload_key_of op)) × AreApart patching acts
  AreApart patching (asks_json run download_key ∷ acts) = AreApart patching acts
  AreApart patching (asks_field run download_key field_path ∷ acts) = AreApart patching acts
  AreApart patching (begins i h ∷ acts) = AreApart (put i (some h) patching) acts
  AreApart patching (ends i ∷ acts) =
      EndsApart patching i (patching i) × AreApart (put i none patching) acts

  -- What a patch has read is what it would read now.
  abbrev IsFresh : Patching → Result (Option Fields) → StorageInstance badger → Type 0
  IsFresh h found s = found ≡ read_half platform badger codec h s

  abbrev AreFresh : Concurrent platform badger codec → Type 0
  AreFresh c = (i : ℕ) (h : Patching) → c.patching i ≡ some h → IsFresh h (c.found i) c.storage

  retrieve_same :
      (run : ReadRun) (now : ℕ) (key : Text) (s t : StorageInstance badger)
      → badger.get now key s.db ≡ badger.get now key t.db
      → retrieve badger codec run now key s ≡ retrieve badger codec run now key t
  unfolding retrieve
  retrieve_same (ReadRun.done_before c) now key s t e = refl
  retrieve_same ReadRun.completes now key s t e = rw e
  retrieve_same (ReadRun.fails x) now key s t e = refl
  retrieve_same (ReadRun.interrupted c) now key s t e = refl

  -- A call that keeps apart leaves it so.
  perform-IsFresh :
      (op : Op) (h : Patching) (s : StorageInstance badger)
      → KeepsApart (some h) (upload_key_of op)
      → read_half platform badger codec h s
        ≡ read_half platform badger codec h (perform platform badger codec op s).1
  perform-IsFresh op h s apart = by_key (authorised platform h.upload_key) refl
    where
      by_key :
          (a : Result Text)
          → authorised platform h.upload_key ≡ a
          → read_half platform badger codec h s
            ≡ read_half platform badger codec h (perform platform badger codec op s).1
      by_key (ok down) e =
          rw
            (
              read_half_of_valid platform badger codec h s down e,
              read_half_of_valid platform badger codec h _ down e,
            )
            (retrieve_same h.run.read h.run.read_at down s _ (
              sym (
                perform-Keeps platform badger codec h.run.read_at down _ op s (apart down e) refl)))
      by_key (err x) e =
          read_half_of_invalid platform badger codec h s _ (λ down f. ground (arith, e, f))
      by_key panic e =
          read_half_of_invalid platform badger codec h s _ (λ down f. ground (arith, e, f))

  IsFresh-later :
      (op : Op) (o : Option Patching) (h : Patching) (found : Result (Option Fields))
      (s : StorageInstance badger)
      → o ≡ some h
      → KeepsApart o (upload_key_of op)
      → IsFresh h found s
      → IsFresh h found (perform platform badger codec op s).1
  IsFresh-later op o h found s e apart fresh =
      fresh ∙ perform-IsFresh op h s (subst (λ o. KeepsApart o (upload_key_of op)) e apart)

  -- At the end of a patch, what it has read is fresh: the two endings do the same.
  endings_same :
      (i : ℕ) (o : Option Patching) (c : Concurrent platform badger codec)
      → o ≡ c.patching i
      → AreFresh c
      → ended platform badger codec (in_halves platform badger codec) i o c
        ≡ ended platform badger codec (at_once platform badger codec) i o c
  endings_same i none c e fresh = refl
  endings_same i (some h) c e fresh =
      ap
        (λ (r : Answer × StorageInstance badger).
          let next : List Said × Concurrent platform badger codec =
            (answered r.0 ∷ [], record c { storage = r.1; patching = put i none c.patching }) in
          next)
        (ap (λ found. in_halves platform badger codec h found c.storage) (fresh i h (sym e))
          ∙ ap (λ (r : Result (Text × Fields) × StorageInstance badger). (stored_answer r.0, r.1))
              (write_half-read_half platform badger codec h c.storage))

  abbrev step_serial : Act → Concurrent platform badger codec → Concurrent platform badger codec
  step_serial a c = (act platform badger codec (at_once platform badger codec) a c).1

  begins-AreFresh :
      (i : ℕ) (h : Patching) (c : Concurrent platform badger codec)
      → AreFresh c
      → AreFresh (step_serial (begins i h) c)
  unfolding act
  begins-AreFresh i h c fresh j k e = by_place (i == j) e
    where
      by_place :
          (b : Bool)
          → (if b then some h else c.patching j) ≡ some k
          → IsFresh k
              (if b then read_half platform badger codec h c.storage else c.found j)
              c.storage
      by_place true e =
          let same : h ≡ k = cc in ap (λ p. read_half platform badger codec p c.storage) same
      by_place false e = fresh j k e

  whole-AreFresh :
      (op : Op) (c : Concurrent platform badger codec)
      → ((i : ℕ) → KeepsApart (c.patching i) (upload_key_of op))
      → AreFresh c
      → AreFresh (step_serial (whole op) c)
  unfolding act
  whole-AreFresh op c apart fresh j k e =
      IsFresh-later op (c.patching j) k (c.found j) c.storage e (apart j) (fresh j k e)

  ended-AreFresh :
      (i : ℕ) (o : Option Patching) (c : Concurrent platform badger codec)
      → EndsApart c.patching i o
      → AreFresh c
      → AreFresh (ended platform badger codec (at_once platform badger codec) i o c).1
  ended-AreFresh i none c apart fresh j k e = by_place (i == j) e
    where
      by_place :
          (b : Bool) → (if b then none else c.patching j) ≡ some k → IsFresh k (c.found j) c.storage
      by_place true e = absurd (some-ne-none k (sym e))
      by_place false e = fresh j k e
  ended-AreFresh i (some h) c apart fresh j k e = by_place (i == j) refl e
    where
      by_place :
          (b : Bool)
          → (i == j) ≡ b
          → (if b then none else c.patching j) ≡ some k
          → IsFresh k
              (c.found j)
              (perform platform badger codec (op_of platform badger codec h) c.storage).1
      by_place true hit e = absurd (some-ne-none k (sym e))
      by_place false miss e =
          IsFresh-later (op_of platform badger codec h) (c.patching j) k (c.found j) c.storage e
            (apart j (λ same. ground (arith, same, miss))) (fresh j k e)

  ended-patching :
      (i : ℕ) (o : Option Patching) (c : Concurrent platform badger codec)
      → put i none c.patching
        ≡ (ended platform badger codec (at_once platform badger codec) i o c).1.patching
  ended-patching i none c = refl
  ended-patching i (some h) c = refl

  abbrev before :
      List Said
      → List Said × Concurrent platform badger codec
      → List Said × Concurrent platform badger codec
  before answers later = (answers ++ later.0, later.1)

  act_all-same :
      (acts : List Act) (c : Concurrent platform badger codec)
      → AreFresh c
      → AreApart c.patching acts
      → act_all platform badger codec (in_halves platform badger codec) acts c
        ≡ act_all platform badger codec (at_once platform badger codec) acts c
  unfolding act_all act
  act_all-same [] c fresh apart = refl
  act_all-same (whole op ∷ acts) c fresh apart =
      ap (before (answered (perform platform badger codec op c.storage).0 ∷ []))
        (act_all-same acts (step_serial (whole op) c) (whole-AreFresh op c apart.0 fresh) apart.1)
  act_all-same (asks_json run key ∷ acts) c fresh apart =
      ap (before (json (download_json platform badger codec run key c.storage) ∷ []))
        (act_all-same acts c fresh apart)
  act_all-same (asks_field run key path ∷ acts) c fresh apart =
      ap (before (field (download_field platform badger codec run key path c.storage) ∷ []))
        (act_all-same acts c fresh apart)
  act_all-same (begins i h ∷ acts) c fresh apart =
      ap (before [])
        (act_all-same acts (step_serial (begins i h) c) (begins-AreFresh i h c fresh) apart)
  act_all-same (ends i ∷ acts) c fresh apart =
      let next = ended platform badger codec (at_once platform badger codec) i (c.patching i) c in
      rw (endings_same i (c.patching i) c refl fresh) (
        ap (before next.0) (
          act_all-same acts next.1 (ended-AreFresh i (c.patching i) c apart.0 fresh)
            (subst (λ p. AreApart p acts) (ended-patching i (c.patching i) c) apart.1)))

  -- Overlapping calls, in which a patch first reads and later writes, and other writing calls and
  -- readers come between, give the same answers and leave the same state as if each patch were
  -- carried out at once when it ends, if from its reading to its end no other call's key leads to
  -- its download key.
  pub act_all-serial :
      (acts : List Act) (s : StorageInstance badger) (found : ℕ → Result (Option Fields))
      → AreApart (λ i. none) acts
      → let c : Concurrent platform badger codec = record {
        storage = s;
        patching = λ i. none;
        found = found;
      } in
        act_all platform badger codec (in_halves platform badger codec) acts c
        ≡ act_all platform badger codec (at_once platform badger codec) acts c
  act_all-serial acts s found apart =
      act_all-same acts _ (λ i h e. absurd (some-ne-none h (sym e))) apart

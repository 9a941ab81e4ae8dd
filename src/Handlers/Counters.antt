-- ===== src/Handlers/Counters.antt =====
-- How the counters follow the replies.
use iot_ephemeral_value_stor.Base.{
  ℕ, ◌≤◌, ◌≡◌, refl, ◌⊎◌, inl, inr, Bool, true, false, Option, none, some, Text, codes, contains,
  Result, ok, err, panic, arith, error_text, Bool-cases, Option-cases,
}
use iot_ephemeral_value_stor.Json.{Value, Fields, str}
use iot_ephemeral_value_stor.Domain.{Platform}
use iot_ephemeral_value_stor.Data.{traverse_field}
use iot_ephemeral_value_stor.Codec.{Codec}
use iot_ephemeral_value_stor.Stats.{
  Stats, increment_downloads, increment_uploads, increment_http_errors,
}
use iot_ephemeral_value_stor.Storage.{Badger, StorageInstance}
use iot_ephemeral_value_stor.Service.{Params, Run, download_json}
use iot_ephemeral_value_stor.Http.{Reply, Request, construct_and_return_response}
use iot_ephemeral_value_stor.Handlers.{
  Visit, Web, Outcome, answers, fails, fails_late, panics, settle, value_outcome, field_outcome,
  decode_base64_url, with_json, with_map, Server, upload_reply, delete_reply, handle_upload,
  delete_handler, download_plain_handler, download_json_handler, plain_outcome, json_outcome,
}

-- A panic counts nothing, an answer 200 what it stands for, and any other answer is an error that
-- counts as one.
abbrev pub Counted : (Stats → Stats) → ℕ → Stats → Option Reply → Stats → Type 0
Counted good t before none after = after ≡ before
Counted good t before (some reply) after =
    ((reply.status ≡ 200) × (after ≡ good before))
    ⊎ ((400 ≤ reply.status) × (after ≡ increment_http_errors t before))

-- Outcomes that settle to that.
abbrev IsSettled : Outcome → Type 0
IsSettled (answers reply) = reply.status ≡ 200
IsSettled (fails status message) = 400 ≤ status
IsSettled (fails_late status message) = ⊥
IsSettled panics = Unit

settle-Counted :
    (t : ℕ) (stats : Stats) (o : Outcome)
    → IsSettled o
    → Counted (increment_downloads t) t stats (settle t stats o).0 (settle t stats o).1
unfolding settle
settle-Counted t stats (answers reply) h = inl (h, refl)
settle-Counted t stats (fails status message) h = inr (h, refl)
settle-Counted t stats (fails_late status message) h = absurd h
settle-Counted t stats panics h = refl

value_outcome-IsSettled :
    (web : Web) (base64mode : Bool) (v : Value) → IsSettled (value_outcome web base64mode v)
unfolding value_outcome
value_outcome-IsSettled web false v = refl
value_outcome-IsSettled web true (str encoded) =
    elim (Option-cases (decode_base64_url web encoded)) [
      | inl e ↦ rw (e, value_outcome) (omega arith)
      | inr (d, e) ↦ rw (e, value_outcome) refl
    ]
value_outcome-IsSettled web true _ = tt

field_outcome-IsSettled :
    (web : Web) (base64mode : Bool) (r : Result Value) → IsSettled (field_outcome web base64mode r)
field_outcome-IsSettled web base64mode (ok v) = value_outcome-IsSettled web base64mode v
field_outcome-IsSettled web base64mode (err e) =
    elim (Bool-cases (contains (error_text e) (codes "not found"))) [
      | inl hit ↦ rw hit (omega arith)
      | inr miss ↦ rw miss (omega arith)
    ]
field_outcome-IsSettled web base64mode panic = tt

with_json-IsSettled :
    (answer : Text → Outcome) (r : Result Text)
    → ((t : Text) → IsSettled (answer t))
    → IsSettled (with_json answer r)
with_json-IsSettled answer (ok t) h = h t
with_json-IsSettled answer (err e) h = omega arith
with_json-IsSettled answer panic h = tt

with_map-IsSettled :
    (answer : Fields → Outcome) (r : Result (Option Fields))
    → ((m : Fields) → IsSettled (answer m))
    → IsSettled (with_map answer r)
with_map-IsSettled answer (ok m) h = h _
with_map-IsSettled answer (err e) h = omega arith
with_map-IsSettled answer panic h = tt

module _ (platform : Platform) (badger : Badger) (codec : Codec) where
  plain_outcome-IsSettled :
      (web : Web) (base64mode : Bool) (run : Run) (download_key param : Text)
      (s : StorageInstance badger)
      → IsSettled (plain_outcome platform badger codec web base64mode run download_key param s)
  unfolding plain_outcome
  plain_outcome-IsSettled web base64mode run download_key param s =
      with_json-IsSettled _ (download_json platform badger codec run download_key s) (λ t.
        with_map-IsSettled _ (codec.unmarshal t)
          (λ m. field_outcome-IsSettled web base64mode (traverse_field m param)))

  upload_reply-Counted :
      (t : ℕ) (r : Request) (params : Params) (stats : Stats) (result : Result (Text × Fields))
      → Counted
          (increment_uploads t)
          t
          stats
          (upload_reply platform badger codec t r params stats result).0
          (upload_reply platform badger codec t r params stats result).1
  unfolding upload_reply construct_and_return_response
  upload_reply-Counted t r params stats (ok (k, m)) = inl (refl, refl)
  upload_reply-Counted t r params stats (err e) = inr (omega arith, refl)
  upload_reply-Counted t r params stats panic = refl

  delete_reply-Counted :
      (t : ℕ) (stats : Stats) (result : Result Text)
      → Counted
          (λ s. s)
          t
          stats
          (delete_reply platform badger codec t stats result).0
          (delete_reply platform badger codec t stats result).1
  unfolding delete_reply
  delete_reply-Counted t stats (ok k) = inl (refl, refl)
  delete_reply-Counted t stats (err e) = inr (omega arith, refl)
  delete_reply-Counted t stats panic = refl

  -- On every branch of the upload, patch, delete, plain, base64 and JSON handlers, the counters
  -- follow the reply: 200 counts as an upload, as nothing or as a download, a status from 400 on as
  -- an error, and a panic leaves the counters as they were.
  pub handlers-Counted :
      (web : Web) (visit : Visit) (r : Request) (key path : Text) (flag : Bool)
      (sv : Server platform badger codec)
      → let t = visit.counted_at in
        let up = handle_upload platform badger codec visit r key path flag sv in
        let del = delete_handler platform badger codec visit key sv in
        let plain = download_plain_handler platform badger codec web flag visit key path sv in
        let json = download_json_handler platform badger codec visit key sv in
        Counted (increment_uploads t) t sv.stats up.0 up.1.stats
        × Counted (λ s. s) t sv.stats del.0 del.1.stats
        × Counted (increment_downloads t) t sv.stats plain.0 plain.1.stats
        × Counted (increment_downloads t) t sv.stats json.0 json.1.stats
  unfolding handle_upload delete_handler download_plain_handler download_json_handler json_outcome
  handlers-Counted web visit r key path flag sv =
      let t : ℕ = visit.counted_at in
      (
        upload_reply-Counted t r _ sv.stats _,
        delete_reply-Counted t sv.stats _,
        settle-Counted t sv.stats _
            (plain_outcome-IsSettled web flag visit.run key path sv.storage),
        settle-Counted t sv.stats _ (
            with_json-IsSettled _ (download_json platform badger codec visit.run key sv.storage)
              (λ b. refl)),
      )

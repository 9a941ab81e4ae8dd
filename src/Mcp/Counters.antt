-- ===== src/Mcp/Counters.antt =====
-- What the tools report of the service, and how the counters follow.
use iot_ephemeral_value_stor.Base.{
  ℕ, ◌≡◌, refl, true, Option, none, some, Text, codes, Cause, Error, wrap, context_done,
  encoding_error, Result, ok, err, panic, Option-cases, inl, inr, [], ◌∷◌,
}
use iot_ephemeral_value_stor.Json.{Fields}
use iot_ephemeral_value_stor.Domain.{Platform}
use iot_ephemeral_value_stor.Codec.{Codec}
use iot_ephemeral_value_stor.Stats.{Stats, increment_http_errors}
use iot_ephemeral_value_stor.Storage.{Badger, StorageInstance}
use iot_ephemeral_value_stor.Service.{
  Run, upload, patch, delete, download_json, download_field, generate_key_pair,
}
use iot_ephemeral_value_stor.Mcp.{
  Counts, an_upload, a_download, nothing, count, finish, tool_result, Call, generate_key_pair_call,
  upload_data, patch_data, download_data, delete_data, Host, writing, call_tool, dispatched,
  upload_data_handler, patch_data_handler, download_data_handler, delete_data_handler,
  generate_key_pair_handler, pair_answer, upload_answer, patch_answer, json_answer, field_answer,
  delete_answer, decoded,
}

-- What a call counts when it succeeds.
abbrev pub counts_of : Call → Counts
counts_of (generate_key_pair_call random_bytes) = nothing
counts_of (upload_data upload_key params) = an_upload
counts_of (patch_data upload_key path params) = an_upload
counts_of (download_data download_key parameter) = a_download
counts_of (delete_data upload_key) = nothing

abbrev pub not_encoded : Error
not_encoded = wrap (codes "error marshaling result") encoding_error

-- What the service returned, the document that the answer is made of, against the tool's result and
-- the counters behind it.
abbrev pub Told :
    (Fields → Option Text) → Counts → ℕ → Stats → Result Fields → Result Text → Stats → Type 0
Told marshal_indent counts t before (ok m) (ok text) after =
    (marshal_indent m ≡ some text) × (after ≡ count counts t before)
Told marshal_indent counts t before (ok m) (err e) after =
    (marshal_indent m ≡ none) × (e ≡ not_encoded) × (after ≡ count counts t before)
Told marshal_indent counts t before (ok m) panic after = ⊥
Told marshal_indent counts t before (err x) (err e) after =
    (e ≡ x) × (after ≡ increment_http_errors t before)
Told marshal_indent counts t before (err x) _ after = ⊥
Told marshal_indent counts t before panic panic after = after ≡ before
Told marshal_indent counts t before panic _ after = ⊥

-- The result of a call with the document of its answer.
abbrev pub answered : {A : Type 0} → (A → Fields) → Result A → Result Fields
answered answer (ok a) = ok (answer a)
answered answer (err e) = err e
answered answer panic = panic

finish-Told :
    {A : Type 0} (marshal_indent : Fields → Option Text) (counts : Counts) (answer : A → Fields)
    (t : ℕ) (stats : Stats) (r : Result A)
    → Told marshal_indent counts t stats
        (answered answer r)
        (finish marshal_indent counts answer t stats r).0
        (finish marshal_indent counts answer t stats r).1
unfolding finish tool_result
finish-Told marshal_indent counts answer t stats (ok a) =
    elim (Option-cases (marshal_indent (answer a))) [
      | inl e ↦ rw (e, tool_result) (e, refl, refl)
      | inr (text, e) ↦ rw (e, tool_result) (e, refl)
    ]
finish-Told marshal_indent counts answer t stats (err e) = (refl, refl)
finish-Told marshal_indent counts answer t stats panic = refl

module _ (platform : Platform) (badger : Badger) (codec : Codec)
    (marshal_indent : Fields → Option Text) where
  abbrev pub made_pair :
      StorageInstance badger
      → Option (Result (Text × Text))
      → Option (Result Fields × StorageInstance badger)
  made_pair s none = none
  made_pair s (some pair) = some (answered pair_answer pair, s)

  -- The call of the service behind a tool: its result and the storage that it leaves. `none` is the
  -- end of the process.
  abbrev pub serviced :
      Run → Call → StorageInstance badger → Option (Result Fields × StorageInstance badger)
  serviced run (generate_key_pair_call random_bytes) s =
      made_pair s (generate_key_pair platform random_bytes)
  serviced run (upload_data upload_key params) s =
      let x = upload platform badger codec run upload_key params s in
      some (answered (upload_answer params) x.0, x.1)
  serviced run (patch_data upload_key path params) s =
      let x = patch platform badger codec run upload_key path params s in
      some (answered (patch_answer path params) x.0, x.1)
  serviced run (download_data download_key []) s = some (
    answered json_answer (decoded codec (download_json platform badger codec run download_key s)),
    s,
  )
  serviced run (download_data download_key (c ∷ parameter)) s = some (
    answered (field_answer (c ∷ parameter))
        (download_field platform badger codec run download_key (c ∷ parameter) s),
    s,
  )
  serviced run (delete_data upload_key) s =
      let x = delete platform badger codec run upload_key s in
      some (answered (λ _. delete_answer true) x.0, x.1)

  -- A context that is done ends the call at once. Else the tool calls the service once, keeps the
  -- storage that this leaves, and reports what it returned.
  abbrev pub Reports :
      Counts
      → ℕ
      → Stats
      → Option (Result Fields × StorageInstance badger)
      → Option (Result Text × Host platform badger codec marshal_indent)
      → Type 0
  Reports counts t before none none = Unit
  Reports counts t before (some (r, s)) (some (result, h)) =
      (h.storage ≡ s) × Told marshal_indent counts t before r result h.stats
  Reports counts t before _ _ = ⊥

  abbrev pub AreTold :
      Option Cause
      → Run
      → ℕ
      → Call
      → Host platform badger codec marshal_indent
      → Option (Result Text × Host platform badger codec marshal_indent)
      → Type 0
  AreTold (some c) run t call h answer = answer ≡ some (err (context_done c), h)
  AreTold none run t call h answer =
      Reports (counts_of call) t h.stats (serviced run call h.storage) answer

  dispatched-Reports :
      (run : Run) (t : ℕ) (call : Call) (h : Host platform badger codec marshal_indent)
      → Reports
          (counts_of call)
          t
          h.stats
          (serviced run call h.storage)
          (dispatched platform badger codec marshal_indent run t call h)
  unfolding upload_data_handler patch_data_handler download_data_handler delete_data_handler
      generate_key_pair_handler
  dispatched-Reports run t (generate_key_pair_call random_bytes) h =
      pair-Reports (generate_key_pair platform random_bytes)
    where
      pair-Reports :
          (o : Option (Result (Text × Text)))
          → Reports nothing t h.stats (made_pair h.storage o) (elim o [
            | none ↦ none
            | some pair ↦ some (
                writing platform badger codec marshal_indent nothing pair_answer t h.stats
                  (pair, h.storage))
          ])
      pair-Reports none = tt
      pair-Reports (some pair) =
          (refl, finish-Told marshal_indent nothing pair_answer t h.stats pair)
  dispatched-Reports run t (upload_data upload_key params) h =
      (refl, finish-Told marshal_indent an_upload (upload_answer params) t h.stats _)
  dispatched-Reports run t (patch_data upload_key path params) h =
      (refl, finish-Told marshal_indent an_upload (patch_answer path params) t h.stats _)
  dispatched-Reports run t (download_data download_key []) h =
      (refl, finish-Told marshal_indent a_download json_answer t h.stats _)
  dispatched-Reports run t (download_data download_key (c ∷ parameter)) h =
      (refl, finish-Told marshal_indent a_download (field_answer (c ∷ parameter)) t h.stats _)
  dispatched-Reports run t (delete_data upload_key) h =
      (refl, finish-Told marshal_indent nothing (λ _. delete_answer true) t h.stats _)

  -- A tool whose context is done before returns that error, and changes nothing. Any other calls the
  -- service once and keeps the storage that this leaves. A successful call counts as what the tool
  -- does, and its result is the encoding of the answer, or an error where that cannot be encoded,
  -- which does not count as one; an error of the service is returned and counts as one error, and a
  -- panic counts as nothing.
  pub call_tool-AreTold :
      (cause : Option Cause) (run : Run) (t : ℕ) (call : Call)
      (h : Host platform badger codec marshal_indent)
      → AreTold cause run t call h
          (call_tool platform badger codec marshal_indent cause run t call h)
  unfolding call_tool
  call_tool-AreTold (some c) run t call h = refl
  call_tool-AreTold none run t call h = dispatched-Reports run t call h

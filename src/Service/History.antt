-- ===== src/Service/History.antt =====
-- Histories of the service: calls that go any way, resets of the breaker, and writes that land or
-- are lost after their callers gave them up.
use iot_ephemeral_value_stor.Base.{
  ℕ, ◌≡◌, refl, sym, ◌∙◌, subst, ◌≢◌, true, some, List, [], ◌∷◌, ◌++◌, Text, All, ◌⊎◌, Error,
  Result, ok, err, panic, Option-cases, inl, inr,
}
use mathlib.Core.Option.{some-ne-none}
use iot_ephemeral_value_stor.Json.{Fields, end}
use iot_ephemeral_value_stor.Domain.{Platform}
use iot_ephemeral_value_stor.Codec.{Codec, ArePlain, max_nested}
use iot_ephemeral_value_stor.Codec.Plain.{ArePlain-cases}
use iot_ephemeral_value_stor.Storage.{
  Badger, StorageInstance, Write, commit, ReadRun, reset_degraded, get_json, retrieve,
}
use iot_ephemeral_value_stor.Storage.Provenance.{All-without}
use iot_ephemeral_value_stor.Service.{Run, Params, upload, patch, delete}
use iot_ephemeral_value_stor.Service.Params.{AreValid}
use iot_ephemeral_value_stor.Service.Ensures.{Returns}
use iot_ephemeral_value_stor.Service.Documents.{
  IsDocument, IsSound, Safe, HoldsDocuments, commit-HoldsDocuments,
}
use iot_ephemeral_value_stor.Service.Sound.{upload-IsSound, patch-IsSound, delete-IsSound}

module _ (platform : Platform) (badger : Badger) (codec : Codec) where
  open codec use {valid_text}

  -- The texts of a request are valid UTF-8; its key may be anything, and its run too.
  pub data Step : StorageInstance badger → StorageInstance badger → Type 1 where
    uploads :
        {s : StorageInstance badger} (run : Run) (key : Text) (params : Params)
        → AreValid valid_text params
        → Step s (upload platform badger codec run key params s).1
    patches :
        {s : StorageInstance badger} (run : Run) (key path : Text) (params : Params)
        → valid_text path ≡ true
        → AreValid valid_text params
        → Step s (patch platform badger codec run key path params s).1
    removes :
        {s : StorageInstance badger} (run : Run) (key : Text)
        → Step s (delete platform badger codec run key s).1
    resets : {s : StorageInstance badger} → Step s (reset_degraded badger s)
    lands :
        {s : StorageInstance badger} (before after : List Write) (w : Write)
        → s.pending ≡ before ++ w ∷ after
        → Step s (record s { db = commit badger w s.db; pending = before ++ after })
    is_lost :
        {s : StorageInstance badger} (before after : List Write) (w : Write)
        → s.pending ≡ before ++ w ∷ after
        → Step s (record s { pending = before ++ after })

  -- From an empty database with no goroutine left behind.
  pub data Reached : StorageInstance badger → Type 1 where
    starts : {s : StorageInstance badger} → s.db ≡ badger.empty → s.pending ≡ [] → Reached s
    follows : {s t : StorageInstance badger} → Reached s → Step s t → Reached t

  empty-HoldsDocuments : HoldsDocuments badger codec badger.empty
  empty-HoldsDocuments now key b e = absurd (some-ne-none b (sym e ∙ badger.get-empty now key))

  Step-IsSound :
      {s t : StorageInstance badger} → Step s t → IsSound badger codec s → IsSound badger codec t
  unfolding reset_degraded
  Step-IsSound {s} (uploads run key params v) h =
      (upload-IsSound badger codec platform run key params v s h).0
  Step-IsSound {s} (patches run key path params p v) h =
      (patch-IsSound badger codec platform run key path params p v s h).0
  Step-IsSound {s} (removes run key) h = (delete-IsSound badger codec platform run key s h).0
  Step-IsSound {s} resets h = record { held = h.held; waiting = h.waiting }
  Step-IsSound {s} (lands before after w e) h =
      let (rest, safe) =
        All-without (Safe badger codec) before after w
          (subst (All (Safe badger codec)) e h.waiting) in
      record { held = commit-HoldsDocuments badger codec w s.db safe h.held; waiting = rest }
  Step-IsSound {s} (is_lost before after w e) h =
      let (rest, _) =
        All-without (Safe badger codec) before after w
          (subst (All (Safe badger codec)) e h.waiting) in
      record { held = h.held; waiting = rest }

  pub Reached-IsSound : {s : StorageInstance badger} → Reached s → IsSound badger codec s
  Reached-IsSound {s} (starts e p) = record {
    held = subst (HoldsDocuments badger codec) (sym e) empty-HoldsDocuments;
    waiting = subst (All (Safe badger codec)) (sym p) tt;
  }
  Reached-IsSound (follows r step) = Step-IsSound step (Reached-IsSound r)

  -- A document under the key that is nested too deeply to be decoded, and can be read as text.
  abbrev pub IsTooDeep : StorageInstance badger → ℕ → Text → Fields → Type 0
  IsTooDeep s now key m =
      (ArePlain codec.valid_text max_nested m → ⊥)
      × (b : Text) × (codec.marshal m ≡ some b)
      × (get_json badger ReadRun.completes now key s ≡ ok b)
      × (e : Error) × (retrieve badger codec ReadRun.completes now key s ≡ err e)

  -- After any history, under every key is a document, or none, which reads as the empty map: strings
  -- and maps only, with valid texts and no key twice at any depth. A read that completes finds it, or
  -- fails because it is nested too deeply.
  pub retrieve-IsDocument :
      {s : StorageInstance badger} (r : Reached s) (now : ℕ) (key : Text)
      → (m : Fields) × IsDocument badger codec m
        × ((retrieve badger codec ReadRun.completes now key s ≡ ok (some m))
            ⊎ IsTooDeep s now key m)
  unfolding retrieve get_json
  retrieve-IsDocument {s} r now key = elim (Option-cases (badger.get now key s.db)) [
    | inl e ↦ (end, ((0, tt), tt), inl (rw e refl))
    | inr (b, e) ↦
        let (m, encoded, doc) = (Reached-IsSound r).held now key b e in
        (
          m,
          doc,
          elim (ArePlain-cases codec.valid_text doc.0.0 max_nested m doc.0.1) [
            | inl shallow ↦ inl (rw (e, codec.unmarshal-marshal m b shallow doc.1 encoded) refl)
            | inr deep ↦ elim (codec.unmarshal-marshal_deep doc.0.0 m b doc.0.1 doc.1 encoded) [
              | inl decoded ↦ inl (rw (e, decoded) refl)
              | inr (x, fails) ↦ inr (deep, b, encoded, rw e refl, x, rw (e, fails) refl)
            ]
          ],
        )
  ]

  not_panic : {A : Type 0} (r : Result A) → Returns (λ _. Unit) r → r ≢ panic
  not_panic (ok a) h = λ e. cc
  not_panic (err x) h = λ e. cc
  not_panic panic h = absurd h

  -- After any history, no upload, patch or deletion panics, with whatever key and however the calls
  -- of the database go.
  pub calls-ne-panic :
      {s : StorageInstance badger} (r : Reached s) (run : Run) (key path : Text) (params : Params)
      → valid_text path ≡ true
      → AreValid valid_text params
      → ((upload platform badger codec run key params s).0 ≢ panic)
        × ((patch platform badger codec run key path params s).0 ≢ panic)
        × ((delete platform badger codec run key s).0 ≢ panic)
  calls-ne-panic {s} r run key path params p v =
      let sound = Reached-IsSound r in
      (
        not_panic _ (upload-IsSound badger codec platform run key params v s sound).1,
        not_panic _ (patch-IsSound badger codec platform run key path params p v s sound).1,
        not_panic _ (delete-IsSound badger codec platform run key s sound).1,
      )

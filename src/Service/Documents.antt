-- ===== src/Service/Documents.antt =====
-- What the database holds are documents, and what waits to land are writes of documents.
use iot_ephemeral_value_stor.Base.{
  ℕ, ◌≡◌, sym, ◌∙◌, subst, Option, none, some, List, Text, All, text_cases, inl, inr, Bool-cases,
  Option-cases, ◌==◌, ltb, if◌then◌else◌, arith,
}
use mathlib.Core.Option.{some-ne-none}
use iot_ephemeral_value_stor.Json.{Fields}
use iot_ephemeral_value_stor.Json.Sorted.{IsSorted}
use iot_ephemeral_value_stor.Codec.{Codec, ArePlain, max_nested}
use iot_ephemeral_value_stor.Storage.{
  Badger, StorageInstance, Write, sets, deletes, commit, ReadRun, WriteRun, run_write,
  update_with_context, store, retrieve,
}
use iot_ephemeral_value_stor.Service.Ensures.{Returns, Ensures}

module _ (badger : Badger) (codec : Codec) where
  open badger use {get, set_entry, get-set_entry, get-set_entry_ne, get-delete, get-delete_ne}
  open codec use {valid_text, marshal, unmarshal-marshal_deep, marshal_total}

  -- A map of strings and such maps, with valid texts and at every depth no key twice.
  abbrev pub IsDocument : Fields → Type 0
  IsDocument m = ((n : ℕ) × ArePlain valid_text n m) × IsSorted m

  -- One that is not nested too deeply to be decoded.
  abbrev pub IsShallow : Fields → Type 0
  IsShallow m = ArePlain valid_text max_nested m × IsSorted m

  -- A stored text that encodes a document.
  abbrev pub Encodes : Text → Type 0
  Encodes b = (m : Fields) × (marshal m ≡ some b) × IsDocument m

  abbrev pub Safe : Write → Type 0
  Safe (sets at ttl key b) = Encodes b
  Safe (deletes key) = Unit

  abbrev pub AreSafe : List Write → Type 0
  AreSafe = All Safe

  abbrev pub HoldsDocuments : badger.Db → Type 0
  HoldsDocuments db = (now : ℕ) (key b : Text) → get now key db ≡ some b → Encodes b

  pub record IsSound (s : StorageInstance badger) : Type 1 where
    pub held : HoldsDocuments s.db
    pub waiting : AreSafe s.pending

  found_entry :
      (now until : ℕ) (x b : Text) → (if ltb now until then some x else none) ≡ some b → x ≡ b
  found_entry now until x b e = ground arith

  pub commit-HoldsDocuments :
      (w : Write) (db : badger.Db)
      → Safe w
      → HoldsDocuments db
      → HoldsDocuments (commit badger w db)
  unfolding commit
  commit-HoldsDocuments (sets at ttl k x) db safe h now key b e = elim (text_cases k key) [
    | inl same ↦
        let found : get now k (set_entry at ttl k x db) ≡ some b =
          subst (λ j. get now j (set_entry at ttl k x db) ≡ some b) (sym same) e in
        subst Encodes (found_entry _ _ _ _ (sym (get-set_entry now at ttl k x db) ∙ found)) safe
    | inr apart ↦ h now key b (sym (get-set_entry_ne now at ttl k key x db apart) ∙ e)
  ]
  commit-HoldsDocuments (deletes k) db safe h now key b e = elim (text_cases k key) [
    | inl same ↦
        let found : get now k (badger.delete k db) ≡ some b =
          subst (λ j. get now j (badger.delete k db) ≡ some b) (sym same) e in
        absurd (some-ne-none b (sym found ∙ get-delete now k db))
    | inr apart ↦ h now key b (sym (get-delete_ne now k key db apart) ∙ e)
  ]

  run_write-IsSound :
      (run : WriteRun) (w : Write) → Safe w → Ensures IsSound (run_write badger run w) (λ _. Unit)
  unfolding run_write
  run_write-IsSound WriteRun.completes w safe s h =
      (record { held = commit-HoldsDocuments w s.db safe h.held; waiting = h.waiting }, tt)
  run_write-IsSound (WriteRun.interrupted c) w safe s h =
      (record { held = h.held; waiting = (safe, h.waiting) }, tt)
  run_write-IsSound WriteRun.times_out w safe s h =
      (record { held = h.held; waiting = (safe, h.waiting) }, tt)
  run_write-IsSound _ w safe s h = (h, tt)

  pub update_with_context-IsSound :
      (run : WriteRun) (w : Write)
      → Safe w
      → Ensures IsSound (update_with_context badger run w) (λ _. Unit)
  unfolding update_with_context
  update_with_context-IsSound run w safe s h = elim (Bool-cases (s.degraded == 0)) [
    | inl e ↦ rw (e, update_with_context) (run_write-IsSound run w safe s h)
    | inr e ↦ rw (e, update_with_context) (h, tt)
  ]

  pub store-IsSound :
      (run : WriteRun) (now : ℕ) (key : Text) (m : Fields)
      → IsDocument m
      → Ensures IsSound (store badger codec run now key m) (λ _. Unit)
  unfolding store
  store-IsSound run now key m doc s h = elim (Option-cases (marshal m)) [
    | inl e ↦ absurd (marshal_total doc.0.0 m doc.0.1 e)
    | inr (b, e) ↦
        rw (e, store)
          (update_with_context-IsSound run (sets now s.persist_duration key b) (m, e, doc) s h)
  ]

  -- What a read of the service finds, if it finds something, is a document.
  abbrev pub IsFound : Option Fields → Type 0
  IsFound none = ⊥
  IsFound (some m) = IsDocument m

  pub retrieve-IsFound :
      (run : ReadRun) (now : ℕ) (key : Text) (s : StorageInstance badger)
      → IsSound s
      → Returns IsFound (retrieve badger codec run now key s)
  unfolding retrieve
  retrieve-IsFound ReadRun.completes now key s h = elim (Option-cases (get now key s.db)) [
    | inl e ↦ rw e ((0, tt), tt)
    | inr (b, e) ↦
        let (m, encoded, doc) = h.held now key b e in
        elim (unmarshal-marshal_deep doc.0.0 m b doc.0.1 doc.1 encoded) [
          | inl decoded ↦ rw (e, decoded) doc
          | inr (x, fails) ↦ rw (e, fails) tt
        ]
  ]
  retrieve-IsFound (ReadRun.done_before c) now key s h = tt
  retrieve-IsFound (ReadRun.fails e) now key s h = tt
  retrieve-IsFound (ReadRun.interrupted c) now key s h = tt

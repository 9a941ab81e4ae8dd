-- ===== src/Storage/Entries.antt =====
-- What a completed write does to later reads, while the entry lives and after.
use iot_ephemeral_value_stor.Base.{
  ℕ, ◌+◌, ◌≤◌, ◌≡◌, refl, ◌≢◌, ap, none, some, Text, ◌==◌, arith, ok, err, key_not_found, inl, inr,
  Option-cases, Bool-cases,
}
use iot_ephemeral_value_stor.Json.{Fields, end}
use iot_ephemeral_value_stor.Json.Sorted.{IsSorted}
use iot_ephemeral_value_stor.Codec.{Codec, ArePlain, max_nested}
use iot_ephemeral_value_stor.Storage.{
  Badger, StorageInstance, second, WriteRun, ReadRun, Write, sets, deletes, commit, run_write,
  update_with_context, get_json, found_json, store, retrieve, delete_key,
}

module _ (badger : Badger) where
  open badger use {
    get, set_entry, expires_at, expires_at-le, lt-expires_at, get-set_entry, get-set_entry_ne,
    get-delete, get-delete_ne,
  }

  get-live :
      (now at ttl : ℕ) (key v : Text) (db : badger.Db)
      → now + second ≤ at + ttl
      → get now key (set_entry at ttl key v db) ≡ some v
  get-live now at ttl key v db h =
      ground (arith, get-set_entry now at ttl key v db, lt-expires_at at ttl)

  get-expired :
      (now at ttl : ℕ) (key v : Text) (db : badger.Db)
      → at + ttl ≤ now
      → get now key (set_entry at ttl key v db) ≡ none
  get-expired now at ttl key v db h =
      ground (arith, get-set_entry now at ttl key v db, expires_at-le at ttl)

  abbrev key_of : Write → Text
  key_of (sets at ttl key v) = key
  key_of (deletes key) = key

  get-commit :
      (w : Write) (now : ℕ) (other : Text) (db : badger.Db)
      → key_of w ≢ other
      → get now other (commit badger w db) ≡ get now other db
  unfolding commit
  get-commit (sets at ttl key v) now other db apart =
      get-set_entry_ne now at ttl key other v db apart
  get-commit (deletes key) now other db apart = get-delete_ne now key other db apart

  pub get-update_with_context :
      (run : WriteRun) (w : Write) (now : ℕ) (other : Text) (s : StorageInstance badger)
      → key_of w ≢ other
      → get now other (update_with_context badger run w s).1.db ≡ get now other s.db
  unfolding update_with_context
  get-update_with_context run w now other s apart = elim (Bool-cases (s.degraded == 0)) [
    | inl e ↦ rw (e, update_with_context) (running run)
    | inr e ↦ rw (e, update_with_context) refl
  ]
    where
      running :
          (run : WriteRun) → get now other (run_write badger run w s).1.db ≡ get now other s.db
      running WriteRun.completes = get-commit w now other s.db apart
      running _ = refl

  module _ (codec : Codec) where
    open codec use {marshal, valid_text, unmarshal-marshal, marshal_total}

    -- A completed store puts the encoded document under its key, where the breaker is closed.
    store-db :
        (at : ℕ) (key b : Text) (doc : Fields) (s : StorageInstance badger)
        → s.degraded ≡ 0
        → marshal doc ≡ some b
        → store badger codec WriteRun.completes at key doc s
          ≡ (ok tt, record s { db = set_entry at s.persist_duration key b s.db })
    unfolding store update_with_context
    store-db at key b doc s up e = rw (e, store, up) refl

    -- After a store that completes, a read that completes finds the same document, as long as the
    -- time to live has a second to go.
    pub retrieve-store :
        (at now : ℕ) (key : Text) (doc : Fields) (s : StorageInstance badger)
        → s.degraded ≡ 0
        → ArePlain valid_text max_nested doc
        → IsSorted doc
        → now + second ≤ at + s.persist_duration
        → retrieve badger codec ReadRun.completes now key
            (store badger codec WriteRun.completes at key doc s).1
          ≡ ok (some doc)
    unfolding retrieve
    retrieve-store at now key doc s up plain sorted live = elim (Option-cases (marshal doc)) [
      | inl e ↦ absurd (marshal_total max_nested doc plain e)
      | inr (b, e) ↦
          rw (store-db at key b doc s up e, get-live now at s.persist_duration key b s.db live)
            (unmarshal-marshal doc b plain sorted e)
    ]

    -- A store of a document that completes puts a text that decodes to the document.
    pub store-encoded :
        (at : ℕ) (key : Text) (doc : Fields) (s : StorageInstance badger)
        → s.degraded ≡ 0
        → ArePlain valid_text max_nested doc
        → IsSorted doc
        → (b : Text) × (codec.unmarshal b ≡ ok (some doc))
          × (store badger codec WriteRun.completes at key doc s
              ≡ (ok tt, record s { db = set_entry at s.persist_duration key b s.db }))
    store-encoded at key doc s up plain sorted = elim (Option-cases (marshal doc)) [
      | inl e ↦ absurd (marshal_total max_nested doc plain e)
      | inr (b, e) ↦ (b, unmarshal-marshal doc b plain sorted e, store-db at key b doc s up e)
    ]

    -- While it lives, the text is there.
    pub get_json-store :
        (at now : ℕ) (key : Text) (doc : Fields) (s : StorageInstance badger)
        → s.degraded ≡ 0
        → ArePlain valid_text max_nested doc
        → IsSorted doc
        → now + second ≤ at + s.persist_duration
        → (b : Text) × (get_json badger ReadRun.completes now key
              (store badger codec WriteRun.completes at key doc s).1
            ≡ ok b)
          × (codec.unmarshal b ≡ ok (some doc))
    unfolding get_json
    get_json-store at now key doc s up plain sorted live =
        let (b, decoded, e) = store-encoded at key doc s up plain sorted in
        (b, rw (e, get-live now at s.persist_duration key b s.db live) refl, decoded)

    -- When the time to live is over, the document is gone: a reader of the JSON gets the error for
    -- a missing key, and a patch starts from the empty map.
    retrieve-store_expired :
        (at now : ℕ) (key : Text) (doc : Fields) (s : StorageInstance badger)
        → s.degraded ≡ 0
        → ArePlain valid_text max_nested doc
        → at + s.persist_duration ≤ now
        → let s' = (store badger codec WriteRun.completes at key doc s).1 in
          (retrieve badger codec ReadRun.completes now key s' ≡ ok (some end))
          × (get_json badger ReadRun.completes now key s' ≡ err key_not_found)
    unfolding retrieve get_json
    retrieve-store_expired at now key doc s up plain over = elim (Option-cases (marshal doc)) [
      | inl e ↦ absurd (marshal_total max_nested doc plain e)
      | inr (b, e) ↦
          rw (store-db at key b doc s up e, get-expired now at s.persist_duration key b s.db over)
            (refl, refl)
    ]

    -- Whatever becomes of a store or a deletion that its caller waits for, other keys read as before.
    get_json-other :
        (run : WriteRun) (at now : ℕ) (key other : Text) (doc : Fields) (s : StorageInstance badger)
        → key ≢ other
        → (get_json badger ReadRun.completes now other (store badger codec run at key doc s).1
            ≡ get_json badger ReadRun.completes now other s)
          × (get_json badger ReadRun.completes now other (delete_key badger run key s).1
              ≡ get_json badger ReadRun.completes now other s)
    unfolding get_json store delete_key
    get_json-other run at now key other doc s apart = (
      elim (Option-cases (marshal doc)) [
        | inl e ↦ rw (e, store) refl
        | inr (b, e) ↦
            rw (e, store)
              (ap (found_json badger)
                (get-update_with_context run (sets at s.persist_duration key b) now other s apart))
      ],
      ap (found_json badger) (get-update_with_context run (deletes key) now other s apart),
    )

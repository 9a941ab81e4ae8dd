-- ===== src/Service/Refines.antt =====
-- How a storage stands for the promise of Service.Spec.
use iot_ephemeral_value_stor.Base.{
  ℕ, ◌+◌, ◌≡◌, refl, sym, subst, inl, inr, true, Option, none, some, Text, text_eq, text_cases,
  Bool-cases, ltb, ok, arith, compare_text_refl, text_eq_ne,
}
use iot_ephemeral_value_stor.Json.{Fields, end}
use iot_ephemeral_value_stor.Domain.{Platform}
use iot_ephemeral_value_stor.Codec.{Codec}
use iot_ephemeral_value_stor.Codec.Plain.{IsPatchPath}
use iot_ephemeral_value_stor.Storage.{Badger, StorageInstance, ReadRun, WriteRun, retrieved}
use iot_ephemeral_value_stor.Service.Params.{AreValid}
use iot_ephemeral_value_stor.Service.Documents.{IsShallow}
use iot_ephemeral_value_stor.Service.Spec.{Entry, Spec, assign, Sees, Op, uploads, patches, removes}

text_eq_refl : (t : Text) → text_eq t t ≡ true
text_eq_refl t = ground (arith, compare_text_refl t)

module _ (platform : Platform) (badger : Badger) (codec : Codec) (ttl : ℕ) where
  open badger use {
    get, set_entry, expires_at, expires_at-le, lt-expires_at, get-set_entry, get-set_entry_ne,
    get-delete, get-delete_ne,
  }
  open codec use {valid_text, unmarshal}

  -- What a completed read finds under the key, for the given promise.
  abbrev pub Reads : Option Entry → Text → badger.Db → Type 0
  Reads o key db =
      (now : ℕ)
      → (m : Fields) × (retrieved badger codec (get now key db) ≡ ok (some m)) × Sees o now m

  abbrev pub HoldsDocument : Option Entry → Type 0
  HoldsDocument none = Unit
  HoldsDocument (some e) = IsShallow badger codec e.document

  pub record Refines (spec : Spec) (s : StorageInstance badger) : Type 0 where
    pub up : s.degraded ≡ 0
    pub lifetime : s.persist_duration ≡ ttl
    pub reads : (key : Text) → Reads (spec key) key s.db
    pub documents : (key : Text) → HoldsDocument (spec key)

  -- The database calls of an operation complete, its texts are valid UTF-8, and its path has fewer
  -- than 10000 segments.
  abbrev pub Completes : Op → Type 0
  Completes (uploads run key params) = (run.write ≡ WriteRun.completes) × AreValid valid_text params
  Completes (patches run key path params) =
      (run.write ≡ WriteRun.completes)
      × (run.read ≡ ReadRun.completes)
      × IsPatchPath codec path
      × AreValid valid_text params
  Completes (removes run key) = run.write ≡ WriteRun.completes

  pub Sees-IsShallow :
      (o : Option Entry) (now : ℕ) (m : Fields)
      → HoldsDocument o
      → Sees o now m
      → IsShallow badger codec m
  Sees-IsShallow none now m h e = subst (IsShallow badger codec) (sym e) (tt, tt)
  Sees-IsShallow (some x) now m h (inl (e, _)) = subst (IsShallow badger codec) (sym e) h
  Sees-IsShallow (some x) now m h (inr (e, _)) = subst (IsShallow badger codec) (sym e) (tt, tt)

  abbrev pub put_at : ℕ → Text → Text → StorageInstance badger → StorageInstance badger
  put_at at key b s = record s { db = set_entry at s.persist_duration key b s.db }

  set_entry-Reads :
      (at : ℕ) (key b : Text) (m : Fields) (db : badger.Db)
      → unmarshal b ≡ ok (some m)
      → Reads (some (record { document = m; until = at + ttl })) key (set_entry at ttl key b db)
  set_entry-Reads at key b m db decoded now = elim (Bool-cases (ltb now (expires_at at ttl))) [
    | inl live ↦ (
      m,
      rw (get-set_entry, live, decoded) refl,
      inl (refl, ground (arith, expires_at-le at ttl)),
    )
    | inr over ↦
        (end, rw (get-set_entry, over) refl, inr (refl, ground (arith, lt-expires_at at ttl)))
  ]

  pub set_entry-Refines :
      (at : ℕ) (key b : Text) (m : Fields) (spec : Spec) (s : StorageInstance badger)
      → unmarshal b ≡ ok (some m)
      → IsShallow badger codec m
      → Refines spec s
      → Refines
          (assign key (some (record { document = m; until = at + ttl })) spec)
          (record s { db = set_entry at s.persist_duration key b s.db })
  set_entry-Refines at key b m spec s decoded doc h = record {
    up = h.up;
    lifetime = h.lifetime;
    reads = λ other. elim (text_cases key other) [
      | inl same ↦
          rw (← same, text_eq_refl key, h.lifetime) (set_entry-Reads at key b m s.db decoded)
      | inr apart ↦ rw (text_eq_ne key other apart) (λ now.
          rw (get-set_entry_ne now at s.persist_duration key other b s.db apart)
            (h.reads other now))
    ];
    documents = λ other. elim (Bool-cases (text_eq key other)) [
      | inl e ↦ rw e doc
      | inr e ↦ rw e (h.documents other)
    ];
  }

  pub delete-Refines :
      (key : Text) (spec : Spec) (s : StorageInstance badger)
      → Refines spec s
      → Refines (assign key none spec) (record s { db = badger.delete key s.db })
  delete-Refines key spec s h = record {
    up = h.up;
    lifetime = h.lifetime;
    reads = λ other. elim (text_cases key other) [
      | inl same ↦ rw (← same, text_eq_refl key) (λ now. (end, rw get-delete refl, refl))
      | inr apart ↦
          rw (text_eq_ne key other apart)
            (λ now. rw (get-delete_ne now key other s.db apart) (h.reads other now))
    ];
    documents = λ other. elim (Bool-cases (text_eq key other)) [
      | inl e ↦ rw e tt
      | inr e ↦ rw e (h.documents other)
    ];
  }

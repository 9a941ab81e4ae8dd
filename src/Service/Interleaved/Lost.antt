-- ===== src/Service/Interleaved/Lost.antt =====
-- Two patches of one document that overlap.
use iot_ephemeral_value_stor.Base.{
  ℕ, ◌==◌, ==_iff, if◌then◌else◌, ◌≡◌, refl, sym, subst, ap, ◌∙◌, inl, inr, Option, none, some,
  Option-cases, [], ◌∷◌, Text, codes, Result, ok, err, panic, arith, ltb, true, false,
}
use iot_ephemeral_value_stor.Json.{Fields}
use iot_ephemeral_value_stor.Domain.{Platform}
use iot_ephemeral_value_stor.Codec.{Codec}
use iot_ephemeral_value_stor.Storage.{
  Badger, StorageInstance, WriteRun, retrieve, store, update_with_context,
}
use iot_ephemeral_value_stor.Service.{authorised, patched, patch_onto}
use iot_ephemeral_value_stor.Service.Params.{last_state}
use iot_ephemeral_value_stor.Service.Spec.{perform}
use iot_ephemeral_value_stor.Service.Interleaved.{
  Patching, begins, ends, put, Concurrent, read_half, write_half, op_of, in_halves, act, act_all,
}
use iot_ephemeral_value_stor.Service.Interleaved.Halves.{read_half_of_valid, write_half-read_half}

module _ (platform : Platform) (badger : Badger) (codec : Codec) where
  abbrev Storing : Type 0
  Storing = StorageInstance badger

  store-writes :
      (at : ℕ) (key v : Text) (doc : Fields) (s : Storing)
      → s.degraded ≡ 0
      → codec.marshal doc ≡ some v
      → (store badger codec WriteRun.completes at key doc s).1
        ≡ record s { db = badger.set_entry at s.persist_duration key v s.db }
  unfolding store update_with_context
  store-writes at key v doc s up e = rw (e, store, up) refl

  -- The breaker is closed and entries live so long.
  abbrev IsUp : ℕ → Storing → Type 0
  IsUp ttl s = (s.degraded ≡ 0) × (s.persist_duration ≡ ttl)

  store-IsUp :
      (ttl at : ℕ) (key : Text) (doc : Fields) (s : Storing)
      → IsUp ttl s
      → IsUp ttl (store badger codec WriteRun.completes at key doc s).1
  unfolding store
  store-IsUp ttl at key doc s h = elim (Option-cases (codec.marshal doc)) [
    | inl e ↦ rw (e, store) h
    | inr (v, e) ↦ rw (store-writes at key v doc s h.0 e) h
  ]

  -- What Patch leaves is what its Store leaves.
  patch_onto-store :
      (h : Patching) (down : Text) (m : Fields) (s : Storing)
      → h.run.write ≡ WriteRun.completes
      → (patch_onto platform badger codec h.run down h.path h.params (some m) s).1
        ≡ (store badger codec WriteRun.completes h.run.write_at down
            (patched platform h.run.now m h.path h.params)
            s).1
  unfolding patch_onto
  patch_onto-store h down m s w =
      let doc : Fields = patched platform h.run.now m h.path h.params in
      last_state (store badger codec h.run.write h.run.write_at down doc)
        (codes "error storing data") (down, doc) s
      ∙ ap (λ run. (store badger codec run h.run.write_at down doc s).1) w

  patch_onto-IsUp :
      (ttl : ℕ) (h : Patching) (down : Text) (existing : Option Fields) (s : Storing)
      → h.run.write ≡ WriteRun.completes
      → IsUp ttl s
      → IsUp ttl (patch_onto platform badger codec h.run down h.path h.params existing s).1
  unfolding patch_onto
  patch_onto-IsUp ttl h down none s w up = up
  patch_onto-IsUp ttl h down (some m) s w up =
      subst (IsUp ttl) (sym (patch_onto-store h down m s w))
        (store-IsUp ttl h.run.write_at down (patched platform h.run.now m h.path h.params) s up)

  write_half-IsUp :
      (ttl : ℕ) (h : Patching) (down : Text) (found : Result (Option Fields)) (s : Storing)
      → authorised platform h.upload_key ≡ ok down
      → h.run.write ≡ WriteRun.completes
      → IsUp ttl s
      → IsUp ttl (write_half platform badger codec h found s).1
  unfolding write_half
  write_half-IsUp ttl h down (ok o) s valid w up = rw valid (patch_onto-IsUp ttl h down o s w up)
  write_half-IsUp ttl h down (err e) s valid w up = rw valid up
  write_half-IsUp ttl h down panic s valid w up = rw valid up

  module _ (h : Patching) (down v : Text) (m : Fields)
      (valid : authorised platform h.upload_key ≡ ok down)
      (writes : h.run.write ≡ WriteRun.completes)
      (encoded : codec.marshal (patched platform h.run.now m h.path h.params) ≡ some v) where
    -- What the second half leaves to readers of its key does not depend on what was there.
    get-write_half :
        (ttl now : ℕ) (s : Storing)
        → IsUp ttl s
        → badger.get now down (write_half platform badger codec h (ok (some m)) s).1.db
          ≡ (if ltb now (badger.expires_at h.run.write_at ttl) then some v else none)
    unfolding write_half
    get-write_half ttl now s up = rw valid (
        ap (λ (t : Storing). badger.get now down t.db)
          (patch_onto-store h down m s writes
            ∙ store-writes h.run.write_at down v (patched platform h.run.now m h.path h.params) s
                up.0 encoded)
        ∙ badger.get-set_entry now h.run.write_at s.persist_duration down v s.db
        ∙ ap (λ ttl. if ltb now (badger.expires_at h.run.write_at ttl) then some v else none) up.1)

  -- Of two patches whose keys lead to one download key, both with writes that complete and the
  -- breaker closed, that read one after the other before the first of them writes, the first is
  -- lost: once both have ended, the database finds under the download key what it would find after
  -- the second alone, if what that one read is a document and its own can be encoded.
  pub overlapping_patches-lost :
      (i j : ℕ) (a b : Patching) (down v : Text) (m : Fields) (s : Storing)
      (found : ℕ → Result (Option Fields)) (now : ℕ)
      → (i == j) ≡ false
      → authorised platform a.upload_key ≡ ok down
      → authorised platform b.upload_key ≡ ok down
      → a.run.write ≡ WriteRun.completes
      → b.run.write ≡ WriteRun.completes
      → s.degraded ≡ 0
      → retrieve badger codec b.run.read b.run.read_at down s ≡ ok (some m)
      → codec.marshal (patched platform b.run.now m b.path b.params) ≡ some v
      → let c : Concurrent platform badger codec = record {
        storage = s;
        patching = λ i. none;
        found = found;
      } in
        badger.get now down
          (act_all platform badger codec
            (in_halves platform badger codec)
            (begins i a ∷ begins j b ∷ ends i ∷ ends j ∷ [])
            c).1.storage.db
        ≡ badger.get now down (perform platform badger codec (op_of platform badger codec b) s).1.db
  unfolding act_all act
  overlapping_patches-lost i j a b down v m s found now apart va vb wa wb up there encoded =
      let ii : (i == i) ≡ true = (==_iff i i).1 refl in
      let jj : (j == j) ≡ true = (==_iff j j).1 refl in
      let ji : (j == i) ≡ false = ground arith in
      let read : read_half platform badger codec b s ≡ ok (some m) =
        read_half_of_valid platform badger codec b s down vb ∙ there in
      let after_a : Storing =
        (write_half platform badger codec a (read_half platform badger codec a s) s).1 in
      let left = get-write_half b down v m vb wb encoded s.persist_duration now after_a (
        write_half-IsUp s.persist_duration a down (read_half platform badger codec a s) s va wa
          (up, refl)) in
      let right = get-write_half b down v m vb wb encoded s.persist_duration now s (up, refl) in
      rw (ii, ji, apart, jj)
        (rw (jj, put, ji, ii)
          (ap (λ r. badger.get now down (write_half platform badger codec b r after_a).1.db) read
            ∙ left
            ∙ sym right
            ∙ ap (λ r. badger.get now down (write_half platform badger codec b r s).1.db) (sym read)
            ∙ ap (λ (r : Result (Text × Fields) × Storing). badger.get now down r.1.db)
                (write_half-read_half platform badger codec b s)))

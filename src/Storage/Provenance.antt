-- ===== src/Storage/Provenance.antt =====
-- Where the values come from that a reader sees, when writes may land long after their callers left.
use iot_ephemeral_value_stor.Base.{
  ℕ, ◌+◌, ◌<◌, ◌≡◌, refl, sym, subst, ◌∙◌, inl, inr, Option, none, some, List, [], ◌∷◌, ◌++◌, Text,
  text_cases, Bool-cases, ltb, if◌then◌else◌, ◌==◌, arith, ok, All,
}
use mathlib.Core.Option.{some-ne-none}
use iot_ephemeral_value_stor.Storage.{
  Badger, StorageInstance, Write, sets, deletes, commit, WriteRun, run_write, update_with_context,
  reset_degraded, get_json, found_json, ReadRun,
}
use iot_ephemeral_value_stor.Storage.Breaker.{
  writes, resets, lands, is_lost, Reach, here, next, Requested,
}

live_entry :
    {now until : ℕ} {x v : Text}
    → (if ltb now until then some x else none) ≡ some v
    → (x ≡ v) × (now < until)
live_entry e = ground arith

module _ (badger : Badger) (start : StorageInstance badger) where
  open badger use {
    get, set_entry, delete, expires_at, get-empty, get-set_entry, get-set_entry_ne, get-delete,
    get-delete_ne,
  }

  -- A store of the value under the key was asked for, and its time to live is not over.
  abbrev pub IsFrom : {s : StorageInstance badger} → Reach badger start s → ℕ → Text → Text → Type 0
  IsFrom r now key v =
      (at : ℕ) × (ttl : ℕ) × Requested badger start r (sets at ttl key v)
      × (now < expires_at at ttl)

  abbrev Known : {s : StorageInstance badger} → Reach badger start s → badger.Db → Type 0
  Known r db = (now : ℕ) (key v : Text) → get now key db ≡ some v → IsFrom r now key v

  commit-Known :
      {s : StorageInstance badger} (r : Reach badger start s) (w : Write) (db : badger.Db)
      → Requested badger start r w
      → Known r db
      → Known r (commit badger w db)
  unfolding commit
  commit-Known r (sets at ttl k x) db asked known now key v e = elim (text_cases k key) [
    | inl same ↦
        let found : get now k (set_entry at ttl k x db) ≡ some v =
          subst (λ j. get now j (set_entry at ttl k x db) ≡ some v) (sym same) e in
        let (value, live) = live_entry (sym (get-set_entry now at ttl k x db) ∙ found) in
        (at, ttl, rw (← same, ← value) asked, live)
    | inr apart ↦ known now key v (sym (get-set_entry_ne now at ttl k key x db apart) ∙ e)
  ]
  commit-Known r (deletes k) db asked known now key v e = elim (text_cases k key) [
    | inl same ↦
        let found : get now k (delete k db) ≡ some v =
          subst (λ j. get now j (delete k db) ≡ some v) (sym same) e in
        absurd (some-ne-none v (sym found ∙ get-delete now k db))
    | inr apart ↦ known now key v (sym (get-delete_ne now k key db apart) ∙ e)
  ]

  -- Other requests add to what is known.
  Known-later :
      {s : StorageInstance badger} (r : Reach badger start s) (run : WriteRun) (w : Write)
      (db : badger.Db)
      → Known r db
      → Known (next r (writes run w)) db
  Known-later r run w db known now key v e =
      let (at, ttl, asked, live) = known now key v e in (at, ttl, inr asked, live)

  update-Known :
      {s : StorageInstance badger} (r : Reach badger start s) (run : WriteRun) (w : Write)
      → Known r s.db
      → Known (next r (writes run w)) (update_with_context badger run w s).1.db
  unfolding update_with_context
  update-Known {s} r run w known = elim (Bool-cases (s.degraded == 0)) [
    | inl e ↦ rw (e, update_with_context) (running run)
    | inr e ↦ rw (e, update_with_context) (Known-later r run w s.db known)
  ]
    where
      running : (other : WriteRun) → Known (next r (writes run w)) (run_write badger other w s).1.db
      running WriteRun.completes =
          commit-Known (next r (writes run w)) w s.db (inl refl) (Known-later r run w s.db known)
      running _ = Known-later r run w s.db known

  abbrev Pending : {s : StorageInstance badger} → Reach badger start s → List Write → Type 0
  Pending r = All (Requested badger start r)

  Pending-later :
      {s : StorageInstance badger} (r : Reach badger start s) (run : WriteRun) (w : Write)
      (ws : List Write)
      → Pending r ws
      → Pending (next r (writes run w)) ws
  Pending-later r run w [] p = tt
  Pending-later r run w (x ∷ ws) p = (inr p.0, Pending-later r run w ws p.1)

  update-Pending :
      {s : StorageInstance badger} (r : Reach badger start s) (run : WriteRun) (w : Write)
      → Pending r s.pending
      → Pending (next r (writes run w)) (update_with_context badger run w s).1.pending
  unfolding update_with_context
  update-Pending {s} r run w p = elim (Bool-cases (s.degraded == 0)) [
    | inl e ↦ rw (e, update_with_context) (running run)
    | inr e ↦ rw (e, update_with_context) old
  ]
    where
      old : Pending (next r (writes run w)) s.pending
      old = Pending-later r run w s.pending p

      running :
          (other : WriteRun)
          → Pending (next r (writes run w)) (run_write badger other w s).1.pending
      running (WriteRun.interrupted c) = (inl refl, old)
      running WriteRun.times_out = (inl refl, old)
      running _ = old

pub All-without {ℓ} :
    (P : Write → Type ℓ) (before after : List Write) (w : Write)
    → All P (before ++ w ∷ after)
    → All P (before ++ after) × P w
All-without P [] after w p = (p.1, p.0)
All-without P (x ∷ before) after w p =
    let (rest, last) = All-without P before after w p.1 in ((p.0, rest), last)

reach-Known :
    (badger : Badger) (start : StorageInstance badger) {s : StorageInstance badger}
    (r : Reach badger start s)
    → Known badger start here start.db
    → start.pending ≡ []
    → Known badger start r s.db × Pending badger start r s.pending
unfolding reset_degraded
reach-Known badger start here k e = (k, rw e tt)
reach-Known badger start (next {s} r (writes run w)) k e =
    let (known, waiting) = reach-Known badger start r k e in
    (update-Known badger start r run w known, update-Pending badger start r run w waiting)
reach-Known badger start (next {s} r resets) k e = reach-Known badger start r k e
reach-Known badger start (next {s} r (lands before after w p)) k e =
    let (known, waiting) = reach-Known badger start r k e in
    let (rest, asked) =
      All-without (Requested badger start r) before after w
        (subst (All (Requested badger start r)) p waiting) in
    (commit-Known badger start r w s.db asked known, rest)
reach-Known badger start (next {s} r (is_lost before after w p)) k e =
    let (known, waiting) = reach-Known badger start r k e in
    let (rest, _) =
      All-without (Requested badger start r) before after w
        (subst (All (Requested badger start r)) p waiting) in
    (known, rest)

-- After any history that starts with an empty database, in which writes may land long after their
-- callers gave them up, or never: a JSON text that is read under a key was asked to be stored under
-- that key, and its time to live is not over. What was never asked for is never read.
pub get_json-Requested :
    (badger : Badger) (start : StorageInstance badger) {s : StorageInstance badger}
    (r : Reach badger start s) (now : ℕ) (key json_data : Text)
    → start.db ≡ badger.empty
    → start.pending ≡ []
    → get_json badger ReadRun.completes now key s ≡ ok json_data
    → (at : ℕ) × (ttl : ℕ) × Requested badger start r (sets at ttl key json_data) × (now < at + ttl)
unfolding get_json
get_json-Requested badger start {s} r now key json_data e p g =
    let (at, ttl, asked, live) =
      (reach-Known badger start r nothing p).0 now key json_data
        (found_of_json (badger.get now key s.db) g) in
    (at, ttl, asked, omega (arith, badger.expires_at-le at ttl))
  where
    found_of_json : (o : Option Text) → found_json badger o ≡ ok json_data → o ≡ some json_data
    found_of_json none h = ground arith
    found_of_json (some b) h = ground arith

    nothing : Known badger start here start.db
    nothing at k v h = absurd (
        some-ne-none v
          (sym h ∙ subst (λ db. badger.get at k db ≡ none) (sym e) (badger.get-empty at k)))

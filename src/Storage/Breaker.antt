-- ===== src/Storage/Breaker.antt =====
-- The circuit breaker: histories of the storage, with the goroutines that callers have left behind.
use iot_ephemeral_value_stor.Base.{
  ℕ, suc, ◌+◌, ◌≤◌, ◌≡◌, refl, ap, ◌≢◌, ◌⊎◌, List, [], ◌∷◌, ◌++◌, if◌then◌else◌, ◌==◌, arith, ok,
  err, storage_degraded, length,
}
use iot_ephemeral_value_stor.Storage.{
  Badger, StorageInstance, Write, commit, WriteRun, update_with_context, reset_degraded,
}

-- While the storage is degraded, a write returns at once with the error that says so, however the
-- database would have behaved, and starts no goroutine; resetting it lets the next write run.
update_with_context-degraded :
    (badger : Badger) (run : WriteRun) (w : Write) (s : StorageInstance badger)
    → s.degraded ≢ 0
    → (update_with_context badger run w s ≡ (err storage_degraded, s))
      × (update_with_context badger WriteRun.completes w (reset_degraded badger s)
          ≡ (ok tt, record s { degraded = 0; db = commit badger w s.db }))
unfolding update_with_context reset_degraded
update_with_context-degraded badger run w s down = (ground arith, refl)

-- One step of the storage: a call of a writing method, a reset, or a goroutine left behind that
-- ends, at any place in `pending`, with its write landed or lost.
pub data Step (badger : Badger) : StorageInstance badger → StorageInstance badger → Type 1 where
  writes :
      {s : StorageInstance badger} (run : WriteRun) (w : Write)
      → Step badger s (update_with_context badger run w s).1
  resets : {s : StorageInstance badger} → Step badger s (reset_degraded badger s)
  lands :
      {s : StorageInstance badger} (before after : List Write) (w : Write)
      → s.pending ≡ before ++ w ∷ after
      → Step badger s (record s { db = commit badger w s.db; pending = before ++ after })
  is_lost :
      {s : StorageInstance badger} (before after : List Write) (w : Write)
      → s.pending ≡ before ++ w ∷ after
      → Step badger s (record s { pending = before ++ after })

pub data Reach (badger : Badger) (start : StorageInstance badger)
    : StorageInstance badger → Type 1 where
  here : Reach badger start start
  next :
      {s t : StorageInstance badger} → Reach badger start s → Step badger s t → Reach badger start t

abbrev pub cancellations : WriteRun → ℕ
cancellations (WriteRun.interrupted c) = 1
cancellations _ = 0

module _ (badger : Badger) (start : StorageInstance badger) where
  -- How many writes of a history were given up because their context was done, and how often the
  -- breaker was reset.
  unfoldable pub cancelled : {s : StorageInstance badger} → Reach badger start s → ℕ
  cancelled here = 0
  cancelled (next r (writes run w)) = cancellations run + cancelled r
  cancelled (next r resets) = cancelled r
  cancelled (next r (lands before after w e)) = cancelled r
  cancelled (next r (is_lost before after w e)) = cancelled r

  unfoldable pub reset_count : {s : StorageInstance badger} → Reach badger start s → ℕ
  reset_count here = 0
  reset_count (next r (writes run w)) = reset_count r
  reset_count (next r resets) = suc (reset_count r)
  reset_count (next r (lands before after w e)) = reset_count r
  reset_count (next r (is_lost before after w e)) = reset_count r

  -- The write was asked for in the history.
  abbrev pub Requested : {s : StorageInstance badger} → Reach badger start s → Write → Type 0
  Requested here x = ⊥
  Requested (next r (writes run w)) x = (x ≡ w) ⊎ Requested r x
  Requested (next r resets) x = Requested r x
  Requested (next r (lands before after w e)) x = Requested r x
  Requested (next r (is_lost before after w e)) x = Requested r x

abbrev slack : ℕ → ℕ
slack degraded = if degraded == 0 then 1 else 0

slack-update :
    (badger : Badger) (run : WriteRun) (w : Write) (s : StorageInstance badger)
    → length (update_with_context badger run w s).1.pending
        + slack (update_with_context badger run w s).1.degraded
      ≤ cancellations run + length s.pending + slack s.degraded
unfolding update_with_context
slack-update badger (WriteRun.done_before c) w s = ground arith
slack-update badger WriteRun.completes w s = ground arith
slack-update badger (WriteRun.fails e) w s = ground arith
slack-update badger (WriteRun.interrupted c) w s = ground arith
slack-update badger WriteRun.times_out w s = ground arith

length-without :
    (before after : List Write) (w : Write)
    → length (before ++ after) ≤ length (before ++ w ∷ after)
length-without [] after w = omega arith
length-without (x ∷ before) after w = omega (arith, length-without before after w)

pending-slack :
    (badger : Badger) (start : StorageInstance badger) {s : StorageInstance badger}
    (r : Reach badger start s)
    → start.pending ≡ []
    → length s.pending + slack s.degraded
      ≤ cancelled badger start r + reset_count badger start r + 1
unfolding cancelled reset_count reset_degraded
pending-slack badger start here e = ground (arith, ap length e)
pending-slack badger start (next {s} r (writes run w)) e =
    omega (arith, slack-update badger run w s, pending-slack badger start r e)
pending-slack badger start (next {s} r resets) e = ground (arith, pending-slack badger start r e)
pending-slack badger start (next {s} r (lands before after w p)) e =
    omega (arith, pending-slack badger start r e, length-without before after w, ap length p)
pending-slack badger start (next {s} r (is_lost before after w p)) e =
    omega (arith, pending-slack badger start r e, length-without before after w, ap length p)

-- Of callers that write one after the other, from a start with no write left behind: the writes left
-- behind are at most one for each reset of the breaker, one more, and one for each write whose
-- context was done before the timeout. (Such a write does not open the breaker.)
pending-bound :
    (badger : Badger) (start : StorageInstance badger) {s : StorageInstance badger}
    (r : Reach badger start s)
    → start.pending ≡ []
    → length s.pending ≤ cancelled badger start r + reset_count badger start r + 1
pending-bound badger start r e = omega (arith, pending-slack badger start r e)

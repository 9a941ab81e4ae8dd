-- ===== src/Storage/Flight.antt =====
-- storage/storage.go: writes of several callers at once. A call of updateWithContext first looks at
-- the breaker, and its write is then in flight until the select statement takes one of its cases;
-- meanwhile other calls begin and end.
use native.Mathlib.Nat.{mul-suc, mul-zero}
use mathlib.Core.Option.{some-ne-none}
use iot_ephemeral_value_stor.Base.{
  ℕ, zero, suc, ◌+◌, ◌*◌, ◌≤◌, ◌≡◌, refl, sym, subst, ap, Bool-cases, inl, inr, Option, none, some,
  List, [], ◌∷◌, if◌then◌else◌, ◌==◌, arith, length,
}
use iot_ephemeral_value_stor.Storage.{
  Badger, StorageInstance, Write, WriteRun, commit, run_write, update_with_context, reset_degraded,
}
use iot_ephemeral_value_stor.Storage.Breaker.{cancellations}
use iot_ephemeral_value_stor.Storage.Collection.{get_elem?, remove_at}

-- A write begins; the n-th in flight ends; the n-th of those left behind lands or is lost; and the
-- breaker is reset.
pub data Event : Type 0 where
  begins : Write → Event
  ends : ℕ → WriteRun → Event
  lands : ℕ → Event
  is_lost : ℕ → Event
  resets : Event

module _ (badger : Badger) where
  pub record Flight : Type 0 where
    pub storage : StorageInstance badger
    pub flying : List Write

  abbrev pub ended : Option Write → ℕ → WriteRun → Flight → Flight
  ended none n run f = f
  ended (some w) n run f = record {
    storage = (run_write badger run w f.storage).1;
    flying = remove_at n f.flying;
  }

  abbrev pub landed : Option Write → ℕ → StorageInstance badger → StorageInstance badger
  landed none n s = s
  landed (some w) n s = record s { db = commit badger w s.db; pending = remove_at n s.pending }

  unfoldable pub fly : Event → Flight → Flight
  fly (begins w) f = if f.storage.degraded == 0 then record f { flying = w ∷ f.flying } else f
  fly (ends n run) f = ended (get_elem? f.flying n) n run f
  fly (lands n) f = record f { storage = landed (get_elem? f.storage.pending n) n f.storage }
  fly (is_lost n) f = record f {
    storage = record f.storage { pending = remove_at n f.storage.pending };
  }
  fly resets f = record f { storage = reset_degraded badger f.storage }

  unfoldable pub fly_all : List Event → Flight → Flight
  fly_all [] f = f
  fly_all (e ∷ events) f = fly_all events (fly e f)

  -- At no time are more than so many writes in flight.
  abbrev pub AreAtMost : ℕ → List Event → Flight → Type 0
  AreAtMost k [] f = length f.flying ≤ k
  AreAtMost k (e ∷ events) f = (length f.flying ≤ k) × AreAtMost k events (fly e f)

-- How often the breaker is reset, and how many writes are given up because their context is done.
unfoldable pub reset_count : List Event → ℕ
reset_count [] = 0
reset_count (resets ∷ events) = suc (reset_count events)
reset_count (begins w ∷ events) = reset_count events
reset_count (ends n run ∷ events) = reset_count events
reset_count (lands n ∷ events) = reset_count events
reset_count (is_lost n ∷ events) = reset_count events

unfoldable pub cancelled : List Event → ℕ
cancelled [] = 0
cancelled (ends n run ∷ events) = cancellations run + cancelled events
cancelled (begins w ∷ events) = cancelled events
cancelled (lands n ∷ events) = cancelled events
cancelled (is_lost n ∷ events) = cancelled events
cancelled (resets ∷ events) = cancelled events

length-remove_at : {A : Type 0} (n : ℕ) (l : List A) → length (remove_at n l) ≤ length l
length-remove_at n [] = omega arith
length-remove_at zero (x ∷ l) = omega arith
length-remove_at (suc n) (x ∷ l) = omega (arith, length-remove_at n l)

length-remove_at_of_some :
    {A : Type 0} (n : ℕ) (l : List A) (a : A)
    → get_elem? l n ≡ some a
    → suc (length (remove_at n l)) ≡ length l
length-remove_at_of_some n [] a e = absurd (some-ne-none a (sym e))
length-remove_at_of_some zero (x ∷ l) a e = omega arith
length-remove_at_of_some (suc n) (x ∷ l) a e = omega (arith, length-remove_at_of_some n l a e)

module _ (badger : Badger) (k : ℕ) where
  -- What may still be left behind without a reset: the writes in flight, or, while the breaker is
  -- closed, as many as may be in flight.
  abbrev at_stake : ℕ → ℕ → ℕ
  at_stake degraded flying = if degraded == 0 then k else flying

  abbrev stake : Flight badger → ℕ
  stake f = length f.storage.pending + at_stake f.storage.degraded (length f.flying)

  stake-run_write :
      (run : WriteRun) (w : Write) (s : StorageInstance badger) (flying : ℕ)
      → suc flying ≤ k
      → length (run_write badger run w s).1.pending
          + at_stake (run_write badger run w s).1.degraded flying
        ≤ cancellations run + length s.pending + at_stake s.degraded (suc flying)
  unfolding run_write
  stake-run_write (WriteRun.done_before c) w s flying h = ground arith
  stake-run_write WriteRun.completes w s flying h = ground arith
  stake-run_write (WriteRun.fails e) w s flying h = ground arith
  stake-run_write (WriteRun.interrupted c) w s flying h = ground arith
  stake-run_write WriteRun.times_out w s flying h = ground arith

  abbrev gain : Event → ℕ
  gain (begins w) = 0
  gain (ends n run) = cancellations run
  gain (lands n) = 0
  gain (is_lost n) = 0
  gain resets = k

  stake-landed :
      (n : ℕ) (o : Option Write) (s : StorageInstance badger) (flying : ℕ)
      → length (landed badger o n s).pending + at_stake (landed badger o n s).degraded flying
        ≤ length s.pending + at_stake s.degraded flying
  stake-landed n none s flying = omega arith
  stake-landed n (some w) s flying = omega (arith, length-remove_at n s.pending)

  stake-ended :
      (n : ℕ) (run : WriteRun) (o : Option Write) (f : Flight badger)
      → o ≡ get_elem? f.flying n
      → length f.flying ≤ k
      → stake (ended badger o n run f) ≤ cancellations run + stake f
  stake-ended n run none f e h = omega arith
  stake-ended n run (some w) f e h =
      let fewer = length-remove_at_of_some n f.flying w (sym e) in
      subst
        (λ m.
          length (run_write badger run w f.storage).1.pending
            + at_stake (run_write badger run w f.storage).1.degraded (length (remove_at n f.flying))
          ≤ cancellations run + (length f.storage.pending + at_stake f.storage.degraded m))
        fewer
        (omega (
          arith,
          stake-run_write run w f.storage (length (remove_at n f.flying)) (omega (arith, fewer)),
        ))

  stake-fly :
      (e : Event) (f : Flight badger)
      → length f.flying ≤ k
      → stake (fly badger e f) ≤ gain e + stake f
  unfolding fly reset_degraded
  stake-fly (begins w) f h = ground arith
  stake-fly (ends n run) f h = stake-ended n run (get_elem? f.flying n) f refl h
  stake-fly (lands n) f h =
      omega (arith, stake-landed n (get_elem? f.storage.pending n) f.storage (length f.flying))
  stake-fly (is_lost n) f h = omega (arith, length-remove_at n f.storage.pending)
  stake-fly resets f h = ground arith

  stake-fly_all :
      (events : List Event) (f : Flight badger)
      → AreAtMost badger k events f
      → stake (fly_all badger events f) ≤ cancelled events + k * reset_count events + stake f
  unfolding fly_all cancelled reset_count
  stake-fly_all [] f h = omega (arith, mul-zero k)
  stake-fly_all (begins w ∷ events) f h =
      omega (arith, stake-fly (begins w) f h.0, stake-fly_all events (fly badger (begins w) f) h.1)
  stake-fly_all (ends n run ∷ events) f h =
      omega
        (arith, stake-fly (ends n run) f h.0, stake-fly_all events (fly badger (ends n run) f) h.1)
  stake-fly_all (lands n ∷ events) f h =
      omega (arith, stake-fly (lands n) f h.0, stake-fly_all events (fly badger (lands n) f) h.1)
  stake-fly_all (is_lost n ∷ events) f h =
      omega
        (arith, stake-fly (is_lost n) f h.0, stake-fly_all events (fly badger (is_lost n) f) h.1)
  stake-fly_all (resets ∷ events) f h = omega (
    arith,
    stake-fly resets f h.0,
    stake-fly_all events (fly badger resets f) h.1,
    mul-suc k (reset_count events),
  )

  flying_now :
      (events : List Event) (f : Flight badger) → AreAtMost badger k events f → length f.flying ≤ k
  flying_now [] f h = h
  flying_now (e ∷ events) f h = h.0

  -- Goroutines do not pile up behind a database that hangs, also where callers write at once: from a
  -- start with none left behind, if never more than `k` writes are in flight, the writes left behind
  -- are at most `k`, `k` more for each reset of the breaker, and one for each write whose context was
  -- done before the timeout.
  pub fly_all-bound :
      (events : List Event) (f : Flight badger)
      → f.storage.pending ≡ []
      → AreAtMost badger k events f
      → length (fly_all badger events f).storage.pending
        ≤ k + k * reset_count events + cancelled events
  fly_all-bound events f none_left h =
      ground (arith, stake-fly_all events f h, ap length none_left, flying_now events f h)

-- A write that nothing comes between is updateWithContext.
fly_all-update_with_context :
    (badger : Badger) (run : WriteRun) (w : Write) (s : StorageInstance badger)
    → (fly_all badger (begins w ∷ ends 0 run ∷ []) (record { storage = s; flying = [] })).storage
      ≡ (update_with_context badger run w s).1
unfolding fly_all fly update_with_context
fly_all-update_with_context badger run w s = elim (Bool-cases (s.degraded == 0)) [
  | inl e ↦ rw e refl
  | inr e ↦ rw e refl
]

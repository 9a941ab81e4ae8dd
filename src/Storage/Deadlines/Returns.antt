-- ===== src/Storage/Deadlines/Returns.antt =====
-- How long the callers of viewWithContext and updateWithContext wait.
use iot_ephemeral_value_stor.Base.{
  ℕ, ◌+◌, ◌≤◌, ◌≡◌, ◌≢◌, refl, Bool, true, Option, none, some, ltb, leb, if◌then◌else◌, arith,
  Cause, canceled, deadline_exceeded, inl, inr, Bool-cases,
}
use iot_ephemeral_value_stor.Storage.{ReadRun, WriteRun, default_operation_timeout}
use iot_ephemeral_value_stor.Storage.Deadlines.{
  Context, Course, succeeds, breaks, hangs, earliest, timed, done, done_by, end_of_read,
  end_of_write, started_read, read_run, started_write, write_run, latest,
}

-- It ends with a value, not before the one time and not after the other.
abbrev pub Waits : {A : Type 0} → Option (ℕ × A) → ℕ → ℕ → Type 0
Waits {A} o start end = (t : ℕ) × (a : A) × (o ≡ some (t, a)) × (start ≤ t) × (t ≤ end)

earliest-Waits :
    {A : Type 0} (choice : Bool) (start end : ℕ) (o : Option (ℕ × A)) (time : ℕ) (a : A)
    → ((r : ℕ × A) → o ≡ some r → start ≤ r.0)
    → start ≤ time
    → time ≤ end
    → Waits (earliest choice o (some (time, a))) start end
earliest-Waits choice start end none time a early h k = (time, a, refl, h, k)
earliest-Waits choice start end (some (t, b)) time a early h k = elim (Bool-cases (ltb t time)) [
  | inl p ↦ (t, b, ground arith, early (t, b) refl, ground arith)
  | inr p ↦ elim (Bool-cases (ltb time t)) [
    | inl q ↦ (time, a, ground arith, h, k)
    | inr q ↦ elim (Bool-cases choice) [
      | inl c ↦ (t, b, ground arith, early (t, b) refl, ground arith)
      | inr c ↦ (time, a, ground arith, h, k)
    ]
  ]
]

end_of_read-early :
    (start : ℕ) (course : Course) (r : ℕ × ReadRun)
    → end_of_read start course ≡ some r
    → start ≤ r.0
end_of_read-early start (succeeds n) r e = ground arith
end_of_read-early start (breaks n x) r e = ground arith
end_of_read-early start hangs r e = cc

end_of_write-early :
    (start : ℕ) (course : Course) (r : ℕ × WriteRun)
    → end_of_write start course ≡ some r
    → start ≤ r.0
end_of_write-early start (succeeds n) r e = ground arith
end_of_write-early start (breaks n x) r e = ground arith
end_of_write-early start hangs r e = cc

-- A context with a deadline is done by then.
done-Waits :
    (cancelled_at : Option ℕ) (time : ℕ)
    → Waits (earliest true (timed canceled cancelled_at) (some (time, deadline_exceeded))) 0 time
done-Waits cancelled_at time =
    earliest-Waits true 0 time (timed canceled cancelled_at) time deadline_exceeded
      (λ r e. omega arith) (omega arith) (omega arith)

abbrev clamped : ℕ → ℕ → ℕ
clamped start time = if ltb time start then start else time

started_read-Waits :
    (choice : Bool) (start : ℕ) (course : Course) (time until : ℕ) (c : Cause)
    → time ≤ until
    → Waits
        (started_read choice start (some (time, c)) course (done_by start (some (time, c))))
        start
        (clamped start until)
started_read-Waits choice start course time until c h = elim (Bool-cases (leb time start)) [
  | inl e ↦ (start, ReadRun.done_before c, ground arith, omega arith, ground arith)
  | inr e ↦ rw e (
      earliest-Waits choice start (clamped start until) (end_of_read start course) time
        (ReadRun.interrupted c) (end_of_read-early start course) (ground arith) (ground arith))
]

read_until :
    (choice : Bool) (start : ℕ) (cancelled_at : Option ℕ) (course : Course) (until : ℕ)
    → let ends = done (record { deadline = some until; cancelled_at = cancelled_at }) in
      Waits (started_read choice start ends course (done_by start ends)) start (clamped start until)
read_until choice start cancelled_at course until =
    let (time, c, e, low, h) = done-Waits cancelled_at until in
    rw e (started_read-Waits choice start course time until c h)

-- A read returns whatever the database does, and not after its context's deadline or, where that
-- has none, ten seconds; at once, if the deadline is over.
pub read_run-Waits :
    (choice : Bool) (start : ℕ) (ctx : Context) (course : Course)
    → Waits (read_run choice start ctx course) start (latest start ctx.deadline)
unfolding read_run
read_run-Waits choice start ctx course = by_deadline ctx.cancelled_at ctx.deadline
  where
    by_deadline :
        (cancelled_at deadline : Option ℕ)
        → Waits
            (read_run choice start
              (record { deadline = deadline; cancelled_at = cancelled_at })
              course)
            start
            (latest start deadline)
    by_deadline cancelled_at none =
        let (t, run, e, low, high) =
          read_until choice start cancelled_at course (start + default_operation_timeout) in
        (t, run, e, low, ground arith)
    by_deadline cancelled_at (some until) = read_until choice start cancelled_at course until

started_write-Waits :
    (choice other : Bool) (start timeout : ℕ) (ends : Option (ℕ × Cause)) (course : Course)
    → Waits
        (started_write choice other start timeout ends course (done_by start ends))
        start
        (start + timeout)
started_write-Waits choice other start timeout none course =
    earliest-Waits choice start (start + timeout) (end_of_write start course) (start + timeout)
      WriteRun.times_out (end_of_write-early start course) (omega arith) (omega arith)
started_write-Waits choice other start timeout (some (time, c)) course =
    elim (Bool-cases (leb time start)) [
      | inl e ↦ (start, WriteRun.done_before c, ground arith, omega arith, omega arith)
      | inr e ↦
          let (t, run, first, low, high) =
            earliest-Waits other start (start + timeout) (some (time, WriteRun.interrupted c))
              (start + timeout) WriteRun.times_out (λ r p. ground arith) (omega arith)
              (omega arith) in
          rw (e, first)
            (earliest-Waits choice start (start + timeout) (end_of_write start course) t run
              (end_of_write-early start course) low high)
    ]

-- A write returns whatever the database does and whatever its context is, and not after the write
-- timeout.
pub write_run-Waits :
    (choice other : Bool) (start timeout : ℕ) (ctx : Context) (course : Course)
    → Waits (write_run choice other start timeout ctx course) start (start + timeout)
unfolding write_run
write_run-Waits choice other start timeout ctx course =
    started_write-Waits choice other start timeout (done ctx) course

-- For a caller who waits as long as it takes, a transaction that is over in time is answered when it
-- is, and one that is not is given up: a read with its context's error, and a write with the
-- timeout.
module _ (choice other : Bool) (start n : ℕ) where
  abbrev patient : Context
  patient = record { deadline = none; cancelled_at = none }

  read_run-patient :
      n ≢ default_operation_timeout
      → read_run choice start patient (succeeds n) ≡ (
          if ltb n default_operation_timeout
          then some (start + n, ReadRun.completes)
          else some (start + default_operation_timeout, ReadRun.interrupted deadline_exceeded))
  unfolding read_run
  read_run-patient h = ground arith

  write_run-patient :
      (timeout : ℕ)
      → n ≢ timeout
      → write_run choice other start timeout patient (succeeds n) ≡ (
          if ltb n timeout
          then some (start + n, WriteRun.completes)
          else some (start + timeout, WriteRun.times_out))
  unfolding write_run
  write_run-patient timeout h = ground arith

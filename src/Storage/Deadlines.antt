-- ===== src/Storage/Deadlines.antt =====
-- storage/storage.go: the select statements of viewWithContext and updateWithContext by the clock.
-- They decide here what `ReadRun` and `WriteRun` leave open, from the caller's context and from how
-- long the transaction takes. The time that it takes to start a goroutine and to wake up is not
-- counted. Where two cases are ready at once, Go chooses one of them; the choice is an argument.
pub mod Returns
use iot_ephemeral_value_stor.Base.{
  ℕ, ◌+◌, ◌≤◌, ◌≡◌, refl, Bool, true, Option, none, some, Text, ltb, leb, if◌then◌else◌, arith,
  Cause, canceled, deadline_exceeded, ◌⊎◌, inl, inr, Bool-cases,
}
use iot_ephemeral_value_stor.Storage.{ReadRun, WriteRun, default_operation_timeout}

-- A context: when it ends by itself, and when its caller goes away, if ever.
pub record Context : Type 0 where
  pub deadline : Option ℕ
  pub cancelled_at : Option ℕ

-- How a transaction goes: it takes a time and succeeds, or fails, or never ends.
pub data Course : Type 0 where
  succeeds : ℕ → Course
  breaks : ℕ → Text → Course
  hangs : Course

-- What is ready first, where `none` is never ready; at the same time, as the flag says.
abbrev pub sooner : {A : Type 0} → Bool → ℕ × A → ℕ × A → ℕ × A
sooner choice x y = if ltb x.0 y.0 then x else if ltb y.0 x.0 then y else if choice then x else y

abbrev pub earliest : {A : Type 0} → Bool → Option (ℕ × A) → Option (ℕ × A) → Option (ℕ × A)
earliest choice none o = o
earliest choice (some x) none = some x
earliest choice (some x) (some y) = some (sooner choice x y)

abbrev pub timed : {A : Type 0} → A → Option ℕ → Option (ℕ × A)
timed a none = none
timed a (some time) = some (time, a)

-- `<-ctx.Done()`: when the context is done, and why.
abbrev pub done : Context → Option (ℕ × Cause)
done ctx = earliest true (timed canceled ctx.cancelled_at) (timed deadline_exceeded ctx.deadline)

-- `ctx.Err()`
abbrev pub done_by : ℕ → Option (ℕ × Cause) → Option Cause
done_by now none = none
done_by now (some (time, c)) = if leb time now then some c else none

unfoldable pub context_with_fallback_timeout : ℕ → Context → Context
context_with_fallback_timeout now ctx = elim ctx.deadline [
  | none ↦ record ctx { deadline = some (now + default_operation_timeout) }
  | some time ↦ ctx
]

abbrev pub interrupted_read : Option (ℕ × Cause) → Option (ℕ × ReadRun)
interrupted_read none = none
interrupted_read (some (time, c)) = some (time, ReadRun.interrupted c)

abbrev pub interrupted_write : Option (ℕ × Cause) → Option (ℕ × WriteRun)
interrupted_write none = none
interrupted_write (some (time, c)) = some (time, WriteRun.interrupted c)

abbrev pub end_of_read : ℕ → Course → Option (ℕ × ReadRun)
end_of_read start (succeeds n) = some (start + n, ReadRun.completes)
end_of_read start (breaks n e) = some (start + n, ReadRun.fails e)
end_of_read start hangs = none

abbrev pub end_of_write : ℕ → Course → Option (ℕ × WriteRun)
end_of_write start (succeeds n) = some (start + n, WriteRun.completes)
end_of_write start (breaks n e) = some (start + n, WriteRun.fails e)
end_of_write start hangs = none

abbrev pub started_read :
    Bool → ℕ → Option (ℕ × Cause) → Course → Option Cause → Option (ℕ × ReadRun)
started_read choice start ends course (some c) = some (start, ReadRun.done_before c)
started_read choice start ends course none =
    earliest choice (end_of_read start course) (interrupted_read ends)

-- When a read that begins at a time returns, and how it went; `none` is never.
unfoldable pub read_run : Bool → ℕ → Context → Course → Option (ℕ × ReadRun)
unfolding context_with_fallback_timeout
read_run choice start ctx course =
    let ends = done (context_with_fallback_timeout start ctx) in
    started_read choice start ends course (done_by start ends)

abbrev pub started_write :
    Bool → Bool → ℕ → ℕ → Option (ℕ × Cause) → Course → Option Cause → Option (ℕ × WriteRun)
started_write choice other start timeout ends course (some c) = some (start, WriteRun.done_before c)
started_write choice other start timeout ends course none =
    earliest choice (end_of_write start course)
      (earliest other (interrupted_write ends) (some (start + timeout, WriteRun.times_out)))

-- The same of a write behind the test of the breaker.
unfoldable pub write_run : Bool → Bool → ℕ → ℕ → Context → Course → Option (ℕ × WriteRun)
write_run choice other start timeout ctx course =
    started_write choice other start timeout (done ctx) course (done_by start (done ctx))

-- The time by which a read is over: its context's deadline, or ten seconds.
abbrev pub latest : ℕ → Option ℕ → ℕ
latest start none = start + default_operation_timeout
latest start (some time) = if ltb time start then start else time

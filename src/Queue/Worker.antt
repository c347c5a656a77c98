-- ===== src/Queue/Worker.antt =====
-- src/infra/queue/worker.rs and registry.rs: the loop that takes jobs and the tasks that run them.
--
-- A permit of the semaphore is free or held by a task. A task runs its handler (`executing`), or
-- waits inside the backend's `fail` for room in the channel (`resending`); a task is known by its
-- job's id. `World` is what a handler sees when it runs, and decides what it answers.
pub mod Sound
pub mod Run
pub mod Conserve
pub mod Tries
pub mod Deadlock
use rust_api_boilerplate.Prelude.{
  ℕ, ◌+◌, ◌-◌, ◌*◌, ◌^◌, min, Option, none, some, List, [], ◌∷◌, String, ltb, length, if◌then◌else◌,
  Result, ok, err, ◌>>=◌, ◌==◌, nat_eq, text_eq, ◌≡◌, ◌<◌, Bool, ◌++◌,
}
use Prim.Native.String.{◌++◌ as str_append}
use rust_api_boilerplate.Map
use rust_api_boilerplate.Map.{Map}
use rust_api_boilerplate.Queue.Job.{
  JobEnvelope, QueueError, channel, database, serialization, execution, unknown_job_type,
}
use rust_api_boilerplate.Queue.Channel.{
  AsyncChannel, ChannelBackend, Pending, ready, waits, dequeue, enqueue, acknowledge, fail,
}
use rust_api_boilerplate.Queue.Channel

unfoldable pub to_string : QueueError → String
to_string (channel s) = str_append "Channel error: " s
to_string (database s) = str_append "Database error: " s
to_string (serialization s) = str_append "Serialization error: " s
to_string (execution s) = str_append "Job execution error: " s
to_string (unknown_job_type s) = str_append "Unknown job type: " s

abbrev pub Handler : Type 0 → Type 0 → Type 0
Handler Value World = Value → World → Result QueueError Unit

abbrev pub JobRegistry : Type 0 → Type 0 → Type 0
JobRegistry Value World = Map String (Handler Value World)

-- `J::job_type()`, `serde_json::from_value` at J and `J::execute` are the arguments.
unfoldable pub register :
    {Value World J : Type 0}
    → String
    → (Value → Result QueueError J)
    → (J → World → Result QueueError Unit)
    → JobRegistry Value World
    → JobRegistry Value World
register job_type from_value execute handlers =
    Map.insert job_type (λ payload world. do job ← from_value payload; execute job world) handlers

pub record Worker (Value World : Type 0) : Type 0 where
  pub registry : JobRegistry Value World
  pub concurrency : ℕ
  pub retry_delay_seconds : ℕ

pub record WorkerState (Value Q : Type 0) : Type 0 where
  pub backend : ChannelBackend Value Q
  pub free : ℕ
  pub executing : Map ℕ (JobEnvelope Value)
  pub resending : Map ℕ (JobEnvelope Value)

-- The saturating operations of `u64`.
abbrev pub saturate : ℕ → ℕ
saturate n = min n (2 ^ 64 - 1)

unfoldable pub backoff : ℕ → ℕ → ℕ
backoff retry_delay attempts = min (saturate (retry_delay * saturate (2 ^ (attempts - 1)))) 3600

unfoldable pub retry_moment : ℕ → ℕ → {Value : Type 0} → JobEnvelope Value → Option ℕ
retry_moment now retry_delay e =
    if ltb e.attempts e.max_attempts then some (now + backoff retry_delay e.attempts) else none

module _ {Value World : Type 0} where
  unfoldable pub run_handler :
      JobRegistry Value World → World → JobEnvelope Value → Result QueueError Unit
  run_handler registry world e = elim (Map.get e.job_type registry) [
    | some handler ↦ handler e.payload world
    | none ↦ err (unknown_job_type e.job_type)
  ]

module _ {Value Q : Type 0} where
  -- The task ends and drops its permit.
  abbrev pub release : ℕ → ChannelBackend Value Q → WorkerState Value Q → WorkerState Value Q
  release id b s = record s {
    backend = b;
    free = s.free + 1;
    executing = Map.remove id s.executing;
  }

  -- What the task does after the first half of `fail`.
  unfoldable pub after_fail :
      ℕ
      → Option (JobEnvelope Value) × ChannelBackend Value Q
      → WorkerState Value Q
      → WorkerState Value Q
  after_fail id (none, b) s = release id b s
  after_fail id (some e, b) s = record s {
    backend = b;
    executing = Map.remove id s.executing;
    resending = Map.insert id e s.resending;
  }

  unfoldable pub complete :
      ℕ
      → ℕ
      → ℕ
      → JobEnvelope Value
      → Result QueueError Unit
      → WorkerState Value Q
      → WorkerState Value Q
  unfolding after_fail
  complete id now retry_delay e (ok u) s = release id (acknowledge id s.backend) s
  complete id now retry_delay e (err x) s =
      after_fail id (fail id (to_string x) (retry_moment now retry_delay e) s.backend) s

  abbrev pub spawned :
      Result QueueError (Option (JobEnvelope Value) × ChannelBackend Value Q)
      → WorkerState Value Q
      → WorkerState Value Q
  spawned (ok (some e, b)) s = record s {
    backend = b;
    free = s.free - 1;
    executing = Map.insert e.id e s.executing;
  }
  spawned (ok (none, b)) s = record s { backend = b }
  spawned (err x) s = s

  abbrev pub resent :
      ℕ → Pending (ChannelBackend Value Q) → WorkerState Value Q → WorkerState Value Q
  resent id waits s = s
  resent id (ready (ok b)) s = record s {
    backend = b;
    free = s.free + 1;
    resending = Map.remove id s.resending;
  }
  resent id (ready (err x)) s = record s {
    free = s.free + 1;
    resending = Map.remove id s.resending;
  }

  abbrev pub submitted :
      Pending (ChannelBackend Value Q) → WorkerState Value Q → WorkerState Value Q
  submitted (ready (ok b)) s = record s { backend = b }
  submitted r s = s

module _ {Value Q : Type 0} (c : AsyncChannel (JobEnvelope Value) Q) where
  -- A task in `fail` tries to send its envelope.
  unfoldable pub resend : ℕ → WorkerState Value Q → WorkerState Value Q
  resend id s = elim (Map.get id s.resending) [
    | none ↦ s
    | some e ↦ resent id (enqueue c e s.backend) s
  ]

  -- A client's `enqueue`.
  unfoldable pub submit : JobEnvelope Value → WorkerState Value Q → WorkerState Value Q
  submit e s = submitted (enqueue c e s.backend) s

module _ {Value World Q : Type 0} (c : AsyncChannel (JobEnvelope Value) Q)
    (w : Worker Value World) where
  unfoldable pub started : WorkerState Value Q
  started = record { backend = Channel.new c; free = w.concurrency; executing = []; resending = [] }

  -- One turn of the loop in `run`.
  unfoldable pub turn : WorkerState Value Q → WorkerState Value Q
  turn s = if s.free == 0 then s else spawned (dequeue c s.backend) s

  -- The handler of a task returns.
  unfoldable pub handle : ℕ → ℕ → World → WorkerState Value Q → WorkerState Value Q
  unfolding complete
  handle id now world s = elim (Map.get id s.executing) [
    | none ↦ s
    | some e ↦ complete id now w.retry_delay_seconds e (run_handler w.registry world e) s
  ]

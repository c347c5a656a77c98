-- ===== src/Queue/Job.antt =====
-- src/infra/queue/job.rs and error.rs: the envelope that carries a payload through the queue.
--
-- An id is a number, as a moment of `DateTime<Utc>` is, in seconds. `Value` is the JSON value.
use rust_api_boilerplate.Prelude.{ℕ, String, Option, none}

pub data JobStatus : Type 0 where
  pending : JobStatus
  running : JobStatus
  completed : JobStatus
  failed : JobStatus
  retrying : JobStatus

pub data QueueError : Type 0 where
  channel : String → QueueError
  database : String → QueueError
  serialization : String → QueueError
  execution : String → QueueError
  unknown_job_type : String → QueueError

pub record JobEnvelope (Value : Type 0) : Type 0 where
  pub id : ℕ
  pub job_type : String
  pub payload : Value
  pub status : JobStatus
  pub attempts : ℕ
  pub max_attempts : ℕ
  pub run_at : ℕ
  pub created_at : ℕ
  pub error : Option String

-- `id` is what `Uuid::new_v4()` gives and `now` is the clock.
unfoldable pub new : {Value : Type 0} → ℕ → ℕ → String → Value → ℕ → JobEnvelope Value
new id now job_type payload max_attempts = record {
  id = id;
  job_type = job_type;
  payload = payload;
  status = pending;
  attempts = 0;
  max_attempts = max_attempts;
  run_at = now;
  created_at = now;
  error = none;
}

unfoldable pub run_at : {Value : Type 0} → ℕ → JobEnvelope Value → JobEnvelope Value
run_at time e = record e { run_at = time }

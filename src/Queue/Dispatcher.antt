-- ===== src/Queue/Dispatcher.antt =====
-- src/infra/queue/dispatcher.rs: from a payload to an envelope in the queue.
--
-- `type_of` is `value.get("type").and_then(as_str)` of serde_json and `to_value` its serializer;
-- `id` and `now` are what the crates uuid and chrono give at the call.
use rust_api_boilerplate.Prelude.{ℕ, String, Option, Result, ok, ok_or, ◌>>=◌}
use rust_api_boilerplate.Queue.Job.{JobEnvelope, QueueError, execution, new, run_at}

module _ {Value : Type 0} (type_of : Value → Option String) where
  unfoldable pub extract_type : Value → Result QueueError String
  extract_type value =
      ok_or (type_of value) (execution "Job payload must contain a string field named \"type\"")

  unfoldable pub dispatch_value : ℕ → ℕ → ℕ → Value → Result QueueError (JobEnvelope Value)
  unfolding extract_type
  dispatch_value id now default_max_attempts value = do
    job_type ← extract_type value
    ok (new id now job_type value default_max_attempts)

  module _ {Job : Type 0} (to_value : Job → Result QueueError Value) where
    unfoldable pub prepare : Job → Result QueueError (String × Value)
    unfolding extract_type
    prepare payload = do
      value ← to_value payload
      job_type ← extract_type value
      ok (job_type, value)

    -- The envelope that each entry point hands to the backend's `enqueue`.
    unfoldable pub dispatch_with_retries : ℕ → ℕ → ℕ → Job → Result QueueError (JobEnvelope Value)
    unfolding prepare
    dispatch_with_retries id now max_attempts payload = do
      (job_type, value) ← prepare payload
      ok (new id now job_type value max_attempts)

    unfoldable pub dispatch : ℕ → ℕ → ℕ → Job → Result QueueError (JobEnvelope Value)
    unfolding dispatch_with_retries
    dispatch id now default_max_attempts payload =
        dispatch_with_retries id now default_max_attempts payload

    unfoldable pub dispatch_at : ℕ → ℕ → ℕ → ℕ → Job → Result QueueError (JobEnvelope Value)
    unfolding prepare
    dispatch_at id now default_max_attempts time payload = do
      (job_type, value) ← prepare payload
      ok (run_at time (new id now job_type value default_max_attempts))

-- ===== src/Queue/Database.antt =====
-- src/infra/queue/backends/database.rs: the queue in the table `jobs`.
--
-- A statement of SQL is a function of the list of the rows. A call says whether the database
-- carries it out; a transaction that fails is rolled back. An `i32` is a number below 2^32, in two's
-- complement. A moment is a number of seconds, and `now` is NOW(). A call is one step;
-- Locks has the transactions of several workers at once.
pub mod Pick
pub mod Stuck
pub mod Locks
mod Examples
use rust_api_boilerplate.Prelude.{
  ℕ, ◌+◌, ◌%◌, ◌^◌, Bool, true, false, ◌&&◌, ◌||◌, not, Option, none, some, List, [], ◌∷◌, ◌++◌,
  map, String, Result, ok, err, ◌>>=◌, ok_or, if◌then◌else◌, ◌==◌, text_eq, leb, length,
}
use rust_api_boilerplate.Queue.Job.{
  JobStatus, pending, running, completed, failed, retrying, JobEnvelope, QueueError, channel,
  database, serialization,
}

pub record Row : Type 0 where
  pub id : String
  pub job_type : String
  pub payload : String
  pub status : String
  pub attempts : ℕ
  pub max_attempts : ℕ
  pub run_at : ℕ
  pub created_at : ℕ
  pub failed_at : Option ℕ
  pub error : Option String

abbrev pub Jobs : Type 0
Jobs = List Row

-- `Display`
abbrev pub status_text : JobStatus → String
status_text pending = "pending"
status_text running = "running"
status_text completed = "completed"
status_text failed = "failed"
status_text retrying = "retrying"

-- `status IN ('pending', 'retrying') AND run_at <= NOW()`
unfoldable pub is_due : ℕ → Row → Bool
is_due now r = (r.status == "pending" || r.status == "retrying") && leb r.run_at now

abbrev pub sooner : Row → Option Row → Option Row
sooner r none = some r
sooner r (some best) = if leb r.run_at best.run_at then some r else some best

-- `ORDER BY run_at ASC LIMIT 1`
unfoldable pub select : ℕ → Jobs → Option Row
select now [] = none
select now (r ∷ rows) = let best = select now rows in if is_due now r then sooner r best else best

-- `UPDATE jobs SET .. WHERE id = ?`
unfoldable pub update : String → (Row → Row) → Jobs → Jobs
update id change [] = []
update id change (r ∷ rows) =
    let rest = update id change rows in (if r.id == id then change r else r) ∷ rest

abbrev pub has_id : String → Jobs → Bool
has_id id [] = false
has_id id (r ∷ rows) = r.id == id || has_id id rows

-- `SET status = 'running', attempts = ?`
unfoldable pub mark_running : ℕ → Row → Row
mark_running attempts r = record r { status = "running"; attempts = attempts }

abbrev pub new_attempts : Row → ℕ
new_attempts r = (r.attempts + 1) % 2 ^ 32

module _ {Value : Type 0} (to_string : Value → Option String) (from_str : String → Option Value)
    (show_uuid : ℕ → String) (parse_uuid : String → Option ℕ) where
  unfoldable pub row_of : JobEnvelope Value → String → Row
  row_of e payload = record {
    id = show_uuid e.id;
    job_type = e.job_type;
    payload = payload;
    status = status_text e.status;
    attempts = e.attempts;
    max_attempts = e.max_attempts;
    run_at = e.run_at;
    created_at = e.created_at;
    failed_at = none;
    error = e.error;
  }

  -- The primary key refuses an id that is there.
  unfoldable pub enqueue : Bool → JobEnvelope Value → Jobs → Result QueueError Unit × Jobs
  enqueue works e rows = elim (to_string e.payload) [
    | none ↦ (err (serialization "payload"), rows)
    | some payload ↦
        if works && not (has_id (show_uuid e.id) rows)
        then (ok tt, rows ++ (row_of e payload ∷ []))
        else (err (database "INSERT INTO jobs"), rows)
  ]

  -- What `dequeue` makes of the row after its commit.
  unfoldable pub envelope_of : Row → Result QueueError (Option (JobEnvelope Value))
  envelope_of r = do
    payload ← ok_or (from_str r.payload) (serialization r.payload)
    id ← ok_or (parse_uuid r.id) (channel "Invalid UUID in jobs table")
    ok (
        some (record {
          id = id;
          job_type = r.job_type;
          payload = payload;
          status = running;
          attempts = new_attempts r;
          max_attempts = r.max_attempts;
          run_at = r.run_at;
          created_at = r.created_at;
          error = r.error;
        }))

  unfoldable pub dequeue : Bool → ℕ → Jobs → Result QueueError (Option (JobEnvelope Value)) × Jobs
  dequeue works now rows =
      if works
      then elim (select now rows) [
        | none ↦ (ok none, rows)
        | some r ↦ (envelope_of r, update r.id (mark_running (new_attempts r)) rows)
      ]
      else (err (database "SELECT .. FOR UPDATE SKIP LOCKED"), rows)

abbrev pub execute : Bool → (Jobs → Jobs) → Jobs → Result QueueError Unit × Jobs
execute works statement rows =
    if works then (ok tt, statement rows) else (err (database "UPDATE jobs"), rows)

module _ (show_uuid : ℕ → String) where
  unfoldable pub acknowledge : Bool → ℕ → Jobs → Result QueueError Unit × Jobs
  acknowledge works id =
      execute works (update (show_uuid id) (λ r. record r { status = "completed" }))

  unfoldable pub fail : Bool → ℕ → ℕ → String → Option ℕ → Jobs → Result QueueError Unit × Jobs
  fail works now id error (some at) = execute works (
      update (show_uuid id)
        (λ r. record r { status = "retrying"; error = some error; run_at = at }))
  fail works now id error none = execute works (
      update (show_uuid id)
        (λ r. record r { status = "failed"; error = some error; failed_at = some now }))

unfoldable pub count_due : ℕ → Jobs → ℕ
count_due now [] = 0
count_due now (r ∷ rows) = let rest = count_due now rows in if is_due now r then rest + 1 else rest

unfoldable pub pending_count : Bool → ℕ → Jobs → Result QueueError ℕ
pending_count works now rows =
    if works then ok (count_due now rows) else err (database "SELECT COUNT(*)")

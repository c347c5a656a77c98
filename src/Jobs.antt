-- ===== src/Jobs.antt =====
-- src/app/jobs: the jobs of the application, their registry and their schedule.
--
-- serde_json is an argument: an encoder and a parser for each job. `Client` is the mail client of
-- the job's context, with what it answers to a mail; `Schedule` is the crate cron's, whose parser
-- is an argument.
pub mod Runs
mod Examples
use rust_api_boilerplate.Prelude.{
  ℕ, Option, none, some, List, [], ◌∷◌, String, Result, ok, err, ◌>>=◌,
}
use Prim.Native.String.{◌++◌ as str_append}
use rust_api_boilerplate.Queue.Job.{QueueError, execution}
use rust_api_boilerplate.Queue.Worker.{JobRegistry, register}
use rust_api_boilerplate.Scheduler.{CronEntry, register_cron}

pub record EmailJob : Type 0 where
  pub type : String
  pub to : String
  pub subject : String
  pub body : String
  pub html : Option String

abbrev pub email_type : String
email_type = "email"

unfoldable pub new_email : String → String → String → EmailJob
new_email to subject body = record {
  type = email_type;
  to = to;
  subject = subject;
  body = body;
  html = none;
}

unfoldable pub with_html : String → EmailJob → EmailJob
with_html html job = record job { html = some html }

pub record HeartbeatJob : Type 0 where
  pub type : String
  pub scheduled_at : ℕ

abbrev pub heartbeat_type : String
heartbeat_type = "heartbeat"

-- `now` is the clock.
unfoldable pub new_heartbeat : ℕ → HeartbeatJob
new_heartbeat now = record { type = heartbeat_type; scheduled_at = now }

-- The client's `send`, with the recipient, the subject, the text and the HTML.
abbrev pub Client : Type 0
Client = String → String → String → Option String → Result String Unit

-- What a handler reads of its context.
pub record JobContext : Type 0 where
  pub email : Option Client

unfoldable pub execute_email : EmailJob → JobContext → Result QueueError Unit
execute_email job ctx = elim ctx.email [
  | none ↦ err (execution "Email client is not configured — set email.enabled = true in config")
  | some send ↦ elim (send job.to job.subject job.body job.html) [
    | ok sent ↦ ok tt
    | err e ↦ err (execution (str_append "Email send failed: " e))
  ]
]

unfoldable pub execute_heartbeat : HeartbeatJob → JobContext → Result QueueError Unit
execute_heartbeat job ctx = ok tt

-- The encoders and parsers of serde_json for the two jobs.
pub record Json (Value : Type 0) : Type 0 where
  pub type_of : Value → Option String
  pub email_from : Value → Result QueueError EmailJob
  pub heartbeat_from : Value → Result QueueError HeartbeatJob
  pub heartbeat_to : HeartbeatJob → Result QueueError Value

module _ {Value : Type 0} (json : Json Value) where
  unfoldable pub build_registry : JobRegistry Value JobContext
  unfolding register
  build_registry =
      register heartbeat_type json.heartbeat_from execute_heartbeat
        (register email_type json.email_from execute_email [])

  -- One entry, whose factory makes a new job at each call; a wrong expression is an error.
  unfoldable pub build_schedule :
      {Schedule : Type 0}
      → (String → Result String Schedule)
      → Result String (List (CronEntry Schedule Value))
  unfolding register_cron
  build_schedule parse =
      register_cron parse json.heartbeat_to heartbeat_type "0 */5 * * * *" new_heartbeat []

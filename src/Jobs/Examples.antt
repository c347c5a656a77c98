-- ===== src/Jobs/Examples.antt =====
-- The theorem on the schedule, for an encoding that keeps the job as it is.
use rust_api_boilerplate.Prelude.{ℕ, none, some, String, Result, ok, err, refl}
use rust_api_boilerplate.Queue.Job.{execution}
use rust_api_boilerplate.Jobs.{HeartbeatJob, JobContext, Json, build_schedule}
use rust_api_boilerplate.Jobs.Runs.{RunsAll, build_schedule-RunsAll}

abbrev json : Json HeartbeatJob
json = record {
  type_of = λ v. some v.type;
  email_from = λ v. err (execution "missing field");
  heartbeat_from = λ v. ok v;
  heartbeat_to = λ v. ok v;
}

abbrev context : JobContext
context = record { email = none }

abbrev parse : String → Result String String
parse s = ok s

abbrev fresh : ℕ → ℕ
fresh place = place

build_schedule-RunsAll_example : RunsAll json 3 fresh 100 0 context (build_schedule json parse)
build_schedule-RunsAll_example =
    build_schedule-RunsAll json parse 3 fresh 100 0 context (λ h. h) (λ h. refl) (λ h. refl)
      (λ h. refl)

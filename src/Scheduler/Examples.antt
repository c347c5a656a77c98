-- ===== src/Scheduler/Examples.antt =====
-- The theorems on the scheduler with schedules that are periods.
use rust_api_boilerplate.Prelude.{ℕ, ◌+◌, ◌<◌, ◌≡◌, Option, some, String, List, [], ◌∷◌, ok, arith}
use rust_api_boilerplate.Scheduler.{ScheduledJob, CronEntry, round}
use rust_api_boilerplate.Scheduler.Rounds.{round_once}

abbrev after : ℕ → ℕ → Option ℕ
after period t = some (t + period + 1)

later : (s t u : ℕ) → after s t ≡ some u → t < u
later s t u h = ground (arith, h)

abbrev type_of : String → Option String
type_of value = some value

abbrev fresh_id : ℕ → ℕ
fresh_id place = place

abbrev heartbeat : CronEntry ℕ String
heartbeat = record {
  name = "heartbeat";
  expr = "0 */5 * * * *";
  schedule = 300;
  build_payload = λ now. ok "heartbeat";
}

abbrev jobs : List (ScheduledJob ℕ String)
jobs =
    record { entry = heartbeat; next_run = 50 } ∷ record { entry = heartbeat; next_run = 900 } ∷ []

round_once_example :
    round type_of 3 fresh_id after 60 9 (round type_of 3 fresh_id after 60 0 jobs).0
    ≡ ((round type_of 3 fresh_id after 60 0 jobs).0, [])
round_once_example = round_once after type_of 3 fresh_id 60 0 9 jobs later

-- ===== src/Scheduler.antt =====
-- src/infra/scheduler/runner.rs and registry.rs: jobs that are dispatched when they are due.
--
-- Moments are numbers of seconds. A schedule is a value of the crate cron, of which the model has
-- only `after`, the first occurrence after a moment. `build_payload` has the moment of its call.
pub mod Rounds
mod Examples
use rust_api_boilerplate.Prelude.{
  ℕ, ◌+◌, ◌-◌, ◌*◌, min, Option, none, some, List, [], ◌∷◌, ◌++◌, String, ltb, if◌then◌else◌,
  Result, ok, err, ◌>>=◌, unwrap_or, map, is_empty, Bool,
}
use rust_api_boilerplate.Queue.Job.{JobEnvelope, QueueError}
use rust_api_boilerplate.Queue.Dispatcher.{dispatch_value}

pub record CronEntry (Schedule Value : Type 0) : Type 0 where
  pub name : String
  pub expr : String
  pub schedule : Schedule
  pub build_payload : ℕ → Result QueueError Value

pub record ScheduledJob (Schedule Value : Type 0) : Type 0 where
  pub entry : CronEntry Schedule Value
  pub next_run : ℕ

-- `CronRegistry::register`: `parse` is `Schedule::from_str`, `to_value` the encoder of the job, and
-- `factory` has the moment of its call.
unfoldable pub register_cron :
    {Schedule Value Job : Type 0}
    → (String → Result String Schedule)
    → (Job → Result QueueError Value)
    → String
    → String
    → (ℕ → Job)
    → List (CronEntry Schedule Value)
    → Result String (List (CronEntry Schedule Value))
register_cron parse to_value name expr factory entries = do
  schedule ← parse expr
  ok (
      entries
      ++ record {
        name = name;
        expr = expr;
        schedule = schedule;
        build_payload = λ now. to_value (factory now);
      }
        ∷ [])

-- `min` of an iterator.
abbrev pub earlier : ℕ → Option ℕ → Option ℕ
earlier n none = some n
earlier n (some m) = some (min n m)

-- 5200 weeks.
abbrev pub far_future : ℕ
far_future = 52 * 100 * 7 * 86400

module _ {Schedule Value : Type 0} where
  unfoldable pub soonest : List (ScheduledJob Schedule Value) → Option ℕ
  soonest [] = none
  soonest (j ∷ js) = earlier j.next_run (soonest js)

  -- The time to sleep: `to_std` fails on a negative duration, which gives zero.
  unfoldable pub wait : ℕ → List (ScheduledJob Schedule Value) → ℕ
  unfolding soonest
  wait now jobs = min (unwrap_or (soonest jobs) (now + 3600) - now) 3600

module _ {Schedule Value : Type 0} (after : Schedule → ℕ → Option ℕ) where
  -- `filter_map` over the entries; one that never occurs again is skipped.
  unfoldable pub new : ℕ → List (CronEntry Schedule Value) → List (ScheduledJob Schedule Value)
  new now [] = []
  new now (e ∷ es) =
      let rest = new now es in
      elim (after e.schedule now) [
        | none ↦ rest
        | some next_run ↦ record { entry = e; next_run = next_run } ∷ rest
      ]

  -- The next moment of a job that was due.
  unfoldable pub advance : ℕ → ScheduledJob Schedule Value → ScheduledJob Schedule Value
  advance now j = record j { next_run = unwrap_or (after j.entry.schedule now) (now + far_future) }

-- `id` is what `Uuid::new_v4()` gives for the entry at a place of the round.
module _ {Schedule Value : Type 0} (type_of : Value → Option String) (default_max_attempts : ℕ)
    (id : ℕ → ℕ) where
  -- The envelope of `dispatch_and_log`, if there is one; a failure is logged.
  unfoldable pub dispatch_and_log : ℕ → ℕ → CronEntry Schedule Value → List (JobEnvelope Value)
  dispatch_and_log now place entry =
      elim (do
        payload ← entry.build_payload now
        dispatch_value type_of (id place) now default_max_attempts payload) [
          | ok envelope ↦ envelope ∷ []
          | err e ↦ []
        ]

  module _ (after : Schedule → ℕ → Option ℕ) where
    -- The `for` loop: the jobs, and the envelopes that were enqueued.
    unfoldable pub round :
        ℕ
        → ℕ
        → List (ScheduledJob Schedule Value)
        → List (ScheduledJob Schedule Value) × List (JobEnvelope Value)
    unfolding dispatch_and_log advance
    round now place [] = ([], [])
    round now place (j ∷ js) =
        let (rest, sent) = round now (place + 1) js in
        if ltb now j.next_run
        then (j ∷ rest, sent)
        else (advance after now j ∷ rest, dispatch_and_log now place j.entry ++ sent)

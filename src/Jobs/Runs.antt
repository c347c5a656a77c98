-- ===== src/Jobs/Runs.antt =====
-- From the schedule of src/app/jobs/schedule.rs to the handlers of src/app/jobs/registry.rs.
use rust_api_boilerplate.Prelude.{
  ℕ, ◌≡◌, some, List, [], ◌∷◌, String, Result, ok, err, refl, All, Result-cases, inl, inr, text_eq,
}
use rust_api_boilerplate.Map
use rust_api_boilerplate.Map.{Map}
use rust_api_boilerplate.Queue.Job.{JobEnvelope, QueueError, new}
use rust_api_boilerplate.Queue.Dispatcher.{dispatch_value, extract_type}
use rust_api_boilerplate.Queue.Worker.{register}
use rust_api_boilerplate.Scheduler.{CronEntry, dispatch_and_log}
use rust_api_boilerplate.Jobs.{
  HeartbeatJob, JobContext, Json, new_heartbeat, build_registry, build_schedule, execute_heartbeat,
  heartbeat_type,
}

module _ {Value : Type 0} (json : Json Value) where
  -- The handler of the envelope's type is there, and succeeds in this context.
  abbrev pub IsRun : JobContext → JobEnvelope Value → Type 0
  IsRun ctx e =
      (handler : Value → JobContext → Result QueueError Unit) × (Map.get e.job_type
          (build_registry json)
        ≡ some handler)
      × (handler e.payload ctx ≡ ok tt)

  -- One envelope, which is run.
  abbrev pub IsOneRun : JobContext → List (JobEnvelope Value) → Type 0
  IsOneRun ctx [] = ⊥
  IsOneRun ctx (e ∷ []) = IsRun ctx e
  IsOneRun ctx (e ∷ f ∷ es) = ⊥

  abbrev pub RunsAll :
      {Schedule : Type 0}
      → ℕ
      → (ℕ → ℕ)
      → ℕ
      → ℕ
      → JobContext
      → Result String (List (CronEntry Schedule Value))
      → Type 0
  RunsAll max_attempts id now place ctx (err e) = Unit
  RunsAll max_attempts id now place ctx (ok entries) =
      All (λ entry. IsOneRun ctx (dispatch_and_log json.type_of max_attempts id now place entry))
        entries

  heartbeat-IsRun :
      (ctx : JobContext) (h : HeartbeatJob) (v : Value) (id now max_attempts : ℕ)
      → json.heartbeat_from v ≡ ok h
      → IsRun ctx (new id now heartbeat_type v max_attempts)
  unfolding build_registry register execute_heartbeat Map.get Map.insert new
  heartbeat-IsRun ctx h v id now max_attempts from = (_, refl, rw from refl)

  heartbeat-IsOneRun :
      {Schedule : Type 0} (entry : CronEntry Schedule Value) (ctx : JobContext) (h : HeartbeatJob)
      (v : Value) (max_attempts : ℕ) (id : ℕ → ℕ) (now place : ℕ)
      → entry.build_payload now ≡ ok v
      → json.type_of v ≡ some heartbeat_type
      → json.heartbeat_from v ≡ ok h
      → IsOneRun ctx (dispatch_and_log json.type_of max_attempts id now place entry)
  unfolding dispatch_and_log dispatch_value extract_type
  heartbeat-IsOneRun entry ctx h v max_attempts id now place built typed from =
      rw (IsOneRun, dispatch_and_log, built, dispatch_value, extract_type, typed)
        (heartbeat-IsRun ctx h v (id place) now max_attempts from)

  -- Whatever the schedule has, at each moment each of its entries gives one job, for whose type the
  -- worker's registry has a handler, and that handler succeeds on it; provided that a job that is
  -- encoded has its type as a text field and is read back.
  pub build_schedule-RunsAll :
      {Schedule : Type 0} (parse : String → Result String Schedule) (max_attempts : ℕ) (id : ℕ → ℕ)
      (now place : ℕ) (ctx : JobContext) (encode : HeartbeatJob → Value)
      → ((h : HeartbeatJob) → json.heartbeat_to h ≡ ok (encode h))
      → ((h : HeartbeatJob) → json.type_of (encode h) ≡ some h.type)
      → ((h : HeartbeatJob) → json.heartbeat_from (encode h) ≡ ok h)
      → RunsAll max_attempts id now place ctx (build_schedule json parse)
  unfolding build_schedule new_heartbeat
  build_schedule-RunsAll parse max_attempts id now place ctx encode to typed from =
      elim (Result-cases (parse "0 */5 * * * *")) [
        | inr (e, p) ↦ rw (p, RunsAll) tt
        | inl (s, p) ↦
            let h = new_heartbeat now in
            rw (p, RunsAll)
              (
                heartbeat-IsOneRun _ ctx h (encode h) max_attempts id now place (to h) (typed h)
                    (from h),
                tt,
              )
      ]

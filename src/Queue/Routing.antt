-- ===== src/Queue/Routing.antt =====
-- From a dispatched payload to the handler that is registered for it.
use rust_api_boilerplate.Prelude.{
  ℕ, ◌≡◌, String, Option, some, Result, ok, err, none, ◌>>=◌, text_eq, ==_refl, refl, ◌∙◌, Bool,
  if◌then◌else◌, Option-cases, inl, inr, ap,
}
use rust_api_boilerplate.Map
use rust_api_boilerplate.Map.{get-insert}
use rust_api_boilerplate.Queue.Job.{JobEnvelope, QueueError, new, run_at}
use rust_api_boilerplate.Queue.Dispatcher.{
  extract_type, prepare, dispatch_with_retries, dispatch, dispatch_at, dispatch_value,
}
use rust_api_boilerplate.Queue.Worker.{Handler, JobRegistry, register, run_handler}

registered-runs :
    {Value Job World : Type 0} (from_value : Value → Result QueueError Job)
    (execute : Job → World → Result QueueError Unit) (registry : JobRegistry Value World)
    (world : World) (job : Job) (e : JobEnvelope Value)
    → from_value e.payload ≡ ok job
    → run_handler (register e.job_type from_value execute registry) world e ≡ execute job world
unfolding run_handler register
registered-runs {Value} {World = World} from_value execute registry world job e d =
    let handler : Handler Value World = (λ p x. from_value p >>= (λ j. execute j x)) in
    let found : Map.get e.job_type (register e.job_type from_value execute registry)
        ≡ some handler =
      get-insert e.job_type e.job_type handler registry
      ∙ ap (λ (b : Bool). if b then some handler else Map.get e.job_type registry)
          (==_refl e.job_type) in
    rw (found, run_handler) (rw d refl)

module _ {Value : Type 0} (type_of : Value → Option String) where
  -- What a value, the clock and the number of attempts make of the answer.
  abbrev pub Routed : ℕ → ℕ → Value → Result QueueError (JobEnvelope Value) → Type 0
  Routed now attempts value (err x) = type_of value ≡ none
  Routed now attempts value (ok e) =
      (type_of value ≡ some e.job_type)
      × (e.payload ≡ value)
      × (e.attempts ≡ 0)
      × (e.max_attempts ≡ attempts)
      × (e.run_at ≡ now)

  -- A value that is refused has no text in its field `type`; one that is enqueued has one, and is
  -- enqueued under that text, unchanged and due at once, with no attempt counted and the
  -- dispatcher's number of attempts allowed.
  pub dispatch_value-Routed :
      (id now attempts : ℕ) (value : Value)
      → Routed now attempts value (dispatch_value type_of id now attempts value)
  unfolding dispatch_value extract_type new
  dispatch_value-Routed id now attempts value = elim (Option-cases (type_of value)) [
    | inl n ↦ rw n n
    | inr (t, n) ↦ rw n (n, refl, refl, refl, refl)
  ]

  -- A job that serialises to a value of its type, from which it is read back, is dispatched, at
  -- once or for a later moment, and the worker runs the `execute` that is registered for that type
  -- on the job itself, whatever else is registered before.
  pub dispatch-runs :
      {Job World : Type 0} (to_value : Job → Result QueueError Value)
      (from_value : Value → Result QueueError Job) (execute : Job → World → Result QueueError Unit)
      (registry : JobRegistry Value World) (id now attempts time : ℕ) (world : World) (job : Job)
      (value : Value) (job_type : String)
      → to_value job ≡ ok value
      → type_of value ≡ some job_type
      → from_value value ≡ ok job
      → ((e : JobEnvelope Value) × (dispatch type_of to_value id now attempts job ≡ ok e)
          × (dispatch_at type_of to_value id now attempts time job ≡ ok (run_at time e))
          × (run_handler (register job_type from_value execute registry) world e
              ≡ execute job world))
  unfolding dispatch dispatch_with_retries dispatch_at prepare extract_type new run_handler register
  dispatch-runs to_value from_value execute registry id now attempts time world job value job_type s
        t d =
      (
        new id now job_type value attempts,
        rw (s, t) refl,
        rw (s, t) refl,
        registered-runs from_value execute registry world job (new id now job_type value attempts)
            d,
      )

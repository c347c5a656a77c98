-- ===== src/Queue/Worker/Run.antt =====
-- The queue and its worker over any interleaving of polls, handlers, resends and clients.
use rust_api_boilerplate.Prelude.{ℕ, ◌^◌, ◌<◌, ◌≡◌, nat_eq}
use rust_api_boilerplate.Queue.Job.{JobEnvelope}
use rust_api_boilerplate.Queue.Channel.{AsyncChannel}
use rust_api_boilerplate.Queue.Worker.{Worker, WorkerState, started, turn, handle, resend, submit}
use rust_api_boilerplate.Queue.Worker.Sound.{
  IsSound, copies, started-IsSound, turn-IsSound, submit-IsSound, resend-IsSound, handle-IsSound,
}

module _ {Value World Q : Type 0} (c : AsyncChannel (JobEnvelope Value) Q)
    (w : Worker Value World) where
  -- A client's job is new: its id is nowhere in the queue, as `Uuid::new_v4()` gives one, and no
  -- attempt is counted yet; `max_attempts` is a `u32`.
  pub data Move (s : WorkerState Value Q) : WorkerState Value Q → Type 0 where
    polls : Move s (turn c w s)
    handles : (id now : ℕ) (world : World) → Move s (handle c w id now world s)
    resends : (id : ℕ) → Move s (resend c id s)
    submits :
        (e : JobEnvelope Value)
        → e.attempts ≡ 0
        → e.max_attempts < 2 ^ 32
        → copies c w e.id s ≡ 0
        → Move s (submit c e s)

  pub data Run : WorkerState Value Q → Type 0 where
    begins : Run (started c w)
    moves : {s t : WorkerState Value Q} → Run s → Move s t → Run t

  move-IsSound : {s t : WorkerState Value Q} → Move s t → IsSound c w s → IsSound c w t
  move-IsSound {s} polls v = turn-IsSound c w s v
  move-IsSound {s} (handles id now world) v = handle-IsSound c w id now world s v
  move-IsSound {s} (resends id) v = resend-IsSound c w id s v
  move-IsSound {s} (submits e z b new) v = submit-IsSound c w e s new v

  -- Whatever the interleaving, the permits that are free and those of the tasks are the configured
  -- `concurrency`; `in_flight` has the jobs whose handler runs and no other; and no job stands in
  -- two places, or twice in the channel.
  pub Run-IsSound : {s : WorkerState Value Q} → Run s → IsSound c w s
  Run-IsSound begins = started-IsSound c w
  Run-IsSound (moves r m) = move-IsSound m (Run-IsSound r)

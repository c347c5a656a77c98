-- ===== src/Queue/Worker/Deadlock.antt =====
-- Tasks that hold every permit while they wait for room in the channel, and a worker without permits.
use rust_api_boilerplate.Prelude.{
  ◌≡◌, ◌≤◌, [], length, nat_eq, refl, ap, sym, ◌∙◌, arith, inl, inr, Option-cases, subst,
}
use rust_api_boilerplate.Config.{default_worker}
use rust_api_boilerplate.Map
use rust_api_boilerplate.Queue.Job.{JobEnvelope}
use rust_api_boilerplate.Queue.Channel.{AsyncChannel, full, enqueue, Send-cases}
use rust_api_boilerplate.Queue.Worker.{Worker, WorkerState, turn, handle, resend, submit}
use rust_api_boilerplate.Queue.Worker.Run.{Move, polls, handles, resends, submits, Run, Run-IsSound}

module _ {Value World Q : Type 0} (c : AsyncChannel (JobEnvelope Value) Q)
    (w : Worker Value World) where
  -- No permit is free, no handler runs, and the channel is full.
  pub record IsStuck (s : WorkerState Value Q) : Type 0 where
    pub no_permit : s.free ≡ 0
    pub none_runs : s.executing ≡ []
    pub no_room : c.capacity ≤ length (c.contents s.backend.chan)

  pub data Later (s : WorkerState Value Q) : WorkerState Value Q → Type 0 where
    unmoved : Later s s
    then_move : {t u : WorkerState Value Q} → Later s t → Move c w t u → Later s u

  refused :
      (e : JobEnvelope Value) (s : WorkerState Value Q) → IsStuck s → c.send e s.backend.chan ≡ full
  refused e s v = elim (Send-cases (c.send e s.backend.chan)) [
    | inl (q, h) ↦ absurd (omega (arith, v.no_room, c.send_room e s.backend.chan q h))
    | inr (inl h) ↦ h
    | inr (inr h) ↦ absurd (c.send_open e s.backend.chan h)
  ]

  stays : {s t : WorkerState Value Q} → Move c w s t → IsStuck s → t ≡ s
  unfolding turn handle resend submit enqueue Map.get
  stays {s} polls v = rw v.no_permit refl
  stays {s} (handles id now world) v = rw (ap (Map.get id) v.none_runs, handle) refl
  stays {s} (resends id) v = elim (Option-cases (Map.get id s.resending)) [
    | inl n ↦ rw (n, resend) refl
    | inr (e, n) ↦ rw (n, resend, refused e s v) refl
  ]
  stays {s} (submits e z b new) v = rw (refused e s v) refl

  -- A state where no permit is free, no handler runs and the channel is full, so that each task
  -- waits to put its failed job back, is never left: no poll, task or client changes it again.
  pub stuck_forever : {s t : WorkerState Value Q} → IsStuck s → Later s t → t ≡ s
  stuck_forever v unmoved = refl
  stuck_forever v (then_move l m) =
      let e = stuck_forever v l in stays m (subst IsStuck (sym e) v) ∙ e

  -- A worker whose concurrency is that of an absent `worker` section never takes a job: in every
  -- state of every run no task is there, and a turn of its loop changes nothing.
  pub default_never_works :
      {s : WorkerState Value Q}
      → w.concurrency ≡ default_worker.concurrency
      → Run c w s
      → (length s.executing ≡ 0) × (turn c w s ≡ s)
  unfolding turn
  default_never_works {s} k r =
      let p = (Run-IsSound c w r).permits in
      let z : s.free ≡ 0 = omega (arith, p, k) in (omega (arith, p, k), rw z refl)

-- ===== src/Queue/Worker/Conserve.antt =====
-- The number of jobs that the queue still has to do, over each move.
use rust_api_boilerplate.Prelude.{
  ℕ, ◌+◌, ◌≡◌, Bool, true, false, not, ◌||◌, Option, none, some, [], ◌∷◌, ltb, is_ok, if◌then◌else◌,
  ap, ◌∙◌, refl, arith, inl, inr, length, length-append, Bool-cases, Option-cases, Result-cases,
  nat_eq, ◌==◌, sym,
}
use rust_api_boilerplate.Map
use rust_api_boilerplate.Map.{length-insert, length-remove}
use rust_api_boilerplate.Queue.Job.{JobEnvelope}
use rust_api_boilerplate.Queue.Channel.{
  AsyncChannel, Send, accepted, full, closed, dequeue, enqueue, acknowledge, fail, start,
  mark_retrying, is_retried, Send-cases, TryRecv-cases,
}
use rust_api_boilerplate.Queue.Worker.{
  Worker, WorkerState, turn, handle, resend, submit, complete, after_fail, run_handler,
  retry_moment, to_string,
}
use rust_api_boilerplate.Queue.Worker.Sound.{IsSound, total, taken_absent}
use rust_api_boilerplate.Queue.Worker.Run.{Move, polls, handles, resends, submits}

abbrev pub is_accepted : {Q : Type 0} → Send Q → Bool
is_accepted (accepted q) = true
is_accepted full = false
is_accepted closed = false

module _ {Value World Q : Type 0} (c : AsyncChannel (JobEnvelope Value) Q)
    (w : Worker Value World) where
  -- A job is finished when its handler succeeds, or fails at the last attempt.
  abbrev pub is_final : World → JobEnvelope Value → Bool
  is_final world e = is_ok (run_handler w.registry world e) || not (ltb e.attempts e.max_attempts)

  abbrev pub final_of : World → Option (JobEnvelope Value) → ℕ
  final_of world none = 0
  final_of world (some e) = if is_final world e then 1 else 0

  -- The jobs that a move finishes, and those that it brings in.
  abbrev pub finished : {s t : WorkerState Value Q} → Move c w s t → ℕ
  finished polls = 0
  finished {s} (handles id now world) = final_of world (Map.get id s.executing)
  finished (resends id) = 0
  finished (submits e z b new) = 0

  abbrev pub brought : {s t : WorkerState Value Q} → Move c w s t → ℕ
  brought polls = 0
  brought (handles id now world) = 0
  brought (resends id) = 0
  brought {s} (submits e z b new) = if is_accepted (c.send e s.backend.chan) then 1 else 0

  retried_iff :
      (now delay : ℕ) (e : JobEnvelope Value)
      → is_retried (retry_moment now delay e) e ≡ ltb e.attempts e.max_attempts
  unfolding retry_moment
  retried_iff now delay e = ground arith

  turn-total : (s : WorkerState Value Q) → IsSound c w s → total c w (turn c w s) ≡ total c w s
  unfolding turn dequeue start
  turn-total s v = elim (Bool-cases (s.free == 0)) [
    | inl z ↦ rw z refl
    | inr z ↦ elim (TryRecv-cases (c.try_recv s.backend.chan)) [
      | inl ((e, q), h) ↦
          rw (z, h)
            (ground (
              arith,
              taken_absent c w s e q v h,
              length-insert e.id (start e) s.executing,
              ap length (c.recv_contents e s.backend.chan q h),
            ))
      | inr (inl h) ↦ rw (z, h) refl
      | inr (inr h) ↦ rw (z, h) refl
    ]
  ]

  submit-total :
      (e : JobEnvelope Value) (s : WorkerState Value Q)
      → total c w (submit c e s)
        ≡ total c w s + (if is_accepted (c.send e s.backend.chan) then 1 else 0)
  unfolding submit enqueue
  submit-total e s = elim (Send-cases (c.send e s.backend.chan)) [
    | inl (q, h) ↦ rw h (
        omega (
          arith,
          ap length (c.send_contents e s.backend.chan q h),
          length-append (c.contents s.backend.chan) (e ∷ []),
        ))
    | inr (inl h) ↦ rw h (omega arith)
    | inr (inr h) ↦ rw h (omega arith)
  ]

  resend-total :
      (id : ℕ) (s : WorkerState Value Q) → IsSound c w s → total c w (resend c id s) ≡ total c w s
  unfolding resend enqueue
  resend-total id s v = elim (Option-cases (Map.get id s.resending)) [
    | inl n ↦ rw (n, resend) refl
    | inr (e, n) ↦
        rw (n, resend)
          (elim (Send-cases (c.send e s.backend.chan)) [
            | inl (q, h) ↦ rw h (
                ground (
                  arith,
                  n,
                  ap length (c.send_contents e s.backend.chan q h),
                  length-append (c.contents s.backend.chan) (e ∷ []),
                  length-remove id s.resending v.resending_once,
                ))
            | inr (inl h) ↦ rw h refl
            | inr (inr h) ↦ absurd (c.send_open e s.backend.chan h)
          ])
  ]

  handle-total :
      (id now : ℕ) (world : World) (s : WorkerState Value Q)
      → IsSound c w s
      → total c w (handle c w id now world s) + final_of world (Map.get id s.executing)
        ≡ total c w s
  unfolding handle complete fail after_fail acknowledge mark_retrying
  handle-total id now world s v = elim (Option-cases (Map.get id s.executing)) [
    | inl n ↦ rw (n, handle) (omega arith)
    | inr (e, n) ↦
        let less = length-remove id s.executing v.executing_once in
        rw (n, handle)
          (elim (Result-cases (run_handler w.registry world e)) [
            | inl (u, r) ↦ rw (r, complete) (ground (arith, less, n))
            | inr (x, r) ↦
                rw (r, complete, v.tracked id ∙ n, fail)
                  (elim (Bool-cases (is_retried (retry_moment now w.retry_delay_seconds e) e)) [
                    | inl t ↦
                        rw (t, sym (retried_iff now w.retry_delay_seconds e) ∙ t)
                          (ground (
                            arith,
                            less,
                            n,
                            v.unique id,
                            length-insert id (mark_retrying (to_string x) e) s.resending,
                          ))
                    | inr t ↦
                        rw (t, sym (retried_iff now w.retry_delay_seconds e) ∙ t)
                          (ground (arith, less, n))
                  ])
          ])
  ]

  -- In a sound state each move changes the number of jobs in the channel and in the tasks by the
  -- jobs it brings in, a client's that the channel accepts, less the jobs it finishes: one whose
  -- handler succeeds, or fails when the attempts are used up. So a job that fails earlier is kept,
  -- and a poll and a resend lose and double nothing.
  pub move-total :
      {s t : WorkerState Value Q} (m : Move c w s t)
      → IsSound c w s
      → total c w t + finished m ≡ total c w s + brought m
  move-total {s} polls v = omega (arith, turn-total s v)
  move-total {s} (handles id now world) v = omega (arith, handle-total id now world s v)
  move-total {s} (resends id) v = omega (arith, resend-total id s v)
  move-total {s} (submits e z b new) v = omega (arith, submit-total e s)

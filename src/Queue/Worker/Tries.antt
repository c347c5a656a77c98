-- ===== src/Queue/Worker/Tries.antt =====
-- How often a job is tried, and how long it would wait.
use rust_api_boilerplate.Prelude.{
  ℕ, zero, suc, ◌-◌, ◌*◌, ◌^◌, ◌≡◌, ◌≤◌, ◌<◌, min, max, arith, some, List, [], ◌∷◌, ◌++◌, All, leb,
  Bool-cases, Option-cases, Result-cases, inl, inr, subst, sym, ◌∙◌, ◌==◌, nat_eq,
}
use rust_api_boilerplate.Map
use rust_api_boilerplate.Map.{get-insert, get-remove}
use rust_api_boilerplate.Queue.Job.{JobEnvelope}
use rust_api_boilerplate.Queue.Channel.{
  AsyncChannel, dequeue, enqueue, acknowledge, fail, start, mark_retrying, is_retried, Send-cases,
  TryRecv-cases,
}
use rust_api_boilerplate.Queue.Channel
use rust_api_boilerplate.Queue.Worker.{
  backoff, Worker, WorkerState, started, turn, handle, resend, submit, complete, after_fail,
  run_handler, retry_moment, to_string,
}
use rust_api_boilerplate.Queue.Worker.Run.{
  polls, handles, resends, submits, Run, begins, moves, Run-IsSound,
}

saturated : (d p m : ℕ) → 3600 ≤ m → min (min (d * min p m) m) 3600 ≡ min (d * p) 3600
saturated zero p m h = omega (arith, h)
saturated (suc d) p m h = elim (Bool-cases (leb p m)) [
  | inl l ↦ let e : min p m ≡ p = ground (arith, l) in rw e (omega (arith, h))
  | inr g ↦
      let e : min p m ≡ m = ground (arith, g) in
      let k : m < p = ground (arith, g) in rw e (omega (arith, h, k))
]

-- The saturating computation gives the delay that its comment names, `delay * 2^(attempt - 1)`
-- capped at an hour, for any base delay and any attempt.
pub backoff_lem :
    (retry_delay attempts : ℕ)
    → backoff retry_delay attempts ≡ min (retry_delay * 2 ^ (attempts - 1)) 3600
unfolding backoff
backoff_lem d n = saturated d (2 ^ (n - 1)) (2 ^ 64 - 1) (omega arith)

module _ {Value : Type 0} where
  -- A job in the channel or on the way back to it has an attempt left; `max_attempts` of 0 or 1
  -- both allow one.
  abbrev pub HasTry : JobEnvelope Value → Type 0
  HasTry e = (e.attempts < max 1 e.max_attempts) × (e.max_attempts < 2 ^ 32)

  -- The attempts of a job whose handler runs, this one included.
  abbrev pub InTry : JobEnvelope Value → Type 0
  InTry e = (1 ≤ e.attempts) × (e.attempts ≤ max 1 e.max_attempts) × (e.max_attempts < 2 ^ 32)

  All-append :
      (xs : List (JobEnvelope Value)) (e : JobEnvelope Value)
      → All HasTry xs
      → HasTry e
      → All HasTry (xs ++ (e ∷ []))
  All-append [] e a h = (h, tt)
  All-append (x ∷ xs) e a h = (a.0, All-append xs e a.1 h)

module _ {Value World Q : Type 0} (c : AsyncChannel (JobEnvelope Value) Q)
    (w : Worker Value World) where
  pub record IsTried (s : WorkerState Value Q) : Type 0 where
    pub queued : All HasTry (c.contents s.backend.chan)
    pub runs : (i : ℕ) (e : JobEnvelope Value) → Map.get i s.executing ≡ some e → InTry e
    pub waiting : (i : ℕ) (e : JobEnvelope Value) → Map.get i s.resending ≡ some e → HasTry e

  started-IsTried : IsTried (started c w)
  unfolding started Map.get Channel.new
  started-IsTried = record {
    queued = subst (All HasTry) (sym c.bounded_contents) tt;
    runs = λ i e h. cc;
    waiting = λ i e h. cc;
  }

  turn-IsTried : (s : WorkerState Value Q) → IsTried s → IsTried (turn c w s)
  unfolding turn dequeue start
  turn-IsTried s v = elim (Bool-cases (s.free == 0)) [
    | inl z ↦ rw z v
    | inr z ↦ elim (TryRecv-cases (c.try_recv s.backend.chan)) [
      | inl ((e, q), h) ↦
          let a : HasTry e × All HasTry (c.contents q) =
            subst (All HasTry) (c.recv_contents e s.backend.chan q h) v.queued in
          rw (z, h)
            (record {
              queued = a.1;
              runs =
                  λ i f p. ground (arith, get-insert e.id i (start e) s.executing, v.runs i f, a.0);
              waiting = v.waiting;
            })
      | inr (inl h) ↦ rw (z, h) v
      | inr (inr h) ↦ rw (z, h) v
    ]
  ]

  submit-IsTried :
      (e : JobEnvelope Value) (s : WorkerState Value Q)
      → HasTry e
      → IsTried s
      → IsTried (submit c e s)
  unfolding submit enqueue
  submit-IsTried e s t v = elim (Send-cases (c.send e s.backend.chan)) [
    | inl (q, h) ↦ rw h (record {
      queued =
          subst (All HasTry) (sym (c.send_contents e s.backend.chan q h))
            (All-append (c.contents s.backend.chan) e v.queued t);
      runs = v.runs;
      waiting = v.waiting;
    })
    | inr (inl h) ↦ rw h v
    | inr (inr h) ↦ rw h v
  ]

  resend-IsTried : (id : ℕ) (s : WorkerState Value Q) → IsTried s → IsTried (resend c id s)
  unfolding resend enqueue
  resend-IsTried id s v = elim (Option-cases (Map.get id s.resending)) [
    | inl n ↦ rw (n, resend) v
    | inr (e, n) ↦
        rw (n, resend)
          (elim (Send-cases (c.send e s.backend.chan)) [
            | inl (q, h) ↦ rw h (record {
              queued =
                  subst (All HasTry) (sym (c.send_contents e s.backend.chan q h))
                    (All-append (c.contents s.backend.chan) e v.queued (v.waiting id e n));
              runs = v.runs;
              waiting = λ i f p. ground (arith, get-remove id i s.resending, v.waiting i f);
            })
            | inr (inl h) ↦ rw h v
            | inr (inr h) ↦ absurd (c.send_open e s.backend.chan h)
          ])
  ]

  handle-IsTried :
      (id now : ℕ) (world : World) (s : WorkerState Value Q)
      → Map.get id s.backend.in_flight ≡ Map.get id s.executing
      → IsTried s
      → IsTried (handle c w id now world s)
  unfolding handle complete fail after_fail acknowledge mark_retrying
  handle-IsTried id now world s same v = elim (Option-cases (Map.get id s.executing)) [
    | inl n ↦ rw (n, handle) v
    | inr (e, n) ↦
        let kept : (i : ℕ) (f : JobEnvelope Value)
            → Map.get i (Map.remove id s.executing) ≡ some f
            → InTry f =
          λ i f p. ground (arith, get-remove id i s.executing, v.runs i f) in
        rw (n, handle)
          (elim (Result-cases (run_handler w.registry world e)) [
            | inl (u, r) ↦
                rw (r, complete) (record { queued = v.queued; runs = kept; waiting = v.waiting })
            | inr (x, r) ↦
                rw (r, complete, same ∙ n, fail)
                  (elim (Bool-cases (is_retried (retry_moment now w.retry_delay_seconds e) e)) [
                    | inl t ↦ rw t (record {
                      queued = v.queued;
                      runs = kept;
                      waiting = λ i f p. ground (
                        arith,
                        t,
                        v.runs id e n,
                        v.waiting i f,
                        get-insert id i (mark_retrying (to_string x) e) s.resending,
                      );
                    })
                    | inr t ↦ rw t (record { queued = v.queued; runs = kept; waiting = v.waiting })
                  ])
          ])
  ]

  Run-IsTried : {s : WorkerState Value Q} → Run c w s → IsTried s
  Run-IsTried begins = started-IsTried
  Run-IsTried (moves {s} r polls) = turn-IsTried s (Run-IsTried r)
  Run-IsTried (moves {s} r (handles id now world)) =
      handle-IsTried id now world s ((Run-IsSound c w r).tracked id) (Run-IsTried r)
  Run-IsTried (moves {s} r (resends id)) = resend-IsTried id s (Run-IsTried r)
  Run-IsTried (moves {s} r (submits e z b new)) =
      submit-IsTried e s (omega (arith, z, b), b) (Run-IsTried r)

  -- In every state of every run, a job whose handler runs is in one of its attempts, counted from
  -- 1, and no later than the last that `max_attempts` allows, where 0 allows one as 1 does.
  pub Run-attempts :
      {s : WorkerState Value Q} {e : JobEnvelope Value} (id : ℕ)
      → Run c w s
      → Map.get id s.executing ≡ some e
      → (1 ≤ e.attempts) × (e.attempts ≤ max 1 e.max_attempts)
  Run-attempts {s} {e} id r h = let t = (Run-IsTried r).runs id e h in (t.0, t.1)

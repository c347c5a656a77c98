-- ===== src/Queue/Worker/Sound.antt =====
-- The invariant of the permits, the tasks and the table `in_flight`.
use rust_api_boilerplate.Prelude.{
  ℕ, ◌+◌, ◌≤◌, ◌≡◌, none, some, List, [], ◌∷◌, ◌++◌, length, is_some, if◌then◌else◌, ◌==◌, nat_eq,
  nat_beq_iff, nat_beq, arith, inl, inr, Bool-cases, Option-cases, Result-cases, refl, ap, ◌∙◌,
  true,
}
use rust_api_boilerplate.Map
use rust_api_boilerplate.Map.{
  Map, get-insert, get-remove, length-insert, length-remove, insert-IsDistinct, remove-IsDistinct,
}
use rust_api_boilerplate.Queue.Job.{JobEnvelope}
use rust_api_boilerplate.Queue.Channel.{
  AsyncChannel, ChannelBackend, Pending, ready, waits, dequeue, enqueue, acknowledge, fail, start,
  mark_retrying, is_retried, Send-cases, TryRecv-cases, received, empty, disconnected,
}
use rust_api_boilerplate.Queue.Channel
use rust_api_boilerplate.Queue.Worker.{
  Worker, WorkerState, started, turn, handle, resend, submit, complete, after_fail, run_handler,
  release, retry_moment, to_string,
}

module _ {Value : Type 0} where
  -- How often an id stands in the queue.
  abbrev pub count : ℕ → List (JobEnvelope Value) → ℕ
  count i [] = 0
  count i (e ∷ es) = (if nat_beq e.id i then 1 else 0) + count i es

  abbrev pub held : ℕ → Map ℕ (JobEnvelope Value) → ℕ
  held i m = if is_some (Map.get i m) then 1 else 0

  pub count-append :
      (i : ℕ) (xs : List (JobEnvelope Value)) (e : JobEnvelope Value)
      → count i (xs ++ (e ∷ [])) ≡ count i xs + (if nat_beq e.id i then 1 else 0)
  count-append i [] e = ground arith
  count-append i (x ∷ xs) e = ground (arith, count-append i xs e)

module _ {Value World Q : Type 0} (c : AsyncChannel (JobEnvelope Value) Q)
    (w : Worker Value World) where
  -- The jobs that the queue still has to finish.
  abbrev pub total : WorkerState Value Q → ℕ
  total s = length (c.contents s.backend.chan) + length s.executing + length s.resending

  -- In how many places a job stands.
  abbrev pub copies : ℕ → WorkerState Value Q → ℕ
  copies i s = count i (c.contents s.backend.chan) + held i s.executing + held i s.resending

  pub record IsSound (s : WorkerState Value Q) : Type 0 where
    pub permits : s.free + length s.executing + length s.resending ≡ w.concurrency
    pub executing_once : Map.IsDistinct s.executing
    pub resending_once : Map.IsDistinct s.resending
    pub tracked : (i : ℕ) → Map.get i s.backend.in_flight ≡ Map.get i s.executing
    pub named_e : (i : ℕ) (e : JobEnvelope Value) → Map.get i s.executing ≡ some e → e.id ≡ i
    pub named_r : (i : ℕ) (e : JobEnvelope Value) → Map.get i s.resending ≡ some e → e.id ≡ i
    pub unique : (i : ℕ) → copies i s ≤ 1

  pub started-IsSound : IsSound (started c w)
  unfolding started Map.get Channel.new
  started-IsSound = record {
    permits = ground (arith, c.bounded_contents, ap length c.bounded_contents);
    executing_once = tt;
    resending_once = tt;
    tracked = λ i. refl;
    named_e = λ i e h. cc;
    named_r = λ i e h. cc;
    unique = λ i. omega (arith, ap (count i) c.bounded_contents);
  }

  -- A dequeued job stands nowhere else.
  pub taken_absent :
      (s : WorkerState Value Q) (e : JobEnvelope Value) (q : Q)
      → IsSound s
      → c.try_recv s.backend.chan ≡ received e q
      → (Map.get e.id s.executing ≡ none) × (Map.get e.id s.resending ≡ none)
  taken_absent s e q v h =
      let u = v.unique e.id in
      let k = ap (count e.id) (c.recv_contents e s.backend.chan q h) in
      (ground (arith, u, k, nat_beq_iff e.id e.id), ground (arith, u, k, nat_beq_iff e.id e.id))

  pub turn-IsSound : (s : WorkerState Value Q) → IsSound s → IsSound (turn c w s)
  unfolding turn dequeue start
  turn-IsSound s v = elim (Bool-cases (s.free == 0)) [
    | inl z ↦ rw z v
    | inr z ↦ elim (TryRecv-cases (c.try_recv s.backend.chan)) [
      | inl ((e, q), h) ↦
          rw (z, h)
            record {
              permits = ground (
                arith,
                taken_absent s e q v h,
                length-insert e.id (start e) s.executing,
                v.permits,
                nat_beq_iff s.free 0,
              );
              executing_once = insert-IsDistinct e.id (start e) s.executing v.executing_once;
              resending_once = v.resending_once;
              tracked = λ i. ground (
                arith,
                get-insert e.id i (start e) s.executing,
                get-insert e.id i (start e) s.backend.in_flight,
                v.tracked i,
              );
              named_e = λ i f p. ground (
                arith,
                get-insert e.id i (start e) s.executing,
                v.named_e i f,
                nat_beq_iff e.id i,
              );
              named_r = v.named_r;
              unique = λ i. ground (
                arith,
                get-insert e.id i (start e) s.executing,
                v.unique i,
                ap (count i) (c.recv_contents e s.backend.chan q h),
                nat_beq_iff e.id i,
                ap (λ (j : ℕ). Map.get j s.executing) {x = e.id} {y = i},
              );
            }
      | inr (inl h) ↦ rw (z, h) v
      | inr (inr h) ↦ rw (z, h) v
    ]
  ]

  pub submit-IsSound :
      (e : JobEnvelope Value) (s : WorkerState Value Q)
      → copies e.id s ≡ 0
      → IsSound s
      → IsSound (submit c e s)
  unfolding submit enqueue
  submit-IsSound e s new v = elim (Send-cases (c.send e s.backend.chan)) [
    | inl (q, h) ↦ rw h (record {
      permits = v.permits;
      executing_once = v.executing_once;
      resending_once = v.resending_once;
      tracked = v.tracked;
      named_e = v.named_e;
      named_r = v.named_r;
      unique = λ i. ground (
        arith,
        v.unique i,
        new,
        ap (count i) (c.send_contents e s.backend.chan q h),
        count-append i (c.contents s.backend.chan) e,
        nat_beq_iff e.id i,
        ap (λ (j : ℕ). copies j s) {x = e.id} {y = i},
      );
    })
    | inr (inl h) ↦ rw h v
    | inr (inr h) ↦ rw h v
  ]

  pub resend-IsSound : (id : ℕ) (s : WorkerState Value Q) → IsSound s → IsSound (resend c id s)
  unfolding resend enqueue
  resend-IsSound id s v = elim (Option-cases (Map.get id s.resending)) [
    | inl n ↦ rw (n, resend) v
    | inr (e, n) ↦
        rw (n, resend)
          (elim (Send-cases (c.send e s.backend.chan)) [
            | inl (q, h) ↦ rw h (record {
              permits = ground (arith, n, v.permits, length-remove id s.resending v.resending_once);
              executing_once = v.executing_once;
              resending_once = remove-IsDistinct id s.resending v.resending_once;
              tracked = v.tracked;
              named_e = v.named_e;
              named_r = λ i f p. ground (arith, get-remove id i s.resending, v.named_r i f);
              unique = λ i. ground (
                arith,
                n,
                v.unique i,
                v.named_r id e n,
                ap (count i) (c.send_contents e s.backend.chan q h),
                count-append i (c.contents s.backend.chan) e,
                nat_beq_iff id i,
                get-remove id i s.resending,
                ap (λ (j : ℕ). Map.get j s.resending) {x = id} {y = i},
                ap (λ (j : ℕ). nat_beq j i) (v.named_r id e n),
              );
            })
            | inr (inl h) ↦ rw h v
            | inr (inr h) ↦ absurd (c.send_open e s.backend.chan h)
          ])
  ]

  -- A task whose handler returned, without the wait of `fail`.
  release-IsSound :
      (id : ℕ) (s : WorkerState Value Q)
      → is_some (Map.get id s.executing) ≡ true
      → IsSound s
      → IsSound (release id (acknowledge id s.backend) s)
  unfolding acknowledge
  release-IsSound id s n v = record {
    permits = ground (arith, n, v.permits, length-remove id s.executing v.executing_once);
    executing_once = remove-IsDistinct id s.executing v.executing_once;
    resending_once = v.resending_once;
    tracked = λ i.
        ground
          (arith, get-remove id i s.executing, get-remove id i s.backend.in_flight, v.tracked i);
    named_e = λ i f p. ground (arith, get-remove id i s.executing, v.named_e i f);
    named_r = v.named_r;
    unique = λ i. ground (arith, v.unique i, get-remove id i s.executing);
  }

  -- A task that starts to wait in `fail`.
  wait-IsSound :
      (id : ℕ) (e f : JobEnvelope Value) (s : WorkerState Value Q)
      → Map.get id s.executing ≡ some e
      → f.id ≡ e.id
      → IsSound s
      → IsSound (after_fail id (some f, acknowledge id s.backend) s)
  unfolding acknowledge after_fail
  wait-IsSound id e f s n same v = record {
    permits = ground (
      arith,
      n,
      v.permits,
      v.unique id,
      length-remove id s.executing v.executing_once,
      length-insert id f s.resending,
    );
    executing_once = remove-IsDistinct id s.executing v.executing_once;
    resending_once = Map.insert-IsDistinct id f s.resending v.resending_once;
    tracked = λ i.
        ground
          (arith, get-remove id i s.executing, get-remove id i s.backend.in_flight, v.tracked i);
    named_e = λ i g p. ground (arith, get-remove id i s.executing, v.named_e i g);
    named_r = λ i g p. ground (
      arith,
      get-insert id i f s.resending,
      v.named_r i g,
      v.named_e id e n,
      same,
      nat_beq_iff id i,
    );
    unique = λ i. ground (
      arith,
      n,
      v.unique i,
      get-remove id i s.executing,
      get-insert id i f s.resending,
      nat_beq_iff id i,
      ap (λ (j : ℕ). Map.get j s.executing) {x = id} {y = i},
    );
  }

  pub handle-IsSound :
      (id now : ℕ) (world : World) (s : WorkerState Value Q)
      → IsSound s
      → IsSound (handle c w id now world s)
  unfolding handle complete fail after_fail acknowledge mark_retrying
  handle-IsSound id now world s v = elim (Option-cases (Map.get id s.executing)) [
    | inl n ↦ rw (n, handle) v
    | inr (e, n) ↦
        rw (n, handle)
          (elim (Result-cases (run_handler w.registry world e)) [
            | inl (u, r) ↦ rw (r, complete) (release-IsSound id s (ap is_some n) v)
            | inr (x, r) ↦
                rw (r, complete, v.tracked id ∙ n, fail)
                  (elim (Bool-cases (is_retried (retry_moment now w.retry_delay_seconds e) e)) [
                    | inl t ↦ rw t (wait-IsSound id e (mark_retrying (to_string x) e) s n refl v)
                    | inr t ↦ rw t (release-IsSound id s (ap is_some n) v)
                  ])
          ])
  ]

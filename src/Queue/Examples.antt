-- ===== src/Queue/Examples.antt =====
-- The theorems on the queue at concrete jobs, with a channel kept as a list.
use rust_api_boilerplate.Prelude.{
  ℕ, ◌+◌, ◌≡◌, ◌≢◌, ◌≤◌, ◌<◌, refl, String, Option, none, some, List, [], ◌∷◌, ◌++◌, Result, ok,
  err, ltb, length, if◌then◌else◌, arith,
}
use rust_api_boilerplate.Map
use rust_api_boilerplate.Queue.Job.{JobEnvelope, QueueError, execution, pending, run_at}
use rust_api_boilerplate.Queue.Channel.{
  AsyncChannel, Send, accepted, full, closed, TryRecv, received, empty, disconnected, start,
  enqueue, dequeue, fail, mark_retrying,
}
use rust_api_boilerplate.Queue.Channel
use rust_api_boilerplate.Queue.Dispatcher.{dispatch, dispatch_at}
use rust_api_boilerplate.Queue.Routing.{dispatch-runs}
use rust_api_boilerplate.Queue.Worker.{
  Handler, Worker, WorkerState, started, turn, handle, submit, complete, after_fail, run_handler,
  retry_moment, register,
}
use rust_api_boilerplate.Queue.Worker.Sound.{IsSound, total}
use rust_api_boilerplate.Queue.Worker.Run.{
  Move, polls, handles, submits, Run, begins, moves, Run-IsSound,
}
use rust_api_boilerplate.Queue.Worker.Conserve.{finished, brought, move-total}
use rust_api_boilerplate.Queue.Worker.Deadlock.{IsStuck, unmoved, then_move, stuck_forever}
use rust_api_boilerplate.Queue.Worker.Tries.{Run-attempts}

-- A payload is a text, and its type too.
abbrev Envelope : Type 0
Envelope = JobEnvelope String

abbrev list_send : ℕ → Envelope → List Envelope → Send (List Envelope)
list_send cap e q = if ltb (length q) cap then accepted (q ++ (e ∷ [])) else full

abbrev list_recv : List Envelope → TryRecv Envelope (List Envelope)
list_recv [] = empty
list_recv (e ∷ q) = received e q

abbrev list_contents : List Envelope → List Envelope
list_contents q = q

recv_contents : (e : Envelope) (q r : List Envelope) → list_recv q ≡ received e r → q ≡ e ∷ r
recv_contents e [] r h = absurd (cc)
recv_contents e (f ∷ q) r h = cc

recv_empty : (q : List Envelope) → list_recv q ≡ empty → q ≡ []
recv_empty [] h = refl
recv_empty (e ∷ q) h = absurd (cc)

send_contents :
    (cap : ℕ) (e : Envelope) (q r : List Envelope)
    → list_send cap e q ≡ accepted r
    → r ≡ q ++ (e ∷ [])
send_contents cap e q r h = ground (arith, h)

send_room :
    (cap : ℕ) (e : Envelope) (q r : List Envelope) → list_send cap e q ≡ accepted r → length q < cap
send_room cap e q r h = ground (arith, h)

send_full : (cap : ℕ) (e : Envelope) (q : List Envelope) → list_send cap e q ≡ full → cap ≤ length q
send_full cap e q h = ground (arith, h)

send_open : (cap : ℕ) (e : Envelope) (q : List Envelope) → list_send cap e q ≢ closed
send_open cap e q h = ground (arith, h)

abbrev list_channel : ℕ → AsyncChannel Envelope (List Envelope)
list_channel cap = record {
  contents = list_contents;
  capacity = cap;
  bounded = [];
  send = list_send cap;
  try_recv = list_recv;
  bounded_contents = refl;
  send_contents = send_contents cap;
  send_room = send_room cap;
  send_full = send_full cap;
  send_open = send_open cap;
  recv_empty = recv_empty;
  recv_contents = recv_contents;
}

-- Every handler fails.
abbrev broken : Handler String ℕ
broken payload world = err (execution "no route to host")

abbrev single : Worker String ℕ
single = record { registry = ("mail", broken) ∷ []; concurrency = 1; retry_delay_seconds = 30 }

abbrev job : ℕ → Envelope
job id = record {
  id = id;
  job_type = "mail";
  payload = "mail";
  status = pending;
  attempts = 0;
  max_attempts = 3;
  run_at = 0;
  created_at = 0;
  error = none;
}

abbrev tiny : AsyncChannel Envelope (List Envelope)
tiny = list_channel 1

abbrev State : Type 0
State = WorkerState String (List Envelope)

abbrev s0 : State
s0 = started tiny single

abbrev s1 : State
s1 = submit tiny (job 1) s0

abbrev s2 : State
s2 = turn tiny single s1

abbrev s3 : State
s3 = submit tiny (job 2) s2

-- Job 1 failed and waits for room, which job 2 has taken.
abbrev s4 : State
s4 = handle tiny single 1 100 0 s3

two_moves : Run tiny single s2
unfolding started submit enqueue Channel.new Map.get
two_moves = moves (moves begins (submits (job 1) refl (omega arith) refl)) polls

three_moves : Run tiny single s3
unfolding started submit enqueue Channel.new Map.get turn dequeue start Map.insert
three_moves = moves two_moves (submits (job 2) refl (omega arith) refl)

Run-IsSound_example : IsSound tiny single s4
Run-IsSound_example = Run-IsSound tiny single (moves three_moves (handles 1 100 0))

abbrev fails : Move tiny single s3 s4
fails = handles 1 100 0

move-total_example :
    total tiny single s4 + finished tiny single fails
    ≡ total tiny single s3 + brought tiny single fails
move-total_example = move-total tiny single fails (Run-IsSound tiny single three_moves)

Run-attempts_example : (1 ≤ 1) × (1 ≤ 3)
unfolding started submit enqueue Channel.new Map.get turn dequeue start Map.insert
Run-attempts_example = Run-attempts tiny single 1 two_moves refl

s4-IsStuck : IsStuck tiny single s4
unfolding started submit enqueue Channel.new Map.get turn dequeue start Map.insert handle complete
    run_handler fail retry_moment after_fail mark_retrying Map.remove
s4-IsStuck = record { no_permit = refl; none_runs = refl; no_room = omega arith }

stuck_forever_example : turn tiny single s4 ≡ s4
stuck_forever_example = stuck_forever tiny single s4-IsStuck (then_move unmoved polls)

abbrev type_of : String → Option String
type_of value = some value

abbrev to_value : ℕ → Result QueueError String
to_value j = ok "mail"

abbrev from_value : String → Result QueueError ℕ
from_value v = ok 7

abbrev execute : ℕ → ℕ → Result QueueError Unit
execute j world = ok tt

dispatch-runs_example :
    (e : Envelope) × (dispatch type_of to_value 1 0 3 7 ≡ ok e)
    × (dispatch_at type_of to_value 1 0 3 60 7 ≡ ok (run_at 60 e))
    × (run_handler (register "mail" from_value execute []) 0 e ≡ execute 7 0)
dispatch-runs_example =
    dispatch-runs type_of to_value from_value execute [] 1 0 3 60 0 7 "mail" "mail" refl refl refl

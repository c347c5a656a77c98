-- ===== src/Queue/Database/Examples.antt =====
-- The theorems on the database backend, for payloads that are texts: an open brace is refused.
use rust_api_boilerplate.Prelude.{
  ◌≡◌, true, Option, none, some, List, [], ◌∷◌, String, ok, err, refl, ◌==◌, text_eq, if◌then◌else◌,
  All, nat_eq, ◌≢◌, ℕ, arith,
}
use rust_api_boilerplate.Queue.Job.{JobEnvelope, pending, serialization}
use rust_api_boilerplate.Queue.Channel.{start}
use rust_api_boilerplate.Queue.Database.{Row, Jobs, dequeue, enqueue, select, is_due}
use rust_api_boilerplate.Queue.Database.Pick.{Dequeued, dequeue-Dequeued, dequeue-enqueue}
use rust_api_boilerplate.Queue.Database.Stuck.{
  Op, enqueue_op, dequeue_op, acknowledge_op, fail_op, IsRunning, apply_all, unreadable_stuck,
}
use rust_api_boilerplate.Queue.Database.Locks.{
  Transactions, Act, locks, commits, rolls_back, act_all, IsExclusive, act_all-IsExclusive,
}

abbrev to_text : String → Option String
to_text s = some s

abbrev of_text : String → Option String
of_text s = if s == "{" then none else some s

abbrev uuid_text : ℕ → String
uuid_text id = if id == 7 then "seven" else "eight"

abbrev text_uuid : String → Option ℕ
text_uuid s = if s == "seven" then some 7 else (if s == "eight" then some 8 else none)

abbrev mail : JobEnvelope String
mail = record {
  id = 7;
  job_type = "email";
  payload = "to";
  status = pending;
  attempts = 0;
  max_attempts = 3;
  run_at = 5;
  created_at = 5;
  error = none;
}

abbrev unreadable : Row
unreadable = record {
  id = "seven";
  job_type = "email";
  payload = "{";
  status = "pending";
  attempts = 0;
  max_attempts = 3;
  run_at = 5;
  created_at = 5;
  failed_at = none;
  error = none;
}

abbrev later : Row
later = record unreadable { id = "eight"; payload = "to"; run_at = 9 }

abbrev jobs : Jobs
jobs = later ∷ unreadable ∷ []

dequeue-Dequeued_example :
    Dequeued to_text of_text uuid_text text_uuid 10 jobs
      (dequeue to_text of_text uuid_text text_uuid true 10 jobs)
dequeue-Dequeued_example = dequeue-Dequeued to_text of_text uuid_text text_uuid true 10 jobs

dequeue-enqueue_example :
    (dequeue to_text of_text uuid_text text_uuid true 7
      (enqueue to_text of_text uuid_text text_uuid true mail (later ∷ [])).1).0
    ≡ ok (some (start mail))
unfolding is_due
dequeue-enqueue_example =
    dequeue-enqueue to_text of_text uuid_text text_uuid 7 mail "to" (later ∷ []) (refl, tt) refl
      refl (omega arith) refl refl refl

abbrev calls : List (Op String)
calls =
    dequeue_op true 20
    ∷ acknowledge_op true 8
    ∷ fail_op true 21 8 "late" (some 30)
    ∷ enqueue_op true (record mail { id = 9 })
    ∷ []

unreadable_stuck_example :
    ((dequeue to_text of_text uuid_text text_uuid true 10 jobs).0 ≡ err (serialization "{"))
    × All (IsRunning "seven") (
        apply_all to_text of_text uuid_text text_uuid calls
          (dequeue to_text of_text uuid_text text_uuid true 10 jobs).1)
unfolding select is_due
unreadable_stuck_example =
    unreadable_stuck to_text of_text uuid_text text_uuid 10 jobs unreadable calls refl refl
      (tt, (eight_ne, (eight_ne, (eight_ne, tt))))
  where
    eight_ne : uuid_text 8 ≢ "seven"
    eight_ne h = absurd (ground (arith, text_eq.beq_iff (uuid_text 8) "seven", h))

-- Two workers lock a job each; one commits, the other gives up, and a third comes in between.
abbrev acts : List Act
acts = locks 10 ∷ locks 20 ∷ commits "seven" ∷ locks 20 ∷ rolls_back "eight" ∷ locks 20 ∷ []

abbrev idle : Transactions
idle = record { rows = jobs; held = [] }

act_all-IsExclusive_example : IsExclusive (act_all acts idle)
act_all-IsExclusive_example = act_all-IsExclusive acts idle (tt, tt)

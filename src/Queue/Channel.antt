-- ===== src/Queue/Channel.antt =====
-- src/infra/queue/backends/channel.rs: the in-memory backend.
--
-- The bounded channel is the crate async_channel's: its operations are an argument, with their
-- documented behaviour as laws. A sender on a full channel waits; `full` is that answer.
use rust_api_boilerplate.Prelude.{
  ℕ, ◌+◌, ◌%◌, ◌^◌, ◌<◌, ◌≤◌, ◌≡◌, ◌≢◌, Bool, ◌&&◌, Option, none, some, List, [], ◌∷◌, ◌++◌, String,
  ltb, length, is_some, if◌then◌else◌, Result, ok, err, nat_eq, ◌⊎◌, inl, inr, refl,
}
use rust_api_boilerplate.Map
use rust_api_boilerplate.Map.{Map}
use rust_api_boilerplate.Queue.Job.{JobEnvelope, QueueError, channel, running, retrying}

pub data Send (Q : Type 0) : Type 0 where
  accepted : Q → Send Q
  full : Send Q
  closed : Send Q

pub data TryRecv (A Q : Type 0) : Type 0 where
  received : A → Q → TryRecv A Q
  empty : TryRecv A Q
  disconnected : TryRecv A Q

-- A first-in first-out queue of at most `capacity` elements. Nothing closes it: the backend keeps
-- a sender and a receiver and calls no `close`.
pub record AsyncChannel (A Q : Type 0) : Type 0 where
  pub contents : Q → List A
  pub capacity : ℕ
  pub bounded : Q
  pub send : A → Q → Send Q
  pub try_recv : Q → TryRecv A Q
  pub bounded_contents : contents bounded ≡ []
  pub send_contents :
      (a : A) (q r : Q) → send a q ≡ accepted r → contents r ≡ contents q ++ (a ∷ [])
  pub send_room : (a : A) (q r : Q) → send a q ≡ accepted r → length (contents q) < capacity
  pub send_full : (a : A) (q : Q) → send a q ≡ full → capacity ≤ length (contents q)
  pub send_open : (a : A) (q : Q) → send a q ≢ closed
  pub recv_empty : (q : Q) → try_recv q ≡ empty → contents q ≡ []
  pub recv_contents : (a : A) (q r : Q) → try_recv q ≡ received a r → contents q ≡ a ∷ contents r

-- `in_flight` has the envelopes that are dequeued and neither acknowledged nor failed.
pub record ChannelBackend (Value Q : Type 0) : Type 0 where
  pub chan : Q
  pub in_flight : Map ℕ (JobEnvelope Value)

-- The answer of an operation that may have to wait for room.
pub data Pending (B : Type 0) : Type 0 where
  ready : Result QueueError B → Pending B
  waits : Pending B

pub Send-cases :
    {Q : Type 0} (r : Send Q) → ((q : Q) × (r ≡ accepted q)) ⊎ ((r ≡ full) ⊎ (r ≡ closed))
Send-cases (accepted q) = inl (q, refl)
Send-cases full = inr (inl refl)
Send-cases closed = inr (inr refl)

pub TryRecv-cases :
    {A Q : Type 0} (r : TryRecv A Q)
    → ((p : A × Q) × (r ≡ received p.0 p.1)) ⊎ ((r ≡ empty) ⊎ (r ≡ disconnected))
TryRecv-cases (received a q) = inl ((a, q), refl)
TryRecv-cases empty = inr (inl refl)
TryRecv-cases disconnected = inr (inr refl)

-- The two writes of `dequeue` to the envelope; the counter is a `u32`.
unfoldable pub start : {Value : Type 0} → JobEnvelope Value → JobEnvelope Value
start e = record e { attempts = (e.attempts + 1) % 2 ^ 32; status = running }

-- The writes of `fail` to an envelope that is tried again.
unfoldable pub mark_retrying : {Value : Type 0} → String → JobEnvelope Value → JobEnvelope Value
mark_retrying error e = record e { status = retrying; error = some error }

module _ {Value Q : Type 0} (c : AsyncChannel (JobEnvelope Value) Q) where
  unfoldable pub new : ChannelBackend Value Q
  new = record { chan = c.bounded; in_flight = [] }

  abbrev pub sent_back : ChannelBackend Value Q → Send Q → Pending (ChannelBackend Value Q)
  sent_back b (accepted q) = ready (ok (record b { chan = q }))
  sent_back b full = waits
  sent_back b closed = ready (err (channel "sending into a closed channel"))

  unfoldable pub enqueue :
      JobEnvelope Value → ChannelBackend Value Q → Pending (ChannelBackend Value Q)
  enqueue e b = sent_back b (c.send e b.chan)

  abbrev pub taken :
      ChannelBackend Value Q
      → TryRecv (JobEnvelope Value) Q
      → Result QueueError (Option (JobEnvelope Value) × ChannelBackend Value Q)
  taken b (received e q) =
      ok (some (start e), record { chan = q; in_flight = Map.insert e.id (start e) b.in_flight })
  taken b empty = ok (none, b)
  taken b disconnected = err (channel "receiving from a closed channel")

  unfoldable pub dequeue :
      ChannelBackend Value Q
      → Result QueueError (Option (JobEnvelope Value) × ChannelBackend Value Q)
  dequeue b = taken b (c.try_recv b.chan)

  unfoldable pub pending_count : ChannelBackend Value Q → ℕ
  pending_count b = length (c.contents b.chan)

-- Whether `fail` tries the job again.
abbrev pub is_retried : {Value : Type 0} → Option ℕ → JobEnvelope Value → Bool
is_retried retry_at e = is_some retry_at && ltb e.attempts e.max_attempts

module _ {Value Q : Type 0} where
  unfoldable pub acknowledge : ℕ → ChannelBackend Value Q → ChannelBackend Value Q
  acknowledge id b = record b { in_flight = Map.remove id b.in_flight }

  -- `fail` up to its wait: the envelope leaves `in_flight`, and what is to be sent again.
  unfoldable pub fail :
      ℕ
      → String
      → Option ℕ
      → ChannelBackend Value Q
      → Option (JobEnvelope Value) × ChannelBackend Value Q
  unfolding mark_retrying
  fail id error retry_at b = elim (Map.get id b.in_flight) [
    | none ↦ (none, b)
    | some e ↦ (
      if is_retried retry_at e then some (mark_retrying error e) else none,
      record b { in_flight = Map.remove id b.in_flight },
    )
  ]

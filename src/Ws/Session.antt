-- ===== src/Ws/Session.antt =====
-- src/infra/ws/session.rs: one connection's task.
--
-- A branch of `select!` is an event, with what the environment decides in it: the clock in
-- milliseconds, whether a write to the socket succeeds, and the queues' answers to a publication.
-- `elsewhere` is what other tasks do to the shared hub between two events. `run` is `none` while
-- the events given do not end the loop.
pub mod Teardown
pub mod Commands
use rust_api_boilerplate.Prelude.{
  ℕ, ◌+◌, ◌*◌, ◌-◌, Bool, true, false, Option, none, some, List, [], ◌∷◌, ◌++◌, String, Result, ok,
  err, if◌then◌else◌, ltb, max, ◌≡◌, refl,
}
use rust_api_boilerplate.Config.{WebSocketConfig}
use rust_api_boilerplate.Ws.Message.{
  Uuid, Frame, WsError, topic_limit, ClientMessage, ServerMessage, ErrorCode, bad_request,
  forbidden, limit_exceeded, internal,
}
use rust_api_boilerplate.Ws.Message
use rust_api_boilerplate.Ws.Hub.{WsHub, unregister, subscribe, unsubscribe}
use rust_api_boilerplate.Ws.Publish.{TrySend, publish}
use rust_api_boilerplate.Ws.Policy.{WsContext, WsPolicy}

-- `serde_json::from_str` with its error's text, `encode`, and `to_string` of an error.
pub record Codec (Value : Type 0) : Type 0 where
  pub parse : String → Result String (ClientMessage Value)
  pub encode : ServerMessage Value → Option Frame
  pub error_text : WsError → String

pub data CloseCode : Type 0 where
  away policy protocol other : CloseCode

pub record CloseReason : Type 0 where
  pub code : CloseCode
  pub description : Option String

-- What the task writes to the socket.
pub data Write : Type 0 where
  text : Frame → Write
  ping : Write
  pong : String → Write
  close : Option CloseReason → Write

pub data AggregatedMessage : Type 0 where
  text : String → AggregatedMessage
  binary : AggregatedMessage
  ping pong : String → AggregatedMessage
  close : Option CloseReason → AggregatedMessage

-- The environment's part in the handling of one message.
pub record Answers : Type 0 where
  pub written : Bool
  pub outcome : Uuid → TrySend
  pub room : Bool

pub data Event : Type 0 where
  outbound : Option Frame → Bool → Event
  ended : Event
  failed : String → Event
  inbound : AggregatedMessage → ℕ → Answers → Event
  tick : ℕ → Bool → Event
  elsewhere : (WsHub → WsHub) → Event

-- The hub, the reply, and the frames that the command put into queues.
pub record Handled (Value : Type 0) : Type 0 where
  pub hub : WsHub
  pub response : Option (ServerMessage Value)
  pub frames : List (Uuid × Frame)

module _ {Value : Type 0} (codec : Codec Value) where
  -- The arms of `match hub.subscribe(..)`.
  unfoldable pub subscribe_reply : String → WsHub → Result WsError WsHub → Handled Value
  subscribe_reply topic h (ok h') = record {
    hub = h';
    response = some (ServerMessage.subscribed topic);
    frames = [];
  }
  subscribe_reply topic h (err (topic_limit n)) = record {
    hub = h;
    response = some (ServerMessage.error limit_exceeded (codec.error_text (topic_limit n)));
    frames = [];
  }
  subscribe_reply topic h (err e) = record {
    hub = h;
    response = some (ServerMessage.error internal (codec.error_text e));
    frames = [];
  }

  unfoldable pub publish_reply : Result WsError ℕ → Option (ServerMessage Value)
  publish_reply (ok n) = none
  publish_reply (err e) = some (ServerMessage.error internal (codec.error_text e))

  abbrev refuse : ErrorCode → String → WsHub → Handled Value
  refuse code reason h = record {
    hub = h;
    response = some (ServerMessage.error code reason);
    frames = [];
  }

  module _ (policy : WsPolicy Value) (ctx : WsContext) (answers : Answers) where
    -- `match message` of `handle_text`.
    unfoldable pub handle_message : ClientMessage Value → WsHub → Handled Value
    unfolding subscribe_reply publish_reply
    handle_message (ClientMessage.subscribe topic) h = elim (policy.authorize_subscribe ctx topic) [
      | err reason ↦ refuse forbidden reason h
      | ok _ ↦ subscribe_reply topic h (subscribe ctx.connection_id topic h)
    ]
    handle_message (ClientMessage.unsubscribe topic) h = record {
      hub = unsubscribe ctx.connection_id topic h;
      response = some (ServerMessage.unsubscribed topic);
      frames = [];
    }
    handle_message (ClientMessage.publish topic payload) h =
        elim (policy.authorize_publish ctx topic payload) [
          | err reason ↦ refuse forbidden reason h
          | ok _ ↦
              let p = publish codec.encode answers.outcome answers.room topic (some payload) h in
              record { hub = p.hub; response = publish_reply p.result; frames = p.frames }
        ]
    handle_message ClientMessage.ping h = record {
      hub = h;
      response = some ServerMessage.pong;
      frames = [];
    }

    unfoldable pub handle_text : String → WsHub → Handled Value
    unfolding handle_message
    handle_text raw h = elim (codec.parse raw) [
      | err e ↦ refuse bad_request e h
      | ok message ↦ handle_message message h
    ]

  -- `send`: whether the socket is still there, and what was written. An encoding failure is logged.
  unfoldable pub send : Bool → ServerMessage Value → Bool × List Write
  send written message = elim (codec.encode message) [
    | none ↦ (true, [])
    | some frame ↦ (written, if written then Write.text frame ∷ [] else [])
  ]

  -- The end of `handle_text`: no reply where a publication was accepted.
  unfoldable pub reply : Bool → Option (ServerMessage Value) → Bool × List Write
  unfolding send
  reply written none = (true, [])
  reply written (some message) = send written message

-- The loop's variables, and what was written so far.
pub record Session : Type 0 where
  pub hub : WsHub
  pub last_seen : ℕ
  pub out : List Write

-- `loop` goes on, or breaks with a close reason.
pub data Control : Type 0 where
  continue : Session → Control
  break : Option CloseReason → Session → Control

-- `if !sent { break None; }`
abbrev pub go_on : Bool → Session → Control
go_on true s = continue s
go_on false s = break none s

unfoldable pub millis : ℕ → ℕ
millis seconds = max seconds 1 * 1000

module _ {Value : Type 0} (codec : Codec Value) (policy : WsPolicy Value) (config : WebSocketConfig)
    (ctx : WsContext) where
  -- `match message` of the inbound branch, after `last_seen` was set.
  unfoldable pub on_message : AggregatedMessage → Answers → Session → Control
  unfolding send reply
  on_message (AggregatedMessage.text t) a s =
      let r = handle_text codec policy ctx a t s.hub in
      let (sent, w) = reply codec a.written r.response in
      go_on sent (record s { hub = r.hub; out = s.out ++ w })
  on_message AggregatedMessage.binary a s =
      let (sent, w) = send codec a.written (
        ServerMessage.error bad_request
          "Binary frames are not supported — send JSON text frames") in
      go_on sent (record s { out = s.out ++ w })
  on_message (AggregatedMessage.ping bytes) a s =
      go_on a.written
        (record s { out = s.out ++ (if a.written then Write.pong bytes ∷ [] else []) })
  on_message (AggregatedMessage.pong bytes) a s = continue s
  on_message (AggregatedMessage.close reason) a s = break reason s

  -- One turn of the loop.
  unfoldable pub turn : Event → Session → Control
  unfolding on_message
  turn (outbound (some frame) written) s =
      go_on written (record s { out = s.out ++ (if written then Write.text frame ∷ [] else []) })
  turn (outbound none written) s =
      break (some (record { code = away; description = some "Connection closed by server" })) s
  turn ended s = break none s
  turn (failed e) s = break (some (record { code = protocol; description = none })) s
  turn (inbound message now a) s = on_message message a (record s { last_seen = now })
  turn (tick now written) s =
      if ltb (millis config.client_timeout_seconds) (now - s.last_seen)
      then break (some (record { code = away; description = some "Heartbeat timeout" })) s
      else go_on written (record s { out = s.out ++ (if written then Write.ping ∷ [] else []) })
  turn (elsewhere f) s = continue (record s { hub = f s.hub })

  unfoldable pub loop : List Event → Session → Option (Option CloseReason × Session)
  loop [] s = none
  loop (e ∷ es) s = elim (turn e s) [
    | continue s' ↦ loop es s'
    | break reason s' ↦ some (reason, s')
  ]

  -- The lines after the loop.
  unfoldable pub finish : Option (Option CloseReason × Session) → Option Session
  finish none = none
  finish (some (reason, s)) = some (record s {
    hub = policy.on_disconnect ctx (unregister ctx.connection_id s.hub);
    out = s.out ++ Write.close reason ∷ [];
  })

  -- `run`, from the registered hub. `welcomed` says whether the welcome frame could be written.
  unfoldable pub run : ℕ → Bool → List Event → WsHub → Option Session
  unfolding send loop finish
  run now welcomed events h =
      let (h', decision) = policy.on_connect ctx h in
      elim decision [
        | err reason ↦ some (record {
          hub = unregister ctx.connection_id h';
          last_seen = now;
          out =
              Write.close (some (record { code = CloseCode.policy; description = some reason }))
              ∷ [];
        })
        | ok _ ↦
            let (sent, w) = send codec welcomed (
              ServerMessage.welcome ctx.connection_id ctx.user_id
                config.heartbeat_interval_seconds) in
            elim sent [
              | false ↦
                  some (record { hub = unregister ctx.connection_id h'; last_seen = now; out = [] })
              | true ↦ finish (loop events (record { hub = h'; last_seen = now; out = w }))
            ]
      ]

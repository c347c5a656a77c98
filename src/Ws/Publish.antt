-- ===== src/Ws/Publish.antt =====
-- src/infra/ws/hub.rs: publishing, local delivery, the relay to the cluster, and `stats`.
--
-- `outcome` is the answer of each connection's queue to `try_send`: the session task drains the
-- queue at any time, so each answer is possible. `room` is the answer of the bridge's queue, and
-- `encode` the JSON encoder. A published value is `none` where `serde_json::to_value` fails.
pub mod Loop
pub mod Evict
pub mod Exact
pub mod History
use rust_api_boilerplate.Prelude.{
  ℕ, ◌+◌, ◌%◌, ◌^◌, Bool, true, false, Option, none, some, List, [], ◌∷◌, ◌++◌, map, String, length,
  is_some, is_empty, not, if◌then◌else◌, Result, ok, err, ◌>>=◌, ok_or, ◌==◌, nat_eq, text_eq,
  nat_beq,
}
use rust_api_boilerplate.Map
use rust_api_boilerplate.Map.{Map}
use rust_api_boilerplate.Ws.Message.{
  Uuid, Frame, WsError, serialization, ServerMessage, event, ClusterScope, ClusterFrame,
}
use rust_api_boilerplate.Ws.Hub.{WsHub, HubStats, Connection, disconnect}

-- `Ok(())`, `TrySendError::Full` and `TrySendError::Closed`.
pub data TrySend : Type 0 where
  sent full closed : TrySend

-- The locals of `deliver`, and the connections whose queue took the frame.
pub record Push : Type 0 where
  pub delivered : ℕ
  pub slow : List Uuid
  pub sent : List Uuid

module _ (outcome : Uuid → TrySend) where
  -- The body of the first loop of `deliver`.
  unfoldable pub push_one : Map Uuid Connection → Uuid → Push → Push
  push_one conns id p = elim (Map.get id conns) [
    | none ↦ p
    | some conn ↦ elim (outcome id) [
      | sent ↦ record p { delivered = p.delivered + 1; sent = p.sent ++ id ∷ [] }
      | full ↦ record p { slow = p.slow ++ id ∷ [] }
      | closed ↦ p
    ]
  ]

  unfoldable pub push_all : Map Uuid Connection → List Uuid → Push → Push
  push_all conns [] p = p
  push_all conns (id ∷ ids) p = push_all conns ids (push_one conns id p)

-- The second loop: `fetch_add` wraps around.
unfoldable pub drop_slow : List Uuid → WsHub → WsHub
drop_slow [] h = h
drop_slow (id ∷ ids) h =
    drop_slow ids
      (disconnect id (record h { slow_clients_dropped = (h.slow_clients_dropped + 1) % 2 ^ 64 }))

-- What a call of a publishing method leaves: the hub, the result, the frames that entered a queue,
-- and the frames handed to the bridge.
pub record Published (Value : Type 0) : Type 0 where
  pub hub : WsHub
  pub result : Result WsError ℕ
  pub frames : List (Uuid × Frame)
  pub relayed : List (ClusterFrame Value)

module _ (outcome : Uuid → TrySend) where
  unfoldable pub deliver : List Uuid → WsHub → WsHub × Push
  deliver ids h =
      let p = push_all outcome h.connections ids (record { delivered = 0; slow = []; sent = [] }) in
      let h' = drop_slow p.slow h in
      (record h' { messages_sent = (h'.messages_sent + p.delivered) % 2 ^ 64 }, p)

-- The early return of `publish_local` and `publish_to_user_local`.
abbrev pub nobody : {Value : Type 0} → WsHub → Published Value
nobody h = record { hub = h; result = ok 0; frames = []; relayed = [] }

module _ {Value : Type 0} (encode : ServerMessage Value → Option Frame) where
  unfoldable pub event_frame : String → Value → Result WsError Frame
  event_frame topic payload = ok_or (encode (event topic payload)) serialization

module _ {Value : Type 0} (encode : ServerMessage Value → Option Frame)
    (outcome : Uuid → TrySend) where
  -- `event_frame(..)?` and `deliver`.
  unfoldable pub deliver_event : List Uuid → String → Value → WsHub → Published Value
  unfolding event_frame
  deliver_event ids topic payload h = elim (event_frame encode topic payload) [
    | err e ↦ record { hub = h; result = err e; frames = []; relayed = [] }
    | ok frame ↦
        let (h', p) = deliver outcome ids h in
        record {
          hub = h';
          result = ok p.delivered;
          frames = map (λ id. (id, frame)) p.sent;
          relayed = [];
        }
  ]

  unfoldable pub publish_local : String → Value → WsHub → Published Value
  publish_local topic payload h = elim (Map.get topic h.topics) [
    | none ↦ nobody h
    | some subscribers ↦ deliver_event subscribers topic payload h
  ]

  unfoldable pub publish_to_user_local : Uuid → String → Value → WsHub → Published Value
  publish_to_user_local user_id topic payload h = elim (Map.get user_id h.users) [
    | none ↦ nobody h
    | some conns ↦ deliver_event conns topic payload h
  ]

  unfoldable pub broadcast_local : String → Value → WsHub → Published Value
  broadcast_local topic payload h =
      deliver_event (map (λ entry. entry.0) h.connections) topic payload h

  unfoldable pub send_to : Uuid → String → Option Value → WsHub → WsHub × Result WsError Bool
  send_to id topic none h = (h, err serialization)
  send_to id topic (some value) h = elim (event_frame encode topic value) [
    | err e ↦ (h, err e)
    | ok frame ↦ let (h', p) = deliver outcome (id ∷ []) h in (h', ok (nat_beq p.delivered 1))
  ]

  unfoldable pub dispatch_cluster_frame : ClusterFrame Value → WsHub → Published Value
  dispatch_cluster_frame f h = elim f.scope [
    | ClusterScope.topic ↦ publish_local f.topic f.payload h
    | ClusterScope.user user_id ↦ publish_to_user_local user_id f.topic f.payload h
    | ClusterScope.all ↦ broadcast_local f.topic f.payload h
  ]

module _ {Value : Type 0} (room : Bool) where
  unfoldable pub forward_to_cluster :
      ClusterScope → String → Value → WsHub → List (ClusterFrame Value)
  forward_to_cluster scope topic payload h =
      if h.cluster_tx
      then (if room
          then record { node = h.node_id; scope = scope; topic = topic; payload = payload } ∷ []
          else [])
      else []

module _ {Value : Type 0} (encode : ServerMessage Value → Option Frame) (outcome : Uuid → TrySend)
    (room : Bool) where
  -- The common shape of the three methods: encode, relay, deliver.
  abbrev relay :
      ClusterScope
      → String
      → Option Value
      → (Value → WsHub → Published Value)
      → WsHub
      → Published Value
  relay scope topic none local h = record {
    hub = h;
    result = err serialization;
    frames = [];
    relayed = [];
  }
  relay scope topic (some value) local h = record (local value h) {
    relayed = forward_to_cluster room scope topic value h;
  }

  unfoldable pub publish : String → Option Value → WsHub → Published Value
  publish topic payload h =
      relay ClusterScope.topic topic payload (publish_local encode outcome topic) h

  unfoldable pub publish_to_user : Uuid → String → Option Value → WsHub → Published Value
  publish_to_user user_id topic payload h =
      relay (ClusterScope.user user_id) topic payload
        (publish_to_user_local encode outcome user_id topic) h

  unfoldable pub broadcast : String → Option Value → WsHub → Published Value
  broadcast topic payload h =
      relay ClusterScope.all topic payload (broadcast_local encode outcome topic) h

unfoldable pub connection_count : WsHub → ℕ
connection_count h = length h.connections

unfoldable pub subscriber_count : String → WsHub → ℕ
subscriber_count topic h = elim (Map.get topic h.topics) [ none ↦ 0 | some s ↦ length s ]

unfoldable pub is_user_online : Uuid → WsHub → Bool
is_user_online user_id h = elim (Map.get user_id h.users) [
  | none ↦ false
  | some s ↦ not (is_empty s)
]

unfoldable pub authenticated : Map Uuid Connection → ℕ
authenticated [] = 0
authenticated ((id, c) ∷ m) = (if is_some c.user_id then 1 else 0) + authenticated m

unfoldable pub subscriptions : Map Uuid Connection → ℕ
subscriptions [] = 0
subscriptions ((id, c) ∷ m) = length c.topics + subscriptions m

unfoldable pub stats : WsHub → HubStats
unfolding authenticated subscriptions
stats h = record {
  node_id = h.node_id;
  connections = length h.connections;
  authenticated_connections = authenticated h.connections;
  topics = length h.topics;
  subscriptions = subscriptions h.connections;
  messages_sent = h.messages_sent;
  slow_clients_dropped = h.slow_clients_dropped;
  cluster_enabled = h.cluster_tx;
}

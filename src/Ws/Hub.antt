-- ===== src/Ws/Hub.antt =====
-- src/infra/ws/hub.rs: the connection table with its two reverse indexes, and delivery.
--
-- One call of a method is one function here; interleavings of two calls are in Hub/Race. What the
-- hub does not decide is an argument: the fresh id and the clock of `register`, the answer of each
-- bounded queue to `try_send`, and the JSON encoder. A frame that enters a queue is in `sent`.
pub mod Index
pub mod Mirror
pub mod Sets
pub mod Relation
pub mod Limits
pub mod Race
use rust_api_boilerplate.Prelude.{
  ℕ, ◌+◌, ◌%◌, ◌^◌, ◌<◌, Bool, true, false, ◌&&◌, not, Option, none, some, List, [], ◌∷◌, ◌++◌, map,
  String, ltb, leb, max, length, is_empty, is_some, if◌then◌else◌, Result, ok, err, ◌>>=◌,
  unwrap_or, PartialEq, ◌==◌, nat_eq, text_eq,
}
use rust_api_boilerplate.Map
use rust_api_boilerplate.Map.{Map}
use rust_api_boilerplate.Set
use rust_api_boilerplate.Config.{WebSocketConfig}
use rust_api_boilerplate.Ws.Message.{
  Uuid, Frame, WsError, serialization, connection_limit, topic_limit, unknown_connection,
  ServerMessage, event, ClusterScope, ClusterFrame,
}
use rust_api_boilerplate.Ws.Message

-- `tx` is the capacity of the connection's bounded queue.
pub record Connection : Type 0 where
  pub tx : ℕ
  pub user_id : Option Uuid
  pub topics : List String
  pub connected_at : ℕ

-- `cluster_tx` says whether the bridge's queue is there.
pub record WsHub : Type 0 where
  pub node_id : Uuid
  pub connections : Map Uuid Connection
  pub topics : Map String (List Uuid)
  pub users : Map Uuid (List Uuid)
  pub cluster_tx : Bool
  pub config : WebSocketConfig
  pub messages_sent : ℕ
  pub slow_clients_dropped : ℕ

pub record HubStats : Type 0 where
  pub node_id : Uuid
  pub connections : ℕ
  pub authenticated_connections : ℕ
  pub topics : ℕ
  pub subscriptions : ℕ
  pub messages_sent : ℕ
  pub slow_clients_dropped : ℕ
  pub cluster_enabled : Bool

unfoldable pub new : WebSocketConfig → Bool → Uuid → WsHub
new config cluster_tx node_id = record {
  node_id = node_id;
  connections = [];
  topics = [];
  users = [];
  cluster_tx = cluster_tx;
  config = config;
  messages_sent = 0;
  slow_clients_dropped = 0;
}

-- `entry(k).or_default().insert(id)`
unfoldable pub attach {ℓ} :
    {K : Type ℓ} ⦃e : PartialEq K⦄ → K → Uuid → Map K (List Uuid) → Map K (List Uuid)
attach k id m = Map.insert k (Set.insert id (unwrap_or (Map.get k m) [])) m

-- `get_mut(k)` and `set.remove(id)`, then `remove_if(k, set.is_empty())`
unfoldable pub detach {ℓ} :
    {K : Type ℓ} ⦃e : PartialEq K⦄ → K → Uuid → Map K (List Uuid) → Map K (List Uuid)
detach k id m = Map.remove_if k is_empty (Map.update k (Set.erase id) m)

unfoldable pub attach_user : Option Uuid → Uuid → Map Uuid (List Uuid) → Map Uuid (List Uuid)
attach_user none id m = m
attach_user (some u) id m = attach u id m

unfoldable pub detach_user : Option Uuid → Uuid → Map Uuid (List Uuid) → Map Uuid (List Uuid)
detach_user none id m = m
detach_user (some u) id m = detach u id m

-- The entry that `register` makes: `now` is what the clock shows.
abbrev pub entry : ℕ → Option Uuid → WsHub → Connection
entry now user_id h = record {
  tx = max h.config.send_buffer 1;
  user_id = user_id;
  topics = [];
  connected_at = now;
}

-- The writes of `register`, after its check.
unfoldable pub enrol : Uuid → ℕ → Option Uuid → WsHub → WsHub
unfolding attach_user
enrol id now user_id h = record h {
  connections = Map.insert id (entry now user_id h) h.connections;
  users = attach_user user_id id h.users;
}

-- The check of `register`.
unfoldable pub is_full : WsHub → Bool
is_full h = let limit = h.config.max_connections in ltb 0 limit && leb limit (length h.connections)

-- `id` is what `Uuid::new_v4()` gives.
unfoldable pub register : Uuid → ℕ → Option Uuid → WsHub → Result WsError (WsHub × Uuid)
register id now user_id h =
    if is_full h
    then err (connection_limit h.config.max_connections)
    else ok (enrol id now user_id h, id)

unfoldable pub detach_from_topic : String → Uuid → WsHub → WsHub
detach_from_topic topic id h = record h { topics = detach topic id h.topics }

-- The loop over `conn.topics`.
unfoldable pub detach_from_topics : List String → Uuid → WsHub → WsHub
detach_from_topics [] id h = h
detach_from_topics (t ∷ ts) id h = detach_from_topics ts id (detach_from_topic t id h)

unfoldable pub unregister : Uuid → WsHub → WsHub
unregister id h = elim (Map.get id h.connections) [
  | none ↦ h
  | some conn ↦
      let h' =
        detach_from_topics conn.topics id
          (record h { connections = Map.remove id h.connections }) in
      record h' { users = detach_user conn.user_id id h'.users }
]

unfoldable pub disconnect : Uuid → WsHub → WsHub
unfolding unregister
disconnect id h = unregister id h

-- The write through `get_mut` of `subscribe`.
abbrev pub add_topic : String → Connection → Connection
add_topic t c = record c { topics = Set.insert t c.topics }

abbrev pub drop_topic : String → Connection → Connection
drop_topic t c = record c { topics = Set.erase t c.topics }

-- The check of `subscribe`.
unfoldable pub over_budget : String → Connection → WsHub → Bool
over_budget topic conn h =
    let limit = h.config.max_topics_per_connection in
    ltb 0 limit && not (Set.contains topic conn.topics) && leb limit (length conn.topics)

-- The guard block of `subscribe`: the connection's own set.
unfoldable pub reserve_topic : Uuid → String → WsHub → Result WsError WsHub
reserve_topic id topic h = elim (Map.get id h.connections) [
  | none ↦ err unknown_connection
  | some conn ↦
      if over_budget topic conn h
      then err (topic_limit h.config.max_topics_per_connection)
      else ok (record h { connections = Map.update id (add_topic topic) h.connections })
]

-- The last two lines of `subscribe`: the reverse index.
unfoldable pub index_topic : Uuid → String → WsHub → WsHub
index_topic id topic h = record h { topics = attach topic id h.topics }

unfoldable pub subscribe : Uuid → String → WsHub → Result WsError WsHub
subscribe id topic h = do h' ← reserve_topic id topic h; ok (index_topic id topic h')

unfoldable pub unsubscribe : Uuid → String → WsHub → WsHub
unsubscribe id topic h =
    detach_from_topic topic id
      (record h { connections = Map.update id (drop_topic topic) h.connections })

-- ===== src/Ws/Publish/History.antt =====
-- The hub over any history of calls, in any order.
use rust_api_boilerplate.Prelude.{
  ℕ, ◌≡◌, refl, Bool, Option, none, some, List, [], ◌∷◌, String, Option-cases, inl, inr,
  Result-cases, nat_eq, text_eq,
}
use rust_api_boilerplate.Map
use rust_api_boilerplate.Config.{WebSocketConfig}
use rust_api_boilerplate.Ws.Message.{Uuid, Frame, ServerMessage, ClusterFrame, ClusterScope}
use rust_api_boilerplate.Ws.Hub.{WsHub, new, register, unregister, subscribe, unsubscribe}
use rust_api_boilerplate.Ws.Hub.Mirror.{
  IsIndexed, after_register, after_subscribe, new-IsIndexed, register-IsIndexed,
  unregister-IsIndexed, subscribe-IsIndexed, unsubscribe-IsIndexed,
}
use rust_api_boilerplate.Ws.Hub.Limits.{
  IsBounded, new-IsBounded, register-IsBounded, unregister-IsBounded, subscribe-IsBounded,
  unsubscribe-IsBounded,
}
use rust_api_boilerplate.Ws.Publish.{
  TrySend, deliver, deliver_event, event_frame, publish_local, publish_to_user_local,
  broadcast_local, publish, publish_to_user, broadcast, send_to, dispatch_cluster_frame,
}
use rust_api_boilerplate.Ws.Publish.Evict.{deliver-IsIndexed, deliver-IsBounded}

-- One call of the hub. A registration gets an id that is not in the table, as `Uuid::new_v4()`
-- gives one; every other argument and every answer of the environment is free.
module _ {Value : Type 0} (encode : ServerMessage Value → Option Frame) where
  pub data Step : WsHub → WsHub → Type 0 where
    registers :
        (h : WsHub) (id now : ℕ) (user : Option Uuid)
        → Map.get id h.connections ≡ none
        → Step h (after_register h (register id now user h))
    unregisters : (h : WsHub) (id : Uuid) → Step h (unregister id h)
    subscribes :
        (h : WsHub) (id : Uuid) (topic : String) → Step h (after_subscribe h (subscribe id topic h))
    unsubscribes : (h : WsHub) (id : Uuid) (topic : String) → Step h (unsubscribe id topic h)
    publishes :
        (h : WsHub) (outcome : Uuid → TrySend) (room : Bool) (topic : String) (value : Option Value)
        → Step h (publish encode outcome room topic value h).hub
    publishes_to_user :
        (h : WsHub) (outcome : Uuid → TrySend) (room : Bool) (u : Uuid) (topic : String)
        (value : Option Value)
        → Step h (publish_to_user encode outcome room u topic value h).hub
    broadcasts :
        (h : WsHub) (outcome : Uuid → TrySend) (room : Bool) (topic : String) (value : Option Value)
        → Step h (broadcast encode outcome room topic value h).hub
    sends :
        (h : WsHub) (outcome : Uuid → TrySend) (id : Uuid) (topic : String) (value : Option Value)
        → Step h (send_to encode outcome id topic value h).0
    dispatches :
        (h : WsHub) (outcome : Uuid → TrySend) (f : ClusterFrame Value)
        → Step h (dispatch_cluster_frame encode outcome f h).hub

  pub data Reach (h : WsHub) : WsHub → Type 0 where
    here : Reach h h
    next : {g k : WsHub} → Reach h g → Step g k → Reach h k

  -- What each delivery keeps, every publishing method keeps.
  module _ (P : WsHub → Type 0)
      (keep : (outcome : Uuid → TrySend) (ids : List Uuid) (h : WsHub)
        → P h
        → P (deliver outcome ids h).0)
      (outcome : Uuid → TrySend) where
    event_keeps :
        (ids : List Uuid) (topic : String) (value : Value) (h : WsHub)
        → P h
        → P (deliver_event encode outcome ids topic value h).hub
    unfolding deliver_event
    event_keeps ids topic value h p = elim (Result-cases (event_frame encode topic value)) [
      | inl (f, e) ↦ rw (e, deliver_event) (keep outcome ids h p)
      | inr (x, e) ↦ rw (e, deliver_event) p
    ]

    pub topic_keeps :
        (topic : String) (value : Value) (h : WsHub)
        → P h
        → P (publish_local encode outcome topic value h).hub
    unfolding publish_local
    topic_keeps topic value h p = elim (Option-cases (Map.get topic h.topics)) [
      | inl e ↦ rw (e, publish_local) p
      | inr (s, e) ↦ rw (e, publish_local) (event_keeps s topic value h p)
    ]

    user_keeps :
        (u : Uuid) (topic : String) (value : Value) (h : WsHub)
        → P h
        → P (publish_to_user_local encode outcome u topic value h).hub
    unfolding publish_to_user_local
    user_keeps u topic value h p = elim (Option-cases (Map.get u h.users)) [
      | inl e ↦ rw (e, publish_to_user_local) p
      | inr (s, e) ↦ rw (e, publish_to_user_local) (event_keeps s topic value h p)
    ]

    all_keeps :
        (topic : String) (value : Value) (h : WsHub)
        → P h
        → P (broadcast_local encode outcome topic value h).hub
    unfolding broadcast_local
    all_keeps topic value h p = event_keeps _ topic value h p

    send_keeps :
        (id : Uuid) (topic : String) (value : Option Value) (h : WsHub)
        → P h
        → P (send_to encode outcome id topic value h).0
    unfolding send_to
    send_keeps id topic none h p = p
    send_keeps id topic (some v) h p = elim (Result-cases (event_frame encode topic v)) [
      | inl (f, e) ↦ rw (e, send_to) (keep outcome (id ∷ []) h p)
      | inr (x, e) ↦ rw (e, send_to) p
    ]

    frame_keeps :
        (scope : ClusterScope) (f : ClusterFrame Value) (h : WsHub)
        → f.scope ≡ scope
        → P h
        → P (dispatch_cluster_frame encode outcome f h).hub
    unfolding dispatch_cluster_frame
    frame_keeps ClusterScope.topic f h e p =
        rw (e, dispatch_cluster_frame) (topic_keeps f.topic f.payload h p)
    frame_keeps (ClusterScope.user u) f h e p =
        rw (e, dispatch_cluster_frame) (user_keeps u f.topic f.payload h p)
    frame_keeps ClusterScope.all f h e p =
        rw (e, dispatch_cluster_frame) (all_keeps f.topic f.payload h p)

  -- An invariant of the calls of the table and of `deliver` is one of every call.
  module _ (P : WsHub → Type 0)
      (keep : (outcome : Uuid → TrySend) (ids : List Uuid) (h : WsHub)
        → P h
        → P (deliver outcome ids h).0)
      (registered : (id now : ℕ) (user : Option Uuid) (h : WsHub)
        → Map.get id h.connections ≡ none
        → P h
        → P (after_register h (register id now user h)))
      (unregistered : (id : Uuid) (h : WsHub) → P h → P (unregister id h))
      (subscribed : (id : Uuid) (topic : String) (h : WsHub)
        → P h
        → P (after_subscribe h (subscribe id topic h)))
      (unsubscribed : (id : Uuid) (topic : String) (h : WsHub)
        → P h
        → P (unsubscribe id topic h)) where
    Step_keeps : {h g : WsHub} → Step h g → P h → P g
    unfolding publish publish_to_user broadcast
    Step_keeps (registers h id now user fresh) p = registered id now user h fresh p
    Step_keeps (unregisters h id) p = unregistered id h p
    Step_keeps (subscribes h id topic) p = subscribed id topic h p
    Step_keeps (unsubscribes h id topic) p = unsubscribed id topic h p
    Step_keeps (publishes h outcome room topic none) p = p
    Step_keeps (publishes h outcome room topic (some v)) p = topic_keeps P keep outcome topic v h p
    Step_keeps (publishes_to_user h outcome room u topic none) p = p
    Step_keeps (publishes_to_user h outcome room u topic (some v)) p =
        user_keeps P keep outcome u topic v h p
    Step_keeps (broadcasts h outcome room topic none) p = p
    Step_keeps (broadcasts h outcome room topic (some v)) p = all_keeps P keep outcome topic v h p
    Step_keeps (sends h outcome id topic v) p = send_keeps P keep outcome id topic v h p
    Step_keeps (dispatches h outcome f) p = frame_keeps P keep outcome f.scope f h refl p

    Reach_keeps : {h g : WsHub} → Reach h g → P h → P g
    Reach_keeps here p = p
    Reach_keeps (next r s) p = Step_keeps s (Reach_keeps r p)

  -- After any calls from an empty hub, in any order and with any answers of the queues: both
  -- reverse indexes mirror the connection table, no empty set is kept, and every set and the
  -- table hold an entry once; the table and each connection's topics are within their limits.
  pub Reach-invariant :
      (c : WebSocketConfig) (b : Bool) (n : Uuid) {h : WsHub}
      → Reach (new c b n) h
      → IsIndexed h × IsBounded h
  Reach-invariant c b n r = (
    Reach_keeps IsIndexed deliver-IsIndexed register-IsIndexed unregister-IsIndexed
        subscribe-IsIndexed unsubscribe-IsIndexed r (new-IsIndexed c b n),
    Reach_keeps IsBounded deliver-IsBounded (λ id now u h _. register-IsBounded id now u h)
        unregister-IsBounded subscribe-IsBounded unsubscribe-IsBounded r (new-IsBounded c b n),
  )

-- ===== src/Ws/Cluster/Once.antt =====
-- An event on its way across the bridge, from one instance to another and back.
use rust_api_boilerplate.Prelude.{
  Bool, true, Option, some, List, [], ◌∷◌, String, if◌then◌else◌, ◌==◌, nat_eq, ◌≡◌, ◌≢◌, refl,
  is_some, map, ◌&&◌, ==_refl, ==_of_ne, Bool-cases, inl, inr,
}
use mathlib.Core.List.{append-nil}
use rust_api_boilerplate.Map
use rust_api_boilerplate.Ws.Message.{Uuid, Frame, ServerMessage, event, ClusterFrame, ClusterScope}
use rust_api_boilerplate.Ws.Hub.{WsHub}
use rust_api_boilerplate.Ws.Hub.Mirror.{IsIndexed, holds, belongs}
use rust_api_boilerplate.Ws.Publish.{TrySend, dispatch_cluster_frame, publish, forward_to_cluster}
use rust_api_boilerplate.Ws.Publish.Exact.{
  Delivers, received, once, publish_local-Delivers, publish_to_user_local-Delivers,
  broadcast_local-Delivers,
}
use rust_api_boilerplate.Ws.Publish.Loop.{is_sent}
use rust_api_boilerplate.Ws.Cluster.{Attempt, publish_loop, on_raw, run_subscriber}

-- The connections of an instance that a relayed frame is aimed at.
abbrev pub aims_at : ClusterScope → String → WsHub → Uuid → Bool
aims_at ClusterScope.topic t h id = holds h id t
aims_at (ClusterScope.user u) t h id = belongs h id u
aims_at ClusterScope.all t h id = is_some (Map.get id h.connections)

module _ {Value : Type 0} (encode : ServerMessage Value → Option Frame) where
  dispatch_at :
      (scope : ClusterScope) (outcome : Uuid → TrySend) (c : ClusterFrame Value) (f : Frame)
      (h : WsHub)
      → c.scope ≡ scope
      → encode (event c.topic c.payload) ≡ some f
      → IsIndexed h
      → Delivers (aims_at scope c.topic h) outcome f h (dispatch_cluster_frame encode outcome c h)
  unfolding dispatch_cluster_frame
  dispatch_at ClusterScope.topic outcome c f h s e v =
      rw (s, dispatch_cluster_frame)
        (publish_local-Delivers encode outcome c.topic c.payload f e h v)
  dispatch_at (ClusterScope.user u) outcome c f h s e v =
      rw (s, dispatch_cluster_frame)
        (publish_to_user_local-Delivers encode outcome c.topic c.payload f e u h v)
  dispatch_at ClusterScope.all outcome c f h s e v =
      rw (s, dispatch_cluster_frame)
        (broadcast_local-Delivers encode outcome c.topic c.payload f e h v)

  -- A frame from another instance reaches exactly the connections that its scope names here.
  pub dispatch-Delivers :
      (outcome : Uuid → TrySend) (c : ClusterFrame Value) (f : Frame) (h : WsHub)
      → encode (event c.topic c.payload) ≡ some f
      → IsIndexed h
      → Delivers (aims_at c.scope c.topic h) outcome f h (dispatch_cluster_frame encode outcome c h)
  dispatch-Delivers outcome c f h = dispatch_at c.scope outcome c f h refl

-- Redis takes every frame, and a subscription yields every text that it took.
abbrev pub taken :
    {Value : Type 0} → List (ClusterFrame Value) → List (ClusterFrame Value × Attempt)
taken = map (λ c. (c, record { connected = true; accepted = true }))

abbrev pub yielded : (Uuid → TrySend) → List String → List (Option String × (Uuid → TrySend))
yielded outcome = map (λ raw. (some raw, outcome))

abbrev pub topic_frame : {Value : Type 0} → WsHub → String → Value → ClusterFrame Value
topic_frame a topic payload = record {
  node = a.node_id;
  scope = ClusterScope.topic;
  topic = topic;
  payload = payload;
}

module _ {Value : Type 0} (encode : ServerMessage Value → Option Frame)
    (to_text : ClusterFrame Value → Option String) (parse : String → Option (ClusterFrame Value))
    (outcome : Uuid → TrySend) where
  -- The texts that a publication of `a` puts on the Redis channel.
  abbrev pub on_channel : WsHub → String → Value → List String
  on_channel a topic payload =
      publish_loop to_text (taken (publish encode outcome true topic (some payload) a).relayed)

  one_text :
      (a : WsHub) (topic : String) (payload : Value) (raw : String)
      → a.cluster_tx ≡ true
      → to_text (topic_frame a topic payload) ≡ some raw
      → on_channel a topic payload ≡ raw ∷ []
  unfolding publish forward_to_cluster publish_loop
  one_text a topic payload raw on t = rw (on, forward_to_cluster) (rw (t, publish_loop))

  one_heard :
      (node : Uuid) (c : ClusterFrame Value) (raw : String) (h : WsHub)
      → parse raw ≡ some c
      → run_subscriber encode parse node (yielded outcome (raw ∷ [])) h ≡ (
          if c.node == node
          then (h, [])
          else let p = dispatch_cluster_frame encode outcome c h in (p.hub, p.frames))
  unfolding run_subscriber on_raw
  one_heard node c raw h p = elim (Bool-cases (c.node == node)) [
    | inl q ↦ rw (p, on_raw, q)
    | inr q ↦ rw (p, on_raw, q, append-nil)
  ]

  pub publish_across :
      (a b : WsHub) (topic : String) (payload : Value) (raw : String) (f : Frame)
      → a.cluster_tx ≡ true
      → a.node_id ≢ b.node_id
      → IsIndexed b
      → encode (event topic payload) ≡ some f
      → to_text (topic_frame a topic payload) ≡ some raw
      → parse raw ≡ some (topic_frame a topic payload)
      → let feed = yielded outcome (on_channel a topic payload) in
        let a' = (publish encode outcome true topic (some payload) a).hub in
        (run_subscriber encode parse a.node_id feed a' ≡ (a', []))
        × ((id : Uuid)
            → received id (run_subscriber encode parse b.node_id feed b).1
              ≡ once (holds b id topic && is_sent (outcome id)) f)
  publish_across a b topic payload raw f on ne v e t p =
      let c = topic_frame a topic payload in
      rw (one_text a topic payload raw on t) (
        rw (one_heard a.node_id c raw _ p, ==_refl a.node_id),
        λ id.
            rw (one_heard b.node_id c raw b p, ==_of_ne a.node_id b.node_id ne)
              ((dispatch-Delivers encode outcome c f b e v).exactly id),
      )

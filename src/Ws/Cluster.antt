-- ===== src/Ws/Cluster.antt =====
-- src/infra/ws/cluster.rs: the Redis bridge between instances.
--
-- Redis and the connection pool are not modelled: each attempt to relay a frame, and each raw
-- message that a subscription yields, is an argument with the answers that the code tests.
pub mod Once
use rust_api_boilerplate.Prelude.{
  ℕ, Bool, true, false, Option, none, some, List, [], ◌∷◌, ◌++◌, String, Result, ok, err,
  if◌then◌else◌, ◌==◌, nat_eq,
}
use rust_api_boilerplate.Ws.Message.{Uuid, Frame, ServerMessage, ClusterFrame}
use rust_api_boilerplate.Ws.Hub.{WsHub}
use rust_api_boilerplate.Ws.Publish.{TrySend, Published, dispatch_cluster_frame}

-- The answers of one round of `publish_loop`: `pool.get()` and the `PUBLISH` command.
pub record Attempt : Type 0 where
  pub connected : Bool
  pub accepted : Bool

module _ {Value : Type 0} (to_text : ClusterFrame Value → Option String) where
  -- `publish_loop`: the texts that reach the Redis channel. A frame that fails is dropped.
  unfoldable pub publish_loop : List (ClusterFrame Value × Attempt) → List String
  publish_loop [] = []
  publish_loop ((frame, a) ∷ rest) =
      let later = publish_loop rest in
      elim (to_text frame) [
        | none ↦ later
        | some payload ↦
            if a.connected then (if a.accepted then payload ∷ later else later) else later
      ]

-- What one subscription leaves: the hub, and the frames that entered a queue.
abbrev pub Heard : Type 0
Heard = WsHub × List (Uuid × Frame)

module _ {Value : Type 0} (encode : ServerMessage Value → Option Frame)
    (parse : String → Option (ClusterFrame Value)) where
  -- The body of the loop of `run_subscriber`: `raw` is `none` where the payload is unreadable.
  unfoldable pub on_raw : Uuid → Option String → (Uuid → TrySend) → WsHub → Heard
  on_raw node_id none outcome h = (h, [])
  on_raw node_id (some raw) outcome h = elim (parse raw) [
    | none ↦ (h, [])
    | some frame ↦
        if frame.node == node_id
        then (h, [])
        else let p = dispatch_cluster_frame encode outcome frame h in (p.hub, p.frames)
  ]

  unfoldable pub run_subscriber : Uuid → List (Option String × (Uuid → TrySend)) → WsHub → Heard
  unfolding on_raw
  run_subscriber node_id [] h = (h, [])
  run_subscriber node_id ((raw, outcome) ∷ rest) h =
      let (h', frames) = on_raw node_id raw outcome h in
      let (h'', later) = run_subscriber node_id rest h' in (h'', frames ++ later)

  -- `subscribe_loop`, for the attempts given: one that fails to connect yields no message.
  unfoldable pub subscribe_loop :
      Uuid → List (List (Option String × (Uuid → TrySend))) → WsHub → Heard
  unfolding run_subscriber
  subscribe_loop node_id [] h = (h, [])
  subscribe_loop node_id (attempt ∷ rest) h =
      let (h', frames) = run_subscriber node_id attempt h in
      let (h'', later) = subscribe_loop node_id rest h' in (h'', frames ++ later)

-- ===== src/Ws/Session/Commands.antt =====
-- What a client's text frames can do, and what they cannot.
use rust_api_boilerplate.Prelude.{
  Bool, true, Option, some, List, [], String, Result, ok, err, ◌≡◌, refl, ◌||◌, ◌&&◌, is_ok, arith,
  Result-cases, inl, inr, nat_eq, text_eq, nat_beq_iff, ◌==◌, ◌⊎◌, ap,
}
use rust_api_boilerplate.Set
use rust_api_boilerplate.Ws.Message.{
  Uuid, WsError, topic_limit, ServerMessage, ClientMessage, forbidden,
}
use rust_api_boilerplate.Ws.Hub.{WsHub, subscribe}
use rust_api_boilerplate.Ws.Hub.Mirror.{holds, after_subscribe}
use rust_api_boilerplate.Ws.Hub.Relation.{holds-subscribe, holds-unsubscribe}
use rust_api_boilerplate.Ws.Publish.{TrySend, publish, deliver}
use rust_api_boilerplate.Ws.Publish.Evict.{get-deliver}
use rust_api_boilerplate.Ws.Publish.History.{topic_keeps}
use rust_api_boilerplate.Ws.Policy.{WsContext, WsPolicy, app_ws_policy, authorize_subscribe}
use rust_api_boilerplate.Ws.Session.{Codec, Answers, subscribe_reply, handle_message, handle_text}

-- A delivery gives no connection a topic.
deliver-holds :
    (outcome : Uuid → TrySend) (ids : List Uuid) (j : Uuid) (t : String) (h : WsHub)
    → holds (deliver outcome ids h).0 j t ≡ true
    → holds h j t ≡ true
unfolding Set.contains
deliver-holds outcome ids j t h q = ground (arith, get-deliver outcome ids j h)

module _ {Value : Type 0} (codec : Codec Value) (policy : WsPolicy Value) (ctx : WsContext)
    (a : Answers) where
  subscribe_hub :
      (topic : String) (h : WsHub) (r : Result WsError WsHub)
      → (subscribe_reply codec topic h r).hub ≡ after_subscribe h r
  unfolding subscribe_reply
  subscribe_hub topic h (ok h') = refl
  subscribe_hub topic h (err (topic_limit n)) = refl
  subscribe_hub topic h (err _) = refl

  -- A pair that is in the relation after a message was there before, or is the caller's own and
  -- the policy allows it.
  abbrev Grants : WsHub → WsHub → Uuid → String → Type 0
  Grants h g j t =
      holds g j t ≡ true
      → (holds h j t ≡ true)
        ⊎ ((j ≡ ctx.connection_id) × (is_ok (policy.authorize_subscribe ctx t) ≡ true))

  own_pair :
      (topic : String) (h : WsHub) (j : Uuid) (t : String) (b : Bool) {u : Unit {0}}
      → policy.authorize_subscribe ctx topic ≡ ok u
      → (b && (ctx.connection_id == j && topic == t) || holds h j t) ≡ true
      → (holds h j t ≡ true)
        ⊎ ((j ≡ ctx.connection_id) × (is_ok (policy.authorize_subscribe ctx t) ≡ true))
  own_pair topic h j t b e q = ground (
    arith,
    nat_beq_iff ctx.connection_id j,
    text_eq.beq_iff topic t,
    ap (policy.authorize_subscribe ctx) {x = topic} {y = t},
    e,
  )

  message_allowed :
      (m : ClientMessage Value) (h : WsHub) (j : Uuid) (t : String)
      → Grants h (handle_message codec policy ctx a m h).hub j t
  unfolding handle_message publish
  message_allowed (ClientMessage.subscribe topic) h j t =
      elim (Result-cases (policy.authorize_subscribe ctx topic)) [
        | inr (reason, e) ↦ rw (e, handle_message) inl
        | inl (u, e) ↦
            rw (e, handle_message, subscribe_hub, holds-subscribe)
              (own_pair topic h j t (is_ok (subscribe ctx.connection_id topic h)) e)
      ]
  message_allowed (ClientMessage.unsubscribe topic) h j t =
      rw holds-unsubscribe (λ q. inl (ground arith))
  message_allowed (ClientMessage.publish topic payload) h j t =
      elim (Result-cases (policy.authorize_publish ctx topic payload)) [
        | inr (reason, e) ↦ rw (e, handle_message) inl
        | inl (u, e) ↦
            rw (e, handle_message)
              (λ q. inl (
                topic_keeps codec.encode (λ g. holds g j t ≡ true → holds h j t ≡ true)
                  (λ o ids g p r. p (deliver-holds o ids j t g r)) a.outcome topic payload h
                  (λ x. x) q))
      ]
  message_allowed ClientMessage.ping h j t = inl

  -- Whatever text a client sends, a connection holds a topic afterwards only if it held it before,
  -- or if it is the client's own connection and the policy allows the client to subscribe to it.
  pub handle_text-allowed :
      (raw : String) (h : WsHub) (j : Uuid) (t : String)
      → holds (handle_text codec policy ctx a raw h).hub j t ≡ true
      → (holds h j t ≡ true)
        ⊎ ((j ≡ ctx.connection_id) × (is_ok (policy.authorize_subscribe ctx t) ≡ true))
  unfolding handle_text
  handle_text-allowed raw h j t = elim (Result-cases (codec.parse raw)) [
    | inr (x, e) ↦ rw (e, handle_text) inl
    | inl (m, e) ↦ rw (e, handle_text) (message_allowed m h j t)
  ]

  -- A refused subscription changes nothing and is answered by a FORBIDDEN frame with the reason.
  pub handle_text_forbidden :
      (raw topic reason : String) (h : WsHub)
      → codec.parse raw ≡ ok (ClientMessage.subscribe topic)
      → policy.authorize_subscribe ctx topic ≡ err reason
      → handle_text codec policy ctx a raw h
        ≡ record { hub = h; response = some (ServerMessage.error forbidden reason); frames = [] }
  unfolding handle_text handle_message
  handle_text_forbidden raw topic reason h e q = rw (e, handle_text, q, handle_message)

-- Under the application's policy no text of a client puts a frame into anybody's queue.
module _ {Value : Type 0} (codec : Codec Value) (parse_str : String → Option Uuid)
    (to_string : Uuid → String) (ctx : WsContext) (a : Answers) where
  subscribe_frames :
      (topic : String) (h : WsHub) (r : Result WsError WsHub)
      → (subscribe_reply codec topic h r).frames ≡ []
  unfolding subscribe_reply
  subscribe_frames topic h (ok h') = refl
  subscribe_frames topic h (err (topic_limit n)) = refl
  subscribe_frames topic h (err _) = refl

  message_frames :
      (m : ClientMessage Value) (h : WsHub)
      → (handle_message codec (app_ws_policy parse_str to_string) ctx a m h).frames ≡ []
  unfolding handle_message
  message_frames (ClientMessage.subscribe topic) h =
      elim (Result-cases (authorize_subscribe parse_str ctx topic)) [
        | inr (reason, e) ↦ rw (e, handle_message)
        | inl (u, e) ↦ rw (e, handle_message) (subscribe_frames topic h _)
      ]
  message_frames (ClientMessage.unsubscribe topic) h = refl
  message_frames (ClientMessage.publish topic payload) h = refl
  message_frames ClientMessage.ping h = refl

  -- A client cannot publish: no text of its puts a frame into anybody's queue.
  pub handle_text_silent :
      (raw : String) (h : WsHub)
      → (handle_text codec (app_ws_policy parse_str to_string) ctx a raw h).frames ≡ []
  unfolding handle_text
  handle_text_silent raw h = elim (Result-cases (codec.parse raw)) [
    | inr (x, e) ↦ rw (e, handle_text)
    | inl (m, e) ↦ rw (e, handle_text) (message_frames m h)
  ]

-- ===== src/Ws/Examples.antt =====
-- Small hubs, policies and sessions, and the theorems of src/infra/ws and src/app/ws at them.
use rust_api_boilerplate.Prelude.{ℕ, true, Option, none, some, [], ◌∷◌, ◌≡◌, refl, nat_eq, text_eq}
use rust_api_boilerplate.Map
use rust_api_boilerplate.Set
use rust_api_boilerplate.Config.{default_websocket}
use rust_api_boilerplate.Ws.Message.{Uuid, Frame, ServerMessage}
use rust_api_boilerplate.Ws.Hub.{
  WsHub, new, register, enrol, is_full, over_budget, reserve_topic, index_topic, subscribe,
  unregister, attach, attach_user,
}
use rust_api_boilerplate.Ws.Hub.Mirror.{
  IsIndexed, holds, after_register, after_subscribe, new-IsIndexed, register-IsIndexed,
  subscribe-IsIndexed,
}
use rust_api_boilerplate.Ws.Hub.Race.{IsStale, subscribe_while_evicted, ghost_subscription}
use rust_api_boilerplate.Ws.Publish.{
  TrySend, sent, publish_local, deliver_event, deliver, push_all, push_one, drop_slow,
}
use rust_api_boilerplate.Ws.Publish.Exact.{Delivers, publish_local-Delivers}
use rust_api_boilerplate.Ws.Publish.History.{
  Reach, here, next, registers, subscribes, Reach-invariant,
}
use rust_api_boilerplate.Ws.Hub.Limits.{IsBounded}

-- Payloads are numbers, and an event is encoded as its topic.
abbrev pub encode : ServerMessage ℕ → Option Frame
encode (ServerMessage.event topic payload) = some topic
encode _ = some "frame"

abbrev pub all_room : Uuid → TrySend
all_room id = sent

abbrev pub empty_hub : WsHub
empty_hub = new default_websocket true 100

-- Connection 1 of user 7, subscribed to "prices".
abbrev pub one_hub : WsHub
one_hub = after_register empty_hub (register 1 0 (some 7) empty_hub)

abbrev pub subscribed_hub : WsHub
subscribed_hub = after_subscribe one_hub (subscribe 1 "prices" one_hub)

pub one_hub-IsIndexed : IsIndexed one_hub
unfolding new Map.get
one_hub-IsIndexed =
    register-IsIndexed 1 0 (some 7) empty_hub refl (new-IsIndexed default_websocket true 100)

pub subscribed_hub-IsIndexed : IsIndexed subscribed_hub
subscribed_hub-IsIndexed = subscribe-IsIndexed 1 "prices" one_hub one_hub-IsIndexed

one_registered : Reach encode empty_hub one_hub
unfolding new Map.get
one_registered = next here (registers empty_hub 1 0 (some 7) refl)

Reach-invariant_example : IsIndexed subscribed_hub × IsBounded subscribed_hub
Reach-invariant_example =
    Reach-invariant encode default_websocket true 100
      (next one_registered (subscribes one_hub 1 "prices"))

publish_local-Delivers_example :
    Delivers
      (λ id. holds subscribed_hub id "prices")
      all_room
      "prices"
      subscribed_hub
      (publish_local encode all_room "prices" 42 subscribed_hub)
publish_local-Delivers_example =
    publish_local-Delivers encode all_room "prices" 42 "prices" refl subscribed_hub
      subscribed_hub-IsIndexed

-- The test `publishes_only_to_subscribers_of_the_topic`, in this model.
abbrev pub two_hub : WsHub
two_hub = after_register subscribed_hub (register 2 0 none subscribed_hub)

subscriber_alone : (publish_local encode all_room "prices" 42 two_hub).frames ≡ (1, "prices") ∷ []
unfolding new register enrol is_full attach_user attach subscribe reserve_topic over_budget
    index_topic publish_local Map.get Map.insert Map.update Set.insert Set.contains deliver_event
    deliver push_all push_one drop_slow
subscriber_alone = refl

abbrev evicted_hub : WsHub
evicted_hub = after_subscribe one_hub (subscribe_while_evicted 1 "prices" one_hub)

ghost_subscription_example :
    IsStale 1 "prices" evicted_hub
    × (unregister 1 evicted_hub ≡ evicted_hub)
    × (¬ IsIndexed evicted_hub)
unfolding new register enrol is_full attach_user attach subscribe_while_evicted reserve_topic
    over_budget Map.get Map.insert Set.contains
ghost_subscription_example = ghost_subscription 1 "prices" one_hub evicted_hub refl

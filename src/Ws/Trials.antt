-- ===== src/Ws/Trials.antt =====
-- Sessions, policies and a cluster of two instances, and their theorems at them.
use rust_api_boilerplate.Prelude.{
  ℕ, true, Option, none, some, List, [], ◌∷◌, String, ok, err, ◌≡◌, refl, nat_eq, text_eq, arith,
  if◌then◌else◌, is_some, is_ok, ◌&&◌, ◌⊎◌, ◌==◌,
}
use rust_api_boilerplate.Map
use rust_api_boilerplate.Set
use rust_api_boilerplate.Text.{strip_prefix, starts_with, is_empty}
use rust_api_boilerplate.Config.{default_websocket}
use rust_api_boilerplate.Ws.Message.{Uuid, ClientMessage, ClusterFrame, ClusterScope}
use rust_api_boilerplate.Ws.Hub.{
  WsHub, new, register, enrol, is_full, over_budget, reserve_topic, index_topic, subscribe, attach,
  attach_user,
}
use rust_api_boilerplate.Ws.Hub.Mirror.{
  IsIndexed, holds, after_register, after_subscribe, new-IsIndexed, register-IsIndexed,
  subscribe-IsIndexed,
}
use rust_api_boilerplate.Ws.Publish.{publish, TrySend}
use rust_api_boilerplate.Ws.Publish.Exact.{received, once}
use rust_api_boilerplate.Ws.Publish.Loop.{is_sent}
use rust_api_boilerplate.Ws.Policy.{WsContext, WsPolicy, app_ws_policy, authorize_subscribe}
use rust_api_boilerplate.Ws.Session.{
  Codec, Answers, Event, tick, ended, Session, loop, run, handle_text, handle_message,
  subscribe_reply,
}
use rust_api_boilerplate.Ws.Session.Teardown.{IsGone, run-IsGone, loop_reaps}
use rust_api_boilerplate.Ws.Session.Commands.{handle_text-allowed}
use rust_api_boilerplate.Ws.Cluster.{run_subscriber}
use rust_api_boilerplate.Ws.Cluster.Once.{publish_across, yielded, on_channel}
use rust_api_boilerplate.Ws.Examples.{encode, all_room, one_hub}

-- A text is read as a subscription to the topic that it names.
abbrev codec : Codec ℕ
codec = record {
  parse = λ raw. if raw == "bad" then err "bad" else ok (ClientMessage.subscribe raw);
  encode = encode;
  error_text = λ e. "error";
}

-- Every raw id is that of user 7.
abbrev seven : String → Option Uuid
seven raw = some 7

abbrev show_seven : Uuid → String
show_seven id = "7"

abbrev policy : WsPolicy ℕ
policy = app_ws_policy seven show_seven

abbrev context : WsContext
context = record { connection_id = 1; user_id = some 7; email = none }

abbrev answers : Answers
answers = record { written = true; outcome = all_room; room = true }

run-IsGone_example :
    (is_some (run codec policy default_websocket context 0 true (ended ∷ []) one_hub) ≡ true)
    × IsGone codec policy default_websocket context
        (run codec policy default_websocket context 0 true (ended ∷ []) one_hub)
run-IsGone_example =
    run-IsGone codec policy default_websocket context (λ h. refl) 0 true (ended ∷ []) one_hub refl

abbrev session : Session
session = record { hub = one_hub; last_seen = 0; out = [] }

-- The default timeout is 60 seconds.
abbrev quiet_ticks : List Event
quiet_ticks = tick 20000 true ∷ tick 40000 true ∷ tick 60001 true ∷ []

loop_reaps_example :
    is_some (loop codec policy default_websocket context quiet_ticks session) ≡ true
loop_reaps_example =
    loop_reaps codec policy default_websocket context quiet_ticks session (refl, (refl, (refl, tt)))
      refl

abbrev PricesHeld : Type 0
PricesHeld = holds (handle_text codec policy context answers "prices" one_hub).hub 1 "prices" ≡ true

prices_subscribed : PricesHeld
unfolding handle_text handle_message subscribe_reply authorize_subscribe strip_prefix starts_with
    is_empty new register enrol is_full attach_user attach subscribe reserve_topic over_budget
    index_topic Map.get Map.insert Map.update Set.contains Set.insert
prices_subscribed = refl

handle_text-allowed_example :
    (holds one_hub 1 "prices" ≡ true)
    ⊎ ((◌≡◌ {A = ℕ} 1 1) × (is_ok (authorize_subscribe seven context "prices") ≡ true))
handle_text-allowed_example =
    handle_text-allowed codec policy context answers "prices" one_hub 1 "prices" prices_subscribed

-- Two instances: 100 publishes, and connection 1 of instance 200 holds the topic.
abbrev node_a : WsHub
node_a = new default_websocket true 100

abbrev fresh_b : WsHub
fresh_b = new default_websocket true 200

abbrev joined_b : WsHub
joined_b = after_register fresh_b (register 1 0 (some 7) fresh_b)

abbrev node_b : WsHub
node_b = after_subscribe joined_b (subscribe 1 "prices" joined_b)

node_b-IsIndexed : IsIndexed node_b
unfolding new Map.get
node_b-IsIndexed =
    subscribe-IsIndexed 1 "prices" joined_b
      (register-IsIndexed 1 0 (some 7) fresh_b refl (new-IsIndexed default_websocket true 200))

abbrev to_text : ClusterFrame ℕ → Option String
to_text c = some c.topic

abbrev from_text : String → Option (ClusterFrame ℕ)
from_text raw = some (record { node = 100; scope = ClusterScope.topic; topic = raw; payload = 42 })

abbrev feed : List (Option String × (Uuid → TrySend))
feed = yielded all_room (on_channel encode to_text from_text all_room node_a "prices" 42)

publish_across_example :
    (run_subscriber encode from_text 100 feed
        (publish encode all_room true "prices" (some 42) node_a).hub
      ≡ ((publish encode all_room true "prices" (some 42) node_a).hub, []))
    × ((id : Uuid)
        → received id (run_subscriber encode from_text node_b.node_id feed node_b).1
          ≡ once (holds node_b id "prices" && is_sent (all_room id)) "prices")
unfolding new register enrol is_full subscribe reserve_topic over_budget index_topic Map.get
    Map.insert Set.contains
publish_across_example =
    publish_across encode to_text from_text all_room node_a node_b "prices" 42 "prices" "prices"
      refl (omega arith) node_b-IsIndexed refl refl refl

-- ===== src/Ws/Hub/Mirror.antt =====
-- The invariant of src/infra/ws/hub.rs that its comments state: the reverse indexes mirror the
-- connection table. Each method keeps it.
use rust_api_boilerplate.Prelude.{
  ℕ, ◌≡◌, refl, Bool, false, ◌&&◌, ◌||◌, not, Option, none, some, List, [], String, arith, ◌==◌,
  nat_eq, text_eq, Bool-cases, Option-cases, inl, inr, Result, ok, err, nat_beq_iff,
}
use rust_api_boilerplate.Map
use rust_api_boilerplate.Map.{
  Map, get-insert, get-update, get-remove, insert-IsDistinct, remove-IsDistinct, update-IsDistinct,
}
use rust_api_boilerplate.Set
use rust_api_boilerplate.Set.{contains-insert, contains-erase}
use rust_api_boilerplate.Ws.Hub.Sets.{
  AreDistinct, attach-AreDistinct, detach-AreDistinct, attach_user-AreDistinct,
  detach_user-AreDistinct, detach_from_topics-AreDistinct,
}
use rust_api_boilerplate.Config.{WebSocketConfig}
use rust_api_boilerplate.Ws.Message.{Uuid, WsError}
use rust_api_boilerplate.Ws.Hub.{
  WsHub, Connection, entry, new, enrol, is_full, over_budget, register, unregister, reserve_topic,
  index_topic, subscribe, unsubscribe, attach_user, detach_user, detach_from_topic,
  detach_from_topics, add_topic, drop_topic,
}
use rust_api_boilerplate.Ws.Hub.Index.{
  relates, IsUsed, relates-attach, relates-detach, attach-IsUsed, detach-IsUsed,
  relates-detach_from_topics, detach_from_topics-IsUsed, detach_from_topics_frame,
}

-- A connection that is not in the table holds no topic and has no user.
abbrev pub topics_of : Option Connection → List String
topics_of none = []
topics_of (some c) = c.topics

abbrev pub user_of : Option Connection → Option Uuid
user_of none = none
user_of (some c) = c.user_id

abbrev pub is_user : Uuid → Option Uuid → Bool
is_user u none = false
is_user u (some v) = v == u

-- Whether the connection itself holds the topic.
abbrev pub holds : WsHub → Uuid → String → Bool
holds h id t = Set.contains t (topics_of (Map.get id h.connections))

-- Whether the connection belongs to the user.
abbrev pub belongs : WsHub → Uuid → Uuid → Bool
belongs h id u = is_user u (user_of (Map.get id h.connections))

pub record IsIndexed (h : WsHub) : Type 0 where
  pub topic_mirror : (t : String) (id : Uuid) → relates h.topics t id ≡ holds h id t
  pub user_mirror : (u id : Uuid) → relates h.users u id ≡ belongs h id u
  pub topics_used : IsUsed h.topics
  pub users_used : IsUsed h.users
  pub topics_once : AreDistinct h.topics
  pub users_once : AreDistinct h.users
  pub entries_once : Map.IsDistinct h.connections

pub new-IsIndexed : (c : WebSocketConfig) (b : Bool) (n : Uuid) → IsIndexed (new c b n)
unfolding new Map.get Set.contains
new-IsIndexed c b n = record {
  topic_mirror = λ t id. refl;
  user_mirror = λ u id. refl;
  topics_used = λ k q. cc;
  users_used = λ k q. cc;
  topics_once = λ k s q. cc;
  users_once = λ k s q. cc;
  entries_once = tt;
}

relates-attach_user :
    (o : Option Uuid) (u : Uuid) (id i : Uuid) (m : Map Uuid (List Uuid))
    → relates (attach_user o id m) u i ≡ ((is_user u o && id == i) || relates m u i)
unfolding attach_user
relates-attach_user none u id i m = refl
relates-attach_user (some v) u id i m = relates-attach v u id i m

relates-detach_user :
    (o : Option Uuid) (u : Uuid) (id i : Uuid) (m : Map Uuid (List Uuid))
    → relates (detach_user o id m) u i ≡ (not (is_user u o && id == i) && relates m u i)
unfolding detach_user
relates-detach_user none u id i m = refl
relates-detach_user (some v) u id i m = relates-detach v u id i m

attach_user-IsUsed :
    (o : Option Uuid) (id : Uuid) (m : Map Uuid (List Uuid))
    → IsUsed m
    → IsUsed (attach_user o id m)
unfolding attach_user
attach_user-IsUsed none id m u = u
attach_user-IsUsed (some v) id m u = attach-IsUsed v id m u

detach_user-IsUsed :
    (o : Option Uuid) (id : Uuid) (m : Map Uuid (List Uuid))
    → IsUsed m
    → IsUsed (detach_user o id m)
unfolding detach_user
detach_user-IsUsed none id m u = u
detach_user-IsUsed (some v) id m u = detach-IsUsed v id m u

enrol-IsIndexed :
    (id now : ℕ) (user : Option Uuid) (h : WsHub)
    → Map.get id h.connections ≡ none
    → IsIndexed h
    → IsIndexed (enrol id now user h)
unfolding enrol Set.contains
enrol-IsIndexed id now user h fresh v = record {
  topic_mirror = λ t i. rw get-insert (ground (arith, v.topic_mirror t i, nat_beq_iff id i));
  user_mirror = λ u i.
      rw (get-insert, relates-attach_user) (ground (arith, v.user_mirror u i, nat_beq_iff id i));
  topics_used = v.topics_used;
  users_used = attach_user-IsUsed user id h.users v.users_used;
  topics_once = v.topics_once;
  users_once = attach_user-AreDistinct user id h.users v.users_once;
  entries_once = insert-IsDistinct id (entry now user h) h.connections v.entries_once;
}

-- A call that fails leaves the hub as it was.
abbrev pub after_register : WsHub → Result WsError (WsHub × Uuid) → WsHub
after_register h (ok (h', i)) = h'
after_register h (err e) = h

abbrev pub after_subscribe : WsHub → Result WsError WsHub → WsHub
after_subscribe h (ok h') = h'
after_subscribe h (err e) = h

pub register-IsIndexed :
    (id now : ℕ) (user : Option Uuid) (h : WsHub)
    → Map.get id h.connections ≡ none
    → IsIndexed h
    → IsIndexed (after_register h (register id now user h))
unfolding register
register-IsIndexed id now user h fresh v = elim (Bool-cases (is_full h)) [
  | inl e ↦ rw e v
  | inr e ↦ rw e (enrol-IsIndexed id now user h fresh v)
]

-- The state that `unregister` leaves where the connection is in the table.
leave-IsIndexed :
    (id : Uuid) (c : Connection) (h : WsHub)
    → Map.get id h.connections ≡ some c
    → IsIndexed h
    → let h' =
        detach_from_topics c.topics id (record h { connections = Map.remove id h.connections }) in
      IsIndexed (record h' { users = detach_user c.user_id id h'.users })
unfolding Set.contains
leave-IsIndexed id c h e v =
    let g = record h { connections = Map.remove id h.connections } in
    rw (detach_from_topics_frame c.topics id g) (record {
      topic_mirror = λ t i.
          rw (relates-detach_from_topics, get-remove)
            (ground (arith, v.topic_mirror t i, nat_beq_iff id i, e));
      user_mirror = λ u i.
          rw (relates-detach_user, get-remove)
            (ground (arith, v.user_mirror u i, nat_beq_iff id i, e));
      topics_used = detach_from_topics-IsUsed c.topics id g v.topics_used;
      users_used = detach_user-IsUsed c.user_id id h.users v.users_used;
      topics_once = detach_from_topics-AreDistinct c.topics id g v.topics_once;
      users_once = detach_user-AreDistinct c.user_id id h.users v.users_once;
      entries_once = remove-IsDistinct id h.connections v.entries_once;
    })

pub unregister-IsIndexed : (id : Uuid) (h : WsHub) → IsIndexed h → IsIndexed (unregister id h)
unfolding unregister
unregister-IsIndexed id h v = elim (Option-cases (Map.get id h.connections)) [
  | inl e ↦ rw (e, unregister) v
  | inr (c, e) ↦ rw (e, unregister) (leave-IsIndexed id c h e v)
]

pub contains-drop_topic :
    (x t : String) (o : Option Connection)
    → Set.contains t (topics_of (Map.map_value (drop_topic x) o))
      ≡ (not (x == t) && Set.contains t (topics_of o))
contains-drop_topic x t none = unfold Set.contains in ground arith
contains-drop_topic x t (some c) = contains-erase x t c.topics

user_of-map_value :
    (f : Connection → Connection) (o : Option Connection)
    → ((c : Connection) → (f c).user_id ≡ c.user_id)
    → user_of (Map.map_value f o) ≡ user_of o
user_of-map_value f none same = refl
user_of-map_value f (some c) same = same c

subscribed-IsIndexed :
    (id : Uuid) (topic : String) (c : Connection) (h : WsHub)
    → Map.get id h.connections ≡ some c
    → IsIndexed h
    → IsIndexed (
        index_topic id topic
          (record h { connections = Map.update id (add_topic topic) h.connections }))
unfolding index_topic
subscribed-IsIndexed id topic c h e v = record {
  topic_mirror = λ t i.
      rw (relates-attach, get-update)
        (ground (arith, v.topic_mirror t i, contains-insert topic t c.topics, nat_beq_iff id i, e));
  user_mirror = λ u i. rw get-update (
      ground (
        arith,
        v.user_mirror u i,
        user_of-map_value (add_topic topic) (Map.get i h.connections) (λ c. refl),
      ));
  topics_used = attach-IsUsed topic id h.topics v.topics_used;
  users_used = v.users_used;
  topics_once = attach-AreDistinct topic id h.topics v.topics_once;
  users_once = v.users_once;
  entries_once = update-IsDistinct id (add_topic topic) h.connections v.entries_once;
}

pub unsubscribe-IsIndexed :
    (id : Uuid) (topic : String) (h : WsHub) → IsIndexed h → IsIndexed (unsubscribe id topic h)
unfolding unsubscribe detach_from_topic
unsubscribe-IsIndexed id topic h v = record {
  topic_mirror = λ t i.
      rw (relates-detach, get-update)
        (ground (arith, v.topic_mirror t i, contains-drop_topic topic t (Map.get i h.connections)));
  user_mirror = λ u i. rw get-update (
      ground (
        arith,
        v.user_mirror u i,
        user_of-map_value (drop_topic topic) (Map.get i h.connections) (λ c. refl),
      ));
  topics_used = detach-IsUsed topic id h.topics v.topics_used;
  users_used = v.users_used;
  topics_once = detach-AreDistinct topic id h.topics v.topics_once;
  users_once = v.users_once;
  entries_once = update-IsDistinct id (drop_topic topic) h.connections v.entries_once;
}

pub subscribe-IsIndexed :
    (id : Uuid) (topic : String) (h : WsHub)
    → IsIndexed h
    → IsIndexed (after_subscribe h (subscribe id topic h))
unfolding subscribe reserve_topic
subscribe-IsIndexed id topic h v = elim (Option-cases (Map.get id h.connections)) [
  | inl e ↦ rw (e, subscribe, reserve_topic) v
  | inr (c, e) ↦
      rw (e, subscribe, reserve_topic)
        (elim (Bool-cases (over_budget topic c h)) [
          | inl o ↦ rw o v
          | inr o ↦ rw o (subscribed-IsIndexed id topic c h e v)
        ])
]

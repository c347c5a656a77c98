-- ===== src/Ws/Hub/Relation.antt =====
-- The hub as a relation between connections and topics: what each call does to it.
use rust_api_boilerplate.Prelude.{
  ℕ, ◌≡◌, false, ◌&&◌, ◌||◌, not, Option, none, some, String, arith, ◌==◌, nat_eq, text_eq,
  nat_beq_iff, is_some, if◌then◌else◌, length, Bool-cases, Option-cases, inl, inr, ltb, leb, ok,
  is_ok, eq_of_==,
}
use rust_api_boilerplate.Map
use rust_api_boilerplate.Map.{get-insert, get-update, get-remove}
use rust_api_boilerplate.Set
use rust_api_boilerplate.Set.{contains-insert}
use rust_api_boilerplate.Ws.Message.{Uuid}
use rust_api_boilerplate.Ws.Hub.{
  WsHub, entry, enrol, over_budget, register, unregister, reserve_topic, index_topic, subscribe,
  unsubscribe, detach_from_topic,
}
use rust_api_boilerplate.Ws.Hub.Index.{detach_from_topics_frame}
use rust_api_boilerplate.Ws.Hub.Mirror.{
  IsIndexed, holds, topics_of, after_subscribe, contains-drop_topic, unregister-IsIndexed,
}
use rust_api_boilerplate.Ws.Hub.Index.{relates}

-- A subscription that is accepted adds its pair to the relation, and one that is refused adds none.
pub holds-subscribe :
    (id j : Uuid) (topic t : String) (h : WsHub)
    → holds (after_subscribe h (subscribe id topic h)) j t
      ≡ (is_ok (subscribe id topic h) && (id == j && topic == t) || holds h j t)
unfolding subscribe reserve_topic index_topic Set.contains
holds-subscribe id j topic t h = elim (Option-cases (Map.get id h.connections)) [
  | inl e ↦ rw (e, subscribe, reserve_topic)
  | inr (c, e) ↦
      rw (e, subscribe, reserve_topic)
        (elim (Bool-cases (over_budget topic c h)) [
          | inl o ↦ rw o
          | inr o ↦
              rw (o, get-update)
                (ground (arith, e, contains-insert topic t c.topics, nat_beq_iff id j))
        ])
]

-- It is refused exactly if the connection is gone or its budget is used up by other topics.
pub is_ok-subscribe :
    (id : Uuid) (topic : String) (h : WsHub)
    → is_ok (subscribe id topic h) ≡ (
        is_some (Map.get id h.connections)
        && not (
            ltb 0 h.config.max_topics_per_connection
            && not (holds h id topic)
            && leb h.config.max_topics_per_connection
                (length (topics_of (Map.get id h.connections)))))
unfolding subscribe reserve_topic over_budget
is_ok-subscribe id topic h = elim (Option-cases (Map.get id h.connections)) [
  | inl e ↦ rw (e, subscribe, reserve_topic)
  | inr (c, e) ↦ rw (e, subscribe, reserve_topic) (ground arith)
]

-- `unsubscribe` removes its pair and no other, on the side of the connection.
pub holds-unsubscribe :
    (id j : Uuid) (topic t : String) (h : WsHub)
    → holds (unsubscribe id topic h) j t ≡ (not (id == j && topic == t) && holds h j t)
unfolding unsubscribe detach_from_topic
holds-unsubscribe id j topic t h =
    rw get-update (ground (arith, contains-drop_topic topic t (Map.get j h.connections)))

-- A registration that is accepted: a connection of its user that holds no topic.
pub register_lem :
    (id now : ℕ) (user : Option Uuid) (h h' : WsHub) (i : Uuid)
    → register id now user h ≡ ok (h', i)
    → (i ≡ id)
      × (Map.get id h'.connections ≡ some (entry now user h))
      × (h'.topics ≡ h.topics)
      × (h'.config ≡ h.config)
unfolding register enrol
register_lem id now user h h' i e =
    ground (arith, get-insert id id (entry now user h) h.connections)

-- `unregister` takes its own entry out of the table and no other.
pub get-unregister :
    (id j : Uuid) (h : WsHub)
    → Map.get j (unregister id h).connections ≡ (if id == j then none else Map.get j h.connections)
unfolding unregister
get-unregister id j h = elim (Option-cases (Map.get id h.connections)) [
  | inl e ↦
      rw (e, unregister)
        (elim (Bool-cases (id == j)) [ inl q ↦ rw (q, ← eq_of_== id j q) e | inr q ↦ rw q ])
  | inr (c, e) ↦
      rw
        (
          e,
          unregister,
          detach_from_topics_frame c.topics id
              (record h { connections = Map.remove id h.connections }),
        )
        (get-remove id j h.connections)
]

pub unregister_gone :
    (id : Uuid) (h : WsHub) → Map.get id h.connections ≡ none → unregister id h ≡ h
unfolding unregister
unregister_gone id h e = rw (e, unregister)

-- After `unregister` neither index names the connection, and a second call changes nothing.
pub unregister-clears :
    (id : Uuid) (h : WsHub)
    → IsIndexed h
    → ((t : String) → relates (unregister id h).topics t id ≡ false)
      × ((u : Uuid) → relates (unregister id h).users u id ≡ false)
      × (unregister id (unregister id h) ≡ unregister id h)
unfolding Set.contains
unregister-clears id h v =
    let w = unregister-IsIndexed id h v in
    let gone = get-unregister id id h in
    (
      λ t. ground (arith, w.topic_mirror t id, gone, nat_beq_iff id id),
      λ u. ground (arith, w.user_mirror u id, gone, nat_beq_iff id id),
      unregister_gone id (unregister id h) (ground (arith, gone, nat_beq_iff id id)),
    )

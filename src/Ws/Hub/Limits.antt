-- ===== src/Ws/Hub/Limits.antt =====
-- The two budgets of the configuration: connections of the instance, and topics of a connection.
use rust_api_boilerplate.Prelude.{
  ℕ, ◌≡◌, ◌≤◌, ◌<◌, refl, Bool, false, Option, none, some, List, String, arith, nat_eq, text_eq,
  nat_beq_iff, length, Bool-cases, Option-cases, inl, inr,
}
use rust_api_boilerplate.Map
use rust_api_boilerplate.Map.{
  get-insert, get-update, get-remove, length-insert, length-remove, length-update,
}
use rust_api_boilerplate.Set.{length-erase-le, length-insert as set_length-insert}
use rust_api_boilerplate.Config.{WebSocketConfig}
use rust_api_boilerplate.Ws.Message.{Uuid}
use rust_api_boilerplate.Ws.Hub.{
  WsHub, Connection, entry, new, enrol, is_full, over_budget, register, unregister, reserve_topic,
  index_topic, subscribe, unsubscribe, detach_from_topic, add_topic, drop_topic,
}
use rust_api_boilerplate.Ws.Hub.Index.{detach_from_topics_frame}
use rust_api_boilerplate.Ws.Hub.Mirror.{after_register, after_subscribe}

-- A limit of 0 means that there is none.
pub record IsBounded (h : WsHub) : Type 0 where
  pub once : Map.IsDistinct h.connections
  pub table : 0 < h.config.max_connections → length h.connections ≤ h.config.max_connections
  pub budgets :
      (id : Uuid) (c : Connection)
      → Map.get id h.connections ≡ some c
      → 0 < h.config.max_topics_per_connection
      → length c.topics ≤ h.config.max_topics_per_connection

pub new-IsBounded : (c : WebSocketConfig) (b : Bool) (n : Uuid) → IsBounded (new c b n)
unfolding new Map.get
new-IsBounded c b n = record { once = tt; table = λ p. omega arith; budgets = λ id c q p. cc }

enrol-IsBounded :
    (id now : ℕ) (user : Option Uuid) (h : WsHub)
    → is_full h ≡ false
    → IsBounded h
    → IsBounded (enrol id now user h)
unfolding enrol is_full
enrol-IsBounded id now user h room v = record {
  once = Map.insert-IsDistinct id (entry now user h) h.connections v.once;
  table = λ p. ground (arith, length-insert id (entry now user h) h.connections, v.table p);
  budgets =
      λ j c q p. ground (arith, get-insert id j (entry now user h) h.connections, v.budgets j c);
}

pub register-IsBounded :
    (id now : ℕ) (user : Option Uuid) (h : WsHub)
    → IsBounded h
    → IsBounded (after_register h (register id now user h))
unfolding register
register-IsBounded id now user h v = elim (Bool-cases (is_full h)) [
  | inl e ↦ rw e v
  | inr e ↦ rw e (enrol-IsBounded id now user h e v)
]

pub unregister-IsBounded : (id : Uuid) (h : WsHub) → IsBounded h → IsBounded (unregister id h)
unfolding unregister
unregister-IsBounded id h v = elim (Option-cases (Map.get id h.connections)) [
  | inl e ↦ rw (e, unregister) v
  | inr (c, e) ↦
      rw
        (
          e,
          unregister,
          detach_from_topics_frame c.topics id
              (record h { connections = Map.remove id h.connections }),
        )
        (record {
          once = Map.remove-IsDistinct id h.connections v.once;
          table = λ p. omega (arith, length-remove id h.connections v.once, v.table p);
          budgets = λ j d q p. ground (arith, get-remove id j h.connections, v.budgets j d);
        })
]

-- A connection whose topics do not grow past the budget.
rewrite-IsBounded :
    (id : Uuid) (f : Connection → Connection) (h : WsHub) (m : Map.Map String (List Uuid))
    → ((c : Connection)
        → Map.get id h.connections ≡ some c
        → 0 < h.config.max_topics_per_connection
        → length (f c).topics ≤ h.config.max_topics_per_connection)
    → IsBounded h
    → IsBounded (record h { connections = Map.update id f h.connections; topics = m })
rewrite-IsBounded id f h m fits v = record {
  once = Map.update-IsDistinct id f h.connections v.once;
  table = λ p. rw length-update (v.table p);
  budgets = λ j d q p. go j d p (Map.get j h.connections) refl q;
}
  where
    go :
        (j : Uuid) (d : Connection)
        → 0 < h.config.max_topics_per_connection
        → (o : Option Connection) → Map.get j h.connections ≡ o
        → Map.get j (Map.update id f h.connections) ≡ some d
        → length d.topics ≤ h.config.max_topics_per_connection
    go j d p none e q = absurd (ground (arith, get-update id j f h.connections))
    go j d p (some c) e q =
        ground (arith, get-update id j f h.connections, nat_beq_iff id j, fits c, v.budgets j c)

pub unsubscribe-IsBounded :
    (id : Uuid) (topic : String) (h : WsHub) → IsBounded h → IsBounded (unsubscribe id topic h)
unfolding unsubscribe detach_from_topic
unsubscribe-IsBounded id topic h v =
    rewrite-IsBounded id (drop_topic topic) h _
      (λ c e p. omega (arith, length-erase-le topic c.topics, v.budgets id c e p)) v

subscribed-IsBounded :
    (id : Uuid) (topic : String) (c : Connection) (h : WsHub)
    → Map.get id h.connections ≡ some c
    → over_budget topic c h ≡ false
    → IsBounded h
    → IsBounded (
        index_topic id topic
          (record h { connections = Map.update id (add_topic topic) h.connections }))
unfolding index_topic over_budget
subscribed-IsBounded id topic c h e room v =
    rewrite-IsBounded id (add_topic topic) h _
      (λ d q p. ground (arith, set_length-insert topic d.topics, v.budgets id d)) v

pub subscribe-IsBounded :
    (id : Uuid) (topic : String) (h : WsHub)
    → IsBounded h
    → IsBounded (after_subscribe h (subscribe id topic h))
unfolding subscribe reserve_topic
subscribe-IsBounded id topic h v = elim (Option-cases (Map.get id h.connections)) [
  | inl e ↦ rw (e, subscribe, reserve_topic) v
  | inr (c, e) ↦
      rw (e, subscribe, reserve_topic)
        (elim (Bool-cases (over_budget topic c h)) [
          | inl o ↦ rw o v
          | inr o ↦ rw o (subscribed-IsBounded id topic c h e o v)
        ])
]

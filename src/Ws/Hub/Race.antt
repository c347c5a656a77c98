-- ===== src/Ws/Hub/Race.antt =====
-- Two calls of the hub from two threads. A method is atomic only between its accesses to the maps:
-- `subscribe` releases the guard of the connection before it writes the topic index, and `register`
-- reads the size of the table before it inserts.
use rust_api_boilerplate.Prelude.{
  ℕ, ◌+◌, ◌≡◌, ◌≢◌, ◌<◌, true, false, Option, none, String, arith, nat_eq, text_eq, nat_beq_iff,
  length, inl, inr, ok, ◌>>=◌, ==_refl, Result, Result-cases, subst,
}
use rust_api_boilerplate.Map
use rust_api_boilerplate.Map.{get-insert, get-update, length-insert}
use rust_api_boilerplate.Set
use rust_api_boilerplate.Ws.Message.{Uuid, WsError}
use rust_api_boilerplate.Ws.Hub.{
  WsHub, entry, enrol, is_full, reserve_topic, index_topic, unregister,
}
use rust_api_boilerplate.Ws.Hub.Index.{relates, relates-attach}
use rust_api_boilerplate.Ws.Hub.Mirror.{IsIndexed}
use rust_api_boilerplate.Ws.Hub.Relation.{get-unregister, unregister_gone}

-- `subscribe` on one thread, with an eviction of the same connection between its two writes.
unfoldable pub subscribe_while_evicted : Uuid → String → WsHub → Result WsError WsHub
subscribe_while_evicted id topic h = do
  h' ← reserve_topic id topic h
  ok (index_topic id topic (unregister id h'))

-- The connection is out of the table, and the topic index names it.
pub record IsStale (id : Uuid) (topic : String) (g : WsHub) : Type 0 where
  pub absent : Map.get id g.connections ≡ none
  pub indexed : relates g.topics topic id ≡ true

evicted-IsStale :
    (id : Uuid) (topic : String) (h : WsHub)
    → IsStale id topic (index_topic id topic (unregister id h))
unfolding index_topic
evicted-IsStale id topic h = record {
  absent = ground (arith, get-unregister id id h, nat_beq_iff id id);
  indexed = ground (
    arith,
    relates-attach topic topic id id (unregister id h).topics,
    nat_beq_iff id id,
    ==_refl topic,
  );
}

pub subscribe-IsStale :
    (id : Uuid) (topic : String) (h g : WsHub)
    → subscribe_while_evicted id topic h ≡ ok g
    → IsStale id topic g
unfolding subscribe_while_evicted
subscribe-IsStale id topic h g e = elim (Result-cases (reserve_topic id topic h)) [
  | inl (h', q) ↦ subst (IsStale id topic) (ground arith) (evicted-IsStale id topic h')
  | inr (x, q) ↦ cc
]

-- A subscription that is accepted while its connection is evicted leaves the id in the topic index:
-- the hub is outside its invariant, and a later `unregister` of the connection changes nothing.
pub ghost_subscription :
    (id : Uuid) (topic : String) (h g : WsHub)
    → subscribe_while_evicted id topic h ≡ ok g
    → IsStale id topic g × (unregister id g ≡ g) × (¬ IsIndexed g)
unfolding Set.contains
ghost_subscription id topic h g e =
    let i = subscribe-IsStale id topic h g e in
    (
      i,
      unregister_gone id g i.absent,
      λ v. ground (arith, v.topic_mirror topic id, i.absent, i.indexed),
    )

-- Two registrations that both read the table before either writes it.
unfoldable pub register_twice : Uuid → Uuid → ℕ → Option Uuid → Option Uuid → WsHub → WsHub
register_twice a b now u w h = enrol b now w (enrol a now u h)

-- With one place left, both pass the check, and the table exceeds `max_connections`.
pub register_twice_exceeds :
    (a b : Uuid) (now : ℕ) (u w : Option Uuid) (h : WsHub)
    → a ≢ b
    → Map.get a h.connections ≡ none
    → Map.get b h.connections ≡ none
    → length h.connections + 1 ≡ h.config.max_connections
    → (is_full h ≡ false)
      × (h.config.max_connections < length (register_twice a b now u w h).connections)
unfolding register_twice enrol is_full
register_twice_exceeds a b now u w h ne fa fb last =
    let m = Map.insert a (entry now u h) h.connections in
    (
      ground arith,
      ground (
        arith,
        nat_beq_iff a b,
        length-insert a (entry now u h) h.connections,
        get-insert a b (entry now u h) h.connections,
        length-insert b (entry now w (enrol a now u h)) m,
      ),
    )

-- ===== src/Ws/Publish/Evict.antt =====
-- The second loop of `deliver`: what a delivery does to the hub.
use rust_api_boilerplate.Prelude.{
  ℕ, ◌+◌, ◌%◌, ◌^◌, ◌≡◌, refl, none, List, [], ◌∷◌, arith, nat_eq, if◌then◌else◌,
}
use rust_api_boilerplate.Map
use rust_api_boilerplate.Map.{Map, get-remove}
use rust_api_boilerplate.Set
use rust_api_boilerplate.Ws.Message.{Uuid}
use rust_api_boilerplate.Ws.Hub.{WsHub, disconnect, unregister}
use rust_api_boilerplate.Ws.Hub.Mirror.{IsIndexed, unregister-IsIndexed}
use rust_api_boilerplate.Ws.Hub.Limits.{IsBounded, unregister-IsBounded}
use rust_api_boilerplate.Ws.Hub.Relation.{get-unregister}
use rust_api_boilerplate.Ws.Publish.{TrySend, drop_slow, deliver}
use rust_api_boilerplate.Ws.Publish.Loop.{is_full, select, push_all_slow}

pub get-drop_slow :
    (ids : List Uuid) (j : Uuid) (h : WsHub)
    → Map.get j (drop_slow ids h).connections
      ≡ (if Set.contains j ids then none else Map.get j h.connections)
unfolding drop_slow disconnect Set.contains
get-drop_slow [] j h = refl
get-drop_slow (id ∷ ids) j h =
    let g = record h { slow_clients_dropped = (h.slow_clients_dropped + 1) % 2 ^ 64 } in
    ground (arith, get-drop_slow ids j (unregister id g), get-unregister id j g)

-- The counters are no part of the invariant.
counted-IsIndexed :
    (h : WsHub) (n m : ℕ)
    → IsIndexed h
    → IsIndexed (record h { messages_sent = n; slow_clients_dropped = m })
counted-IsIndexed h n m v = record {
  topic_mirror = v.topic_mirror;
  user_mirror = v.user_mirror;
  topics_used = v.topics_used;
  users_used = v.users_used;
  topics_once = v.topics_once;
  users_once = v.users_once;
  entries_once = v.entries_once;
}

pub drop_slow-IsIndexed : (ids : List Uuid) (h : WsHub) → IsIndexed h → IsIndexed (drop_slow ids h)
unfolding drop_slow disconnect
drop_slow-IsIndexed [] h v = v
drop_slow-IsIndexed (id ∷ ids) h v =
    drop_slow-IsIndexed ids _ (unregister-IsIndexed id _ (counted-IsIndexed h _ _ v))

counted-IsBounded :
    (h : WsHub) (n m : ℕ)
    → IsBounded h
    → IsBounded (record h { messages_sent = n; slow_clients_dropped = m })
counted-IsBounded h n m v = record { once = v.once; table = v.table; budgets = v.budgets }

drop_slow-IsBounded : (ids : List Uuid) (h : WsHub) → IsBounded h → IsBounded (drop_slow ids h)
unfolding drop_slow disconnect
drop_slow-IsBounded [] h v = v
drop_slow-IsBounded (id ∷ ids) h v =
    drop_slow-IsBounded ids _ (unregister-IsBounded id _ (counted-IsBounded h _ _ v))

module _ (outcome : Uuid → TrySend) where
  pub deliver-IsIndexed :
      (ids : List Uuid) (h : WsHub) → IsIndexed h → IsIndexed (deliver outcome ids h).0
  unfolding deliver
  deliver-IsIndexed ids h v = counted-IsIndexed _ _ _ (drop_slow-IsIndexed _ h v)

  pub deliver-IsBounded :
      (ids : List Uuid) (h : WsHub) → IsBounded h → IsBounded (deliver outcome ids h).0
  unfolding deliver
  deliver-IsBounded ids h v = counted-IsBounded _ _ _ (drop_slow-IsBounded _ h v)

  -- A delivery takes the registered ids whose queue is full out of the table, and no other.
  pub get-deliver :
      (ids : List Uuid) (j : Uuid) (h : WsHub)
      → Map.get j (deliver outcome ids h).0.connections ≡ (
          if Set.contains j (select is_full outcome h.connections ids)
          then none
          else Map.get j h.connections)
  unfolding deliver
  get-deliver ids j h = rw (push_all_slow outcome h.connections ids) (get-drop_slow _ j h)

-- ===== src/Ws/Publish/Exact.antt =====
-- Who receives a published event, and who is dropped: each local delivery against the relation
-- that the connection table itself shows.
use rust_api_boilerplate.Prelude.{
  ◌≡◌, refl, Bool, false, ◌&&◌, Option, none, some, List, [], ◌∷◌, map, String, arith, ◌==◌, nat_eq,
  text_eq, nat_beq_iff, is_some, if◌then◌else◌, length, Option-cases, inl, inr, suc, ok, ◌∙◌, ap,
}
use rust_api_boilerplate.Map
use rust_api_boilerplate.Map.{Map}
use rust_api_boilerplate.Set
use rust_api_boilerplate.Ws.Message.{Uuid, Frame, ServerMessage, event}
use rust_api_boilerplate.Ws.Hub.{WsHub, Connection}
use rust_api_boilerplate.Ws.Hub.Mirror.{IsIndexed, holds, belongs}
use rust_api_boilerplate.Ws.Publish.{
  TrySend, Published, nobody, deliver, event_frame, deliver_event, publish_local,
  publish_to_user_local, broadcast_local,
}
use rust_api_boilerplate.Ws.Publish.Loop.{
  is_sent, is_full, answers, select, contains-select, select-IsDistinct, push_all_sent,
  push_all_delivered,
}
use rust_api_boilerplate.Ws.Publish.Evict.{get-deliver, deliver-IsIndexed}

-- The frames that entered one connection's queue, oldest first.
abbrev pub received : Uuid → List (Uuid × Frame) → List Frame
received id [] = []
received id ((j, f) ∷ l) = if j == id then f ∷ received id l else received id l

-- At most one copy.
abbrev pub once : Bool → Frame → List Frame
once b f = if b then f ∷ [] else []

abbrev addressed : Frame → List Uuid → List (Uuid × Frame)
addressed f ids = map (λ i. (i, f)) ids

received-addressed :
    (id : Uuid) (f : Frame) (ids : List Uuid)
    → Set.IsDistinct ids
    → received id (addressed f ids) ≡ once (Set.contains id ids) f
unfolding Set.contains
received-addressed id f [] d = refl
received-addressed id f (x ∷ ids) d = ground (
  arith,
  received-addressed id f ids d.1,
  nat_beq_iff x id,
  ap (λ (i : Uuid). Set.contains i ids) {x = x} {y = id},
)

length-addressed : (f : Frame) (ids : List Uuid) → length (addressed f ids) ≡ length ids
length-addressed f [] = refl
length-addressed f (x ∷ ids) = ap suc (length-addressed f ids)

-- The ids of the table, each once.
keys : Map Uuid Connection → List Uuid
keys m = map (λ entry. entry.0) m

contains-keys :
    (id : Uuid) (m : Map Uuid Connection) → Set.contains id (keys m) ≡ is_some (Map.get id m)
unfolding keys Set.contains Map.get
contains-keys id [] = refl
contains-keys id ((j, c) ∷ m) = ground (arith, contains-keys id m)

keys-IsDistinct : (m : Map Uuid Connection) → Map.IsDistinct m → Set.IsDistinct (keys m)
unfolding keys
keys-IsDistinct [] d = tt
keys-IsDistinct ((j, c) ∷ m) d = (ground (arith, contains-keys j m), keys-IsDistinct m d.1)

-- What an event to the connections that `reaches` tells does, if it can be encoded.
pub record Delivers {Value : Type 0} (reaches : Uuid → Bool) (outcome : Uuid → TrySend) (f : Frame)
    (h : WsHub) (p : Published Value) : Type 0 where
  pub exactly : (id : Uuid) → received id p.frames ≡ once (reaches id && is_sent (outcome id)) f
  pub counted : p.result ≡ ok (length p.frames)
  pub evicts :
      (id : Uuid)
      → Map.get id p.hub.connections
        ≡ (if reaches id && is_full (outcome id) then none else Map.get id h.connections)
  pub keeps : IsIndexed p.hub

module _ {Value : Type 0} (encode : ServerMessage Value → Option Frame) (outcome : Uuid → TrySend)
    (topic : String) (payload : Value) (f : Frame)
    (encodes : encode (event topic payload) ≡ some f) where
  deliver_event_lem :
      (reaches : Uuid → Bool) (ids : List Uuid) (h : WsHub)
      → IsIndexed h
      → Set.IsDistinct ids
      → ((id : Uuid) → (Set.contains id ids && is_some (Map.get id h.connections)) ≡ reaches id)
      → Delivers reaches outcome f h (deliver_event encode outcome ids topic payload h)
  unfolding deliver_event event_frame deliver answers
  deliver_event_lem reaches ids h v d r =
      rw (encodes, deliver_event)
        (record {
          exactly = λ id. rw push_all_sent (
              received-addressed id f _ (select-IsDistinct is_sent outcome h.connections ids d)
              ∙ ap (λ b. once b f)
                  (ground (arith, r id, contains-select is_sent outcome h.connections id ids)));
          counted =
              rw (push_all_sent, push_all_delivered)
                (ap ok
                  (omega (arith, length-addressed f (select is_sent outcome h.connections ids))));
          evicts = λ id.
              rw (get-deliver)
                (ground (arith, r id, contains-select is_full outcome h.connections id ids));
          keeps = deliver-IsIndexed outcome ids h v;
        })

  nobody_lem :
      (reaches : Uuid → Bool) (h : WsHub)
      → IsIndexed h
      → ((id : Uuid) → reaches id ≡ false)
      → Delivers reaches outcome f h (nobody {Value = Value} h)
  nobody_lem reaches h v r = record {
    exactly = λ id. ground (arith, r id);
    counted = refl;
    evicts = λ id. ground (arith, r id);
    keeps = v;
  }

  -- `publish_local` reaches the connections that hold the topic.
  pub publish_local-Delivers :
      (h : WsHub)
      → IsIndexed h
      → Delivers (λ id. holds h id topic) outcome f h (publish_local encode outcome topic payload h)
  unfolding publish_local Set.contains
  publish_local-Delivers h v = elim (Option-cases (Map.get topic h.topics)) [
    | inl e ↦
        rw (e, publish_local)
          (nobody_lem (λ id. holds h id topic) h v
            (λ id. ground (arith, v.topic_mirror topic id, e)))
    | inr (s, e) ↦
        rw (e, publish_local)
          (deliver_event_lem (λ id. holds h id topic) s h v (v.topics_once topic s e)
            (λ id. ground (arith, v.topic_mirror topic id, e)))
  ]

  -- `publish_to_user_local` reaches the connections of the user.
  pub publish_to_user_local-Delivers :
      (u : Uuid) (h : WsHub)
      → IsIndexed h
      → Delivers
          (λ id. belongs h id u)
          outcome
          f
          h
          (publish_to_user_local encode outcome u topic payload h)
  unfolding publish_to_user_local Set.contains
  publish_to_user_local-Delivers u h v = elim (Option-cases (Map.get u h.users)) [
    | inl e ↦
        rw (e, publish_to_user_local)
          (nobody_lem (λ id. belongs h id u) h v (λ id. ground (arith, v.user_mirror u id, e)))
    | inr (s, e) ↦
        rw (e, publish_to_user_local)
          (deliver_event_lem (λ id. belongs h id u) s h v (v.users_once u s e)
            (λ id. ground (arith, v.user_mirror u id, e)))
  ]

  -- `broadcast_local` reaches every connection of the table.
  pub broadcast_local-Delivers :
      (h : WsHub)
      → IsIndexed h
      → Delivers
          (λ id. is_some (Map.get id h.connections))
          outcome
          f
          h
          (broadcast_local encode outcome topic payload h)
  unfolding broadcast_local keys
  broadcast_local-Delivers h v =
      deliver_event_lem (λ id. is_some (Map.get id h.connections)) (keys h.connections) h v
        (keys-IsDistinct h.connections v.entries_once)
        (λ id. ground (arith, contains-keys id h.connections))

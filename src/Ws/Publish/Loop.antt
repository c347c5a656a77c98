-- ===== src/Ws/Publish/Loop.antt =====
-- The first loop of `deliver` against a description of what it collects.
use rust_api_boilerplate.Prelude.{
  ◌+◌, ◌≡◌, refl, Bool, true, false, ◌&&◌, List, [], ◌∷◌, ◌++◌, arith, ◌==◌, nat_eq, is_some,
  if◌then◌else◌, length, eq_of_==, Bool-cases, inl, inr,
}
use mathlib.Core.List.{append-nil, append_assoc}
use rust_api_boilerplate.Map
use rust_api_boilerplate.Map.{Map}
use rust_api_boilerplate.Set
use rust_api_boilerplate.Ws.Message.{Uuid}
use rust_api_boilerplate.Ws.Hub.{Connection}
use rust_api_boilerplate.Ws.Publish.{TrySend, sent, full, Push, push_one, push_all}

abbrev pub is_sent : TrySend → Bool
is_sent sent = true
is_sent _ = false

abbrev pub is_full : TrySend → Bool
is_full full = true
is_full _ = false

-- The registered ids of a list whose queue answers in a way that `p` accepts.
module _ (p : TrySend → Bool) (outcome : Uuid → TrySend) (conns : Map Uuid Connection) where
  unfoldable pub answers : Uuid → Bool
  answers id = is_some (Map.get id conns) && p (outcome id)

  pub select : List Uuid → List Uuid
  unfolding answers
  select [] = []
  select (id ∷ ids) = let rest = select ids in if answers id then id ∷ rest else rest

  pub contains-select :
      (id : Uuid) (ids : List Uuid)
      → Set.contains id (select ids) ≡ (Set.contains id ids && answers id)
  unfolding select Set.contains
  contains-select id [] = refl
  contains-select id (x ∷ ids) = elim (Bool-cases (x == id)) [
    | inl h ↦ rw (eq_of_== x id h) (ground (arith, contains-select id ids))
    | inr h ↦ ground (arith, contains-select id ids)
  ]

  pub select-IsDistinct : (ids : List Uuid) → Set.IsDistinct ids → Set.IsDistinct (select ids)
  unfolding select
  select-IsDistinct [] d = tt
  select-IsDistinct (x ∷ ids) d = ground (arith, contains-select x ids, select-IsDistinct ids d.1)

grown :
    (b : Bool) (id : Uuid) (xs rest : List Uuid)
    → (xs ++ (if b then id ∷ [] else [])) ++ rest ≡ xs ++ (if b then id ∷ rest else rest)
grown true id xs rest = append_assoc xs (id ∷ []) rest
grown false id xs rest = rw append-nil

module _ (outcome : Uuid → TrySend) (conns : Map Uuid Connection) where
  push_one_sent :
      (id : Uuid) (p : Push)
      → (push_one outcome conns id p).sent
        ≡ p.sent ++ (if answers is_sent outcome conns id then id ∷ [] else [])
  unfolding push_one answers
  push_one_sent id p = ground (arith, append-nil p.sent)

  push_one_slow :
      (id : Uuid) (p : Push)
      → (push_one outcome conns id p).slow
        ≡ p.slow ++ (if answers is_full outcome conns id then id ∷ [] else [])
  unfolding push_one answers
  push_one_slow id p = ground (arith, append-nil p.slow)

  push_one_delivered :
      (id : Uuid) (p : Push)
      → (push_one outcome conns id p).delivered
        ≡ p.delivered + (if answers is_sent outcome conns id then 1 else 0)
  unfolding push_one answers
  push_one_delivered id p = ground arith

  -- The frames go to the registered ids whose queue has room, in the order of the list.
  pub push_all_sent :
      (ids : List Uuid) (p : Push)
      → (push_all outcome conns ids p).sent ≡ p.sent ++ select is_sent outcome conns ids
  unfolding push_all select
  push_all_sent [] p = rw append-nil
  push_all_sent (id ∷ ids) p =
      rw (push_all_sent ids (push_one outcome conns id p), push_one_sent id p)
        (grown (answers is_sent outcome conns id) id p.sent (select is_sent outcome conns ids))

  pub push_all_slow :
      (ids : List Uuid) (p : Push)
      → (push_all outcome conns ids p).slow ≡ p.slow ++ select is_full outcome conns ids
  unfolding push_all select
  push_all_slow [] p = rw append-nil
  push_all_slow (id ∷ ids) p =
      rw (push_all_slow ids (push_one outcome conns id p), push_one_slow id p)
        (grown (answers is_full outcome conns id) id p.slow (select is_full outcome conns ids))

  pub push_all_delivered :
      (ids : List Uuid) (p : Push)
      → (push_all outcome conns ids p).delivered
        ≡ p.delivered + length (select is_sent outcome conns ids)
  unfolding push_all select
  push_all_delivered [] p = omega arith
  push_all_delivered (id ∷ ids) p =
      rw (push_all_delivered ids (push_one outcome conns id p), push_one_delivered id p)
        (ground arith)

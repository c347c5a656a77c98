-- ===== src/Ws/Hub/Sets.antt =====
-- How often the sets of both indexes hold an id.
use rust_api_boilerplate.Prelude.{
  ◌≡◌, Option, none, some, List, [], ◌∷◌, String, arith, PartialEq, ◌==◌, nat_eq, text_eq, is_empty,
  Bool-cases, Option-cases, inl, inr, unwrap_or, subst, ◌⊎◌,
}
use rust_api_boilerplate.Map
use rust_api_boilerplate.Map.{Map, get-insert, get-update, get-remove_if}
use rust_api_boilerplate.Set
use rust_api_boilerplate.Set.{insert-IsDistinct, erase-IsDistinct}
use rust_api_boilerplate.Ws.Message.{Uuid}
use rust_api_boilerplate.Ws.Hub.{
  WsHub, attach, detach, attach_user, detach_user, detach_from_topic, detach_from_topics,
}

module _ {K : Type 0} ⦃e : PartialEq K⦄ where
  abbrev pub AreDistinct : Map K (List Uuid) → Type 0
  AreDistinct m = (k : K) (s : List Uuid) → Map.get k m ≡ some s → Set.IsDistinct s

  members-IsDistinct :
      (k : K) (m : Map K (List Uuid)) → AreDistinct m → Set.IsDistinct (unwrap_or (Map.get k m) [])
  members-IsDistinct k m d = elim (Option-cases (Map.get k m)) [
    | inl h ↦ rw h tt
    | inr (s, h) ↦ rw h (d k s h)
  ]

  pub attach-AreDistinct :
      (k : K) (id : Uuid) (m : Map K (List Uuid)) → AreDistinct m → AreDistinct (attach k id m)
  unfolding attach
  attach-AreDistinct k id m d j s q = elim (Bool-cases (k == j)) [
    | inl h ↦
        subst Set.IsDistinct
          (ground (arith, get-insert k j (Set.insert id (unwrap_or (Map.get k m) [])) m))
          (insert-IsDistinct id (unwrap_or (Map.get k m) []) (members-IsDistinct k m d))
    | inr h ↦ d j s (ground (arith, get-insert k j (Set.insert id (unwrap_or (Map.get k m) [])) m))
  ]

  -- An entry that `detach` leaves is the old one, or the old one without the id.
  detach_cases :
      (k j : K) (id : Uuid) (m : Map K (List Uuid)) (s s' : List Uuid)
      → Map.get j m ≡ some s'
      → Map.get j (detach k id m) ≡ some s
      → (s' ≡ s) ⊎ (Set.erase id s' ≡ s)
  unfolding detach
  detach_cases k j id m s s' h q = ground (
    arith,
    get-remove_if k j is_empty (Map.update k (Set.erase id) m),
    get-update k j (Set.erase id) m,
  )

  detach_absent :
      (k j : K) (id : Uuid) (m : Map K (List Uuid))
      → Map.get j m ≡ none
      → Map.get j (detach k id m) ≡ none
  unfolding detach
  detach_absent k j id m h = ground (
    arith,
    get-remove_if k j is_empty (Map.update k (Set.erase id) m),
    get-update k j (Set.erase id) m,
  )

  pub detach-AreDistinct :
      (k : K) (id : Uuid) (m : Map K (List Uuid)) → AreDistinct m → AreDistinct (detach k id m)
  detach-AreDistinct k id m d j s q = elim (Option-cases (Map.get j m)) [
    | inl h ↦ cc (detach_absent k j id m h)
    | inr (s', h) ↦ elim (detach_cases k j id m s s' h q) [
      | inl p ↦ subst Set.IsDistinct p (d j s' h)
      | inr p ↦ subst Set.IsDistinct p (erase-IsDistinct id s' (d j s' h))
    ]
  ]

pub attach_user-AreDistinct :
    (o : Option Uuid) (id : Uuid) (m : Map Uuid (List Uuid))
    → AreDistinct m
    → AreDistinct (attach_user o id m)
unfolding attach_user
attach_user-AreDistinct none id m d = d
attach_user-AreDistinct (some v) id m d = attach-AreDistinct v id m d

pub detach_user-AreDistinct :
    (o : Option Uuid) (id : Uuid) (m : Map Uuid (List Uuid))
    → AreDistinct m
    → AreDistinct (detach_user o id m)
unfolding detach_user
detach_user-AreDistinct none id m d = d
detach_user-AreDistinct (some v) id m d = detach-AreDistinct v id m d

pub detach_from_topics-AreDistinct :
    (ts : List String) (id : Uuid) (h : WsHub)
    → AreDistinct h.topics
    → AreDistinct (detach_from_topics ts id h).topics
unfolding detach_from_topics detach_from_topic
detach_from_topics-AreDistinct [] id h d = d
detach_from_topics-AreDistinct (x ∷ ts) id h d =
    detach_from_topics-AreDistinct ts id (detach_from_topic x id h)
      (detach-AreDistinct x id h.topics d)

-- ===== src/Ws/Hub/Index.antt =====
-- The reverse indexes: `attach` and `detach` as operations on the relation that an index stores.
use rust_api_boilerplate.Prelude.{
  ◌≡◌, ◌≢◌, refl, Bool, ◌&&◌, ◌||◌, not, Option, none, some, List, [], ◌∷◌, String, arith,
  PartialEq, ◌==◌, nat_eq, text_eq, is_empty, unwrap_or, if◌then◌else◌, Bool-cases, inl, inr,
  eq_of_==,
}
use rust_api_boilerplate.Map
use rust_api_boilerplate.Map.{Map, get-insert, get-update, get-remove_if}
use rust_api_boilerplate.Set
use rust_api_boilerplate.Set.{contains-insert, contains-erase}
use rust_api_boilerplate.Ws.Message.{Uuid}
use rust_api_boilerplate.Ws.Hub.{WsHub, attach, detach, detach_from_topic, detach_from_topics}

-- The set that an entry holds; a missing entry holds nobody.
abbrev pub members : Option (List Uuid) → List Uuid
members o = unwrap_or o []

pruned :
    (i : Uuid) (ys : List Uuid)
    → Set.contains i (members (if is_empty ys then none else some ys)) ≡ Set.contains i ys
unfolding Set.contains
pruned i [] = refl
pruned i (y ∷ ys) = refl

-- What `get_mut` with `remove`, then `remove_if` leave of an entry.
abbrev leave : Uuid → Option (List Uuid) → Option (List Uuid)
leave id o = Map.drop_if is_empty (Map.map_value (Set.erase id) o)

contains-leave :
    (id i : Uuid) (o : Option (List Uuid))
    → Set.contains i (members (leave id o)) ≡ (not (id == i) && Set.contains i (members o))
unfolding Set.contains
contains-leave id i none = ground arith
contains-leave id i (some xs) = rw pruned (contains-erase id i xs)

leave_used : (id : Uuid) (o : Option (List Uuid)) → leave id o ≢ some []
leave_used id none = λ h. cc
leave_used id (some xs) = go (Set.erase id xs)
  where
    go : (ys : List Uuid) → (if is_empty ys then none else some ys) ≢ some []
    go [] = λ h. cc
    go (y ∷ ys) = λ h. cc

insert_used : (id : Uuid) (xs : List Uuid) → Set.insert id xs ≢ []
unfolding Set.insert Set.contains
insert_used id [] = λ h. cc
insert_used id (x ∷ xs) = λ h. ground arith

module _ {K : Type 0} ⦃e : PartialEq K⦄ where
  -- Whether the index relates `k` and `id`.
  abbrev pub relates : Map K (List Uuid) → K → Uuid → Bool
  relates m k id = Set.contains id (members (Map.get k m))

  -- No entry is kept for an empty set.
  abbrev pub IsUsed : Map K (List Uuid) → Type 0
  IsUsed m = (k : K) → Map.get k m ≢ some []

  get-detach :
      (k j : K) (id : Uuid) (m : Map K (List Uuid))
      → Map.get j (detach k id m) ≡ (if k == j then leave id (Map.get j m) else Map.get j m)
  unfolding detach
  get-detach k j id m = ground (
    arith,
    get-remove_if k j is_empty (Map.update k (Set.erase id) m),
    get-update k j (Set.erase id) m,
  )

  pub relates-attach :
      (k j : K) (id i : Uuid) (m : Map K (List Uuid))
      → relates (attach k id m) j i ≡ ((k == j && id == i) || relates m j i)
  unfolding attach
  relates-attach k j id i m = elim (Bool-cases (k == j)) [
    | inl h ↦ rw (get-insert, h, ← eq_of_== k j h) (contains-insert id i (members (Map.get k m)))
    | inr h ↦ rw (get-insert, h)
  ]

  pub relates-detach :
      (k j : K) (id i : Uuid) (m : Map K (List Uuid))
      → relates (detach k id m) j i ≡ (not (k == j && id == i) && relates m j i)
  relates-detach k j id i m = elim (Bool-cases (k == j)) [
    | inl h ↦ rw (get-detach, h) (contains-leave id i (Map.get j m))
    | inr h ↦ rw (get-detach, h)
  ]

  pub attach-IsUsed :
      (k : K) (id : Uuid) (m : Map K (List Uuid)) → IsUsed m → IsUsed (attach k id m)
  unfolding attach
  attach-IsUsed k id m u j = elim (Bool-cases (k == j)) [
    | inl h ↦ rw (get-insert, h) (λ q. insert_used id (members (Map.get k m)) (ground arith))
    | inr h ↦ rw (get-insert, h) (u j)
  ]

  pub detach-IsUsed :
      (k : K) (id : Uuid) (m : Map K (List Uuid)) → IsUsed m → IsUsed (detach k id m)
  detach-IsUsed k id m u j = elim (Bool-cases (k == j)) [
    | inl h ↦ rw (get-detach, h) (leave_used id (Map.get j m))
    | inr h ↦ rw (get-detach, h) (u j)
  ]

-- The loop of `unregister` over a connection's topics.
pub relates-detach_from_topics :
    (ts : List String) (t : String) (id i : Uuid) (h : WsHub)
    → relates (detach_from_topics ts id h).topics t i
      ≡ (not (Set.contains t ts && id == i) && relates h.topics t i)
unfolding detach_from_topics detach_from_topic Set.contains
relates-detach_from_topics [] t id i h = refl
relates-detach_from_topics (x ∷ ts) t id i h = ground (
  arith,
  relates-detach_from_topics ts t id i (detach_from_topic x id h),
  relates-detach x t id i h.topics,
)

pub detach_from_topics-IsUsed :
    (ts : List String) (id : Uuid) (h : WsHub)
    → IsUsed h.topics
    → IsUsed (detach_from_topics ts id h).topics
unfolding detach_from_topics detach_from_topic
detach_from_topics-IsUsed [] id h u = u
detach_from_topics-IsUsed (x ∷ ts) id h u =
    detach_from_topics-IsUsed ts id (detach_from_topic x id h) (detach-IsUsed x id h.topics u)

-- The loop writes the topic index alone.
pub detach_from_topics_frame :
    (ts : List String) (id : Uuid) (h : WsHub)
    → detach_from_topics ts id h ≡ record h { topics = (detach_from_topics ts id h).topics }
unfolding detach_from_topics detach_from_topic
detach_from_topics_frame [] id h = refl
detach_from_topics_frame (x ∷ ts) id h = detach_from_topics_frame ts id (detach_from_topic x id h)

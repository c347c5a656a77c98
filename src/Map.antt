-- ===== src/Map.antt =====
-- `HashMap` and `DashMap`, one call at a time, as an association list.
use rust_api_boilerplate.Prelude.{
  ◌+◌, ◌≡◌, ◌≢◌, refl, Bool, List, [], ◌∷◌, Option, none, some, PartialEq, ◌==◌, arith, length, ap,
  if◌then◌else◌, is_some,
}

abbrev pub Map {ℓ κ} : Type ℓ → Type κ → Type (ℓ ⊔ κ)
Map K V = List (K × V)

abbrev pub map_value {κ} : {V : Type κ} → (V → V) → Option V → Option V
map_value f none = none
map_value f (some v) = some (f v)

abbrev pub drop_if {κ} : {V : Type κ} → (V → Bool) → Option V → Option V
drop_if p none = none
drop_if p (some v) = if p v then none else some v

module _ {ℓ κ} {K : Type ℓ} {V : Type κ} ⦃e : PartialEq K⦄ where
  unfoldable pub get : K → Map K V → Option V
  get k [] = none
  get key ((k, value) ∷ rest) = if k == key then some value else get key rest

  unfoldable pub insert : K → V → Map K V → Map K V
  insert key new [] = (key, new) ∷ []
  insert key new ((k, old) ∷ rest) =
      let kept = insert key new rest in if k == key then (key, new) ∷ rest else (k, old) ∷ kept

  unfoldable pub remove : K → Map K V → Map K V
  remove k [] = []
  remove k ((j, v) ∷ m) = let rest = remove k m in if j == k then rest else (j, v) ∷ rest

  -- `get_mut` followed by a write through the guard.
  unfoldable pub update : K → (V → V) → Map K V → Map K V
  update k f [] = []
  update k f ((j, v) ∷ m) =
      let rest = update k f m in if j == k then (j, f v) ∷ rest else (j, v) ∷ rest

  unfoldable pub remove_if : K → (V → Bool) → Map K V → Map K V
  remove_if k p m = elim (get k m) [ none ↦ m | some v ↦ if p v then remove k m else m ]

  pub get-insert :
      (k j : K) (v : V) (m : Map K V) → get j (insert k v m) ≡ (if k == j then some v else get j m)
  unfolding get insert
  get-insert k j v [] = refl
  get-insert k j v ((i, w) ∷ m) =
      ground (arith, e.beq_iff k j, e.beq_iff i k, e.beq_iff i j, get-insert k j v m)

  pub get-remove : (k j : K) (m : Map K V) → get j (remove k m) ≡ (if k == j then none else get j m)
  unfolding get remove
  get-remove k j [] = ground arith
  get-remove k j ((i, w) ∷ m) =
      ground (arith, e.beq_iff k j, e.beq_iff i k, e.beq_iff i j, get-remove k j m)

  pub get-insert_same : (k : K) (v : V) (m : Map K V) → get k (insert k v m) ≡ some v
  get-insert_same k v m = ground (arith, e.beq_iff k k, get-insert k k v m)

  pub get-insert_other : (k j : K) (v : V) (m : Map K V) → k ≢ j → get j (insert k v m) ≡ get j m
  get-insert_other k j v m h = ground (arith, h, e.beq_iff k j, get-insert k j v m)

  pub get-remove_same : (k : K) (m : Map K V) → get k (remove k m) ≡ none
  get-remove_same k m = ground (arith, e.beq_iff k k, get-remove k k m)

  pub get-remove_other : (k j : K) (m : Map K V) → k ≢ j → get j (remove k m) ≡ get j m
  get-remove_other k j m h = ground (arith, h, e.beq_iff k j, get-remove k j m)

  pub get-update :
      (k j : K) (f : V → V) (m : Map K V)
      → get j (update k f m) ≡ (if k == j then map_value f (get j m) else get j m)
  unfolding get update
  get-update k j f [] = ground arith
  get-update k j f ((i, w) ∷ m) =
      ground (arith, e.beq_iff k j, e.beq_iff i k, e.beq_iff i j, get-update k j f m)

  pub get-remove_if :
      (k j : K) (p : V → Bool) (m : Map K V)
      → get j (remove_if k p m) ≡ (if k == j then drop_if p (get j m) else get j m)
  unfolding remove_if
  get-remove_if k j p m =
      ground (arith, e.beq_iff k j, get-remove k j m, ap (λ (i : K). get i m) {x = k} {y = j})

  -- Each key stands in one entry.
  abbrev pub IsDistinct : Map K V → Type κ
  IsDistinct [] = Unit
  IsDistinct ((k, v) ∷ m) = (get k m ≡ none) × IsDistinct m

  pub length-insert :
      (k : K) (v : V) (m : Map K V)
      → length (insert k v m) ≡ (if is_some (get k m) then length m else length m + 1)
  unfolding get insert
  length-insert k v [] = ground arith
  length-insert k v ((i, w) ∷ m) = ground (arith, length-insert k v m)

  pub insert-IsDistinct : (k : K) (v : V) (m : Map K V) → IsDistinct m → IsDistinct (insert k v m)
  unfolding get insert
  insert-IsDistinct k v [] d = ground arith
  insert-IsDistinct k v ((i, w) ∷ m) d =
      ground (arith, e.beq_iff i k, e.beq_iff k i, get-insert k i v m, insert-IsDistinct k v m d.1)

  pub remove-IsDistinct : (k : K) (m : Map K V) → IsDistinct m → IsDistinct (remove k m)
  unfolding remove
  remove-IsDistinct k [] d = tt
  remove-IsDistinct k ((i, w) ∷ m) d = ground (arith, get-remove k i m, remove-IsDistinct k m d.1)

  pub update-IsDistinct :
      (k : K) (f : V → V) (m : Map K V) → IsDistinct m → IsDistinct (update k f m)
  unfolding update
  update-IsDistinct k f [] d = tt
  update-IsDistinct k f ((i, w) ∷ m) d =
      ground (arith, get-update k i f m, update-IsDistinct k f m d.1)

  pub remove_if-IsDistinct :
      (k : K) (p : V → Bool) (m : Map K V) → IsDistinct m → IsDistinct (remove_if k p m)
  unfolding remove_if
  remove_if-IsDistinct k p m d = ground (arith, remove-IsDistinct k m)

  remove_absent : (k : K) (m : Map K V) → get k m ≡ none → remove k m ≡ m
  unfolding get remove
  remove_absent k [] h = refl
  remove_absent k ((i, w) ∷ m) h = ground (arith, remove_absent k m)

  pub length-remove :
      (k : K) (m : Map K V)
      → IsDistinct m
      → length (remove k m) + (if is_some (get k m) then 1 else 0) ≡ length m
  unfolding get remove
  length-remove k [] d = refl
  length-remove k ((i, w) ∷ m) d =
      ground (arith, e.beq_iff i k, length-remove k m d.1, remove_absent k m)

  pub length-update : (k : K) (f : V → V) (m : Map K V) → length (update k f m) ≡ length m
  unfolding update
  length-update k f [] = refl
  length-update k f ((i, w) ∷ m) = ground (arith, length-update k f m)

-- ===== src/Set.antt =====
-- `HashSet` as a list without repetitions. The program never relies on its order.
use rust_api_boilerplate.Prelude.{
  ◌+◌, ◌≤◌, ◌≡◌, false, not, ◌&&◌, ◌||◌, List, [], ◌∷◌, PartialEq, ◌==◌, arith, length,
  if◌then◌else◌, Bool-cases, inl, inr, Bool,
}

module _ {A : Type 0} ⦃e : PartialEq A⦄ where
  unfoldable pub contains : A → List A → Bool
  contains a [] = false
  contains a (x ∷ xs) = x == a || contains a xs

  unfoldable pub insert : A → List A → List A
  insert a xs = if contains a xs then xs else a ∷ xs

  unfoldable pub erase : A → List A → List A
  erase a [] = []
  erase a (x ∷ xs) = let rest = erase a xs in if x == a then rest else x ∷ rest

  pub contains-insert :
      (a b : A) (xs : List A) → contains b (insert a xs) ≡ (a == b || contains b xs)
  unfolding contains insert
  contains-insert a b xs = elim (Bool-cases (contains a xs)) [
    | inl h ↦ ground (arith, e.beq_iff a b)
    | inr h ↦ ground arith
  ]

  pub contains-erase :
      (a b : A) (xs : List A) → contains b (erase a xs) ≡ (not (a == b) && contains b xs)
  unfolding contains erase
  contains-erase a b [] = ground arith
  contains-erase a b (x ∷ xs) =
      ground (arith, contains-erase a b xs, e.beq_iff a b, e.beq_iff x a, e.beq_iff x b)

  -- No element stands twice.
  abbrev pub IsDistinct : List A → Type 0
  IsDistinct [] = Unit
  IsDistinct (x ∷ xs) = (contains x xs ≡ false) × IsDistinct xs

  pub insert-IsDistinct : (a : A) (xs : List A) → IsDistinct xs → IsDistinct (insert a xs)
  unfolding insert
  insert-IsDistinct a xs d = elim (Bool-cases (contains a xs)) [
    | inl h ↦ rw h d
    | inr h ↦ rw h (h, d)
  ]

  pub erase-IsDistinct : (a : A) (xs : List A) → IsDistinct xs → IsDistinct (erase a xs)
  unfolding erase
  erase-IsDistinct a [] d = tt
  erase-IsDistinct a (x ∷ xs) d = ground (arith, contains-erase a x xs, erase-IsDistinct a xs d.1)

  pub length-insert :
      (new : A) (xs : List A)
      → length (insert new xs) ≡ (if contains new xs then length xs else length xs + 1)
  unfolding insert
  length-insert a xs = ground arith

  pub length-erase-le : (a : A) (xs : List A) → length (erase a xs) ≤ length xs
  unfolding erase
  length-erase-le a [] = omega arith
  length-erase-le a (x ∷ xs) = ground (arith, length-erase-le a xs)

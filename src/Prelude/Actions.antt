-- ===== src/Prelude/Actions.antt =====
-- Code that changes a state and may stop with an error: the state comes back in either case.
use mathlib.Core.Bool.{Bool, true, false}
use mathlib.Core.Path.{◌≡◌, ap}
use rust_api_boilerplate.Prelude.Results.{Result, ok, err}
use rust_api_boilerplate.Prelude.Tests.{if◌then◌else◌}

abbrev pub Action : Type 0 → Type 0 → Type 0 → Type 0
Action S E A = S → Result E A × S

module _ {S E : Type 0} where
  abbrev pub pure : {A : Type 0} → A → Action S E A
  pure a s = (ok a, s)

  abbrev pub fails : {A : Type 0} → E → Action S E A
  fails e s = (err e, s)

  infixl 5 ◌>=>◌ ◌>>◌
  abbrev pub ◌>=>◌ : {A B : Type 0} → Action S E A → (A → Action S E B) → Action S E B
  ◌>=>◌ m f s = let (r, s') = m s in elim r [ ok a ↦ f a s' | err e ↦ (err e, s') ]

  abbrev pub ◌>>◌ : {B : Type 0} → Action S E Unit → Action S E B → Action S E B
  ◌>>◌ m k s = let (r, s') = m s in elim r [ ok a ↦ k s' | err e ↦ (err e, s') ]

  -- `if test { action }`
  abbrev pub when : Bool → Action S E Unit → Action S E Unit
  when b m s = if b then m s else (ok tt, s)

  -- The action comes to its end, and this holds then.
  abbrev pub Succeeds : (S → Type 0) → Result E Unit × S → Type 0
  Succeeds Q (ok u, s) = Q s
  Succeeds Q (err e, s) = ⊥

  -- What holds before holds after, whether the action stops or not.
  abbrev pub Keeps : (S → Type 0) → Action S E Unit → Type 0
  Keeps P m = (s : S) → P s → P (m s).1

  pub ok->> :
      {B : Type 0} (m : Action S E Unit) (k : Action S E B) (s t : S)
      → m s ≡ (ok tt, t)
      → (m >> k) s ≡ k t
  ok->> m k s t h =
      ap (λ (r : Result E Unit × S). elim r.0 [ ok a ↦ k r.1 | err e ↦ (err e, r.1) ]) h

  pub err->> :
      {B : Type 0} (m : Action S E Unit) (k : Action S E B) (s t : S) (e : E)
      → m s ≡ (err e, t)
      → (m >> k) s ≡ (err e, t)
  err->> m k s t e h =
      ap (λ (r : Result E Unit × S). elim r.0 [ ok a ↦ k r.1 | err e ↦ (err e, r.1) ]) h

  pub Succeeds->> :
      (Q R : S → Type 0) (m k : Action S E Unit) (s : S)
      → Succeeds Q (m s)
      → ((s' : S) → Q s' → Succeeds R (k s'))
      → Succeeds R ((m >> k) s)
  Succeeds->> Q R m k s q f = known (m s) q
    where
      known :
          (r : Result E Unit × S)
          → Succeeds Q r
          → Succeeds R (elim r.0 [ ok a ↦ k r.1 | err e ↦ (err e, r.1) ])
      known (ok u, t) q = f t q
      known (err e, t) q = elim q [ ]

  pub Succeeds-and :
      (Q P : S → Type 0) (r : Result E Unit × S)
      → Succeeds Q r
      → P r.1
      → Succeeds (λ s. P s × Q s) r
  Succeeds-and Q P (ok u, s) q p = (p, q)
  Succeeds-and Q P (err e, s) q p = elim q [ ]

  pub Succeeds-map :
      (Q R : S → Type 0) (r : Result E Unit × S) → Succeeds Q r → (Q r.1 → R r.1) → Succeeds R r
  Succeeds-map Q R (ok u, s) q f = f q
  Succeeds-map Q R (err e, s) q f = elim q [ ]

  -- What the first action brings about and the second keeps.
  pub After->> :
      (P : S → Type 0) (m k : Action S E Unit) (s : S) → P (m s).1 → Keeps P k → P ((m >> k) s).1
  After->> P m k s p b = known (m s) p
    where
      known :
          (r : Result E Unit × S)
          → P r.1
          → P (elim r.0 as (λ x. Result E Unit × S) [ ok a ↦ k r.1 | err e ↦ (err e, r.1) ]).1
      known (ok u, t) p = b t p
      known (err e, t) p = p

  pub Keeps->> : (P : S → Type 0) (m k : Action S E Unit) → Keeps P m → Keeps P k → Keeps P (m >> k)
  Keeps->> P m k a b s p = After->> P m k s (a s p) b

  pub Keeps-when :
      (P : S → Type 0) (b : Bool) (m : Action S E Unit) → Keeps P m → Keeps P (when b m)
  Keeps-when P true m a s p = a s p
  Keeps-when P false m a s p = p

  -- Both branches of a test.
  pub if-Keeps :
      (P : S → Type 0) (b : Bool) (x y : Result E Unit × S)
      → P x.1
      → P y.1
      → P (if b then x else y).1
  if-Keeps P true x y p q = p
  if-Keeps P false x y p q = q

-- ===== src/Users/Coherence.antt =====
-- What the cache of src/app/services/user_service.rs holds, against the table.
use rust_api_boilerplate.Prelude.{
  ℕ, ◌≡◌, Bool, true, false, Option, none, some, String, inl, inr, refl, sym, ap, subst, ◌∙◌,
  if◌then◌else◌, ◌==◌, nat_eq, text_eq, arith, eq_of_==, Option-cases,
}
use rust_api_boilerplate.Text.{strip_prefix, strip_prefix-append}
use rust_api_boilerplate.Users.User.{Model, response}
use rust_api_boilerplate.Users.Store.{Database, LocalCache, Codec, Kept, Rows, put}
use rust_api_boilerplate.Users.Service.{UserService, cache_key, remember, forget}

some_injective : {A : Type 0} {a b : A} → some a ≡ some b → a ≡ b
some_injective h = cc

same_row : (rows : Rows) (a b : ℕ) → (if a == b then rows a else rows b) ≡ rows b
same_row rows a b = ground (arith, nat_eq.beq_iff a b, ap rows {x = a} {y = b})

module _ (codec : Codec) where
  -- Two users have different keys.
  pub cache_key_injective : (a b : ℕ) → cache_key codec a ≡ cache_key codec b → a ≡ b
  unfolding cache_key
  cache_key_injective a b h =
      let shown : codec.show_uuid a ≡ codec.show_uuid b = some_injective (
        sym (strip_prefix-append "user:" (codec.show_uuid a))
        ∙ ap (strip_prefix "user:") h
        ∙ strip_prefix-append "user:" (codec.show_uuid b)) in
      some_injective (sym (codec.parse_show a) ∙ ap codec.parse_uuid shown ∙ codec.parse_show b)

  pub cache_key_eq : (a b : ℕ) → (cache_key codec a == cache_key codec b) ≡ (a == b)
  cache_key_eq a b = ground (
    arith,
    text_eq.beq_iff (cache_key codec a) (cache_key codec b),
    nat_eq.beq_iff a b,
    cache_key_injective a b,
    ap (cache_key codec) {x = a} {y = b},
  )

  -- An entry is the encoding of the row.
  abbrev pub Agrees : Option String → Option Model → Type 0
  Agrees none row = Unit
  Agrees (some text) none = ⊥
  Agrees (some text) (some m) = codec.from_json text ≡ some (response m)

  pub Kept-Agrees :
      (new old : Option String) (row : Option Model)
      → Kept new old
      → Agrees old row
      → Agrees new row
  Kept-Agrees new old row (inl h) a = subst (λ t. Agrees t row) (sym h) tt
  Kept-Agrees new old row (inr h) a = subst (λ t. Agrees t row) (sym h) a

  -- After a write of the entry and the row of one user.
  chosen-Agrees :
      (id j : ℕ) (new old : Option String) (row other : Option Model)
      → Agrees new row
      → Agrees old other
      → Agrees
          (if cache_key codec id == cache_key codec j then new else old)
          (if id == j then row else other)
  chosen-Agrees id j new old row other a b = rw (cache_key_eq id j) (choice (id == j))
    where
      choice : (t : Bool) → Agrees (if t then new else old) (if t then row else other)
      choice true = a
      choice false = b

  -- A key that has no row has no entry, so that the entry agrees with any new row.
  fresh-Agrees :
      (entry : Option String) (old new : Option Model) (t : Bool)
      → (t ≡ true → old ≡ none)
      → Agrees entry old
      → Agrees entry (if t then new else old)
  fresh-Agrees none old new t f a = tt
  fresh-Agrees (some text) old new true f a = absurd (subst (Agrees (some text)) (f refl) a)
  fresh-Agrees (some text) old new false f a = a

  module _ {D C : Type 0} (db : Database D) (cache : LocalCache C) where
    -- Every entry of the cache is the encoding of its user's row.
    abbrev pub IsCoherent : UserService D C → Type 0
    IsCoherent s = (j : ℕ) → Agrees (cache.entries s.cache (cache_key codec j)) (db.rows s.orm j)

    pub moved-IsCoherent :
        (s : UserService D C) (d : D)
        → db.rows d ≡ db.rows s.orm
        → IsCoherent s
        → IsCoherent (record s { orm = d })
    moved-IsCoherent s d h i j =
        subst (λ rows. Agrees (cache.entries s.cache (cache_key codec j)) (rows j)) (sym h) (i j)

    pub looked-IsCoherent :
        (s : UserService D C) (k : String)
        → IsCoherent s
        → IsCoherent (record s { cache = (cache.get k s.cache).1 })
    looked-IsCoherent s k i j =
        Kept-Agrees _ _ _ (cache.get_entries k (cache_key codec j) s.cache) (i j)

    pub remember-IsCoherent :
        (s : UserService D C) (id : ℕ) (m : Model)
        → db.rows s.orm id ≡ some m
        → IsCoherent s
        → IsCoherent (remember db cache codec id (response m) s)
    unfolding remember cache_key
    remember-IsCoherent s id m r i = elim (Option-cases (codec.to_json (response m))) [
      | inl e ↦ rw (e, remember) i
      | inr (json, e) ↦
          rw (e, remember)
            (λ j.
              Kept-Agrees _ _ _
                (cache.insert_entries (cache_key codec id) json (cache_key codec j) s.cache)
                (subst
                  (λ row.
                    Agrees
                      (if cache_key codec id == cache_key codec j
                        then some json
                        else cache.entries s.cache (cache_key codec j))
                      row)
                  (same_row (db.rows s.orm) id j)
                  (chosen-Agrees id j (some json) _ (db.rows s.orm id) _
                    (subst (Agrees (some json)) (sym r) (codec.from_to (response m) json e))
                    (i j))))
    ]

    -- After a change of one row, the invalidation of its entry makes the cache agree again.
    pub forget-IsCoherent :
        (s : UserService D C) (id : ℕ) (row : Option Model) (d : D)
        → db.rows d ≡ put id row (db.rows s.orm)
        → IsCoherent s
        → IsCoherent (forget db cache codec id (record s { orm = d }))
    unfolding forget
    forget-IsCoherent s id row d h i j =
        Kept-Agrees _ _ _
          (cache.invalidate_entries (cache_key codec id) (cache_key codec j) s.cache)
          (subst
            (λ rows.
              Agrees
                (if cache_key codec id == cache_key codec j
                  then none
                  else cache.entries s.cache (cache_key codec j))
                (rows j))
            (sym h) (chosen-Agrees id j none _ row _ tt (i j)))

    -- A row under a key that was free.
    pub added-IsCoherent :
        (s : UserService D C) (id : ℕ) (row : Option Model) (d : D)
        → db.rows s.orm id ≡ none
        → db.rows d ≡ put id row (db.rows s.orm)
        → IsCoherent s
        → IsCoherent (record s { orm = d })
    added-IsCoherent s id row d free h i j =
        let entry = cache.entries s.cache (cache_key codec j) in
        subst (λ rows. Agrees entry (rows j)) (sym h)
          (fresh-Agrees entry (db.rows s.orm j) row (id == j)
            (λ same. sym (ap (db.rows s.orm) (eq_of_== id j same)) ∙ free) (i j))

-- ===== src/Users/Refine.antt =====
-- The service of src/app/services/user_service.rs against a table without a cache.
use rust_api_boilerplate.Prelude.{
  ℕ, ◌≡◌, Bool, true, Option, none, some, List, String, Result, ok, err, inl, inr, refl, sym, ap,
  subst, ◌∙◌, is_empty, zero, suc, Bool-cases, Option-cases, Result-cases,
}
use rust_api_boilerplate.Errors.{AppError, not_found, orm_error}
use rust_api_boilerplate.Users.User.{
  Model, UserResponse, CreateUserDto, UpdateUserDto, response, validate_create, validate_update,
  new_row, renamed,
}
use rust_api_boilerplate.Users.Store.{
  Database, LocalCache, Codec, Rows, put, Found, Inserted, Updated, Deleted,
}
use rust_api_boilerplate.Users.Service.{
  UserService, and_then, cache_key, loaded, load, inserted, create, remember, forget, fill, fetch,
  served, find_by_id, written, write, update, deleted, delete,
}
use rust_api_boilerplate.Users.Table.{Reads, Changes, Deletes, Creates}
use rust_api_boilerplate.Users.Coherence.{
  Agrees, IsCoherent, moved-IsCoherent, looked-IsCoherent, Kept-Agrees, added-IsCoherent,
  remember-IsCoherent, forget-IsCoherent,
}

module _ {D : Type 0} (db : Database D) (codec : Codec) where
  abbrev Loaded : ℕ → Rows → Result AppError Model → Type 0
  Loaded id s (ok m) = (s id ≡ some m) × (m.id ≡ id)
  Loaded id s (err (not_found t)) = s id ≡ none
  Loaded id s (err (orm_error t)) = Unit
  Loaded id s (err e) = ⊥

  loaded-Loaded :
      (id : ℕ) (d : D) (r : Result String (Option Model))
      → Found r (db.rows d id)
      → Loaded id (db.rows d) (loaded codec id r)
  loaded-Loaded id d (err e) f = tt
  loaded-Loaded id d (ok none) f = sym f
  loaded-Loaded id d (ok (some m)) f = (sym f, db.rows_keyed id m d (sym f))

  load-Loaded :
      (id : ℕ) (d : D)
      → Loaded id (db.rows d) (load db codec id d).0 × (db.rows (load db codec id d).1 ≡ db.rows d)
  unfolding load
  load-Loaded id d =
      (loaded-Loaded id d (db.find_by_id id d).0 (db.find_by_id_row id d), db.find_by_id_rows id d)

  module _ {C : Type 0} (cache : LocalCache C) where
    -- What the table sees of a call, with a cache that agrees afterwards.
    abbrev pub Served :
        {A : Type 0}
        → (Rows → Result AppError A → Type 0)
        → Result AppError A × UserService D C
        → Type 0
    Served P r = P (db.rows r.1.orm) r.0 × IsCoherent codec db cache r.1

    pub orm-remember :
        (id : ℕ) (u : UserResponse) (s : UserService D C)
        → (remember db cache codec id u s).orm ≡ s.orm
    unfolding remember
    orm-remember id u s = elim (Option-cases (codec.to_json u)) [
      | inl e ↦ rw (e, remember) refl
      | inr (json, e) ↦ rw (e, remember) refl
    ]

    fill-Reads :
        (id : ℕ) (rows : Rows) (r : Result AppError Model) (s : UserService D C)
        → Loaded id rows r
        → db.rows s.orm ≡ rows
        → IsCoherent codec db cache s
        → Served (Reads id rows) (fill db cache codec id r s)
    unfolding fill
    fill-Reads id rows (ok m) s l e i = (
      (m, l.0, refl, ap db.rows (orm-remember id (response m) s) ∙ e),
      remember-IsCoherent codec db cache s id m (rw e l.0) i,
    )
    fill-Reads id rows (err (not_found t)) s l e i = ((l, e), i)
    fill-Reads id rows (err (orm_error t)) s l e i = (e, i)
    fill-Reads id rows (err x) s l e i = absurd l

    fetch-Reads :
        (id : ℕ) (s : UserService D C)
        → IsCoherent codec db cache s
        → Served (Reads id (db.rows s.orm)) (fetch db cache codec id s)
    unfolding fetch
    fetch-Reads id s i =
        let (l, e) = load-Loaded id s.orm in
        fill-Reads id (db.rows s.orm) (load db codec id s.orm).0
          (record s { orm = (load db codec id s.orm).1 }) l e
          (moved-IsCoherent codec db cache s (load db codec id s.orm).1 e i)

    served-Reads :
        (id : ℕ) (cached : Option String) (s : UserService D C)
        → Agrees codec cached (db.rows s.orm id)
        → IsCoherent codec db cache s
        → Served
            (Reads id (db.rows s.orm))
            (served db cache codec id (and_then cached codec.from_json) s)
    served-Reads id none s a i = fetch-Reads id s i
    served-Reads id (some text) s a i = elim (Option-cases (db.rows s.orm id)) [
      | inl e ↦ absurd (subst (Agrees codec (some text)) e a)
      | inr (m, e) ↦
          subst (λ o. Served (Reads id (db.rows s.orm)) (served db cache codec id o s))
            (sym (subst (Agrees codec (some text)) e a)) ((m, e, refl, refl), i)
    ]

    -- A look-up in the cache does not show: the answer is the row of the table.
    pub find_by_id-Reads :
        (id : ℕ) (s : UserService D C)
        → IsCoherent codec db cache s
        → Served (Reads id (db.rows s.orm)) (find_by_id db cache codec id s)
    unfolding find_by_id
    find_by_id-Reads id s i =
        let key = cache_key codec id in
        served-Reads id (cache.get key s.cache).0 (record s { cache = (cache.get key s.cache).1 })
          (Kept-Agrees codec _ _ _ (cache.get_entry key s.cache) (i id))
          (looked-IsCoherent codec db cache s key i)

    written-Changes :
        (change : Model → Model) (id : ℕ) (m : Model) (rows : Rows) (r : Result String Model)
        (s : UserService D C) (d : D)
        → rows id ≡ some m
        → (change m).id ≡ id
        → db.rows s.orm ≡ rows
        → Updated (change m) r (db.rows s.orm) (db.rows d)
        → IsCoherent codec db cache s
        → Served (Changes change true id rows) (written db cache codec id r (record s { orm = d }))
    unfolding forget
    written-Changes change id m rows (err e) s d l k h u i =
        ((refl, u ∙ h), moved-IsCoherent codec db cache s d u i)
    written-Changes change id m rows (ok back) s d l k h u i =
        let new : db.rows d ≡ put id (some (change m)) (db.rows s.orm) =
          subst (λ j. db.rows d ≡ put j (some (change m)) (db.rows s.orm)) k u.1 in
        (
          (
            m,
            refl,
            l,
            ap response u.0,
            subst (λ rows. db.rows d ≡ put id (some (change m)) rows) h new,
          ),
          forget-IsCoherent codec db cache s id (some (change m)) d new i,
        )

    deleted-Deletes :
        (id : ℕ) (r : Result String ℕ) (s : UserService D C) (d : D)
        → Deleted id r (db.rows s.orm) (db.rows d)
        → IsCoherent codec db cache s
        → Served (Deletes id (db.rows s.orm)) (deleted db cache codec id r (record s { orm = d }))
    unfolding forget
    deleted-Deletes id (err e) s d u i = (u, moved-IsCoherent codec db cache s d u i)
    deleted-Deletes id (ok zero) s d u i = (u, moved-IsCoherent codec db cache s d u.1 i)
    deleted-Deletes id (ok (suc n)) s d u i =
        (u, forget-IsCoherent codec db cache s id none d u.1 i)

    -- A deletion.
    pub delete-Deletes :
        (id : ℕ) (s : UserService D C)
        → IsCoherent codec db cache s
        → Served (Deletes id (db.rows s.orm)) (delete db cache codec id s)
    unfolding delete
    delete-Deletes id s i =
        deleted-Deletes id (db.delete_by_id id s.orm).0 s (db.delete_by_id id s.orm).1
          (db.delete_by_id_rows id s.orm) i

    write-Changes :
        (change : Model → Model) (id : ℕ) (rows : Rows) (r : Result AppError Model)
        (s : UserService D C)
        → ((m : Model) → (change m).id ≡ m.id)
        → Loaded id rows r
        → db.rows s.orm ≡ rows
        → IsCoherent codec db cache s
        → Served (Changes change true id rows) (write db cache codec change id r s)
    write-Changes change id rows (ok m) s k l h i =
        written-Changes change id m rows (db.update (change m) s.orm).0 s
          (db.update (change m) s.orm).1 l.0 (k m ∙ l.1) h (db.update_rows (change m) s.orm) i
    write-Changes change id rows (err (not_found t)) s k l h i = ((refl, l, h), i)
    write-Changes change id rows (err (orm_error t)) s k l h i = ((refl, h), i)
    write-Changes change id rows (err x) s k l h i = absurd l

    -- An update.
    pub update-Changes :
        (describe : List (String × String) → String) (now id : ℕ) (dto : UpdateUserDto)
        (s : UserService D C)
        → IsCoherent codec db cache s
        → Served
            (Changes (renamed now dto) (is_empty (validate_update dto)) id (db.rows s.orm))
            (update db cache codec describe now id dto s)
    unfolding update renamed
    update-Changes describe now id dto s i = elim (Bool-cases (is_empty (validate_update dto))) [
      | inl v ↦
          let (l, e) = load-Loaded id s.orm in
          rw v (
            write-Changes (renamed now dto) id (db.rows s.orm) (load db codec id s.orm).0
              (record s { orm = (load db codec id s.orm).1 }) (λ m. refl) l e
              (moved-IsCoherent codec db cache s (load db codec id s.orm).1 e i))
      | inr v ↦ rw v ((refl, refl), i)
    ]

    inserted-Creates :
        (id now : ℕ) (h : String) (dto : CreateUserDto) (r : Result String Model)
        (s : UserService D C) (d : D)
        → Inserted (new_row id now h dto) r (db.rows s.orm) (db.rows d)
        → IsCoherent codec db cache s
        → Served (Creates (ok h) true id now dto (db.rows s.orm)) (inserted r, record s { orm = d })
    unfolding new_row
    inserted-Creates id now h dto (err e) s d u i =
        ((refl, u), moved-IsCoherent codec db cache s d u i)
    inserted-Creates id now h dto (ok back) s d u i = (
      (h, refl, refl, u.1, ap response u.0, u.2),
      added-IsCoherent codec db cache s id (some (new_row id now h dto)) d u.1 u.2 i,
    )

    -- A creation.
    pub create-Creates :
        (is_email : String → Bool) (describe : List (String × String) → String) (id now : ℕ)
        (hash : Result String String) (dto : CreateUserDto) (s : UserService D C)
        → IsCoherent codec db cache s
        → Served
            (Creates hash (is_empty (validate_create is_email dto)) id now dto (db.rows s.orm))
            (let (r, d) = create db is_email describe id now hash dto s.orm in
              (r, record s { orm = d }))
    unfolding create
    create-Creates is_email describe id now hash dto s i =
        elim (Bool-cases (is_empty (validate_create is_email dto))) [
          | inr v ↦ rw v ((refl, refl), i)
          | inl v ↦ elim (Result-cases hash) [
            | inr (e, h) ↦ rw (v, h) ((refl, refl), i)
            | inl (p, h) ↦
                let m = new_row id now p dto in
                rw (v, h)
                  (inserted-Creates id now p dto (db.insert m s.orm).0 s (db.insert m s.orm).1
                    (db.insert_rows m s.orm) i)
          ]
        ]

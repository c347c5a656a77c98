-- ===== src/Users/Service.antt =====
-- src/app/services/user_service.rs: `UserService`, and `generate_token` of src/app/auth.rs.
--
-- The state is the database and the cache. `id` and `now` are a fresh id and the clock, `hash` the
-- password hash with a fresh salt. An operation gives its result and the state after it, and each
-- of its calls of the database may fail.
use Prim.Native.String.{◌++◌ as str_append}
use rust_api_boilerplate.Prelude.{
  ℕ, ◌+◌, ◌*◌, Bool, Option, none, some, List, String, Result, ok, err, ◌>>=◌, if◌then◌else◌, zero,
  suc, is_empty, map,
}
use rust_api_boilerplate.Config.{AuthConfig}
use rust_api_boilerplate.Errors.{AppError, not_found, orm_error, validation, unauthorized, internal}
use rust_api_boilerplate.Http.Auth.{Claims}
use rust_api_boilerplate.Http.Pagination.{PaginationParams, PaginatedResponse, offset, per_page}
use rust_api_boilerplate.Http.Pagination
use rust_api_boilerplate.Users.User.{
  Model, UserResponse, CreateUserDto, UpdateUserDto, LoginDto, LoginResponse, response,
  validate_create, validate_update, new_row, renamed,
}
use rust_api_boilerplate.Users.Store.{Database, LocalCache, Codec}

pub record UserService (D C : Type 0) : Type 0 where
  pub orm : D
  pub cache : C

abbrev pub and_then : {A B : Type 0} → Option A → (A → Option B) → Option B
and_then none f = none
and_then (some a) f = f a

-- What a missing user is answered with.
abbrev pub missing : Codec → ℕ → AppError
missing codec id = not_found (str_append "User " (str_append (codec.show_uuid id) " not found"))

unfoldable pub cache_key : Codec → ℕ → String
cache_key codec id = str_append "user:" (codec.show_uuid id)

-- `.await?.ok_or_else(..)?` on the answer to `Entity::find_by_id(id).one(orm)`.
abbrev pub loaded : Codec → ℕ → Result String (Option Model) → Result AppError Model
loaded codec id (err e) = err (orm_error e)
loaded codec id (ok none) = err (missing codec id)
loaded codec id (ok (some m)) = ok m

-- The answer of an insertion.
abbrev pub inserted : Result String Model → Result AppError UserResponse
inserted (err e) = err (orm_error e)
inserted (ok m) = ok (response m)

-- The checks of `login` on the row of the address.
abbrev pub checked :
    (String → String → Bool)
    → (Model → Result AppError String)
    → LoginDto
    → Result String (Option Model)
    → Result AppError LoginResponse
checked verify_password issue dto (err e) = err (orm_error e)
checked verify_password issue dto (ok none) = err (unauthorized "Invalid credentials")
checked verify_password issue dto (ok (some m)) =
    if verify_password dto.password m.password_hash
    then (do token ← issue m; ok (record { token = token; user = response m }))
    else err (unauthorized "Invalid credentials")

module _ {D : Type 0} (db : Database D) where
  unfoldable pub load : Codec → ℕ → D → Result AppError Model × D
  load codec id d = let (r, d') = db.find_by_id id d in (loaded codec id r, d')

  -- `count` and `page` are the two queries, each with its answer; the offset and the limit go to
  -- the second.
  unfoldable pub find_all :
      (D → Result String ℕ × D)
      → (ℕ → ℕ → D → Result String (List Model) × D)
      → PaginationParams
      → D
      → Result AppError (PaginatedResponse UserResponse) × D
  find_all count page params d =
      let (total, d') = count d in
      elim total [
        | err e ↦ (err (orm_error e), d')
        | ok n ↦
            let (users, d'') = page (offset params) (per_page params) d' in
            elim users [
              | err e ↦ (err (orm_error e), d'')
              | ok rows ↦ (ok (Pagination.new (map response rows) n params), d'')
            ]
      ]

  unfoldable pub create :
      (String → Bool)
      → (List (String × String) → String)
      → ℕ
      → ℕ
      → Result String String
      → CreateUserDto
      → D
      → Result AppError UserResponse × D
  create is_email describe id now hash dto d =
      if is_empty (validate_create is_email dto)
      then elim hash [
        | err e ↦ (err (internal e), d)
        | ok password_hash ↦
            let (r, d') = db.insert (new_row id now password_hash dto) d in (inserted r, d')
      ]
      else (err (validation (describe (validate_create is_email dto))), d)

  -- `issue` is `generate_token`, up to the configuration.
  unfoldable pub login :
      (String → String → Bool)
      → (Model → Result AppError String)
      → LoginDto
      → D
      → Result AppError LoginResponse × D
  login verify_password issue dto d =
      let (r, d') = db.find_by_email dto.email d in (checked verify_password issue dto r, d')

  module _ {C : Type 0} (cache : LocalCache C) (codec : Codec) where
    unfoldable pub remember : ℕ → UserResponse → UserService D C → UserService D C
    unfolding cache_key
    remember id u s = elim (codec.to_json u) [
      | none ↦ s
      | some json ↦ record s { cache = cache.insert (cache_key codec id) json s.cache }
    ]

    unfoldable pub forget : ℕ → UserService D C → UserService D C
    unfolding cache_key
    forget id s = record s { cache = cache.invalidate (cache_key codec id) s.cache }

    -- The end of `find_by_id`, once the database has answered.
    unfoldable pub fill :
        ℕ → Result AppError Model → UserService D C → Result AppError UserResponse × UserService D C
    fill id (err e) s = (err e, s)
    fill id (ok m) s = (ok (response m), remember id (response m) s)

    unfoldable pub fetch : ℕ → UserService D C → Result AppError UserResponse × UserService D C
    fetch id s = let (r, orm') = load codec id s.orm in fill id r (record s { orm = orm' })

    -- `find_by_id` after its look at the cache.
    abbrev pub served :
        ℕ → Option UserResponse → UserService D C → Result AppError UserResponse × UserService D C
    served id (some u) s = (ok u, s)
    served id none s = fetch id s

    unfoldable pub find_by_id : ℕ → UserService D C → Result AppError UserResponse × UserService D C
    unfolding cache_key
    find_by_id id s =
        let (cached, cache') = cache.get (cache_key codec id) s.cache in
        served id (and_then cached codec.from_json) (record s { cache = cache' })

    -- The invalidation of `update`, if the write succeeds.
    abbrev pub written :
        ℕ → Result String Model → UserService D C → Result AppError UserResponse × UserService D C
    written id (err e) s = (err (orm_error e), s)
    written id (ok m) s = (ok (response m), forget id s)

    -- `update` once its row is loaded.
    abbrev pub write :
        (Model → Model)
        → ℕ
        → Result AppError Model
        → UserService D C
        → Result AppError UserResponse × UserService D C
    write change id (err e) s = (err e, s)
    write change id (ok m) s =
        let (r, orm') = db.update (change m) s.orm in written id r (record s { orm = orm' })

    unfoldable pub update :
        (List (String × String) → String)
        → ℕ
        → ℕ
        → UpdateUserDto
        → UserService D C
        → Result AppError UserResponse × UserService D C
    update describe now id dto s =
        if is_empty (validate_update dto)
        then (let (r, orm') = load codec id s.orm in
            write (renamed now dto) id r (record s { orm = orm' }))
        else (err (validation (describe (validate_update dto))), s)

    -- `delete` on the number of the rows that are deleted.
    abbrev pub deleted :
        ℕ → Result String ℕ → UserService D C → Result AppError Unit × UserService D C
    deleted id (err e) s = (err (orm_error e), s)
    deleted id (ok zero) s = (err (missing codec id), s)
    deleted id (ok (suc n)) s = (ok tt, forget id s)

    unfoldable pub delete : ℕ → UserService D C → Result AppError Unit × UserService D C
    delete id s = let (r, orm') = db.delete_by_id id s.orm in deleted id r (record s { orm = orm' })

-- `encode` is the crate jsonwebtoken's with the secret; `now` is the clock.
unfoldable pub generate_token :
    (String → Claims → Result String String)
    → Codec
    → AuthConfig
    → ℕ
    → ℕ
    → String
    → Result AppError String
generate_token encode codec cfg now user_id email =
    let claims : Claims = record {
      sub = codec.show_uuid user_id;
      email = email;
      exp = now + cfg.jwt_expiry_hours * 3600;
    } in
    elim (encode cfg.jwt_secret claims) [
      | err e ↦ err (internal (str_append "Token generation failed: " e))
      | ok token ↦ ok token
    ]

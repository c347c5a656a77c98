-- ===== src/Users/Table.antt =====
-- What the calls of src/app/services/user_service.rs mean for the table alone, with no cache: for
-- each answer, the table before and after the call.
use rust_api_boilerplate.Prelude.{
  ℕ, ◌≡◌, ◌≢◌, Bool, true, false, none, some, String, Result, ok, err,
}
use rust_api_boilerplate.Errors.{AppError, not_found, orm_error, validation, internal}
use rust_api_boilerplate.Users.User.{Model, UserResponse, CreateUserDto, response, new_row}
use rust_api_boilerplate.Users.Store.{Rows, put}

-- A read.
abbrev pub Reads : ℕ → Rows → Rows → Result AppError UserResponse → Type 0
Reads id s s' (ok u) = (m : Model) × (s id ≡ some m) × (u ≡ response m) × (s' ≡ s)
Reads id s s' (err (not_found t)) = (s id ≡ none) × (s' ≡ s)
Reads id s s' (err (orm_error t)) = s' ≡ s
Reads id s s' (err e) = ⊥

-- A change of a row that is there; a table that is not changed has an error.
abbrev pub Changes :
    (Model → Model) → Bool → ℕ → Rows → Rows → Result AppError UserResponse → Type 0
Changes change valid id s s' (ok u) =
    (m : Model) × (valid ≡ true)
    × (s id ≡ some m)
    × (u ≡ response (change m))
    × (s' ≡ put id (some (change m)) s)
Changes change valid id s s' (err (not_found t)) = (valid ≡ true) × (s id ≡ none) × (s' ≡ s)
Changes change valid id s s' (err (orm_error t)) = (valid ≡ true) × (s' ≡ s)
Changes change valid id s s' (err (validation t)) = (valid ≡ false) × (s' ≡ s)
Changes change valid id s s' (err e) = ⊥

abbrev pub Deletes : ℕ → Rows → Rows → Result AppError Unit → Type 0
Deletes id s s' (ok u) = (s id ≢ none) × (s' ≡ put id none s)
Deletes id s s' (err (not_found t)) = (s id ≡ none) × (s' ≡ s)
Deletes id s s' (err (orm_error t)) = s' ≡ s
Deletes id s s' (err e) = ⊥

-- A new row, under a key that was free.
abbrev pub Creates :
    Result String String
    → Bool
    → ℕ
    → ℕ
    → CreateUserDto
    → Rows
    → Rows
    → Result AppError UserResponse
    → Type 0
Creates hash valid id now dto s s' (ok u) =
    (h : String) × (valid ≡ true)
    × (hash ≡ ok h)
    × (s id ≡ none)
    × (u ≡ response (new_row id now h dto))
    × (s' ≡ put id (some (new_row id now h dto)) s)
Creates hash valid id now dto s s' (err (orm_error t)) = (valid ≡ true) × (s' ≡ s)
Creates hash valid id now dto s s' (err (internal t)) = (hash ≡ err t) × (s' ≡ s)
Creates hash valid id now dto s s' (err (validation t)) = (valid ≡ false) × (s' ≡ s)
Creates hash valid id now dto s s' (err e) = ⊥

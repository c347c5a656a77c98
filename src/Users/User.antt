-- ===== src/Users/User.antt =====
-- src/app/entities/user.rs and the data of src/app/services/user_service.rs.
--
-- An id is a number and a moment is a number of seconds. The crate validator says what is an
-- address; it counts the characters of a text.
use Prim.Native.String.{count}
use rust_api_boilerplate.Prelude.{
  ℕ, Bool, ◌&&◌, Option, none, some, List, [], ◌∷◌, ◌++◌, String, if◌then◌else◌, leb, unwrap_or,
}

-- A row of the table `users`.
pub record Model : Type 0 where
  pub id : ℕ
  pub email : String
  pub name : String
  pub password_hash : String
  pub created_at : ℕ
  pub updated_at : ℕ

pub record UserResponse : Type 0 where
  pub id : ℕ
  pub email : String
  pub name : String
  pub created_at : ℕ
  pub updated_at : ℕ

pub record CreateUserDto : Type 0 where
  pub email : String
  pub name : String
  pub password : String

pub record UpdateUserDto : Type 0 where
  pub name : Option String

pub record LoginDto : Type 0 where
  pub email : String
  pub password : String

pub record LoginResponse : Type 0 where
  pub token : String
  pub user : UserResponse

unfoldable pub response : Model → UserResponse
response m = record {
  id = m.id;
  email = m.email;
  name = m.name;
  created_at = m.created_at;
  updated_at = m.updated_at;
}

abbrev is_name : String → Bool
is_name s = leb 2 (count s) && leb (count s) 100

-- A complaint about a field, where its test fails.
abbrev unless : Bool → String → String → List (String × String)
unless test field message = if test then [] else (field, message) ∷ []

-- What the derived `validate` complains about; it passes where the list is empty.
unfoldable pub validate_create : (String → Bool) → CreateUserDto → List (String × String)
validate_create is_email dto =
    unless (is_email dto.email) "email" "must be a valid email address"
    ++ (unless (is_name dto.name) "name" "must be between 2 and 100 characters"
        ++ unless (leb 8 (count dto.password)) "password" "must be at least 8 characters")

unfoldable pub validate_update : UpdateUserDto → List (String × String)
validate_update dto = elim dto.name [
  | none ↦ []
  | some name ↦ unless (is_name name) "name" "must be between 2 and 100 characters"
]

-- The row that `create` inserts; `id` is what `Uuid::new_v4()` gives.
unfoldable pub new_row : ℕ → ℕ → String → CreateUserDto → Model
new_row id now password_hash dto = record {
  id = id;
  email = dto.email;
  name = dto.name;
  password_hash = password_hash;
  created_at = now;
  updated_at = now;
}

-- The row that `update` writes.
unfoldable pub renamed : ℕ → UpdateUserDto → Model → Model
renamed now dto m = record m { name = unwrap_or dto.name m.name; updated_at = now }

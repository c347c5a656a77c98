-- ===== src/Users/Handlers.antt =====
-- src/app/http/handlers/user.rs: the endpoints of the users.
--
-- The state is the service's and the hub. What `create_user` hands to the hub, which only logs a
-- failure, stands beside the answer. `to_value` is `serde_json::json!` with the event's name.
use rust_api_boilerplate.Prelude.{ℕ, Bool, Option, none, some, List, String, Result, ok, err}
use rust_api_boilerplate.Errors.{AppError, status_code}
use rust_api_boilerplate.Http.Auth.{Header, Claims, AuthUser, from_request}
use rust_api_boilerplate.Http.Pagination.{PaginationParams, PaginatedResponse}
use rust_api_boilerplate.Ws.Message.{Uuid, Frame, ServerMessage}
use rust_api_boilerplate.Ws.Hub.{WsHub}
use rust_api_boilerplate.Ws.Publish.{TrySend, Published, publish}
use rust_api_boilerplate.Users.User.{
  Model, UserResponse, CreateUserDto, UpdateUserDto, LoginDto, LoginResponse,
}
use rust_api_boilerplate.Users.Store.{Database, LocalCache, Codec}
use rust_api_boilerplate.Users.Service.{
  UserService, find_all, find_by_id, create, update, delete, login,
}

pub data Body : Type 0 where
  no_body : Body
  users_body : PaginatedResponse UserResponse → Body
  user_body : UserResponse → Body
  login_body : LoginResponse → Body

pub record HttpResponse : Type 0 where
  pub status : ℕ
  pub body : Body

-- The status that a client sees.
abbrev pub answer_status : Result AppError HttpResponse → ℕ
answer_status (ok r) = r.status
answer_status (err e) = status_code e

pub record AppState (D C : Type 0) : Type 0 where
  pub users : UserService D C
  pub ws : WsHub

-- What `create_user` leaves; `published` is what the hub did.
pub record Created (D C Value : Type 0) : Type 0 where
  pub answer : Result AppError HttpResponse
  pub state : AppState D C
  pub published : Option (Published Value)

-- `?` on the answer of the service, and the response.
abbrev pub respond :
    {A : Type 0} → ℕ → (A → Body) → Result AppError A → Result AppError HttpResponse
respond status body (err e) = err e
respond status body (ok a) = ok (record { status = status; body = body a })

module _ {D : Type 0} (db : Database D) {C : Type 0} where
  abbrev pub with_orm : D → AppState D C → AppState D C
  with_orm d s = record s { users = record s.users { orm = d } }

  unfoldable pub list_users :
      (D → Result String ℕ × D)
      → (ℕ → ℕ → D → Result String (List Model) × D)
      → PaginationParams
      → AppState D C
      → Result AppError HttpResponse × AppState D C
  list_users count page params s =
      let (r, d) = find_all db count page params s.users.orm in
      (respond 200 users_body r, with_orm d s)

  unfoldable pub login_user :
      (String → String → Bool)
      → (Model → Result AppError String)
      → LoginDto
      → AppState D C
      → Result AppError HttpResponse × AppState D C
  login_user verify_password issue dto s =
      let (r, d) = login db verify_password issue dto s.users.orm in
      (respond 200 login_body r, with_orm d s)

  module _ (cache : LocalCache C) (codec : Codec) where
    unfoldable pub get_user : ℕ → AppState D C → Result AppError HttpResponse × AppState D C
    get_user id s =
        let (r, u) = find_by_id db cache codec id s.users in
        (respond 200 user_body r, record s { users = u })

    unfoldable pub update_user :
        (List (String × String) → String)
        → ℕ
        → ℕ
        → UpdateUserDto
        → AppState D C
        → Result AppError HttpResponse × AppState D C
    update_user describe now id dto s =
        let (r, u) = update db cache codec describe now id dto s.users in
        (respond 200 user_body r, record s { users = u })

    -- The body of `delete_user`, once the extractor has given the user or its error.
    abbrev pub delete_by :
        Result AppError AuthUser → ℕ → AppState D C → Result AppError HttpResponse × AppState D C
    delete_by (err e) id s = (err e, s)
    delete_by (ok auth) id s =
        let (r, u) = delete db cache codec id s.users in
        (respond 204 (λ x. no_body) r, record s { users = u })

    unfoldable pub delete_user :
        (String → Option Claims)
        → Header
        → ℕ
        → AppState D C
        → Result AppError HttpResponse × AppState D C
    delete_user decode header id = delete_by (from_request decode codec.parse_uuid header) id

  module _ {Value : Type 0} (encode : ServerMessage Value → Option Frame) (outcome : Uuid → TrySend)
      (room : Bool) (to_value : UserResponse → Option Value) where
    abbrev pub announce : Result AppError UserResponse → AppState D C → Created D C Value
    announce (err e) s = record { answer = err e; state = s; published = none }
    announce (ok u) s =
        let p = publish encode outcome room "users" (to_value u) s.ws in
        record {
          answer = ok (record { status = 201; body = user_body u });
          state = record s { ws = p.hub };
          published = some p;
        }

    unfoldable pub create_user :
        (String → Bool)
        → (List (String × String) → String)
        → ℕ
        → ℕ
        → Result String String
        → CreateUserDto
        → AppState D C
        → Created D C Value
    create_user is_email describe id now hash dto s =
        let (r, d) = create db is_email describe id now hash dto s.users.orm in
        announce r (with_orm d s)

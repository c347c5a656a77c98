-- ===== src/Http/Auth.antt =====
-- src/app/http/middleware/auth.rs and src/app/http/handlers/ws.rs: who makes a request.
--
-- A header is absent, or present and a text or not. `decode` is the crate jsonwebtoken's with the
-- configured key, `parse_uuid` the crate uuid's.
use rust_api_boilerplate.Prelude.{
  ℕ, ◌&&◌, Option, none, some, String, Result, ok, err, ◌>>=◌, ok_or, if◌then◌else◌, not, is_some,
}
use rust_api_boilerplate.Text.{strip_prefix}
use rust_api_boilerplate.Config.{WebSocketConfig}
use rust_api_boilerplate.Errors.{AppError, unauthorized}

pub record Claims : Type 0 where
  pub sub : String
  pub email : String
  pub exp : ℕ

pub record AuthUser : Type 0 where
  pub user_id : ℕ
  pub email : String

pub data Header : Type 0 where
  absent : Header
  opaque : Header
  readable : String → Header

abbrev pub header_token : Header → Option String
header_token absent = none
header_token opaque = none
header_token (readable s) = strip_prefix "Bearer " s

-- The token of the handshake.
unfoldable pub token_of : WebSocketConfig → Header → Option String → Option String
token_of config header query = elim (header_token header) [
  | some token ↦ some token
  | none ↦ if config.allow_query_token then query else none
]

module _ (decode : String → Option Claims) (parse_uuid : String → Option ℕ) where
  unfoldable pub verify_token : String → Result AppError Claims
  verify_token token = ok_or (decode token) (unauthorized "Invalid or expired token")

  -- `Uuid::parse_str` on the subject, and the user.
  unfoldable pub user_of : Claims → Result AppError AuthUser
  user_of c = do
    id ← ok_or (parse_uuid c.sub) (unauthorized "Invalid token subject")
    ok (record { user_id = id; email = c.email })

  unfoldable pub from_request : Header → Result AppError AuthUser
  unfolding verify_token user_of
  from_request absent = err (unauthorized "Missing Authorization header")
  from_request opaque = err (unauthorized "Malformed Authorization header")
  from_request (readable s) = elim (strip_prefix "Bearer " s) [
    | none ↦ err (unauthorized "Authorization header must start with 'Bearer '")
    | some token ↦ do claims ← verify_token token; user_of claims
  ]

  unfoldable pub resolve_identity :
      WebSocketConfig → Header → Option String → Result AppError (Option AuthUser)
  unfolding verify_token user_of
  resolve_identity config header query = elim (token_of config header query) [
    | none ↦ ok none
    | some token ↦ do claims ← verify_token token; user ← user_of claims; ok (some user)
  ]

  -- `ws_connect` up to the upgrade: the user of the connection, if there is one.
  unfoldable pub ws_connect :
      WebSocketConfig → Header → Option String → Result AppError (Option AuthUser)
  unfolding resolve_identity
  ws_connect config header query = do
    identity ← resolve_identity config header query
    (if config.require_auth && not (is_some identity)
        then err (unauthorized "Authentication required for websocket connections")
        else ok identity)

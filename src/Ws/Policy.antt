-- ===== src/Ws/Policy.antt =====
-- src/infra/ws/policy.rs (the interface) and src/app/ws/policy.rs (the application's policy).
--
-- The uuid crate's `parse_str` and `to_string` are arguments; that a printed id is parsed back to
-- itself is a hypothesis where it is used.
pub mod Access
use Prim.Native.String.{◌++◌}
use rust_api_boilerplate.Prelude.{
  ℕ, Bool, true, false, Option, none, some, String, Result, ok, err, if◌then◌else◌, is_some, ◌==◌,
  nat_eq, nat_beq, ◌≡◌, refl,
}
use rust_api_boilerplate.Text.{strip_prefix, starts_with, is_empty}
use rust_api_boilerplate.Ws.Message.{Uuid}
use rust_api_boilerplate.Ws.Hub.{WsHub, subscribe}
use rust_api_boilerplate.Ws.Hub.Mirror.{after_subscribe}

-- The hub that the source's `WsContext` points to is passed beside it.
pub record WsContext : Type 0 where
  pub connection_id : Uuid
  pub user_id : Option Uuid
  pub email : Option String

unfoldable pub is_authenticated : WsContext → Bool
is_authenticated ctx = is_some ctx.user_id

-- A rejection is its reason.
abbrev pub Decision : Type 0
Decision = Result String (Unit {0})

-- The trait `WsPolicy`, with the hub that a callback leaves.
pub record WsPolicy (Value : Type 0) : Type 0 where
  pub on_connect : WsContext → WsHub → WsHub × Decision
  pub authorize_subscribe : WsContext → String → Decision
  pub authorize_publish : WsContext → String → Value → Decision
  pub on_disconnect : WsContext → WsHub → WsHub

-- `PUBLIC_PREFIX` and `USER_PREFIX`.
abbrev pub public_prefix : String
public_prefix = "public."

abbrev pub user_prefix : String
user_prefix = "user."

-- The arms of `match Uuid::parse_str(raw_id)`.
unfoldable pub own_topic : Uuid → Option Uuid → Decision
own_topic user_id none = err "Malformed user topic"
own_topic user_id (some id) =
    if nat_beq id user_id then ok tt else err "Cannot subscribe to another user's topic"

module _ (parse_str : String → Option Uuid) where
  unfoldable pub authorize_user_topic : Option Uuid → String → Decision
  unfolding own_topic
  authorize_user_topic none raw_id = err "Authentication required for user topics"
  authorize_user_topic (some user_id) raw_id = own_topic user_id (parse_str raw_id)

  unfoldable pub authorize_subscribe : WsContext → String → Decision
  unfolding is_authenticated
  authorize_subscribe ctx topic =
      if is_empty topic
      then err "Topic must not be empty"
      else if starts_with public_prefix topic
      then ok tt
      else elim (strip_prefix user_prefix topic) [
        | some raw_id ↦ authorize_user_topic ctx.user_id raw_id
        | none ↦
            if is_authenticated ctx
            then ok tt
            else err ("Authentication required to subscribe to '" ++ topic ++ "'")
      ]

abbrev pub authorize_publish : {Value : Type 0} → WsContext → String → Value → Decision
authorize_publish ctx topic payload = err "Clients may not publish on this server"

module _ (to_string : Uuid → String) where
  -- A failed subscription is only logged.
  unfoldable pub on_connect : WsContext → WsHub → WsHub × Decision
  on_connect ctx h = elim ctx.user_id [
    | none ↦ (h, ok tt)
    | some user_id ↦ (
      after_subscribe h (subscribe ctx.connection_id (user_prefix ++ to_string user_id) h),
      ok tt,
    )
  ]

abbrev pub on_disconnect : WsContext → WsHub → WsHub
on_disconnect ctx h = h

-- `AppWsPolicy`
abbrev pub app_ws_policy :
    {Value : Type 0} → (String → Option Uuid) → (Uuid → String) → WsPolicy Value
app_ws_policy parse_str to_string = record {
  on_connect = on_connect to_string;
  authorize_subscribe = authorize_subscribe parse_str;
  authorize_publish = authorize_publish;
  on_disconnect = on_disconnect;
}

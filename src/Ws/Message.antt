-- ===== src/Ws/Message.antt =====
-- src/infra/ws/message.rs, src/infra/ws/error.rs and the frame types of src/infra/ws/cluster.rs.
-- A JSON payload is of any type `Value`; a `Uuid` is a number and an encoded frame a text.
use rust_api_boilerplate.Prelude.{ℕ, Option, String}

abbrev pub Uuid : Type 0
Uuid = ℕ

-- `ByteString`
abbrev pub Frame : Type 0
Frame = String

pub data WsError : Type 0 where
  serialization : WsError
  connection_limit topic_limit : ℕ → WsError
  unknown_connection : WsError

pub data ClientMessage (Value : Type 0) : Type 0 where
  subscribe unsubscribe : String → ClientMessage Value
  publish : String → Value → ClientMessage Value
  ping : ClientMessage Value

-- The module `error_code`.
pub data ErrorCode : Type 0 where
  bad_request forbidden limit_exceeded internal : ErrorCode

pub data ServerMessage (Value : Type 0) : Type 0 where
  welcome : Uuid → Option Uuid → ℕ → ServerMessage Value
  subscribed unsubscribed : String → ServerMessage Value
  event : String → Value → ServerMessage Value
  pong : ServerMessage Value
  error : ErrorCode → String → ServerMessage Value

pub data ClusterScope : Type 0 where
  topic : ClusterScope
  user : Uuid → ClusterScope
  all : ClusterScope

pub record ClusterFrame (Value : Type 0) : Type 0 where
  pub node : Uuid
  pub scope : ClusterScope
  pub topic : String
  pub payload : Value

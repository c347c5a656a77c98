-- ===== src/Users/Requests.antt =====
-- The theorems on the endpoints of the users, over the table and the cache of Memory.
use rust_api_boilerplate.Prelude.{
  ℕ, Bool, true, Option, some, List, [], ◌∷◌, String, ok, is_empty, nat_eq,
}
use rust_api_boilerplate.Config.{default_websocket}
use rust_api_boilerplate.Map
use rust_api_boilerplate.Map.{Map}
use rust_api_boilerplate.Http.Auth.{Claims, readable, from_request}
use rust_api_boilerplate.Ws.Message.{Uuid, Frame, ServerMessage}
use rust_api_boilerplate.Ws.Hub.{new}
use rust_api_boilerplate.Ws.Hub.Mirror.{new-IsIndexed}
use rust_api_boilerplate.Ws.Publish.{TrySend, sent}
use rust_api_boilerplate.Users.User.{Model, UserResponse, CreateUserDto, validate_create}
use rust_api_boilerplate.Users.Memory.{Table, saved, table, memory, codec_of}
use rust_api_boilerplate.Users.Table.{Creates, Deletes}
use rust_api_boilerplate.Users.Coherence.{IsCoherent}
use rust_api_boilerplate.Users.Handlers.{AppState, create_user, delete_user}
use rust_api_boilerplate.Users.Endpoints.{
  IsPublished, frame_of, Announced, create_user-Announced, Guarded, delete_user-Guarded,
}

abbrev ada : Model
ada = record {
  id = 3;
  email = "ada@example.com";
  name = "Ada";
  password_hash = "secret1815";
  created_at = 10;
  updated_at = 10;
}

abbrev ada_seen : UserResponse
ada_seen = record {
  id = 3;
  email = "ada@example.com";
  name = "Ada";
  created_at = 10;
  updated_at = 10;
}

abbrev state : AppState Table (Map String String)
state = record {
  users = record { orm = saved ada ∷ []; cache = [] };
  ws = new default_websocket true 100;
}

state-IsCoherent : IsCoherent (codec_of ada_seen) table memory state.users
unfolding Map.get
state-IsCoherent j = tt

abbrev to_json : ServerMessage ℕ → Option Frame
to_json message = some "frame"

abbrev room : Uuid → TrySend
room id = sent

abbrev value : UserResponse → Option ℕ
value u = some u.id

abbrev is_email : String → Bool
is_email s = true

abbrev describe : List (String × String) → String
describe l = "invalid"

abbrev bob : CreateUserDto
bob = record { email = "bob@example.com"; name = "Bob"; password = "password" }

create_user-Announced_example :
    Announced table memory
      (codec_of ada_seen)
      (λ r rows.
        Creates
          (ok "hash")
          (is_empty (validate_create is_email bob))
          4
          30
          bob
          (table.rows state.users.orm)
          rows
          r)
      (λ u. IsPublished to_json room true "users" (frame_of to_json room true "users" (value u)))
      state.ws
      (create_user table to_json room true value is_email describe 4 30
        (ok "hash")
        bob
        state).published
      (create_user table to_json room true value is_email describe 4 30
        (ok "hash")
        bob
        state).answer
      (create_user table to_json room true value is_email describe 4 30 (ok "hash") bob state).state
create_user-Announced_example =
    create_user-Announced table memory (codec_of ada_seen) to_json room true value is_email describe
      4 30 (ok "hash") bob state state-IsCoherent (new-IsIndexed default_websocket true 100)

abbrev decode : String → Option Claims
decode token = some (record { sub = "iii"; email = "ada@example.com"; exp = 3700 })

delete_user-Guarded_example :
    Guarded table memory
      (codec_of ada_seen)
      (λ k. Deletes k)
      (from_request decode (codec_of ada_seen).parse_uuid (readable "Bearer token"))
      3
      state
      (delete_user table memory (codec_of ada_seen) decode (readable "Bearer token") 3 state)
delete_user-Guarded_example =
    delete_user-Guarded table memory (codec_of ada_seen) decode (readable "Bearer token") 3 state
      state-IsCoherent

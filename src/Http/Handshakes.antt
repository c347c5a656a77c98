-- ===== src/Http/Handshakes.antt =====
-- The theorems on identity at a handshake whose token is of user 7.
use rust_api_boilerplate.Prelude.{ℕ, Option, some, String}
use rust_api_boilerplate.Config.{default_websocket}
use rust_api_boilerplate.Http.Auth.{Claims, Header, token_of, ws_connect}
use rust_api_boilerplate.Http.Identity.{Admits, ws_connect-Admits}

abbrev decode : String → Option Claims
decode token = some (record { sub = token; email = "user@example.com"; exp = 2000 })

abbrev parse_uuid : String → Option ℕ
parse_uuid s = some 7

ws_connect-Admits_example :
    Admits decode parse_uuid default_websocket
      (token_of default_websocket Header.absent (some "seven"))
      (ws_connect decode parse_uuid default_websocket Header.absent (some "seven"))
ws_connect-Admits_example =
    ws_connect-Admits decode parse_uuid default_websocket Header.absent (some "seven")

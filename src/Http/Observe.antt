-- ===== src/Http/Observe.antt =====
-- src/app/http/middleware/observability.rs: the middleware that logs requests and responses.
--
-- A payload is the list of its chunks, with none where the transport fails. `lossy` is
-- `String::from_utf8_lossy`, `to_lowercase` that of `str`, and `show_headers` the JSON of the
-- headers. The service inside is an argument. The log is what is inserted, less the duration.
pub mod Transparent
mod Examples
use rust_api_boilerplate.Prelude.{
  ℕ, ◌+◌, Bool, true, false, ◌&&◌, ◌||◌, not, Option, none, some, List, [], ◌∷◌, ◌++◌, String,
  Result, ok, err, if◌then◌else◌, ◌==◌, text_eq, leb, length, unwrap_or, is_some,
}
use Prim.Native.String.{◌++◌ as str_append}
use rust_api_boilerplate.Map
use rust_api_boilerplate.Map.{Map}
use rust_api_boilerplate.Text.{starts_with, contains, is_empty}
use rust_api_boilerplate.Config.{HttpRequestLoggingConfig}

abbrev pub Bytes : Type 0
Bytes = List ℕ

abbrev pub Headers : Type 0
Headers = Map String String

pub record Request : Type 0 where
  pub method : String
  pub path : String
  pub query_string : String
  pub ip_address : Option String
  pub headers : Headers
  pub payload : List (Option Bytes)

-- `body` is none where reading it fails.
pub record Response : Type 0 where
  pub status : ℕ
  pub headers : Headers
  pub body : Option Bytes

pub record Log : Type 0 where
  pub request_id : String
  pub method : String
  pub path : String
  pub query_string : Option String
  pub ip_address : Option String
  pub request_headers : String
  pub request_body : Option String
  pub response_status : ℕ
  pub response_headers : String
  pub response_body : Option String

abbrev pub body_limit : ℕ
body_limit = 65536

unfoldable pub content_type : Headers → String
content_type headers = unwrap_or (Map.get "content-type" headers) ""

-- The loop over the payload: what is read of it, and whether it was too large.
unfoldable pub read_payload : List (Option Bytes) → Bytes → Bytes × Bool
read_payload [] body = (body, false)
read_payload (none ∷ chunks) body = (body, false)
read_payload (some bytes ∷ chunks) body =
    let rest = read_payload chunks (body ++ bytes) in
    if leb (length body + length bytes) body_limit then rest else (body, true)

-- `if !state.config.logging.http_request_logging.enabled`
abbrev pub is_disabled : Option HttpRequestLoggingConfig → Bool
is_disabled none = false
is_disabled (some config) = not config.enabled

module _ (to_lowercase : String → String) where
  unfoldable pub is_text_or_json : String → Bool
  is_text_or_json content_type =
      let ct = to_lowercase content_type in
      contains "json" ct || (contains "text" ct || (contains "xml" ct || contains "urlencoded" ct))

  abbrev pub binary_text : String → Option String
  binary_text ct =
      if is_empty ct
      then none
      else some (str_append "[Binary/Multipart data (content-type: " (str_append ct ")]"))

  module _ (lossy : Bytes → String) where
    -- The request that goes on, and the text of its body for the log.
    unfoldable pub observe_request : Request → Request × Option String
    observe_request req =
        if is_text_or_json (content_type req.headers)
        then (let (body, too_large) = read_payload req.payload [] in
            (
              record req { payload = some body ∷ [] },
              if too_large then some "[Request body too large, truncated]" else some (lossy body),
            ))
        else (req, binary_text (content_type req.headers))

    -- The response that goes back, and the text of its body for the log.
    unfoldable pub observe_response : Response → Response × Option String
    observe_response res =
        if is_text_or_json (content_type res.headers)
        then elim res.body [
          | none ↦ (record res { body = some [] }, none)
          | some bytes ↦ (
            res,
            if leb (length bytes) body_limit
                then some (lossy bytes)
                else some "[Response body too large, truncated]",
          )
        ]
        else (res, binary_text (content_type res.headers))

    module _ {Error : Type 0} (show_headers : Headers → String) (debug : Error → String)
        (service : Request → Result Error Response) where
      abbrev pub log_of : String → Request → Option String → ℕ → String → Option String → Log
      log_of request_id req request_body status headers response_body = record {
        request_id = request_id;
        method = req.method;
        path = req.path;
        query_string = if is_empty req.query_string then none else some req.query_string;
        ip_address = req.ip_address;
        request_headers = show_headers req.headers;
        request_body = request_body;
        response_status = status;
        response_headers = headers;
        response_body = response_body;
      }

      -- The end of `call`, on the answer of the service.
      abbrev pub observed :
          String → Request → Option String → Result Error Response → Result Error Response × Log
      observed request_id req request_body (ok response) =
          let (res, response_body) = observe_response response in
          (
            ok (record res { headers = Map.insert "x-request-id" request_id res.headers }),
            log_of request_id req request_body response.status (show_headers response.headers)
                response_body,
          )
      observed request_id req request_body (err e) = (
        err e,
        log_of request_id req request_body 500 "{}"
            (some (str_append "[Internal Error]: " (debug e))),
      )

      -- `config` is there where the application's state is.
      unfoldable pub call :
          Option HttpRequestLoggingConfig → String → Request → Result Error Response × Option Log
      call config request_id req =
          if starts_with "/api/observability" req.path
          then (service req, none)
          else if is_disabled config
          then (service req, none)
          else (let (req', request_body) = observe_request req in
              let (answer, log) = observed request_id req request_body (service req') in
              (answer, if is_some config then some log else none))

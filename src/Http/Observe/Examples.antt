-- ===== src/Http/Observe/Examples.antt =====
-- The theorems on the logging middleware, around a service that answers with the body it gets.
use rust_api_boilerplate.Prelude.{
  ℕ, zero, suc, ◌≡◌, ◌<◌, true, false, none, some, [], ◌∷◌, String, Result, ok, refl, ap, length,
  arith,
}
use mathlib.Core.List.{append-nil}
use rust_api_boilerplate.Map
use rust_api_boilerplate.Text.{contains, starts_with, strip_prefix}
use rust_api_boilerplate.Config.{HttpRequestLoggingConfig}
use rust_api_boilerplate.Http.Observe.{
  Bytes, Headers, Request, Response, content_type, is_text_or_json, observe_request, call,
}
use rust_api_boilerplate.Http.Observe.Transparent.{joined, IsWhole, IsSame, call-IsSame, body_cut}

abbrev lower : String → String
lower s = s

abbrev lossy : Bytes → String
lossy b = "text"

abbrev json : Headers
json = ("content-type", "application/json") ∷ []

abbrev login : Request
login = record {
  method = "POST";
  path = "/api/auth/login";
  query_string = "";
  ip_address = none;
  headers = json;
  payload = some (123 ∷ []) ∷ some (125 ∷ []) ∷ [];
}

abbrev echo : Request → Result String Response
echo r = ok (record { status = 200; headers = r.headers; body = some (joined r.payload) })

echo_chunks :
    (r : Request)
    → IsWhole r.payload
    → echo (record r { payload = some (joined r.payload) ∷ [] }) ≡ echo r
echo_chunks r w =
    ap (λ (b : Bytes). ok (record { status = 200; headers = r.headers; body = some b }))
      (append-nil (joined r.payload))

abbrev headers_text : Headers → String
headers_text h = "{}"

abbrev debug : String → String
debug e = e

abbrev config : HttpRequestLoggingConfig
config = record { enabled = true; log_request_body = false; log_response_body = false }

call-IsSame_example :
    IsSame lower lossy headers_text debug echo "id"
      (echo login)
      (call lower lossy headers_text debug echo (some config) "id" login).0
call-IsSame_example =
    call-IsSame lower lossy headers_text debug echo (some config) "id" login echo_chunks (λ r. refl)
      (refl, (refl, tt)) (omega arith)

unfoldable zeros : ℕ → Bytes
zeros zero = []
zeros (suc n) = 0 ∷ zeros n

length-zeros : (n : ℕ) → length (zeros n) ≡ n
unfolding zeros
length-zeros zero = refl
length-zeros (suc n) = ap suc (length-zeros n)

abbrev upload : Request
upload = record login { payload = some (zeros 65537) ∷ [] }

body_cut_example :
    length (joined (observe_request lower lossy upload).0.payload) < length (joined upload.payload)
unfolding is_text_or_json content_type contains starts_with strip_prefix Map.get
body_cut_example =
    body_cut lower lossy upload refl
      (omega (arith, ap (λ (b : Bytes). length b) (append-nil (zeros 65537)), length-zeros 65537))

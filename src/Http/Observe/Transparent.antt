-- ===== src/Http/Observe/Transparent.antt =====
-- What the middleware of src/app/http/middleware/observability.rs does to what passes through it.
use rust_api_boilerplate.Prelude.{
  ◌+◌, ◌≡◌, ◌≤◌, ◌<◌, ◌⊎◌, true, false, Option, none, some, List, [], ◌∷◌, ◌++◌, String, Result, ok,
  err, refl, sym, ap, subst, inl, inr, arith, All, Bool-cases, Option-cases, leb, length, is_some,
  length-append, text_eq,
}
use mathlib.Core.List.{append_assoc, append-nil}
use rust_api_boilerplate.Map
use rust_api_boilerplate.Text.{starts_with}
use rust_api_boilerplate.Config.{HttpRequestLoggingConfig}
use rust_api_boilerplate.Http.Observe.{
  Bytes, Headers, Request, Response, body_limit, content_type, read_payload, is_text_or_json,
  observe_request, observe_response, observed, call, is_disabled,
}

-- What the chunks carry.
abbrev pub joined : List (Option Bytes) → Bytes
joined [] = []
joined (none ∷ chunks) = joined chunks
joined (some bytes ∷ chunks) = bytes ++ joined chunks

-- Every chunk has arrived.
abbrev pub IsWhole : List (Option Bytes) → Type 0
IsWhole chunks = All (λ c. is_some c ≡ true) chunks

read_payload-joined :
    (chunks : List (Option Bytes)) (body : Bytes)
    → IsWhole chunks
    → length body + length (joined chunks) ≤ body_limit
    → read_payload chunks body ≡ (body ++ joined chunks, false)
unfolding read_payload
read_payload-joined [] body w h = ap (λ b. (b, false)) (sym (append-nil body))
read_payload-joined (none ∷ chunks) body w h = cc
read_payload-joined (some bytes ∷ chunks) body w h =
    let l : leb (length body + length bytes) body_limit ≡ true =
      ground (arith, h, length-append bytes (joined chunks)) in
    rw (l, sym (append_assoc body bytes (joined chunks)))
      (read_payload-joined chunks (body ++ bytes) w.1
        (omega (arith, h, length-append bytes (joined chunks), length-append body bytes)))

read_payload_limit :
    (chunks : List (Option Bytes)) (body : Bytes)
    → length body ≤ body_limit
    → length (read_payload chunks body).0 ≤ body_limit
unfolding read_payload
read_payload_limit [] body h = h
read_payload_limit (none ∷ chunks) body h = h
read_payload_limit (some bytes ∷ chunks) body h =
    elim (Bool-cases (leb (length body + length bytes) body_limit)) [
      | inl l ↦
          rw l (
            read_payload_limit chunks (body ++ bytes) (ground (arith, l, length-append body bytes)))
      | inr l ↦ rw l h
    ]

module _ (to_lowercase : String → String) (lossy : Bytes → String) where
  pub body_cut :
      (req : Request)
      → is_text_or_json to_lowercase (content_type req.headers) ≡ true
      → body_limit < length (joined req.payload)
      → length (joined (observe_request to_lowercase lossy req).0.payload)
        < length (joined req.payload)
  unfolding observe_request
  body_cut req t h =
      rw (t, append-nil (read_payload req.payload []).0)
        (omega (arith, h, read_payload_limit req.payload [] (omega arith)))

  module _ {Error : Type 0} (show_headers : Headers → String) (debug : Error → String)
      (service : Request → Result Error Response) where
    -- The body of an answer can be read.
    abbrev pub IsReadable : Result Error Response → Type 0
    IsReadable (ok r) = is_some r.body ≡ true
    IsReadable (err e) = Unit

    -- The answer that comes out, beside that of the service.
    abbrev pub IsSame : String → Result Error Response → Result Error Response → Type 0
    IsSame id (ok r) (ok out) =
        (out.status ≡ r.status)
        × (out.body ≡ r.body)
        × ((out.headers ≡ r.headers) ⊎ (out.headers ≡ Map.insert "x-request-id" id r.headers))
    IsSame id (err e) (err out) = out ≡ e
    IsSame id r out = ⊥

    passed-IsSame : (id : String) (r : Result Error Response) → IsSame id r r
    passed-IsSame id (ok r) = (refl, refl, inl refl)
    passed-IsSame id (err e) = refl

    observe_response_lem :
        (r : Response) → is_some r.body ≡ true → (observe_response to_lowercase lossy r).0 ≡ r
    unfolding observe_response
    observe_response_lem r b =
        elim (Bool-cases (is_text_or_json to_lowercase (content_type r.headers))) [
          | inr t ↦ rw t refl
          | inl t ↦ elim (Option-cases r.body) [
            | inl n ↦ absurd (ground (arith, b, n))
            | inr (bytes, s) ↦ rw (t, s) (ap (λ b. record r { body = b }) s)
          ]
        ]

    observed-IsSame :
        (id : String) (req : Request) (text : Option String) (r : Result Error Response)
        → IsReadable r
        → IsSame id r (observed to_lowercase lossy show_headers debug service id req text r).0
    observed-IsSame id req text (err e) h = refl
    observed-IsSame id req text (ok r) h =
        let e = observe_response_lem r h in
        (
          ap (λ (o : Response). o.status) e,
          ap (λ (o : Response). o.body) e,
          inr (ap (λ (o : Response). Map.insert "x-request-id" id o.headers) e),
        )

    observe_request_lem :
        (req : Request)
        → ((r : Request)
            → IsWhole r.payload
            → service (record r { payload = some (joined r.payload) ∷ [] }) ≡ service r)
        → IsWhole req.payload
        → length (joined req.payload) ≤ body_limit
        → service (observe_request to_lowercase lossy req).0 ≡ service req
    unfolding observe_request
    observe_request_lem req chunking w h =
        elim (Bool-cases (is_text_or_json to_lowercase (content_type req.headers))) [
          | inr t ↦ rw t refl
          | inl t ↦ rw (t, read_payload-joined req.payload [] w (omega (arith, h))) (chunking req w)
        ]

    -- Whatever is configured and wherever the request goes, the answer has the status and the body
    -- that the service gives to the request as it was sent, and its headers but for the id of the
    -- request, and an error stays the same, if all chunks of the request's body have arrived and
    -- are together within the limit; provided that the service looks at what the chunks of a whole
    -- body carry and not at where it is cut, and that the bodies of its answers can be read.
    pub call-IsSame :
        (config : Option HttpRequestLoggingConfig) (id : String) (req : Request)
        → ((r : Request)
            → IsWhole r.payload
            → service (record r { payload = some (joined r.payload) ∷ [] }) ≡ service r)
        → ((r : Request) → IsReadable (service r))
        → IsWhole req.payload
        → length (joined req.payload) ≤ body_limit
        → IsSame id
            (service req)
            (call to_lowercase lossy show_headers debug service config id req).0
    unfolding call
    call-IsSame config id req chunking readable w h =
        elim (Bool-cases (starts_with "/api/observability" req.path)) [
          | inl p ↦ rw (p, call, IsSame) (passed-IsSame id (service req))
          | inr p ↦ elim (Bool-cases (is_disabled config)) [
            | inl d ↦ rw (p, d, call, IsSame) (passed-IsSame id (service req))
            | inr d ↦
                let (sent, text) = observe_request to_lowercase lossy req in
                let answer =
                  observed to_lowercase lossy show_headers debug service id req text
                    (service sent) in
                rw (p, d, call, IsSame)
                  (subst (λ r. IsSame id r answer.0) (observe_request_lem req chunking w h)
                    (observed-IsSame id req text (service sent) (readable sent)))
          ]
        ]

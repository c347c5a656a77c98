-- ===== src/Http/Security.antt =====
-- src/app/http/middleware/security_headers.rs: the headers of the responses.
--
-- A `HeaderMap` is read here as one value for a name: `insert` replaces what a name had.
use rust_api_boilerplate.Prelude.{
  ℕ, ◌≡◌, refl, Option, none, some, String, Result, ok, err, [], ◌∷◌, arith, text_eq,
}
use rust_api_boilerplate.Map
use rust_api_boilerplate.Map.{Map}

pub record Response (Body : Type 0) : Type 0 where
  pub status : ℕ
  pub headers : Map String String
  pub body : Body

module _ {Body : Type 0} where
  -- What `call` does once the inner service has answered.
  unfoldable pub secure : Response Body → Response Body
  secure res = record res {
    headers = Map.insert "permissions-policy" "geolocation=(), microphone=(), camera=()" (
        Map.insert "content-security-policy" "default-src 'self'" (
          Map.insert "referrer-policy" "strict-origin-when-cross-origin" (
            Map.insert "x-xss-protection" "1; mode=block" (
              Map.insert "x-frame-options" "DENY"
                (Map.insert "x-content-type-options" "nosniff" res.headers)))));
  }

  unfoldable pub call : {E : Type 0} → Result E (Response Body) → Result E (Response Body)
  call (err e) = err e
  call (ok res) = ok (secure res)

-- The headers that the documentation of the middleware lists.
abbrev pub listed : Map String String
listed =
    ("permissions-policy", "geolocation=(), microphone=(), camera=()")
    ∷ ("content-security-policy", "default-src 'self'")
    ∷ ("referrer-policy", "strict-origin-when-cross-origin")
    ∷ ("x-xss-protection", "1; mode=block")
    ∷ ("x-frame-options", "DENY")
    ∷ ("x-content-type-options", "nosniff")
    ∷ []

abbrev pub over : Option String → Option String → Option String
over none old = old
over (some new) old = some new

module _ {Body : Type 0} where
  -- How an answer of the inner service comes out of the middleware.
  abbrev pub IsSecured :
      {E : Type 0} → Result E (Response Body) → Result E (Response Body) → String → Type 0
  IsSecured (ok res) (ok res') name =
      (Map.get name res'.headers ≡ over (Map.get name listed) (Map.get name res.headers))
      × (res'.status ≡ res.status)
      × (res'.body ≡ res.body)
  IsSecured (err e) (err e') name = e' ≡ e
  IsSecured _ _ name = ⊥

  secure-get :
      (name : String) (res : Response Body)
      → Map.get name (secure res).headers ≡ over (Map.get name listed) (Map.get name res.headers)
  unfolding secure Map.get
  secure-get name res =
      let h1 = Map.insert "x-content-type-options" "nosniff" res.headers in
      let h2 = Map.insert "x-frame-options" "DENY" h1 in
      let h3 = Map.insert "x-xss-protection" "1; mode=block" h2 in
      let h4 = Map.insert "referrer-policy" "strict-origin-when-cross-origin" h3 in
      let h5 = Map.insert "content-security-policy" "default-src 'self'" h4 in
      ground (
        arith,
        Map.get-insert "permissions-policy" name "geolocation=(), microphone=(), camera=()" h5,
        Map.get-insert "content-security-policy" name "default-src 'self'" h4,
        Map.get-insert "referrer-policy" name "strict-origin-when-cross-origin" h3,
        Map.get-insert "x-xss-protection" name "1; mode=block" h2,
        Map.get-insert "x-frame-options" name "DENY" h1,
        Map.get-insert "x-content-type-options" name "nosniff" res.headers,
      )

  -- For every header's name: in a response that the inner service gives, each of the listed headers
  -- has the listed value, whatever it had, any other has the value that it had, and the status and
  -- the body are the same; an error of the inner service comes out as it is, with no header.
  pub call-IsSecured :
      {E : Type 0} (r : Result E (Response Body)) (name : String) → IsSecured r (call r) name
  unfolding call secure
  call-IsSecured (err e) name = refl
  call-IsSecured (ok res) name = (secure-get name res, refl, refl)

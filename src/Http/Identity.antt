-- ===== src/Http/Identity.antt =====
-- Whom the two ways to authenticate let in.
use Prim.Native.String.{◌++◌}
use rust_api_boilerplate.Prelude.{
  ℕ, ◌≡◌, ◌⊎◌, ◌&&◌, ◌>>=◌, Bool, true, false, Option, none, some, String, Result, ok, err, refl,
  inl, inr, Option-cases, Bool-cases,
}
use rust_api_boilerplate.Text.{strip_prefix-append}
use rust_api_boilerplate.Config.{WebSocketConfig}
use rust_api_boilerplate.Errors.{AppError, status_code}
use rust_api_boilerplate.Http.Auth.{
  Claims, AuthUser, Header, token_of, verify_token, user_of, from_request, resolve_identity,
  ws_connect,
}

and_false : (b : Bool) → (b && false) ≡ false
and_false true = refl
and_false false = refl

module _ (decode : String → Option Claims) (parse_uuid : String → Option ℕ) where
  -- A token that is valid, and of this user.
  abbrev pub IsTokenOf : String → AuthUser → Type 0
  IsTokenOf token u =
      (c : Claims) × (decode token ≡ some c)
      × (parse_uuid c.sub ≡ some u.user_id)
      × (u.email ≡ c.email)

  -- A token that is not valid, or whose subject is no id.
  abbrev pub IsRefused : String → Type 0
  IsRefused token =
      (decode token ≡ none) ⊎ ((c : Claims) × (decode token ≡ some c) × (parse_uuid c.sub ≡ none))

  abbrev pub Admits : WebSocketConfig → Option String → Result AppError (Option AuthUser) → Type 0
  Admits config token (ok none) = (token ≡ none) × (config.require_auth ≡ false)
  Admits config token (ok (some u)) = (t : String) × (token ≡ some t) × IsTokenOf t u
  Admits config token (err e) =
      (status_code e ≡ 401)
      × (((token ≡ none) × (config.require_auth ≡ true))
          ⊎ ((t : String) × (token ≡ some t) × IsRefused t))

  -- A handshake is let in as a user only with a token that is valid and of that user; without a
  -- user only if there is no token and the configuration asks for none; and it is refused, with
  -- 401, only if there is no token where one is asked for, or a token that is not valid or names no
  -- id.
  pub ws_connect-Admits :
      (config : WebSocketConfig) (header : Header) (query : Option String)
      → Admits config
          (token_of config header query)
          (ws_connect decode parse_uuid config header query)
  unfolding ws_connect resolve_identity verify_token user_of status_code
  ws_connect-Admits config header query = elim (Option-cases (token_of config header query)) [
    | inl n ↦ elim (Bool-cases config.require_auth) [
      | inl r ↦ rw (n, ws_connect, resolve_identity, r) (refl, inl (refl, refl))
      | inr r ↦ rw (n, ws_connect, resolve_identity, r) (refl, refl)
    ]
    | inr (t, n) ↦ elim (Option-cases (decode t)) [
      | inl d ↦ rw (n, ws_connect, resolve_identity, verify_token, d) (refl, inr (t, refl, inl d))
      | inr (c, d) ↦ elim (Option-cases (parse_uuid c.sub)) [
        | inl p ↦
            rw (n, ws_connect, resolve_identity, verify_token, d, user_of, p)
              (refl, inr (t, refl, inr (c, d, p)))
        | inr (id, p) ↦
            rw
              (
                n,
                ws_connect,
                resolve_identity,
                verify_token,
                d,
                user_of,
                p,
                and_false config.require_auth,
              )
              (t, refl, (c, d, p, refl))
      ]
    ]
  ]

  -- A handshake with a header of the form `Bearer <token>` is of the user whom the extractor of the
  -- other endpoints gives, with the same error, whatever the query and the configuration say.
  pub resolve_identity-agrees :
      (config : WebSocketConfig) (token : String) (query : Option String)
      → resolve_identity decode parse_uuid config (Header.readable ("Bearer " ++ token)) query ≡ (do
        user ← from_request decode parse_uuid (Header.readable ("Bearer " ++ token))
        ok (some user))
  unfolding resolve_identity from_request verify_token user_of token_of
  resolve_identity-agrees config token query =
      rw (resolve_identity, from_request, token_of, strip_prefix-append "Bearer " token)
        (elim (Option-cases (decode token)) [ inl d ↦ rw d refl | inr (c, d) ↦ rw d refl ])

-- ===== src/Users/Login.antt =====
-- `login` of src/app/services/user_service.rs with `generate_token` of src/app/auth.rs, and the
-- extractor of src/app/http/middleware/auth.rs that reads the token afterwards.
--
-- `encode` and `decode` are the crate jsonwebtoken's, with one secret, up to the expiry.
use Prim.Native.String.{◌++◌ as str_append}
use rust_api_boilerplate.Prelude.{
  ℕ, ◌+◌, ◌*◌, ◌≡◌, Bool, true, Option, none, some, String, Result, ok, err, inl, inr, refl,
  Bool-cases, Result-cases,
}
use rust_api_boilerplate.Config.{AuthConfig}
use rust_api_boilerplate.Errors.{AppError, orm_error, unauthorized, internal}
use rust_api_boilerplate.Text.{strip_prefix-append}
use rust_api_boilerplate.Http.Auth.{Claims, readable, from_request, verify_token, user_of}
use rust_api_boilerplate.Users.User.{Model, LoginDto, LoginResponse, response}
use rust_api_boilerplate.Users.Store.{Database, Codec, Rows, FoundBy}
use rust_api_boilerplate.Users.Service.{checked, login, generate_token}

module _ {D : Type 0} (db : Database D) (codec : Codec)
    (encode : String → Claims → Result String String) (decode : String → Option Claims)
    (verify_password : String → String → Bool) (cfg : AuthConfig) (now : ℕ) where
  abbrev pub issue : Model → Result AppError String
  issue m = generate_token encode codec cfg now m.id m.email

  -- Who is logged in, and for whom the token speaks.
  abbrev pub IsLogged : LoginDto → Rows → Result AppError LoginResponse → Type 0
  IsLogged dto rows (ok r) =
      (m : Model) × (rows m.id ≡ some m)
      × (m.email ≡ dto.email)
      × (verify_password dto.password m.password_hash ≡ true)
      × (r.user ≡ response m)
      × (from_request decode codec.parse_uuid (readable (str_append "Bearer " r.token))
          ≡ ok (record { user_id = m.id; email = m.email }))
  IsLogged dto rows (err (unauthorized t)) = t ≡ "Invalid credentials"
  IsLogged dto rows (err (orm_error t)) = Unit
  IsLogged dto rows (err (internal t)) = Unit
  IsLogged dto rows (err e) = ⊥

  from_request-token :
      (id : ℕ) (email token : String) (exp : ℕ)
      → decode token ≡ some (record { sub = codec.show_uuid id; email = email; exp = exp })
      → from_request decode codec.parse_uuid (readable (str_append "Bearer " token))
        ≡ ok (record { user_id = id; email = email })
  unfolding from_request verify_token user_of
  from_request-token id email token exp h =
      rw (strip_prefix-append "Bearer " token, from_request, h, codec.parse_show id) refl

  checked-IsLogged :
      (dto : LoginDto) (rows : Rows) (r : Result String (Option Model))
      → ((c : Claims) (t : String) → encode cfg.jwt_secret c ≡ ok t → decode t ≡ some c)
      → FoundBy r dto.email rows
      → IsLogged dto rows (checked verify_password issue dto r)
  unfolding generate_token
  checked-IsLogged dto rows (err e) law f = tt
  checked-IsLogged dto rows (ok none) law f = refl
  checked-IsLogged dto rows (ok (some m)) law f =
      elim (Bool-cases (verify_password dto.password m.password_hash)) [
        | inr v ↦ rw v refl
        | inl v ↦
            let claims : Claims = record {
              sub = codec.show_uuid m.id;
              email = m.email;
              exp = now + cfg.jwt_expiry_hours * 3600;
            } in
            elim (Result-cases (encode cfg.jwt_secret claims)) [
              | inr (e, h) ↦ rw (v, issue, generate_token, h) tt
              | inl (token, h) ↦
                  rw (v, issue, generate_token, h)
                    (
                      m,
                      f.1,
                      f.0,
                      v,
                      refl,
                      from_request-token m.id m.email token claims.exp (law claims token h),
                    )
            ]
      ]

  pub login-IsLogged :
      (dto : LoginDto) (d : D)
      → ((c : Claims) (t : String) → encode cfg.jwt_secret c ≡ ok t → decode t ≡ some c)
      → IsLogged dto (db.rows d) (login db verify_password issue dto d).0
  unfolding login
  login-IsLogged dto d law =
      checked-IsLogged dto (db.rows d) (db.find_by_email dto.email d).0 law
        (db.find_by_email_row dto.email d)

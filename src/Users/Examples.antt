-- ===== src/Users/Examples.antt =====
-- The theorems on the users, over the table and the cache of Memory.
use rust_api_boilerplate.Prelude.{
  ◌≡◌, Bool, true, false, Option, none, some, List, [], ◌∷◌, String, Result, ok, err, refl, ◌==◌,
  text_eq, ◌&&◌, ◌↔◌, ◌≢◌, arith, nat_eq, inl, inr, Bool-cases, ap, sym, subst,
}
use rust_api_boilerplate.Config.{AuthConfig}
use rust_api_boilerplate.Map
use rust_api_boilerplate.Map.{Map}
use rust_api_boilerplate.Http.Auth.{Claims}
use rust_api_boilerplate.Users.User.{Model, UserResponse, LoginDto, response}
use rust_api_boilerplate.Users.Memory.{Table, saved, table, memory, codec_of}
use rust_api_boilerplate.Users.Service.{
  UserService, find_by_id, load, login, delete, fill, remember, forget,
}
use rust_api_boilerplate.Users.Coherence.{IsCoherent}
use rust_api_boilerplate.Users.Calls.{Follows, Call, run, run-Follows}
use rust_api_boilerplate.Users.Race.{find_while_deleted, stale_after_delete}
use rust_api_boilerplate.Users.Login.{IsLogged, issue, login-IsLogged}

abbrev ada : Model
ada = record {
  id = 3;
  email = "ada@example.com";
  name = "Ada";
  password_hash = "secret1815";
  created_at = 10;
  updated_at = 10;
}

abbrev ada_seen : UserResponse
ada_seen = record {
  id = 3;
  email = "ada@example.com";
  name = "Ada";
  created_at = 10;
  updated_at = 10;
}

abbrev service : UserService Table (Map String String)
service = record { orm = saved ada ∷ []; cache = [] }

abbrev is_email : String → Bool
is_email s = true

abbrev describe : List (String × String) → String
describe l = "invalid"

-- A user is read into the cache, renamed, read again, deleted and not found.
abbrev calls : List Call
calls =
    Call.find_by_id 3
    ∷ Call.update 20 3 (record { name = some "Countess" })
    ∷ Call.find_by_id 3
    ∷ Call.delete 3
    ∷ Call.find_by_id 3
    ∷ Call.create 3 30 (ok "hash")
        (record { email = "bob@example.com"; name = "Bob"; password = "password" })
    ∷ []

empty-IsCoherent : IsCoherent (codec_of ada_seen) table memory service
unfolding Map.get
empty-IsCoherent j = tt

run-Follows_example :
    Follows is_email describe calls
      (run is_email describe table memory (codec_of ada_seen) calls service).0
      (table.rows service.orm)
      (table.rows (run is_email describe table memory (codec_of ada_seen) calls service).1.orm)
    × IsCoherent
        (codec_of ada_seen)
        table
        memory
        (run is_email describe table memory (codec_of ada_seen) calls service).1
run-Follows_example =
    run-Follows is_email describe table memory (codec_of ada_seen) calls service empty-IsCoherent

stale_after_delete_example :
    ((find_by_id table memory
        (codec_of ada_seen)
        3
        (find_while_deleted table memory (codec_of ada_seen) 3 service).2).0
      ≡ ok ada_seen)
    × (table.rows (find_while_deleted table memory (codec_of ada_seen) 3 service).2.orm 3 ≡ none)
unfolding Map.get load find_while_deleted delete response fill remember forget Map.insert Map.remove
stale_after_delete_example =
    stale_after_delete table memory (codec_of ada_seen) 3 service ada "{}" refl refl refl refl refl

-- A signature that signs the claims of one user.
abbrev claims : Claims
claims = record { sub = "iii"; email = "ada@example.com"; exp = 3700 }

abbrev config : AuthConfig
config = record { jwt_secret = "key"; jwt_expiry_hours = 1 }

abbrev same_claims : Claims → Claims → Bool
same_claims c e = c.sub == e.sub && (c.email == e.email && c.exp == e.exp)

same_claims_iff : (c e : Claims) → (same_claims c e ≡ true) ↔ (c ≡ e)
same_claims_iff c e = ground (
  arith,
  text_eq.beq_iff c.sub e.sub,
  text_eq.beq_iff c.email e.email,
  nat_eq.beq_iff c.exp e.exp,
)

abbrev signature : Bool → Result String String
signature true = ok "signed"
signature false = err "unknown"

abbrev sign : String → Claims → Result String String
sign secret c = signature (same_claims c claims)

abbrev read : String → Option Claims
read t = some claims

sign_lem : (c : Claims) (t : String) → sign config.jwt_secret c ≡ ok t → read t ≡ some c
sign_lem c t h = elim (Bool-cases (same_claims c claims)) [
  | inl s ↦ ap some (sym ((same_claims_iff c claims).0 s))
  | inr s ↦ absurd (unsigned_ne t (subst (λ b. signature b ≡ ok t) s h))
]
  where
    unsigned_ne : (t : String) → signature false ≢ ok t
    unsigned_ne t h = cc

abbrev credentials : LoginDto
credentials = record { email = "ada@example.com"; password = "secret1815" }

abbrev matches : String → String → Bool
matches password hash = password == hash

login-IsLogged_example :
    IsLogged table
      (codec_of ada_seen)
      sign
      read
      matches
      config
      100
      credentials
      (table.rows service.orm)
      (login table matches
        (issue table (codec_of ada_seen) sign read matches config 100)
        credentials
        service.orm).0
login-IsLogged_example =
    login-IsLogged table (codec_of ada_seen) sign read matches config 100 credentials service.orm
      sign_lem

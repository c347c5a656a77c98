-- ===== src/Users/Endpoints.antt =====
-- The endpoints of src/app/http/handlers/user.rs, over the table and the hub.
use rust_api_boilerplate.Prelude.{
  ℕ, ◌≡◌, Bool, Option, none, some, List, [], String, Result, ok, err, inl, inr, refl, is_empty,
  Option-cases, text_eq,
}
use rust_api_boilerplate.Map
use rust_api_boilerplate.Errors.{AppError, status_code}
use rust_api_boilerplate.Text.{strip_prefix}
use rust_api_boilerplate.Http.Auth.{
  Header, absent, opaque, readable, Claims, AuthUser, from_request, verify_token, user_of,
}
use rust_api_boilerplate.Ws.Message.{Uuid, Frame, ServerMessage, event}
use rust_api_boilerplate.Ws.Hub.{WsHub}
use rust_api_boilerplate.Ws.Hub.Mirror.{IsIndexed, holds}
use rust_api_boilerplate.Ws.Publish.{
  TrySend, Published, publish, publish_local, deliver_event, event_frame,
}
use rust_api_boilerplate.Ws.Publish.Exact.{Delivers, publish_local-Delivers}
use rust_api_boilerplate.Users.User.{UserResponse, CreateUserDto, validate_create}
use rust_api_boilerplate.Users.Store.{Database, LocalCache, Codec, Rows}
use rust_api_boilerplate.Users.Service.{create, delete}
use rust_api_boilerplate.Users.Table.{Creates, Deletes}
use rust_api_boilerplate.Users.Coherence.{IsCoherent}
use rust_api_boilerplate.Users.Refine.{create-Creates, delete-Deletes}
use rust_api_boilerplate.Users.Handlers.{
  AppState, HttpResponse, user_body, no_body, answer_status, respond, with_orm, announce,
  create_user, delete_by, delete_user,
}

module _ {Value : Type 0} (encode : ServerMessage Value → Option Frame) (outcome : Uuid → TrySend)
    (room : Bool) where
  -- What a publication to a topic does to the hub, by the frame that the payload gives, if any.
  abbrev pub IsPublished : String → Option Frame → WsHub → Published Value → Type 0
  IsPublished topic none h p = (p.hub ≡ h) × (p.frames ≡ [])
  IsPublished topic (some f) h p = Delivers (λ id. holds h id topic) outcome f h p

  -- The frame of an event with the payload.
  abbrev pub frame_of : String → Option Value → Option Frame
  frame_of topic none = none
  frame_of topic (some value) = encode (event topic value)

  publish_unencoded :
      (topic : String) (value : Value) (h : WsHub)
      → encode (event topic value) ≡ none
      → ((publish_local encode outcome topic value h).hub ≡ h)
        × ((publish_local encode outcome topic value h).frames ≡ [])
  unfolding publish_local deliver_event event_frame
  publish_unencoded topic value h e = elim (Option-cases (Map.get topic h.topics)) [
    | inl t ↦ rw (t, publish_local) (refl, refl)
    | inr (s, t) ↦ rw (t, publish_local, deliver_event, event_frame, e) (refl, refl)
  ]

  publish-IsPublished :
      (topic : String) (payload : Option Value) (h : WsHub)
      → IsIndexed h
      → IsPublished topic (frame_of topic payload) h (publish encode outcome room topic payload h)
  unfolding publish
  publish-IsPublished topic none h v = (refl, refl)
  publish-IsPublished topic (some value) h v = elim (Option-cases (encode (event topic value))) [
    | inl e ↦ rw (e, IsPublished) (publish_unencoded topic value h e)
    | inr (f, e) ↦
        (let d = publish_local-Delivers encode outcome topic value f e h v in
          rw (e, IsPublished)
            (record {
              exactly = d.exactly;
              counted = d.counted;
              evicts = d.evicts;
              keeps = d.keeps;
            }))
  ]

module _ {D : Type 0} (db : Database D) {C : Type 0} (cache : LocalCache C) (codec : Codec) where
  -- What a creation leaves: the table without the hub, or the table and the event.
  abbrev pub Announced :
      {Value : Type 0}
      → (Result AppError UserResponse → Rows → Type 0)
      → (UserResponse → WsHub → Published Value → Type 0)
      → WsHub
      → Option (Published Value)
      → Result AppError HttpResponse
      → AppState D C
      → Type 0
  Announced creates delivers h none (err e) s = creates (err e) (db.rows s.users.orm) × (s.ws ≡ h)
  Announced creates delivers h (some p) (ok r) s =
      (u : UserResponse) × (r ≡ record { status = 201; body = user_body u })
      × creates (ok u) (db.rows s.users.orm)
      × delivers u h p
      × (s.ws ≡ p.hub)
  Announced creates delivers h _ _ s = ⊥

  -- After a creation, on a hub within its invariant: with an error there is no new row, nothing is
  -- published and the hub is as it was. Otherwise the answer is 201 with the user, whose row is
  -- new under the id, and the event for the topic users, if it can be encoded, has entered exactly
  -- once the queue of each subscriber that has room; where it cannot, the answer is the same and
  -- the hub as it was.
  pub create_user-Announced :
      {Value : Type 0} (encode : ServerMessage Value → Option Frame) (outcome : Uuid → TrySend)
      (room : Bool) (to_value : UserResponse → Option Value) (is_email : String → Bool)
      (describe : List (String × String) → String) (id now : ℕ) (hash : Result String String)
      (dto : CreateUserDto) (s : AppState D C)
      → IsCoherent codec db cache s.users
      → IsIndexed s.ws
      → Announced
          (λ r rows.
            Creates hash
              (is_empty (validate_create is_email dto))
              id
              now
              dto
              (db.rows s.users.orm)
              rows
              r)
          (λ u.
            IsPublished encode outcome room "users"
              (frame_of encode outcome room "users" (to_value u)))
          s.ws
          (create_user db encode outcome room to_value is_email describe id now hash dto
            s).published
          (create_user db encode outcome room to_value is_email describe id now hash dto s).answer
          (create_user db encode outcome room to_value is_email describe id now hash dto s).state
  unfolding create_user
  create_user-Announced encode outcome room to_value is_email describe id now hash dto s i v =
      let made = create db is_email describe id now hash dto s.users.orm in
      known made.0 made.1
        (create-Creates db codec cache is_email describe id now hash dto s.users i).0
    where
      known :
          (r : Result AppError UserResponse) (d : D)
          → Creates hash
              (is_empty (validate_create is_email dto))
              id
              now
              dto
              (db.rows s.users.orm)
              (db.rows d)
              r
          → Announced
              (λ r rows.
                Creates hash
                  (is_empty (validate_create is_email dto))
                  id
                  now
                  dto
                  (db.rows s.users.orm)
                  rows
                  r)
              (λ u.
                IsPublished encode outcome room "users"
                  (frame_of encode outcome room "users" (to_value u)))
              s.ws
              (announce db encode outcome room to_value r (with_orm db d s)).published
              (announce db encode outcome room to_value r (with_orm db d s)).answer
              (announce db encode outcome room to_value r (with_orm db d s)).state
      known (err e) d c = (c, refl)
      known (ok u) d c =
          (u, refl, c, publish-IsPublished encode outcome room "users" (to_value u) s.ws v, refl)

  -- What a deletion leaves, by what the extractor made of the header.
  abbrev pub Guarded :
      (ℕ → Rows → Rows → Result AppError Unit → Type 0)
      → Result AppError AuthUser
      → ℕ
      → AppState D C
      → Result AppError HttpResponse × AppState D C
      → Type 0
  Guarded deletes (err e) id s r = (answer_status r.0 ≡ 401) × (r.1 ≡ s)
  Guarded deletes (ok auth) id s r =
      (a : Result AppError Unit) × (r.0 ≡ respond 204 (λ x. no_body) a)
      × deletes id (db.rows s.users.orm) (db.rows r.1.users.orm) a
      × IsCoherent codec db cache r.1.users
      × (r.1.ws ≡ s.ws)

  abbrev Is401 : {A : Type 0} → Result AppError A → Type 0
  Is401 (ok a) = Unit
  Is401 (err e) = status_code e ≡ 401

  from_request-Is401 :
      (decode : String → Option Claims) (header : Header)
      → Is401 (from_request decode codec.parse_uuid header)
  unfolding from_request status_code verify_token user_of
  from_request-Is401 decode absent = refl
  from_request-Is401 decode opaque = refl
  from_request-Is401 decode (readable s) = elim (Option-cases (strip_prefix "Bearer " s)) [
    | inl e ↦ rw (e, from_request) refl
    | inr (token, e) ↦ elim (Option-cases (decode token)) [
      | inl c ↦ rw (e, from_request, verify_token, c) refl
      | inr (claims, c) ↦ elim (Option-cases (codec.parse_uuid claims.sub)) [
        | inl p ↦ rw (e, from_request, verify_token, c, user_of, p) refl
        | inr (id, p) ↦ rw (e, from_request, verify_token, c, user_of, p) tt
      ]
    ]
  ]

  delete_by-Guarded :
      (auth : Result AppError AuthUser) (id : ℕ) (s : AppState D C)
      → IsCoherent codec db cache s.users
      → Is401 auth
      → Guarded (λ k. Deletes k) auth id s (delete_by db cache codec auth id s)
  delete_by-Guarded (err e) id s i k = (k, refl)
  delete_by-Guarded (ok auth) id s i k =
      let d = delete-Deletes db codec cache id s.users i in
      ((delete db cache codec id s.users).0, refl, d.0, d.1, refl)

  -- Whatever the header is, a deletion either has a token that the extractor takes, and then does to
  -- the table what its answer says, 204 for a row that was there and is gone, or it is answered
  -- with 401 and changes nothing.
  pub delete_user-Guarded :
      (decode : String → Option Claims) (header : Header) (id : ℕ) (s : AppState D C)
      → IsCoherent codec db cache s.users
      → Guarded
          (λ k. Deletes k)
          (from_request decode codec.parse_uuid header)
          id
          s
          (delete_user db cache codec decode header id s)
  unfolding delete_user
  delete_user-Guarded decode header id s i =
      delete_by-Guarded (from_request decode codec.parse_uuid header) id s i
        (from_request-Is401 decode header)

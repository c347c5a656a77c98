-- ===== src/Users/Calls.antt =====
-- Calls of src/app/services/user_service.rs one after the other. `find_all` and `login`, which
-- read the table and nothing else, are left out.
use rust_api_boilerplate.Prelude.{ℕ, ◌≡◌, Bool, List, [], ◌∷◌, String, Result, refl, is_empty}
use rust_api_boilerplate.Errors.{AppError}
use rust_api_boilerplate.Users.User.{
  UserResponse, CreateUserDto, UpdateUserDto, validate_create, validate_update, renamed,
}
use rust_api_boilerplate.Users.Store.{Database, LocalCache, Codec, Rows}
use rust_api_boilerplate.Users.Service.{UserService}
use rust_api_boilerplate.Users.Service
use rust_api_boilerplate.Users.Table.{Reads, Changes, Deletes, Creates}
use rust_api_boilerplate.Users.Coherence.{IsCoherent}
use rust_api_boilerplate.Users.Refine.{
  find_by_id-Reads, update-Changes, delete-Deletes, create-Creates,
}

-- A call with the id, the moment and the hash that it gets.
pub data Call : Type 0 where
  find_by_id : ℕ → Call
  create : ℕ → ℕ → Result String String → CreateUserDto → Call
  update : ℕ → ℕ → UpdateUserDto → Call
  delete : ℕ → Call

pub data Reply : Type 0 where
  user : Result AppError UserResponse → Reply
  gone : Result AppError Unit → Reply

module _ (is_email : String → Bool) (describe : List (String × String) → String) where
  -- The call has this answer, and changes the table so.
  abbrev pub Meets : Call → Reply → Rows → Rows → Type 0
  Meets (find_by_id id) (user r) s s' = Reads id s s' r
  Meets (create id now hash dto) (user r) s s' =
      Creates hash (is_empty (validate_create is_email dto)) id now dto s s' r
  Meets (update now id dto) (user r) s s' =
      Changes (renamed now dto) (is_empty (validate_update dto)) id s s' r
  Meets (delete id) (gone r) s s' = Deletes id s s' r
  Meets c r s s' = ⊥

  -- The answers to calls, each on the table that the calls before it left.
  abbrev pub Follows : List Call → List Reply → Rows → Rows → Type 0
  Follows [] [] s s' = s' ≡ s
  Follows (c ∷ cs) (r ∷ rs) s s' = (mid : Rows) × Meets c r s mid × Follows cs rs mid s'
  Follows cs rs s s' = ⊥

  module _ {D C : Type 0} (db : Database D) (cache : LocalCache C) (codec : Codec) where
    unfoldable pub step : Call → UserService D C → Reply × UserService D C
    step (find_by_id id) s = let (r, s') = Service.find_by_id db cache codec id s in (user r, s')
    step (create id now hash dto) s =
        let (r, orm') = Service.create db is_email describe id now hash dto s.orm in
        (user r, record s { orm = orm' })
    step (update now id dto) s =
        let (r, s') = Service.update db cache codec describe now id dto s in (user r, s')
    step (delete id) s = let (r, s') = Service.delete db cache codec id s in (gone r, s')

    unfoldable pub run : List Call → UserService D C → List Reply × UserService D C
    run [] s = ([], s)
    run (c ∷ cs) s = let (r, s') = step c s in let (rs, s'') = run cs s' in (r ∷ rs, s'')

    step-Meets :
        (c : Call) (s : UserService D C)
        → IsCoherent codec db cache s
        → Meets c (step c s).0 (db.rows s.orm) (db.rows (step c s).1.orm)
          × IsCoherent codec db cache (step c s).1
    unfolding step
    step-Meets (find_by_id id) s i = find_by_id-Reads db codec cache id s i
    step-Meets (create id now hash dto) s i =
        create-Creates db codec cache is_email describe id now hash dto s i
    step-Meets (update now id dto) s i = update-Changes db codec cache describe now id dto s i
    step-Meets (delete id) s i = delete-Deletes db codec cache id s i

    -- From a cache that agrees with the table, as the empty one does, the answers to any calls, one
    -- after the other, are those of the table alone, and the table changes as if there were no
    -- cache, whichever calls of the database fail and whatever the cache drops; and the cache
    -- agrees with the table again.
    pub run-Follows :
        (cs : List Call) (s : UserService D C)
        → IsCoherent codec db cache s
        → Follows cs (run cs s).0 (db.rows s.orm) (db.rows (run cs s).1.orm)
          × IsCoherent codec db cache (run cs s).1
    unfolding run
    run-Follows [] s i = (refl, i)
    run-Follows (c ∷ cs) s i =
        let (m, i') = step-Meets c s i in
        let (f, i'') = run-Follows cs (step c s).1 i' in ((db.rows (step c s).1.orm, m, f), i'')

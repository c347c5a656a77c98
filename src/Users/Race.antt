-- ===== src/Users/Race.antt =====
-- src/app/services/user_service.rs: `find_by_id` while another call deletes the user.
use rust_api_boilerplate.Prelude.{
  ℕ, ◌≡◌, Option, none, some, String, Result, ok, err, refl, ap, zero, suc, ◌∙◌, arith, nat_eq,
  subst,
}
use rust_api_boilerplate.Errors.{AppError}
use rust_api_boilerplate.Users.User.{Model, UserResponse, response}
use rust_api_boilerplate.Users.Store.{Database, LocalCache, Codec, Deleted}
use rust_api_boilerplate.Users.Service.{
  UserService, cache_key, and_then, load, forget, fill, find_by_id, deleted, delete,
}
use rust_api_boilerplate.Users.Refine.{orm-remember}

module _ {D C : Type 0} (db : Database D) (cache : LocalCache C) (codec : Codec) where
  abbrev pub missed_while_deleted :
      ℕ
      → Option UserResponse
      → UserService D C
      → Result AppError UserResponse × Result AppError Unit × UserService D C
  missed_while_deleted id (some u) s =
      let (gone, s') = delete db cache codec id s in (ok u, gone, s')
  missed_while_deleted id none s =
      let (r, orm') = load db codec id s.orm in
      let (gone, s') = delete db cache codec id (record s { orm = orm' }) in
      let (found, s'') = fill db cache codec id r s' in (found, gone, s'')

  -- The deletion comes after the last read of `find_by_id`, and before its write of the entry.
  unfoldable pub find_while_deleted :
      ℕ → UserService D C → Result AppError UserResponse × Result AppError Unit × UserService D C
  find_while_deleted id s =
      let (cached, cache') = cache.get (cache_key codec id) s.cache in
      missed_while_deleted id (and_then cached codec.from_json) (record s { cache = cache' })

  deleted_rows :
      (id : ℕ) (r : Result String ℕ) (d : D) (s : UserService D C)
      → Deleted id r (db.rows d) (db.rows s.orm)
      → (deleted db cache codec id r s).0 ≡ ok tt
      → db.rows (deleted db cache codec id r s).1.orm id ≡ none
  unfolding forget
  deleted_rows id (err e) d s h g = cc
  deleted_rows id (ok zero) d s h g = cc
  deleted_rows id (ok (suc n)) d s h g =
      ap (λ rows. rows id) h.1 ∙ ground (arith, nat_eq.beq_iff id id)

  delete_rows :
      (id : ℕ) (s : UserService D C)
      → (delete db cache codec id s).0 ≡ ok tt
      → db.rows (delete db cache codec id s).1.orm id ≡ none
  unfolding delete
  delete_rows id s g =
      deleted_rows id (db.delete_by_id id s.orm).0 s.orm
        (record s { orm = (db.delete_by_id id s.orm).1 }) (db.delete_by_id_rows id s.orm) g

  pub stale_after_delete :
      (id : ℕ) (s : UserService D C) (m : Model) (text : String)
      → (cache.get (cache_key codec id) s.cache).0 ≡ none
      → (load db codec id s.orm).0 ≡ ok m
      → (find_while_deleted id s).1 ≡ ok tt
      → codec.to_json (response m) ≡ some text
      → (cache.get (cache_key codec id) (find_while_deleted id s).2.cache).0 ≡ some text
      → ((find_by_id db cache codec id (find_while_deleted id s).2).0 ≡ ok (response m))
        × (db.rows (find_while_deleted id s).2.orm id ≡ none)
  unfolding find_while_deleted find_by_id fill
  stale_after_delete id s m text miss l g j k =
      let looked : UserService D C = record s {
        cache = (cache.get (cache_key codec id) s.cache).1;
      } in
      let s' = (delete db cache codec id (record looked { orm = (load db codec id s.orm).1 })).1 in
      let g' : (missed_while_deleted id none looked).1 ≡ ok tt =
        subst (λ o. (missed_while_deleted id (and_then o codec.from_json) looked).1 ≡ ok tt) miss
          g in
      (
        rw (k, and_then, codec.from_to (response m) text j) refl,
        rw (miss, l, fill)
            (ap (λ d. db.rows d id) (orm-remember db codec cache id (response m) s')
              ∙ delete_rows id (record looked { orm = (load db codec id s.orm).1 }) g'),
      )

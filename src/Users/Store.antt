-- ===== src/Users/Store.antt =====
-- The database and the cache behind src/app/services/user_service.rs, as interfaces.
--
-- sea_orm with its database, the crate moka, serde_json and uuid are not read: they are records of
-- operations with their documented behaviour as laws. A call of the database may fail, and then it
-- changes nothing. The cache may drop any entry at any time. `rows` and `entries` are what is
-- stored; they are for the laws only.
use rust_api_boilerplate.Prelude.{
  ℕ, ◌≡◌, ◌≢◌, ◌⊎◌, Option, none, some, String, Result, ok, err, if◌then◌else◌, ◌==◌, nat_eq,
  text_eq, zero, suc,
}
use rust_api_boilerplate.Users.User.{Model, UserResponse}

-- The table, by the primary key.
abbrev pub Rows : Type 0
Rows = ℕ → Option Model

abbrev pub put : ℕ → Option Model → Rows → Rows
put k o s j = if k == j then o else s j

-- The row that is found is the one of the key.
abbrev pub Found : Result String (Option Model) → Option Model → Type 0
Found (ok o) row = o ≡ row
Found (err e) row = Unit

-- A row found by its address is in the table, under its id.
abbrev pub FoundBy : Result String (Option Model) → String → Rows → Type 0
FoundBy (ok (some m)) email s = (m.email ≡ email) × (s m.id ≡ some m)
FoundBy (ok none) email s = Unit
FoundBy (err e) email s = Unit

abbrev pub Inserted : Model → Result String Model → Rows → Rows → Type 0
Inserted m (ok back) s s' = (back ≡ m) × (s m.id ≡ none) × (s' ≡ put m.id (some m) s)
Inserted m (err e) s s' = s' ≡ s

abbrev pub Updated : Model → Result String Model → Rows → Rows → Type 0
Updated m (ok back) s s' = (back ≡ m) × (s' ≡ put m.id (some m) s)
Updated m (err e) s s' = s' ≡ s

-- The number of the rows that are deleted.
abbrev pub Deleted : ℕ → Result String ℕ → Rows → Rows → Type 0
Deleted k (ok zero) s s' = (s k ≡ none) × (s' ≡ s)
Deleted k (ok (suc n)) s s' = (s k ≢ none) × (s' ≡ put k none s)
Deleted k (err e) s s' = s' ≡ s

pub record Database (D : Type 0) : Type 0 where
  pub rows : D → Rows
  pub find_by_id : ℕ → D → Result String (Option Model) × D
  pub find_by_email : String → D → Result String (Option Model) × D
  pub insert : Model → D → Result String Model × D
  pub update : Model → D → Result String Model × D
  pub delete_by_id : ℕ → D → Result String ℕ × D
  pub rows_keyed : (k : ℕ) (m : Model) (d : D) → rows d k ≡ some m → m.id ≡ k
  pub find_by_id_rows : (k : ℕ) (d : D) → rows (find_by_id k d).1 ≡ rows d
  pub find_by_id_row : (k : ℕ) (d : D) → Found (find_by_id k d).0 (rows d k)
  pub find_by_email_rows : (e : String) (d : D) → rows (find_by_email e d).1 ≡ rows d
  pub find_by_email_row : (e : String) (d : D) → FoundBy (find_by_email e d).0 e (rows d)
  pub insert_rows : (m : Model) (d : D) → Inserted m (insert m d).0 (rows d) (rows (insert m d).1)
  pub update_rows : (m : Model) (d : D) → Updated m (update m d).0 (rows d) (rows (update m d).1)
  pub delete_by_id_rows :
      (k : ℕ) (d : D) → Deleted k (delete_by_id k d).0 (rows d) (rows (delete_by_id k d).1)

-- An entry is the one given, or has been dropped.
abbrev pub Kept : Option String → Option String → Type 0
Kept new old = (new ≡ none) ⊎ (new ≡ old)

pub record LocalCache (C : Type 0) : Type 0 where
  pub entries : C → String → Option String
  pub get : String → C → Option String × C
  pub insert : String → String → C → C
  pub invalidate : String → C → C
  pub get_entry : (k : String) (c : C) → Kept (get k c).0 (entries c k)
  pub get_entries : (k j : String) (c : C) → Kept (entries (get k c).1 j) (entries c j)
  pub insert_entries :
      (k v j : String) (c : C)
      → Kept (entries (insert k v c) j) (if k == j then some v else entries c j)
  pub invalidate_entries :
      (k j : String) (c : C)
      → Kept (entries (invalidate k c) j) (if k == j then none else entries c j)

-- Encoders and parsers, each with its round trip.
pub record Codec : Type 0 where
  pub show_uuid : ℕ → String
  pub parse_uuid : String → Option ℕ
  pub to_json : UserResponse → Option String
  pub from_json : String → Option UserResponse
  pub parse_show : (k : ℕ) → parse_uuid (show_uuid k) ≡ some k
  pub from_to : (u : UserResponse) (s : String) → to_json u ≡ some s → from_json s ≡ some u

-- ===== src/Users/Memory.antt =====
-- A table and a cache in memory, for the tests: the table is the list of its writes.
use rust_api_boilerplate.Prelude.{
  ℕ, ◌≡◌, ◌≢◌, ◌↔◌, Bool, true, ◌&&◌, Option, none, some, List, [], ◌∷◌, String, Result, ok, err,
  inl, inr, refl, sym, if◌then◌else◌, ◌==◌, nat_eq, text_eq, arith, Option-cases, Bool-cases, zero,
  suc, ap, subst, ◌∙◌,
}
use Prim.Native.String.{count}
use Prim.Native.String.count
use rust_api_boilerplate.Map
use rust_api_boilerplate.Map.{Map, get-insert, get-remove}
use rust_api_boilerplate.Users.User.{Model, UserResponse}
use rust_api_boilerplate.Users.Store.{
  Database, LocalCache, Codec, Rows, put, FoundBy, Inserted, Deleted,
}

pub data Write : Type 0 where
  saved : Model → Write
  erased : ℕ → Write

abbrev pub Table : Type 0
Table = List Write

abbrev rows : Table → Rows
rows [] k = none
rows (saved m ∷ d) k = put m.id (some m) (rows d) k
rows (erased j ∷ d) k = put j none (rows d) k

pub rows_keyed : (k : ℕ) (m : Model) (d : Table) → rows d k ≡ some m → m.id ≡ k
rows_keyed k m [] h = cc
rows_keyed k m (saved x ∷ d) h = elim (Bool-cases (x.id == k)) [
  | inl e ↦ ground (arith, h, e, nat_eq.beq_iff x.id k, ap (λ (y : Model). y.id) {x = x} {y = m})
  | inr e ↦ rows_keyed k m d (ground (arith, h, e))
]
rows_keyed k m (erased j ∷ d) h = rows_keyed k m d (ground (arith, h))

abbrev answer : String → Option Model → Option Model
answer e none = none
answer e (some m) = if m.email == e then some m else none

abbrev search : String → Table → Table → Option Model
search e [] d = none
search e (saved x ∷ w) d = elim (answer e (rows d x.id)) [ none ↦ search e w d | some m ↦ some m ]
search e (erased k ∷ w) d = search e w d

abbrev save : Model → Table → Option Model → Result String Model × Table
save m d none = (ok m, saved m ∷ d)
save m d (some old) = (err "duplicate", d)

abbrev erase : ℕ → Table → Option Model → Result String ℕ × Table
erase k d none = (ok 0, d)
erase k d (some m) = (ok 1, erased k ∷ d)

none_ne : {A : Type 0} (a : A) → some a ≢ none
none_ne a h = cc

pub save_rows :
    (m : Model) (d : Table) (o : Option Model)
    → rows d m.id ≡ o
    → Inserted m (save m d o).0 (rows d) (rows (save m d o).1)
save_rows m d none h = (refl, h, refl)
save_rows m d (some old) h = refl

pub erase_rows :
    (k : ℕ) (d : Table) (o : Option Model)
    → rows d k ≡ o
    → Deleted k (erase k d o).0 (rows d) (rows (erase k d o).1)
erase_rows k d none h = (h, refl)
erase_rows k d (some m) h = ((λ e. none_ne m (sym h ∙ e)), refl)

pub search_row : (e : String) (w d : Table) → FoundBy (ok (search e w d)) e (rows d)
search_row e [] d = tt
search_row e (saved x ∷ w) d = elim (Option-cases (rows d x.id)) [
  | inl h ↦ rw (h, FoundBy) (search_row e w d)
  | inr (m, h) ↦ elim (Bool-cases (m.email == e)) [
    | inl t ↦
        let found : (m.email ≡ e) × (rows d m.id ≡ some m) = (
          (text_eq.beq_iff m.email e).0 t,
          subst (λ k. rows d k ≡ some m) (sym (rows_keyed x.id m d h)) h,
        ) in
        rw (h, t, FoundBy) found
    | inr t ↦ rw (h, t, FoundBy) (search_row e w d)
  ]
]
search_row e (erased k ∷ w) d = search_row e w d

-- Each call of the database succeeds, but for an insertion of a key that is taken.
abbrev pub table : Database Table
table = record {
  rows = rows;
  find_by_id = λ k d. (ok (rows d k), d);
  find_by_email = λ e d. (ok (search e d d), d);
  insert = λ m d. save m d (rows d m.id);
  update = λ m d. (ok m, saved m ∷ d);
  delete_by_id = λ k d. erase k d (rows d k);
  rows_keyed = rows_keyed;
  find_by_id_rows = λ k d. refl;
  find_by_id_row = λ k d. refl;
  find_by_email_rows = λ e d. refl;
  find_by_email_row = λ e d. search_row e d d;
  insert_rows = λ m d. save_rows m d (rows d m.id) refl;
  update_rows = λ m d. (refl, refl);
  delete_by_id_rows = λ k d. erase_rows k d (rows d k) refl;
}

-- A cache that drops nothing.
abbrev pub memory : LocalCache (Map String String)
memory = record {
  entries = λ c k. Map.get k c;
  get = λ k c. (Map.get k c, c);
  insert = λ k v c. Map.insert k v c;
  invalidate = λ k c. Map.remove k c;
  get_entry = λ k c. inr refl;
  get_entries = λ k j c. inr refl;
  insert_entries = λ k v j c. inr (get-insert k j v c);
  invalidate_entries = λ k j c. inr (get-remove k j c);
}

-- An id in unary.
abbrev show : ℕ → String
show zero = String.[]
show (suc n) = String.◌∷◌ "i" (show n)

pub count-show : (n : ℕ) → count (show n) ≡ n
count-show zero = refl
count-show (suc n) = (λ i. count.cons "i" (show n) i) ∙ ap suc (count-show n)

abbrev same_user : UserResponse → UserResponse → Bool
same_user u v =
    u.id == v.id
    && (u.email == v.email
        && (u.name == v.name && (u.created_at == v.created_at && u.updated_at == v.updated_at)))

same_user_iff : (u v : UserResponse) → (same_user u v ≡ true) ↔ (u ≡ v)
same_user_iff u v = ground (
  arith,
  nat_eq.beq_iff u.id v.id,
  text_eq.beq_iff u.email v.email,
  text_eq.beq_iff u.name v.name,
  nat_eq.beq_iff u.created_at v.created_at,
  nat_eq.beq_iff u.updated_at v.updated_at,
)

-- An encoder that knows one user.
abbrev encode : UserResponse → UserResponse → Option String
encode u v = if same_user u v then some "{}" else none

pub encode_lem : (u v : UserResponse) (s : String) → encode u v ≡ some s → some u ≡ some v
encode_lem u v s h = elim (Bool-cases (same_user u v)) [
  | inl t ↦ ap some ((same_user_iff u v).0 t)
  | inr t ↦ absurd (none_ne s (sym (subst (λ b. (if b then some "{}" else none) ≡ some s) t h)))
]

abbrev pub codec_of : UserResponse → Codec
codec_of u = record {
  show_uuid = show;
  parse_uuid = λ s. some (count s);
  to_json = encode u;
  from_json = λ s. some u;
  parse_show = λ n. ap some (count-show n);
  from_to = encode_lem u;
}

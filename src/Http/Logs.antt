-- ===== src/Http/Logs.antt =====
-- src/app/http/handlers/observability.rs: the endpoints of the logs of requests.
--
-- The database is an argument: what it answers to a text of SQL with the values bound to it. A row
-- is a value of it. An i64 is an integer here.
use Prim.Native.String.{◌++◌ as str_append}
use Prim.Native.Char.{code}
use rust_api_boilerplate.Prelude.{
  ℕ, ◌+◌, ◌≤◌, ◌≡◌, min, Option, none, some, List, [], ◌∷◌, ◌++◌, String, Result, ok, err,
  unwrap_or, if◌then◌else◌, length, refl, arith, nat_beq,
}
use rust_api_boilerplate.Map.{map_value}
use rust_api_boilerplate.Errors.{AppError, database}

pub data ℤ : Type 0 where
  pos : ℕ → ℤ
  negsuc : ℕ → ℤ

-- `i64::min` with a natural number.
abbrev pub min_nat : ℤ → ℕ → ℤ
min_nat (pos n) m = pos (min n m)
min_nat (negsuc n) m = negsuc n

pub record LogQuery : Type 0 where
  pub limit : Option ℤ
  pub offset : Option ℤ
  pub method : Option String
  pub status : Option ℤ
  pub path : Option String

-- A value that is bound to a placeholder.
pub data Bind : Type 0 where
  text : String → Bind
  number : ℤ → Bind

unfoldable pub limit_of : LogQuery → ℤ
limit_of query = min_nat (unwrap_or query.limit (pos 50)) 500

-- `if query.field.is_some() { sql.push_str(..) }`
abbrev pub push_if : {A : Type 0} → Option A → String → String → String
push_if none condition sql = sql
push_if (some a) condition sql = str_append sql condition

unfoldable pub sql_of : LogQuery → String
sql_of query =
    let sql =
      push_if query.method " AND method = ?"
        "SELECT id, request_id, method, path, query_string, ip_address, response_status, duration_ms, created_at FROM http_observability_logs WHERE 1=1" in
    let sql = push_if query.status " AND response_status = ?" sql in
    let sql = push_if query.path " AND path LIKE ?" sql in
    str_append sql " ORDER BY created_at DESC, id DESC LIMIT ? OFFSET ?"

-- `if let Some(..) = query.field { q = q.bind(..) }`
abbrev pub bind_if : {A : Type 0} → (A → Bind) → Option A → List Bind → List Bind
bind_if f none binds = binds
bind_if f (some a) binds = binds ++ (f a ∷ [])

unfoldable pub binds_of : LogQuery → List Bind
binds_of query =
    let binds = bind_if text query.method [] in
    let binds = bind_if number query.status binds in
    let binds = bind_if (λ p. text (str_append "%" (str_append p "%"))) query.path binds in
    (binds ++ (number (limit_of query) ∷ [])) ++ (number (unwrap_or query.offset (pos 0)) ∷ [])

-- The status and the rows, or the row, of an answer.
abbrev pub rows_found : {Row : Type 0} → Result String (List Row) → Result AppError (ℕ × List Row)
rows_found (err e) = err (database e)
rows_found (ok rows) = ok (200, rows)

abbrev pub row_found :
    {Row : Type 0} → Result String (Option Row) → Result AppError (ℕ × Option Row)
row_found (err e) = err (database e)
row_found (ok none) = ok (404, none)
row_found (ok (some row)) = ok (200, some row)

unfoldable pub list_logs :
    {Row : Type 0}
    → (String → List Bind → Result String (List Row))
    → LogQuery
    → Result AppError (ℕ × List Row)
list_logs fetch_all query = rows_found (fetch_all (sql_of query) (binds_of query))

unfoldable pub get_log :
    {Row : Type 0}
    → (String → List Bind → Result String (Option Row))
    → ℤ
    → Result AppError (ℕ × Option Row)
get_log fetch_optional log_id = row_found (
    fetch_optional
      "SELECT id, request_id, method, path, query_string, ip_address, request_headers, request_body, response_status, response_headers, response_body, duration_ms, created_at FROM http_observability_logs WHERE id = ?"
      (number log_id ∷ []))

-- The answer of a truncation, which leaves no row.
abbrev truncated : {D : Type 0} → Result String ℕ × D → Result AppError ℕ × D
truncated (err e, d) = (err (database e), d)
truncated (ok n, d) = (ok 200, d)

unfoldable pub truncate_logs :
    {D : Type 0} → (String → D → Result String ℕ × D) → D → Result AppError ℕ × D
truncate_logs execute d = truncated (execute "TRUNCATE TABLE http_observability_logs" d)

-- The placeholders of a text of SQL.
abbrev pub placeholders : String → ℕ
placeholders String.[] = 0
placeholders (String.◌∷◌ c s) = let n = placeholders s in if nat_beq (code c) 63 then n + 1 else n

-- The query with the same fields, and other values for the filters.
abbrev pub blank : LogQuery → LogQuery
blank query = record query {
  method = map_value (λ m. "") query.method;
  status = map_value (λ s. pos 0) query.status;
  path = map_value (λ p. "") query.path;
}

abbrev pub AtMost : ℕ → ℤ → Type 0
AtMost m (pos n) = n ≤ m
AtMost m (negsuc n) = Unit

-- What the database is asked by `list_logs`.
abbrev pub IsBound : LogQuery → String → List Bind → ℤ → Type 0
IsBound query sql binds limit =
    (sql ≡ sql_of (blank query)) × (placeholders sql ≡ length binds) × AtMost 500 limit

limit_of-AtMost : (query : LogQuery) → AtMost 500 (limit_of query)
unfolding limit_of
limit_of-AtMost query = at_most (unwrap_or query.limit (pos 50))
  where
    at_most : (n : ℤ) → AtMost 500 (min_nat n 500)
    at_most (pos n) = omega arith
    at_most (negsuc n) = tt

-- For every query, the text of SQL is the one for other values of the same filters, so none of them
-- gets into the text, it has as many placeholders as values are bound, and the limit is at most 500.
pub list_logs-IsBound :
    (query : LogQuery) → IsBound query (sql_of query) (binds_of query) (limit_of query)
unfolding sql_of binds_of
list_logs-IsBound query =
    let b = fields query.method query.status query.path in (b.0, b.1, limit_of-AtMost query)
  where
    fields :
        (method : Option String) (status : Option ℤ) (path : Option String)
        → (sql_of (record query { method = method; status = status; path = path })
            ≡ sql_of (blank (record query { method = method; status = status; path = path })))
          × (placeholders (sql_of (record query { method = method; status = status; path = path }))
              ≡ length (binds_of (record query { method = method; status = status; path = path })))
    fields none none none = (refl, refl)
    fields none none (some p) = (refl, refl)
    fields none (some s) none = (refl, refl)
    fields none (some s) (some p) = (refl, refl)
    fields (some m) none none = (refl, refl)
    fields (some m) none (some p) = (refl, refl)
    fields (some m) (some s) none = (refl, refl)
    fields (some m) (some s) (some p) = (refl, refl)

-- ===== src/Http/Pagination.antt =====
-- src/app/http/pagination.rs: the parameters of a list endpoint and its response. The numbers are
-- `u64`; the product of `offset` wraps as it does in a release build.
use rust_api_boilerplate.Prelude.{
  ℕ, ◌+◌, ◌-◌, ◌*◌, ◌/◌, ◌%◌, ◌^◌, min, max, Option, List, unwrap_or, if◌then◌else◌, ◌==◌, nat_eq,
}

abbrev pub default_per_page : ℕ
default_per_page = 20

abbrev pub max_per_page : ℕ
max_per_page = 100

pub record PaginationParams : Type 0 where
  pub page : Option ℕ
  pub per_page : Option ℕ

unfoldable pub page : PaginationParams → ℕ
page p = max (unwrap_or p.page 1) 1

-- `clamp(1, MAX_PER_PAGE)`
unfoldable pub per_page : PaginationParams → ℕ
per_page p = min (max (unwrap_or p.per_page default_per_page) 1) max_per_page

unfoldable pub offset : PaginationParams → ℕ
unfolding page per_page
offset p = (page p - 1) * per_page p % 2 ^ 64

-- `div_ceil` of the standard library at a divisor that is not 0.
abbrev pub div_ceil : ℕ → ℕ → ℕ
div_ceil n d = if n % d == 0 then n / d else n / d + 1

pub record PaginatedResponse (T : Type 0) : Type 0 where
  pub items : List T
  pub total : ℕ
  pub page : ℕ
  pub per_page : ℕ
  pub total_pages : ℕ

unfoldable pub new : {T : Type 0} → List T → ℕ → PaginationParams → PaginatedResponse T
unfolding page per_page
new rows total params = record {
  items = rows;
  total = total;
  page = page params;
  per_page = per_page params;
  total_pages = if per_page params == 0 then 0 else div_ceil total (per_page params);
}

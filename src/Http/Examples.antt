-- ===== src/Http/Examples.antt =====
-- The theorems on pages and on the logs at the requests `?page=2` and `?path=users`.
use rust_api_boilerplate.Prelude.{◌+◌, ◌/◌, ◌≡◌, ◌≤◌, ◌<◌, ◌↔◌, none, some, arith}
use rust_api_boilerplate.Http.Pagination.{PaginationParams, page, per_page, offset}
use rust_api_boilerplate.Http.Pages.{row_on_one_page}
use rust_api_boilerplate.Http.Logs.{
  ℤ, LogQuery, IsBound, sql_of, binds_of, limit_of, list_logs-IsBound,
}

abbrev second : PaginationParams
second = record { page = some 2; per_page = none }

row_on_one_page_example :
    ((offset second ≤ 25) × (25 < offset second + per_page second))
    ↔ (page second ≡ 25 / per_page second + 1)
unfolding page per_page
row_on_one_page_example = row_on_one_page second 25 (omega arith)

abbrev users_logs : LogQuery
users_logs = record {
  limit = some (ℤ.pos 9000);
  offset = none;
  method = none;
  status = none;
  path = some "users";
}

list_logs-IsBound_example :
    IsBound users_logs (sql_of users_logs) (binds_of users_logs) (limit_of users_logs)
list_logs-IsBound_example = list_logs-IsBound users_logs

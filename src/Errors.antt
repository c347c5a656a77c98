-- ===== src/Errors.antt =====
-- src/app/error.rs: the errors of the application and what a client sees of them.
use rust_api_boilerplate.Prelude.{ℕ, String}

pub data AppError : Type 0 where
  database : String → AppError
  orm_error : String → AppError
  not_found : String → AppError
  unauthorized : String → AppError
  forbidden : String → AppError
  validation : String → AppError
  internal : String → AppError

unfoldable pub status_code : AppError → ℕ
status_code (not_found s) = 404
status_code (unauthorized s) = 401
status_code (forbidden s) = 403
status_code (validation s) = 422
status_code (database s) = 500
status_code (orm_error s) = 500
status_code (internal s) = 500

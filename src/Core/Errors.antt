-- ===== src/Core/Errors.antt =====
-- backend/apps/core/exceptions.py, and the exception handlers of backend/config/urls.py.
use ai_chat_websocket.Prelude.{ℕ, Text, codes, Option, none, some}

-- The application's exceptions with their messages, and the two of Django's database layer that the
-- handlers know: `integrity_error` is a subclass of `database_error`. The others are exceptions of
-- Python and of tenacity, for which no handler is registered.
pub data Error : Type 0 where
  authentication_error authorization_error not_found_error validation_error : Text → Error
  ai_service_error invalid_state_error : Text → Error
  integrity_error database_error type_error value_error : Error
  attribute_error timeout_error connection_error retry_error : Error

-- the `code` that each class passes to `AppError`
unfoldable pub error_code : Error → Option Text
error_code (authentication_error m) = some (codes "AUTH_ERROR")
error_code (authorization_error m) = some (codes "FORBIDDEN")
error_code (not_found_error m) = some (codes "NOT_FOUND")
error_code (validation_error m) = some (codes "VALIDATION_ERROR")
error_code (ai_service_error m) = some (codes "AI_ERROR")
error_code (invalid_state_error m) = some (codes "INVALID_STATE")
error_code _ = none

pub record ErrorResponse : Type 0 where
  pub status : ℕ
  pub error : Text
  pub code : Text

-- What a request that ends with the exception is answered; `none` where no handler is registered.
unfoldable pub handle : Error → Option ErrorResponse
handle (not_found_error m) = some (record { status = 404; error = m; code = codes "NOT_FOUND" })
handle (validation_error m) =
    some (record { status = 400; error = m; code = codes "VALIDATION_ERROR" })
handle (authentication_error m) =
    some (record { status = 401; error = m; code = codes "AUTH_ERROR" })
handle (authorization_error m) = some (record { status = 403; error = m; code = codes "FORBIDDEN" })
handle (ai_service_error m) = some (record { status = 503; error = m; code = codes "AI_ERROR" })
handle integrity_error = some (record {
  status = 400;
  error = codes "Resource already exists or constraint violated";
  code = codes "INTEGRITY_ERROR";
})
handle database_error = some (record {
  status = 500;
  error = codes "Database error occurred";
  code = codes "DATABASE_ERROR";
})
handle _ = none

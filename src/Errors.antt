-- ===== src/Errors.antt =====
-- The exceptions that the program tells apart: those of redis, SQLAlchemy, the operating system,
-- asyncio and Python, and the `AppError`s of app/core/exceptions.py.
use geo_device.Prelude.{ℕ, zero, suc, Bool, true, false, Option, none, some, String, ◌||◌}

-- `AppError` with its status code, detail and `Retry-After` header.
pub record AppError : Type 0 where
  pub status_code : ℕ
  pub detail : String
  pub retry_after : Option ℕ

pub data Exn : Type 0 where
  -- a `RedisError` that is no `ResponseError`, and a `ResponseError` with its text
  redis_error : Exn
  response_error : String → Exn
  -- an `SQLAlchemyError` that is no `IntegrityError`, and an `IntegrityError`
  sqlalchemy_error integrity_error : Exn
  -- an `OSError` that is no `TimeoutError`, and a `TimeoutError`
  os_error timeout_error : Exn
  cancelled_error value_error key_error runtime_error queue_full : Exn
  app_error : AppError → Exn
  -- an `HTTPException` of FastAPI with its status code, a `WebSocketException` with its code, and a
  -- `WebSocketDisconnect`
  http_exception websocket_exception : ℕ → String → Exn
  websocket_disconnect : Exn

abbrev pub is_redis_error : Exn → Bool
is_redis_error redis_error = true
is_redis_error (response_error text) = true
is_redis_error _ = false

abbrev pub is_sqlalchemy_error : Exn → Bool
is_sqlalchemy_error sqlalchemy_error = true
is_sqlalchemy_error integrity_error = true
is_sqlalchemy_error _ = false

-- `TimeoutError` is an `OSError`
abbrev pub is_os_error : Exn → Bool
is_os_error os_error = true
is_os_error timeout_error = true
is_os_error _ = false

-- `(RedisError, OSError, TimeoutError)`, which app/domains/devices/service.py names `REDIS_ERRORS`
abbrev pub redis_errors : Exn → Bool
redis_errors e = is_redis_error e || is_os_error e

-- `PIPELINE_ERRORS` of app/pipeline/worker/worker.py
abbrev pub pipeline_errors : Exn → Bool
pipeline_errors e = is_sqlalchemy_error e || redis_errors e

-- `NotFoundError`, `ConflictError` and `ServiceUnavailableError`: a `retry_after_s` of 0 sets no
-- header
abbrev pub not_found_error : String → Exn
not_found_error detail =
    app_error (record { status_code = 404; detail = detail; retry_after = none })

abbrev pub forbidden_error : String → Exn
forbidden_error detail =
    app_error (record { status_code = 403; detail = detail; retry_after = none })

abbrev pub conflict_error : String → Exn
conflict_error detail =
    app_error (record { status_code = 409; detail = detail; retry_after = none })

abbrev pub truthy : ℕ → Option ℕ
truthy n = elim n [ zero ↦ none | suc m ↦ some (suc m) ]

abbrev pub service_unavailable_error : String → Option ℕ → Exn
service_unavailable_error detail retry_after_s = app_error (record {
  status_code = 503;
  detail = detail;
  retry_after = elim retry_after_s [ none ↦ none | some n ↦ truthy n ];
})

-- The answer to a request that raised an `AppError`: its status, the `detail` of its body, and the
-- value of its `Retry-After` header.
pub record JsonResponse : Type 0 where
  pub status_code : ℕ
  pub detail : String
  pub retry_after : Option ℕ

unfoldable pub app_exception_handler : AppError → JsonResponse
app_exception_handler exc = record {
  status_code = exc.status_code;
  detail = exc.detail;
  retry_after = exc.retry_after;
}

-- ===== src/Core/Health.antt =====
-- backend/apps/core/api.py, the health check.
use ai_chat_websocket.Prelude.{ℕ, Text, codes, Bool, ◌&&◌, if◌then◌else◌}

pub record Health : Type 0 where
  pub status : Text
  pub database : Text
  pub redis : Text

-- From whether the query to the database and the two calls of the cache return; the status code and
-- the body.
unfoldable pub health_check : Bool → Bool → ℕ × Health
health_check database_answers redis_answers =
    let healthy = database_answers && redis_answers in
    (
      if healthy then 200 else 503,
      record {
        status = if healthy then codes "healthy" else codes "unhealthy";
        database = if database_answers then codes "ok" else codes "error";
        redis = if redis_answers then codes "ok" else codes "error";
      },
    )

-- ===== src/Core/Middleware.antt =====
-- backend/apps/core/middleware.py: the headers of a response, and the context that log lines carry.
use ai_chat_websocket.Prelude.{
  Text, codes, Bool, Option, none, some, List, ◌∷◌, Result, ok, err, if◌then◌else◌,
}

-- the headers of a response, in the order in which they were set; a later one replaces an earlier one
abbrev pub Headers : Type 0
Headers = List (Text × Text)

abbrev pub content_security_policy : Text × Text
content_security_policy =
    (codes "Content-Security-Policy", codes "default-src 'none'; frame-ancestors 'none'")

-- `ContentSecurityPolicyMiddleware`, from what `get_response` has given
unfoldable pub add_policy : {E : Type 0} → Bool → Result E Headers → Result E Headers
add_policy debug (err e) = err e
add_policy debug (ok headers) = ok (if debug then headers else content_security_policy ∷ headers)

-- The context variables of log_config.py.
pub record LogContext : Type 0 where
  pub request_id : Text
  pub user_id : Text

abbrev pub header_or : Option Text → Text → Text
header_or none fresh = fresh
header_or (some id) fresh = id

abbrev pub user_or_dash : Option Text → Text
user_or_dash none = codes "-"
user_or_dash (some id) = id

abbrev pub with_request_id : {E : Type 0} → Text → Result E Headers → Result E Headers
with_request_id request_id (err e) = err e
with_request_id request_id (ok headers) = ok ((codes "X-Request-ID", request_id) ∷ headers)

-- `RequestContextMiddleware` of a request with the header X-Request-ID or without one, of a user that is
-- authenticated or not; `fresh` are eight characters of a new UUID. Both variables are reset whether
-- `get_response` raises or not.
unfoldable pub request_context :
    {E : Type 0}
    → Option Text
    → Text
    → Option Text
    → (LogContext → Result E Headers × LogContext)
    → LogContext
    → Result E Headers × LogContext
request_context header fresh user get_response context =
    let request_id = header_or header fresh in
    let inside : LogContext = record { request_id = request_id; user_id = user_or_dash user } in
    let (r, after) = get_response inside in
    (
      with_request_id request_id r,
      record after { request_id = context.request_id; user_id = context.user_id },
    )

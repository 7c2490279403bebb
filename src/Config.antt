-- ===== src/Config.antt =====
-- The settings of backend/config/settings: the variables of the environment in base.py, what base.py, local.py
-- and prod.py make of them, and the choice of config/asgi.py that depends on them.
pub mod Hosts
pub mod Production
mod Tests
use ai_chat_websocket.Prelude.{
  ℕ, ◌*◌, String, Text, codes, Bool, true, false, not, Option, none, some, List, [], ◌∷◌, ◌==◌,
  nat_eq, if◌then◌else◌,
}
use ai_chat_websocket.Chat.Protocol.{strip}

-- The fields of `Settings` that the modelled code reads. A lifetime is in minutes or in days.
pub record Settings : Type 0 where
  pub secret_key : String
  pub redis_url : String
  pub jwt_secret_key : String
  pub debug : Bool
  pub allowed_hosts : Text
  pub cors_allowed_origins : Text
  pub jwt_access_token_expire_minutes : ℕ
  pub jwt_refresh_token_expire_days : ℕ

-- `Settings` where the environment has the required variables alone
abbrev pub with_defaults : String → String → String → Settings
with_defaults secret_key redis_url jwt_secret_key = record {
  secret_key = secret_key;
  redis_url = redis_url;
  jwt_secret_key = jwt_secret_key;
  debug = false;
  allowed_hosts = codes "localhost,127.0.0.1";
  cors_allowed_origins = codes "http://localhost:3000,http://127.0.0.1:3000";
  jwt_access_token_expire_minutes = 15;
  jwt_refresh_token_expire_days = 7;
}

abbrev pub comma : ℕ
comma = 44

abbrev pub begin_piece : ℕ → List Text → List Text
begin_piece c [] = (c ∷ []) ∷ []
begin_piece c (piece ∷ pieces) = (c ∷ piece) ∷ pieces

-- `value.split(",")`
unfoldable pub split_comma : Text → List Text
split_comma [] = [] ∷ []
split_comma (c ∷ value) =
    let rest = split_comma value in if c == comma then [] ∷ rest else begin_piece c rest

abbrev pub unless_blank : Text → List Text → List Text
unless_blank [] vs = vs
unless_blank (c ∷ v) vs = (c ∷ v) ∷ vs

-- `[v.strip() for v in ... if v.strip()]`
unfoldable pub strip_all : List Text → List Text
strip_all [] = []
strip_all (v ∷ vs) = unless_blank (strip v) (strip_all vs)

unfoldable pub parse_comma_separated : Text → List Text
unfolding split_comma strip_all
parse_comma_separated value = strip_all (split_comma value)

unfoldable pub get_allowed_hosts : Settings → List Text
unfolding parse_comma_separated
get_allowed_hosts settings = parse_comma_separated settings.allowed_hosts

unfoldable pub get_cors_allowed_origins : Settings → List Text
unfolding parse_comma_separated
get_cors_allowed_origins settings = parse_comma_separated settings.cors_allowed_origins

-- The settings of Django that the modelled code or this file reads; `none` is a setting that is not made.
-- Lifetimes are in seconds.
pub record DjangoSettings : Type 0 where
  pub debug : Bool
  pub allowed_hosts : List Text
  pub cors_allowed_origins : List Text
  pub middleware : List String
  pub cache_location : Option String
  pub channel_hosts : List String
  pub access_token_lifetime : ℕ
  pub refresh_token_lifetime : ℕ
  pub signing_key : String
  pub csrf_trusted_origins : Option (List Text)
  pub secure_ssl_redirect : Option Bool
  pub session_cookie_secure : Option Bool
  pub csrf_cookie_secure : Option Bool
  pub ratelimit_fail_closed : Option Bool

abbrev pub base_middleware : List String
base_middleware =
    "corsheaders.middleware.CorsMiddleware" ∷ "django.middleware.security.SecurityMiddleware"
    ∷ "django.contrib.sessions.middleware.SessionMiddleware"
    ∷ "django.middleware.common.CommonMiddleware" ∷ "django.middleware.csrf.CsrfViewMiddleware"
    ∷ "django.contrib.auth.middleware.AuthenticationMiddleware" ∷ "axes.middleware.AxesMiddleware"
    ∷ "apps.core.middleware.RequestContextMiddleware"
    ∷ "django.contrib.messages.middleware.MessageMiddleware"
    ∷ "django.middleware.clickjacking.XFrameOptionsMiddleware" ∷ []

-- the location in CACHES
abbrev pub cache_location_of : Settings → Option String
cache_location_of settings = some settings.redis_url

-- the hosts in CHANNEL_LAYERS
abbrev pub channel_hosts_of : Settings → List String
channel_hosts_of settings = settings.redis_url ∷ []

-- the lifetimes in NINJA_JWT
abbrev pub access_lifetime_of : Settings → ℕ
access_lifetime_of settings = settings.jwt_access_token_expire_minutes * 60

abbrev pub refresh_lifetime_of : Settings → ℕ
refresh_lifetime_of settings = settings.jwt_refresh_token_expire_days * 86400

-- base.py
unfoldable pub base : Settings → DjangoSettings
unfolding get_allowed_hosts get_cors_allowed_origins
base settings = record {
  debug = settings.debug;
  allowed_hosts = get_allowed_hosts settings;
  cors_allowed_origins = get_cors_allowed_origins settings;
  middleware = base_middleware;
  cache_location = cache_location_of settings;
  channel_hosts = channel_hosts_of settings;
  access_token_lifetime = access_lifetime_of settings;
  refresh_token_lifetime = refresh_lifetime_of settings;
  signing_key = settings.jwt_secret_key;
  csrf_trusted_origins = none;
  secure_ssl_redirect = none;
  session_cookie_secure = none;
  csrf_cookie_secure = none;
  ratelimit_fail_closed = none;
}

-- local.py
unfoldable pub local : Settings → DjangoSettings
unfolding base
local settings = record (base settings) {
  debug = true;
  allowed_hosts =
      codes "localhost" ∷ codes "127.0.0.1" ∷ codes "0.0.0.0" ∷ codes "host.docker.internal" ∷ [];
  cors_allowed_origins =
      codes "http://localhost:3000"
      ∷ codes "http://127.0.0.1:3000"
      ∷ codes "http://localhost:5173"
      ∷ codes "http://127.0.0.1:5173"
      ∷ codes "http://localhost:4173"
      ∷ codes "http://127.0.0.1:4173"
      ∷ codes "http://localhost:8080"
      ∷ codes "http://127.0.0.1:8080"
      ∷ [];
}

-- prod.py
unfoldable pub prod : Settings → DjangoSettings
unfolding base get_allowed_hosts get_cors_allowed_origins
prod settings = record (base settings) {
  debug = false;
  allowed_hosts = get_allowed_hosts settings;
  middleware = "apps.core.middleware.ContentSecurityPolicyMiddleware" ∷ base_middleware;
  csrf_trusted_origins = some (get_cors_allowed_origins settings);
  secure_ssl_redirect = some true;
  session_cookie_secure = some true;
  csrf_cookie_secure = some true;
  ratelimit_fail_closed = some true;
}

-- What a connection passes through, outermost first.
pub data WebSocketLayer : Type 0 where
  allowed_hosts_origin_validator jwt_auth_middleware url_router : WebSocketLayer

-- `websocket_application` of asgi.py
unfoldable pub websocket_application : DjangoSettings → List WebSocketLayer
websocket_application django =
    let application = jwt_auth_middleware ∷ url_router ∷ [] in
    if not django.debug then allowed_hosts_origin_validator ∷ application else application

-- ===== src/Unused/Known.antt =====
-- The constants, decorators, directories and files that check_unused_functions.py knows.
use ai_chat_websocket.Prelude.{Text, codes, List, [], ◌∷◌}

abbrev pub django_apps : List Text
django_apps = codes "apps" ∷ codes "config" ∷ []

abbrev pub ignored_variables : List Text
ignored_variables =
    codes "DEBUG"
    ∷ codes "SECRET_KEY"
    ∷ codes "ALLOWED_HOSTS"
    ∷ codes "INSTALLED_APPS"
    ∷ codes "MIDDLEWARE"
    ∷ codes "ROOT_URLCONF"
    ∷ codes "TEMPLATES"
    ∷ codes "WSGI_APPLICATION"
    ∷ codes "ASGI_APPLICATION"
    ∷ codes "DATABASES"
    ∷ codes "AUTH_PASSWORD_VALIDATORS"
    ∷ codes "LANGUAGE_CODE"
    ∷ codes "TIME_ZONE"
    ∷ codes "USE_I18N"
    ∷ codes "USE_L10N"
    ∷ codes "USE_TZ"
    ∷ codes "STATIC_URL"
    ∷ codes "STATIC_ROOT"
    ∷ codes "STATICFILES_DIRS"
    ∷ codes "MEDIA_URL"
    ∷ codes "MEDIA_ROOT"
    ∷ codes "DEFAULT_AUTO_FIELD"
    ∷ codes "LOGGING"
    ∷ codes "CACHES"
    ∷ codes "AUTH_USER_MODEL"
    ∷ codes "LOGIN_URL"
    ∷ codes "LOGOUT_URL"
    ∷ codes "LOGIN_REDIRECT_URL"
    ∷ codes "LOGOUT_REDIRECT_URL"
    ∷ codes "CSRF_COOKIE_SECURE"
    ∷ codes "SESSION_COOKIE_SECURE"
    ∷ codes "SECURE_SSL_REDIRECT"
    ∷ codes "SECURE_HSTS_SECONDS"
    ∷ codes "SECURE_HSTS_INCLUDE_SUBDOMAINS"
    ∷ codes "SECURE_HSTS_PRELOAD"
    ∷ codes "CORS_ALLOWED_ORIGINS"
    ∷ codes "CORS_ALLOW_CREDENTIALS"
    ∷ codes "CSRF_TRUSTED_ORIGINS"
    ∷ codes "CHANNEL_LAYERS"
    ∷ codes "EMAIL_BACKEND"
    ∷ codes "CELERY_BROKER_URL"
    ∷ codes "CELERY_RESULT_BACKEND"
    ∷ codes "CELERY_ACCEPT_CONTENT"
    ∷ codes "CELERY_TASK_SERIALIZER"
    ∷ codes "CELERY_RESULT_SERIALIZER"
    ∷ codes "CELERY_TIMEZONE"
    ∷ codes "CELERY_BEAT_SCHEDULE"
    ∷ codes "REST_FRAMEWORK"
    ∷ codes "NINJA_PAGINATION_CLASS"
    ∷ codes "REST_KNOX"
    ∷ codes "SENTRY_DSN"
    ∷ codes "app_name"
    ∷ codes "default_app_config"
    ∷ codes "urlpatterns"
    ∷ codes "websocket_urlpatterns"
    ∷ codes "api"
    ∷ codes "model_config"
    ∷ []

abbrev pub external_use_decorators : List Text
external_use_decorators =
    codes "get"
    ∷ codes "post"
    ∷ codes "put"
    ∷ codes "delete"
    ∷ codes "patch"
    ∷ codes "options"
    ∷ codes "head"
    ∷ codes "api_operation"
    ∷ codes "task"
    ∷ codes "shared_task"
    ∷ codes "connect"
    ∷ codes "contextmanager"
    ∷ codes "asynccontextmanager"
    ∷ codes "receiver"
    ∷ codes "property"
    ∷ codes "staticmethod"
    ∷ codes "classmethod"
    ∷ codes "action"
    ∷ codes "display"
    ∷ codes "admin_display"
    ∷ codes "register"
    ∷ codes "field_validator"
    ∷ codes "model_validator"
    ∷ codes "validator"
    ∷ codes "root_validator"
    ∷ codes "fixture"
    ∷ codes "pytest.fixture"
    ∷ codes "database_sync_to_async"
    ∷ codes "lru_cache"
    ∷ codes "cache"
    ∷ []

abbrev pub skip_dirs : List Text
skip_dirs =
    codes "__pycache__"
    ∷ codes ".venv"
    ∷ codes "venv"
    ∷ codes ".git"
    ∷ codes "node_modules"
    ∷ codes "migrations"
    ∷ []

abbrev pub skip_files_for_definitions : List Text
skip_files_for_definitions = codes "models.py" ∷ []

-- ===== src/Unused/Ignored.antt =====
-- The functions and classes that check_unused_functions.py never reports.
use ai_chat_websocket.Prelude.{Text, codes, List, [], ◌∷◌}

abbrev pub ignored_functions : List Text
ignored_functions =
    codes "handle"
    ∷ codes "add_arguments"
    ∷ codes "ready"
    ∷ codes "debug_task"
    ∷ codes "start"
    ∷ codes "stop"
    ∷ codes "test_"
    ∷ codes "validate_"
    ∷ codes "save"
    ∷ codes "delete"
    ∷ codes "clean"
    ∷ codes "get_absolute_url"
    ∷ codes "format_value"
    ∷ codes "render"
    ∷ codes "value_from_datadict"
    ∷ codes "get_context"
    ∷ codes "process_request"
    ∷ codes "process_response"
    ∷ codes "process_view"
    ∷ codes "process_exception"
    ∷ codes "process_template_response"
    ∷ codes "get_available_name"
    ∷ codes "get_valid_name"
    ∷ codes "parse_body"
    ∷ codes "get_view_on_site_url"
    ∷ codes "get_queryset"
    ∷ codes "get_readonly_fields"
    ∷ codes "get_fieldsets"
    ∷ codes "get_list_display"
    ∷ codes "get_list_filter"
    ∷ codes "get_search_fields"
    ∷ codes "get_ordering"
    ∷ codes "has_add_permission"
    ∷ codes "has_change_permission"
    ∷ codes "has_delete_permission"
    ∷ codes "has_view_permission"
    ∷ codes "change_view"
    ∷ codes "add_view"
    ∷ codes "delete_view"
    ∷ codes "changelist_view"
    ∷ codes "response_change"
    ∷ codes "response_add"
    ∷ codes "save_model"
    ∷ codes "delete_model"
    ∷ codes "formfield_for_foreignkey"
    ∷ codes "formfield_for_manytomany"
    ∷ codes "connect"
    ∷ codes "disconnect"
    ∷ codes "receive"
    ∷ codes "websocket_connect"
    ∷ codes "websocket_disconnect"
    ∷ codes "websocket_receive"
    ∷ codes "authenticate"
    ∷ codes "to_dict"
    ∷ codes "to_json"
    ∷ codes "get_allowed_hosts"
    ∷ codes "__init__"
    ∷ codes "__str__"
    ∷ codes "__repr__"
    ∷ codes "__call__"
    ∷ codes "__enter__"
    ∷ codes "__exit__"
    ∷ codes "__aenter__"
    ∷ codes "__aexit__"
    ∷ codes "__hash__"
    ∷ codes "__eq__"
    ∷ codes "__lt__"
    ∷ codes "__le__"
    ∷ codes "__gt__"
    ∷ codes "__ge__"
    ∷ []

abbrev pub ignored_classes : List Text
ignored_classes =
    codes "CreatedAtMixin"
    ∷ codes "UpdatedAtMixin"
    ∷ codes "LanguageMixin"
    ∷ codes "FileMixin"
    ∷ codes "Meta"
    ∷ codes "Command"
    ∷ codes "Admin"
    ∷ codes "ModelAdmin"
    ∷ codes "TabularInline"
    ∷ codes "StackedInline"
    ∷ codes "Media"
    ∷ codes "Error"
    ∷ codes "Exception"
    ∷ codes "Config"
    ∷ codes "ConfigDict"
    ∷ codes "Test"
    ∷ codes "Consumer"
    ∷ codes "StreamChunk"
    ∷ codes "StreamError"
    ∷ []

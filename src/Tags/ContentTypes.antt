-- ===== src/Tags/ContentTypes.antt =====
-- request_body.go: the media types of the body binders.
use go_httpserver.Base.{String}

abbrev pub content_type_is_form : String
content_type_is_form = "application/x-www-form-urlencoded"

abbrev pub content_type_is_json : String
content_type_is_json = "application/json"

abbrev pub content_type_is_multipart : String
content_type_is_multipart = "multipart/form-data"

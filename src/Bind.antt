-- ===== src/Bind.antt =====
-- request_bind.go: binding the sources of a request into the request struct.
pub mod Library
pub mod Statuses
pub mod Body
pub mod Cookies
pub mod Charset
pub mod Bounds
pub mod Order
pub mod Json
pub mod Timed
pub mod Returning
pub mod Total
pub mod Claims
pub mod Selected
use go_httpserver.Bind.Library.{
  KeyValues, Params, BindLibrary, Result, success, fail, bad_request_on, Race,
}
use go_httpserver.Tags.ContentTypes.{
  content_type_is_form, content_type_is_json, content_type_is_multipart,
}
use go_httpserver.Bind.Body.{bind_full_text_body, bind_form, bind_json, bind_multipart, bind_body}
use go_httpserver.Base.{
  contains, ℕ, Bool, true, false, ◌&&◌, ◌||◌, Option, none, some, String, List, [], ◌∷◌, ◌++◌, ◌⊎◌,
  not, inl, inr, ⊤, if◌then◌else◌, str_eq, is_some,
}
use go_httpserver.Base.Int.{ℤ, pos, is_zero_ℤ}
use go_httpserver.Effect.{Action, Error, Outcome, returned, panicked, pure, modify, ◌>>=◌, ◌>>◌}
use go_httpserver.State.{Request}
use go_httpserver.PathValues.{KeyValue, get_path_values}
use go_httpserver.Tags.{
  Source, RequestTags, header, cookie, query, url, form, json, multipart, body,
}

-- `keyValues[name] = append(keyValues[name], value)`.
unfoldable pub append_value : String → String → KeyValues → KeyValues
append_value name value [] = (name, value ∷ []) ∷ []
append_value name value ((k, vs) ∷ m) =
    if str_eq k name then (k, vs ++ value ∷ []) ∷ m else (k, vs) ∷ append_value name value m

-- The loop of bindCookie.
unfoldable pub cookie_values : List (String × String) → KeyValues → KeyValues
unfolding append_value
cookie_values [] m = m
cookie_values ((name, value) ∷ cookies) m = cookie_values cookies (append_value name value m)

abbrev is_empty {ℓ} : {A : Type ℓ} → List A → Bool
is_empty [] = true
is_empty (_ ∷ _) = false

abbrev or_empty : Option KeyValue → KeyValue
or_empty none = []
or_empty (some m) = m

-- `if tags.flags&flag != 0 { if status, parseErr = m; parseErr != nil { return } }`, and then `rest`.
unfoldable pub stage : {V : Type 0} → Bool → Action V Result → Action V Result → Action V Result
stage false m rest = rest
stage true m rest = do r ← m; if is_some r.error then pure r else rest

module _ {V : Type 0} (lib : BindLibrary V) (tags : RequestTags) (request : Request) where
  unfoldable pub bind_header : Action V Result
  bind_header = if is_empty request.header then pure success else elim (tags.field_index header) [
    | some index ↦ do modify (lib.set_header index request.header); pure success
    | none ↦ do
      err ← lib.bind_key_values "header" request.header
      bad_request_on err "HttpServer: Bind request header failed"
  ]

  unfoldable pub bind_cookie : Action V Result
  unfolding cookie_values
  bind_cookie =
      let key_values = cookie_values (lib.cookies request) [] in
      if is_empty (lib.cookies request) then pure success else elim (tags.field_index cookie) [
        | some index ↦ do modify (lib.set_key_values index key_values); pure success
        | none ↦ do
          err ← lib.bind_key_values "cookie" key_values
          bad_request_on err "HttpServer: Bind cookies failed"
      ]

  unfoldable pub bind_query : Action V Result
  bind_query =
      if is_empty (lib.url_query request) then pure success else elim (tags.field_index query) [
        | some index ↦ do modify (lib.set_key_values index (lib.url_query request)); pure success
        | none ↦ do
          err ← lib.bind_key_values "query" (lib.url_query request)
          bad_request_on err "HttpServer: Bind query values failed"
      ]

  bind_url_values : KeyValue → Action V Result
  bind_url_values key_value =
      if is_empty key_value then pure success else elim (tags.field_index url) [
        | some index ↦ do modify (lib.set_key_value index key_value); pure success
        | none ↦ do
          err ← lib.bind_key_value "url" key_value
          bad_request_on err "HttpServer: Bind url params failed"
      ]

  unfoldable pub bind_url : Action V Result
  unfolding bind_url_values get_path_values
  bind_url = if str_eq request.pattern "" then pure success else do
    key_value ← (λ v. (get_path_values request.mirror, v))
    bind_url_values (or_empty key_value)

  -- The body, once the Content-Type is known. `race` decides how reading a text body ends.
  unfoldable pub bind_body_of_type : Race V → String → Params → Action V Result
  unfolding bind_full_text_body bind_form bind_json bind_multipart bind_body
  bind_body_of_type race content_type params =
      if tags.flags form && str_eq content_type content_type_is_form
      then bind_full_text_body lib request params (bind_form lib tags) race
      else if tags.flags json && str_eq content_type content_type_is_json
      then bind_full_text_body lib request params (bind_json lib tags) race
      else if tags.flags multipart && str_eq content_type content_type_is_multipart
      then bind_multipart lib tags request params
      else if tags.flags body
          && (is_empty tags.body_content_types || contains tags.body_content_types content_type)
      then bind_body lib tags request >> pure success
      else pure (fail 415 "HttpServer: Content-Type is unsupported")

  unfoldable pub bind_media_type : Race V → (String × Params) ⊎ Error → Action V Result
  bind_media_type race (inl (content_type, params)) = bind_body_of_type race content_type params
  bind_media_type race (inr err) = pure (fail 400 "HttpServer: Content-Type is invalid")

  abbrev has_body_method : Bool
  has_body_method =
      str_eq request.method "POST"
      || str_eq request.method "PUT"
      || str_eq request.method "PATCH"
      || str_eq request.method "DELETE"

  -- The part of parse that follows the sources other than the body.
  unfoldable pub parse_body : Race V → Action V Result
  unfolding bind_media_type
  parse_body race =
      let content_type = lib.header_get "Content-Type" request.header in
      if not (tags.flags form || tags.flags json || tags.flags multipart || tags.flags body)
      then pure success
      else if not has_body_method || is_zero_ℤ request.content_length
      then pure success
      else if str_eq content_type ""
      then pure (fail 415 "HttpServer: Content-Type is missing")
      else bind_media_type race (lib.parse_media_type content_type)

  unfoldable pub parse : Race V → Action V Result
  unfolding stage
  parse race = stage (tags.flags header) bind_header (
      stage (tags.flags cookie) bind_cookie
        (stage (tags.flags query) bind_query (stage (tags.flags url) bind_url (parse_body race))))

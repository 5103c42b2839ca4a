-- ===== src/Bind/Selected.antt =====
-- Which binder takes a body.
use go_httpserver.Base.{
  ℕ, ◌≡◌, ◌≢◌, refl, arith, Bool, true, false, ◌&&◌, ◌||◌, Option, none, some, String, List, inl,
  str_eq, str_eq_iff, if◌then◌else◌,
}
use go_httpserver.Base.Int.{is_zero_ℤ}
use go_httpserver.Effect.{Action, Panic, returned, pure, ◌>>◌}
use go_httpserver.State.{Request}
use go_httpserver.Tags.{Source, RequestTags, form, json, multipart, body}
use go_httpserver.Tags.ContentTypes.{
  content_type_is_form, content_type_is_json, content_type_is_multipart,
}
use go_httpserver.Tags.Compile.{Fields, compile}
use go_httpserver.Bind.Library.{BindLibrary, Params, Race, Result, success, fail}
use go_httpserver.Bind.Body.{bind_full_text_body, bind_form, bind_json, bind_multipart, bind_body}
use go_httpserver.Bind.{bind_body_of_type, bind_media_type, parse_body, has_body_method}
use go_httpserver.Bind.Claims.{
  Serves, compiled-IsApart, server, server_only, server-Serves, takes_body,
}

chosen :
    {A : Type 0} (g : Option Source → A) (f j m b : Bool)
    → (if f
        then g (some form)
        else if j
        then g (some json)
        else if m
        then g (some multipart)
        else if b
        then g (some body)
        else g none)
      ≡ g (
          if f
          then some form
          else if j
          then some json
          else if m
          then some multipart
          else if b
          then some body
          else none)
chosen g true j m b = refl
chosen g false true m b = refl
chosen g false false true b = refl
chosen g false false false true = refl
chosen g false false false false = refl

module _ {V : Type 0} (lib : BindLibrary V) (tags : RequestTags) (request : Request)
    (race : Race V) where
  -- The work of the binder of a source.
  abbrev pub bind_by : Option Source → Params → Action V Result
  bind_by (some form) params = bind_full_text_body lib request params (bind_form lib tags) race
  bind_by (some json) params = bind_full_text_body lib request params (bind_json lib tags) race
  bind_by (some multipart) params = bind_multipart lib tags request params
  bind_by (some body) params = bind_body lib tags request >> pure success
  bind_by _ params = pure (fail 415 "HttpServer: Content-Type is unsupported")

  served_by :
      (type : String) (params : Params)
      → bind_body_of_type lib tags request race type params ≡ bind_by (server tags type) params
  unfolding bind_body_of_type server
  served_by type params =
      chosen (λ o. bind_by o params) (tags.flags form && str_eq type content_type_is_form)
        (tags.flags json && str_eq type content_type_is_json)
        (tags.flags multipart && str_eq type content_type_is_multipart) (takes_body tags type)

  -- For compiled tags, and a request with a method and a length that allow a body, to be bound by some body tag
  -- and with a Content-Type that parses: there is exactly one way in which the media type is served, by a binder
  -- that claims it (whatever the order in which the code asks them), by the raw body that takes the rest, or not
  -- at all; and binding the body is the work of that binder, or the error 415.
  pub parse_body-Serves :
      (split_fields : String → List String) (struct_of : ℕ → Option Fields)
      (apply_defaults : ℕ → Option Panic) (name : ℕ) (members : Fields)
      → compile split_fields struct_of apply_defaults name members ≡ returned tags
      → (type : String) (params : Params)
      → tags.flags form || tags.flags json || tags.flags multipart || tags.flags body ≡ true
      → has_body_method lib tags request ≡ true
      → is_zero_ℤ request.content_length ≡ false
      → lib.header_get "Content-Type" request.header ≢ ""
      → lib.parse_media_type (lib.header_get "Content-Type" request.header) ≡ inl (type, params)
      → (o : Option Source) × Serves tags type o
        × ((o' : Option Source) → Serves tags type o' → o ≡ o')
        × (parse_body lib tags request race ≡ bind_by o params)
  unfolding parse_body bind_media_type
  parse_body-Serves split_fields struct_of apply_defaults name members made type params uses method
        length named parsed =
      (
        server tags type,
        server-Serves tags type,
        λ o' serves.
            server_only tags type o'
              (compiled-IsApart split_fields struct_of apply_defaults name members tags made)
              serves,
        (let nonempty : str_eq (lib.header_get "Content-Type" request.header) "" ≡ false =
              ground (arith, str_eq_iff (lib.header_get "Content-Type" request.header) "", named) in
            rw (uses, method, length, nonempty, parsed) (served_by type params)),
      )

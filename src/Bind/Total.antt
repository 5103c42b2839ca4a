-- ===== src/Bind/Total.antt =====
-- Binding with compiled tags does not panic of itself.
use go_httpserver.Base.{◌≡◌, refl, arith, ℕ, Option, String, List, ◌⊎◌, Option-cases, inl, inr}
use go_httpserver.Effect.{Action, Error, Panic, returned}
use go_httpserver.State.{Reader, Request}
use go_httpserver.Tags.{RequestTags, header, cookie, query, url}
use go_httpserver.Tags.Indexed.{IsIndexed, compile-AllIndexed}
use go_httpserver.Tags.Compile.{Fields, compile}
use go_httpserver.Bind.Library.{BindLibrary, Result, Race, Params}
use go_httpserver.Bind.Body.{bind_full_text_body, bind_form, bind_json, charset_reader}
use go_httpserver.Bind.{
  bind_header, bind_cookie, bind_query, bind_url, bind_body_of_type, bind_media_type, parse_body,
  stage, parse,
}
use go_httpserver.Bind.Returning.{
  Returns, AllReturn, HasValues, stage-Returns, bind_header-Returns, bind_cookie-Returns,
  bind_query-Returns, bind_url-Returns, bind_form-Returns, bind_json-Returns,
  bind_multipart-Returns, bind_body-Returns, of_returned, of_compiled,
}

module _ {V : Type 0} (lib : BindLibrary V) (tags : RequestTags) (request : Request)
    (safe : AllReturn lib) where
  bind_full_text_body-Returns :
      (params : Params) (binder : Reader → Action V Result) (race : Race V)
      → ((r : Reader) → Returns (binder r))
      → Returns (bind_full_text_body lib request params binder race)
  unfolding bind_full_text_body
  bind_full_text_body-Returns params binder race h v =
      elim (Option-cases (charset_reader lib request.body params)) [
        | inl unknown ↦ ground arith
        | inr (r, known) ↦ ground (arith, h r v)
      ]

  bind_body_of_type-Returns :
      (race : Race V) (content_type : String) (params : Params)
      → IsIndexed tags
      → Returns (bind_body_of_type lib tags request race content_type params)
  unfolding bind_body_of_type
  bind_body_of_type-Returns race content_type params (_, parts, whole) v = ground (
    arith,
    bind_full_text_body-Returns params (bind_form lib tags) race
        (bind_form-Returns lib tags request safe) v,
    bind_full_text_body-Returns params (bind_json lib tags) race
        (bind_json-Returns lib tags request safe) v,
    bind_multipart-Returns lib tags request safe params,
    bind_body-Returns lib tags request safe,
  )

  bind_media_type-Returns :
      (race : Race V) (m : (String × Params) ⊎ Error)
      → IsIndexed tags
      → Returns (bind_media_type lib tags request race m)
  unfolding bind_media_type
  bind_media_type-Returns race (inl (content_type, params)) indexed =
      bind_body_of_type-Returns race content_type params indexed
  bind_media_type-Returns race (inr err) indexed = λ v. refl

  parse_body-Returns : (race : Race V) → IsIndexed tags → Returns (parse_body lib tags request race)
  unfolding parse_body
  parse_body-Returns race indexed v = ground (
    arith,
    bind_media_type-Returns race
        (lib.parse_media_type (lib.header_get "Content-Type" request.header)) indexed v,
  )

  sources_return :
      (race : Race V)
      → IsIndexed tags
      → HasValues request.mirror
      → Returns (parse lib tags request race)
  unfolding parse
  sources_return race indexed enough =
      let b = parse_body lib tags request race in
      let u = stage (tags.flags url) (bind_url lib tags request) b in
      let q = stage (tags.flags query) (bind_query lib tags request) u in
      let c = stage (tags.flags cookie) (bind_cookie lib tags request) q in
      stage-Returns (tags.flags header) (bind_header lib tags request) c
        (bind_header-Returns lib tags request safe)
        (stage-Returns (tags.flags cookie) (bind_cookie lib tags request) q
          (bind_cookie-Returns lib tags request safe)
          (stage-Returns (tags.flags query) (bind_query lib tags request) u
            (bind_query-Returns lib tags request safe)
            (stage-Returns (tags.flags url) (bind_url lib tags request) b
              (bind_url-Returns lib tags request safe enough) (parse_body-Returns race indexed))))

module _ {V : Type 0} (lib : BindLibrary V) (safe : AllReturn lib) where
  -- With the tags of a request struct that compiled, on a request for which the ServeMux captured a value for
  -- each named wildcard, binding returns: where the functions that it calls to write fields return, it
  -- panics at no index, missing field path or other place of its own, however the race with the timeout ends.
  pub parse_returns :
      (split_fields : String → List String) (struct_of : ℕ → Option Fields)
      (apply_defaults : ℕ → Option Panic) (name : ℕ) (members : Fields) (tags : RequestTags)
      → compile split_fields struct_of apply_defaults name members ≡ returned tags
      → (request : Request) (race : Race V) (v : V) → HasValues request.mirror
      → (r : Result) × (w : V) × (parse lib tags request race v ≡ (returned r, w))
  parse_returns split_fields struct_of apply_defaults name members tags made request race v enough =
      of_returned (parse lib tags request race v) (
        sources_return lib tags request safe race
          (of_compiled _ tags made
            (compile-AllIndexed split_fields struct_of apply_defaults name members))
          enough v)

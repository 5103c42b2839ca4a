-- ===== src/Bind/Statuses.antt =====
-- With which status each way of binding fails.
use go_httpserver.Base.{
  ◌≡◌, ◌⊎◌, inl, inr, refl, arith, Bool, true, false, none, String, ⊤, if◌then◌else◌, is_some,
  Option-cases, Bool-cases,
}
use go_httpserver.Base.Int.{pos, ◌≤ℤ◌}
use go_httpserver.Effect.{Action, Error, Outcome, returned, panicked, continue, pure, ◌>>=◌}
use go_httpserver.State.{Request, Reader}
use go_httpserver.PathValues.{KeyValue}
use go_httpserver.Tags.{RequestTags, header, cookie, query, url}
use go_httpserver.Bind.Library.{BindLibrary, Result, Race, Params}
use go_httpserver.Bind.Body.{
  bind_full_text_body, bind_form, bind_json, bind_multipart, charset_reader,
}
use go_httpserver.Bind.{
  bind_header, bind_cookie, bind_query, bind_url, bind_url_values, bind_body_of_type,
  bind_media_type, parse_body, stage, parse,
}

-- Success is status 0 with no error; a failure has an error and a status from 400 to 500.
abbrev pub IsProper : Outcome Result → Type 0
IsProper (returned r) =
    (r.error ≡ none) × (r.status ≡ pos 0)
    ⊎ (is_some r.error ≡ true) × (pos 400 ≤ℤ r.status) × (r.status ≤ℤ pos 500)
IsProper (panicked e) = ⊤

abbrev Properly : {V : Type 0} → Action V Result → Type 0
Properly {V} m = (v : V) → IsProper (m v).0

module _ {V : Type 0} where
  after_Properly :
      {A : Type 0} (m : Action V A) (f : A → Action V Result)
      → ((a : A) → Properly (f a))
      → Properly (m >>= f)
  after_Properly m f h v = after (m v).0 (m v).1
    where
      after : (r : Outcome _) (v' : V) → IsProper (continue r f v').0
      after (returned a) v' = h a v'
      after (panicked e) v' = tt

  stage-IsProper :
      (on : Bool) (m rest : Action V Result)
      → Properly m
      → Properly rest
      → Properly (stage on m rest)
  unfolding stage
  stage-IsProper false m rest h h' v = h' v
  stage-IsProper true m rest h h' v = after (m v).0 (m v).1 (h v)
    where
      after :
          (r : Outcome Result) (v' : V)
          → IsProper r
          → IsProper (continue r (λ a. if is_some a.error then pure a else rest) v').0
      after (returned r) v' proper = elim (Bool-cases (is_some r.error)) [
        | inl failed ↦ rw failed proper
        | inr fine ↦ rw fine (h' v')
      ]
      after (panicked e) v' proper = tt

module _ {V : Type 0} (lib : BindLibrary V) (tags : RequestTags) (request : Request) where
  bind_header-IsProper : Properly (bind_header lib tags request)
  unfolding bind_header
  bind_header-IsProper v = ground arith

  bind_cookie-IsProper : Properly (bind_cookie lib tags request)
  unfolding bind_cookie
  bind_cookie-IsProper v = ground arith

  bind_query-IsProper : Properly (bind_query lib tags request)
  unfolding bind_query
  bind_query-IsProper v = ground arith

  bind_url_values-IsProper : (m : KeyValue) → Properly (bind_url_values lib tags request m)
  unfolding bind_url_values
  bind_url_values-IsProper m v = ground arith

  bind_url-IsProper : Properly (bind_url lib tags request)
  unfolding bind_url
  bind_url-IsProper v = ground arith

  bind_form-IsProper : (r : Reader) → Properly (bind_form lib tags r)
  unfolding bind_form
  bind_form-IsProper r v = ground arith

  bind_json-IsProper : (r : Reader) → Properly (bind_json lib tags r)
  unfolding bind_json
  bind_json-IsProper r v = ground arith

  bind_multipart-IsProper : (params : Params) → Properly (bind_multipart lib tags request params)
  unfolding bind_multipart
  bind_multipart-IsProper params v = ground arith

  bind_full_text_body-IsProper :
      (params : Params) (binder : Reader → Action V Result) (race : Race V)
      → ((r : Reader) → Properly (binder r))
      → Properly (bind_full_text_body lib request params binder race)
  unfolding bind_full_text_body
  bind_full_text_body-IsProper params binder race h v =
      elim (Option-cases (charset_reader lib request.body params)) [
        | inl unknown ↦ ground arith
        | inr (r, known) ↦ ground (arith, h r v)
      ]

  bind_body_of_type-IsProper :
      (race : Race V) (content_type : String) (params : Params)
      → Properly (bind_body_of_type lib tags request race content_type params)
  unfolding bind_body_of_type
  bind_body_of_type-IsProper race content_type params v = ground (
    arith,
    bind_full_text_body-IsProper params (bind_form lib tags) race bind_form-IsProper v,
    bind_full_text_body-IsProper params (bind_json lib tags) race bind_json-IsProper v,
    bind_multipart-IsProper params v,
  )

  bind_media_type-IsProper :
      (race : Race V) (m : (String × Params) ⊎ Error)
      → Properly (bind_media_type lib tags request race m)
  unfolding bind_media_type
  bind_media_type-IsProper race (inl (content_type, params)) v =
      bind_body_of_type-IsProper race content_type params v
  bind_media_type-IsProper race (inr err) v = inr (refl, omega arith, omega arith)

  parse_body-IsProper : (race : Race V) → Properly (parse_body lib tags request race)
  unfolding parse_body
  parse_body-IsProper race v = ground (
    arith,
    bind_media_type-IsProper race
        (lib.parse_media_type (lib.header_get "Content-Type" request.header)) v,
  )

  -- Binding returns status 0 with no error, or an error with a status from 400 to 500, whatever the
  -- tags, the request, the outcome of the race with the timeout and the libraries do; or a library
  -- that it calls panics.
  pub parse-IsProper : (race : Race V) (v : V) → IsProper (parse lib tags request race v).0
  unfolding parse
  parse-IsProper race =
      let b = parse_body lib tags request race in
      let u = stage (tags.flags url) (bind_url lib tags request) b in
      let q = stage (tags.flags query) (bind_query lib tags request) u in
      let c = stage (tags.flags cookie) (bind_cookie lib tags request) q in
      stage-IsProper (tags.flags header) (bind_header lib tags request) c bind_header-IsProper (
        stage-IsProper (tags.flags cookie) (bind_cookie lib tags request) q bind_cookie-IsProper (
          stage-IsProper (tags.flags query) (bind_query lib tags request) u bind_query-IsProper (
            stage-IsProper (tags.flags url) (bind_url lib tags request) b bind_url-IsProper
              (parse_body-IsProper race))))

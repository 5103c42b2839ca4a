-- ===== src/Bind/Returning.antt =====
-- Each binder returns, where the functions that it calls to write fields return.
use go_httpserver.Base.{
  ◌≡◌, ◌≤◌, refl, arith, ℕ, Bool, true, false, Option, none, some, String, List, [], str_eq, length,
  ◌⊎◌, is_some, Option-cases, Bool-cases, inl, inr, if◌then◌else◌,
}
use go_httpserver.Effect.{
  Action, Error, Outcome, returned, panicked, continue, pure, ◌>>=◌, is_returned,
}
use go_httpserver.State.{Reader, Request}
use go_httpserver.PathValues.{HttpPattern, HttpRequest, KeyValue, get_path_values}
use go_httpserver.PathValues.Captured.{Captures, names, all, too_few, get_path_values-Captures}
use go_httpserver.Tags.{RequestTags, json, multipart, body}
use go_httpserver.Tags.Indexed.{IsIndexed, AllIndexed}
use go_httpserver.Bind.Library.{BindLibrary, Result, Params, KeyValues, bad_request_on, success}
use go_httpserver.Bind.Body.{
  bind_form, bind_form_values, bind_json_to, bind_json_map, bind_json_field, after_decode,
  bind_json, bind_multipart, bind_body,
}
use go_httpserver.Bind.{
  bind_header, bind_cookie, bind_query, bind_url, bind_url_values, stage, cookie_values, or_empty,
}

abbrev pub Returns : {V A : Type 0} → Action V A → Type 0
Returns {V} m = (v : V) → is_returned (m v).0 ≡ true

-- The functions that write to the request struct return, with an error or without.
pub record AllReturn {V : Type 0} (lib : BindLibrary V) : Type 0 where
  pub key_values : (tag : String) (m : _) → Returns (lib.bind_key_values tag m)
  pub key_value : (tag : String) (m : KeyValue) → Returns (lib.bind_key_value tag m)
  pub json_values : (values : ℕ) → Returns (lib.bind_json_values values)
  pub json_field : (index : List ℕ) (reader : Reader) → Returns (lib.json_decode_field index reader)

-- The ServeMux has captured a value for each named wildcard of the pattern that matched.
abbrev pub HasValues : HttpRequest → Type 0
HasValues request =
    (pat : HttpPattern)
    → request.pat ≡ some pat
    → length (names pat.segments) ≤ length request.matches

module _ {V : Type 0} where
  after_Returns :
      {A B : Type 0} (m : Action V A) (f : A → Action V B)
      → Returns m
      → ((a : A) → Returns (f a))
      → Returns (m >>= f)
  after_Returns {A} m f h k v = after (m v).0 (m v).1 (h v)
    where
      after :
          (r : Outcome A) (v' : V) → is_returned r ≡ true → is_returned (continue r f v').0 ≡ true
      after (returned a) v' is = k a v'
      after (panicked e) v' is = cc is

  pub stage-Returns :
      (on : Bool) (m rest : Action V Result) → Returns m → Returns rest → Returns (stage on m rest)
  unfolding stage
  stage-Returns false m rest h h' = h'
  stage-Returns true m rest h h' =
      after_Returns m (λ r. if is_some r.error then pure r else rest) h
        λ r u. elim (Bool-cases (is_some r.error)) [
          | inl failed ↦ rw failed refl
          | inr fine ↦ rw fine (h' u)
        ]

pub of_returned :
    {V A : Type 0} (m : Outcome A × V)
    → is_returned m.0 ≡ true
    → (a : A) × (w : V) × (m ≡ (returned a, w))
of_returned (returned a, w) is = (a, w, refl)
of_returned (panicked e, w) is = cc is

pub of_compiled :
    (r : Outcome RequestTags) (tags : RequestTags)
    → r ≡ returned tags
    → AllIndexed r
    → IsIndexed tags
of_compiled r tags is indexed = rw is at indexed

captured_returned :
    (pat : HttpPattern) (matches : List String) {r : Outcome (Option KeyValue)}
    → length (names pat.segments) ≤ length matches
    → Captures pat.segments matches r
    → is_returned r ≡ true
captured_returned pat matches enough (all m le values) = refl
captured_returned pat matches enough (too_few short) = absurd (omega arith)

captured_returns :
    (request : HttpRequest) → HasValues request → is_returned (get_path_values request) ≡ true
unfolding get_path_values
captured_returns request enough = elim (Option-cases request.pat) [
  | inl unmatched ↦ rw unmatched refl
  | inr (pat, matched) ↦ rw matched (
      captured_returned pat request.matches (enough pat matched)
        (get_path_values-Captures pat request.matches))
]

module _ {V : Type 0} (lib : BindLibrary V) (tags : RequestTags) (request : Request)
    (safe : AllReturn lib) where
  pub bind_header-Returns : Returns (bind_header lib tags request)
  unfolding bind_header
  bind_header-Returns v = ground (arith, safe.key_values "header" request.header v)

  pub bind_cookie-Returns : Returns (bind_cookie lib tags request)
  unfolding bind_cookie
  bind_cookie-Returns v =
      ground (arith, safe.key_values "cookie" (cookie_values (lib.cookies request) []) v)

  pub bind_query-Returns : Returns (bind_query lib tags request)
  unfolding bind_query
  bind_query-Returns v = ground (arith, safe.key_values "query" (lib.url_query request) v)

  bind_url_values-Returns : (m : KeyValue) → Returns (bind_url_values lib tags request m)
  unfolding bind_url_values
  bind_url_values-Returns m v = ground (arith, safe.key_value "url" m v)

  pub bind_url-Returns : HasValues request.mirror → Returns (bind_url lib tags request)
  unfolding bind_url
  bind_url-Returns enough = elim (Bool-cases (str_eq request.pattern "")) [
    | inl unmatched ↦ λ v. rw unmatched refl
    | inr matched ↦ λ v. rw matched (
        after_Returns (λ v. (get_path_values request.mirror, v))
          (λ m. bind_url_values lib tags request (or_empty m))
          (λ v. captured_returns request.mirror enough) (λ m. bind_url_values-Returns (or_empty m))
          v)
  ]

  bind_form_values-Returns : (m : KeyValues ⊎ Error) → Returns (bind_form_values lib tags m)
  unfolding bind_form_values
  bind_form_values-Returns (inl values) v = ground (arith, safe.key_values "form" values v)
  bind_form_values-Returns (inr err) v = refl

  pub bind_form-Returns : (r : Reader) → Returns (bind_form lib tags r)
  unfolding bind_form
  bind_form-Returns r v = ground (arith, bind_form_values-Returns (lib.parse_query r.content) v)

  after_decode-Returns :
      (remaining : Reader) (bind : Action V Result)
      → Returns bind
      → Returns (after_decode lib tags remaining bind)
  unfolding after_decode
  after_decode-Returns remaining bind h v = ground (arith, h v)

  bind_json_map-Returns : (r : Reader) (m : ℕ ⊎ Error) → Returns (bind_json_map lib tags r m)
  unfolding bind_json_map
  bind_json_map-Returns r (inr err) = λ v. refl
  bind_json_map-Returns r (inl values) =
      let bind = lib.bind_json_values values >>= λ err.
      bad_request_on err "HttpServer: Bind json values failed" in
      after_decode-Returns (lib.json_remaining r) bind
        λ v. ground (arith, safe.json_values values v)

  bind_json_field-Returns :
      (r : Reader) (err : Option Error) → Returns (bind_json_field lib tags r err)
  unfolding bind_json_field
  bind_json_field-Returns r none =
      after_decode-Returns (lib.json_remaining r) (pure success) (λ v. refl)
  bind_json_field-Returns r (some err) = λ v. refl

  bind_json_to-Returns :
      (target : Option (List ℕ)) (r : Reader) → Returns (bind_json_to lib tags target r)
  unfolding bind_json_to
  bind_json_to-Returns none r = bind_json_map-Returns r (lib.json_decode_map r)
  bind_json_to-Returns (some index) r =
      after_Returns (lib.json_decode_field index r) (bind_json_field lib tags r)
        (safe.json_field index r) (bind_json_field-Returns r)

  pub bind_json-Returns : (r : Reader) → Returns (bind_json lib tags r)
  unfolding bind_json
  bind_json-Returns r = bind_json_to-Returns (tags.field_index json) r

  pub bind_multipart-Returns :
      (params : Params)
      → is_some (tags.field_index multipart) ≡ true
      → Returns (bind_multipart lib tags request params)
  unfolding bind_multipart
  bind_multipart-Returns params indexed v = ground arith

  pub bind_body-Returns :
      is_some (tags.field_index body) ≡ true → Returns (bind_body lib tags request)
  unfolding bind_body
  bind_body-Returns indexed v = ground arith

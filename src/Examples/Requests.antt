-- ===== src/Examples/Requests.antt =====
-- Typed handlers and the binding of requests.
use go_httpserver.Base.{
  ℕ, ◌≡◌, refl, inl, inr, none, some, [], ◌∷◌, ◌+◌, true, false, ⊤, Bool, arith, str_eq_iff, ◌↔◌,
  map,
}
use go_httpserver.Base.Int.{pos}
use go_httpserver.Effect.{returned, pure, ◌>>◌}
use go_httpserver.State.{State, Reader, Request, M}
use go_httpserver.Context.{new_response}
use go_httpserver.PathValues.{HttpPattern, get_path_values, KeyValue, lookup}
use go_httpserver.PathValues.Captured.{Captures, get_path_values-Captures}
use go_httpserver.Tags.{Source, RequestTags, query, json}
use go_httpserver.Bind
use go_httpserver.Bind.{parse, cookie_values, append_value, parse_body}
use go_httpserver.Bind.Library.{BindLibrary, binder_done, timed_out, success}
use go_httpserver.Bind.Charset.{Decision, charset_reader-decides}
use go_httpserver.Bind.Body.{charset_reader, bind_json}
use go_httpserver.Bind.Bounds.{Decoders, with_decoders, parse_body_unread}
use go_httpserver.Bind.Order.{InOrder, parse-InOrder}
use go_httpserver.Bind.Json.{Accepts, bind_json-Accepts}
use go_httpserver.PathValues.RoundTrip.{get_path_values_back}
use go_httpserver.Bind.Statuses.{IsProper, parse-IsProper}
use go_httpserver.RequestHandler.{request_handler}
use go_httpserver.RequestHandler.Guards.{Follows, verdict, request_handler-Follows}
use go_httpserver.RequestHandler.Torn.{both_timed_out, request_handler_ignores_torn}
use go_httpserver.Examples.{get, started}

-- Request structs with one number, which counts what was bound to it.
abbrev pub counting : BindLibrary ℕ
counting = record {
  set_header = λ index h v. v + 1;
  set_key_values = λ index m v. v + 1;
  set_key_value = λ index m v. v + 1;
  set_multipart = λ index r boundary v. v + 1;
  set_body = λ index r v. v + 1;
  bind_key_values = λ tag m v. (returned none, v + 1);
  bind_key_value = λ tag m v. (returned none, v + 1);
  bind_json_values = λ values v. (returned none, v + 1);
  apply_defaults = λ v. (returned none, v + 10);
  validate_struct = λ v. none;
  cookies = λ r. [];
  url_query = λ r. ("q", "1" ∷ []) ∷ [];
  header_get = λ name h. "application/json";
  parse_media_type = λ s. inl (s, []);
  parse_query = λ b. inl [];
  charset_lookup = λ s. none;
  decoded = λ e r. r;
  json_decode_field = λ index r v. (returned none, v + 1);
  json_decode_map = λ r. inl 0;
  json_remaining = λ r. record r { content = [] };
}

abbrev pub uses_query_and_json : Source → Bool
uses_query_and_json query = true
uses_query_and_json json = true
uses_query_and_json _ = false

abbrev pub query_and_json : RequestTags
query_and_json = record {
  flags = uses_query_and_json;
  field_index = λ source. none;
  body_content_types = [];
}

abbrev pub post : Request
post = record get {
  method = "POST";
  content_length = pos 2;
  body = record { content = b'{' ∷ b'}' ∷ []; fails = none };
}

abbrev posted : State
posted = record started { context = record started.context { request = some post } }

abbrev created : ℕ → M ⊤
created v = do new_response (pos 201); pure tt

parse_counts :
    parse counting query_and_json post binder_done 10
    ≡ (returned (record { status = pos 0; error = none }), 12)
unfolding parse Bind.bind_query Bind.parse_body Bind.bind_body_of_type
parse_counts = refl

parse-IsProper_example : IsProper (parse counting query_and_json post (timed_out (λ v. 7)) 10).0
parse-IsProper_example = parse-IsProper counting query_and_json post (timed_out (λ v. 7)) 10

request_handler-Follows_example :
    Follows counting query_and_json 0 binder_done true created posted
      (request_handler counting query_and_json 0 binder_done true created posted)
      (verdict counting query_and_json post binder_done 0)
request_handler-Follows_example =
    request_handler-Follows counting query_and_json 0 binder_done true created posted post refl
      (inr (refl, refl))

request_handler_ignores_torn_example :
    request_handler counting query_and_json 0 (timed_out (λ v. 7)) true created posted
    ≡ request_handler counting query_and_json 0 (timed_out (λ v. 8)) true created posted
request_handler_ignores_torn_example =
    request_handler_ignores_torn counting query_and_json 0 (timed_out (λ v. 7)) (timed_out (λ v. 8))
      true created posted post refl (both_timed_out (λ v. 7) (λ v. 8))

abbrev pub files : HttpPattern
files = record {
  str = "/{id}/x/{rest...}";
  method = "";
  host = "";
  segments =
      record { s = "id"; wild = true; multi = false }
      ∷ record { s = "x"; wild = false; multi = false }
      ∷ record { s = "rest"; wild = true; multi = true }
      ∷ [];
  loc = "";
}

get_path_values-Captures_example :
    Captures files.segments
      ("1" ∷ "2" ∷ [])
      (get_path_values (record { pat = some files; matches = "1" ∷ "2" ∷ [] }))
get_path_values-Captures_example = get_path_values-Captures files ("1" ∷ "2" ∷ [])

abbrev marked_body : Reader
marked_body = record { content = 0xEF ∷ 0xBB ∷ 0xBF ∷ b'{' ∷ b'}' ∷ []; fails = none }

charset_reader-decides_example :
    Decision counting marked_body [] (charset_reader counting marked_body [])
charset_reader-decides_example = charset_reader-decides counting marked_body []

-- A JSON body of more than 1 MiB, and decoders that find something in any text.
abbrev large : Request
large = record post { content_length = pos 2000000 }

abbrev lavish : Decoders ℕ
lavish = record {
  parse_query = λ b. inl (("x", []) ∷ []);
  charset_lookup = λ s. some 1;
  decoded = λ e r. r;
  json_decode_field = λ index r v. (returned none, v + 100);
  json_decode_map = λ r. inl 3;
  json_remaining = λ r. r;
}

parse_body_unread_example :
    parse_body counting query_and_json large binder_done 4
    ≡ parse_body (with_decoders counting lavish) query_and_json large (timed_out (λ v. 7)) 4
parse_body_unread_example =
    parse_body_unread counting lavish query_and_json large binder_done (timed_out (λ v. 7))
      (inr (omega arith)) 4

parse-InOrder_example : InOrder counting query_and_json post binder_done 10 12 success
unfolding parse Bind.bind_query Bind.parse_body Bind.bind_body_of_type
parse-InOrder_example =
    parse-InOrder counting query_and_json post binder_done 10 12 success refl refl

bind_json-Accepts_example :
    (bind_json counting query_and_json post.body 3 ≡ (returned success, 4))
    ↔ Accepts counting query_and_json none post.body 3 4
bind_json-Accepts_example = bind_json-Accepts counting query_and_json post.body 3 4

get_path_values_back_example :
    (m : KeyValue) × (get_path_values (record { pat = some files; matches = "1" ∷ "2" ∷ [] })
      ≡ returned (some m))
    × (map (λ k. lookup k m) ("id" ∷ "rest" ∷ []) ≡ some "1" ∷ some "2" ∷ [])
get_path_values_back_example =
    get_path_values_back files ("1" ∷ "2" ∷ [])
      ((ground (arith, str_eq_iff "id" "rest"), tt), (tt, tt)) refl

-- ===== src/Bind/Body.antt =====
-- request_body.go: the binders of the request body.
use go_httpserver.Base.{
  ℕ, ◌^◌, Bool, false, ◌&&◌, ◌||◌, not, Option, none, some, String, List, [], ◌∷◌, ◌⊎◌, inl, inr, ⊤,
  if◌then◌else◌, ◌==◌, is_some,
}
use go_httpserver.Base.Int.{pos, ltb_ℤ}
use go_httpserver.Effect.{Action, Error, nil_dereference, panic, pure, modify, ◌>>=◌, ◌>>◌}
use go_httpserver.State.{Reader, Request}
use go_httpserver.PathValues.{lookup}
use go_httpserver.Tags.{RequestTags, form, json, multipart, body}
use go_httpserver.Bind.Library.{
  KeyValues, Params, named, utf16_le, utf16_be, BindLibrary, Result, success, fail, bad_request_on,
  Race, binder_done, client_gone, timed_out,
}

-- 1 MiB.
abbrev pub max_body_length : ℕ
max_body_length = 2 ^ 20

abbrev advance : Reader → List ℕ → Reader
advance reader rest = record reader { content = rest }

-- Whitespace according to RFC 8259; every such character is one byte.
abbrev is_whitespace : ℕ → Bool
is_whitespace c = c == b' ' || c == 0x09 || c == 0x0D || c == 0x0A

unfoldable pub has_trailing_data : List ℕ → Bool
has_trailing_data [] = false
has_trailing_data (c ∷ rest) = not (is_whitespace c) || has_trailing_data rest

module _ {V : Type 0} (lib : BindLibrary V) where
  -- The second case of the switch: two bytes at least.
  unfoldable pub utf16_reader : Reader → List ℕ → Reader
  utf16_reader reader (a ∷ b ∷ rest) =
      if a == 0xFF && b == 0xFE
      then lib.decoded utf16_le (advance reader rest)
      else if a == 0xFE && b == 0xFF
      then lib.decoded utf16_be (advance reader rest)
      else reader
  utf16_reader reader _ = reader

  -- The switch on what Peek(3) gives; the first case falls through to the second.
  unfoldable pub bom_reader : Reader → List ℕ → Reader
  unfolding utf16_reader
  bom_reader reader (a ∷ b ∷ c ∷ rest) =
      if a == 0xEF && b == 0xBB && c == 0xBF
      then advance reader rest
      else utf16_reader reader (a ∷ b ∷ c ∷ rest)
  bom_reader reader content = utf16_reader reader content

  abbrev pub decode_by : Reader → Option ℕ → Option Reader
  decode_by reader (some encoding) = some (lib.decoded (named encoding) reader)
  decode_by reader none = none

  unfoldable pub decode : Reader → Option String → Option Reader
  unfolding bom_reader
  decode reader (some charset) = decode_by reader (lib.charset_lookup charset)
  decode reader none = some (bom_reader reader reader.content)

  unfoldable pub charset_reader : Reader → Params → Option Reader
  unfolding decode lookup
  charset_reader reader params = decode reader (lookup "charset" params)

  abbrev pub bind_reader : (Reader → Action V Result) → Option Reader → Action V Result
  bind_reader binder (some reader) = binder reader
  bind_reader binder none = pure (fail 415 "HttpServer: cannot determine body encoding")

  -- The select. On a timeout or a disconnection the body is closed.
  abbrev pub race_binder : Action V Result → Race V → Action V Result
  race_binder bound binder_done = bound
  race_binder bound (client_gone torn) = do
    modify torn
    pure (fail 408 "HttpServer: Client disconnected")
  race_binder bound (timed_out torn) = do
    modify torn
    pure (fail 408 "HttpServer: Bind body timed out")

  unfoldable pub bind_full_text_body :
      Request → Params → (Reader → Action V Result) → Race V → Action V Result
  unfolding charset_reader
  bind_full_text_body request params binder race =
      if ltb_ℤ request.content_length (pos 0)
      then pure (fail 411 "HttpServer: Content-Length is required but missing")
      else if ltb_ℤ (pos max_body_length) request.content_length
      then pure (fail 413 "HttpServer: Content-Length is too large")
      else race_binder (bind_reader binder (charset_reader request.body params)) race

  module _ (tags : RequestTags) where
    unfoldable pub bind_form_values : KeyValues ⊎ Error → Action V Result
    bind_form_values (inr err) = pure (fail 400 "HttpServer: Parse form body failed")
    bind_form_values (inl values) = elim (tags.field_index form) [
      | some index ↦ do modify (lib.set_key_values index values); pure success
      | none ↦ do
        err ← lib.bind_key_values "form" values
        bad_request_on err "HttpServer: Bind form params failed"
    ]

    unfoldable pub bind_form : Reader → Action V Result
    unfolding bind_form_values
    bind_form reader =
        if is_some reader.fails
        then pure (fail 500 "HttpServer: Read request body failed")
        else bind_form_values (lib.parse_query reader.content)

    -- What follows a Decode that succeeded; `bind` binds the values, if they went to a map.
    unfoldable pub after_decode : Reader → Action V Result → Action V Result
    unfolding has_trailing_data
    after_decode remaining bind =
        if is_some remaining.fails
        then pure (fail 400 "HttpServer: Decode json body failed")
        else if has_trailing_data remaining.content
        then pure (fail 400 "HttpServer: Trailing data after json body")
        else bind

    unfoldable pub bind_json_map : Reader → ℕ ⊎ Error → Action V Result
    unfolding after_decode
    bind_json_map reader (inr err) = pure (fail 400 "HttpServer: Decode json body failed")
    bind_json_map reader (inl values) = after_decode (lib.json_remaining reader) do
      err ← lib.bind_json_values values
      bad_request_on err "HttpServer: Bind json values failed"

    unfoldable pub bind_json_field : Reader → Option Error → Action V Result
    unfolding after_decode
    bind_json_field reader (some err) = pure (fail 400 "HttpServer: Decode json body failed")
    bind_json_field reader none = after_decode (lib.json_remaining reader) (pure success)

    -- `target` is the field of an empty json tag, or else the map.
    unfoldable pub bind_json_to : Option (List ℕ) → Reader → Action V Result
    unfolding bind_json_map bind_json_field
    bind_json_to (some index) reader = do
      err ← lib.json_decode_field index reader
      bind_json_field reader err
    bind_json_to none reader = bind_json_map reader (lib.json_decode_map reader)

    unfoldable pub bind_json : Reader → Action V Result
    unfolding bind_json_to
    bind_json reader = bind_json_to (tags.field_index json) reader

    -- Set of package reflect panics where there is no index, which a compiled tag always has.
    abbrev set_at : (List ℕ → V → V) → Option (List ℕ) → Action V ⊤
    set_at set none = panic nil_dereference
    set_at set (some index) = modify (set index)

    unfoldable pub bind_multipart : Request → Params → Action V Result
    unfolding lookup
    bind_multipart request params = elim (lookup "boundary" params) [
      | none ↦
          pure (fail 400 "HttpServer: Boundary is missing in Content-Type of a multipart/form-data")
      | some boundary ↦ do
        set_at (λ index. lib.set_multipart index request.body boundary) (tags.field_index multipart)
        pure success
    ]

    unfoldable pub bind_body : Request → Action V ⊤
    bind_body request = set_at (λ index. lib.set_body index request.body) (tags.field_index body)

-- ===== src/Bind/Library.antt =====
-- What binding calls outside the repository, and the results that the binders return.
use go_httpserver.Base.{ℕ, Option, none, some, String, List, ◌⊎◌}
use go_httpserver.Base.Int.{ℤ, pos}
use go_httpserver.Effect.{Action, Error, pure}
use go_httpserver.State.{Header, Reader, Request}
use go_httpserver.PathValues.{KeyValue}

-- KeyValues; http.Header and url.Values are such maps.
abbrev pub KeyValues : Type 0
KeyValues = List (String × List String)

-- The parameters of a Content-Type.
abbrev pub Params : Type 0
Params = KeyValue

-- A character encoding: one that charset.Lookup gave, or the package's own UTF-16 decoders.
pub data Encoding : Type 0 where
  named : ℕ → Encoding
  utf16_le utf16_be : Encoding

-- `V` is the type of the request struct. A function that binds may panic, and may have written
-- fields when it fails.
pub record BindLibrary (V : Type 0) : Type 0 where
  -- FieldByIndex(index).Set(value) of package reflect, by the type of the value.
  pub set_header : List ℕ → Header → V → V
  pub set_key_values : List ℕ → KeyValues → V → V
  pub set_key_value : List ℕ → KeyValue → V → V
  pub set_multipart : List ℕ → Reader → String → V → V
  pub set_body : List ℕ → Reader → V → V
  -- common.BindStructWithTag, common.ApplyDefaults and common.ValidateStruct.
  pub bind_key_values : String → KeyValues → Action V (Option Error)
  pub bind_key_value : String → KeyValue → Action V (Option Error)
  pub bind_json_values : ℕ → Action V (Option Error)
  pub apply_defaults : Action V (Option Error)
  pub validate_struct : V → Option Error
  -- (*http.Request).Cookies, (*url.URL).Query, (http.Header).Get, mime.ParseMediaType, url.ParseQuery.
  pub cookies : Request → List (String × String)
  pub url_query : Request → KeyValues
  pub header_get : String → Header → String
  pub parse_media_type : String → (String × Params) ⊎ Error
  pub parse_query : List ℕ → KeyValues ⊎ Error
  -- charset.Lookup, and transform.NewReader with an encoding's decoder.
  pub charset_lookup : String → Option ℕ
  pub decoded : Encoding → Reader → Reader
  -- A json.Decoder with UseNumber: Decode into a field or into a map (named by a number), with what is left to read.
  pub json_decode_field : List ℕ → Reader → Action V (Option Error)
  pub json_decode_map : Reader → ℕ ⊎ Error
  pub json_remaining : Reader → Reader

-- The `(int, error)` that a binder returns; an error is known by its message.
pub record Result : Type 0 where
  pub status : ℤ
  pub error : Option String

abbrev pub success : Result
success = record { status = pos 0; error = none }

abbrev pub fail : ℕ → String → Result
fail code message = record { status = pos code; error = some message }

abbrev pub bad_request_on : {V : Type 0} → Option Error → String → Action V Result
bad_request_on none message = pure success
bad_request_on (some _) message = pure (fail 400 message)

-- How the select of bindFullTextBodyWithTimeout ends: the binder is done, or the client is gone or
-- the time is up, with what the binder, which goes on, will have made of the request struct.
pub data Race (V : Type 0) : Type 0 where
  binder_done : Race V
  client_gone timed_out : (V → V) → Race V

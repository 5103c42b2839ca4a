-- ===== src/Bind/Bounds.antt =====
-- The bound on the bodies of forms and JSON.
use go_httpserver.Base.{ℕ, ◌+◌, ◌^◌, ◌≡◌, ◌⊎◌, refl, arith, Option, String, List, inl, inr}
use go_httpserver.Base.Int.{ℤ, pos, ◌≤ℤ◌}
use go_httpserver.Effect.{Action, Error}
use go_httpserver.State.{Reader, Request}
use go_httpserver.Tags.{RequestTags}
use go_httpserver.Bind.Library.{KeyValues, Params, Encoding, BindLibrary, Result, Race}
use go_httpserver.Bind.Body.{bind_full_text_body, bind_form, bind_json}
use go_httpserver.Bind.{bind_body_of_type, bind_media_type, parse_body}

-- What decodes the text of a body.
pub record Decoders (V : Type 0) : Type 0 where
  pub parse_query : List ℕ → KeyValues ⊎ Error
  pub charset_lookup : String → Option ℕ
  pub decoded : Encoding → Reader → Reader
  pub json_decode_field : List ℕ → Reader → Action V (Option Error)
  pub json_decode_map : Reader → ℕ ⊎ Error
  pub json_remaining : Reader → Reader

abbrev pub with_decoders : {V : Type 0} → BindLibrary V → Decoders V → BindLibrary V
with_decoders lib d = record lib {
  parse_query = d.parse_query;
  charset_lookup = d.charset_lookup;
  decoded = d.decoded;
  json_decode_field = d.json_decode_field;
  json_decode_map = d.json_decode_map;
  json_remaining = d.json_remaining;
}

-- The length is not known, or is more than 1 MiB.
abbrev pub IsUnbounded : Request → Type 0
IsUnbounded request =
    (request.content_length ≤ℤ ℤ.negsuc 0) ⊎ (pos (2 ^ 20 + 1) ≤ℤ request.content_length)

module _ {V : Type 0} (lib : BindLibrary V) (d : Decoders V) (tags : RequestTags)
    (request : Request) (race race' : Race V) (unbounded : IsUnbounded request) where
  text_unread :
      (params : Params) (binder binder' : Reader → Action V Result) (v : V)
      → bind_full_text_body lib request params binder race v
        ≡ bind_full_text_body (with_decoders lib d) request params binder' race' v
  unfolding bind_full_text_body
  text_unread params binder binder' v = ground arith

  body_unread :
      (content_type : String) (params : Params) (v : V)
      → bind_body_of_type lib tags request race content_type params v
        ≡ bind_body_of_type (with_decoders lib d) tags request race' content_type params v
  unfolding bind_body_of_type
  body_unread content_type params v = ground (
    arith,
    text_unread params (bind_form lib tags) (bind_form (with_decoders lib d) tags) v,
    text_unread params (bind_json lib tags) (bind_json (with_decoders lib d) tags) v,
  )

  media_type_unread :
      (m : (String × Params) ⊎ Error) (v : V)
      → bind_media_type lib tags request race m v
        ≡ bind_media_type (with_decoders lib d) tags request race' m v
  unfolding bind_media_type
  media_type_unread (inl (content_type, params)) v = body_unread content_type params v
  media_type_unread (inr err) v = refl

  -- A form or JSON body of unknown length, or of more than 1 MiB, is never decoded, nor is its character set
  -- looked up: binding the body makes the same of the request and the struct with any other decoders, and however
  -- a race with the timeout would end.
  pub parse_body_unread :
      (v : V)
      → parse_body lib tags request race v ≡ parse_body (with_decoders lib d) tags request race' v
  unfolding parse_body
  parse_body_unread v = ground (
    arith,
    media_type_unread (lib.parse_media_type (lib.header_get "Content-Type" request.header)) v,
  )

-- ===== src/Examples/Definitions.antt =====
-- The compilation of request structs.
use go_httpserver.Base.{
  ℕ, ◌≡◌, refl, zero, Option, none, some, String, List, [], ◌∷◌, true, false, arith,
}
use go_httpserver.Effect.{Panic, Outcome, returned, panicked}
use go_httpserver.Tags.{Source, RequestTags, query, url, body}
use go_httpserver.Tags.Compile.{
  FieldInfo, Fields, no_fields, struct_field, field, other_type, key_value, key_values, read_closer,
  compile, no_tags, FieldType,
}
use go_httpserver.Tags.Compiled.{Compiles, compile-Compiles}
use go_httpserver.Tags.Shape.{fits}
use go_httpserver.Slices.{Slice, Heap, elements}
use go_httpserver.Tags.Sliced.{compile_at}
use go_httpserver.Tags.Sliced.Unshared.{tags_from, heap_after, compile_at-compile}
use go_httpserver.Tags.Paths.{struct, field_from, compile-typed}

abbrev tag_query : Source → Option String
tag_query query = some "page"
tag_query _ = none

abbrev tag_url : Source → Option String
tag_url url = some ""
tag_url _ = none

abbrev tag_body : Source → Option String
tag_body body = some ""
tag_body _ = none

abbrev pub tagged : (Source → Option String) → FieldInfo
tagged tag = record { exported = true; anonymous = false; tag = tag }

abbrev embedded : FieldInfo
embedded = record { exported = true; anonymous = true; tag = λ s. none }

-- An embedded struct with a page and the path values, and a raw body.
abbrev pub upload : Fields
upload =
    struct_field embedded
      (field (tagged tag_query) other_type (field (tagged tag_url) key_value no_fields))
      (field (tagged tag_body) read_closer no_fields)

abbrev pub types : ℕ → Option Fields
types zero = some upload
types _ = none

abbrev pub split_nothing : String → List String
split_nothing s = []

abbrev pub no_defaults : ℕ → Option Panic
no_defaults name = none

abbrev url_path : Outcome RequestTags → Option (List ℕ)
url_path (returned tags) = tags.field_index url
url_path (panicked e) = none

abbrev query_path : Outcome RequestTags → Option (List ℕ)
query_path (returned tags) = tags.field_index query
query_path (panicked e) = none

upload_url : url_path (compile split_nothing types no_defaults 0 upload) ≡ some (0 ∷ 1 ∷ [])
unfolding compile
upload_url = refl

compile-Compiles_example :
    Compiles split_nothing none upload (compile split_nothing types no_defaults 0 upload)
compile-Compiles_example = compile-Compiles split_nothing types no_defaults 0 upload

abbrev pub tags_made : Outcome RequestTags → RequestTags
tags_made (returned tags) = tags
tags_made (panicked e) = no_tags

abbrev pub upload_tags : RequestTags
upload_tags = tags_made (compile split_nothing types no_defaults 0 upload)

compile-typed_example :
    (type : FieldType) × (field_from (struct upload) (0 ∷ 1 ∷ []) ≡ some type)
    × (fits url type ≡ true)
unfolding compile
compile-typed_example =
    compile-typed split_nothing types no_defaults 0 upload upload_tags url (0 ∷ 1 ∷ []) refl refl

abbrev tag_whole_query : Source → Option String
tag_whole_query query = some ""
tag_whole_query _ = none

-- Two whole fields, three embedded structs down.
abbrev deep : Fields
deep =
    struct_field embedded
      (struct_field embedded
        (struct_field embedded
          (field (tagged tag_whole_query) key_values (field (tagged tag_url) key_value no_fields))
          no_fields)
        no_fields)
      no_fields

-- A new array has room for one index more, so that the path of the innermost struct is in an array with room.
abbrev one_more : ℕ → ℕ
one_more n = 1

-- One array in use, and a slice of it.
abbrev sevens : Heap ℕ
sevens = record { arrays = λ a i. 7; fresh = 1 }

abbrev first_seven : Slice
first_seven = record { array = 0; from = 0; len = 1; cap = 1 }

deep_query : query_path (compile split_nothing types no_defaults 0 deep) ≡ some (0 ∷ 0 ∷ 0 ∷ 0 ∷ [])
unfolding compile
deep_query = refl

compile_at-compile_example :
    (tags_from (compile_at one_more split_nothing none deep sevens)
      ≡ compile split_nothing types no_defaults 0 deep)
    × (elements (heap_after sevens (compile_at one_more split_nothing none deep sevens)) first_seven
        ≡ elements sevens first_seven)
compile_at-compile_example =
    compile_at-compile one_more split_nothing types no_defaults 0 deep sevens first_seven
      (omega arith)

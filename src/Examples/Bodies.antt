-- ===== src/Examples/Bodies.antt =====
-- Bodies, and request structs that compile.
use go_httpserver.Base.{ℕ, ◌≡◌, refl, arith, Option, none, some, String, List, [], ◌∷◌, str_eq_iff}
use go_httpserver.Effect.{returned}
use go_httpserver.State.{Request}
use go_httpserver.Tags.{Source, RequestTags, json, body}
use go_httpserver.Tags.Compile.{Fields, no_fields, field, compile, read_closer, other_type}
use go_httpserver.Bind.{parse, parse_body}
use go_httpserver.Bind.Library.{Result, binder_done}
use go_httpserver.Bind.Returning.{AllReturn, HasValues}
use go_httpserver.Bind.Total.{parse_returns}
use go_httpserver.Bind.Claims.{Serves}
use go_httpserver.Bind.Selected.{bind_by, parse_body-Serves}
use go_httpserver.Examples.Requests.{counting, files, post}
use go_httpserver.Examples.Definitions.{
  types, upload, upload_tags, tagged, split_nothing, no_defaults, tags_made,
}

abbrev tag_json : Source → Option String
tag_json json = some "name"
tag_json _ = none

abbrev tag_image : Source → Option String
tag_image body = some "image/png"
tag_image _ = none

abbrev image_only : String → List String
image_only s = "image/png" ∷ []

-- A name in a JSON body, or else an image.
abbrev avatar : Fields
avatar = field (tagged tag_json) other_type (field (tagged tag_image) read_closer no_fields)

abbrev avatar_tags : RequestTags
avatar_tags = tags_made (compile image_only (λ n. none) no_defaults 0 avatar)

abbrev counting-AllReturn : AllReturn counting
counting-AllReturn = record {
  key_values = λ tag m v. refl;
  key_value = λ tag m v. refl;
  json_values = λ values v. refl;
  json_field = λ index reader v. refl;
}

-- A request for a pattern with two wildcards.
abbrev put_file : Request
put_file = record post {
  pattern = "/{id}/x/{rest...}";
  mirror = record { pat = some files; matches = "1" ∷ "2" ∷ [] };
}

put_file-HasValues : HasValues put_file.mirror
put_file-HasValues pat is = let same : files ≡ pat = cc in rw (← same) (omega arith)

parse_returns_example :
    (r : Result) × (w : ℕ) × (parse counting upload_tags put_file binder_done 3 ≡ (returned r, w))
unfolding compile
parse_returns_example =
    parse_returns counting counting-AllReturn split_nothing types no_defaults 0 upload upload_tags
      refl put_file binder_done 3 put_file-HasValues

parse_body-Serves_example :
    (o : Option Source) × Serves avatar_tags "application/json" o
    × ((o' : Option Source) → Serves avatar_tags "application/json" o' → o ≡ o')
    × (parse_body counting avatar_tags post binder_done
        ≡ bind_by counting avatar_tags post binder_done o [])
unfolding compile
parse_body-Serves_example =
    parse_body-Serves counting avatar_tags post binder_done image_only (λ n. none) no_defaults 0
      avatar refl "application/json" [] refl refl refl
      (λ h. ground (arith, str_eq_iff "application/json" "")) refl

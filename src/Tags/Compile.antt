-- ===== src/Tags/Compile.antt =====
-- request_tags.go: the compilation of a request struct into its tags, and the cache.
use go_httpserver.Base.{
  contains, ℕ, ◌+◌, Bool, true, false, ◌&&◌, ◌||◌, not, Option, none, some, String, List, [], ◌∷◌,
  ◌++◌, if◌then◌else◌, str_eq, is_some, ◌==◌,
}
use go_httpserver.Effect.{Panic, bug, Outcome, returned, panicked}
use go_httpserver.Tags.ContentTypes.{
  content_type_is_form, content_type_is_json, content_type_is_multipart,
}
use go_httpserver.Tags.{
  Source, RequestTags, header, cookie, query, url, form, json, multipart, body,
}

-- The types that request fields are compared with, and every other.
pub data FieldType : Type 0 where
  http_header key_values key_value multipart_reader read_closer other_type : FieldType

-- What package reflect says of a field: `tag` is Tag.Lookup, by the source's name.
pub record FieldInfo : Type 0 where
  pub exported : Bool
  pub anonymous : Bool
  pub tag : Source → Option String

-- The fields of a struct, in their order: a field that is a struct has the fields of its type.
pub data Fields : Type 0 where
  no_fields : Fields
  struct_field : FieldInfo → Fields → Fields → Fields
  field : FieldInfo → FieldType → Fields → Fields

abbrev pub bit : Source → ℕ
bit header = 0
bit cookie = 1
bit query = 2
bit url = 3
bit form = 4
bit json = 5
bit multipart = 6
bit body = 7

-- `tags.flags = tags.flags | flag`
abbrev pub set_flag : Source → RequestTags → RequestTags
set_flag source tags = record tags { flags = λ s. bit s == bit source || tags.flags s }

abbrev pub set_index : Source → List ℕ → RequestTags → RequestTags
set_index source path tags = record tags {
  field_index = λ s. if bit s == bit source then some path else tags.field_index s;
}

abbrev pub then_check : {A B : Type 0} → Outcome A → (A → Outcome B) → Outcome B
then_check (returned a) f = f a
then_check (panicked e) f = panicked e

-- `var tags requestTags`
abbrev pub no_tags : RequestTags
no_tags = record { flags = λ s. false; field_index = λ s. none; body_content_types = [] }

-- One check of the loop after another.
infixr 30 ◌>=>◌
unfoldable pub ◌>=>◌ :
    (RequestTags → Outcome RequestTags)
    → (RequestTags → Outcome RequestTags)
    → RequestTags
    → Outcome RequestTags
(f >=> g) tags = then_check (f tags) g

abbrev pub is_type : FieldType → FieldType → Bool
is_type http_header http_header = true
is_type key_values key_values = true
is_type key_value key_value = true
is_type multipart_reader multipart_reader = true
is_type read_closer read_closer = true
is_type _ _ = false

-- The messages of the panics; of the JSON source any type fits.
abbrev pub multiple : Source → String
multiple header =
    "BUG: multiple `header` tag fields are not allowed when empty `header` tag is present"
multiple cookie =
    "BUG: multiple `cookie` tag fields are not allowed when empty `cookie` tag is present"
multiple query =
    "BUG: multiple `query` tag fields are not allowed when empty `query` tag is present"
multiple url = "BUG: multiple `url` tag fields are not allowed when empty `url` tag is present"
multiple form = "BUG: multiple `form` tag fields are not allowed when empty `form` tag is present"
multiple json = "BUG: multiple `json` tag fields are not allowed when empty `json` tag is present"
multiple multipart = "BUG: multiple `multipart` tag fields are not allowed"
multiple body = "BUG: multiple `body` tag fields are not allowed"

abbrev pub wrong_type : Source → String
wrong_type header = "BUG: empty `header` tag field must be a `http.Header`"
wrong_type cookie = "BUG: empty `cookie` tag field must be a `httpserver.KeyValues`"
wrong_type query = "BUG: empty `query` tag field must be a `httpserver.KeyValues`"
wrong_type url = "BUG: empty `url` tag field must be a `httpserver.KeyValue`"
wrong_type form = "BUG: empty `form` tag field must be a `httpserver.KeyValues`"
wrong_type json = ""
wrong_type multipart = "BUG: `multipart` tag field must be a `*multipart.Reader`"
wrong_type body = "BUG: `body` tag field must be a `io.ReadCloser`"

-- The part on a tag of one of the six sources that have named and whole fields; `fits` says which
-- types a whole field may have.
unfoldable pub check_source :
    Source → Bool → List ℕ → Option String → RequestTags → Outcome RequestTags
check_source source fits path none tags = returned tags
check_source source fits path (some value) tags =
    if not (str_eq value "")
    then (if is_some (tags.field_index source)
        then panicked (bug (multiple source))
        else returned (set_flag source tags))
    else if tags.flags source
    then panicked (bug (multiple source))
    else if not fits
    then panicked (bug (wrong_type source))
    else returned (set_flag source (set_index source path tags))

unfoldable pub check_multipart : Bool → List ℕ → Option String → RequestTags → Outcome RequestTags
check_multipart fits path none tags = returned tags
check_multipart fits path (some value) tags =
    if not (str_eq value "")
    then panicked (bug "BUG: `multipart` tag value must be empty")
    else if tags.flags multipart
    then panicked (bug (multiple multipart))
    else if not fits
    then panicked (bug (wrong_type multipart))
    else returned (set_index multipart path (set_flag multipart tags))

-- The checks after checkRecursively.
unfoldable pub check_content_types : RequestTags → Outcome RequestTags
check_content_types tags =
    if tags.flags form && contains tags.body_content_types content_type_is_form
    then panicked (
        bug
          "BUG: `form` tag field is not allowed when `body` tag contains application/x-www-form-urlencoded")
    else if tags.flags json && contains tags.body_content_types content_type_is_json
    then panicked
        (bug "BUG: `json` tag field is not allowed when `body` tag contains application/json")
    else if tags.flags multipart && contains tags.body_content_types content_type_is_multipart
    then panicked (
        bug
          "BUG: `multipart` tag field is not allowed when `body` tag contains multipart/form-data")
    else returned tags

-- strings.Fields, reflection on a request type (named by a number; `none` where it is no struct), and
-- common.ApplyDefaults on a new value of it, of which an error is the value that createTags panics with.
module _ (split_fields : String → List String) (struct_of : ℕ → Option Fields)
    (apply_defaults : ℕ → Option Panic) where
  unfoldable pub check_body : Bool → List ℕ → Option String → RequestTags → Outcome RequestTags
  check_body fits path none tags = returned tags
  check_body fits path (some value) tags =
      if tags.flags body
      then panicked (bug (multiple body))
      else if not fits
      then panicked (bug (wrong_type body))
      else let placed = set_index body path (set_flag body tags) in
        returned (
          if str_eq value ""
          then placed
          else record placed { body_content_types = split_fields value })

  -- The part of the loop for a field that is neither unexported nor anonymous.
  unfoldable pub check_field : FieldInfo → FieldType → List ℕ → RequestTags → Outcome RequestTags
  unfolding ◌>=>◌ check_source check_multipart check_body
  check_field info type path =
      check_source header (is_type type http_header) path (info.tag header)
      >=> check_source cookie (is_type type key_values) path (info.tag cookie)
      >=> check_source query (is_type type key_values) path (info.tag query)
      >=> check_source url (is_type type key_value) path (info.tag url)
      >=> check_source form (is_type type key_values) path (info.tag form)
      >=> check_source json true path (info.tag json)
      >=> check_multipart (is_type type multipart_reader) path (info.tag multipart)
      >=> check_body (is_type type read_closer) path (info.tag body)

  -- `index` is that of the first of the fields.
  unfoldable pub check_recursively : Fields → ℕ → List ℕ → RequestTags → Outcome RequestTags
  unfolding check_field
  check_recursively no_fields index path tags = returned tags
  check_recursively (struct_field info inner rest) index path tags =
      let next = check_recursively rest (index + 1) path in
      let embedded = check_recursively inner 0 (path ++ index ∷ []) tags in
      if not info.exported
      then next tags
      else if info.anonymous
      then then_check embedded next
      else then_check (check_field info other_type (path ++ index ∷ []) tags) next
  check_recursively (field info type rest) index path tags =
      let next = check_recursively rest (index + 1) path in
      if not info.exported
      then next tags
      else if info.anonymous
      then panicked (bug "BUG: anonymous field must be a struct")
      else then_check (check_field info type (path ++ index ∷ []) tags) next

  -- The compilation, given how the defaults apply to a new value.
  unfoldable pub compile_after : Option Panic → Fields → Outcome RequestTags
  unfolding check_recursively check_content_types
  compile_after (some err) members = panicked err
  compile_after none members =
      then_check (check_recursively members 0 [] no_tags) check_content_types

  unfoldable pub compile : ℕ → Fields → Outcome RequestTags
  unfolding compile_after
  compile name members = compile_after (apply_defaults name) members

  -- globalTags.
  unfoldable pub cached : ℕ → List (ℕ × RequestTags) → Option RequestTags
  cached name [] = none
  cached name ((n, tags) ∷ cache) = if n == name then some tags else cached name cache

  -- `globalTags[requestType] = tags; return tags`, where compilation did not panic.
  abbrev pub store :
      ℕ
      → Outcome RequestTags
      → List (ℕ × RequestTags)
      → Outcome RequestTags × List (ℕ × RequestTags)
  store name (returned tags) cache = (returned tags, (name, tags) ∷ cache)
  store name (panicked e) cache = (panicked e, cache)

  abbrev pub look_up :
      ℕ
      → Fields
      → Option RequestTags
      → List (ℕ × RequestTags)
      → Outcome RequestTags × List (ℕ × RequestTags)
  look_up name members (some tags) cache = (returned tags, cache)
  look_up name members none cache = store name (compile name members) cache

  abbrev pub create_struct_tags :
      ℕ → Option Fields → List (ℕ × RequestTags) → Outcome RequestTags × List (ℕ × RequestTags)
  create_struct_tags name none cache =
      (panicked (bug "BUG: parsed request must be a struct"), cache)
  create_struct_tags name (some members) cache = look_up name members (cached name cache) cache

  unfoldable pub create_tags :
      ℕ → List (ℕ × RequestTags) → Outcome RequestTags × List (ℕ × RequestTags)
  unfolding cached compile
  create_tags name cache = create_struct_tags name (struct_of name) cache

-- ===== src/Tags/Shape.antt =====
-- Which request structs are well tagged, and with which index paths: by the lists of the fields that have
-- the tag of each source, in the order in which they stand.
use go_httpserver.Base.{
  ℕ, ◌+◌, ◌==◌, ltb, Bool, true, false, not, ◌&&◌, ◌||◌, Option, none, some, String, List, [], ◌∷◌,
  ◌++◌, ◌≡◌, refl, arith, str_eq, is_some, contains, if◌then◌else◌,
}
use go_httpserver.Tags.{Source, header, cookie, query, url, form, json, multipart, body}
use go_httpserver.Tags.ContentTypes.{
  content_type_is_form, content_type_is_json, content_type_is_multipart,
}
use go_httpserver.Tags.Compile.{
  FieldType, Fields, no_fields, struct_field, field, is_type, bit, http_header, key_values,
  key_value, multipart_reader, read_closer, other_type,
}

-- A field with a tag of some source, the tag's value, and the field's type and index path.
pub record Tagged : Type 0 where
  pub path : List ℕ
  pub value : String
  pub type : FieldType

abbrev pub is_empty {ℓ} : {A : Type ℓ} → List A → Bool
is_empty [] = true
is_empty (_ ∷ _) = false

-- The type of a field for the whole of a source.
abbrev pub fits : Source → FieldType → Bool
fits header type = is_type type http_header
fits cookie type = is_type type key_values
fits query type = is_type type key_values
fits url type = is_type type key_value
fits form type = is_type type key_values
fits json type = true
fits multipart type = is_type type multipart_reader
fits body type = is_type type read_closer

-- Multipart and raw bodies have no named fields; the tag of a raw body has the media types as its value.
abbrev pub is_named : Source → Tagged → Bool
is_named s x = ltb (bit s) 6 && not (str_eq x.value "")

abbrev pub is_whole : Source → Tagged → Bool
is_whole s x = fits s x.type && (bit s == 7 || str_eq x.value "")

abbrev pub all_named : Source → List Tagged → Bool
all_named s [] = true
all_named s (x ∷ xs) = is_named s x && all_named s xs

abbrev pub one_whole : Source → List Tagged → Bool
one_whole s (x ∷ []) = is_whole s x
one_whole s _ = false

-- Either named fields or one field for the whole source.
abbrev pub allowed : Source → List Tagged → Bool
allowed s xs = all_named s xs || one_whole s xs

-- The path of the field for the whole source, if there is one.
abbrev pub first_path : List Tagged → Option (List ℕ)
first_path [] = none
first_path (x ∷ xs) = some x.path

abbrev pub index_of : Source → List Tagged → Option (List ℕ)
index_of s xs = if all_named s xs then none else first_path xs

-- The media types that the tag of the raw body lists.
abbrev pub listed : (String → List String) → List Tagged → List String
listed split_fields [] = []
listed split_fields (x ∷ xs) = if str_eq x.value "" then [] else split_fields x.value

abbrev pub tag_of : List ℕ → FieldType → Option String → List Tagged
tag_of path type none = []
tag_of path type (some value) = record { path = path; value = value; type = type } ∷ []

-- The fields with the tag of a source, among the exported ones and those of exported embedded structs.
abbrev pub tags_in : Fields → ℕ → List ℕ → Source → List Tagged
tags_in no_fields index path s = []
tags_in (struct_field info inner rest) index path s =
    if not info.exported
    then tags_in rest (index + 1) path s
    else if info.anonymous
    then tags_in inner 0 (path ++ index ∷ []) s ++ tags_in rest (index + 1) path s
    else tag_of (path ++ index ∷ []) other_type (info.tag s) ++ tags_in rest (index + 1) path s
tags_in (field info type rest) index path s =
    if not info.exported
    then tags_in rest (index + 1) path s
    else tag_of (path ++ index ∷ []) type (info.tag s) ++ tags_in rest (index + 1) path s

-- Every exported embedded field is a struct.
abbrev pub embeds_structs : Fields → Bool
embeds_structs no_fields = true
embeds_structs (struct_field info inner rest) =
    (not (info.exported && info.anonymous) || embeds_structs inner) && embeds_structs rest
embeds_structs (field info type rest) = not (info.exported && info.anonymous) && embeds_structs rest

-- A raw body does not list a media type that another binder of the struct is for.
abbrev pub apart : (Source → List Tagged) → List String → Bool
apart tags types =
    not (not (is_empty (tags form)) && contains types content_type_is_form)
    && not (not (is_empty (tags json)) && contains types content_type_is_json)
    && not (not (is_empty (tags multipart)) && contains types content_type_is_multipart)

all_named-snoc :
    (s : Source) (xs : List Tagged) (x : Tagged)
    → all_named s (xs ++ x ∷ []) ≡ (all_named s xs && is_named s x)
all_named-snoc s [] x = ground arith
all_named-snoc s (y ∷ xs) x = ground (arith, all_named-snoc s xs x)

-- One more field.
pub allowed-snoc :
    (s : Source) (xs : List Tagged) (x : Tagged)
    → allowed s (xs ++ x ∷ []) ≡ (all_named s xs && is_named s x || is_empty xs && is_whole s x)
allowed-snoc s [] x = ground arith
allowed-snoc s (y ∷ []) x = ground arith
allowed-snoc s (y ∷ z ∷ xs) x = ground (arith, all_named-snoc s (y ∷ z ∷ xs) x)

pub index_of-snoc :
    (s : Source) (xs : List Tagged) (x : Tagged)
    → index_of s (xs ++ x ∷ [])
      ≡ (if all_named s xs && is_named s x then none else first_path (xs ++ x ∷ []))
index_of-snoc s xs x = rw (all_named-snoc s xs x)

all_named-append :
    (s : Source) (xs ys : List Tagged) → all_named s (xs ++ ys) ≡ (all_named s xs && all_named s ys)
all_named-append s [] ys = refl
all_named-append s (x ∷ xs) ys = ground (arith, all_named-append s xs ys)

-- Of more fields, fewer are allowed.
pub allowed-append :
    (s : Source) (xs ys : List Tagged) → allowed s xs ≡ false → allowed s (xs ++ ys) ≡ false
allowed-append s [] ys h = ground arith
allowed-append s (x ∷ []) [] h = h
allowed-append s (x ∷ []) (y ∷ ys) h = ground (arith, all_named-append s (x ∷ []) (y ∷ ys))
allowed-append s (x ∷ y ∷ xs) ys h = ground (arith, all_named-append s (x ∷ y ∷ xs) ys)

-- What is known of the fields of a source before one more is added.
pub is_some-index_of :
    (s : Source) (xs : List Tagged) → is_some (index_of s xs) ≡ not (all_named s xs)
is_some-index_of s [] = refl
is_some-index_of s (x ∷ xs) = ground arith

pub is_empty-snoc : (xs : List Tagged) (x : Tagged) → is_empty (xs ++ x ∷ []) ≡ false
is_empty-snoc [] x = refl
is_empty-snoc (y ∷ xs) x = refl

pub first_path-snoc :
    (xs : List Tagged) (x : Tagged)
    → first_path (xs ++ x ∷ []) ≡ (if is_empty xs then some x.path else first_path xs)
first_path-snoc [] x = refl
first_path-snoc (y ∷ xs) x = refl

pub all_named-empty : (s : Source) (xs : List Tagged) → is_empty xs ≡ true → all_named s xs ≡ true
all_named-empty s [] h = refl
all_named-empty s (x ∷ xs) h = ground arith

pub listed-snoc :
    (split_fields : String → List String) (xs : List Tagged) (x : Tagged)
    → listed split_fields (xs ++ x ∷ [])
      ≡ (if is_empty xs then listed split_fields (x ∷ []) else listed split_fields xs)
listed-snoc split_fields [] x = refl
listed-snoc split_fields (y ∷ xs) x = refl

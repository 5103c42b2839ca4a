-- ===== src/Tags/Indexed.antt =====
-- The index paths of compiled tags.
use go_httpserver.Base.{
  ℕ, ◌+◌, ◌≡◌, ◌<◌, refl, arith, Bool, true, false, not, Option, none, some, String, List, [], ◌∷◌,
  ◌++◌, ⊤, is_some, if◌then◌else◌,
}
use go_httpserver.Effect.{Panic, Outcome, returned, panicked}
use go_httpserver.Tags.{
  Source, RequestTags, header, cookie, query, url, form, json, multipart, body,
}
use go_httpserver.Tags.Compile.{
  FieldInfo, FieldType, Fields, no_fields, struct_field, field, then_check, check_source,
  check_multipart, check_body, check_field, check_recursively, check_content_types, compile,
  compile_after, no_tags, bit, ◌>=>◌, is_type, http_header, key_values, key_value, multipart_reader,
  read_closer, other_type, set_flag, set_index,
}

-- A source that has a path for the whole of it is used, and multipart and body, when they are used,
-- have one.
abbrev pub IsIndexed : RequestTags → Type 0
IsIndexed tags =
    ((s : Source) → is_some (tags.field_index s) ≡ true → tags.flags s ≡ true)
    × (tags.flags multipart ≡ is_some (tags.field_index multipart))
    × (tags.flags body ≡ is_some (tags.field_index body))

abbrev pub AllIndexed : Outcome RequestTags → Type 0
AllIndexed (returned tags) = IsIndexed tags
AllIndexed (panicked e) = ⊤

then_check-AllIndexed :
    (r : Outcome RequestTags) (f : RequestTags → Outcome RequestTags)
    → AllIndexed r
    → ((t : RequestTags) → IsIndexed t → AllIndexed (f t))
    → AllIndexed (then_check r f)
then_check-AllIndexed (returned t) f h g = g t h
then_check-AllIndexed (panicked e) f h g = tt

abbrev KeepsIndexed : (RequestTags → Outcome RequestTags) → Type 0
KeepsIndexed f = (t : RequestTags) → IsIndexed t → AllIndexed (f t)

after_KeepsIndexed :
    (f g : RequestTags → Outcome RequestTags)
    → KeepsIndexed f
    → KeepsIndexed g
    → KeepsIndexed (f >=> g)
unfolding ◌>=>◌
after_KeepsIndexed f g hf hg t h = then_check-AllIndexed (f t) g (hf t h) hg

choice-AllIndexed :
    (exported anonymous : Bool) (x y z : Outcome RequestTags)
    → AllIndexed x
    → AllIndexed y
    → AllIndexed z
    → AllIndexed (if not exported then x else if anonymous then y else z)
choice-AllIndexed false _ x y z hx hy hz = hx
choice-AllIndexed true true x y z hx hy hz = hy
choice-AllIndexed true false x y z hx hy hz = hz

placed-IsIndexed :
    (source : Source) (path : List ℕ) (t : RequestTags)
    → IsIndexed t
    → IsIndexed (set_flag source (set_index source path t))
placed-IsIndexed source path t (used, m, b) =
    (λ s h. ground (arith, used s), ground arith, ground arith)

flagged-IsIndexed :
    (source : Source) (t : RequestTags)
    → bit source < 6
    → IsIndexed t
    → IsIndexed (set_flag source t)
flagged-IsIndexed source t named (used, m, b) =
    (λ s h. ground (arith, used s), ground arith, ground arith)

check_multipart-AllIndexed :
    (fits : Bool) (path : List ℕ) (tag : Option String)
    → KeepsIndexed (check_multipart fits path tag)
unfolding check_multipart
check_multipart-AllIndexed fits path none t h = h
check_multipart-AllIndexed fits path (some value) t h =
    ground (arith, placed-IsIndexed multipart path t h)

check_source-AllIndexed :
    (source : Source) (fits : Bool) (path : List ℕ) (tag : Option String)
    → bit source < 6
    → KeepsIndexed (check_source source fits path tag)
unfolding check_source
check_source-AllIndexed source fits path none named t h = h
check_source-AllIndexed source fits path (some value) named t h =
    ground (arith, placed-IsIndexed source path t h, flagged-IsIndexed source t named h)

module _ (split_fields : String → List String) (struct_of : ℕ → Option Fields)
    (apply_defaults : ℕ → Option Panic) where
  check_body-AllIndexed :
      (fits : Bool) (path : List ℕ) (tag : Option String)
      → KeepsIndexed (check_body split_fields struct_of apply_defaults fits path tag)
  unfolding check_body
  check_body-AllIndexed fits path none t h = h
  check_body-AllIndexed fits path (some value) t h = ground (arith, placed-IsIndexed body path t h)

  check_field-AllIndexed :
      (info : FieldInfo) (type : FieldType) (path : List ℕ)
      → KeepsIndexed (check_field split_fields struct_of apply_defaults info type path)
  unfolding check_field
  check_field-AllIndexed info type path =
      after_KeepsIndexed _ _
        (check_source-AllIndexed header (is_type type http_header) path (info.tag header)
          (omega arith))
        (after_KeepsIndexed _ _
          (check_source-AllIndexed cookie (is_type type key_values) path (info.tag cookie)
            (omega arith))
          (after_KeepsIndexed _ _
            (check_source-AllIndexed query (is_type type key_values) path (info.tag query)
              (omega arith))
            (after_KeepsIndexed _ _
              (check_source-AllIndexed url (is_type type key_value) path (info.tag url)
                (omega arith))
              (after_KeepsIndexed _ _
                (check_source-AllIndexed form (is_type type key_values) path (info.tag form)
                  (omega arith))
                (after_KeepsIndexed _ _
                  (check_source-AllIndexed json true path (info.tag json) (omega arith))
                  (after_KeepsIndexed _ _
                    (check_multipart-AllIndexed (is_type type multipart_reader) path
                      (info.tag multipart))
                    (check_body-AllIndexed (is_type type read_closer) path (info.tag body))))))))

  check_recursively-AllIndexed :
      (members : Fields) (index : ℕ) (path : List ℕ)
      → KeepsIndexed (check_recursively split_fields struct_of apply_defaults members index path)
  unfolding check_recursively
  check_recursively-AllIndexed no_fields index path t h = h
  check_recursively-AllIndexed (struct_field info inner rest) index path t h =
      let next = check_recursively-AllIndexed rest (index + 1) path in
      let here = path ++ index ∷ [] in
      choice-AllIndexed info.exported info.anonymous _ _ _ (next t h)
        (then_check-AllIndexed _ _ (check_recursively-AllIndexed inner 0 here t h) next)
        (then_check-AllIndexed _ _ (check_field-AllIndexed info other_type here t h) next)
  check_recursively-AllIndexed (field info type rest) index path t h =
      let next = check_recursively-AllIndexed rest (index + 1) path in
      choice-AllIndexed info.exported info.anonymous _ _ _ (next t h) tt
        (then_check-AllIndexed _ _ (check_field-AllIndexed info type (path ++ index ∷ []) t h) next)

  check_content_types-AllIndexed : KeepsIndexed check_content_types
  unfolding check_content_types
  check_content_types-AllIndexed t h = ground arith

  compile_after-AllIndexed :
      (defaulted : Option Panic) (members : Fields)
      → AllIndexed (compile_after split_fields struct_of apply_defaults defaulted members)
  unfolding compile_after
  compile_after-AllIndexed (some err) members = tt
  compile_after-AllIndexed none members =
      then_check-AllIndexed _ _
        (check_recursively-AllIndexed members 0 [] no_tags (λ s h. ground arith, refl, refl))
        check_content_types-AllIndexed

  -- When a request struct compiles, each source of which it has a whole field is among those that are
  -- bound, and the multipart and raw body sources have the path of their field if they are bound.
  pub compile-AllIndexed :
      (name : ℕ) (members : Fields)
      → AllIndexed (compile split_fields struct_of apply_defaults name members)
  unfolding compile
  compile-AllIndexed name members = compile_after-AllIndexed (apply_defaults name) members

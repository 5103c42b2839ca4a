-- ===== src/Tags/Flags.antt =====
-- The sources that compiled tags bind.
use go_httpserver.Base.{
  ℕ, ◌+◌, ◌≡◌, arith, ap, ◌∙◌, Bool, true, false, not, ◌&&◌, ◌||◌, Option, none, some, String, List,
  [], ◌∷◌, ◌++◌, ⊤, is_some, ◌==◌, if◌then◌else◌,
}
use go_httpserver.Effect.{Panic, bug, Outcome, returned, panicked}
use go_httpserver.Tags.{
  Source, RequestTags, header, cookie, query, url, form, json, multipart, body,
}
use go_httpserver.Tags.Compile.{
  FieldInfo, FieldType, Fields, no_fields, struct_field, field, then_check, check_source,
  check_multipart, check_body, check_field, check_recursively, check_content_types, compile,
  compile_after, no_tags, bit, ◌>=>◌, is_type, http_header, key_values, key_value, multipart_reader,
  read_closer, other_type,
}

-- An exported field of the struct, or of a struct that is embedded in it at any depth, has the source's tag.
abbrev pub uses : Fields → Source → Bool
uses no_fields s = false
uses (struct_field info inner rest) s =
    if not info.exported
    then uses rest s
    else if info.anonymous
    then uses inner s || uses rest s
    else is_some (info.tag s) || uses rest s
uses (field info type rest) s =
    if not info.exported then uses rest s else is_some (info.tag s) || uses rest s

-- The flags are those of before and `used`.
abbrev pub Adds : (Source → Bool) → RequestTags → Outcome RequestTags → Type 0
Adds used before (returned tags) = (s : Source) → tags.flags s ≡ before.flags s || used s
Adds used before (panicked e) = ⊤

then_check-Adds :
    (u u' : Source → Bool) (before : RequestTags) (r : Outcome RequestTags)
    (f : RequestTags → Outcome RequestTags)
    → Adds u before r
    → ((t : RequestTags) → Adds u' t (f t))
    → Adds (λ s. u s || u' s) before (then_check r f)
then_check-Adds u u' before (panicked e) f h g = tt
then_check-Adds u u' before (returned t) f h g = both (f t) (g t)
  where
    both : (r : Outcome RequestTags) → Adds u' t r → Adds (λ s. u s || u' s) before r
    both (returned t') k = λ s. ground (arith, h s, k s)
    both (panicked e) k = tt

after_Adds :
    (u u' : Source → Bool) (f g : RequestTags → Outcome RequestTags)
    → ((t : RequestTags) → Adds u t (f t))
    → ((t : RequestTags) → Adds u' t (g t))
    → (t : RequestTags) → Adds (λ s. u s || u' s) t ((f >=> g) t)
unfolding ◌>=>◌
after_Adds u u' f g hf hg t = then_check-Adds u u' t (f t) g (hf t) hg

-- A tag of one source.
abbrev only : Source → Option String → Source → Bool
only source tag s = bit s == bit source && is_some tag

check_source-Adds :
    (source : Source) (fits : Bool) (path : List ℕ) (tag : Option String) (t : RequestTags)
    → Adds (only source tag) t (check_source source fits path tag t)
unfolding check_source
check_source-Adds source fits path none t = λ s. ground arith
check_source-Adds source fits path (some value) t = ground arith

check_multipart-Adds :
    (fits : Bool) (path : List ℕ) (tag : Option String) (t : RequestTags)
    → Adds (only multipart tag) t (check_multipart fits path tag t)
unfolding check_multipart
check_multipart-Adds fits path none t = λ s. ground arith
check_multipart-Adds fits path (some value) t = ground arith

same_Adds :
    (u u' : Source → Bool) (before : RequestTags) (r : Outcome RequestTags)
    → ((s : Source) → u s ≡ u' s)
    → Adds u before r
    → Adds u' before r
same_Adds u u' before (returned t) same h = λ s. h s ∙ ap (λ b. before.flags s || b) (same s)
same_Adds u u' before (panicked e) same h = tt

module _ (split_fields : String → List String) (struct_of : ℕ → Option Fields)
    (apply_defaults : ℕ → Option Panic) where
  check_body-Adds :
      (fits : Bool) (path : List ℕ) (tag : Option String) (t : RequestTags)
      → Adds (only body tag) t (check_body split_fields struct_of apply_defaults fits path tag t)
  unfolding check_body
  check_body-Adds fits path none t = λ s. ground arith
  check_body-Adds fits path (some value) t = ground arith

  -- The sources of a field, in the order of the checks.
  abbrev each : FieldInfo → Source → Bool
  each info s =
      only header (info.tag header) s
      || (only cookie (info.tag cookie) s
          || (only query (info.tag query) s
              || (only url (info.tag url) s
                  || (only form (info.tag form) s
                      || (only json (info.tag json) s
                          || (only multipart (info.tag multipart) s
                              || (only body (info.tag body) s)))))))

  each_tag : (info : FieldInfo) (s : Source) → each info s ≡ is_some (info.tag s)
  each_tag info header = ground arith
  each_tag info cookie = ground arith
  each_tag info query = ground arith
  each_tag info url = ground arith
  each_tag info form = ground arith
  each_tag info json = ground arith
  each_tag info multipart = ground arith
  each_tag info body = ground arith

  check_field-Adds :
      (info : FieldInfo) (type : FieldType) (path : List ℕ) (t : RequestTags)
      → Adds
          (λ s. is_some (info.tag s))
          t
          (check_field split_fields struct_of apply_defaults info type path t)
  unfolding check_field
  check_field-Adds info type path t = same_Adds (each info) _ t _ (each_tag info) (
      after_Adds (only header (info.tag header)) _ _ _
        (check_source-Adds header (is_type type http_header) path (info.tag header))
        (after_Adds (only cookie (info.tag cookie)) _ _ _
          (check_source-Adds cookie (is_type type key_values) path (info.tag cookie))
          (after_Adds (only query (info.tag query)) _ _ _
            (check_source-Adds query (is_type type key_values) path (info.tag query))
            (after_Adds (only url (info.tag url)) _ _ _
              (check_source-Adds url (is_type type key_value) path (info.tag url))
              (after_Adds (only form (info.tag form)) _ _ _
                (check_source-Adds form (is_type type key_values) path (info.tag form))
                (after_Adds (only json (info.tag json)) _ _ _
                  (check_source-Adds json true path (info.tag json))
                  (after_Adds (only multipart (info.tag multipart)) (only body (info.tag body)) _ _
                    (check_multipart-Adds (is_type type multipart_reader) path (info.tag multipart))
                    (check_body-Adds (is_type type read_closer) path (info.tag body))))))))
        t)

  check_recursively-Adds :
      (members : Fields) (index : ℕ) (path : List ℕ) (t : RequestTags)
      → Adds
          (uses members)
          t
          (check_recursively split_fields struct_of apply_defaults members index path t)
  unfolding check_recursively
  check_recursively-Adds no_fields index path t = λ s. ground arith
  check_recursively-Adds (struct_field info inner rest) index path t =
      let next = check_recursively-Adds rest (index + 1) path in
      let here = path ++ index ∷ [] in
      on_tests info.exported info.anonymous _ _ _ (next t)
        (then_check-Adds (uses inner) (uses rest) t _ _ (check_recursively-Adds inner 0 here t)
          next)
        (then_check-Adds (λ s. is_some (info.tag s)) (uses rest) t _ _
          (check_field-Adds info other_type here t) next)
    where
      on_tests :
          (exported anonymous : Bool) (x y z : Outcome RequestTags)
          → Adds (uses rest) t x
          → Adds (λ s. uses inner s || uses rest s) t y
          → Adds (λ s. is_some (info.tag s) || uses rest s) t z
          → Adds
              (λ s.
                if not exported
                then uses rest s
                else if anonymous
                then uses inner s || uses rest s
                else is_some (info.tag s) || uses rest s)
              t
              (if not exported then x else if anonymous then y else z)
      on_tests false _ x y z hx hy hz = hx
      on_tests true true x y z hx hy hz = hy
      on_tests true false x y z hx hy hz = hz
  check_recursively-Adds (field info type rest) index path t =
      let next = check_recursively-Adds rest (index + 1) path in
      on_tests info.exported info.anonymous _ (next t) (
        then_check-Adds (λ s. is_some (info.tag s)) (uses rest) t _ _
          (check_field-Adds info type (path ++ index ∷ []) t) next)
    where
      on_tests :
          (exported anonymous : Bool) (z : Outcome RequestTags)
          → Adds
              (uses rest)
              t
              (check_recursively split_fields struct_of apply_defaults rest (index + 1) path t)
          → Adds (λ s. is_some (info.tag s) || uses rest s) t z
          → Adds
              (λ s. if not exported then uses rest s else is_some (info.tag s) || uses rest s)
              t
              (if not exported
                then check_recursively split_fields struct_of apply_defaults rest (index + 1) path t
                else if anonymous
                then panicked (bug "BUG: anonymous field must be a struct")
                else z)
      on_tests false anonymous z hx hz = hx
      on_tests true true z hx hz = tt
      on_tests true false z hx hz = hz

  check_content_types-same :
      (t : RequestTags) (u : Source → Bool)
      → ((s : Source) → t.flags s ≡ u s)
      → Adds u no_tags (check_content_types t)
  unfolding check_content_types
  check_content_types-same t u h = ground (arith, h)

  compile_after-Adds :
      (defaulted : Option Panic) (members : Fields)
      → Adds
          (uses members)
          no_tags
          (compile_after split_fields struct_of apply_defaults defaulted members)
  unfolding compile_after
  compile_after-Adds (some err) members = tt
  compile_after-Adds none members =
      passed (check_recursively split_fields struct_of apply_defaults members 0 [] no_tags)
        (check_recursively-Adds members 0 [] no_tags)
    where
      passed :
          (r : Outcome RequestTags)
          → Adds (uses members) no_tags r
          → Adds (uses members) no_tags (then_check r check_content_types)
      passed (returned t) h = check_content_types-same t (uses members) h
      passed (panicked e) h = tt

  -- When a request struct compiles, the sources that are bound are those whose tag stands on an exported
  -- field of the struct or of a struct that is embedded in it, at any depth, by exported fields.
  pub compile-Adds :
      (name : ℕ) (members : Fields)
      → Adds (uses members) no_tags (compile split_fields struct_of apply_defaults name members)
  unfolding compile
  compile-Adds name members = compile_after-Adds (apply_defaults name) members

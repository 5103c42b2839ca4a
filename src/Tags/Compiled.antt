-- ===== src/Tags/Compiled.antt =====
-- Which request structs compile, and to which tags.
use go_httpserver.Base.{
  ℕ, ◌+◌, ◌<◌, Bool, true, false, not, ◌&&◌, ◌||◌, Option, none, some, String, List, [], ◌∷◌, ◌++◌,
  ◌≡◌, refl, sym, ap, arith, if◌then◌else◌, Bool-cases, inl, inr, contains,
}
use mathlib.Core.List.{append_assoc, append-nil}
use go_httpserver.Effect.{Panic, Outcome, returned, panicked}
use go_httpserver.Tags.{
  Source, RequestTags, header, cookie, query, url, form, json, multipart, body,
}
use go_httpserver.Tags.Compile.{
  FieldInfo, FieldType, then_check, bit, Fields, no_fields, struct_field, field, other_type,
  no_tags, check_field, check_recursively, check_content_types, compile_after, compile,
}
use go_httpserver.Tags.Shape.{Tagged, allowed, listed, tag_of, tags_in, embeds_structs, apart}
use go_httpserver.Tags.Judged.{
  Describes, Judged, Judges, same_Judged, after_Judges, only_of, then_check-Judged,
}
use go_httpserver.Tags.ContentTypes.{
  content_type_is_form, content_type_is_json, content_type_is_multipart,
}
use go_httpserver.Tags.Checked.{check_source-Judges}
use go_httpserver.Tags.Streams.{check_multipart-Judges, check_body-Judges}

-- The sources of one field, in the order of the checks.
abbrev each : List ℕ → FieldType → FieldInfo → Source → List Tagged
each path type info s =
    only_of header path type (info.tag header) s
    ++ (only_of cookie path type (info.tag cookie) s
        ++ (only_of query path type (info.tag query) s
            ++ (only_of url path type (info.tag url) s
                ++ (only_of form path type (info.tag form) s
                    ++ (only_of json path type (info.tag json) s
                        ++ (only_of multipart path type (info.tag multipart) s
                            ++ only_of body path type (info.tag body) s))))))

each_tag :
    (path : List ℕ) (type : FieldType) (info : FieldInfo) (s : Source)
    → each path type info s ≡ tag_of path type (info.tag s)
each_tag path type info header = append-nil (tag_of path type (info.tag header))
each_tag path type info cookie = append-nil (tag_of path type (info.tag cookie))
each_tag path type info query = append-nil (tag_of path type (info.tag query))
each_tag path type info url = append-nil (tag_of path type (info.tag url))
each_tag path type info form = append-nil (tag_of path type (info.tag form))
each_tag path type info json = append-nil (tag_of path type (info.tag json))
each_tag path type info multipart = append-nil (tag_of path type (info.tag multipart))
each_tag path type info body = refl

-- The tagged fields of a struct.
abbrev pub tags_of : Fields → Source → List Tagged
tags_of members = tags_in members 0 []

module _ (split_fields : String → List String) where
  -- Each source has named fields or one field of its type for the whole, embedded fields are structs, and the
  -- media types of a raw body are not those of the other body binders that are used.
  pub record IsWellTagged (members : Fields) : Type 0 where
    pub sources : (s : Source) → allowed s (tags_of members s) ≡ true
    pub embedded : embeds_structs members ≡ true
    pub bodies : apart (tags_of members) (listed split_fields (tags_of members body)) ≡ true

  -- What the compilation gives: tags of a well-tagged struct, or a panic.
  pub data Compiles (defaulted : Option Panic) (members : Fields)
      : Outcome RequestTags → Type 0 where
    tags_made :
        (t : RequestTags)
        → defaulted ≡ none
        → IsWellTagged members
        → Describes split_fields (tags_of members) t
        → Compiles defaulted members (returned t)
    defaults_failed : (e : Panic) → defaulted ≡ some e → Compiles defaulted members (panicked e)
    not_tagged : (e : Panic) → ¬ IsWellTagged members → Compiles defaulted members (panicked e)

module _ (split_fields : String → List String) (struct_of : ℕ → Option Fields)
    (apply_defaults : ℕ → Option Panic) where
  check_field-Judges :
      (info : FieldInfo) (type : FieldType) (path : List ℕ)
      → Judges split_fields
          (λ s. tag_of path type (info.tag s))
          true
          (check_field split_fields struct_of apply_defaults info type path)
  unfolding check_field
  check_field-Judges info type path T t h =
      let after = after_Judges split_fields in
      let one = λ (source : Source) (named : bit source < 6).
        check_source-Judges split_fields source type path (info.tag source) named in
      same_Judged split_fields (λ s. T s ++ each path type info s)
        (λ s. T s ++ tag_of path type (info.tag s)) true _
        (λ s. ap (λ xs. T s ++ xs) (each_tag path type info s))
        (after _ _ _ _ (one header (omega arith))
          (after _ _ _ _ (one cookie (omega arith)) (
            after _ _ _ _ (one query (omega arith)) (
              after _ _ _ _ (one url (omega arith)) (
                after _ _ _ _ (one form (omega arith)) (
                  after _ _ _ _ (one json (omega arith)) (
                    after _ _ _ _
                      (check_multipart-Judges split_fields struct_of apply_defaults type path
                        (info.tag multipart))
                      (check_body-Judges split_fields struct_of apply_defaults type path
                        (info.tag body))))))))
          T t h)

  -- The branches of the loop, for a field with the tags `own` of a struct with the tags `inner`, before
  -- the tags `rest`.
  branch_Judged :
      (T rest inner own : Source → List Tagged) (ei er exported anonymous : Bool)
      (x y z : Outcome RequestTags)
      → Judged split_fields (λ s. T s ++ rest s) er x
      → Judged split_fields (λ s. (T s ++ inner s) ++ rest s) (ei && er) y
      → Judged split_fields (λ s. (T s ++ own s) ++ rest s) er z
      → Judged split_fields
          (λ s.
            T s
            ++ (if not exported
                then rest s
                else if anonymous
                then inner s ++ rest s
                else own s ++ rest s))
          ((not (exported && anonymous) || ei) && er)
          (if not exported then x else if anonymous then y else z)
  branch_Judged T rest inner own ei er false anonymous x y z hx hy hz = hx
  branch_Judged T rest inner own ei er true true x y z hx hy hz =
      same_Judged split_fields _ _ (ei && er) y (λ s. append_assoc (T s) (inner s) (rest s)) hy
  branch_Judged T rest inner own ei er true false x y z hx hy hz =
      same_Judged split_fields _ _ er z (λ s. append_assoc (T s) (own s) (rest s)) hz

  -- The same for a field that is no struct, which may not be embedded.
  plain_Judged :
      (T rest own : Source → List Tagged) (er exported anonymous : Bool) (e : Panic)
      (x z : Outcome RequestTags)
      → Judged split_fields (λ s. T s ++ rest s) er x
      → Judged split_fields (λ s. (T s ++ own s) ++ rest s) er z
      → Judged split_fields
          (λ s. T s ++ (if not exported then rest s else own s ++ rest s))
          (not (exported && anonymous) && er)
          (if not exported then x else if anonymous then panicked e else z)
  plain_Judged T rest own er false anonymous e x z hx hz = hx
  plain_Judged T rest own er true true e x z hx hz = inr refl
  plain_Judged T rest own er true false e x z hx hz =
      same_Judged split_fields _ _ er z (λ s. append_assoc (T s) (own s) (rest s)) hz

  check_recursively-Judges :
      (members : Fields) (index : ℕ) (path : List ℕ)
      → Judges split_fields
          (tags_in members index path)
          (embeds_structs members)
          (check_recursively split_fields struct_of apply_defaults members index path)
  unfolding check_recursively
  check_recursively-Judges no_fields index path T t h =
      same_Judged split_fields T _ true (returned t) (λ s. sym (append-nil (T s))) (h, refl)
  check_recursively-Judges (struct_field info inner rest) index path T t h =
      let next = check_recursively-Judges rest (index + 1) path in
      let here = path ++ index ∷ [] in
      let tags = tags_in rest (index + 1) path in
      branch_Judged T tags (tags_in inner 0 here) (λ s. tag_of here other_type (info.tag s))
        (embeds_structs inner) (embeds_structs rest) info.exported info.anonymous _ _ _ (next T t h)
        (then_check-Judged split_fields (λ s. T s ++ tags_in inner 0 here s) tags
          (embeds_structs inner) (embeds_structs rest) _ _
          (check_recursively-Judges inner 0 here T t h) next)
        (then_check-Judged split_fields (λ s. T s ++ tag_of here other_type (info.tag s)) tags true
          (embeds_structs rest) _ _ (check_field-Judges info other_type here T t h) next)
  check_recursively-Judges (field info type rest) index path T t h =
      let next = check_recursively-Judges rest (index + 1) path in
      let here = path ++ index ∷ [] in
      let tags = tags_in rest (index + 1) path in
      plain_Judged T tags (λ s. tag_of here type (info.tag s)) (embeds_structs rest) info.exported
        info.anonymous _ _ _ (next T t h)
        (then_check-Judged split_fields (λ s. T s ++ tag_of here type (info.tag s)) tags true
          (embeds_structs rest) _ _ (check_field-Judges info type here T t h) next)

  checked_types :
      (members : Fields) (t : RequestTags)
      → Describes split_fields (tags_of members) t
      → embeds_structs members ≡ true
      → Compiles split_fields none members (check_content_types t)
  unfolding check_content_types
  checked_types members t h e =
      let forms_used = (h.laid form).flagged in
      let jsons_used = (h.laid json).flagged in
      let parts_used = (h.laid multipart).flagged in
      elim (Bool-cases (t.flags form && contains t.body_content_types content_type_is_form)) [
        | inl bad ↦ rw bad (not_tagged _ (λ w. ground (arith, w.bodies, h.types)))
        | inr forms ↦
            elim (Bool-cases (t.flags json && contains t.body_content_types content_type_is_json)) [
              | inl bad ↦ rw (forms, bad) (not_tagged _ (λ w. ground (arith, w.bodies, h.types)))
              | inr jsons ↦
                  elim (Bool-cases (
                    t.flags multipart && contains t.body_content_types content_type_is_multipart)) [
                      | inl bad ↦
                          rw (forms, jsons, bad)
                            (not_tagged _ (λ w. ground (arith, w.bodies, h.types)))
                      | inr parts ↦
                          rw (forms, jsons, parts)
                            (tags_made t refl
                              (record {
                                sources = λ s. (h.laid s).fine;
                                embedded = e;
                                bodies = ground (arith, h.types);
                              })
                              h)
                    ]
            ]
      ]

  checked_fields :
      (members : Fields) (r : Outcome RequestTags)
      → Judged split_fields (tags_of members) (embeds_structs members) r
      → Compiles split_fields none members (then_check r check_content_types)
  checked_fields members (returned t) (h, e) = checked_types members t h e
  checked_fields members (panicked e) (inl (s, bad)) = not_tagged e (λ w. cc (bad, w.sources s))
  checked_fields members (panicked e) (inr bad) = not_tagged e (λ w. cc (bad, w.embedded))

  compile_after-Compiles :
      (defaulted : Option Panic) (members : Fields)
      → Compiles split_fields defaulted members
          (compile_after split_fields struct_of apply_defaults defaulted members)
  unfolding compile_after
  compile_after-Compiles (some e) members = defaults_failed e refl
  compile_after-Compiles none members =
      checked_fields members
        (check_recursively split_fields struct_of apply_defaults members 0 [] no_tags)
        (check_recursively-Judges members 0 [] (λ s. []) no_tags
          (record {
            laid = λ s. record { fine = refl; flagged = refl; indexed = refl };
            types = refl;
          }))

  -- A request struct compiles exactly when its defaults apply and it is well tagged: each of the six sources with
  -- names has either named fields or one field of the right type for the whole source, there is at most one
  -- field of the right type for the multipart reader and one for the raw body, embedded fields are
  -- structs, and the media types of the raw body are not those of another body source in use. The compiled tags
  -- then have just the sources that have a tagged field, the path of the field for a whole source and
  -- none for named fields, and the media types of the raw body. Otherwise the compilation panics.
  pub compile-Compiles :
      (name : ℕ) (members : Fields)
      → Compiles split_fields
          (apply_defaults name)
          members
          (compile split_fields struct_of apply_defaults name members)
  unfolding compile
  compile-Compiles name members = compile_after-Compiles (apply_defaults name) members

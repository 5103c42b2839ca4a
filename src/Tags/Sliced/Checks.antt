-- ===== src/Tags/Sliced/Checks.antt =====
-- That the checks of a field do with slices what they do with lists.
use go_httpserver.Base.{
  ℕ, ◌≡◌, inl, inr, refl, ap, Bool, true, not, Option, none, some, is_some, String, List, [], ◌∷◌,
  ◌++◌, str_eq, Bool-cases,
}
use go_httpserver.Effect.{Panic, bug}
use go_httpserver.Slices.{Slice, elements}
use go_httpserver.Tags.{
  Source, RequestTags, header, cookie, query, url, form, json, multipart, body,
}
use go_httpserver.Tags.Compile.{
  FieldType, http_header, key_values, key_value, multipart_reader, read_closer, is_type, FieldInfo,
  Fields, set_flag, set_index, multiple, wrong_type, check_source, check_multipart, check_body,
  check_field,
}
use go_httpserver.Tags.Sliced.{
  SlicedTags, tags_of, flagged, place, check_source_at, check_multipart_at, check_body_at,
  check_field_at,
}
use go_httpserver.Tags.Sliced.Passes.{IsPrivate, Goes, Goes-refl}
use go_httpserver.Tags.Sliced.Records.{
  Agrees, Tracks, if_Agrees, panics_Agrees, Goes-Agrees, flagged-Goes, from_flagged-Goes,
  flagged-IsPrivate, chain-Tracks, is_some-contents, place-Goes, place-tags_of,
}

module _ (spare : ℕ → ℕ) (path : Slice) (l : List ℕ) (index : ℕ) where
  check_source_at-Agrees :
      (source : Source) (fits : Bool) (value : Option String) (t : SlicedTags)
      → IsPrivate path t
      → elements t.heap path ≡ l
      → Agrees path t
          (check_source_at spare source fits path index value t)
          (check_source source fits (l ++ index ∷ []) value (tags_of t))
  unfolding check_source_at check_source
  check_source_at-Agrees source fits none t private at = Goes-Agrees refl (Goes-refl path t)
  check_source_at-Agrees source fits (some value) t private at =
      if_Agrees (not (str_eq value ""))
        (rw (is_some-contents t.heap (t.slices source)) (
          if_Agrees (is_some (t.slices source)) (panics_Agrees (bug (multiple source)))
            (Goes-Agrees refl (flagged-Goes source (Goes-refl path t)))))
        (if_Agrees (t.flags source) (panics_Agrees (bug (multiple source))) (
          if_Agrees (not fits) (panics_Agrees (bug (wrong_type source))) (
            Goes-Agrees (ap (set_flag source) (place-tags_of spare path index source t private at))
              (flagged-Goes source (place-Goes spare path index source t)))))

  check_source_at-Tracks :
      (source : Source) (fits : Bool) (value : Option String)
      → Tracks path l
          (check_source_at spare source fits path index value)
          (check_source source fits (l ++ index ∷ []) value)
  check_source_at-Tracks source fits value = record {
    from_tags = check_source_at-Agrees source fits value;
  }

  -- A source that is flagged before its path is placed.
  placed-Goes :
      (source : Source) (t : SlicedTags)
      → Goes path t (place spare source path index (flagged source t))
  placed-Goes source t =
      from_flagged-Goes source (place-Goes spare path index source (flagged source t))

  placed-tags_of :
      (source : Source) (t : SlicedTags)
      → IsPrivate path t
      → elements t.heap path ≡ l
      → tags_of (place spare source path index (flagged source t))
        ≡ set_index source (l ++ index ∷ []) (set_flag source (tags_of t))
  placed-tags_of source t private at =
      place-tags_of spare path index source (flagged source t) (flagged-IsPrivate source private) at

  check_multipart_at-Agrees :
      (fits : Bool) (value : Option String) (t : SlicedTags)
      → IsPrivate path t
      → elements t.heap path ≡ l
      → Agrees path t
          (check_multipart_at spare fits path index value t)
          (check_multipart fits (l ++ index ∷ []) value (tags_of t))
  unfolding check_multipart_at check_multipart
  check_multipart_at-Agrees fits none t private at = Goes-Agrees refl (Goes-refl path t)
  check_multipart_at-Agrees fits (some value) t private at =
      if_Agrees (not (str_eq value "")) (panics_Agrees _) (
        if_Agrees (t.flags multipart) (panics_Agrees _) (
          if_Agrees (not fits) (panics_Agrees _)
            (Goes-Agrees (placed-tags_of multipart t private at) (placed-Goes multipart t))))

  check_multipart_at-Tracks :
      (fits : Bool) (value : Option String)
      → Tracks path l
          (check_multipart_at spare fits path index value)
          (check_multipart fits (l ++ index ∷ []) value)
  check_multipart_at-Tracks fits value = record { from_tags = check_multipart_at-Agrees fits value }

  module _ (split_fields : String → List String) (struct_of : ℕ → Option Fields)
      (apply_defaults : ℕ → Option Panic) where
    check_body_at-Agrees :
        (fits : Bool) (value : Option String) (t : SlicedTags)
        → IsPrivate path t
        → elements t.heap path ≡ l
        → Agrees path t (check_body_at spare split_fields fits path index value t) (
            check_body split_fields struct_of apply_defaults fits
              (l ++ index ∷ [])
              value
              (tags_of t))
    unfolding check_body_at check_body
    check_body_at-Agrees fits none t private at = Goes-Agrees refl (Goes-refl path t)
    check_body_at-Agrees fits (some value) t private at =
        let same = placed-tags_of body t private at in
        let goes = placed-Goes body t in
        if_Agrees (t.flags body) (panics_Agrees _) (
          if_Agrees (not fits) (panics_Agrees _) (elim (Bool-cases (str_eq value "")) [
            | inl empty ↦ rw empty (Goes-Agrees same goes)
            | inr types ↦ rw types (
                Goes-Agrees
                  (ap (λ (q : RequestTags). record q { body_content_types = split_fields value })
                    same)
                  (record { grows = goes.grows; kept = goes.kept; recorded = goes.recorded }))
          ]))

    check_body_at-Tracks :
        (fits : Bool) (value : Option String)
        → Tracks path l
            (check_body_at spare split_fields fits path index value)
            (check_body split_fields struct_of apply_defaults fits (l ++ index ∷ []) value)
    check_body_at-Tracks fits value = record { from_tags = check_body_at-Agrees fits value }

    pub check_field_at-Tracks :
        (info : FieldInfo) (type : FieldType)
        → Tracks path l
            (check_field_at spare split_fields info type path index)
            (check_field split_fields struct_of apply_defaults info type (l ++ index ∷ []))
    unfolding check_field_at check_field
    check_field_at-Tracks info type =
        chain-Tracks (check_source_at-Tracks header (is_type type http_header) (info.tag header)) (
          chain-Tracks (check_source_at-Tracks cookie (is_type type key_values) (info.tag cookie)) (
            chain-Tracks (check_source_at-Tracks query (is_type type key_values) (info.tag query)) (
              chain-Tracks (check_source_at-Tracks url (is_type type key_value) (info.tag url)) (
                chain-Tracks (check_source_at-Tracks form (is_type type key_values) (info.tag form))
                  (chain-Tracks (check_source_at-Tracks json true (info.tag json)) (
                    chain-Tracks
                      (check_multipart_at-Tracks (is_type type multipart_reader)
                        (info.tag multipart))
                      (check_body_at-Tracks (is_type type read_closer) (info.tag body))))))))

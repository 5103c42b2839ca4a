-- ===== src/Tags/Streams.antt =====
-- The checks of the multipart and raw body tags, against the lists of the tagged fields.
use go_httpserver.Base.{
  ℕ, true, false, Option, none, some, String, List, [], ◌∷◌, ◌++◌, ◌≡◌, ◌⊎◌, arith, str_eq,
  Bool-cases, inl, inr,
}
use mathlib.Core.List.{append-nil}
use go_httpserver.Effect.{Panic}
use go_httpserver.Tags.{Source, RequestTags, multipart, body}
use go_httpserver.Tags.Compile.{FieldType, check_multipart, check_body, Fields, set_flag, set_index}
use go_httpserver.Tags.Shape.{
  Tagged, fits, allowed, allowed-snoc, index_of-snoc, is_empty-snoc, listed-snoc, first_path-snoc,
}
use go_httpserver.Tags.Judged.{IsLaid, Describes, Judges, only_of, refused, taken_in, no_tag}

module _ (split_fields : String → List String) (path : List ℕ) (type : FieldType) (value : String)
    (T : Source → List Tagged) (t : RequestTags) (h : Describes split_fields T t) where
  abbrev new_field : Tagged
  new_field = record { path = path; value = value; type = type }

  IsLaid-multipart :
      str_eq value "" ≡ true
      → t.flags multipart ≡ false
      → fits multipart type ≡ true
      → IsLaid multipart (T multipart ++ new_field ∷ []) true (some path)
  IsLaid-multipart empty unused fitting = record {
    fine = ground (arith, h.laid multipart, allowed-snoc multipart (T multipart) new_field);
    flagged = ground (arith, is_empty-snoc (T multipart) new_field);
    indexed = ground (
      arith,
      h.laid multipart,
      index_of-snoc multipart (T multipart) new_field,
      first_path-snoc (T multipart) new_field,
    );
  }

  IsLaid-body :
      t.flags body ≡ false
      → fits body type ≡ true
      → IsLaid body (T body ++ new_field ∷ []) true (some path)
  IsLaid-body unused fitting = record {
    fine = ground (arith, h.laid body, allowed-snoc body (T body) new_field);
    flagged = ground (arith, is_empty-snoc (T body) new_field);
    indexed = ground (
      arith,
      h.laid body,
      index_of-snoc body (T body) new_field,
      first_path-snoc (T body) new_field,
    );
  }

  refused_multipart :
      (str_eq value "" ≡ false) ⊎ (t.flags multipart ≡ true) ⊎ (fits multipart type ≡ false)
      → allowed multipart (T multipart ++ new_field ∷ []) ≡ false
  refused_multipart bad =
      ground (arith, h.laid multipart, allowed-snoc multipart (T multipart) new_field)

  refused_body :
      (t.flags body ≡ true) ⊎ (fits body type ≡ false)
      → allowed body (T body ++ new_field ∷ []) ≡ false
  refused_body bad = ground (arith, h.laid body, allowed-snoc body (T body) new_field)

module _ (split_fields : String → List String) (struct_of : ℕ → Option Fields)
    (apply_defaults : ℕ → Option Panic) where
  pub check_multipart-Judges :
      (type : FieldType) (path : List ℕ) (tag : Option String)
      → Judges split_fields
          (only_of multipart path type tag)
          true
          (check_multipart (fits multipart type) path tag)
  unfolding check_multipart
  check_multipart-Judges type path none T t h = no_tag split_fields multipart path type T t h
  check_multipart-Judges type path (some value) T t h =
      let take = taken_in split_fields multipart path type T t h (some value) in
      let refuse = refused split_fields multipart path type T t h (some value) in
      let bad = refused_multipart split_fields path type value T t h in
      elim (Bool-cases (str_eq value "")) [
        | inr differs ↦ rw differs (inl (refuse (bad (inl differs))))
        | inl empty ↦ elim (Bool-cases (t.flags multipart)) [
          | inl used ↦ rw (empty, used) (inl (refuse (bad (inr (inl used)))))
          | inr unused ↦ elim (Bool-cases (fits multipart type)) [
            | inr misfit ↦ rw (empty, unused, misfit) (inl (refuse (bad (inr (inr misfit)))))
            | inl fitting ↦
                rw (empty, unused, fitting)
                  (take (set_index multipart path (set_flag multipart t))
                    (IsLaid-multipart split_fields path type value T t h empty unused fitting)
                    (λ s other. ground (arith, other))
                    (ground (arith, h.types, append-nil (T body))))
          ]
        ]
      ]

  pub check_body-Judges :
      (type : FieldType) (path : List ℕ) (tag : Option String)
      → Judges split_fields
          (only_of body path type tag)
          true
          (check_body split_fields struct_of apply_defaults (fits body type) path tag)
  unfolding check_body
  check_body-Judges type path none T t h = no_tag split_fields body path type T t h
  check_body-Judges type path (some value) T t h =
      let take = taken_in split_fields body path type T t h (some value) in
      let refuse = refused split_fields body path type T t h (some value) in
      let bad = refused_body split_fields path type value T t h in
      elim (Bool-cases (t.flags body)) [
        | inl used ↦ rw used (inl (refuse (bad (inl used))))
        | inr unused ↦ elim (Bool-cases (fits body type)) [
          | inr misfit ↦ rw (unused, misfit) (inl (refuse (bad (inr misfit))))
          | inl fitting ↦
              let placed = set_index body path (set_flag body t) in
              let laid = IsLaid-body split_fields path type value T t h unused fitting in
              elim (Bool-cases (str_eq value "")) [
                | inl empty ↦
                    rw (unused, fitting, empty)
                      (take placed laid (λ s other. ground (arith, other))
                        (ground (
                          arith,
                          h.types,
                          h.laid body,
                          listed-snoc split_fields (T body)
                              (new_field split_fields path type value T t h),
                        )))
                | inr listing ↦
                    rw (unused, fitting, listing)
                      (take (record placed { body_content_types = split_fields value }) laid
                        (λ s other. ground (arith, other))
                        (ground (
                          arith,
                          h.laid body,
                          listed-snoc split_fields (T body)
                              (new_field split_fields path type value T t h),
                        )))
              ]
        ]
      ]

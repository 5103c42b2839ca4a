-- ===== src/Tags/Checked.antt =====
-- The checks of one field, against the lists of the tagged fields.
use go_httpserver.Base.{
  ℕ, ◌<◌, ◌==◌, true, false, Option, none, some, String, List, ◌++◌, ◌≡◌, ◌⊎◌, arith, str_eq,
  is_some, Bool-cases, inl, inr,
}
use mathlib.Core.List.{append-nil}
use go_httpserver.Tags.{Source, RequestTags, body}
use go_httpserver.Tags.Compile.{FieldType, check_source, bit, set_flag, set_index}
use go_httpserver.Tags.Shape.{
  Tagged, fits, allowed, listed, tag_of, allowed-snoc, index_of-snoc, is_some-index_of,
  is_empty-snoc, first_path-snoc,
}
use go_httpserver.Tags.Judged.{IsLaid, Describes, Judges, only_of, refused, taken_in, no_tag}

module _ (split_fields : String → List String) (source : Source) (path : List ℕ) (type : FieldType)
    (value : String) (named : bit source < 6) (T : Source → List Tagged) (t : RequestTags)
    (h : Describes split_fields T t) where
  new_field : Tagged
  new_field = record { path = path; value = value; type = type }

  types_kept :
      (tag : Option String)
      → t.body_content_types ≡ listed split_fields (T body ++ only_of source path type tag body)
  types_kept tag = ground (arith, h.types, append-nil (T body))

  -- The field is refused.
  refused_named :
      str_eq value "" ≡ false
      → is_some (t.field_index source) ≡ true
      → allowed source (T source ++ tag_of path type (some value)) ≡ false
  unfolding new_field
  refused_named differs whole = ground (
    arith,
    h.laid source,
    allowed-snoc source (T source) new_field,
    is_some-index_of source (T source),
  )

  refused_whole :
      str_eq value "" ≡ true
      → (t.flags source ≡ true) ⊎ (fits source type ≡ false)
      → allowed source (T source ++ tag_of path type (some value)) ≡ false
  unfolding new_field
  refused_whole empty used = ground (arith, h.laid source, allowed-snoc source (T source) new_field)

  IsLaid-named :
      str_eq value "" ≡ false
      → is_some (t.field_index source) ≡ false
      → IsLaid source (T source ++ tag_of path type (some value)) true (t.field_index source)
  unfolding new_field
  IsLaid-named differs not_whole = record {
    fine = ground (
      arith,
      h.laid source,
      allowed-snoc source (T source) new_field,
      is_some-index_of source (T source),
    );
    flagged = ground (arith, is_empty-snoc (T source) new_field);
    indexed = ground (
      arith,
      h.laid source,
      index_of-snoc source (T source) new_field,
      is_some-index_of source (T source),
    );
  }

  IsLaid-whole :
      str_eq value "" ≡ true
      → t.flags source ≡ false
      → fits source type ≡ true
      → IsLaid source (T source ++ tag_of path type (some value)) true (some path)
  unfolding new_field
  IsLaid-whole empty unused fitting = record {
    fine = ground (arith, h.laid source, allowed-snoc source (T source) new_field);
    flagged = ground (arith, is_empty-snoc (T source) new_field);
    indexed = ground (
      arith,
      h.laid source,
      index_of-snoc source (T source) new_field,
      first_path-snoc (T source) new_field,
    );
  }

module _ (split_fields : String → List String) where
  pub check_source-Judges :
      (source : Source) (type : FieldType) (path : List ℕ) (tag : Option String)
      → bit source < 6
      → Judges split_fields
          (only_of source path type tag)
          true
          (check_source source (fits source type) path tag)
  unfolding check_source
  check_source-Judges source type path none named T t h = no_tag split_fields source path type T t h
  check_source-Judges source type path (some value) named T t h =
      let self : (bit source == bit source) ≡ true = ground arith in
      let types = types_kept split_fields source path type value named T t h (some value) in
      let take = taken_in split_fields source path type T t h (some value) in
      let refuse = refused split_fields source path type T t h (some value) in
      elim (Bool-cases (str_eq value "")) [
        | inr differs ↦ elim (Bool-cases (is_some (t.field_index source))) [
          | inl whole ↦
              rw (differs, whole)
                (inl (
                  refuse
                    (refused_named split_fields source path type value named T t h differs whole)))
          | inr free ↦
              rw (differs, free)
                (take (set_flag source t)
                  (rw self
                    (IsLaid-named split_fields source path type value named T t h differs free))
                  (λ s other. ground (arith, other)) types)
        ]
        | inl empty ↦ elim (Bool-cases (t.flags source)) [
          | inl used ↦
              rw (empty, used)
                (inl (
                  refuse (
                    refused_whole split_fields source path type value named T t h empty
                      (inl used))))
          | inr unused ↦ elim (Bool-cases (fits source type)) [
            | inr misfit ↦
                rw (empty, unused, misfit)
                  (inl (
                    refuse (
                      refused_whole split_fields source path type value named T t h empty
                        (inr misfit))))
            | inl fitting ↦
                rw (empty, unused, fitting)
                  (take (set_flag source (set_index source path t))
                    (rw self (
                      IsLaid-whole split_fields source path type value named T t h empty unused
                        fitting))
                    (λ s other. ground (arith, other)) types)
          ]
        ]
      ]

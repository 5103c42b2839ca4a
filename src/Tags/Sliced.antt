-- ===== src/Tags/Sliced.antt =====
-- request_tags.go: checkRecursively with its index paths as Go slices. A path that it only passes on is appended to
-- in place, where there is room; a path that it records is copied.
pub mod Passes
pub mod Records
pub mod Checks
pub mod Unshared
use go_httpserver.Base.{
  ℕ, ◌+◌, Bool, true, false, ◌||◌, not, Option, none, some, String, List, [], ◌∷◌, if◌then◌else◌,
  str_eq, is_some, ◌==◌,
}
use go_httpserver.Effect.{Panic, bug, Outcome, returned, panicked}
use go_httpserver.Slices.{Slice, nil_slice, Heap, elements, append}
use go_httpserver.Tags.{
  Source, RequestTags, header, cookie, query, url, form, json, multipart, body,
}
use go_httpserver.Tags.Compile.{
  FieldType, http_header, key_values, key_value, multipart_reader, read_closer, other_type,
  FieldInfo, Fields, no_fields, struct_field, field, bit, then_check, is_type, multiple, wrong_type,
  check_content_types,
}

-- requestTags while checkRecursively fills it in, and the heap.
pub record SlicedTags : Type 0 where
  pub flags : Source → Bool
  pub slices : Source → Option Slice
  pub body_content_types : List String
  pub heap : Heap ℕ

abbrev pub contents : Heap ℕ → Option Slice → Option (List ℕ)
contents h none = none
contents h (some s) = some (elements h s)

-- The tags as their slices now read.
abbrev pub tags_of : SlicedTags → RequestTags
tags_of t = record {
  flags = t.flags;
  field_index = λ s. contents t.heap (t.slices s);
  body_content_types = t.body_content_types;
}

abbrev pub no_slices : Heap ℕ → SlicedTags
no_slices h = record { flags = λ s. false; slices = λ s. none; body_content_types = []; heap = h }

abbrev pub flagged : Source → SlicedTags → SlicedTags
flagged source t = record t { flags = λ s. bit s == bit source || t.flags s }

-- One check of the loop after another.
infixr 30 ◌>->◌
unfoldable pub ◌>->◌ :
    (SlicedTags → Outcome SlicedTags)
    → (SlicedTags → Outcome SlicedTags)
    → SlicedTags
    → Outcome SlicedTags
(f >-> g) t = then_check (f t) g

-- The checks of the content types do not look at the paths.
abbrev pub content_types_checked : SlicedTags → Outcome SlicedTags
content_types_checked t = then_check (check_content_types (tags_of t)) (λ _. returned t)

-- `spare` is the room that a new array has beyond what is needed.
module _ (spare : ℕ → ℕ) where
  -- `append(append([]int(nil), fieldIndex...), field.Index...)`
  unfoldable pub full_path : Slice → ℕ → Heap ℕ → Slice × Heap ℕ
  unfolding append
  full_path path index h =
      let (copy, h') = append 0 spare nil_slice (elements h path) h in
      append 0 spare copy (index ∷ []) h'

  abbrev pub put_slice : Source → Slice × Heap ℕ → SlicedTags → SlicedTags
  put_slice source (whole, h) t = record t {
    slices = λ s. if bit s == bit source then some whole else t.slices s;
    heap = h;
  }

  abbrev pub place : Source → Slice → ℕ → SlicedTags → SlicedTags
  place source path index t = put_slice source (full_path path index t.heap) t

  unfoldable pub check_source_at :
      Source → Bool → Slice → ℕ → Option String → SlicedTags → Outcome SlicedTags
  unfolding full_path
  check_source_at source fits path index none t = returned t
  check_source_at source fits path index (some value) t =
      if not (str_eq value "")
      then (if is_some (t.slices source)
          then panicked (bug (multiple source))
          else returned (flagged source t))
      else if t.flags source
      then panicked (bug (multiple source))
      else if not fits
      then panicked (bug (wrong_type source))
      else returned (flagged source (place source path index t))

  unfoldable pub check_multipart_at :
      Bool → Slice → ℕ → Option String → SlicedTags → Outcome SlicedTags
  unfolding full_path
  check_multipart_at fits path index none t = returned t
  check_multipart_at fits path index (some value) t =
      if not (str_eq value "")
      then panicked (bug "BUG: `multipart` tag value must be empty")
      else if t.flags multipart
      then panicked (bug (multiple multipart))
      else if not fits
      then panicked (bug (wrong_type multipart))
      else returned (place multipart path index (flagged multipart t))

  module _ (split_fields : String → List String) where
    unfoldable pub check_body_at :
        Bool → Slice → ℕ → Option String → SlicedTags → Outcome SlicedTags
    unfolding full_path
    check_body_at fits path index none t = returned t
    check_body_at fits path index (some value) t =
        if t.flags body
        then panicked (bug (multiple body))
        else if not fits
        then panicked (bug (wrong_type body))
        else let placed = place body path index (flagged body t) in
          returned (
            if str_eq value ""
            then placed
            else record placed { body_content_types = split_fields value })

    unfoldable pub check_field_at :
        FieldInfo → FieldType → Slice → ℕ → SlicedTags → Outcome SlicedTags
    unfolding ◌>->◌ check_source_at check_multipart_at check_body_at
    check_field_at info type path index =
        check_source_at header (is_type type http_header) path index (info.tag header)
        >-> check_source_at cookie (is_type type key_values) path index (info.tag cookie)
        >-> check_source_at query (is_type type key_values) path index (info.tag query)
        >-> check_source_at url (is_type type key_value) path index (info.tag url)
        >-> check_source_at form (is_type type key_values) path index (info.tag form)
        >-> check_source_at json true path index (info.tag json)
        >-> check_multipart_at (is_type type multipart_reader) path index (info.tag multipart)
        >-> check_body_at (is_type type read_closer) path index (info.tag body)

    -- The embedded struct gets `append(fieldIndex, field.Index...)`, without a copy.
    unfoldable pub check_recursively_at : Fields → ℕ → Slice → SlicedTags → Outcome SlicedTags
    unfolding check_field_at append
    check_recursively_at no_fields index path t = returned t
    check_recursively_at (struct_field info inner rest) index path t =
        let next = check_recursively_at rest (index + 1) path in
        let (longer, h) = append 0 spare path (index ∷ []) t.heap in
        let embedded = check_recursively_at inner 0 longer (record t { heap = h }) in
        if not info.exported
        then next t
        else if info.anonymous
        then then_check embedded next
        else then_check (check_field_at info other_type path index t) next
    check_recursively_at (field info type rest) index path t =
        let next = check_recursively_at rest (index + 1) path in
        if not info.exported
        then next t
        else if info.anonymous
        then panicked (bug "BUG: anonymous field must be a struct")
        else then_check (check_field_at info type path index t) next

    -- The compilation, given how the defaults apply to a new value.
    unfoldable pub compile_at : Option Panic → Fields → Heap ℕ → Outcome SlicedTags
    unfolding check_recursively_at check_content_types
    compile_at (some err) members h = panicked err
    compile_at none members h =
        then_check (check_recursively_at members 0 nil_slice (no_slices h)) content_types_checked

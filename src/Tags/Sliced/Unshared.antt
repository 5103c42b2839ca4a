-- ===== src/Tags/Sliced/Unshared.antt =====
-- The index paths of checkRecursively as Go slices: no recorded path is overwritten.
use go_httpserver.Base.{
  ℕ, ◌+◌, ◌<◌, ◌≡◌, ◌⊎◌, ◌∙◌, inl, inr, refl, ap, arith, not, Option, none, some, String, List, [],
  ◌∷◌, ◌++◌,
}
use go_httpserver.Effect.{Panic, Outcome, returned, panicked}
use go_httpserver.Slices.{read, read_cong, Slice, nil_slice, Heap, elements, append-elements}
use go_httpserver.Tags.{RequestTags}
use go_httpserver.Tags.Compile.{
  Fields, no_fields, struct_field, field, other_type, then_check, check_recursively,
  check_content_types, compile, compile_after,
}
use go_httpserver.Tags.Sliced.{
  SlicedTags, tags_of, no_slices, check_recursively_at, content_types_checked, compile_at,
}
use go_httpserver.Tags.Sliced.Passes.{
  IsPrivate, Goes-refl, longer, passed, passed-IsPrivate, longer-Goes, passed-tags_of,
}
use go_httpserver.Tags.Sliced.Records.{
  Agrees, Tracks, if_Agrees, then-Agrees, panics_Agrees, Goes-Agrees,
}
use go_httpserver.Tags.Sliced.Checks.{check_field_at-Tracks}

no_slices-IsPrivate : (h : Heap ℕ) → IsPrivate nil_slice (no_slices h)
no_slices-IsPrivate h = record { mine = inl (refl, refl); apart = λ s w is. cc }

abbrev pub tags_from : Outcome SlicedTags → Outcome RequestTags
tags_from (returned t) = returned (tags_of t)
tags_from (panicked e) = panicked e

-- The heap that comes with the tags, if there are tags.
abbrev pub heap_after : Heap ℕ → Outcome SlicedTags → Heap ℕ
heap_after h (returned t) = t.heap
heap_after h (panicked e) = h

content_types_cases :
    (q : RequestTags)
    → (check_content_types q ≡ returned q) ⊎ (e : Panic) × (check_content_types q ≡ panicked e)
unfolding check_content_types
content_types_cases q = at (check_content_types q) refl
  where
    at :
        (o : Outcome RequestTags)
        → check_content_types q ≡ o
        → (check_content_types q ≡ returned q) ⊎ (e : Panic) × (check_content_types q ≡ panicked e)
    at (returned r) is = inl (ground (arith, is))
    at (panicked e) is = inr (e, is)

abbrev Keeps : Slice → Heap ℕ → Outcome SlicedTags → Outcome RequestTags → Type 0
Keeps w h o p = (tags_from o ≡ p) × (elements (heap_after h o) w ≡ elements h w)

checked-Keeps :
    (w : Slice) (h : Heap ℕ) (o : Outcome SlicedTags) (p : Outcome RequestTags)
    → w.array < h.fresh
    → Agrees nil_slice (no_slices h) o p
    → Keeps w h (then_check o content_types_checked) (then_check p check_content_types)
checked-Keeps w h (panicked e) p old agrees = rw agrees.ends (refl, refl)
checked-Keeps w h (returned t) p old agrees =
    let (same, goes) = agrees.ends in
    let stays : elements t.heap w ≡ elements h w =
      read_cong (t.heap.arrays w.array) (h.arrays w.array) w.from w.len
        (λ j lo hi. goes.kept w.array j old (inl (inr refl))) in
    elim (content_types_cases (tags_of t)) [
      | inl passes ↦ rw (same, passes) (refl, stays)
      | inr (e, fails) ↦ rw (same, fails) (refl, refl)
    ]

module _ (spare : ℕ → ℕ) (split_fields : String → List String) (struct_of : ℕ → Option Fields)
    (apply_defaults : ℕ → Option Panic) where
  longer-Agrees :
      {path : Slice} {t : SlicedTags} {p : Outcome RequestTags} (private : IsPrivate path t)
      (index : ℕ) (o : Outcome SlicedTags)
      → Agrees (longer private spare index).0 (passed private spare index) o p
      → Agrees path t o p
  longer-Agrees private index (returned u) h = record {
    ends = (h.ends.0, longer-Goes private spare index h.ends.1);
  }
  longer-Agrees private index (panicked e) h = record { ends = h.ends }

  check_recursively_at-Agrees :
      (members : Fields) (index : ℕ) (path : Slice) (l : List ℕ) (t : SlicedTags)
      → IsPrivate path t
      → elements t.heap path ≡ l
      → Agrees path t
          (check_recursively_at spare split_fields members index path t)
          (check_recursively split_fields struct_of apply_defaults members index l (tags_of t))
  unfolding check_recursively_at check_recursively
  check_recursively_at-Agrees no_fields index path l t private at =
      Goes-Agrees refl (Goes-refl path t)
  check_recursively_at-Agrees (field info type rest) index path l t private at =
      let after : Tracks path l (check_recursively_at spare split_fields rest (index + 1) path)
          (check_recursively split_fields struct_of apply_defaults rest (index + 1) l) =
        record { from_tags = check_recursively_at-Agrees rest (index + 1) path l } in
      if_Agrees (not info.exported) (after.from_tags t private at) (
        if_Agrees info.anonymous (panics_Agrees _) (
          then-Agrees _ private at
            ((check_field_at-Tracks spare path l index split_fields struct_of apply_defaults info
                type).from_tags
              t private at)
            after))
  check_recursively_at-Agrees (struct_field info inner rest) index path l t private at =
      let after : Tracks path l (check_recursively_at spare split_fields rest (index + 1) path)
          (check_recursively split_fields struct_of apply_defaults rest (index + 1) l) =
        record { from_tags = check_recursively_at-Agrees rest (index + 1) path l } in
      if_Agrees (not info.exported) (after.from_tags t private at) (
        if_Agrees info.anonymous
          (then-Agrees _ private at
            (longer-Agrees private index _ (
              rw (← passed-tags_of private spare index) (
                check_recursively_at-Agrees inner 0 (longer private spare index).0 (l ++ index ∷ [])
                  (passed private spare index) (passed-IsPrivate private spare index)
                  (append-elements 0 spare path (index ∷ []) t.heap
                    ∙ ap (λ q. q ++ index ∷ []) at))))
            after)
          (then-Agrees _ private at
            ((check_field_at-Tracks spare path l index split_fields struct_of apply_defaults info
                other_type).from_tags
              t private at)
            after))

  compile_after-Keeps :
      (w : Slice) (err : Option Panic) (members : Fields) (h : Heap ℕ)
      → w.array < h.fresh
      → Keeps w h
          (compile_at spare split_fields err members h)
          (compile_after split_fields struct_of apply_defaults err members)
  unfolding compile_at compile_after read
  compile_after-Keeps w (some err) members h old = (refl, refl)
  compile_after-Keeps w none members h old = checked-Keeps w h _ _ old (
      check_recursively_at-Agrees members 0 nil_slice [] (no_slices h) (no_slices-IsPrivate h) refl)

  -- Compiling with index paths that are Go slices, where a path that is passed on to an embedded struct is appended to
  -- in place, gives the same tags, or the same panic, as with paths that are lists: the recorded slices read so when the
  -- compilation is over, however much room the arrays get. A slice of an array that was in use before, such as a path in
  -- the tags of another type, reads the same after a compilation that gives tags.
  pub compile_at-compile :
      (name : ℕ) (members : Fields) (h : Heap ℕ) (w : Slice)
      → w.array < h.fresh
      → let made = compile_at spare split_fields (apply_defaults name) members h in
        (tags_from made ≡ compile split_fields struct_of apply_defaults name members)
        × (elements (heap_after h made) w ≡ elements h w)
  unfolding compile
  compile_at-compile name members h w old =
      compile_after-Keeps w (apply_defaults name) members h old

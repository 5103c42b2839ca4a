-- ===== src/Tags/Paths.antt =====
-- The index paths of compiled tags, as FieldByIndex of package reflect follows them.
use go_httpserver.Base.{
  ℕ, zero, suc, ◌+◌, ◌≡◌, refl, sym, ap, ◌∙◌, arith, true, Option, none, some, String, List, [],
  ◌∷◌, ◌++◌, All, Bool-cases, inl, inr,
}
use mathlib.Core.List.{append_assoc}
use go_httpserver.Effect.{Panic, Outcome, returned}
use go_httpserver.Tags.{Source, RequestTags}
use go_httpserver.Tags.Compile.{
  compile, FieldType, Fields, no_fields, struct_field, field, other_type,
}
use go_httpserver.Tags.Shape.{Tagged, fits, tag_of, tags_in, index_of, allowed}
use go_httpserver.Tags.Judged.{Describes}
use go_httpserver.Tags.Compiled.{
  compile-Compiles, not_tagged, defaults_failed, tags_of, Compiles, tags_made,
}

-- What stands at a place of a struct.
pub data Place : Type 0 where
  nowhere : Place
  plain : FieldType → Place
  struct : Fields → Place

abbrev pub place : Fields → ℕ → Place
place no_fields i = nowhere
place (struct_field info inner rest) zero = struct inner
place (struct_field info inner rest) (suc i) = place rest i
place (field info type rest) zero = plain type
place (field info type rest) (suc i) = place rest i

abbrev pub type_at : Place → Option FieldType
type_at nowhere = none
type_at (plain type) = some type
type_at (struct inner) = some other_type

abbrev pub place_in : Place → ℕ → Place
place_in (struct inner) i = place inner i
place_in _ i = nowhere

-- The type of what an index path leads to; `none` is a panic of FieldByIndex.
abbrev pub field_from : Place → List ℕ → Option FieldType
field_from p [] = type_at p
field_from p (i ∷ path) = field_from (place_in p i) path

abbrev IsFound : Place → Tagged → Type 0
IsFound root x = field_from root x.path ≡ some x.type

All-append :
    (root : Place) (xs ys : List Tagged)
    → All (IsFound root) xs
    → All (IsFound root) ys
    → All (IsFound root) (xs ++ ys)
All-append root [] ys h k = k
All-append root (x ∷ xs) ys (h, hs) k = (h, All-append root xs ys hs k)

-- The path leads from the root to the struct.
abbrev Leads : Place → List ℕ → Fields → Type 0
Leads root path whole = (q : List ℕ) → field_from root (path ++ q) ≡ field_from (struct whole) q

-- The fields `rest` are those of the struct from the index on.
abbrev IsRest : Fields → ℕ → Fields → Type 0
IsRest whole index rest = (k : ℕ) → place whole (index + k) ≡ place rest k

next_IsRest :
    (whole : Fields) (index : ℕ) (rest rest' : Fields)
    → ((k : ℕ) → place rest (suc k) ≡ place rest' k)
    → IsRest whole index rest
    → IsRest whole (index + 1) rest'
next_IsRest whole index rest rest' drops h k =
    let same : index + 1 + k ≡ index + suc k = omega arith in
    ap (place whole) same ∙ h (suc k) ∙ drops k

here_IsRest :
    (whole : Fields) (index : ℕ) (rest : Fields)
    → IsRest whole index rest
    → place whole index ≡ place rest 0
here_IsRest whole index rest h =
    let same : index ≡ index + 0 = omega arith in ap (place whole) same ∙ h 0

deeper_Leads :
    (root : Place) (path : List ℕ) (whole inner : Fields) (index : ℕ)
    → Leads root path whole
    → place whole index ≡ struct inner
    → Leads root (path ++ index ∷ []) inner
deeper_Leads root path whole inner index leads here q =
    ap (field_from root) (append_assoc path (index ∷ []) q)
    ∙ leads (index ∷ q)
    ∙ ap (λ p. field_from p q) here

tag_of-IsFound :
    (root : Place) (path : List ℕ) (whole : Fields) (index : ℕ) (type : FieldType)
    (tag : Option String)
    → Leads root path whole
    → type_at (place whole index) ≡ some type
    → All (IsFound root) (tag_of (path ++ index ∷ []) type tag)
tag_of-IsFound root path whole index type none leads here = tt
tag_of-IsFound root path whole index type (some value) leads here = (leads (index ∷ []) ∙ here, tt)

tags_in-IsFound :
    (root : Place) (s : Source) (members : Fields) (index : ℕ) (path : List ℕ) (whole : Fields)
    → Leads root path whole
    → IsRest whole index members
    → All (IsFound root) (tags_in members index path s)
tags_in-IsFound root s no_fields index path whole leads rests = tt
tags_in-IsFound root s (struct_field info inner rest) index path whole leads rests =
    let here = here_IsRest whole index (struct_field info inner rest) rests in
    let next =
      tags_in-IsFound root s rest (index + 1) path whole leads
        (next_IsRest whole index (struct_field info inner rest) rest (λ k. refl) rests) in
    let within =
      tags_in-IsFound root s inner 0 (path ++ index ∷ []) inner
        (deeper_Leads root path whole inner index leads here)
        (λ k. let same : 0 + k ≡ k = omega arith in ap (place inner) same) in
    let own =
      tag_of-IsFound root path whole index other_type (info.tag s) leads (ap type_at here) in
    elim (Bool-cases info.exported) [
      | inr hidden ↦ rw hidden next
      | inl shown ↦ elim (Bool-cases info.anonymous) [
        | inl embedded ↦ rw (shown, embedded) (All-append root _ _ within next)
        | inr named ↦ rw (shown, named) (All-append root _ _ own next)
      ]
    ]
tags_in-IsFound root s (field info type rest) index path whole leads rests =
    let here = here_IsRest whole index (field info type rest) rests in
    let next =
      tags_in-IsFound root s rest (index + 1) path whole leads
        (next_IsRest whole index (field info type rest) rest (λ k. refl) rests) in
    let own = tag_of-IsFound root path whole index type (info.tag s) leads (ap type_at here) in
    elim (Bool-cases info.exported) [
      | inr hidden ↦ rw hidden next
      | inl shown ↦ rw shown (All-append root _ _ own next)
    ]

-- The whole field of a source, from its list.
whole_type :
    (root : Place) (s : Source) (xs : List Tagged) (path : List ℕ)
    → All (IsFound root) xs
    → allowed s xs ≡ true
    → index_of s xs ≡ some path
    → (type : FieldType) × (field_from root path ≡ some type) × (fits s type ≡ true)
whole_type root s [] path found fine at = absurd (ground arith)
whole_type root s (x ∷ []) path (found, _) fine at =
    let same : x.path ≡ path = ground arith in (x.type, rw (← same) found, ground arith)
whole_type root s (x ∷ y ∷ xs) path found fine at = absurd (ground arith)

described :
    (split_fields : String → List String) (defaulted : Option Panic) (members : Fields)
    (r : Outcome RequestTags) (t : RequestTags)
    → Compiles split_fields defaulted members r
    → r ≡ returned t
    → Describes split_fields (tags_of members) t
described split_fields defaulted members _ t (tags_made t' fine tagged h) same =
    let equal : t' ≡ t = cc in rw (← equal) h
described split_fields defaulted members _ t (defaults_failed e failed) same = cc
described split_fields defaulted members _ t (not_tagged e bad) same = cc

-- Where compiled tags have an index path for a whole source, it leads to a field of the struct, through embedded
-- structs only, whose type is that of the source: FieldByIndex finds the field, and Set is given a value of its
-- type.
pub compile-typed :
    (split_fields : String → List String) (struct_of : ℕ → Option Fields)
    (apply_defaults : ℕ → Option Panic) (name : ℕ) (members : Fields) (t : RequestTags) (s : Source)
    (path : List ℕ)
    → compile split_fields struct_of apply_defaults name members ≡ returned t
    → t.field_index s ≡ some path
    → (type : FieldType) × (field_from (struct members) path ≡ some type) × (fits s type ≡ true)
compile-typed split_fields struct_of apply_defaults name members t s path compiled at =
    let h =
      described split_fields _ members _ t
        (compile-Compiles split_fields struct_of apply_defaults name members) compiled in
    whole_type (struct members) s (tags_in members 0 [] s) path
      (tags_in-IsFound (struct members) s members 0 [] members (λ q. refl)
        (λ k. let same : 0 + k ≡ k = omega arith in ap (place members) same))
      ((h.laid s).fine) (sym (h.laid s).indexed ∙ at)

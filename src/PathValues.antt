-- ===== src/PathValues.antt =====
-- request_path_unsafe.go: the wildcard values that a ServeMux pattern captured.
pub mod Captured
pub mod RoundTrip
use go_httpserver.Base.{
  ℕ, ◌+◌, Bool, not, ◌&&◌, Option, none, some, String, List, [], ◌∷◌, get_elem?, if◌then◌else◌,
  str_eq,
}
use go_httpserver.Effect.{index_out_of_range, Outcome, returned, panicked}

-- httpSegment, httpPattern.
pub record HttpSegment : Type 0 where
  pub s : String
  pub wild : Bool
  pub multi : Bool

pub record HttpPattern : Type 0 where
  pub str : String
  pub method : String
  pub host : String
  pub segments : List HttpSegment
  pub loc : String

-- httpRequest: the two fields that are read.
pub record HttpRequest : Type 0 where
  pub pat : Option HttpPattern
  pub matches : List String

-- KeyValue: a map with one value for each key, in no order that the code reads.
abbrev pub KeyValue : Type 0
KeyValue = List (String × String)

-- `m[k] = v`.
unfoldable pub insert : String → String → KeyValue → KeyValue
insert k v [] = (k, v) ∷ []
insert k v ((j, w) ∷ m) = if str_eq j k then (k, v) ∷ m else (j, w) ∷ insert k v m

unfoldable pub lookup : String → KeyValue → Option String
lookup k [] = none
lookup k ((j, v) ∷ m) = if str_eq j k then some v else lookup k m

abbrev pub is_named : HttpSegment → Bool
is_named segment = segment.wild && not (str_eq segment.s "")

-- The loop over the segments.
unfoldable pub capture : List HttpSegment → List String → ℕ → KeyValue → Outcome KeyValue
unfolding insert
capture [] matches match_index key_value = returned key_value
capture (segment ∷ segments) matches match_index key_value =
    let skip = capture segments matches match_index key_value in
    let take = λ (value : String).
      capture segments matches (match_index + 1) (insert segment.s value key_value) in
    if is_named segment
    then elim (get_elem? matches match_index) [
      | some value ↦ take value
      | none ↦ panicked index_out_of_range
    ]
    else skip

-- `none` is the nil map.
unfoldable pub get_path_values : HttpRequest → Outcome (Option KeyValue)
unfolding capture
get_path_values request = elim request.pat [
  | none ↦ returned none
  | some pat ↦ elim (capture pat.segments request.matches 0 []) [
    | returned key_value ↦ returned (some key_value)
    | panicked e ↦ panicked e
  ]
]

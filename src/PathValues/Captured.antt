-- ===== src/PathValues/Captured.antt =====
-- What getPathValues returns, in terms of the names of the pattern and the captured values.
use go_httpserver.Base.{
  ℕ, zero, suc, ◌+◌, ◌≤◌, ◌<◌, ◌≡◌, refl, arith, ap, Option, none, some, String, List, [], ◌∷◌,
  length, get_elem?, if◌then◌else◌, str_eq, str_eq_iff, Bool-cases, ltb, inl, inr, ◌∙◌,
}
use go_httpserver.Effect.{index_out_of_range, Outcome, returned, panicked}
use go_httpserver.PathValues.{
  HttpSegment, HttpPattern, KeyValue, insert, lookup, is_named, capture, get_path_values,
}

-- The names of the wildcards of a pattern, in its order.
abbrev pub names : List HttpSegment → List String
names [] = []
names (segment ∷ segments) = if is_named segment then segment.s ∷ names segments else names segments

-- The value of a name, when the names are given the values in order; a later one counts.
abbrev pub value_of : List String → List String → String → Option String → Option String
value_of [] values k before = before
value_of (name ∷ names) [] k before = before
value_of (name ∷ names) (value ∷ values) k before =
    value_of names values k (if str_eq name k then some value else before)

abbrev drop : ℕ → List String → List String
drop zero xs = xs
drop (suc n) [] = []
drop (suc n) (x ∷ xs) = drop n xs

lookup-insert :
    (k j v : String) (m : KeyValue)
    → lookup j (insert k v m) ≡ (if str_eq k j then some v else lookup j m)
unfolding lookup insert
lookup-insert k j v [] = refl
lookup-insert k j v ((i, w) ∷ m) =
    ground (arith, str_eq_iff k j, str_eq_iff i k, str_eq_iff i j, lookup-insert k j v m)

next_match :
    (matches : List String) (i : ℕ)
    → i < length matches
    → (v : String) × (get_elem? matches i ≡ some v) × (drop i matches ≡ v ∷ drop (i + 1) matches)
next_match [] i h = elim h [ ]
next_match (x ∷ xs) zero h = (x, refl, refl)
next_match (x ∷ xs) (suc i) h =
    let (v, got, rest) = next_match xs i (omega arith) in
    let same : suc (i + 1) ≡ suc i + 1 = omega arith in
    (v, got, rest ∙ ap (λ n. v ∷ drop n (x ∷ xs)) same)

no_match : (matches : List String) (i : ℕ) → length matches ≤ i → get_elem? matches i ≡ none
no_match [] i h = refl
no_match (x ∷ xs) zero h = elim h [ ]
no_match (x ∷ xs) (suc i) h = no_match xs i (omega arith)

-- What the loop has bound when it ends.
abbrev Bound : List HttpSegment → List String → ℕ → KeyValue → Type 0
Bound segments matches i m =
    (m' : KeyValue) × (capture segments matches i m ≡ returned m')
    × ((k : String) → lookup k m' ≡ value_of (names segments) (drop i matches) k (lookup k m))

capture-names :
    (segments : List HttpSegment) (matches : List String) (i : ℕ) (m : KeyValue)
    → i + length (names segments) ≤ length matches
    → Bound segments matches i m
unfolding capture
capture-names [] matches i m h = (m, refl, λ k. refl)
capture-names (segment ∷ segments) matches i m h = elim (Bool-cases (is_named segment)) [
  | inl named ↦
      let (v, got, rest) = next_match matches i (ground arith) in
      let (m', done, values) =
        capture-names segments matches (i + 1) (insert segment.s v m) (ground arith) in
      (m', ground arith, λ k. ground (arith, values k, lookup-insert segment.s k v m))
  | inr skipped ↦
      let (m', done, values) = capture-names segments matches i m (ground arith) in
      (m', ground arith, λ k. ground (arith, values k))
]

capture_short :
    (segments : List HttpSegment) (matches : List String) (i : ℕ) (m : KeyValue)
    → length matches < i + length (names segments)
    → i ≤ length matches
    → capture segments matches i m ≡ panicked index_out_of_range
unfolding capture
capture_short [] matches i m h le = absurd (omega arith)
capture_short (segment ∷ segments) matches i m h le = elim (Bool-cases (is_named segment)) [
  | inl named ↦ elim (Bool-cases (ltb i (length matches))) [
    | inl more ↦
        let (v, got, rest) = next_match matches i (ground arith) in
        ground (
          arith,
          got,
          capture_short segments matches (i + 1) (insert segment.s v m) (ground arith)
              (ground arith),
        )
    | inr out ↦ ground (arith, no_match matches i)
  ]
  | inr skipped ↦ rw skipped (capture_short segments matches i m (ground arith) le)
]

-- What getPathValues gives for a pattern and the values that it captured.
pub data Captures (segments : List HttpSegment) (matches : List String)
    : Outcome (Option KeyValue) → Type 0 where
  all :
      (m : KeyValue)
      → length (names segments) ≤ length matches
      → ((k : String) → lookup k m ≡ value_of (names segments) matches k none)
      → Captures segments matches (returned (some m))
  too_few :
      length matches < length (names segments)
      → Captures segments matches (panicked index_out_of_range)

after_capture :
    (pat : HttpPattern) (matches : List String) (r : Outcome KeyValue)
    → capture pat.segments matches 0 [] ≡ r
    → get_path_values (record { pat = some pat; matches = matches })
      ≡ (elim r [ returned m ↦ returned (some m) | panicked e ↦ panicked e ])
unfolding get_path_values
after_capture pat matches r e =
    ap (λ r. elim r [ returned m ↦ returned (some m) | panicked e ↦ panicked e ]) e

-- With a captured value for each named wildcard, getPathValues returns a map that has just the names of
-- the wildcards, each with the value at its place among them (of a name that stands twice, the later
-- one); anonymous wildcards and literals take no value. With fewer values it panics.
pub get_path_values-Captures :
    (pat : HttpPattern) (matches : List String)
    → Captures pat.segments matches (get_path_values (record { pat = some pat; matches = matches }))
unfolding lookup
get_path_values-Captures pat matches =
    elim (Bool-cases (ltb (length matches) (length (names pat.segments)))) [
      | inl short ↦
          let panics = capture_short pat.segments matches 0 [] (ground arith) (omega arith) in
          rw (after_capture pat matches _ panics) (too_few (ground arith))
      | inr enough ↦
          let (m, done, values) = capture-names pat.segments matches 0 [] (ground arith) in
          rw (after_capture pat matches _ done) (all m (ground arith) values)
    ]

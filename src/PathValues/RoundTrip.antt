-- ===== src/PathValues/RoundTrip.antt =====
-- The captured values, read back by the names of the wildcards.
use go_httpserver.Base.{
  ◌≡◌, ◌≢◌, ◌∙◌, refl, ap, arith, String, Option, none, some, List, [], ◌∷◌, map, length, All,
  str_eq, str_eq_iff, if◌then◌else◌,
}
use mathlib.Core.Path.{ap₂}
use go_httpserver.Effect.{Outcome, returned}
use go_httpserver.PathValues.{HttpPattern, KeyValue, lookup, get_path_values}
use go_httpserver.PathValues.Captured.{
  names, value_of, Captures, all, too_few, get_path_values-Captures,
}

-- No name stands twice, which the ServeMux sees to when a pattern is registered.
abbrev pub IsDistinct : List String → Type 0
IsDistinct [] = Unit
IsDistinct (n ∷ ns) = All (λ k. n ≢ k) ns × IsDistinct ns

value_of_other :
    (ns vs : List String) (k : String) (before : Option String)
    → All (λ n. k ≢ n) ns
    → value_of ns vs k before ≡ before
value_of_other [] vs k before h = refl
value_of_other (n ∷ ns) [] k before h = refl
value_of_other (n ∷ ns) (v ∷ vs) k before h =
    value_of_other ns vs k (if str_eq n k then some v else before) h.1
    ∙ ground (arith, h.0, str_eq_iff n k)

skip_first :
    (n v : String) (ns vs ks : List String)
    → All (λ k. n ≢ k) ks
    → map (λ k. value_of (n ∷ ns) (v ∷ vs) k none) ks ≡ map (λ k. value_of ns vs k none) ks
skip_first n v ns vs [] h = refl
skip_first n v ns vs (k ∷ ks) h =
    ap₂ ◌∷◌ (ap (value_of ns vs k) (ground (arith, h.0, str_eq_iff n k)))
      (skip_first n v ns vs ks h.1)

values_back :
    (ns vs : List String)
    → IsDistinct ns
    → length ns ≡ length vs
    → map (λ k. value_of ns vs k none) ns ≡ map some vs
values_back [] [] h same = refl
values_back [] (v ∷ vs) h same = absurd (omega arith)
values_back (n ∷ ns) [] h same = absurd (omega arith)
values_back (n ∷ ns) (v ∷ vs) h same =
    ap₂ ◌∷◌
      (value_of_other ns vs n (if str_eq n n then some v else none) h.0
        ∙ ground (arith, str_eq_iff n n))
      (skip_first n v ns vs ns h.0 ∙ values_back ns vs h.1 (omega arith))

-- Two maps that are looked up alike.
looked_up :
    (ks : List String) (m : KeyValue) (f : String → Option String)
    → ((k : String) → lookup k m ≡ f k)
    → map (λ k. lookup k m) ks ≡ map f ks
looked_up [] m f h = refl
looked_up (k ∷ ks) m f h = ap₂ ◌∷◌ (h k) (looked_up ks m f h)

-- When the names of a pattern are distinct and the ServeMux captured a value for each, looking the names up in
-- what getPathValues returns gives back the captured values, all of them and in their order.
pub get_path_values_back :
    (pat : HttpPattern) (matches : List String)
    → IsDistinct (names pat.segments)
    → length (names pat.segments) ≡ length matches
    → (m : KeyValue) × (get_path_values (record { pat = some pat; matches = matches })
        ≡ returned (some m))
      × (map (λ k. lookup k m) (names pat.segments) ≡ map some matches)
get_path_values_back pat matches distinct same = from (get_path_values-Captures pat matches)
  where
    from :
        {r : Outcome (Option KeyValue)}
        → Captures pat.segments matches r
        → (m : KeyValue) × (r ≡ returned (some m))
          × (map (λ k. lookup k m) (names pat.segments) ≡ map some matches)
    from (all m enough h) = (
      m,
      refl,
      looked_up (names pat.segments) m (λ k. value_of (names pat.segments) matches k none) h
          ∙ values_back (names pat.segments) matches distinct same,
    )
    from (too_few short) = absurd (omega arith)

-- ===== src/Bind/Json.antt =====
-- What bindJson takes for a JSON body.
use go_httpserver.Base.{
  ◌↔◌, ℕ, ◌≡◌, ◌⊎◌, inl, inr, refl, arith, false, Option, none, some, List, [], ◌∷◌, All,
  Bool-cases, Option-cases,
}
use go_httpserver.Effect.{Action, Error, Outcome, returned, panicked, continue}
use go_httpserver.State.{Reader}
use go_httpserver.Tags.{RequestTags, json}
use go_httpserver.Bind.Library.{BindLibrary, Result, success, bad_request_on}
use go_httpserver.Bind.Body.{
  has_trailing_data, after_decode, bind_json, bind_json_to, bind_json_map, bind_json_field,
}

-- Space, tab, carriage return and line feed, which RFC 8259 allows around a value.
abbrev pub IsWhitespace : ℕ → Type 0
IsWhitespace c = (c ≡ 0x20) ⊎ (c ≡ 0x09) ⊎ (c ≡ 0x0D) ⊎ (c ≡ 0x0A)

has_trailing_data-All : (xs : List ℕ) → (has_trailing_data xs ≡ false) ↔ All IsWhitespace xs
unfolding has_trailing_data
has_trailing_data-All [] = (λ h. tt, λ h. refl)
has_trailing_data-All (x ∷ xs) =
    let (there, back) = has_trailing_data-All xs in
    (λ h. (ground arith, there (ground arith)), λ h. let rest = back h.1 in ground (arith, rest))

-- What is left after the value can be read to its end, and is whitespace.
abbrev pub HasEnded : Reader → Type 0
HasEnded remaining = (remaining.fails ≡ none) × All IsWhitespace remaining.content

module _ {V : Type 0} (lib : BindLibrary V) (tags : RequestTags) where
  after_decode-HasEnded :
      (remaining : Reader) (bind : Action V Result) (v w : V)
      → (after_decode lib tags remaining bind v ≡ (returned success, w))
        ↔ HasEnded remaining × (bind v ≡ (returned success, w))
  unfolding after_decode
  after_decode-HasEnded remaining bind v w = elim (Option-cases remaining.fails) [
    | inr (e, broken) ↦ (λ is. cc (is, broken), λ h. cc (h.0.0, broken))
    | inl whole ↦ elim (Bool-cases (has_trailing_data remaining.content)) [
      | inl trailing ↦
          rw (whole, trailing)
            (
              λ is. cc is,
              λ h.
                  absurd
                    (ground (arith, (has_trailing_data-All remaining.content).1 h.0.1, trailing)),
            )
      | inr clean ↦
          rw (whole, clean)
            (λ is. ((refl, (has_trailing_data-All remaining.content).0 clean), is), λ h. h.1)
    ]
  ]

  -- A body of exactly one JSON value that goes to a field, or one that goes to the named fields.
  abbrev pub Accepts : Option (List ℕ) → Reader → V → V → Type 0
  Accepts (some index) reader v w =
      (lib.json_decode_field index reader v ≡ (returned none, w))
      × HasEnded (lib.json_remaining reader)
  Accepts none reader v w =
      (values : ℕ) × (lib.json_decode_map reader ≡ inl values)
      × HasEnded (lib.json_remaining reader)
      × (lib.bind_json_values values v ≡ (returned none, w))

  field-Accepts :
      (reader : Reader) (m : Outcome (Option Error) × V) (w : V)
      → (continue m.0 (bind_json_field lib tags reader) m.1 ≡ (returned success, w))
        ↔ (m ≡ (returned none, w)) × HasEnded (lib.json_remaining reader)
  unfolding bind_json_field
  field-Accepts reader (panicked e, v) w = (λ is. cc is, λ h. cc h.0)
  field-Accepts reader (returned (some err), v) w = (λ is. cc is, λ h. cc h.0)
  field-Accepts reader (returned none, v) w =
      let (there, back) =
        after_decode-HasEnded (lib.json_remaining reader) (λ u. (returned success, u)) v w in
      (λ is. (ground (arith, (there is).1), (there is).0), λ h. back (h.1, ground (arith, h.0)))

  bound-Accepts :
      (m : Outcome (Option Error) × V) (w : V)
      → (continue m.0 (λ err. bad_request_on err "HttpServer: Bind json values failed") m.1
          ≡ (returned success, w))
        ↔ (m ≡ (returned none, w))
  bound-Accepts (panicked e, v) w = (λ is. cc is, λ h. cc h)
  bound-Accepts (returned (some err), v) w = (λ is. cc is, λ h. cc h)
  bound-Accepts (returned none, v) w = (λ is. ground (arith, is), λ h. ground (arith, h))

  map-Accepts :
      (reader : Reader) (decoded : ℕ ⊎ Error) (v w : V)
      → (bind_json_map lib tags reader decoded v ≡ (returned success, w)) ↔ (
          (values : ℕ) × (decoded ≡ inl values)
          × HasEnded (lib.json_remaining reader)
          × (lib.bind_json_values values v ≡ (returned none, w)))
  unfolding bind_json_map
  map-Accepts reader (inr err) v w = (λ is. cc is, λ h. cc h.1)
  map-Accepts reader (inl values) v w =
      let bind = λ (values : ℕ) (u : V).
        continue (lib.bind_json_values values u).0
          (λ err. bad_request_on err "HttpServer: Bind json values failed")
          (lib.bind_json_values values u).1 in
      let (there, back) = after_decode-HasEnded (lib.json_remaining reader) (bind values) v w in
      (
        λ is. (
          values,
          refl,
          (there is).0,
          (bound-Accepts (lib.bind_json_values values v) w).0 (there is).1,
        ),
        λ h.
            let (n, same, ended, bound) = h in
            let equal : n ≡ values = cc in
            back (ended, (bound-Accepts (lib.bind_json_values values v) w).1 (rw (← equal) bound)),
      )

  bind_json_to-Accepts :
      (target : Option (List ℕ)) (reader : Reader) (v w : V)
      → (bind_json_to lib tags target reader v ≡ (returned success, w)) ↔ Accepts target reader v w
  unfolding bind_json_to
  bind_json_to-Accepts (some index) reader v w =
      field-Accepts reader (lib.json_decode_field index reader v) w
  bind_json_to-Accepts none reader v w = map-Accepts reader (lib.json_decode_map reader) v w

  -- The JSON binder succeeds exactly on a body in which Decode finds a value, into the field or into the map
  -- whose values are then bound to the named fields, and after which there is nothing but whitespace
  -- up to the end; the struct is then what Decode or the binding of the values makes it.
  pub bind_json-Accepts :
      (reader : Reader) (v w : V)
      → (bind_json lib tags reader v ≡ (returned success, w))
        ↔ Accepts (tags.field_index json) reader v w
  unfolding bind_json
  bind_json-Accepts reader v w = bind_json_to-Accepts (tags.field_index json) reader v w

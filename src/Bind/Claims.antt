-- ===== src/Bind/Claims.antt =====
-- Which binder of a body claims a media type.
use go_httpserver.Base.{
  ℕ, ◌≡◌, ◌≢◌, ◌∙◌, refl, arith, Bool, true, false, ◌&&◌, ◌||◌, Option, none, some, String, List,
  [], ◌∷◌, ◌⊎◌, inl, inr, ⊤, contains, str_eq, str_eq_iff, if◌then◌else◌, Bool-cases,
}
use go_httpserver.Effect.{Panic, Outcome, returned, panicked}
use go_httpserver.Tags.{
  Source, RequestTags, header, cookie, query, url, form, json, multipart, body,
}
use go_httpserver.Tags.ContentTypes.{
  content_type_is_form, content_type_is_json, content_type_is_multipart,
}
use go_httpserver.Tags.Compile.{
  Fields, compile, compile_after, check_content_types, check_recursively, then_check, no_tags,
}
use go_httpserver.Bind.{is_empty}

-- The media types of a raw body are not those of the other binders in use.
abbrev pub IsApart : RequestTags → Type 0
IsApart tags =
    (tags.flags form && contains tags.body_content_types content_type_is_form ≡ false)
    × (tags.flags json && contains tags.body_content_types content_type_is_json ≡ false)
    × (tags.flags multipart && contains tags.body_content_types content_type_is_multipart ≡ false)

abbrev AllApart : Outcome RequestTags → Type 0
AllApart (returned tags) = IsApart tags
AllApart (panicked e) = ⊤

check_content_types-AllApart : (t : RequestTags) → AllApart (check_content_types t)
unfolding check_content_types
check_content_types-AllApart t = ground arith

checked-AllApart : (r : Outcome RequestTags) → AllApart (then_check r check_content_types)
checked-AllApart (returned t) = check_content_types-AllApart t
checked-AllApart (panicked e) = tt

module _ (split_fields : String → List String) (struct_of : ℕ → Option Fields)
    (apply_defaults : ℕ → Option Panic) where
  compile_after-AllApart :
      (defaulted : Option Panic) (members : Fields)
      → AllApart (compile_after split_fields struct_of apply_defaults defaulted members)
  unfolding compile_after
  compile_after-AllApart (some err) members = tt
  compile_after-AllApart none members =
      checked-AllApart
        (check_recursively split_fields struct_of apply_defaults members 0 [] no_tags)

  pub compiled-IsApart :
      (name : ℕ) (members : Fields) (tags : RequestTags)
      → compile split_fields struct_of apply_defaults name members ≡ returned tags
      → IsApart tags
  unfolding compile
  compiled-IsApart name members tags made =
      rw made at (compile_after-AllApart (apply_defaults name) members)

-- The binder of the source `s` claims a media type: it is the binder's own, or is listed in the body tag.
abbrev pub Claims : RequestTags → String → Source → Type 0
Claims tags type form = (tags.flags form ≡ true) × (type ≡ "application/x-www-form-urlencoded")
Claims tags type json = (tags.flags json ≡ true) × (type ≡ "application/json")
Claims tags type multipart = (tags.flags multipart ≡ true) × (type ≡ "multipart/form-data")
Claims tags type body = (tags.flags body ≡ true) × (contains tags.body_content_types type ≡ true)
Claims tags type _ = ⊥

-- A body tag that lists no media types takes what no other binder claims.
abbrev pub TakesRest : RequestTags → Type 0
TakesRest tags = (tags.flags body ≡ true) × (tags.body_content_types ≡ [])

pub data Serves (tags : RequestTags) (type : String) : Option Source → Type 0 where
  by_claim : (s : Source) → Claims tags type s → Serves tags type (some s)
  by_default : ((s : Source) → ¬ Claims tags type s) → TakesRest tags → Serves tags type (some body)
  by_none : ((s : Source) → ¬ Claims tags type s) → ¬ TakesRest tags → Serves tags type none

apart_test :
    (on : Bool) (types : List String) (type own : String)
    → on && contains types own ≡ false
    → contains types type ≡ true
    → on && str_eq type own ≡ false
apart_test on types type own apart listed = elim (Bool-cases (str_eq type own)) [
  | inr other ↦ ground (arith, other)
  | inl same ↦
      let own_listed : contains types own ≡ true = rw (← (str_eq_iff type own).0 same) listed in
      ground (arith, own_listed, apart)
]

unclaimed_test :
    (on : Bool) (type own : String) → ¬ ((on ≡ true) × (type ≡ own)) → on && str_eq type own ≡ false
unclaimed_test on type own h = ground (arith, str_eq_iff type own, h)

rest_test :
    (on : Bool) (types : List String) (type : String)
    → ¬ ((on ≡ true) × (contains types type ≡ true))
    → ¬ ((on ≡ true) × (types ≡ []))
    → on && (is_empty types || contains types type) ≡ false
rest_test false types type unlisted nonempty = refl
rest_test true [] type unlisted nonempty = absurd (nonempty (refl, refl))
rest_test true (t ∷ types) type unlisted nonempty = ground (arith, unlisted)

empty-cases : (types : List String) → (types ≡ []) ⊎ (is_empty types ≡ false) × (types ≢ [])
empty-cases [] = inl refl
empty-cases (t ∷ types) = inr (refl, λ h. cc h)

module _ (tags : RequestTags) (type : String) where
  abbrev pub takes_body : Bool
  takes_body =
      tags.flags body && (is_empty tags.body_content_types || contains tags.body_content_types type)

  unfoldable pub server : Option Source
  server =
      if tags.flags form && str_eq type content_type_is_form
      then some form
      else if tags.flags json && str_eq type content_type_is_json
      then some json
      else if tags.flags multipart && str_eq type content_type_is_multipart
      then some multipart
      else if takes_body
      then some body
      else none

  -- With no claim of the other binders, the raw body decides.
  server_rest :
      tags.flags form && str_eq type content_type_is_form ≡ false
      → tags.flags json && str_eq type content_type_is_json ≡ false
      → tags.flags multipart && str_eq type content_type_is_multipart ≡ false
      → server ≡ (if takes_body then some body else none)
  unfolding server
  server_rest f j m = rw (f, j, m)

  unclaimed_rest :
      ((s : Source) → ¬ Claims tags type s) → server ≡ (if takes_body then some body else none)
  unclaimed_rest h =
      server_rest (unclaimed_test _ type _ (h form)) (unclaimed_test _ type _ (h json))
        (unclaimed_test _ type _ (h multipart))

  pub server_only : (o : Option Source) → IsApart tags → Serves tags type o → server ≡ o
  unfolding server
  server_only _ apart (by_claim form (on, is)) = rw (is, on) refl
  server_only _ apart (by_claim json (on, is)) = rw (is, on) (ground arith)
  server_only _ apart (by_claim multipart (on, is)) = rw (is, on) (ground arith)
  server_only _ (f, j, m) (by_claim body (on, is)) =
      server_rest (apart_test _ _ type _ f is) (apart_test _ _ type _ j is)
        (apart_test _ _ type _ m is)
      ∙ ground (arith, on, is)
  server_only _ apart (by_claim header h) = absurd h
  server_only _ apart (by_claim cookie h) = absurd h
  server_only _ apart (by_claim query h) = absurd h
  server_only _ apart (by_claim url h) = absurd h
  server_only _ apart (by_default unclaimed (on, rest)) =
      unclaimed_rest unclaimed ∙ rw (on, rest) refl
  server_only _ apart (by_none unclaimed rest) =
      unclaimed_rest unclaimed ∙ rw (rest_test _ _ type (unclaimed body) rest) refl

  unclaimed_by_all :
      tags.flags form && str_eq type content_type_is_form ≡ false
      → tags.flags json && str_eq type content_type_is_json ≡ false
      → tags.flags multipart && str_eq type content_type_is_multipart ≡ false
      → ¬ Claims tags type body
      → (s : Source) → ¬ Claims tags type s
  unclaimed_by_all f j m b form (on, is) =
      absurd (ground (arith, str_eq_iff type content_type_is_form))
  unclaimed_by_all f j m b json (on, is) =
      absurd (ground (arith, str_eq_iff type content_type_is_json))
  unclaimed_by_all f j m b multipart (on, is) =
      absurd (ground (arith, str_eq_iff type content_type_is_multipart))
  unclaimed_by_all f j m b body h = b h
  unclaimed_by_all f j m b header h = h
  unclaimed_by_all f j m b cookie h = h
  unclaimed_by_all f j m b query h = h
  unclaimed_by_all f j m b url h = h

  rest-Serves :
      (¬ Claims tags type body → (s : Source) → ¬ Claims tags type s)
      → Serves tags type (if takes_body then some body else none)
  rest-Serves unclaimed = elim (Bool-cases (tags.flags body)) [
    | inr off ↦ rw off (by_none (unclaimed (λ h. cc (h.0, off))) (λ h. cc (h.0, off)))
    | inl on ↦ elim (Bool-cases (contains tags.body_content_types type)) [
      | inl listed ↦
          let takes : takes_body ≡ true = ground (arith, on, listed) in
          rw takes (by_claim body (on, listed))
      | inr unlisted ↦
          let others = unclaimed (λ h. cc (h.1, unlisted)) in
          elim (empty-cases tags.body_content_types) [
            | inl none_listed ↦
                let takes : takes_body ≡ true = ground (arith, on, none_listed) in
                rw takes (by_default others (on, none_listed))
            | inr (some_listed, nonempty) ↦
                let refuses : takes_body ≡ false = ground (arith, on, some_listed, unlisted) in
                rw refuses (by_none others (λ h. nonempty h.1))
          ]
    ]
  ]

  pub server-Serves : Serves tags type server
  unfolding server
  server-Serves = elim (Bool-cases (tags.flags form && str_eq type content_type_is_form)) [
    | inl f ↦ rw f (by_claim form (ground (arith, str_eq_iff type content_type_is_form)))
    | inr not_f ↦ elim (Bool-cases (tags.flags json && str_eq type content_type_is_json)) [
      | inl j ↦ rw (not_f, j) (by_claim json (ground (arith, str_eq_iff type content_type_is_json)))
      | inr not_j ↦
          elim (Bool-cases (tags.flags multipart && str_eq type content_type_is_multipart)) [
            | inl m ↦
                rw (not_f, not_j, m)
                  (by_claim multipart (ground (arith, str_eq_iff type content_type_is_multipart)))
            | inr not_m ↦
                rw (not_f, not_j, not_m) (rest-Serves (unclaimed_by_all not_f not_j not_m))
          ]
    ]
  ]

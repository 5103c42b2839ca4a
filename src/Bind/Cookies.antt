-- ===== src/Bind/Cookies.antt =====
-- The map that bindCookie makes of the cookies.
use go_httpserver.Base.{
  ◌≡◌, refl, arith, ap, sym, ◌∙◌, String, List, [], ◌∷◌, ◌++◌, str_eq, str_eq_iff, if◌then◌else◌,
  Bool-cases, inl, inr,
}
use go_httpserver.Bind.Library.{KeyValues}
use go_httpserver.Bind.{append_value, cookie_values}

-- What indexing the map with a name gives.
abbrev pub values_of : KeyValues → String → List String
values_of [] k = []
values_of ((j, vs) ∷ m) k = if str_eq j k then vs else values_of m k

-- The values of the cookies with a name, in their order.
abbrev pub named : List (String × String) → String → List String
named [] k = []
named ((name, value) ∷ cookies) k =
    if str_eq name k then value ∷ named cookies k else named cookies k

values_of-append_value :
    (name value k : String) (m : KeyValues)
    → values_of (append_value name value m) k
      ≡ (if str_eq name k then values_of m k ++ value ∷ [] else values_of m k)
unfolding append_value
values_of-append_value name value k [] = refl
values_of-append_value name value k ((j, vs) ∷ m) = ground (
  arith,
  str_eq_iff name k,
  str_eq_iff j name,
  str_eq_iff j k,
  values_of-append_value name value k m,
)

append_cons : (xs ys : List String) (x : String) → (xs ++ x ∷ []) ++ ys ≡ xs ++ x ∷ ys
append_cons [] ys x = refl
append_cons (y ∷ xs) ys x = ap (λ zs. y ∷ zs) (append_cons xs ys x)

append_nil : (xs : List String) → xs ++ [] ≡ xs
append_nil [] = refl
append_nil (y ∷ xs) = ap (λ zs. y ∷ zs) (append_nil xs)

-- Each name of the map has the values that it had before, and then those of its cookies, in the order of
-- the request.
pub cookie_values-named :
    (cookies : List (String × String)) (m : KeyValues) (k : String)
    → values_of (cookie_values cookies m) k ≡ values_of m k ++ named cookies k
unfolding cookie_values
cookie_values-named [] m k = sym (append_nil (values_of m k))
cookie_values-named ((name, value) ∷ cookies) m k =
    let after = cookie_values-named cookies (append_value name value m) k in
    let added = values_of-append_value name value k m in
    elim (Bool-cases (str_eq name k)) [
      | inl same ↦
          after
          ∙ ap (λ vs. vs ++ named cookies k) added
          ∙ rw same (append_cons (values_of m k) (named cookies k) value)
      | inr other ↦ after ∙ ap (λ vs. vs ++ named cookies k) added ∙ rw other refl
    ]

-- ===== src/Router/Chain.antt =====
-- The order in which a route runs its middleware, and what Group and WithLogger do to a router.
use go_httpserver.Base.{
  ℕ, ◌+◌, ◌≡◌, refl, sym, ap, ◌∙◌, arith, ltb, length, get_elem?, Option, some, List, [], ◌∷◌, ◌++◌,
  ⊤, length-append, true, false,
}
use mathlib.Core.List.{append_assoc}
use mathlib.Core.Path.{ap₂}
use go_httpserver.Context.{new_context}
use go_httpserver.Write.{write_response}
use go_httpserver.Effect.{modify, ◌>>◌}
use go_httpserver.State.{M, Platform}
use go_httpserver.Router.{
  Handler, Middleware, Router, dispatcher, call_at, route, group, with_logger,
}

-- The chain without indices: the first middleware is outermost, and `next` is the rest.
abbrev pub chain : List Middleware → Handler → M ⊤
chain [] handler = handler
chain (middleware ∷ middlewares) handler = middleware (chain middlewares handler)

get_elem?-middle {ℓ} :
    {A : Type ℓ} (before : List A) (a : A) (after : List A)
    → get_elem? (before ++ a ∷ after) (length before) ≡ some a
get_elem?-middle [] a after = refl
get_elem?-middle (b ∷ before) a after = get_elem?-middle before a after

in_range {ℓ} :
    {A : Type ℓ} (before : List A) (a : A) (after : List A)
    → ltb (length before) (length (before ++ a ∷ after)) ≡ true
in_range before a after = ground (arith, length-append before (a ∷ after))

past_end {ℓ} : {A : Type ℓ} (before : List A) → ltb (length before) (length (before ++ [])) ≡ false
past_end before = ground (arith, length-append before [])

-- The same place in the same list, one middleware on.
next_dispatcher :
    (handler : Handler) (before : List Middleware) (m : Middleware) (after : List Middleware)
    → dispatcher ((before ++ m ∷ []) ++ after) handler (length after) (length (before ++ m ∷ []))
      ≡ dispatcher (before ++ m ∷ after) handler (length after) (length before + 1)
next_dispatcher handler before m after =
    let moved : length (before ++ m ∷ []) ≡ length before + 1 = length-append before (m ∷ []) in
    ap₂ (λ ms i. dispatcher ms handler (length after) i) (append_assoc before (m ∷ []) after) moved

dispatcher_from :
    (handler : Handler) (before after : List Middleware)
    → dispatcher (before ++ after) handler (length after) (length before) ≡ chain after handler
unfolding dispatcher call_at
dispatcher_from handler before [] = rw (past_end before)
dispatcher_from handler before (m ∷ after) =
    rw (in_range before m after, get_elem?-middle before m after)
      (ap m (
        sym (next_dispatcher handler before m after)
        ∙ dispatcher_from handler (before ++ m ∷ []) after))

-- The dispatcher, which counts through the middleware by an index, runs each middleware round the rest
-- in the order of the list and the handler innermost, with no index out of range.
pub dispatcher-chain :
    (middlewares : List Middleware) (handler : Handler)
    → dispatcher middlewares handler (length middlewares) 0 ≡ chain middlewares handler
dispatcher-chain middlewares handler = dispatcher_from handler [] middlewares

chain-append :
    (before after : List Middleware) (handler : Handler)
    → chain (before ++ after) handler ≡ chain before (chain after handler)
chain-append [] after handler = refl
chain-append (m ∷ before) after handler = ap m (chain-append before after handler)

module _ (p : Platform) where
  route-chain :
      (middlewares middlewares' : List Middleware) (handler handler' : Handler)
      → chain middlewares handler ≡ chain middlewares' handler'
      → route p middlewares handler ≡ route p middlewares' handler'
  unfolding route
  route-chain ms ms' h h' same =
      let d = dispatcher-chain ms h ∙ same ∙ sym (dispatcher-chain ms' h') in
      ap
        (λ m. λ writer request.
          modify (λ s. record s { context = new_context request writer })
          >> (m >> write_response p))
        d

  -- A route of a group runs the parent's middleware round the group's, which runs round the handler;
  -- groups of groups add up, and a logger changes no route.
  pub route-group :
      (r : Router) (ms ms' : List Middleware) (logger : Option ℕ) (handler : Handler)
      → (route p (group r ms).middlewares handler ≡ route p r.middlewares (chain ms handler))
        × (group (group r ms) ms' ≡ group r (ms ++ ms'))
        × (route p (with_logger r logger).middlewares handler ≡ route p r.middlewares handler)
  unfolding group with_logger
  route-group r ms ms' logger handler = (
    route-chain _ _ _ _ (chain-append r.middlewares ms handler),
    rw (append_assoc r.middlewares ms ms'),
    refl,
  )

  -- A middleware that returns without calling next ends the chain: those before it run round it, and
  -- neither those after it nor the handler have a part in what the route does.
  pub route_short_circuit :
      (before after after' : List Middleware) (stop : M ⊤) (handler handler' : Handler)
      → route p (before ++ (λ next. stop) ∷ after) handler
        ≡ route p (before ++ (λ next. stop) ∷ after') handler'
  route_short_circuit before after after' stop handler handler' = route-chain _ _ _ _ (
      chain-append before ((λ next. stop) ∷ after) handler
      ∙ sym (chain-append before ((λ next. stop) ∷ after') handler'))

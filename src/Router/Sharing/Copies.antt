-- ===== src/Router/Sharing/Copies.antt =====
-- What Group makes on the heap.
use go_httpserver.Base.{ℕ, ◌<◌, ◌≡◌, ◌⊎◌, ◌∙◌, inl, inr, refl, ap, List, ◌++◌}
use go_httpserver.Slices.{read, Slice, Heap, elements}
use go_httpserver.Slices.Copies.{
  IsNew, copied, copied_kept, extended-IsNew, extended-elements, extended_kept,
}
use go_httpserver.Router.{Middleware, group}
use go_httpserver.Router.Sharing.{RouterValue, router_of, group_value}

module _ (blank : Middleware) (spare : ℕ → ℕ) (r : RouterValue) (s : Slice)
    (h : Heap Middleware) where
  abbrev pub made : RouterValue × Heap Middleware
  made = group_value blank spare r s h

  abbrev given : List Middleware
  given = elements (copied blank spare r.middlewares h).1 s

  pub made-IsNew : IsNew h made.0.middlewares made.1
  unfolding group_value
  made-IsNew = extended-IsNew blank spare r.middlewares h given

  -- Group writes to no array that was in use.
  pub made_kept : (a : ℕ) → a < h.fresh → made.1.arrays a ≡ h.arrays a
  unfolding group_value
  made_kept = extended_kept blank spare r.middlewares h given

  -- The slice of the caller, also when it is nil, reads the same after the copy.
  argument_kept : (s.array < h.fresh) ⊎ (s.len ≡ 0) → given ≡ elements h s
  unfolding read
  argument_kept (inl old) =
      ap (λ f. read f s.from s.len) (copied_kept blank spare r.middlewares h s.array old)
  argument_kept (inr empty) = rw empty refl

  -- The router that Group makes has the middleware of the receiver and then that of the argument.
  pub made-group :
      (s.array < h.fresh) ⊎ (s.len ≡ 0)
      → router_of made.1 made.0 ≡ group (router_of h r) (elements h s)
  unfolding group_value group
  made-group old =
      ap (λ ms. record { logger = r.logger; middlewares = ms })
        (extended-elements blank spare r.middlewares h given
          ∙ ap (λ l. elements h r.middlewares ++ l) (argument_kept old))

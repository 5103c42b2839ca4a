-- ===== src/Router/Sharing/Added.antt =====
-- That a new router, on a heap that has kept the arrays of the package, leaves the others as they were.
use go_httpserver.Base.{
  ℕ, ◌+◌, ◌≤◌, ◌<◌, ◌≡◌, ◌⊎◌, ◌∙◌, inl, inr, refl, ap, arith, Bool, true, false, ◌==◌, Bool-cases,
}
use go_httpserver.Slices.{read, Slice, Heap}
use go_httpserver.Router.{Middleware, Router}
use go_httpserver.Router.Sharing.{RouterValue, router_of, World, put}

-- The slice is nil, or its array is in use and not the application's.
abbrev pub IsApart : Slice → ℕ → (ℕ → Bool) → Type 0
IsApart s fresh app = (s.len ≡ 0) ⊎ (s.array < fresh) × (app s.array ≡ false)

module _ (blank : Middleware) (spare : ℕ → ℕ) where
  pub record IsSafe (w : World blank spare) : Type 0 where
    pub in_use : (a : ℕ) → w.app a ≡ true → a < w.heap.fresh
    pub apart : (k : ℕ) → k < w.count → IsApart (w.values k).middlewares w.heap.fresh w.app
    pub agrees : (k : ℕ) → k < w.count → router_of w.heap (w.values k) ≡ w.plain k

  -- A router reads the same on a heap that has kept the arrays of the package.
  pub router_of_kept :
      (v : RouterValue) (h h' : Heap Middleware) (app : ℕ → Bool)
      → IsApart v.middlewares h.fresh app
      → ((a : ℕ) → a < h.fresh → app a ≡ false → h'.arrays a ≡ h.arrays a)
      → router_of h' v ≡ router_of h v
  unfolding read
  router_of_kept v h h' app (inl empty) kept = rw empty refl
  router_of_kept v h h' app (inr (old, mine)) kept =
      ap
        (λ f. record {
          logger = v.logger;
          middlewares = read f v.middlewares.from v.middlewares.len;
        })
        (kept v.middlewares.array old mine)

  -- A new router, on a heap that has kept the arrays of the package.
  module _ (w : World blank spare) (v : RouterValue) (q : Router) (h : Heap Middleware)
      (safe : IsSafe w)
      (kept : (a : ℕ) → a < w.heap.fresh → w.app a ≡ false → h.arrays a ≡ w.heap.arrays a)
      (grown : w.heap.fresh ≤ h.fresh) (fits : IsApart v.middlewares h.fresh w.app)
      (right : router_of h v ≡ q) where
    abbrev pub added : World blank spare
    added = record w {
      heap = h;
      count = w.count + 1;
      values = put blank spare w.count v w.values;
      plain = put blank spare w.count q w.plain;
    }

    added_apart : (k : ℕ) → k < w.count + 1 → IsApart (added.values k).middlewares h.fresh w.app
    added_apart k lt = elim (Bool-cases (w.count == k)) [
      | inl last ↦ rw last fits
      | inr other ↦ rw other (wider (safe.apart k (ground arith)))
    ]
      where
        wider :
            IsApart (w.values k).middlewares w.heap.fresh w.app
            → IsApart (w.values k).middlewares h.fresh w.app
        wider (inl empty) = inl empty
        wider (inr (old, mine)) = inr (omega arith, mine)

    added_agrees : (k : ℕ) → k < w.count + 1 → router_of h (added.values k) ≡ added.plain k
    added_agrees k lt = elim (Bool-cases (w.count == k)) [
      | inl last ↦ rw last right
      | inr other ↦
          let before : k < w.count = ground arith in
          rw other (
            router_of_kept (w.values k) w.heap h w.app (safe.apart k before) kept
            ∙ safe.agrees k before)
    ]

    pub added-IsSafe : IsSafe added
    added-IsSafe = record {
      in_use = λ a e. omega (arith, safe.in_use a e);
      apart = added_apart;
      agrees = added_agrees;
    }

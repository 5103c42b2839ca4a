-- ===== src/Router/Sharing/Kept.antt =====
-- That a router stays what it was made, whatever is done with the routers and arrays beside it.
use go_httpserver.Base.{
  ℕ, ◌+◌, ◌≤◌, ◌<◌, ◌≡◌, ◌⊎◌, ◌∙◌, inl, inr, refl, ap, arith, Bool, true, false, ◌&&◌, ◌||◌, ltb,
  ◌==◌, Option, none, some, if◌then◌else◌, Bool-cases,
}
use go_httpserver.Schedule.{Reach, Reach-keeps}
use go_httpserver.Slices.{read, Slice, elements, set_array, set_at}
use go_httpserver.Router.{Middleware, group, with_logger}
use go_httpserver.Router.Sharing.{
  router_of, with_logger_value, group_value, World, Action, groups, logs_to, sets, makes, put,
  grouped, step, initial,
}
use go_httpserver.Router.Sharing.Copies.{made, made-IsNew, made_kept, made-group}
use go_httpserver.Router.Sharing.Added.{IsApart, IsSafe, router_of_kept, added-IsSafe}

module _ (blank : Middleware) (spare : ℕ → ℕ) where
  unowned :
      (w : World blank spare) (a : ℕ) → IsSafe blank spare w → w.heap.fresh ≤ a → w.app a ≡ false
  unowned w a safe new = elim (Bool-cases (w.app a)) [
    | inl owned ↦ absurd (omega (arith, safe.in_use a owned))
    | inr free ↦ free
  ]

  grouped-IsSafe :
      (i : ℕ) (s : Slice) (w : World blank spare)
      → i < w.count
      → (w.app s.array ≡ true) ⊎ (s.len ≡ 0)
      → IsSafe blank spare w
      → IsSafe blank spare
          (grouped blank spare i s w (group_value blank spare (w.values i) s w.heap))
  grouped-IsSafe i s w lt given safe =
      let r = w.values i in
      let new = made-IsNew blank spare r s w.heap in
      let (v, h) = made blank spare r s w.heap in
      added-IsSafe blank spare w v (group (w.plain i) (elements w.heap s)) h safe
        (λ a old mine. made_kept blank spare r s w.heap a old) new.0 (fits new.1)
        (made-group blank spare r s w.heap (usable given)
          ∙ ap (λ q. group q (elements w.heap s)) (safe.agrees i lt))
    where
      fits :
          ((made blank spare (w.values i) s w.heap).0.middlewares.len ≡ 0)
              × ((made blank spare (w.values i) s w.heap).0.middlewares.cap ≡ 0)
            ⊎ (w.heap.fresh ≤ (made blank spare (w.values i) s w.heap).0.middlewares.array)
              × ((made blank spare (w.values i) s w.heap).0.middlewares.array
                  < (made blank spare (w.values i) s w.heap).1.fresh)
          → IsApart
              (made blank spare (w.values i) s w.heap).0.middlewares
              (made blank spare (w.values i) s w.heap).1.fresh
              w.app
      fits (inl (empty, _)) = inl empty
      fits (inr (lo, hi)) = inr (hi, unowned w _ safe lo)

      usable : (w.app s.array ≡ true) ⊎ (s.len ≡ 0) → (s.array < w.heap.fresh) ⊎ (s.len ≡ 0)
      usable (inl owned) = inl (safe.in_use s.array owned)
      usable (inr empty) = inr empty

  logged-IsSafe :
      (i : ℕ) (logger : Option ℕ) (w : World blank spare)
      → i < w.count
      → IsSafe blank spare w
      → IsSafe blank spare (record w {
        count = w.count + 1;
        values = put blank spare w.count (with_logger_value (w.values i) logger) w.values;
        plain = put blank spare w.count (with_logger (w.plain i) logger) w.plain;
      })
  unfolding with_logger_value with_logger
  logged-IsSafe i logger w lt safe =
      added-IsSafe blank spare w (with_logger_value (w.values i) logger)
        (with_logger (w.plain i) logger) w.heap safe (λ a old mine. refl) (omega arith)
        (safe.apart i lt) (ap (λ q. with_logger q logger) (safe.agrees i lt))

  set-IsSafe :
      (a : ℕ) (f : ℕ → Middleware) (w : World blank spare)
      → w.app a ≡ true
      → IsSafe blank spare w
      → IsSafe blank spare (record w { heap = set_array a f w.heap })
  set-IsSafe a f w owned safe = record {
    in_use = safe.in_use;
    apart = safe.apart;
    agrees = λ k lt.
        router_of_kept blank spare (w.values k) w.heap (set_array a f w.heap) w.app
          (safe.apart k lt) kept
        ∙ safe.agrees k lt;
  }
    where
      kept :
          (b : ℕ)
          → b < w.heap.fresh
          → w.app b ≡ false
          → (set_array a f w.heap).arrays b ≡ w.heap.arrays b
      kept b old mine = elim (Bool-cases (a == b)) [
        | inl same ↦ absurd (ground (arith, same, owned, mine))
        | inr other ↦ rw other refl
      ]

  makes-IsSafe :
      (w : World blank spare)
      → IsSafe blank spare w
      → IsSafe blank spare (record w {
        heap = record w.heap { fresh = w.heap.fresh + 1 };
        app = put blank spare w.heap.fresh true w.app;
      })
  makes-IsSafe w safe = record {
    in_use = λ a e. ground (arith, safe.in_use a);
    apart = λ k lt. apart (w.values k).middlewares (safe.apart k lt);
    agrees = safe.agrees;
  }
    where
      apart :
          (s : Slice)
          → IsApart s w.heap.fresh w.app
          → IsApart s (w.heap.fresh + 1) (put blank spare w.heap.fresh true w.app)
      apart s (inl empty) = inl empty
      apart s (inr (old, mine)) = inr (omega arith, ground arith)

  guarded-IsSafe :
      (b : Bool) (u t : World blank spare)
      → (if b then some u else none) ≡ some t
      → (b ≡ true → IsSafe blank spare u)
      → IsSafe blank spare t
  guarded-IsSafe true u t is h = let same : u ≡ t = cc in rw (← same) (h refl)
  guarded-IsSafe false u t is h = cc

  step-IsSafe :
      (e : Action blank spare) (w t : World blank spare)
      → IsSafe blank spare w
      → step blank spare e w ≡ some t
      → IsSafe blank spare t
  unfolding step
  step-IsSafe (groups i s) w t safe is =
      guarded-IsSafe (ltb i w.count && (w.app s.array || s.len == 0)) _ t is
        λ can. grouped-IsSafe i s w (ground (arith, can)) (ground (arith, can)) safe
  step-IsSafe (logs_to i logger) w t safe is =
      guarded-IsSafe (ltb i w.count) _ t is
        λ can. logged-IsSafe i logger w (ground (arith, can)) safe
  step-IsSafe (sets a j x) w t safe is =
      guarded-IsSafe (w.app a) _ t is
        λ owned. set-IsSafe a (set_at (w.heap.arrays a) j x) w owned safe
  step-IsSafe makes w t safe is = guarded-IsSafe true _ t is (λ e. makes-IsSafe w safe)

  initial-IsSafe : (arrays : ℕ → ℕ → Middleware) → IsSafe blank spare (initial blank spare arrays)
  unfolding read
  initial-IsSafe arrays = record {
    in_use = λ a e. cc;
    apart = λ k lt. inl refl;
    agrees = λ k lt. refl;
  }

  -- After any calls of Group and WithLogger on any routers, with any slices of the application, and any writes of the
  -- application to its own arrays, also those that it has passed: each router has just the logger and the middleware
  -- that the functions on lists gave it when it was made. Group does not mutate its receiver, does not keep the
  -- array of its argument, and no two routers get in each other's way.
  pub Reach-agrees :
      (arrays : ℕ → ℕ → Middleware) {w : World blank spare}
      → Reach (step blank spare) (initial blank spare arrays) w
      → (k : ℕ) → k < w.count
      → router_of w.heap (w.values k) ≡ w.plain k
  Reach-agrees arrays reached k lt =
      (Reach-keeps (step blank spare) (IsSafe blank spare) step-IsSafe (initial-IsSafe arrays)
          reached).agrees
        k lt

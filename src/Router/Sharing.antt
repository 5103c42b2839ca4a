-- ===== src/Router/Sharing.antt =====
-- router.go: routers as Go values, whose middleware is a slice of an array on the heap, beside application code that
-- goes on writing its own arrays.
pub mod Copies
pub mod Added
pub mod Kept
use go_httpserver.Base.{
  ℕ, ◌+◌, Bool, true, false, not, ◌&&◌, ◌||◌, ltb, ◌==◌, Option, none, some, List, [],
  if◌then◌else◌,
}
use go_httpserver.Slices.{Slice, nil_slice, Heap, elements, set_array, set_at, append}
use go_httpserver.Router.{Middleware, Router, with_logger, group}

-- Router, of which the ServeMux is left out: it is one pointer.
pub record RouterValue : Type 0 where
  pub logger : Option ℕ
  pub middlewares : Slice

abbrev pub router_of : Heap Middleware → RouterValue → Router
router_of h v = record { logger = v.logger; middlewares = elements h v.middlewares }

-- WithLogger shares the slice of the receiver.
unfoldable pub with_logger_value : RouterValue → Option ℕ → RouterValue
with_logger_value r logger = record { logger = logger; middlewares = r.middlewares }

-- `blank` is the nil function, and `spare` the room that a new array has beyond what is needed.
module _ (blank : Middleware) (spare : ℕ → ℕ) where
  unfoldable pub group_value : RouterValue → Slice → Heap Middleware → RouterValue × Heap Middleware
  unfolding append
  group_value r middlewares h =
      let (copy, h') = append blank spare nil_slice (elements h r.middlewares) h in
      let (all, h'') = append blank spare copy (elements h' middlewares) h' in
      (record { logger = r.logger; middlewares = all }, h'')

  -- The routers made so far; what the functions on lists made in their place; the arrays that application code has.
  pub record World : Type 0 where
    pub heap : Heap Middleware
    pub count : ℕ
    pub values : ℕ → RouterValue
    pub plain : ℕ → Router
    pub app : ℕ → Bool

  -- What application code does: it calls the methods of a router, with a slice of an array that it has; it writes
  -- such an array, and makes new ones.
  pub data Action : Type 0 where
    groups : ℕ → Slice → Action
    logs_to : ℕ → Option ℕ → Action
    sets : ℕ → ℕ → Middleware → Action
    makes : Action

  abbrev pub put : {B : Type 0} → ℕ → B → (ℕ → B) → ℕ → B
  put i b f j = if i == j then b else f j

  abbrev pub grouped : ℕ → Slice → World → RouterValue × Heap Middleware → World
  grouped i s w (v, h) = record w {
    heap = h;
    count = w.count + 1;
    values = put w.count v w.values;
    plain = put w.count (group (w.plain i) (elements w.heap s)) w.plain;
  }

  unfoldable pub step : Action → World → Option World
  unfolding group_value with_logger_value
  step (groups i s) w =
      if ltb i w.count && (w.app s.array || s.len == 0)
      then some (grouped i s w (group_value (w.values i) s w.heap))
      else none
  step (logs_to i logger) w =
      if ltb i w.count
      then some (record w {
        count = w.count + 1;
        values = put w.count (with_logger_value (w.values i) logger) w.values;
        plain = put w.count (with_logger (w.plain i) logger) w.plain;
      })
      else none
  step (sets a j x) w =
      if w.app a
      then some (record w { heap = set_array a (set_at (w.heap.arrays a) j x) w.heap })
      else none
  step makes w =
      let h = w.heap in
      some (record w { heap = record h { fresh = h.fresh + 1 }; app = put h.fresh true w.app })

  -- The router of NewServer, and an application that has no array.
  abbrev pub initial : (ℕ → ℕ → Middleware) → World
  initial arrays = record {
    heap = record { arrays = arrays; fresh = 0 };
    count = 1;
    values = λ i. record { logger = none; middlewares = nil_slice };
    plain = λ i. record { logger = none; middlewares = [] };
    app = λ a. false;
  }

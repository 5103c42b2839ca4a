-- ===== src/Router.antt =====
-- router.go: routers over a shared ServeMux, and the chain of middleware that a route runs.
pub mod Chain
pub mod Promised
pub mod Registering
pub mod Sharing
use go_httpserver.Base.{
  ℕ, zero, suc, ◌+◌, ltb, length, get_elem?, Option, none, some, String, List, [], ◌∷◌, ◌++◌, ⊤,
  if◌then◌else◌,
}
use go_httpserver.Effect.{
  Panic, index_out_of_range, panic, modify, ◌>>◌, Outcome, returned, panicked,
}
use go_httpserver.State.{Writer, Request, M, Platform}
use go_httpserver.Context.{new_context}
use go_httpserver.Write.{write_response}

abbrev pub Handler : Type 0
Handler = M ⊤

-- `next` runs the rest of the chain on the same Context.
abbrev pub Middleware : Type 0
Middleware = M ⊤ → M ⊤

-- What is registered on a ServeMux: a pattern and a `func(http.ResponseWriter, *http.Request)`.
abbrev pub HandlerFunc : Type 0
HandlerFunc = Writer → Request → M ⊤

abbrev pub ServeMux : Type 0
ServeMux = List (String × HandlerFunc)

-- exception.StackFrame.
pub record StackFrame : Type 0 where
  pub function : String
  pub file : String
  pub line : ℕ

module _ {A : Type 0} (resolve : A → Option StackFrame) where
  unfoldable pub func_object : A → StackFrame
  func_object v = elim (resolve v) [
    | some frame ↦ frame
    | none ↦ record { function = "<unknown>"; file = ""; line = 0 }
  ]

  append_frames : List StackFrame → List A → List StackFrame
  unfolding func_object
  append_frames frames [] = frames
  append_frames frames (value ∷ values) = append_frames (frames ++ func_object value ∷ []) values

  unfoldable pub func_objects : List A → List StackFrame
  unfolding append_frames
  func_objects values = append_frames [] values

-- What Handle logs of a registration.
pub record Registration : Type 0 where
  pub pattern : String
  pub middlewares : List StackFrame
  pub handler : StackFrame

-- A logger is a number; the ServeMux is the shared one, which Handle is given.
pub record Router : Type 0 where
  pub logger : Option ℕ
  pub middlewares : List Middleware

unfoldable pub with_logger : Router → Option ℕ → Router
with_logger r logger = record { logger = logger; middlewares = r.middlewares }

unfoldable pub group : Router → List Middleware → Router
group r middlewares = record {
  logger = r.logger;
  middlewares = ([] ++ r.middlewares) ++ middlewares;
}

-- `dispatcher(ctx, i)`, on fuel: it faults if middleware is left when the fuel is out. The index is
-- tested as in the code, and an element out of range faults.
call_at : Option Middleware → M ⊤ → M ⊤
call_at (some middleware) next = middleware next
call_at none next = panic index_out_of_range

module _ (middlewares : List Middleware) (handler : Handler) where
  pub dispatcher : ℕ → ℕ → M ⊤
  dispatcher zero i = if ltb i (length middlewares) then panic index_out_of_range else handler
  dispatcher (suc rounds) i =
      let next = dispatcher rounds (i + 1) in
      if ltb i (length middlewares) then call_at (get_elem? middlewares i) next else handler

-- The function that Handle registers.
unfoldable pub route : Platform → List Middleware → Handler → HandlerFunc
unfolding dispatcher call_at
route p middlewares handler writer request = do
  modify (λ s. record s { context = new_context request writer })
  dispatcher middlewares handler (length middlewares) 0
  write_response p

-- `refuses` says whether (*http.ServeMux).HandleFunc panics on a pattern, such as a conflicting one.
module _ (p : Platform) (resolve_middleware : Middleware → Option StackFrame)
    (resolve_handler : Handler → Option StackFrame)
    (refuses : ServeMux → String → Option Panic) where
  unfoldable pub handle :
      Router → String → Handler → ServeMux → Outcome ⊤ × Option Registration × ServeMux
  unfolding route func_object func_objects
  handle r pattern handler mux =
      let registration : Registration = record {
        pattern = pattern;
        middlewares = func_objects resolve_middleware r.middlewares;
        handler = func_object resolve_handler handler;
      } in
      let logged : Option Registration = elim r.logger [
        | none ↦ none
        | some _ ↦ some registration
      ] in
      elim (refuses mux pattern) [
        | none ↦ (returned tt, logged, (pattern, route p r.middlewares handler) ∷ mux)
        | some e ↦ (panicked e, logged, mux)
      ]

-- ===== src/Router/Registering.antt =====
-- What Handle registers and what it logs of it.
use go_httpserver.Base.{
  ℕ, ◌≡◌, ap, arith, ◌∙◌, sym, Option, none, some, List, [], ◌∷◌, ◌++◌, map, String,
}
use mathlib.Core.List.{append_assoc, append-nil}
use go_httpserver.Effect.{Panic, returned}
use go_httpserver.State.{Platform}
use go_httpserver.Router.Chain.{chain, route-group}
use go_httpserver.Router.{
  HandlerFunc, group, Handler, Middleware, Router, StackFrame, ServeMux, Registration, route,
  handle, func_object, append_frames, func_objects,
}

module _ {A : Type 0} (resolve : A → Option StackFrame) where
  append_frames_lem :
      (frames : List StackFrame) (values : List A)
      → append_frames resolve frames values ≡ frames ++ map (func_object resolve) values
  unfolding append_frames
  append_frames_lem frames [] = sym (append-nil frames)
  append_frames_lem frames (value ∷ values) =
      append_frames_lem (frames ++ func_object resolve value ∷ []) values
      ∙ append_assoc frames (func_object resolve value ∷ []) (map (func_object resolve) values)

  func_objects-map :
      (values : List A) → func_objects resolve values ≡ map (func_object resolve) values
  unfolding func_objects
  func_objects-map values = append_frames_lem [] values

-- What is logged of a registration by a logger, if there is one: a frame for each middleware, in order.
abbrev pub logged_as :
    (Middleware → Option StackFrame)
    → (Handler → Option StackFrame)
    → Option ℕ
    → List Middleware
    → String
    → Handler
    → Option Registration
logged_as resolve_middleware resolve_handler none middlewares pattern handler = none
logged_as resolve_middleware resolve_handler (some _) middlewares pattern handler = some (record {
  pattern = pattern;
  middlewares = map (func_object resolve_middleware) middlewares;
  handler = func_object resolve_handler handler;
})

module _ (p : Platform) (rm : Middleware → Option StackFrame) (rh : Handler → Option StackFrame)
    (refuses : ServeMux → String → Option Panic) where
  handle_logs :
      (logger : Option ℕ) (ms : List Middleware) (pattern : String) (handler : Handler)
      (mux : ServeMux)
      → (handle p rm rh refuses
          (record { logger = logger; middlewares = ms })
          pattern
          handler
          mux).1
        ≡ logged_as rm rh logger ms pattern handler
  unfolding handle
  handle_logs none ms pattern handler mux = ground arith
  handle_logs (some l) ms pattern handler mux = ground (arith, func_objects-map rm ms)

  handle_adds :
      (r : Router) (pattern : String) (handler : Handler) (mux : ServeMux)
      → refuses mux pattern ≡ none
      → let (out, log, mux') = handle p rm rh refuses r pattern handler mux in
        (out ≡ returned tt) × (mux' ≡ (pattern, route p r.middlewares handler) ∷ mux)
  unfolding handle
  handle_adds r pattern handler mux accepted = ground arith

  -- Take a pattern that the ServeMux does not refuse. Handle on a router that Group made adds to the shared ServeMux a
  -- route that runs the parent's middleware round the group's and the handler innermost, each once and in order. The
  -- parent's logger, if it has one, logs a frame for each of the parent's middleware, then for each of the group's, in
  -- order, and the frame of the handler.
  pub handle-group :
      (r : Router) (ms : List Middleware) (pattern : String) (handler : Handler) (mux : ServeMux)
      → refuses mux pattern ≡ none
      → let (out, log, mux') = handle p rm rh refuses (group r ms) pattern handler mux in
        (out ≡ returned tt)
        × (mux' ≡ (pattern, route p r.middlewares (chain ms handler)) ∷ mux)
        × (log ≡ logged_as rm rh r.logger (r.middlewares ++ ms) pattern handler)
  unfolding group
  handle-group r ms pattern handler mux accepted =
      let (ended, adds) = handle_adds (group r ms) pattern handler mux accepted in
      (
        ended,
        adds ∙ ap (λ (f : HandlerFunc). (pattern, f) ∷ mux) (route-group p r ms [] none handler).0,
        handle_logs r.logger (r.middlewares ++ ms) pattern handler mux,
      )

-- ===== src/RequestHandler.antt =====
-- request.go: typed handlers and middleware, by way of a request struct of type `V`.
pub mod Guards
pub mod Torn
pub mod Routed
use go_httpserver.Base.{Bool, Option, ⊤, if◌then◌else◌, is_some}
use go_httpserver.Base.Int.{ℤ, pos}
use go_httpserver.Effect.{Action, Error, Outcome, returned, panicked, pure, ◌>>=◌, ◌>>◌}
use go_httpserver.State.{Request, M}
use go_httpserver.Context.{Response, delegate, new_response}
use go_httpserver.Response.{marshal_zerolog_object}
use go_httpserver.Bind.{parse}
use go_httpserver.Bind.Library.{BindLibrary, Result, Race}
use go_httpserver.Tags.{RequestTags}
use go_httpserver.Router.{Handler, Middleware}

-- The result of a computation on the request struct, with the struct, within a computation on the
-- request.
abbrev pub with_struct : {V A : Type 0} → Outcome A → V → Outcome (A × V)
with_struct (returned a) v = returned (a, v)
with_struct (panicked e) v = panicked e

abbrev pub on_struct : {V A : Type 0} → Action V A → V → M (A × V)
on_struct m v s = (with_struct (m v).0 (m v).1, s)

-- `ctx.NewResponse(status)`, whose handle is not used.
abbrev respond : ℤ → M ⊤
respond status = do new_response status; pure tt

-- `zero` is the zero value of the request struct. `traces` says whether the logger takes trace events,
-- for which it asks the response.
module _ {V : Type 0} (lib : BindLibrary V) (tags : RequestTags) (zero : V) (race : Race V)
    (traces : Bool) where
  abbrev trace : M ⊤
  trace =
      if traces
      then (do marshal_zerolog_object (record { ctx = Bool.true; ticket = 0 }); pure tt)
      else pure tt

  -- From the check of the error of parse on.
  unfoldable pub handle_parsed : (V → M ⊤) → Result × V → M ⊤
  handle_parsed next (result, parsed) =
      if is_some result.error
      then respond result.status
      else if is_some (lib.validate_struct parsed)
      then respond (pos 400)
      else next parsed >> trace

  -- From the check of the error of ApplyDefaults on.
  unfoldable pub handle_defaulted : (V → M ⊤) → Request → Option Error × V → M ⊤
  unfolding handle_parsed
  handle_defaulted next request (err, defaulted) =
      if is_some err
      then respond (pos 500)
      else on_struct (parse lib tags request race) defaulted >>= handle_parsed next

  unfoldable pub request_handler : (V → M ⊤) → M ⊤
  unfolding handle_defaulted
  request_handler next = do
    request ← delegate (λ request. request)
    defaulted ← on_struct lib.apply_defaults zero
    handle_defaulted next request defaulted

  unfoldable pub request_parser : (V → M ⊤) → Handler
  unfolding request_handler
  request_parser handler = request_handler handler

  unfoldable pub middleware_parser : (V → M ⊤ → M ⊤) → Middleware
  unfolding request_handler
  middleware_parser handler next = request_handler (λ parsed. handler parsed next)

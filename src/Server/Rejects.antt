-- ===== src/Server/Rejects.antt =====
-- A request that a typed middleware or handler rejects, from ServeHTTP to the access log.
use go_httpserver.Base.{◌≡◌, ap, ◌∙◌, refl, arith, Bool, none, List, [], ◌∷◌, ⊤, true}
use go_httpserver.Base.Int.{ℤ, pos, ◌≤ℤ◌}
use go_httpserver.Effect.{Panic, returned, Outcome, continue-Keeps}
use go_httpserver.State.{Request, State, M, Platform, stream_writer}
use go_httpserver.Tags.{RequestTags}
use go_httpserver.Bind.Library.{BindLibrary, Race}
use go_httpserver.Write.{write_response}
use go_httpserver.Write.Answers.{Answer, sent}
use go_httpserver.Write.Accounting.{IsServed, write_response-IsServed}
use go_httpserver.Router.{Handler, Middleware, route}
use go_httpserver.Router.Chain.{chain, dispatcher-chain}
use go_httpserver.RequestHandler.{request_handler, middleware_parser}
use go_httpserver.RequestHandler.Guards.{verdict, rejected, IsEmptyResponse}
use go_httpserver.RequestHandler.Routed.{middleware_parser-rejects, rejected_state}
use go_httpserver.Server.{responded, serve_http, recovering, access_log}
use go_httpserver.Server.Recovery.{entered}
use go_httpserver.Server.Answered.{begun}
use go_httpserver.Server.Served.{closing, logged}

-- A status with no headers and no body.
abbrev pub bare : ℤ → Answer
bare code = record { status = code; header = []; body = none }

module _ {V : Type 0} (lib : BindLibrary V) (tags : RequestTags) (zero : V) (race : Race V)
    (traces : Bool) (p : Platform) (hands_on : (e : Panic) → p.recovers e ≡ true)
    (request : Request) (s : State) (code : ℤ) (empty : s.calls ≡ [])
    (rejects : verdict lib tags request race zero ≡ rejected code)
    (willing : p.write_header [] code ≡ none) where
  abbrev next_of : (V → M ⊤ → M ⊤) → List Middleware → Handler → V → M ⊤
  next_of handler inner innermost parsed = handler parsed (chain inner innermost)

  handled :
      (handler : V → M ⊤ → M ⊤) (inner : List Middleware) (innermost : Handler)
      → (pos 400 ≤ℤ code)
        × IsEmptyResponse code (begun request s) (
            request_handler lib tags zero race traces
              (next_of handler inner innermost)
              (begun request s))
  handled handler inner innermost =
      rejected_state lib tags zero race traces p request (entered s) code refl rejects
        (rw empty willing) (next_of handler inner innermost)

  handled-IsServed :
      (out : Outcome ⊤ × State) → IsEmptyResponse code (begun request s) out → IsServed p out.1
  handled-IsServed out (returns, status, body, header, calls, marshaller, writer, stream) = record {
    accounted = λ a. ground (arith, calls, stream, empty);
    served = rw writer refl;
    held = ground (arith, stream);
  }

  route_rejected-IsServed :
      (handler : V → M ⊤ → M ⊤) (inner : List Middleware) (innermost : Handler)
      → let typed = middleware_parser lib tags zero race traces handler in
        IsServed p (route p (typed ∷ inner) innermost stream_writer request (entered s)).1
  unfolding route middleware_parser
  route_rejected-IsServed handler inner innermost =
      let typed = middleware_parser lib tags zero race traces handler in
      let out =
        request_handler lib tags zero race traces (next_of handler inner innermost)
          (begun request s) in
      rw (dispatcher-chain (typed ∷ inner) innermost) (
        continue-Keeps (IsServed p) out.0 (λ _. write_response p) (λ _. write_response-IsServed p)
          out.1 (handled-IsServed out (handled handler inner innermost).1))

  -- Take a connection on which nothing was sent, a Recover that hands every panic to its callback, and a route
  -- whose first middleware is typed and rejects the request. Then neither that middleware nor what is inside of
  -- it runs: ServeHTTP sends the status of the rejection with no headers and no body, once and nothing else, and
  -- returns; and the access log gives that status, which is at least 400, and no bytes.
  pub serve_http-rejects :
      (handler : V → M ⊤ → M ⊤) (inner : List Middleware) (innermost : Handler)
      → let typed = middleware_parser lib tags zero race traces handler in
        let (r, log, s') = serve_http p (route p (typed ∷ inner) innermost) request s in
        (s'.calls ≡ sent (bare code) [])
        × (r ≡ returned tt)
        × (log ≡ responded code 0)
        × (pos 400 ≤ℤ code)
  unfolding serve_http recovering
  serve_http-rejects handler inner innermost =
      let typed = middleware_parser lib tags zero race traces handler in
      let out = route p (typed ∷ inner) innermost stream_writer request (entered s) in
      let (lo, answer) = handled handler inner innermost in
      let (calls, ends) =
        middleware_parser-rejects lib tags zero race traces p request (entered s) code refl rejects
          (rw empty willing) handler inner innermost in
      let same : out.1.calls ≡ sent (bare code) [] = calls ∙ ap (sent (bare code)) empty in
      let served = route_rejected-IsServed handler inner innermost in
      let (kept, ended, log) =
        logged p hands_on out.0 out.1 (bare code) served same (omega arith) in
      (ap (λ t. t.calls) kept ∙ same, ended ∙ ap closing ends, ap access_log kept ∙ log, lo)

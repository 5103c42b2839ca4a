-- ===== src/RequestHandler/Routed.antt =====
-- A request that a typed middleware or handler of a route rejects.
use go_httpserver.Base.{◌≡◌, ap, ◌∙◌, inr, refl, arith, Bool, none, List, [], ◌∷◌, ⊤, true}
use go_httpserver.Base.Int.{ℤ, pos, ◌≤ℤ◌}
use go_httpserver.Effect.{returned, Outcome}
use go_httpserver.State.{Request, State, M, Platform, stream_writer}
use go_httpserver.Tags.{RequestTags}
use go_httpserver.Bind.Library.{BindLibrary, Race}
use go_httpserver.Write.Answers.{sent}
use go_httpserver.Router.{Handler, Middleware, route}
use go_httpserver.Router.Chain.{chain, dispatcher-chain}
use go_httpserver.Router.Promised.{started_from, sends_after}
use go_httpserver.RequestHandler.{request_handler, middleware_parser}
use go_httpserver.RequestHandler.Guards.{
  verdict, Verdict, rejected, accepted, broken, Follows, IsEmptyResponse, request_handler-Follows,
}

module _ {V : Type 0} (lib : BindLibrary V) (tags : RequestTags) (zero : V) (race : Race V)
    (traces : Bool) (p : Platform) (request : Request) (s : State) (code : ℤ)
    (attached : s.stream.attached ≡ true)
    (rejects : verdict lib tags request race zero ≡ rejected code)
    (willing : p.write_header s.calls code ≡ none) where
  of_verdict :
      (next : V → M ⊤) (out : Outcome ⊤ × State) (v : Verdict V)
      → v ≡ rejected code
      → Follows lib tags zero race traces next (started_from request s) out v
      → (pos 400 ≤ℤ code) × IsEmptyResponse code (started_from request s) out
  of_verdict next out (rejected c) same (lo, hi, h) =
      let equal : code ≡ c = cc in (rw equal lo, rw equal h)
  of_verdict next out (accepted v) same h = cc
  of_verdict next out (broken e) same h = cc

  pub rejected_state :
      (next : V → M ⊤)
      → (pos 400 ≤ℤ code)
        × IsEmptyResponse code
            (started_from request s)
            (request_handler lib tags zero race traces next (started_from request s))
  rejected_state next = of_verdict next _ _ rejects (
      request_handler-Follows lib tags zero race traces next (started_from request s) request refl
        (inr (refl, attached)))

  -- A request that a typed middleware rejects, whatever it stands round, is answered by the empty response with
  -- the status of the rejection and no headers, and nothing else: neither the middleware nor what is inside
  -- of it runs.
  pub middleware_parser-rejects :
      (handler : V → M ⊤ → M ⊤) (inner : List Middleware) (innermost : Handler)
      → let (r, s') =
          route p
            (middleware_parser lib tags zero race traces handler ∷ inner)
            innermost
            stream_writer
            request
            s in
        (s'.calls ≡ sent (record { status = code; header = []; body = none }) s.calls)
        × (r ≡ returned tt)
  unfolding route middleware_parser
  middleware_parser-rejects handler inner innermost =
      let next = λ (parsed : V). handler parsed (chain inner innermost) in
      let out = request_handler lib tags zero race traces next (started_from request s) in
      let (lo, (returns, status, body, header, calls, marshaller, writer, stream)) =
        rejected_state next in
      rw
        (
          dispatcher-chain (middleware_parser lib tags zero race traces handler ∷ inner) innermost,
          returns,
        )
        (sends_after p out.1 s.calls (record { status = code; header = []; body = none }) calls
          (inr (writer, ap (λ w. w.attached) stream ∙ attached))
          (rw (status, body, header, marshaller) (ground arith)) willing)

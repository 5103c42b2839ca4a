-- ===== src/Server/Panics.antt =====
-- A chain that panics, with whatever response it has set up.
use go_httpserver.Base.{◌≡◌, ◌∙◌, refl, ap, arith, true, none, List, [], ◌∷◌, ⊤}
use go_httpserver.Base.Int.{pos}
use go_httpserver.Effect.{Panic, Outcome, returned, panicked}
use go_httpserver.State.{header_sent, stream_writer, Request, State, Platform}
use go_httpserver.StreamWriter
use go_httpserver.Api.{Op, Plays}
use go_httpserver.Api.Keeps.{play-IsQuiet}
use go_httpserver.Router.{Handler, Middleware, route}
use go_httpserver.Router.Chain.{chain, dispatcher-chain}
use go_httpserver.Server.{responded, serve_http}
use go_httpserver.Server.Recovery.{entered, serve_http-uncommitted}
use go_httpserver.Server.Answered.{begun}

module _ (p : Platform) (middlewares : List Middleware) (handler : Handler) (request : Request)
    (s : State) where
  abbrev chained : Outcome ⊤ × State
  chained = chain middlewares handler (begun request s)

  -- A route whose chain panics does nothing after it.
  route_panics :
      (e : Panic)
      → chained.0 ≡ panicked e
      → route p middlewares handler stream_writer request (entered s) ≡ (panicked e, chained.1)
  unfolding route
  route_panics e panics = rw (dispatcher-chain middlewares handler) (ground (arith, panics))

  -- Take a route whose middleware and handler do with the request what a sequence of calls of the exported methods does,
  -- and then panic; a Recover that hands the panic to its callback; and an underlying writer that then takes a 500.
  -- Whatever response or takeover the calls had set up, nothing of it is sent: ServeHTTP sends an empty 500 with no
  -- headers, and nothing else, and returns; and the access log gives the 500 and no bytes.
  pub serve_http-panics :
      (ops : List Op) (e : Panic)
      → s.calls ≡ []
      → Plays p ops (chain middlewares handler) (begun request s)
      → (chain middlewares handler (begun request s)).0 ≡ panicked e
      → p.recovers e ≡ true
      → p.write_header [] (pos 500) ≡ none
      → let (r, log, s') = serve_http p (route p middlewares handler) request s in
        (r ≡ returned tt)
        × (s'.calls ≡ header_sent (pos 500) [] ∷ [])
        × (log ≡ responded (pos 500) 0)
  serve_http-panics ops e empty plays panics handed willing =
      let same = route_panics e panics in
      let quiet = play-IsQuiet p ops ([], begun request s) in
      let calls : chained.1.calls ≡ [] = ap (λ t. t.calls) plays ∙ quiet.same_calls ∙ empty in
      let stream : chained.1.stream ≡ StreamWriter.fresh =
        ap (λ t. t.stream) plays ∙ quiet.same_stream in
      let (ended, sent, log) =
        serve_http-uncommitted p (route p middlewares handler) request s e (ap (λ out. out.0) same)
          handed (rw same (ground (arith, stream))) (rw same (ground (arith, stream)))
          (rw (same, calls) willing) in
      (ended, sent ∙ rw (same, calls) refl, log ∙ rw (same, stream) refl)

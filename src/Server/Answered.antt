-- ===== src/Server/Answered.antt =====
-- That every request which reaches a route is answered, taken over or aborted.
use go_httpserver.Base.{
  ◌%◌, ◌^◌, ◌<◌, ◌≡◌, ◌⊎◌, inl, inr, refl, arith, true, false, List, [], ⊤, length,
}
use go_httpserver.Base.Int.{pos, ◌≤ℤ◌}
use go_httpserver.Effect.{
  Panic, abort_handler, Outcome, returned, panicked, continue, continue-Keeps,
}
use go_httpserver.State.{stream_writer, Request, State, Platform}
use go_httpserver.StreamWriter
use go_httpserver.StreamWriter.Accounting.{IsAccounted, first_final, total_accepted}
use go_httpserver.Context.{new_context}
use go_httpserver.Api.{Op, Plays, play}
use go_httpserver.Api.Keeps.{play-IsQuiet}
use go_httpserver.Api.Sound.{IsRecord, play-IsSound}
use go_httpserver.Write.{write_response}
use go_httpserver.Write.Accounting.{IsServed, write_response-IsServed}
use go_httpserver.Write.Settles.{IsWilling, IsOpen, IsSettled, write_response-settles}
use go_httpserver.Router.{Handler, Middleware, route}
use go_httpserver.Router.Chain.{chain, dispatcher-chain}
use go_httpserver.Server.{
  AccessLog, connection_hijacked, responded, recovered, recover_from, recovering, access_log,
  serve_http,
}
use go_httpserver.Server.Recovery.{entered}

-- ServeHTTP returned or aborted the connection. Unless the connection was taken over, which the log
-- then says, the first final status that went out is from 200 to 599, and the log tells that status and
-- the bytes of the body that were accepted.
abbrev pub IsAnswered : Platform → Outcome ⊤ × AccessLog × State → Type 0
IsAnswered p (r, log, s) =
    ((r ≡ returned tt) ⊎ (r ≡ panicked abort_handler))
    × (s.stream.attached ≡ true
        → (pos 200 ≤ℤ first_final s.calls)
          × (first_final s.calls ≤ℤ pos 599)
          × (log ≡ responded (first_final s.calls) (total_accepted p s.calls % 2 ^ 64)))
    × (s.stream.attached ≡ false → log ≡ connection_hijacked)

-- The state in which the chain of a route starts.
abbrev pub begun : Request → State → State
begun request s = record (entered s) { context = new_context request stream_writer }

module _ (p : Platform) where
  -- The state after a chain that only uses its Context and its Responses.
  played-IsOpen :
      (request : Request) (s s' : State) (ops : List Op)
      → s' ≡ (play p ops ([], begun request s)).1
      → IsOpen s'
  played-IsOpen request s s' ops same =
      let quiet = play-IsQuiet p ops ([], begun request s) in
      ground (arith, same, quiet.same_stream, quiet.same_writer)

  pub played-IsRecord :
      (request : Request) (s s' : State) (ops : List Op)
      → length ops < 2 ^ 64
      → s' ≡ (play p ops ([], begun request s)).1
      → IsRecord s'.context.status s'.context.marshaller s'.context.body
  played-IsRecord request s s' ops room same =
      rw same
        (play-IsSound p ops [] (begun request s) (record { recorded = inl refl; behind = tt })
          (omega arith)).recorded

  pub played-IsServed :
      (request : Request) (s s' : State) (ops : List Op)
      → s.calls ≡ []
      → s' ≡ (play p ops ([], begun request s)).1
      → IsServed p s'
  played-IsServed request s s' ops empty same =
      let quiet = play-IsQuiet p ops ([], begun request s) in
      record {
        accounted = λ a. ground (arith, same, quiet.same_stream, quiet.same_calls);
        served = ground (arith, same, quiet.same_writer);
        held = ground (arith, same, quiet.same_stream);
      }

module _ (p : Platform) (willing : IsWilling p) (hands_on : (e : Panic) → p.recovers e ≡ true) where
  recover_from-answers :
      (r : Outcome ⊤) (s : State)
      → IsSettled (r, s)
      → IsAccounted p s
      → let (r', s') = recover_from p r (recovered p) s in IsAnswered p (r', access_log s', s')
  unfolding recover_from recovered access_log StreamWriter.header StreamWriter.write_header
  recover_from-answers (returned _) s (inl committed) accounted =
      (inl refl, λ a. ground (arith, committed, accounted), λ a. ground arith)
  recover_from-answers (panicked e) s (inl committed) accounted = (
    inr (ground (arith, committed, hands_on e)),
    λ a. ground (arith, committed, accounted, hands_on e),
    λ a. ground (arith, hands_on e),
  )
  recover_from-answers r s (inr (e, panics, attached, no_status)) accounted = (
    inl (ground (arith, hands_on e, willing s.calls (pos 500))),
    λ a. ground (arith, accounted, hands_on e, willing s.calls (pos 500)),
    λ a. ground (arith, hands_on e, willing s.calls (pos 500)),
  )

  written-IsSettled :
      (r : Outcome ⊤) (s : State)
      → IsOpen s
      → IsRecord s.context.status s.context.marshaller s.context.body
      → IsSettled (continue r (λ _. write_response p) s)
  written-IsSettled (returned _) s o h = write_response-settles p willing s o h
  written-IsSettled (panicked e) s o h = inr (e, refl, o.1, o.2)

  -- Take any route whose middleware and handler do with the request what a sequence of calls of the
  -- exported methods of Context and Response does, in which a call may panic and the chain may end in
  -- a panic; a connection on which nothing was sent; an underlying writer that does not panic on a status
  -- from 200 to 599; and a Recover that hands every panic to its callback. Then ServeHTTP returns or
  -- aborts the connection. Unless the connection was taken over, and the log says so, a first final
  -- status from 200 to 599 was sent, and the log gives that status and the accepted body bytes modulo 2^64.
  pub serve_http-answers :
      (middlewares : List Middleware) (handler : Handler) (request : Request) (s : State)
      (ops : List Op)
      → s.calls ≡ []
      → length ops < 2 ^ 64
      → Plays p ops (chain middlewares handler) (begun request s)
      → IsAnswered p (serve_http p (route p middlewares handler) request s)
  unfolding serve_http recovering route
  serve_http-answers middlewares handler request s ops empty room plays =
      rw (dispatcher-chain middlewares handler) (
        let (r, s') = chain middlewares handler (begun request s) in
        let out = continue r (λ _. write_response p) s' in
        recover_from-answers out.0 out.1
          (written-IsSettled r s' (played-IsOpen p request s s' ops plays)
            (played-IsRecord p request s s' ops room plays))
          (continue-Keeps (IsServed p) r (λ _. write_response p) (λ _. write_response-IsServed p) s'
            (played-IsServed p request s s' ops empty plays)).accounted)

-- ===== src/Server/Served.antt =====
-- What a connection sees of a request, and what the log says, from ServeHTTP to the promise that the chain left.
use go_httpserver.Base.{
  ◌%◌, ◌^◌, ◌<◌, ◌≡◌, ◌∙◌, refl, ap, arith, true, false, none, some, List, [], ⊤, length,
}
use go_httpserver.Base.Int.{ℤ, pos, ◌≤ℤ◌}
use go_httpserver.Effect.{Panic, abort_handler, Outcome, returned, panicked, continue-Keeps}
use go_httpserver.State.{
  Header, stream_writer, Request, State, Platform, Marshaller, Body, direct, json, nil, bytes,
  string, stream, takeover, other,
}
use go_httpserver.StreamWriter
use go_httpserver.StreamWriter.Attached.{is_asked}
use go_httpserver.StreamWriter.Accounting.{first_final, total_accepted}
use go_httpserver.Api.{Op, Plays, play}
use go_httpserver.Api.Sound.{IsRecord}
use go_httpserver.Api.Promise.{promise_play}
use go_httpserver.Write.{write_response}
use go_httpserver.Write.Accounting.{IsServed, write_response-IsServed}
use go_httpserver.Write.Answers.{Answer, answer_of, outcome_of, sent}
use go_httpserver.Router.{Handler, Middleware, route}
use go_httpserver.Router.Chain.{chain, dispatcher-chain}
use go_httpserver.Router.Promised.{promised, blank, played, played-answer, route-promised}
use go_httpserver.Server.{responded, recovered, recover_from, recovering, access_log, serve_http}
use go_httpserver.Server.Recovery.{entered}
use go_httpserver.Server.Answered.{begun, played-IsServed, played-IsRecord}

-- Only an answer whose body was not sent whole aborts the connection.
abbrev pub closing : Outcome ⊤ → Outcome ⊤
closing (returned _) = returned tt
closing (panicked _) = panicked abort_handler

sent_unasked : (a : Answer) → is_asked (sent a []) ≡ false
sent_unasked a = ground arith

first_final-sent : (a : Answer) → pos 200 ≤ℤ a.status → first_final (sent a []) ≡ a.status
first_final-sent a final = ground arith

-- The status of an answer is that of the response, or 500.
answer_of_final :
    (p : Platform) (c : ℤ) (m : Marshaller) (b : Body) (h : Header) (a : Answer)
    → IsRecord c m b
    → answer_of p c m b h ≡ some a
    → pos 200 ≤ℤ a.status
answer_of_final p c direct nil h a r is = ground arith
answer_of_final p c direct (takeover b) h a r is = absurd (ground arith)
answer_of_final p c direct (bytes b) h a r is = ground arith
answer_of_final p c direct (string b) h a r is = ground arith
answer_of_final p c direct (stream b) h a r is = absurd (ground arith)
answer_of_final p c direct (other b) h a r is = ground arith
answer_of_final p c json b h a r is = ground arith

module _ (p : Platform) (hands_on : (e : Panic) → p.recovers e ≡ true) where
  pub logged :
      (r : Outcome ⊤) (s : State) (a : Answer)
      → IsServed p s
      → s.calls ≡ sent a []
      → pos 200 ≤ℤ a.status
      → let (r', s') = recover_from p r (recovered p) s in
        (s' ≡ s)
        × (r' ≡ closing r)
        × (access_log s ≡ responded a.status (total_accepted p (sent a []) % 2 ^ 64))
  unfolding recover_from recovered access_log StreamWriter.header StreamWriter.write_header
  logged r s a served same final =
      let attached : s.stream.attached ≡ true =
        ground (arith, served.held, ap is_asked same, sent_unasked a) in
      let (status, count) = served.accounted attached in
      let code : s.stream.status ≡ a.status =
        status ∙ ap first_final same ∙ first_final-sent a final in
      let counted : s.stream.bytes_written ≡ total_accepted p (sent a []) % 2 ^ 64 =
        count ∙ ap (λ cs. total_accepted p cs % 2 ^ 64) same in
      after r attached code counted
    where
      after :
          (r : Outcome ⊤)
          → s.stream.attached ≡ true
          → s.stream.status ≡ a.status
          → s.stream.bytes_written ≡ total_accepted p (sent a []) % 2 ^ 64
          → let (r', s') = recover_from p r (recovered p) s in
            (s' ≡ s)
            × (r' ≡ closing r)
            × (access_log s ≡ responded a.status (total_accepted p (sent a []) % 2 ^ 64))
      after (returned _) attached code counted = (refl, refl, rw (attached, code, counted) refl)
      after (panicked e) attached code counted = (
        ground (arith, hands_on e),
        ground (arith, hands_on e),
        rw (attached, code, counted) refl,
      )

  route-IsServed :
      (middlewares : List Middleware) (handler : Handler) (request : Request) (s : State)
      (ops : List Op)
      → s.calls ≡ []
      → Plays p ops (chain middlewares handler) (begun request s)
      → IsServed p (route p middlewares handler stream_writer request (entered s)).1
  unfolding route
  route-IsServed middlewares handler request s ops empty plays =
      let (r, s') = chain middlewares handler (begun request s) in
      rw (dispatcher-chain middlewares handler) (
        continue-Keeps (IsServed p) r (λ _. write_response p) (λ _. write_response-IsServed p) s'
          (played-IsServed p request s s' ops empty plays))

  promised_final :
      (request : Request) (s : State) (ops : List Op) (a : Answer)
      → length ops < 2 ^ 64
      → let q = (promise_play p ops (blank s)).1 in
        promised p q.pending q.header ≡ some a → pos 200 ≤ℤ a.status
  unfolding played
  promised_final request s ops a room is =
      let t = (play p ops ([], begun request s)).1 in
      answer_of_final p t.context.status t.context.marshaller t.context.body t.header a
        (played-IsRecord p request s t ops room refl)
        (played-answer p ops request (entered s) a refl room is)

  -- Take a request on a connection on which nothing was sent, for a route whose middleware and handler return and
  -- do what a sequence of calls of the exported methods does; an underlying writer that takes the status; and a
  -- Recover that hands every panic to its callback. If the promise that the calls leave comes to an answer, then
  -- ServeHTTP sends exactly that answer, once and nothing else; it returns, or aborts the connection if the body
  -- could not be written; and the access log gives the status of the answer and the bytes of it that were
  -- accepted, modulo 2^64.
  pub serve_http-promised :
      (middlewares : List Middleware) (handler : Handler) (request : Request) (s : State)
      (ops : List Op) (a : Answer)
      → s.calls ≡ []
      → length ops < 2 ^ 64
      → (chain middlewares handler (begun request s)).0 ≡ returned tt
      → Plays p ops (chain middlewares handler) (begun request s)
      → let q = (promise_play p ops (blank s)).1 in
        promised p q.pending q.header ≡ some a
        → p.write_header [] a.status ≡ none
        → let (r, log, s') = serve_http p (route p middlewares handler) request s in
          (s'.calls ≡ sent a [])
          × (r ≡ closing (outcome_of p a []))
          × (log ≡ responded a.status (total_accepted p (sent a []) % 2 ^ 64))
  unfolding serve_http recovering
  serve_http-promised middlewares handler request s ops a empty room returns plays is willing =
      let out = route p middlewares handler stream_writer request (entered s) in
      let (calls, ends) =
        route-promised p ops request (entered s) middlewares handler a refl room returns plays is
          (rw empty willing) in
      let same : out.1.calls ≡ sent a [] = calls ∙ ap (sent a) empty in
      let (kept, ended, log) =
        logged out.0 out.1 a (route-IsServed middlewares handler request s ops empty plays) same
          (promised_final request s ops a room is) in
      (
        ap (λ t. t.calls) kept ∙ same,
        ended ∙ ap closing (ends ∙ ap (outcome_of p a) empty),
        ap access_log kept ∙ log,
      )

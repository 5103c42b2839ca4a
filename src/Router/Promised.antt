-- ===== src/Router/Promised.antt =====
-- What a route sends, in terms of the promise that its middleware and handler leave.
use go_httpserver.Base.{
  ◌^◌, ◌<◌, ◌≡◌, inl, refl, ap, ◌∙◌, arith, true, Option, none, some, List, [], length,
}
use go_httpserver.Base.Int.{ℤ}
use go_httpserver.Effect.{returned}
use go_httpserver.State.{
  Header, Body, nil, bytes, string, stream, takeover, other, Marshaller, direct, json,
  stream_writer, Request, Call, State, Platform,
}
use go_httpserver.Context.{new_context}
use go_httpserver.Api.{Op, Plays, play}
use go_httpserver.Api.Keeps.{play-IsQuiet}
use go_httpserver.Api.Sound.{IsSound, IsRecord, play-IsSound}
use go_httpserver.Api.Handles.{HasWriter}
use go_httpserver.Api.Promise.{Promise, Pending, nothing, answer, taken, promise_play}
use go_httpserver.Api.View.{pending_of}
use go_httpserver.Api.Refines.{play-refines}
use go_httpserver.Write.{write_response}
use go_httpserver.Write.Answers.{
  Answer, empty_500, answer_of, outcome_of, sent, write_response-sends,
}
use go_httpserver.Router.{Handler, Middleware, route}
use go_httpserver.Router.Chain.{chain, dispatcher-chain}

-- The answer that a promise comes to; `none` for a stream, a takeover and a json.Marshal that panics.
abbrev pub promised : Platform → Pending → Header → Option Answer
promised p nothing h = some empty_500
promised p (answer code m b) h = answer_of p code m b h
promised p (taken b) h = none

answer_of-pending_of :
    (p : Platform) (c : ℤ) (m : Marshaller) (b : Body) (h : Header)
    → IsRecord c m b
    → answer_of p c m b h ≡ promised p (pending_of c m b) h
answer_of-pending_of p c direct nil h r = ground arith
answer_of-pending_of p c direct (takeover b) h r = ground (arith, r)
answer_of-pending_of p c direct (bytes b) h r = ground (arith, r)
answer_of-pending_of p c direct (string b) h r = ground (arith, r)
answer_of-pending_of p c direct (stream b) h r = ground (arith, r)
answer_of-pending_of p c direct (other b) h r = ground (arith, r)
answer_of-pending_of p c json b h r = ground (arith, r)

pub sends_after :
    (p : Platform) (t : State) (cs : List Call) (a : Answer)
    → t.calls ≡ cs
    → HasWriter t
    → answer_of p t.context.status t.context.marshaller t.context.body t.header ≡ some a
    → p.write_header cs a.status ≡ none
    → ((write_response p t).1.calls ≡ sent a cs) × ((write_response p t).0 ≡ outcome_of p a cs)
sends_after p t cs a same w is willing =
    let (calls, ends) = write_response-sends p t a w is (rw same willing) in
    (calls ∙ ap (sent a) same, ends ∙ ap (outcome_of p a) same)

-- The promise at the start of a route: nothing, no handle, and the headers of the connection.
abbrev pub blank : State → Promise
blank s = record { pending = nothing; header = s.header; handles = [] }

-- The state in which the chain starts.
abbrev pub started_from : Request → State → State
started_from request s = record s { context = new_context request stream_writer }

module _ (p : Platform) (ops : List Op) (request : Request) (s : State) where
  unfoldable pub played : State
  played = (play p ops ([], started_from request s)).1

  fresh-IsSound : IsSound ([], started_from request s)
  fresh-IsSound = record { recorded = inl refl; behind = tt }

  pub played-answer :
      (a : Answer)
      → s.stream.attached ≡ true
      → length ops < 2 ^ 64
      → let q = (promise_play p ops (blank s)).1 in
        promised p q.pending q.header ≡ some a
        → answer_of p played.context.status played.context.marshaller played.context.body
            played.header
          ≡ some a
  unfolding played
  played-answer a attached room is =
      let start = started_from request s in
      let sound = play-IsSound p ops [] start fresh-IsSound (omega arith) in
      let same = play-refines p ops [] start fresh-IsSound (ground arith) (omega arith) in
      let q = ap (λ x. promised p x.1.pending x.1.header) same in
      answer_of-pending_of p _ _ _ _ sound.recorded ∙ q ∙ is

  -- Take a route whose middleware and handler return and do what a sequence of calls of the exported
  -- methods does, and a StreamWriter that is attached and sends the status. If the promise that the calls
  -- leave comes to an answer, the route sends exactly that answer, once and after nothing else, and ends as
  -- the sending of the body does; an empty 500 is the answer of a promise of nothing.
  pub route-promised :
      (middlewares : List Middleware) (handler : Handler) (a : Answer)
      → s.stream.attached ≡ true
      → length ops < 2 ^ 64
      → (chain middlewares handler (started_from request s)).0 ≡ returned tt
      → Plays p ops (chain middlewares handler) (started_from request s)
      → let q = (promise_play p ops (blank s)).1 in
        promised p q.pending q.header ≡ some a
        → p.write_header s.calls a.status ≡ none
        → let (r, s') = route p middlewares handler stream_writer request s in
          (s'.calls ≡ sent a s.calls) × (r ≡ outcome_of p a s.calls)
  unfolding route played
  route-promised middlewares handler a attached room returns plays is willing =
      let quiet = play-IsQuiet p ops ([], started_from request s) in
      rw (dispatcher-chain middlewares handler, returns, plays)
        (sends_after p played s.calls a quiet.same_calls
          (ground (arith, quiet.same_writer, quiet.same_stream)) (played-answer a attached room is)
          willing)

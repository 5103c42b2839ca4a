-- ===== src/Examples/Responses.antt =====
-- Routes, responses and takeovers.
use go_httpserver.Base.{
  ℕ, ◌≡◌, refl, arith, inl, inr, none, some, List, [], ◌∷◌, ◌++◌, map, true, false, Option, String,
}
use go_httpserver.Base.Int.{ℤ, pos, ◌≤ℤ◌}
use go_httpserver.Effect.{
  Error, Panic, returned, panicked, raised, nil_dereference, panic, ◌>>=◌, ◌>>◌,
}
use go_httpserver.State.{
  State, Stream, Takeover, Body, nil, stream, takeover, bytes, body_sent, header_sent, closed,
  exchanged, hijack_asked,
}
use go_httpserver.StreamWriter
use go_httpserver.StreamWriter.Accounting.{run-IsAccounted, IsAccounted}
use go_httpserver.Context
use go_httpserver.Context.{
  Response, zero_response, new_response, hijack, hijacked, response, on_context, bump,
}
use go_httpserver.Response.{json_body, check}
use go_httpserver.Api.{Op, Session, at, play, step, perform}
use go_httpserver.Api.Sound.{IsSound, play-IsSound}
use go_httpserver.Api.Handles.{IsRefused, new_response_renews, hijack_discards, stale_stays_stale}
use go_httpserver.Write.{controller_hijack, write_response, release, run_takeover}
use go_httpserver.Write.Answers.{write_response-sends}
use go_httpserver.Write.Takeovers.{given_up, settled, write_response-takes_over}
use go_httpserver.Write.Streams.{Extends, streaming, aborted, write_response-streams}
use go_httpserver.Router.{
  Middleware, Handler, HandlerFunc, Router, ServeMux, handle, route, dispatcher, group, with_logger,
}
use go_httpserver.Router.Chain.{chain, dispatcher-chain, route-group}
use go_httpserver.Router.Registering.{logged_as, handle-group}
use go_httpserver.Server.{serve_http, responded}
use go_httpserver.Server.Recovery.{serve_http-uncommitted}
use go_httpserver.Server.Panics.{serve_http-panics}
use go_httpserver.Server.Answered.{IsAnswered, serve_http-answers}
use go_httpserver.State.{direct}
use go_httpserver.Examples.{obliging, get, idle, started}

-- A handler that answers with JSON, and a middleware that replaces what it finds by a 503.
abbrev pub answer_json : Handler
answer_json = do r ← new_response (pos 201); json_body r (bytes [])

abbrev pub replace : Middleware
replace next = do next; new_response (pos 503); λ s. (returned tt, s)

abbrev both : List Op
both = Op.new_response (pos 201) ∷ Op.json_body 0 (bytes []) ∷ Op.new_response (pos 503) ∷ []

serve_http-answers_example :
    IsAnswered obliging (serve_http obliging (route obliging (replace ∷ []) answer_json) get idle)
unfolding play step perform new_response json_body Context.writer_header
serve_http-answers_example =
    serve_http-answers obliging (λ cs code lo hi. refl) (λ e. refl) (replace ∷ []) answer_json get
      idle both refl (omega arith) refl

abbrev responding : Body → State
responding b = record started {
  context = record started.context { status = pos 200; body = b; ticket = 1 };
}

-- A Context with a response whose handle is the only one given out.
abbrev answered : Session
answered = (record { ctx = true; ticket = 1 } ∷ [], responding (bytes (7 ∷ [])))

answered-IsSound : IsSound answered
answered-IsSound = record {
  recorded = (omega arith, omega arith);
  behind = (λ e. (omega arith, λ same. ground arith), tt);
}

write_response-sends_example :
    ((write_response obliging (responding (bytes (7 ∷ [])))).1.calls
      ≡ body_sent (7 ∷ []) ∷ header_sent (pos 200) [] ∷ [])
    × ((write_response obliging (responding (bytes (7 ∷ [])))).0 ≡ returned tt)
write_response-sends_example =
    write_response-sends obliging (responding (bytes (7 ∷ [])))
      (record { status = pos 200; header = []; body = some (7 ∷ []) }) (inr (refl, refl)) refl refl

play-IsSound_example : IsSound (play obliging both ([], started))
play-IsSound_example =
    play-IsSound obliging both [] started (record { recorded = inl refl; behind = tt })
      (omega arith)

new_response_renews_example :
    let (r, s') = new_response (pos 404) answered.1 in
    (r ≡ returned (record { ctx = true; ticket = s'.context.ticket }))
    × (check (record { ctx = true; ticket = s'.context.ticket }) s' ≡ (returned tt, s'))
    × (s'.context.status ≡ pos 404)
    × (s'.context.body ≡ nil)
    × (s'.context.marshaller ≡ direct)
    × (s'.header ≡ [])
    × ((i : ℕ) → IsRefused (at answered.0 i) s')
new_response_renews_example =
    new_response_renews answered.0 answered.1 (pos 404) answered-IsSound (inr (refl, refl))
      (omega arith) (omega arith) (omega arith)

-- A takeover that sends two bytes and then fails.
abbrev echo : Takeover
echo = Takeover.exchange (1 ∷ 2 ∷ []) (λ back. Takeover.done (some (Error.failure 3)))

hijack_discards_example :
    let (r, s') = hijack (some echo) answered.1 in
    (r ≡ returned tt)
    × (s'.context.body ≡ takeover echo)
    × (s'.context.marshaller ≡ direct)
    × (s'.context.status ≡ pos 0)
    × (hijacked s' ≡ (returned true, s'))
    × (response s' ≡ (returned (zero_response, false), s'))
    × ((i : ℕ) → IsRefused (at answered.0 i) s')
hijack_discards_example = hijack_discards answered.0 answered.1 echo answered-IsSound (omega arith)

stale_stays_stale_example :
    IsRefused (record { ctx = true; ticket = 0 }) (play obliging both ([], answered.1)).1
stale_stays_stale_example =
    stale_stays_stale obliging both [] (record started.context { status = pos 200 })
      (record { ctx = true; ticket = 0 }) answered.1 (λ e. (omega arith, λ same. ground arith))
      (omega arith) (omega arith)

abbrev hijacking : State
hijacking = record started { context = record started.context { body = takeover echo; ticket = 1 } }

write_response-takes_over_example :
    let (r, s') = write_response obliging hijacking in
    let asked = (controller_hijack obliging (on_context bump hijacking)).1 in
    (outs : List (List ℕ)) × (s'.calls ≡ closed ∷ map exchanged outs ++ hijack_asked ∷ [])
    × (s'.context ≡ given_up (bump hijacking.context))
    × (r ≡ settled (run_takeover obliging echo (on_context given_up asked)).0)
unfolding controller_hijack StreamWriter.hijack
write_response-takes_over_example = write_response-takes_over obliging hijacking echo refl refl refl

-- A stream that sends a byte, flushes and fails.
abbrev tick : Stream
tick = Stream.write (1 ∷ []) (λ n err. Stream.flush (Stream.done (some (Error.failure 4))))

write_response-streams_example :
    let (r, s') = write_response obliging (responding (stream tick)) in
    Extends (header_sent (pos 200) [] ∷ []) s'.calls
    × (s'.context ≡ release (bump (responding (stream tick)).context))
    × (r
        ≡ aborted
            (StreamWriter.run obliging tick (streaming obliging (responding (stream tick)))).0)
    × (s' ≡ (StreamWriter.run obliging tick (streaming obliging (responding (stream tick)))).1)
    × (write_response obliging s' ≡ (returned tt, s'))
    × ((code : ℤ)
        → pos 200 ≤ℤ code
        → code ≤ℤ pos 599
        → (new_response code s').0 ≡ panicked nil_dereference)
write_response-streams_example =
    write_response-streams obliging (responding (stream tick)) tick (inr (refl, refl)) refl refl
      refl

run-IsAccounted_example : IsAccounted obliging (StreamWriter.run obliging tick started).1
run-IsAccounted_example = run-IsAccounted obliging tick started (λ a. (refl, refl))

-- A ServeMux that panics at once.
abbrev panics_at_once : HandlerFunc
panics_at_once writer request = panic (raised 5)

serve_http-uncommitted_example :
    let (r, log, s') = serve_http obliging panics_at_once get idle in
    (r ≡ returned tt) × (s'.calls ≡ header_sent (pos 500) [] ∷ []) × (log ≡ responded (pos 500) 0)
serve_http-uncommitted_example =
    serve_http-uncommitted obliging panics_at_once get idle (raised 5) refl refl refl refl refl

dispatcher-chain_example :
    dispatcher (replace ∷ replace ∷ []) answer_json 2 0 ≡ replace (replace answer_json)
dispatcher-chain_example = dispatcher-chain (replace ∷ replace ∷ []) answer_json

abbrev plain : Router
plain = record { logger = none; middlewares = replace ∷ [] }

route-group_example :
    (route obliging (group plain (replace ∷ [])).middlewares answer_json
      ≡ route obliging plain.middlewares (replace answer_json))
    × (group (group plain (replace ∷ [])) [] ≡ group plain (replace ∷ []))
    × (route obliging (with_logger plain (some 1)).middlewares answer_json
        ≡ route obliging plain.middlewares answer_json)
route-group_example = route-group obliging plain (replace ∷ []) [] (some 1) answer_json

abbrev refuse_none : ServeMux → String → Option Panic
refuse_none mux pattern = none

abbrev logging : Router
logging = with_logger plain (some 1)

handle-group_example :
    let registered =
      handle obliging
        (λ m. none)
        (λ h. none)
        refuse_none
        (group logging (replace ∷ []))
        "GET /"
        answer_json
        [] in
    (registered.0 ≡ returned tt)
    × (registered.2
        ≡ ("GET /", route obliging plain.middlewares (chain (replace ∷ []) answer_json)) ∷ [])
    × (registered.1
        ≡ logged_as (λ m. none) (λ h. none) (some 1) (replace ∷ replace ∷ []) "GET /" answer_json)
unfolding with_logger
handle-group_example =
    handle-group obliging (λ m. none) (λ h. none) refuse_none logging (replace ∷ []) "GET /"
      answer_json [] refl

-- A handler that sets up a JSON response and panics.
abbrev answer_and_panic : Handler
answer_and_panic = do answer_json; panic (raised 5)

abbrev set_up : List Op
set_up = Op.new_response (pos 201) ∷ Op.json_body 0 (bytes []) ∷ []

serve_http-panics_example :
    let (r, log, s') = serve_http obliging (route obliging [] answer_and_panic) get idle in
    (r ≡ returned tt) × (s'.calls ≡ header_sent (pos 500) [] ∷ []) × (log ≡ responded (pos 500) 0)
unfolding play step perform new_response json_body Context.writer_header
serve_http-panics_example =
    serve_http-panics obliging [] answer_and_panic get idle set_up (raised 5) refl refl refl refl
      refl

-- ===== src/Examples/Promises.antt =====
-- Calls of an application against the promise, and what routes then send.
use go_httpserver.Server.{serve_http, responded}
use go_httpserver.Server.Rejects.{bare, serve_http-rejects}
use go_httpserver.Server.Served.{closing, serve_http-promised}
use go_httpserver.StreamWriter.Accounting.{total_accepted}
use go_httpserver.Base.{◌%◌, ◌^◌, ℕ, ◌≡◌, refl, arith, inl, some, List, [], ◌∷◌, true}
use go_httpserver.Examples.{idle, obliging, get, started}
use go_httpserver.Base.Int.{pos, ◌≤ℤ◌}
use go_httpserver.Effect.{Error, returned, bug}
use go_httpserver.State.{bytes}
use go_httpserver.Api.{Op, play}
use go_httpserver.Api.Promise.{done, panics, promise_play}
use go_httpserver.Api.View.{view, replies}
use go_httpserver.Api.Refines.{play-refines}
use go_httpserver.Write.Answers.{Answer, sent, outcome_of}
use go_httpserver.Router.{route}
use go_httpserver.RequestHandler.{middleware_parser}
use go_httpserver.Bind
use go_httpserver.Bind.Library.{BindLibrary, binder_done}
use go_httpserver.Examples.Responses.{answer_json, replace}
use go_httpserver.Examples.Requests.{counting, query_and_json, post}

-- A response, one that replaces it, and the use of a handle of either.
abbrev replaced : List Op
replaced =
    Op.new_response (pos 201)
    ∷ Op.new_response (pos 404)
    ∷ Op.bytes_body 1 (1 ∷ [])
    ∷ Op.bytes_body 0 (2 ∷ [])
    ∷ []

replaced-replies :
    replies obliging replaced ([], started)
    ≡ done ∷ done ∷ panics (bug "BUG: stale response handle") ∷ done ∷ []
unfolding replies
replaced-replies = refl

play-refines_example :
    (replies obliging replaced ([], started), view (play obliging replaced ([], started)))
    ≡ promise_play obliging replaced (view ([], started))
play-refines_example =
    play-refines obliging replaced [] started (record { recorded = inl refl; behind = tt })
      (ground arith) (omega arith)

abbrev answers : List Op
answers = Op.new_response (pos 201) ∷ Op.json_body 0 (bytes []) ∷ []

abbrev created : Answer
created = record {
  status = pos 201;
  header = ("Content-Type", "application/json; charset=utf-8" ∷ []) ∷ [];
  body = some (b'{' ∷ b'}' ∷ []);
}

serve_http-promised_example :
    let (r, log, s') = serve_http obliging (route obliging [] answer_json) get idle in
    (s'.calls ≡ sent created [])
    × (r ≡ closing (outcome_of obliging created []))
    × (log ≡ responded (pos 201) (total_accepted obliging (sent created []) % 2 ^ 64))
unfolding play promise_play
serve_http-promised_example =
    serve_http-promised obliging (λ e. refl) [] answer_json get idle answers created refl
      (omega arith) refl refl refl refl

-- The same library, with a validation that no struct passes.
abbrev strict : BindLibrary ℕ
strict = record counting { validate_struct = λ v. some (Error.failure 8) }

serve_http-rejects_example :
    let typed = middleware_parser strict query_and_json 0 binder_done true (λ v next. next) in
    let (r, log, s') =
      serve_http obliging (route obliging (typed ∷ replace ∷ []) answer_json) post idle in
    (s'.calls ≡ sent (bare (pos 400)) [])
    × (r ≡ returned tt)
    × (log ≡ responded (pos 400) 0)
    × (pos 400 ≤ℤ pos 400)
unfolding Bind.parse Bind.bind_query Bind.parse_body Bind.bind_body_of_type
serve_http-rejects_example =
    serve_http-rejects strict query_and_json 0 binder_done true obliging (λ e. refl) post idle
      (pos 400) refl refl refl (λ v next. next) (replace ∷ []) answer_json

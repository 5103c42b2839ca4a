-- ===== src/Api.antt =====
-- The code of an application, seen from the package: a sequence of calls of the exported methods of
-- Context (context.go) and Response (response.go). A call may panic, and the code may recover from
-- that and go on. A Response can only be had from a call, so one is named by the place at which the
-- calls have handed it out, the latest at 0; a place with none is the zero Response.
pub mod Keeps
pub mod Promise
pub mod View
pub mod Refines
pub mod Sound
pub mod Handles
use go_httpserver.Base.{ℕ, Option, none, some, List, [], ◌∷◌, ⊤, get_elem?, ◌≡◌}
use go_httpserver.Base.Int.{ℤ}
use go_httpserver.Effect.{pure, Outcome, returned, panicked, ◌>>=◌, ◌>>◌}
use go_httpserver.State.{Header, Stream, Takeover, Body, Request, State, M, Platform}
use go_httpserver.Context.{Response, zero_response}
use go_httpserver.Context
use go_httpserver.Response

pub data Op : Type 0 where
  new_response : ℤ → Op
  hijack : Option Takeover → Op
  response hijacked delegate : Op
  status header body marshal_zerolog_object : ℕ → Op
  change_header : (Header → Header) → ℕ → Op
  cookie : ℕ → ℕ → Op
  bytes_body string_body plain_text_body octets_body : ℕ → List ℕ → Op
  stream_body : ℕ → Stream → Op
  json_body : ℕ → Body → Op

abbrev pub Handles : Type 0
Handles = List Response

abbrev found : Option Response → Response
found none = zero_response
found (some r) = r

abbrev pub at : Handles → ℕ → Response
at hs i = found (get_elem? hs i)

-- One call: the handles that there are afterwards.
unfoldable pub perform : Platform → Op → Handles → M Handles
unfolding Context.new_response Context.hijack Context.response Context.hijacked Context.delegate
    Response.status Response.header Response.body Response.marshal_zerolog_object
    Response.change_header Response.cookie Response.bytes_body Response.string_body
    Response.plain_text_body Response.octets_body Response.stream_body Response.json_body
perform p (new_response code) hs = do r ← Context.new_response code; pure (r ∷ hs)
perform p (hijack b) hs = do Context.hijack b; pure hs
perform p response hs = do r ← Context.response; pure (r.0 ∷ hs)
perform p hijacked hs = do Context.hijacked; pure hs
perform p delegate hs = do Context.delegate (λ request. request); pure hs
perform p (status i) hs = do Response.status (at hs i); pure hs
perform p (header i) hs = do Response.header (at hs i); pure hs
perform p (body i) hs = do Response.body (at hs i); pure hs
perform p (marshal_zerolog_object i) hs = do Response.marshal_zerolog_object (at hs i); pure hs
perform p (change_header f i) hs = do Response.change_header f (at hs i); pure hs
perform p (cookie i c) hs = do Response.cookie p (at hs i) c; pure hs
perform p (bytes_body i b) hs = do Response.bytes_body (at hs i) b; pure hs
perform p (string_body i b) hs = do Response.string_body (at hs i) b; pure hs
perform p (plain_text_body i b) hs = do Response.plain_text_body p (at hs i) b; pure hs
perform p (octets_body i b) hs = do Response.octets_body p (at hs i) b; pure hs
perform p (stream_body i b) hs = do Response.stream_body (at hs i) b; pure hs
perform p (json_body i b) hs = do Response.json_body (at hs i) b; pure hs

-- The handles after a call: those before, if it panicked.
abbrev handles_after : Handles → Outcome Handles → Handles
handles_after hs (returned hs') = hs'
handles_after hs (panicked _) = hs

abbrev pub Session : Type 0
Session = Handles × State

unfoldable pub step : Platform → Op → Session → Session
unfolding perform
step p op (hs, s) = let (r, s') = perform p op hs s in (handles_after hs r, s')

unfoldable pub play : Platform → List Op → Session → Session
unfolding step
play p [] session = session
play p (op ∷ ops) session = play p ops (step p op session)

-- The handler's effect is that of a sequence of calls, by code that starts with no handle.
abbrev pub Plays : Platform → List Op → M ⊤ → State → Type 0
Plays p ops m s = (m s).1 ≡ (play p ops ([], s)).1

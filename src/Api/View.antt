-- ===== src/Api/View.antt =====
-- What an application sees of its Context and its Responses, and the promise that they stand for.
use go_httpserver.Base.{ℕ, zero, suc, ◌≡◌, ◌==◌, refl, not, List, [], ◌∷◌, if◌then◌else◌}
use go_httpserver.Base.Int.{ℤ, is_zero_ℤ}
use go_httpserver.Effect.{Outcome, returned, panicked}
use go_httpserver.State.{Body, takeover, Marshaller, Platform}
use go_httpserver.Context
use go_httpserver.Response
use go_httpserver.Context.{Response}
use go_httpserver.Api.{Op, Handles, Session, at, perform, step, play}
use go_httpserver.Api
use go_httpserver.Api.Promise.{
  Pending, nothing, answer, taken, Handle, live, stale, Promise, Reply, panics, done, code, map_of,
  content, flag, log, handle_at,
}

abbrev taken_of : Body → Pending
taken_of (takeover b) = taken b
taken_of _ = nothing

abbrev pub pending_of : ℤ → Marshaller → Body → Pending
pending_of c m b = if is_zero_ℤ c then taken_of b else answer c m b

abbrev pub view_handle : ℕ → Response → Handle
view_handle ticket r = if not r.ctx then Handle.zero else if r.ticket == ticket then live else stale

abbrev pub views : ℕ → Handles → List Handle
views ticket [] = []
views ticket (r ∷ hs) = view_handle ticket r ∷ views ticket hs

-- The promise that a Context and the handles given out stand for.
abbrev pub view : Session → Promise
view (hs, s) = record {
  pending = pending_of s.context.status s.context.marshaller s.context.body;
  header = s.header;
  handles = views s.context.ticket hs;
}

abbrev replied : {A : Type 0} → Outcome A → (A → Reply) → Reply
replied (returned a) f = f a
replied (panicked e) f = panics e

-- What a call gives its caller.
unfoldable pub reply : Platform → Op → Session → Reply
unfolding Context.new_response Context.hijack Context.response Context.hijacked Context.delegate
    Response.status Response.header Response.body Response.marshal_zerolog_object
    Response.change_header Response.cookie Response.bytes_body Response.string_body
    Response.plain_text_body Response.octets_body Response.stream_body Response.json_body
reply p (Api.new_response c) (hs, s) = replied (Context.new_response c s).0 (λ r. done)
reply p (Api.hijack b) (hs, s) = replied (Context.hijack b s).0 (λ r. done)
reply p Api.response (hs, s) = replied (Context.response s).0 (λ r. flag r.1)
reply p Api.hijacked (hs, s) = replied (Context.hijacked s).0 flag
reply p Api.delegate (hs, s) = replied (Context.delegate (λ request. request) s).0 (λ r. done)
reply p (Api.status i) (hs, s) = replied (Response.status (at hs i) s).0 code
reply p (Api.header i) (hs, s) = replied (Response.header (at hs i) s).0 map_of
reply p (Api.body i) (hs, s) = replied (Response.body (at hs i) s).0 content
reply p (Api.marshal_zerolog_object i) (hs, s) =
    replied (Response.marshal_zerolog_object (at hs i) s).0 log
reply p (Api.change_header f i) (hs, s) =
    replied (Response.change_header f (at hs i) s).0 (λ r. done)
reply p (Api.cookie i c) (hs, s) = replied (Response.cookie p (at hs i) c s).0 (λ r. done)
reply p (Api.bytes_body i b) (hs, s) = replied (Response.bytes_body (at hs i) b s).0 (λ r. done)
reply p (Api.string_body i b) (hs, s) = replied (Response.string_body (at hs i) b s).0 (λ r. done)
reply p (Api.plain_text_body i b) (hs, s) =
    replied (Response.plain_text_body p (at hs i) b s).0 (λ r. done)
reply p (Api.octets_body i b) (hs, s) = replied (Response.octets_body p (at hs i) b s).0 (λ r. done)
reply p (Api.stream_body i b) (hs, s) = replied (Response.stream_body (at hs i) b s).0 (λ r. done)
reply p (Api.json_body i b) (hs, s) = replied (Response.json_body (at hs i) b s).0 (λ r. done)

unfoldable pub replies : Platform → List Op → Session → List Reply
unfolding reply step
replies p [] session = []
replies p (op ∷ ops) session = reply p op session ∷ replies p ops (step p op session)

pub handle_at-views :
    (t : ℕ) (hs : Handles) (i : ℕ) → handle_at (views t hs) i ≡ view_handle t (at hs i)
handle_at-views t [] i = refl
handle_at-views t (r ∷ hs) zero = refl
handle_at-views t (r ∷ hs) (suc i) = handle_at-views t hs i
